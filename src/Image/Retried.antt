-- ===== src/Image/Retried.antt =====
-- pkg/image/image.go: how Retry ends.
use actions.Prelude.{
  ℕ, zero, suc, ◌+◌, ◌≤◌, ◌<◌, ◌≡◌, refl, sym, true, Option, some, Result, ok, err, cancelled, ltb,
  ◌==◌, arith, Bool-cases, Result-cases, inl, inr, ◌⊎◌,
}
use actions.Image.{Attempts, Ended, retry_base, next_delay, after_attempt, retry_from, retry}

-- The end of a run: the result is that of the last attempt, or the context was done in the wait after
-- it, which had failed.
abbrev pub IsEnd : Attempts → Ended → Type 0
IsEnd world e =
    (k : ℕ) × (e.attempts ≡ k + 1)
    × ((e.result ≡ world.outcome k) ⊎ ((e.result ≡ err cancelled) × (world.done k ≡ true)))

module _ (window deadline : ℕ) (world : Attempts) where
  -- The loop has ended: it gives a result, and it is an end.
  abbrev HasEnded : Option Ended → Type 0
  HasEnded r = (e : Ended) × (r ≡ some e) × IsEnd world e

  after_attempt-HasEnded :
      (now delay k : ℕ) (r : Result (Unit {0})) (rest : Option Ended)
      → world.outcome k ≡ r
      → (now + delay ≤ deadline → HasEnded rest)
      → HasEnded (after_attempt window deadline world now delay k r rest)
  unfolding after_attempt
  after_attempt-HasEnded now delay k (ok u) rest h more = (_, refl, (k, refl, inl (sym h)))
  after_attempt-HasEnded now delay k (err e) rest h more = elim (Bool-cases (window == 0)) [
    | inl w ↦ rw w (_, refl, (k, refl, inl (sym h)))
    | inr w ↦ elim (Bool-cases (ltb deadline (now + delay))) [
      | inl t ↦ rw (w, t) (_, refl, (k, refl, inl (sym h)))
      | inr t ↦ elim (Bool-cases (world.done k)) [
        | inl d ↦ rw (w, t) (simp d (_, refl, (k, refl, inr (refl, d))))
        | inr d ↦ rw (w, t) (simp d (more (ground arith)))
      ]
    ]
  ]

  next_delay_pos : (delay : ℕ) → 0 < delay → 0 < next_delay delay
  next_delay_pos delay h = ground arith

  retry_from-HasEnded :
      (fuel now delay k : ℕ)
      → 0 < fuel
      → deadline < now + fuel
      → 0 < delay
      → HasEnded (retry_from window deadline world fuel now delay k)
  unfolding retry_from
  retry_from-HasEnded zero now delay k some_fuel late pos = ground arith
  retry_from-HasEnded (suc fuel) now delay k some_fuel late pos =
      after_attempt-HasEnded (now + world.duration k) delay k (world.outcome k)
        (retry_from window deadline world fuel (now + world.duration k + delay) (next_delay delay)
          (k + 1))
        refl
        (λ within.
          retry_from-HasEnded fuel (now + world.duration k + delay) (next_delay delay) (k + 1)
            (omega arith) (omega arith) (next_delay_pos delay pos))

-- Retry ends, whatever the attempts do and however long they take: with the result of its last
-- attempt, or as cancelled where the context was done in the wait after it.
pub retry_ends :
    (now window : ℕ) (world : Attempts)
    → (e : Ended) × (retry now window world ≡ some e)
      × ((k : ℕ) × (e.attempts ≡ k + 1)
          × ((e.result ≡ world.outcome k) ⊎ ((e.result ≡ err cancelled) × (world.done k ≡ true))))
unfolding retry
retry_ends now window world =
    retry_from-HasEnded window (now + window) world (window + 1) now retry_base 0 (omega arith)
      (omega arith) (omega arith)

-- With a window of zero there is one attempt, and its result is returned.
retry_once :
    (now : ℕ) (world : Attempts)
    → retry now 0 world ≡ some (record { result = world.outcome 0; attempts = 1 })
unfolding retry retry_from
retry_once now world = elim (Result-cases (world.outcome 0)) [
  | inl (u, e) ↦ unfold after_attempt in simp e refl
  | inr (x, e) ↦ unfold after_attempt in simp e refl
]
