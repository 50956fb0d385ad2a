-- ===== src/Partition/Ensured.antt =====
-- pkg/partition/node.go: that EnsureNode ends, and what it returns.
use actions.Prelude.{
  ℕ, zero, suc, ◌+◌, ◌≤◌, ◌<◌, ◌≡◌, refl, sym, ◌∙◌, Bool, true, false, [], ◌∷◌, Option, some,
  Result, ok, err, ◌>>=◌, or_err, on_ok, or_err-ok, ltb, arith, Bool-cases, inl, inr, ◌⊎◌,
  mkdir_failed, dev_unreadable,
}
use actions.Text.{Text, trim_space}
use actions.Text.Paths.{FilePath, clean_path, join_path, path_text}
use actions.Partition.{base_name, device}
use actions.Partition.Parsed.{ReadsAs, parse_numbers-ReadsAs}
use actions.Partition.Node.{
  NodeOptions, with_defaults, duration_or, Machine, after_look, wait_from, call_mkdir, call_remove,
  call_mknod, Ensured, resolved_disk, dev_file, read_numbers, make_private, after_wait,
  ensure_node_at,
}

module _ (m : Machine) (node : Text) (deadline poll : ℕ) where
  -- How the wait ends: the node was seen at a time, or it was not.
  abbrev IsWaited : Option Bool → Type 0
  IsWaited r = ((t : ℕ) × (m.there node t ≡ true) × (r ≡ some true)) ⊎ (r ≡ some false)

  wait_from-IsWaited :
      (fuel now k : ℕ)
      → 0 < fuel
      → deadline + 1 < now + fuel
      → 0 < poll
      → IsWaited (wait_from m node deadline poll fuel now k)
  unfolding wait_from after_look
  wait_from-IsWaited zero now k some_fuel late pos = ground arith
  wait_from-IsWaited (suc fuel) now k some_fuel late pos =
      elim (Bool-cases (m.there node (now + m.look k))) [
        | inl e ↦ simp e (inl (now + m.look k, e, refl))
        | inr e ↦ simp e (elim (Bool-cases (ltb deadline (now + m.look k + m.lag k))) [
          | inl t ↦ rw t (inr refl)
          | inr t ↦ rw t (
              wait_from-IsWaited fuel (now + m.look k + m.lag k + (poll + m.overslept k)) (k + 1)
                (ground arith) (omega arith) pos)
        ])
      ]

  -- A node that is there from a time on is seen, if the clock cannot pass the deadline between a look
  -- before this time and its reading.
  wait_from_sees :
      (since slack fuel now k : ℕ)
      → since + slack ≤ deadline
      → ((j : ℕ) → m.lag j ≤ slack)
      → ((t : ℕ) → since ≤ t → m.there node t ≡ true)
      → 0 < fuel
      → deadline + 1 < now + fuel
      → 0 < poll
      → wait_from m node deadline poll fuel now k ≡ some true
  unfolding wait_from after_look
  wait_from_sees since slack zero now k early quick stays some_fuel late pos = ground arith
  wait_from_sees since slack (suc fuel) now k early quick stays some_fuel late pos =
      elim (Bool-cases (m.there node (now + m.look k))) [
        | inl e ↦ simp e refl
        | inr e ↦ elim (Bool-cases (ltb deadline (now + m.look k + m.lag k))) [
          | inl t ↦ absurd (differ (sym e ∙ stays (now + m.look k) (ground (arith, quick k))))
          | inr t ↦ simp e (
              rw t (
                wait_from_sees since slack fuel (now + m.look k + m.lag k + (poll + m.overslept k))
                  (k + 1) early quick stays (ground arith) (omega arith) pos))
        ]
      ]
    where
      differ : false ≡ true → ⊥
      differ h = cc

duration_or_pos : (n default : ℕ) → 0 < default → 0 < duration_or n default
duration_or_pos zero default h = h
duration_or_pos (suc n) default h = omega arith

-- Where EnsureNode always reads the clock at most so long after its look, and the node of the partition
-- appears so long before the wait is over, or earlier, and stays, EnsureNode returns it, and makes no
-- call to change anything, however long its looks and its sleeps take.
pub ensure_node_at_appears :
    (m : Machine) (now : ℕ) (disk : Text) (index : ℕ) (options : NodeOptions) (since slack : ℕ)
    → since + slack ≤ now + (with_defaults options).wait
    → ((j : ℕ) → m.lag j ≤ slack)
    → ((t : ℕ) → since ≤ t → m.there (device disk index) t ≡ true)
    → ensure_node_at m now disk index options
      ≡ some (record { result = ok (device disk index); calls = [] })
unfolding ensure_node_at after_wait
ensure_node_at_appears m now disk index options since slack early quick stays =
    let opts = with_defaults options in
    rw
      (wait_from_sees m (device disk index) (now + opts.wait) opts.poll since slack (opts.wait + 2)
        now 0 early quick stays (omega arith) (omega arith)
        (duration_or_pos options.poll 200000000 (omega arith)))
      refl

-- The private node is made with the numbers that sysfs has for the partition, or not at all.
module _ (m : Machine) (opts : NodeOptions) (disk : Text) (index : ℕ) where
  -- The names of the disk and of the partition behind links.
  abbrev pub disk_behind : Text
  disk_behind = resolved_disk (m.eval_symlinks disk) disk

  abbrev pub part_behind : Text
  part_behind = base_name (device disk_behind index)

  abbrev pub private_path : FilePath
  private_path = join_path (clean_path opts.private_dir) part_behind

  -- The private node: the numbers are those of the file in sysfs. Where the directory cannot be made,
  -- this is the only call. Else the node is made once, in the place of what was there, and its path is
  -- returned, or the error of Mknod.
  abbrev pub IsPrivate : Ensured → Type 0
  IsPrivate o =
      (raw : Text) × (major : ℕ) × (minor : ℕ) × (m.read_file
          (dev_file opts.sys_root (base_name disk_behind) part_behind)
        ≡ some raw)
      × ReadsAs (trim_space raw) major minor
      × (((m.mkdir_all opts.private_dir ≡ false)
            × (o ≡ record { result = err mkdir_failed; calls = call_mkdir opts.private_dir ∷ [] }))
          ⊎ ((m.mkdir_all opts.private_dir ≡ true)
              × (o.calls
                  ≡ call_mkdir opts.private_dir
                    ∷ call_remove private_path
                    ∷ call_mknod private_path major minor
                    ∷ [])
              × (o.result
                  ≡ (m.mknod private_path major minor >>= λ u. ok (path_text private_path)))))

  abbrev pub IsRefused : Ensured → Type 0
  IsRefused o = (e : _) × (o ≡ record { result = err e; calls = [] })

  make_private-cases :
      (r : Result (ℕ × ℕ))
      → read_numbers m opts.sys_root (base_name disk_behind) part_behind ≡ r
      → IsRefused (make_private m opts.private_dir part_behind r)
        ⊎ IsPrivate (make_private m opts.private_dir part_behind r)
  unfolding make_private read_numbers
  make_private-cases (err e) h = inl (e, refl)
  make_private-cases (ok (major, minor)) h =
      on_ok
        (or_err (m.read_file (dev_file opts.sys_root (base_name disk_behind) part_behind))
          dev_unreadable)
        _ h
        (λ raw read h1.
          let numbers = parse_numbers-ReadsAs (trim_space raw) (major, minor) h1 in
          let there = or_err-ok _ dev_unreadable raw read in
          elim (Bool-cases (m.mkdir_all opts.private_dir)) [
            | inr d ↦ simp d (inr (raw, major, minor, there, numbers, inl (refl, refl)))
            | inl d ↦ simp d (inr (raw, major, minor, there, numbers, inr (refl, refl, refl)))
          ])

-- EnsureNode ends, however long its looks and its sleeps take. It returns the kernel's node, which it
-- has seen at some time, and has made no call to change anything; or it stops with an error and has
-- made no such call; or the file in sysfs holds a major and a minor number, both below 2^32. Then it
-- calls MkdirAll, and stops with an error where that fails, and else it calls Remove and, once, Mknod
-- with these numbers, and returns the path of the private node or the error of Mknod.
pub ensure_node_at_ends :
    (m : Machine) (now : ℕ) (disk : Text) (index : ℕ) (options : NodeOptions)
    → (o : Ensured) × (ensure_node_at m now disk index options ≡ some o)
      × (((t : ℕ) × (m.there (device disk index) t ≡ true)
            × (o ≡ record { result = ok (device disk index); calls = [] }))
          ⊎ IsRefused m (with_defaults options) disk index o
          ⊎ IsPrivate m (with_defaults options) disk index o)
unfolding ensure_node_at after_wait
ensure_node_at_ends m now disk index options =
    let opts = with_defaults options in
    elim (wait_from-IsWaited m (device disk index) (now + opts.wait) opts.poll (opts.wait + 2) now 0
      (omega arith) (omega arith) (duration_or_pos options.poll 200000000 (omega arith))) [
        | inl (t, seen, e) ↦ rw e (_, refl, inl (t, seen, refl))
        | inr e ↦ rw e (_, refl, inr (make_private-cases m opts disk index _ refl))
      ]
