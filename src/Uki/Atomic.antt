-- ===== src/Uki/Atomic.antt =====
-- pkg/uki/uki.go: the files before and after Rewrite.
use actions.Prelude.{
  ◌≡◌, ◌≢◌, refl, sym, ap, ◌∙◌, ◌⊎◌, ◌==◌, Error, cmdline_count, arith, Bool, true, false, List,
  Option, none, some, Result, ok, err, signed, no_such_file, length, Option-cases, Bool-cases, inl,
  inr,
}
use actions.Text.{Text, text_eq}
use actions.Files.{Files, Faults, update}
use actions.Uki.{Bytes, PeFile, Layout, parse, is_signed}
use actions.Uki.Write.{write}
use actions.Uki.Rewrite.{tmp_path, check_rewrite, replace_file, commit, rewrite}

-- What a rewrite of `path` may do to the files. If it fails, they agree with the old ones but for the
-- temporary file. If it succeeds, they are the old ones with no temporary file and with `path` holding
-- bytes of which P holds.
abbrev pub IsAtomic : Files → Text → (Bytes → Type 0) → Result (Unit {0}) × Files → Type 0
IsAtomic files path P (err e, files') =
    (q : Text) → update files' (tmp_path path) none q ≡ update files (tmp_path path) none q
IsAtomic files path P (ok u, files') =
    (out : Bytes) × P out
    × ((q : Text) → files' q ≡ update (update files (tmp_path path) none) path (some out) q)

removed_twice :
    (files : Files) (path q : Text)
    → update (update files (tmp_path path) none) (tmp_path path) none q
      ≡ update files (tmp_path path) none q
unfolding update
removed_twice files path q = elim (Bool-cases (text_eq q (tmp_path path))) [
  | inl e ↦ rw e refl
  | inr e ↦ rw e refl
]

replace_file-IsAtomic :
    (faults : Faults) (files : Files) (path : Text) (r : Result Bytes)
    → IsAtomic files path (λ out. r ≡ ok out) (replace_file faults files path r)
unfolding replace_file
replace_file-IsAtomic faults files path (err e) = removed_twice files path
replace_file-IsAtomic faults files path (ok out) = elim (Bool-cases faults.write) [
  | inl e ↦ rw e (removed_twice files path)
  | inr w ↦ elim (Bool-cases faults.sync) [
    | inl e ↦ rw (w, e) (removed_twice files path)
    | inr s ↦ elim (Bool-cases faults.close) [
      | inl e ↦ rw (w, s, e) (removed_twice files path)
      | inr c ↦ elim (Bool-cases faults.rename) [
        | inl e ↦ rw (w, s, c, e) (removed_twice files path)
        | inr r ↦ rw (w, s, c, r) (out, refl, λ q. refl)
      ]
    ]
  ]
]

IsAtomic-map :
    (files : Files) (path : Text) (P Q : Bytes → Type 0) (r : Result (Unit {0}) × Files)
    → ((out : Bytes) → P out → Q out)
    → IsAtomic files path P r
    → IsAtomic files path Q r
IsAtomic-map files path P Q (err e, files') f h = h
IsAtomic-map files path P Q (ok u, files') f (out, p, rest) = (out, f out p, rest)

commit-IsAtomic :
    (faults : Faults) (files : Files) (path : Text) (file : Bytes) (cmdlines : List Bytes)
    (r : Result Layout)
    → IsAtomic files path
        (λ out. (l : Layout) × (r ≡ ok l) × (write file l cmdlines ≡ ok out))
        (commit faults files path file cmdlines r)
unfolding commit
commit-IsAtomic faults files path file cmdlines (err e) = λ q. refl
commit-IsAtomic faults files path file cmdlines (ok l) = elim (Bool-cases faults.create) [
  | inl e ↦ simp e (λ q. refl)
  | inr e ↦ simp e (
      IsAtomic-map files path _ _ (replace_file faults files path (write file l cmdlines))
        (λ out p. (l, refl, p)) (replace_file-IsAtomic faults files path (write file l cmdlines)))
]

module _ (pe_file : Bytes → Option PeFile) (faults : Faults) (files : Files) (path : Text)
    (cmdlines : List Bytes) (strip : Bool) where
  rewrite_missing :
      files path ≡ none
      → rewrite pe_file faults files path cmdlines strip ≡ (err no_such_file, files)
  unfolding rewrite
  rewrite_missing e = rw (e, rewrite)

  rewrite_found :
      (file : Bytes)
      → files path ≡ some file
      → rewrite pe_file faults files path cmdlines strip
        ≡ commit faults files path file cmdlines (check_rewrite pe_file file cmdlines strip)
  unfolding rewrite
  rewrite_found file e = rw (e, rewrite)

-- What the new file is: the bytes that write makes of the old file, for the layout that the checks
-- accept.
abbrev pub IsRewritten : (Bytes → Option PeFile) → Files → Text → List Bytes → Bool → Bytes → Type 0
IsRewritten pe_file files path cmdlines strip out =
    (file : Bytes) × (l : Layout) × (files path ≡ some file)
    × (check_rewrite pe_file file cmdlines strip ≡ ok l)
    × (write file l cmdlines ≡ ok out)

-- Whatever fails in it, Rewrite replaces a file whole or not at all. If it returns an error, every
-- file but the temporary one is as it was. If it returns none, the file at the path holds the bytes
-- that write makes of its old contents for the layout that the checks accept, the temporary file is
-- gone, and all others are as they were.
pub rewrite-IsAtomic :
    (pe_file : Bytes → Option PeFile) (faults : Faults) (files : Files) (path : Text)
    (cmdlines : List Bytes) (strip : Bool)
    → IsAtomic files path
        (IsRewritten pe_file files path cmdlines strip)
        (rewrite pe_file faults files path cmdlines strip)
rewrite-IsAtomic pe_file faults files path cmdlines strip = elim (Option-cases (files path)) [
  | inl e ↦ rw (rewrite_missing pe_file faults files path cmdlines strip e) (λ q. refl)
  | inr (file, e) ↦ rw (rewrite_found pe_file faults files path cmdlines strip file e) (
      IsAtomic-map files path _ _
        (commit faults files path file cmdlines (check_rewrite pe_file file cmdlines strip))
        (λ out (l, c, w). (file, l, e, c, w))
        (commit-IsAtomic faults files path file cmdlines
          (check_rewrite pe_file file cmdlines strip)))
]

-- What Rewrite does to a file that can be parsed, from what it checks.
rewrite_checked :
    (pe_file : Bytes → Option PeFile) (faults : Faults) (files : Files) (path : Text)
    (cmdlines : List Bytes) (file : Bytes) (strip : Bool) (r : Result Layout)
    → files path ≡ some file
    → check_rewrite pe_file file cmdlines strip ≡ r
    → rewrite pe_file faults files path cmdlines strip ≡ commit faults files path file cmdlines r
rewrite_checked pe_file faults files path cmdlines file strip r e c =
    rewrite_found pe_file faults files path cmdlines strip file e
    ∙ ap (commit faults files path file cmdlines) c

is_signed-cases :
    (l : Layout)
    → ((is_signed l ≡ true) × (l.optional.security.address ≢ 0) × (l.optional.security.length ≢ 0))
      ⊎ ((is_signed l ≡ false)
          × ((l.optional.security.address ≡ 0) ⊎ (l.optional.security.length ≡ 0)))
unfolding is_signed
is_signed-cases l = elim (Bool-cases (l.optional.security.address == 0)) [
  | inl a ↦ inr (simp a, inl (ground (arith, a)))
  | inr a ↦ elim (Bool-cases (l.optional.security.length == 0)) [
    | inl b ↦ inr (simp (a, b), inr (ground (arith, b)))
    | inr b ↦ inl (simp (a, b), (ground (arith, a)), (ground (arith, b)))
  ]
]

-- A signed image, one whose security directory has an address and a size, is refused where its
-- signature may not be stripped: nothing is written, and no temporary file is left; the error says so,
-- unless the number of command lines is wrong. For an image that is not signed it makes no difference
-- whether a signature may be stripped.
pub rewrite_signed :
    (pe_file : Bytes → Option PeFile) (faults : Faults) (files : Files) (path : Text)
    (cmdlines : List Bytes) (file : Bytes) (l : Layout)
    → files path ≡ some file
    → parse pe_file file ≡ ok l
    → ((l.optional.security.address ≢ 0)
        × (l.optional.security.length ≢ 0)
        × ((e : Error) × (rewrite pe_file faults files path cmdlines false ≡ (err e, files))
            × ((e ≡ signed) ⊎ ((e ≡ cmdline_count) × (length cmdlines ≢ length l.cmdlines)))))
      ⊎ (((l.optional.security.address ≡ 0) ⊎ (l.optional.security.length ≡ 0))
          × (rewrite pe_file faults files path cmdlines false
              ≡ rewrite pe_file faults files path cmdlines true))
rewrite_signed pe_file faults files path cmdlines file l e p =
    let checked = rewrite_checked pe_file faults files path cmdlines file in
    elim (is_signed-cases l) [
      | inl (s, address, size) ↦ inl (
        address,
        size,
        elim (Bool-cases (length cmdlines == length l.cmdlines)) [
          | inl n ↦ (
            signed,
            checked false (err signed) e (unfold check_rewrite in rw (p, n, s))
                ∙ (unfold commit in refl),
            inl refl,
          )
          | inr n ↦ (
            cmdline_count,
            checked false (err cmdline_count) e (unfold check_rewrite in rw (p, n))
                ∙ (unfold commit in refl),
            inr (refl, (ground (arith, n))),
          )
        ],
      )
      | inr (s, none_there) ↦ inr (
        none_there,
        checked false (check_rewrite pe_file file cmdlines true) e
              (unfold check_rewrite in rw (p, s))
            ∙ sym (checked true (check_rewrite pe_file file cmdlines true) e refl),
      )
    ]
