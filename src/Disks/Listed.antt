-- ===== src/Disks/Listed.antt =====
-- pkg/disks/enumerate.go: what Enumerate lists.
use actions.Prelude.{
  ℕ, suc, ◌+◌, ◌≡◌, ◌≢◌, refl, ap, sym, ◌∙◌, Bool, true, false, ◌||◌, ◌&&◌, not, List, [], ◌∷◌,
  ◌++◌, Option, none, some, Error, Result, ok, err, length, subst, Memᴰ, All, All-map, All-Mem, any,
  arith, Bool-cases, Result-cases, inl, inr, ◌⊎◌, ◌↔◌, if◌then◌else◌, any-append,
}
use actions.Prelude.Sort.{sort, IsSorted, sort-IsSorted, All-sort, All-of_sort}
use actions.Text.{Text}
use actions.Text.Order.{text_leb_total, text_leb_trans}
use actions.Disks.{Disk, Enumeration, dev_node, note, probe_all, enumerate, sort_by_name, name_leb}

length-insert {ℓ} :
    {A : Type ℓ} (le : A → A → Bool) (x : A) (l : List A)
    → length (actions.Prelude.Sort.insert le x l) ≡ suc (length l)
unfolding actions.Prelude.Sort.insert
length-insert le x [] = refl
length-insert le x (y ∷ l) = elim (Bool-cases (le x y)) [
  | inl e ↦ rw e refl
  | inr e ↦ rw e (ap suc (length-insert le x l))
]

length-sort {ℓ} : {A : Type ℓ} (le : A → A → Bool) (l : List A) → length (sort le l) ≡ length l
unfolding sort
length-sort le [] = refl
length-sort le (x ∷ l) = length-insert le x (sort le l) ∙ ap suc (length-sort le l)

-- What holds of all members holds of one.
All-at {ℓ κ} : {A : Type ℓ} (P : A → Type κ) {a : A} (l : List A) → Memᴰ a l → All P l → P a
All-at P [] m h = elim m [ ]
All-at P (x ∷ l) (Memᴰ.head e) (h0, h) = subst P (sym e) h0
All-at P (x ∷ l) (Memᴰ.tail m) (h0, h) = All-at P l m h

module _ (dev_root : Text) (probe : Text → Result Disk) where
  -- What is listed of an entry whose probe has found a disk.
  abbrev pub listed_as : Text → Disk → Disk
  listed_as name found = record found { name = name; dev_path = dev_node dev_root probe name }

  -- A disk that is listed is what the probe has found at the node of an entry.
  abbrev pub IsListed : List Text → Disk → Type 0
  IsListed names d =
      (name : Text) × (found : Disk) × Memᴰ name names
      × (probe (dev_node dev_root probe name) ≡ ok found)
      × (d ≡ listed_as name found)

  -- What is skipped is an entry whose probe has failed, with its error.
  abbrev pub IsSkipped : List Text → Text × Error → Type 0
  IsSkipped names s = Memᴰ s.0 names × (probe (dev_node dev_root probe s.0) ≡ err s.1)

  -- An entry whose probe finds a disk is listed, and one whose probe fails is skipped.
  abbrev pub IsAccounted : List Disk → List (Text × Error) → Text → Type 0
  IsAccounted disks skipped name =
      ((found : Disk) × (probe (dev_node dev_root probe name) ≡ ok found)
        × Memᴰ (listed_as name found) disks)
      ⊎ ((e : Error) × (probe (dev_node dev_root probe name) ≡ err e) × Memᴰ (name, e) skipped)

  -- All of this, and that nothing is listed or skipped more often than there are entries.
  abbrev pub Accounts : List Text → Enumeration → Type 0
  Accounts names out =
      All (IsListed names) out.disks
      × All (IsSkipped names) out.skipped
      × All (IsAccounted out.disks out.skipped) names
      × (length out.disks + length out.skipped ≡ length names)

  IsListed-tail :
      (name : Text) (names : List Text) (d : Disk) → IsListed names d → IsListed (name ∷ names) d
  IsListed-tail name names d (n, found, m, r, e) = (n, found, Memᴰ.tail m, r, e)

  IsAccounted-tail :
      (disks : List Disk) (skipped : List (Text × Error)) (d : Disk) (name : Text)
      → IsAccounted disks skipped name
      → IsAccounted (d ∷ disks) skipped name
  IsAccounted-tail disks skipped d name (inl (found, r, m)) = inl (found, r, Memᴰ.tail m)
  IsAccounted-tail disks skipped d name (inr s) = inr s

  IsAccounted-skip :
      (disks : List Disk) (skipped : List (Text × Error)) (s : Text × Error) (name : Text)
      → IsAccounted disks skipped name
      → IsAccounted disks (s ∷ skipped) name
  IsAccounted-skip disks skipped s name (inl l) = inl l
  IsAccounted-skip disks skipped s name (inr (e, r, m)) = inr (e, r, Memᴰ.tail m)

  note-Accounts :
      (name : Text) (names : List Text) (r : Result Disk) (rest : Enumeration)
      → probe (dev_node dev_root probe name) ≡ r
      → Accounts names rest
      → Accounts (name ∷ names) (note dev_root probe name r rest)
  unfolding note
  note-Accounts name names (err e) rest h (listed, skipped, all, count) = (
    All-map (IsListed-tail name names) rest.disks listed,
    ((Memᴰ.head refl, h), All-map (λ s z. (Memᴰ.tail z.0, z.1)) rest.skipped skipped),
    (
      inr (e, h, Memᴰ.head refl),
      All-map (IsAccounted-skip rest.disks rest.skipped (name, e)) names all,
    ),
    omega (arith, count),
  )
  note-Accounts name names (ok d) rest h (listed, skipped, all, count) = (
    ((name, d, Memᴰ.head refl, h, refl), All-map (IsListed-tail name names) rest.disks listed),
    All-map (λ s z. (Memᴰ.tail z.0, z.1)) rest.skipped skipped,
    (
      inl (d, h, Memᴰ.head refl),
      All-map (IsAccounted-tail rest.disks rest.skipped (listed_as name d)) names all,
    ),
    omega (arith, count),
  )

  probe_all-Accounts : (names : List Text) → Accounts names (probe_all dev_root probe names)
  unfolding probe_all
  probe_all-Accounts [] = (tt, tt, tt, refl)
  probe_all-Accounts (name ∷ names) =
      note-Accounts name names (probe (dev_node dev_root probe name))
        (probe_all dev_root probe names) refl (probe_all-Accounts names)

  IsAccounted-sort :
      (disks : List Disk) (skipped : List (Text × Error)) (name : Text)
      → IsAccounted disks skipped name
      → IsAccounted (sort name_leb disks) skipped name
  IsAccounted-sort disks skipped name (inr s) = inr s
  IsAccounted-sort disks skipped name (inl (found, r, m)) = inl (
    found,
    r,
    All-at (λ d. Memᴰ d (sort name_leb disks)) disks m
        (All-of_sort name_leb (λ d. Memᴰ d (sort name_leb disks)) disks
          (All-Mem (sort name_leb disks))),
  )

  -- Enumerate lists, in the order of their names, exactly the disks that the probe finds at the nodes
  -- of the entries, each with the name and the node of its entry, and skips exactly the entries whose
  -- probe fails, each with its error: every entry is listed or skipped, and the disks that are listed
  -- and the entries that are skipped are as many as the entries.
  pub enumerate_lem :
      (names : List Text)
      → (out : Enumeration) × (enumerate dev_root probe (some names) ≡ ok out)
        × IsSorted name_leb out.disks
        × Accounts names out
  unfolding enumerate sort_by_name
  enumerate_lem names =
      let (listed, skipped, all, count) = probe_all-Accounts names in
      let out = probe_all dev_root probe names in
      (
        _,
        refl,
        sort-IsSorted name_leb (λ a b. text_leb_total a.name b.name)
            (λ a b c. text_leb_trans a.name b.name c.name) out.disks,
        (
          All-sort name_leb (IsListed names) out.disks listed,
          skipped,
          All-map (IsAccounted-sort out.disks out.skipped) names all,
          omega (arith, count, length-sort name_leb out.disks),
        ),
      )
