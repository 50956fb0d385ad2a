-- ===== src/Disks/Chosen.antt =====
-- pkg/disks/selector.go: what Select and SelectPath choose among the disks of the machine.
use actions.Prelude.{
  ◌≡◌, refl, ap, subst, All-map, ◌++◌, Bool, true, false, not, ◌&&◌, List, [], ◌∷◌, Option, Result,
  ok, err, All, All-Mem, All-filter, filter-eq_nil, filter, no_disk_matches, not_eligible,
  no_such_disk, Memᴰ, ◌⊎◌, inl, inr, Bool-cases, if◌then◌else◌,
}
use actions.Prelude.Sort.{sort, All-sort, All-of_sort, sort-IsSorted, first-filter_le}
use actions.Text.{Text, text_eq, text_leb}
use actions.Text.Order.{text_leb_total, text_leb_trans}
use actions.Disks.{Disk, eligible, sort_by_name, name_leb}
use actions.Disks.Selector.{Selector, matches}
use actions.Disks.Select.{select, take_first, select_path, find_path, resolve}

module _ (glob : Text → Text → Bool) (all : List Disk) (sel : Selector) where
  -- The disk is one of the machine's and matches the selector, and no disk that matches comes before
  -- it in the order of the kernel names.
  abbrev pub IsChosen : Disk → Type 0
  IsChosen d =
      Memᴰ d all
      × (matches glob sel d ≡ true)
      × All (λ e. text_leb d.name e.name ≡ true) (filter (matches glob sel) all)

  least_of_first :
      (c : Disk) (cs : List Disk)
      → filter (matches glob sel) (sort name_leb all) ≡ c ∷ cs
      → All (λ e. text_leb c.name e.name ≡ true) (filter (matches glob sel) all)
  least_of_first c cs f =
      All-map (λ e h. h.0 h.1) (filter (matches glob sel) all)
        (All-filter (λ e. matches glob sel e ≡ true → text_leb c.name e.name ≡ true)
          (matches glob sel) all
          (All-of_sort name_leb (λ e. matches glob sel e ≡ true → text_leb c.name e.name ≡ true) all
            (first-filter_le name_leb (λ a b. text_leb_total a.name b.name)
              (λ a b c. text_leb_trans a.name b.name c.name) (matches glob sel) (sort name_leb all)
              c cs
              (sort-IsSorted name_leb (λ a b. text_leb_total a.name b.name)
                (λ a b c. text_leb_trans a.name b.name c.name) all)
              f)))

  kept_members :
      All
        (λ e. Memᴰ e all × (matches glob sel e ≡ true))
        (filter (matches glob sel) (sort name_leb all))
  kept_members =
      All-filter (λ e. Memᴰ e all) (matches glob sel) (sort name_leb all)
        (All-sort name_leb (λ e. Memᴰ e all) all (All-Mem all))

  abbrev Outcomes : Result (Disk × List Disk) → Type 0
  Outcomes r =
      ((d : Disk) × (ds : List Disk) × (r ≡ ok (d, d ∷ ds)) × IsChosen d)
      ⊎ ((r ≡ err no_disk_matches) × All (λ d. matches glob sel d ≡ false) all)

  take_first-Outcomes :
      (cs : List Disk)
      → filter (matches glob sel) (sort name_leb all) ≡ cs
      → Outcomes (take_first cs)
  unfolding take_first
  take_first-Outcomes [] f = inr (
    refl,
    All-of_sort name_leb (λ d. matches glob sel d ≡ false) all
        (filter-eq_nil (matches glob sel) (sort name_leb all) f),
  )
  take_first-Outcomes (c ∷ cs) f =
      let kept = subst (All (λ e. Memᴰ e all × (matches glob sel e ≡ true))) f kept_members in
      inl (c, cs, refl, (kept.0.0, kept.0.1, least_of_first c cs f))

  -- Select returns a disk of the machine that matches the selector, first by kernel name among all
  -- that match, as the first of the candidates; or it returns an error, and no disk matches.
  pub select_lem :
      ((d : Disk) × (ds : List Disk) × (select glob all sel ≡ ok (d, d ∷ ds)) × IsChosen d)
      ⊎ ((select glob all sel ≡ err no_disk_matches) × All (λ d. matches glob sel d ≡ false) all)
  unfolding sort_by_name
  select_lem = unfold select in take_first-Outcomes _ refl

-- The disk stands at one of the two paths.
abbrev pub stands_at : Text → Text → Disk → Bool
stands_at resolved path d = not (not (text_eq d.dev_path resolved) && not (text_eq d.dev_path path))

find_path_lem :
    (resolved path : Text) (all : List Disk)
    → ((d : Disk) × (before after : List Disk) × (all ≡ before ++ d ∷ after)
        × (filter (stands_at resolved path) before ≡ [])
        × (stands_at resolved path d ≡ true)
        × (find_path resolved path all ≡ (if eligible d then ok d else err not_eligible)))
      ⊎ ((find_path resolved path all ≡ err no_such_disk)
          × (filter (stands_at resolved path) all ≡ []))
unfolding find_path
find_path_lem resolved path [] = inr (refl, refl)
find_path_lem resolved path (d ∷ all) =
    elim (Bool-cases (not (text_eq d.dev_path resolved) && not (text_eq d.dev_path path))) [
      | inr e ↦ inl (
        d,
        [],
        all,
        refl,
        refl,
        rw e refl,
        rw e (elim (Bool-cases (eligible d)) [ inl t ↦ rw t refl | inr t ↦ rw t refl ]),
      )
      | inl e ↦ elim (find_path_lem resolved path all) [
        | inr (h, k) ↦ inr (rw e h, rw e k)
        | inl (x, before, after, split, clear, here, h) ↦
            inl (x, d ∷ before, after, ap (λ l. d ∷ l) split, rw e clear, here, rw e h)
      ]
    ]

-- SelectPath decides by the first disk that stands at the path or at what it resolves to: it returns
-- that disk, or refuses it if it is not eligible; if no disk stands there, it says so.
pub select_path_lem :
    (eval_symlinks : Text → Option Text) (all : List Disk) (path : Text)
    → ((d : Disk) × (before after : List Disk) × (all ≡ before ++ d ∷ after)
        × (filter (stands_at (resolve eval_symlinks path) path) before ≡ [])
        × (stands_at (resolve eval_symlinks path) path d ≡ true)
        × (select_path eval_symlinks all path ≡ (if eligible d then ok d else err not_eligible)))
      ⊎ ((select_path eval_symlinks all path ≡ err no_such_disk)
          × (filter (stands_at (resolve eval_symlinks path) path) all ≡ []))
unfolding select_path
select_path_lem eval_symlinks all path = find_path_lem (resolve eval_symlinks path) path all
