-- ===== src/Disks/Select.antt =====
-- pkg/disks/selector.go: Select and SelectPath. filepath.EvalSymlinks is the parameter
-- `eval_symlinks`, none for an error.
use actions.Prelude.{
  Bool, not, ◌&&◌, List, [], ◌∷◌, Option, none, some, Result, ok, err, no_disk_matches,
  not_eligible, no_such_disk, filter, if◌then◌else◌,
}
use actions.Text.{Text, text_eq}
use actions.Disks.{Disk, eligible, sort_by_name}
use actions.Disks.Selector.{Selector, matches}

-- The first candidate, if there is one, and all of them.
unfoldable pub take_first : List Disk → Result (Disk × List Disk)
take_first [] = err no_disk_matches
take_first (d ∷ candidates) = ok (d, d ∷ candidates)

-- Select
unfoldable pub select : (Text → Text → Bool) → List Disk → Selector → Result (Disk × List Disk)
select glob all sel = take_first (filter (matches glob sel) (sort_by_name all))

-- resolved := path, or what the symbolic links lead to.
unfoldable pub resolve : (Text → Option Text) → Text → Text
resolve eval_symlinks path = elim (eval_symlinks path) [ none ↦ path | some r ↦ r ]

-- The loop of SelectPath: the first disk at one of the two paths.
unfoldable pub find_path : Text → Text → List Disk → Result Disk
find_path resolved path [] = err no_such_disk
find_path resolved path (d ∷ all) =
    if not (text_eq d.dev_path resolved) && not (text_eq d.dev_path path)
    then find_path resolved path all
    else if not (eligible d)
    then err not_eligible
    else ok d

-- SelectPath
unfoldable pub select_path : (Text → Option Text) → List Disk → Text → Result Disk
select_path eval_symlinks all path = find_path (resolve eval_symlinks path) path all
