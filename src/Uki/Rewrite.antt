-- ===== src/Uki/Rewrite.antt =====
-- pkg/uki/uki.go: Rewrite. The new file is written beside the old one and renamed over it; a fault
-- removes it again.
use actions.Prelude.{
  Bool, not, ◌&&◌, List, ◌++◌, Option, none, some, Result, ok, err, ◌>>=◌, ◌>>◌, guard,
  no_such_file, create_failed, write_failed, sync_failed, close_failed, rename_failed,
  cmdline_count, signed, length, ◌==◌, if◌then◌else◌,
}
use actions.Text.{Text, codes}
use actions.Files.{Files, Faults, update}
use actions.Uki.{Bytes, PeFile, Layout, parse, is_signed}
use actions.Uki.Write.{write}

-- path + tmpSuffix
abbrev pub tmp_path : Text → Text
tmp_path path = path ++ codes ".tmp"

module _ (pe_file : Bytes → Option PeFile) where
  -- What Rewrite checks before it creates a file.
  unfoldable pub check_rewrite : Bytes → List Bytes → Bool → Result Layout
  check_rewrite file cmdlines strip = do
    l ← parse pe_file file
    guard (length cmdlines == length l.cmdlines) cmdline_count
    guard (not (is_signed l && not strip)) signed
    ok l

-- The steps after os.OpenFile: each fault removes the temporary file.
unfoldable pub replace_file : Faults → Files → Text → Result Bytes → Result (Unit {0}) × Files
replace_file faults files path (err e) = (err e, update files (tmp_path path) none)
replace_file faults files path (ok out) =
    if faults.write
    then (err write_failed, update files (tmp_path path) none)
    else if faults.sync
    then (err sync_failed, update files (tmp_path path) none)
    else if faults.close
    then (err close_failed, update files (tmp_path path) none)
    else if faults.rename
    then (err rename_failed, update files (tmp_path path) none)
    else (ok tt, update (update files (tmp_path path) none) path (some out))

-- Rewrite after the checks.
unfoldable pub commit :
    Faults → Files → Text → Bytes → List Bytes → Result Layout → Result (Unit {0}) × Files
commit faults files path file cmdlines (err e) = (err e, files)
commit faults files path file cmdlines (ok l) =
    if faults.create
    then (err create_failed, files)
    else replace_file faults files path (write file l cmdlines)

module _ (pe_file : Bytes → Option PeFile) where
  unfoldable pub rewrite : Faults → Files → Text → List Bytes → Bool → Result (Unit {0}) × Files
  rewrite faults files path cmdlines strip = elim (files path) [
    | none ↦ (err no_such_file, files)
    | some file ↦ commit faults files path file cmdlines (check_rewrite pe_file file cmdlines strip)
  ]
