-- ===== src/Cmdline/Tests.antt =====
-- The theorems on editing at a disk with one image.
use actions.Prelude.{◌≡◌, refl, false, List, [], ◌∷◌, Option, none, some, ok, ◌⊎◌}
use actions.Files.{Faults}
use actions.Text.{Text, codes, is_space, text_eq, text_eq_iff, cut, has_member, join}
use actions.Text.Fields.{fields}
use actions.Kargs.{merge}
use actions.Uki.Rewrite.{tmp_path}
use actions.Uki.{Info, inspect}
use actions.Uki.Sample.{optional, headers_of, uki_path, disk, no_faults}
use actions.Cmdline.{
  edit_file, edit_files, edit_tree, apply, no_summary, inspect_path, default_pattern,
  default_mount_point, set_entry, finish, merge_all,
}
use actions.Cmdline.Edit.{Apart, edit_file_again, edit_tree-Apart}
use actions.Cmdline.Apply.{total, edit_files_count, apply_mounts, IsRefusal, IsMounted}

-- No rewrite fails.
abbrev steady : Text → Faults
steady path = no_faults

abbrev quiet : Text
quiet = codes "quiet"

abbrev found : Info
found = record {
  cmdlines = quiet ∷ [];
  locations = record { section = 1; offset = 512; size = 5 } ∷ [];
  signed = false;
}

inspect_disk : inspect_path (headers_of optional) disk uki_path ≡ ok found
unfolding inspect_path text_eq inspect
inspect_disk = refl

edit_file_again_example :
    edit_file (headers_of optional) steady quiet false disk no_summary uki_path ≡ record {
      summary = record { updated = 0; unchanged = 1; cmdlines = (uki_path, quiet ∷ []) ∷ [] };
      error = none;
      files = disk;
    }
unfolding set_entry merge join fields cut has_member is_space
edit_file_again_example =
    edit_file_again (headers_of optional) steady quiet false disk no_summary uki_path found
      (quiet ∷ []) inspect_disk refl

abbrev other : Text
other = codes "loader.conf"

abbrev one_match : Text → Option (List Text)
one_match pattern = some (uki_path ∷ [])

other-Apart : Apart other uki_path
unfolding text_eq
other-Apart = (
  (λ e. cc ((text_eq_iff other uki_path).1 e)),
  (λ e. cc ((text_eq_iff other (tmp_path uki_path)).1 e)),
)

edit_tree-Apart_example :
    (edit_tree
        (headers_of optional)
        steady
        (codes "a=1")
        false
        one_match
        disk
        default_pattern).files
      other
    ≡ disk other
edit_tree-Apart_example =
    edit_tree-Apart (headers_of optional) steady (codes "a=1") false one_match disk default_pattern
      other (uki_path ∷ []) refl (other-Apart, tt)

edit_files_runs :
    (edit_files (headers_of optional) steady quiet false disk no_summary (uki_path ∷ [])).error
    ≡ none
unfolding edit_files edit_file inspect_path text_eq inspect finish merge_all merge join fields cut
    has_member is_space
edit_files_runs = refl

edit_files_count_example :
    total
      (edit_files (headers_of optional) steady quiet false disk no_summary (uki_path ∷ [])).summary
    ≡ 1
edit_files_count_example =
    edit_files_count (headers_of optional) steady quiet false (uki_path ∷ []) disk no_summary
      edit_files_runs

apply_mounts_example :
    let r =
      apply (headers_of optional) steady one_match false disk quiet (codes "a=1") [] [] false in
    IsRefusal disk (codes "a=1") default_pattern r
    ⊎ IsMounted disk quiet default_mount_point
        (codes "a=1")
        default_pattern
        false
        (edit_tree (headers_of optional) steady (codes "a=1") false one_match disk default_pattern)
        r
apply_mounts_example =
    apply_mounts (headers_of optional) steady one_match false disk quiet (codes "a=1") [] [] false
