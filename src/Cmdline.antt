-- ===== src/Cmdline.antt =====
-- pkg/cmdline/cmdline.go: merging kernel arguments into the images on the EFI partition. Paths are
-- relative to the partition's root. What filepath.Glob finds is the parameter `glob`, none for a bad
-- pattern; a rewrite may fail otherwise for every image (`faults`). The calls of Apply are the events
-- of its result. Logging is not modelled.
pub mod Edit
pub mod Apply
mod Tests
use actions.Prelude.{
  ℕ, ◌+◌, Bool, true, false, not, ◌&&◌, ◌||◌, List, [], ◌∷◌, ◌++◌, map, Option, none, some, Error,
  Result, ok, err, ◌>>=◌, ◌>>◌, guard, or_err, no_such_file, no_kernel_args, escaping_pattern,
  bad_pattern, no_match, mount_failed, signed, length, if◌then◌else◌,
}
use actions.Prelude.Sort.{sort}
use actions.Text.{Text, codes, text_eq, text_leb, trim_space, has_prefix, contains}
use actions.Files.{Files, Faults}
use actions.Kargs.{merge}
use actions.Uki.{Bytes, PeFile, Info, inspect}
use actions.Uki.Rewrite.{rewrite}

abbrev pub default_pattern : Text
default_pattern = codes "EFI/Linux/Talos-*.efi"

abbrev pub default_mount_point : Text
default_mount_point = codes "/mountAction"

-- ValidatePattern
unfoldable pub validate_pattern : Text → Result (Unit {0})
unfolding has_prefix contains
validate_pattern pattern =
    guard (not (has_prefix pattern (codes "/") || contains pattern (codes ".."))) escaping_pattern

-- Result: what was done to the images, with the final command lines by path.
pub record Summary : Type 0 where
  pub updated : ℕ
  pub unchanged : ℕ
  pub cmdlines : List (Text × List Text)

-- A Summary and an error, as Go returns them, with the files as they are then.
pub record Outcome : Type 0 where
  pub summary : Summary
  pub error : Option Error
  pub files : Files

abbrev pub no_summary : Summary
no_summary = record { updated = 0; unchanged = 0; cmdlines = [] }

-- An outcome that stops before any file is read.
abbrev pub stopped : Files → Error → Outcome
stopped files e = record { summary = no_summary; error = some e; files = files }

-- m[path] = lines
unfoldable pub set_entry : Text → List Text → List (Text × List Text) → List (Text × List Text)
set_entry path lines [] = (path, lines) ∷ []
set_entry path lines ((q, old) ∷ m) =
    if text_eq q path then (path, lines) ∷ m else (q, old) ∷ set_entry path lines m

-- The loop over the command lines of one image: the merged lines, and whether one has changed.
unfoldable pub merge_all : Text → List Text → List Text × Bool
merge_all args [] = ([], false)
merge_all args (current ∷ rest) =
    let merged = merge current args in
    let (lines, changed) = merge_all args rest in
    (merged ∷ lines, not (text_eq merged current) || changed)

-- uki.Inspect of the image at a path.
unfoldable pub inspect_path : (Bytes → Option PeFile) → Files → Text → Result Info
inspect_path pe_file files path = do file ← or_err (files path) no_such_file; inspect pe_file file

-- What a rewrite of the image of this round leads to.
unfoldable pub after_rewrite : Summary → Result (Unit {0}) × Files → Outcome
after_rewrite noted (err e, files) = record { summary = noted; error = some e; files = files }
after_rewrite noted (ok u, files) = record {
  summary = record noted { updated = noted.updated + 1 };
  error = none;
  files = files;
}

module _ (pe_file : Bytes → Option PeFile) (faults : Text → Faults) (args : Text)
    (strip : Bool) where
  -- The end of a round: the image is left alone, refused or rewritten.
  unfoldable pub finish : Files → Summary → Text → Info → List Text × Bool → Outcome
  unfolding after_rewrite set_entry
  finish files res path info (merged, changed) =
      let noted = record res { cmdlines = set_entry path merged res.cmdlines } in
      if not changed
      then record {
        summary = record noted { unchanged = noted.unchanged + 1 };
        error = none;
        files = files;
      }
      else if info.signed && not strip
      then record { summary = noted; error = some signed; files = files }
      else after_rewrite noted (rewrite pe_file (faults path) files path merged strip)

  -- One round of EditTree's loop, with what Inspect returns.
  unfoldable pub edit_info : Files → Summary → Text → Result Info → Outcome
  edit_info files res path (err e) = record { summary = res; error = some e; files = files }
  edit_info files res path (ok info) = finish files res path info (merge_all args info.cmdlines)

  unfoldable pub edit_file : Files → Summary → Text → Outcome
  unfolding edit_info
  edit_file files res path = edit_info files res path (inspect_path pe_file files path)

  -- The loop: an error ends it.
  unfoldable pub edit_files : Files → Summary → List Text → Outcome
  edit_files files res [] = record { summary = res; error = none; files = files }
  edit_files files res (path ∷ paths) =
      let o = edit_file files res path in
      elim o.error [ some e ↦ o | none ↦ edit_files o.files o.summary paths ]

  -- EditTree
  unfoldable pub edit_tree : (Text → Option (List Text)) → Files → Text → Outcome
  edit_tree glob files pattern = elim (glob pattern) [
    | none ↦ stopped files bad_pattern
    | some [] ↦ stopped files no_match
    | some (path ∷ paths) ↦ edit_files files no_summary (sort text_leb (path ∷ paths))
  ]

-- The calls that Apply makes, in order: those of the Mounter, and that of EditTree with its root.
pub data Event : Type 0 where
  mount : Text → Text → Event
  edited : Text → Event
  unmount : Text → Event

-- A call, and what follows it.
abbrev pub after_call {ℓ} : {A : Type ℓ} → Event → A × List Event → A × List Event
after_call c (a, events) = (a, c ∷ events)

-- What comes first, and a deferred call.
abbrev pub deferred {ℓ} : {A : Type ℓ} → Event → A × List Event → A × List Event
deferred c (a, events) = (a, events ++ c ∷ [])

-- `or_default s d` is d where the option is empty.
abbrev pub or_default : Text → Text → Text
or_default [] d = d
or_default (c ∷ s) d = c ∷ s

module _ (pe_file : Bytes → Option PeFile) (faults : Text → Faults)
    (glob : Text → Option (List Text)) (mount_fails : Bool) where
  -- Apply: the deferred call unmounts once the mount has succeeded; its error is only logged.
  unfoldable pub apply : Files → Text → Text → Text → Text → Bool → Outcome × List Event
  apply files device args pattern_option mount_option strip =
      let pattern = or_default pattern_option default_pattern in
      let target = or_default mount_option default_mount_point in
      if text_eq (trim_space args) []
      then (stopped files no_kernel_args, [])
      else elim (validate_pattern pattern) [
        | err e ↦ (stopped files e, [])
        | ok u ↦ after_call (mount device target) (
            if mount_fails
            then (stopped files mount_failed, [])
            else deferred (unmount target) (
                after_call (edited target)
                  (edit_tree pe_file faults args strip glob files pattern, [])))
      ]
