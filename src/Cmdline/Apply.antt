-- ===== src/Cmdline/Apply.antt =====
-- pkg/cmdline/cmdline.go: the mounts of Apply, and the counts of the summary.
use actions.Prelude.{
  ℕ, ◌+◌, ◌≡◌, refl, Bool, true, false, not, ◌&&◌, ◌||◌, List, [], ◌∷◌, Option, none, Error, Result,
  ok, err, no_kernel_args, escaping_pattern, mount_failed, length, arith, Bool-cases, Option-cases,
  inl, inr, ◌⊎◌,
}
use actions.Text.{Text, codes, text_eq, trim_space, has_prefix, contains}
use actions.Files.{Files, Faults}
use actions.Uki.{Bytes, PeFile, Info}
use actions.Uki.Rewrite.{rewrite}
use actions.Cmdline.{
  Summary, Outcome, Event, mount, edited, unmount, merge_all, after_rewrite, finish, edit_info,
  edit_file, edit_files, edit_tree, apply, stopped, inspect_path, validate_pattern, or_default,
  default_pattern, default_mount_point,
}

abbrev pub total : Summary → ℕ
total s = s.updated + s.unchanged

-- A round without an error counts one image more.
abbrev Counts : Summary → Outcome → Type 0
Counts res o = o.error ≡ none → total o.summary ≡ total res + 1

module _ (pe_file : Bytes → Option PeFile) (faults : Text → Faults) (args : Text)
    (strip : Bool) where
  after_rewrite-Counts :
      (noted : Summary) (r : Result (Unit {0}) × Files) → Counts noted (after_rewrite noted r)
  unfolding after_rewrite
  after_rewrite-Counts noted (err e, files) h = cc
  after_rewrite-Counts noted (ok u, files) h = omega arith

  finish-Counts :
      (files : Files) (res : Summary) (path : Text) (info : Info) (r : List Text × Bool)
      → Counts res (finish pe_file faults args strip files res path info r)
  unfolding finish
  finish-Counts files res path info (merged, false) = λ h. omega arith
  finish-Counts files res path info (merged, true) = elim (Bool-cases (info.signed && not strip)) [
    | inl e ↦ simp e (λ h. cc)
    | inr e ↦
        simp e (after_rewrite-Counts _ (rewrite pe_file (faults path) files path merged strip))
  ]

  edit_file-Counts :
      (files : Files) (res : Summary) (path : Text) (r : Result Info)
      → Counts res (edit_info pe_file faults args strip files res path r)
  unfolding edit_info
  edit_file-Counts files res path (err e) h = cc
  edit_file-Counts files res path (ok info) h =
      finish-Counts files res path info (merge_all args info.cmdlines) h

  -- If the loop returns no error, the counts of updated and unchanged images have grown together by the
  -- number of images.
  pub edit_files_count :
      (paths : List Text) (files : Files) (res : Summary)
      → (edit_files pe_file faults args strip files res paths).error ≡ none
      → total (edit_files pe_file faults args strip files res paths).summary
        ≡ total res + length paths
  unfolding edit_files edit_file
  edit_files_count [] files res = λ h. omega arith
  edit_files_count (path ∷ paths) files res =
      let o = edit_file pe_file faults args strip files res path in
      elim (Option-cases o.error) [
        | inl e ↦
            rw (e, edit_files)
              (λ h. omega (
                arith,
                edit_files_count paths o.files o.summary h,
                edit_file-Counts files res path (inspect_path pe_file files path) e,
              ))
        | inr (x, e) ↦ rw (e, edit_files) (λ h. cc)
      ]

-- A pattern that is absolute or that climbs.
abbrev pub escapes : Text → Bool
escapes pattern = has_prefix pattern (codes "/") || contains pattern (codes "..")

pub validate_pattern-cases :
    (pattern : Text)
    → ((validate_pattern pattern ≡ ok tt) × (escapes pattern ≡ false))
      ⊎ ((validate_pattern pattern ≡ err escaping_pattern) × (escapes pattern ≡ true))
unfolding validate_pattern
validate_pattern-cases pattern = elim (Bool-cases (escapes pattern)) [
  | inl e ↦ inr (rw e refl, e)
  | inr e ↦ inl (rw e refl, e)
]

-- What was done: an outcome, and the calls that led to it.
abbrev pub Done : Type 0
Done = Outcome × List Event

-- Blank arguments and an escaping pattern are refused before anything is called.
abbrev pub IsRefusal : Files → Text → Text → Done → Type 0
IsRefusal files args pattern r =
    (e : Error) × (r ≡ (stopped files e, []))
    × (((text_eq (trim_space args) [] ≡ true) × (e ≡ no_kernel_args))
        ⊎ ((escapes pattern ≡ true) × (e ≡ escaping_pattern)))

-- Otherwise the device is mounted, and where that succeeds, edited and then unmounted.
abbrev pub IsMounted : Files → Text → Text → Text → Text → Bool → Outcome → Done → Type 0
IsMounted files device target args pattern mount_fails edit r =
    (text_eq (trim_space args) [] ≡ false)
    × (escapes pattern ≡ false)
    × (((mount_fails ≡ true) × (r ≡ (stopped files mount_failed, mount device target ∷ [])))
        ⊎ ((mount_fails ≡ false)
            × (r ≡ (edit, mount device target ∷ edited target ∷ unmount target ∷ []))))

-- Apply refuses blank arguments and a pattern, given or by default, that is absolute or holds "..":
-- with an error, every file as it was and no call made. In all other cases it mounts the device. Where
-- this fails it stops with every file as it was; where it succeeds, it calls EditTree once, after the
-- mount and before the one unmount, and returns what EditTree returns.
pub apply_mounts :
    (pe_file : Bytes → Option PeFile) (faults : Text → Faults) (glob : Text → Option (List Text))
    (mount_fails : Bool) (files : Files) (device args pattern target : Text) (strip : Bool)
    → let r = apply pe_file faults glob mount_fails files device args pattern target strip in
      let chosen = or_default pattern default_pattern in
      IsRefusal files args chosen r
      ⊎ IsMounted files device
          (or_default target default_mount_point)
          args
          chosen
          mount_fails
          (edit_tree pe_file faults args strip glob files chosen)
          r
apply_mounts pe_file faults glob mount_fails files device args pattern target strip =
    elim (Bool-cases (text_eq (trim_space args) [])) [
      | inl e ↦ unfold apply in rw e (inl (no_kernel_args, refl, inl (refl, refl)))
      | inr e ↦ elim (validate_pattern-cases (or_default pattern default_pattern)) [
        | inr (v, x) ↦ unfold apply in rw (e, v) (inl (escaping_pattern, refl, inr (x, refl)))
        | inl (v, x) ↦ elim (Bool-cases mount_fails) [
          | inl m ↦ unfold apply in rw (e, v, m) (inr (refl, x, inl (refl, refl)))
          | inr m ↦ unfold apply in rw (e, v, m) (inr (refl, x, inr (refl, refl)))
        ]
      ]
    ]
