-- ===== src/Cmdline/Edit.antt =====
-- pkg/cmdline/cmdline.go: what editing the images does to them, to the other files and to the summary.
use actions.Prelude.{
  ◌+◌, ◌≡◌, ◌≢◌, refl, ap, sym, subst, ◌∙◌, Bool, true, false, not, ◌&&◌, List, [], ◌∷◌, map,
  Option, none, some, Result, ok, err, All, Bool-cases, Option-cases, inl, inr,
}
use actions.Prelude.Sort.{sort, All-sort}
use actions.Text.{Text, text_eq_refl, text_leb}
use actions.Files.{Files, Faults, update, update_ne}
use actions.Kargs.{merge}
use actions.Kargs.Merge.{merge_idem}
use actions.Uki.{Bytes, PeFile, Info}
use actions.Uki.Rewrite.{rewrite, tmp_path}
use actions.Uki.Atomic.{IsAtomic, rewrite-IsAtomic}
use actions.Cmdline.{
  Summary, merge_all, set_entry, after_rewrite, finish, edit_info, edit_file, edit_files,
  inspect_path, edit_tree, no_summary,
}

merge_all_again :
    (args : Text) (olds : List Text)
    → merge_all args (map (λ c. merge c args) olds) ≡ (map (λ c. merge c args) olds, false)
unfolding merge_all
merge_all_again args [] = refl
merge_all_again args (c ∷ olds) =
    rw (merge_idem c args, merge_all_again args olds, text_eq_refl (merge c args))

-- An image that already carries the merged command lines is left alone, signed or not: no file
-- changes, no error is returned, and the summary counts it as unchanged and reports its lines.
pub edit_file_again :
    (pe_file : Bytes → Option PeFile) (faults : Text → Faults) (args : Text) (strip : Bool)
    (files : Files) (res : Summary) (path : Text) (info : Info) (olds : List Text)
    → inspect_path pe_file files path ≡ ok info
    → info.cmdlines ≡ map (λ c. merge c args) olds
    → edit_file pe_file faults args strip files res path ≡ record {
      summary = record {
        updated = res.updated;
        unchanged = res.unchanged + 1;
        cmdlines = set_entry path info.cmdlines res.cmdlines;
      };
      error = none;
      files = files;
    }
edit_file_again pe_file faults args strip files res path info olds i m =
    let same : merge_all args info.cmdlines ≡ (info.cmdlines, false) =
      subst (λ lines. merge_all args lines ≡ (lines, false)) (sym m) (merge_all_again args olds) in
    unfold edit_file finish set_entry in simp (i, same)

-- Files that are neither an image of this round nor its temporary file.
abbrev pub Apart : Text → Text → Type 0
Apart q path = (q ≢ path) × (q ≢ tmp_path path)

IsAtomic-Apart :
    (files : Files) (path q : Text) (P : Bytes → Type 0) (r : Result (Unit {0}) × Files)
    → Apart q path
    → IsAtomic files path P r
    → r.1 q ≡ files q
IsAtomic-Apart files path q P (err e, files') (a, b) h =
    sym (update_ne files' (tmp_path path) none q b) ∙ h q ∙ update_ne files (tmp_path path) none q b
IsAtomic-Apart files path q P (ok u, files') (a, b) (out, p, h) =
    h q
    ∙ update_ne (update files (tmp_path path) none) path (some out) q a
    ∙ update_ne files (tmp_path path) none q b

files-after_rewrite :
    (noted : Summary) (r : Result (Unit {0}) × Files) → (after_rewrite noted r).files ≡ r.1
unfolding after_rewrite
files-after_rewrite noted (err e, files) = refl
files-after_rewrite noted (ok u, files) = refl

module _ (pe_file : Bytes → Option PeFile) (faults : Text → Faults) (args : Text)
    (strip : Bool) where
  finish-Apart :
      (files : Files) (res : Summary) (path q : Text) (info : Info) (r : List Text × Bool)
      → Apart q path
      → (finish pe_file faults args strip files res path info r).files q ≡ files q
  unfolding finish
  finish-Apart files res path q info (merged, false) apart = refl
  finish-Apart files res path q info (merged, true) apart =
      elim (Bool-cases (info.signed && not strip)) [
        | inl e ↦ simp e
        | inr e ↦ simp e (
            ap (λ f. f q)
              (files-after_rewrite (record res { cmdlines = set_entry path merged res.cmdlines })
                (rewrite pe_file (faults path) files path merged strip))
            ∙ IsAtomic-Apart files path q _ (rewrite pe_file (faults path) files path merged strip)
                apart (rewrite-IsAtomic pe_file (faults path) files path merged strip))
      ]

  edit_info-Apart :
      (files : Files) (res : Summary) (path q : Text) (r : Result Info)
      → Apart q path
      → (edit_info pe_file faults args strip files res path r).files q ≡ files q
  unfolding edit_info
  edit_info-Apart files res path q (err e) apart = refl
  edit_info-Apart files res path q (ok info) apart =
      finish-Apart files res path q info (merge_all args info.cmdlines) apart

  edit_file-Apart :
      (files : Files) (res : Summary) (path q : Text)
      → Apart q path
      → (edit_file pe_file faults args strip files res path).files q ≡ files q
  edit_file-Apart files res path q apart =
      unfold edit_file in edit_info-Apart files res path q (inspect_path pe_file files path) apart

  edit_files-Apart :
      (paths : List Text) (files : Files) (res : Summary) (q : Text)
      → All (Apart q) paths
      → (edit_files pe_file faults args strip files res paths).files q ≡ files q
  unfolding edit_files
  edit_files-Apart [] files res q h = refl
  edit_files-Apart (path ∷ paths) files res q (h0, h) =
      let o = edit_file pe_file faults args strip files res path in
      elim (Option-cases o.error) [
        | inl e ↦
            rw (e, edit_files)
              (edit_files-Apart paths o.files o.summary q h ∙ edit_file-Apart files res path q h0)
        | inr (x, e) ↦ rw (e, edit_files) (edit_file-Apart files res path q h0)
      ]

-- EditTree touches no file but the images that the pattern matches and their temporary files,
-- whatever fails on the way, in whichever of the rewrites.
pub edit_tree-Apart :
    (pe_file : Bytes → Option PeFile) (faults : Text → Faults) (args : Text) (strip : Bool)
    (glob : Text → Option (List Text)) (files : Files) (pattern q : Text) (matches : List Text)
    → glob pattern ≡ some matches
    → All (Apart q) matches
    → (edit_tree pe_file faults args strip glob files pattern).files q ≡ files q
unfolding edit_tree
edit_tree-Apart pe_file faults args strip glob files pattern q [] g apart = rw (g, edit_tree)
edit_tree-Apart pe_file faults args strip glob files pattern q (path ∷ paths) g apart =
    rw (g, edit_tree)
      (edit_files-Apart pe_file faults args strip (sort text_leb (path ∷ paths)) files no_summary q
        (All-sort text_leb (Apart q) (path ∷ paths) apart))
