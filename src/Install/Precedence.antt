-- ===== src/Install/Precedence.antt =====
-- talos2disk/settings.go: which of the sources decides a setting.
use actions.Prelude.{
  ◌≡◌, refl, sym, subst, ◌⊎◌, true, false, not, ◌&&◌, ◌||◌, List, [], ◌∷◌, Option, ok, on_ok,
  ok-injective, arith, Bool-cases, inl, inr, ℕ,
}
use actions.Text.{Text, codes, text_eq}
use actions.Disks.Selector.{Decoded}
use actions.Hardware.{Hardware, os_slug, os_version, annotation}
use actions.Factory.{is_full_version, is_bare_minor, InstallerReference, is_schematic}
use actions.MachineConfig.{MachineConfig, image_tag}
use actions.Install.{
  Inputs, Settings, first_version, version_candidates, resolve_setting_version, resolve_settings,
  resolve_disk, resolve_schematic, reference_of,
}

-- The first candidate that is not empty.
abbrev pub IsFirst : List (Text × Text) → Text × Text → Type 0
IsFirst [] r = ⊥
IsFirst (c ∷ cs) r = ((text_eq c.0 [] ≡ false) × (r ≡ c)) ⊎ ((text_eq c.0 [] ≡ true) × IsFirst cs r)

-- A version that is resolved is full or a bare minor, and it comes from the first candidate that is
-- not empty.
first_version_lem :
    (cs : List (Text × Text)) (r : Text × Text)
    → first_version cs ≡ ok r
    → ((is_full_version r.0 || is_bare_minor r.0) ≡ true) × IsFirst cs r
unfolding first_version
first_version_lem [] r = λ h. cc
first_version_lem ((value, source) ∷ cs) r = elim (Bool-cases (text_eq value [])) [
  | inl e ↦ rw e (λ h. let (v, first) = first_version_lem cs r h in (v, inr (refl, first)))
  | inr e ↦ elim (Bool-cases (not (is_full_version value) && not (is_bare_minor value))) [
    | inl b ↦ rw (e, b) (λ h. cc)
    | inr b ↦
        rw (e, b)
          (λ h.
            let same : (value, source) ≡ r = ok-injective h in
            (
              subst (λ (z : Text × Text). (is_full_version z.0 || is_bare_minor z.0) ≡ true) same
                  (ground arith),
              inl (refl, sym same),
            ))
  ]
]

-- The sources of the schematic, in the order of their precedence.
abbrev pub IsSchematic : Inputs → Hardware → InstallerReference → Text × Text → Type 0
IsSchematic in_ hw ref = IsFirst (
    (in_.schematic_id, codes "SCHEMATIC_ID")
    ∷ (ref.id, codes "machine.install.image")
    ∷ (os_slug hw, codes "metadata.instance.operating_system.slug")
    ∷ [])

resolve_schematic_lem :
    (in_ : Inputs) (hw : Hardware) (ref : InstallerReference) (r : Text × Text)
    → resolve_schematic in_ hw ref ≡ ok r
    → IsSchematic in_ hw ref r
      × ((text_eq in_.schematic_id [] || is_schematic in_.schematic_id) ≡ true)
unfolding resolve_schematic
resolve_schematic_lem in_ hw ref r = elim (Bool-cases (text_eq in_.schematic_id [])) [
  | inr e ↦ elim (Bool-cases (is_schematic in_.schematic_id)) [
    | inl t ↦ simp (e, t) (λ h. (inl (refl, sym (ok-injective h)), refl))
    | inr t ↦ simp (e, t) (λ h. cc)
  ]
  | inl e ↦ elim (Bool-cases (text_eq ref.id [])) [
    | inr t ↦ simp (e, t) (λ h. (inr (refl, inl (refl, sym (ok-injective h))), refl))
    | inl t ↦ elim (Bool-cases (text_eq (os_slug hw) [])) [
      | inr q ↦
          simp (e, t, q) (λ h. (inr (refl, inr (refl, inl (refl, sym (ok-injective h)))), refl))
      | inl q ↦ simp (e, t, q) (λ h. cc)
    ]
  ]
]

-- Settings that are resolved have a version that is full or a bare minor, and it is the first that is
-- set of TALOS_VERSION, the tag of the installer image in the machine configuration, the version of the
-- operating system in the Hardware and its contract annotation. Their schematic is the first that is
-- set of SCHEMATIC_ID, that of the installer image and the slug of the operating system, and
-- SCHEMATIC_ID is the name of a schematic where it is set. Each is kept with the name of its source.
pub resolve_settings_lem :
    (parse_bytes : Text → Option ℕ) (decode : Text → Decoded) (in_ : Inputs) (hw : Hardware)
    (cfg : Option MachineConfig) (s : Settings)
    → resolve_settings parse_bytes decode in_ hw cfg ≡ ok s
    → ((is_full_version s.version.0 || is_bare_minor s.version.0) ≡ true)
      × IsFirst
          ((in_.talos_version, codes "TALOS_VERSION")
            ∷ (image_tag cfg, codes "machine.install.image")
            ∷ (os_version hw, codes "metadata.instance.operating_system.version")
            ∷ (
              annotation hw (codes "talos.tinkerbell.org/contract"),
              codes "talos.tinkerbell.org/contract",
            )
            ∷ [])
          s.version
      × IsSchematic in_ hw (reference_of cfg) s.schematic
      × ((text_eq in_.schematic_id [] || is_schematic in_.schematic_id) ≡ true)
unfolding resolve_settings resolve_setting_version
resolve_settings_lem parse_bytes decode in_ hw cfg s h =
    on_ok (resolve_disk parse_bytes decode in_ hw cfg) _ h (λ disk _ h1.
      on_ok (resolve_schematic in_ hw (reference_of cfg)) _ h1 (λ sch hs h2.
        on_ok (first_version (version_candidates in_ hw cfg)) _ h2 (λ v hv h3.
          let (good, first) = first_version_lem (version_candidates in_ hw cfg) v hv in
          let (named, valid) = resolve_schematic_lem in_ hw (reference_of cfg) sch hs in
          subst
            (λ (z : Settings).
              ((is_full_version z.version.0 || is_bare_minor z.version.0) ≡ true)
              × IsFirst (version_candidates in_ hw cfg) z.version
              × IsSchematic in_ hw (reference_of cfg) z.schematic
              × ((text_eq in_.schematic_id [] || is_schematic in_.schematic_id) ≡ true))
            (ok-injective h3) (good, first, named, valid))))
