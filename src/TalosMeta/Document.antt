-- ===== src/TalosMeta/Document.antt =====
-- talosmeta/main.go: the document that is written.
use actions.Prelude.{
  ◌≡◌, refl, subst, sym, true, [], Option, ok, on_ok, ok-injective, Bool-cases, inl, inr, ◌⊎◌,
}
use actions.Text.{Text, codes, text_eq}
use actions.Net.{Config}
use actions.Net.Collect.{from_hardware}
use actions.Net.Links.{IsLinked}
use actions.Net.Document.{from_hardware_with-IsLinked}
use actions.TalosMeta.{
  Sources, new_namer, hardware_spec, some_interface, from_sources, network_document,
}

module _ (src : Sources) (env : Text → Text) (port : Option Text) where
  -- The document is the rendering of a configuration whose links are right.
  abbrev pub IsRendered : Text → Type 0
  IsRendered doc = (cfg : Config) × IsLinked cfg × (src.marshal cfg ≡ ok doc)

  from_sources-IsRendered : (doc : Text) → from_sources src env port ≡ ok doc → IsRendered doc
  unfolding from_sources from_hardware
  from_sources-IsRendered doc h =
      on_ok (new_namer (env (codes "LINK_NAMING"))) _ h (λ predictable _ h1.
        on_ok (hardware_spec src env port) _ h1 (λ spec _ h2.
          on_ok (some_interface src env port spec.interfaces) _ h2 (λ u _ h3.
            on_ok (from_hardware src.net (src.namer predictable) spec) _ h3 (λ cfg made h4. (
              cfg,
              (from_hardware_with-IsLinked src.net (src.namer predictable) spec _ cfg made).0,
              h4,
            )))))

  -- A document that is made is the one that the operator gives, if there is one, and then it is
  -- accepted; or there is none, and the document is the rendering of a configuration whose addresses,
  -- routes and VLANs name only its own links.
  pub network_document_lem :
      (doc : Text)
      → network_document src env port ≡ ok doc
      → ((doc ≡ env (codes "NETWORK_CONFIG")) × (src.network_ok doc ≡ true))
        ⊎ ((text_eq (env (codes "NETWORK_CONFIG")) [] ≡ true) × IsRendered doc)
  unfolding network_document
  network_document_lem doc = elim (Bool-cases (text_eq (env (codes "NETWORK_CONFIG")) [])) [
    | inl e ↦ rw e (λ h. inr (refl, from_sources-IsRendered doc h))
    | inr e ↦ elim (Bool-cases (src.network_ok (env (codes "NETWORK_CONFIG")))) [
      | inl t ↦ rw e (
          simp t (λ h.
            inl (sym (ok-injective h), subst (λ z. src.network_ok z ≡ true) (ok-injective h) t)))
      | inr t ↦ rw e (simp t (λ h. cc))
    ]
  ]
