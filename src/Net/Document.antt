-- ===== src/Net/Document.antt =====
-- pkg/talosnet/mapping.go: the document that FromHardwareWithOverrides makes.
use actions.Prelude.{
  ℕ, ◌+◌, ◌<◌, ◌≡◌, refl, ap, subst, ◌∙◌, false, not, List, [], ◌∷◌, some, Result, ok, err, or_err,
  on_ok, ok-injective, length, length-append, filter, any, arith, inl, inr, Option-cases,
  bad_address, no_static_address, guard, ◌==◌,
}
use actions.Text.{Text}
use actions.Hardware.{IpAssignment, Dhcp, Interface, Spec}
use actions.Net.{Config}
use actions.Net.Mapping.{
  Netip, Overrides, the_link, add_link, add_vlan, add_gateway, add_interface, static_dhcp,
  is_static, has_static_address, resolve_link_name, parse_bytes, family_number, the_address,
}
use actions.Net.Mask.{prefix_length}
use actions.Net.Collect.{
  Collected, nothing_yet, collect_one, collect, from_hardware_with, from_instance,
}
use actions.Net.Links.{
  IsLinked, Linked, Known-last, add_link-IsLinked, add_address-IsLinked, add_vlan-Linked,
  add_gateway-Linked, add_routes-Linked,
}

module _ (net : Netip) (name_of : Text → Result Text) where
  add_interface-Linked :
      (n : ℕ) (cfg : Config) (d : Dhcp) (ip : IpAssignment) (out : Config)
      → Linked n cfg
      → add_interface net name_of cfg d ip ≡ ok out
      → Linked (n + 1) out
  unfolding add_interface
  add_interface-Linked n cfg d ip out (h, c) e =
      on_ok (resolve_link_name name_of d) _ e (λ link _ e1.
        on_ok (or_err (net.parse_addr ip.address) bad_address) _ e1 (λ addr _ e2.
          on_ok (prefix_length (parse_bytes net) ip.netmask (family_number net addr)) _ e2
            (λ prefix _ e3.
              on_ok (add_vlan (add_link cfg (the_link link)) link d.vlan_id) _ e3 (λ at v e4.
                let ((h1, c1), k1) =
                  add_vlan-Linked n (add_link cfg (the_link link)) link d.vlan_id at.0 at.1
                    (Known-last cfg.links (the_link link))
                    (add_link-IsLinked cfg (the_link link) (inl refl) h, c) v in
                let count =
                  length-append at.1.addresses (the_address net addr prefix at.0 ∷ [])
                  ∙ ap (λ m. m + 1) c1 in
                on_ok (add_gateway net _ addr at.0 ip.gateway) _ e4 (λ routed g e5.
                  let (h2, k2) =
                    add_gateway-Linked net (n + 1) _ addr at.0 ip.gateway routed k1
                      (add_address-IsLinked at.1 (the_address net addr prefix at.0) k1 h1, count)
                      g in
                  add_routes-Linked net d.routes (n + 1) routed at.0 out k2 h2 e5)))))

  -- What the loop keeps: the links are right, and there is one address for each interface counted.
  abbrev IsCollected : Collected → Type 0
  IsCollected s = Linked s.configured s.cfg

  collect_one-IsCollected :
      (s : Collected) (d : Dhcp) (ip : IpAssignment) (out : Collected)
      → IsCollected s
      → collect_one net name_of s d ip ≡ ok out
      → IsCollected out × (out.configured ≡ s.configured + 1)
  unfolding collect_one
  collect_one-IsCollected s d ip out h e =
      on_ok (add_interface net name_of s.cfg d ip) _ e (λ cfg a e1.
        subst (λ z. IsCollected z × (z.configured ≡ s.configured + 1)) (ok-injective e1)
          (add_interface-Linked s.configured s.cfg d ip cfg h a, refl))

  collect-IsCollected :
      (interfaces : List Interface) (s out : Collected)
      → IsCollected s
      → collect net name_of s interfaces ≡ ok out
      → IsCollected out × (out.configured ≡ s.configured + length (filter is_static interfaces))
  unfolding collect
  collect-IsCollected [] s out h = λ e.
      subst (λ z. IsCollected z × (z.configured ≡ s.configured + 0)) (ok-injective e)
        (h, omega arith)
  collect-IsCollected (iface ∷ interfaces) s out h = elim (Option-cases (static_dhcp iface)) [
    | inl q ↦ rw (q, collect) (collect-IsCollected interfaces s out h)
    | inr ((d, ip), q) ↦
        rw (q, collect)
          (λ e. on_ok (collect_one net name_of s d ip) _ e (λ s1 a e1.
            let (h1, c1) = collect_one-IsCollected s d ip s1 h a in
            let (h2, c2) = collect-IsCollected interfaces s1 out h1 e1 in
            (h2, omega (arith, c1, c2))))
  ]

  -- A document that is made names only links that it has: every address and every route is on a link
  -- of it, and so is the parent of every VLAN. It has one address for each interface with a static
  -- address, and at least one.
  pub from_hardware_with-IsLinked :
      (spec : Spec) (o : Overrides) (cfg : Config)
      → from_hardware_with net name_of spec o ≡ ok cfg
      → IsLinked cfg
        × (length cfg.addresses ≡ length (filter is_static spec.interfaces))
        × (0 < length cfg.addresses)
  unfolding from_hardware_with
  from_hardware_with-IsLinked spec o cfg e =
      on_ok (collect net name_of nothing_yet spec.interfaces) _ e (λ s c e1.
        on_ok (guard (not (s.configured == 0)) no_static_address) _ e1 (λ u g e2.
          on_ok (from_instance net s.hostname spec.the_instance) _ e2 (λ ips _ e3.
            let ((h, count), all) =
              collect-IsCollected spec.interfaces nothing_yet s
                (record { addresses_known = tt; routes_known = tt; parents_known = tt }, refl) c in
            let some_one : 0 < s.configured = guarded s.configured g in
            subst
              (λ z.
                IsLinked z
                × (length z.addresses ≡ length (filter is_static spec.interfaces))
                × (0 < length z.addresses))
              (ok-injective e3)
              (
                record {
                  addresses_known = h.addresses_known;
                  routes_known = h.routes_known;
                  parents_known = h.parents_known;
                },
                omega (arith, count, all),
                omega (arith, count, some_one),
              ))))
    where
      guarded : (n : ℕ) {u : Unit {0}} → guard (not (n == 0)) no_static_address ≡ ok u → 0 < n
      guarded n g = ground arith

  collect-none :
      (interfaces : List Interface) (s : Collected)
      → any is_static interfaces ≡ false
      → collect net name_of s interfaces ≡ ok s
  unfolding collect
  collect-none [] s = λ h. refl
  collect-none (iface ∷ interfaces) s = elim (Option-cases (static_dhcp iface)) [
    | inl q ↦ rw (q, collect) (collect-none interfaces s)
    | inr (d, q) ↦ rw (q, collect) (λ h. cc)
  ]

  -- Where HasStaticAddress says no, no document is made.
  pub from_hardware_with_none :
      (spec : Spec) (o : Overrides)
      → has_static_address (some spec) ≡ false
      → from_hardware_with net name_of spec o ≡ err no_static_address
  unfolding from_hardware_with has_static_address
  from_hardware_with_none spec o h = rw (collect-none spec.interfaces nothing_yet h) refl
