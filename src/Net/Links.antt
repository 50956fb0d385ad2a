-- ===== src/Net/Links.antt =====
-- pkg/talosnet/mapping.go: the links that the addresses and the routes of a configuration name.
use actions.Prelude.{
  ℕ, ◌≡◌, refl, ap, subst, true, List, [], ◌∷◌, ◌++◌, map, ok, or_err, on_ok, ok-injective, All,
  All-map, All-append, length, arith, ◌⊎◌, inl, inr, bad_vlan, bad_gateway, bad_route,
}
use actions.Text.{Text, text_eq_refl, has_member}
use actions.Text.Members.{has_member-append}
use actions.Text.Numbers.{parse_uint}
use actions.Hardware.{StaticRoute}
use actions.Net.{Address, Link, Route, Config}
use actions.Net.Mapping.{Netip, add_link, add_route, add_vlan, add_gateway, add_routes}

abbrev pub names : List Link → List Text
names links = map (λ l. l.name) links

abbrev pub Known : List Text → Text → Type 0
Known links name = has_member links name ≡ true

names-append : (xs : List Link) (l : Link) → names (xs ++ l ∷ []) ≡ names xs ++ l.name ∷ []
names-append [] l = refl
names-append (x ∷ xs) l = ap (λ r. x.name ∷ r) (names-append xs l)

Known-more :
    (xs : List Link) (l : Link) (t : Text) → Known (names xs) t → Known (names (xs ++ l ∷ [])) t
Known-more xs l t h = rw (names-append xs l, has_member-append (names xs) (l.name ∷ []) t, h) refl

pub Known-last : (xs : List Link) (l : Link) → Known (names (xs ++ l ∷ [])) l.name
unfolding has_member
Known-last xs l =
    rw (names-append xs l, has_member-append (names xs) (l.name ∷ []) l.name)
      (ground (arith, text_eq_refl l.name))

-- Every address and every route is on a link of the configuration, and every VLAN is on a link of it.
pub record IsLinked (cfg : Config) : Type 0 where
  pub addresses_known : All (λ a. has_member (names cfg.links) a.link_name ≡ true) cfg.addresses
  pub routes_known : All (λ r. has_member (names cfg.links) r.out_link_name ≡ true) cfg.routes
  pub parents_known :
      All
        (λ l. (l.parent_name ≡ []) ⊎ (has_member (names cfg.links) l.parent_name ≡ true))
        cfg.links

pub add_link-IsLinked :
    (cfg : Config) (l : Link)
    → (l.parent_name ≡ []) ⊎ Known (names cfg.links) l.parent_name
    → IsLinked cfg
    → IsLinked (add_link cfg l)
add_link-IsLinked cfg l p h = record {
  addresses_known =
      All-map (λ a k. Known-more cfg.links l a.link_name k) cfg.addresses h.addresses_known;
  routes_known =
      All-map (λ r k. Known-more cfg.links l r.out_link_name k) cfg.routes h.routes_known;
  parents_known =
      All-append _ cfg.links (l ∷ []) (All-map more cfg.links h.parents_known) (more l p, tt);
}
  where
    more :
        (x : Link)
        → (x.parent_name ≡ []) ⊎ Known (names cfg.links) x.parent_name
        → (x.parent_name ≡ []) ⊎ Known (names (cfg.links ++ l ∷ [])) x.parent_name
    more x (inl e) = inl e
    more x (inr k) = inr (Known-more cfg.links l x.parent_name k)

pub add_address-IsLinked :
    (cfg : Config) (a : Address)
    → Known (names cfg.links) a.link_name
    → IsLinked cfg
    → IsLinked (record cfg { addresses = cfg.addresses ++ a ∷ [] })
add_address-IsLinked cfg a k h = record {
  addresses_known = All-append _ cfg.addresses (a ∷ []) h.addresses_known (k, tt);
  routes_known = h.routes_known;
  parents_known = h.parents_known;
}

add_route-IsLinked :
    (cfg : Config) (r : Route)
    → Known (names cfg.links) r.out_link_name
    → IsLinked cfg
    → IsLinked (add_route cfg r)
add_route-IsLinked cfg r k h = record {
  addresses_known = h.addresses_known;
  routes_known = All-append _ cfg.routes (r ∷ []) h.routes_known (k, tt);
  parents_known = h.parents_known;
}

-- A configuration with so many addresses whose links are right.
abbrev pub Linked : ℕ → Config → Type 0
Linked n cfg = IsLinked cfg × (length cfg.addresses ≡ n)

pub add_vlan-Linked :
    (n : ℕ) (cfg : Config) (link_name vlan_id attach : Text) (out : Config)
    → Known (names cfg.links) link_name
    → Linked n cfg
    → add_vlan cfg link_name vlan_id ≡ ok (attach, out)
    → Linked n out × Known (names out.links) attach
unfolding add_vlan
add_vlan-Linked n cfg link_name [] attach out k (h, c) e =
    let a : link_name ≡ attach = cc in
    let b : cfg ≡ out = cc in
    subst (λ z. Linked n z × Known (names z.links) attach) b
      ((h, c), subst (Known (names cfg.links)) a k)
add_vlan-Linked n cfg link_name (v ∷ vlan_id) attach out k (h, c) e =
    on_ok (or_err (parse_uint 12 (v ∷ vlan_id)) bad_vlan) _ e (λ vid _ e1.
      subst (λ z. Linked n z.1 × Known (names z.1.links) z.0) (ok-injective e1)
        ((add_link-IsLinked cfg _ (inr k) h, c), Known-last cfg.links _))

module _ (net : Netip) where
  pub add_gateway-Linked :
      (n : ℕ) (cfg : Config) (addr : net.Addr) (attach gateway : Text) (out : Config)
      → Known (names cfg.links) attach
      → Linked n cfg
      → add_gateway net cfg addr attach gateway ≡ ok out
      → Linked n out × Known (names out.links) attach
  unfolding add_gateway
  add_gateway-Linked n cfg addr attach [] out k h e =
      subst (λ z. Linked n z × Known (names z.links) attach) (ok-injective e) (h, k)
  add_gateway-Linked n cfg addr attach (c ∷ gateway) out k (h, m) e =
      on_ok (or_err (net.parse_addr (c ∷ gateway)) bad_gateway) _ e (λ gw _ e1.
        subst (λ z. Linked n z × Known (names z.links) attach) (ok-injective e1)
          ((add_route-IsLinked cfg _ k h, m), k))

  pub add_routes-Linked :
      (routes : List StaticRoute) (n : ℕ) (cfg : Config) (attach : Text) (out : Config)
      → Known (names cfg.links) attach
      → Linked n cfg
      → add_routes net cfg attach routes ≡ ok out
      → Linked n out
  unfolding add_routes
  add_routes-Linked [] n cfg attach out k h e = subst (Linked n) (ok-injective e) h
  add_routes-Linked (r ∷ routes) n cfg attach out k (h, m) e =
      on_ok (or_err (net.parse_prefix r.destination) bad_route) _ e (λ dst _ e1.
        on_ok (or_err (net.parse_addr r.router) bad_route) _ e1 (λ gw _ e2.
          add_routes-Linked routes n _ attach out k (add_route-IsLinked cfg _ k h, m) e2))
