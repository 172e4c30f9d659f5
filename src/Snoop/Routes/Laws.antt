-- ===== src/Snoop/Routes/Laws.antt =====
-- The interfaces of the routes that `_parse_snoop_routes` publishes.
use Prim.{tt}
use mathlib.Core.Path.{subst}
use opx_nas_linux.Prelude.{
  from_some, String, Bool, true, false, none, some, List, [], ◌∷◌, ◌≡◌, refl, ap, arith, All, inl,
  inr, Bool-cases, Option-cases,
}
use opx_nas_linux.Snoop.Routes.{
  VlanInfo, is_intf_vlan_member, Group, Route, parse_groups, parse_snoop_routes,
}

abbrev pub HasNoInterface : Route → Type 0
HasNoInterface r = r.interface ≡ none

-- the interface of the route, if it has one, is a port of the VLAN
abbrev pub IsMember : VlanInfo → Route → Type 0
IsMember vlan_info r = (i : String) → r.interface ≡ some i → is_intf_vlan_member vlan_info i ≡ true

module _ (address_text : String → String) (vlan_info : VlanInfo) (is_delete : Bool) where
  without_interface :
      (groups : List (String × Group)) {routes : List Route}
      → parse_groups address_text vlan_info is_delete false groups ≡ some routes
      → All HasNoInterface routes
  unfolding parse_groups
  without_interface [] {routes} h = subst (All HasNoInterface) (ap (from_some routes) h) tt
  without_interface ((key, val) ∷ rest) {routes} h = elim (Option-cases val.group) [
    | inl absent ↦ without_interface rest (rw (absent, parse_groups) at h)
    | inr (group, at) ↦
        elim (Option-cases (parse_groups address_text vlan_info is_delete false rest)) [
          | inl bad ↦ elim (Option-cases val.interface) [
            | inl none_there ↦ ground (arith, (rw (at, none_there, bad, parse_groups) at h))
            | inr (interface, there) ↦ ground (arith, (rw (at, there, bad, parse_groups) at h))
          ]
          | inr (rs, parsed) ↦
              let others = without_interface rest parsed in
              elim (Option-cases val.interface) [
                | inl none_there ↦
                    let e = rw (at, none_there, parsed, parse_groups) at h in
                    subst (All HasNoInterface) (ap (from_some routes) e) (refl, others)
                | inr (interface, there) ↦
                    let e = rw (at, there, parsed, parse_groups) at h in
                    subst (All HasNoInterface) (ap (from_some routes) e) (refl, others)
              ]
        ]
  ]

  -- If the first group of an update has an address and no interface, no route of the update is published
  -- with an interface, whatever the groups after it have.
  pub parse_snoop_routes_null :
      (key group : String) (val : Group) (rest : List (String × Group))
      → val.group ≡ some group
      → val.interface ≡ none
      → (routes : List Route)
      → parse_snoop_routes address_text vlan_info is_delete ((key, val) ∷ rest) ≡ some routes
      → All HasNoInterface routes
  unfolding parse_snoop_routes parse_groups
  parse_snoop_routes_null key group val rest at absent routes h =
      without_interface ((key, val) ∷ rest)
        (rw (at, absent, parse_groups) (rw (at, absent, parse_snoop_routes, parse_groups) at h))

  no_interface-IsMember :
      (routes : List Route) → All HasNoInterface routes → All (IsMember vlan_info) routes
  no_interface-IsMember [] h = tt
  no_interface-IsMember (r ∷ routes) h =
      (λ i e. ground (arith, h.0, e), no_interface-IsMember routes h.1)

  publish_head :
      (key group : String) (val : Group) (rest : List (String × Group)) (interface : String)
      {rs routes : List Route}
      → val.group ≡ some group
      → val.interface ≡ some interface
      → parse_groups address_text vlan_info is_delete true rest ≡ some rs
      → parse_groups address_text vlan_info is_delete true ((key, val) ∷ rest) ≡ some routes
      → All (IsMember vlan_info) rs
      → All (IsMember vlan_info) routes
  unfolding parse_groups
  publish_head key group val rest interface {rs} {routes} at there parsed h others =
      elim (Bool-cases (is_intf_vlan_member vlan_info interface)) [
        | inl member ↦
            subst (All (IsMember vlan_info))
              (ap (from_some routes) (rw (at, there, parsed, member, parse_groups) at h))
              (
                (λ i e. subst (λ o. is_intf_vlan_member vlan_info (from_some i o) ≡ true) e member),
                others,
              )
        | inr other ↦ elim (Bool-cases is_delete) [
          | inl deletion ↦
              subst (All (IsMember vlan_info))
                (ap (from_some routes) (rw (at, there, parsed, other, deletion, parse_groups) at h))
                others
          | inr update ↦ ground (arith, (rw (at, there, parsed, other, update, parse_groups) at h))
        ]
      ]

  -- A failure further down is a failure of the whole.
  head_fails :
      (key group : String) (val : Group) (rest : List (String × Group)) (interface : String)
      → val.group ≡ some group
      → val.interface ≡ some interface
      → parse_groups address_text vlan_info is_delete true rest ≡ none
      → parse_groups address_text vlan_info is_delete true ((key, val) ∷ rest) ≡ none
  unfolding parse_groups
  head_fails key group val rest interface at there bad =
      elim (Bool-cases (is_intf_vlan_member vlan_info interface)) [
        | inl member ↦ rw (at, there, bad, member, parse_groups) refl
        | inr other ↦ elim (Bool-cases is_delete) [
          | inl deletion ↦ rw (at, there, bad, other, deletion, parse_groups) refl
          | inr update ↦ rw (at, there, bad, other, update, parse_groups) refl
        ]
      ]

  -- Every interface that a route is published with is a port of the VLAN.
  pub parse_snoop_routes_members :
      (groups : List (String × Group)) {routes : List Route}
      → parse_snoop_routes address_text vlan_info is_delete groups ≡ some routes
      → All (IsMember vlan_info) routes
  unfolding parse_snoop_routes parse_groups
  parse_snoop_routes_members [] {routes} h =
      subst (All (IsMember vlan_info)) (ap (from_some routes) h) tt
  parse_snoop_routes_members ((key, val) ∷ rest) {routes} h = elim (Option-cases val.group) [
    | inl absent ↦ parse_snoop_routes_members rest (rw (absent, parse_groups) at h)
    | inr (group, at) ↦ elim (Option-cases val.interface) [
      | inl none_there ↦
          no_interface-IsMember routes
            (parse_snoop_routes_null key group val rest at none_there routes h)
      | inr (interface, there) ↦
          elim (Option-cases (parse_groups address_text vlan_info is_delete true rest)) [
            | inl bad ↦
                let fails = head_fails key group val rest interface at there bad in
                ground (arith, h, fails)
            | inr (rs, parsed) ↦
                publish_head key group val rest interface at there parsed h
                  (parse_snoop_routes_members rest parsed)
          ]
    ]
  ]
