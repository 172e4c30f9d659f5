-- ===== src/SnoopCache/Indexed/Flush.antt =====
-- `flush_cache` forgets what is on one bridge, and nothing else.
use opx_nas_linux.Prelude.{
  String, true, Option, none, some, List, [], ◌∷◌, ◌≡◌, refl, arith, ◌==◌, ◌&&◌, not, lookup,
  lookup-remove, eq_string, Option-cases, inl, inr,
}
use opx_nas_linux.SnoopCache.{
  Cache, same_name, discard_names, discard_groups, flush_mrouters, flush_groups, flush_cache,
}
use opx_nas_linux.SnoopCache.Names.{remove_ifname_tag}
use opx_nas_linux.SnoopCache.Sets.{member, member-discard, eq_pair, discard}
use opx_nas_linux.SnoopCache.Info.{
  McastRouterInfo, mcast_router_info, router_key, McastGroupInfo, group_key,
}
use opx_nas_linux.SnoopCache.Index.{in_index}
use opx_nas_linux.SnoopCache.Indexed.{IsIndexed}

-- No name in the cache has a tag left: the tags of the ports are of one VLAN.
unfoldable pub IsUntagged : List McastRouterInfo → Type 0
unfolding member
IsUntagged mrouter_set =
    (br_name if_name : String)
    → member router_key (br_name, if_name) mrouter_set ≡ true
    → remove_ifname_tag if_name ≡ if_name

member-discard_names :
    (br_name : String) (if_names : List String) (mrouter_set : List McastRouterInfo)
    (br if_name : String)
    → member router_key (br, if_name) (discard_names br_name if_names mrouter_set) ≡ (
        member router_key (br, if_name) mrouter_set
        && not (br == br_name && member remove_ifname_tag if_name if_names))
unfolding discard_names mcast_router_info member
member-discard_names br_name [] mrouter_set br if_name = ground arith
member-discard_names br_name (name ∷ if_names) mrouter_set br if_name =
    let rest = discard router_key (router_key (mcast_router_info br_name name none)) mrouter_set in
    ground (
      arith,
      member-discard_names br_name if_names rest br if_name,
      eq_string.same_iff if_name (remove_ifname_tag name),
      eq_string.same_iff (remove_ifname_tag name) if_name,
      member-discard router_key (br, if_name) (br_name, remove_ifname_tag name) mrouter_set,
    )

member-remove_ifname_tag :
    (if_name : String) (if_names : List String)
    → ((name : String) → member same_name name if_names ≡ true → remove_ifname_tag name ≡ name)
    → member remove_ifname_tag if_name if_names ≡ member same_name if_name if_names
unfolding member
member-remove_ifname_tag if_name [] h = refl
member-remove_ifname_tag if_name (name ∷ if_names) h = ground (
  arith,
  h name,
  eq_string.same_iff name name,
  member-remove_ifname_tag if_name if_names (λ n at. h n (ground arith)),
)

member-discard_groups :
    (groups group_set : List McastGroupInfo) (k : String × (String × String))
    → member group_key k (discard_groups groups group_set)
      ≡ (member group_key k group_set && not (member group_key k groups))
unfolding discard_groups member
member-discard_groups [] group_set k = ground arith
member-discard_groups (g ∷ groups) group_set k = ground (
  arith,
  member-discard_groups groups (discard group_key (group_key g) group_set) k,
  eq_string.same_iff g.br_name k.0,
  eq_string.same_iff k.0 g.br_name,
  eq_string.same_iff g.grp_ip k.1.0,
  eq_string.same_iff k.1.0 g.grp_ip,
  eq_string.same_iff g.if_name k.1.1,
  eq_string.same_iff k.1.1 g.if_name,
  member-discard group_key k (group_key g) group_set,
)

flush_mrouters-member :
    (br_name : String) (s : Cache)
    → IsIndexed s
    → IsUntagged s.mrouter_set
    → (br if_name : String)
    → member router_key (br, if_name) (flush_mrouters br_name s).mrouter_set
      ≡ (member router_key (br, if_name) s.mrouter_set && not (br == br_name))
unfolding flush_mrouters IsIndexed in_index IsUntagged
flush_mrouters-member br_name s (mrouters, groups) untagged br if_name =
    let known = mrouters br_name if_name in
    let same = eq_string.same_iff br br_name in
    elim (Option-cases (lookup br_name s.br_mrouter_map)) [
      | inl missing ↦ ground (arith, known, missing, same)
      | inr (if_names, at) ↦
          let stripped =
            member-remove_ifname_tag if_name if_names (λ name in_names.
              untagged br_name name (ground (arith, mrouters br_name name, at))) in
          ground (
            arith,
            known,
            at,
            same,
            stripped,
            member-discard_names br_name if_names s.mrouter_set br if_name,
          )
    ]

flush_groups-member :
    (br_name : String) (s : Cache)
    → IsIndexed s
    → (k : String × (String × String))
    → member group_key k (flush_groups br_name s).group_set
      ≡ (member group_key k s.group_set && not (k.0 == br_name))
unfolding flush_groups IsIndexed in_index
flush_groups-member br_name s (mrouters, groups) k =
    let known = groups br_name k in
    elim (Option-cases (lookup br_name s.br_group_map)) [
      | inl missing ↦ ground (arith, known, missing)
      | inr (entries, at) ↦ ground (arith, known, at, member-discard_groups entries s.group_set k)
    ]

flush_mrouters-IsIndexed :
    (br_name : String) (s : Cache)
    → IsIndexed s
    → IsUntagged s.mrouter_set
    → IsIndexed (flush_mrouters br_name s)
unfolding flush_mrouters IsIndexed in_index
flush_mrouters-IsIndexed br_name s h untagged = (
  λ br if_name. elim (Option-cases (lookup br_name s.br_mrouter_map)) [
    | inl missing ↦ ground (arith, missing, h.0 br if_name)
    | inr (if_names, at) ↦ ground (
      arith,
      at,
      flush_mrouters-member br_name s h untagged br if_name,
      h.0 br if_name,
      eq_string.same_iff br br_name,
      eq_string.same_iff br_name br,
      lookup-remove br_name br s.br_mrouter_map,
    )
  ],
  λ br k. ground (arith, h.1 br k),
)

flush_groups-IsIndexed :
    (br_name : String) (s : Cache) → IsIndexed s → IsIndexed (flush_groups br_name s)
unfolding flush_groups IsIndexed in_index
flush_groups-IsIndexed br_name s h = (
  λ br if_name. ground (arith, h.0 br if_name),
  λ br k. elim (Option-cases (lookup br_name s.br_group_map)) [
    | inl missing ↦ ground (arith, missing, h.1 br k)
    | inr (entries, at) ↦ ground (
      arith,
      at,
      flush_groups-member br_name s h k,
      h.1 br k,
      eq_string.same_iff br br_name,
      eq_string.same_iff br_name br,
      eq_string.same_iff k.0 br,
      eq_string.same_iff k.0 br_name,
      lookup-remove br_name br s.br_group_map,
    )
  ],
)

flush_groups-mrouter_set :
    (br_name : String) (s : Cache) → (flush_groups br_name s).mrouter_set ≡ s.mrouter_set
unfolding flush_groups
flush_groups-mrouter_set br_name s = ground arith

flush_mrouters-group_set :
    (br_name : String) (s : Cache) → (flush_mrouters br_name s).group_set ≡ s.group_set
unfolding flush_mrouters
flush_mrouters-group_set br_name s = ground arith

-- Flushing one bridge of a cache whose maps are indexes of its sets, and in which no name of an mrouter
-- ends in a tag once its own tag is off, forgets exactly the mrouters
-- and the groups of that bridge.
pub flush_cache-member :
    (br_name : String) (s : Cache)
    → IsIndexed s
    → IsUntagged s.mrouter_set
    → ((br if_name : String)
        → member router_key (br, if_name) (flush_cache (some br_name) s).mrouter_set
          ≡ (member router_key (br, if_name) s.mrouter_set && not (br == br_name)))
      × ((k : String × (String × String))
          → member group_key k (flush_cache (some br_name) s).group_set
            ≡ (member group_key k s.group_set && not (k.0 == br_name)))
unfolding flush_cache
flush_cache-member br_name s h untagged =
    let s1 = flush_mrouters br_name s in
    (
      λ br if_name. ground (
        arith,
        flush_groups-mrouter_set br_name s1,
        flush_mrouters-member br_name s h untagged br if_name,
      ),
      λ k. ground (
        arith,
        flush_mrouters-group_set br_name s,
        flush_groups-member br_name s1 (flush_mrouters-IsIndexed br_name s h untagged) k,
      ),
    )

pub flush_cache-IsIndexed :
    (br_name : Option String) (s : Cache)
    → IsIndexed s
    → IsUntagged s.mrouter_set
    → IsIndexed (flush_cache br_name s)
unfolding flush_cache IsIndexed in_index member
flush_cache-IsIndexed none s h untagged = (λ br if_name. refl, λ br k. ground arith)
flush_cache-IsIndexed (some br_name) s h untagged =
    flush_groups-IsIndexed br_name (flush_mrouters br_name s)
      (flush_mrouters-IsIndexed br_name s h untagged)

pub flush_cache-IsUntagged :
    (br_name : Option String) (s : Cache)
    → IsIndexed s
    → IsUntagged s.mrouter_set
    → IsUntagged (flush_cache br_name s).mrouter_set
unfolding flush_cache IsUntagged member
flush_cache-IsUntagged none s h untagged br if_name at = ground arith
flush_cache-IsUntagged (some br_name) s h untagged br if_name at =
    untagged br if_name (ground (arith, (flush_cache-member br_name s h untagged).0 br if_name))
