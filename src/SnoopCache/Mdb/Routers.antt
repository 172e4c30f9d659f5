-- ===== src/SnoopCache/Mdb/Routers.antt =====
-- The mrouters that the two answers to an output have.
use opx_nas_linux.Prelude.{
  String, Bool, true, false, Option, none, some, List, [], ◌∷◌, ◌++◌, ◌≡◌, refl, ap, ◌∙◌, arith,
  ◌==◌, ◌||◌, ◌&&◌, not, lookup, put, lookup-put, eq_string, from_some, Option-cases, Bool-cases,
  inl, inr,
}
use opx_nas_linux.SnoopCache.{Routes}
use opx_nas_linux.SnoopCache.Names.{remove_ifname_tag}
use opx_nas_linux.SnoopCache.Sets.{member, add, member-add, member-append, eq_pair}
use opx_nas_linux.SnoopCache.Info.{McastRouterInfo, mcast_router_info, router_key}
use opx_nas_linux.SnoopCache.Mdb.{
  Entry, Line, Texts, IpType, Ports, router_ports, group_is_igmp, other_bridge, Attrs, no_attrs,
  extend, expire_of, add_routers, cache_line, cache_lines, list_group, list_routers, list_line,
  list_lines,
}

module _ (t : Texts) (ip_type : IpType) (br_name : Option String) where
  -- Does a line name the interface, with a tag or without, as an mrouter of the bridge?
  abbrev pub is_router_line : String → String → Line → Bool
  is_router_line br if_name (Line.router (some (dev_name, mr_tokens))) =
      (not (other_bridge br_name dev_name) && dev_name == br)
      && member remove_ifname_tag if_name (router_ports t mr_tokens).if_list
  is_router_line br if_name Line.short = false
  is_router_line br if_name Line.unknown = false
  is_router_line br if_name (Line.dev e) = false
  is_router_line br if_name (Line.router none) = false

  abbrev pub has_router_line : String → String → List Line → Bool
  has_router_line br if_name [] = false
  has_router_line br if_name (line ∷ cmd_response) =
      is_router_line br if_name line || has_router_line br if_name cmd_response

  member-add_routers :
      (dev_name : String) (if_list : List String) (exp_time : Option String)
      (mrouter : List McastRouterInfo) (br if_name : String)
      → member router_key (br, if_name) (add_routers dev_name if_list exp_time mrouter) ≡ (
          member router_key (br, if_name) mrouter
          || (dev_name == br && member remove_ifname_tag if_name if_list))
  unfolding add_routers mcast_router_info member
  member-add_routers dev_name [] exp_time mrouter br if_name = ground arith
  member-add_routers dev_name (name ∷ if_list) exp_time mrouter br if_name =
      let m = mcast_router_info dev_name name exp_time in
      ground (
        arith,
        member-add_routers dev_name if_list exp_time (add router_key m mrouter) br if_name,
        member-add router_key (br, if_name) m mrouter,
      )

  cache_line-mrouter :
      (line : Line) (s s1 : Routes) (br if_name : String)
      → cache_line t ip_type br_name line s ≡ some s1
      → member router_key (br, if_name) s1.mrouter
        ≡ (member router_key (br, if_name) s.mrouter || is_router_line br if_name line)
  unfolding cache_line
  cache_line-mrouter Line.short s s1 br if_name at = ground arith
  cache_line-mrouter Line.unknown s s1 br if_name at = ground arith
  cache_line-mrouter (Line.dev none) s s1 br if_name at = ground arith
  cache_line-mrouter (Line.dev (some e)) s s1 br if_name at =
      elim (Option-cases (group_is_igmp t ip_type e.grp_ip)) [
        | inl missing ↦ ground (arith, missing, at)
        | inr (is_igmp, found) ↦ ground (arith, found, at)
      ]
  cache_line-mrouter (Line.router none) s s1 br if_name at = ground arith
  cache_line-mrouter (Line.router (some (dev_name, mr_tokens))) s s1 br if_name at =
      let ports = router_ports t mr_tokens in
      ground
        (arith, at, member-add_routers dev_name ports.if_list ports.exp_time s.mrouter br if_name)

  cache_lines-mrouter :
      (cmd_response : List Line) (s s1 : Routes) (br if_name : String)
      → cache_lines t ip_type br_name cmd_response s ≡ some s1
      → member router_key (br, if_name) s1.mrouter
        ≡ (member router_key (br, if_name) s.mrouter || has_router_line br if_name cmd_response)
  unfolding cache_lines
  cache_lines-mrouter [] s s1 br if_name at = ground (arith, at)
  cache_lines-mrouter (line ∷ cmd_response) s s1 br if_name at =
      elim (Option-cases (cache_line t ip_type br_name line s)) [
        | inl missing ↦ ground (arith, missing, at)
        | inr (s2, found) ↦ ground (
          arith,
          found,
          at,
          cache_line-mrouter line s s2 br if_name found,
          cache_lines-mrouter cmd_response s2 s1 br if_name,
        )
      ]

  -- Has the answer to a request the interface, with a tag or without, among the mrouters of the bridge?
  unfoldable pub ports_of : Attrs → List String
  ports_of attrs = from_some [] attrs.static_mrouters ++ from_some [] attrs.mrouters

  unfoldable pub lists_router : String → String → List (String × Attrs) → Bool
  unfolding ports_of lookup member
  lists_router br if_name ret_val =
      member remove_ifname_tag if_name (ports_of (from_some no_attrs (lookup br ret_val)))

  member-extend :
      (o : Option (List String)) (if_list : List String) (if_name : String)
      → member remove_ifname_tag if_name (from_some [] (extend o if_list)) ≡ (
          member remove_ifname_tag if_name (from_some [] o)
          || member remove_ifname_tag if_name if_list)
  unfolding member
  member-extend none if_list if_name = refl
  member-extend (some ports) if_list if_name = member-append remove_ifname_tag if_name ports if_list

  ports_of-list_routers :
      (ports : Ports) (attrs : Attrs) (if_name : String)
      → member remove_ifname_tag if_name (ports_of (list_routers ports attrs)) ≡ (
          member remove_ifname_tag if_name (ports_of attrs)
          || member remove_ifname_tag if_name ports.if_list)
  unfolding ports_of list_routers
  ports_of-list_routers ports attrs if_name =
      let both = member-append remove_ifname_tag if_name in
      ground (
        arith,
        both (from_some [] attrs.static_mrouters) (from_some [] attrs.mrouters),
        both (from_some [] (extend attrs.static_mrouters ports.if_list))
            (from_some [] attrs.mrouters),
        both (from_some [] attrs.static_mrouters)
            (from_some [] (extend attrs.mrouters ports.if_list)),
        member-extend attrs.static_mrouters ports.if_list if_name,
        member-extend attrs.mrouters ports.if_list if_name,
      )

  ports_of-list_group :
      (e : Entry) (attrs attrs1 : Attrs)
      → list_group t e attrs ≡ some attrs1
      → ports_of attrs1 ≡ ports_of attrs
  unfolding ports_of list_group
  ports_of-list_group e attrs attrs1 at = elim (Option-cases (expire_of t e.exp_time)) [
    | inl missing ↦ ground (arith, missing, at)
    | inr (expire, found) ↦ ground (arith, found, at)
  ]

  lists_router-put :
      (br dev_name if_name : String) (attrs : Attrs) (ret_val : List (String × Attrs))
      → lists_router br if_name (put dev_name attrs ret_val) ≡ (elim (dev_name == br) [
        | true ↦ member remove_ifname_tag if_name (ports_of attrs)
        | false ↦ lists_router br if_name ret_val
      ])
  unfolding lists_router
  lists_router-put br dev_name if_name attrs ret_val =
      ground (arith, lookup-put dev_name br attrs ret_val)

  -- Entering a bridge whose interfaces become others changes the interfaces of that bridge.
  lists_router-enter :
      (br dev_name if_name : String) (attrs : Attrs) (ret_val : List (String × Attrs)) (more : Bool)
      → member remove_ifname_tag if_name (ports_of attrs) ≡ (
          member remove_ifname_tag if_name (ports_of (from_some no_attrs (lookup dev_name ret_val)))
          || more)
      → lists_router br if_name (put dev_name attrs ret_val)
        ≡ (lists_router br if_name ret_val || (dev_name == br && more))
  unfolding lists_router
  lists_router-enter br dev_name if_name attrs ret_val more h = elim (Bool-cases (dev_name == br)) [
    | inl same ↦ ground (
      arith,
      lists_router-put br dev_name if_name attrs ret_val,
      h,
      same,
      ap (λ b. lists_router b if_name ret_val) ((eq_string.same_iff dev_name br).0 same),
    )
    | inr other ↦ ground (arith, lists_router-put br dev_name if_name attrs ret_val, other)
  ]

  list_line-lists_router :
      (line : Line) (ret_val ret_val1 : List (String × Attrs)) (br if_name : String)
      → list_line t ip_type br_name line ret_val ≡ some ret_val1
      → lists_router br if_name ret_val1
        ≡ (lists_router br if_name ret_val || is_router_line br if_name line)
  unfolding list_line
  list_line-lists_router Line.short ret_val ret_val1 br if_name at = ground arith
  list_line-lists_router Line.unknown ret_val ret_val1 br if_name at = ground arith
  list_line-lists_router (Line.dev none) ret_val ret_val1 br if_name at = ground arith
  list_line-lists_router (Line.dev (some e)) ret_val ret_val1 br if_name at =
      let attrs = from_some no_attrs (lookup e.dev_name ret_val) in
      elim (Option-cases (group_is_igmp t ip_type e.grp_ip)) [
        | inl missing ↦ ground (
          arith,
          missing,
          at,
          lists_router-enter br e.dev_name if_name attrs ret_val false (ground arith),
        )
        | inr (is_igmp, found) ↦ elim (Option-cases (list_group t e attrs)) [
          | inl unlisted ↦ ground (arith, found, at, unlisted)
          | inr (attrs1, listed) ↦ ground (
            arith,
            found,
            at,
            listed,
            lists_router-enter br e.dev_name if_name attrs1 ret_val false (
                ap (member remove_ifname_tag if_name) (ports_of-list_group e attrs attrs1 listed)
                ∙ ground arith),
          )
        ]
      ]
  list_line-lists_router (Line.router none) ret_val ret_val1 br if_name at = ground arith
  list_line-lists_router (Line.router (some (dev_name, mr_tokens))) ret_val ret_val1 br if_name at =
      let attrs = from_some no_attrs (lookup dev_name ret_val) in
      let ports = router_ports t mr_tokens in
      ground (
        arith,
        at,
        lists_router-enter br dev_name if_name (list_routers ports attrs) ret_val
            (member remove_ifname_tag if_name ports.if_list)
            (ports_of-list_routers ports attrs if_name),
      )

  list_lines-lists_router :
      (cmd_response : List Line) (ret_val ret_val1 : List (String × Attrs)) (br if_name : String)
      → list_lines t ip_type br_name cmd_response ret_val ≡ some ret_val1
      → lists_router br if_name ret_val1
        ≡ (lists_router br if_name ret_val || has_router_line br if_name cmd_response)
  unfolding list_lines
  list_lines-lists_router [] ret_val ret_val1 br if_name at = ground (arith, at)
  list_lines-lists_router (line ∷ cmd_response) ret_val ret_val1 br if_name at =
      elim (Option-cases (list_line t ip_type br_name line ret_val)) [
        | inl missing ↦ ground (arith, missing, at)
        | inr (ret_val2, found) ↦ ground (
          arith,
          found,
          at,
          list_line-lists_router line ret_val ret_val2 br if_name found,
          list_lines-lists_router cmd_response ret_val2 ret_val1 br if_name,
        )
      ]

  -- The two answers to the same output, when both are given, have the same mrouters: an interface is
  -- in the set of the cache exactly when it is in one of the lists of its bridge, with its tag or without.
  pub list_lines-cache_lines :
      (cmd_response : List Line) (routes : Routes) (ret_val : List (String × Attrs))
      → cache_lines t ip_type br_name cmd_response (record { mrouter = []; group = [] })
        ≡ some routes
      → list_lines t ip_type br_name cmd_response [] ≡ some ret_val
      → (br if_name : String)
      → lists_router br if_name ret_val ≡ member router_key (br, if_name) routes.mrouter
  unfolding lists_router member ports_of
  list_lines-cache_lines cmd_response routes ret_val cached listed br if_name = ground (
    arith,
    cache_lines-mrouter cmd_response (record { mrouter = []; group = [] }) routes br if_name cached,
    list_lines-lists_router cmd_response [] ret_val br if_name listed,
  )
