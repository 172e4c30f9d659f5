-- ===== src/SnoopCache/Indexed.antt =====
-- The maps of McastSnoopCacheMgr from bridges are indexes of its two sets.
pub mod Flush
use opx_nas_linux.Prelude.{
  ℕ, String, Bool, true, false, Option, none, some, List, [], ◌∷◌, ◌≡◌, refl, arith, ◌==◌, ◌||◌,
  ◌&&◌, not, lookup, remove, lookup-remove, HasEq, eq_string, Option-cases, Bool-cases, inl, inr,
}
use opx_nas_linux.SnoopCache.{
  Cache, Routes, same_name, same_group, update_static_mrouter_cache, clear_static_mrouter_cache,
  flush_cache, update_mrouter_set, update_group_set, update_cache,
}
use opx_nas_linux.SnoopCache.Names.{remove_ifname_tag}
use opx_nas_linux.SnoopCache.Sets.{
  member, discard, difference, member-discard, member-difference, eq_pair, pair_iff,
}
use opx_nas_linux.SnoopCache.Info.{McastRouterInfo, router_key, McastGroupInfo, group_key}
use opx_nas_linux.SnoopCache.Index.{remove_entries, add_entries, in_index}
use opx_nas_linux.SnoopCache.Index.Laws.{full_key, in_index-remove_entries, in_index-add_entries}

-- A bridge's entry has the names of the interfaces of its mrouters, and its groups.
unfoldable pub IsIndexed : Cache → Type 0
unfolding in_index member
IsIndexed s =
    ((br_name if_name : String)
      → in_index same_name br_name if_name s.br_mrouter_map
        ≡ member router_key (br_name, if_name) s.mrouter_set)
    × ((br_name : String) (k : String × (String × String))
        → in_index group_key br_name k s.br_group_map
          ≡ (k.0 == br_name && member group_key k s.group_set))

-- A group is under its own bridge.
abbrev under_bridge : McastGroupInfo → String × (String × (String × String))
under_bridge = full_key McastGroupInfo.br_name same_group group_key

member-under_bridge :
    (br_name : String) (k : String × (String × String)) (groups : List McastGroupInfo)
    → member under_bridge (br_name, k) groups ≡ (k.0 == br_name && member group_key k groups)
unfolding member
member-under_bridge br_name k [] = ground arith
member-under_bridge br_name k (g ∷ groups) = ground (
  arith,
  eq_string.same_iff g.br_name br_name,
  eq_string.same_iff g.br_name k.0,
  eq_string.same_iff k.0 br_name,
  member-under_bridge br_name k groups,
)

module _ (vlan_info : String → Option ℕ) where
  update_mrouter_set-IsIndexed :
      (new_set : List McastRouterInfo) (s : Cache)
      → IsIndexed s
      → IsIndexed (update_mrouter_set vlan_info new_set s)
  unfolding update_mrouter_set IsIndexed
  update_mrouter_set-IsIndexed new_set s (mrouters, groups) =
      let del_set = difference router_key s.mrouter_set new_set in
      let add_set = difference router_key new_set s.mrouter_set in
      let removed =
        remove_entries McastRouterInfo.br_name McastRouterInfo.if_name same_name del_set
          s.br_mrouter_map in
      (
        λ br_name if_name. ground (
          arith,
          in_index-add_entries McastRouterInfo.br_name McastRouterInfo.if_name same_name br_name
              if_name add_set removed,
          in_index-remove_entries McastRouterInfo.br_name McastRouterInfo.if_name same_name br_name
              if_name del_set s.br_mrouter_map,
          mrouters br_name if_name,
          member-difference router_key (br_name, if_name) s.mrouter_set new_set,
          member-difference router_key (br_name, if_name) new_set s.mrouter_set,
        ),
        groups,
      )

  update_group_set-IsIndexed :
      (new_set : List McastGroupInfo) (s : Cache)
      → IsIndexed s
      → IsIndexed (update_group_set vlan_info new_set s)
  unfolding update_group_set IsIndexed
  update_group_set-IsIndexed new_set s (mrouters, groups) =
      let del_set = difference group_key s.group_set new_set in
      let add_set = difference group_key new_set s.group_set in
      let removed =
        remove_entries McastGroupInfo.br_name same_group group_key del_set s.br_group_map in
      (
        mrouters,
        λ br_name k. ground (
          arith,
          in_index-add_entries McastGroupInfo.br_name same_group group_key br_name k add_set
              removed,
          in_index-remove_entries McastGroupInfo.br_name same_group group_key br_name k del_set
              s.br_group_map,
          groups br_name k,
          member-under_bridge br_name k del_set,
          member-under_bridge br_name k add_set,
          member-difference group_key k s.group_set new_set,
          member-difference group_key k new_set s.group_set,
        ),
      )

  pub update_cache-IsIndexed :
      (mc_snoop_info : Option Routes) (s : Cache)
      → IsIndexed s
      → IsIndexed (update_cache vlan_info mc_snoop_info s)
  unfolding update_cache IsIndexed
  update_cache-IsIndexed none s h = h
  update_cache-IsIndexed (some routes) s h =
      let cleared = record s { feed = record { vlan_map = []; published = s.feed.published } } in
      update_group_set-IsIndexed routes.group (update_mrouter_set vlan_info routes.mrouter cleared)
        (update_mrouter_set-IsIndexed routes.mrouter cleared h)
