-- ===== src/SnoopConfig/Laws.antt =====
-- The handlers keep what the polling thread relies on.
use opx_nas_linux.Prelude.{
  ℕ, String, Bool, true, false, Option, none, some, List, [], ◌∷◌, ◌||◌, Option-cases, inl, inr,
  if◌then◌else◌,
}
use opx_nas_linux.Snoop.{Shell}
use opx_nas_linux.Snoop.Routes.{VlanInfo}
use opx_nas_linux.SnoopCache.{mrouter_path, update_static_mrouter_cache, clear_static_mrouter_cache}
use opx_nas_linux.SnoopCache.Info.{McastRouterInfo, mcast_router_info}
use opx_nas_linux.SnoopCache.Names.{get_if_name}
use opx_nas_linux.SnoopCache.Indexed.{IsIndexed}
use opx_nas_linux.SnoopCache.Indexed.Flush.{IsUntagged}
use opx_nas_linux.SnoopCache.Polling.Laws.{HasTimeout}
use opx_nas_linux.SnoopConfig.{
  first_of, configure_port, handle_static_mrouters, handle_mrouters, handle_querier, handle_vlan,
  handle_configs_fs,
}
use opx_nas_linux.SnoopConfig.Params.{
  Operation, Param, Data, Service, handle_mcast_snoop_configs_fs,
}
use opx_nas_linux.SnoopConfig.Params.Laws.{IsSound, handle_mcast_snoop_configs_fs-IsSound}

module _ (sh : Shell) where
  open sh use {State}

  either-IsSound :
      (b : Bool) (s t : Service)
      → IsSound s.polling_thread
      → IsSound t.polling_thread
      → IsSound (if b then s else t).polling_thread
  either-IsSound true s t hs ht = hs
  either-IsSound false s t hs ht = ht

  left_to_thread : McastRouterInfo → Service → Service
  left_to_thread m s =
      let polling = s.polling_thread in
      record s {
        polling_thread = record polling { cache = update_static_mrouter_cache m polling.cache };
      }

  left_to_thread-IsSound :
      (m : McastRouterInfo) (s : Service)
      → IsSound s.polling_thread
      → IsSound (left_to_thread m s).polling_thread
  unfolding left_to_thread update_static_mrouter_cache IsSound IsIndexed IsUntagged HasTimeout
  left_to_thread-IsSound m s h = h

  configure_port-IsSound :
      (op : Operation) (vlan_name ifname : String) (s : Service) (st : State)
      → IsSound s.polling_thread
      → IsSound (configure_port sh op vlan_name ifname s st).0.polling_thread
  unfolding configure_port left_to_thread clear_static_mrouter_cache IsSound IsIndexed IsUntagged
      HasTimeout
  configure_port-IsSound Operation.delete vlan_name ifname s st h = h
  configure_port-IsSound Operation.create vlan_name ifname s st h =
      let m = mcast_router_info vlan_name ifname none in
      either-IsSound (sh.update_file_system (mrouter_path sh vlan_name ifname) 2 st).0 s
        (left_to_thread m s) h (left_to_thread-IsSound m s h)
  configure_port-IsSound Operation.set vlan_name ifname s st h =
      let m = mcast_router_info vlan_name ifname none in
      either-IsSound (sh.update_file_system (mrouter_path sh vlan_name ifname) 2 st).0 s
        (left_to_thread m s) h (left_to_thread-IsSound m s h)

  handle_static_mrouters-IsSound :
      (op : Operation) (vlan_info : VlanInfo) (vlan_id vlan_name : String) (vals : List String)
      (s : Service) (st : State)
      → IsSound s.polling_thread
      → IsSound
          (handle_static_mrouters sh op vlan_info vlan_id vlan_name vals s st).0.1.polling_thread
  unfolding handle_static_mrouters
  handle_static_mrouters-IsSound op vlan_info vlan_id vlan_name [] s st h = h
  handle_static_mrouters-IsSound op vlan_info vlan_id vlan_name (val ∷ vals) s st h =
      elim (Option-cases (get_if_name vlan_info val vlan_id)) [
        | inl missing ↦ rw (missing, handle_static_mrouters) h
        | inr (ifname, at) ↦
            let next = configure_port sh op vlan_name ifname s st in
            rw (at, handle_static_mrouters)
              (handle_static_mrouters-IsSound op vlan_info vlan_id vlan_name vals next.0 next.1
                (configure_port-IsSound op vlan_name ifname s st h))
      ]

  handle_mrouters-IsSound :
      (op : Operation) (vlan_info : VlanInfo) (vlan_id vlan_name : String)
      (mrouters : Option (Bool × List String)) (ret : Bool) (s : Service) (st : State)
      → IsSound s.polling_thread
      → IsSound
          (handle_mrouters sh op vlan_info vlan_id vlan_name mrouters ret s st).0.1.polling_thread
  unfolding handle_mrouters
  handle_mrouters-IsSound op vlan_info vlan_id vlan_name none ret s st h = h
  handle_mrouters-IsSound op vlan_info vlan_id vlan_name (some (is_igmp, vals)) ret s st h =
      handle_static_mrouters-IsSound op vlan_info vlan_id vlan_name vals s st h

module _ (sh : Shell) (read_file_system : String → sh.State → Option ℕ) (keys : List Param)
    (address_text : Bool → String → String) where
  open sh use {State}

  params_if-IsSound :
      (ret : Bool) (attrs : Data) (op : Operation) (vlan_id vlan_name : String) (s : Service)
      (st : State)
      → IsSound s.polling_thread
      → IsSound
          (if ret
            then handle_mcast_snoop_configs_fs sh read_file_system keys attrs op vlan_id vlan_name s
                st
            else ((false, s), st)).0.1.polling_thread
  params_if-IsSound true attrs op vlan_id vlan_name s st h =
      handle_mcast_snoop_configs_fs-IsSound sh read_file_system keys attrs op vlan_id vlan_name s st
        h
  params_if-IsSound false attrs op vlan_id vlan_name s st h = h

  handle_vlan-IsSound :
      (attrs : Data) (op : Operation) (vlan_info : VlanInfo) (vlan_id vlan_name : String)
      (s : Service) (st : State)
      → IsSound s.polling_thread
      → IsSound
          (handle_vlan sh read_file_system keys address_text attrs op vlan_info vlan_id vlan_name s
            st).0.1.polling_thread
  unfolding handle_vlan
  handle_vlan-IsSound attrs op vlan_info vlan_id vlan_name s st h =
      let queried = handle_querier sh op vlan_name (attrs.querier true || attrs.querier false) st in
      let sound = params_if-IsSound queried.0 attrs op vlan_id vlan_name s queried.1 h in
      handle_mrouters-IsSound sh op vlan_info vlan_id vlan_name (first_of attrs.static_mrouters) _ _
        _ sound

  -- Whatever is configured, with whatever outcome of the commands and the files, the handler leaves the
  -- polling thread an indexed cache without tags, tasks that may still be tried, and its timeout.
  pub handle_configs_fs-IsSound :
      (vlan_info_of : String → Option (VlanInfo × String)) (attrs : Data) (op : Operation)
      (s : Service) (st : State)
      → IsSound s.polling_thread
      → IsSound
          (handle_configs_fs sh read_file_system keys address_text vlan_info_of attrs op s
            st).0.1.polling_thread
  unfolding handle_configs_fs
  handle_configs_fs-IsSound vlan_info_of attrs op s st h =
      elim (Option-cases (attrs.global_enable true)) [
        | inr (enable, at) ↦ rw (at, handle_configs_fs) h
        | inl no_igmp ↦ elim (Option-cases (attrs.global_enable false)) [
          | inr (enable, at) ↦ rw (no_igmp, at, handle_configs_fs) h
          | inl no_mld ↦ elim (Option-cases (first_of attrs.vlan_id)) [
            | inl no_id ↦ rw (no_igmp, no_mld, no_id, handle_configs_fs) h
            | inr (id, at) ↦ elim (Option-cases (vlan_info_of id.1)) [
              | inl no_vlan ↦ rw (no_igmp, no_mld, at, no_vlan, handle_configs_fs) h
              | inr (vlan, found) ↦
                  rw (no_igmp, no_mld, at, found, handle_configs_fs)
                    (handle_vlan-IsSound attrs op vlan.0 id.1 vlan.1 s st h)
            ]
          ]
        ]
      ]
