-- ===== src/SnoopConfig.antt =====
-- The handlers of scripts/lib/python/dn_base_mcast_snoop_utils.py for the configuration of a VLAN's
-- snooping through the kernel's files, `handle_configs_fs`.
pub mod Params
pub mod Laws
use Prim.Native.String as Text
use opx_nas_linux.Prelude.{
  ℕ, zero, suc, ◌+◌, ◌*◌, ◌/◌, String, Bool, true, false, Option, none, some, List, [], ◌∷◌, ◌++◌,
  ◌&&◌, ◌||◌, if◌then◌else◌, nat_eq,
}
use opx_nas_linux.Snoop.{Shell, Command, handle_rules}
use opx_nas_linux.Snoop.Routes.{VlanInfo}
use opx_nas_linux.SnoopCache.{
  Cache, mrouter_path, flush_cache, update_static_mrouter_cache, clear_static_mrouter_cache,
}
use opx_nas_linux.SnoopCache.Names.{get_if_name}
use opx_nas_linux.SnoopCache.Info.{mcast_router_info}
use opx_nas_linux.SnoopCache.Polling.{Loop, hashmax_cfg_to_queue, get_path_per_vlan_configs}
use opx_nas_linux.SnoopConfig.Params.{
  Operation, is_delete, Param, StaticGroup, Data, Told, Service, and_update,
  handle_mcast_snoop_configs_fs,
}

-- the operation of the command `bridge`, which there is none of for 'set'
abbrev pub bridge_op : Operation → Option String
bridge_op Operation.create = some "add"
bridge_op Operation.delete = some "del"
bridge_op Operation.set = none

-- the value under the key of IGMP, or else under that of MLD, with whether it is that of IGMP
abbrev pub first_of {ℓ} : {A : Type ℓ} → (Bool → Option A) → Option (Bool × A)
first_of values = elim (values true) [
  | some a ↦ some (true, a)
  | none ↦ elim (values false) [ none ↦ none | some a ↦ some (false, a) ]
]

module _ (sh : Shell) where
  open sh use {State, run_command, update_file_system}

  -- The loop of `_handle_static_groups`, with the text of an address; what raises is False.
  unfoldable pub handle_groups :
      (String → String)
      → Operation
      → VlanInfo
      → (vlan_id vlan_name : String) → List StaticGroup
      → Bool
      → State
      → Bool × State
  unfolding get_if_name
  handle_groups address_text op vlan_info vlan_id vlan_name [] ret st = (ret, st)
  handle_groups address_text op vlan_info vlan_id vlan_name (g ∷ groups) ret st =
      elim (get_if_name vlan_info g.interface vlan_id) [
        | none ↦ (false, st)
        | some if_name ↦ elim (bridge_op op) [
          | none ↦ (false, st)
          | some mdb_op ↦
              let ((ok, lines), st1) =
                run_command (Command.bridge_mdb mdb_op vlan_name if_name (address_text g.group))
                  st in
              handle_groups address_text op vlan_info vlan_id vlan_name groups (ret && ok) st1
        ]
      ]

  -- The ids of the VLAN are those of the groups' protocol.
  unfoldable pub handle_static_groups :
      (String → String)
      → Operation
      → VlanInfo
      → (vlan_id : Option String) → (vlan_name : String) → List StaticGroup
      → State
      → Bool × State
  unfolding handle_groups
  handle_static_groups address_text op vlan_info vlan_id vlan_name [] st = (true, st)
  handle_static_groups address_text op vlan_info none vlan_name (g ∷ groups) st = (false, st)
  handle_static_groups address_text op vlan_info (some vlan_id) vlan_name (g ∷ groups) st =
      handle_groups address_text op vlan_info vlan_id vlan_name (g ∷ groups) true st

  -- The body of the loop over the static mrouters. A port whose file cannot be written is left to the
  -- polling thread.
  unfoldable pub configure_port :
      Operation → (vlan_name ifname : String) → Service → State → Service × State
  unfolding update_static_mrouter_cache clear_static_mrouter_cache mcast_router_info
  configure_port op vlan_name ifname s st =
      let m = mcast_router_info vlan_name ifname none in
      let (written, st1) =
        update_file_system (mrouter_path sh vlan_name ifname) (if is_delete op then 1 else 2) st in
      let polling = s.polling_thread in
      let pending = record s {
        polling_thread = record polling { cache = update_static_mrouter_cache m polling.cache };
      } in
      let cleared = record s {
        polling_thread = record polling { cache = clear_static_mrouter_cache m polling.cache };
      } in
      (if is_delete op then cleared else if written then s else pending, st1)

  -- The loop: what the handler returns at once, if anything.
  unfoldable pub handle_static_mrouters :
      Operation
      → VlanInfo
      → (vlan_id vlan_name : String) → List String
      → Service
      → State
      → (Option Bool × Service) × State
  unfolding get_if_name configure_port
  handle_static_mrouters op vlan_info vlan_id vlan_name [] s st = ((none, s), st)
  handle_static_mrouters op vlan_info vlan_id vlan_name (val ∷ vals) s st =
      elim (get_if_name vlan_info val vlan_id) [
        | none ↦ ((some (is_delete op), s), st)
        | some ifname ↦
            let (s1, st1) = configure_port op vlan_name ifname s st in
            handle_static_mrouters op vlan_info vlan_id vlan_name vals s1 st1
      ]

  -- The part of `handle_configs_fs` on static mrouters, after what it has to return so far.
  unfoldable pub handle_mrouters :
      Operation
      → VlanInfo
      → (vlan_id vlan_name : String) → Option (Bool × List String)
      → Bool
      → Service
      → State
      → (Bool × Service) × State
  unfolding handle_static_mrouters
  handle_mrouters op vlan_info vlan_id vlan_name none ret s st = ((ret, s), st)
  handle_mrouters op vlan_info vlan_id vlan_name (some (is_igmp, vals)) ret s st =
      let ((returned, s1), st1) = handle_static_mrouters op vlan_info vlan_id vlan_name vals s st in
      ((elim returned [ none ↦ ret | some early ↦ early ], s1), st1)

  -- The two files of the querier.
  unfoldable pub handle_querier : Operation → String → Bool → State → Bool × State
  unfolding and_update get_path_per_vlan_configs
  handle_querier op vlan_name querier st =
      let mcast_querier = if is_delete op then 0 else 1 in
      let (ret1, st1) =
        and_update sh true (get_path_per_vlan_configs vlan_name "multicast_querier") mcast_querier
          st in
      let (ret2, st2) =
        and_update sh ret1 (get_path_per_vlan_configs vlan_name "multicast_query_use_ifaddr")
          mcast_querier st1 in
      if querier then (ret2, st2) else (true, st)

module _ (sh : Shell) (read_file_system : String → sh.State → Option ℕ) where
  open sh use {State}

  -- The part of `handle_configs_fs` on a VLAN that there is.
  unfoldable pub handle_vlan :
      List Param
      → (Bool → String → String)
      → Data
      → Operation
      → VlanInfo
      → (vlan_id vlan_name : String) → Service
      → State
      → (Bool × Service) × State
  unfolding handle_querier handle_mcast_snoop_configs_fs handle_static_groups handle_mrouters
  handle_vlan keys address_text attrs op vlan_info vlan_id vlan_name s st =
      let (ret1, st1) =
        handle_querier sh op vlan_name (attrs.querier true || attrs.querier false) st in
      let ((ret2, s2), st2) =
        (if ret1
          then handle_mcast_snoop_configs_fs sh read_file_system keys attrs op vlan_id vlan_name s
              st1
          else ((false, s), st1)) in
      let (ret3, st3) : Bool × State = elim (first_of attrs.static_groups) [
        | none ↦ (ret2, st2)
        | some (is_igmp, groups) ↦
            let group_vlan = attrs.vlan_id is_igmp in
            if ret2
            then handle_static_groups sh (address_text is_igmp) op vlan_info group_vlan vlan_name
                groups st2
            else (false, st2)
      ] in
      handle_mrouters sh op vlan_info vlan_id vlan_name (first_of attrs.static_mrouters) ret3 s2 st3

  -- What the caller gets: an exception is False for it. `vlan_info_of` is the first object that CPS has
  -- for the id of a VLAN, with the name of its bridge.
  unfoldable pub handle_configs_fs :
      List Param
      → (Bool → String → String)
      → (String → Option (VlanInfo × String))
      → Data
      → Operation
      → Service
      → State
      → (Bool × Service) × State
  unfolding handle_vlan handle_rules
  handle_configs_fs keys address_text vlan_info_of attrs op s st = elim (attrs.global_enable true) [
    | some enable ↦ let (ret, st1) = handle_rules sh enable st in ((ret, s), st1)
    | none ↦ elim (attrs.global_enable false) [
      | some enable ↦ ((false, s), st)
      | none ↦ elim (first_of attrs.vlan_id) [
        | none ↦ ((false, s), st)
        | some (is_igmp, vlan_id) ↦ elim (vlan_info_of vlan_id) [
          | none ↦ ((false, s), st)
          | some (vlan_info, vlan_name) ↦
              handle_vlan keys address_text attrs op vlan_info vlan_id vlan_name s st
        ]
      ]
    ]
  ]
