-- ===== src/SnoopConfig/Params.antt =====
-- `_handle_mcast_snoop_configs_fs` of scripts/lib/python/dn_base_mcast_snoop_utils.py: the parameters of
-- a VLAN's snooping, written to the kernel's files.
pub mod Laws
use Prim.Native.String as Text
use opx_nas_linux.Prelude.{
  ℕ, zero, suc, ◌+◌, ◌*◌, ◌/◌, String, Bool, true, false, Option, none, some, List, [], ◌∷◌, ◌++◌,
  ◌&&◌, ◌||◌, if◌then◌else◌, nat_eq,
}
use opx_nas_linux.Snoop.{Shell, Command, handle_rules}
use opx_nas_linux.Snoop.Routes.{VlanInfo}
use opx_nas_linux.SnoopCache.{
  Cache, mrouter_path, flush_cache, update_static_mrouter_cache, clear_static_mrouter_cache,
}
use opx_nas_linux.SnoopCache.Names.{get_if_name}
use opx_nas_linux.SnoopCache.Info.{mcast_router_info}
use opx_nas_linux.SnoopCache.Polling.{Loop, hashmax_cfg_to_queue, get_path_per_vlan_configs}

pub data Operation : Type 0 where
  create set delete : Operation

abbrev pub is_delete : Operation → Bool
is_delete Operation.delete = true
is_delete Operation.create = false
is_delete Operation.set = false

-- The keys of `_ip_link_cmd_params`.
pub data Param : Type 0 where
  mcast_snooping mcast_last_member_interval : Param
  mcast_query_interval mcast_query_response_interval : Param

abbrev pub file_name : Param → String
file_name Param.mcast_snooping = "multicast_snooping"
file_name Param.mcast_last_member_interval = "multicast_last_member_interval"
file_name Param.mcast_query_interval = "multicast_query_interval"
file_name Param.mcast_query_response_interval = "multicast_query_response_interval"

-- The value in ticks, where the attribute is in seconds.
abbrev pub param_value : Param → ℕ → ℕ
param_value Param.mcast_snooping v = v
param_value Param.mcast_last_member_interval v = v * 100
param_value Param.mcast_query_interval v = v * 100
param_value Param.mcast_query_response_interval v = v

-- A group to be added to or deleted from the kernel's table.
pub record StaticGroup : Type 0 where
  pub group : String
  pub interface : String

-- The attributes of a request; what is there for IGMP is given for true, what is there for MLD for false.
pub record Data : Type 0 where
  pub global_enable : Bool → Option ℕ
  pub vlan_id : Bool → Option String
  pub params : Param → Bool → Option ℕ
  pub querier : Bool → Bool
  pub static_groups : Bool → Option (List StaticGroup)
  pub static_mrouters : Bool → Option (List String)

-- An event of a change of snooping, which is published for IGMP and for MLD.
pub record Told : Type 0 where
  pub vlan_id : String
  pub enable : ℕ
  pub op : Operation

-- What the handlers share with the polling thread, and the events of this file's handlers.
pub record Service : Type 0 where
  pub polling_thread : Loop
  pub told : List Told

-- What the change of snooping does to the cache: switching it off forgets the VLAN.
unfoldable pub forget : Param → ℕ → String → Service → Service
unfolding flush_cache
forget Param.mcast_snooping zero vlan_name s =
    let polling = s.polling_thread in
    record s {
      polling_thread = record polling { cache = flush_cache (some vlan_name) polling.cache };
    }
forget _ _ vlan_name s = s

unfoldable pub tell : Param → ℕ → (vlan_id : String) → Operation → Service → Service
tell Param.mcast_snooping v vlan_id op s = record s {
  told = s.told ++ (record { vlan_id = vlan_id; enable = v; op = op } ∷ []);
}
tell _ v vlan_id op s = s

-- the paths of each key, in the order of the keys
abbrev pub paths_of : List Param → List (Param × Bool)
paths_of [] = []
paths_of (k ∷ keys) = (k, true) ∷ (k, false) ∷ paths_of keys

module _ (sh : Shell) where
  open sh use {State, update_file_system}

  -- ret and _update_file_system(…)
  unfoldable pub and_update : Bool → String → ℕ → State → Bool × State
  and_update ret path value st = if ret then update_file_system path value st else (false, st)

  -- Switching snooping on sets the sizes of the hash table: the number of groups through the queue.
  unfoldable pub enlarge : Param → ℕ → String → Bool → Service → State → (Bool × Service) × State
  unfolding and_update hashmax_cfg_to_queue get_path_per_vlan_configs
  enlarge Param.mcast_snooping (suc zero) vlan_name ret s st =
      let queued = record s {
        polling_thread = hashmax_cfg_to_queue vlan_name 16384 0 s.polling_thread;
      } in
      let (ret1, st1) =
        and_update ret (get_path_per_vlan_configs vlan_name "hash_elasticity") 8 st in
      ((ret1, if ret then queued else s), st1)
  enlarge _ _ vlan_name ret s st = ((ret, s), st)

module _ (sh : Shell) (read_file_system : String → sh.State → Option ℕ) where
  open sh use {State}

  -- The intervals the kernel does not derive from the query interval; `none` is `return False`.
  unfoldable pub derive : Param → ℕ → String → Bool → State → Option Bool × State
  unfolding and_update get_path_per_vlan_configs
  derive Param.mcast_query_interval v vlan_name ret st =
      elim (read_file_system
        (get_path_per_vlan_configs vlan_name "multicast_query_response_interval") st) [
          | none ↦ (none, st)
          | some response ↦
              let (ret1, st1) =
                and_update sh ret
                  (get_path_per_vlan_configs vlan_name "multicast_membership_interval")
                  ((v * 2 + response / 100) * 100) st in
              let (ret2, st2) =
                and_update sh ret1
                  (get_path_per_vlan_configs vlan_name "multicast_querier_interval")
                  ((v * 2 + (response / 100) / 2) * 100) st1 in
              (some ret2, st2)
        ]
  derive _ v vlan_name ret st = (some ret, st)

  -- One attribute that is in the data; `none` is `return False`.
  unfoldable pub config_param :
      Operation
      → (vlan_id vlan_name : String) → Param
      → ℕ
      → Bool
      → Service
      → State
      → (Option Bool × Service) × State
  unfolding forget tell enlarge derive and_update get_path_per_vlan_configs
  config_param op vlan_id vlan_name k v ret s st =
      let s1 = forget k v vlan_name s in
      let (ret1, st1) =
        and_update sh ret (get_path_per_vlan_configs vlan_name (file_name k)) (param_value k v)
          st in
      let s2 = if ret1 then tell k v vlan_id op s1 else s1 in
      let ((ret2, s3), st2) = enlarge sh k v vlan_name ret1 s2 st1 in
      let (ret3, st3) = derive k v vlan_name ret2 st2 in
      if is_delete op then ((none, s), st) else ((ret3, s3), st3)

  -- The loop over the attributes; the order of the keys is that of the dictionary.
  unfoldable pub config_params :
      Data
      → Operation
      → (vlan_id vlan_name : String) → List (Param × Bool)
      → Bool
      → Service
      → State
      → (Bool × Service) × State
  unfolding config_param
  config_params attrs op vlan_id vlan_name [] ret s st = ((ret, s), st)
  config_params attrs op vlan_id vlan_name ((k, is_igmp) ∷ paths) ret s st =
      elim (attrs.params k is_igmp) [
        | none ↦ config_params attrs op vlan_id vlan_name paths ret s st
        | some v ↦
            let ((ret1, s1), st1) = config_param op vlan_id vlan_name k v ret s st in
            elim ret1 [
              | none ↦ ((false, s1), st1)
              | some ret2 ↦ config_params attrs op vlan_id vlan_name paths ret2 s1 st1
            ]
      ]

  unfoldable pub handle_mcast_snoop_configs_fs :
      List Param
      → Data
      → Operation
      → (vlan_id vlan_name : String) → Service
      → State
      → (Bool × Service) × State
  unfolding config_params
  handle_mcast_snoop_configs_fs keys attrs op vlan_id vlan_name s st =
      config_params attrs op vlan_id vlan_name (paths_of keys) true s st
