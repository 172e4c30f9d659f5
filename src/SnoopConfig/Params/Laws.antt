-- ===== src/SnoopConfig/Params/Laws.antt =====
-- Parameters keep the polling thread's state sound, and cannot be deleted.
use opx_nas_linux.Prelude.{
  ℕ, zero, suc, String, Bool, true, false, Option, some, List, [], ◌∷◌, ◌||◌, ◌&&◌, ◌≡◌, refl,
  arith, All, Option-cases, inl, inr, not, if◌then◌else◌,
}
use opx_nas_linux.Snoop.{Shell}
use opx_nas_linux.Rule.Incoming.{is_some}
use opx_nas_linux.SnoopCache.Indexed.{IsIndexed}
use opx_nas_linux.SnoopCache.Indexed.Flush.{
  IsUntagged, flush_cache-IsIndexed, flush_cache-IsUntagged,
}
use opx_nas_linux.SnoopCache.Polling.{Loop, Task, hashmax_cfg_to_queue, get_path_per_vlan_configs}
use opx_nas_linux.SnoopCache.Polling.Laws.{IsTried, HasTimeout, All-append}
use opx_nas_linux.SnoopConfig.Params.{
  Operation, Param, Data, Service, and_update, forget, tell, enlarge, config_param, config_params,
  paths_of, file_name, param_value, handle_mcast_snoop_configs_fs,
}

-- What the polling thread relies on: an indexed cache without tags, tasks that may still be tried, and a
-- timeout that `get` takes.
unfoldable pub IsSound : Loop → Type 0
unfolding IsIndexed IsUntagged HasTimeout
IsSound s =
    (IsIndexed s.cache × IsUntagged s.cache.mrouter_set)
    × (All IsTried s.hashmax_cfg_q × HasTimeout s)

-- Is one of the parameters in the data?
abbrev pub has_param : Data → List (Param × Bool) → Bool
has_param attrs [] = false
has_param attrs ((k, is_igmp) ∷ paths) = is_some (attrs.params k is_igmp) || has_param attrs paths

module _ (sh : Shell) (read_file_system : String → sh.State → Option ℕ) where
  open sh use {State}

  forget-IsSound :
      (k : Param) (v : ℕ) (vlan_name : String) (s : Service)
      → IsSound s.polling_thread
      → IsSound (forget k v vlan_name s).polling_thread
  unfolding forget IsSound HasTimeout
  forget-IsSound Param.mcast_snooping zero vlan_name s ((indexed, untagged), rest) =
      let cache = s.polling_thread.cache in
      (
        (
          flush_cache-IsIndexed (some vlan_name) cache indexed untagged,
          flush_cache-IsUntagged (some vlan_name) cache indexed untagged,
        ),
        rest,
      )
  forget-IsSound Param.mcast_snooping (suc v) vlan_name s h = h
  forget-IsSound Param.mcast_last_member_interval v vlan_name s h = h
  forget-IsSound Param.mcast_query_interval v vlan_name s h = h
  forget-IsSound Param.mcast_query_response_interval v vlan_name s h = h

  tell-polling_thread :
      (k : Param) (v : ℕ) (vlan_id : String) (op : Operation) (s : Service)
      → (tell k v vlan_id op s).polling_thread ≡ s.polling_thread
  unfolding tell
  tell-polling_thread Param.mcast_snooping v vlan_id op s = refl
  tell-polling_thread Param.mcast_last_member_interval v vlan_id op s = refl
  tell-polling_thread Param.mcast_query_interval v vlan_id op s = refl
  tell-polling_thread Param.mcast_query_response_interval v vlan_id op s = refl

  enlarge-IsSound :
      (k : Param) (v : ℕ) (vlan_name : String) (ret : Bool) (s : Service) (st : State)
      → IsSound s.polling_thread
      → IsSound (enlarge sh k v vlan_name ret s st).0.1.polling_thread
  unfolding enlarge IsSound HasTimeout hashmax_cfg_to_queue
  enlarge-IsSound Param.mcast_snooping zero vlan_name ret s st h = h
  enlarge-IsSound Param.mcast_snooping (suc zero) vlan_name false s st h = h
  enlarge-IsSound Param.mcast_snooping (suc zero) vlan_name true s st (cached, (tried, timeout)) =
      let task : Task = record { br_name = vlan_name; max_grps = 16384; try_count = 0 } in
      (cached, (All-append s.polling_thread.hashmax_cfg_q task tried (omega arith), timeout))
  enlarge-IsSound Param.mcast_snooping (suc (suc v)) vlan_name ret s st h = h
  enlarge-IsSound Param.mcast_last_member_interval v vlan_name ret s st h = h
  enlarge-IsSound Param.mcast_query_interval v vlan_name ret s st h = h
  enlarge-IsSound Param.mcast_query_response_interval v vlan_name ret s st h = h

  told-IsSound :
      (written : Bool) (k : Param) (v : ℕ) (vlan_id : String) (op : Operation) (s : Service)
      → IsSound s.polling_thread
      → IsSound (if written then tell k v vlan_id op s else s).polling_thread
  told-IsSound true k v vlan_id op s h = rw (tell-polling_thread k v vlan_id op s) h
  told-IsSound false k v vlan_id op s h = h

  changed-IsSound :
      (op : Operation) (vlan_id vlan_name : String) (k : Param) (v : ℕ) (wrote : Bool × State)
      (s : Service)
      → IsSound s.polling_thread
      → let s1 = forget k v vlan_name s in
        let s2 = if wrote.0 then tell k v vlan_id op s1 else s1 in
        IsSound (enlarge sh k v vlan_name wrote.0 s2 wrote.1).0.1.polling_thread
  changed-IsSound op vlan_id vlan_name k v wrote s h =
      let s1 = forget k v vlan_name s in
      enlarge-IsSound k v vlan_name wrote.0 (if wrote.0 then tell k v vlan_id op s1 else s1) wrote.1
        (told-IsSound wrote.0 k v vlan_id op s1 (forget-IsSound k v vlan_name s h))

  config_param-IsSound :
      (op : Operation) (vlan_id vlan_name : String) (k : Param) (v : ℕ) (ret : Bool) (s : Service)
      (st : State)
      → IsSound s.polling_thread
      → IsSound
          (config_param sh read_file_system op vlan_id vlan_name k v ret s st).0.1.polling_thread
  unfolding config_param
  config_param-IsSound Operation.delete vlan_id vlan_name k v ret s st h = h
  config_param-IsSound Operation.create vlan_id vlan_name k v ret s st h =
      changed-IsSound Operation.create vlan_id vlan_name k v
        (and_update sh ret (get_path_per_vlan_configs vlan_name (file_name k)) (param_value k v) st)
        s h
  config_param-IsSound Operation.set vlan_id vlan_name k v ret s st h =
      changed-IsSound Operation.set vlan_id vlan_name k v
        (and_update sh ret (get_path_per_vlan_configs vlan_name (file_name k)) (param_value k v) st)
        s h

  config_params-IsSound :
      (attrs : Data) (op : Operation) (vlan_id vlan_name : String) (paths : List (Param × Bool))
      (ret : Bool) (s : Service) (st : State)
      → IsSound s.polling_thread
      → IsSound
          (config_params sh read_file_system attrs op vlan_id vlan_name paths ret s
            st).0.1.polling_thread
  unfolding config_params
  config_params-IsSound attrs op vlan_id vlan_name [] ret s st h = h
  config_params-IsSound attrs op vlan_id vlan_name ((k, is_igmp) ∷ paths) ret s st h =
      let sound = config_param-IsSound op vlan_id vlan_name k in
      elim (Option-cases (attrs.params k is_igmp)) [
        | inl missing ↦
            rw (missing, config_params)
              (config_params-IsSound attrs op vlan_id vlan_name paths ret s st h)
        | inr (v, at) ↦
            let next = config_param sh read_file_system op vlan_id vlan_name k v ret s st in
            elim (Option-cases next.0.0) [
              | inl returned ↦ rw (at, returned, config_params) (sound v ret s st h)
              | inr (ret2, more) ↦
                  rw (at, more, config_params)
                    (config_params-IsSound attrs op vlan_id vlan_name paths ret2 next.0.1 next.1
                      (sound v ret s st h))
            ]
      ]

  -- A parameter that is to be deleted makes the handler fail before it does anything.
  config_params_delete :
      (attrs : Data) (vlan_id vlan_name : String) (paths : List (Param × Bool)) (ret : Bool)
      (s : Service) (st : State)
      → config_params sh read_file_system attrs Operation.delete vlan_id vlan_name paths ret s st
        ≡ ((not (has_param attrs paths) && ret, s), st)
  unfolding config_params config_param is_some
  config_params_delete attrs vlan_id vlan_name [] ret s st = refl
  config_params_delete attrs vlan_id vlan_name ((k, is_igmp) ∷ paths) ret s st =
      elim (Option-cases (attrs.params k is_igmp)) [
        | inl missing ↦
            ground (arith, missing, config_params_delete attrs vlan_id vlan_name paths ret s st)
        | inr (v, at) ↦ ground (arith, at)
      ]

  -- A request to delete parameters fails before it does anything, and one without parameters succeeds
  -- without doing anything.
  pub handle_mcast_snoop_configs_fs_delete :
      (keys : List Param) (attrs : Data) (vlan_id vlan_name : String) (s : Service) (st : State)
      → handle_mcast_snoop_configs_fs sh read_file_system keys attrs Operation.delete vlan_id
          vlan_name s st
        ≡ ((not (has_param attrs (paths_of keys)), s), st)
  unfolding handle_mcast_snoop_configs_fs
  handle_mcast_snoop_configs_fs_delete keys attrs vlan_id vlan_name s st =
      ground (arith, config_params_delete attrs vlan_id vlan_name (paths_of keys) true s st)

  pub handle_mcast_snoop_configs_fs-IsSound :
      (keys : List Param) (attrs : Data) (op : Operation) (vlan_id vlan_name : String) (s : Service)
      (st : State)
      → IsSound s.polling_thread
      → IsSound
          (handle_mcast_snoop_configs_fs sh read_file_system keys attrs op vlan_id vlan_name s
            st).0.1.polling_thread
  unfolding handle_mcast_snoop_configs_fs
  handle_mcast_snoop_configs_fs-IsSound keys attrs op vlan_id vlan_name s st h =
      config_params-IsSound attrs op vlan_id vlan_name (paths_of keys) true s st h
