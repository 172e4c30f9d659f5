-- ===== src/SnoopCache/Reachable.antt =====
-- Every cache that the methods of McastSnoopCacheMgr make is indexed.
use opx_nas_linux.Prelude.{ℕ, String, Option, none, some, List, [], ◌∷◌, refl, arith, All}
use opx_nas_linux.SnoopCache.{
  Cache, Routes, update_static_mrouter_cache, clear_static_mrouter_cache, flush_cache, update_cache,
}
use opx_nas_linux.SnoopCache.Info.{McastRouterInfo}
use opx_nas_linux.SnoopCache.Indexed.{IsIndexed, update_cache-IsIndexed}
use opx_nas_linux.SnoopCache.Indexed.Flush.{
  IsUntagged, flush_cache-IsIndexed, flush_cache-IsUntagged,
}

-- The calls of the methods that hold the lock, of the handlers and of the polling thread.
pub data Action : Type 0 where
  update_static clear_static : McastRouterInfo → Action
  flush : Option String → Action
  poll : Option Routes → Action

-- what `__init__` makes
abbrev pub empty_cache : Cache
empty_cache = record {
  mrouter_set = [];
  static_mrouter_set = [];
  br_mrouter_map = [];
  group_set = [];
  br_group_map = [];
  feed = record { vlan_map = []; published = [] };
}

-- No interface that was read has two tags.
abbrev pub IsUntaggedAction : Action → Type 0
IsUntaggedAction (Action.poll (some routes)) = IsUntagged routes.mrouter
IsUntaggedAction (Action.poll none) = Unit
IsUntaggedAction (Action.update_static m) = Unit
IsUntaggedAction (Action.clear_static m) = Unit
IsUntaggedAction (Action.flush br_name) = Unit

module _ (vlan_info : String → Option ℕ) where
  unfoldable pub perform : Action → Cache → Cache
  unfolding update_static_mrouter_cache clear_static_mrouter_cache flush_cache update_cache
  perform (Action.update_static m) s = update_static_mrouter_cache m s
  perform (Action.clear_static m) s = clear_static_mrouter_cache m s
  perform (Action.flush br_name) s = flush_cache br_name s
  perform (Action.poll mc_snoop_info) s = update_cache vlan_info mc_snoop_info s

  unfoldable pub run_actions : List Action → Cache → Cache
  unfolding perform
  run_actions [] s = s
  run_actions (action ∷ actions) s = run_actions actions (perform action s)

  perform-IsIndexed :
      (action : Action) (s : Cache)
      → IsUntaggedAction action
      → IsIndexed s
      → IsUntagged s.mrouter_set
      → IsIndexed (perform action s) × IsUntagged (perform action s).mrouter_set
  unfolding perform IsIndexed IsUntagged
  perform-IsIndexed (Action.update_static m) s h indexed untagged = (indexed, untagged)
  perform-IsIndexed (Action.clear_static m) s h indexed untagged = (indexed, untagged)
  perform-IsIndexed (Action.flush br_name) s h indexed untagged = (
    flush_cache-IsIndexed br_name s indexed untagged,
    flush_cache-IsUntagged br_name s indexed untagged,
  )
  perform-IsIndexed (Action.poll none) s h indexed untagged = (indexed, untagged)
  perform-IsIndexed (Action.poll (some routes)) s h indexed untagged =
      (update_cache-IsIndexed vlan_info (some routes) s indexed, h)

  -- After any calls, with any routes read from the kernel whose interfaces have at most one tag, the
  -- maps from bridges are the indexes of the sets.
  pub run_actions-IsIndexed :
      (actions : List Action)
      → All IsUntaggedAction actions
      → IsIndexed (run_actions actions empty_cache)
  unfolding run_actions IsIndexed IsUntagged
  run_actions-IsIndexed actions h =
      (go actions empty_cache h ((λ br if_name. refl), (λ br k. ground arith))
        (λ br if_name at. ground arith)).0
    where
      go :
          (actions : List Action) (s : Cache)
          → All IsUntaggedAction actions
          → IsIndexed s
          → IsUntagged s.mrouter_set
          → IsIndexed (run_actions actions s) × IsUntagged (run_actions actions s).mrouter_set
      go [] s h indexed untagged = (indexed, untagged)
      go (action ∷ actions) s (h0, h) indexed untagged =
          let kept = perform-IsIndexed action s h0 indexed untagged in
          go actions (perform action s) h kept.0 kept.1
