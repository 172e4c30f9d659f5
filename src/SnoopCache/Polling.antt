-- ===== src/SnoopCache/Polling.antt =====
-- The thread of McastSnoopCacheMgr, `run`: it polls the kernel's multicast routes, and serves the queue
-- of the sizes of hash tables that are still to be set.
pub mod Laws
use Prim.Native.String as Text
use opx_nas_linux.Prelude.{
  ℕ, suc, ◌+◌, ◌-◌, ◌*◌, String, Bool, true, false, Option, List, [], ◌∷◌, ◌++◌, ◌||◌, ltb, leb,
  if◌then◌else◌,
}
use opx_nas_linux.Snoop.{Shell}
use opx_nas_linux.SnoopCache.{Cache, Routes, update_cache, apply_static_mrouter_configs}
use opx_nas_linux.SnoopCache.Info.{McastRouterInfo}

-- MAX_HASHMAX_CFG_TRY_COUNT
abbrev pub max_try_count : ℕ
max_try_count = 50

-- MCAST_SNOOP_POLLING_INTERVAL, in microseconds
abbrev pub polling_interval : ℕ
polling_interval = 5 * 1000000

-- an entry of `hashmax_cfg_q`
pub record Task : Type 0 where
  pub br_name : String
  pub max_grps : ℕ
  pub try_count : ℕ

-- The cache, and what `run` keeps.
pub record Loop : Type 0 where
  pub cache : Cache
  pub hashmax_cfg_q : List Task
  pub polling_timeout : ℕ
  pub do_polling : Bool

-- what the two calls of `time.time` return around `get`
pub record Clock : Type 0 where
  pub start_time : ℕ
  pub end_time : ℕ

-- The queue has no bound, so it is never full.
unfoldable pub hashmax_cfg_to_queue : (br_name : String) → (max_grps try_count : ℕ) → Loop → Loop
hashmax_cfg_to_queue br_name max_grps try_count s =
    let task : Task = record { br_name = br_name; max_grps = max_grps; try_count = try_count } in
    record s { hashmax_cfg_q = s.hashmax_cfg_q ++ (task ∷ []) }

-- `_get_path_per_vlan_configs`
unfoldable pub get_path_per_vlan_configs : (vlan_name file_name : String) → String
get_path_per_vlan_configs vlan_name file_name =
    Text.◌++◌ "/sys/devices/virtual/net/" (Text.◌++◌ vlan_name (Text.◌++◌ "/bridge/" file_name))

-- `polling_timeout - (end_time - start_time)`: more than the timeout where the clock was set back, and 0
-- for every result that is not positive.
abbrev pub time_left : Clock → ℕ → ℕ
time_left c polling_timeout = (polling_timeout + c.start_time) - c.end_time

unfoldable pub wait : Clock → Loop → Loop
wait c s =
    let left = time_left c s.polling_timeout in
    if ltb c.end_time c.start_time || leb left 0
    then record s { polling_timeout = polling_interval; do_polling = true }
    else record s { polling_timeout = left }

module _ (sh : Shell) where
  open sh use {State, update_file_system}

  -- A task that fails goes back to the queue, until it has been tried often enough.
  unfoldable pub serve : Task → Loop → State → Loop × State
  unfolding hashmax_cfg_to_queue get_path_per_vlan_configs
  serve task s st =
      let path = get_path_per_vlan_configs task.br_name "hash_max" in
      let (done, st1) = update_file_system path task.max_grps st in
      if done
      then (s, st1)
      else if leb max_try_count (suc task.try_count)
      then (s, st1)
      else (hashmax_cfg_to_queue task.br_name task.max_grps (suc task.try_count) s, st1)

  -- the body of the loop after the polling
  unfoldable pub take_task : Clock → List Task → Loop → State → Loop × State
  unfolding wait serve
  take_task c [] s st = (record s { polling_timeout = polling_interval; do_polling = true }, st)
  take_task c (task ∷ q) s st = serve task (wait c (record s { hashmax_cfg_q = q })) st

module _ (sh : Shell) (vlan_info : String → Option ℕ)
    (get_igmp_snooping_route : sh.State → Option Routes × sh.State) where
  open sh use {State}

  -- the part under `do_polling`; the routes are read when the static mrouters have been written
  unfoldable pub poll : Loop → State → Loop × State
  unfolding update_cache apply_static_mrouter_configs
  poll s st =
      let (applied, st1) = apply_static_mrouter_configs sh s.cache st in
      let (mc_snoop_info, st2) = get_igmp_snooping_route st1 in
      let polled = update_cache vlan_info mc_snoop_info applied in
      if s.do_polling then (record s { cache = polled; do_polling = false }, st2) else (s, st)

  unfoldable pub pass : Clock → Loop → State → Loop × State
  unfolding poll take_task
  pass c s st = let (s1, st1) = poll s st in take_task sh c s1.hashmax_cfg_q s1 st1

  unfoldable pub run : List Clock → Loop → State → Loop × State
  unfolding pass
  run [] s st = (s, st)
  run (c ∷ clocks) s st = let (s1, st1) = pass c s st in run clocks s1 st1
