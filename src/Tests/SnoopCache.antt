-- ===== src/Tests/SnoopCache.antt =====
-- Examples of the cache of mrouters and groups, of the polling thread and of the configuration handlers.
use mathlib.Core.Path.{subst}
use opx_nas_linux.Prelude.{
  ℕ, String, Bool, true, false, Option, none, some, List, [], ◌∷◌, ◌≡◌, ◌↔◌, refl, arith, ◌==◌,
  ◌&&◌, not, eq_string, eq_option, if◌then◌else◌, length, nat_eq, suc,
}
use opx_nas_linux.Snoop.{Shell}
use opx_nas_linux.Snoop.Routes.{VlanInfo}
use opx_nas_linux.SnoopCache.{
  Cache, Routes, flush_cache, update_cache, apply_static_mrouter_configs,
}
use opx_nas_linux.SnoopCache.Names.{isdigit, remove_ifname_tag, get_if_name}
use opx_nas_linux.SnoopCache.Names.Laws.{remove_ifname_tag-get_if_name}
use opx_nas_linux.SnoopCache.Sets.{member, eq_pair}
use opx_nas_linux.SnoopCache.Info.{McastRouterInfo, router_key, group_key}
use opx_nas_linux.SnoopCache.Index.{in_index}
use opx_nas_linux.SnoopCache.Indexed.{IsIndexed}
use opx_nas_linux.SnoopCache.Indexed.Flush.{IsUntagged, flush_cache-member}
use opx_nas_linux.SnoopCache.Reachable.{Action, empty_cache, run_actions, run_actions-IsIndexed}
use opx_nas_linux.SnoopCache.Listener.{IsUpToDate, update_cache-IsUpToDate}
use opx_nas_linux.SnoopCache.Static.{IsRouterInfo, apply_static_mrouter_configs-member}
use opx_nas_linux.SnoopCache.Polling.{Loop, Task, Clock, run}
use opx_nas_linux.SnoopCache.Polling.Laws.{
  HasTimeout, tries_left, run-hashmax_cfg_q, run-HasTimeout,
}
use opx_nas_linux.SnoopCache.Mdb.{Line, Texts, IpType, Attrs, cache_lines, list_lines}
use opx_nas_linux.SnoopCache.Mdb.Laws.{has_bad, cache_lines-has_bad}
use opx_nas_linux.SnoopCache.Mdb.Routers.{lists_router, list_lines-cache_lines}
use opx_nas_linux.SnoopConfig.{handle_configs_fs}
use opx_nas_linux.SnoopConfig.Params.{
  Operation, Param, Data, Service, paths_of, handle_mcast_snoop_configs_fs,
}
use opx_nas_linux.SnoopConfig.Params.Laws.{IsSound, has_param, handle_mcast_snoop_configs_fs_delete}
use opx_nas_linux.SnoopConfig.Laws.{handle_configs_fs-IsSound}

-- The tagged port e1 of VLAN 10.
abbrev vlan10 : VlanInfo
vlan10 = record { untagged_ports = some ("e2" ∷ []); tagged_ports = some ("e1" ∷ []) }

remove_ifname_tag-get_if_name_example : remove_ifname_tag "e1.10" ≡ "e1"
unfolding remove_ifname_tag isdigit get_if_name
remove_ifname_tag-get_if_name_example =
    remove_ifname_tag-get_if_name vlan10 "e1" "10" "e1.10" refl refl refl

-- e1 is behind the bridge of VLAN 10.
abbrev vlan_ids : String → Option ℕ
vlan_ids br_name = if br_name == "br10" then some 10 else none

abbrev e1 : McastRouterInfo
e1 = record { br_name = "br10"; raw_if_name = "e1.10"; if_name = "e1"; expire = some "9.5" }

abbrev e1_routes : Routes
e1_routes = record { mrouter = e1 ∷ []; group = [] }

e1_untagged : remove_ifname_tag "e1" ≡ "e1"
unfolding remove_ifname_tag
e1_untagged = refl

e1-IsUntagged : IsUntagged (e1 ∷ [])
unfolding IsUntagged member
e1-IsUntagged br_name if_name at =
    subst (λ n. remove_ifname_tag n ≡ n) ((eq_string.same_iff "e1" if_name).0 (ground arith))
      e1_untagged

abbrev polls : List Action
polls =
    Action.poll (some e1_routes) ∷ Action.flush (some "br10") ∷ Action.poll (some e1_routes) ∷ []

run_actions-IsIndexed_example : IsIndexed (run_actions vlan_ids polls empty_cache)
run_actions-IsIndexed_example =
    run_actions-IsIndexed vlan_ids polls (e1-IsUntagged, (tt, (e1-IsUntagged, tt)))

abbrev e1_poll : List Action
e1_poll = Action.poll (some e1_routes) ∷ []

abbrev e1_cache : Cache
e1_cache = record {
  mrouter_set = e1 ∷ [];
  static_mrouter_set = [];
  br_mrouter_map = ("br10", "e1" ∷ []) ∷ [];
  group_set = [];
  br_group_map = [];
  feed = record { vlan_map = []; published = [] };
}

e1_cache_is_reached :
    (run_actions vlan_ids e1_poll empty_cache).br_mrouter_map ≡ e1_cache.br_mrouter_map
unfolding run_actions
e1_cache_is_reached = refl

e1_cache-IsIndexed : IsIndexed e1_cache
unfolding IsIndexed in_index member
e1_cache-IsIndexed = (λ br_name if_name. ground arith, λ br_name k. ground arith)

flush_cache-member_example :
    ((br if_name : String)
      → member router_key (br, if_name) (flush_cache (some "br10") e1_cache).mrouter_set
        ≡ (member router_key (br, if_name) e1_cache.mrouter_set && not (br == "br10")))
    × ((k : String × (String × String))
        → member group_key k (flush_cache (some "br10") e1_cache).group_set
          ≡ (member group_key k e1_cache.group_set && not (k.0 == "br10")))
flush_cache-member_example = flush_cache-member "br10" e1_cache e1_cache-IsIndexed e1-IsUntagged

vlan_ids_distinct :
    (br1 br2 : String) (vlan_id : ℕ)
    → vlan_ids br1 ≡ some vlan_id
    → vlan_ids br2 ≡ some vlan_id
    → br1 ≡ br2
vlan_ids_distinct br1 br2 vlan_id h1 h2 =
    ground (arith, eq_string.same_iff br1 "br10", eq_string.same_iff br2 "br10", h1, h2)

empty_cache-IsUpToDate : IsUpToDate vlan_ids empty_cache
unfolding IsUpToDate
empty_cache-IsUpToDate vlan_id if_name = refl

update_cache-IsUpToDate_example :
    IsUpToDate vlan_ids (update_cache vlan_ids (some e1_routes) empty_cache)
update_cache-IsUpToDate_example =
    update_cache-IsUpToDate vlan_ids vlan_ids_distinct (some e1_routes) empty_cache
      empty_cache-IsUpToDate

-- A kernel whose file of the hash table's size cannot be written yet.
abbrev hash_max : String
hash_max = "/sys/devices/virtual/net/br10/bridge/hash_max"

abbrev can_write : String → Bool
can_write path = not (path == hash_max)

abbrev busy_shell : Shell
busy_shell = record {
  State = ℕ;
  run_command = λ command st. ((true, []), st);
  update_file_system = λ path value st. (can_write path, st);
}

abbrev no_routes : ℕ → Option Routes × ℕ
no_routes st = (none, st)

-- The last two tries of a task.
abbrev late_task : Task
late_task = record { br_name = "br10"; max_grps = 16384; try_count = 48 }

abbrev late_loop : Loop
late_loop = record {
  cache = e1_cache;
  hashmax_cfg_q = late_task ∷ [];
  polling_timeout = 1000000;
  do_polling = true;
}

-- The clock is set back in the second wait.
abbrev two_waits : List Clock
two_waits =
    record { start_time = 100; end_time = 700 } ∷ record { start_time = 700; end_time = 5 } ∷ []

run-hashmax_cfg_q_example :
    (run busy_shell vlan_ids no_routes two_waits late_loop 0).0.hashmax_cfg_q ≡ []
unfolding tries_left
run-hashmax_cfg_q_example =
    run-hashmax_cfg_q busy_shell vlan_ids no_routes two_waits late_loop 0 (omega arith, tt)
      (omega arith)

late_task_is_tried_again :
    length
      (run busy_shell vlan_ids no_routes
        (record { start_time = 100; end_time = 700 } ∷ [])
        late_loop
        0).0.hashmax_cfg_q
    ≡ 1
unfolding run
late_task_is_tried_again = refl

run-HasTimeout_example : HasTimeout (run busy_shell vlan_ids no_routes two_waits late_loop 0).0
unfolding HasTimeout
run-HasTimeout_example =
    run-HasTimeout busy_shell vlan_ids no_routes two_waits late_loop 0 (omega arith, omega arith)

-- A bridge with one port that was learnt and one group.
abbrev texts : Texts
texts = record {
  is_ipv4_addr = λ ip. ip == "224.1.1.1";
  is_ipv6_addr = λ ip. false;
  str_to_ba = λ is_igmp ip. ip;
  is_float = λ text. text == "9.5";
  seconds = λ text. if text == "9.5" then some 9 else none;
}

abbrev mdb : List Line
mdb =
    Line.dev (
      some (record {
        dev_name = "br10";
        if_name = "e2";
        grp_ip = "224.1.1.1";
        rt_type = "permanent";
        exp_time = none;
      }))
    ∷ Line.router (some ("br10", "e1.10" ∷ "9.5" ∷ "temp" ∷ []))
    ∷ []

abbrev mdb_attrs : Attrs
mdb_attrs = record {
  static_groups = record { group = "224.1.1.1"; interface = "e2" } ∷ [];
  groups = [];
  static_mrouters = none;
  mrouters = some ("e1.10" ∷ []);
}

abbrev mdb_routes : Routes
mdb_routes = record {
  mrouter = e1 ∷ [];
  group =
      record {
        br_name = "br10";
        grp_ip_str = "224.1.1.1";
        grp_ip = "224.1.1.1";
        if_name = "e2";
        is_igmp = true;
        expire = none;
      }
      ∷ [];
}

list_lines-cache_lines_example :
    lists_router texts IpType.all none "br10" "e1" (("br10", mdb_attrs) ∷ [])
    ≡ member router_key ("br10", "e1") mdb_routes.mrouter
unfolding cache_lines list_lines remove_ifname_tag
list_lines-cache_lines_example =
    list_lines-cache_lines texts IpType.all none mdb mdb_routes (("br10", mdb_attrs) ∷ []) refl refl
      "br10" "e1"

cache_lines-has_bad_example :
    (cache_lines texts IpType.all none (Line.unknown ∷ mdb) e1_routes ≡ none)
    ↔ (has_bad (Line.unknown ∷ mdb) ≡ true)
cache_lines-has_bad_example =
    cache_lines-has_bad texts IpType.all none (Line.unknown ∷ mdb) e1_routes

-- Two static mrouters; the kernel is not ready for the second write, and is for the third.
abbrev port_shell : Shell
port_shell = record {
  State = ℕ;
  run_command = λ command st. ((true, []), st);
  update_file_system = λ path value st. (not (nat_eq st 1), suc st);
}

abbrev e2 : McastRouterInfo
e2 = record { br_name = "br10"; raw_if_name = "e2"; if_name = "e2"; expire = none }

abbrev static_cache : Cache
static_cache = record e1_cache { static_mrouter_set = e1 ∷ e2 ∷ [] }

e1-IsRouterInfo : IsRouterInfo e1
unfolding remove_ifname_tag
e1-IsRouterInfo = record { untagged = refl; bridge = refl; interface = refl }

e2-IsRouterInfo : IsRouterInfo e2
unfolding remove_ifname_tag
e2-IsRouterInfo = record { untagged = refl; bridge = refl; interface = refl }

apply_static_mrouter_configs-member_example :
    member router_key
      ("br10", "e2")
      (apply_static_mrouter_configs port_shell static_cache 0).0.static_mrouter_set
    ≡ true
unfolding member
apply_static_mrouter_configs-member_example =
    apply_static_mrouter_configs-member port_shell static_cache 0
      (e1-IsRouterInfo, (e2-IsRouterInfo, tt)) "br10" "e2"

only_e2_is_left :
    (apply_static_mrouter_configs port_shell static_cache 0).0.static_mrouter_set ≡ e2 ∷ []
unfolding apply_static_mrouter_configs remove_ifname_tag
only_e2_is_left = refl

none_is_left :
    (let first = apply_static_mrouter_configs port_shell static_cache 0 in
      (apply_static_mrouter_configs port_shell first.0 first.1).0.static_mrouter_set)
    ≡ []
unfolding apply_static_mrouter_configs remove_ifname_tag
none_is_left = refl

-- Snooping is switched off in VLAN 10, and e1 becomes a static mrouter.
abbrev off : Data
off = record {
  global_enable = λ is_igmp. none;
  vlan_id = λ is_igmp. if is_igmp then some "10" else none;
  params = λ k is_igmp. elim k [
    | Param.mcast_snooping ↦ if is_igmp then some 0 else none
    | Param.mcast_last_member_interval ↦ none
    | Param.mcast_query_interval ↦ none
    | Param.mcast_query_response_interval ↦ none
  ];
  querier = λ is_igmp. false;
  static_groups = λ is_igmp. none;
  static_mrouters = λ is_igmp. if is_igmp then some ("e1" ∷ []) else none;
}

abbrev keys : List Param
keys = Param.mcast_query_interval ∷ Param.mcast_snooping ∷ []

abbrev some_service : Service
some_service = record { polling_thread = late_loop; told = [] }

abbrev vlans : String → Option (VlanInfo × String)
vlans vlan_id = if vlan_id == "10" then some (vlan10, "br10") else none

some_service-IsSound : IsSound some_service.polling_thread
unfolding IsSound HasTimeout
some_service-IsSound =
    ((e1_cache-IsIndexed, e1-IsUntagged), ((omega arith, tt), (omega arith, omega arith)))

abbrev no_file : String → ℕ → Option ℕ
no_file path st = none

handle_configs_fs-IsSound_example :
    IsSound
      (handle_configs_fs busy_shell no_file keys
        (λ is_igmp address. address)
        vlans
        off
        Operation.set
        some_service
        0).0.1.polling_thread
handle_configs_fs-IsSound_example =
    handle_configs_fs-IsSound busy_shell no_file keys (λ is_igmp address. address) vlans off
      Operation.set some_service 0 some_service-IsSound

br10_is_forgotten :
    (handle_configs_fs busy_shell no_file keys
      (λ is_igmp address. address)
      vlans
      off
      Operation.set
      some_service
      0).0.1.polling_thread.cache.mrouter_set
    ≡ []
unfolding handle_configs_fs remove_ifname_tag
br10_is_forgotten = refl

handle_mcast_snoop_configs_fs_delete_example :
    handle_mcast_snoop_configs_fs busy_shell no_file keys off Operation.delete "10" "br10"
      some_service 0
    ≡ ((not (has_param off (paths_of keys)), some_service), 0)
handle_mcast_snoop_configs_fs_delete_example =
    handle_mcast_snoop_configs_fs_delete busy_shell no_file keys off "10" "br10" some_service 0
