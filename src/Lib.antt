-- ===== src/Lib.antt =====
-- Verification of the service rules and the snooping rules of opx-nas-linux, the Linux integration
-- of the OPX network abstraction service.
--
-- The subsystem of service rules (scripts/lib/python/dn_base_vrf_svcs_config.py, with the ID
-- allocator of scripts/lib/python/dn_base_id_tool.py and the callbacks of scripts/bin/base_vrf.py)
-- keeps the access rules of each VRF in ordered lists and programs them into iptables. A list and
-- the chain that it stands for must agree position by position, since rules are deleted and
-- replaced in the kernel by number.
--
-- Parts, and the files that model them:
--   IdGenerator   class IdGenerator: `init` is __init__, then get_new_id, release_id, reserve_id,
--                 is_id_used under their names. IdGenerator/Search has the loops, Invariant the
--                 invariant, Methods the methods, Calls sequences of calls.
--   Rule          the enumerations and the attributes of VrfIncomingSvcsRule and
--                 VrfOutgoingSvcsRule, as one record; Rule/Incoming and Rule/Outgoing the two
--                 constructors, the names, the equality and the hash; Rule/Laws their properties.
--   RuleList      VrfIncomingSvcsRuleList over any class of rules: `insert`, `remove_rule` (remove),
--                 `remove_by_id`, `update_rule_id_map`. Bisect has the search by halves, Positions
--                 the map from IDs to positions, Invariant, Methods and Removal the properties.
--   Iptables      IptablesHandler: Iptables/Args the words that describe a rule, Iptables the
--                 commands and proc_rule, Iptables/Laws what the manual of iptables says of them.
--   RuleTables    the class attributes of a cache: two tables, the lock, the ID generator; and,
--                 beside them, the map of private ports and the kernel.
--   RuleCache     what both caches do: the choice of an ID, the lists that are made and dropped, the
--                 search by ID. RuleCache/Clear has the loops of clear_all_rules; Valid, Finding,
--                 Locks, Ids and Clearing the properties.
--   Incoming      VrfIncomingSvcsRuleCache: insert_rule, delete_rule, find_rule_by_id,
--                 find_rule_by_match, delete_rule_by_id, replace_rule. Incoming/Update has
--                 update_rule, clear_all_rules and the process_vrf_svcs_* functions that add,
--                 set and delete a rule; the other modules have the properties.
--   Outgoing      VrfOutgoingSvcsRuleCache under the same names, with the private port of a binding
--                 (sub_net_insert and sub_net_delete are outgoing_ip_svcs_rule_sub_net_config), the
--                 `remove` of its lists, and the process_vrf_outgoing_svcs_* functions that add and
--                 delete a rule. Outgoing/Lists, Failures and Bindings have the properties.
--   PrivatePorts  process_outgoing_ip_svcs_sub_net_config of scripts/lib/python/dn_base_vrf_tool.py:
--                 add_port and pop_port are its two branches.
--   VrfTool       the rest of dn_base_vrf_tool.py that is modelled: Veth has process_veth_config and the
--                 other commands without state, Nat the rules of iptables, Subnets
--                 ip_svcs_subnet_setup, _veth_ip_get (veth_ip_get) and the lookups of a pair;
--                 Subnets/Laws, Setup and BothEnds have the properties. Namespaces is process_vrf_config,
--                 whose calls of os and shutil are functions of the `Host`, too; Interfaces is
--                 process_vrf_intf_config, Shown what it reads from the output of `ip link show`;
--                 Sources is process_src_ip_config and process_leaked_rt_config.
--   Reading       match, to_cps_obj and get_all_rules of both classes, and the process_*_rule_get
--                 functions. Reading/Listing says what get_all_rules returns, Valid what it keeps.
--   Callbacks     normalize_ip_with_prefix of scripts/bin/base_vrf.py. Callbacks/Incoming and
--                 Callbacks/Outgoing are config_incoming_ip_svcs_int and config_outgoing_ip_svcs_int:
--                 `checked` has the checks of the request, `dispatch` the calls of the caches.
--                 Callbacks/Reading is get_incoming_ip_svcs_int and get_outgoing_ip_svcs_int.
--   Snoop         the rules of ebtables and iptables in scripts/lib/python/dn_base_mcast_snoop.py, with
--                 _handle_rules of dn_base_mcast_snoop_utils.py. Snoop/Laws says what ebtables does.
--                 Snoop/Routes is _parse_snoop_routes and _parse_snoop_mrouter_ports.
--   SnoopCache    McastSnoopCacheMgr of dn_base_mcast_snoop_utils.py: the methods under their names,
--                 `update_cache_set` as update_mrouter_set and update_group_set. Names has
--                 remove_ifname_tag and _get_if_name, Sets Python's sets, Info the two classes of
--                 elements, Publish the events, Index the maps from bridges, Mdb
--                 get_igmp_snooping_route, Polling the loop of the thread; Indexed, Reachable,
--                 Listener and Static have the properties.
--   SnoopConfig   handle_configs_fs of the same file, which shares the cache and the queue with the
--                 thread; Params has _handle_mcast_snoop_configs_fs.
--   Tests         a concrete kernel and concrete runs.
--
-- State is passed explicitly: a method takes the state and returns its result with the new state.
-- An object that a method changes (the rule that is given its ID) is returned with the result.
-- None and exceptions of constructors are `none`. The members of the enumerations are data types,
-- so numbers outside of them, which raise ValueError in the source, do not occur. `update_rule`
-- takes the attributes that base_vrf.py gives to it. IDs, priorities and sequence numbers are
-- natural numbers. The lock is a counter of how often it is held; one thread runs at a time.
--
-- iptables is a parameter (`System`): a function from a command and a kernel to the success of the
-- command and the new kernel. `ChainLaws` states what the manual says of -I, -D and -R by number, of
-- failures and of other chains. `ip netns show`, the regular expressions on command output, netaddr
-- and inet_ntop, and the VRF tables of dn_base_vrf_tool.py are functions of the same parameter.
--
-- Fuel: the search of `get_next_avail_id` may take as many rounds as a number above every reserved
-- ID; the IDs it passes are all reserved, so it ends before. The search by halves takes as many
-- rounds as the list is long, and the loop over the private ports as many as the range has ports.
-- The theorems below hold of the results, so they show that the fuel is enough.
--
-- `Shell` is the same for the commands of Snoop, with `EbtablesLaws` for -L and -I of ebtables on the
-- rules that it prints as they are given, whatever else it prints. The
-- texts of rules are those that `split` leaves, joined by one space; names of VLANs have no spaces.
--
-- A set of Python is the list of its elements in some order, which the theorems do not depend on;
-- two elements are equal when their keys are. What regular expressions find in the output of `bridge`
-- is a parameter, so is the VLAN that CPS has for a bridge; the one on the text of a static mrouter is
-- written out in Search. A call
-- that holds the lock of the cache is one step. `run` takes the times of the clock, in microseconds,
-- as an argument. Its queue has no bound; a list of clock readings says how often the loop is passed.
--
-- The veth addresses of a VRF are parameters of the rule caches, which no rule changes. In VrfTool the
-- commands go to a `Host`, which also prints numbers, adds addresses and lists those of a VRF (functions
-- of dn_base_ip_tool.py); keys '*a*b*' are pairs of names, and names have no asterisk.
-- A callback holds its lock around one request and answers False where an
-- exception ends it, so a request is a function from a state to an answer and a state.
--
-- Not modelled: log output, __str__, the reading of rules back from iptables, dump_rules and
-- check_ipt_rules of the caches, update_rule of the outgoing cache (the callback refuses the
-- operation 'set' before it would call it), the callbacks of scripts/bin/base_vrf.py for VRFs,
-- interfaces and leaked routes, handle_configs of multicast snooping (which nothing reaches) and the
-- answer to requests for the snooping state, the rest of dn_base_vrf_tool.py,
-- which runs commands of ip and iptables, the other services of scripts/bin, and the C and C++
-- library under src.
pub mod Prelude
pub mod IdGenerator
pub mod RuleList
pub mod Rule
pub mod Iptables
pub mod RuleTables
pub mod RuleCache
pub mod Incoming
pub mod Outgoing
pub mod PrivatePorts
pub mod Callbacks
pub mod Tests
pub mod Reading
pub mod Snoop
pub mod SnoopCache
pub mod SnoopConfig
pub mod VrfTool
