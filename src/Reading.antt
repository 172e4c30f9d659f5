-- ===== src/Reading.antt =====
-- The reading of rules in scripts/lib/python/dn_base_vrf_svcs_config.py: `match`, `to_cps_obj` and
-- `get_all_rules` of both caches, and the functions process_vrf_svcs_rule_get and
-- process_vrf_outgoing_svcs_rule_get.
pub mod Listing
pub mod Valid
use Prim.Native.String as Text
use opx_nas_linux.Prelude.{
  ℕ, String, Bool, true, false, Option, none, some, List, [], ◌∷◌, ◌++◌, HasEq, ◌==◌, ◌&&◌, ◌||◌,
  not, if◌then◌else◌, lookup, map, eq_nat, eq_string, eq_option,
}
use opx_nas_linux.RuleList.{RuleList}
use opx_nas_linux.Rule.{
  Af, RuleType, Action, Proto, Ip, Rule, eq_af, eq_rule_type, eq_action, eq_proto, eq_ip,
}
use opx_nas_linux.Rule.Incoming.{is_some}
use opx_nas_linux.Iptables.{System, proc_get}
use opx_nas_linux.RuleTables.{Tables, Slot, VrfRules, vrf_rules, with_vrf_rules, acquire, release}
use opx_nas_linux.RuleCache.{search_order}
use opx_nas_linux.Incoming.{find_rule_by_id}
use opx_nas_linux.Outgoing
use opx_nas_linux.RuleCache.Clear.{skips}
use opx_nas_linux.Callbacks.Addresses.{hexlify}

-- `**params` of `match`, as the callbacks give them: the attributes that a request has.
pub record Filter : Type 0 where
  pub af : Option Af
  pub src_ip : Option Ip
  pub src_prefix_len : Option ℕ
  pub dst_ip : Option Ip
  pub dst_prefix_len : Option ℕ
  pub protocol : Option Proto
  pub dst_port : Option ℕ
  pub low_dst_port : Option ℕ
  pub high_dst_port : Option ℕ
  pub action : Option Action
  pub seq_num : Option ℕ
  pub in_intf : Option String
  pub out_src_ip : Option Ip
  pub private_ip : Option Ip
  pub private_port : Option ℕ

-- `val is not None and val != attrs[key]` ends the loop with False.
abbrev pub agrees : {A : Type 0} ⦃e : HasEq A⦄ → Option A → Option A → Bool
agrees none attr = true
agrees (some val) attr = some val == attr

-- `match` of both classes
unfoldable pub match_rule : Filter → Rule → Bool
match_rule f rule =
    agrees f.af (some rule.af)
    && agrees f.src_ip rule.src_ip
    && agrees f.src_prefix_len rule.src_prefix_len
    && agrees f.dst_ip rule.dst_ip
    && agrees f.dst_prefix_len rule.dst_prefix_len
    && agrees f.protocol rule.protocol
    && agrees f.dst_port rule.dst_port
    && agrees f.low_dst_port rule.low_dst_port
    && agrees f.high_dst_port rule.high_dst_port
    && agrees f.action (some rule.action)
    && agrees f.seq_num (some rule.seq_num)
    && agrees f.in_intf rule.in_intf
    && agrees f.out_src_ip rule.out_src_ip
    && agrees f.private_ip rule.private_ip
    && agrees f.private_port rule.private_port

-- The object of CPS that stands for a rule.
pub record CpsRule : Type 0 where
  pub vrf_name : String
  pub af : Af
  pub src_ip : Option Ip
  pub src_prefix_len : Option ℕ
  pub dst_ip : Option Ip
  pub dst_prefix_len : Option ℕ
  pub protocol : Option Proto
  pub dst_port : Option ℕ
  pub low_dst_port : Option ℕ
  pub high_dst_port : Option ℕ
  pub action : Option Action
  pub seq_num : Option ℕ
  pub in_intf : Option String
  pub out_src_ip : Option Ip
  pub private_ip : Option Ip
  pub private_port : Option ℕ
  pub rule_id : Option ℕ
  pub packet_count : Option String
  pub byte_count : Option String

abbrev pub hex_of : Option Ip → Option Ip
hex_of none = none
hex_of (some ip) = some (hexlify ip)

-- DNAT is shown as ALLOW, and REJECT as DENY.
unfoldable pub shown_action : Action → Action
shown_action Action.dnat = Action.allow
shown_action Action.reject = Action.deny
shown_action action = action

abbrev pub shown_intf : Option String → Bool → Option String
shown_intf none negative = none
shown_intf (some name) negative = some (if negative then Text.◌∷◌ "!" name else name)

-- `VrfIncomingSvcsRule.to_cps_obj`
unfoldable pub to_cps_obj : Rule → CpsRule
unfolding shown_action hexlify
to_cps_obj rule = record {
  vrf_name = rule.vrf_name;
  af = rule.af;
  src_ip = hex_of rule.src_ip;
  src_prefix_len = rule.src_prefix_len;
  dst_ip = if rule.rule_type == RuleType.ip then none else hex_of rule.dst_ip;
  dst_prefix_len = if rule.rule_type == RuleType.ip then none else rule.dst_prefix_len;
  protocol = rule.protocol;
  dst_port = rule.dst_port;
  low_dst_port = rule.low_dst_port;
  high_dst_port = rule.high_dst_port;
  action = some (shown_action rule.action);
  seq_num = some rule.seq_num;
  in_intf = shown_intf rule.in_intf rule.negative;
  out_src_ip = none;
  private_ip = none;
  private_port = none;
  rule_id = rule.rule_id;
  packet_count = rule.packet_count;
  byte_count = rule.byte_count;
}

-- `VrfOutgoingSvcsRule.to_cps_obj`
unfoldable pub outgoing_to_cps_obj : Rule → CpsRule
unfolding hexlify
outgoing_to_cps_obj rule = record {
  vrf_name = rule.vrf_name;
  af = rule.af;
  src_ip = none;
  src_prefix_len = none;
  dst_ip = hex_of rule.dst_ip;
  dst_prefix_len = none;
  protocol = rule.protocol;
  dst_port = rule.dst_port;
  low_dst_port = none;
  high_dst_port = none;
  action = none;
  seq_num = none;
  in_intf = none;
  out_src_ip = hex_of rule.out_src_ip;
  private_ip = hex_of rule.private_ip;
  private_port = rule.private_port;
  rule_id = rule.rule_id;
  packet_count = none;
  byte_count = none;
}

module _ {K : Type 0} (read : RuleList Rule → Rule → K → Rule) where
  -- the loop over a list in `get_all_rules`: the rules that the list has then, and the copies
  unfoldable pub read_rules : Filter → RuleList Rule → List Rule → K → List Rule × List Rule
  unfolding match_rule
  read_rules f l [] k = ([], [])
  read_rules f l (rule ∷ rules) k =
      let (after, copies) = read_rules f l rules k in
      if match_rule f rule
      then (read l rule k ∷ after, read l rule k ∷ copies)
      else (rule ∷ after, copies)

  -- the loop over `table[af].items()`
  unfoldable pub read_lists : Filter → Option String → VrfRules → K → VrfRules × List Rule
  unfolding read_rules
  read_lists f vrf_name [] k = ([], [])
  read_lists f vrf_name ((vrf, l) ∷ rest) k =
      let (after, copies) = read_lists f vrf_name rest k in
      let (rules', found) = read_rules f l l.rules k in
      if skips vrf_name vrf
      then ((vrf, l) ∷ after, copies)
      else ((vrf, record l { rules = rules' }) ∷ after, found ++ copies)

module _ {sys : System} (read : RuleList Rule → Rule → sys.Kernel → Rule) where
  -- the loop over the families and the two tables, whose rule types are `type_of`
  unfoldable pub read_slots :
      (Bool → RuleType)
      → Filter
      → Option RuleType
      → Option String
      → List Slot
      → Tables sys
      → List Rule × Tables sys
  unfolding read_lists
  read_slots type_of f rule_type vrf_name [] s = ([], s)
  read_slots type_of f rule_type vrf_name (p ∷ ps) s =
      let (d, found) = read_lists read f vrf_name (vrf_rules p s) s.kernel in
      let (copies, s') = read_slots type_of f rule_type vrf_name ps (with_vrf_rules p d s) in
      let others = read_slots type_of f rule_type vrf_name ps s in
      if skips rule_type (type_of p.is_ip) then others else (found ++ copies, s')

-- A rule with an ID is asked for its statistics, at the position that the map has for it.
unfoldable pub read_stats : (sys : System) → RuleList Rule → Rule → sys.Kernel → Rule
read_stats sys l rule k =
    if not (is_some rule.rule_id) then rule else elim (lookup rule.rule_id l.rule_id_map) [
      | none ↦ rule
      | some idx ↦ (proc_get sys rule idx k).1
    ]

abbrev pub incoming_types : Bool → RuleType
incoming_types is_ip = if is_ip then RuleType.ip else RuleType.acl

abbrev pub outgoing_types : Bool → RuleType
outgoing_types is_ip = if is_ip then RuleType.out_ip else RuleType.snat

module _ {sys : System} where
  -- `get_all_rules` of `VrfIncomingSvcsRuleCache`
  unfoldable pub get_all_rules :
      Option RuleType → Option String → Filter → Tables sys → List Rule × Tables sys
  unfolding read_slots read_stats
  get_all_rules rule_type vrf_name f s =
      let (copies, s') =
        read_slots (read_stats sys) incoming_types f rule_type vrf_name search_order (acquire s) in
      (copies, release s')

  -- `get_all_rules` of `VrfOutgoingSvcsRuleCache`, which reads no statistics
  unfoldable pub outgoing_get_all_rules :
      Option RuleType → Option String → Filter → Tables sys → List Rule × Tables sys
  unfolding read_slots
  outgoing_get_all_rules rule_type vrf_name f s =
      let (copies, s') =
        read_slots (λ l rule k. rule) outgoing_types f rule_type vrf_name search_order
          (acquire s) in
      (copies, release s')

  -- `process_vrf_svcs_rule_get`, which answers True: the objects that it adds to `resp`. With an ID,
  -- the other conditions do not count.
  unfoldable pub process_vrf_svcs_rule_get :
      Option ℕ → Option RuleType → Option String → Filter → Tables sys → List CpsRule × Tables sys
  unfolding get_all_rules find_rule_by_id to_cps_obj
  process_vrf_svcs_rule_get (some rule_id) rule_type vrf_name f s =
      let (found, s') = find_rule_by_id rule_id s in
      (elim found [ none ↦ [] | some (rule, idx) ↦ to_cps_obj rule ∷ [] ], s')
  process_vrf_svcs_rule_get none rule_type vrf_name f s =
      let (rules, s') = get_all_rules rule_type vrf_name f s in (map to_cps_obj rules, s')

  unfoldable pub process_vrf_outgoing_svcs_rule_get :
      Option ℕ → Option RuleType → Option String → Filter → Tables sys → List CpsRule × Tables sys
  unfolding outgoing_get_all_rules outgoing_to_cps_obj
  process_vrf_outgoing_svcs_rule_get (some rule_id) rule_type vrf_name f s = (
    elim (Outgoing.find_rule_by_id rule_id (acquire s)) [
      | none ↦ []
      | some (rule, idx) ↦ outgoing_to_cps_obj rule ∷ []
    ],
    release (acquire s),
  )
  process_vrf_outgoing_svcs_rule_get none rule_type vrf_name f s =
      let (rules, s') = outgoing_get_all_rules rule_type vrf_name f s in
      (map outgoing_to_cps_obj rules, s')
