-- ===== src/Rule/Outgoing.antt =====
-- `VrfOutgoingSvcsRule` of scripts/lib/python/dn_base_vrf_svcs_config.py.
use opx_nas_linux.Prelude.{
  String, Bool, true, false, Option, none, some, ◌==◌, ◌&&◌, not, if◌then◌else◌, eq_nat, eq_string,
  eq_option,
}
use opx_nas_linux.Rule.{
  RuleType, Action, Proto, RuleKind, Rule, eq_af, eq_rule_type, eq_action, eq_proto, eq_ip,
}
use opx_nas_linux.Rule.Incoming.{Args, set_grp_priority, is_some}

unfoldable pub get_rule_type_name : RuleType → Option String
get_rule_type_name RuleType.out_ip = some "IP"
get_rule_type_name RuleType.snat = some "SNAT"
get_rule_type_name _ = none

unfoldable pub get_action_name : Bool → Action → Option String
get_action_name for_ipt_target Action.dnat = some "dnat"
get_action_name for_ipt_target Action.snat = some "snat"
get_action_name for_ipt_target _ = none

unfoldable pub get_proto_name : Proto → Option String
get_proto_name Proto.tcp = some "tcp"
get_proto_name Proto.udp = some "udp"
get_proto_name Proto.icmp = some "icmp"
get_proto_name Proto.icmpv6 = some "icmpv6"
get_proto_name Proto.all = none

-- The tests of `__setattr__`; a protocol may be None.
unfoldable pub names_known : Args → Bool
unfolding is_some get_rule_type_name get_action_name get_proto_name
names_known a =
    is_some (get_rule_type_name a.rule_type)
    && is_some (get_action_name false a.action)
    && elim a.protocol [ none ↦ true | some p ↦ is_some (get_proto_name p) ]

unfoldable pub outgoing_attrs : Args → Rule
unfolding set_grp_priority
outgoing_attrs a = record {
  kind = RuleKind.outgoing;
  rule_type = a.rule_type;
  vrf_name = a.vrf_name;
  action = a.action;
  af = a.af;
  src_ip = none;
  src_prefix_len = none;
  protocol = a.protocol;
  dst_port = a.dst_port;
  low_dst_port = none;
  high_dst_port = none;
  dst_ip = a.dst_ip;
  dst_prefix_len = none;
  in_intf = none;
  negative = false;
  out_src_ip = a.out_src_ip;
  private_ip = a.private_ip;
  private_port = a.private_port;
  seq_num = a.seq_num;
  grp_priority = set_grp_priority a.high_prio;
  rule_id = a.rule_id;
  packet_count = none;
  byte_count = none;
}

-- `VrfOutgoingSvcsRule.__init__`; `none` is the ValueError.
unfoldable pub init_outgoing : Args → Option Rule
unfolding names_known outgoing_attrs is_some
init_outgoing a =
    if not (names_known a)
    then none
    else if a.rule_type == RuleType.snat && not (a.action == Action.snat)
    then none
    else if a.rule_type == RuleType.snat && not (is_some a.out_src_ip)
    then none
    else some (outgoing_attrs a)

-- `VrfOutgoingSvcsRule.is_rule_equal`, over its KEY_ATTRS
unfoldable pub is_rule_equal : Rule → Rule → Bool
is_rule_equal r1 r2 =
    r1.rule_type == r2.rule_type
    && r1.vrf_name == r2.vrf_name
    && r1.af == r2.af
    && r1.dst_ip == r2.dst_ip
    && r1.protocol == r2.protocol
    && r1.dst_port == r2.dst_port
    && r1.out_src_ip == r2.out_src_ip
