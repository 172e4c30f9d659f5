-- ===== src/Callbacks/Reading.antt =====
-- `get_incoming_ip_svcs_int` and `get_outgoing_ip_svcs_int` of scripts/bin/base_vrf.py.
pub mod Laws
use opx_nas_linux.Prelude.{Option, none, some, List}
use opx_nas_linux.Rule.Incoming.{Net}
use opx_nas_linux.Iptables.{System}
use opx_nas_linux.RuleTables.{Tables}
use opx_nas_linux.Reading.{
  Filter, CpsRule, process_vrf_svcs_rule_get, process_vrf_outgoing_svcs_rule_get,
}
use opx_nas_linux.Callbacks.Incoming
use opx_nas_linux.Callbacks.Incoming.{normalize_src, normalize_dst}
use opx_nas_linux.Callbacks.Outgoing

-- `obj_attr_map` of both callbacks: the attributes of the request under the names of a rule's. The VRF
-- and the ID are arguments of their own.
abbrev pub incoming_filter : Incoming.Request → Filter
incoming_filter q = record {
  af = q.af;
  src_ip = q.src_ip;
  src_prefix_len = q.src_prefix_len;
  dst_ip = q.dst_ip;
  dst_prefix_len = q.dst_prefix_len;
  protocol = q.protocol;
  dst_port = q.dst_port;
  low_dst_port = q.low_dst_port;
  high_dst_port = q.high_dst_port;
  action = q.action;
  seq_num = q.seq_num;
  in_intf = q.in_intf;
  out_src_ip = none;
  private_ip = none;
  private_port = none;
}

abbrev pub outgoing_filter : Outgoing.Request → Filter
outgoing_filter q = record {
  af = q.af;
  src_ip = none;
  src_prefix_len = none;
  dst_ip = q.public_ip;
  dst_prefix_len = none;
  protocol = q.protocol;
  dst_port = q.public_port;
  low_dst_port = none;
  high_dst_port = none;
  action = none;
  seq_num = none;
  in_intf = none;
  out_src_ip = q.outgoing_source_ip;
  private_ip = q.private_ip;
  private_port = q.private_port;
}

-- "check source and destination IP"
unfoldable pub read_request : Net → Incoming.Request → Option Incoming.Request
unfolding normalize_src normalize_dst
read_request net q = elim (normalize_src net q) [ none ↦ none | some q1 ↦ normalize_dst net q1 ]

module _ {sys : System} where
  -- The objects that are added to params['list']; `none` is False.
  unfoldable pub get_incoming_ip_svcs :
      Incoming.Request → Tables sys → Option (List CpsRule) × Tables sys
  unfolding read_request process_vrf_svcs_rule_get
  get_incoming_ip_svcs q s = elim (read_request sys.net q) [
    | none ↦ (none, s)
    | some q' ↦
        let (resp, s') =
          process_vrf_svcs_rule_get q'.rule_id none q'.vrf_name (incoming_filter q') s in
        (some resp, s')
  ]

  unfoldable pub get_outgoing_ip_svcs :
      Outgoing.Request → Tables sys → Option (List CpsRule) × Tables sys
  unfolding Outgoing.normalize process_vrf_outgoing_svcs_rule_get
  get_outgoing_ip_svcs q s = elim (Outgoing.normalize sys.net q) [
    | none ↦ (none, s)
    | some q' ↦
        let (resp, s') =
          process_vrf_outgoing_svcs_rule_get q'.rule_id none q'.vrf_name (outgoing_filter q') s in
        (some resp, s')
  ]
