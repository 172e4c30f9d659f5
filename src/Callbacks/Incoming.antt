-- ===== src/Callbacks/Incoming.antt =====
-- `config_incoming_ip_svcs_int` of scripts/bin/base_vrf.py.
pub mod Laws
use opx_nas_linux.Prelude.{
  ℕ, String, Bool, true, false, Option, none, some, List, [], ◌∷◌, ◌==◌, ◌&&◌, ◌||◌, not,
  if◌then◌else◌, eq_nat, eq_string, eq_option,
}
use opx_nas_linux.Rule.{Af, RuleType, Action, Proto, Ip, eq_proto, eq_rule_type}
use opx_nas_linux.Rule.Incoming.{Args, is_some, Net}
use opx_nas_linux.Iptables.{System}
use opx_nas_linux.RuleTables.{Tables}
use opx_nas_linux.Incoming.Update.{
  Params, process_vrf_svcs_rule_add, process_vrf_svcs_rule_set, process_vrf_svcs_rule_del,
  process_vrf_svcs_rule_del_by_id,
}
use opx_nas_linux.Callbacks.{Operation, normalize_ip_with_prefix}

-- The attributes of the CPS object; one that is not there is None.
pub record Request : Type 0 where
  pub af : Option Af
  pub vrf_name : Option String
  pub protocol : Option Proto
  pub dst_port : Option ℕ
  pub low_dst_port : Option ℕ
  pub high_dst_port : Option ℕ
  pub action : Option Action
  pub src_ip : Option Ip
  pub src_prefix_len : Option ℕ
  pub dst_ip : Option Ip
  pub dst_prefix_len : Option ℕ
  pub in_intf : Option String
  pub seq_num : Option ℕ
  pub rule_id : Option ℕ

-- get_svcs_attr_val('seq-num', 0) for 'create'
unfoldable pub default_seq_num : Operation → Request → Request
default_seq_num Operation.create q = record q {
  seq_num = elim q.seq_num [ none ↦ some 0 | some n ↦ some n ];
}
default_seq_num _ q = q

-- "check source and destination IP"
unfoldable pub normalize_src : Net → Request → Option Request
unfolding normalize_ip_with_prefix
normalize_src net q = elim q.src_ip [
  | none ↦ some q
  | some ip ↦ elim (normalize_ip_with_prefix net q.af ip q.src_prefix_len) [
    | none ↦ none
    | some (af, ip', len) ↦
        some (record q { af = some af; src_ip = some ip'; src_prefix_len = some len })
  ]
]

unfoldable pub normalize_dst : Net → Request → Option Request
unfolding normalize_ip_with_prefix
normalize_dst net q = elim q.dst_ip [
  | none ↦ some q
  | some ip ↦ elim (normalize_ip_with_prefix net q.af ip q.dst_prefix_len) [
    | none ↦ none
    | some (af, ip', len) ↦
        some (record q { af = some af; dst_ip = some ip'; dst_prefix_len = some len })
  ]
]

-- "check lower & upper destination ports": the three returns of False
unfoldable pub ports_fit : Request → Bool
unfolding is_some
ports_fit q =
    if is_some q.low_dst_port && not (is_some q.high_dst_port)
    then false
    else if not (is_some q.low_dst_port) && is_some q.high_dst_port
    then false
    else not ((is_some q.low_dst_port || is_some q.high_dst_port) && is_some q.dst_port)

unfoldable pub is_vty_acl_config : Request → Bool
unfolding is_some
is_vty_acl_config q =
    if not (is_some q.dst_port) || q.dst_port == some 0
    then true
    else if is_some q.src_ip
    then true
    else is_some q.low_dst_port && is_some q.high_dst_port

unfoldable pub rule_type_of : Request → RuleType
unfolding is_vty_acl_config
rule_type_of q = if is_vty_acl_config q then RuleType.acl else RuleType.ip

-- `check_attr_list`, on whether each attribute of the list is given
unfoldable pub check_attr_list : List Bool → Bool
check_attr_list [] = true
check_attr_list (given ∷ attrs) = given && check_attr_list attrs

-- `reqd_input`
unfoldable pub reqd_input : Request → List Bool
unfolding is_some is_vty_acl_config
reqd_input q =
    if is_vty_acl_config q
    then is_some q.vrf_name
      ∷ is_some q.af
      ∷ is_some q.src_ip
      ∷ is_some q.src_prefix_len
      ∷ is_some q.action
      ∷ []
    else is_some q.af
      ∷ is_some q.vrf_name
      ∷ is_some q.protocol
      ∷ is_some q.dst_port
      ∷ (if q.vrf_name == some "default" then is_some q.action ∷ [] else [])

unfoldable pub check_rule_input : Operation → Request → Bool
unfolding check_attr_list reqd_input is_some
check_rule_input Operation.delete q =
    if is_some q.rule_id then true else check_attr_list (reqd_input q)
check_rule_input Operation.set q = is_some q.rule_id
check_rule_input Operation.create q = check_attr_list (is_some q.seq_num ∷ reqd_input q)
check_rule_input Operation.other q = false

-- a rule of the services of a VRF, which is translated to the default VRF
unfoldable pub is_forwarding : Request → Bool
unfolding rule_type_of
is_forwarding q = rule_type_of q == RuleType.ip && not (q.vrf_name == some "default")

abbrev pub tcp_or_udp : Option Proto → Bool
tcp_or_udp p = p == some Proto.tcp || p == some Proto.udp

-- "L4 destination port filter must with protocol type TCP or UDP", for a port and for a range
unfoldable pub protocol_fits : Request → Bool
unfolding is_some is_forwarding
protocol_fits q =
    if is_forwarding q
    then true
    else if is_some q.dst_port && not (tcp_or_udp q.protocol)
    then false
    else not (is_some q.low_dst_port && not (tcp_or_udp q.protocol))

-- The arguments of the constructor. `none` stands for a missing VRF, action or family, which
-- `check_rule_input` has excluded where this is called.
unfoldable pub args_of : (Af → String → Option Ip) → ℕ → Request → Option Args
unfolding is_forwarding rule_type_of
args_of veth_ip seq_num q = elim q.vrf_name [
  | none ↦ none
  | some vrf_name ↦ elim q.af [
    | none ↦ none
    | some af ↦ elim (if is_forwarding q then some Action.dnat else q.action) [
      | none ↦ none
      | some action ↦ some (record {
        rule_type = rule_type_of q;
        vrf_name = vrf_name;
        action = action;
        af = af;
        src_ip = q.src_ip;
        src_prefix_len = q.src_prefix_len;
        protocol = q.protocol;
        dst_port = q.dst_port;
        low_dst_port = q.low_dst_port;
        high_dst_port = q.high_dst_port;
        dst_ip = if is_forwarding q then veth_ip af vrf_name else q.dst_ip;
        dst_prefix_len = q.dst_prefix_len;
        in_intf = q.in_intf;
        out_src_ip = none;
        private_ip = none;
        private_port = none;
        seq_num = seq_num;
        rule_id = q.rule_id;
        high_prio = false;
      })
    ]
  ]
]

abbrev pub params_of : Request → Params
params_of q = record {
  src_ip = q.src_ip;
  src_prefix_len = q.src_prefix_len;
  dst_ip = q.dst_ip;
  dst_prefix_len = q.dst_prefix_len;
  protocol = q.protocol;
  dst_port = q.dst_port;
  low_dst_port = q.low_dst_port;
  high_dst_port = q.high_dst_port;
  action = q.action;
  in_intf = q.in_intf;
  seq_num = q.seq_num;
}

-- the request that passes the checks before `check_rule_input`
unfoldable pub checked : Net → Operation → Request → Option Request
unfolding default_seq_num normalize_src normalize_dst ports_fit check_rule_input
checked net op q = elim (normalize_src net (default_seq_num op q)) [
  | none ↦ none
  | some q1 ↦ elim (normalize_dst net q1) [
    | none ↦ none
    | some q2 ↦ if ports_fit q2 && check_rule_input op q2 then some q2 else none
  ]
]

module _ {sys : System} where
  -- `operation == 'create'`: the ID of the new rule
  unfoldable pub create_rule : Request → Tables sys → Option ℕ × Tables sys
  unfolding protocol_fits args_of process_vrf_svcs_rule_add
  create_rule q s = if not (protocol_fits q) then (none, s) else elim q.seq_num [
    | none ↦ (none, s)
    | some seq_num ↦ elim (args_of sys.vrfs.veth_ip seq_num q) [
      | none ↦ (none, s)
      | some a ↦ process_vrf_svcs_rule_add a s
    ]
  ]

  unfoldable pub set_rule : Request → Tables sys → Bool × Tables sys
  unfolding process_vrf_svcs_rule_set
  set_rule q s = elim q.rule_id [
    | none ↦ (false, s)
    | some rule_id ↦ process_vrf_svcs_rule_set rule_id (params_of q) s
  ]

  -- A rule that is deleted by its attributes has the sequence number 0 and no ID.
  unfoldable pub delete_by : Request → Tables sys → Bool × Tables sys
  unfolding args_of process_vrf_svcs_rule_del
  delete_by q s = elim q.rule_id [
    | some rule_id ↦ process_vrf_svcs_rule_del_by_id rule_id s
    | none ↦ elim (args_of sys.vrfs.veth_ip 0 q) [
      | none ↦ (false, s)
      | some a ↦ process_vrf_svcs_rule_del a s
    ]
  ]

  -- the part of the callback that calls the cache: success, and the ID that a creation reports
  unfoldable pub dispatch : Operation → Request → Tables sys → (Bool × Option ℕ) × Tables sys
  unfolding create_rule set_rule delete_by is_some
  dispatch Operation.create q s = let (id, s') = create_rule q s in ((is_some id, id), s')
  dispatch Operation.set q s = let (done, s') = set_rule q s in ((done, none), s')
  dispatch Operation.delete q s = let (done, s') = delete_by q s in ((done, none), s')
  dispatch Operation.other q s = ((false, none), s)

  -- `config_incoming_ip_svcs_int`
  unfoldable pub config_incoming_ip_svcs :
      Operation → Request → Tables sys → (Bool × Option ℕ) × Tables sys
  unfolding checked dispatch
  config_incoming_ip_svcs op q s = elim (checked sys.net op q) [
    | none ↦ ((false, none), s)
    | some q' ↦ dispatch op q' s
  ]
