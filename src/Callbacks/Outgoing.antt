-- ===== src/Callbacks/Outgoing.antt =====
-- `config_outgoing_ip_svcs_int` of scripts/bin/base_vrf.py.
pub mod Laws
use opx_nas_linux.Prelude.{
  ℕ, String, Bool, true, false, Option, none, some, List, [], ◌∷◌, ◌&&◌, if◌then◌else◌,
}
use opx_nas_linux.Rule.{Af, RuleType, Action, Proto, Ip}
use opx_nas_linux.Rule.Incoming.{Args, is_some, Net}
use opx_nas_linux.Iptables.{System}
use opx_nas_linux.RuleTables.{Tables}
use opx_nas_linux.Outgoing.{
  process_vrf_outgoing_svcs_rule_del_by_id, process_vrf_outgoing_svcs_rule_add,
  process_vrf_outgoing_svcs_rule_del,
}
use opx_nas_linux.Callbacks.{Operation, normalize_ip_with_prefix}
use opx_nas_linux.Callbacks.Incoming.{check_attr_list}

-- The attributes of the CPS object; one that is not there is None.
pub record Request : Type 0 where
  pub vrf_name : Option String
  pub af : Option Af
  pub public_ip : Option Ip
  pub outgoing_source_ip : Option Ip
  pub protocol : Option Proto
  pub public_port : Option ℕ
  pub private_ip : Option Ip
  pub private_port : Option ℕ
  pub rule_id : Option ℕ

-- An address of the request, which fixes the family where it is not given: the family and the address.
unfoldable pub normalize_addr : Net → Option Af → Option Ip → Option (Option Af × Option Ip)
unfolding normalize_ip_with_prefix
normalize_addr net af none = some (af, none)
normalize_addr net af (some ip) = elim (normalize_ip_with_prefix net af ip none) [
  | none ↦ none
  | some (af', ip', len) ↦ some (some af', some ip')
]

-- "check public IP", "check outgoing source IP", "check private IP"
unfoldable pub normalize : Net → Request → Option Request
unfolding normalize_addr
normalize net q = elim (normalize_addr net q.af q.public_ip) [
  | none ↦ none
  | some (af1, public_ip) ↦ elim (normalize_addr net af1 q.outgoing_source_ip) [
    | none ↦ none
    | some (af2, source_ip) ↦ elim (normalize_addr net af2 q.private_ip) [
      | none ↦ none
      | some (af3, private_ip) ↦ some (record q {
        af = af3;
        public_ip = public_ip;
        outgoing_source_ip = source_ip;
        private_ip = private_ip;
      })
    ]
  ]
]

unfoldable pub is_egress_source_ip_config : Request → Bool
unfolding is_some
is_egress_source_ip_config q = is_some q.outgoing_source_ip

abbrev pub rule_type_of : Request → RuleType
rule_type_of q = if is_some q.outgoing_source_ip then RuleType.snat else RuleType.out_ip

abbrev pub action_of : Request → Action
action_of q = if is_some q.outgoing_source_ip then Action.snat else Action.dnat

-- `reqd_input`
unfoldable pub reqd_input : Request → List Bool
unfolding is_some
reqd_input q =
    is_some q.vrf_name
    ∷ is_some q.af
    ∷ is_some q.public_ip
    ∷ is_some q.protocol
    ∷ is_some q.public_port
    ∷ (if is_some q.outgoing_source_ip then is_some q.outgoing_source_ip ∷ [] else [])

unfoldable pub check_rule_input : Operation → Request → Bool
unfolding check_attr_list reqd_input is_some
check_rule_input Operation.delete q =
    if is_some q.rule_id then true else check_attr_list (reqd_input q)
check_rule_input Operation.set q = false
check_rule_input Operation.create q = check_attr_list (reqd_input q)
check_rule_input Operation.other q = false

-- The arguments of the constructor; `none` stands for a missing VRF or family, which
-- `check_rule_input` has excluded where this is called.
unfoldable pub args_of : Request → Option Args
unfolding is_some
args_of q = elim q.vrf_name [
  | none ↦ none
  | some vrf_name ↦ elim q.af [
    | none ↦ none
    | some af ↦ some (record {
      rule_type = rule_type_of q;
      vrf_name = vrf_name;
      action = action_of q;
      af = af;
      src_ip = none;
      src_prefix_len = none;
      protocol = q.protocol;
      dst_port = q.public_port;
      low_dst_port = none;
      high_dst_port = none;
      dst_ip = q.public_ip;
      dst_prefix_len = none;
      in_intf = none;
      out_src_ip = q.outgoing_source_ip;
      private_ip = q.private_ip;
      private_port = q.private_port;
      seq_num = 0;
      rule_id = q.rule_id;
      high_prio = false;
    })
  ]
]

-- What the callback reports of a new rule: its ID, and the private address and port of a binding.
pub record Reply : Type 0 where
  pub id : Option ℕ
  pub private_ip : Option Ip
  pub private_port : Option ℕ

-- `_protocol` has a name for it, which the message after the checks asks for; a KeyError there ends
-- the callback with False.
unfoldable pub has_protocol_name : Option Proto → Bool
has_protocol_name none = true
has_protocol_name (some Proto.tcp) = true
has_protocol_name (some Proto.udp) = true
has_protocol_name (some Proto.icmp) = true
has_protocol_name (some _) = false

-- the request that the callback acts on
unfoldable pub checked : Net → Operation → Request → Option Request
unfolding normalize check_rule_input has_protocol_name
checked net op q = elim (normalize net q) [
  | none ↦ none
  | some q' ↦ if check_rule_input op q' && has_protocol_name q'.protocol then some q' else none
]

module _ {sys : System} where
  -- `operation == 'create'`; `none` is False
  unfoldable pub create_rule : Request → Tables sys → Option Reply × Tables sys
  unfolding args_of process_vrf_outgoing_svcs_rule_add is_some
  create_rule q s = elim (args_of q) [
    | none ↦ (none, s)
    | some a ↦
        let (added, s') = process_vrf_outgoing_svcs_rule_add a s in
        (
          elim added [
            | none ↦ none
            | some rule ↦ some (
                if is_some q.outgoing_source_ip
                then record { id = rule.rule_id; private_ip = none; private_port = none }
                else record {
                  id = rule.rule_id;
                  private_ip = rule.private_ip;
                  private_port = rule.private_port;
                })
          ],
          s',
        )
  ]

  unfoldable pub delete_by : Request → Tables sys → Bool × Tables sys
  unfolding args_of process_vrf_outgoing_svcs_rule_del
  delete_by q s = elim q.rule_id [
    | some rule_id ↦ process_vrf_outgoing_svcs_rule_del_by_id rule_id s
    | none ↦ elim (args_of q) [
      | none ↦ (false, s)
      | some a ↦ process_vrf_outgoing_svcs_rule_del a s
    ]
  ]

  unfoldable pub dispatch : Operation → Request → Tables sys → (Bool × Option Reply) × Tables sys
  unfolding create_rule delete_by is_some
  dispatch Operation.create q s = let (reply, s') = create_rule q s in ((is_some reply, reply), s')
  dispatch Operation.delete q s = let (done, s') = delete_by q s in ((done, none), s')
  dispatch _ q s = ((false, none), s)

  -- `config_outgoing_ip_svcs_int`
  unfoldable pub config_outgoing_ip_svcs :
      Operation → Request → Tables sys → (Bool × Option Reply) × Tables sys
  unfolding checked dispatch
  config_outgoing_ip_svcs op q s = elim (checked sys.net op q) [
    | none ↦ ((false, none), s)
    | some q' ↦ dispatch op q' s
  ]
