-- ===== src/Tests/Rules.antt =====
-- Examples of rules.
use opx_nas_linux.Prelude.{true, false, none, some, [], ◌∷◌, ◌≡◌, refl}
use opx_nas_linux.Rule.{Af, RuleType, Action, Proto, GroupPrio, RuleKind, Rule}
use opx_nas_linux.Rule.Incoming.{Args, Hash, init_incoming, key_attrs_equal, hash_rule}
use opx_nas_linux.Rule.Laws.{
  hash_rule-equal, IsIncoming, init_incoming-IsIncoming, key_attrs_equal_negated,
}
use opx_nas_linux.Tests.Kernel.{net}

-- SSH from 10.0.0.0/8 is denied in the VRF 'blue'.
abbrev pub deny_ssh : Args
deny_ssh = record {
  rule_type = RuleType.acl;
  vrf_name = "blue";
  action = Action.deny;
  af = Af.inet;
  src_ip = some (10 ∷ 0 ∷ 0 ∷ 0 ∷ []);
  src_prefix_len = some 8;
  protocol = some Proto.tcp;
  dst_port = some 22;
  low_dst_port = none;
  high_dst_port = none;
  dst_ip = none;
  dst_prefix_len = none;
  in_intf = some "eth0";
  out_src_ip = none;
  private_ip = none;
  private_port = none;
  seq_num = 5;
  rule_id = none;
  high_prio = false;
}

-- the rule that the constructor makes of it
abbrev pub ssh_rule : Rule
ssh_rule = record {
  kind = RuleKind.incoming;
  rule_type = RuleType.acl;
  vrf_name = "blue";
  action = Action.reject;
  af = Af.inet;
  src_ip = some (10 ∷ 0 ∷ 0 ∷ 0 ∷ []);
  src_prefix_len = some 8;
  protocol = some Proto.tcp;
  dst_port = some 22;
  low_dst_port = none;
  high_dst_port = none;
  dst_ip = some (0 ∷ 0 ∷ 0 ∷ 0 ∷ []);
  dst_prefix_len = some 0;
  in_intf = some "eth0";
  negative = false;
  out_src_ip = none;
  private_ip = none;
  private_port = none;
  seq_num = 5;
  grp_priority = GroupPrio.default;
  rule_id = none;
  packet_count = none;
  byte_count = none;
}

init_ssh : init_incoming net deny_ssh ≡ some ssh_rule
unfolding init_incoming
init_ssh = refl

init_not_eth0 :
    init_incoming net (record deny_ssh { in_intf = some "!eth0" })
    ≡ some (record ssh_rule { negative = true })
unfolding init_incoming
init_not_eth0 = refl

init_incoming-IsIncoming_example : IsIncoming net deny_ssh ssh_rule
init_incoming-IsIncoming_example = init_incoming-IsIncoming net deny_ssh init_ssh

key_attrs_equal_negated_example :
    (key_attrs_equal ssh_rule (record ssh_rule { negative = true }) ≡ true)
    × (ssh_rule.negative ≡ false)
    × ((record ssh_rule { negative = true }).negative ≡ true)
key_attrs_equal_negated_example =
    key_attrs_equal_negated net deny_ssh "e" "th0" refl init_ssh init_not_eth0

abbrev hash : Hash
hash = record { of_number = λ n. n; of_text = λ s. 7; of_ip = λ a. 9 }

hash_rule-equal_example : hash_rule hash ssh_rule ≡ hash_rule hash (record ssh_rule { seq_num = 9 })
unfolding key_attrs_equal
hash_rule-equal_example = hash_rule-equal hash ssh_rule (record ssh_rule { seq_num = 9 }) refl
