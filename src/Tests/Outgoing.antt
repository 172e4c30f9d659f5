-- ===== src/Tests/Outgoing.antt =====
-- Examples of the outgoing cache.
use opx_nas_linux.Prelude.{ℕ, true, false, none, some, [], ◌∷◌, ◌≡◌, refl, lookup}
use opx_nas_linux.IdGenerator.{fresh, is_id_used}
use opx_nas_linux.IdGenerator
use opx_nas_linux.IdGenerator.Invariant.{fresh-IsValid}
use opx_nas_linux.RuleList
use opx_nas_linux.Rule.{Rule, RuleType, RuleKind, Action, Proto}
use opx_nas_linux.Iptables.{proc_rule}
use opx_nas_linux.PrivatePorts.{add_port}
use opx_nas_linux.RuleTables.{get_list, put_list}
use opx_nas_linux.Outgoing.{insert_rule, sub_net_insert}
use opx_nas_linux.Outgoing.Failures.{SamePorts, insert_rule-undone}
use opx_nas_linux.Outgoing.Bindings.{IsBound, insert_rule-IsBound}
use opx_nas_linux.Tests.Kernel.{run}
use opx_nas_linux.Tests.Rules.{ssh_rule}
use opx_nas_linux.Tests.Cache.{start, refusing_start}

-- The VRF 'blue' reaches the name server 10.0.0.1.
abbrev pub dns_rule : Rule
dns_rule = record ssh_rule {
  kind = RuleKind.outgoing;
  rule_type = RuleType.out_ip;
  action = Action.dnat;
  src_ip = none;
  src_prefix_len = none;
  protocol = some Proto.udp;
  dst_port = some 53;
  dst_ip = some (10 ∷ 0 ∷ 0 ∷ 1 ∷ []);
  dst_prefix_len = none;
  in_intf = none;
  seq_num = 0;
}

refusing_fails : (insert_rule dns_rule refusing_start).0.0 ≡ false
unfolding insert_rule get_list lookup proc_rule fresh RuleList.insert IdGenerator.get_new_id
    put_list sub_net_insert add_port
refusing_fails = refl

insert_rule-undone_example :
    ((x : ℕ)
      → is_id_used x (insert_rule dns_rule refusing_start).1.id_generator
        ≡ is_id_used x refusing_start.id_generator)
    × SamePorts (insert_rule dns_rule refusing_start).1.ports refusing_start.ports
insert_rule-undone_example =
    insert_rule-undone dns_rule refusing_start (fresh-IsValid 1 none refl) refusing_fails

dns_inserts : (insert_rule dns_rule start).0.0 ≡ true
unfolding insert_rule get_list lookup proc_rule run fresh RuleList.insert IdGenerator.get_new_id
    put_list sub_net_insert add_port
dns_inserts = refl

insert_rule-IsBound_example :
    IsBound dns_rule
      (insert_rule dns_rule start).0.1
      start.ports
      (insert_rule dns_rule start).1.ports
insert_rule-IsBound_example = insert_rule-IsBound dns_rule start refl dns_inserts
