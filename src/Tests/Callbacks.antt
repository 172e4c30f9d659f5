-- ===== src/Tests/Callbacks.antt =====
-- Examples of the callbacks for service rules.
use opx_nas_linux.Prelude.{
  inr, map, put, not, ◌==◌, ◌||◌, true, false, none, some, [], ◌∷◌, ◌≡◌, ◌≢◌, refl, lookup, arith,
}
use Prim.{tt}
use opx_nas_linux.Rule.{eq_action}
use opx_nas_linux.RuleTables.{Tables}
use opx_nas_linux.RuleCache.{search_order}
use opx_nas_linux.Reading.{match_rule, to_cps_obj, read_stats, incoming_types}
use opx_nas_linux.Reading.Listing.{listing}
use opx_nas_linux.Callbacks.Reading.{incoming_filter, read_request, get_incoming_ip_svcs}
use opx_nas_linux.Callbacks.Reading.Laws.{
  by_action, match_rule-shown, get_incoming_ip_svcs-listing, get_incoming_ip_svcs-AllValid,
}
use opx_nas_linux.Tests.Rules.{ssh_rule}
use opx_nas_linux.IdGenerator.{fresh}
use opx_nas_linux.IdGenerator
use opx_nas_linux.RuleList
use opx_nas_linux.RuleCache.Valid.{AllValid}
use opx_nas_linux.Rule.{Af, Action, Proto}
use opx_nas_linux.Rule.Incoming.{init_incoming, is_some}
use opx_nas_linux.Rule.Outgoing.{init_outgoing}
use opx_nas_linux.Iptables.{proc_rule, proc_get}
use opx_nas_linux.PrivatePorts.{add_port}
use opx_nas_linux.RuleTables.{get_list, put_list}
use opx_nas_linux.Incoming
use opx_nas_linux.Incoming.{incoming_class}
use opx_nas_linux.Outgoing
use opx_nas_linux.Outgoing.{outgoing_class, sub_net_insert}
use opx_nas_linux.Callbacks
use opx_nas_linux.Callbacks.{Operation, normalize_ip_with_prefix}
use opx_nas_linux.Callbacks.Addresses.{
  hexlify, normalize_ip_with_prefix-hexlify, normalize_ip_with_prefix-digits,
}
use opx_nas_linux.Callbacks.Incoming.{config_incoming_ip_svcs}
use opx_nas_linux.Callbacks.Incoming.Laws.{
  IsWellFormed, config_incoming_ip_svcs-IsWellFormed, config_incoming_ip_svcs-AllValid,
}
use opx_nas_linux.Callbacks.Outgoing.{config_outgoing_ip_svcs}
use opx_nas_linux.Callbacks.Outgoing.Laws.{
  IsReported, config_outgoing_ip_svcs-AllValid, config_outgoing_ip_svcs-IsReported,
  config_outgoing_ip_svcs_unnamed,
}
use opx_nas_linux.Tests.Kernel.{net, system, run}
use opx_nas_linux.Tests.Cache.{start, start-AllValid}

normalize_ip_with_prefix-hexlify_example :
    normalize_ip_with_prefix net (some Af.inet) (hexlify (10 ∷ 0 ∷ 0 ∷ 1 ∷ [])) none
    ≡ some (Af.inet, 10 ∷ 0 ∷ 0 ∷ 1 ∷ [], 32)
unfolding Callbacks.is_packed
normalize_ip_with_prefix-hexlify_example =
    normalize_ip_with_prefix-hexlify net Af.inet (10 ∷ 0 ∷ 0 ∷ 1 ∷ []) none
      (omega arith, (omega arith, (omega arith, (omega arith, tt)))) refl

-- 49.50.51.52 is "1234".
normalize_ip_with_prefix-digits_example :
    normalize_ip_with_prefix net none (49 ∷ 50 ∷ 51 ∷ 52 ∷ []) (some 32) ≡ none
unfolding is_some Callbacks.hex_value
normalize_ip_with_prefix-digits_example =
    normalize_ip_with_prefix-digits net none 49 50 51 52 (some 32) refl refl refl refl

-- Telnet to the VRF 'blue' is dropped when it comes from 10.0.0.1.
abbrev deny_request : Callbacks.Incoming.Request
deny_request = record {
  af = none;
  vrf_name = some "blue";
  protocol = some Proto.tcp;
  dst_port = some 23;
  low_dst_port = none;
  high_dst_port = none;
  action = some Action.deny;
  src_ip = some (10 ∷ 0 ∷ 0 ∷ 1 ∷ []);
  src_prefix_len = none;
  dst_ip = none;
  dst_prefix_len = none;
  in_intf = none;
  seq_num = none;
  rule_id = none;
}

deny_made : (config_incoming_ip_svcs Operation.create deny_request start).0.0 ≡ true
unfolding config_incoming_ip_svcs Callbacks.Incoming.checked Callbacks.Incoming.dispatch
    init_incoming Incoming.insert_rule get_list lookup proc_rule run fresh RuleList.insert
    IdGenerator.get_new_id put_list normalize_ip_with_prefix
deny_made = refl

config_incoming_ip_svcs-IsWellFormed_example :
    (q' : Callbacks.Incoming.Request) × (Callbacks.Incoming.checked net Operation.create
        deny_request
      ≡ some q')
    × IsWellFormed q'
config_incoming_ip_svcs-IsWellFormed_example =
    config_incoming_ip_svcs-IsWellFormed deny_request start deny_made

creates : Operation.create ≢ Operation.set
creates = ground arith

config_incoming_ip_svcs-AllValid_example :
    AllValid incoming_class (config_incoming_ip_svcs Operation.create deny_request start).1
config_incoming_ip_svcs-AllValid_example =
    config_incoming_ip_svcs-AllValid Operation.create deny_request start creates
      (start-AllValid incoming_class)

-- The VRF 'blue' asks for the name server 10.0.0.1, written in hexadecimal.
abbrev dns_request : Callbacks.Outgoing.Request
dns_request = record {
  vrf_name = some "blue";
  af = none;
  public_ip = some (10 ∷ 0 ∷ 0 ∷ 1 ∷ []);
  outgoing_source_ip = none;
  protocol = some Proto.udp;
  public_port = some 53;
  private_ip = none;
  private_port = none;
  rule_id = none;
}

abbrev dns_checked : Callbacks.Outgoing.Request
dns_checked = record dns_request { af = some Af.inet }

dns_passes : Callbacks.Outgoing.checked net Operation.create dns_request ≡ some dns_checked
unfolding Callbacks.Outgoing.checked normalize_ip_with_prefix
dns_passes = refl

abbrev dns_reply : Callbacks.Outgoing.Reply
dns_reply = record {
  id = some 1;
  private_ip = some (127 ∷ 100 ∷ 100 ∷ 1 ∷ []);
  private_port = some 62000;
}

dns_answer : (config_outgoing_ip_svcs Operation.create dns_request start).0.1 ≡ some dns_reply
unfolding config_outgoing_ip_svcs Callbacks.Outgoing.checked Callbacks.Outgoing.dispatch
    Outgoing.insert_rule get_list lookup proc_rule run fresh RuleList.insert IdGenerator.get_new_id
    put_list normalize_ip_with_prefix sub_net_insert add_port init_outgoing
dns_answer = refl

config_outgoing_ip_svcs-IsReported_example :
    IsReported dns_checked dns_reply start
      (config_outgoing_ip_svcs Operation.create dns_request start).1
unfolding is_some
config_outgoing_ip_svcs-IsReported_example =
    config_outgoing_ip_svcs-IsReported dns_request dns_checked start dns_passes refl dns_answer

config_outgoing_ip_svcs-AllValid_example :
    AllValid outgoing_class (config_outgoing_ip_svcs Operation.create dns_request start).1
config_outgoing_ip_svcs-AllValid_example =
    config_outgoing_ip_svcs-AllValid Operation.create dns_request start
      (start-AllValid outgoing_class)

abbrev ipv6_ping : Callbacks.Outgoing.Request
ipv6_ping = record dns_request { protocol = some Proto.icmpv6 }

config_outgoing_ip_svcs_unnamed_example :
    config_outgoing_ip_svcs Operation.create ipv6_ping start ≡ ((false, none), start)
config_outgoing_ip_svcs_unnamed_example =
    config_outgoing_ip_svcs_unnamed Operation.create ipv6_ping start (inr refl)

-- All rules of the VRF 'blue' are asked for.
abbrev blue_rules : Callbacks.Incoming.Request
blue_rules = record {
  af = none;
  vrf_name = some "blue";
  protocol = none;
  dst_port = none;
  low_dst_port = none;
  high_dst_port = none;
  action = none;
  src_ip = none;
  src_prefix_len = none;
  dst_ip = none;
  dst_prefix_len = none;
  in_intf = none;
  seq_num = none;
  rule_id = none;
}

with_deny : Tables system
with_deny = (config_incoming_ip_svcs Operation.create deny_request start).1

with_deny-AllValid : AllValid incoming_class with_deny
unfolding with_deny
with_deny-AllValid =
    config_incoming_ip_svcs-AllValid Operation.create deny_request start creates
      (start-AllValid incoming_class)

blue_passes : read_request net blue_rules ≡ some blue_rules
unfolding read_request
blue_passes = refl

get_incoming_ip_svcs-listing_example :
    (get_incoming_ip_svcs blue_rules with_deny).0
    ≡ some (
        map to_cps_obj (
          listing
            (read_stats system)
            incoming_types
            (incoming_filter blue_rules)
            none
            (some "blue")
            search_order
            with_deny))
get_incoming_ip_svcs-listing_example =
    get_incoming_ip_svcs-listing blue_rules blue_rules with_deny blue_passes refl

get_incoming_ip_svcs-AllValid_example :
    AllValid incoming_class (get_incoming_ip_svcs blue_rules with_deny).1
get_incoming_ip_svcs-AllValid_example =
    get_incoming_ip_svcs-AllValid blue_rules with_deny with_deny-AllValid

match_rule-shown_example :
    match_rule (by_action (to_cps_obj ssh_rule).action) ssh_rule
    ≡ not (ssh_rule.action == Action.dnat || ssh_rule.action == Action.reject)
match_rule-shown_example = match_rule-shown ssh_rule

-- The rule of 'blue' is found, and shown with the action DENY.
deny_shown :
    map
      (λ o. o.action)
      (elim (get_incoming_ip_svcs blue_rules with_deny).0 [ none ↦ [] | some os ↦ os ])
    ≡ some Action.deny ∷ []
unfolding with_deny get_incoming_ip_svcs config_incoming_ip_svcs Callbacks.Incoming.checked
    Callbacks.Incoming.dispatch init_incoming Incoming.insert_rule get_list lookup proc_rule run
    fresh RuleList.insert IdGenerator.get_new_id put_list normalize_ip_with_prefix put proc_get
deny_shown = refl
