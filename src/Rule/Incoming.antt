-- ===== src/Rule/Incoming.antt =====
-- `VrfIncomingSvcsRule` of scripts/lib/python/dn_base_vrf_svcs_config.py.
use Prim.Native.Nat.{bit_xor}
use mathlib.Core.List.{foldl}
use Prim.Native.Char.{code}
use Prim.Native.String as Text
use opx_nas_linux.Prelude.{
  ℕ, String, Bool, true, false, Option, none, some, List, [], ◌∷◌, nat_eq, ◌==◌, ◌&&◌, not,
  if◌then◌else◌, eq_nat, eq_string, eq_option,
}
use opx_nas_linux.Rule.{
  Af, RuleType, Action, Proto, GroupPrio, Ip, RuleKind, Rule, eq_af, eq_rule_type, eq_action,
  eq_proto, eq_ip, rule_type_value, af_value, proto_value, action_value,
}

unfoldable pub get_rule_type_name : RuleType → Option String
get_rule_type_name RuleType.ip = some "IP"
get_rule_type_name RuleType.acl = some "ACL"
get_rule_type_name _ = none

-- the name, and the target of iptables
unfoldable pub get_action_name : Bool → Action → Option String
get_action_name for_ipt_target Action.allow = some (if for_ipt_target then "accept" else "allow")
get_action_name for_ipt_target Action.deny = some (if for_ipt_target then "drop" else "deny")
get_action_name for_ipt_target Action.dnat = some "dnat"
get_action_name for_ipt_target Action.reject = some (if for_ipt_target then "mark" else "reject")
get_action_name for_ipt_target Action.snat = none

unfoldable pub get_proto_name : Proto → Option String
get_proto_name Proto.tcp = some "tcp"
get_proto_name Proto.udp = some "udp"
get_proto_name Proto.icmp = some "icmp"
get_proto_name Proto.icmpv6 = some "icmpv6"
get_proto_name Proto.all = some "ip"

-- socket.inet_pton of '0.0.0.0' or '::'
unfoldable pub any_ip : Af → Ip
any_ip Af.inet = 0 ∷ 0 ∷ 0 ∷ 0 ∷ []
any_ip Af.inet6 = 0 ∷ 0 ∷ 0 ∷ 0 ∷ 0 ∷ 0 ∷ 0 ∷ 0 ∷ 0 ∷ 0 ∷ 0 ∷ 0 ∷ 0 ∷ 0 ∷ 0 ∷ 0 ∷ []

-- ip == '\x00' * len(ip)
unfoldable pub all_zero : Ip → Bool
all_zero [] = true
all_zero (b ∷ bs) = nat_eq b 0 && all_zero bs

-- The packages `netaddr` and `socket`, which the rules call.
pub record Net : Type 0 where
  -- socket.inet_ntop
  pub inet_ntop : Af → Ip → String
  -- netaddr.IPNetwork('<ip>/<prefix length>').cidr.ip.packed; `none` is an exception
  pub network_ip : Af → Ip → ℕ → Option Ip

module _ (net : Net) where
  -- `none` is the exception of netaddr.
  unfoldable pub normalize_ip_prefix : Af → Option Ip → Option ℕ → Option (Option Ip × Option ℕ)
  unfolding any_ip all_zero
  normalize_ip_prefix af (some addr) (some prefix_len) = elim (net.network_ip af addr prefix_len) [
    | none ↦ none
    | some masked ↦ some (some masked, some prefix_len)
  ]
  normalize_ip_prefix af none prefix_len = some (some (any_ip af), some 0)
  normalize_ip_prefix af (some addr) none =
      if all_zero addr then some (some addr, some 0) else some (some addr, none)

-- `__setattr__` of in_intf: a leading '!' becomes `negative`.
unfoldable pub set_in_intf : Option String → Option String × Bool
set_in_intf none = (none, false)
set_in_intf (some Text.[]) = (some "", false)
set_in_intf (some (Text.◌∷◌ c rest)) =
    if nat_eq (code c) b'!' then (some rest, true) else (some (Text.◌∷◌ c rest), false)

-- The arguments of a constructor, those of both classes.
pub record Args : Type 0 where
  pub rule_type : RuleType
  pub vrf_name : String
  pub action : Action
  pub af : Af
  pub src_ip : Option Ip
  pub src_prefix_len : Option ℕ
  pub protocol : Option Proto
  pub dst_port : Option ℕ
  pub low_dst_port : Option ℕ
  pub high_dst_port : Option ℕ
  pub dst_ip : Option Ip
  pub dst_prefix_len : Option ℕ
  pub in_intf : Option String
  pub out_src_ip : Option Ip
  pub private_ip : Option Ip
  pub private_port : Option ℕ
  pub seq_num : ℕ
  pub rule_id : Option ℕ
  pub high_prio : Bool

-- `__setattr__` of grp_priority
unfoldable pub set_grp_priority : Bool → GroupPrio
set_grp_priority high_prio = if high_prio then GroupPrio.high else GroupPrio.default

unfoldable pub is_some {ℓ} : {A : Type ℓ} → Option A → Bool
is_some none = false
is_some (some a) = true

-- The tests of `__setattr__` on the attributes that a constructor sets: a value with no name is a
-- ValueError. Every member of `Af` and of `Proto` has a name.
unfoldable pub names_known : RuleType → Action → Bool
unfolding is_some get_rule_type_name get_action_name
names_known rule_type action =
    is_some (get_rule_type_name rule_type) && is_some (get_action_name false action)

-- The constructor turns DENY of an ACL rule to REJECT.
unfoldable pub stored_action : RuleType → Action → Action
stored_action rule_type action =
    if action == Action.deny && rule_type == RuleType.acl then Action.reject else action

-- The attributes before the prefixes are normalised.
unfoldable pub incoming_attrs : Args → Rule
unfolding set_grp_priority set_in_intf stored_action
incoming_attrs a = record {
  kind = RuleKind.incoming;
  rule_type = a.rule_type;
  vrf_name = a.vrf_name;
  action = stored_action a.rule_type a.action;
  af = a.af;
  src_ip = a.src_ip;
  src_prefix_len = a.src_prefix_len;
  protocol = a.protocol;
  dst_port = a.dst_port;
  low_dst_port = a.low_dst_port;
  high_dst_port = a.high_dst_port;
  dst_ip = a.dst_ip;
  dst_prefix_len = a.dst_prefix_len;
  in_intf = (set_in_intf a.in_intf).0;
  negative = (set_in_intf a.in_intf).1;
  out_src_ip = none;
  private_ip = none;
  private_port = none;
  seq_num = a.seq_num;
  grp_priority = set_grp_priority a.high_prio;
  rule_id = a.rule_id;
  packet_count = none;
  byte_count = none;
}

module _ (net : Net) where
  -- `self.normalize_ip_prefix('src_ip', ...)`, then the same of 'dst_ip'
  unfoldable pub normalize : Rule → Option Rule
  unfolding normalize_ip_prefix
  normalize r = elim (normalize_ip_prefix net r.af r.src_ip r.src_prefix_len) [
    | none ↦ none
    | some (src, src_len) ↦ elim (normalize_ip_prefix net r.af r.dst_ip r.dst_prefix_len) [
      | none ↦ none
      | some (dst, dst_len) ↦ some (record r {
        src_ip = src;
        src_prefix_len = src_len;
        dst_ip = dst;
        dst_prefix_len = dst_len;
      })
    ]
  ]

  -- `VrfIncomingSvcsRule.__init__`; `none` is an exception, most often ValueError.
  unfoldable pub init_incoming : Args → Option Rule
  unfolding names_known incoming_attrs normalize is_some
  init_incoming a =
      if not (names_known a.rule_type a.action)
      then none
      else if a.action == Action.dnat && not (is_some a.dst_ip)
      then none
      else normalize (incoming_attrs a)

-- The loop of `is_rule_equal` over KEY_ATTRS, which stops at the first attribute that differs.
unfoldable pub all_true : List Bool → Bool
all_true [] = true
all_true (b ∷ bs) = if b then all_true bs else false

-- The comparisons that the loop makes. Both objects have every key attribute.
abbrev pub key_tests : Rule → Rule → List Bool
key_tests r1 r2 =
    (r1.rule_type == r2.rule_type)
    ∷ (r1.vrf_name == r2.vrf_name)
    ∷ (r1.af == r2.af)
    ∷ (r1.src_ip == r2.src_ip)
    ∷ (r1.src_prefix_len == r2.src_prefix_len)
    ∷ (r1.protocol == r2.protocol)
    ∷ (r1.dst_port == r2.dst_port)
    ∷ (r1.low_dst_port == r2.low_dst_port)
    ∷ (r1.high_dst_port == r2.high_dst_port)
    ∷ (r1.action == r2.action)
    ∷ (r1.in_intf == r2.in_intf)
    ∷ (r1.dst_ip == r2.dst_ip)
    ∷ (r1.dst_prefix_len == r2.dst_prefix_len)
    ∷ []

unfoldable pub key_attrs_equal : Rule → Rule → Bool
unfolding all_true
key_attrs_equal r1 r2 = all_true (key_tests r1 r2)

-- `VrfIncomingSvcsRule.is_rule_equal`
unfoldable pub is_rule_equal : Option Rule → Option Rule → Bool
unfolding key_attrs_equal
is_rule_equal none none = true
is_rule_equal none (some r2) = false
is_rule_equal (some r1) none = false
is_rule_equal (some r1) (some r2) = key_attrs_equal r1 r2

-- Python's `hash` of an attribute, by its type.
pub record Hash : Type 0 where
  pub of_number : ℕ → ℕ
  pub of_text : String → ℕ
  pub of_ip : Ip → ℕ

abbrev pub hash_or_zero {ℓ} : {A : Type ℓ} → (A → ℕ) → Option A → ℕ
hash_or_zero f none = 0
hash_or_zero f (some a) = f a

-- `__hash__`: the hashes of the key attributes that are not None, xored in the order of KEY_ATTRS
unfoldable pub hash_rule : Hash → Rule → ℕ
hash_rule h r =
    let num = hash_or_zero h.of_number in
    let addr = hash_or_zero h.of_ip in
    let steps =
      h.of_number (rule_type_value r.rule_type)
      ∷ h.of_text r.vrf_name
      ∷ h.of_number (af_value r.af)
      ∷ addr r.src_ip
      ∷ num r.src_prefix_len
      ∷ hash_or_zero (λ p. h.of_number (proto_value p)) r.protocol
      ∷ num r.dst_port
      ∷ num r.low_dst_port
      ∷ num r.high_dst_port
      ∷ h.of_number (action_value r.action)
      ∷ hash_or_zero h.of_text r.in_intf
      ∷ addr r.dst_ip
      ∷ num r.dst_prefix_len
      ∷ [] in
    foldl bit_xor 0 steps
