-- ===== src/Rule.antt =====
-- Service rules of a VRF (scripts/lib/python/dn_base_vrf_svcs_config.py): the enumerations, and the
-- attributes of `VrfIncomingSvcsRule` and `VrfOutgoingSvcsRule`.
pub mod Incoming
pub mod Outgoing
pub mod Laws
use opx_nas_linux.Prelude.{
  ℕ, String, Bool, true, Option, none, some, List, [], ◌∷◌, ◌≡◌, ◌↔◌, ◌&&◌, arith, HasEq, nat_eq,
  false,
}

-- socket.AF_INET and socket.AF_INET6
pub data Af : Type 0 where
  inet inet6 : Af

-- The enumerations are IntEnums: their members compare as numbers.
pub data RuleType : Type 0 where
  ip acl out_ip snat : RuleType

pub data Action : Type 0 where
  allow deny dnat reject snat : Action

pub data Proto : Type 0 where
  tcp udp icmp all icmpv6 : Proto

pub data GroupPrio : Type 0 where
  high default : GroupPrio

-- A packed IP address: its bytes.
abbrev pub Ip : Type 0
Ip = List ℕ

-- The class of a rule object.
pub data RuleKind : Type 0 where
  incoming outgoing : RuleKind

-- The attributes of both classes. The one that a class does not have are None in its rules;
-- `negative`, which exists only beside an `in_intf`, is False there. The statistics are texts.
pub record Rule : Type 0 where
  pub kind : RuleKind
  pub rule_type : RuleType
  pub vrf_name : String
  pub action : Action
  pub af : Af
  pub src_ip : Option Ip
  pub src_prefix_len : Option ℕ
  pub protocol : Option Proto
  pub dst_port : Option ℕ
  pub low_dst_port : Option ℕ
  pub high_dst_port : Option ℕ
  pub dst_ip : Option Ip
  pub dst_prefix_len : Option ℕ
  pub in_intf : Option String
  pub negative : Bool
  pub out_src_ip : Option Ip
  pub private_ip : Option Ip
  pub private_port : Option ℕ
  pub seq_num : ℕ
  pub grp_priority : GroupPrio
  pub rule_id : Option ℕ
  pub packet_count : Option String
  pub byte_count : Option String

abbrev pub af_value : Af → ℕ
af_value Af.inet = 2
af_value Af.inet6 = 10

pub af_iff : (a b : Af) → (nat_eq (af_value a) (af_value b) ≡ true) ↔ (a ≡ b)
af_iff a b = ground arith

instance abbrev pub eq_af : HasEq Af
eq_af = record { same = λ a b. nat_eq (af_value a) (af_value b); same_iff = af_iff }

abbrev pub rule_type_value : RuleType → ℕ
rule_type_value RuleType.ip = 1
rule_type_value RuleType.acl = 2
rule_type_value RuleType.out_ip = 3
rule_type_value RuleType.snat = 4

pub rule_type_iff :
    (a b : RuleType) → (nat_eq (rule_type_value a) (rule_type_value b) ≡ true) ↔ (a ≡ b)
rule_type_iff a b = ground arith

instance abbrev pub eq_rule_type : HasEq RuleType
eq_rule_type = record {
  same = λ a b. nat_eq (rule_type_value a) (rule_type_value b);
  same_iff = rule_type_iff;
}

abbrev pub action_value : Action → ℕ
action_value Action.allow = 1
action_value Action.deny = 2
action_value Action.dnat = 3
action_value Action.reject = 4
action_value Action.snat = 5

pub action_iff : (a b : Action) → (nat_eq (action_value a) (action_value b) ≡ true) ↔ (a ≡ b)
action_iff a b = ground arith

instance abbrev pub eq_action : HasEq Action
eq_action = record { same = λ a b. nat_eq (action_value a) (action_value b); same_iff = action_iff }

abbrev pub proto_value : Proto → ℕ
proto_value Proto.tcp = 1
proto_value Proto.udp = 2
proto_value Proto.icmp = 3
proto_value Proto.all = 4
proto_value Proto.icmpv6 = 5

pub proto_iff : (a b : Proto) → (nat_eq (proto_value a) (proto_value b) ≡ true) ↔ (a ≡ b)
proto_iff a b = ground arith

instance abbrev pub eq_proto : HasEq Proto
eq_proto = record { same = λ a b. nat_eq (proto_value a) (proto_value b); same_iff = proto_iff }

abbrev pub group_prio_value : GroupPrio → ℕ
group_prio_value GroupPrio.high = 1
group_prio_value GroupPrio.default = 10

-- Packed addresses are equal byte by byte.
abbrev pub ip_beq : Ip → Ip → Bool
ip_beq [] [] = true
ip_beq [] (b ∷ bs) = false
ip_beq (a ∷ xs) [] = false
ip_beq (a ∷ xs) (b ∷ bs) = nat_eq a b && ip_beq xs bs

pub ip_beq_iff : (a b : Ip) → (ip_beq a b ≡ true) ↔ (a ≡ b)
ip_beq_iff [] [] = ground arith
ip_beq_iff [] (b ∷ bs) = ground arith
ip_beq_iff (a ∷ xs) [] = ground arith
ip_beq_iff (a ∷ xs) (b ∷ bs) = ground (arith, ip_beq_iff xs bs)

instance abbrev pub eq_ip : HasEq Ip
eq_ip = record { same = ip_beq; same_iff = ip_beq_iff }
