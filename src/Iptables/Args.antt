-- ===== src/Iptables/Args.antt =====
-- The words of an iptables command that describe a rule (`flt_args` in `proc_rule`).
use Prim.Native.String.{◌++◌ as concat}
use opx_nas_linux.Prelude.{
  ℕ, zero, suc, ◌/◌, ◌%◌, String, Option, none, some, List, [], ◌∷◌, ◌++◌, nat_eq, ◌==◌, ltb, ◌&&◌,
  ◌||◌, not, if◌then◌else◌, eq_nat, eq_string,
}
use opx_nas_linux.Rule.{Af, RuleType, Action, Proto, Ip, RuleKind, Rule, eq_rule_type, eq_af}
use opx_nas_linux.Rule.Incoming.{Net}
use opx_nas_linux.Rule.Incoming
use opx_nas_linux.Rule.Outgoing

-- What the rules read of dn_base_vrf_tool.py: `_vrf_name_to_id.get`, `get_veth_ip_str(af, vrf, False)`,
-- `get_veth_ip(af, vrf)`, and the packed address that `_veth_ip_get(vrf, 'default', False)` gives for a
-- family. The addresses of a VRF do not change while it is there.
pub record Vrfs : Type 0 where
  pub vrf_id : String → Option ℕ
  pub veth_ip_str : Af → String → Option String
  pub veth_ip : Af → String → Option Ip
  pub private_ip : Af → String → Option Ip

digit : ℕ → String
digit n =
    if nat_eq n 0
    then "0"
    else if nat_eq n 1
    then "1"
    else if nat_eq n 2
    then "2"
    else if nat_eq n 3
    then "3"
    else if nat_eq n 4
    then "4"
    else if nat_eq n 5
    then "5"
    else if nat_eq n 6
    then "6"
    else if nat_eq n 7
    then "7"
    else if nat_eq n 8
    then "8"
    else "9"

digits : ℕ → ℕ → String
unfolding digit
digits zero n = digit n
digits (suc fuel) n =
    let front = digits fuel (n / 10) in if ltb n 10 then digit n else concat front (digit (n % 10))

-- '%d': a number has at most as many digits as it counts.
unfoldable pub show : ℕ → String
unfolding digits
show n = digits n n

-- '%s%s' % (ip, '/%d' % prefix_len or '')
unfoldable pub show_prefix : Net → Af → Ip → Option ℕ → String
unfolding show
show_prefix net af addr none = net.inet_ntop af addr
show_prefix net af addr (some len) = concat (net.inet_ntop af addr) (concat "/" (show len))

-- rule.get_proto_name()
unfoldable pub proto_name : RuleKind → Proto → Option String
unfolding Incoming.get_proto_name Outgoing.get_proto_name
proto_name RuleKind.incoming p = Incoming.get_proto_name p
proto_name RuleKind.outgoing p = Outgoing.get_proto_name p

-- rule.get_action_name(True).upper()
unfoldable pub target_name : Action → String
target_name Action.allow = "ACCEPT"
target_name Action.deny = "DROP"
target_name Action.dnat = "DNAT"
target_name Action.reject = "MARK"
target_name Action.snat = "SNAT"

abbrev pub or_text : String → Option String → String
or_text dft none = dft
or_text dft (some s) = s

-- str() of an optional number
unfoldable pub show_option : Option ℕ → String
unfolding show
show_option none = "None"
show_option (some n) = show n

module _ (net : Net) (vrfs : Vrfs) where
  src_args : Rule → List String
  unfolding show_prefix
  src_args r = elim r.src_ip [
    | none ↦ []
    | some addr ↦ "-s" ∷ show_prefix net r.af addr r.src_prefix_len ∷ []
  ]

  proto_args : Rule → List String
  unfolding proto_name
  proto_args r = elim r.protocol [
    | none ↦ []
    | some p ↦ "-p" ∷ or_text "None" (proto_name r.kind p) ∷ []
  ]

  port_args : Rule → List String
  unfolding show show_option
  port_args r =
      if r.rule_type == RuleType.out_ip
      then "--dport" ∷ show_option r.private_port ∷ []
      else elim r.dst_port [ none ↦ [] | some port ↦ "--dport" ∷ show port ∷ [] ]

  range_args : Rule → List String
  unfolding show show_option
  range_args r =
      if r.rule_type == RuleType.acl
      then elim r.low_dst_port [
        | none ↦ []
        | some low ↦
            "--match"
            ∷ "multiport"
            ∷ "--dports"
            ∷ concat (show low) (concat ":" (show_option r.high_dst_port))
            ∷ []
      ]
      else []

  dst_args : Rule → List String
  unfolding show_prefix
  dst_args r =
      if r.rule_type == RuleType.snat
        || (r.rule_type == RuleType.acl || (r.vrf_name == "default" && r.rule_type == RuleType.ip))
      then elim r.dst_ip [
        | none ↦ []
        | some addr ↦ "-d" ∷ show_prefix net r.af addr r.dst_prefix_len ∷ []
      ]
      else []

  -- the options for the interface, by the type of the rule
  intf_args : RuleType → Rule → List String
  unfolding show
  intf_args RuleType.ip r =
      if r.vrf_name == "default"
      then elim r.in_intf [ some intf ↦ "-i" ∷ intf ∷ [] | none ↦ "!" ∷ "-i" ∷ "vdst-nsid+" ∷ [] ]
      else []
  intf_args RuleType.out_ip r = elim (vrfs.vrf_id r.vrf_name) [
    | none ↦ []
    | some id ↦ "-i" ∷ "vdst-nsid0" ∷ "-d" ∷ or_text "None" (vrfs.veth_ip_str r.af r.vrf_name) ∷ []
  ]
  intf_args RuleType.snat r =
      if not (r.vrf_name == "default") then "!" ∷ "-o" ∷ "vdst-nsid0" ∷ [] else []
  intf_args RuleType.acl r = elim r.in_intf [
    | none ↦ []
    | some intf ↦ (if r.negative then "!" ∷ [] else []) ++ ("-i" ∷ intf ∷ [])
  ]

  -- An address of None, which is a TypeError in socket.inet_ntop, is the empty text: the
  -- constructor of incoming rules leaves none.
  address : Af → Option Ip → String
  address af none = ""
  address af (some addr) = net.inet_ntop af addr

  -- 'ip:port' or '[ip]:port'
  dnat_target : Rule → String
  unfolding address show_option
  dnat_target r =
      if r.af == Af.inet
      then concat (address r.af r.dst_ip) (concat ":" (show_option r.dst_port))
      else concat "[" (concat (address r.af r.dst_ip) (concat "]:" (show_option r.dst_port)))

  -- the options for the action, after the target
  action_args : Action → Rule → List String
  unfolding address dnat_target
  action_args Action.dnat r =
      "--to-destination"
      ∷ (if r.rule_type == RuleType.out_ip then dnat_target r else address r.af r.dst_ip)
      ∷ []
  action_args Action.reject r = "--set-mark" ∷ "255" ∷ []
  action_args Action.snat r = "--to-source" ∷ address r.af r.out_src_ip ∷ []
  action_args _ r = []

  unfoldable pub get_flt_args : Rule → List String
  unfolding src_args proto_args port_args range_args dst_args intf_args action_args target_name
  get_flt_args r =
      src_args r
      ++ proto_args r
      ++ port_args r
      ++ range_args r
      ++ dst_args r
      ++ intf_args r.rule_type r
      ++ ("-j" ∷ target_name r.action ∷ [])
      ++ action_args r.action r
