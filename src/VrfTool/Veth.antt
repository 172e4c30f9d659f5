-- ===== src/VrfTool/Veth.antt =====
-- `process_veth_config`, `process_vrf_top_chain_rule` and `process_vrf_ip_nat_config` of
-- scripts/lib/python/dn_base_vrf_tool.py.
use Prim.Native.String as Text
use opx_nas_linux.Prelude.{
  String, Bool, true, false, Option, none, some, List, [], ◌∷◌, ◌++◌, ◌==◌, ◌&&◌, not, lookup,
  eq_string, if◌then◌else◌,
}
use opx_nas_linux.VrfTool.{Host, Vrfs, netns, options, run_all, veth_name}

-- The addresses of a veth pair, with the lengths of their prefixes.
pub record Ends : Type 0 where
  pub src_ip : String
  pub dst_ip : String
  pub src_ip6 : String
  pub dst_ip6 : String

abbrev pub slash : String → String → String
slash ip len = Text.◌++◌ ip (Text.◌++◌ "/" len)

abbrev pub localnet : String → String
localnet if_name = Text.◌++◌ "net.ipv4.conf." (Text.◌++◌ if_name ".route_localnet=1")

module _ (h : Host) where
  open h use {State, run_command}

  -- the commands of an addition: the pair, its ends in their VRFs, up, with addresses
  abbrev pub veth_commands :
      (src_vrf_name dst_vrf_name src_if dst_if : String) → Ends → List (List String)
  veth_commands src_vrf_name dst_vrf_name src_if dst_if e =
      netns src_vrf_name
        ("ip" ∷ "link" ∷ "add" ∷ "name" ∷ src_if ∷ "type" ∷ "veth" ∷ "peer" ∷ "name" ∷ dst_if ∷ [])
      ∷ netns src_vrf_name ("ip" ∷ "link" ∷ "set" ∷ src_if ∷ "up" ∷ [])
      ∷ netns src_vrf_name ("ip" ∷ "link" ∷ "set" ∷ "dev" ∷ dst_if ∷ "netns" ∷ dst_vrf_name ∷ [])
      ∷ netns dst_vrf_name ("ip" ∷ "link" ∷ "set" ∷ dst_if ∷ "up" ∷ [])
      ∷ netns src_vrf_name ("ip" ∷ "address" ∷ "add" ∷ slash e.src_ip "24" ∷ "dev" ∷ src_if ∷ [])
      ∷ netns dst_vrf_name ("ip" ∷ "address" ∷ "add" ∷ slash e.dst_ip "24" ∷ "dev" ∷ dst_if ∷ [])
      ∷ netns src_vrf_name ("ip" ∷ "address" ∷ "add" ∷ slash e.src_ip6 "80" ∷ "dev" ∷ src_if ∷ [])
      ∷ netns dst_vrf_name ("ip" ∷ "address" ∷ "add" ∷ slash e.dst_ip6 "80" ∷ "dev" ∷ dst_if ∷ [])
      ∷ netns src_vrf_name ("sysctl" ∷ "-w" ∷ localnet src_if ∷ [])
      ∷ netns dst_vrf_name ("sysctl" ∷ "-w" ∷ localnet dst_if ∷ [])
      ∷ []

  -- A deletion tries the interface under one name, then under the other.
  unfoldable pub delete_veth : (src_vrf_name src_if dst_if : String) → State → Bool × State
  delete_veth src_vrf_name src_if dst_if st =
      let (first, st1) =
        run_command (netns src_vrf_name ("ip" ∷ "link" ∷ "delete" ∷ "dev" ∷ src_if ∷ [])) st in
      let second =
        run_command (netns src_vrf_name ("ip" ∷ "link" ∷ "delete" ∷ "dev" ∷ dst_if ∷ [])) st1 in
      if first then (true, st1) else second

  -- `none` in place of the addresses is a deletion.
  unfoldable pub process_veth_config :
      (src_vrf_name dst_vrf_name : String) → Option Ends → Vrfs → State → Bool × State
  unfolding lookup delete_veth run_all
  process_veth_config src_vrf_name dst_vrf_name ends s st =
      elim (lookup src_vrf_name s.vrf_name_to_id) [
        | none ↦ (false, st)
        | some src_vrf_id ↦ elim (lookup dst_vrf_name s.vrf_name_to_id) [
          | none ↦ (false, st)
          | some dst_vrf_id ↦
              let src_if = veth_name h dst_vrf_id in
              let dst_if = veth_name h src_vrf_id in
              elim ends [
                | none ↦ delete_veth src_vrf_name src_if dst_if st
                | some e ↦ run_all h (veth_commands src_vrf_name dst_vrf_name src_if dst_if e) st
              ]
        ]
      ]

  unfoldable pub process_default_vrf_chain : Bool → State → Bool × State
  unfolding run_all
  process_default_vrf_chain is_add st =
      let ipt_action = if is_add then "-N" else "-X" in
      run_all h
        (("iptables" ∷ "-t" ∷ "raw" ∷ ipt_action ∷ "VRF" ∷ [])
          ∷ ("ip6tables" ∷ "-t" ∷ "raw" ∷ ipt_action ∷ "VRF" ∷ [])
          ∷ [])
        st

  -- the commands of one of iptables and ip6tables; the FORWARD chain only outside the default VRF
  abbrev pub top_chain_commands : Bool → (vrf_name iptable : String) → List (List String)
  top_chain_commands is_add vrf_name iptable =
      let within : List String → List String =
        λ cmd. if vrf_name == "default" then cmd else netns vrf_name cmd in
      let reject : String → List String = λ chain. within (
        iptable
        ∷ options is_add
        ∷ chain
        ∷ "-m"
        ∷ "mark"
        ∷ "--mark"
        ∷ "255"
        ∷ "-j"
        ∷ "REJECT"
        ∷ []) in
      within (
        iptable
        ∷ "-t"
        ∷ "raw"
        ∷ options is_add
        ∷ "PREROUTING"
        ∷ "!"
        ∷ "-i"
        ∷ "lo"
        ∷ "-j"
        ∷ "VRF"
        ∷ [])
      ∷ reject "INPUT"
      ∷ (if vrf_name == "default" then [] else reject "FORWARD" ∷ [])

  unfoldable pub process_vrf_top_chain_rule : Bool → String → State → Bool × State
  unfolding process_default_vrf_chain run_all
  process_vrf_top_chain_rule is_add vrf_name st =
      let (created, st1) =
        (if is_add && vrf_name == "default"
          then process_default_vrf_chain true st
          else (true, st)) in
      let (done, st2) =
        run_all h
          (top_chain_commands is_add vrf_name "iptables"
            ++ top_chain_commands is_add vrf_name "ip6tables")
          st1 in
      let st3 =
        if not is_add && vrf_name == "default"
        then (process_default_vrf_chain false st2).1
        else st2 in
      if not created then (false, st1) else if not done then (false, st2) else (true, st3)

  -- The traffic of the internal addresses is masked on the interface.
  unfoldable pub process_vrf_ip_nat_config :
      Bool → (vrf_name if_name iptables : String) → Vrfs → State → Bool × State
  unfolding lookup
  process_vrf_ip_nat_config is_add vrf_name if_name iptables s st =
      let private_ip_src =
        if iptables == "iptables" then "127.0.0.0/8" else "fda5:74c8:b79e:4::/64" in
      elim (lookup vrf_name s.vrf_name_to_id) [
        | none ↦ (false, st)
        | some vrf_id ↦
            run_command
              (netns vrf_name (
                iptables
                ∷ "-t"
                ∷ "nat"
                ∷ options is_add
                ∷ "POSTROUTING"
                ∷ "-s"
                ∷ private_ip_src
                ∷ "-o"
                ∷ if_name
                ∷ "-j"
                ∷ "MASQUERADE"
                ∷ []))
              st
      ]
