-- ===== src/VrfTool/Nat.antt =====
-- The rules of iptables for the addresses of a VRF, `ip_svcs_iptable_rule_setup`, and for its veth pair,
-- part of `ip_svcs_subnet_setup`, in scripts/lib/python/dn_base_vrf_tool.py.
pub mod Laws
use Prim.Native.String as Text
use opx_nas_linux.Prelude.{
  ℕ, String, Bool, true, false, Option, none, some, List, [], ◌∷◌, ◌++◌, ◌==◌, ◌&&◌, ◌||◌, not, map,
  lookup, put, remove, eq_string, if◌then◌else◌,
}
use opx_nas_linux.Rule.Incoming.{is_some}
use opx_nas_linux.SnoopCache.Sets.{eq_pair}
use opx_nas_linux.VrfTool.{Host, Vrfs, netns, options, run_all, run_each, veth_name}
use opx_nas_linux.VrfTool.Veth.{Ends, process_veth_config}

module _ (h : Host) where
  open h use {State, run_command}

  -- the parts of an address around the number of the subnet
  abbrev pub ip_of : ℕ → String → String
  ip_of sub_net_val suffix = Text.◌++◌ "127." (Text.◌++◌ (h.str sub_net_val) suffix)

  abbrev pub ip6_of : ℕ → String → String
  ip6_of sub_net_val suffix = Text.◌++◌ "fda5:74c8:b79e:4:" (Text.◌++◌ (h.str sub_net_val) suffix)

  abbrev pub ends_of : ℕ → Ends
  ends_of sub_net_val = record {
    src_ip = ip_of sub_net_val ".100.1";
    dst_ip = ip_of sub_net_val ".100.2";
    src_ip6 = ip6_of sub_net_val "::1";
    dst_ip6 = ip6_of sub_net_val "::2";
  }

  abbrev pub af_text : Bool → String
  af_text is_ip6 = if is_ip6 then "ipv6" else "ipv4"

  -- The loop over the addresses of an interface; after an address of IPv6 the family stays so. False is
  -- the return of False.
  unfoldable pub rule_addresses :
      Bool → String → Bool → List (Bool × String) → Vrfs → State → (Bool × Vrfs) × State
  unfolding lookup put remove is_some
  rule_addresses is_add vrf_name is_ip6 [] s st = ((true, s), st)
  rule_addresses is_add vrf_name is_ip6 ((inet6, ip) ∷ addrs) s st =
      let now_ip6 = is_ip6 || inet6 in
      let key : String × (String × String) = (vrf_name, (af_text now_ip6, ip)) in
      let skipped = rule_addresses is_add vrf_name now_ip6 addrs s st in
      let known = is_some (lookup key s.vrf_ip_service_ip_addr) in
      let s1 = record s {
        vrf_ip_service_ip_addr =
            if is_add
            then put key 1 s.vrf_ip_service_ip_addr
            else remove key s.vrf_ip_service_ip_addr;
      } in
      let (ok, st1) =
        run_command
          (netns vrf_name (
            (if now_ip6 then "ip6tables" else "iptables")
            ∷ "-t"
            ∷ "nat"
            ∷ options is_add
            ∷ "PREROUTING"
            ∷ "-d"
            ∷ ip
            ∷ "-j"
            ∷ "VRF"
            ∷ []))
          st in
      let rest = rule_addresses is_add vrf_name now_ip6 addrs s1 st1 in
      if inet6 && (h.is_internal_ip6 ip || h.is_link_local_ip6 ip)
      then skipped
      else if is_add && known
      then skipped
      else if not is_add && not known
      then skipped
      else if ok
      then rest
      else ((false, s1), st1)

  unfoldable pub rule_interfaces :
      Bool → String → List (List (Bool × String)) → Vrfs → State → (Bool × Vrfs) × State
  unfolding rule_addresses
  rule_interfaces is_add vrf_name [] s st = ((true, s), st)
  rule_interfaces is_add vrf_name (addrs ∷ interfaces) s st =
      let ((ok, s1), st1) = rule_addresses is_add vrf_name false addrs s st in
      let rest = rule_interfaces is_add vrf_name interfaces s1 st1 in
      if ok then rest else ((false, s1), st1)

  -- The rule for link-local addresses may fail.
  unfoldable pub ip_svcs_iptable_rule_setup : String → Bool → Vrfs → State → (Bool × Vrfs) × State
  unfolding rule_interfaces
  ip_svcs_iptable_rule_setup src_vrf_name is_add s st =
      let ((ok, s1), st1) =
        rule_interfaces is_add src_vrf_name (h.addresses src_vrf_name st) s st in
      let (ignored, st2) =
        run_command
          (netns src_vrf_name (
            "ip6tables"
            ∷ "-t"
            ∷ "nat"
            ∷ options is_add
            ∷ "PREROUTING"
            ∷ "-d"
            ∷ "fe80::/10"
            ∷ "-j"
            ∷ "VRF"
            ∷ []))
          st1 in
      if ok then ((true, s1), st2) else ((false, s1), st1)

  -- The rules of the VRF at the end that is not the default one, whose outcome is ignored.
  unfoldable pub setup_rules :
      Bool → (src_vrf_name dst_vrf_name : String) → Vrfs → State → Vrfs × State
  unfolding ip_svcs_iptable_rule_setup
  setup_rules is_add src_vrf_name dst_vrf_name s st =
      let ((done_src, s1), st1) = ip_svcs_iptable_rule_setup src_vrf_name is_add s st in
      let ((done_dst, s2), st2) = ip_svcs_iptable_rule_setup dst_vrf_name is_add s st in
      if not (src_vrf_name == "default") && dst_vrf_name == "default"
      then (s1, st1)
      else if not (dst_vrf_name == "default") && src_vrf_name == "default"
      then (s2, st2)
      else (s, st)

  -- the addresses of the pair that a rule of iptables or ip6tables has: where to, and from where
  abbrev pub rule_dst_ip : String → ℕ → String
  rule_dst_ip iptable sub_net_val =
      if iptable == "ip6tables" then ip6_of sub_net_val "::2" else ip_of sub_net_val ".100.2"

  abbrev pub rule_src_ip : String → ℕ → String
  rule_src_ip iptable sub_net_val =
      if iptable == "ip6tables"
      then Text.◌++◌ "[" (Text.◌++◌ (ip6_of sub_net_val "::1") "]")
      else ip_of sub_net_val ".100.1"

  -- The source NAT to the veth interface, for every protocol with the private ports.
  abbrev pub snat_commands :
      Bool → (src_vrf_name iptable : String) → List String → ℕ → List (List String)
  snat_commands is_add src_vrf_name iptable ip_proto sub_net_val =
      let snat : List String → String → List String = λ proto to_source. netns src_vrf_name (
        (iptable
          ∷ "-t"
          ∷ "nat"
          ∷ options is_add
          ∷ "POSTROUTING"
          ∷ "-o"
          ∷ "vdst-nsid0"
          ∷ "-d"
          ∷ rule_dst_ip iptable sub_net_val
          ∷ [])
        ++ (proto ++ ("-j" ∷ "SNAT" ∷ "--to-source" ∷ to_source ∷ []))) in
      let src_ip = rule_src_ip iptable sub_net_val in
      map (λ proto. snat ("-p" ∷ proto ∷ []) (Text.◌++◌ src_ip ":62000-65000")) ip_proto
      ++ (snat [] src_ip ∷ [])

  -- A deletion flushes the table and deletes its chain, too.
  unfoldable pub unset_nat : String → List String → List String → ℕ → State → Bool × State
  unfolding run_all run_each
  unset_nat src_vrf_name [] ip_proto sub_net_val st = (true, st)
  unset_nat src_vrf_name (iptable ∷ ip_tables) ip_proto sub_net_val st =
      let (ok, st1) =
        run_all h (snat_commands false src_vrf_name iptable ip_proto sub_net_val) st in
      let st2 =
        run_each h
          (netns src_vrf_name (iptable ∷ "-t" ∷ "nat" ∷ "-F" ∷ [])
            ∷ netns src_vrf_name (iptable ∷ "-t" ∷ "nat" ∷ "-X" ∷ "VRF" ∷ [])
            ∷ [])
          st1 in
      let rest = unset_nat src_vrf_name ip_tables ip_proto sub_net_val st2 in
      if ok then rest else (false, st1)

  unfoldable pub set_nat : String → List String → List String → ℕ → State → Bool × State
  unfolding run_all
  set_nat src_vrf_name [] ip_proto sub_net_val st = (true, st)
  set_nat src_vrf_name (iptable ∷ ip_tables) ip_proto sub_net_val st =
      let (ok, st1) = run_all h (snat_commands true src_vrf_name iptable ip_proto sub_net_val) st in
      let rest = set_nat src_vrf_name ip_tables ip_proto sub_net_val st1 in
      if ok then rest else (false, st1)
