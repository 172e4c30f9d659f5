-- ===== src/VrfTool/Nat/Laws.antt =====
-- The rules for addresses leave the subnets and the ids of the VRFs as they are.
use opx_nas_linux.Prelude.{
  String, Bool, false, List, [], ◌∷◌, ◌≡◌, refl, arith, ◌||◌, put, remove, eq_string, if◌then◌else◌,
}
use opx_nas_linux.SnoopCache.Sets.{eq_pair}
use opx_nas_linux.VrfTool.{Host, Vrfs, netns, options}
use opx_nas_linux.VrfTool.Nat.{
  af_text, rule_addresses, rule_interfaces, ip_svcs_iptable_rule_setup, setup_rules,
}

-- What the rules of addresses leave as it is.
abbrev pub IsSameVeths : Vrfs → Vrfs → Type 0
IsSameVeths s t = (t.vrf_sub_net_map ≡ s.vrf_sub_net_map) × (t.vrf_name_to_id ≡ s.vrf_name_to_id)

module _ (h : Host) where
  open h use {State, run_command}

  rule_addresses-IsSameVeths :
      (is_add : Bool) (vrf_name : String) (is_ip6 : Bool) (addrs : List (Bool × String)) (s : Vrfs)
      (st : State)
      → IsSameVeths s (rule_addresses h is_add vrf_name is_ip6 addrs s st).0.1
  unfolding rule_addresses
  rule_addresses-IsSameVeths is_add vrf_name is_ip6 [] s st = (refl, refl)
  rule_addresses-IsSameVeths is_add vrf_name is_ip6 ((inet6, ip) ∷ addrs) s st =
      let same = rule_addresses-IsSameVeths is_add vrf_name (is_ip6 || inet6) addrs in
      let now_ip6 = is_ip6 || inet6 in
      let key : String × (String × String) = (vrf_name, (af_text h now_ip6, ip)) in
      let s1 = record s {
        vrf_ip_service_ip_addr =
            if is_add
            then put key 1 s.vrf_ip_service_ip_addr
            else remove key s.vrf_ip_service_ip_addr;
      } in
      let (ok, st1) =
        run_command
          (netns vrf_name (
            (if now_ip6 then "ip6tables" else "iptables")
            ∷ "-t"
            ∷ "nat"
            ∷ options is_add
            ∷ "PREROUTING"
            ∷ "-d"
            ∷ ip
            ∷ "-j"
            ∷ "VRF"
            ∷ []))
          st in
      ground (arith, same s st, same s1 st1)

  rule_interfaces-IsSameVeths :
      (is_add : Bool) (vrf_name : String) (interfaces : List (List (Bool × String))) (s : Vrfs)
      (st : State)
      → IsSameVeths s (rule_interfaces h is_add vrf_name interfaces s st).0.1
  unfolding rule_interfaces
  rule_interfaces-IsSameVeths is_add vrf_name [] s st = (refl, refl)
  rule_interfaces-IsSameVeths is_add vrf_name (addrs ∷ interfaces) s st =
      let first = rule_addresses h is_add vrf_name false addrs s st in
      ground (
        arith,
        rule_addresses-IsSameVeths is_add vrf_name false addrs s st,
        rule_interfaces-IsSameVeths is_add vrf_name interfaces first.0.1 first.1,
      )

  ip_svcs_iptable_rule_setup-IsSameVeths :
      (vrf_name : String) (is_add : Bool) (s : Vrfs) (st : State)
      → IsSameVeths s (ip_svcs_iptable_rule_setup h vrf_name is_add s st).0.1
  unfolding ip_svcs_iptable_rule_setup
  ip_svcs_iptable_rule_setup-IsSameVeths vrf_name is_add s st =
      ground (arith, rule_interfaces-IsSameVeths is_add vrf_name (h.addresses vrf_name st) s st)

  pub setup_rules-IsSameVeths :
      (is_add : Bool) (src_vrf_name dst_vrf_name : String) (s : Vrfs) (st : State)
      → IsSameVeths s (setup_rules h is_add src_vrf_name dst_vrf_name s st).0
  unfolding setup_rules
  setup_rules-IsSameVeths is_add src_vrf_name dst_vrf_name s st = ground (
    arith,
    ip_svcs_iptable_rule_setup-IsSameVeths src_vrf_name is_add s st,
    ip_svcs_iptable_rule_setup-IsSameVeths dst_vrf_name is_add s st,
  )
