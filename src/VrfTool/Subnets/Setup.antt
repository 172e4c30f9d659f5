-- ===== src/VrfTool/Subnets/Setup.antt =====
-- `ip_svcs_subnet_setup` and `_veth_ip_get`: the subnets stay valid, both ends of a pair are given the
-- same addresses, and an addition that failed is not repeated.
use mathlib.Core.Path.{subst}
use opx_nas_linux.Prelude.{
  ℕ, String, Bool, true, false, none, some, List, ◌≡◌, refl, sym, ap, ◌∙◌, arith, ◌==◌, ◌&&◌, not,
  lookup, eq_string, Bool-cases, Option-cases, inl, inr,
}
use opx_nas_linux.PrivatePorts.{first_free}
use opx_nas_linux.SnoopCache.Sets.{eq_pair}
use opx_nas_linux.VrfTool.{Host, Vrfs}
use opx_nas_linux.VrfTool.Veth.{process_veth_config}
use opx_nas_linux.VrfTool.Nat.{setup_rules}
use opx_nas_linux.VrfTool.Nat.Laws.{setup_rules-IsSameVeths}
use opx_nas_linux.VrfTool.Subnets.{
  start_vrf_sub_net_val, sub_net_vals, needs_nat, delete_subnet, add_subnet, ip_svcs_subnet_setup,
  ip_pair, veth_ip_get,
}
use opx_nas_linux.VrfTool.Subnets.Laws.{IsValid, put-IsValid, remove-IsValid, lookup-put_same}

module _ (h : Host) (ip_tables ip_proto : List String) where
  open h use {State}

  delete_subnet-IsValid :
      (src dst : String) (s : Vrfs) (st : State)
      → IsValid s.vrf_sub_net_map
      → IsValid (delete_subnet h ip_tables ip_proto src dst s st).0.1.vrf_sub_net_map
  unfolding delete_subnet
  delete_subnet-IsValid src dst s st valid =
      elim (Option-cases (lookup (src, dst) s.vrf_sub_net_map)) [
        | inl missing ↦ rw (missing, delete_subnet) valid
        | inr (val, at) ↦ elim (Bool-cases (process_veth_config h src dst none s st).0) [
          | inl done ↦ elim (Bool-cases (needs_nat src dst)) [
            | inl nat ↦
                rw (at, done, nat, delete_subnet)
                  (remove-IsValid (src, dst) s.vrf_sub_net_map valid)
            | inr plain ↦
                rw (at, done, plain, delete_subnet)
                  (remove-IsValid (src, dst) s.vrf_sub_net_map valid)
          ]
          | inr failed ↦ rw (at, failed, delete_subnet) valid
        ]
      ]

  add_subnet-IsValid :
      (src dst : String) (s : Vrfs) (st : State)
      → IsValid s.vrf_sub_net_map
      → IsValid (add_subnet h ip_tables ip_proto src dst s st).0.1.vrf_sub_net_map
  unfolding add_subnet
  add_subnet-IsValid src dst s st valid =
      elim (Option-cases (lookup (src, dst) s.vrf_sub_net_map)) [
        | inr (val, at) ↦ rw (at, add_subnet) valid
        | inl missing ↦
            elim (Option-cases
              (first_free 100 start_vrf_sub_net_val (sub_net_vals s.vrf_sub_net_map))) [
                | inl full ↦ rw (missing, full, add_subnet) valid
                | inr (val, found) ↦
                    rw (missing, found, add_subnet)
                      (put-IsValid (src, dst) s.vrf_sub_net_map val valid found)
              ]
      ]

  -- Setting up or deleting the veth pair of any VRFs, with whatever outcome of the commands, keeps the
  -- subnets of the pairs from 100 to 199 and different from each other.
  pub ip_svcs_subnet_setup-IsValid :
      (is_add : Bool) (src dst : String) (s : Vrfs) (st : State)
      → IsValid s.vrf_sub_net_map
      → IsValid (ip_svcs_subnet_setup h ip_tables ip_proto is_add src dst s st).0.1.vrf_sub_net_map
  unfolding ip_svcs_subnet_setup
  ip_svcs_subnet_setup-IsValid true src dst s st valid =
      let ruled = setup_rules h true src dst s st in
      elim (Option-cases (lookup src s.vrf_name_to_id)) [
        | inl missing ↦ rw (missing, ip_svcs_subnet_setup) valid
        | inr (id, at) ↦
            rw (at, ip_svcs_subnet_setup)
              (add_subnet-IsValid src dst ruled.0 ruled.1
                (subst IsValid (sym (setup_rules-IsSameVeths h true src dst s st).0) valid))
      ]
  ip_svcs_subnet_setup-IsValid false src dst s st valid =
      let ruled = setup_rules h false src dst s st in
      elim (Option-cases (lookup src s.vrf_name_to_id)) [
        | inl missing ↦ rw (missing, ip_svcs_subnet_setup) valid
        | inr (id, at) ↦
            rw (at, ip_svcs_subnet_setup)
              (delete_subnet-IsValid src dst ruled.0 ruled.1
                (subst IsValid (sym (setup_rules-IsSameVeths h false src dst s st).0) valid))
      ]

  -- An addition whose answer has a subnet has put it into the map, and kept the ids of the VRFs.
  pub add_subnet-lookup :
      (src dst : String) (s : Vrfs) (st : State) {val : ℕ}
      → (add_subnet h ip_tables ip_proto src dst s st).0.0.1 ≡ some val
      → let s1 = (add_subnet h ip_tables ip_proto src dst s st).0.1 in
        (lookup (src, dst) s1.vrf_sub_net_map ≡ some val) × (s1.vrf_name_to_id ≡ s.vrf_name_to_id)
  unfolding add_subnet
  add_subnet-lookup src dst s st {val} h0 =
      elim (Option-cases (lookup (src, dst) s.vrf_sub_net_map)) [
        | inr (v, at) ↦
            let same : some v ≡ some val = rw (at, add_subnet) at h0 in
            rw (at, add_subnet) (at ∙ same, refl)
        | inl missing ↦
            elim (Option-cases
              (first_free 100 start_vrf_sub_net_val (sub_net_vals s.vrf_sub_net_map))) [
                | inl full ↦
                    let refused : none ≡ some val = rw (missing, full, add_subnet) at h0 in
                    ground (arith, refused)
                | inr (v, found) ↦
                    let same : some v ≡ some val = rw (missing, found, add_subnet) at h0 in
                    rw (missing, found, add_subnet)
                      (lookup-put_same (src, dst) v s.vrf_sub_net_map ∙ same, refl)
              ]
      ]

  add_subnet-known :
      (src dst : String) (s : Vrfs) (st : State) {val : ℕ}
      → lookup (src, dst) s.vrf_sub_net_map ≡ some val
      → add_subnet h ip_tables ip_proto src dst s st ≡ (((true, some val), s), st)
  unfolding add_subnet
  add_subnet-known src dst s st at = rw (at, add_subnet) refl

  -- For a VRF that there is, an addition is the rules and then the subnet.
  pub ip_svcs_subnet_setup-add_subnet :
      (src dst : String) (s : Vrfs) (st : State) {id : ℕ}
      → lookup src s.vrf_name_to_id ≡ some id
      → let ruled = setup_rules h true src dst s st in
        ip_svcs_subnet_setup h ip_tables ip_proto true src dst s st
        ≡ add_subnet h ip_tables ip_proto src dst ruled.0 ruled.1
  unfolding ip_svcs_subnet_setup
  ip_svcs_subnet_setup-add_subnet src dst s st at = rw (at, ip_svcs_subnet_setup) refl

  -- An addition that took a subnet answers True with it the next time, also when it answered False the
  -- first time because a command failed; the second addition does no more than `setup_rules`, the rules
  -- for the addresses of the two VRFs, so it runs no command for the veth pair.
  pub ip_svcs_subnet_setup_again :
      (src dst : String) (s : Vrfs) (st : State) (val : ℕ)
      → let first = ip_svcs_subnet_setup h ip_tables ip_proto true src dst s st in
        first.0.0.1 ≡ some val
        → let ruled = setup_rules h true src dst first.0.1 first.1 in
          ip_svcs_subnet_setup h ip_tables ip_proto true src dst first.0.1 first.1
          ≡ (((true, some val), ruled.0), ruled.1)
  unfolding ip_svcs_subnet_setup
  ip_svcs_subnet_setup_again src dst s st val h0 =
      let ruled = setup_rules h true src dst s st in
      let same = setup_rules-IsSameVeths h true src dst s st in
      elim (Option-cases (lookup src s.vrf_name_to_id)) [
        | inl missing ↦
            let refused : none ≡ some val = rw (missing, ip_svcs_subnet_setup) at h0 in
            ground (arith, refused)
        | inr (id, at) ↦
            let first = add_subnet h ip_tables ip_proto src dst ruled.0 ruled.1 in
            let is_first = ip_svcs_subnet_setup-add_subnet src dst s st at in
            let kept =
              add_subnet-lookup src dst ruled.0 ruled.1 (ap (λ r. r.0.0.1) (sym is_first) ∙ h0) in
            let again = setup_rules h true src dst first.0.1 first.1 in
            let same1 = setup_rules-IsSameVeths h true src dst first.0.1 first.1 in
            let at1 = ap (lookup src) (kept.1 ∙ same.1) ∙ at in
            subst
              (λ f. ip_svcs_subnet_setup h ip_tables ip_proto true src dst f.0.1 f.1 ≡ (
                ((true, some val), (setup_rules h true src dst f.0.1 f.1).0),
                (setup_rules h true src dst f.0.1 f.1).1,
              ))
              (sym is_first)
              (ip_svcs_subnet_setup-add_subnet src dst first.0.1 first.1 at1
                ∙ add_subnet-known src dst again.0 again.1
                    (ap (lookup (src, dst)) same1.0 ∙ kept.0))
      ]

  pub veth_ip_get-known :
      (src dst : String) (is_peer_ip : Bool) (s : Vrfs) (st : State) {val : ℕ}
      → (src == "default" && dst == "default") ≡ false
      → lookup (src, dst) s.vrf_sub_net_map ≡ some val
      → veth_ip_get h ip_tables ip_proto src dst is_peer_ip s st
        ≡ ((some (ip_pair h ip_tables ip_proto (not is_peer_ip) val), s), st)
  unfolding veth_ip_get
  veth_ip_get-known src dst is_peer_ip s st other at = rw (other, at, veth_ip_get) refl

  pub veth_ip_get-reversed :
      (src dst : String) (is_peer_ip : Bool) (s : Vrfs) (st : State) {val : ℕ}
      → (src == "default" && dst == "default") ≡ false
      → lookup (src, dst) s.vrf_sub_net_map ≡ none
      → lookup (dst, src) s.vrf_sub_net_map ≡ some val
      → veth_ip_get h ip_tables ip_proto src dst is_peer_ip s st
        ≡ ((some (ip_pair h ip_tables ip_proto is_peer_ip val), s), st)
  unfolding veth_ip_get
  veth_ip_get-reversed src dst is_peer_ip s st other missing at =
      rw (other, missing, at, veth_ip_get) refl
