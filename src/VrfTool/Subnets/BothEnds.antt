-- ===== src/VrfTool/Subnets/BothEnds.antt =====
-- `_veth_ip_get` gives both ends of a veth pair the same addresses.
use mathlib.Core.Path.{subst}
use opx_nas_linux.Prelude.{
  ℕ, String, Bool, true, false, Option, none, some, List, ◌≡◌, ◌≢◌, refl, sym, ap, ◌∙◌, arith, ◌==◌,
  ◌&&◌, not, lookup, eq_string, Option-cases, inl, inr, if◌then◌else◌,
}
use opx_nas_linux.PrivatePorts.{first_free}
use opx_nas_linux.SnoopCache.Sets.{eq_pair}
use opx_nas_linux.VrfTool.{Host, Vrfs}
use opx_nas_linux.VrfTool.Nat.{setup_rules}
use opx_nas_linux.VrfTool.Nat.Laws.{setup_rules-IsSameVeths}
use opx_nas_linux.VrfTool.Subnets.{
  start_vrf_sub_net_val, sub_net_vals, add_subnet, ip_svcs_subnet_setup, ip_pair, veth_ip_get,
  Reply,
}
use opx_nas_linux.VrfTool.Subnets.Laws.{lookup-put_other}
use opx_nas_linux.VrfTool.Subnets.Setup.{
  add_subnet-lookup, ip_svcs_subnet_setup-add_subnet, veth_ip_get-known, veth_ip_get-reversed,
}

answer_if_made :
    (made : Bool) (x y : String × String)
    → (if made then some x else none) ≡ some y
    → some x ≡ some y
answer_if_made true x y h = h
answer_if_made false x y h = absurd (ground (arith, h))

module _ (h : Host) (ip_tables ip_proto : List String) where
  open h use {State}

  add_subnet-other :
      (src dst : String) (s : Vrfs) (st : State) (key : String × String)
      → (src, dst) ≢ key
      → lookup key (add_subnet h ip_tables ip_proto src dst s st).0.1.vrf_sub_net_map
        ≡ lookup key s.vrf_sub_net_map
  unfolding add_subnet
  add_subnet-other src dst s st key differ =
      elim (Option-cases (lookup (src, dst) s.vrf_sub_net_map)) [
        | inr (val, at) ↦ rw (at, add_subnet) refl
        | inl missing ↦
            elim (Option-cases
              (first_free 100 start_vrf_sub_net_val (sub_net_vals s.vrf_sub_net_map))) [
                | inl full ↦ rw (missing, full, add_subnet) refl
                | inr (val, found) ↦
                    rw (missing, found, add_subnet)
                      (lookup-put_other (src, dst) key val s.vrf_sub_net_map differ)
              ]
      ]

  -- What an addition with a subnet in its answer leaves under the key and under the other keys.
  setup-lookup :
      (src dst : String) (s : Vrfs) (st : State) {val : ℕ} (key : String × String)
      → let made = ip_svcs_subnet_setup h ip_tables ip_proto true src dst s st in
        (src, dst) ≢ key
        → made.0.0.1 ≡ some val
        → (lookup (src, dst) made.0.1.vrf_sub_net_map ≡ some val)
          × (lookup key made.0.1.vrf_sub_net_map ≡ lookup key s.vrf_sub_net_map)
  unfolding ip_svcs_subnet_setup
  setup-lookup src dst s st {val} key differ taken =
      let ruled = setup_rules h true src dst s st in
      let same = (setup_rules-IsSameVeths h true src dst s st).0 in
      elim (Option-cases (lookup src s.vrf_name_to_id)) [
        | inl missing ↦
            let refused : none ≡ some val = rw (missing, ip_svcs_subnet_setup) at taken in
            absurd (ground (arith, refused))
        | inr (id, at) ↦
            let is_made = ip_svcs_subnet_setup-add_subnet h ip_tables ip_proto src dst s st at in
            let added =
              add_subnet-lookup h ip_tables ip_proto src dst ruled.0 ruled.1
                (ap (λ r. r.0.0.1) (sym is_made) ∙ taken) in
            (
              ap (λ r. lookup (src, dst) r.0.1.vrf_sub_net_map) is_made ∙ added.0,
              ap (λ r. lookup key r.0.1.vrf_sub_net_map) is_made
                  ∙ add_subnet-other src dst ruled.0 ruled.1 key differ
                  ∙ ap (lookup key) same,
            )
      ]

  -- A pair that has to be made first.
  veth_ip_get-made :
      (src dst : String) (is_peer_ip : Bool) (s : Vrfs) (st : State) {val : ℕ}
      → let made = ip_svcs_subnet_setup h ip_tables ip_proto true src dst s st in
        (src == "default" && dst == "default") ≡ false
        → lookup (src, dst) s.vrf_sub_net_map ≡ none
        → lookup (dst, src) s.vrf_sub_net_map ≡ none
        → made.0.0.1 ≡ some val
        → veth_ip_get h ip_tables ip_proto src dst is_peer_ip s st ≡ (
          (
            if made.0.0.0 then some (ip_pair h ip_tables ip_proto (not is_peer_ip) val) else none,
            made.0.1,
          ),
          made.1,
        )
  unfolding veth_ip_get
  veth_ip_get-made src dst is_peer_ip s st other missing missing' taken =
      rw (other, missing, missing', taken, veth_ip_get) refl

  veth_ip_get-unmade :
      (src dst : String) (is_peer_ip : Bool) (s : Vrfs) (st : State)
      → let made = ip_svcs_subnet_setup h ip_tables ip_proto true src dst s st in
        (src == "default" && dst == "default") ≡ false
        → lookup (src, dst) s.vrf_sub_net_map ≡ none
        → lookup (dst, src) s.vrf_sub_net_map ≡ none
        → made.0.0.1 ≡ none
        → (veth_ip_get h ip_tables ip_proto src dst is_peer_ip s st).0.0 ≡ none
  unfolding veth_ip_get
  veth_ip_get-unmade src dst is_peer_ip s st other missing missing' full =
      rw (other, missing, missing', full, veth_ip_get) refl

  -- The answer for the other end, after an answer that left the subnet under its key.
  veth_ip_get-after :
      (src dst : String) (is_peer_ip : Bool) (s : Vrfs) (st : State) {val : ℕ}
      {ends : String × String} (got : Reply (Option (String × String)) State)
      → (dst == "default" && src == "default") ≡ false
      → veth_ip_get h ip_tables ip_proto src dst is_peer_ip s st ≡ got
      → lookup (dst, src) got.0.1.vrf_sub_net_map ≡ none
      → lookup (src, dst) got.0.1.vrf_sub_net_map ≡ some val
      → some (ip_pair h ip_tables ip_proto (not is_peer_ip) val) ≡ some ends
      → let first = veth_ip_get h ip_tables ip_proto src dst is_peer_ip s st in
        (veth_ip_get h ip_tables ip_proto dst src (not is_peer_ip) first.0.1 first.1).0.0
        ≡ some ends
  veth_ip_get-after src dst is_peer_ip s st {val} {ends} got back is_got missing at same =
      subst
        (λ g. (veth_ip_get h ip_tables ip_proto dst src (not is_peer_ip) g.0.1 g.1).0.0 ≡ some ends)
        (sym is_got)
        (ap (λ g. g.0.0)
            (veth_ip_get-reversed h ip_tables ip_proto dst src (not is_peer_ip) got.0.1 got.1 back
              missing at)
          ∙ same)

  -- The pair of addresses that a VRF is given for one end of its veth pair to another VRF, which is made
  -- if it is not there, is what the other VRF is given for that end of it afterwards: its own end is the
  -- peer of the other. There is no pair that was made the other way round before.
  pub veth_ip_get_both :
      (src dst : String) (is_peer_ip : Bool) (s : Vrfs) (st : State) (ends : String × String)
      → let got = veth_ip_get h ip_tables ip_proto src dst is_peer_ip s st in
        src ≢ dst
        → lookup (dst, src) s.vrf_sub_net_map ≡ none
        → got.0.0 ≡ some ends
        → (veth_ip_get h ip_tables ip_proto dst src (not is_peer_ip) got.0.1 got.1).0.0 ≡ some ends
  veth_ip_get_both src dst is_peer_ip s st ends differ missing' answer =
      let other : (src == "default" && dst == "default") ≡ false =
        ground
          (arith, differ, eq_string.same_iff src "default", eq_string.same_iff dst "default") in
      let back : (dst == "default" && src == "default") ≡ false = ground (arith, other) in
      let keys : (src, dst) ≢ (dst, src) = λ e. differ (ap (λ k. k.0) e) in
      elim (Option-cases (lookup (src, dst) s.vrf_sub_net_map)) [
        | inr (val, at) ↦
            let got = veth_ip_get-known h ip_tables ip_proto src dst is_peer_ip s st other at in
            veth_ip_get-after src dst is_peer_ip s st _ back got missing' at
              (ap (λ g. g.0.0) (sym got) ∙ answer)
        | inl missing ↦
            let made = ip_svcs_subnet_setup h ip_tables ip_proto true src dst s st in
            elim (Option-cases made.0.0.1) [
              | inl full ↦
                  let refused =
                    veth_ip_get-unmade src dst is_peer_ip s st other missing missing' full in
                  absurd (ground (arith, refused, answer))
              | inr (val, taken) ↦
                  let got = veth_ip_get-made src dst is_peer_ip s st other missing missing' taken in
                  let left = setup-lookup src dst s st (dst, src) keys taken in
                  veth_ip_get-after src dst is_peer_ip s st _ back got (left.1 ∙ missing') left.0
                    (answer_if_made made.0.0.0 _ ends (ap (λ g. g.0.0) (sym got) ∙ answer))
            ]
      ]
