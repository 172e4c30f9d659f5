-- ===== src/VrfTool/Namespaces/Laws.antt =====
-- Deleting a VRF leaves no subnet that names it.
use opx_nas_linux.Prelude.{
  ℕ, String, Bool, true, false, none, List, [], ◌∷◌, ◌≡◌, ◌⊎◌, refl, sym, ap, ◌∙◌, arith, ◌==◌,
  ◌||◌, lookup, remove, lookup-remove, eq_string, Bool-cases, Option-cases, inl, inr, HasEq,
  same_refl,
}
use opx_nas_linux.SnoopCache.Sets.{eq_pair, pair_iff}
use opx_nas_linux.VrfTool.{Host, Vrfs}
use opx_nas_linux.VrfTool.Veth.{process_veth_config, process_vrf_top_chain_rule}
use opx_nas_linux.VrfTool.Nat.{setup_rules}
use opx_nas_linux.VrfTool.Nat.Laws.{setup_rules-IsSameVeths}
use opx_nas_linux.VrfTool.Subnets.{delete_subnet, ip_svcs_subnet_setup, needs_nat}
use opx_nas_linux.VrfTool.Namespaces.{
  has_vrf, keys_of, delete_subnets, drop_default, delete_vrf, process_vrf_config, with_ids,
}

module _ {K : Type 0} ⦃e : HasEq K⦄ where
  lookup-remove_absent :
      (key other : K) (m : List (K × ℕ)) → lookup key m ≡ none → lookup key (remove other m) ≡ none
  lookup-remove_absent key other m absent = ground (arith, lookup-remove other key m, absent)

  lookup-remove_same : (key : K) (m : List (K × ℕ)) → lookup key (remove key m) ≡ none
  lookup-remove_same key m = ground (arith, lookup-remove key key m, same_refl key)

  abbrev is_key : K → List K → Bool
  is_key key [] = false
  is_key key (k ∷ keys) = k == key || is_key key keys

  tail_key :
      (k key : K) (keys : List K)
      → is_key key (k ∷ keys) ≡ true
      → (k == key) ≡ false
      → is_key key keys ≡ true
  tail_key k key keys there other = ground (arith, there, other)

-- A key that names the VRF is not in the map, or is one of those the loop goes over.
keys_of-is_key :
    (vrf_name : String) (m : List ((String × String) × ℕ)) (key : String × String)
    → has_vrf vrf_name key ≡ true
    → (lookup key m ≡ none) ⊎ (is_key key (keys_of vrf_name m) ≡ true)
unfolding lookup
keys_of-is_key vrf_name [] key names = inl refl
keys_of-is_key vrf_name ((k, val) ∷ m) key names = elim (Bool-cases (k == key)) [
  | inl same ↦
      let named = ap (has_vrf vrf_name) ((pair_iff k key).0 same) ∙ names in
      inr (ground (arith, same, named))
  | inr other ↦ elim (keys_of-is_key vrf_name m key names) [
    | inl absent ↦ inl (rw (other, lookup) absent)
    | inr there ↦ inr (ground (arith, there))
  ]
]

refuted : false ≡ true → ⊥
refuted h = ground (arith, h)

module _ (h : Host) (ip_tables ip_proto : List String) where
  open h use {State}

  -- What a deletion does to the map of subnets, whatever it answers.
  delete_subnet-absent :
      (src dst : String) (s : Vrfs) (st : State) (key : String × String)
      → lookup key s.vrf_sub_net_map ≡ none
      → lookup key (delete_subnet h ip_tables ip_proto src dst s st).0.1.vrf_sub_net_map ≡ none
  unfolding delete_subnet
  delete_subnet-absent src dst s st key absent =
      elim (Option-cases (lookup (src, dst) s.vrf_sub_net_map)) [
        | inl missing ↦ rw (missing, delete_subnet) absent
        | inr (val, at) ↦
            let gone = lookup-remove_absent key (src, dst) s.vrf_sub_net_map absent in
            elim (Bool-cases (process_veth_config h src dst none s st).0) [
              | inr failed ↦ rw (at, failed, delete_subnet) absent
              | inl done ↦ elim (Bool-cases (needs_nat src dst)) [
                | inl nat ↦ rw (at, done, nat, delete_subnet) gone
                | inr plain ↦ rw (at, done, plain, delete_subnet) gone
              ]
            ]
      ]

  delete_subnet-deleted :
      (src dst : String) (s : Vrfs) (st : State)
      → (delete_subnet h ip_tables ip_proto src dst s st).0.0.0 ≡ true
      → lookup (src, dst) (delete_subnet h ip_tables ip_proto src dst s st).0.1.vrf_sub_net_map
        ≡ none
  unfolding delete_subnet
  delete_subnet-deleted src dst s st answer =
      elim (Option-cases (lookup (src, dst) s.vrf_sub_net_map)) [
        | inl missing ↦ rw (missing, delete_subnet) missing
        | inr (val, at) ↦
            let gone = lookup-remove_same (src, dst) s.vrf_sub_net_map in
            elim (Bool-cases (process_veth_config h src dst none s st).0) [
              | inr failed ↦
                  let refused : false ≡ true = rw (at, failed, delete_subnet) at answer in
                  absurd (ground (arith, refused))
              | inl done ↦ elim (Bool-cases (needs_nat src dst)) [
                | inl nat ↦ rw (at, done, nat, delete_subnet) gone
                | inr plain ↦ rw (at, done, plain, delete_subnet) gone
              ]
            ]
      ]

  -- The deletion of a subnet after the rules of the addresses; `key` is not there afterwards if it was not
  -- before, or is the subnet's own and the answer is True.
  setup-absent :
      (src dst : String) (s : Vrfs) (st : State) (key : String × String)
      → lookup key s.vrf_sub_net_map ≡ none
      → lookup key
          (ip_svcs_subnet_setup h ip_tables ip_proto false src dst s st).0.1.vrf_sub_net_map
        ≡ none
  unfolding ip_svcs_subnet_setup
  setup-absent src dst s st key absent =
      let ruled = setup_rules h false src dst s st in
      elim (Option-cases (lookup src s.vrf_name_to_id)) [
        | inl missing ↦ rw (missing, ip_svcs_subnet_setup) absent
        | inr (id, at) ↦
            rw (at, ip_svcs_subnet_setup)
              (delete_subnet-absent src dst ruled.0 ruled.1 key
                (ap (lookup key) (setup_rules-IsSameVeths h false src dst s st).0 ∙ absent))
      ]

  setup-deleted :
      (src dst : String) (s : Vrfs) (st : State)
      → (ip_svcs_subnet_setup h ip_tables ip_proto false src dst s st).0.0.0 ≡ true
      → lookup
          (src, dst)
          (ip_svcs_subnet_setup h ip_tables ip_proto false src dst s st).0.1.vrf_sub_net_map
        ≡ none
  unfolding ip_svcs_subnet_setup
  setup-deleted src dst s st answer =
      let ruled = setup_rules h false src dst s st in
      elim (Option-cases (lookup src s.vrf_name_to_id)) [
        | inl missing ↦
            let refused : false ≡ true = rw (missing, ip_svcs_subnet_setup) at answer in
            absurd (ground (arith, refused))
        | inr (id, at) ↦
            rw (at, ip_svcs_subnet_setup)
              (delete_subnet-deleted src dst ruled.0 ruled.1
                (rw (at, ip_svcs_subnet_setup) at answer))
      ]

  delete_subnets-absent :
      (keys : List (String × String)) (s : Vrfs) (st : State) (key : String × String)
      → lookup key s.vrf_sub_net_map ≡ none
      → lookup key (delete_subnets h ip_tables ip_proto keys s st).0.1.vrf_sub_net_map ≡ none
  unfolding delete_subnets
  delete_subnets-absent [] s st key absent = absent
  delete_subnets-absent ((src, dst) ∷ keys) s st key absent =
      let first = ip_svcs_subnet_setup h ip_tables ip_proto false src dst s st in
      let gone = setup-absent src dst s st key absent in
      elim (Bool-cases first.0.0.0) [
        | inl done ↦
            rw (done, delete_subnets) (delete_subnets-absent keys first.0.1 first.1 key gone)
        | inr failed ↦ rw (failed, delete_subnets) gone
      ]

  delete_subnets-deleted :
      (keys : List (String × String)) (s : Vrfs) (st : State) (key : String × String)
      → is_key key keys ≡ true
      → (delete_subnets h ip_tables ip_proto keys s st).0.0 ≡ true
      → lookup key (delete_subnets h ip_tables ip_proto keys s st).0.1.vrf_sub_net_map ≡ none
  unfolding delete_subnets
  delete_subnets-deleted [] s st key there ok = absurd (ground (arith, there))
  delete_subnets-deleted ((src, dst) ∷ keys) s st key there ok =
      let first = ip_svcs_subnet_setup h ip_tables ip_proto false src dst s st in
      elim (Bool-cases first.0.0.0) [
        | inr failed ↦
            let refused : false ≡ true = rw (failed, delete_subnets) at ok in
            absurd (ground (arith, refused))
        | inl done ↦
            rw (done, delete_subnets)
              (elim (Bool-cases ((src, dst) == key)) [
                | inl same ↦ delete_subnets-absent keys first.0.1 first.1 key (
                    ap (λ k. lookup k first.0.1.vrf_sub_net_map)
                      (sym ((pair_iff (src, dst) key).0 same))
                    ∙ setup-deleted src dst s st done)
                | inr other ↦
                    delete_subnets-deleted keys first.0.1 first.1 key
                      (tail_key (src, dst) key keys there other) (rw (done, delete_subnets) at ok)
              ])
      ]

  keys-deleted :
      (vrf_name : String) (s : Vrfs) (st : State) (key : String × String)
      → has_vrf vrf_name key ≡ true
      → let loop = delete_subnets h ip_tables ip_proto (keys_of vrf_name s.vrf_sub_net_map) s st in
        loop.0.0 ≡ true → lookup key loop.0.1.vrf_sub_net_map ≡ none
  keys-deleted vrf_name s st key names done =
      let keys = keys_of vrf_name s.vrf_sub_net_map in
      elim (keys_of-is_key vrf_name s.vrf_sub_net_map key names) [
        | inl absent ↦ delete_subnets-absent keys s st key absent
        | inr there ↦ delete_subnets-deleted keys s st key there done
      ]

  drop_default-vrf_sub_net_map :
      (vrf_name : String) (s : Vrfs) (st : State)
      → (drop_default h ip_tables ip_proto vrf_name s st).0.1.vrf_sub_net_map ≡ s.vrf_sub_net_map
  unfolding drop_default
  drop_default-vrf_sub_net_map vrf_name s st =
      elim (Option-cases (lookup "default" s.vrf_name_to_id)) [
        | inl missing ↦ ground (arith, missing)
        | inr (id, at) ↦ ground (arith, at)
      ]

  -- When the deletion of a VRF answers True, no veth pair of that VRF has a subnet any more.
  pub process_vrf_config_delete :
      (vrf_name : String) (vrf_id : ℕ) (s : Vrfs) (st : State) (key : String × String)
      → has_vrf vrf_name key ≡ true
      → let deleted = process_vrf_config h ip_tables ip_proto false vrf_name vrf_id s st in
        deleted.0.0 ≡ true → lookup key deleted.0.1.vrf_sub_net_map ≡ none
  unfolding process_vrf_config delete_vrf
  process_vrf_config_delete vrf_name vrf_id s st key names ok =
      let st1 = (process_vrf_top_chain_rule h false vrf_name st).1 in
      let keys = keys_of vrf_name s.vrf_sub_net_map in
      let loop = delete_subnets h ip_tables ip_proto keys s st1 in
      let s2 = with_ids (remove vrf_name loop.0.1.vrf_name_to_id) loop.0.1 in
      let dropped = drop_default h ip_tables ip_proto vrf_name s2 loop.1 in
      elim (Bool-cases loop.0.0) [
        | inr failed ↦ absurd (refuted (rw (failed, delete_vrf) at ok))
        | inl done ↦
            let gone = keys-deleted vrf_name s st1 key names done in
            elim (Option-cases (lookup vrf_name loop.0.1.vrf_name_to_id)) [
              | inl missing ↦ absurd (refuted (rw (done, missing, delete_vrf) at ok))
              | inr (id, at) ↦ elim (Bool-cases dropped.0.0) [
                | inr stops ↦ absurd (refuted (rw (done, at, stops, delete_vrf) at ok))
                | inl goes_on ↦
                    rw (done, at, goes_on, delete_vrf)
                      (ap (lookup key) (drop_default-vrf_sub_net_map vrf_name s2 loop.1) ∙ gone)
              ]
            ]
      ]
