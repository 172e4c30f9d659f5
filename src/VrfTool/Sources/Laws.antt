-- ===== src/VrfTool/Sources/Laws.antt =====
-- What `process_src_ip_config` does to the map of source addresses.
use opx_nas_linux.Prelude.{
  ℕ, String, Bool, true, false, List, ◌≡◌, refl, arith, ◌==◌, lookup, put, remove, lookup-put,
  lookup-remove, eq_string, Option-cases, Bool-cases, HasEq, ap, sym, ◌∙◌, inl, inr, if◌then◌else◌,
}
use opx_nas_linux.Rule.Incoming.{is_some}
use opx_nas_linux.SnoopCache.Sets.{eq_pair}
use opx_nas_linux.VrfTool.{Host, Vrfs}
use opx_nas_linux.VrfTool.Sources.{src_ip_key, process_src_ip_config}

module _ {K : Type 0} ⦃e : HasEq K⦄ where
  is_some-put :
      (own key : K) (m : List (K × ℕ))
      → is_some (lookup key (put own 1 m)) ≡ (if own == key then true else is_some (lookup key m))
  unfolding is_some
  is_some-put own key m = ground (arith, lookup-put own key 1 m)

  is_some-remove :
      (own key : K) (m : List (K × ℕ))
      → is_some (lookup key (remove own m)) ≡ (if own == key then false else is_some (lookup key m))
  unfolding is_some
  is_some-remove own key m = ground (arith, lookup-remove own key m)

  -- A map in which the key is as it should be needs no change.
  is_some_same :
      (own key : K) (m : List (K × ℕ)) (is_add : Bool)
      → is_some (lookup own m) ≡ is_add
      → is_some (lookup key m) ≡ (if own == key then is_add else is_some (lookup key m))
  is_some_same own key m is_add at = elim (Bool-cases (own == key)) [
    | inl same ↦ rw same (ap (λ k. is_some (lookup k m)) (sym ((e.same_iff own key).0 same)) ∙ at)
    | inr other ↦ rw other refl
  ]

module _ (h : Host) where
  open h use {State}

  -- Afterwards the source address is in the map exactly if it was to be added, and every other one is there
  -- if it was before.
  pub process_src_ip_config_lem :
      (vrf : String) (is_add : Bool) (af ip : String) (s : Vrfs) (st : State)
      (key : String × (String × String))
      → is_some (lookup key (process_src_ip_config h vrf is_add af ip s st).0.1.vrf_src_ip_map)
        ≡ (if src_ip_key vrf af ip == key then is_add else is_some (lookup key s.vrf_src_ip_map))
  unfolding process_src_ip_config is_some
  process_src_ip_config_lem vrf is_add af ip s st key =
      let own = src_ip_key vrf af ip in
      let m = s.vrf_src_ip_map in
      elim (Option-cases (lookup own m)) [
        | inl absent ↦ elim (Bool-cases is_add) [
          | inl add ↦ rw (absent, add, process_src_ip_config) (is_some-put own key m)
          | inr not_add ↦
              rw (absent, not_add, process_src_ip_config)
                (is_some_same own key m false (rw absent refl))
        ]
        | inr (val, at) ↦ elim (Bool-cases is_add) [
          | inl add ↦ rw (at, add, process_src_ip_config) (is_some_same own key m true (rw at refl))
          | inr not_add ↦ rw (at, not_add, process_src_ip_config) (is_some-remove own key m)
        ]
      ]
