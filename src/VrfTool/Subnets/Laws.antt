-- ===== src/VrfTool/Subnets/Laws.antt =====
-- The subnets of veth pairs are in their range and differ, and an addition that failed is not repeated.
use opx_nas_linux.Prelude.{
  ℕ, ◌≤◌, ◌<◌, true, false, some, List, [], ◌∷◌, ◌≡◌, ◌≢◌, HasEq, same_refl, arith, ◌==◌, lookup,
  put, remove, lookup-put, lookup-remove, eq_string, Bool-cases, inl, inr,
}
use opx_nas_linux.IdGenerator.{contains}
use opx_nas_linux.PrivatePorts.{first_free}
use opx_nas_linux.PrivatePorts.Unique.{first_free_lem}
use opx_nas_linux.SnoopCache.Sets.{eq_pair}
use opx_nas_linux.VrfTool.Subnets.{start_vrf_sub_net_val, sub_net_vals}

module _ {K : Type 0} ⦃e : HasEq K⦄ where
  -- The numbers lie in the range of subnets, and no two keys share one.
  pub record IsValid (m : List (K × ℕ)) : Type 0 where
    pub in_range : (key : K) (val : ℕ) → lookup key m ≡ some val → (100 ≤ val) × (val < 200)
    pub unique : (a b : K) (val : ℕ) → lookup a m ≡ some val → lookup b m ≡ some val → a ≡ b

  lookup-sub_net_vals :
      (key : K) (m : List (K × ℕ)) {val : ℕ}
      → lookup key m ≡ some val
      → contains val (sub_net_vals m) ≡ true
  unfolding lookup contains
  lookup-sub_net_vals key [] h = ground arith
  lookup-sub_net_vals key ((other, v) ∷ m) {val} h = elim (Bool-cases (other == key)) [
    | inl same ↦ ground (arith, (rw (same, lookup) at h))
    | inr differ ↦ ground (arith, lookup-sub_net_vals key m (rw (differ, lookup) at h))
  ]

  put_in_range :
      (key : K) (m : List (K × ℕ)) (val : ℕ)
      → IsValid m
      → (100 ≤ val) × (val < 200)
      → (a : K) (v : ℕ) → lookup a (put key val m) ≡ some v
      → (100 ≤ v) × (v < 200)
  put_in_range key m val valid range a v at = elim (Bool-cases (key == a)) [
    | inl same ↦ ground (arith, lookup-put key a val m, same, range, at)
    | inr differ ↦ valid.in_range a v (ground (arith, lookup-put key a val m, differ, at))
  ]

  put_unique :
      (key : K) (m : List (K × ℕ)) (val : ℕ)
      → IsValid m
      → contains val (sub_net_vals m) ≡ false
      → (a b : K) (v : ℕ) → lookup a (put key val m) ≡ some v
      → lookup b (put key val m) ≡ some v
      → a ≡ b
  put_unique key m val valid free a b v at bt = ground (
    arith,
    lookup-put key a val m,
    lookup-put key b val m,
    at,
    bt,
    free,
    e.same_iff key a,
    e.same_iff key b,
    valid.unique a b v,
    lookup-sub_net_vals a m {val = v},
    lookup-sub_net_vals b m {val = v},
  )

  pub put-IsValid :
      (key : K) (m : List (K × ℕ)) (val : ℕ)
      → IsValid m
      → first_free 100 start_vrf_sub_net_val (sub_net_vals m) ≡ some val
      → IsValid (put key val m)
  put-IsValid key m val valid found =
      let free = first_free_lem 100 start_vrf_sub_net_val (sub_net_vals m) found in
      record {
        in_range = put_in_range key m val valid (omega (arith, free.0), omega (arith, free.1));
        unique = put_unique key m val valid free.2;
      }

  pub remove-IsValid : (key : K) (m : List (K × ℕ)) → IsValid m → IsValid (remove key m)
  remove-IsValid key m valid = record {
    in_range = λ a v at. valid.in_range a v (ground (arith, lookup-remove key a m, at));
    unique = λ a b v at bt.
        valid.unique a b v (ground (arith, lookup-remove key a m, at))
          (ground (arith, lookup-remove key b m, bt));
  }

  pub lookup-put_same :
      (key : K) (val : ℕ) (m : List (K × ℕ)) → lookup key (put key val m) ≡ some val
  lookup-put_same key val m = ground (arith, lookup-put key key val m, same_refl key)

  pub lookup-put_other :
      (key other : K) (val : ℕ) (m : List (K × ℕ))
      → key ≢ other
      → lookup other (put key val m) ≡ lookup other m
  lookup-put_other key other val m differ =
      ground (arith, lookup-put key other val m, e.same_iff key other, differ)
