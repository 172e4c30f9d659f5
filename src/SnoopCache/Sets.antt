-- ===== src/SnoopCache/Sets.antt =====
-- Python's sets, as lists of their elements. Two elements are equal when their keys are: the keys of
-- McastRouterInfo and McastGroupInfo are what `__eq__` compares.
use opx_nas_linux.Prelude.{
  Bool, true, false, List, [], ◌∷◌, ◌++◌, ◌==◌, ◌||◌, ◌&&◌, not, ◌≡◌, refl, arith, HasEq, ◌↔◌,
  filter, if◌then◌else◌,
}
use opx_nas_linux.Prelude.{Bool-cases, inl, inr}

pub pair_iff {ℓ κ} :
    {A : Type ℓ} {B : Type κ} ⦃a : HasEq A⦄ ⦃b : HasEq B⦄ (x y : A × B)
    → (((x.0 == y.0) && (x.1 == y.1)) ≡ true) ↔ (x ≡ y)
pair_iff ⦃a⦄ ⦃b⦄ (x0, x1) (y0, y1) = ground (arith, a.same_iff x0 y0, b.same_iff x1 y1)

instance abbrev pub eq_pair {ℓ κ} :
    {A : Type ℓ} {B : Type κ} ⦃a : HasEq A⦄ ⦃b : HasEq B⦄ → HasEq (A × B)
eq_pair ⦃a⦄ ⦃b⦄ = record {
  same = λ x y. a.same x.0 y.0 && b.same x.1 y.1;
  same_iff = pair_iff ⦃a = a⦄ ⦃b = b⦄;
}

module _ {ℓ κ} {A : Type ℓ} {K : Type κ} ⦃e : HasEq K⦄ (key : A → K) where
  unfoldable pub member : K → List A → Bool
  member k [] = false
  member k (x ∷ xs) = key x == k || member k xs

  -- An element that is there stays.
  unfoldable pub add : A → List A → List A
  unfolding member
  add x xs = if member (key x) xs then xs else xs ++ (x ∷ [])

  unfoldable pub discard : K → List A → List A
  discard k xs = filter (λ x. not (key x == k)) xs

  unfoldable pub difference : List A → List A → List A
  unfolding member
  difference xs ys = filter (λ x. not (member (key x) ys)) xs

  pub member-append : (k : K) (xs ys : List A) → member k (xs ++ ys) ≡ (member k xs || member k ys)
  unfolding member
  member-append k [] ys = refl
  member-append k (x ∷ xs) ys = ground (arith, member-append k xs ys)

  pub member-add : (k : K) (x : A) (xs : List A) → member k (add x xs) ≡ (member k xs || key x == k)
  unfolding add member
  member-add k x xs = elim (Bool-cases (member (key x) xs)) [
    | inl at ↦ ground (arith, e.same_iff (key x) k, at)
    | inr out ↦ ground (arith, e.same_iff (key x) k, member-append k xs (x ∷ []))
  ]

  -- A test of the elements that depends on the key.
  pub member-filter :
      (test : K → Bool) (k : K) (xs : List A)
      → member k (filter (λ x. test (key x)) xs) ≡ (member k xs && test k)
  unfolding member
  member-filter test k [] = refl
  member-filter test k (x ∷ xs) = ground (arith, e.same_iff (key x) k, member-filter test k xs)

  pub member-discard :
      (k j : K) (xs : List A) → member k (discard j xs) ≡ (member k xs && not (k == j))
  unfolding discard
  member-discard k j xs = member-filter (λ i. not (i == j)) k xs

  pub member-difference :
      (k : K) (xs ys : List A) → member k (difference xs ys) ≡ (member k xs && not (member k ys))
  unfolding difference
  member-difference k xs ys = member-filter (λ i. not (member i ys)) k xs
