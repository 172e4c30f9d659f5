-- ===== src/RuleList/Bisect.antt =====
-- `bisect_right` on a sorted list, against its plain description.
use opx_nas_linux.Prelude.{
  ℕ, zero, suc, ◌+◌, ◌/◌, ◌≤◌, ◌≡◌, true, false, none, some, List, [], ◌∷◌, arith, tests, ltb, inl,
  inr, Bool-cases, Option-cases, if◌then◌else◌, length, get_elem?, insert_at, delete_at, take, drop,
  All, ◌↔◌,
}
use opx_nas_linux.RuleList.{Key, key_lt, bisect_loop, bisect_right}

-- No later key is smaller than an earlier one.
abbrev pub IsSorted : List Key → Type 0
IsSorted [] = Unit
IsSorted (x ∷ xs) = All (λ y. key_lt y x ≡ false) xs × IsSorted xs

-- The number of keys before the first that is greater than `k`.
unfoldable pub upper_bound : List Key → Key → ℕ
upper_bound [] k = 0
upper_bound (x ∷ xs) k = if key_lt k x then 0 else suc (upper_bound xs k)

-- k < x ≤ y gives k < y
lt_le_trans : (k x y : Key) → key_lt k x ≡ true → key_lt y x ≡ false → key_lt k y ≡ true
lt_le_trans (a, b) (c, d) (e, f) h h' = ground arith

get_elem?-ge :
    (x : Key) (xs : List Key) (i : ℕ) {y : Key}
    → All (λ z. key_lt z x ≡ false) xs
    → get_elem? xs i ≡ some y
    → key_lt y x ≡ false
get_elem?-ge x [] i h e = cc
get_elem?-ge x (z ∷ xs) zero h e = ground (arith, h.0)
get_elem?-ge x (z ∷ xs) (suc i) h e = get_elem?-ge x xs i h.1 e

pub upper_bound-le : (a : List Key) (k : Key) → upper_bound a k ≤ length a
unfolding upper_bound
upper_bound-le [] k = omega arith
upper_bound-le (x ∷ xs) k = ground (arith, upper_bound-le xs k)

-- On a sorted list, `k` is smaller than the key at a position exactly from the bound on.
key_lt-get_elem? :
    (a : List Key) (k : Key) (m : ℕ) {y : Key}
    → IsSorted a
    → get_elem? a m ≡ some y
    → (key_lt k y ≡ true) ↔ (upper_bound a k ≤ m)
unfolding upper_bound
key_lt-get_elem? [] k m s e = cc
key_lt-get_elem? (x ∷ xs) k zero s e = ground arith
key_lt-get_elem? (x ∷ xs) k (suc m) {y} s e = elim (Bool-cases (key_lt k x)) [
  | inl less ↦
      rw less ((λ _. omega arith), (λ _. lt_le_trans k x y less (get_elem?-ge x xs m s.0 e)))
  | inr more ↦
      let ih = key_lt-get_elem? xs k m s.1 e in rw more (ground (arith, ih), ground (arith, ih))
]

get_elem?-none {ℓ} : {A : Type ℓ} (xs : List A) (i : ℕ) → get_elem? xs i ≡ none → length xs ≤ i
get_elem?-none [] i e = omega arith
get_elem?-none (x ∷ xs) zero e = cc
get_elem?-none (x ∷ xs) (suc i) e = omega (arith, get_elem?-none xs i e)

module _ (a : List Key) (k : Key) (s : IsSorted a) where
  bisect_loop-eq :
      (fuel lo hi : ℕ)
      → lo ≤ upper_bound a k
      → upper_bound a k ≤ hi
      → hi ≤ length a
      → hi ≤ lo + fuel
      → bisect_loop fuel a k lo hi ≡ upper_bound a k
  unfolding bisect_loop
  bisect_loop-eq zero lo hi l h n f = omega arith
  bisect_loop-eq (suc fuel) lo hi l h n f = elim (Bool-cases (ltb lo hi)) [
    | inr done ↦ rw done (omega tests)
    | inl more ↦ elim (Option-cases (get_elem? a ((lo + hi) / 2))) [
      | inl out ↦ absurd (omega (tests, get_elem?-none a ((lo + hi) / 2) out))
      | inr (y, e) ↦
          let side = key_lt-get_elem? a k ((lo + hi) / 2) s e in
          elim (Bool-cases (key_lt k y)) [
            | inl less ↦
                rw (more, e, less)
                  (bisect_loop-eq fuel lo ((lo + hi) / 2) l (side.0 less) (omega tests)
                    (omega tests))
            | inr geq ↦
                rw (more, e, geq)
                  (bisect_loop-eq fuel ((lo + hi) / 2 + 1) hi (ground (arith, side)) h n
                    (omega tests))
          ]
    ]
  ]

  -- On a sorted list the search by halves finds the position after the last key that is not
  -- greater.
  pub bisect_right-eq-upper_bound : bisect_right a k ≡ upper_bound a k
  unfolding bisect_right
  bisect_right-eq-upper_bound =
      bisect_loop-eq (length a) 0 (length a) (omega arith) (upper_bound-le a k) (omega arith)
        (omega arith)

All-lt :
    (x : Key) (xs : List Key) (k : Key)
    → All (λ z. key_lt z x ≡ false) xs
    → key_lt k x ≡ true
    → All (λ z. key_lt k z ≡ true) xs
All-lt x [] k h less = tt
All-lt x (y ∷ xs) k h less = (lt_le_trans k x y less h.0, All-lt x xs k h.1 less)

-- At the bound the smaller and equal keys end and the greater ones begin.
pub upper_bound_splits :
    (a : List Key) (k : Key)
    → IsSorted a
    → All (λ x. key_lt k x ≡ false) (take (upper_bound a k) a)
      × All (λ x. key_lt k x ≡ true) (drop (upper_bound a k) a)
unfolding upper_bound
upper_bound_splits [] k s = (tt, tt)
upper_bound_splits (x ∷ xs) k s = elim (Bool-cases (key_lt k x)) [
  | inl less ↦ rw less (tt, (less, All-lt x xs k s.0 less))
  | inr geq ↦ let ih = upper_bound_splits xs k s.1 in rw geq ((geq, ih.0), ih.1)
]

All-insert_at {ℓ κ} :
    {A : Type ℓ} (P : A → Type κ) (i : ℕ) (v : A) (xs : List A)
    → P v
    → All P xs
    → All P (insert_at i v xs)
All-insert_at P zero v xs p h = (p, h)
All-insert_at P (suc i) v [] p h = (p, tt)
All-insert_at P (suc i) v (x ∷ xs) p h = (h.0, All-insert_at P i v xs p h.1)

All-delete_at {ℓ κ} :
    {A : Type ℓ} (P : A → Type κ) (i : ℕ) (xs : List A) → All P xs → All P (delete_at i xs)
All-delete_at P zero [] h = tt
All-delete_at P zero (x ∷ xs) h = h.1
All-delete_at P (suc i) [] h = tt
All-delete_at P (suc i) (x ∷ xs) h = (h.0, All-delete_at P i xs h.1)

All-ge_of_lt :
    (xs : List Key) (k : Key) → All (λ z. key_lt k z ≡ true) xs → All (λ z. key_lt z k ≡ false) xs
All-ge_of_lt [] k h = tt
All-ge_of_lt ((a, b) ∷ xs) (c, d) h = (ground (arith, h.0), All-ge_of_lt xs (c, d) h.1)

pub IsSorted-insert_at :
    (a : List Key) (k : Key) → IsSorted a → IsSorted (insert_at (upper_bound a k) k a)
unfolding upper_bound
IsSorted-insert_at [] k s = (tt, tt)
IsSorted-insert_at (x ∷ xs) k s = elim (Bool-cases (key_lt k x)) [
  | inl less ↦ rw less (All-ge_of_lt (x ∷ xs) k (less, All-lt x xs k s.0 less), s)
  | inr geq ↦ rw geq (
    All-insert_at (λ y. key_lt y x ≡ false) (upper_bound xs k) k xs geq s.0,
    IsSorted-insert_at xs k s.1,
  )
]

pub IsSorted-delete_at : (i : ℕ) (a : List Key) → IsSorted a → IsSorted (delete_at i a)
IsSorted-delete_at zero [] s = tt
IsSorted-delete_at zero (x ∷ xs) s = s.1
IsSorted-delete_at (suc i) [] s = tt
IsSorted-delete_at (suc i) (x ∷ xs) s =
    (All-delete_at (λ y. key_lt y x ≡ false) i xs s.0, IsSorted-delete_at i xs s.1)
