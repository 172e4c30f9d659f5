-- ===== src/IdGenerator/Search.antt =====
-- The two loops of `IdGenerator`, and the set of reserved IDs.
use opx_nas_linux.Prelude.{
  ℕ, zero, suc, ◌+◌, ◌≤◌, ◌<◌, ◌≡◌, inl, inr, true, false, Option, none, some, List, [], ◌∷◌, arith,
  tests, ltb, nat_eq, Bool-cases, if◌then◌else◌,
}
use opx_nas_linux.IdGenerator.{contains, without, skip_resved, above_all, scan_down, at_most}

pub contains-without :
    (x y : ℕ) (ids : List ℕ)
    → contains y (without x ids) ≡ (if nat_eq x y then false else contains y ids)
unfolding contains without
contains-without x y [] = ground arith
contains-without x y (z ∷ zs) = ground (arith, contains-without x y zs)

pub contains-lt-above_all : (x : ℕ) (ids : List ℕ) → contains x ids ≡ true → x < above_all ids
unfolding contains above_all
contains-lt-above_all x [] h = ground arith
contains-lt-above_all x (y ∷ ys) h = ground (arith, contains-lt-above_all x ys)

-- The loop stops at the first ID from `a` on that is not reserved.
pub record IsNextFree (ids : List ℕ) (a r : ℕ) : Type 0 where
  pub from : a ≤ r
  pub free : contains r ids ≡ false
  pub before : (x : ℕ) → a ≤ x → x < r → contains x ids ≡ true

module _ (ids : List ℕ) (m : Option ℕ) where
  pub skip_resved-IsNextFree :
      (fuel a : ℕ)
      → above_all ids ≤ a + fuel
      → ((x : ℕ) → a ≤ x → contains x ids ≡ true → at_most x m ≡ true)
      → IsNextFree ids a (skip_resved fuel ids m a)
  unfolding skip_resved
  skip_resved-IsNextFree zero a enough bounded = record {
    from = omega arith;
    free = ground (arith, contains-lt-above_all a ids);
    before = λ x h l. absurd (omega arith);
  }
  skip_resved-IsNextFree (suc fuel) a enough bounded =
      let ih =
        skip_resved-IsNextFree fuel (a + 1) (omega arith) (λ x h c. bounded x (omega arith) c) in
      record {
        from = ground (arith, ih.from);
        free = ground (arith, ih.free, bounded a);
        before = λ x h l. ground (arith, ih.before x, bounded a);
      }

-- The scan finds the largest reserved ID in [min_id, n].
pub record IsLargest (ids : List ℕ) (min_id n r : ℕ) : Type 0 where
  pub from : min_id ≤ r
  pub to : r ≤ n
  pub member : contains r ids ≡ true
  pub after : (x : ℕ) → r < x → x ≤ n → contains x ids ≡ false

abbrev pub ScanResult : List ℕ → ℕ → ℕ → Option ℕ → Type 0
ScanResult ids min_id n none = (x : ℕ) → min_id ≤ x → x ≤ n → contains x ids ≡ false
ScanResult ids min_id n (some r) = IsLargest ids min_id n r

module _ (ids : List ℕ) (min_id : ℕ) where
  pub scan_down-result : (n : ℕ) → ScanResult ids min_id n (scan_down ids min_id n)
  unfolding scan_down
  scan_down-result zero = elim (Bool-cases (ltb zero min_id)) [
    | inl below ↦ rw below (λ x h l. absurd (omega tests))
    | inr at ↦ rw at (elim (Bool-cases (contains zero ids)) [
      | inl c ↦ rw c (record {
        from = ground arith;
        to = omega arith;
        member = c;
        after = λ x h l. absurd (omega arith);
      })
      | inr c ↦ rw c (λ x h l. ground arith)
    ])
  ]
  scan_down-result (suc n) = elim (Bool-cases (ltb (suc n) min_id)) [
    | inl below ↦ rw below (λ x h l. absurd (omega tests))
    | inr at ↦ rw at (elim (Bool-cases (contains (suc n) ids)) [
      | inl c ↦ rw c (record {
        from = ground arith;
        to = omega arith;
        member = c;
        after = λ x h l. absurd (omega arith);
      })
      | inr c ↦ rw c (extend (scan_down ids min_id n) c (scan_down-result n))
    ])
  ]
    where
      extend :
          (r : Option ℕ)
          → contains (suc n) ids ≡ false
          → ScanResult ids min_id n r
          → ScanResult ids min_id (suc n) r
      extend none c h = λ x l u. elim (Bool-cases (nat_eq x (suc n))) [
        | inl e ↦ ground arith
        | inr e ↦ h x l (ground arith)
      ]
      extend (some r) c h = record {
        from = h.from;
        to = omega (arith, h.to);
        member = h.member;
        after = λ x l u. ground (arith, h.after x);
      }
