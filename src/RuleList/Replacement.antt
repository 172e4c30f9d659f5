-- ===== src/RuleList/Replacement.antt =====
-- A rule of a list replaced by one with the same ID and the same key.
use opx_nas_linux.Prelude.{
  ℕ, zero, suc, ◌≡◌, ◌∙◌, ap, sym, refl, some, List, [], ◌∷◌, arith, map, set, get_elem?, eq_nat,
  eq_option,
}
use opx_nas_linux.RuleList.{RuleClass, RuleList, key, replace_at, find_by_id}
use opx_nas_linux.RuleList.Invariant.{IsValid, ids}

pub map-set {ℓ} :
    {A B : Type ℓ} (f : A → B) (xs : List A) (i : ℕ) (a b : A)
    → get_elem? xs i ≡ some a
    → f b ≡ f a
    → map f (set xs i b) ≡ map f xs
map-set f [] i a b at e = refl
map-set f (x ∷ xs) zero a b at e = cc
map-set f (x ∷ xs) (suc i) a b at e = ap (λ ys. f x ∷ ys) (map-set f xs i a b at e)

module _ {R : Type 0} (c : RuleClass R) where
  pub replace_at-IsValid :
      (idx : ℕ) (r old : R) (l : RuleList R)
      → IsValid c l
      → get_elem? l.rules idx ≡ some old
      → c.rule_id r ≡ c.rule_id old
      → key c r ≡ key c old
      → IsValid c (replace_at idx r l)
  unfolding replace_at
  replace_at-IsValid idx r old l v at same_id same_key =
      let same_ids : map c.rule_id (set l.rules idx r) ≡ ids c l =
        map-set c.rule_id l.rules idx old r at same_id in
      record {
        keyed = v.keyed ∙ sym (map-set (key c) l.rules idx old r at same_key);
        sorted = v.sorted;
        distinct = rw same_ids v.distinct;
        assigned = rw same_ids v.assigned;
        mapped = λ k. rw same_ids (v.mapped k);
      }

  -- What `find_by_id` returns stands in the list at the position it returns.
  pub find_by_id-get_elem? :
      (id : ℕ) (l : RuleList R) {r : R} {idx : ℕ}
      → find_by_id c id l ≡ some (r, idx)
      → get_elem? l.rules idx ≡ some r
  unfolding find_by_id
  find_by_id-get_elem? id l h = ground arith
