-- ===== src/RuleList/Methods.antt =====
-- The methods of a rule list: what they return, what they change, and that they keep it valid.
use mathlib.Core.Path.{subst}
use opx_nas_linux.Prelude.{
  ℕ, ◌≤◌, ◌≡◌, ◌∙◌, ◌↔◌, ap, sym, refl, true, false, Option, none, some, arith, inl, inr,
  Option-cases, map, length, length-map, get_elem?, get_elem?-map, get_elem?-map_inv, take, drop,
  insert_at, lookup, eq_nat, eq_option, All,
}
use opx_nas_linux.RuleList.{
  RuleClass, RuleList, key, key_lt, index, insert, find_by_id, delete_found, insert_rule_at,
  delete_rule_at, bisect_right, empty,
}
use opx_nas_linux.RuleList.Bisect.{
  upper_bound, bisect_right-eq-upper_bound, upper_bound_splits, upper_bound-le,
}
use opx_nas_linux.RuleList.Positions.{index_of, get_elem?-index_of, index_of-get_elem?}
use opx_nas_linux.RuleList.Invariant.{IsValid, ids, insert_rule_at-IsValid, delete_rule_at-IsValid}

module _ {R : Type 0} (c : RuleClass R) where
  pub empty-IsValid : IsValid c empty
  unfolding index_of lookup
  empty-IsValid = record {
    keyed = refl;
    sorted = tt;
    distinct = tt;
    assigned = refl;
    mapped = λ k. refl;
  }

  -- why `insert` refuses a rule
  pub data Refused (r : R) (l : RuleList R) : Type 0 where
    no_id : c.rule_id r ≡ none → Refused r l
    id_used :
        {id i : ℕ} → c.rule_id r ≡ some id → lookup (some id) l.rule_id_map ≡ some i → Refused r l
    in_list : {i : ℕ} → index c r l.rules ≡ some i → Refused r l

  -- what `insert` does
  pub data Inserted (r : R) (l : RuleList R) : Option ℕ × RuleList R → Type 0 where
    refused : Refused r l → Inserted r l (none, l)
    inserted :
        {id : ℕ}
        → c.rule_id r ≡ some id
        → lookup (some id) l.rule_id_map ≡ none
        → index c r l.rules ≡ none
        → Inserted r l (
          some (bisect_right l.seq_num_list (key c r)),
          insert_rule_at c (bisect_right l.seq_num_list (key c r)) r l,
        )

  pub insert-Inserted : (r : R) (l : RuleList R) → Inserted r l (insert c r l)
  unfolding insert
  insert-Inserted r l = elim (Option-cases (c.rule_id r)) [
    | inl none_given ↦ rw (none_given, insert) (refused (no_id none_given))
    | inr (id, has) ↦ elim (Option-cases (lookup (some id) l.rule_id_map)) [
      | inr (i, used) ↦ rw (has, used, insert) (refused (id_used has used))
      | inl free ↦ elim (Option-cases (index c r l.rules)) [
        | inr (i, equal) ↦ rw (has, free, equal, insert) (refused (in_list equal))
        | inl new ↦ rw (has, free, new, insert) (inserted has free new)
      ]
    ]
  ]

  -- `rule_id_map` finds exactly the rules of the list.
  pub lookup-get_elem? :
      (l : RuleList R) (id : ℕ) {i : ℕ}
      → IsValid c l
      → lookup (some id) l.rule_id_map ≡ some i
      → (r : R) × (get_elem? l.rules i ≡ some r) × (c.rule_id r ≡ some id)
  lookup-get_elem? l id {i} v h =
      get_elem?-map_inv c.rule_id l.rules i
        (get_elem?-index_of (some id) (ids c l) (sym (v.mapped (some id)) ∙ h))

  pub find_by_id_iff :
      (l : RuleList R) (id i : ℕ) (r : R)
      → IsValid c l
      → (find_by_id c id l ≡ some (r, i))
        ↔ ((get_elem? l.rules i ≡ some r) × (c.rule_id r ≡ some id))
  unfolding find_by_id
  find_by_id_iff l id i r v = (found, at)
    where
      found :
          find_by_id c id l ≡ some (r, i) → (get_elem? l.rules i ≡ some r) × (c.rule_id r ≡ some id)
      found h = elim (Option-cases (lookup (some id) l.rule_id_map)) [
        | inl out ↦ ground (arith, out)
        | inr (j, in_map) ↦
            let (r', at, has) = lookup-get_elem? l id v in_map in ground (arith, in_map, at, has)
      ]

      at :
          (get_elem? l.rules i ≡ some r) × (c.rule_id r ≡ some id) → find_by_id c id l ≡ some (r, i)
      at h =
          let in_map : lookup (some id) l.rule_id_map ≡ some i =
            v.mapped (some id)
            ∙ index_of-get_elem? (some id) (ids c l) i v.distinct
                (get_elem?-map c.rule_id l.rules i h.0 ∙ ap some h.1) in
          ground (arith, in_map)

  Inserted-IsValid :
      (r : R) (l : RuleList R) {x : Option ℕ × RuleList R}
      → IsValid c l
      → Inserted r l x
      → IsValid c x.1
  Inserted-IsValid r l v (refused _) = v
  Inserted-IsValid r l v (inserted {id} has free new) =
      rw (bisect_right-eq-upper_bound l.seq_num_list (key c r) v.sorted)
        (insert_rule_at-IsValid c l r v has (sym (v.mapped (some id)) ∙ free))

  -- `insert` keeps a list valid, whether it inserts the rule or refuses it.
  pub insert-IsValid : (r : R) (l : RuleList R) → IsValid c l → IsValid c (insert c r l).1
  insert-IsValid r l v = Inserted-IsValid r l v (insert-Inserted r l)

  Inserted-place :
      (r : R) (l : RuleList R) {x : Option ℕ × RuleList R} {i : ℕ}
      → IsValid c l
      → Inserted r l x
      → x.0 ≡ some i
      → (x.1.rules ≡ insert_at i r l.rules)
        × All (λ k. key_lt (key c r) k ≡ false) (take i (map (key c) l.rules))
        × All (λ k. key_lt (key c r) k ≡ true) (drop i (map (key c) l.rules))
  unfolding insert_rule_at
  Inserted-place r l v (refused _) h = cc
  Inserted-place r l {i = i} v (inserted has free new) h =
      let at : bisect_right l.seq_num_list (key c r) ≡ i = cc in
      let bound : upper_bound l.seq_num_list (key c r) ≡ i =
        sym (bisect_right-eq-upper_bound l.seq_num_list (key c r) v.sorted) ∙ at in
      let splits = upper_bound_splits l.seq_num_list (key c r) v.sorted in
      (
        rw at refl,
        subst (λ a. All (λ k. key_lt (key c r) k ≡ false) (take i a)) v.keyed
            (subst (λ n. All (λ k. key_lt (key c r) k ≡ false) (take n l.seq_num_list)) bound
              splits.0),
        subst (λ a. All (λ k. key_lt (key c r) k ≡ true) (drop i a)) v.keyed
            (subst (λ n. All (λ k. key_lt (key c r) k ≡ true) (drop n l.seq_num_list)) bound
              splits.1),
      )

  Inserted-inside :
      (r : R) (l : RuleList R) {x : Option ℕ × RuleList R} {i : ℕ}
      → IsValid c l
      → Inserted r l x
      → x.0 ≡ some i
      → i ≤ length l.rules
  Inserted-inside r l v (refused _) h = cc
  Inserted-inside r l {i = i} v (inserted has free new) h =
      let at : bisect_right l.seq_num_list (key c r) ≡ i = cc in
      omega (
        arith,
        at,
        bisect_right-eq-upper_bound l.seq_num_list (key c r) v.sorted,
        upper_bound-le l.seq_num_list (key c r),
        ap length v.keyed,
        length-map (key c) l.rules,
      )

  pub insert_inside :
      (r : R) (l : RuleList R) {i : ℕ}
      → IsValid c l
      → (insert c r l).0 ≡ some i
      → i ≤ length l.rules
  insert_inside r l v h = Inserted-inside r l v (insert-Inserted r l) h

  -- Where `insert` returns a position, the new rule stands there between the rules of the list in
  -- their old order: after every rule with a smaller or equal (grp_priority, seq_num), and before
  -- every rule with a greater one.
  pub insert_place :
      (r : R) (l : RuleList R) {i : ℕ}
      → IsValid c l
      → (insert c r l).0 ≡ some i
      → ((insert c r l).1.rules ≡ insert_at i r l.rules)
        × All (λ k. key_lt (key c r) k ≡ false) (take i (map (key c) l.rules))
        × All (λ k. key_lt (key c r) k ≡ true) (drop i (map (key c) l.rules))
  insert_place r l v h = Inserted-place r l v (insert-Inserted r l) h

  pub delete_found-IsValid :
      (i : ℕ) (x : Option ℕ) (l : RuleList R)
      → IsValid c l
      → ((r : R) → get_elem? l.rules i ≡ some r → c.rule_id r ≡ x)
      → IsValid c (delete_found c i x l).1
  unfolding delete_found
  delete_found-IsValid i x l v same = elim (Option-cases (get_elem? l.rules i)) [
    | inl out ↦ rw (out, delete_found) v
    | inr (r, at) ↦
        rw (at, delete_found)
          (subst (λ y. IsValid c (delete_rule_at c i y l)) (same r at)
            (delete_rule_at-IsValid c l i v at))
  ]
