-- ===== src/RuleList/Removal.antt =====
-- The removals from a rule list.
use mathlib.Core.Path.{subst}
use opx_nas_linux.Prelude.{
  ℕ, suc, ◌≡◌, ◌∙◌, ap, sym, refl, Option, none, some, arith, inl, inr, Option-cases, map,
  get_elem?, take, drop, delete_at, lookup, split_at, get_elem?-map, get_elem?-insert_at,
  delete_at-insert_at, eq_nat, eq_option,
}
use opx_nas_linux.RuleList.{
  RuleClass, RuleList, key, index, insert, remove_by_id, remove_rule, remove_equal, find_by_id,
  id_at, delete_rule_at, delete_found,
}
use opx_nas_linux.RuleList.Positions.{
  index_of, Distinct, Distinct-delete, get_elem?-index_of, index_of-get_elem?,
}
use opx_nas_linux.RuleList.Invariant.{IsValid, ids, delete_rule_at-IsValid, map-delete_at}
use opx_nas_linux.RuleList.Methods.{
  lookup-get_elem?, find_by_id_iff, delete_found-IsValid, insert-IsValid, insert_place,
  insert_inside,
}

module _ {R : Type 0} (c : RuleClass R) where
  -- `remove_by_id` deletes the rule that `find_by_id` finds, and returns it; where there is none
  -- it changes nothing.
  pub data Removed (id : ℕ) (l : RuleList R) : Option R × RuleList R → Type 0 where
    absent : lookup (some id) l.rule_id_map ≡ none → Removed id l (none, l)
    removed :
        {i : ℕ} {r : R}
        → lookup (some id) l.rule_id_map ≡ some i
        → get_elem? l.rules i ≡ some r
        → c.rule_id r ≡ some id
        → Removed id l (some r, delete_rule_at c i (some id) l)

  pub remove_by_id-Removed :
      (id : ℕ) (l : RuleList R) → IsValid c l → Removed id l (remove_by_id c id l)
  unfolding remove_by_id
  remove_by_id-Removed id l v = elim (Option-cases (lookup (some id) l.rule_id_map)) [
    | inl out ↦ rw (out, remove_by_id) (absent out)
    | inr (i, at) ↦
        let (r, there, has) = lookup-get_elem? c l id v at in
        rw (at, there, remove_by_id) (removed at there has)
  ]

  Removed-IsValid :
      (id : ℕ) (l : RuleList R) {x : Option R × RuleList R}
      → IsValid c l
      → Removed id l x
      → IsValid c x.1
  Removed-IsValid id l v (absent _) = v
  Removed-IsValid id l v (removed {i} at there has) =
      subst (λ y. IsValid c (delete_rule_at c i y l)) has (delete_rule_at-IsValid c l i v there)

  -- `remove_by_id` keeps a list valid.
  pub remove_by_id-IsValid :
      (id : ℕ) (l : RuleList R) → IsValid c l → IsValid c (remove_by_id c id l).1
  remove_by_id-IsValid id l v = Removed-IsValid id l v (remove_by_id-Removed id l v)

  remove_equal-IsValid : (r : R) (l : RuleList R) → IsValid c l → IsValid c (remove_equal c r l).1
  unfolding remove_equal
  remove_equal-IsValid r l v = elim (Option-cases (index c r l.rules)) [
    | inl out ↦ rw (out, remove_equal) v
    | inr (i, at) ↦
        rw (at, remove_equal)
          (delete_found-IsValid c i (id_at c i l) l v (λ x h. unfold id_at in rw (h, id_at) refl))
  ]

  pub same_id :
      (l : RuleList R) (id : ℕ) {i : ℕ}
      → IsValid c l
      → lookup (some id) l.rule_id_map ≡ some i
      → (r : R) → get_elem? l.rules i ≡ some r
      → c.rule_id r ≡ some id
  same_id l id v at r h =
      let (r', there, has) = lookup-get_elem? c l id v at in ground (arith, there, has)

  -- `remove` keeps a list valid, whether it finds the rule by its ID, by equality, or not at all.
  pub remove_rule-IsValid : (r : R) (l : RuleList R) → IsValid c l → IsValid c (remove_rule c r l).1
  unfolding remove_rule
  remove_rule-IsValid r l v = elim (Option-cases (c.rule_id r)) [
    | inl none_given ↦ rw (none_given, remove_rule) (remove_equal-IsValid r l v)
    | inr (id, has) ↦ elim (Option-cases (lookup (some id) l.rule_id_map)) [
      | inl out ↦ rw (has, out, remove_rule) (remove_equal-IsValid r l v)
      | inr (i, at) ↦
          rw (has, at, remove_rule) (delete_found-IsValid c i (some id) l v (same_id l id v at))
    ]
  ]

  Removed-result :
      (id : ℕ) (l : RuleList R) {x : Option R × RuleList R} {r : R} {i : ℕ}
      → IsValid c l
      → Removed id l x
      → find_by_id c id l ≡ some (r, i)
      → (x.0 ≡ some r)
        × (x.1.rules ≡ delete_at i l.rules)
        × (index_of (some id) (map c.rule_id x.1.rules) ≡ none)
  unfolding find_by_id delete_rule_at
  Removed-result id l v (absent out) h = ground (arith, out)
  Removed-result id l {r = r} {i = i} v (removed {i = j} {r = r'} at there has) h =
      let found : find_by_id c id l ≡ some (r', j) = ground (arith, at, there) in
      let same : j ≡ i = ground (arith, found, h) in
      (ground (arith, found, h), rw same refl, deleted_id j at)
    where
      deleted_id :
          (j : ℕ)
          → lookup (some id) l.rule_id_map ≡ some j
          → index_of (some id) (map c.rule_id (delete_at j l.rules)) ≡ none
      deleted_id j at =
          let at_id = get_elem?-index_of (some id) (ids c l) (sym (v.mapped (some id)) ∙ at) in
          let whole = (split_at j (ids c l) at_id).0 in
          ap (index_of (some id)) (map-delete_at c c.rule_id j l.rules)
          ∙ (Distinct-delete (some id) (take j (ids c l)) (drop (suc j) (ids c l))
              (subst Distinct (sym whole) v.distinct)).1

  find_by_id-none :
      (id : ℕ) (l : RuleList R)
      → IsValid c l
      → index_of (some id) (ids c l) ≡ none
      → find_by_id c id l ≡ none
  unfolding find_by_id
  find_by_id-none id l v h = let out = v.mapped (some id) ∙ h in ground (arith, out)

  -- In a valid list `remove_by_id` returns the rule that `find_by_id` finds, takes it out of its
  -- position and leaves the others in order, and after that the ID is not found.
  pub remove_by_id_lem :
      (id : ℕ) (l : RuleList R) {r : R} {i : ℕ}
      → IsValid c l
      → find_by_id c id l ≡ some (r, i)
      → ((remove_by_id c id l).0 ≡ some r)
        × ((remove_by_id c id l).1.rules ≡ delete_at i l.rules)
        × (find_by_id c id (remove_by_id c id l).1 ≡ none)
  remove_by_id_lem id l v h =
      let (value, rules, gone) = Removed-result id l v (remove_by_id-Removed id l v) h in
      (value, rules, find_by_id-none id (remove_by_id c id l).1 (remove_by_id-IsValid id l v) gone)

  -- Removing a rule by its ID straight after `insert` accepted it returns that rule and gives back
  -- the old order of the rules and of their keys.
  pub remove_by_id-insert :
      (r : R) (l : RuleList R) {id i : ℕ}
      → IsValid c l
      → c.rule_id r ≡ some id
      → (insert c r l).0 ≡ some i
      → ((remove_by_id c id (insert c r l).1).0 ≡ some r)
        × ((remove_by_id c id (insert c r l).1).1.rules ≡ l.rules)
        × ((remove_by_id c id (insert c r l).1).1.seq_num_list ≡ l.seq_num_list)
  remove_by_id-insert r l {id} {i} v has h =
      let l' = (insert c r l).1 in
      let v' = insert-IsValid c r l v in
      let placed = (insert_place c r l v h).0 in
      let inside = insert_inside c r l v h in
      let there : get_elem? l'.rules i ≡ some r =
        ap (λ xs. get_elem? xs i) placed ∙ get_elem?-insert_at i r l.rules inside in
      let found = (find_by_id_iff c l' id i r v').1 (there, has) in
      let result = remove_by_id_lem id l' v' found in
      let rules = result.1 ∙ ap (delete_at i) placed ∙ delete_at-insert_at i r l.rules inside in
      (
        result.0,
        rules,
        (remove_by_id-IsValid id l' v').keyed ∙ ap (map (key c)) rules ∙ sym v.keyed,
      )

  -- The same of `remove`: the rollback of an insertion gives back the old rules.
  pub remove_rule-insert :
      (r : R) (l : RuleList R) {id i : ℕ}
      → IsValid c l
      → c.rule_id r ≡ some id
      → (insert c r l).0 ≡ some i
      → (remove_rule c r (insert c r l).1).1.rules ≡ l.rules
  unfolding remove_rule delete_found delete_rule_at
  remove_rule-insert r l {id} {i} v has h =
      let l' = (insert c r l).1 in
      let v' = insert-IsValid c r l v in
      let placed = (insert_place c r l v h).0 in
      let inside = insert_inside c r l v h in
      let there : get_elem? l'.rules i ≡ some r =
        ap (λ xs. get_elem? xs i) placed ∙ get_elem?-insert_at i r l.rules inside in
      let in_map : lookup (some id) l'.rule_id_map ≡ some i =
        v'.mapped (some id)
        ∙ index_of-get_elem? (some id) (ids c l') i v'.distinct
            (get_elem?-map c.rule_id l'.rules i there ∙ ap some has) in
      rw (has, in_map, there, remove_rule, delete_found)
        (ap (delete_at i) placed ∙ delete_at-insert_at i r l.rules inside)
