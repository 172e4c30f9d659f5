-- ===== src/RuleList/Invariant.antt =====
-- The invariant of a rule list, and that insertion and deletion at a position keep it.
use opx_nas_linux.Prelude.{
  ℕ, suc, ◌≤◌, ◌≡◌, ◌∙◌, ap, sym, refl, Option, none, some, List, arith, map, map-take, map-drop,
  length, length-map, get_elem?-map, get_elem?, take, drop, insert_at, delete_at, lookup,
  take-append-drop, split_at, eq_nat, eq_option,
}
use mathlib.Core.Path.{subst}
use mathlib.Core.List.{map-append}
use opx_nas_linux.RuleList.{RuleClass, RuleList, key, insert_rule_at, delete_rule_at}
use opx_nas_linux.RuleList.Bisect.{
  IsSorted, upper_bound, upper_bound-le, IsSorted-insert_at, IsSorted-delete_at,
}
use opx_nas_linux.RuleList.Positions.{
  index_of, Distinct, Distinct-insert, Distinct-delete, lookup-insert_at, lookup-delete_at,
  index_of-insert, index_of-delete,
}

module _ {R : Type 0} (c : RuleClass R) where
  abbrev pub ids : RuleList R → List (Option ℕ)
  ids l = map c.rule_id l.rules

  pub record IsValid (l : RuleList R) : Type 0 where
    -- `seq_num_list` holds the keys of the rules, in order
    pub keyed : l.seq_num_list ≡ map (key c) l.rules
    pub sorted : IsSorted l.seq_num_list
    -- every rule has an ID of its own
    pub distinct : Distinct (ids l)
    pub assigned : index_of none (ids l) ≡ none
    -- `rule_id_map` holds the position of every ID, and nothing else
    pub mapped : (k : Option ℕ) → lookup k l.rule_id_map ≡ index_of k (ids l)

  pub map-insert_at {ℓ} :
      {B : Type ℓ} (f : R → B) (i : ℕ) (r : R) (xs : List R)
      → map f (insert_at i r xs) ≡ insert_at i (f r) (map f xs)
  map-insert_at f i r xs = simp (map-append, map-take, map-drop)

  pub map-delete_at {ℓ} :
      {B : Type ℓ} (f : R → B) (i : ℕ) (xs : List R)
      → map f (delete_at i xs) ≡ delete_at i (map f xs)
  map-delete_at f i xs = simp (map-append, map-take, map-drop)

  -- A rule with a new ID may be inserted after the last rule whose key is not greater.
  pub insert_rule_at-IsValid :
      (l : RuleList R) (r : R) {id : ℕ}
      → IsValid l
      → c.rule_id r ≡ some id
      → index_of (some id) (ids l) ≡ none
      → IsValid (insert_rule_at c (upper_bound l.seq_num_list (key c r)) r l)
  unfolding insert_rule_at
  insert_rule_at-IsValid l r {id} v has new =
      let i = upper_bound l.seq_num_list (key c r) in
      let new_ids : map c.rule_id (insert_at i r l.rules) ≡ insert_at i (some id) (ids l) =
        rw map-insert_at (rw has refl) in
      let len : length l.seq_num_list ≡ length (ids l) =
        ap length v.keyed ∙ length-map (key c) l.rules ∙ sym (length-map c.rule_id l.rules) in
      let inside : i ≤ length (ids l) =
        omega (arith, upper_bound-le l.seq_num_list (key c r), len) in
      let whole = take-append-drop i (ids l) in
      record {
        keyed = ap (insert_at i (key c r)) v.keyed ∙ sym (map-insert_at (key c) i r l.rules);
        sorted = IsSorted-insert_at l.seq_num_list (key c r) v.sorted;
        distinct = rw new_ids (
            Distinct-insert (some id) (take i (ids l)) (drop i (ids l))
              (subst Distinct (sym whole) v.distinct) (ap (index_of (some id)) whole ∙ new));
        assigned = rw new_ids (
            index_of-insert none (some id) (take i (ids l)) (drop i (ids l)) refl
              (ap (index_of none) whole ∙ v.assigned));
        mapped = λ k. rw new_ids (
            lookup-insert_at (some id) i (ids l) l.rule_id_map k inside v.distinct new
              (v.mapped k));
      }

  -- The rule at any position may be deleted.
  pub delete_rule_at-IsValid :
      (l : RuleList R) (i : ℕ) {r : R}
      → IsValid l
      → get_elem? l.rules i ≡ some r
      → IsValid (delete_rule_at c i (c.rule_id r) l)
  unfolding delete_rule_at
  delete_rule_at-IsValid l i {r} v at =
      let old_ids : map c.rule_id (delete_at i l.rules) ≡ delete_at i (ids l) =
        map-delete_at c.rule_id i l.rules in
      let at_id = get_elem?-map c.rule_id l.rules i at in
      let whole = (split_at i (ids l) at_id).0 in
      let x = c.rule_id r in
      record {
        keyed = ap (delete_at i) v.keyed ∙ sym (map-delete_at (key c) i l.rules);
        sorted = IsSorted-delete_at i l.seq_num_list v.sorted;
        distinct =
            rw old_ids
              (Distinct-delete x (take i (ids l)) (drop (suc i) (ids l))
                (subst Distinct (sym whole) v.distinct)).0;
        assigned = rw old_ids (
            index_of-delete none x (take i (ids l)) (drop (suc i) (ids l))
              (ap (index_of none) whole ∙ v.assigned));
        mapped = λ k.
            rw old_ids (lookup-delete_at x i (ids l) l.rule_id_map k at_id v.distinct (v.mapped k));
      }
