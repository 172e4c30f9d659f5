-- ===== src/RuleList.antt =====
-- The ordered list of service rules (scripts/lib/python/dn_base_vrf_svcs_config.py, classes
-- `VrfIncomingSvcsRuleList` and `VrfOutgoingSvcsRuleList`, whose text is the same but for
-- `remove`), over any class of rules.
pub mod Bisect
pub mod Positions
pub mod Invariant
pub mod Methods
pub mod Removal
pub mod Replacement
use opx_nas_linux.Prelude.{
  ℕ, zero, suc, ◌+◌, ◌/◌, ◌<◌, Bool, true, false, Option, none, some, List, [], ◌∷◌, ltb, nat_eq,
  not, ◌&&◌, ◌||◌, if◌then◌else◌, length, get_elem?, set, insert_at, delete_at, drop, lookup, put,
  remove, map, eq_nat, eq_option,
}

-- What the list reads of a rule: its attributes, and its `__eq__`.
pub record RuleClass (R : Type 0) : Type 0 where
  pub rule_id : R → Option ℕ
  pub grp_priority : R → ℕ
  pub seq_num : R → ℕ
  pub is_rule_equal : R → R → Bool

-- (grp_priority, seq_num), which Python compares from left to right
abbrev pub Key : Type 0
Key = ℕ × ℕ

abbrev pub key_lt : Key → Key → Bool
key_lt (a, b) (c, d) = ltb a c || (nat_eq a c && ltb b d)

pub record RuleList (R : Type 0) : Type 0 where
  pub rules : List R
  pub seq_num_list : List Key
  pub rule_id_map : List (Option ℕ × ℕ)

abbrev pub empty : {R : Type 0} → RuleList R
empty = record { rules = []; seq_num_list = []; rule_id_map = [] }

-- bisect.bisect_right of Python's library: the search of a sorted list by halves, on fuel.
unfoldable pub bisect_loop : ℕ → List Key → Key → ℕ → ℕ → ℕ
bisect_loop zero a x lo hi = lo
bisect_loop (suc fuel) a x lo hi =
    let mid = (lo + hi) / 2 in
    let left = bisect_loop fuel a x lo mid in
    let right = bisect_loop fuel a x (mid + 1) hi in
    if ltb lo hi
    then elim (get_elem? a mid) [ none ↦ lo | some y ↦ if key_lt x y then left else right ]
    else lo

unfoldable pub bisect_right : List Key → Key → ℕ
unfolding bisect_loop
bisect_right a x = bisect_loop (length a) a x 0 (length a)

-- The loop of `update_rule_id_map` over the rules from a position on.
unfoldable pub number_from : ℕ → List (Option ℕ) → List (Option ℕ × ℕ) → List (Option ℕ × ℕ)
number_from n [] m = m
number_from n (id ∷ ids) m = number_from (n + 1) ids (put id n m)

module _ {R : Type 0} (c : RuleClass R) where
  abbrev pub key : R → Key
  key r = (c.grp_priority r, c.seq_num r)

  -- list.index: the first rule that `__eq__` finds equal
  unfoldable pub index : R → List R → Option ℕ
  index r [] = none
  index r (x ∷ xs) =
      if c.is_rule_equal x r
      then some 0
      else elim (index r xs) [ none ↦ none | some i ↦ some (suc i) ]

  unfoldable pub update_rule_id_map : ℕ → RuleList R → RuleList R
  unfolding number_from
  update_rule_id_map start_idx l = record l {
    rule_id_map = number_from start_idx (drop start_idx (map c.rule_id l.rules)) l.rule_id_map;
  }

  -- the statements of `insert` from `bisect_right` on
  unfoldable pub insert_rule_at : ℕ → R → RuleList R → RuleList R
  unfolding update_rule_id_map
  insert_rule_at idx rule l = update_rule_id_map idx (record l {
    rules = insert_at idx rule l.rules;
    seq_num_list = insert_at idx (key rule) l.seq_num_list;
  })

  unfoldable pub insert : R → RuleList R → Option ℕ × RuleList R
  unfolding index bisect_right insert_rule_at
  insert rule l = elim (c.rule_id rule) [
    | none ↦ (none, l)
    | some id ↦ elim (lookup (some id) l.rule_id_map) [
      | some _ ↦ (none, l)
      | none ↦ elim (index rule l.rules) [
        | some _ ↦ (none, l)
        | none ↦
            let idx = bisect_right l.seq_num_list (key rule) in
            (some idx, insert_rule_at idx rule l)
      ]
    ]
  ]

  -- the statements that `remove` and `remove_by_id` share: `del` of the rule at a position
  unfoldable pub delete_rule_at : ℕ → Option ℕ → RuleList R → RuleList R
  unfolding update_rule_id_map
  delete_rule_at idx rule_id l = update_rule_id_map idx (record {
    rules = delete_at idx l.rules;
    seq_num_list = delete_at idx l.seq_num_list;
    rule_id_map = remove rule_id l.rule_id_map;
  })

  -- A position outside of the list would be an IndexError: none is in the map of a valid list.
  unfoldable pub remove_by_id : ℕ → RuleList R → Option R × RuleList R
  unfolding delete_rule_at
  remove_by_id rule_id l = elim (lookup (some rule_id) l.rule_id_map) [
    | none ↦ (none, l)
    | some idx ↦ elim (get_elem? l.rules idx) [
      | none ↦ (none, l)
      | some orig_rule ↦ (some orig_rule, delete_rule_at idx (some rule_id) l)
    ]
  ]

  -- `del` of the rule at `idx` with its ID, for the position and the ID that `remove` determines
  unfoldable pub delete_found : ℕ → Option ℕ → RuleList R → Option (R × ℕ) × RuleList R
  unfolding delete_rule_at
  delete_found idx rule_id l = elim (get_elem? l.rules idx) [
    | none ↦ (none, l)
    | some orig_rule ↦ (some (orig_rule, idx), delete_rule_at idx rule_id l)
  ]

  -- the ID of the rule at a position
  unfoldable pub id_at : ℕ → RuleList R → Option ℕ
  id_at idx l = elim (get_elem? l.rules idx) [ none ↦ none | some r ↦ c.rule_id r ]

  -- `remove` of a rule whose ID is not in the map: the first equal rule
  unfoldable pub remove_equal : R → RuleList R → Option (R × ℕ) × RuleList R
  unfolding index delete_found id_at
  remove_equal rule l = elim (index rule l.rules) [
    | none ↦ (none, l)
    | some idx ↦ delete_found idx (id_at idx l) l
  ]

  -- `VrfIncomingSvcsRuleList.remove`
  unfoldable pub remove_rule : R → RuleList R → Option (R × ℕ) × RuleList R
  unfolding remove_equal delete_found
  remove_rule rule l = elim (c.rule_id rule) [
    | none ↦ remove_equal rule l
    | some id ↦ elim (lookup (some id) l.rule_id_map) [
      | some idx ↦ delete_found idx (some id) l
      | none ↦ remove_equal rule l
    ]
  ]

  -- the rule and the position under an ID, as `find_rule_by_id` reads them
  unfoldable pub find_by_id : ℕ → RuleList R → Option (R × ℕ)
  find_by_id rule_id l = elim (lookup (some rule_id) l.rule_id_map) [
    | none ↦ none
    | some idx ↦ elim (get_elem? l.rules idx) [ none ↦ none | some rule ↦ some (rule, idx) ]
  ]

-- l[idx] = rule
unfoldable pub replace_at : {R : Type 0} → ℕ → R → RuleList R → RuleList R
replace_at idx rule l = record l { rules = set l.rules idx rule }
