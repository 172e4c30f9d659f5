-- ===== src/Reading/Valid.antt =====
-- What `get_all_rules` leaves of the rule lists, into whose rules it writes statistics.
use opx_nas_linux.Prelude.{
  String, Bool, Option, List, [], ◌∷◌, ◌≡◌, refl, sym, ◌∙◌, inl, inr, Bool-cases, Option-cases, map,
  lookup, eq_string, eq_nat, eq_option,
}
use opx_nas_linux.RuleList.{RuleClass, RuleList, key}
use opx_nas_linux.RuleList.Invariant.{IsValid, ids}
use opx_nas_linux.Rule.{RuleType, Rule, eq_rule_type}
use opx_nas_linux.Rule.Incoming.{is_some}
use opx_nas_linux.Iptables.{System}
use opx_nas_linux.RuleTables.{Tables, Slot, VrfRules, vrf_rules, with_vrf_rules, acquire, release}
use opx_nas_linux.RuleCache.{search_order}
use opx_nas_linux.RuleCache.Clear.{skips}
use opx_nas_linux.RuleCache.Valid.{
  AllValid, EntriesValid, with_vrf_rules-AllValid, with_mutex-AllValid,
}
use opx_nas_linux.Incoming.{incoming_class}
use opx_nas_linux.Incoming.Deletion.{proc_get-same}
use opx_nas_linux.Reading.{
  Filter, match_rule, read_rules, read_lists, read_slots, read_stats, incoming_types, get_all_rules,
}

module _ {K : Type 0} (read : RuleList Rule → Rule → K → Rule) where
  -- What reading leaves of a rule is left of every rule.
  read_rules-map :
      {B : Type 0} (g : Rule → B)
      → ((l : RuleList Rule) (r : Rule) (k : K) → g (read l r k) ≡ g r)
      → (f : Filter) (l : RuleList Rule) (rules : List Rule) (k : K)
      → map g (read_rules read f l rules k).0 ≡ map g rules
  unfolding read_rules
  read_rules-map g same f l [] k = refl
  read_rules-map g same f l (r ∷ rules) k = elim (Bool-cases (match_rule f r)) [
    | inl fits ↦ rw (fits, same, read_rules-map g same f l rules k) refl
    | inr other ↦ rw (other, read_rules-map g same f l rules k) refl
  ]

-- Reading leaves the ID and the key of a rule.
abbrev KeepsKeys : (c : RuleClass Rule) {K : Type 0} → (RuleList Rule → Rule → K → Rule) → Type 0
KeepsKeys c {K} read =
    ((l : RuleList Rule) (r : Rule) (k : K) → c.rule_id (read l r k) ≡ c.rule_id r)
    × ((l : RuleList Rule) (r : Rule) (k : K) → key c (read l r k) ≡ key c r)

module _ (c : RuleClass Rule) {K : Type 0} (read : RuleList Rule → Rule → K → Rule)
    (same : KeepsKeys c read) where
  read_rules-IsValid :
      (f : Filter) (l : RuleList Rule) (k : K)
      → IsValid c l
      → IsValid c (record l { rules = (read_rules read f l l.rules k).0 })
  read_rules-IsValid f l k v =
      let same_ids : map c.rule_id (read_rules read f l l.rules k).0 ≡ ids c l =
        read_rules-map read c.rule_id same.0 f l l.rules k in
      record {
        keyed = v.keyed ∙ sym (read_rules-map read (key c) same.1 f l l.rules k);
        sorted = v.sorted;
        distinct = rw same_ids v.distinct;
        assigned = rw same_ids v.assigned;
        mapped = λ i. rw same_ids (v.mapped i);
      }

  read_lists-EntriesValid :
      (f : Filter) (vrf_name : Option String) (d : VrfRules) (k : K)
      → EntriesValid c d
      → EntriesValid c (read_lists read f vrf_name d k).0
  unfolding read_lists EntriesValid
  read_lists-EntriesValid f vrf_name [] k all = all
  read_lists-EntriesValid f vrf_name ((vrf, l) ∷ rest) k all =
      let others = read_lists-EntriesValid f vrf_name rest k all.1 in
      elim (Bool-cases (skips vrf_name vrf)) [
        | inl skip ↦ rw skip (all.0, others)
        | inr take ↦ rw take (read_rules-IsValid f l k all.0, others)
      ]

module _ (c : RuleClass Rule) {sys : System} (read : RuleList Rule → Rule → sys.Kernel → Rule)
    (same : KeepsKeys c read) where
  read_slots-AllValid :
      (type_of : Bool → RuleType) (f : Filter) (rule_type : Option RuleType)
      (vrf_name : Option String) (ps : List Slot) (s : Tables sys)
      → AllValid c s
      → AllValid c (read_slots read type_of f rule_type vrf_name ps s).1
  unfolding read_slots
  read_slots-AllValid type_of f rule_type vrf_name [] s all = all
  read_slots-AllValid type_of f rule_type vrf_name (p ∷ ps) s all =
      let d = (read_lists read f vrf_name (vrf_rules p s) s.kernel).0 in
      elim (Bool-cases (skips rule_type (type_of p.is_ip))) [
        | inl skip ↦ rw skip (read_slots-AllValid type_of f rule_type vrf_name ps s all)
        | inr take ↦ rw take (
            read_slots-AllValid type_of f rule_type vrf_name ps (with_vrf_rules p d s) (
              with_vrf_rules-AllValid c p d s all (
                read_lists-EntriesValid c read same f vrf_name (vrf_rules p s) s.kernel
                  (all.entries p))))
      ]

read_stats-same :
    (sys : System) (l : RuleList Rule) (r : Rule) (k : sys.Kernel)
    → ((read_stats sys l r k).rule_id ≡ r.rule_id)
      × ((read_stats sys l r k).grp_priority ≡ r.grp_priority)
      × ((read_stats sys l r k).seq_num ≡ r.seq_num)
unfolding read_stats
read_stats-same sys l r k = elim (Bool-cases (is_some r.rule_id)) [
  | inr absent ↦ rw (absent, read_stats) (refl, refl, refl)
  | inl given ↦ elim (Option-cases (lookup r.rule_id l.rule_id_map)) [
    | inl missing ↦ rw (given, missing, read_stats) (refl, refl, refl)
    | inr (idx, at) ↦ rw (given, at, read_stats) (proc_get-same sys r idx k)
  ]
]

read_stats-KeepsKeys : (sys : System) → KeepsKeys incoming_class (read_stats sys)
read_stats-KeepsKeys sys = (
  λ l r k. (read_stats-same sys l r k).0,
  λ l r k. rw ((read_stats-same sys l r k).1, (read_stats-same sys l r k).2) refl,
)

module _ {sys : System} where
  -- `get_all_rules` of the incoming cache keeps every rule list valid, whatever is asked for.
  pub get_all_rules-AllValid :
      (rule_type : Option RuleType) (vrf_name : Option String) (f : Filter) (s : Tables sys)
      → AllValid incoming_class s
      → AllValid incoming_class (get_all_rules rule_type vrf_name f s).1
  unfolding get_all_rules
  get_all_rules-AllValid rule_type vrf_name f s all =
      let s1 = acquire s in
      let s2 =
        (read_slots (read_stats sys) incoming_types f rule_type vrf_name search_order s1).1 in
      with_mutex-AllValid incoming_class s2 (release s2).mutex (
        read_slots-AllValid incoming_class (read_stats sys) (read_stats-KeepsKeys sys)
          incoming_types f rule_type vrf_name search_order s1
          (with_mutex-AllValid incoming_class s s1.mutex all))
