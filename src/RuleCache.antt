-- ===== src/RuleCache.antt =====
-- What the class methods of `VrfIncomingSvcsRuleCache` and `VrfOutgoingSvcsRuleCache` of
-- scripts/lib/python/dn_base_vrf_svcs_config.py share.
pub mod Valid
pub mod Finding
pub mod Locks
pub mod Ids
pub mod Clear
pub mod Clearing
use opx_nas_linux.Prelude.{
  ℕ, String, Bool, true, false, Option, none, some, List, [], ◌∷◌, nat_eq, length, if◌then◌else◌,
  lookup,
}
use opx_nas_linux.IdGenerator.{IdGenerator, get_new_id, release_id, reserve_id, is_id_used}
use opx_nas_linux.RuleList
use opx_nas_linux.RuleList.{RuleClass, RuleList, empty}
use opx_nas_linux.Rule.{Af, Rule}
use opx_nas_linux.Iptables.{System}
use opx_nas_linux.RuleTables.{Tables, Slot, VrfRules, vrf_rules, get_list, put_list, del_list}

-- The ID for a new rule: a fresh one, or the given one if it is free.
unfoldable pub take_id : Option ℕ → IdGenerator → Option ℕ × IdGenerator
take_id none g = get_new_id g
take_id (some id) g =
    if is_id_used id g
    then (none, g)
    else let (reserved, g') = reserve_id id g in ((if reserved then some id else none), g')

-- `id_generator.release_id(rule_id)`; None is in no generator.
abbrev pub release_rule_id : Option ℕ → IdGenerator → IdGenerator
release_rule_id none g = g
release_rule_id (some id) g = (release_id id g).1

module _ {sys : System} where
  -- the list of a VRF, made empty if there is none
  unfoldable pub ensure_list : Slot → String → Tables sys → RuleList Rule × Tables sys
  ensure_list p vrf_name s = elim (get_list p vrf_name s) [
    | some l ↦ (l, s)
    | none ↦ (empty, put_list p vrf_name empty s)
  ]

  -- `del table[af][vrf_name]` if the list there is empty
  unfoldable pub drop_empty : Slot → String → Tables sys → Tables sys
  drop_empty p vrf_name s = elim (get_list p vrf_name s) [
    | none ↦ s
    | some l ↦ if nat_eq (length l.rules) 0 then del_list p vrf_name s else s
  ]

  -- `rule_list[del_rule.vrf_name].insert(del_rule)`
  unfoldable pub insert_back : RuleClass Rule → Slot → Rule → Tables sys → Tables sys
  insert_back c p rule s = elim (get_list p rule.vrf_name s) [
    | none ↦ s
    | some l ↦ put_list p rule.vrf_name (RuleList.insert c rule l).1 s
  ]

-- Where a rule was found: its table and VRF, its list, and its position there.
pub record Found : Type 0 where
  pub slot : Slot
  pub vrf_name : String
  pub rules : RuleList Rule
  pub rule : Rule
  pub idx : ℕ

-- the loop over `table[af].items()`
unfoldable pub find_in : RuleClass Rule → Slot → ℕ → VrfRules → Option Found
find_in c p rule_id [] = none
find_in c p rule_id ((vrf_name, l) ∷ rest) =
    let others = find_in c p rule_id rest in
    elim (RuleList.find_by_id c rule_id l) [
      | some (rule, idx) ↦
          some (record { slot = p; vrf_name = vrf_name; rules = l; rule = rule; idx = idx })
      | none ↦ others
    ]

-- the order in which `find_rule_by_id` looks through the tables
abbrev pub search_order : List Slot
search_order =
    record { is_ip = true; af = Af.inet }
    ∷ record { is_ip = false; af = Af.inet }
    ∷ record { is_ip = true; af = Af.inet6 }
    ∷ record { is_ip = false; af = Af.inet6 }
    ∷ []

module _ {sys : System} where
  unfoldable pub find_slots : RuleClass Rule → List Slot → ℕ → Tables sys → Option Found
  unfolding find_in
  find_slots c [] rule_id s = none
  find_slots c (p ∷ ps) rule_id s =
      let others = find_slots c ps rule_id s in
      elim (find_in c p rule_id (vrf_rules p s)) [ some f ↦ some f | none ↦ others ]
