-- ===== src/Incoming.antt =====
-- `VrfIncomingSvcsRuleCache` of scripts/lib/python/dn_base_vrf_svcs_config.py.
pub mod Lists
pub mod Mirror
pub mod Failures
pub mod Update
pub mod Clearing
pub mod Deletion
pub mod Locks
use opx_nas_linux.Prelude.{
  ℕ, String, Bool, true, false, Option, none, some, List, [], ◌∷◌, nat_eq, ◌==◌, not, ◌||◌, ◌&&◌,
  length, if◌then◌else◌, lookup, eq_nat, eq_option, get_elem?,
}
use opx_nas_linux.IdGenerator.{IdGenerator, get_new_id, release_id, reserve_id, is_id_used}
use opx_nas_linux.RuleList
use opx_nas_linux.RuleList.{RuleClass, RuleList, empty}
use opx_nas_linux.Rule.{Af, RuleType, Rule, group_prio_value, eq_rule_type}
use opx_nas_linux.Rule.Incoming.{is_rule_equal}
use opx_nas_linux.Iptables.{System, Op, proc_rule, proc_get}
use opx_nas_linux.RuleCache.{
  take_id, release_rule_id, ensure_list, drop_empty, insert_back, Found, find_slots, search_order,
}
use opx_nas_linux.RuleTables.{
  Tables, Slot, VrfRules, vrf_rules, get_list, put_list, del_list, acquire, release,
}

-- What a `VrfIncomingSvcsRuleList` reads of its rules.
abbrev pub incoming_class : RuleClass Rule
incoming_class = record {
  rule_id = λ r. r.rule_id;
  grp_priority = λ r. group_prio_value r.grp_priority;
  seq_num = λ r. r.seq_num;
  is_rule_equal = λ r1 r2. is_rule_equal (some r1) (some r2);
}

-- `cls.ip_rules[rule.af] if rule.rule_type == RULE_TYPE_IP else cls.acl_rules[rule.af]`
abbrev pub slot_of : Rule → Slot
slot_of r = record { is_ip = r.rule_type == RuleType.ip; af = r.af }

module _ {sys : System} where
  -- `insert_rule` after the insertion into the list: the kernel, and the rollback of the list if the
  -- kernel refuses. This rollback leaves the ID reserved; where the list refuses, the ID is released.
  unfoldable pub place_rule : Rule → ℕ → Option ℕ → RuleList Rule → Tables sys → Bool × Tables sys
  place_rule rule id none l s =
      (false, record s { id_generator = (release_id id s.id_generator).1 })
  place_rule rule id (some idx) l s =
      let (done, k) = proc_rule sys Op.insert rule (some idx) s.kernel in
      (
        done,
        put_list (slot_of rule) rule.vrf_name
            (if done then l else (RuleList.remove_rule incoming_class rule l).1)
            (record s { kernel = k }),
      )

  -- `insert_rule` from the choice of the ID on, with the lock held
  unfoldable pub insert_with_id :
      Rule → Option ℕ → RuleList Rule → Tables sys → (Bool × Rule) × Tables sys
  unfolding place_rule
  insert_with_id rule none l s = ((false, rule), s)
  insert_with_id rule (some id) l s =
      let rule' = record rule { rule_id = some id } in
      let (idx, l') = RuleList.insert incoming_class rule' l in
      let (done, s') = place_rule rule' id idx l' s in ((done, rule'), s')

  -- `insert_rule`: the result, and the rule object, which is given its ID
  unfoldable pub insert_rule : Rule → Tables sys → (Bool × Rule) × Tables sys
  unfolding ensure_list take_id insert_with_id
  insert_rule rule s =
      let (l, s1) = ensure_list (slot_of rule) rule.vrf_name (acquire s) in
      let (id, g) = take_id rule.rule_id s1.id_generator in
      let (result, s2) = insert_with_id rule id l (record s1 { id_generator = g }) in
      (result, release s2)

  -- The deletions after the rule has left its list: the kernel, the rollback, the empty list, the
  -- release of the lock and of the ID. `vrf_name` is the list that is dropped when empty.
  unfoldable pub finish_delete :
      Slot → String → Rule → ℕ → Option ℕ → Tables sys → Bool × Tables sys
  unfolding drop_empty insert_back
  finish_delete p vrf_name del_rule idx rule_id s =
      let (done, k) = proc_rule sys Op.delete del_rule (some idx) s.kernel in
      let s1 = record s { kernel = k } in
      let s2 =
        drop_empty p vrf_name (if done then s1 else insert_back incoming_class p del_rule s1) in
      let s3 = release s2 in
      (
        done,
        if done then record s3 { id_generator = release_rule_id rule_id s3.id_generator } else s3,
      )

  -- `delete_rule` after `remove`
  unfoldable pub delete_removed :
      Slot → String → Option (Rule × ℕ) → RuleList Rule → Tables sys → Bool × Tables sys
  unfolding finish_delete
  delete_removed p vrf_name none l s = (false, release s)
  delete_removed p vrf_name (some (del_rule, idx)) l s =
      finish_delete p vrf_name del_rule idx del_rule.rule_id (put_list p vrf_name l s)

  unfoldable pub delete_rule : Rule → Tables sys → Bool × Tables sys
  unfolding delete_removed
  delete_rule rule s = elim (get_list (slot_of rule) rule.vrf_name s) [
    | none ↦ (false, release (acquire s))
    | some l ↦
        let (removed, l') = RuleList.remove_rule incoming_class rule l in
        delete_removed (slot_of rule) rule.vrf_name removed l' (acquire s)
  ]

module _ {sys : System} where
  -- The rule that is found is asked for its statistics, which are written into the rule object in
  -- the list.
  unfoldable pub refresh : Found → Tables sys → Rule × Tables sys
  refresh f s =
      let r = (proc_get sys f.rule f.idx s.kernel).1 in
      (r, put_list f.slot f.vrf_name (RuleList.replace_at f.idx r f.rules) s)

  unfoldable pub find_rule_by_id : ℕ → Tables sys → Option (Rule × ℕ) × Tables sys
  unfolding find_slots refresh
  find_rule_by_id rule_id s = elim (find_slots incoming_class search_order rule_id (acquire s)) [
    | none ↦ (none, release (acquire s))
    | some f ↦ let (r, s') = refresh f (acquire s) in (some (r, f.idx), release s')
  ]

  unfoldable pub find_rule_by_match : Rule → Tables sys → Option Rule
  find_rule_by_match rule s = elim (get_list (slot_of rule) rule.vrf_name s) [
    | none ↦ none
    | some l ↦ elim (RuleList.index incoming_class rule l.rules) [
      | none ↦ none
      | some idx ↦ get_elem? l.rules idx
    ]
  ]

  -- `delete_rule_by_id` once the rule was found
  unfoldable pub delete_found_rule : ℕ → Rule → ℕ → Tables sys → Bool × Tables sys
  unfolding finish_delete
  delete_found_rule rule_id del_rule idx s =
      elim (get_list (slot_of del_rule) del_rule.vrf_name s) [
        | none ↦ (false, release s)
        | some l ↦
            let (removed, l') = RuleList.remove_by_id incoming_class rule_id l in
            elim removed [
              | none ↦ (false, release s)
              | some _ ↦
                  finish_delete (slot_of del_rule) del_rule.vrf_name del_rule idx (some rule_id)
                    (put_list (slot_of del_rule) del_rule.vrf_name l' s)
            ]
      ]

  unfoldable pub delete_rule_by_id : ℕ → Tables sys → Bool × Tables sys
  unfolding find_rule_by_id delete_found_rule
  delete_rule_by_id rule_id s =
      let (found, s1) = find_rule_by_id rule_id (acquire s) in
      elim found [
        | none ↦ (false, release s1)
        | some (del_rule, idx) ↦ delete_found_rule rule_id del_rule idx s1
      ]

  -- `replace_rule` once the rule was found
  unfoldable pub replace_found : Rule → ℕ → Rule → Tables sys → Bool × Tables sys
  replace_found old_rule idx new_rule s =
      let (done, k) = proc_rule sys Op.replace new_rule (some idx) s.kernel in
      let s1 = record s { kernel = k } in
      let s2 : Tables sys = elim (get_list (slot_of old_rule) old_rule.vrf_name s1) [
        | none ↦ s1
        | some l ↦
            put_list (slot_of old_rule) old_rule.vrf_name (RuleList.replace_at idx new_rule l) s1
      ] in
      (done, release (if done then s2 else s1))

  unfoldable pub replace_rule : ℕ → Rule → Tables sys → Bool × Tables sys
  unfolding find_rule_by_id replace_found
  replace_rule rule_id new_rule s =
      let (found, s1) = find_rule_by_id rule_id (acquire s) in
      elim found [
        | none ↦ (false, release s1)
        | some (old_rule, idx) ↦ replace_found old_rule idx new_rule s1
      ]
