-- ===== src/Outgoing.antt =====
-- `VrfOutgoingSvcsRuleCache` of scripts/lib/python/dn_base_vrf_svcs_config.py, and the `remove` of its
-- lists.
pub mod Lists
pub mod Failures
pub mod Bindings
use opx_nas_linux.Prelude.{
  ℕ, String, Bool, true, false, Option, none, some, List, [], ◌∷◌, nat_eq, HasEq, ◌==◌, not, ◌||◌,
  ◌&&◌, length, if◌then◌else◌, lookup, eq_nat, eq_option, get_elem?,
}
use opx_nas_linux.IdGenerator.{IdGenerator, release_id}
use opx_nas_linux.RuleList
use opx_nas_linux.RuleList.{RuleClass, RuleList}
use opx_nas_linux.Rule.{Af, RuleType, Rule, Ip, group_prio_value, eq_rule_type, eq_ip}
use opx_nas_linux.Rule.Incoming.{Args}
use opx_nas_linux.Rule.Outgoing.{is_rule_equal, init_outgoing}
use opx_nas_linux.Iptables.{System, Op, proc_rule}
use opx_nas_linux.PrivatePorts.{Alias, process_outgoing_ip_svcs_sub_net_config}
use opx_nas_linux.RuleCache.{
  take_id, release_rule_id, ensure_list, drop_empty, insert_back, Found, find_slots, search_order,
}
use opx_nas_linux.RuleCache.Clear.{clear_all}
use opx_nas_linux.RuleTables.{Tables, Slot, get_list, put_list, acquire, release}

-- What a `VrfOutgoingSvcsRuleList` reads of its rules.
abbrev pub outgoing_class : RuleClass Rule
outgoing_class = record {
  rule_id = λ r. r.rule_id;
  grp_priority = λ r. group_prio_value r.grp_priority;
  seq_num = λ r. r.seq_num;
  is_rule_equal = is_rule_equal;
}

-- `insert` and `remove_by_id` of `VrfOutgoingSvcsRuleList`, which read as those of the incoming list
abbrev pub insert : Rule → RuleList Rule → Option ℕ × RuleList Rule
insert rule l = RuleList.insert outgoing_class rule l

abbrev pub remove_by_id : ℕ → RuleList Rule → Option Rule × RuleList Rule
remove_by_id rule_id l = RuleList.remove_by_id outgoing_class rule_id l

-- `cls.ip_rules[rule.af] if rule.rule_type == RULE_TYPE_OUT_IP else cls.snat_rules[rule.af]`
abbrev pub slot_of : Rule → Slot
slot_of r = record { is_ip = r.rule_type == RuleType.out_ip; af = r.af }

-- `x is not None and (y is None or x != y)`
abbrev pub given_differs : {A : Type 0} ⦃e : HasEq A⦄ → Option A → Option A → Bool
given_differs none y = false
given_differs (some x) y = not (some x == y)

-- The tests of `remove` on the private address and port, against the rule at the position found.
unfoldable pub private_differs : Rule → Option Rule → Bool
private_differs rule none = false
private_differs rule (some found) =
    rule.rule_type == RuleType.out_ip
    && (given_differs rule.private_ip found.private_ip
        || given_differs rule.private_port found.private_port)

-- `remove` of a rule whose ID is not in the map
unfoldable pub remove_matching : Rule → RuleList Rule → Option (Rule × ℕ) × RuleList Rule
unfolding RuleList.index RuleList.delete_found RuleList.id_at private_differs
remove_matching rule l = elim (RuleList.index outgoing_class rule l.rules) [
  | none ↦ (none, l)
  | some idx ↦
      if private_differs rule (get_elem? l.rules idx)
      then (none, l)
      else RuleList.delete_found outgoing_class idx (RuleList.id_at outgoing_class idx l) l
]

-- `VrfOutgoingSvcsRuleList.remove`
unfoldable pub remove_rule : Rule → RuleList Rule → Option (Rule × ℕ) × RuleList Rule
unfolding remove_matching RuleList.delete_found
remove_rule rule l = elim rule.rule_id [
  | none ↦ remove_matching rule l
  | some id ↦ elim (lookup (some id) l.rule_id_map) [
    | some idx ↦ RuleList.delete_found outgoing_class idx (some id) l
    | none ↦ remove_matching rule l
  ]
]

abbrev pub alias_of : Rule → Alias
alias_of r = record {
  vrf_name = r.vrf_name;
  af = r.af;
  public_ip = r.dst_ip;
  protocol = r.protocol;
  public_port = r.dst_port;
}

module _ {sys : System} where
  -- `outgoing_ip_svcs_rule_sub_net_config` for 'insert': the rule is given its private address and
  -- port.
  unfoldable pub sub_net_insert : Rule → Tables sys → (Bool × Rule) × Tables sys
  unfolding process_outgoing_ip_svcs_sub_net_config
  sub_net_insert rule s =
      let (result, m) =
        process_outgoing_ip_svcs_sub_net_config true (sys.vrfs.private_ip rule.af rule.vrf_name)
          (alias_of rule) s.ports in
      if not (rule.rule_type == RuleType.out_ip) then ((false, rule), s) else (
        elim result [
          | none ↦ (false, rule)
          | some (ip, port) ↦ (true, record rule { private_ip = some ip; private_port = some port })
        ],
        record s { ports = m },
      )

  -- `outgoing_ip_svcs_rule_sub_net_config` for 'delete', whose result the callers drop
  unfoldable pub sub_net_delete : Rule → Tables sys → Tables sys
  unfolding process_outgoing_ip_svcs_sub_net_config
  sub_net_delete rule s = if not (rule.rule_type == RuleType.out_ip) then s else record s {
    ports =
        (process_outgoing_ip_svcs_sub_net_config false (sys.vrfs.private_ip rule.af rule.vrf_name)
          (alias_of rule) s.ports).1;
  }

  -- The allocation of `insert_rule`, which a SNAT rule does without.
  unfoldable pub bind_port : Rule → Tables sys → (Bool × Rule) × Tables sys
  unfolding sub_net_insert
  bind_port rule s =
      if rule.rule_type == RuleType.out_ip then sub_net_insert rule s else ((true, rule), s)

  abbrev pub free_id : ℕ → Tables sys → Tables sys
  free_id id s = record s { id_generator = (release_id id s.id_generator).1 }

  -- `insert_rule` after the insertion into the list: the kernel, and the rollbacks
  unfoldable pub place_rule : Rule → ℕ → Option ℕ → RuleList Rule → Tables sys → Bool × Tables sys
  unfolding sub_net_delete remove_rule
  place_rule rule id none l s = (false, free_id id (sub_net_delete rule s))
  place_rule rule id (some idx) l s =
      let (done, k) = proc_rule sys Op.insert rule (some idx) s.kernel in
      let s1 = record s { kernel = k } in
      (
        done,
        if done
            then put_list (slot_of rule) rule.vrf_name l s1
            else sub_net_delete rule
                (put_list (slot_of rule) rule.vrf_name (remove_rule rule l).1 (free_id id s1)),
      )

  -- `insert_rule` from the choice of the ID on, with the lock held
  unfoldable pub insert_with_id :
      Rule → Option ℕ → RuleList Rule → Tables sys → (Bool × Rule) × Tables sys
  unfolding bind_port place_rule
  insert_with_id rule none l s = ((false, rule), s)
  insert_with_id rule (some id) l s =
      let ((bound, rule'), s1) = bind_port (record rule { rule_id = some id }) s in
      let (idx, l') = insert rule' l in
      let (done, s2) = place_rule rule' id idx l' s1 in
      if bound then ((done, rule'), s2) else ((false, rule'), free_id id s1)

  -- `insert_rule`: the result, and the rule object, which is given its ID, address and port
  unfoldable pub insert_rule : Rule → Tables sys → (Bool × Rule) × Tables sys
  unfolding ensure_list take_id insert_with_id
  insert_rule rule s =
      let (l, s1) = ensure_list (slot_of rule) rule.vrf_name (acquire s) in
      let (id, g) = take_id rule.rule_id s1.id_generator in
      let (result, s2) = insert_with_id rule id l (record s1 { id_generator = g }) in
      (result, release s2)

  -- The deletions after the rule has left its list. `vrf_name` is the list that is dropped when empty.
  unfoldable pub finish_delete :
      Slot → String → Rule → ℕ → Option ℕ → Tables sys → Bool × Tables sys
  unfolding drop_empty insert_back sub_net_delete
  finish_delete p vrf_name del_rule idx rule_id s =
      let (done, k) = proc_rule sys Op.delete del_rule (some idx) s.kernel in
      let s1 = record s { kernel = k } in
      let s2 =
        drop_empty p vrf_name
          (if done then sub_net_delete del_rule s1 else insert_back outgoing_class p del_rule s1) in
      let s3 = release s2 in
      (
        done,
        if done then record s3 { id_generator = release_rule_id rule_id s3.id_generator } else s3,
      )

  -- `delete_rule` after `remove`
  unfoldable pub delete_removed :
      Slot → String → Option (Rule × ℕ) → RuleList Rule → Tables sys → Bool × Tables sys
  unfolding finish_delete
  delete_removed p vrf_name none l s = (false, release s)
  delete_removed p vrf_name (some (del_rule, idx)) l s =
      finish_delete p vrf_name del_rule idx del_rule.rule_id (put_list p vrf_name l s)

  unfoldable pub delete_rule : Rule → Tables sys → Bool × Tables sys
  unfolding delete_removed remove_rule
  delete_rule rule s = elim (get_list (slot_of rule) rule.vrf_name s) [
    | none ↦ (false, release (acquire s))
    | some l ↦
        let (removed, l') = remove_rule rule l in
        delete_removed (slot_of rule) rule.vrf_name removed l' (acquire s)
  ]

  -- This cache does not read statistics.
  unfoldable pub find_rule_by_id : ℕ → Tables sys → Option (Rule × ℕ)
  unfolding find_slots
  find_rule_by_id rule_id s = elim (find_slots outgoing_class search_order rule_id s) [
    | none ↦ none
    | some f ↦ some (f.rule, f.idx)
  ]

  unfoldable pub find_rule_by_match : Rule → Tables sys → Option Rule
  find_rule_by_match rule s = elim (get_list (slot_of rule) rule.vrf_name s) [
    | none ↦ none
    | some l ↦ elim (RuleList.index outgoing_class rule l.rules) [
      | none ↦ none
      | some idx ↦ get_elem? l.rules idx
    ]
  ]

  -- `delete_rule_by_id` once the rule was found
  unfoldable pub delete_found_rule : ℕ → Rule → ℕ → Tables sys → Bool × Tables sys
  unfolding finish_delete
  delete_found_rule rule_id del_rule idx s =
      elim (get_list (slot_of del_rule) del_rule.vrf_name s) [
        | none ↦ (false, release s)
        | some l ↦
            let (removed, l') = remove_by_id rule_id l in
            elim removed [
              | none ↦ (false, release s)
              | some _ ↦
                  finish_delete (slot_of del_rule) del_rule.vrf_name del_rule idx (some rule_id)
                    (put_list (slot_of del_rule) del_rule.vrf_name l' s)
            ]
      ]

  unfoldable pub delete_rule_by_id : ℕ → Tables sys → Bool × Tables sys
  unfolding find_rule_by_id delete_found_rule
  delete_rule_by_id rule_id s = elim (find_rule_by_id rule_id (acquire s)) [
    | none ↦ (false, release (acquire s))
    | some (del_rule, idx) ↦ delete_found_rule rule_id del_rule idx (acquire s)
  ]

  -- `replace_rule` once the rule was found
  unfoldable pub replace_found : Rule → ℕ → Rule → Tables sys → Bool × Tables sys
  replace_found old_rule idx new_rule s =
      let (done, k) = proc_rule sys Op.replace new_rule (some idx) s.kernel in
      let s1 = record s { kernel = k } in
      let s2 : Tables sys = elim (get_list (slot_of old_rule) old_rule.vrf_name s1) [
        | none ↦ s1
        | some l ↦
            put_list (slot_of old_rule) old_rule.vrf_name (RuleList.replace_at idx new_rule l) s1
      ] in
      (done, release (if done then s2 else s1))

  unfoldable pub replace_rule : ℕ → Rule → Tables sys → Bool × Tables sys
  unfolding find_rule_by_id replace_found
  replace_rule rule_id new_rule s = elim (find_rule_by_id rule_id (acquire s)) [
    | none ↦ (false, release (acquire s))
    | some (old_rule, idx) ↦ replace_found old_rule idx new_rule (acquire s)
  ]

  -- what `clear_all_rules` does to a rule; a rule of `snat_rules` has no port
  unfoldable pub drop_rule : Slot → Rule → Tables sys → Tables sys
  unfolding sub_net_delete
  drop_rule p rule s =
      let s1 = record s { kernel = (proc_rule sys Op.delete rule none s.kernel).1 } in
      let s2 = if p.is_ip then sub_net_delete rule s1 else s1 in
      record s2 { id_generator = release_rule_id rule.rule_id s2.id_generator }

  unfoldable pub clear_all_rules : Option String → Option Af → Tables sys → Tables sys
  unfolding clear_all drop_rule
  clear_all_rules flt_vrf flt_af s = clear_all drop_rule flt_vrf flt_af s

  -- The entry points catch every exception of the constructor; `none` is (None, None, None).
  unfoldable pub process_vrf_outgoing_svcs_rule_add : Args → Tables sys → Option Rule × Tables sys
  unfolding init_outgoing insert_rule
  process_vrf_outgoing_svcs_rule_add a s = elim (init_outgoing a) [
    | none ↦ (none, s)
    | some rule ↦
        let ((done, rule'), s') = insert_rule rule s in ((if done then some rule' else none), s')
  ]

  unfoldable pub process_vrf_outgoing_svcs_rule_del : Args → Tables sys → Bool × Tables sys
  unfolding init_outgoing delete_rule
  process_vrf_outgoing_svcs_rule_del a s = elim (init_outgoing a) [
    | none ↦ (false, s)
    | some rule ↦ delete_rule rule s
  ]

  abbrev pub process_vrf_outgoing_svcs_rule_del_by_id : ℕ → Tables sys → Bool × Tables sys
  process_vrf_outgoing_svcs_rule_del_by_id rule_id s = delete_rule_by_id rule_id s

  -- without its answer, which is True
  abbrev pub process_vrf_outgoing_svcs_clear_rules : Option String → Tables sys → Tables sys
  process_vrf_outgoing_svcs_clear_rules vrf_name s = clear_all_rules vrf_name none s
