-- ===== src/Outgoing/Lists.antt =====
-- Every rule list of the outgoing cache stays valid.
use opx_nas_linux.Prelude.{
  ℕ, String, Bool, true, false, Option, none, some, refl, ◌==◌, not, if◌then◌else◌, inl, inr,
  Bool-cases, Option-cases, eq_string, eq_nat, eq_option, lookup, get_elem?,
}
use opx_nas_linux.IdGenerator.{release_id}
use opx_nas_linux.RuleList
use opx_nas_linux.RuleList.{RuleList}
use opx_nas_linux.RuleList.Invariant.{IsValid}
use opx_nas_linux.RuleList.Methods.{insert-IsValid, delete_found-IsValid}
use opx_nas_linux.RuleList.Removal.{remove_by_id-IsValid, same_id}
use opx_nas_linux.Rule.{RuleType, Rule, eq_rule_type}
use opx_nas_linux.Iptables.{System, Op, proc_rule}
use opx_nas_linux.PrivatePorts.{process_outgoing_ip_svcs_sub_net_config}
use opx_nas_linux.RuleTables.{Tables, Slot, get_list, put_list, acquire, release}
use opx_nas_linux.RuleCache.{take_id, ensure_list, drop_empty, insert_back, release_rule_id}
use opx_nas_linux.RuleCache.Valid.{
  AllValid, AllValid-get_list, drop_empty-AllValid, ensure_list-AllValid, insert_back-AllValid,
  put_list-AllValid, with_mutex-AllValid, with_rest-AllValid, if-AllValid,
}
use opx_nas_linux.Outgoing.{
  outgoing_class, slot_of, alias_of, private_differs, remove_matching, remove_rule, sub_net_insert,
  sub_net_delete, bind_port, free_id, place_rule, insert_with_id, insert_rule, finish_delete,
  delete_removed, delete_rule, find_rule_by_id, delete_found_rule, delete_rule_by_id,
}

if-IsValid :
    (b : Bool) (x y : Option (Rule × ℕ) × RuleList Rule)
    → IsValid outgoing_class x.1
    → IsValid outgoing_class y.1
    → IsValid outgoing_class (if b then x else y).1
if-IsValid true x y v w = v
if-IsValid false x y v w = w

remove_matching-IsValid :
    (r : Rule) (l : RuleList Rule)
    → IsValid outgoing_class l
    → IsValid outgoing_class (remove_matching r l).1
unfolding remove_matching
remove_matching-IsValid r l v = elim (Option-cases (RuleList.index outgoing_class r l.rules)) [
  | inl out ↦ rw (out, remove_matching) v
  | inr (i, at) ↦
      let id = RuleList.id_at outgoing_class i l in
      rw (at, remove_matching)
        (if-IsValid (private_differs r (get_elem? l.rules i)) (none, l)
          (RuleList.delete_found outgoing_class i id l) v
          (delete_found-IsValid outgoing_class i id l v
            (λ x h. unfold RuleList.id_at in rw (h, RuleList.id_at) refl)))
]

-- `remove` keeps a list valid, whether it finds the rule by its ID, by equality, or not at all.
pub remove_rule-IsValid :
    (r : Rule) (l : RuleList Rule)
    → IsValid outgoing_class l
    → IsValid outgoing_class (remove_rule r l).1
unfolding remove_rule
remove_rule-IsValid r l v = elim (Option-cases r.rule_id) [
  | inl none_given ↦ rw (none_given, remove_rule) (remove_matching-IsValid r l v)
  | inr (id, has) ↦ elim (Option-cases (lookup (some id) l.rule_id_map)) [
    | inl out ↦ rw (has, out, remove_rule) (remove_matching-IsValid r l v)
    | inr (i, at) ↦
        rw (has, at, remove_rule)
          (delete_found-IsValid outgoing_class i (some id) l v (same_id outgoing_class l id v at))
  ]
]

module _ {sys : System} where
  sub_net_delete-AllValid :
      (r : Rule) (s : Tables sys)
      → AllValid outgoing_class s
      → AllValid outgoing_class (sub_net_delete r s)
  unfolding sub_net_delete
  sub_net_delete-AllValid r s all =
      if-AllValid outgoing_class (not (r.rule_type == RuleType.out_ip)) s
        (record s {
          ports =
              (process_outgoing_ip_svcs_sub_net_config false (sys.vrfs.private_ip r.af r.vrf_name)
                (alias_of r) s.ports).1;
        })
        all (with_rest-AllValid outgoing_class s s.mutex s.id_generator _ s.kernel all)

  bind_port-AllValid :
      (r : Rule) (s : Tables sys)
      → AllValid outgoing_class s
      → AllValid outgoing_class (bind_port r s).1
  unfolding bind_port sub_net_insert
  bind_port-AllValid r s all = elim (Bool-cases (r.rule_type == RuleType.out_ip)) [
    | inl out ↦
        rw (out, bind_port)
          (with_rest-AllValid outgoing_class s s.mutex s.id_generator _ s.kernel all)
    | inr snat ↦ rw (snat, bind_port) all
  ]

  free_id-AllValid :
      (id : ℕ) (s : Tables sys) → AllValid outgoing_class s → AllValid outgoing_class (free_id id s)
  free_id-AllValid id s all =
      with_rest-AllValid outgoing_class s s.mutex (release_id id s.id_generator).1 s.ports s.kernel
        all

  place_rule-AllValid :
      (r : Rule) (id : ℕ) (o : Option ℕ) (l : RuleList Rule) (s : Tables sys)
      → AllValid outgoing_class s
      → IsValid outgoing_class l
      → AllValid outgoing_class (place_rule r id o l s).1
  unfolding place_rule
  place_rule-AllValid r id none l s all valid =
      free_id-AllValid id (sub_net_delete r s) (sub_net_delete-AllValid r s all)
  place_rule-AllValid r id (some idx) l s all valid =
      let (done, k) = proc_rule sys Op.insert r (some idx) s.kernel in
      let s1 = record s { kernel = k } in
      let all1 = with_rest-AllValid outgoing_class s s.mutex s.id_generator s.ports k all in
      let l' = (remove_rule r l).1 in
      let s2 = put_list (slot_of r) r.vrf_name l' (free_id id s1) in
      if-AllValid outgoing_class done (put_list (slot_of r) r.vrf_name l s1) (sub_net_delete r s2)
        (put_list-AllValid outgoing_class (slot_of r) r.vrf_name l s1 all1 valid)
        (sub_net_delete-AllValid r s2 (
          put_list-AllValid outgoing_class (slot_of r) r.vrf_name l' (free_id id s1)
            (free_id-AllValid id s1 all1) (remove_rule-IsValid r l valid)))

  insert_with_id-AllValid :
      (r : Rule) (o : Option ℕ) (l : RuleList Rule) (s : Tables sys)
      → AllValid outgoing_class s
      → IsValid outgoing_class l
      → AllValid outgoing_class (insert_with_id r o l s).1
  unfolding insert_with_id
  insert_with_id-AllValid r none l s all valid = all
  insert_with_id-AllValid r (some id) l s all valid =
      let ((bound, r'), s1) = bind_port (record r { rule_id = some id }) s in
      let all1 = bind_port-AllValid (record r { rule_id = some id }) s all in
      elim (Bool-cases bound) [
        | inl yes_bound ↦
            rw (yes_bound, insert_with_id)
              (place_rule-AllValid r' id (RuleList.insert outgoing_class r' l).0
                (RuleList.insert outgoing_class r' l).1 s1 all1
                (insert-IsValid outgoing_class r' l valid))
        | inr refused ↦ rw (refused, insert_with_id) (free_id-AllValid id s1 all1)
      ]

  -- `insert_rule` of the outgoing cache keeps every rule list valid, on every branch.
  pub insert_rule-AllValid :
      (r : Rule) (s : Tables sys)
      → AllValid outgoing_class s
      → AllValid outgoing_class (insert_rule r s).1
  unfolding insert_rule
  insert_rule-AllValid r s all =
      let (l, s1) = ensure_list (slot_of r) r.vrf_name (acquire s) in
      let (valid, all1) =
        ensure_list-AllValid outgoing_class (slot_of r) r.vrf_name (acquire s)
          (with_mutex-AllValid outgoing_class s (acquire s).mutex all) in
      let (id, g) = take_id r.rule_id s1.id_generator in
      let s2 = (insert_with_id r id l (record s1 { id_generator = g })).1 in
      with_mutex-AllValid outgoing_class s2 (release s2).mutex (
        insert_with_id-AllValid r id l (record s1 { id_generator = g })
          (with_rest-AllValid outgoing_class s1 s1.mutex g s1.ports s1.kernel all1) valid)

  finish_delete-AllValid :
      (p : Slot) (v : String) (r : Rule) (idx : ℕ) (id : Option ℕ) (s : Tables sys)
      → AllValid outgoing_class s
      → AllValid outgoing_class (finish_delete p v r idx id s).1
  unfolding finish_delete
  finish_delete-AllValid p v r idx id s all =
      let (done, k) = proc_rule sys Op.delete r (some idx) s.kernel in
      let s1 = record s { kernel = k } in
      let all1 = with_rest-AllValid outgoing_class s s.mutex s.id_generator s.ports k all in
      let back = insert_back outgoing_class p r s1 in
      let s2 = if done then sub_net_delete r s1 else back in
      let s3 = release (drop_empty p v s2) in
      let all3 = with_mutex-AllValid outgoing_class (drop_empty p v s2) s3.mutex (
        drop_empty-AllValid outgoing_class p v s2 (
          if-AllValid outgoing_class done (sub_net_delete r s1) back
            (sub_net_delete-AllValid r s1 all1)
            (insert_back-AllValid outgoing_class p r s1 all1))) in
      if-AllValid outgoing_class done
        (record s3 { id_generator = release_rule_id id s3.id_generator }) s3
        (with_rest-AllValid outgoing_class s3 s3.mutex (release_rule_id id s3.id_generator) s3.ports
          s3.kernel all3)
        all3

  -- `delete_rule` of the outgoing cache keeps every rule list valid, on every branch.
  pub delete_rule-AllValid :
      (r : Rule) (s : Tables sys)
      → AllValid outgoing_class s
      → AllValid outgoing_class (delete_rule r s).1
  unfolding delete_rule delete_removed
  delete_rule-AllValid r s all = elim (Option-cases (get_list (slot_of r) r.vrf_name s)) [
    | inl absent ↦
        rw (absent, delete_rule)
          (with_mutex-AllValid outgoing_class s (release (acquire s)).mutex all)
    | inr (l, at) ↦
        let l' = (remove_rule r l).1 in
        let all1 = with_mutex-AllValid outgoing_class s (acquire s).mutex all in
        let valid =
          remove_rule-IsValid r l
            (AllValid-get_list outgoing_class s (slot_of r) r.vrf_name all at) in
        elim (Option-cases (remove_rule r l).0) [
          | inl gone ↦
              rw (at, gone, delete_rule)
                (with_mutex-AllValid outgoing_class s (release (acquire s)).mutex all)
          | inr ((d, idx), removed) ↦
              rw (at, removed, delete_rule)
                (finish_delete-AllValid (slot_of r) r.vrf_name d idx d.rule_id
                  (put_list (slot_of r) r.vrf_name l' (acquire s))
                  (put_list-AllValid outgoing_class (slot_of r) r.vrf_name l' (acquire s) all1
                    valid))
        ]
  ]

  delete_found_rule-AllValid :
      (id : ℕ) (r : Rule) (idx : ℕ) (s : Tables sys)
      → AllValid outgoing_class s
      → AllValid outgoing_class (delete_found_rule id r idx s).1
  unfolding delete_found_rule
  delete_found_rule-AllValid id r idx s all =
      elim (Option-cases (get_list (slot_of r) r.vrf_name s)) [
        | inl absent ↦
            rw (absent, delete_found_rule)
              (with_mutex-AllValid outgoing_class s (release s).mutex all)
        | inr (l, at) ↦ elim (Option-cases (RuleList.remove_by_id outgoing_class id l).0) [
          | inl absent ↦
              rw (at, absent, delete_found_rule)
                (with_mutex-AllValid outgoing_class s (release s).mutex all)
          | inr (old, removed) ↦
              let l' = (RuleList.remove_by_id outgoing_class id l).1 in
              rw (at, removed, delete_found_rule)
                (finish_delete-AllValid (slot_of r) r.vrf_name r idx (some id)
                  (put_list (slot_of r) r.vrf_name l' s)
                  (put_list-AllValid outgoing_class (slot_of r) r.vrf_name l' s all (
                    remove_by_id-IsValid outgoing_class id l
                      (AllValid-get_list outgoing_class s (slot_of r) r.vrf_name all at))))
        ]
      ]

  -- `delete_rule_by_id` of the outgoing cache keeps every rule list valid, on every branch.
  pub delete_rule_by_id-AllValid :
      (id : ℕ) (s : Tables sys)
      → AllValid outgoing_class s
      → AllValid outgoing_class (delete_rule_by_id id s).1
  unfolding delete_rule_by_id
  delete_rule_by_id-AllValid id s all =
      let all1 = with_mutex-AllValid outgoing_class s (acquire s).mutex all in
      elim (Option-cases (find_rule_by_id id (acquire s))) [
        | inl absent ↦
            rw (absent, delete_rule_by_id)
              (with_mutex-AllValid outgoing_class s (release (acquire s)).mutex all)
        | inr ((r, idx), found) ↦
            rw (found, delete_rule_by_id) (delete_found_rule-AllValid id r idx (acquire s) all1)
      ]
