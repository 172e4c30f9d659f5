-- ===== src/Incoming/Lists.antt =====
-- Every rule list of the incoming cache stays valid.
use opx_nas_linux.Prelude.{
  ℕ, String, Bool, true, false, Option, none, some, if◌then◌else◌, inl, inr, Option-cases,
  eq_string,
}
use opx_nas_linux.IdGenerator.{release_id}
use opx_nas_linux.RuleList
use opx_nas_linux.RuleList.{RuleList, empty}
use opx_nas_linux.RuleList.Invariant.{IsValid}
use opx_nas_linux.RuleList.Methods.{insert-IsValid}
use opx_nas_linux.RuleList.Removal.{remove_rule-IsValid}
use opx_nas_linux.Rule.{Rule, eq_rule_type}
use opx_nas_linux.Iptables.{System, Op, proc_rule}
use opx_nas_linux.RuleTables.{Tables, Slot, get_list, put_list, acquire, release}
use opx_nas_linux.RuleCache.{take_id, ensure_list, drop_empty, insert_back, release_rule_id}
use opx_nas_linux.Incoming.{
  incoming_class, slot_of, place_rule, insert_with_id, insert_rule, finish_delete, delete_removed,
  delete_rule,
}
use opx_nas_linux.RuleCache.Valid.{
  AllValid, AllValid-get_list, drop_empty-AllValid, ensure_list-AllValid, insert_back-AllValid,
  put_list-AllValid, with_mutex-AllValid, with_rest-AllValid,
}

module _ {sys : System} where
  place_rule-AllValid :
      (r : Rule) (id : ℕ) (idx : Option ℕ) (l : RuleList Rule) (s : Tables sys)
      → AllValid incoming_class s
      → IsValid incoming_class l
      → AllValid incoming_class (place_rule r id idx l s).1
  unfolding place_rule
  place_rule-AllValid r id none l s all valid =
      with_rest-AllValid incoming_class s s.mutex (release_id id s.id_generator).1 s.ports s.kernel
        all
  place_rule-AllValid r id (some idx) l s all valid =
      let (done, k) = proc_rule sys Op.insert r (some idx) s.kernel in
      put_list-AllValid incoming_class (slot_of r) r.vrf_name
        (if done then l else (RuleList.remove_rule incoming_class r l).1) (record s { kernel = k })
        (with_rest-AllValid incoming_class s s.mutex s.id_generator s.ports k all) (kept done)
    where
      kept :
          (done : Bool)
          → IsValid incoming_class (if done then l else (RuleList.remove_rule incoming_class r l).1)
      kept true = valid
      kept false = remove_rule-IsValid incoming_class r l valid

  insert_with_id-AllValid :
      (r : Rule) (id : Option ℕ) (l : RuleList Rule) (s : Tables sys)
      → AllValid incoming_class s
      → IsValid incoming_class l
      → AllValid incoming_class (insert_with_id r id l s).1
  unfolding insert_with_id
  insert_with_id-AllValid r none l s all valid = all
  insert_with_id-AllValid r (some id) l s all valid =
      let r' = record r { rule_id = some id } in
      place_rule-AllValid r' id (RuleList.insert incoming_class r' l).0
        (RuleList.insert incoming_class r' l).1 s all (insert-IsValid incoming_class r' l valid)

  -- `insert_rule` keeps every rule list valid, on every branch.
  pub insert_rule-AllValid :
      (r : Rule) (s : Tables sys)
      → AllValid incoming_class s
      → AllValid incoming_class (insert_rule r s).1
  unfolding insert_rule
  insert_rule-AllValid r s all =
      let (l, s1) = ensure_list (slot_of r) r.vrf_name (acquire s) in
      let (valid, all1) = ensure_list-AllValid incoming_class (slot_of r) r.vrf_name (acquire s) (
        with_rest-AllValid incoming_class s (acquire s).mutex s.id_generator s.ports s.kernel
          all) in
      let (id, g) = take_id r.rule_id s1.id_generator in
      let s2 = (insert_with_id r id l (record s1 { id_generator = g })).1 in
      with_rest-AllValid incoming_class s2 (release s2).mutex s2.id_generator s2.ports s2.kernel (
        insert_with_id-AllValid r id l (record s1 { id_generator = g })
          (with_rest-AllValid incoming_class s1 s1.mutex g s1.ports s1.kernel all1) valid)

  pub finish_delete-AllValid :
      (p : Slot) (v : String) (r : Rule) (idx : ℕ) (id : Option ℕ) (s : Tables sys)
      → AllValid incoming_class s
      → AllValid incoming_class (finish_delete p v r idx id s).1
  unfolding finish_delete
  finish_delete-AllValid p v r idx id s all =
      let (done, k) = proc_rule sys Op.delete r (some idx) s.kernel in
      let s1 = record s { kernel = k } in
      let all1 = with_rest-AllValid incoming_class s s.mutex s.id_generator s.ports k all in
      let s2 = drop_empty p v (if done then s1 else insert_back incoming_class p r s1) in
      closed done s2 (
        drop_empty-AllValid incoming_class p v
          (if done then s1 else insert_back incoming_class p r s1) (back done s1 all1))
    where
      back :
          (done : Bool) (s1 : Tables sys)
          → AllValid incoming_class s1
          → AllValid incoming_class (if done then s1 else insert_back incoming_class p r s1)
      back true s1 all1 = all1
      back false s1 all1 = insert_back-AllValid incoming_class p r s1 all1

      closed :
          (done : Bool) (s2 : Tables sys)
          → AllValid incoming_class s2
          → AllValid incoming_class (
              if done
              then record (release s2) {
                id_generator = release_rule_id id (release s2).id_generator;
              }
              else release s2)
      closed true s2 all2 =
          with_rest-AllValid incoming_class s2 (release s2).mutex
            (release_rule_id id s2.id_generator) s2.ports s2.kernel all2
      closed false s2 all2 =
          with_rest-AllValid incoming_class s2 (release s2).mutex s2.id_generator s2.ports s2.kernel
            all2

  delete_removed-AllValid :
      (p : Slot) (v : String) (o : Option (Rule × ℕ)) (l : RuleList Rule) (s : Tables sys)
      → AllValid incoming_class s
      → IsValid incoming_class l
      → AllValid incoming_class (delete_removed p v o l s).1
  unfolding delete_removed
  delete_removed-AllValid p v none l s all valid =
      with_mutex-AllValid incoming_class s (release s).mutex all
  delete_removed-AllValid p v (some (r, idx)) l s all valid =
      finish_delete-AllValid p v r idx r.rule_id (put_list p v l s)
        (put_list-AllValid incoming_class p v l s all valid)

  -- `delete_rule` keeps every rule list valid, on every branch.
  pub delete_rule-AllValid :
      (r : Rule) (s : Tables sys)
      → AllValid incoming_class s
      → AllValid incoming_class (delete_rule r s).1
  unfolding delete_rule
  delete_rule-AllValid r s all = elim (Option-cases (get_list (slot_of r) r.vrf_name s)) [
    | inl absent ↦
        rw (absent, delete_rule)
          (with_mutex-AllValid incoming_class s (release (acquire s)).mutex all)
    | inr (l, at) ↦
        rw (at, delete_rule)
          (delete_removed-AllValid (slot_of r) r.vrf_name
            (RuleList.remove_rule incoming_class r l).0 (RuleList.remove_rule incoming_class r l).1
            (acquire s) (with_mutex-AllValid incoming_class s (acquire s).mutex all)
            (remove_rule-IsValid incoming_class r l
              (AllValid-get_list incoming_class s (slot_of r) r.vrf_name all at)))
  ]
