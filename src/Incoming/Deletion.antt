-- ===== src/Incoming/Deletion.antt =====
-- `find_rule_by_id` and `delete_rule_by_id` on the rule lists of the incoming cache.
use opx_nas_linux.Prelude.{ℕ, some, ◌≡◌, refl, arith, inl, inr, Option-cases, eq_string}
use opx_nas_linux.RuleList
use opx_nas_linux.RuleList.{RuleList}
use opx_nas_linux.RuleList.Removal.{remove_by_id-IsValid}
use opx_nas_linux.RuleList.Replacement.{replace_at-IsValid}
use opx_nas_linux.Rule.{Rule}
use opx_nas_linux.Iptables.{System, proc_get}
use opx_nas_linux.RuleTables.{Tables, get_list, put_list, acquire, release}
use opx_nas_linux.RuleCache.{Found, find_slots, search_order}
use opx_nas_linux.Incoming.{
  incoming_class, slot_of, refresh, find_rule_by_id, delete_found_rule, delete_rule_by_id,
}
use opx_nas_linux.RuleCache.Finding.{IsThere, find_slots-IsThere}
use opx_nas_linux.RuleCache.Valid.{
  AllValid, AllValid-get_list, put_list-AllValid, with_mutex-AllValid,
}
use opx_nas_linux.Incoming.Lists.{finish_delete-AllValid}

-- Reading the statistics leaves the ID and the key of a rule.
pub proc_get-same :
    (sys : System) (r : Rule) (idx : ℕ) (k : sys.Kernel)
    → ((proc_get sys r idx k).1.rule_id ≡ r.rule_id)
      × ((proc_get sys r idx k).1.grp_priority ≡ r.grp_priority)
      × ((proc_get sys r idx k).1.seq_num ≡ r.seq_num)
unfolding proc_get
proc_get-same sys r idx k = ground arith

module _ {sys : System} where
  refresh-AllValid :
      (f : Found) (s : Tables sys)
      → AllValid incoming_class s
      → IsThere incoming_class f
      → AllValid incoming_class (refresh f s).1
  unfolding refresh
  refresh-AllValid f s all there =
      let r = (proc_get sys f.rule f.idx s.kernel).1 in
      let same = proc_get-same sys f.rule f.idx s.kernel in
      put_list-AllValid incoming_class f.slot f.vrf_name (RuleList.replace_at f.idx r f.rules) s all
        (replace_at-IsValid incoming_class f.idx r f.rule f.rules there.valid there.at same.0
          (rw (same.1, same.2) refl))

  -- `find_rule_by_id`, which writes statistics into the rule it finds, keeps every rule list valid.
  pub find_rule_by_id-AllValid :
      (id : ℕ) (s : Tables sys)
      → AllValid incoming_class s
      → AllValid incoming_class (find_rule_by_id id s).1
  unfolding find_rule_by_id
  find_rule_by_id-AllValid id s all =
      elim (Option-cases (find_slots incoming_class search_order id (acquire s))) [
        | inl absent ↦
            rw (absent, find_rule_by_id)
              (with_mutex-AllValid incoming_class s (release (acquire s)).mutex all)
        | inr (f, found) ↦
            let all1 = with_mutex-AllValid incoming_class s (acquire s).mutex all in
            let s2 = (refresh f (acquire s)).1 in
            rw (found, find_rule_by_id)
              (with_mutex-AllValid incoming_class s2 (release s2).mutex (
                refresh-AllValid f (acquire s) all1
                  (find_slots-IsThere incoming_class search_order id (acquire s) all1 found)))
      ]

  delete_found_rule-AllValid :
      (id : ℕ) (r : Rule) (idx : ℕ) (s : Tables sys)
      → AllValid incoming_class s
      → AllValid incoming_class (delete_found_rule id r idx s).1
  unfolding delete_found_rule
  delete_found_rule-AllValid id r idx s all =
      elim (Option-cases (get_list (slot_of r) r.vrf_name s)) [
        | inl absent ↦
            rw (absent, delete_found_rule)
              (with_mutex-AllValid incoming_class s (release s).mutex all)
        | inr (l, at) ↦ elim (Option-cases (RuleList.remove_by_id incoming_class id l).0) [
          | inl absent ↦
              rw (at, absent, delete_found_rule)
                (with_mutex-AllValid incoming_class s (release s).mutex all)
          | inr (old, removed) ↦
              let l' = (RuleList.remove_by_id incoming_class id l).1 in
              rw (at, removed, delete_found_rule)
                (finish_delete-AllValid (slot_of r) r.vrf_name r idx (some id)
                  (put_list (slot_of r) r.vrf_name l' s)
                  (put_list-AllValid incoming_class (slot_of r) r.vrf_name l' s all (
                    remove_by_id-IsValid incoming_class id l
                      (AllValid-get_list incoming_class s (slot_of r) r.vrf_name all at))))
        ]
      ]

  -- `delete_rule_by_id` keeps every rule list valid, on every branch: where no rule has the ID, where
  -- the kernel deletes the rule, and where the kernel refuses and the rule is put back.
  pub delete_rule_by_id-AllValid :
      (id : ℕ) (s : Tables sys)
      → AllValid incoming_class s
      → AllValid incoming_class (delete_rule_by_id id s).1
  unfolding delete_rule_by_id
  delete_rule_by_id-AllValid id s all =
      let all1 =
        find_rule_by_id-AllValid id (acquire s)
          (with_mutex-AllValid incoming_class s (acquire s).mutex all) in
      let s1 = (find_rule_by_id id (acquire s)).1 in
      elim (Option-cases (find_rule_by_id id (acquire s)).0) [
        | inl absent ↦
            rw (absent, delete_rule_by_id)
              (with_mutex-AllValid incoming_class s1 (release s1).mutex all1)
        | inr ((r, idx), found) ↦
            rw (found, delete_rule_by_id) (delete_found_rule-AllValid id r idx s1 all1)
      ]
