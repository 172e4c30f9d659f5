-- ===== src/Incoming/Locks.antt =====
-- The lock of the incoming cache across `update_rule` and the methods that it calls.
use opx_nas_linux.Prelude.{
  ℕ, ◌+◌, ◌-◌, List, [], ◌∷◌, Option, some, String, ◌≡◌, refl, ap, ◌∙◌, arith, inl, inr,
  Option-cases, Bool-cases, if◌then◌else◌, eq_string,
}
use opx_nas_linux.RuleList
use opx_nas_linux.RuleList.{RuleList}
use opx_nas_linux.Rule.{Rule}
use opx_nas_linux.Rule.Incoming.{is_some}
use opx_nas_linux.Iptables.{System, Op, proc_rule}
use opx_nas_linux.RuleTables.{Tables, Slot, get_list, put_list, acquire}
use opx_nas_linux.RuleTables.Laws.{put_list-mutex}
use opx_nas_linux.RuleCache.Locks.{drop_empty-mutex, insert_back-mutex}
use opx_nas_linux.RuleCache.{find_slots, insert_back, search_order}
use opx_nas_linux.Incoming.{
  incoming_class, slot_of, refresh, find_rule_by_id, finish_delete, delete_found_rule,
  delete_rule_by_id, replace_found, replace_rule, insert_rule, find_rule_by_match,
}
use opx_nas_linux.Incoming.Update.{
  Attr, Params, set_params, setattr_fails, insert_updated, delete_and_insert, apply_update,
  update_rule, is_other, any_not_replaceable, refreshed,
}
use opx_nas_linux.Incoming.Failures.{insert_rule-mutex}

module _ {sys : System} where
  find_rule_by_id-mutex : (id : ℕ) (s : Tables sys) → (find_rule_by_id id s).1.mutex ≡ s.mutex
  unfolding find_rule_by_id refresh
  find_rule_by_id-mutex id s =
      elim (Option-cases (find_slots incoming_class search_order id (acquire s))) [
        | inl absent ↦ rw (absent, find_rule_by_id) (omega arith)
        | inr (f, found) ↦
            rw (found, find_rule_by_id)
              (omega (arith, put_list-mutex f.slot f.vrf_name _ (acquire s)))
      ]

  finish_delete-mutex :
      (p : Slot) (v : String) (r : Rule) (idx : ℕ) (id : Option ℕ) (s : Tables sys)
      → (finish_delete p v r idx id s).1.mutex ≡ s.mutex - 1
  unfolding finish_delete
  finish_delete-mutex p v r idx id s =
      let (done, k) = proc_rule sys Op.delete r (some idx) s.kernel in
      let s1 = record s { kernel = k } in
      ground (
        arith,
        drop_empty-mutex p v (if done then s1 else insert_back incoming_class p r s1),
        insert_back-mutex incoming_class p r s1,
      )

  delete_found_rule-mutex :
      (id : ℕ) (r : Rule) (idx : ℕ) (s : Tables sys)
      → (delete_found_rule id r idx s).1.mutex ≡ s.mutex - 1
  unfolding delete_found_rule
  delete_found_rule-mutex id r idx s = elim (Option-cases (get_list (slot_of r) r.vrf_name s)) [
    | inl absent ↦ rw (absent, delete_found_rule) refl
    | inr (l, at) ↦ elim (Option-cases (RuleList.remove_by_id incoming_class id l).0) [
      | inl absent ↦ rw (at, absent, delete_found_rule) refl
      | inr (old, removed) ↦
          let l' = (RuleList.remove_by_id incoming_class id l).1 in
          rw (at, removed, delete_found_rule)
            (finish_delete-mutex (slot_of r) r.vrf_name r idx (some id)
                (put_list (slot_of r) r.vrf_name l' s)
              ∙ ap (λ m. m - 1) (put_list-mutex (slot_of r) r.vrf_name l' s))
    ]
  ]

  delete_rule_by_id-mutex : (id : ℕ) (s : Tables sys) → (delete_rule_by_id id s).1.mutex ≡ s.mutex
  unfolding delete_rule_by_id
  delete_rule_by_id-mutex id s =
      let s1 = (find_rule_by_id id (acquire s)).1 in
      let held : s1.mutex ≡ s.mutex + 1 = find_rule_by_id-mutex id (acquire s) in
      elim (Option-cases (find_rule_by_id id (acquire s)).0) [
        | inl absent ↦ rw (absent, delete_rule_by_id) (omega (arith, held))
        | inr ((r, idx), found) ↦
            rw (found, delete_rule_by_id) (omega (arith, held, delete_found_rule-mutex id r idx s1))
      ]

  replace_found-mutex :
      (old : Rule) (idx : ℕ) (r : Rule) (s : Tables sys)
      → (replace_found old idx r s).1.mutex ≡ s.mutex - 1
  unfolding replace_found
  replace_found-mutex old idx r s =
      let s1 = record s { kernel = (proc_rule sys Op.replace r (some idx) s.kernel).1 } in
      elim (Option-cases (get_list (slot_of old) old.vrf_name s1)) [
        | inl absent ↦ rw (absent, replace_found) (ground arith)
        | inr (l, at) ↦
            rw (at, replace_found)
              (ground
                (arith, put_list-mutex (slot_of old) old.vrf_name (RuleList.replace_at idx r l) s1))
      ]

  replace_rule-mutex :
      (id : ℕ) (r : Rule) (s : Tables sys) → (replace_rule id r s).1.mutex ≡ s.mutex
  unfolding replace_rule
  replace_rule-mutex id r s =
      let s1 = (find_rule_by_id id (acquire s)).1 in
      let held : s1.mutex ≡ s.mutex + 1 = find_rule_by_id-mutex id (acquire s) in
      elim (Option-cases (find_rule_by_id id (acquire s)).0) [
        | inl absent ↦ rw (absent, replace_rule) (omega (arith, held))
        | inr ((old, idx), found) ↦
            rw (found, replace_rule) (omega (arith, held, replace_found-mutex old idx r s1))
      ]

  insert_updated-mutex :
      (upd old : Rule) (s : Tables sys) → (insert_updated upd old s).1.mutex ≡ s.mutex
  unfolding insert_updated
  insert_updated-mutex upd old s =
      let s1 = (insert_rule upd s).1 in
      elim (Bool-cases (insert_rule upd s).0.0) [
        | inl done ↦ rw (done, insert_updated) (insert_rule-mutex upd s)
        | inr failed ↦
            rw (failed, insert_updated) (insert_rule-mutex old s1 ∙ insert_rule-mutex upd s)
      ]

  delete_and_insert-mutex :
      (id : ℕ) (old upd : Rule) (s : Tables sys)
      → (delete_and_insert id old upd s).1.mutex ≡ s.mutex - 1
  unfolding delete_and_insert
  delete_and_insert-mutex id old upd s =
      let s1 = (delete_rule_by_id id s).1 in
      let old' = refreshed id old s in
      elim (Bool-cases (delete_rule_by_id id s).0) [
        | inl deleted ↦
            rw (deleted, delete_and_insert)
              (ap (λ m. m - 1) (insert_updated-mutex upd old' s1 ∙ delete_rule_by_id-mutex id s))
        | inr failed ↦
            rw (failed, delete_and_insert) (ap (λ m. m - 1) (delete_rule_by_id-mutex id s))
      ]

  apply_update-mutex :
      (id : ℕ) (old upd : Rule) (changed : List Attr) (s : Tables sys)
      → (apply_update id old upd changed s).1.mutex ≡ s.mutex - 1
  unfolding apply_update
  apply_update-mutex id old upd [] s = refl
  apply_update-mutex id old upd (key ∷ keys) s =
      elim (Bool-cases (is_other (find_rule_by_match upd s) old)) [
        | inl other ↦ rw (other, apply_update) refl
        | inr same ↦ elim (Bool-cases (any_not_replaceable (key ∷ keys))) [
          | inl again ↦ rw (same, again, apply_update) (delete_and_insert-mutex id old upd s)
          | inr replace ↦
              rw (same, replace, apply_update) (ap (λ m. m - 1) (replace_rule-mutex id upd s))
        ]
      ]

  -- `update_rule` gives the lock back on every branch on which it returns. Where it raises ValueError,
  -- for a new action that has no name, it leaves the lock held once more than before.
  pub update_rule-mutex :
      (id : ℕ) (p : Params) (s : Tables sys)
      → (update_rule id p s).1.mutex ≡ (if is_some (update_rule id p s).0 then 0 else 1) + s.mutex
  unfolding update_rule is_some
  update_rule-mutex id p s =
      let s1 = (find_rule_by_id id (acquire s)).1 in
      let held : s1.mutex ≡ s.mutex + 1 = find_rule_by_id-mutex id (acquire s) in
      elim (Option-cases (find_rule_by_id id (acquire s)).0) [
        | inl absent ↦ rw (absent, update_rule) (omega (arith, held))
        | inr ((old, idx), found) ↦
            let (upd, changed) = set_params p old in
            elim (Bool-cases (setattr_fails (upd, changed))) [
              | inl fails ↦ rw (found, fails, update_rule) (omega (arith, held))
              | inr returns ↦
                  rw (found, returns, update_rule)
                    (omega (arith, held, apply_update-mutex id old upd changed s1))
            ]
      ]
