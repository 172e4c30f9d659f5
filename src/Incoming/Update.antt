-- ===== src/Incoming/Update.antt =====
-- `update_rule` and `clear_all_rules` of `VrfIncomingSvcsRuleCache`, and the functions of
-- scripts/lib/python/dn_base_vrf_svcs_config.py that scripts/bin/base_vrf.py calls.
use opx_nas_linux.Prelude.{
  ℕ, String, Bool, true, false, Option, none, some, List, [], ◌∷◌, HasEq, ◌==◌, ◌&&◌, not,
  if◌then◌else◌, eq_nat, eq_string, eq_option,
}
use opx_nas_linux.Rule.{Af, Action, Proto, Ip, Rule, eq_af, eq_action, eq_proto, eq_ip}
use opx_nas_linux.Rule.Incoming.{Args, get_action_name, set_in_intf, is_some, init_incoming}
use opx_nas_linux.Iptables.{System, Op, proc_rule}
use opx_nas_linux.RuleCache.Clear.{clear_all}
use opx_nas_linux.RuleTables.{Tables, Slot, acquire, release}
use opx_nas_linux.RuleCache.{release_rule_id}
use opx_nas_linux.Incoming.{
  find_rule_by_id, find_rule_by_match, delete_rule_by_id, insert_rule, delete_rule, replace_rule,
}

-- The attributes that the callback of base_vrf.py gives to `update_rule`.
pub data Attr : Type 0 where
  src_ip src_prefix_len dst_ip dst_prefix_len protocol dst_port low_dst_port : Attr
  high_dst_port action in_intf seq_num : Attr

-- `**params` of `update_rule`: None, or the new value.
pub record Params : Type 0 where
  pub src_ip : Option Ip
  pub src_prefix_len : Option ℕ
  pub dst_ip : Option Ip
  pub dst_prefix_len : Option ℕ
  pub protocol : Option Proto
  pub dst_port : Option ℕ
  pub low_dst_port : Option ℕ
  pub high_dst_port : Option ℕ
  pub action : Option Action
  pub in_intf : Option String
  pub seq_num : Option ℕ

-- `check_and_set`, with a read and a write of the attribute; no value skips it.
unfoldable pub check_and_set :
    {A : Type 0} ⦃e : HasEq A⦄
    → Attr
    → (Rule → Option A)
    → (A → Rule → Rule)
    → Option A
    → Rule × List Attr
    → Rule × List Attr
check_and_set key read write none (rule, changed) = (rule, changed)
check_and_set ⦃e⦄ key read write (some val) (rule, changed) =
    if some val == read rule then (rule, changed) else (write val rule, key ∷ changed)

abbrev pub set_intf : String → Rule → Rule
set_intf val rule = record rule {
  in_intf = (set_in_intf (some val)).0;
  negative = (set_in_intf (some val)).1;
}

-- the loop over `params.items()`: the copy of the rule, and `changed_attrs`
unfoldable pub set_params : Params → Rule → Rule × List Attr
unfolding check_and_set set_in_intf
set_params p old_rule =
    let s0 : Rule × List Attr = (old_rule, []) in
    let s1 =
      check_and_set Attr.src_ip (λ r. r.src_ip) (λ v r. record r { src_ip = some v }) p.src_ip s0 in
    let s2 =
      check_and_set Attr.src_prefix_len (λ r. r.src_prefix_len)
        (λ v r. record r { src_prefix_len = some v }) p.src_prefix_len s1 in
    let s3 =
      check_and_set Attr.dst_ip (λ r. r.dst_ip) (λ v r. record r { dst_ip = some v }) p.dst_ip s2 in
    let s4 =
      check_and_set Attr.dst_prefix_len (λ r. r.dst_prefix_len)
        (λ v r. record r { dst_prefix_len = some v }) p.dst_prefix_len s3 in
    let s5 =
      check_and_set Attr.protocol (λ r. r.protocol) (λ v r. record r { protocol = some v })
        p.protocol s4 in
    let s6 =
      check_and_set Attr.dst_port (λ r. r.dst_port) (λ v r. record r { dst_port = some v })
        p.dst_port s5 in
    let s7 =
      check_and_set Attr.low_dst_port (λ r. r.low_dst_port)
        (λ v r. record r { low_dst_port = some v }) p.low_dst_port s6 in
    let s8 =
      check_and_set Attr.high_dst_port (λ r. r.high_dst_port)
        (λ v r. record r { high_dst_port = some v }) p.high_dst_port s7 in
    let s9 =
      check_and_set Attr.action (λ r. some r.action) (λ v r. record r { action = v }) p.action s8 in
    let s10 = check_and_set Attr.in_intf (λ r. r.in_intf) set_intf p.in_intf s9 in
    check_and_set Attr.seq_num (λ r. some r.seq_num) (λ v r. record r { seq_num = v }) p.seq_num s10

-- `changed_attrs.difference(repl_attrs)` has an element
unfoldable pub any_not_replaceable : List Attr → Bool
any_not_replaceable [] = false
any_not_replaceable (Attr.seq_num ∷ keys) = true
any_not_replaceable (_ ∷ keys) = any_not_replaceable keys

unfoldable pub has_action : List Attr → Bool
has_action [] = false
has_action (Attr.action ∷ keys) = true
has_action (_ ∷ keys) = has_action keys

-- `__setattr__` raises ValueError where a changed action has no name.
unfoldable pub setattr_fails : Rule × List Attr → Bool
unfolding has_action is_some get_action_name
setattr_fails (upd_rule, changed) =
    has_action changed && not (is_some (get_action_name false upd_rule.action))

-- `match_rule is not None and match_rule.rule_id != old_rule.rule_id`
abbrev pub is_other : Option Rule → Rule → Bool
is_other none old_rule = false
is_other (some match_rule) old_rule = not (match_rule.rule_id == old_rule.rule_id)

module _ {sys : System} where
  -- `insert_rule(upd_rule)`, and of the old rule where this fails
  unfoldable pub insert_updated : Rule → Rule → Tables sys → Bool × Tables sys
  unfolding insert_rule
  insert_updated upd_rule old_rule s =
      let (result, s1) = insert_rule upd_rule s in
      let s2 : Tables sys = (insert_rule old_rule s1).1 in (result.0, if result.0 then s1 else s2)

  -- The object `old_rule` is the one in the list: `delete_rule_by_id`, which finds it again, writes
  -- its statistics.
  unfoldable pub refreshed : ℕ → Rule → Tables sys → Rule
  unfolding find_rule_by_id
  refreshed rule_id old_rule s = elim (find_rule_by_id rule_id (acquire s)).0 [
    | none ↦ old_rule
    | some (rule, idx) ↦ rule
  ]

  -- `update_rule` on a change that `replace` cannot make
  unfoldable pub delete_and_insert : ℕ → Rule → Rule → Tables sys → Bool × Tables sys
  unfolding delete_rule_by_id insert_updated refreshed
  delete_and_insert rule_id old_rule upd_rule s =
      let (deleted, s1) = delete_rule_by_id rule_id s in
      let (done, s2) = insert_updated upd_rule (refreshed rule_id old_rule s) s1 in
      if deleted then (done, release s2) else (false, release s1)

  -- `update_rule` once the changes are known
  unfoldable pub apply_update : ℕ → Rule → Rule → List Attr → Tables sys → Bool × Tables sys
  unfolding find_rule_by_match any_not_replaceable delete_and_insert replace_rule
  apply_update rule_id old_rule upd_rule [] s = (true, release s)
  apply_update rule_id old_rule upd_rule (key ∷ keys) s =
      let again = delete_and_insert rule_id old_rule upd_rule s in
      let (done, s1) = replace_rule rule_id upd_rule s in
      if is_other (find_rule_by_match upd_rule s) old_rule
      then (false, release s)
      else if any_not_replaceable (key ∷ keys)
      then again
      else (done, release s1)

  -- `none` is the ValueError, which leaves the lock held.
  unfoldable pub update_rule : ℕ → Params → Tables sys → Option Bool × Tables sys
  unfolding find_rule_by_id set_params setattr_fails apply_update
  update_rule rule_id p s =
      let (found, s1) = find_rule_by_id rule_id (acquire s) in
      elim found [
        | none ↦ (some false, release s1)
        | some (old_rule, idx) ↦
            let (upd_rule, changed) = set_params p old_rule in
            let (done, s2) = apply_update rule_id old_rule upd_rule changed s1 in
            if setattr_fails (upd_rule, changed) then (none, s1) else (some done, s2)
      ]

  -- what `clear_all_rules` does to a rule
  unfoldable pub drop_rule : Slot → Rule → Tables sys → Tables sys
  drop_rule p rule s = record s {
    kernel = (proc_rule sys Op.delete rule none s.kernel).1;
    id_generator = release_rule_id rule.rule_id s.id_generator;
  }

  unfoldable pub clear_all_rules : Option String → Option Af → Tables sys → Tables sys
  unfolding clear_all drop_rule
  clear_all_rules flt_vrf flt_af s = clear_all drop_rule flt_vrf flt_af s

  -- The entry points catch every exception of the constructor.
  unfoldable pub process_vrf_svcs_rule_add : Args → Tables sys → Option ℕ × Tables sys
  unfolding init_incoming insert_rule
  process_vrf_svcs_rule_add a s = elim (init_incoming sys.net a) [
    | none ↦ (none, s)
    | some rule ↦
        let ((done, rule'), s') = insert_rule rule s in ((if done then rule'.rule_id else none), s')
  ]

  unfoldable pub process_vrf_svcs_rule_del : Args → Tables sys → Bool × Tables sys
  unfolding init_incoming delete_rule
  process_vrf_svcs_rule_del a s = elim (init_incoming sys.net a) [
    | none ↦ (false, s)
    | some rule ↦ delete_rule rule s
  ]

  unfoldable pub process_vrf_svcs_rule_set : ℕ → Params → Tables sys → Bool × Tables sys
  unfolding update_rule
  process_vrf_svcs_rule_set rule_id p s =
      let (result, s') = update_rule rule_id p s in
      (elim result [ none ↦ false | some done ↦ done ], s')

  abbrev pub process_vrf_svcs_rule_del_by_id : ℕ → Tables sys → Bool × Tables sys
  process_vrf_svcs_rule_del_by_id rule_id s = delete_rule_by_id rule_id s

  -- without its answer, which is True
  abbrev pub process_vrf_svcs_clear_rules : Option String → Tables sys → Tables sys
  process_vrf_svcs_clear_rules vrf_name s = clear_all_rules vrf_name none s
