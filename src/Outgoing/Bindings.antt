-- ===== src/Outgoing/Bindings.antt =====
-- The private port of a rule that the outgoing `insert_rule` has accepted.
use opx_nas_linux.Prelude.{
  ℕ, true, Option, none, some, ◌≡◌, refl, sym, ap, ◌∙◌, arith, inl, inr, Bool-cases, Option-cases,
  ◌==◌, lookup, eq_option, eq_nat, eq_string, if◌then◌else◌,
}
use opx_nas_linux.RuleList
use opx_nas_linux.RuleList.{RuleList}
use opx_nas_linux.Rule.{RuleType, Rule, eq_rule_type}
use opx_nas_linux.Iptables.{System}
use opx_nas_linux.PrivatePorts.{Alias, PortMap, eq_alias, process_outgoing_ip_svcs_sub_net_config}
use opx_nas_linux.PrivatePorts.Undo.{add-given}
use opx_nas_linux.RuleTables.{Tables, acquire}
use opx_nas_linux.RuleTables.Laws.{put_list-ports}
use opx_nas_linux.RuleCache.{take_id, ensure_list}
use opx_nas_linux.RuleCache.Ids.{ensure_list-rest}
use opx_nas_linux.Outgoing.{
  outgoing_class, slot_of, alias_of, sub_net_insert, bind_port, place_rule, insert_with_id,
  insert_rule,
}

-- The rule object has a port, which its alias, that had none, has been given.
abbrev pub IsBound : Rule → Rule → PortMap → PortMap → Type 0
IsBound r r' before after =
    (port : ℕ) × (r'.private_port ≡ some port)
    × (lookup (alias_of r) before ≡ none)
    × ((b : Alias) → lookup b after ≡ (if alias_of r == b then some port else lookup b before))

module _ {sys : System} where
  bind_port-IsBound :
      (r : Rule) (s : Tables sys)
      → (r.rule_type == RuleType.out_ip) ≡ true
      → (bind_port r s).0.0 ≡ true
      → IsBound r (bind_port r s).0.1 s.ports (bind_port r s).1.ports
  unfolding bind_port sub_net_insert
  bind_port-IsBound r s out h =
      let ip = sys.vrfs.private_ip r.af r.vrf_name in
      let added = process_outgoing_ip_svcs_sub_net_config true ip (alias_of r) s.ports in
      elim (Option-cases added.0) [
        | inl refused ↦ ground (arith, (rw (out, refused, bind_port) at h))
        | inr ((private_ip, port), at) ↦
            let (absent, there) = add-given ip (alias_of r) s.ports at in
            rw (out, at, bind_port) (port, refl, absent, there)
      ]

  place_rule-ports :
      (r : Rule) (id : ℕ) (o : Option ℕ) (l : RuleList Rule) (s : Tables sys)
      → (place_rule r id o l s).0 ≡ true
      → (place_rule r id o l s).1.ports ≡ s.ports
  unfolding place_rule
  place_rule-ports r id none l s h = ground (arith, h)
  place_rule-ports r id (some idx) l s h = rw h (put_list-ports (slot_of r) r.vrf_name l _)

  insert_with_id-IsBound :
      (r : Rule) (o : Option ℕ) (l : RuleList Rule) (s : Tables sys)
      → (r.rule_type == RuleType.out_ip) ≡ true
      → (insert_with_id r o l s).0.0 ≡ true
      → IsBound r (insert_with_id r o l s).0.1 s.ports (insert_with_id r o l s).1.ports
  unfolding insert_with_id
  insert_with_id-IsBound r none l s out h = ground (arith, h)
  insert_with_id-IsBound r (some id) l s out h =
      let given = record r { rule_id = some id } in
      let ((bound, r'), s1) = bind_port given s in
      let (idx, l') = RuleList.insert outgoing_class r' l in
      elim (Bool-cases bound) [
        | inr unbound ↦ ground (arith, (rw (unbound, insert_with_id) at h))
        | inl ok ↦
            let placed = place_rule-ports r' id idx l' s1 (rw (ok, insert_with_id) at h) in
            let (port, has, absent, there) = bind_port-IsBound given s out ok in
            rw (ok, insert_with_id) (port, has, absent, λ b. ap (lookup b) placed ∙ there b)
      ]

  -- Where the outgoing `insert_rule` accepts a rule that binds a service, the alias of the rule had no
  -- private port before, has the one that the rule object carries afterwards, and every other alias
  -- has what it had.
  pub insert_rule-IsBound :
      (r : Rule) (s : Tables sys)
      → r.rule_type ≡ RuleType.out_ip
      → (insert_rule r s).0.0 ≡ true
      → IsBound r (insert_rule r s).0.1 s.ports (insert_rule r s).1.ports
  unfolding insert_rule
  insert_rule-IsBound r s out h =
      let (l, s1) = ensure_list (slot_of r) r.vrf_name (acquire s) in
      let same = (ensure_list-rest (slot_of r) r.vrf_name (acquire s)).2 in
      let taken = take_id r.rule_id s1.id_generator in
      let s2 = record s1 { id_generator = taken.1 } in
      let (port, has, absent, there) =
        insert_with_id-IsBound r taken.0 l s2
          ((eq_rule_type.same_iff r.rule_type RuleType.out_ip).1 out) h in
      (
        port,
        has,
        sym (ap (lookup (alias_of r)) same) ∙ absent,
        λ b. there b ∙ ap (λ m. if alias_of r == b then some port else lookup b m) same,
      )
