-- ===== src/Outgoing/Failures.antt =====
-- What the outgoing `insert_rule` leaves of a rule that it refuses.
use mathlib.Core.Path.{subst}
use opx_nas_linux.Prelude.{
  ℕ, Bool, true, false, Option, none, some, ◌≡◌, refl, sym, ap, ◌∙◌, arith, inl, inr, Bool-cases,
  Option-cases, ◌==◌, lookup, eq_option,
}
use opx_nas_linux.IdGenerator
use opx_nas_linux.IdGenerator.{is_id_used, release_id}
use opx_nas_linux.RuleList
use opx_nas_linux.RuleList.{RuleList}
use opx_nas_linux.Rule.{RuleType, Rule, Ip, eq_rule_type}
use opx_nas_linux.Iptables.{System, Op, proc_rule}
use opx_nas_linux.PrivatePorts.{Alias, PortMap, eq_alias, process_outgoing_ip_svcs_sub_net_config}
use opx_nas_linux.PrivatePorts.Undo.{add-none, add-remove}
use opx_nas_linux.RuleTables.{Tables, put_list, acquire}
use opx_nas_linux.RuleTables.Laws.{put_list-id_generator, put_list-ports}
use opx_nas_linux.RuleCache.{take_id, ensure_list}
use opx_nas_linux.RuleCache.Ids.{take_id-none, take_id-release_id, ensure_list-rest}
use opx_nas_linux.Outgoing.{
  outgoing_class, slot_of, alias_of, remove_rule, sub_net_insert, sub_net_delete, bind_port,
  free_id, place_rule, insert_with_id, insert_rule,
}

-- Every alias has the same port in both maps.
abbrev pub SamePorts : PortMap → PortMap → Type 0
SamePorts m n = (a : Alias) → lookup a m ≡ lookup a n

module _ {sys : System} where
  -- The outcomes of `bind_port`. A port that it gives is taken back by the removal of the alias.
  data Bound (r : Rule) (s : Tables sys) : (Bool × Rule) × Tables sys → Type 0 where
    snat : (r.rule_type == RuleType.out_ip) ≡ false → Bound r s ((true, r), s)
    refused : (m : PortMap) → m ≡ s.ports → Bound r s ((false, r), record s { ports = m })
    given :
        (r.rule_type == RuleType.out_ip) ≡ true
        → (m : PortMap) (ip : Ip) (port : ℕ)
        → SamePorts
            (process_outgoing_ip_svcs_sub_net_config false
              (sys.vrfs.private_ip r.af r.vrf_name)
              (alias_of r)
              m).1
            s.ports
        → Bound r s (
          (true, record r { private_ip = some ip; private_port = some port }),
          record s { ports = m },
        )

  bind_port-Bound : (r : Rule) (s : Tables sys) → Bound r s (bind_port r s)
  unfolding bind_port sub_net_insert
  bind_port-Bound r s = elim (Bool-cases (r.rule_type == RuleType.out_ip)) [
    | inr other ↦ rw (other, bind_port) (snat other)
    | inl out ↦
        let ip = sys.vrfs.private_ip r.af r.vrf_name in
        let added = process_outgoing_ip_svcs_sub_net_config true ip (alias_of r) s.ports in
        elim (Option-cases added.0) [
          | inl none_free ↦
              rw (out, none_free, bind_port)
                (refused added.1 (add-none ip (alias_of r) s.ports none_free))
          | inr ((private_ip, port), at) ↦
              rw (out, at, bind_port)
                (given out added.1 private_ip port (add-remove ip (alias_of r) s.ports at))
        ]
  ]

  sub_net_delete-id_generator :
      (r : Rule) (s : Tables sys) → (sub_net_delete r s).id_generator ≡ s.id_generator
  unfolding sub_net_delete
  sub_net_delete-id_generator r s = ground arith

  Bound-id_generator :
      (r : Rule) (s : Tables sys) {x : (Bool × Rule) × Tables sys}
      → Bound r s x
      → x.1.id_generator ≡ s.id_generator
  Bound-id_generator r s (snat _) = refl
  Bound-id_generator r s (refused _ _) = refl
  Bound-id_generator r s (given _ _ _ _ _) = refl

  Bound-refused :
      (r : Rule) (s : Tables sys) {x : (Bool × Rule) × Tables sys}
      → Bound r s x
      → x.0.0 ≡ false
      → x.1.ports ≡ s.ports
  Bound-refused r s (snat _) h = refl
  Bound-refused r s (refused m same) h = same
  Bound-refused r s (given _ _ _ _ _) h = cc

  -- Releasing the port that a rule was given gives back the ports that were there before.
  Bound-sub_net_delete :
      (r : Rule) (s t : Tables sys) {x : (Bool × Rule) × Tables sys}
      → Bound r s x
      → x.0.0 ≡ true
      → t.ports ≡ x.1.ports
      → SamePorts (sub_net_delete x.0.1 t).ports s.ports
  unfolding sub_net_delete
  Bound-sub_net_delete r s t (snat other) h same a = rw (other, sub_net_delete) (ap (lookup a) same)
  Bound-sub_net_delete r s t (refused _ _) h same a = cc
  Bound-sub_net_delete r s t (given out m ip port undone) h same a =
      rw (out, sub_net_delete) (rw same (undone a))

  -- A rule that the list or the kernel refuses gives back its ID and its port.
  place_rule-undone :
      (r : Rule) (id : ℕ) (o : Option ℕ) (l : RuleList Rule) (s : Tables sys)
      → (place_rule r id o l s).0 ≡ false
      → (t : Tables sys) × (t.ports ≡ s.ports)
        × ((place_rule r id o l s).1.ports ≡ (sub_net_delete r t).ports)
        × ((place_rule r id o l s).1.id_generator ≡ (release_id id s.id_generator).1)
  unfolding place_rule
  place_rule-undone r id none l s h =
      (s, refl, refl, ap (λ g. (release_id id g).1) (sub_net_delete-id_generator r s))
  place_rule-undone r id (some idx) l s h =
      let k = (proc_rule sys Op.insert r (some idx) s.kernel).1 in
      let s1 = free_id id (record s { kernel = k }) in
      let l' = (remove_rule r l).1 in
      let t = put_list (slot_of r) r.vrf_name l' s1 in
      (
        t,
        put_list-ports (slot_of r) r.vrf_name l' s1,
        rw h refl,
        rw h (sub_net_delete-id_generator r t ∙ put_list-id_generator (slot_of r) r.vrf_name l' s1),
      )

  insert_with_id-undone :
      (r : Rule) (id : ℕ) (l : RuleList Rule) (s : Tables sys)
      → (insert_with_id r (some id) l s).0.0 ≡ false
      → ((insert_with_id r (some id) l s).1.id_generator ≡ (release_id id s.id_generator).1)
        × SamePorts (insert_with_id r (some id) l s).1.ports s.ports
  unfolding insert_with_id
  insert_with_id-undone r id l s h =
      let given = record r { rule_id = some id } in
      let ((bound, r'), s1) = bind_port given s in
      let outcome = bind_port-Bound given s in
      let same_ids = ap (λ g. (release_id id g).1) (Bound-id_generator given s outcome) in
      elim (Bool-cases bound) [
        | inr unbound ↦
            rw (unbound, insert_with_id)
              (same_ids, λ a. ap (lookup a) (Bound-refused given s outcome unbound))
        | inl ok ↦
            let (idx, l') = RuleList.insert outgoing_class r' l in
            let (t, same, ports, ids) =
              place_rule-undone r' id idx l' s1 (rw (ok, insert_with_id) at h) in
            rw (ok, insert_with_id)
              (
                ids ∙ same_ids,
                λ a. ap (lookup a) ports ∙ Bound-sub_net_delete given s t outcome ok same a,
              )
      ]

  taken-ids :
      (r : Rule) (l : RuleList Rule) (s : Tables sys)
      → IdGenerator.Invariant.IsValid s.id_generator
      → (o : Option ℕ) → (take_id r.rule_id s.id_generator).0 ≡ o
      → let s' = record s { id_generator = (take_id r.rule_id s.id_generator).1 } in
        (insert_with_id r o l s').0.0 ≡ false
        → (x : ℕ)
        → is_id_used x (insert_with_id r o l s').1.id_generator ≡ is_id_used x s.id_generator
  taken-ids r l s v none at h x =
      unfold insert_with_id in take_id-none r.rule_id s.id_generator at x
  taken-ids r l s v (some id) at h x =
      let s' = record s { id_generator = (take_id r.rule_id s.id_generator).1 } in
      ap (is_id_used x) (insert_with_id-undone r id l s' h).0
      ∙ take_id-release_id r.rule_id s.id_generator v at x

  taken-undone :
      (r : Rule) (o : Option ℕ) (l : RuleList Rule) (s : Tables sys)
      → (insert_with_id r o l s).0.0 ≡ false
      → SamePorts (insert_with_id r o l s).1.ports s.ports
  taken-undone r none l s h = unfold insert_with_id in λ a. refl
  taken-undone r (some id) l s h = (insert_with_id-undone r id l s h).1

  -- Where the outgoing `insert_rule` fails, for want of an ID or of a private port, because the list
  -- has the rule already, or because the kernel refuses it, the IDs in use and the private port of
  -- every alias are those of before the call.
  pub insert_rule-undone :
      (r : Rule) (s : Tables sys)
      → IdGenerator.Invariant.IsValid s.id_generator
      → (insert_rule r s).0.0 ≡ false
      → ((x : ℕ) → is_id_used x (insert_rule r s).1.id_generator ≡ is_id_used x s.id_generator)
        × SamePorts (insert_rule r s).1.ports s.ports
  unfolding insert_rule
  insert_rule-undone r s v h =
      let (l, s1) = ensure_list (slot_of r) r.vrf_name (acquire s) in
      let rest = ensure_list-rest (slot_of r) r.vrf_name (acquire s) in
      let taken = take_id r.rule_id s1.id_generator in
      let v1 = subst IdGenerator.Invariant.IsValid (sym rest.0) v in
      let s2 = record s1 { id_generator = taken.1 } in
      (
        λ x. taken-ids r l s1 v1 taken.0 refl h x ∙ ap (is_id_used x) rest.0,
        λ a. taken-undone r taken.0 l s2 h a ∙ ap (lookup a) rest.2,
      )
