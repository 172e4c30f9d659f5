-- ===== src/Incoming/Failures.antt =====
-- The IDs and the lock of the incoming cache across the branches of `insert_rule`.
use mathlib.Core.Path.{subst}
use opx_nas_linux.Prelude.{
  ℕ, List, All, true, false, Option, none, some, ◌≡◌, refl, sym, ap, ◌∙◌, arith, nat_eq, ◌||◌,
}
use opx_nas_linux.IdGenerator
use opx_nas_linux.IdGenerator.{IdGenerator, is_id_used, get_new_id, reserve_id, release_id}
use opx_nas_linux.IdGenerator.Calls.{Call, keeps, run-is_id_used}
use opx_nas_linux.RuleList
use opx_nas_linux.RuleList.{RuleList}
use opx_nas_linux.Rule.{Rule}
use opx_nas_linux.Iptables.{System, Op, proc_rule}
use opx_nas_linux.RuleTables.{Tables, acquire}
use opx_nas_linux.RuleTables.Laws.{put_list-id_generator, put_list-mutex}
use opx_nas_linux.RuleCache.Ids.{
  take_id_lem, take_id-IsValid, taken_used, ensure_list-rest, ensure_list-kernel,
}
use opx_nas_linux.RuleCache.{take_id, ensure_list}
use opx_nas_linux.Incoming.{incoming_class, slot_of, place_rule, insert_with_id, insert_rule}

module _ {sys : System} where
  place_rule-mutex :
      (r : Rule) (id : ℕ) (o : Option ℕ) (l : RuleList Rule) (s : Tables sys)
      → (place_rule r id o l s).1.mutex ≡ s.mutex
  unfolding place_rule
  place_rule-mutex r id none l s = refl
  place_rule-mutex r id (some idx) l s = rw put_list-mutex

  insert_with_id-mutex :
      (r : Rule) (o : Option ℕ) (l : RuleList Rule) (s : Tables sys)
      → (insert_with_id r o l s).1.mutex ≡ s.mutex
  unfolding insert_with_id
  insert_with_id-mutex r none l s = refl
  insert_with_id-mutex r (some id) l s = place_rule-mutex (record r { rule_id = some id }) id _ _ s

  -- `insert_rule` gives the lock back on every branch.
  pub insert_rule-mutex : (r : Rule) (s : Tables sys) → (insert_rule r s).1.mutex ≡ s.mutex
  unfolding insert_rule
  insert_rule-mutex r s =
      let (l, s1) = ensure_list (slot_of r) r.vrf_name (acquire s) in
      let (id, g) = take_id r.rule_id s1.id_generator in
      omega (
        arith,
        insert_with_id-mutex r id l (record s1 { id_generator = g }),
        (ensure_list-rest (slot_of r) r.vrf_name (acquire s)).1,
      )

  place_rule-used :
      (r : Rule) (id : ℕ) (o : Option ℕ) (l : RuleList Rule) (s : Tables sys) (x : ℕ)
      → (place_rule r id o l s).0 ≡ true
      → is_id_used x (place_rule r id o l s).1.id_generator ≡ is_id_used x s.id_generator
  unfolding place_rule
  place_rule-used r id none l s x h = cc
  place_rule-used r id (some idx) l s x h = rw put_list-id_generator refl

  insert_with_id-used :
      (r : Rule) (o : Option ℕ) (l : RuleList Rule) (s : Tables sys)
      → (insert_with_id r o l s).0.0 ≡ true
      → (id : ℕ) × (o ≡ some id)
        × ((insert_with_id r o l s).0.1.rule_id ≡ some id)
        × ((x : ℕ)
            → is_id_used x (insert_with_id r o l s).1.id_generator ≡ is_id_used x s.id_generator)
  unfolding insert_with_id
  insert_with_id-used r none l s h = cc
  insert_with_id-used r (some id) l s h =
      (id, refl, refl, λ x. place_rule-used (record r { rule_id = some id }) id _ _ s x h)

  -- Where `insert_rule` succeeds, the rule object has an ID that was free before the call; after it
  -- the IDs in use are that one and those in use before.
  pub insert_rule-used :
      (r : Rule) (s : Tables sys)
      → IdGenerator.Invariant.IsValid s.id_generator
      → (insert_rule r s).0.0 ≡ true
      → (id : ℕ) × ((insert_rule r s).0.1.rule_id ≡ some id)
        × (is_id_used id s.id_generator ≡ false)
        × ((x : ℕ)
            → is_id_used x (insert_rule r s).1.id_generator
              ≡ (nat_eq id x || is_id_used x s.id_generator))
  unfolding insert_rule
  insert_rule-used r s v h =
      let (l, s1) = ensure_list (slot_of r) r.vrf_name (acquire s) in
      let same : s1.id_generator ≡ s.id_generator =
        (ensure_list-rest (slot_of r) r.vrf_name (acquire s)).0 in
      let taken = take_id r.rule_id s1.id_generator in
      let (id, given, has, keeps) =
        insert_with_id-used r taken.0 l (record s1 { id_generator = taken.1 }) h in
      let t =
        take_id_lem r.rule_id s1.id_generator (subst IdGenerator.Invariant.IsValid (sym same) v)
          given in
      (
        id,
        has,
        ap (is_id_used id) (sym same) ∙ t.0,
        λ x. keeps x ∙ t.1 x ∙ ap (λ g. nat_eq id x || is_id_used x g) same,
      )

  insert_with_id_refused :
      (r : Rule) (id : ℕ) (idx : ℕ) (l : RuleList Rule) (s : Tables sys)
      → (RuleList.insert incoming_class (record r { rule_id = some id }) l).0 ≡ some idx
      → (proc_rule sys Op.insert (record r { rule_id = some id }) (some idx) s.kernel).0 ≡ false
      → ((insert_with_id r (some id) l s).0.0 ≡ false)
        × ((insert_with_id r (some id) l s).1.id_generator ≡ s.id_generator)
  unfolding insert_with_id place_rule
  insert_with_id_refused r id idx l s accepted refuses =
      rw (accepted, place_rule, refuses) (refl, put_list-id_generator _ _ _ _)

  -- A rule whose ID is in use is refused.
  pub insert_rule_used :
      (r : Rule) (id : ℕ) (s : Tables sys)
      → r.rule_id ≡ some id
      → is_id_used id s.id_generator ≡ true
      → (insert_rule r s).0.0 ≡ false
  unfolding insert_rule
  insert_rule_used r id s has used =
      let (l, s1) = ensure_list (slot_of r) r.vrf_name (acquire s) in
      let taken = take_id r.rule_id s1.id_generator in
      let refused : taken.0 ≡ none =
        ap (λ o. (take_id o s1.id_generator).0) has
        ∙ taken_used id s1.id_generator
            (ap (is_id_used id) (ensure_list-rest (slot_of r) r.vrf_name (acquire s)).0 ∙ used) in
      ap (λ o. (insert_with_id r o l (record s1 { id_generator = taken.1 })).0.0) refused
      ∙ (unfold insert_with_id in refl)

  insert_rule-keeps_id :
      (r : Rule) (id idx : ℕ) (s : Tables sys)
      → IdGenerator.Invariant.IsValid s.id_generator
      → (take_id r.rule_id s.id_generator).0 ≡ some id
      → (RuleList.insert incoming_class
          (record r { rule_id = some id })
          (ensure_list (slot_of r) r.vrf_name (acquire s)).0).0
        ≡ some idx
      → (proc_rule sys Op.insert (record r { rule_id = some id }) (some idx) s.kernel).0 ≡ false
      → ((insert_rule r s).0.0 ≡ false)
        × ((insert_rule r s).0.1.rule_id ≡ some id)
        × ((insert_rule r s).1.id_generator ≡ (take_id r.rule_id s.id_generator).1)
  unfolding insert_rule
  insert_rule-keeps_id r id idx s v given accepted refuses =
      let (l, s1) = ensure_list (slot_of r) r.vrf_name (acquire s) in
      let same : s1.id_generator ≡ s.id_generator =
        (ensure_list-rest (slot_of r) r.vrf_name (acquire s)).0 in
      let taken = take_id r.rule_id s1.id_generator in
      let given1 : taken.0 ≡ some id = ap (λ g. (take_id r.rule_id g).0) same ∙ given in
      let s2 = record s1 { id_generator = taken.1 } in
      let refused = insert_with_id_refused r id idx l s2 accepted (
        ap (λ k. (proc_rule sys Op.insert (record r { rule_id = some id }) (some idx) k).0)
          (ensure_list-kernel (slot_of r) r.vrf_name (acquire s))
        ∙ refuses) in
      (
        ap (λ o. (insert_with_id r o l s2).0.0) given1 ∙ refused.0,
        ap (λ o. (insert_with_id r o l s2).0.1.rule_id) given1 ∙ (unfold insert_with_id in refl),
        ap (λ o. (insert_with_id r o l s2).1.id_generator) given1
            ∙ refused.1
            ∙ ap (λ g. (take_id r.rule_id g).1) same,
      )

  -- Where the kernel refuses a rule that has, or is given by a valid generator, a free ID, and that the list
  -- of its VRF accepts, `insert_rule` fails, and the rule object keeps the ID. After any calls of the ID generator that do not
  -- release this ID, it is in use and every rule that has it, such as the rule object, is refused, whatever
  -- the kernel then does.
  pub insert_rule_leaks :
      (r : Rule) (id idx : ℕ) (s : Tables sys)
      → IdGenerator.Invariant.IsValid s.id_generator
      → (take_id r.rule_id s.id_generator).0 ≡ some id
      → (RuleList.insert incoming_class
          (record r { rule_id = some id })
          (ensure_list (slot_of r) r.vrf_name (acquire s)).0).0
        ≡ some idx
      → (proc_rule sys Op.insert (record r { rule_id = some id }) (some idx) s.kernel).0 ≡ false
      → (calls : List Call) → All (λ c. keeps id c ≡ true) calls
      → (t : Tables sys)
      → t.id_generator ≡ IdGenerator.Calls.run calls (insert_rule r s).1.id_generator
      → (q : Rule) → q.rule_id ≡ some id
      → ((insert_rule r s).0.0 ≡ false)
        × ((insert_rule r s).0.1.rule_id ≡ some id)
        × (is_id_used id t.id_generator ≡ true)
        × ((insert_rule q t).0.0 ≡ false)
  insert_rule_leaks r id idx s v given accepted refuses calls kept t after q has =
      let leak = insert_rule-keeps_id r id idx s v given accepted refuses in
      let taken = take_id_lem r.rule_id s.id_generator v given in
      let used : is_id_used id (insert_rule r s).1.id_generator ≡ true =
        ap (is_id_used id) leak.2 ∙ ground (arith, taken.1 id) in
      let valid =
        subst IdGenerator.Invariant.IsValid (sym leak.2)
          (take_id-IsValid r.rule_id s.id_generator v) in
      let used1 : is_id_used id t.id_generator ≡ true =
        ap (is_id_used id) after
        ∙ run-is_id_used id calls (insert_rule r s).1.id_generator valid kept used in
      (leak.0, leak.1, used1, insert_rule_used q id t has used1)
