-- ===== src/Incoming/Mirror.antt =====
-- The rule lists of the incoming cache mirror the chains of the kernel.
use opx_nas_linux.Prelude.{
  ℕ, Option, none, some, List, [], ◌≡◌, refl, sym, ap, ◌∙◌, arith, inl, inr, Bool-cases,
  Option-cases, eq_string, map, insert_at,
}
use opx_nas_linux.RuleList
use opx_nas_linux.RuleList.{RuleList, empty}
use opx_nas_linux.RuleList.Invariant.{IsValid, map-insert_at}
use opx_nas_linux.RuleList.Methods.{insert_place}
use opx_nas_linux.RuleList.Removal.{remove_rule-insert}
use opx_nas_linux.Rule.{Rule, eq_rule_type}
use opx_nas_linux.Iptables.{System, Op, proc_rule}
use opx_nas_linux.Iptables.Laws.{
  ChainLaws, chain_ref, words, Supported, proc_insert-true, proc_insert-false,
}
use opx_nas_linux.RuleTables.{Tables, get_list, put_list, acquire}
use opx_nas_linux.RuleTables.Laws.{slot_eq_refl, get_list-put_list, put_list-kernel}
use text.Mathlib.TextPositions.{eq_refl}
use opx_nas_linux.RuleCache.{take_id, ensure_list}
use opx_nas_linux.Incoming.{incoming_class, slot_of, place_rule, insert_with_id, insert_rule}
use opx_nas_linux.RuleCache.Valid.{AllValid, acquire-AllValid, ensure_list-AllValid}

abbrev pub rules_or_empty : Option (RuleList Rule) → List Rule
rules_or_empty none = []
rules_or_empty (some l) = l.rules

-- the rules that the cache holds for the VRF, family and type of `r`
abbrev pub cached : {sys : System} → Rule → Tables sys → List Rule
cached r s = rules_or_empty (get_list (slot_of r) r.vrf_name s)

module _ {sys : System} where
  cached-put_list :
      (r : Rule) (l : RuleList Rule) (s : Tables sys)
      → cached r (put_list (slot_of r) r.vrf_name l s) ≡ l.rules
  cached-put_list r l s =
      let read = get_list-put_list (slot_of r) (slot_of r) r.vrf_name r.vrf_name l s in
      let here : get_list (slot_of r) r.vrf_name (put_list (slot_of r) r.vrf_name l s) ≡ some l =
        ground (arith, read, slot_eq_refl (slot_of r), eq_refl r.vrf_name) in
      ap rules_or_empty here

  cached-ensure_list :
      (r : Rule) (s : Tables sys)
      → ((ensure_list (slot_of r) r.vrf_name s).0.rules ≡ cached r s)
        × (cached r (ensure_list (slot_of r) r.vrf_name s).1 ≡ cached r s)
        × ((ensure_list (slot_of r) r.vrf_name s).1.kernel ≡ s.kernel)
  unfolding ensure_list
  cached-ensure_list r s = elim (Option-cases (get_list (slot_of r) r.vrf_name s)) [
    | inl absent ↦
        rw (absent, ensure_list)
          (refl, cached-put_list r empty s, put_list-kernel (slot_of r) r.vrf_name empty s)
    | inr (l, at) ↦ rw (at, ensure_list) (refl, ap rules_or_empty at, refl)
  ]

module _ (sys : System) (laws : ChainLaws sys) where
  -- The chain in which `r` belongs holds, in order, the words of the rules that the cache holds for
  -- its VRF, family and type.
  abbrev pub Mirrors : Rule → Tables sys → Type 0
  Mirrors r s = laws.chain s.kernel (chain_ref r) ≡ map (words sys laws) (cached r s)

  module _ (r : Rule) (id : ℕ) (l : RuleList Rule) (s : Tables sys)
      (valid : IsValid incoming_class l) (supported : Supported sys laws r)
      (has : r.rule_id ≡ some id) where
    place_rule-Mirrors :
        (o : Option ℕ)
        → (RuleList.insert incoming_class r l).0 ≡ o
        → laws.chain s.kernel (chain_ref r) ≡ map (words sys laws) l.rules
        → cached r s ≡ l.rules
        → Mirrors r (place_rule r id o (RuleList.insert incoming_class r l).1 s).1
    unfolding place_rule get_list
    place_rule-Mirrors none out mirrored here = mirrored ∙ ap (map (words sys laws)) (sym here)
    place_rule-Mirrors (some idx) at mirrored here =
        let l' = (RuleList.insert incoming_class r l).1 in
        let k = (proc_rule sys Op.insert r (some idx) s.kernel).1 in
        let written = λ (m : RuleList Rule).
          ap (λ x. laws.chain x (chain_ref r))
            (put_list-kernel (slot_of r) r.vrf_name m (record s { kernel = k })) in
        let read = λ (m : RuleList Rule).
          ap (map (words sys laws)) (sym (cached-put_list r m (record s { kernel = k }))) in
        elim (Bool-cases (proc_rule sys Op.insert r (some idx) s.kernel).0) [
          | inl done ↦ rw done (
              written l'
              ∙ proc_insert-true sys laws r idx s.kernel supported done
              ∙ ap (insert_at idx (words sys laws r)) mirrored
              ∙ sym (map-insert_at incoming_class (words sys laws) idx r l.rules)
              ∙ ap (map (words sys laws)) (sym (insert_place incoming_class r l valid at).0)
              ∙ read l')
          | inr failed ↦ rw failed (
              written (RuleList.remove_rule incoming_class r l').1
              ∙ proc_insert-false sys laws r idx s.kernel (chain_ref r) supported failed
              ∙ mirrored
              ∙ ap (map (words sys laws)) (sym (remove_rule-insert incoming_class r l valid has at))
              ∙ read (RuleList.remove_rule incoming_class r l').1)
        ]

  insert_with_id-Mirrors :
      (r : Rule) (id : Option ℕ) (l : RuleList Rule) (s : Tables sys)
      → IsValid incoming_class l
      → Supported sys laws r
      → cached r s ≡ l.rules
      → Mirrors r s
      → Mirrors r (insert_with_id r id l s).1
  unfolding insert_with_id
  insert_with_id-Mirrors r none l s valid supported here mirrored = mirrored
  insert_with_id-Mirrors r (some id) l s valid supported here mirrored =
      place_rule-Mirrors (record r { rule_id = some id }) id l s valid supported refl
        (RuleList.insert incoming_class (record r { rule_id = some id }) l).0 refl
        (mirrored ∙ ap (map (words sys laws)) here) here

  -- `insert_rule` keeps the chain of the new rule's VRF, family and type equal, rule by rule, to the
  -- list in the cache: whether the rule is inserted at the position that the cache chose, refused by
  -- the cache, or refused by the kernel and rolled back.
  pub insert_rule-Mirrors :
      (r : Rule) (s : Tables sys)
      → AllValid incoming_class s
      → Supported sys laws r
      → Mirrors r s
      → Mirrors r (insert_rule r s).1
  unfolding insert_rule get_list
  insert_rule-Mirrors r s all supported mirrored =
      let made = cached-ensure_list r (acquire s) in
      let (l, s1) = ensure_list (slot_of r) r.vrf_name (acquire s) in
      let (id, g) = take_id r.rule_id s1.id_generator in
      insert_with_id-Mirrors r id l (record s1 { id_generator = g })
        (ensure_list-AllValid incoming_class (slot_of r) r.vrf_name (acquire s)
          (acquire-AllValid incoming_class s all)).0
        supported (made.1 ∙ sym made.0)
        (ap (λ k. laws.chain k (chain_ref r)) made.2
          ∙ mirrored
          ∙ ap (map (words sys laws)) (sym made.1))
