-- ===== src/RuleTables/Laws.antt =====
-- Reading the tables after a write.
use opx_nas_linux.Prelude.{
  String, Bool, true, false, none, some, ◌≡◌, refl, arith, if◌then◌else◌, lookup-put, lookup-remove,
  ◌==◌, ◌&&◌, eq_string, nat_eq, Bool-cases, inl, inr,
}
use opx_nas_linux.RuleList.{RuleList}
use opx_nas_linux.Rule.{Rule, af_value}
use opx_nas_linux.Iptables.{System}
use opx_nas_linux.RuleTables.{
  Tables, Slot, VrfRules, vrf_rules, with_vrf_rules, get_list, put_list, del_list,
}

unfoldable pub slot_eq : Slot → Slot → Bool
slot_eq p q =
    (if p.is_ip then q.is_ip else (if q.is_ip then false else true))
    && nat_eq (af_value p.af) (af_value q.af)

module _ {sys : System} where
  pub vrf_rules-with :
      (p q : Slot) (d : VrfRules) (s : Tables sys)
      → vrf_rules q (with_vrf_rules p d s) ≡ (if slot_eq p q then d else vrf_rules q s)
  unfolding vrf_rules with_vrf_rules slot_eq
  vrf_rules-with p q d s = ground arith

  pub same_slot : (p q : Slot) (s : Tables sys) → slot_eq p q ≡ true → vrf_rules p s ≡ vrf_rules q s
  unfolding vrf_rules slot_eq
  same_slot p q s h = ground arith

  pub get_list-put_list :
      (p q : Slot) (v w : String) (l : RuleList Rule) (s : Tables sys)
      → get_list q w (put_list p v l s) ≡ (if slot_eq p q && v == w then some l else get_list q w s)
  unfolding get_list put_list
  get_list-put_list p q v w l s = elim (Bool-cases (slot_eq p q)) [
    | inl same ↦
        rw (vrf_rules-with, same, ← same_slot p q s same) (lookup-put v w l (vrf_rules p s))
    | inr other ↦ rw (vrf_rules-with, other) refl
  ]

  pub get_list-del_list :
      (p q : Slot) (v w : String) (s : Tables sys)
      → get_list q w (del_list p v s) ≡ (if slot_eq p q && v == w then none else get_list q w s)
  unfolding get_list del_list
  get_list-del_list p q v w s = elim (Bool-cases (slot_eq p q)) [
    | inl same ↦
        rw (vrf_rules-with, same, ← same_slot p q s same) (lookup-remove v w (vrf_rules p s))
    | inr other ↦ rw (vrf_rules-with, other) refl
  ]

  -- A write to the tables leaves the rest of the state.
  pub put_list-kernel :
      (p : Slot) (v : String) (l : RuleList Rule) (s : Tables sys)
      → (put_list p v l s).kernel ≡ s.kernel
  unfolding put_list with_vrf_rules
  put_list-kernel p v l s = ground arith

  pub put_list-id_generator :
      (p : Slot) (v : String) (l : RuleList Rule) (s : Tables sys)
      → (put_list p v l s).id_generator ≡ s.id_generator
  unfolding put_list with_vrf_rules
  put_list-id_generator p v l s = ground arith

  pub put_list-mutex :
      (p : Slot) (v : String) (l : RuleList Rule) (s : Tables sys)
      → (put_list p v l s).mutex ≡ s.mutex
  unfolding put_list with_vrf_rules
  put_list-mutex p v l s = ground arith

  pub put_list-ports :
      (p : Slot) (v : String) (l : RuleList Rule) (s : Tables sys)
      → (put_list p v l s).ports ≡ s.ports
  unfolding put_list with_vrf_rules
  put_list-ports p v l s = ground arith

  pub del_list-kernel :
      (p : Slot) (v : String) (s : Tables sys) → (del_list p v s).kernel ≡ s.kernel
  unfolding del_list with_vrf_rules
  del_list-kernel p v s = ground arith

  pub del_list-id_generator :
      (p : Slot) (v : String) (s : Tables sys) → (del_list p v s).id_generator ≡ s.id_generator
  unfolding del_list with_vrf_rules
  del_list-id_generator p v s = ground arith

  pub del_list-mutex : (p : Slot) (v : String) (s : Tables sys) → (del_list p v s).mutex ≡ s.mutex
  unfolding del_list with_vrf_rules
  del_list-mutex p v s = ground arith

  pub del_list-ports : (p : Slot) (v : String) (s : Tables sys) → (del_list p v s).ports ≡ s.ports
  unfolding del_list with_vrf_rules
  del_list-ports p v s = ground arith

pub slot_eq_refl : (p : Slot) → slot_eq p p ≡ true
unfolding slot_eq
slot_eq_refl p = ground arith
