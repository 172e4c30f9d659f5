-- ===== src/RuleCache/Clearing.antt =====
-- What the loops of `clear_all_rules` leave in a cache.
use opx_nas_linux.Prelude.{
  String, Bool, true, false, Option, none, List, [], ◌∷◌, ◌≡◌, refl, ◌∙◌, sym, arith, inl, inr,
  Bool-cases, Option-cases, ap, ◌==◌, ◌&&◌, ◌||◌, not, if◌then◌else◌, lookup, eq_string,
}
use opx_nas_linux.Rule.{Af, Rule, eq_af}
use opx_nas_linux.Rule.Incoming.{is_some}
use opx_nas_linux.Iptables.{System}
use opx_nas_linux.RuleTables.{Tables, Slot, VrfRules, vrf_rules, get_list, del_list, acquire}
use opx_nas_linux.RuleTables.Laws.{slot_eq, same_slot, get_list-del_list}
use opx_nas_linux.RuleCache.{search_order}
use opx_nas_linux.RuleCache.Clear.{
  skips, clear_rules, clear_lists, clear_slot, clear_slots, clear_all,
}

same_skips : (flt : Option String) (v w : String) → (v == w) ≡ true → skips flt w ≡ skips flt v
same_skips flt v w h = ap (skips flt) (sym ((eq_string.same_iff v w).0 h))

module _ {sys : System} (drop : Slot → Rule → Tables sys → Tables sys)
    (keeps : (p q : Slot) (w : String) (r : Rule) (s : Tables sys)
      → get_list q w (drop p r s) ≡ get_list q w s) where
  clear_rules-get_list :
      (p q : Slot) (w : String) (rules : List Rule) (s : Tables sys)
      → get_list q w (clear_rules drop p rules s) ≡ get_list q w s
  unfolding clear_rules
  clear_rules-get_list p q w [] s = refl
  clear_rules-get_list p q w (r ∷ rules) s =
      clear_rules-get_list p q w rules (drop p r s) ∙ keeps p q w r s

  -- A VRF is in a slot exactly where `get_list` finds its list.
  absent_or_there :
      (p q : Slot) (w : String) (s : Tables sys)
      → slot_eq p q ≡ true
      → is_some (lookup w (vrf_rules p s)) ≡ false
      → get_list q w s ≡ none
  unfolding get_list is_some
  absent_or_there p q w s same absent = elim (Option-cases (lookup w (vrf_rules p s))) [
    | inl h ↦ rw (← same_slot p q s same) h
    | inr (l, h) ↦ ground (arith, h, absent)
  ]

  clear_lists-get_list :
      (p : Slot) (flt : Option String) (d : VrfRules) (q : Slot) (w : String) (s : Tables sys)
      → get_list q w (clear_lists drop p flt d s) ≡ (
          if slot_eq p q && (not (skips flt w) && is_some (lookup w d))
          then none
          else get_list q w s)
  unfolding clear_lists is_some lookup
  clear_lists-get_list p flt [] q w s = ground arith
  clear_lists-get_list p flt ((v, l) ∷ rest) q w s = elim (Bool-cases (skips flt v)) [
    | inl skipped ↦
        rw skipped
          (ground (arith, skipped, same_skips flt v w, clear_lists-get_list p flt rest q w s))
    | inr cleared ↦ rw cleared (
        ground (
          arith,
          cleared,
          same_skips flt v w,
          clear_lists-get_list p flt rest q w (del_list p v (clear_rules drop p l.rules s)),
          get_list-del_list p q v w (clear_rules drop p l.rules s),
          clear_rules-get_list p q w l.rules s,
        ))
  ]

  clear_slot-get_list :
      (flt : Option String) (flt_af : Option Af) (p q : Slot) (w : String) (s : Tables sys)
      → get_list q w (clear_slot drop flt flt_af p s) ≡ (
          if slot_eq p q && (not (skips flt w) && not (skips flt_af p.af))
          then none
          else get_list q w s)
  unfolding clear_slot
  clear_slot-get_list flt flt_af p q w s = elim (Bool-cases (skips flt_af p.af)) [
    | inl skipped ↦ rw skipped (ground (arith, skipped))
    | inr cleared ↦
        rw cleared (
          ground (arith, clear_lists-get_list p flt (vrf_rules p s) q w s, absent_or_there p q w s))
  ]

  cleared_at :
      (flt : Option String) (flt_af : Option Af) (is_ip : Bool) (af : Af) (w : String)
      (s : Tables sys)
      → let q : Slot = record { is_ip = is_ip; af = af } in
        get_list q w (clear_slots drop flt flt_af search_order s)
        ≡ (if skips flt w || skips flt_af af then get_list q w s else none)
  unfolding clear_slots slot_eq
  cleared_at flt flt_af true Af.inet w s =
      rw (clear_slot-get_list, clear_slot-get_list, clear_slot-get_list, clear_slot-get_list)
        (ground arith)
  cleared_at flt flt_af true Af.inet6 w s =
      rw (clear_slot-get_list, clear_slot-get_list, clear_slot-get_list, clear_slot-get_list)
        (ground arith)
  cleared_at flt flt_af false Af.inet w s =
      rw (clear_slot-get_list, clear_slot-get_list, clear_slot-get_list, clear_slot-get_list)
        (ground arith)
  cleared_at flt flt_af false Af.inet6 w s =
      rw (clear_slot-get_list, clear_slot-get_list, clear_slot-get_list, clear_slot-get_list)
        (ground arith)

  pub clear_all-get_list :
      (flt_vrf : Option String) (flt_af : Option Af) (q : Slot) (w : String) (s : Tables sys)
      → get_list q w (clear_all drop flt_vrf flt_af s)
        ≡ (if skips flt_vrf w || skips flt_af q.af then get_list q w s else none)
  unfolding clear_all get_list
  clear_all-get_list flt_vrf flt_af q w s = cleared_at flt_vrf flt_af q.is_ip q.af w (acquire s)
