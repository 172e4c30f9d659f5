-- ===== src/RuleCache/Clear.antt =====
-- The loops of `clear_all_rules`, over what a cache does to each rule.
use opx_nas_linux.Prelude.{
  String, Bool, false, Option, none, some, List, [], ◌∷◌, HasEq, ◌==◌, not, if◌then◌else◌,
  eq_string,
}
use opx_nas_linux.Rule.{Af, Rule, eq_af}
use opx_nas_linux.Iptables.{System}
use opx_nas_linux.RuleTables.{Tables, Slot, VrfRules, vrf_rules, del_list, acquire, release}
use opx_nas_linux.RuleCache.{search_order}

-- `flt is not None and flt != x` skips
abbrev pub skips {ℓ} : {A : Type ℓ} ⦃e : HasEq A⦄ → Option A → A → Bool
skips none x = false
skips ⦃e⦄ (some flt) x = not (flt == x)

module _ {sys : System} (drop : Slot → Rule → Tables sys → Tables sys) where
  -- the loop over a list in `clear_all_rules`
  unfoldable pub clear_rules : Slot → List Rule → Tables sys → Tables sys
  clear_rules p [] s = s
  clear_rules p (rule ∷ rules) s = clear_rules p rules (drop p rule s)

  -- the loop over `table[af].items()`
  unfoldable pub clear_lists : Slot → Option String → VrfRules → Tables sys → Tables sys
  unfolding clear_rules
  clear_lists p flt_vrf [] s = s
  clear_lists p flt_vrf ((vrf_name, l) ∷ rest) s =
      clear_lists p flt_vrf rest
        (if skips flt_vrf vrf_name then s else del_list p vrf_name (clear_rules p l.rules s))

  unfoldable pub clear_slot : Option String → Option Af → Slot → Tables sys → Tables sys
  unfolding clear_lists
  clear_slot flt_vrf flt_af p s =
      if skips flt_af p.af then s else clear_lists p flt_vrf (vrf_rules p s) s

  unfoldable pub clear_slots : Option String → Option Af → List Slot → Tables sys → Tables sys
  unfolding clear_slot
  clear_slots flt_vrf flt_af [] s = s
  clear_slots flt_vrf flt_af (p ∷ ps) s =
      clear_slots flt_vrf flt_af ps (clear_slot flt_vrf flt_af p s)

  unfoldable pub clear_all : Option String → Option Af → Tables sys → Tables sys
  unfolding clear_slots
  clear_all flt_vrf flt_af s = release (clear_slots flt_vrf flt_af search_order (acquire s))
