-- ===== src/RuleCache/Finding.antt =====
-- What `find_slots` finds.
use mathlib.Core.Path.{subst}
use opx_nas_linux.Prelude.{ℕ, List, [], ◌∷◌, some, ◌≡◌, arith, inl, inr, Option-cases, get_elem?}
use opx_nas_linux.RuleList
use opx_nas_linux.RuleList.{RuleClass}
use opx_nas_linux.RuleList.Invariant.{IsValid}
use opx_nas_linux.RuleList.Replacement.{find_by_id-get_elem?}
use opx_nas_linux.Rule.{Rule}
use opx_nas_linux.Iptables.{System}
use opx_nas_linux.RuleTables.{Tables, Slot, VrfRules, vrf_rules}
use opx_nas_linux.RuleCache.{Found, find_in, find_slots}
use opx_nas_linux.RuleCache.Valid.{AllValid, EntriesValid}

module _ (c : RuleClass Rule) where
  -- What is found stands in a valid list, at the position that is given with it.
  pub record IsThere (f : Found) : Type 0 where
    pub at : get_elem? f.rules.rules f.idx ≡ some f.rule
    pub valid : IsValid c f.rules

  find_in-IsThere :
      (p : Slot) (id : ℕ) (d : VrfRules) {f : Found}
      → EntriesValid c d
      → find_in c p id d ≡ some f
      → IsThere f
  unfolding find_in EntriesValid
  find_in-IsThere p id [] all h = ground arith
  find_in-IsThere p id ((v, l) ∷ rest) {f} all h =
      elim (Option-cases (RuleList.find_by_id c id l)) [
        | inl absent ↦ find_in-IsThere p id rest all.1 (rw (absent, find_in) at h)
        | inr ((r, idx), found) ↦
            let e : some (record { slot = p; vrf_name = v; rules = l; rule = r; idx = idx })
                ≡ some f =
              rw (found, find_in) at h in
            let same : record { slot = p; vrf_name = v; rules = l; rule = r; idx = idx } ≡ f =
              ground arith in
            subst IsThere same (record { at = find_by_id-get_elem? c id l found; valid = all.0 })
      ]

  module _ {sys : System} where
    pub find_slots-IsThere :
        (ps : List Slot) (id : ℕ) (s : Tables sys) {f : Found}
        → AllValid c s
        → find_slots c ps id s ≡ some f
        → IsThere f
    unfolding find_slots
    find_slots-IsThere [] id s all h = ground arith
    find_slots-IsThere (p ∷ ps) id s {f} all h =
        elim (Option-cases (find_in c p id (vrf_rules p s))) [
          | inl absent ↦ find_slots-IsThere ps id s all (rw (absent, find_slots) at h)
          | inr (g, found) ↦
              let e : some g ≡ some f = rw (found, find_slots) at h in
              let same : g ≡ f = ground arith in
              subst IsThere same (find_in-IsThere p id (vrf_rules p s) (all.entries p) found)
        ]
