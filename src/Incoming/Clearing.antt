-- ===== src/Incoming/Clearing.antt =====
-- What `clear_all_rules` leaves in the incoming cache.
use opx_nas_linux.Prelude.{String, Option, none, ◌≡◌, refl, ◌||◌, if◌then◌else◌, eq_string}
use opx_nas_linux.Rule.{Af, eq_af}
use opx_nas_linux.Iptables.{System}
use opx_nas_linux.RuleTables.{Tables, Slot, get_list}
use opx_nas_linux.RuleCache.Clear.{skips}
use opx_nas_linux.RuleCache.Clearing.{clear_all-get_list}
use opx_nas_linux.Incoming.Update.{drop_rule, clear_all_rules}

module _ {sys : System} where
  -- After `clear_all_rules` there is no rule list for a VRF and a family that both filters let
  -- through, in either table; every other rule list is as it was.
  pub clear_all_rules-get_list :
      (flt_vrf : Option String) (flt_af : Option Af) (q : Slot) (w : String) (s : Tables sys)
      → get_list q w (clear_all_rules flt_vrf flt_af s)
        ≡ (if skips flt_vrf w || skips flt_af q.af then get_list q w s else none)
  unfolding clear_all_rules
  clear_all_rules-get_list =
      clear_all-get_list drop_rule (λ p q w r s. unfold drop_rule get_list in refl)
