-- ===== src/RuleCache/Locks.antt =====
-- The steps that both caches share leave the lock.
use opx_nas_linux.Prelude.{String, ◌≡◌, refl, arith, inl, inr, Option-cases, eq_string}
use opx_nas_linux.RuleList.{RuleClass}
use opx_nas_linux.Rule.{Rule}
use opx_nas_linux.Iptables.{System}
use opx_nas_linux.RuleTables.{Tables, Slot, get_list}
use opx_nas_linux.RuleTables.Laws.{put_list-mutex, del_list-mutex}
use opx_nas_linux.RuleCache.{drop_empty, insert_back}

module _ {sys : System} where
  pub drop_empty-mutex :
      (p : Slot) (v : String) (s : Tables sys) → (drop_empty p v s).mutex ≡ s.mutex
  unfolding drop_empty
  drop_empty-mutex p v s = ground (arith, del_list-mutex p v s)

  pub insert_back-mutex :
      (c : RuleClass Rule) (p : Slot) (r : Rule) (s : Tables sys)
      → (insert_back c p r s).mutex ≡ s.mutex
  unfolding insert_back
  insert_back-mutex c p r s = elim (Option-cases (get_list p r.vrf_name s)) [
    | inl absent ↦ rw (absent, insert_back) refl
    | inr (l, at) ↦ rw (at, insert_back) (put_list-mutex p r.vrf_name _ s)
  ]
