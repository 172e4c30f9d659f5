-- ===== src/RuleCache/Valid.antt =====
-- Every rule list of a cache stays valid under the steps that both caches share.
use mathlib.Core.Path.{subst}
use Prim.{Unit, tt}
use opx_nas_linux.Prelude.{
  ℕ, String, Bool, [], ◌∷◌, sym, lookup, put, remove, true, false, some, ◌≡◌, arith, ◌==◌,
  if◌then◌else◌, inl, inr, Bool-cases, Option-cases, eq_string, nat_eq, length,
}
use opx_nas_linux.IdGenerator.{IdGenerator}
use opx_nas_linux.RuleList
use opx_nas_linux.RuleList.{RuleClass, RuleList, empty}
use opx_nas_linux.RuleList.Invariant.{IsValid}
use opx_nas_linux.RuleList.Methods.{empty-IsValid, insert-IsValid}
use opx_nas_linux.PrivatePorts.{PortMap}
use opx_nas_linux.Rule.{Rule}
use opx_nas_linux.Iptables.{System}
use opx_nas_linux.RuleTables.{
  Tables, Slot, VrfRules, vrf_rules, with_vrf_rules, get_list, put_list, del_list, acquire,
}
use opx_nas_linux.RuleTables.Laws.{slot_eq, vrf_rules-with}
use opx_nas_linux.RuleCache.{ensure_list, drop_empty, insert_back}

module _ (c : RuleClass Rule) where
  -- Every list in a dictionary is valid.
  unfoldable pub EntriesValid : VrfRules → Type 0
  EntriesValid [] = Unit
  EntriesValid ((v, l) ∷ d) = IsValid c l × EntriesValid d

  EntriesValid-put :
      (v : String) (l : RuleList Rule) (d : VrfRules)
      → IsValid c l
      → EntriesValid d
      → EntriesValid (put v l d)
  unfolding put EntriesValid
  EntriesValid-put v l [] valid all = (valid, tt)
  EntriesValid-put v l ((w, m) ∷ d) valid all = elim (Bool-cases (w == v)) [
    | inl same ↦ rw same (valid, all.1)
    | inr other ↦ rw other (all.0, EntriesValid-put v l d valid all.1)
  ]

  EntriesValid-remove : (v : String) (d : VrfRules) → EntriesValid d → EntriesValid (remove v d)
  unfolding remove EntriesValid
  EntriesValid-remove v [] all = tt
  EntriesValid-remove v ((w, m) ∷ d) all = elim (Bool-cases (w == v)) [
    | inl same ↦ rw same (EntriesValid-remove v d all.1)
    | inr other ↦ rw other (all.0, EntriesValid-remove v d all.1)
  ]

  EntriesValid-lookup :
      (v : String) (d : VrfRules) {l : RuleList Rule}
      → EntriesValid d
      → lookup v d ≡ some l
      → IsValid c l
  unfolding lookup EntriesValid
  EntriesValid-lookup v [] all h = ground arith
  EntriesValid-lookup v ((w, m) ∷ d) {l} all h = elim (Bool-cases (w == v)) [
    | inl same ↦ subst (IsValid c) (let e : some m ≡ some l = rw same at h in ground arith) all.0
    | inr other ↦ EntriesValid-lookup v d all.1 (rw other at h)
  ]

module _ (c : RuleClass Rule) {sys : System} where
  -- Every list in the tables is valid.
  pub record AllValid (s : Tables sys) : Type 0 where
    pub entries : (p : Slot) → EntriesValid c (vrf_rules p s)

  pub AllValid-get_list :
      (s : Tables sys) (p : Slot) (v : String) {l : RuleList Rule}
      → AllValid s
      → get_list p v s ≡ some l
      → IsValid c l
  unfolding get_list
  AllValid-get_list s p v all h = EntriesValid-lookup c v (vrf_rules p s) (all.entries p) h

  pub with_vrf_rules-AllValid :
      (p : Slot) (d : VrfRules) (s : Tables sys)
      → AllValid s
      → EntriesValid c d
      → AllValid (with_vrf_rules p d s)
  with_vrf_rules-AllValid p d s all valid = record {
    entries = λ q.
        subst (EntriesValid c) (sym (vrf_rules-with p q d s))
          (chosen (slot_eq p q) (vrf_rules q s) (all.entries q));
  }
    where
      chosen :
          (b : Bool) (rest : VrfRules)
          → EntriesValid c rest
          → EntriesValid c (if b then d else rest)
      chosen true rest old = valid
      chosen false rest old = old

  pub put_list-AllValid :
      (p : Slot) (v : String) (l : RuleList Rule) (s : Tables sys)
      → AllValid s
      → IsValid c l
      → AllValid (put_list p v l s)
  unfolding put_list
  put_list-AllValid p v l s all valid =
      with_vrf_rules-AllValid p (put v l (vrf_rules p s)) s all
        (EntriesValid-put c v l (vrf_rules p s) valid (all.entries p))

  del_list-AllValid :
      (p : Slot) (v : String) (s : Tables sys) → AllValid s → AllValid (del_list p v s)
  unfolding del_list
  del_list-AllValid p v s all =
      with_vrf_rules-AllValid p (remove v (vrf_rules p s)) s all
        (EntriesValid-remove c v (vrf_rules p s) (all.entries p))

  -- the parts of the state that are no rule list
  pub with_rest-AllValid :
      (s : Tables sys) (m : ℕ) (g : IdGenerator) (d : PortMap) (k : sys.Kernel)
      → AllValid s
      → AllValid (record s { mutex = m; id_generator = g; ports = d; kernel = k })
  unfolding vrf_rules
  with_rest-AllValid s m g d k all = record { entries = all.entries }

  pub acquire-AllValid : (s : Tables sys) → AllValid s → AllValid (acquire s)
  acquire-AllValid s all =
      with_rest-AllValid s (acquire s).mutex s.id_generator s.ports s.kernel all

  pub ensure_list-AllValid :
      (p : Slot) (v : String) (s : Tables sys)
      → AllValid s
      → IsValid c (ensure_list p v s).0 × AllValid (ensure_list p v s).1
  unfolding ensure_list
  ensure_list-AllValid p v s all = elim (Option-cases (get_list p v s)) [
    | inl absent ↦
        rw (absent, ensure_list)
          (empty-IsValid c, put_list-AllValid p v empty s all (empty-IsValid c))
    | inr (l, at) ↦ rw (at, ensure_list) (AllValid-get_list s p v all at, all)
  ]

  pub drop_empty-AllValid :
      (p : Slot) (v : String) (s : Tables sys) → AllValid s → AllValid (drop_empty p v s)
  unfolding drop_empty
  drop_empty-AllValid p v s all = elim (Option-cases (get_list p v s)) [
    | inl absent ↦ rw (absent, drop_empty) all
    | inr (l, at) ↦ rw (at, drop_empty) (dropped (nat_eq (length l.rules) 0))
  ]
    where
      dropped : (b : Bool) → AllValid (if b then del_list p v s else s)
      dropped true = del_list-AllValid p v s all
      dropped false = all

  pub insert_back-AllValid :
      (p : Slot) (r : Rule) (s : Tables sys) → AllValid s → AllValid (insert_back c p r s)
  unfolding insert_back
  insert_back-AllValid p r s all = elim (Option-cases (get_list p r.vrf_name s)) [
    | inl absent ↦ rw (absent, insert_back) all
    | inr (l, at) ↦
        rw (at, insert_back)
          (put_list-AllValid p r.vrf_name (RuleList.insert c r l).1 s all
            (insert-IsValid c r l (AllValid-get_list s p r.vrf_name all at)))
  ]

  pub with_mutex-AllValid :
      (s : Tables sys) (m : ℕ) → AllValid s → AllValid (record s { mutex = m })
  with_mutex-AllValid s m all = with_rest-AllValid s m s.id_generator s.ports s.kernel all

  pub if-AllValid :
      (b : Bool) (s t : Tables sys) → AllValid s → AllValid t → AllValid (if b then s else t)
  if-AllValid true s t all_s all_t = all_s
  if-AllValid false s t all_s all_t = all_t
