-- ===== src/Snoop/Laws.antt =====
-- The rules of ebtables after `add_ebtable_rules`, under what the manual of ebtables says.
use mathlib.Core.Path.{subst}
use mathlib.Core.List.{append-nil}
use opx_nas_linux.Prelude.{
  String, Bool, true, List, ◌&&◌, [], ◌∷◌, ◌++◌, ◌≡◌, refl, sym, ap, ◌∙◌, arith, inl, inr,
  Bool-cases, ◌==◌, ◌||◌, eq_string,
}
use opx_nas_linux.Snoop.{Command, Shell, is_in, insert_missing, add_ebtable_rules}

-- What ebtables does. It writes the rules of a chain in a normal form, among other lines of output, such as
-- a header with their number; `is_normal` says which texts are rules in that form. -L prints a rule of
-- that form exactly when the chain has it, and changes no chain; an -I of a rule in that form that
-- succeeds puts it in front of the others and prints nothing.
pub record EbtablesLaws (sh : Shell) : Type 0 where
  pub rules : sh.State → (table chain : String) → List String
  pub is_normal : String → Bool
  pub list_law :
      (table chain rule : String) (s : sh.State)
      → is_normal rule ≡ true
      → is_in rule (sh.run_command (Command.ebtables_list table chain) s).0.1
        ≡ is_in rule (rules s table chain)
  pub list_keeps :
      (table chain : String) (s : sh.State)
      → rules (sh.run_command (Command.ebtables_list table chain) s).1 table chain
        ≡ rules s table chain
  pub insert_law :
      (table chain rule : String) (s : sh.State)
      → is_normal rule ≡ true
      → (sh.run_command (Command.ebtables_insert table chain rule) s).0.0 ≡ true
      → rules (sh.run_command (Command.ebtables_insert table chain rule) s).1 table chain
        ≡ rule ∷ rules s table chain
  pub insert_silent :
      (table chain rule : String) (s : sh.State)
      → (sh.run_command (Command.ebtables_insert table chain rule) s).0.0 ≡ true
      → (sh.run_command (Command.ebtables_insert table chain rule) s).0.1 ≡ []

module _ (sh : Shell) (laws : EbtablesLaws sh) where
  abbrev pub all_normal : List String → Bool
  all_normal [] = true
  all_normal (rule ∷ rules) = laws.is_normal rule && all_normal rules

  all_normal-is_in :
      (r : String) (rules : List String)
      → all_normal rules ≡ true
      → is_in r rules ≡ true
      → laws.is_normal r ≡ true
  all_normal-is_in r [] normal at = absurd (ground (arith, at))
  all_normal-is_in r (rule ∷ rules) normal at = elim (Bool-cases (rule == r)) [
    | inl same ↦
        subst (λ x. laws.is_normal x ≡ true) ((eq_string.same_iff rule r).0 same)
          (ground (arith, normal))
    | inr other ↦ all_normal-is_in r rules (ground (arith, normal)) (ground (arith, at, other))
  ]

  -- The rules that are printed are in the chain.
  abbrev Sound : (table chain : String) → List String → sh.State → Type 0
  Sound table chain res s =
      (r : String)
      → laws.is_normal r ≡ true
      → is_in r res ≡ true
      → is_in r (laws.rules s table chain) ≡ true

  -- the rule at the head of the list
  skipped_lem :
      (rule r : String) (rules before after : List String)
      → is_in rule before ≡ true
      → is_in r after ≡ (is_in r rules || is_in r before)
      → is_in r after ≡ (is_in r (rule ∷ rules) || is_in r before)
  skipped_lem rule r rules before after there e = elim (Bool-cases (rule == r)) [
    | inr other ↦ rw other e
    | inl same ↦
        let at : is_in r before ≡ true =
          subst (λ x. is_in x before ≡ true) ((eq_string.same_iff rule r).0 same) there in
        ground (arith, e, at, same)
  ]

  insert_missing_lem :
      (table chain : String) (rules res : List String) (s : sh.State)
      → all_normal rules ≡ true
      → Sound table chain res s
      → (insert_missing sh table chain rules res s).0 ≡ true
      → (r : String)
      → is_in r (laws.rules (insert_missing sh table chain rules res s).1 table chain)
        ≡ (is_in r rules || is_in r (laws.rules s table chain))
  unfolding insert_missing
  insert_missing_lem table chain [] res s normal sound h r = refl
  insert_missing_lem table chain (rule ∷ rules) res s normal sound h r =
      let first : laws.is_normal rule ≡ true = ground (arith, normal) in
      let others : all_normal rules ≡ true = ground (arith, normal) in
      let s1 = (sh.run_command (Command.ebtables_insert table chain rule) s).1 in
      elim (Bool-cases (is_in rule res)) [
        | inl there ↦ rw there (
            skipped_lem rule r rules (laws.rules s table chain) _ (sound rule first there)
              (insert_missing_lem table chain rules res s others sound (rw there at h) r))
        | inr absent ↦
            let both = rw absent at h in
            let ok : (sh.run_command (Command.ebtables_insert table chain rule) s).0.0 ≡ true =
              ground (arith, both) in
            let law = laws.insert_law table chain rule s first ok in
            let lines = (sh.run_command (Command.ebtables_insert table chain rule) s).0.1 in
            let same : res ++ lines ≡ res =
              ap (λ l. res ++ l) (laws.insert_silent table chain rule s ok) ∙ append-nil res in
            let sound1 : Sound table chain (res ++ lines) s1 = λ x n e.
              let before = sound x n (sym (ap (is_in x) same) ∙ e) in
              ap (is_in x) law ∙ ground (arith, before) in
            let rest =
              insert_missing_lem table chain rules (res ++ lines) s1 others sound1
                (ground (arith, both)) r in
            let here : is_in r (laws.rules s1 table chain)
                ≡ is_in r (rule ∷ laws.rules s table chain) =
              ap (is_in r) law in
            rw absent (ground (arith, rest, here))
      ]

  -- With every rule in the output, nothing is inserted.
  insert_missing_all :
      (table chain : String) (rules res : List String) (s : sh.State)
      → ((r : String) → is_in r rules ≡ true → is_in r res ≡ true)
      → insert_missing sh table chain rules res s ≡ (true, s)
  unfolding insert_missing
  insert_missing_all table chain [] res s all = refl
  insert_missing_all table chain (rule ∷ rules) res s all =
      let there = all rule (ground (arith, eq_string.same_iff rule rule)) in
      rw (there, insert_missing)
        (insert_missing_all table chain rules res s (λ r h. all r (ground (arith, h))))

  -- If `add_ebtable_rules` succeeds on rules in their normal form, the chain has afterwards the rules that it had and those that were
  -- to be added, and no others.
  pub add_ebtable_rules_lem :
      (table chain : String) (rules : List String) (s : sh.State)
      → all_normal rules ≡ true
      → (add_ebtable_rules sh table chain rules s).0 ≡ true
      → (r : String)
      → is_in r (laws.rules (add_ebtable_rules sh table chain rules s).1 table chain)
        ≡ (is_in r rules || is_in r (laws.rules s table chain))
  unfolding add_ebtable_rules
  add_ebtable_rules_lem table chain rules s normal h r =
      let ((ok, res), s1) = sh.run_command (Command.ebtables_list table chain) s in
      let kept = laws.list_keeps table chain s in
      insert_missing_lem table chain rules res s1 normal
        (λ x n e. ap (is_in x) kept ∙ sym (laws.list_law table chain x s n) ∙ e) h r
      ∙ ap (λ l. is_in r rules || is_in r l) kept

  -- If `add_ebtable_rules` has succeeded on rules in their normal form, it succeeds a second time and leaves the chain, with the order and the number of its
  -- rules, as it was after the first time.
  pub add_ebtable_rules_again :
      (table chain : String) (rules : List String) (s : sh.State)
      → all_normal rules ≡ true
      → (add_ebtable_rules sh table chain rules s).0 ≡ true
      → ((add_ebtable_rules sh table chain rules (add_ebtable_rules sh table chain rules s).1).0
          ≡ true)
        × (laws.rules
              (add_ebtable_rules sh table chain rules
                (add_ebtable_rules sh table chain rules s).1).1
              table
              chain
            ≡ laws.rules (add_ebtable_rules sh table chain rules s).1 table chain)
  add_ebtable_rules_again table chain rules s normal h =
      let s1 = (add_ebtable_rules sh table chain rules s).1 in
      let ((ok, res), s2) = sh.run_command (Command.ebtables_list table chain) s1 in
      let all : (r : String) → is_in r rules ≡ true → is_in r res ≡ true = λ r e.
        let there = add_ebtable_rules_lem table chain rules s normal h r in
        laws.list_law table chain r s1 (all_normal-is_in r rules normal e)
        ∙ ground (arith, there, e) in
      let unchanged : add_ebtable_rules sh table chain rules s1 ≡ (true, s2) =
        unfold add_ebtable_rules in insert_missing_all table chain rules res s2 all in
      (
        ap (λ x. x.0) unchanged,
        ap (λ x. laws.rules x.1 table chain) unchanged ∙ laws.list_keeps table chain s1,
      )
