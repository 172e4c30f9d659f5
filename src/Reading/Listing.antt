-- ===== src/Reading/Listing.antt =====
-- `get_all_rules` against the list of the rules that it should return.
use Prim.{Unit, tt}
use opx_nas_linux.Prelude.{
  String, Bool, false, Option, List, [], ◌∷◌, ◌++◌, ◌≡◌, refl, ap, ◌∙◌, arith, inl, inr, Bool-cases,
  map, filter, All, if◌then◌else◌, eq_string,
}
use opx_nas_linux.RuleList.{RuleList}
use opx_nas_linux.Rule.{RuleType, Rule, eq_rule_type}
use opx_nas_linux.Iptables.{System}
use opx_nas_linux.RuleTables.{Tables, Slot, VrfRules, vrf_rules, with_vrf_rules, acquire}
use opx_nas_linux.RuleTables.Laws.{slot_eq, vrf_rules-with}
use opx_nas_linux.RuleCache.{search_order}
use opx_nas_linux.RuleCache.Clear.{skips}
use opx_nas_linux.Reading.{
  Filter, match_rule, read_rules, read_lists, read_slots, read_stats, incoming_types,
  outgoing_types, get_all_rules, outgoing_get_all_rules,
}

module _ {K : Type 0} (read : RuleList Rule → Rule → K → Rule) where
  -- the rules of a dictionary that are asked for, in its order, and in the order of each list
  unfoldable pub listed : Filter → Option String → VrfRules → K → List Rule
  listed f vrf_name [] k = []
  listed f vrf_name ((vrf, l) ∷ rest) k =
      (if skips vrf_name vrf then [] else map (λ r. read l r k) (filter (match_rule f) l.rules))
      ++ listed f vrf_name rest k

  read_rules-copies :
      (f : Filter) (l : RuleList Rule) (rules : List Rule) (k : K)
      → (read_rules read f l rules k).1 ≡ map (λ r. read l r k) (filter (match_rule f) rules)
  unfolding read_rules
  read_rules-copies f l [] k = refl
  read_rules-copies f l (r ∷ rules) k = elim (Bool-cases (match_rule f r)) [
    | inl fits ↦ rw fits (ap (λ rest. read l r k ∷ rest) (read_rules-copies f l rules k))
    | inr other ↦ rw other (read_rules-copies f l rules k)
  ]

  read_lists-copies :
      (f : Filter) (vrf_name : Option String) (d : VrfRules) (k : K)
      → (read_lists read f vrf_name d k).1 ≡ listed f vrf_name d k
  unfolding read_lists listed
  read_lists-copies f vrf_name [] k = refl
  read_lists-copies f vrf_name ((vrf, l) ∷ rest) k = elim (Bool-cases (skips vrf_name vrf)) [
    | inl skip ↦ rw skip (read_lists-copies f vrf_name rest k)
    | inr take ↦
        rw (take, read_rules-copies f l l.rules k, read_lists-copies f vrf_name rest k) refl
  ]

-- no table comes twice
abbrev pub AllApart : List Slot → Type 0
AllApart [] = Unit
AllApart (p ∷ ps) = All (λ q. slot_eq p q ≡ false) ps × AllApart ps

pub search_order-apart : AllApart search_order
unfolding slot_eq
search_order-apart = ((refl, (refl, (refl, tt))), ((refl, (refl, tt)), ((refl, tt), (tt, tt))))

module _ {sys : System} (read : RuleList Rule → Rule → sys.Kernel → Rule)
    (type_of : Bool → RuleType) (f : Filter) (rule_type : Option RuleType)
    (vrf_name : Option String) where
  -- The same through several tables, all as they are in one state.
  unfoldable pub listing : List Slot → Tables sys → List Rule
  unfolding listed
  listing [] s = []
  listing (p ∷ ps) s =
      (if skips rule_type (type_of p.is_ip)
        then []
        else listed read f vrf_name (vrf_rules p s) s.kernel)
      ++ listing ps s

  -- A write to a table does not show in the others.
  listing-with :
      (p : Slot) (d : VrfRules) (ps : List Slot) (s : Tables sys)
      → All (λ q. slot_eq p q ≡ false) ps
      → listing ps (with_vrf_rules p d s) ≡ listing ps s
  unfolding listing vrf_rules with_vrf_rules
  listing-with p d [] s others = refl
  listing-with p d (q ∷ ps) s others =
      let same : vrf_rules q (with_vrf_rules p d s) ≡ vrf_rules q s =
        vrf_rules-with p q d s ∙ (rw (others.0) refl) in
      let kernel : (with_vrf_rules p d s).kernel ≡ s.kernel =
        unfold with_vrf_rules in ground arith in
      rw (same, kernel, listing-with p d ps s others.1) refl

  pub read_slots-copies :
      (ps : List Slot) (s : Tables sys)
      → AllApart ps
      → (read_slots read type_of f rule_type vrf_name ps s).0 ≡ listing ps s
  unfolding read_slots listing
  read_slots-copies [] s apart = refl
  read_slots-copies (p ∷ ps) s apart =
      let d = (read_lists read f vrf_name (vrf_rules p s) s.kernel).0 in
      elim (Bool-cases (skips rule_type (type_of p.is_ip))) [
        | inl skip ↦ rw skip (read_slots-copies ps s apart.1)
        | inr take ↦
            rw (take, read_lists-copies read f vrf_name (vrf_rules p s) s.kernel)
              (ap (λ rest. listed read f vrf_name (vrf_rules p s) s.kernel ++ rest)
                (read_slots-copies ps (with_vrf_rules p d s) apart.1
                  ∙ listing-with p d ps s apart.0))
      ]

module _ {sys : System} where
  -- `get_all_rules` returns, for the tables, the VRFs and the attributes that are asked for, the rules
  -- that match, each once for each time it is stored and with its statistics where it has an ID, in the
  -- order of the tables, of the VRFs in a table and of the rules in a list.
  pub get_all_rules-eq-listing :
      (rule_type : Option RuleType) (vrf_name : Option String) (f : Filter) (s : Tables sys)
      → (get_all_rules rule_type vrf_name f s).0
        ≡ listing (read_stats sys) incoming_types f rule_type vrf_name search_order s
  unfolding get_all_rules listing vrf_rules
  get_all_rules-eq-listing rule_type vrf_name f s =
      read_slots-copies (read_stats sys) incoming_types f rule_type vrf_name search_order
        (acquire s) search_order-apart

  pub outgoing_get_all_rules-listing :
      (rule_type : Option RuleType) (vrf_name : Option String) (f : Filter) (s : Tables sys)
      → (outgoing_get_all_rules rule_type vrf_name f s).0
        ≡ listing (λ l r k. r) outgoing_types f rule_type vrf_name search_order s
  unfolding outgoing_get_all_rules listing vrf_rules
  outgoing_get_all_rules-listing rule_type vrf_name f s =
      read_slots-copies (λ l r k. r) outgoing_types f rule_type vrf_name search_order (acquire s)
        search_order-apart
