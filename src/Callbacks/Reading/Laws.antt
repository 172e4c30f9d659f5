-- ===== src/Callbacks/Reading/Laws.antt =====
-- The reading of rules on request: what it answers and what it keeps.
use opx_nas_linux.Prelude.{
  ℕ, String, Option, none, some, ◌≡◌, refl, ◌==◌, ◌||◌, not, inl, inr, Option-cases, eq_option, map,
  ap, arith,
}
use opx_nas_linux.Rule.{RuleType, Action, Rule, eq_action}
use opx_nas_linux.Iptables.{System}
use opx_nas_linux.RuleTables.{Tables}
use opx_nas_linux.RuleCache.{search_order}
use opx_nas_linux.RuleCache.Valid.{AllValid}
use opx_nas_linux.Incoming.{incoming_class}
use opx_nas_linux.Incoming.Deletion.{find_rule_by_id-AllValid}
use opx_nas_linux.Reading.{
  Filter, match_rule, shown_action, to_cps_obj, process_vrf_svcs_rule_get, read_stats,
  incoming_types,
}
use opx_nas_linux.Reading.Listing.{listing, get_all_rules-eq-listing}
use opx_nas_linux.Reading.Valid.{get_all_rules-AllValid}
use opx_nas_linux.Callbacks.Incoming
use opx_nas_linux.Callbacks.Reading.{incoming_filter, read_request, get_incoming_ip_svcs}

-- a request for the rules with an action
abbrev pub by_action : Option Action → Filter
by_action action = record {
  af = none;
  src_ip = none;
  src_prefix_len = none;
  dst_ip = none;
  dst_prefix_len = none;
  protocol = none;
  dst_port = none;
  low_dst_port = none;
  high_dst_port = none;
  action = action;
  seq_num = none;
  in_intf = none;
  out_src_ip = none;
  private_ip = none;
  private_port = none;
}

-- A rule is found by the action that is shown of it exactly if its action is neither DNAT nor REJECT:
-- these two are shown as ALLOW and DENY, which a request then does not find.
pub match_rule-shown :
    (r : Rule)
    → match_rule (by_action (to_cps_obj r).action) r
      ≡ not (r.action == Action.dnat || r.action == Action.reject)
unfolding match_rule to_cps_obj shown_action
match_rule-shown r = shown r.action
  where
    shown :
        (a : Action)
        → match_rule (by_action (some (shown_action a))) (record r { action = a })
          ≡ not (a == Action.dnat || a == Action.reject)
    shown Action.allow = refl
    shown Action.deny = refl
    shown Action.dnat = refl
    shown Action.reject = refl
    shown Action.snat = refl

module _ {sys : System} where
  process_get-AllValid :
      (id : Option ℕ) (rule_type : Option RuleType) (vrf_name : Option String) (f : Filter)
      (s : Tables sys)
      → AllValid incoming_class s
      → AllValid incoming_class (process_vrf_svcs_rule_get id rule_type vrf_name f s).1
  unfolding process_vrf_svcs_rule_get
  process_get-AllValid (some id) rule_type vrf_name f s all = find_rule_by_id-AllValid id s all
  process_get-AllValid none rule_type vrf_name f s all =
      get_all_rules-AllValid rule_type vrf_name f s all

  -- A request to read incoming rules, which writes statistics into the rules that it reads, keeps every
  -- rule list valid, whatever its attributes are.
  pub get_incoming_ip_svcs-AllValid :
      (q : Incoming.Request) (s : Tables sys)
      → AllValid incoming_class s
      → AllValid incoming_class (get_incoming_ip_svcs q s).1
  unfolding get_incoming_ip_svcs
  get_incoming_ip_svcs-AllValid q s all = elim (Option-cases (read_request sys.net q)) [
    | inl refused ↦ rw (refused, get_incoming_ip_svcs) all
    | inr (q', at) ↦
        rw (at, get_incoming_ip_svcs)
          (process_get-AllValid q'.rule_id none q'.vrf_name (incoming_filter q') s all)
  ]

  process_get-listing :
      (id : Option ℕ) (vrf_name : Option String) (f : Filter) (s : Tables sys)
      → id ≡ none
      → (process_vrf_svcs_rule_get id none vrf_name f s).0
        ≡ map to_cps_obj (listing (read_stats sys) incoming_types f none vrf_name search_order s)
  unfolding process_vrf_svcs_rule_get
  process_get-listing (some id) vrf_name f s absent = ground (arith, absent)
  process_get-listing none vrf_name f s absent =
      ap (λ rules. map to_cps_obj rules) (get_all_rules-eq-listing none vrf_name f s)

  -- A request without an ID, whose addresses pass the checks as `q'`, is answered with the objects of
  -- all rules that match the attributes of `q'`, of its VRF where it names one: each with its
  -- statistics, in the order of the tables, of the VRFs in a table and of the rules in a list.
  pub get_incoming_ip_svcs-listing :
      (q q' : Incoming.Request) (s : Tables sys)
      → read_request sys.net q ≡ some q'
      → q'.rule_id ≡ none
      → (get_incoming_ip_svcs q s).0
        ≡ some (
            map to_cps_obj (
              listing
                (read_stats sys)
                incoming_types
                (incoming_filter q')
                none
                q'.vrf_name
                search_order
                s))
  unfolding get_incoming_ip_svcs
  get_incoming_ip_svcs-listing q q' s at absent =
      rw
        (
          at,
          get_incoming_ip_svcs,
          process_get-listing q'.rule_id q'.vrf_name (incoming_filter q') s absent,
        )
        refl
