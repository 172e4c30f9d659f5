-- ===== src/Callbacks/Incoming/Laws.antt =====
-- What `config_incoming_ip_svcs_int` checks, and what it keeps.
use mathlib.Core.Path.{subst}
use opx_nas_linux.Prelude.{
  Bool, true, false, none, some, ◌≡◌, ◌≢◌, refl, arith, inl, inr, Bool-cases, Option-cases, ◌&&◌,
  ◌||◌, eq_option, eq_nat, eq_string, if◌then◌else◌,
}
use opx_nas_linux.Rule.{eq_proto}
use opx_nas_linux.Rule.Incoming.{Args, is_some, init_incoming, Net}
use opx_nas_linux.Iptables.{System}
use opx_nas_linux.RuleTables.{Tables}
use opx_nas_linux.RuleCache.Valid.{AllValid}
use opx_nas_linux.Incoming.{incoming_class}
use opx_nas_linux.Incoming.Lists.{insert_rule-AllValid, delete_rule-AllValid}
use opx_nas_linux.Incoming.Deletion.{delete_rule_by_id-AllValid}
use opx_nas_linux.Incoming.Update.{process_vrf_svcs_rule_add, process_vrf_svcs_rule_del}
use opx_nas_linux.Callbacks.{Operation}
use opx_nas_linux.Callbacks.Incoming.{
  Request, normalize_src, normalize_dst, default_seq_num, ports_fit, check_rule_input, reqd_input,
  check_attr_list, is_vty_acl_config, is_forwarding, tcp_or_udp, protocol_fits, args_of, checked,
  create_rule, delete_by, dispatch, config_incoming_ip_svcs,
}

-- What the checks of a creation establish of a request.
pub record IsWellFormed (q : Request) : Type 0 where
  -- a range of ports has both ends, and does not stand beside a port
  pub range : is_some q.low_dst_port ≡ is_some q.high_dst_port
  pub port_or_range : (is_some q.low_dst_port && is_some q.dst_port) ≡ false
  pub vrf_given : is_some q.vrf_name ≡ true
  pub af_given : is_some q.af ≡ true
  -- only TCP and UDP have ports
  pub transport :
      is_forwarding q ≡ false
      → (is_some q.dst_port || is_some q.low_dst_port) ≡ true
      → tcp_or_udp q.protocol ≡ true
  -- a filter for a VRF names the source that it is about
  pub acl_source : is_vty_acl_config q ≡ true → is_some q.src_ip ≡ true

module _ (q : Request) (ports : ports_fit q ≡ true)
    (input : check_rule_input Operation.create q ≡ true) (proto : protocol_fits q ≡ true) where
  range_lem : is_some q.low_dst_port ≡ is_some q.high_dst_port
  unfolding ports_fit
  range_lem = ground (arith, ports)

  port_or_range_lem : (is_some q.low_dst_port && is_some q.dst_port) ≡ false
  unfolding ports_fit
  port_or_range_lem = ground (arith, ports)

  given_lem : (is_some q.vrf_name ≡ true) × (is_some q.af ≡ true)
  unfolding check_rule_input reqd_input check_attr_list
  given_lem = ground (arith, input)

  transport_lem :
      is_forwarding q ≡ false
      → (is_some q.dst_port || is_some q.low_dst_port) ≡ true
      → tcp_or_udp q.protocol ≡ true
  unfolding protocol_fits
  transport_lem f h = ground (arith, proto, f, h)

  acl_source_lem : is_vty_acl_config q ≡ true → is_some q.src_ip ≡ true
  unfolding check_rule_input reqd_input check_attr_list
  acl_source_lem h = ground (arith, input, h)

  well_formed : IsWellFormed q
  well_formed = record {
    range = range_lem;
    port_or_range = port_or_range_lem;
    vrf_given = given_lem.0;
    af_given = given_lem.1;
    transport = transport_lem;
    acl_source = acl_source_lem;
  }

guarded : (b : Bool) (x y : Request) → (if b then some x else none) ≡ some y → (b ≡ true) × (x ≡ y)
guarded true x y h = (refl, ground (arith, h))
guarded false x y h = ground (arith, h)

and_true : (b c : Bool) → (b && c) ≡ true → (b ≡ true) × (c ≡ true)
and_true b c h = ground (arith, h)

checked-fits :
    (net : Net) (q q' : Request)
    → checked net Operation.create q ≡ some q'
    → (ports_fit q' ≡ true) × (check_rule_input Operation.create q' ≡ true)
unfolding checked
checked-fits net q q' h =
    elim (Option-cases (normalize_src net (default_seq_num Operation.create q))) [
      | inl bad ↦ ground (arith, (rw (bad, checked) at h))
      | inr (q1, at1) ↦ elim (Option-cases (normalize_dst net q1)) [
        | inl bad ↦ ground (arith, (rw (at1, bad, checked) at h))
        | inr (q2, at2) ↦ fits q2 (rw (at1, at2, checked) at h)
      ]
    ]
  where
    fits :
        (q2 : Request)
        → (if ports_fit q2 && check_rule_input Operation.create q2 then some q2 else none) ≡ some q'
        → (ports_fit q' ≡ true) × (check_rule_input Operation.create q' ≡ true)
    fits q2 e =
        let (both, same) = guarded (ports_fit q2 && check_rule_input Operation.create q2) q2 q' e in
        subst (λ r. (ports_fit r ≡ true) × (check_rule_input Operation.create r ≡ true)) same
          (and_true (ports_fit q2) (check_rule_input Operation.create q2) both)

module _ {sys : System} where
  create_rule-protocol_fits :
      (q : Request) (s : Tables sys) → is_some (create_rule q s).0 ≡ true → protocol_fits q ≡ true
  unfolding create_rule
  create_rule-protocol_fits q s h = elim (Bool-cases (protocol_fits q)) [
    | inl fits ↦ fits
    | inr unfit ↦ ground (arith, (rw (unfit, create_rule) at h))
  ]

  -- Where the callback creates a rule, the request with its addresses normalised has a VRF and a
  -- family, either a port or a range with both ends or neither, a source if it is a filter, and TCP or
  -- UDP beside a port or a range unless the rule forwards a service of another VRF.
  pub config_incoming_ip_svcs-IsWellFormed :
      (q : Request) (s : Tables sys)
      → (config_incoming_ip_svcs Operation.create q s).0.0 ≡ true
      → (q' : Request) × (checked sys.net Operation.create q ≡ some q') × IsWellFormed q'
  unfolding config_incoming_ip_svcs dispatch
  config_incoming_ip_svcs-IsWellFormed q s h =
      elim (Option-cases (checked sys.net Operation.create q)) [
        | inl refused ↦ ground (arith, (rw (refused, config_incoming_ip_svcs) at h))
        | inr (q', at) ↦
            let (ports, input) = checked-fits sys.net q q' at in
            let made : is_some (create_rule q' s).0 ≡ true =
              rw (at, config_incoming_ip_svcs) at h in
            (q', at, well_formed q' ports input (create_rule-protocol_fits q' s made))
      ]

  process_add-AllValid :
      (a : Args) (s : Tables sys)
      → AllValid incoming_class s
      → AllValid incoming_class (process_vrf_svcs_rule_add a s).1
  unfolding process_vrf_svcs_rule_add
  process_add-AllValid a s all = elim (Option-cases (init_incoming sys.net a)) [
    | inl refused ↦ rw (refused, process_vrf_svcs_rule_add) all
    | inr (r, at) ↦ rw (at, process_vrf_svcs_rule_add) (insert_rule-AllValid r s all)
  ]

  process_del-AllValid :
      (a : Args) (s : Tables sys)
      → AllValid incoming_class s
      → AllValid incoming_class (process_vrf_svcs_rule_del a s).1
  unfolding process_vrf_svcs_rule_del
  process_del-AllValid a s all = elim (Option-cases (init_incoming sys.net a)) [
    | inl refused ↦ rw (refused, process_vrf_svcs_rule_del) all
    | inr (r, at) ↦ rw (at, process_vrf_svcs_rule_del) (delete_rule-AllValid r s all)
  ]

  create_rule-AllValid :
      (q : Request) (s : Tables sys)
      → AllValid incoming_class s
      → AllValid incoming_class (create_rule q s).1
  unfolding create_rule
  create_rule-AllValid q s all = elim (Bool-cases (protocol_fits q)) [
    | inr unfit ↦ rw (unfit, create_rule) all
    | inl fits ↦ elim (Option-cases q.seq_num) [
      | inl absent ↦ rw (fits, absent, create_rule) all
      | inr (n, has) ↦ elim (Option-cases (args_of sys.vrfs.veth_ip n q)) [
        | inl missing ↦ rw (fits, has, missing, create_rule) all
        | inr (a, at) ↦ rw (fits, has, at, create_rule) (process_add-AllValid a s all)
      ]
    ]
  ]

  delete_by-AllValid :
      (q : Request) (s : Tables sys)
      → AllValid incoming_class s
      → AllValid incoming_class (delete_by q s).1
  unfolding delete_by
  delete_by-AllValid q s all = elim (Option-cases q.rule_id) [
    | inr (id, has) ↦ rw (has, delete_by) (delete_rule_by_id-AllValid id s all)
    | inl absent ↦ elim (Option-cases (args_of sys.vrfs.veth_ip 0 q)) [
      | inl missing ↦ rw (absent, missing, delete_by) all
      | inr (a, at) ↦ rw (absent, at, delete_by) (process_del-AllValid a s all)
    ]
  ]

  -- A request to create or to delete a rule, or one with an operation that is unknown, keeps every rule
  -- list valid, whatever its attributes are.
  pub config_incoming_ip_svcs-AllValid :
      (op : Operation) (q : Request) (s : Tables sys)
      → op ≢ Operation.set
      → AllValid incoming_class s
      → AllValid incoming_class (config_incoming_ip_svcs op q s).1
  unfolding config_incoming_ip_svcs
  config_incoming_ip_svcs-AllValid op q s ne all = elim (Option-cases (checked sys.net op q)) [
    | inl refused ↦ rw (refused, config_incoming_ip_svcs) all
    | inr (q', at) ↦ rw (at, config_incoming_ip_svcs) (dispatched op q' ne)
  ]
    where
      dispatched :
          (op : Operation) (q' : Request)
          → op ≢ Operation.set
          → AllValid incoming_class (dispatch op q' s).1
      dispatched Operation.create q' ne = unfold dispatch in create_rule-AllValid q' s all
      dispatched Operation.delete q' ne = unfold dispatch in delete_by-AllValid q' s all
      dispatched Operation.set q' ne = absurd (ne refl)
      dispatched Operation.other q' ne = unfold dispatch in all
