-- ===== src/Callbacks/Outgoing/Laws.antt =====
-- `config_outgoing_ip_svcs_int` of scripts/bin/base_vrf.py: the private port that it reports, and the lists.
use mathlib.Core.Path.{subst}
use opx_nas_linux.Prelude.{
  from_some, ℕ, String, false, Option, none, some, ◌≡◌, refl, sym, ap, ◌∙◌, arith, inl, inr,
  Bool-cases, Option-cases, ◌==◌, ◌⊎◌, lookup, if◌then◌else◌,
}
use opx_nas_linux.Rule.{Af, Rule, Proto, RuleType}
use opx_nas_linux.Rule.Incoming.{Net, Args, is_some}
use opx_nas_linux.Rule.Outgoing.{init_outgoing, outgoing_attrs}
use opx_nas_linux.Iptables.{System}
use opx_nas_linux.PrivatePorts.{Alias, eq_alias}
use opx_nas_linux.RuleTables.{Tables}
use opx_nas_linux.RuleCache.Valid.{AllValid}
use opx_nas_linux.Outgoing.{
  outgoing_class, alias_of, insert_rule, process_vrf_outgoing_svcs_rule_add,
  process_vrf_outgoing_svcs_rule_del,
}
use opx_nas_linux.Outgoing.Bindings.{IsBound, insert_rule-IsBound}
use opx_nas_linux.Outgoing.Lists.{
  insert_rule-AllValid, delete_rule-AllValid, delete_rule_by_id-AllValid,
}
use opx_nas_linux.Callbacks.{Operation}
use opx_nas_linux.Callbacks.Outgoing.{
  Request, Reply, args_of, checked, create_rule, delete_by, dispatch, config_outgoing_ip_svcs,
  normalize_addr, normalize, check_rule_input, has_protocol_name,
}

-- the alias of a request for a binding
abbrev pub request_alias : Request → String → Af → Alias
request_alias q vrf_name af = record {
  vrf_name = vrf_name;
  af = af;
  public_ip = q.public_ip;
  protocol = q.protocol;
  public_port = q.public_port;
}

normalize-protocol :
    (net : Net) (q : Request) {q' : Request} → normalize net q ≡ some q' → q'.protocol ≡ q.protocol
unfolding normalize
normalize-protocol net q {q'} h = elim (Option-cases (normalize_addr net q.af q.public_ip)) [
  | inl bad ↦ ground (arith, (rw (bad, normalize) at h))
  | inr ((af1, public_ip), at1) ↦
      elim (Option-cases (normalize_addr net af1 q.outgoing_source_ip)) [
        | inl bad ↦ ground (arith, (rw (at1, bad, normalize) at h))
        | inr ((af2, source_ip), at2) ↦ elim (Option-cases (normalize_addr net af2 q.private_ip)) [
          | inl bad ↦ ground (arith, (rw (at1, at2, bad, normalize) at h))
          | inr ((af3, private_ip), at3) ↦
              ap (λ x. (from_some q' x).protocol) (sym (rw (at1, at2, at3, normalize) at h))
        ]
      ]
]

checked_unnamed :
    (net : Net) (op : Operation) (q : Request)
    → has_protocol_name q.protocol ≡ false
    → checked net op q ≡ none
unfolding checked
checked_unnamed net op q unnamed = elim (Option-cases (normalize net q)) [
  | inl bad ↦ rw (bad, checked) refl
  | inr (q', at) ↦
      let unnamed' : has_protocol_name q'.protocol ≡ false =
        ap has_protocol_name (normalize-protocol net q at) ∙ unnamed in
      elim (Bool-cases (check_rule_input op q')) [
        | inl ok ↦ rw (at, checked, ok, unnamed') refl
        | inr bad ↦ rw (at, checked, bad) refl
      ]
]

init_outgoing-attrs : (a : Args) {r : Rule} → init_outgoing a ≡ some r → outgoing_attrs a ≡ r
unfolding init_outgoing
init_outgoing-attrs a h = ground (arith, h)

-- the arguments of a request for a binding
record Binding (q : Request) (a : Args) : Type 0 where
  pub kind : a.rule_type ≡ RuleType.out_ip
  pub vrf_name : String
  pub af : Af
  pub named : q.vrf_name ≡ some vrf_name
  pub family : q.af ≡ some af
  pub alias : alias_of (outgoing_attrs a) ≡ request_alias q vrf_name af

args_of-Binding :
    (q : Request) {a : Args}
    → is_some q.outgoing_source_ip ≡ false
    → args_of q ≡ some a
    → Binding q a
unfolding args_of outgoing_attrs
args_of-Binding q {a} binding h = elim (Option-cases q.vrf_name) [
  | inl bad ↦ ground (arith, (rw (bad, args_of) at h))
  | inr (vrf_name, named) ↦ elim (Option-cases q.af) [
    | inl bad ↦ ground (arith, (rw (named, bad, args_of) at h))
    | inr (af, at) ↦
        let e = rw (named, at, args_of, binding) at h in
        subst (λ x. Binding q x) (ap (λ x. from_some a x) e)
          (record {
            kind = refl;
            vrf_name = vrf_name;
            af = af;
            named = named;
            family = at;
            alias = refl;
          })
  ]
]

module _ {sys : System} where
  -- The alias with the VRF, the family and the other attributes of the request had no private port, and has the one that is reported; the others keep theirs.
  pub record IsReported (q : Request) (reply : Reply) (before after : Tables sys) : Type 0 where
    pub vrf_name : String
    pub af : Af
    pub named : q.vrf_name ≡ some vrf_name
    pub family : q.af ≡ some af
    pub port : ℕ
    pub reported : reply.private_port ≡ some port
    pub absent : lookup (request_alias q vrf_name af) before.ports ≡ none
    pub given :
        (b : Alias)
        → lookup b after.ports
          ≡ (if request_alias q vrf_name af == b then some port else lookup b before.ports)

  process_add-IsBound :
      (a : Args) (s : Tables sys) {r : Rule}
      → a.rule_type ≡ RuleType.out_ip
      → (process_vrf_outgoing_svcs_rule_add a s).0 ≡ some r
      → IsBound (outgoing_attrs a) r s.ports (process_vrf_outgoing_svcs_rule_add a s).1.ports
  unfolding process_vrf_outgoing_svcs_rule_add
  process_add-IsBound a s {r} out h = elim (Option-cases (init_outgoing a)) [
    | inl bad ↦ ground (arith, (rw (bad, process_vrf_outgoing_svcs_rule_add) at h))
    | inr (r0, at) ↦
        let made : outgoing_attrs a ≡ r0 = init_outgoing-attrs a at in
        let kind : r0.rule_type ≡ RuleType.out_ip =
          ap (λ x. x.rule_type) (sym made) ∙ (unfold outgoing_attrs in out) in
        elim (Bool-cases (insert_rule r0 s).0.0) [
          | inr failed ↦ ground (arith, (rw (at, failed, process_vrf_outgoing_svcs_rule_add) at h))
          | inl done ↦
              let e : some (insert_rule r0 s).0.1 ≡ some r =
                rw (at, done, process_vrf_outgoing_svcs_rule_add) at h in
              let same : (insert_rule r0 s).0.1 ≡ r = ground (arith, e) in
              rw (at, process_vrf_outgoing_svcs_rule_add)
                (subst (λ x. IsBound (outgoing_attrs a) x s.ports (insert_rule r0 s).1.ports) same
                  (subst (λ x. IsBound x (insert_rule r0 s).0.1 s.ports (insert_rule r0 s).1.ports)
                    (sym made) (insert_rule-IsBound r0 s kind done)))
        ]
  ]

  create_rule-reply :
      (q : Request) (s : Tables sys) {reply : Reply}
      → is_some q.outgoing_source_ip ≡ false
      → (create_rule q s).0 ≡ some reply
      → IsReported q reply s (create_rule q s).1
  unfolding create_rule
  create_rule-reply q s {reply} binding h = elim (Option-cases (args_of q)) [
    | inl bad ↦ ground (arith, (rw (bad, create_rule) at h))
    | inr (a, at) ↦ elim (Option-cases (process_vrf_outgoing_svcs_rule_add a s).0) [
      | inl failed ↦ ground (arith, (rw (at, failed, create_rule) at h))
      | inr (r, added) ↦
          let b = args_of-Binding q binding at in
          let (port, has, absent, given) = process_add-IsBound a s b.kind added in
          let e = rw (at, added, create_rule, binding) at h in
          rw (at, create_rule)
            (record {
              vrf_name = b.vrf_name;
              af = b.af;
              named = b.named;
              family = b.family;
              port = port;
              reported = ap (λ x. (from_some reply x).private_port) (sym e) ∙ has;
              absent = subst (λ x. lookup x s.ports ≡ none) b.alias absent;
              given = λ c.
                  subst
                    (λ x.
                      lookup c (process_vrf_outgoing_svcs_rule_add a s).1.ports
                      ≡ (if x == c then some port else lookup c s.ports))
                    b.alias (given c);
            })
    ]
  ]

  create_rule-AllValid :
      (q : Request) (s : Tables sys)
      → AllValid outgoing_class s
      → AllValid outgoing_class (create_rule q s).1
  unfolding create_rule process_vrf_outgoing_svcs_rule_add
  create_rule-AllValid q s all = elim (Option-cases (args_of q)) [
    | inl bad ↦ rw (bad, create_rule) all
    | inr (a, at) ↦ elim (Option-cases (init_outgoing a)) [
      | inl refused ↦ rw (at, refused, create_rule, process_vrf_outgoing_svcs_rule_add) all
      | inr (r, init) ↦
          rw (at, init, create_rule, process_vrf_outgoing_svcs_rule_add)
            (insert_rule-AllValid r s all)
    ]
  ]

  delete_by-AllValid :
      (q : Request) (s : Tables sys)
      → AllValid outgoing_class s
      → AllValid outgoing_class (delete_by q s).1
  unfolding delete_by process_vrf_outgoing_svcs_rule_del
  delete_by-AllValid q s all = elim (Option-cases q.rule_id) [
    | inr (id, has) ↦ rw (has, delete_by) (delete_rule_by_id-AllValid id s all)
    | inl absent ↦ elim (Option-cases (args_of q)) [
      | inl bad ↦ rw (absent, bad, delete_by) all
      | inr (a, at) ↦ elim (Option-cases (init_outgoing a)) [
        | inl refused ↦ rw (absent, at, refused, delete_by, process_vrf_outgoing_svcs_rule_del) all
        | inr (r, init) ↦
            rw (absent, at, init, delete_by, process_vrf_outgoing_svcs_rule_del)
              (delete_rule-AllValid r s all)
      ]
    ]
  ]

  dispatch-AllValid :
      (op : Operation) (q : Request) (s : Tables sys)
      → AllValid outgoing_class s
      → AllValid outgoing_class (dispatch op q s).1
  unfolding dispatch
  dispatch-AllValid Operation.create q s all = create_rule-AllValid q s all
  dispatch-AllValid Operation.delete q s all = delete_by-AllValid q s all
  dispatch-AllValid Operation.set q s all = all
  dispatch-AllValid Operation.other q s all = all

  -- A request with any operation and any attributes keeps every outgoing rule list valid.
  pub config_outgoing_ip_svcs-AllValid :
      (op : Operation) (q : Request) (s : Tables sys)
      → AllValid outgoing_class s
      → AllValid outgoing_class (config_outgoing_ip_svcs op q s).1
  unfolding config_outgoing_ip_svcs
  config_outgoing_ip_svcs-AllValid op q s all = elim (Option-cases (checked sys.net op q)) [
    | inl refused ↦ rw (refused, config_outgoing_ip_svcs) all
    | inr (q', at) ↦ rw (at, config_outgoing_ip_svcs) (dispatch-AllValid op q' s all)
  ]

  -- If a request to create a rule passes the checks as `q'`, which has no outgoing source address, and
  -- the callback answers with `reply`, then the private port of the reply is the one that the alias of
  -- `q'`, with its VRF, family, public address, protocol and port, which had none before, has
  -- afterwards, and every other alias keeps its port.
  pub config_outgoing_ip_svcs-IsReported :
      (q q' : Request) (s : Tables sys) {reply : Reply}
      → checked sys.net Operation.create q ≡ some q'
      → is_some q'.outgoing_source_ip ≡ false
      → (config_outgoing_ip_svcs Operation.create q s).0.1 ≡ some reply
      → IsReported q' reply s (config_outgoing_ip_svcs Operation.create q s).1
  unfolding config_outgoing_ip_svcs dispatch
  config_outgoing_ip_svcs-IsReported q q' s at binding h =
      rw (at, config_outgoing_ip_svcs)
        (create_rule-reply q' s binding (rw (at, config_outgoing_ip_svcs) at h))

  -- A request whose protocol is ALL or ICMPv6 is refused, whatever its operation and its other
  -- attributes are, and changes nothing.
  pub config_outgoing_ip_svcs_unnamed :
      (op : Operation) (q : Request) (s : Tables sys)
      → (q.protocol ≡ some Proto.all) ⊎ (q.protocol ≡ some Proto.icmpv6)
      → config_outgoing_ip_svcs op q s ≡ ((false, none), s)
  unfolding config_outgoing_ip_svcs
  config_outgoing_ip_svcs_unnamed op q s other =
      rw (checked_unnamed sys.net op q (unnamed q.protocol other), config_outgoing_ip_svcs) refl
    where
      unnamed :
          (p : Option Proto)
          → (p ≡ some Proto.all) ⊎ (p ≡ some Proto.icmpv6)
          → has_protocol_name p ≡ false
      unnamed p (inl e) = unfold has_protocol_name in ap has_protocol_name e
      unnamed p (inr e) = unfold has_protocol_name in ap has_protocol_name e
