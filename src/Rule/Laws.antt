-- ===== src/Rule/Laws.antt =====
-- What the constructors of the rules establish, and the equality of rules.
use Prim.Native.Char.{Char, code}
use Prim.Native.String as Text
use mathlib.Core.Path.{subst}
use opx_nas_linux.Prelude.{
  ℕ, String, Bool, true, false, Option, none, some, List, [], ◌∷◌, ◌≡◌, ◌≢◌, refl, sym, ap, ◌∙◌,
  arith, nat_eq, ◌↔◌, eq_nat, eq_string, eq_option, Option-cases, inl, inr, ◌⊎◌,
}
use opx_nas_linux.Rule.{
  Af, RuleType, Action, Proto, Ip, Rule, eq_af, eq_rule_type, eq_action, eq_proto, eq_ip,
}
use opx_nas_linux.Rule.Incoming.{
  Net, Args, Hash, hash_rule, all_true, key_tests, key_attrs_equal, normalize_ip_prefix, normalize,
  init_incoming, incoming_attrs, names_known, stored_action, set_in_intf, is_some,
}

-- Equal rules agree on every key attribute.
pub record SameKey (r1 r2 : Rule) : Type 0 where
  pub rule_type : r1.rule_type ≡ r2.rule_type
  pub vrf_name : r1.vrf_name ≡ r2.vrf_name
  pub af : r1.af ≡ r2.af
  pub src_ip : r1.src_ip ≡ r2.src_ip
  pub src_prefix_len : r1.src_prefix_len ≡ r2.src_prefix_len
  pub protocol : r1.protocol ≡ r2.protocol
  pub dst_port : r1.dst_port ≡ r2.dst_port
  pub low_dst_port : r1.low_dst_port ≡ r2.low_dst_port
  pub high_dst_port : r1.high_dst_port ≡ r2.high_dst_port
  pub action : r1.action ≡ r2.action
  pub in_intf : r1.in_intf ≡ r2.in_intf
  pub dst_ip : r1.dst_ip ≡ r2.dst_ip
  pub dst_prefix_len : r1.dst_prefix_len ≡ r2.dst_prefix_len

abbrev AllTrue : List Bool → Type 0
AllTrue [] = Unit
AllTrue (b ∷ bs) = (b ≡ true) × AllTrue bs

all_true_iff : (bs : List Bool) → (all_true bs ≡ true) ↔ AllTrue bs
unfolding all_true
all_true_iff [] = ((λ _. tt), (λ _. refl))
all_true_iff (true ∷ bs) = ((λ h. (refl, (all_true_iff bs).0 h)), (λ h. (all_true_iff bs).1 h.1))
all_true_iff (false ∷ bs) = ((λ h. cc), (λ h. h.0))

-- The comparison of the key attributes holds exactly if the rules agree on all of them.
pub key_attrs_equal_iff : (r1 r2 : Rule) → (key_attrs_equal r1 r2 ≡ true) ↔ SameKey r1 r2
unfolding key_attrs_equal
key_attrs_equal_iff r1 r2 = (
  (λ h.
      let t = (all_true_iff (key_tests r1 r2)).0 h in
      record {
        rule_type = (eq_rule_type.same_iff r1.rule_type r2.rule_type).0 t.0;
        vrf_name = (eq_string.same_iff r1.vrf_name r2.vrf_name).0 t.1.0;
        af = (eq_af.same_iff r1.af r2.af).0 t.1.1.0;
        src_ip = ((eq_option {A = Ip}).same_iff r1.src_ip r2.src_ip).0 t.1.1.1.0;
        src_prefix_len =
            ((eq_option {A = ℕ}).same_iff r1.src_prefix_len r2.src_prefix_len).0 t.1.1.1.1.0;
        protocol = ((eq_option {A = Proto}).same_iff r1.protocol r2.protocol).0 t.1.1.1.1.1.0;
        dst_port = ((eq_option {A = ℕ}).same_iff r1.dst_port r2.dst_port).0 t.1.1.1.1.1.1.0;
        low_dst_port =
            ((eq_option {A = ℕ}).same_iff r1.low_dst_port r2.low_dst_port).0 t.1.1.1.1.1.1.1.0;
        high_dst_port =
            ((eq_option {A = ℕ}).same_iff r1.high_dst_port r2.high_dst_port).0 t.1.1.1.1.1.1.1.1.0;
        action = (eq_action.same_iff r1.action r2.action).0 t.1.1.1.1.1.1.1.1.1.0;
        in_intf =
            ((eq_option {A = String}).same_iff r1.in_intf r2.in_intf).0 t.1.1.1.1.1.1.1.1.1.1.0;
        dst_ip = ((eq_option {A = Ip}).same_iff r1.dst_ip r2.dst_ip).0 t.1.1.1.1.1.1.1.1.1.1.1.0;
        dst_prefix_len =
            ((eq_option {A = ℕ}).same_iff r1.dst_prefix_len r2.dst_prefix_len).0
              t.1.1.1.1.1.1.1.1.1.1.1.1.0;
      }),
  (λ s. (all_true_iff (key_tests r1 r2)).1 (
    (eq_rule_type.same_iff r1.rule_type r2.rule_type).1 s.rule_type,
    (
      (eq_string.same_iff r1.vrf_name r2.vrf_name).1 s.vrf_name,
      (
        (eq_af.same_iff r1.af r2.af).1 s.af,
        (
          ((eq_option {A = Ip}).same_iff r1.src_ip r2.src_ip).1 s.src_ip,
          (
            ((eq_option {A = ℕ}).same_iff r1.src_prefix_len r2.src_prefix_len).1 s.src_prefix_len,
            (
              ((eq_option {A = Proto}).same_iff r1.protocol r2.protocol).1 s.protocol,
              (
                ((eq_option {A = ℕ}).same_iff r1.dst_port r2.dst_port).1 s.dst_port,
                (
                  ((eq_option {A = ℕ}).same_iff r1.low_dst_port r2.low_dst_port).1 s.low_dst_port,
                  (
                    ((eq_option {A = ℕ}).same_iff r1.high_dst_port r2.high_dst_port).1
                        s.high_dst_port,
                    (
                      (eq_action.same_iff r1.action r2.action).1 s.action,
                      (
                        ((eq_option {A = String}).same_iff r1.in_intf r2.in_intf).1 s.in_intf,
                        (
                          ((eq_option {A = Ip}).same_iff r1.dst_ip r2.dst_ip).1 s.dst_ip,
                          (
                            ((eq_option {A = ℕ}).same_iff r1.dst_prefix_len r2.dst_prefix_len).1
                                s.dst_prefix_len,
                            tt,
                          ),
                        ),
                      ),
                    ),
                  ),
                ),
              ),
            ),
          ),
        ),
      ),
    ),
  )),
)

-- Rules that compare equal have the same hash, as a Python class must ensure.
pub hash_rule-equal :
    (h : Hash) (r1 r2 : Rule) → key_attrs_equal r1 r2 ≡ true → hash_rule h r1 ≡ hash_rule h r2
unfolding hash_rule
hash_rule-equal h r1 r2 e =
    let s = (key_attrs_equal_iff r1 r2).0 e in
    cc (
      s.rule_type, s.vrf_name, s.af, s.src_ip, s.src_prefix_len, s.protocol, s.dst_port,
      s.low_dst_port, s.high_dst_port, s.action, s.in_intf, s.dst_ip, s.dst_prefix_len,
    )

abbrev with_intf : Option String → Args → Args
with_intf intf a = record a { in_intf = intf }

-- what `normalize` leaves alone
record SameIntf (r s : Rule) : Type 0 where
  in_intf : s.in_intf ≡ r.in_intf
  negative : s.negative ≡ r.negative
  rule_type : s.rule_type ≡ r.rule_type
  action : s.action ≡ r.action

module _ (net : Net) where
  -- The prefix that is stored: a source of `None` becomes the any-address with prefix length 0.
  normalize_ip_prefix-some :
      (af : Af) (ip : Option Ip) (len : Option ℕ) {ip' : Option Ip} {len' : Option ℕ}
      → normalize_ip_prefix net af ip len ≡ some (ip', len')
      → is_some ip' ≡ true
  unfolding normalize_ip_prefix is_some
  normalize_ip_prefix-some af none len h = ground arith
  normalize_ip_prefix-some af (some x) none h = ground arith
  normalize_ip_prefix-some af (some x) (some l) h = ground arith

  -- What `normalize` does to a rule.
  record Normalized (r s : Rule) : Type 0 where
    kept : SameIntf r s
    src : is_some s.src_ip ≡ true
    dst : is_some s.dst_ip ≡ true

  normalize-Normalized : (r : Rule) {s : Rule} → normalize net r ≡ some s → Normalized r s
  unfolding normalize
  normalize-Normalized r {s} h =
      elim (Option-cases (normalize_ip_prefix net r.af r.src_ip r.src_prefix_len)) [
        | inl bad ↦ ground (arith, bad)
        | inr (p, src_ok) ↦
            elim (Option-cases (normalize_ip_prefix net r.af r.dst_ip r.dst_prefix_len)) [
              | inl bad ↦ ground (arith, bad, src_ok)
              | inr (q, dst_ok) ↦
                  let some_src = normalize_ip_prefix-some r.af r.src_ip r.src_prefix_len src_ok in
                  let some_dst = normalize_ip_prefix-some r.af r.dst_ip r.dst_prefix_len dst_ok in
                  let made : (record r {
                    src_ip = p.0;
                    src_prefix_len = p.1;
                    dst_ip = q.0;
                    dst_prefix_len = q.1;
                  })
                      ≡ s =
                    ground (arith, src_ok, dst_ok) in
                  subst (Normalized r) made (record {
                    kept = record {
                      in_intf = refl;
                      negative = refl;
                      rule_type = refl;
                      action = refl;
                    };
                    src = some_src;
                    dst = some_dst;
                  })
            ]
      ]

  -- what the constructor of incoming rules checks or fills in
  pub record IsIncoming (a : Args) (r : Rule) : Type 0 where
    pub type_kept : r.rule_type ≡ a.rule_type
    pub incoming_type : (r.rule_type ≡ RuleType.ip) ⊎ (r.rule_type ≡ RuleType.acl)
    pub no_snat : r.action ≢ Action.snat
    pub no_deny : r.rule_type ≡ RuleType.acl → r.action ≢ Action.deny
    pub src : is_some r.src_ip ≡ true
    pub dst : is_some r.dst_ip ≡ true

  stored_action_known :
      (t : RuleType) (x : Action)
      → names_known t x ≡ true
      → ((t ≡ RuleType.ip) ⊎ (t ≡ RuleType.acl))
        × (stored_action t x ≢ Action.snat)
        × (t ≡ RuleType.acl → stored_action t x ≢ Action.deny)
  unfolding names_known stored_action
  stored_action_known t x h = (ground arith, ground arith, ground arith)

  -- A rule that the constructor of incoming rules accepts has the type it was given, one of the two
  -- incoming types, both addresses, never the action SNAT, and DENY only in an IP rule.
  pub init_incoming-IsIncoming :
      (a : Args) {r : Rule} → init_incoming net a ≡ some r → IsIncoming a r
  unfolding init_incoming
  init_incoming-IsIncoming a {r} h =
      let known : names_known a.rule_type a.action ≡ true = ground arith in
      let done : normalize net (incoming_attrs a) ≡ some r = ground arith in
      let n = normalize-Normalized (incoming_attrs a) done in
      let facts = stored_action_known a.rule_type a.action known in
      let t : r.rule_type ≡ a.rule_type = unfold incoming_attrs in n.kept.rule_type in
      let x : r.action ≡ stored_action a.rule_type a.action =
        unfold incoming_attrs in n.kept.action in
      record {
        type_kept = t;
        incoming_type = subst (λ y. (y ≡ RuleType.ip) ⊎ (y ≡ RuleType.acl)) (sym t) facts.0;
        no_snat = λ e. facts.1 (sym x ∙ e);
        no_deny = λ e f. facts.2 (sym t ∙ e) (sym x ∙ f);
        src = n.src;
        dst = n.dst;
      }

  normalize-negative :
      (r : Rule) (b : Bool) {s : Rule}
      → normalize net r ≡ some s
      → normalize net (record r { negative = b }) ≡ some (record s { negative = b })
  unfolding normalize
  normalize-negative r b {s} h =
      elim (Option-cases (normalize_ip_prefix net r.af r.src_ip r.src_prefix_len)) [
        | inl bad ↦ ground (arith, bad)
        | inr (p, src_ok) ↦
            elim (Option-cases (normalize_ip_prefix net r.af r.dst_ip r.dst_prefix_len)) [
              | inl bad ↦ ground (arith, bad, src_ok)
              | inr (q, dst_ok) ↦ ground (arith, src_ok, dst_ok)
            ]
      ]

  init_incoming-normalize :
      (a : Args) {r : Rule}
      → init_incoming net a ≡ some r
      → normalize net (incoming_attrs a) ≡ some r
  unfolding init_incoming
  init_incoming-normalize a h = ground arith

  plain_attrs :
      (a : Args) (c : Char) (rest : String)
      → nat_eq (code c) b'!' ≡ false
      → incoming_attrs (record a { in_intf = some (Text.◌∷◌ "!" (Text.◌∷◌ c rest)) })
        ≡ record (incoming_attrs (record a { in_intf = some (Text.◌∷◌ c rest) })) {
          negative = true;
        }
  unfolding incoming_attrs set_in_intf
  plain_attrs a c rest plain = rw plain refl

  plain_negative :
      (a : Args) (c : Char) (rest : String)
      → nat_eq (code c) b'!' ≡ false
      → (incoming_attrs (record a { in_intf = some (Text.◌∷◌ c rest) })).negative ≡ false
  unfolding incoming_attrs set_in_intf
  plain_negative a c rest plain = rw plain refl

  -- The equality of rules does not see the negation of an interface: of two incoming rules that
  -- differ only in a '!' before the interface's name, one excludes the interface and the other
  -- requires it, and they compare equal.
  pub key_attrs_equal_negated :
      (a : Args) (c : Char) (rest : String) {r r' : Rule}
      → nat_eq (code c) b'!' ≡ false
      → init_incoming net (record a { in_intf = some (Text.◌∷◌ c rest) }) ≡ some r
      → init_incoming net (record a { in_intf = some (Text.◌∷◌ "!" (Text.◌∷◌ c rest)) }) ≡ some r'
      → (key_attrs_equal r r' ≡ true) × (r.negative ≡ false) × (r'.negative ≡ true)
  key_attrs_equal_negated a c rest {r} {r'} plain h h' =
      let n = init_incoming-normalize (record a { in_intf = some (Text.◌∷◌ c rest) }) h in
      let n' =
        init_incoming-normalize (record a { in_intf = some (Text.◌∷◌ "!" (Text.◌∷◌ c rest)) }) h' in
      let negated = ap (normalize net) (plain_attrs a c rest plain) in
      let moved =
        normalize-negative (incoming_attrs (record a { in_intf = some (Text.◌∷◌ c rest) })) true
          n in
      let same : r' ≡ record r { negative = true } = cc in
      let kept =
        (normalize-Normalized (incoming_attrs (record a { in_intf = some (Text.◌∷◌ c rest) }))
          n).kept in
      (
        rw same ((key_attrs_equal_iff r (record r { negative = true })).1 (same_key r)),
        kept.negative ∙ plain_negative a c rest plain,
        ap (λ x. x.negative) same,
      )
    where
      same_key : (x : Rule) → SameKey x (record x { negative = true })
      same_key x = record {
        rule_type = refl;
        vrf_name = refl;
        af = refl;
        src_ip = refl;
        src_prefix_len = refl;
        protocol = refl;
        dst_port = refl;
        low_dst_port = refl;
        high_dst_port = refl;
        action = refl;
        in_intf = refl;
        dst_ip = refl;
        dst_prefix_len = refl;
      }
