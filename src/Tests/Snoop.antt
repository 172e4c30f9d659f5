-- ===== src/Tests/Snoop.antt =====
-- Examples of the rules for snooping, with an ebtables that keeps its chains.
use opx_nas_linux.Prelude.{
  false, none, some, All, String, Bool, true, List, [], ◌∷◌, ◌≡◌, refl, arith, ◌==◌, ◌&&◌, ◌||◌,
  not, eq_string, if◌then◌else◌,
}
use opx_nas_linux.Snoop.{Command, Shell, is_in, vlan_rule, add_ebtable_rules}
use opx_nas_linux.Snoop.Routes.{VlanInfo, is_intf_vlan_member, Group, Route, parse_snoop_routes}
use opx_nas_linux.Snoop.Routes.Laws.{
  HasNoInterface, IsMember, parse_snoop_routes_null, parse_snoop_routes_members,
}
use opx_nas_linux.Snoop.Laws.{EbtablesLaws, add_ebtable_rules_lem, add_ebtable_rules_again}

abbrev Chains : Type 0
Chains = String → String → List String

-- the first line of the output of -L, with the number of rules
abbrev header : List String → String
header [] = "Bridge chain: BROUTING, entries: 0, policy: ACCEPT"
header (rule ∷ []) = "Bridge chain: BROUTING, entries: 1, policy: ACCEPT"
header _ = "Bridge chain: BROUTING, entries: *, policy: ACCEPT"

abbrev is_normal : String → Bool
is_normal r = not (header [] == r || (header ("" ∷ []) == r || header ("" ∷ "" ∷ []) == r))

-- A rule in another form is written in some normal form.
abbrev normalise : String → String
normalise rule = if is_normal rule then rule else "-j CONTINUE"

unfoldable run : Command → Chains → (Bool × List String) × Chains
run (Command.ebtables_list t c) s = ((true, header (s t c) ∷ s t c), s)
run (Command.ebtables_insert t c rule) s =
    ((true, []), λ t' c'. if t == t' && c == c' then normalise rule ∷ s t' c' else s t' c')
run _ s = ((true, []), s)

abbrev shell : Shell
shell = record { State = Chains; run_command = run; update_file_system = λ path value s. (true, s) }

run-insert :
    (t c rule : String) (s : Chains)
    → is_normal rule ≡ true
    → (run (Command.ebtables_insert t c rule) s).1 t c ≡ rule ∷ s t c
unfolding run
run-insert t c rule s normal =
    ground (arith, normal, eq_string.same_iff t t, eq_string.same_iff c c)

run-list :
    (rule : String) (rules : List String)
    → is_normal rule ≡ true
    → is_in rule (header rules ∷ rules) ≡ is_in rule rules
run-list rule [] normal = ground (arith, normal)
run-list rule (r ∷ []) normal = ground (arith, normal)
run-list rule (r ∷ r' ∷ rules) normal = ground (arith, normal)

shell_laws : EbtablesLaws shell
unfolding run
shell_laws = record {
  rules = λ s t c. s t c;
  is_normal = is_normal;
  list_law = λ t c rule s normal. run-list rule (s t c) normal;
  list_keeps = λ t c s. refl;
  insert_law = λ t c rule s normal h. run-insert t c rule s normal;
  insert_silent = λ t c rule s h. refl;
}

-- Snooping is on in VLAN br10; it is switched on in br20.
abbrev some_rules : Chains
some_rules = λ t c. vlan_rule true "br10" ∷ []

abbrev br20 : List String
br20 = vlan_rule true "br20" ∷ []

br20_added : (add_ebtable_rules shell "broute" "BROUTING" br20 some_rules).0 ≡ true
unfolding add_ebtable_rules run
br20_added = refl

-- The rule of br10 is still there.
add_ebtable_rules_lem_example :
    is_in (vlan_rule true "br10") (
      shell_laws.rules
        (add_ebtable_rules shell "broute" "BROUTING" br20 some_rules).1
        "broute"
        "BROUTING")
    ≡ (is_in (vlan_rule true "br10") br20
        || is_in (vlan_rule true "br10") (shell_laws.rules some_rules "broute" "BROUTING"))
unfolding shell_laws
add_ebtable_rules_lem_example =
    add_ebtable_rules_lem shell shell_laws "broute" "BROUTING" br20 some_rules refl br20_added
      (vlan_rule true "br10")

add_ebtable_rules_again_example :
    ((add_ebtable_rules shell "broute" "BROUTING" br20
        (add_ebtable_rules shell "broute" "BROUTING" br20 some_rules).1).0
      ≡ true)
    × (shell_laws.rules
          (add_ebtable_rules shell "broute" "BROUTING" br20
            (add_ebtable_rules shell "broute" "BROUTING" br20 some_rules).1).1
          "broute"
          "BROUTING"
        ≡ shell_laws.rules
            (add_ebtable_rules shell "broute" "BROUTING" br20 some_rules).1
            "broute"
            "BROUTING")
unfolding shell_laws
add_ebtable_rules_again_example =
    add_ebtable_rules_again shell shell_laws "broute" "BROUTING" br20 some_rules refl br20_added

-- VLAN 100 has one port; the first group of the update has no interface, the second one has the port.
abbrev vlan100 : VlanInfo
vlan100 = record { untagged_ports = some ("e101-001-0" ∷ []); tagged_ports = none }

abbrev any_port : Group
any_port = record { group = some "224.1.1.1"; interface = none; source = none }

abbrev one_port : Group
one_port = record { group = some "224.1.1.2"; interface = some "e101-001-0"; source = none }

abbrev null_route : Route
null_route = record { key = "0"; interface = none; address = "224.1.1.1"; source = none }

abbrev lost_route : Route
lost_route = record { key = "1"; interface = none; address = "224.1.1.2"; source = none }

abbrev port_route : Route
port_route = record {
  key = "1";
  interface = some "e101-001-0";
  address = "224.1.1.2";
  source = none;
}

null_first :
    parse_snoop_routes (λ a. a) vlan100 false (("0", any_port) ∷ ("1", one_port) ∷ [])
    ≡ some (null_route ∷ lost_route ∷ [])
unfolding parse_snoop_routes
null_first = refl

parse_snoop_routes_null_example : All HasNoInterface (null_route ∷ lost_route ∷ [])
parse_snoop_routes_null_example =
    parse_snoop_routes_null (λ a. a) vlan100 false "0" "224.1.1.1" any_port (("1", one_port) ∷ [])
      refl refl (null_route ∷ lost_route ∷ []) null_first

port_first :
    parse_snoop_routes (λ a. a) vlan100 false (("1", one_port) ∷ ("0", any_port) ∷ [])
    ≡ some (port_route ∷ null_route ∷ [])
unfolding parse_snoop_routes is_intf_vlan_member
port_first = refl

parse_snoop_routes_members_example : All (IsMember vlan100) (port_route ∷ null_route ∷ [])
parse_snoop_routes_members_example =
    parse_snoop_routes_members (λ a. a) vlan100 false (("1", one_port) ∷ ("0", any_port) ∷ [])
      port_first
