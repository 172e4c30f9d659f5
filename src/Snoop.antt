-- ===== src/Snoop.antt =====
-- The rules of scripts/lib/python/dn_base_mcast_snoop.py that keep the kernel from flooding the IGMP
-- and MLD packets of a VLAN with snooping.
pub mod Laws
pub mod Routes
use opx_nas_linux.Prelude.{
  ℕ, zero, suc, String, Bool, true, false, List, [], ◌∷◌, ◌++◌, ◌==◌, ◌||◌, ◌&&◌, not, eq_string,
  if◌then◌else◌,
}
use Prim.Native.String as Text

-- The commands that `run_command` is given, with the names of tables, chains and rules after `split`,
-- joined by one space. The commands of iptables are those of ip6tables where the first is false.
pub data Command : Type 0 where
  ebtables_list : (table chain : String) → Command
  ebtables_insert ebtables_delete : (table chain rule : String) → Command
  ipt_new ipt_flush ipt_remove : (is_igmp : Bool) (table chain : String) → Command
  ipt_check ipt_append ipt_delete : (is_igmp : Bool) (table rule : String) → Command
  bridge_mdb : (op dev port grp : String) → Command
  link_set_bridge : (dev attr value : String) → Command
  link_set_slave : (dev mcast_router : String) → Command

-- What the commands run against: a call returns whether the return value is 0, and the lines of output.
pub record Shell : Type 1 where
  pub State : Type 0
  pub run_command : Command → State → (Bool × List String) × State
  -- `_update_file_system` of dn_base_mcast_snoop_utils.py: the path and the value
  pub update_file_system : String → ℕ → State → Bool × State

-- `rule in res`
abbrev pub is_in : String → List String → Bool
is_in rule [] = false
is_in rule (line ∷ res) = line == rule || is_in rule res

-- The rules in IGMPSNOOP and MLDSNOOP.
abbrev pub igmp_add_rules : List String
igmp_add_rules =
    "IGMPSNOOP -p igmp -m u32 --u32 0>>22&0x3C@0>>16&0xFF00=0x1200 -j ACCEPT"
    ∷ "IGMPSNOOP -p igmp -m u32 --u32 0>>22&0x3C@0>>16&0xFF00=0x1600 -j ACCEPT"
    ∷ "IGMPSNOOP -p igmp -m u32 --u32 0>>22&0x3C@0>>16&0xFF00=0x1700 -j ACCEPT"
    ∷ "IGMPSNOOP -p igmp -m u32 --u32 0>>22&0x3C@0>>16&0xFF00=0x2200 -j ACCEPT"
    ∷ "IGMPSNOOP -p igmp -m u32 --u32 0>>22&0x3C@0>>16&0xFF00=0x1100 ! -d 224.0.0.1 -j ACCEPT"
    ∷ "IGMPSNOOP -j MARK --set-mark 0" ∷ []

abbrev pub mld_add_rules : List String
mld_add_rules =
    "MLDSNOOP -p icmpv6 -m icmp6 --icmpv6-type 131 -j ACCEPT"
    ∷ "MLDSNOOP -p icmpv6 -m icmp6 --icmpv6-type 132 -j ACCEPT"
    ∷ "MLDSNOOP -p icmpv6 -m icmp6 --icmpv6-type 143 -j ACCEPT"
    ∷ "MLDSNOOP -p icmpv6 -m icmp6 --icmpv6-type 130 ! -d ff02::01 -j ACCEPT"
    ∷ "MLDSNOOP -p icmpv6 -j MARK --set-mark 0" ∷ []

abbrev pub chain_rules : Bool → List String
chain_rules is_igmp = if is_igmp then igmp_add_rules else mld_add_rules

abbrev pub chain_name : Bool → String
chain_name is_igmp = if is_igmp then "IGMPSNOOP" else "MLDSNOOP"

-- `igmp_preroute_rule` and `mld_preroute_rule`
abbrev pub preroute_rule : Bool → String
preroute_rule is_igmp =
    if is_igmp
    then "PREROUTING -m mark --mark 0x64 -j IGMPSNOOP"
    else "PREROUTING -m mark --mark 0x64 -j MLDSNOOP"

abbrev pub mld_global_ebtable_rule : List String
mld_global_ebtable_rule =
    "-p IPv6 --ip6-proto ipv6-icmp --ip6-icmp-type 132/0:255 --mark 0x1 -j ACCEPT"
    ∷ "-p IPv6 --ip6-proto ipv6-icmp --ip6-icmp-type 131/0:255 --mark 0x1 -j ACCEPT"
    ∷ "-p IPv6 --ip6-proto ipv6-icmp --ip6-icmp-type 130/0:255 --mark 0x1 -j ACCEPT"
    ∷ "-p IPv6 --ip6-proto ipv6-icmp --ip6-icmp-type 143/0:255 --mark 0x1 -j ACCEPT" ∷ []

abbrev pub global_rules : Bool → List String
global_rules is_igmp =
    if is_igmp then "-p IPv4 --ip-proto igmp --mark 0x1 -j ACCEPT" ∷ [] else mld_global_ebtable_rule

-- `rules` of dn_base_mcast_snoop_utils.py
abbrev pub global_enable_rules : List String
global_enable_rules =
    "-p IPv6 --ip6-proto ipv6-icmp --ip6-icmp-type 132/0:255 --mark 0x1 -j ACCEPT"
    ∷ "-p IPv6 --ip6-proto ipv6-icmp --ip6-icmp-type 131/0:255 --mark 0x1 -j ACCEPT"
    ∷ "-p IPv6 --ip6-proto ipv6-icmp --ip6-icmp-type 130/0:255 --mark 0x1 -j ACCEPT"
    ∷ "-p IPv4 --ip-proto igmp --mark 0x1 -j ACCEPT" ∷ []

abbrev pub bridge_nf : Bool → String
bridge_nf is_igmp =
    if is_igmp
    then "/proc/sys/net/bridge/bridge-nf-call-iptables"
    else "/proc/sys/net/bridge/bridge-nf-call-ip6tables"

-- The rule of a VLAN in the chain BROUTING.
abbrev pub vlan_rule : Bool → String → String
vlan_rule is_igmp vlan_name =
    Text.◌++◌ (if is_igmp then "-p IPv4 --logical-in " else "-p IPv6 --logical-in ") (
      Text.◌++◌ vlan_name (
        if is_igmp
        then " --ip-proto igmp -j mark --mark-set 0x64 --mark-target ACCEPT"
        else " --ip6-proto ipv6-icmp -j mark --mark-set 0x64 --mark-target ACCEPT"))

module _ (sh : Shell) where
  open sh use {State, run_command, update_file_system}

  -- the loop of `add_ebtable_rules`; the output of every command goes to the end of `res`
  unfoldable pub insert_missing :
      (table chain : String) → List String → List String → State → Bool × State
  insert_missing table chain [] res s = (true, s)
  insert_missing table chain (rule ∷ rules) res s =
      let ((ok, lines), s1) = run_command (Command.ebtables_insert table chain rule) s in
      let (done, s2) = insert_missing table chain rules (res ++ lines) s1 in
      let skipped = insert_missing table chain rules res s in
      if is_in rule res then skipped else (ok && done, s2)

  unfoldable pub add_ebtable_rules : (table chain : String) → List String → State → Bool × State
  unfolding insert_missing
  add_ebtable_rules table chain rules s =
      let ((ok, res), s1) = run_command (Command.ebtables_list table chain) s in
      insert_missing table chain rules res s1

  -- the loop of `remove_ebtables_rules`
  unfoldable pub delete_present :
      (table chain : String) → List String → List String → State → Bool × State
  delete_present table chain [] res s = (true, s)
  delete_present table chain (rule ∷ rules) res s =
      let ((ok, lines), s1) = run_command (Command.ebtables_delete table chain rule) s in
      let (done, s2) = delete_present table chain rules (res ++ lines) s1 in
      let skipped = delete_present table chain rules res s in
      if is_in rule res then (ok && done, s2) else skipped

  unfoldable pub remove_ebtables_rules : (table chain : String) → List String → State → Bool × State
  unfolding delete_present
  remove_ebtables_rules table chain rules s =
      let ((ok, res), s1) = run_command (Command.ebtables_list table chain) s in
      delete_present table chain rules res s1

  unfoldable pub snoop_add_vlan_rules : Bool → String → State → Bool × State
  unfolding add_ebtable_rules
  snoop_add_vlan_rules is_igmp vlan_name s =
      add_ebtable_rules "broute" "BROUTING" (vlan_rule is_igmp vlan_name ∷ []) s

  unfoldable pub snoop_remove_vlan_rules : Bool → String → State → Bool × State
  unfolding remove_ebtables_rules
  snoop_remove_vlan_rules is_igmp vlan_name s =
      remove_ebtables_rules "broute" "BROUTING" (vlan_rule is_igmp vlan_name ∷ []) s

  unfoldable pub snoop_update_vlan_rules : Bool → String → ℕ → State → Bool × State
  unfolding snoop_add_vlan_rules snoop_remove_vlan_rules
  snoop_update_vlan_rules is_igmp vlan_name (suc zero) s = snoop_add_vlan_rules is_igmp vlan_name s
  snoop_update_vlan_rules is_igmp vlan_name zero s = snoop_remove_vlan_rules is_igmp vlan_name s
  snoop_update_vlan_rules is_igmp vlan_name (suc (suc _)) s = (false, s)

  -- the loop of `snoop_create_iptables_chain`: a rule that is not there is appended
  unfoldable pub append_missing : Bool → String → List String → State → Bool × State
  append_missing is_igmp table [] s = (true, s)
  append_missing is_igmp table (rule ∷ rules) s =
      let ((there, res), s1) = run_command (Command.ipt_check is_igmp table rule) s in
      let ((ok, res'), s2) = run_command (Command.ipt_append is_igmp table rule) s1 in
      let (done, s3) = append_missing is_igmp table rules s2 in
      let skipped = append_missing is_igmp table rules s1 in
      if there then skipped else (ok && done, s3)

  -- The result of -N is not looked at: the chain may be there.
  unfoldable pub snoop_create_iptables_chain : Bool → (table chain : String) → State → Bool × State
  unfolding append_missing
  snoop_create_iptables_chain is_igmp table chain s =
      append_missing is_igmp table (chain_rules is_igmp)
        (run_command (Command.ipt_new is_igmp table chain) s).1

  unfoldable pub snoop_delete_iptables_chain : Bool → (table chain : String) → State → Bool × State
  snoop_delete_iptables_chain is_igmp table chain s =
      let ((flushed, res), s1) = run_command (Command.ipt_flush is_igmp table chain) s in
      let ((removed, res'), s2) = run_command (Command.ipt_remove is_igmp table chain) s1 in
      (flushed && removed, s2)

  -- "Add PREROUTING rule"
  unfoldable pub add_preroute_rule : Bool → State → Bool × State
  add_preroute_rule is_igmp s =
      let rule = preroute_rule is_igmp in
      let ((there, res), s1) = run_command (Command.ipt_check is_igmp "raw" rule) s in
      let ((ok, res'), s2) = run_command (Command.ipt_append is_igmp "raw" rule) s1 in
      if there then (true, s1) else (ok, s2)

  unfoldable pub remove_preroute_rule : Bool → State → Bool × State
  remove_preroute_rule is_igmp s =
      let rule = preroute_rule is_igmp in
      let ((there, res), s1) = run_command (Command.ipt_check is_igmp "raw" rule) s in
      let ((ok, res'), s2) = run_command (Command.ipt_delete is_igmp "raw" rule) s1 in
      if there then (ok, s2) else (true, s1)

  unfoldable pub snoop_add_rule_chain : Bool → State → Bool × State
  unfolding snoop_create_iptables_chain add_preroute_rule add_ebtable_rules
  snoop_add_rule_chain is_igmp s =
      let (created, s1) = snoop_create_iptables_chain is_igmp "raw" (chain_name is_igmp) s in
      let (routed, s2) = add_preroute_rule is_igmp s1 in
      let (added, s3) = add_ebtable_rules "nat" "POSTROUTING" (global_rules is_igmp) s2 in
      let enabled = update_file_system (bridge_nf is_igmp) 1 s3 in
      if not created
      then (false, s1)
      else if not routed
      then (false, s2)
      else if not added
      then (false, s3)
      else enabled

  -- the first part of `snoop_remove_rule_chain`, whose result is then overwritten
  unfoldable pub remove_chain : Bool → State → Bool × State
  unfolding remove_preroute_rule snoop_delete_iptables_chain
  remove_chain is_igmp s =
      let (unrouted, s1) = remove_preroute_rule is_igmp s in
      let deleted = snoop_delete_iptables_chain is_igmp "raw" (chain_name is_igmp) s1 in
      if unrouted then deleted else (false, s1)

  unfoldable pub snoop_remove_rule_chain : Bool → State → Bool × State
  unfolding remove_chain remove_ebtables_rules
  snoop_remove_rule_chain is_igmp s =
      let (ignored, s1) = remove_chain is_igmp s in
      let (removed, s2) = remove_ebtables_rules "nat" "POSTROUTING" (global_rules is_igmp) s1 in
      let disabled = update_file_system (bridge_nf is_igmp) 0 s2 in
      if not removed then (false, s2) else disabled

  unfoldable pub snoop_update_global_rules : Bool → ℕ → State → Bool × State
  unfolding snoop_add_rule_chain snoop_remove_rule_chain
  snoop_update_global_rules is_igmp (suc zero) s = snoop_add_rule_chain is_igmp s
  snoop_update_global_rules is_igmp zero s = snoop_remove_rule_chain is_igmp s
  snoop_update_global_rules is_igmp (suc (suc _)) s = (false, s)

  -- `_validate_and_insert` and `_validate_and_delete` of dn_base_mcast_snoop_utils.py: the same loops
  -- over the rules of that file.
  unfoldable pub validate_and_insert : State → Bool × State
  unfolding add_ebtable_rules
  validate_and_insert s = add_ebtable_rules "nat" "POSTROUTING" global_enable_rules s

  unfoldable pub validate_and_delete : State → Bool × State
  unfolding remove_ebtables_rules
  validate_and_delete s = remove_ebtables_rules "nat" "POSTROUTING" global_enable_rules s

  -- `_handle_rules`, on the value of the attribute
  unfoldable pub handle_rules : ℕ → State → Bool × State
  unfolding validate_and_insert validate_and_delete
  handle_rules (suc zero) s = validate_and_insert s
  handle_rules zero s = validate_and_delete s
  handle_rules (suc (suc _)) s = (false, s)
