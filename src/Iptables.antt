-- ===== src/Iptables.antt =====
-- `IptablesHandler` of scripts/lib/python/dn_base_vrf_svcs_config.py: the iptables commands that
-- rules stand for, and their execution.
pub mod Args
pub mod Laws
use opx_nas_linux.Prelude.{
  ℕ, zero, suc, ◌+◌, ◌/◌, ◌%◌, String, Bool, true, false, Option, none, some, List, [], ◌∷◌, ◌++◌,
  nat_eq, ◌==◌, ◌&&◌, ◌||◌, not, if◌then◌else◌, eq_nat, eq_string,
}
use opx_nas_linux.Rule.{Af, RuleType, Action, Rule, eq_rule_type, eq_af}
use opx_nas_linux.Rule.Incoming.{Net}
use opx_nas_linux.Iptables.Args.{Vrfs, get_flt_args}

-- The part of a command that names the place in the chain: -A, -I, -D (by number or by the text of
-- the rule), -R, -C. Positions count from 1.
pub data ChainArgs : Type 0 where
  append : ChainArgs
  insert delete replace : ℕ → ChainArgs
  delete_matching check : ChainArgs

-- A command: its first words, the chain with its place, and the words that describe the rule.
pub record Command : Type 0 where
  pub ipt_prefix : List String
  pub chain_name : String
  pub chain_args : ChainArgs
  pub flt_args : List String

-- What the commands run against. `run_command` is taken as a call that returns whether the exit
-- status is 0.
pub record System : Type 1 where
  pub Kernel : Type 0
  -- run_command of an iptables command that changes or checks a chain
  pub run_command : Command → Kernel → Bool × Kernel
  -- the output lines of `ip netns show`, or `none` if it fails
  pub netns_show : Kernel → Option (List String)
  -- the groups of re.search('(.*)\s+\(id:\s+(\S+)\)', token): the name in front of '(id: ...)'
  pub search_id : String → Option String
  -- the first line of `iptables -xvL` for a rule; the outer `none` is a failure
  pub list_rule : List String → String → ℕ → Kernel → Option (Option String)
  -- re.match(r'\s+\d+\s+\d+\s+', line) with the two numbers found in it
  pub find_stats_info : String → Option String × Option String
  pub net : Net
  pub vrfs : Vrfs

-- `get_chain_name`
unfoldable pub get_chain_name : String → RuleType → String
get_chain_name vrf_name RuleType.ip = if vrf_name == "default" then "INPUT" else "VRF"
get_chain_name vrf_name RuleType.out_ip = "PREROUTING"
get_chain_name vrf_name RuleType.snat = "POSTROUTING"
get_chain_name vrf_name RuleType.acl = "VRF"

-- the table of `get_ipt_cmd_prefix`: whether the VRF is 'default' decides
unfoldable pub get_table : Bool → RuleType → Option String
get_table true RuleType.ip = none
get_table true RuleType.snat = some "nat"
get_table true RuleType.acl = some "raw"
get_table true RuleType.out_ip = some "raw"
get_table false RuleType.acl = some "raw"
get_table false RuleType.ip = some "nat"
get_table false RuleType.out_ip = some "nat"
get_table false RuleType.snat = some "nat"

abbrev pub iplink_cmd : String
iplink_cmd = "/sbin/ip"

unfoldable pub table_args : Option String → List String
table_args none = []
table_args (some tbl_name) = "-t" ∷ tbl_name ∷ []

-- `get_ipt_cmd_prefix`
unfoldable pub get_ipt_cmd_prefix : RuleType → Af → String → List String
unfolding get_table table_args
get_ipt_cmd_prefix rule_type af vrf_name =
    if vrf_name == "default"
    then (if af == Af.inet then "/sbin/iptables" else "/sbin/ip6tables")
      ∷ table_args (get_table true rule_type)
    else iplink_cmd
      ∷ "netns"
      ∷ "exec"
      ∷ vrf_name
      ∷ (if af == Af.inet then "iptables" else "ip6tables")
      ∷ table_args (get_table false rule_type)

-- the operations of `proc_rule` that change a chain or check it
pub data Op : Type 0 where
  insert delete replace check : Op

-- The words of the operation; `none` is the refusal of a `replace` without a position.
unfoldable pub get_chain_args : Op → Option ℕ → Option ChainArgs
get_chain_args Op.insert none = some ChainArgs.append
get_chain_args Op.insert (some idx) = some (ChainArgs.insert (idx + 1))
get_chain_args Op.delete none = some ChainArgs.delete_matching
get_chain_args Op.delete (some idx) = some (ChainArgs.delete (idx + 1))
get_chain_args Op.replace none = none
get_chain_args Op.replace (some idx) = some (ChainArgs.replace (idx + 1))
get_chain_args Op.check idx = some ChainArgs.check

abbrev pub is_delete : Op → Bool
is_delete Op.delete = true
is_delete _ = false

module _ (sys : System) where
  open sys use {Kernel, run_command, netns_show, search_id, list_rule, find_stats_info, net, vrfs}

  -- the loop of `is_vrf_valid`
  unfoldable pub names_vrf : String → List String → Bool
  names_vrf vrf_name [] = false
  names_vrf vrf_name (token ∷ res) =
      let vrf : String = elim (search_id token) [ none ↦ token | some name ↦ name ] in
      vrf == vrf_name || names_vrf vrf_name res

  unfoldable pub is_vrf_valid : String → Kernel → Bool
  unfolding names_vrf
  is_vrf_valid vrf_name k = elim (netns_show k) [ none ↦ false | some res ↦ names_vrf vrf_name res ]

  -- A delete by position has no words for the rule.
  unfoldable pub command_of : Rule → ChainArgs → Command
  unfolding get_ipt_cmd_prefix get_chain_name get_flt_args
  command_of rule chain_args = record {
    ipt_prefix = get_ipt_cmd_prefix rule.rule_type rule.af rule.vrf_name;
    chain_name = get_chain_name rule.vrf_name rule.rule_type;
    chain_args = chain_args;
    flt_args = elim chain_args [ ChainArgs.delete _ ↦ [] | _ ↦ get_flt_args net vrfs rule ];
  }

  -- `proc_rule` for 'insert', 'delete', 'replace' and 'check'
  unfoldable pub proc_rule : Op → Rule → Option ℕ → Kernel → Bool × Kernel
  unfolding is_vrf_valid get_chain_args command_of
  proc_rule op rule idx k =
      if is_delete op && (not (rule.vrf_name == "default") && not (is_vrf_valid rule.vrf_name k))
      then (true, k)
      else if rule.vrf_name == "default" && rule.rule_type == RuleType.out_ip
      then (false, k)
      else elim (get_chain_args op idx) [
        | none ↦ (false, k)
        | some chain_args ↦ run_command (command_of rule chain_args) k
      ]

  -- `proc_rule` for 'get', at a position: it writes the statistics into the rule.
  unfoldable pub proc_get : Rule → ℕ → Kernel → Bool × Rule
  unfolding is_vrf_valid get_ipt_cmd_prefix get_chain_name
  proc_get rule idx k =
      if not (rule.vrf_name == "default") && not (is_vrf_valid rule.vrf_name k)
      then (true, rule)
      else if rule.vrf_name == "default" && rule.rule_type == RuleType.out_ip
      then (false, rule)
      else elim (list_rule (get_ipt_cmd_prefix rule.rule_type rule.af rule.vrf_name)
          (get_chain_name rule.vrf_name rule.rule_type) (idx + 1) k) [
            | none ↦ (false, rule)
            | some none ↦ (true, rule)
            | some (some line) ↦ (
              true,
              record rule {
                packet_count = (find_stats_info line).0;
                byte_count = (find_stats_info line).1;
              },
            )
          ]
