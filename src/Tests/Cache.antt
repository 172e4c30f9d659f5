-- ===== src/Tests/Cache.antt =====
-- Examples of the incoming cache.
use opx_nas_linux.Prelude.{
  ℕ, Bool, true, false, none, some, List, [], ◌∷◌, ◌≡◌, ◌||◌, ◌+◌, if◌then◌else◌, eq_string, refl,
  nat_eq, lookup, put, remove,
}
use Prim.{tt}
use opx_nas_linux.IdGenerator.{fresh, is_id_used, in_valid_range}
use opx_nas_linux.IdGenerator
use opx_nas_linux.IdGenerator.Calls.{Call}
use opx_nas_linux.IdGenerator.Invariant.{fresh-IsValid}
use opx_nas_linux.RuleList
use opx_nas_linux.RuleList.{RuleList, RuleClass}
use opx_nas_linux.Rule.{Rule, Af, Action, eq_af}
use opx_nas_linux.Iptables.{System, proc_rule, proc_get, Op}
use opx_nas_linux.RuleTables.{Tables, AfRules, vrf_rules, get_list, put_list, del_list, acquire}
use opx_nas_linux.RuleCache.{take_id, ensure_list}
use opx_nas_linux.Incoming.{incoming_class, slot_of, insert_rule, delete_rule, delete_rule_by_id}
use opx_nas_linux.RuleCache.Clear.{skips}
use opx_nas_linux.RuleCache.Valid.{AllValid, EntriesValid}
use opx_nas_linux.Incoming.Lists.{insert_rule-AllValid, delete_rule-AllValid}
use opx_nas_linux.Incoming.Mirror.{Mirrors, insert_rule-Mirrors}
use opx_nas_linux.Rule.Incoming.{is_some, is_rule_equal}
use opx_nas_linux.Incoming.Deletion.{delete_rule_by_id-AllValid}
use opx_nas_linux.Incoming.Clearing.{clear_all_rules-get_list}
use opx_nas_linux.Incoming.Locks.{update_rule-mutex}
use opx_nas_linux.Incoming.Update.{Params, update_rule, clear_all_rules}
use opx_nas_linux.Incoming.Failures.{insert_rule-mutex, insert_rule-used, insert_rule_leaks}
use opx_nas_linux.Tests.Kernel.{system, system_laws, run}
use opx_nas_linux.Tests.Rules.{ssh_rule}

abbrev pub no_rules : AfRules
no_rules = record { inet = []; inet6 = [] }

-- The state at the start: no rules, no ID in use, every chain empty.
abbrev pub start : Tables system
start = record {
  ip_rules = no_rules;
  other_rules = no_rules;
  mutex = 0;
  id_generator = fresh 1 none;
  ports = [];
  kernel = λ ref. [];
}

pub start-AllValid : (c : RuleClass Rule) → AllValid c start
unfolding vrf_rules EntriesValid
start-AllValid c = record { entries = λ p. nothing p.is_ip p.af }
  where
    nothing :
        (is_ip : Bool) (af : Af)
        → EntriesValid c (vrf_rules {sys = system} (record { is_ip = is_ip; af = af }) start)
    nothing true Af.inet = tt
    nothing true Af.inet6 = tt
    nothing false Af.inet = tt
    nothing false Af.inet6 = tt

abbrev telnet_rule : Rule
telnet_rule = record ssh_rule { dst_port = some 23 }

loaded : Tables system
loaded = (insert_rule ssh_rule start).1

insert_rule-AllValid_example : AllValid incoming_class (insert_rule ssh_rule start).1
insert_rule-AllValid_example = insert_rule-AllValid ssh_rule start (start-AllValid incoming_class)

loaded-AllValid : AllValid incoming_class loaded
unfolding loaded
loaded-AllValid = insert_rule-AllValid ssh_rule start (start-AllValid incoming_class)

delete_rule-AllValid_example : AllValid incoming_class (delete_rule ssh_rule loaded).1
delete_rule-AllValid_example = delete_rule-AllValid ssh_rule loaded loaded-AllValid

start-Mirrors : Mirrors system system_laws ssh_rule start
unfolding get_list lookup
start-Mirrors = refl

insert_rule-Mirrors_example : Mirrors system system_laws ssh_rule (insert_rule ssh_rule start).1
insert_rule-Mirrors_example =
    insert_rule-Mirrors system system_laws ssh_rule start (start-AllValid incoming_class) refl
      start-Mirrors

insert_rule-mutex_example : (insert_rule ssh_rule start).1.mutex ≡ 0
insert_rule-mutex_example = insert_rule-mutex ssh_rule start

start_inserts : (insert_rule ssh_rule start).0.0 ≡ true
unfolding insert_rule get_list lookup proc_rule run fresh RuleList.insert IdGenerator.get_new_id
    put_list
start_inserts = refl

insert_rule-used_example :
    (id : ℕ) × ((insert_rule ssh_rule start).0.1.rule_id ≡ some id)
    × (is_id_used id start.id_generator ≡ false)
    × ((x : ℕ)
        → is_id_used x (insert_rule ssh_rule start).1.id_generator
          ≡ (nat_eq id x || is_id_used x start.id_generator))
insert_rule-used_example = insert_rule-used ssh_rule start (fresh-IsValid 1 none refl) start_inserts

-- The same system with iptables failing.
abbrev pub refusing : System
refusing = record system { run_command = λ cmd k. (false, k) }

abbrev pub refusing_start : Tables refusing
refusing_start = record {
  ip_rules = no_rules;
  other_rules = no_rules;
  mutex = 0;
  id_generator = fresh 1 none;
  ports = [];
  kernel = λ ref. [];
}

abbrev numbered : Rule
numbered = record ssh_rule { rule_id = some 1 }

-- Other IDs are handed out, reserved and released.
abbrev later_calls : List Call
later_calls = Call.new ∷ Call.reserve 9 ∷ Call.release 2 ∷ []

abbrev busier : Tables refusing
busier = record refusing_start {
  id_generator =
      IdGenerator.Calls.run later_calls (insert_rule ssh_rule refusing_start).1.id_generator;
}

leak_given : (take_id ssh_rule.rule_id refusing_start.id_generator).0 ≡ some 1
unfolding take_id fresh IdGenerator.get_new_id
leak_given = refl

leak_accepted :
    (RuleList.insert incoming_class numbered
      (ensure_list (slot_of ssh_rule) ssh_rule.vrf_name (acquire refusing_start)).0).0
    ≡ some 0
unfolding ensure_list get_list lookup RuleList.insert
leak_accepted = refl

leak_refused : (proc_rule refusing Op.insert numbered (some 0) refusing_start.kernel).0 ≡ false
unfolding proc_rule
leak_refused = refl

insert_rule_leaks_example :
    ((insert_rule ssh_rule refusing_start).0.0 ≡ false)
    × ((insert_rule ssh_rule refusing_start).0.1.rule_id ≡ some 1)
    × (is_id_used 1 busier.id_generator ≡ true)
    × ((insert_rule numbered busier).0.0 ≡ false)
insert_rule_leaks_example =
    insert_rule_leaks ssh_rule 1 0 refusing_start (fresh-IsValid 1 none refl) leak_given
      leak_accepted leak_refused later_calls (refl, (refl, (refl, tt))) busier refl numbered refl

delete_rule_by_id-AllValid_example : AllValid incoming_class (delete_rule_by_id 1 loaded).1
delete_rule_by_id-AllValid_example = delete_rule_by_id-AllValid 1 loaded loaded-AllValid

clear_all_rules-get_list_example :
    get_list (slot_of ssh_rule) ssh_rule.vrf_name (clear_all_rules none none loaded) ≡ (
      if skips none ssh_rule.vrf_name || skips none ssh_rule.af
      then get_list (slot_of ssh_rule) ssh_rule.vrf_name loaded
      else none)
clear_all_rules-get_list_example =
    clear_all_rules-get_list none none (slot_of ssh_rule) ssh_rule.vrf_name loaded

-- An update of the sequence number, and one to an action that an incoming rule cannot have.
abbrev no_params : Params
no_params = record {
  src_ip = none;
  src_prefix_len = none;
  dst_ip = none;
  dst_prefix_len = none;
  protocol = none;
  dst_port = none;
  low_dst_port = none;
  high_dst_port = none;
  action = none;
  in_intf = none;
  seq_num = none;
}

abbrev to_snat : Params
to_snat = record no_params { action = some Action.snat }

update_rule-mutex_example :
    (update_rule 1 to_snat loaded).1.mutex
    ≡ (if is_some (update_rule 1 to_snat loaded).0 then 0 else 1) + loaded.mutex
update_rule-mutex_example = update_rule-mutex 1 to_snat loaded

abbrev later : Params
later = record no_params { seq_num = some 9 }

updates :
    ((update_rule 1 later loaded).0 ≡ some true)
    × (lookup ssh_rule.vrf_name (vrf_rules (slot_of ssh_rule) (update_rule 1 later loaded).1)
        ≡ some (record {
          rules = record ssh_rule { rule_id = some 1; seq_num = 9 } ∷ [];
          seq_num_list = (10, 9) ∷ [];
          rule_id_map = (some 1, 0) ∷ [];
        }))
unfolding loaded update_rule insert_rule get_list lookup proc_rule run fresh RuleList.insert
    IdGenerator.get_new_id put_list vrf_rules RuleList.remove_by_id IdGenerator.reserve_id
    IdGenerator.release_id RuleList.find_by_id proc_get RuleList.replace_at is_rule_equal is_id_used
    put del_list remove
updates = (refl, refl)
