-- ===== src/RuleTables.antt =====
-- The class attributes of a rule cache (scripts/lib/python/dn_base_vrf_svcs_config.py): two tables
-- that map an address family and a VRF to a rule list, the lock, and the ID generator. The map of
-- private ports (scripts/lib/python/dn_base_vrf_tool.py) and the kernel are kept beside them.
pub mod Laws
use opx_nas_linux.Prelude.{
  ℕ, ◌+◌, ◌-◌, String, Bool, true, false, Option, none, some, List, [], if◌then◌else◌, lookup, put,
  remove, eq_string,
}
use opx_nas_linux.IdGenerator.{IdGenerator}
use opx_nas_linux.RuleList.{RuleList}
use opx_nas_linux.PrivatePorts.{PortMap}
use opx_nas_linux.Rule.{Af, Rule}
use opx_nas_linux.Iptables.{System}

abbrev pub VrfRules : Type 0
VrfRules = List (String × RuleList Rule)

-- {socket.AF_INET: {...}, socket.AF_INET6: {...}}
pub record AfRules : Type 0 where
  pub inet : VrfRules
  pub inet6 : VrfRules

-- The two tables are `ip_rules` and `acl_rules` of the incoming cache, `ip_rules` and `snat_rules`
-- of the outgoing one. `mutex` counts how often the lock (an RLock) is held.
pub record Tables (sys : System) : Type 0 where
  pub ip_rules : AfRules
  pub other_rules : AfRules
  pub mutex : ℕ
  pub id_generator : IdGenerator
  pub ports : PortMap
  pub kernel : sys.Kernel

unfoldable pub af_rules : Af → AfRules → VrfRules
af_rules Af.inet t = t.inet
af_rules Af.inet6 t = t.inet6

unfoldable pub with_af_rules : Af → VrfRules → AfRules → AfRules
with_af_rules Af.inet d t = record t { inet = d }
with_af_rules Af.inet6 d t = record t { inet6 = d }

-- A table and a family in it: `ip_rules[af]` where the first is true, else the other table's.
pub record Slot : Type 0 where
  pub is_ip : Bool
  pub af : Af

module _ {sys : System} where
  unfoldable pub vrf_rules : Slot → Tables sys → VrfRules
  unfolding af_rules
  vrf_rules p s = if p.is_ip then af_rules p.af s.ip_rules else af_rules p.af s.other_rules

  unfoldable pub with_vrf_rules : Slot → VrfRules → Tables sys → Tables sys
  unfolding with_af_rules
  with_vrf_rules p d s =
      if p.is_ip
      then record s { ip_rules = with_af_rules p.af d s.ip_rules }
      else record s { other_rules = with_af_rules p.af d s.other_rules }

  -- table[af].get(vrf_name), `table[af][vrf_name] = l`, `del table[af][vrf_name]`
  unfoldable pub get_list : Slot → String → Tables sys → Option (RuleList Rule)
  unfolding vrf_rules
  get_list p vrf_name s = lookup vrf_name (vrf_rules p s)

  unfoldable pub put_list : Slot → String → RuleList Rule → Tables sys → Tables sys
  unfolding vrf_rules with_vrf_rules
  put_list p vrf_name l s = with_vrf_rules p (put vrf_name l (vrf_rules p s)) s

  unfoldable pub del_list : Slot → String → Tables sys → Tables sys
  unfolding vrf_rules with_vrf_rules
  del_list p vrf_name s = with_vrf_rules p (remove vrf_name (vrf_rules p s)) s

  abbrev pub acquire : Tables sys → Tables sys
  acquire s = record s { mutex = s.mutex + 1 }

  abbrev pub release : Tables sys → Tables sys
  release s = record s { mutex = s.mutex - 1 }
