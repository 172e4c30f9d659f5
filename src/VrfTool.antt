-- ===== src/VrfTool.antt =====
-- The state of scripts/lib/python/dn_base_vrf_tool.py, and the commands that it runs one after another.
pub mod Veth
pub mod Nat
pub mod Subnets
pub mod Namespaces
pub mod Shown
pub mod Interfaces
pub mod Sources
use Prim.Native.String as Text
use opx_nas_linux.Prelude.{ℕ, String, Bool, true, false, Option, List, [], ◌∷◌, ◌++◌, if◌then◌else◌}

-- What the tool runs against. A command is its words; `run_command` says whether the return value is 0.
pub record Host : Type 1 where
  pub State : Type 0
  pub run_command : List String → State → Bool × State
  -- the lines that the last command has written
  pub response : State → List String
  -- str of a number
  pub str : ℕ → String
  -- `add_ip_addr` and `del_ip_addr` of dn_base_ip_tool.py: the address, the interface, the family and the VRF
  pub add_ip_addr : (ip if_name af vrf : String) → State → State
  pub del_ip_addr : (ip if_name vrf : String) → State → State
  -- `_get_ip_addr_details` and InterfaceObject of dn_base_ip_tool.py: of every interface of type 1 in the
  -- VRF, the addresses, with whether they are of IPv6
  pub addresses : (vrf_name : String) → State → List (List (Bool × String))
  -- the functions of os and shutil under these names; false where they raise
  pub symlink : (target path : String) → State → Bool × State
  pub unlink : String → State → Bool × State
  pub makedirs : String → State → Bool × State
  pub rmtree : String → State → Bool × State
  -- the values for igmp_max_memberships and igmp_max_msf in /etc/sysctl.d/dn-igmp.conf
  pub igmp_limits : State → Option String × Option String
  -- Is the address one of the internal ones, or link-local?
  pub is_internal_ip6 : String → Bool
  pub is_link_local_ip6 : String → Bool

-- The module's dictionaries. A key '*a*b*' is the pair of its names, which have no asterisk.
pub record Vrfs : Type 0 where
  pub vrf_name_to_id : List (String × ℕ)
  pub vrf_sub_net_map : List ((String × String) × ℕ)
  pub vrf_src_ip_map : List ((String × (String × String)) × ℕ)
  pub vrf_ip_service_ip_addr : List ((String × (String × String)) × ℕ)

-- a command in the namespace of a VRF
abbrev pub netns : String → List String → List String
netns vrf_name cmd = "/sbin/ip" ∷ "netns" ∷ "exec" ∷ vrf_name ∷ cmd

abbrev pub options : Bool → String
options is_add = if is_add then "-A" else "-D"

module _ (h : Host) where
  open h use {State, run_command}

  -- Commands up to the first that fails.
  unfoldable pub run_all : List (List String) → State → Bool × State
  run_all [] st = (true, st)
  run_all (cmd ∷ cmds) st =
      let (ok, st1) = run_command cmd st in
      let rest = run_all cmds st1 in if ok then rest else (false, st1)

  -- Commands whose failure is only logged.
  unfoldable pub run_each : List (List String) → State → State
  run_each [] st = st
  run_each (cmd ∷ cmds) st = run_each cmds (run_command cmd st).1

  -- the name of a veth interface, by the VRF at its other end
  abbrev pub veth_name : ℕ → String
  veth_name vrf_id = Text.◌++◌ "vdst-nsid" (h.str vrf_id)
