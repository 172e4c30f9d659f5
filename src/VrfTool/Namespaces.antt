-- ===== src/VrfTool/Namespaces.antt =====
-- `process_vrf_config` of scripts/lib/python/dn_base_vrf_tool.py: the namespace of a VRF is made or
-- deleted.
pub mod Laws
use Prim.Native.String as Text
use opx_nas_linux.Prelude.{
  ℕ, String, Bool, true, false, Option, none, some, List, [], ◌∷◌, ◌++◌, ◌==◌, ◌&&◌, ◌||◌, not,
  lookup, put, remove, length, nat_eq, eq_string, if◌then◌else◌,
}
use opx_nas_linux.VrfTool.{Host, Vrfs, netns, run_all, run_each}
use opx_nas_linux.VrfTool.Veth.{process_vrf_top_chain_rule}
use opx_nas_linux.VrfTool.Subnets.{ip_svcs_subnet_setup}

-- '*'+vrf_name+'*' in key
abbrev pub has_vrf : String → String × String → Bool
has_vrf vrf_name key = key.0 == vrf_name || key.1 == vrf_name

-- the keys of the dictionary that name the VRF, in its order
abbrev pub keys_of : String → List ((String × String) × ℕ) → List (String × String)
keys_of vrf_name [] = []
keys_of vrf_name ((key, val) ∷ m) =
    let rest = keys_of vrf_name m in if has_vrf vrf_name key then key ∷ rest else rest

abbrev pub default_netns : String
default_netns = "/var/run/netns/default"

abbrev pub netns_folder : String → String
netns_folder vrf_name = Text.◌++◌ "/etc/netns/" vrf_name

abbrev pub with_ids : List (String × ℕ) → Vrfs → Vrfs
with_ids ids s = record s { vrf_name_to_id = ids }

-- an action on the chains VRF of the tables nat and raw, for each program
abbrev pub vrf_chain_commands : String → List String → List String → List (List String)
vrf_chain_commands vrf_name actions [] = []
vrf_chain_commands vrf_name actions (iptable ∷ ip_tables) =
    on_table "nat" actions (on_table "raw" actions (vrf_chain_commands vrf_name actions ip_tables))
  where
    on_table : String → List String → List (List String) → List (List String)
    on_table table [] rest = rest
    on_table table (action ∷ others) rest =
        netns vrf_name (iptable ∷ "-t" ∷ table ∷ action ∷ "VRF" ∷ []) ∷ on_table table others rest

module _ (h : Host) (ip_tables ip_proto : List String) where
  open h use {State, run_command}

  -- The loop over the subnets of the VRF, up to the first that cannot be deleted.
  unfoldable pub delete_subnets : List (String × String) → Vrfs → State → (Bool × Vrfs) × State
  unfolding ip_svcs_subnet_setup
  delete_subnets [] s st = ((true, s), st)
  delete_subnets ((src, dst) ∷ keys) s st =
      let ((answer, s1), st1) = ip_svcs_subnet_setup h ip_tables ip_proto false src dst s st in
      let rest = delete_subnets keys s1 st1 in if answer.0 then rest else ((false, s1), st1)

  -- When the last VRF goes, the link of the default one goes, too. The first part of the answer is
  -- whether `process_vrf_config` goes on; the folder is left where the link cannot be deleted.
  unfoldable pub drop_default : String → Vrfs → State → (Bool × Vrfs) × State
  unfolding lookup remove
  drop_default vrf_name s st =
      let (unlinked, st1) = h.unlink default_netns st in
      let s1 = with_ids (remove "default" s.vrf_name_to_id) s in
      let last = nat_eq (length s.vrf_name_to_id) 1 in
      if not last
      then ((true, s), (h.rmtree (netns_folder vrf_name) st).1)
      else if not unlinked
      then ((true, s), st1)
      else elim (lookup "default" s.vrf_name_to_id) [
        | none ↦ ((false, s), st1)
        | some id ↦ ((true, s1), (h.rmtree (netns_folder vrf_name) st1).1)
      ]

  unfoldable pub delete_vrf : String → Vrfs → State → (Bool × Vrfs) × State
  unfolding process_vrf_top_chain_rule delete_subnets drop_default lookup remove run_each
  delete_vrf vrf_name s st =
      let (ignored, st1) = process_vrf_top_chain_rule h false vrf_name st in
      let ((deleted, s2), st2) = delete_subnets (keys_of vrf_name s.vrf_sub_net_map) s st1 in
      let ((goes_on, s3), st3) =
        drop_default vrf_name (with_ids (remove vrf_name s2.vrf_name_to_id) s2) st2 in
      let st4 = run_each h (vrf_chain_commands vrf_name ("-F" ∷ "-X" ∷ []) ip_tables) st3 in
      let (gone, st5) = run_command ("/sbin/ip" ∷ "netns" ∷ "delete" ∷ vrf_name ∷ []) st4 in
      if not deleted then ((false, s2), st2) else elim (lookup vrf_name s2.vrf_name_to_id) [
        | none ↦ ((false, s2), st2)
        | some id ↦ if not goes_on then ((false, s3), st3) else ((gone, s3), st5)
      ]

  -- The first VRF links the default one; the exception of a call ends this part.
  unfoldable pub link_default : String → Vrfs → State → Vrfs × State
  unfolding put
  link_default vrf_name s st =
      let (linked, st1) = h.symlink "/proc/1/ns/net" default_netns st in
      let s1 = with_ids (put "default" 0 s.vrf_name_to_id) s in
      if not (nat_eq (length s.vrf_name_to_id) 1)
      then (s, (h.makedirs (netns_folder vrf_name) st).1)
      else if linked
      then (s1, (h.makedirs (netns_folder vrf_name) st1).1)
      else (s, st1)

  -- the limits that are set in the namespace
  abbrev pub igmp_commands : String → Option String × Option String → List (List String)
  igmp_commands vrf_name limits =
      elim limits.0 [
        | none ↦ []
        | some n ↦
            netns vrf_name ("sysctl" ∷ "-w" ∷ Text.◌++◌ "net.ipv4.igmp_max_memberships=" n ∷ [])
            ∷ []
      ]
      ++ (elim limits.1 [
        | none ↦ []
        | some n ↦ netns vrf_name ("sysctl" ∷ "-w" ∷ Text.◌++◌ "net.ipv4.igmp_max_msf=" n ∷ []) ∷ []
      ])

  -- The commands inside a new namespace. Those for the addresses of lo may fail.
  unfoldable pub fill_namespace : String → State → Bool × State
  unfolding run_all run_each process_vrf_top_chain_rule
  fill_namespace vrf_name st =
      let (ok, st1) =
        run_all h
          (netns vrf_name ("sysctl" ∷ "-w" ∷ "net.ipv6.conf.all.forwarding=1" ∷ [])
            ∷ (igmp_commands vrf_name (h.igmp_limits st)
                ++ (netns vrf_name ("ip" ∷ "link" ∷ "set" ∷ "lo" ∷ "up" ∷ []) ∷ [])))
          st in
      let st2 =
        run_each h
          (("ifconfig" ∷ "lo" ∷ "127.0.0.1/16" ∷ [])
            ∷ netns vrf_name ("ifconfig" ∷ "lo" ∷ "127.0.0.1/16" ∷ [])
            ∷ [])
          st1 in
      let (chained, st3) = run_all h (vrf_chain_commands vrf_name ("-N" ∷ []) ip_tables) st2 in
      let topped = process_vrf_top_chain_rule h true vrf_name st3 in
      if not ok then (false, st1) else if not chained then (false, st3) else topped

  unfoldable pub add_vrf : String → ℕ → Vrfs → State → (Bool × Vrfs) × State
  unfolding run_all put link_default fill_namespace
  add_vrf vrf_name vrf_id s st =
      let (added, st1) =
        run_all h
          (("/sbin/ip" ∷ "netns" ∷ "add" ∷ vrf_name ∷ [])
            ∷ ("/sbin/ip" ∷ "netns" ∷ "set" ∷ vrf_name ∷ h.str vrf_id ∷ [])
            ∷ [])
          st in
      let (s2, st2) =
        link_default vrf_name (with_ids (put vrf_name vrf_id s.vrf_name_to_id) s) st1 in
      let (filled, st3) = fill_namespace vrf_name st2 in
      if added then ((filled, s2), st3) else ((false, s), st1)

  unfoldable pub process_vrf_config : Bool → String → ℕ → Vrfs → State → (Bool × Vrfs) × State
  unfolding delete_vrf add_vrf
  process_vrf_config is_add vrf_name vrf_id s st =
      if is_add then add_vrf vrf_name vrf_id s st else delete_vrf vrf_name s st
