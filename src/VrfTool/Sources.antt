-- ===== src/VrfTool/Sources.antt =====
-- `process_src_ip_config` and `process_leaked_rt_config` of scripts/lib/python/dn_base_vrf_tool.py: the
-- source addresses of packets from leaked routes, and the routes.
pub mod Laws
use Prim.Native.String as Text
use opx_nas_linux.Prelude.{
  ℕ, String, Bool, true, false, Option, none, some, List, [], ◌∷◌, ◌==◌, ◌||◌, lookup, put, remove,
  eq_string, if◌then◌else◌,
}
use opx_nas_linux.SnoopCache.Sets.{eq_pair}
use opx_nas_linux.Rule.{Af}
use opx_nas_linux.VrfTool.{Host, Vrfs, netns, run_all, veth_name}
use opx_nas_linux.VrfTool.Veth.{slash}
use opx_nas_linux.VrfTool.Namespaces.{has_vrf}

-- '*'+vrf+'*'+str(af)+'*'+ip_addr+'*', of the address with its length
abbrev pub src_ip_key : (vrf af ip : String) → String × (String × String)
src_ip_key vrf af ip = (vrf, (af, slash ip (if af == "ipv6" then "128" else "32")))

-- the other VRF of a veth pair
abbrev pub other_vrf : String → String × String → String
other_vrf vrf key = if key.1 == vrf then key.0 else key.1

abbrev pub with_src_ips : List ((String × (String × String)) × ℕ) → Vrfs → Vrfs
with_src_ips ips s = record s { vrf_src_ip_map = ips }

module _ (h : Host) where
  open h use {State}

  abbrev pub change_ip_addr : Bool → (ip_addr if_name af vrf : String) → State → State
  change_ip_addr is_add ip_addr if_name af vrf st =
      if is_add
      then h.add_ip_addr ip_addr if_name af vrf st
      else h.del_ip_addr ip_addr if_name vrf st

  -- The loop over the veth interfaces of the VRF.
  unfoldable pub change_src_ips :
      Bool
      → (vrf af ip_addr : String) → List (String × ℕ)
      → List ((String × String) × ℕ)
      → State
      → State
  unfolding lookup
  change_src_ips is_add vrf af ip_addr ids [] st = st
  change_src_ips is_add vrf af ip_addr ids ((key, val) ∷ keys) st =
      let st1 : State = elim (lookup (other_vrf vrf key) ids) [
        | none ↦ st
        | some vrf_id ↦ change_ip_addr is_add ip_addr (veth_name h vrf_id) af vrf st
      ] in
      change_src_ips is_add vrf af ip_addr ids keys (if has_vrf vrf key then st1 else st)

  unfoldable pub process_src_ip_config :
      (vrf : String) → Bool → (af ip : String) → Vrfs → State → (Bool × Vrfs) × State
  unfolding lookup put remove change_src_ips
  process_src_ip_config vrf is_add af ip s st =
      let key = src_ip_key vrf af ip in
      let st1 = change_src_ips is_add vrf af key.1.1 s.vrf_name_to_id s.vrf_sub_net_map st in
      let added = with_src_ips (put key 1 s.vrf_src_ip_map) s in
      let removed = with_src_ips (remove key s.vrf_src_ip_map) s in
      elim (lookup key s.vrf_src_ip_map) [
        | none ↦ if is_add then ((true, added), st1) else ((true, s), st)
        | some val ↦ if is_add then ((true, s), st) else ((true, removed), st1)
      ]

  -- The route, and a rule that makes up for the hop through the veth pair.
  unfoldable pub process_leaked_rt_config :
      (op : String)
      → Af
      → (dst_vrf_name prefix : String) → ℕ
      → (nexthop_ip : String) → State
      → Bool × State
  unfolding run_all
  process_leaked_rt_config op af dst_vrf_name prefix prefix_len nexthop_ip st =
      let tbl_op = if op == "del" then "-D" else "-A" in
      let net = slash prefix (h.str prefix_len) in
      let hop : String → List String → List String = λ iptable target.
        netns dst_vrf_name
          (iptable ∷ "-t" ∷ "mangle" ∷ tbl_op ∷ "POSTROUTING" ∷ "-d" ∷ net ∷ "-j" ∷ target) in
      run_all h
        (netns dst_vrf_name ("ip" ∷ "route" ∷ op ∷ net ∷ "via" ∷ nexthop_ip ∷ [])
          ∷ elim af [
            | Af.inet ↦ hop "iptables" ("TTL" ∷ "--ttl-inc" ∷ "1" ∷ [])
            | Af.inet6 ↦ hop "ip6tables" ("HL" ∷ "--hl-inc" ∷ "1" ∷ [])
          ]
          ∷ [])
        st
