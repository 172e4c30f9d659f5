-- ===== src/VrfTool/Subnets.antt =====
-- `ip_svcs_subnet_setup` and `_veth_ip_get` of scripts/lib/python/dn_base_vrf_tool.py: the subnet of the
-- veth pair between two VRFs.
pub mod Laws
pub mod Setup
pub mod BothEnds
use opx_nas_linux.Prelude.{
  ℕ, String, Bool, true, false, Option, none, some, List, [], ◌∷◌, ◌==◌, ◌&&◌, ◌||◌, not, lookup,
  put, remove, eq_string, if◌then◌else◌,
}
use opx_nas_linux.PrivatePorts.{first_free}
use opx_nas_linux.SnoopCache.Sets.{eq_pair}
use opx_nas_linux.VrfTool.{Host, Vrfs, veth_name}
use opx_nas_linux.VrfTool.Veth.{Ends, process_veth_config}
use opx_nas_linux.VrfTool.Nat.{ip_of, ip6_of, ends_of, setup_rules, set_nat, unset_nat}

abbrev pub start_vrf_sub_net_val : ℕ
start_vrf_sub_net_val = 100

-- `_vrf_sub_net_map.values()`
abbrev pub sub_net_vals : {K : Type 0} → List (K × ℕ) → List ℕ
sub_net_vals [] = []
sub_net_vals ((key, val) ∷ m) = val ∷ sub_net_vals m

abbrev pub with_sub_net_map : List ((String × String) × ℕ) → Vrfs → Vrfs
with_sub_net_map m s = record s { vrf_sub_net_map = m }

-- What a call returns, with what it leaves.
abbrev pub Reply : Type 0 → Type 0 → Type 0
Reply A State = (A × Vrfs) × State

-- The rules of source NAT are those from another VRF to the default one.
abbrev pub needs_nat : (src_vrf_name dst_vrf_name : String) → Bool
needs_nat src_vrf_name dst_vrf_name =
    not (not (src_vrf_name == "default") && not (dst_vrf_name == "default"))
    && not (src_vrf_name == "default")

-- The sets of the programs and of the protocols are lists in the order of the sets.
module _ (h : Host) (ip_tables ip_proto : List String) where
  open h use {State}

  -- A loop over `_vrf_src_ip_map`: the addresses whose key names the VRF are put on the interface.
  unfoldable pub add_src_ips :
      (vrf_name : String) → Option ℕ → List ((String × (String × String)) × ℕ) → State → State
  add_src_ips vrf_name vrf_id [] st = st
  add_src_ips vrf_name none (key ∷ keys) st = add_src_ips vrf_name none keys st
  add_src_ips vrf_name (some vrf_id) (((vrf, (af, ip)), val) ∷ keys) st =
      let st1 = h.add_ip_addr ip (veth_name h vrf_id) af vrf st in
      add_src_ips vrf_name (some vrf_id) keys
        (if vrf == vrf_name || (af == vrf_name || ip == vrf_name) then st1 else st)

  -- The deletion, after the rules of the addresses.
  unfoldable pub delete_subnet :
      (src_vrf_name dst_vrf_name : String) → Vrfs → State → Reply (Bool × Option ℕ) State
  unfolding lookup remove process_veth_config unset_nat
  delete_subnet src_vrf_name dst_vrf_name s st =
      let key : String × String = (src_vrf_name, dst_vrf_name) in
      elim (lookup key s.vrf_sub_net_map) [
        | none ↦ (((false, none), s), st)
        | some sub_net_val ↦
            let (done, st1) = process_veth_config h src_vrf_name dst_vrf_name none s st in
            let s1 = with_sub_net_map (remove key s.vrf_sub_net_map) s in
            let (unset, st2) = unset_nat h src_vrf_name ip_tables ip_proto sub_net_val st1 in
            if not done
            then (((false, some sub_net_val), s), st1)
            else if needs_nat src_vrf_name dst_vrf_name
            then (((unset, some sub_net_val), s1), st2)
            else (((true, some sub_net_val), s1), st1)
      ]

  -- The veth pair of a subnet that has been taken, with its addresses and rules.
  unfoldable pub make_subnet :
      (src_vrf_name dst_vrf_name : String) → ℕ → Vrfs → State → Bool × State
  unfolding lookup process_veth_config add_src_ips set_nat
  make_subnet src_vrf_name dst_vrf_name sub_net_val s st =
      let (done, st1) =
        process_veth_config h src_vrf_name dst_vrf_name (some (ends_of h sub_net_val)) s st in
      let st2 =
        add_src_ips src_vrf_name (lookup dst_vrf_name s.vrf_name_to_id) s.vrf_src_ip_map st1 in
      let st3 =
        add_src_ips dst_vrf_name (lookup src_vrf_name s.vrf_name_to_id) s.vrf_src_ip_map st2 in
      let set = set_nat h src_vrf_name ip_tables ip_proto sub_net_val st3 in
      if not done
      then (false, st1)
      else if needs_nat src_vrf_name dst_vrf_name
      then set
      else (true, st3)

  -- The addition, after the rules of the addresses. The subnet stays taken when something fails.
  unfoldable pub add_subnet :
      (src_vrf_name dst_vrf_name : String) → Vrfs → State → Reply (Bool × Option ℕ) State
  unfolding lookup put first_free make_subnet
  add_subnet src_vrf_name dst_vrf_name s st =
      let key : String × String = (src_vrf_name, dst_vrf_name) in
      elim (lookup key s.vrf_sub_net_map) [
        | some sub_net_val ↦ (((true, some sub_net_val), s), st)
        | none ↦ elim (first_free 100 start_vrf_sub_net_val (sub_net_vals s.vrf_sub_net_map)) [
          | none ↦ (((false, none), s), st)
          | some sub_net_val ↦
              let s1 = with_sub_net_map (put key sub_net_val s.vrf_sub_net_map) s in
              let (done, st1) = make_subnet src_vrf_name dst_vrf_name sub_net_val s1 st in
              (((done, some sub_net_val), s1), st1)
        ]
      ]

  unfoldable pub ip_svcs_subnet_setup :
      Bool → (src_vrf_name dst_vrf_name : String) → Vrfs → State → Reply (Bool × Option ℕ) State
  unfolding lookup setup_rules delete_subnet add_subnet
  ip_svcs_subnet_setup is_add src_vrf_name dst_vrf_name s st =
      elim (lookup src_vrf_name s.vrf_name_to_id) [
        | none ↦ (((false, none), s), st)
        | some vrf_id ↦
            let (s1, st1) = setup_rules h is_add src_vrf_name dst_vrf_name s st in
            if is_add
            then add_subnet src_vrf_name dst_vrf_name s1 st1
            else delete_subnet src_vrf_name dst_vrf_name s1 st1
      ]

  -- the end of a pair, by whether it is the one with the suffix of the source
  abbrev pub ip_pair : Bool → ℕ → String × String
  ip_pair is_src sub_net_val =
      if is_src
      then (ip_of h sub_net_val ".100.1", ip6_of h sub_net_val "::1")
      else (ip_of h sub_net_val ".100.2", ip6_of h sub_net_val "::2")

  -- `none` in the answer is a return of False.
  unfoldable pub veth_ip_get :
      (src_vrf_name dst_vrf_name : String)
      → Bool
      → Vrfs
      → State
      → Reply (Option (String × String)) State
  unfolding lookup ip_svcs_subnet_setup
  veth_ip_get src_vrf_name dst_vrf_name is_peer_ip s st =
      let ((made, s1), st1) = ip_svcs_subnet_setup true src_vrf_name dst_vrf_name s st in
      if src_vrf_name == "default" && dst_vrf_name == "default"
      then ((none, s), st)
      else elim (lookup (src_vrf_name, dst_vrf_name) s.vrf_sub_net_map) [
        | some sub_net_val ↦ ((some (ip_pair (not is_peer_ip) sub_net_val), s), st)
        | none ↦ elim (lookup (dst_vrf_name, src_vrf_name) s.vrf_sub_net_map) [
          | some sub_net_val ↦ ((some (ip_pair is_peer_ip sub_net_val), s), st)
          | none ↦ elim made.1 [
            | none ↦ ((none, s1), st1)
            | some sub_net_val ↦
                ((if made.0 then some (ip_pair (not is_peer_ip) sub_net_val) else none, s1), st1)
          ]
        ]
      ]

  unfoldable pub get_veth_ip_subnet : (src_vrf_name dst_vrf_name : String) → Vrfs → Option ℕ
  unfolding lookup
  get_veth_ip_subnet src_vrf_name dst_vrf_name s =
      elim (lookup (src_vrf_name, dst_vrf_name) s.vrf_sub_net_map) [
        | some sub_net_val ↦ some sub_net_val
        | none ↦ lookup (dst_vrf_name, src_vrf_name) s.vrf_sub_net_map
      ]

  unfoldable pub get_vrf_intf_to_dst_vrf :
      (src_vrf_name dst_vrf_name : String) → Vrfs → Option String
  unfolding get_veth_ip_subnet lookup
  get_vrf_intf_to_dst_vrf src_vrf_name dst_vrf_name s =
      elim (get_veth_ip_subnet src_vrf_name dst_vrf_name s) [
        | none ↦ none
        | some sub_net_val ↦ elim (lookup dst_vrf_name s.vrf_name_to_id) [
          | none ↦ none
          | some vrf_id ↦ some (veth_name h vrf_id)
        ]
      ]
