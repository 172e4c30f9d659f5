-- ===== src/VrfTool/Interfaces.antt =====
-- `process_vrf_intf_config` of scripts/lib/python/dn_base_vrf_tool.py: an interface is bound to a VRF or
-- taken out of it.
pub mod Laws
use Prim.Native.String as Text
use opx_nas_linux.Prelude.{
  ℕ, String, Bool, true, false, Option, none, some, List, [], ◌∷◌, ◌++◌, ◌==◌, not, eq_string,
  if◌then◌else◌,
}
use opx_nas_linux.VrfTool.{Host, Vrfs, netns, run_all}
use opx_nas_linux.VrfTool.Veth.{localnet, process_vrf_ip_nat_config}
use opx_nas_linux.VrfTool.Shown.{shown_index, shown_mac, shown_up, is_loopback}

-- The calls of the MAC address library `ma`, by the part of the answer that is used. Each is taken to answer
-- with an address; an exception, which would end the call before any command, is not modelled.
pub record Macs : Type 0 where
  -- ma.get_offset_mac_addr(ma.get_base_mac_addr(), 0)
  pub management : String
  -- ma.get_offset_mac_addr of ma.if_get_mac_addr('virtual-network') and 1
  pub virtual_network : String
  -- ma.get_appl_mac_addr('vrf', 'routing')
  pub routing : String

-- the answer: whether it went well, the name, the index and the MAC address of the interface
pub record IntfReply : Type 0 where
  pub ok : Bool
  pub if_name : String
  pub if_index : ℕ
  pub v_mac_str : Option String

abbrev pub router_name : String → String
router_name if_name = Text.◌++◌ "v-" if_name

abbrev pub disable_ipv6 : (if_name value : String) → List String
disable_ipv6 if_name value =
    "sysctl"
    ∷ "-w"
    ∷ Text.◌++◌ "net.ipv6.conf." (Text.◌++◌ if_name (Text.◌++◌ ".disable_ipv6=" value))
    ∷ []

abbrev pub no_localnet : String → String
no_localnet if_name = Text.◌++◌ "net.ipv4.conf." (Text.◌++◌ if_name ".route_localnet=0")

abbrev pub show_link : String → List String
show_link if_name = "/sbin/ip" ∷ "link" ∷ "show" ∷ "dev" ∷ if_name ∷ []

-- `ip -n` on a link of the VRF
abbrev pub link_in : (vrf_name : String) → List String → List String
link_in vrf_name cmd = "/sbin/ip" ∷ "-n" ∷ vrf_name ∷ "link" ∷ cmd

abbrev pub mac_for : Macs → (vrf_name if_type : String) → String
mac_for ma vrf_name if_type =
    if vrf_name == "management"
    then ma.management
    else if if_type == "base-if:virtualNetwork"
    then ma.virtual_network
    else ma.routing

-- The interface with a MAC address of its own on top of another one; one on a loopback has that of the kernel.
abbrev pub add_macvlan : (if_name v_mac_str : String) → List String
add_macvlan if_name v_mac_str =
    "/sbin/ip"
    ∷ "link"
    ∷ "add"
    ∷ "link"
    ∷ if_name
    ∷ router_name if_name
    ∷ ((if is_loopback if_name then [] else "address" ∷ v_mac_str ∷ [])
        ++ ("type" ∷ "macvlan" ∷ "mode" ∷ "bridge" ∷ []))

abbrev pub macvlan_commands : (if_name vrf_name mac : String) → List (List String)
macvlan_commands if_name vrf_name mac =
    add_macvlan if_name mac
    ∷ ("/sbin/ip" ∷ "link" ∷ "set" ∷ "dev" ∷ router_name if_name ∷ "netns" ∷ vrf_name ∷ [])
    ∷ disable_ipv6 if_name "1"
    ∷ []

-- The new interface is set up if the one below it is, by what was shown of that one.
abbrev pub up_commands : (if_name vrf_name : String) → List String → List (List String)
up_commands if_name vrf_name res =
    (if shown_up res
      then link_in vrf_name ("set" ∷ "dev" ∷ router_name if_name ∷ "up" ∷ []) ∷ []
      else [])
    ++ (link_in vrf_name ("show" ∷ "dev" ∷ router_name if_name ∷ []) ∷ [])

abbrev pub mgmt_commands : (if_name vrf_name : String) → List (List String)
mgmt_commands if_name vrf_name =
    ("/sbin/ip" ∷ "link" ∷ "set" ∷ "dev" ∷ if_name ∷ "netns" ∷ vrf_name ∷ [])
    ∷ link_in vrf_name ("show" ∷ "dev" ∷ if_name ∷ [])
    ∷ []

module _ (h : Host) where
  open h use {State, run_command, response}

  abbrev pub unmask : (vrf_name if_name : String) → Bool → Vrfs → State → State
  unmask vrf_name if_name is_add s st =
      let st1 = (process_vrf_ip_nat_config h is_add vrf_name if_name "iptables" s st).1 in
      (process_vrf_ip_nat_config h is_add vrf_name if_name "ip6tables" s st1).1

  unfoldable pub unbind_router : (if_name vrf_name : String) → Vrfs → State → IntfReply × State
  unfolding process_vrf_ip_nat_config
  unbind_router if_name vrf_name s st =
      let v_name = router_name if_name in
      let (enabled, st1) = run_command (disable_ipv6 if_name "0") st in
      let (deleted, st2) =
        run_command (netns vrf_name ("ip" ∷ "link" ∷ "delete" ∷ v_name ∷ [])) st1 in
      let answer : Bool → String → IntfReply =
        λ ok name. record { ok = ok; if_name = name; if_index = 0; v_mac_str = none } in
      if not enabled
      then (answer false if_name, st1)
      else if not deleted
      then (answer false v_name, st2)
      else (answer true v_name, unmask vrf_name v_name false s st2)

  unfoldable pub unbind_mgmt : (if_name vrf_name : String) → Vrfs → State → IntfReply × State
  unfolding process_vrf_ip_nat_config run_all
  unbind_mgmt if_name vrf_name s st =
      let (moved, st1) =
        run_all h
          (netns vrf_name ("ip" ∷ "link" ∷ "set" ∷ if_name ∷ "netns" ∷ "1" ∷ [])
            ∷ ("sysctl" ∷ "-w" ∷ no_localnet if_name ∷ [])
            ∷ [])
          st in
      let answer : IntfReply = record {
        ok = moved;
        if_name = if_name;
        if_index = 0;
        v_mac_str = none;
      } in
      if moved then (answer, unmask vrf_name if_name false s st1) else (answer, st1)

  -- In the default VRF the interface itself is meant. `none` is an exception.
  unfoldable pub bind_default : (if_name : String) → State → Option IntfReply × State
  unfolding shown_index shown_mac
  bind_default if_name st =
      let (shown, st1) = run_command (show_link if_name) st in
      let failed : IntfReply = record {
        ok = false;
        if_name = if_name;
        if_index = 0;
        v_mac_str = none;
      } in
      let answer : Option IntfReply = elim (shown_index (response st1)) [
        | none ↦ none
        | some if_index ↦ elim (shown_mac (response st1)) [
          | none ↦ none
          | some mac ↦
              some
                (record { ok = true; if_name = if_name; if_index = if_index; v_mac_str = some mac })
        ]
      ] in
      if shown then (answer, st1) else (some failed, st1)

  -- What both other kinds of VRF end with.
  unfoldable pub finish_binding :
      (vrf_name if_name mac : String) → ℕ → Vrfs → State → IntfReply × State
  unfolding process_vrf_ip_nat_config run_all
  finish_binding vrf_name if_name mac if_index s st =
      let (ok, st1) =
        run_all h
          (netns vrf_name ("sysctl" ∷ "-w" ∷ localnet if_name ∷ [])
            ∷ netns vrf_name (
                "iptables" ∷ "-I" ∷ "OUTPUT" ∷ "-o" ∷ if_name ∷ "-d" ∷ "loopback/8" ∷ "-j" ∷ "DROP"
                ∷ [])
            ∷ [])
          st in
      let answer : IntfReply = record {
        ok = ok;
        if_name = if_name;
        if_index = if_index;
        v_mac_str = some mac;
      } in
      if ok then (answer, unmask vrf_name if_name true s st1) else (answer, st1)

  -- Commands of which the last shows the link, and then the end of the binding.
  unfoldable pub bind_shown :
      List (List String) → (vrf_name if_name mac : String) → Vrfs → State → Option IntfReply × State
  unfolding shown_index run_all finish_binding
  bind_shown cmds vrf_name if_name mac s st =
      let (ok, st1) = run_all h cmds st in
      let failed : IntfReply = record {
        ok = false;
        if_name = if_name;
        if_index = 0;
        v_mac_str = some mac;
      } in
      if not ok then (some failed, st1) else elim (shown_index (response st1)) [
        | none ↦ (none, st1)
        | some if_index ↦
            let (answer, st2) = finish_binding vrf_name if_name mac if_index s st1 in
            (some answer, st2)
      ]

  unfoldable pub bind_mgmt :
      (if_name vrf_name mac : String) → Vrfs → State → Option IntfReply × State
  unfolding bind_shown
  bind_mgmt if_name vrf_name mac s st =
      bind_shown (mgmt_commands if_name vrf_name) vrf_name if_name mac s st

  unfoldable pub bind_router :
      (if_name vrf_name mac : String) → Vrfs → State → Option IntfReply × State
  unfolding shown_up run_all bind_shown
  bind_router if_name vrf_name mac s st =
      let v_name = router_name if_name in
      let (shown, st1) = run_command (show_link if_name) st in
      let (made, st2) = run_all h (macvlan_commands if_name vrf_name mac) st1 in
      let rest =
        bind_shown (up_commands if_name vrf_name (response st1)) vrf_name v_name mac s st2 in
      let failed : IntfReply = record {
        ok = false;
        if_name = if_name;
        if_index = 0;
        v_mac_str = some mac;
      } in
      if not shown then (some failed, st1) else if not made then (some failed, st2) else rest

  unfoldable pub bind_intf :
      (if_name vrf_name mac : String) → Vrfs → State → Option IntfReply × State
  unfolding bind_default bind_mgmt bind_router
  bind_intf if_name vrf_name mac s st =
      if vrf_name == "default"
      then bind_default if_name st
      else if vrf_name == "management"
      then bind_mgmt if_name vrf_name mac s st
      else bind_router if_name vrf_name mac s st

  unfoldable pub unbind_intf : (if_name vrf_name : String) → Vrfs → State → IntfReply × State
  unfolding unbind_router unbind_mgmt
  unbind_intf if_name vrf_name s st =
      let nothing : IntfReply = record {
        ok = true;
        if_name = if_name;
        if_index = 0;
        v_mac_str = none;
      } in
      if vrf_name == "default"
      then (nothing, st)
      else if vrf_name == "management"
      then unbind_mgmt if_name vrf_name s st
      else unbind_router if_name vrf_name s st

  unfoldable pub process_vrf_intf_config :
      Macs → Bool → (if_name vrf_name if_type : String) → Vrfs → State → Option IntfReply × State
  unfolding bind_intf unbind_intf
  process_vrf_intf_config ma is_add if_name vrf_name if_type s st =
      let (unbound, st1) = unbind_intf if_name vrf_name s st in
      if is_add
      then bind_intf if_name vrf_name (mac_for ma vrf_name if_type) s st
      else (some unbound, st1)
