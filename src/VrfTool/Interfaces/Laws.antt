-- ===== src/VrfTool/Interfaces/Laws.antt =====
-- The interface that `process_vrf_intf_config` answers with.
use mathlib.Core.Option.{some-injective}
use mathlib.Core.Path.{subst}
use opx_nas_linux.Prelude.{
  ℕ, String, Bool, true, false, Option, some, List, ◌≡◌, refl, ap, ◌∙◌, arith, ◌==◌, ◌||◌,
  eq_string, Bool-cases, Option-cases, inl, inr, if◌then◌else◌,
}
use opx_nas_linux.Rule.Incoming.{is_some}
use opx_nas_linux.VrfTool.{Host, Vrfs, run_all}
use opx_nas_linux.VrfTool.Shown.{shown_index}
use opx_nas_linux.VrfTool.Interfaces.{
  Macs, IntfReply, mac_for, mgmt_commands, show_link, macvlan_commands, up_commands, router_name,
  unbind_router, unbind_mgmt, bind_intf, unbind_intf, bind_default, finish_binding, bind_shown,
  bind_mgmt, bind_intf, unbind_intf, bind_router, process_vrf_intf_config,
}

-- the interface in the VRF that stands for `if_name`
abbrev pub name_in : (vrf_name if_name : String) → String
name_in vrf_name if_name =
    if vrf_name == "default" || vrf_name == "management" then if_name else router_name if_name

-- An answer that is True has the name, and a MAC address exactly when an interface is bound.
pub record IsAnswer (name : String) (is_add : Bool) (reply : IntfReply) : Type 0 where
  pub named : reply.if_name ≡ name
  pub with_mac : is_some reply.v_mac_str ≡ is_add

abbrev Sound : String → Bool → Option IntfReply → Type 0
Sound name is_add answer =
    (reply : IntfReply) → answer ≡ some reply → reply.ok ≡ true → IsAnswer name is_add reply

module _ (h : Host) where
  open h use {State}

  unbind_router-IsAnswer :
      (if_name vrf_name : String) (s : Vrfs) (st : State)
      → (unbind_router h if_name vrf_name s st).0.ok ≡ true
      → IsAnswer (router_name if_name) false (unbind_router h if_name vrf_name s st).0
  unfolding unbind_router is_some
  unbind_router-IsAnswer if_name vrf_name s st ok = record {
    named = ground (arith, ok);
    with_mac = ground (arith, ok);
  }

  unbind_mgmt-IsAnswer :
      (if_name vrf_name : String) (s : Vrfs) (st : State)
      → (unbind_mgmt h if_name vrf_name s st).0.ok ≡ true
      → IsAnswer if_name false (unbind_mgmt h if_name vrf_name s st).0
  unfolding unbind_mgmt is_some
  unbind_mgmt-IsAnswer if_name vrf_name s st ok = record {
    named = ground (arith, ok);
    with_mac = ground (arith, ok);
  }

  finish_binding-IsAnswer :
      (vrf_name if_name mac : String) (if_index : ℕ) (s : Vrfs) (st : State)
      → IsAnswer if_name true (finish_binding h vrf_name if_name mac if_index s st).0
  unfolding finish_binding is_some
  finish_binding-IsAnswer vrf_name if_name mac if_index s st = record {
    named = ground arith;
    with_mac = ground arith;
  }

  bind_shown-IsAnswer :
      (cmds : List (List String)) (vrf_name if_name mac : String) (s : Vrfs) (st : State)
      → Sound if_name true (bind_shown h cmds vrf_name if_name mac s st).0
  unfolding bind_shown is_some
  bind_shown-IsAnswer cmds vrf_name if_name mac s st reply same ok =
      let (done, st1) = run_all h cmds st in
      elim (Bool-cases (run_all h cmds st).0) [
        | inr failed ↦ record {
          named = ground (arith, same, failed, ok);
          with_mac = ground (arith, same, failed, ok);
        }
        | inl run ↦ elim (Option-cases (shown_index (h.response (run_all h cmds st).1))) [
          | inl raised ↦ record {
            named = ground (arith, same, run, raised);
            with_mac = ground (arith, same, run, raised);
          }
          | inr (if_index, at) ↦
              subst (IsAnswer if_name true) (ground (arith, same, run, at))
                (finish_binding-IsAnswer vrf_name if_name mac if_index s (run_all h cmds st).1)
        ]
      ]

  bind_default-IsAnswer :
      (if_name : String) (st : State) → Sound if_name true (bind_default h if_name st).0
  unfolding bind_default is_some
  bind_default-IsAnswer if_name st reply same ok = record {
    named = ground (arith, same, ok);
    with_mac = ground (arith, same, ok);
  }

  bind_router-IsAnswer :
      (if_name vrf_name mac : String) (s : Vrfs) (st : State)
      → Sound (router_name if_name) true (bind_router h if_name vrf_name mac s st).0
  unfolding bind_router is_some
  bind_router-IsAnswer if_name vrf_name mac s st reply same ok =
      let shown = h.run_command (show_link if_name) st in
      let made = run_all h (macvlan_commands if_name vrf_name mac) shown.1 in
      elim (Bool-cases shown.0) [
        | inr failed ↦ record {
          named = ground (arith, same, failed, ok);
          with_mac = ground (arith, same, failed, ok);
        }
        | inl seen ↦ elim (Bool-cases made.0) [
          | inr failed ↦ record {
            named = ground (arith, same, seen, failed, ok);
            with_mac = ground (arith, same, seen, failed, ok);
          }
          | inl done ↦
              bind_shown-IsAnswer (up_commands if_name vrf_name (h.response shown.1)) vrf_name
                (router_name if_name) mac s made.1 reply (rw (seen, done, bind_router) at same) ok
        ]
      ]

  bind_intf-IsAnswer :
      (if_name vrf_name mac : String) (s : Vrfs) (st : State)
      → Sound (name_in vrf_name if_name) true (bind_intf h if_name vrf_name mac s st).0
  unfolding bind_intf
  bind_intf-IsAnswer if_name vrf_name mac s st reply same ok =
      elim (Bool-cases (vrf_name == "default")) [
        | inl d ↦ rw d (bind_default-IsAnswer if_name st reply (rw (d, bind_intf) at same) ok)
        | inr nd ↦ elim (Bool-cases (vrf_name == "management")) [
          | inl m ↦
              rw (nd, m)
                (bind_shown-IsAnswer (mgmt_commands if_name vrf_name) vrf_name if_name mac s st
                  reply (rw (nd, m, bind_intf, bind_mgmt) at same) ok)
          | inr nm ↦
              rw (nd, nm)
                (bind_router-IsAnswer if_name vrf_name mac s st reply
                  (rw (nd, nm, bind_intf) at same) ok)
        ]
      ]

  unbind_intf-IsAnswer :
      (if_name vrf_name : String) (s : Vrfs) (st : State)
      → (unbind_intf h if_name vrf_name s st).0.ok ≡ true
      → IsAnswer (name_in vrf_name if_name) false (unbind_intf h if_name vrf_name s st).0
  unfolding unbind_intf is_some
  unbind_intf-IsAnswer if_name vrf_name s st ok = elim (Bool-cases (vrf_name == "default")) [
    | inl d ↦ rw (d, unbind_intf) (record { named = refl; with_mac = refl })
    | inr nd ↦ elim (Bool-cases (vrf_name == "management")) [
      | inl m ↦
          rw (nd, m, unbind_intf)
            (unbind_mgmt-IsAnswer if_name vrf_name s st (rw (nd, m, unbind_intf) at ok))
      | inr nm ↦
          rw (nd, nm, unbind_intf)
            (unbind_router-IsAnswer if_name vrf_name s st (rw (nd, nm, unbind_intf) at ok))
    ]
  ]

  -- An answer that is True names the interface that stands for `if_name` in the VRF, and has a MAC address
  -- exactly when the interface is bound.
  pub process_vrf_intf_config_lem :
      (ma : Macs) (is_add : Bool) (if_name vrf_name if_type : String) (s : Vrfs) (st : State)
      (reply : IntfReply)
      → (process_vrf_intf_config h ma is_add if_name vrf_name if_type s st).0 ≡ some reply
      → reply.ok ≡ true
      → IsAnswer (name_in vrf_name if_name) is_add reply
  unfolding process_vrf_intf_config
  process_vrf_intf_config_lem ma true if_name vrf_name if_type s st reply same ok =
      bind_intf-IsAnswer if_name vrf_name (mac_for ma vrf_name if_type) s st reply same ok
  process_vrf_intf_config_lem ma false if_name vrf_name if_type s st reply same ok =
      let answer = some-injective _ reply same in
      subst (IsAnswer (name_in vrf_name if_name) false) answer
        (unbind_intf-IsAnswer if_name vrf_name s st (ap IntfReply.ok answer ∙ ok))
