-- ===== src/PrivatePorts/Undo.antt =====
-- The removal of an alias undoes its addition.
use opx_nas_linux.Prelude.{
  ℕ, true, false, Option, none, some, ◌≡◌, refl, sym, ◌∙◌, ap, arith, inl, inr, Bool-cases,
  Option-cases, lookup, lookup-remove, ◌==◌, if◌then◌else◌, eq_option,
}
use opx_nas_linux.Rule.{Ip}
use opx_nas_linux.PrivatePorts.{
  Alias, PortMap, eq_alias, alias_same_iff, add_port, pop_port,
  process_outgoing_ip_svcs_sub_net_config,
}
use opx_nas_linux.PrivatePorts.Unique.{add_port_lem, refused-same}

-- Only an alias that has no port is given one.
add_port-absent :
    (alias : Alias) (m : PortMap) {port : ℕ}
    → (add_port alias m).0 ≡ some port
    → lookup alias m ≡ none
unfolding add_port
add_port-absent alias m h = elim (Option-cases (lookup alias m)) [
  | inl absent ↦ absent
  | inr (dup, at) ↦ ground (arith, (rw (at, add_port) at h))
]

pub add-none :
    (ip : Option Ip) (alias : Alias) (m : PortMap)
    → (process_outgoing_ip_svcs_sub_net_config true ip alias m).0 ≡ none
    → (process_outgoing_ip_svcs_sub_net_config true ip alias m).1 ≡ m
unfolding process_outgoing_ip_svcs_sub_net_config
add-none none alias m h = refl
add-none (some ip) alias m h = elim (Option-cases (add_port alias m).0) [
  | inl refused ↦ refused-same alias m refused
  | inr (port, given) ↦ ground (arith, (rw (given, process_outgoing_ip_svcs_sub_net_config) at h))
]

-- Where `process_outgoing_ip_svcs_sub_net_config` gives an alias a port, the same call for a removal
-- gives back the map that was there before.
pub add-remove :
    (ip : Option Ip) (alias : Alias) (m : PortMap) {given : Ip × ℕ}
    → (process_outgoing_ip_svcs_sub_net_config true ip alias m).0 ≡ some given
    → (b : Alias)
    → lookup b
        (process_outgoing_ip_svcs_sub_net_config false ip alias
          (process_outgoing_ip_svcs_sub_net_config true ip alias m).1).1
      ≡ lookup b m
unfolding process_outgoing_ip_svcs_sub_net_config pop_port
add-remove none alias m h b = ground arith
add-remove (some ip) alias m h b = elim (Option-cases (add_port alias m).0) [
  | inl refused ↦ ground (arith, (rw (refused, process_outgoing_ip_svcs_sub_net_config) at h))
  | inr (port, given) ↦
      let absent = add_port-absent alias m given in
      let added = (add_port_lem alias m given).3 b in
      lookup-remove alias b (add_port alias m).1 ∙ (elim (Bool-cases (alias == b)) [
        | inl same ↦ rw same (sym absent ∙ ap (λ a. lookup a m) ((alias_same_iff alias b).0 same))
        | inr other ↦ rw other (rw other at added)
      ])
]

-- Where `process_outgoing_ip_svcs_sub_net_config` gives an alias a port, the alias had none before and
-- has that one after.
pub add-given :
    (ip : Option Ip) (alias : Alias) (m : PortMap) {private_ip : Ip} {port : ℕ}
    → (process_outgoing_ip_svcs_sub_net_config true ip alias m).0 ≡ some (private_ip, port)
    → (lookup alias m ≡ none)
      × ((b : Alias)
          → lookup b (process_outgoing_ip_svcs_sub_net_config true ip alias m).1
            ≡ (if alias == b then some port else lookup b m))
unfolding process_outgoing_ip_svcs_sub_net_config
add-given none alias m h = ground (arith, h)
add-given (some ip) alias m {private_ip} {port} h = elim (Option-cases (add_port alias m).0) [
  | inl refused ↦ ground (arith, (rw (refused, process_outgoing_ip_svcs_sub_net_config) at h))
  | inr (x, given) ↦
      let e : some (ip, x) ≡ some (private_ip, port) =
        rw (given, process_outgoing_ip_svcs_sub_net_config) at h in
      let same : x ≡ port = ground (arith, e) in
      (
        add_port-absent alias m given,
        λ b.
            (add_port_lem alias m given).3 b
            ∙ ap (λ p. if alias == b then some p else lookup b m) same,
      )
]
