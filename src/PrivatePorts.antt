-- ===== src/PrivatePorts.antt =====
-- The private ports of outgoing services: `process_outgoing_ip_svcs_sub_net_config` of
-- scripts/lib/python/dn_base_vrf_tool.py.
pub mod Unique
pub mod Undo
use opx_nas_linux.Prelude.{
  ℕ, zero, suc, ◌+◌, String, Bool, true, false, Option, none, some, List, [], ◌∷◌, ◌≡◌, ◌↔◌, refl,
  arith, HasEq, ◌==◌, ◌&&◌, if◌then◌else◌, lookup, put, remove, map, eq_nat, eq_string, eq_option,
}
use opx_nas_linux.IdGenerator.{contains}
use opx_nas_linux.Rule.{Af, Proto, Ip, eq_af, eq_proto, eq_ip}

-- (vrf_name, af, public_ip, protocol, public_port)
pub record Alias : Type 0 where
  pub vrf_name : String
  pub af : Af
  pub public_ip : Option Ip
  pub protocol : Option Proto
  pub public_port : Option ℕ

abbrev pub alias_same : Alias → Alias → Bool
alias_same a b =
    (a.vrf_name == b.vrf_name)
    && ((a.af == b.af)
        && ((a.public_ip == b.public_ip)
            && ((a.protocol == b.protocol) && (a.public_port == b.public_port))))

pub alias_same_iff : (a b : Alias) → (alias_same a b ≡ true) ↔ (a ≡ b)
alias_same_iff a b = ground (
  arith,
  eq_string.same_iff a.vrf_name b.vrf_name,
  eq_af.same_iff a.af b.af,
  (eq_option {A = Ip}).same_iff a.public_ip b.public_ip,
  (eq_option {A = Proto}).same_iff a.protocol b.protocol,
  (eq_option {A = ℕ}).same_iff a.public_port b.public_port,
)

instance abbrev pub eq_alias : HasEq Alias
eq_alias = record { same = alias_same; same_iff = alias_same_iff }

-- `_outgoing_ip_svcs_map`
abbrev pub PortMap : Type 0
PortMap = List (Alias × ℕ)

abbrev pub start_private_port : ℕ
start_private_port = 62000

abbrev pub end_private_port : ℕ
end_private_port = 65000

-- `_outgoing_ip_svcs_map.values()`
abbrev pub values : PortMap → List ℕ
values [] = []
values ((alias, port) ∷ m) = port ∷ values m

-- the loop over `range(port, port + n)`, up to the first port that no alias has
unfoldable pub first_free : ℕ → ℕ → List ℕ → Option ℕ
unfolding contains
first_free zero port used = none
first_free (suc n) port used =
    let rest = first_free n (port + 1) used in if contains port used then rest else some port

-- the branch of `is_add`; `none` is a return of False
unfoldable pub add_port : Alias → PortMap → Option ℕ × PortMap
unfolding first_free
add_port alias m = elim (lookup alias m) [
  | some dup ↦ (none, m)
  | none ↦ elim (first_free 3000 start_private_port (values m)) [
    | none ↦ (none, m)
    | some port ↦ (some port, put alias port m)
  ]
]

-- the other branch: `pop`
unfoldable pub pop_port : Alias → PortMap → Option ℕ × PortMap
pop_port alias m = (lookup alias m, remove alias m)

-- `process_outgoing_ip_svcs_sub_net_config`, given the address that `_veth_ip_get` finds for the VRF;
-- `none` is (False, None, 0).
unfoldable pub process_outgoing_ip_svcs_sub_net_config :
    Bool → Option Ip → Alias → PortMap → Option (Ip × ℕ) × PortMap
unfolding add_port pop_port
process_outgoing_ip_svcs_sub_net_config is_add none alias m = (none, m)
process_outgoing_ip_svcs_sub_net_config is_add (some private_ip) alias m =
    let (port, m') = if is_add then add_port alias m else pop_port alias m in
    (elim port [ none ↦ none | some private_port ↦ some (private_ip, private_port) ], m')
