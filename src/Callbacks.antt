-- ===== src/Callbacks.antt =====
-- The callbacks of scripts/bin/base_vrf.py for service rules: the checks of the input, and what they
-- have in common.
pub mod Incoming
pub mod Outgoing
pub mod Addresses
pub mod Reading
use Prim.Native.Nat.{◌*◌}
use opx_nas_linux.Prelude.{
  ℕ, zero, suc, ◌+◌, ◌-◌, String, Bool, true, false, Option, none, some, List, [], ◌∷◌, ltb, leb,
  nat_eq, ◌&&◌, ◌||◌, not, if◌then◌else◌, length,
}
use opx_nas_linux.Rule.{Af, Ip}
use opx_nas_linux.Rule.Incoming.{Net}

-- The value of `operation` in a request of CPS.
pub data Operation : Type 0 where
  create set delete other : Operation

-- The digits that binascii.unhexlify reads, by their codes.
unfoldable pub hex_value : ℕ → Option ℕ
hex_value c =
    if leb b'0' c && leb c b'9'
    then some (c - b'0')
    else if leb b'a' c && leb c b'f'
    then some (c - b'a' + 10)
    else if leb b'A' c && leb c b'F'
    then some (c - b'A' + 10)
    else none

-- binascii.unhexlify; `none` is the TypeError
unfoldable pub unhexlify : Ip → Option Ip
unfolding hex_value
unhexlify [] = some []
unhexlify (c ∷ []) = none
unhexlify (c ∷ d ∷ rest) =
    let bytes = unhexlify rest in
    elim (hex_value c) [
      | none ↦ none
      | some hi ↦ elim (hex_value d) [
        | none ↦ none
        | some lo ↦ elim bytes [ none ↦ none | some bs ↦ some ((hi * 16 + lo) ∷ bs) ]
      ]
    ]

-- `try: ip = binascii.unhexlify(ip) except TypeError: pass`
unfoldable pub decoded : Ip → Ip
unfolding unhexlify
decoded ip = elim (unhexlify ip) [ none ↦ ip | some bytes ↦ bytes ]

-- socket.inet_ntop takes a packed address of its family only.
unfoldable pub is_packed : Af → Ip → Bool
is_packed Af.inet ip = nat_eq (length ip) 4
is_packed Af.inet6 ip = nat_eq (length ip) 16

-- The loop over `chk_af_list`: the family that fits, and the address, which each round decodes again.
unfoldable pub find_af : List Af → Ip → Option (Af × Ip)
unfolding decoded is_packed
find_af [] ip = none
find_af (af ∷ afs) ip =
    let rest = find_af afs (decoded ip) in
    if is_packed af (decoded ip) then some (af, decoded ip) else rest

abbrev pub chk_af_list : Option Af → List Af
chk_af_list none = Af.inet ∷ Af.inet6 ∷ []
chk_af_list (some af) = af ∷ []

abbrev pub prefix_or_full : Af → Option ℕ → ℕ
prefix_or_full af (some len) = len
prefix_or_full Af.inet none = 32
prefix_or_full Af.inet6 none = 128

unfoldable pub normalize_ip_with_prefix : Net → Option Af → Ip → Option ℕ → Option (Af × Ip × ℕ)
unfolding find_af
normalize_ip_with_prefix net af ip pfx_len = elim (find_af (chk_af_list af) ip) [
  | none ↦ none
  | some (af', bytes) ↦ elim (net.network_ip af' bytes (prefix_or_full af' pfx_len)) [
    | none ↦ none
    | some masked ↦ some (af', masked, prefix_or_full af' pfx_len)
  ]
]
