-- ===== src/Callbacks/Addresses.antt =====
-- `normalize_ip_with_prefix` on addresses in hexadecimal and on packed addresses.
use opx_nas_linux.Prelude.{
  ℕ, ◌+◌, ◌-◌, ◌*◌, ◌<◌, true, false, Option, none, some, [], ◌∷◌, ◌≡◌, refl, arith, ◌/◌, ◌%◌, ltb,
  if◌then◌else◌,
}
use opx_nas_linux.Rule.{Af, Ip}
use opx_nas_linux.Rule.Incoming.{Net, is_some}
use opx_nas_linux.Callbacks.{
  hex_value, unhexlify, decoded, is_packed, find_af, normalize_ip_with_prefix, prefix_or_full,
}

-- binascii.hexlify, which writes the addresses of a reply
unfoldable pub hex_digit : ℕ → ℕ
hex_digit n = if ltb n 10 then b'0' + n else b'a' + (n - 10)

unfoldable pub hexlify : Ip → Ip
unfolding hex_digit
hexlify [] = []
hexlify (b ∷ bs) = hex_digit (b / 16) ∷ hex_digit (b % 16) ∷ hexlify bs

abbrev pub AllBytes : Ip → Type 0
AllBytes [] = Unit {0}
AllBytes (b ∷ bs) = (b < 256) × AllBytes bs

hex_value-hex_digit : (n : ℕ) → n < 16 → hex_value (hex_digit n) ≡ some n
unfolding hex_value hex_digit
hex_value-hex_digit n h = ground arith

unhexlify-hexlify : (bs : Ip) → AllBytes bs → unhexlify (hexlify bs) ≡ some bs
unfolding unhexlify hexlify
unhexlify-hexlify [] h = refl
unhexlify-hexlify (b ∷ bs) h =
    ground
      (arith, hex_value-hex_digit (b / 16), hex_value-hex_digit (b % 16), unhexlify-hexlify bs h.1)

decoded-hexlify : (bs : Ip) → AllBytes bs → decoded (hexlify bs) ≡ bs
unfolding decoded
decoded-hexlify bs h = rw (unhexlify-hexlify bs h, decoded) refl

-- An address that the request gives as the hexadecimal text of its bytes, for a family whose packed
-- addresses have as many bytes, is read back as these bytes: what the request stands for is their
-- network address, with the prefix length that is given, or all bits where none is.
pub normalize_ip_with_prefix-hexlify :
    (net : Net) (af : Af) (bs : Ip) (len : Option ℕ)
    → AllBytes bs
    → is_packed af bs ≡ true
    → normalize_ip_with_prefix net (some af) (hexlify bs) len
      ≡ elim (net.network_ip af bs (prefix_or_full af len)) [
        | none ↦ none
        | some masked ↦ some (af, masked, prefix_or_full af len)
      ]
unfolding normalize_ip_with_prefix find_af
normalize_ip_with_prefix-hexlify net af bs len bytes packed =
    rw (decoded-hexlify bs bytes, packed, normalize_ip_with_prefix, find_af) refl

decoded_digits :
    (a b c d : ℕ)
    → is_some (hex_value a) ≡ true
    → is_some (hex_value b) ≡ true
    → is_some (hex_value c) ≡ true
    → is_some (hex_value d) ≡ true
    → (x : ℕ) × (y : ℕ) × (decoded (a ∷ b ∷ c ∷ d ∷ []) ≡ x ∷ y ∷ [])
unfolding is_some decoded unhexlify
decoded_digits a b c d ha hb hc hd =
    let (a', ea) = given (hex_value a) ha in
    let (b', eb) = given (hex_value b) hb in
    let (c', ec) = given (hex_value c) hc in
    let (d', ed) = given (hex_value d) hd in
    (a' * 16 + b', c' * 16 + d', rw (ea, eb, ec, ed, decoded, unhexlify) refl)
  where
    given : (o : Option ℕ) → is_some o ≡ true → (n : ℕ) × (o ≡ some n)
    given none h = ground (arith, h)
    given (some n) h = (n, refl)

-- Two bytes are no packed address, and neither is what they stand for.
decoded_pair : (af : Af) (x y : ℕ) → is_packed af (decoded (x ∷ y ∷ [])) ≡ false
unfolding decoded unhexlify is_packed
decoded_pair Af.inet x y = ground arith
decoded_pair Af.inet6 x y = ground arith

refused :
    (net : Net) (af : Option Af) (a b c d : ℕ) (len : Option ℕ) (x y : ℕ)
    → decoded (a ∷ b ∷ c ∷ d ∷ []) ≡ x ∷ y ∷ []
    → normalize_ip_with_prefix net af (a ∷ b ∷ c ∷ d ∷ []) len ≡ none
unfolding normalize_ip_with_prefix find_af is_packed
refused net (some Af.inet) a b c d len x y e = rw (e, normalize_ip_with_prefix, find_af) refl
refused net (some Af.inet6) a b c d len x y e = rw (e, normalize_ip_with_prefix, find_af) refl
refused net none a b c d len x y e =
    rw (e, normalize_ip_with_prefix, find_af, decoded_pair Af.inet6 x y) refl

-- A packed IPv4 address whose four bytes are all codes of hexadecimal digits, such as 49.50.51.52, is
-- taken for hexadecimal text and refused, whatever the family and the prefix length of the request.
pub normalize_ip_with_prefix-digits :
    (net : Net) (af : Option Af) (a b c d : ℕ) (len : Option ℕ)
    → is_some (hex_value a) ≡ true
    → is_some (hex_value b) ≡ true
    → is_some (hex_value c) ≡ true
    → is_some (hex_value d) ≡ true
    → normalize_ip_with_prefix net af (a ∷ b ∷ c ∷ d ∷ []) len ≡ none
normalize_ip_with_prefix-digits net af a b c d len ha hb hc hd =
    let (x, y, e) = decoded_digits a b c d ha hb hc hd in refused net af a b c d len x y e
