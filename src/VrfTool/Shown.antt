-- ===== src/VrfTool/Shown.antt =====
-- What `process_vrf_intf_config` of scripts/lib/python/dn_base_vrf_tool.py reads from the output of
-- `ip link show`: the expressions of Python on its lines.
use Prim.Native.Char.{code}
use Prim.Native.String as Text
use opx_nas_linux.Prelude.{
  ℕ, ◌+◌, ◌-◌, ◌*◌, String, Bool, false, Option, none, some, List, [], ◌∷◌, ◌==◌, leb, nat_eq,
  get_elem?, eq_string, if◌then◌else◌,
}
use opx_nas_linux.SnoopCache.Names.{isdigit}

-- text.split(c), with c by its code
unfoldable pub split : ℕ → String → List String
split sep Text.[] = Text.[] ∷ []
split sep (Text.◌∷◌ c s) = elim (split sep s) [
  | [] ↦ []
  | word ∷ words ↦ if nat_eq (code c) sep then Text.[] ∷ word ∷ words else Text.◌∷◌ c word ∷ words
]

abbrev pub number : ℕ → String → ℕ
number n Text.[] = n
number n (Text.◌∷◌ c s) = number (n * 10 + (code c - b'0')) s

-- int(text), of a text without a sign or spaces
unfoldable pub int : String → Option ℕ
unfolding isdigit
int text = if isdigit text then some (number 0 text) else none

-- the n-th field of a line; an index past the end raises an exception
abbrev pub field : ℕ → (line n : ℕ) → List String → Option String
field sep line n res = elim (get_elem? res line) [
  | none ↦ none
  | some text ↦ get_elem? (split sep text) n
]

-- int(res[0].split(':')[0])
unfoldable pub shown_index : List String → Option ℕ
unfolding split int
shown_index res = elim (field b':' 0 0 res) [ none ↦ none | some text ↦ int text ]

-- res[1].split(' ')[5]
unfoldable pub shown_mac : List String → Option String
unfolding split
shown_mac res = field b' ' 1 5 res

-- 'UP' in res[0].split(' ')[2]; an exception counts as no.
unfoldable pub shown_up : List String → Bool
unfolding split
shown_up res = elim (field b' ' 0 2 res) [
  | none ↦ false
  | some text ↦ leb (Text.find text "UP") (Text.len text)
]

-- if_name[0:2] == 'lo'
abbrev pub is_loopback : String → Bool
is_loopback if_name = Text.slice if_name 0 2 == "lo"
