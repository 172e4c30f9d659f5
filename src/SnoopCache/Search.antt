-- ===== src/SnoopCache/Search.antt =====
-- The regular expression of `get_all_static_mrouter_cache` in
-- scripts/lib/python/dn_base_mcast_snoop_utils.py, and the text that it searches.
pub mod Laws
use Prim.Native.Char.{Char, code}
use Prim.Native.String as Text
use opx_nas_linux.Prelude.{
  String, Bool, true, false, Option, none, some, ◌||◌, ◌&&◌, leb, nat_eq, if◌then◌else◌,
}
use opx_nas_linux.SnoopCache.Info.{McastRouterInfo}

-- `__raw_str__`; `expire` is the number as '%f' writes it.
unfoldable pub raw_str : McastRouterInfo → String
raw_str m = Text.◌++◌ "MRouter: bridge" (
    Text.◌++◌ " " (
      Text.◌++◌ m.br_name (
        Text.◌++◌ " " (
          Text.◌++◌ "interface" (
            Text.◌++◌ " " (
              Text.◌++◌ m.raw_if_name (elim m.expire [
                | none ↦ ""
                | some expire ↦ Text.◌++◌ " " (Text.◌++◌ "expire " expire)
              ])))))))

-- \s
abbrev pub is_space : Char → Bool
is_space c = nat_eq (code c) b' ' || leb 9 (code c) && leb (code c) 13

-- what is left of a text behind another one at its front
unfoldable pub behind : String → String → Option String
behind Text.[] s = some s
behind (Text.◌∷◌ d t) Text.[] = none
behind (Text.◌∷◌ d t) (Text.◌∷◌ c s) =
    let rest = behind t s in if nat_eq (code c) (code d) then rest else none

unfoldable pub behind_space : String → Option String
behind_space Text.[] = none
behind_space (Text.◌∷◌ c s) = if is_space c then some s else none

unfoldable pub span : String → String × String
span Text.[] = (Text.[], Text.[])
span (Text.◌∷◌ c s) =
    let (word, rest) = span s in
    if is_space c then (Text.[], Text.◌∷◌ c s) else (Text.◌∷◌ c word, rest)

abbrev pub some_word : String × String → Option (String × String)
some_word (Text.[], rest) = none
some_word (Text.◌∷◌ c s, rest) = some (Text.◌∷◌ c s, rest)

-- (\S+) with a space or the end behind it
unfoldable pub word : String → Option (String × String)
unfolding span
word s = some_word (span s)

-- '\sinterface\s(\S+)' behind the first group
unfoldable pub match_interface : String × String → Option (String × String)
unfolding behind behind_space word
match_interface (bridge, s) = elim (behind_space s) [
  | none ↦ none
  | some s1 ↦ elim (behind "interface" s1) [
    | none ↦ none
    | some s2 ↦ elim (behind_space s2) [
      | none ↦ none
      | some s3 ↦ elim (word s3) [ none ↦ none | some (interface, rest) ↦ some (bridge, interface) ]
    ]
  ]
]

-- 'MRouter: bridge\s(\S+)\sinterface\s(\S+)' at the front of a text: the two groups
unfoldable pub match_mrouter : String → Option (String × String)
unfolding behind behind_space word match_interface
match_mrouter s = elim (behind "MRouter: bridge" s) [
  | none ↦ none
  | some s1 ↦ elim (behind_space s1) [
    | none ↦ none
    | some s2 ↦ elim (word s2) [ none ↦ none | some found ↦ match_interface found ]
  ]
]

-- re.search: the first place in the text where it matches
unfoldable pub search : String → Option (String × String)
unfolding match_mrouter
search Text.[] = match_mrouter Text.[]
search (Text.◌∷◌ c s) =
    let rest = search s in
    elim (match_mrouter (Text.◌∷◌ c s)) [ some found ↦ some found | none ↦ rest ]
