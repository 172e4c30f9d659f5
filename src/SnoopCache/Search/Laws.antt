-- ===== src/SnoopCache/Search/Laws.antt =====
-- The names of an mrouter are found again in its text.
use Prim.Native.String as Text
use Prim.Native.String.append
use opx_nas_linux.Prelude.{
  String, Bool, true, false, some, ◌≡◌, refl, arith, ◌&&◌, not, inl, inr, Option-cases,
}
use opx_nas_linux.SnoopCache.Info.{McastRouterInfo}
use opx_nas_linux.SnoopCache.Search.{
  raw_str, is_space, behind, behind_space, span, word, match_interface, match_mrouter, search,
}

abbrev pub has_no_space : String → Bool
has_no_space Text.[] = true
has_no_space (Text.◌∷◌ c s) = not (is_space c) && has_no_space s

-- a name: not empty, and without a space
abbrev pub is_name : String → Bool
is_name Text.[] = false
is_name (Text.◌∷◌ c s) = has_no_space (Text.◌∷◌ c s)

behind-append : (t s : String) → behind t (Text.◌++◌ t s) ≡ some s
unfolding behind
behind-append Text.[] s = rw append.nil refl
behind-append (Text.◌∷◌ c t) s = rw append.cons (ground (arith, behind-append t s))

behind_space-append : (s : String) → behind_space (Text.◌++◌ " " s) ≡ some s
unfolding behind_space
behind_space-append s = rw (append.cons, append.nil) refl

span-append :
    (name rest : String)
    → has_no_space name ≡ true
    → span rest ≡ ("", rest)
    → span (Text.◌++◌ name rest) ≡ (name, rest)
unfolding span
span-append Text.[] rest h stops = rw append.nil stops
span-append (Text.◌∷◌ c s) rest h stops =
    rw append.cons (ground (arith, h, span-append s rest, stops))

word-append :
    (name rest : String)
    → is_name name ≡ true
    → span rest ≡ ("", rest)
    → word (Text.◌++◌ name rest) ≡ some (name, rest)
unfolding word
word-append Text.[] rest h stops = absurd (ground (arith, h))
word-append (Text.◌∷◌ c s) rest h stops = rw (span-append (Text.◌∷◌ c s) rest h stops) refl

span_space : (s : String) → span (Text.◌++◌ " " s) ≡ ("", Text.◌++◌ " " s)
unfolding span
span_space s = rw (append.cons, append.nil) refl

match_mrouter-append :
    (bridge interface rest : String)
    → is_name bridge ≡ true
    → is_name interface ≡ true
    → span rest ≡ ("", rest)
    → match_mrouter (
        Text.◌++◌ "MRouter: bridge" (
          Text.◌++◌ " " (
            Text.◌++◌ bridge
              (Text.◌++◌ " " (Text.◌++◌ "interface" (Text.◌++◌ " " (Text.◌++◌ interface rest)))))))
      ≡ some (bridge, interface)
unfolding match_mrouter match_interface
match_mrouter-append bridge interface rest b i stops =
    let s3 = Text.◌++◌ interface rest in
    let s2 = Text.◌++◌ " " s3 in
    let s1 = Text.◌++◌ "interface" s2 in
    let s0 = Text.◌++◌ " " s1 in
    let s = Text.◌++◌ bridge s0 in
    rw
      (
        behind-append "MRouter: bridge" (Text.◌++◌ " " s),
        behind_space-append s,
        word-append bridge s0 b (span_space s1),
        match_interface,
        behind_space-append s1,
        behind-append "interface" s2,
        behind_space-append s3,
        word-append interface rest i stops,
        match_mrouter,
      )
      refl

-- A match at the front is the first one.
search-match_mrouter :
    (s : String) (found : String × String) → match_mrouter s ≡ some found → search s ≡ some found
unfolding search
search-match_mrouter Text.[] found at = at
search-match_mrouter (Text.◌∷◌ c s) found at = rw (at, search) refl

-- The search in the text of an mrouter finds its names.
pub search-raw_str :
    (m : McastRouterInfo)
    → is_name m.br_name ≡ true
    → is_name m.raw_if_name ≡ true
    → search (raw_str m) ≡ some (m.br_name, m.raw_if_name)
unfolding raw_str span
search-raw_str m b i = elim (Option-cases m.expire) [
  | inl unset ↦
      search-match_mrouter (raw_str m) (m.br_name, m.raw_if_name)
        (rw (raw_str, unset) (match_mrouter-append m.br_name m.raw_if_name "" b i refl))
  | inr (expire, at) ↦
      let rest = Text.◌++◌ "expire " expire in
      search-match_mrouter (raw_str m) (m.br_name, m.raw_if_name)
        (rw (raw_str, at)
          (match_mrouter-append m.br_name m.raw_if_name (Text.◌++◌ " " rest) b i (span_space rest)))
]
