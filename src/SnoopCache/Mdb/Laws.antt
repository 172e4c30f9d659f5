-- ===== src/SnoopCache/Mdb/Laws.antt =====
-- Which outputs are given up, and the mrouters that the two answers have.
use opx_nas_linux.Prelude.{
  String, Bool, true, false, Option, none, some, List, [], ◌∷◌, ◌≡◌, ◌↔◌, arith, ◌||◌, eq_string,
  Option-cases, inl, inr,
}
use opx_nas_linux.SnoopCache.{Routes}
use opx_nas_linux.SnoopCache.Sets.{eq_pair}
use opx_nas_linux.SnoopCache.Mdb.{Line, Texts, IpType, cache_line, cache_lines}

-- A line of two tokens or more that is neither an entry nor mrouters, or that does not match.
abbrev pub is_bad : Line → Bool
is_bad Line.short = false
is_bad Line.unknown = true
is_bad (Line.dev none) = true
is_bad (Line.dev (some e)) = false
is_bad (Line.router none) = true
is_bad (Line.router (some r)) = false

abbrev pub has_bad : List Line → Bool
has_bad [] = false
has_bad (line ∷ cmd_response) = is_bad line || has_bad cmd_response

module _ (t : Texts) (ip_type : IpType) (br_name : Option String) where
  cache_line-is_bad :
      (line : Line) (s : Routes)
      → (cache_line t ip_type br_name line s ≡ none) ↔ (is_bad line ≡ true)
  unfolding cache_line
  cache_line-is_bad Line.short s = ground arith
  cache_line-is_bad Line.unknown s = ground arith
  cache_line-is_bad (Line.dev none) s = ground arith
  cache_line-is_bad (Line.dev (some e)) s = ground arith
  cache_line-is_bad (Line.router none) s = ground arith
  cache_line-is_bad (Line.router (some r)) s = ground arith

  -- The routes are not read exactly when some line of the output is not understood, wherever it is and
  -- whatever is asked for.
  pub cache_lines-has_bad :
      (cmd_response : List Line) (s : Routes)
      → (cache_lines t ip_type br_name cmd_response s ≡ none) ↔ (has_bad cmd_response ≡ true)
  unfolding cache_lines
  cache_lines-has_bad [] s = ground arith
  cache_lines-has_bad (line ∷ cmd_response) s =
      elim (Option-cases (cache_line t ip_type br_name line s)) [
        | inl missing ↦ ground (arith, missing, cache_line-is_bad line s)
        | inr (s1, at) ↦
            ground (arith, at, cache_line-is_bad line s, cache_lines-has_bad cmd_response s1)
      ]
