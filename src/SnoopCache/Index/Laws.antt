-- ===== src/SnoopCache/Index/Laws.antt =====
-- What the loops over the deleted and the added elements do to a map from bridges to sets.
use opx_nas_linux.Prelude.{
  String, true, false, List, [], ◌∷◌, ◌≡◌, arith, ◌==◌, ◌||◌, ◌&&◌, not, lookup, put, lookup-put,
  HasEq, eq_string, from_some, Option-cases, inl, inr,
}
use opx_nas_linux.SnoopCache.Sets.{member, add, discard, member-add, member-discard, eq_pair}
use opx_nas_linux.SnoopCache.Index.{remove_entry, add_entry, remove_entries, add_entries, in_index}

module _ {ℓ κ μ} {A : Type ℓ} {M : Type κ} {J : Type μ} ⦃e : HasEq J⦄ (br_name : A → String)
    (entry : A → M) (entry_key : M → J) where
  -- the key of an element in a set of all bridges
  abbrev pub full_key : A → String × J
  full_key x = (br_name x, entry_key (entry x))

  in_index-put :
      (br name : String) (k : J) (entries : List M) (br_map : List (String × List M))
      → in_index entry_key br k (put name entries br_map) ≡ (elim (name == br) [
        | true ↦ member entry_key k entries
        | false ↦ in_index entry_key br k br_map
      ])
  unfolding in_index
  in_index-put br name k entries br_map = ground (arith, lookup-put name br entries br_map)

  in_index-remove_entry :
      (br : String) (k : J) (x : A) (br_map : List (String × List M))
      → in_index entry_key br k (remove_entry br_name entry entry_key x br_map)
        ≡ (in_index entry_key br k br_map && not (full_key x == (br, k)))
  unfolding remove_entry in_index
  in_index-remove_entry br k x br_map = elim (Option-cases (lookup (br_name x) br_map)) [
    | inl missing ↦ ground (arith, missing, eq_string.same_iff (br_name x) br)
    | inr (entries, at) ↦ ground (
      arith,
      at,
      eq_string.same_iff (br_name x) br,
      e.same_iff (entry_key (entry x)) k,
      e.same_iff k (entry_key (entry x)),
      lookup-put (br_name x) br (discard entry_key (entry_key (entry x)) entries) br_map,
      member-discard entry_key k (entry_key (entry x)) entries,
    )
  ]

  in_index-add_entry :
      (br : String) (k : J) (x : A) (br_map : List (String × List M))
      → in_index entry_key br k (add_entry br_name entry entry_key x br_map)
        ≡ (in_index entry_key br k br_map || full_key x == (br, k))
  unfolding add_entry in_index member
  in_index-add_entry br k x br_map =
      let entries = from_some [] (lookup (br_name x) br_map) in
      ground (
        arith,
        eq_string.same_iff (br_name x) br,
        lookup-put (br_name x) br (add entry_key (entry x) entries) br_map,
        member-add entry_key k (entry x) entries,
      )

  pub in_index-remove_entries :
      (br : String) (k : J) (del_set : List A) (br_map : List (String × List M))
      → in_index entry_key br k (remove_entries br_name entry entry_key del_set br_map)
        ≡ (in_index entry_key br k br_map && not (member full_key (br, k) del_set))
  unfolding remove_entries member
  in_index-remove_entries br k [] br_map = ground arith
  in_index-remove_entries br k (x ∷ del_set) br_map = ground (
    arith,
    in_index-remove_entry br k x br_map,
    in_index-remove_entries br k del_set (remove_entry br_name entry entry_key x br_map),
  )

  pub in_index-add_entries :
      (br : String) (k : J) (add_set : List A) (br_map : List (String × List M))
      → in_index entry_key br k (add_entries br_name entry entry_key add_set br_map)
        ≡ (in_index entry_key br k br_map || member full_key (br, k) add_set)
  unfolding add_entries member
  in_index-add_entries br k [] br_map = ground arith
  in_index-add_entries br k (x ∷ add_set) br_map = ground (
    arith,
    in_index-add_entry br k x br_map,
    in_index-add_entries br k add_set (add_entry br_name entry entry_key x br_map),
  )
