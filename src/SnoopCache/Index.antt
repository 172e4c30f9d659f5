-- ===== src/SnoopCache/Index.antt =====
-- The maps of McastSnoopCacheMgr from the name of a bridge to a set: `br_mrouter_map`, whose sets hold
-- names of interfaces, and `br_group_map`, whose sets hold McastGroupInfo objects.
pub mod Laws
use opx_nas_linux.Prelude.{
  String, Bool, false, Option, none, some, List, [], ◌∷◌, lookup, put, HasEq, eq_string, from_some,
}
use opx_nas_linux.SnoopCache.Sets.{member, add, discard}

-- Is there an entry with this key under the bridge?
module _ {κ μ} {M : Type κ} {J : Type μ} ⦃e : HasEq J⦄ (entry_key : M → J) where
  unfoldable pub in_index : String → J → List (String × List M) → Bool
  unfolding lookup member
  in_index br k br_map = elim (lookup br br_map) [
    | none ↦ false
    | some entries ↦ member entry_key k entries
  ]

-- An element is put under its bridge as its entry; entries are equal when their keys are.
module _ {ℓ κ μ} {A : Type ℓ} {M : Type κ} {J : Type μ} ⦃e : HasEq J⦄ (br_name : A → String)
    (entry : A → M) (entry_key : M → J) where
  -- A bridge that is not in the map is only logged.
  unfoldable pub remove_entry : A → List (String × List M) → List (String × List M)
  unfolding lookup put discard
  remove_entry x br_map = elim (lookup (br_name x) br_map) [
    | none ↦ br_map
    | some entries ↦ put (br_name x) (discard entry_key (entry_key (entry x)) entries) br_map
  ]

  unfoldable pub add_entry : A → List (String × List M) → List (String × List M)
  unfolding lookup put add
  add_entry x br_map =
      put (br_name x) (add entry_key (entry x) (from_some [] (lookup (br_name x) br_map))) br_map

  -- the loop over `del_set`
  unfoldable pub remove_entries : List A → List (String × List M) → List (String × List M)
  unfolding remove_entry
  remove_entries [] br_map = br_map
  remove_entries (x ∷ del_set) br_map = remove_entries del_set (remove_entry x br_map)

  -- the loop over `add_set`
  unfoldable pub add_entries : List A → List (String × List M) → List (String × List M)
  unfolding add_entry
  add_entries [] br_map = br_map
  add_entries (x ∷ add_set) br_map = add_entries add_set (add_entry x br_map)
