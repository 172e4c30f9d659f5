-- ===== src/Tests/Ids.antt =====
-- Examples of `IdGenerator`.
use opx_nas_linux.Prelude.{ℕ, true, none, some, List, [], ◌∷◌, ◌≡◌, refl, nat_eq, ◌||◌, ◌&&◌, not}
use opx_nas_linux.IdGenerator.{
  IdGenerator, fresh, init, at_most, get_new_id, release_id, reserve_id, in_valid_range, is_id_used,
}
use opx_nas_linux.IdGenerator.Search.{IsNextFree}
use opx_nas_linux.IdGenerator.Invariant.{IsValid, fresh-IsValid}
use opx_nas_linux.IdGenerator.Methods.{get_new_id-IsNextFree, reserve_id_lem, release_id_lem}
use opx_nas_linux.IdGenerator.Calls.{
  Call, run, run-IsValid, get_new_id-run_exhausted, get_new_id-release_id, run-get_new_id,
}

-- IDs 1, 2 and 4 are handed out or reserved, and 1 is released.
abbrev busy_calls : List Call
busy_calls = Call.new ∷ Call.new ∷ Call.reserve 4 ∷ Call.release 1 ∷ []

busy : IdGenerator
busy = run busy_calls (fresh 1 none)

run-IsValid_example : IsValid (run busy_calls (fresh 1 none))
run-IsValid_example = run-IsValid busy_calls (fresh 1 none) (fresh-IsValid 1 none refl)

busy-IsValid : IsValid busy
unfolding busy
busy-IsValid = run-IsValid busy_calls (fresh 1 none) (fresh-IsValid 1 none refl)

busy_next : (get_new_id busy).0 ≡ some 1
unfolding busy run get_new_id fresh release_id reserve_id
busy_next = refl

get_new_id-IsNextFree_example :
    IsNextFree busy.resved_ids busy.min_id 1
    × (at_most 1 busy.max_id ≡ true)
    × ((x : ℕ) → is_id_used x (get_new_id busy).1 ≡ (nat_eq 1 x || is_id_used x busy))
get_new_id-IsNextFree_example = get_new_id-IsNextFree busy busy-IsValid busy_next

busy_unbounded : busy.max_id ≡ none
unfolding busy run get_new_id release_id reserve_id fresh
busy_unbounded = refl

get_new_id-release_id_example : (get_new_id (release_id 1 (get_new_id busy).1).1).0 ≡ some 1
get_new_id-release_id_example = get_new_id-release_id busy busy-IsValid busy_unbounded busy_next

reserve_id_lem_example :
    ((reserve_id 3 busy).0 ≡ (in_valid_range 3 busy && not (is_id_used 3 busy)))
    × ((y : ℕ)
        → is_id_used y (reserve_id 3 busy).1
          ≡ (((reserve_id 3 busy).0 && nat_eq 3 y) || is_id_used y busy))
reserve_id_lem_example = reserve_id_lem 3 busy

release_id_lem_example :
    ((release_id 2 busy).0 ≡ is_id_used 2 busy)
    × ((y : ℕ) → is_id_used y (release_id 2 busy).1 ≡ (not (nat_eq 2 y) && is_id_used y busy))
release_id_lem_example = release_id_lem 2 busy

-- A generator for the IDs 1 and 2, both handed out.
full : IdGenerator
full = run (Call.new ∷ Call.new ∷ []) (fresh 1 (some 2))

full_exhausted : full.avail_id ≡ none
unfolding full run get_new_id fresh
full_exhausted = refl

get_new_id-run_exhausted_example :
    (get_new_id (run (Call.release 1 ∷ Call.release 2 ∷ []) full)).0 ≡ none
get_new_id-run_exhausted_example =
    get_new_id-run_exhausted (Call.release 1 ∷ Call.release 2 ∷ []) full full_exhausted

-- `IdGenerator(max_id = 0)` is accepted, and hands out an ID beyond its maximum.
zero_maximum :
    (init none (some 0) ≡ some (fresh 1 (some 0))) × ((get_new_id (fresh 1 (some 0))).0 ≡ some 1)
unfolding init fresh get_new_id
zero_maximum = (refl, refl)

run-get_new_id_example : (a : ℕ) × ((get_new_id (run busy_calls (fresh 1 none))).0 ≡ some a)
run-get_new_id_example =
    run-get_new_id busy_calls (fresh 1 none) (fresh-IsValid 1 none refl) (unfold fresh in refl)
