-- ===== src/IdGenerator.antt =====
-- The allocator of rule IDs (scripts/lib/python/dn_base_id_tool.py, class `IdGenerator`).
pub mod Search
pub mod Invariant
pub mod Methods
pub mod Calls
use opx_nas_linux.Prelude.{
  ℕ, zero, suc, ◌+◌, Bool, true, false, Option, none, some, List, [], ◌∷◌, ltb, leb, nat_eq, not,
  ◌&&◌, ◌||◌, if◌then◌else◌,
}

-- `resved_ids` is a Python set: only membership in the list counts. The lock is not modelled: each
-- method holds it from start to end.
pub record IdGenerator : Type 0 where
  pub resved_ids : List ℕ
  pub min_id : ℕ
  pub max_id : Option ℕ
  pub avail_id : Option ℕ
  pub max_resved_id : Option ℕ

unfoldable pub contains : ℕ → List ℕ → Bool
contains x [] = false
contains x (y ∷ ys) = nat_eq y x || contains x ys

-- set.remove
unfoldable pub without : ℕ → List ℕ → List ℕ
without x [] = []
without x (y ∷ ys) = let rest = without x ys in if nat_eq y x then rest else y ∷ rest

-- The attributes that `__init__` sets.
unfoldable pub fresh : ℕ → Option ℕ → IdGenerator
fresh min_id max_id = record {
  resved_ids = [];
  min_id = min_id;
  max_id = max_id;
  avail_id = some min_id;
  max_resved_id = none;
}

-- `none` is the ValueError.
unfoldable pub init : Option ℕ → Option ℕ → Option IdGenerator
unfolding fresh
init none max_id = some (fresh 1 max_id)
init (some min_id) none = some (fresh min_id none)
init (some min_id) (some max_id) =
    if leb max_id min_id then none else some (fresh min_id (some max_id))

-- A test `bound is None or x <= bound`.
abbrev pub at_most : ℕ → Option ℕ → Bool
at_most x none = true
at_most x (some bound) = leb x bound

-- A test `bound is None or x > bound`.
abbrev pub above : ℕ → Option ℕ → Bool
above x none = true
above x (some bound) = ltb bound x

-- The `while` of `get_next_avail_id`, on fuel.
unfoldable pub skip_resved : ℕ → List ℕ → Option ℕ → ℕ → ℕ
unfolding contains
skip_resved zero ids max_resved avail = avail
skip_resved (suc fuel) ids max_resved avail =
    let rest = skip_resved fuel ids max_resved (avail + 1) in
    if at_most avail max_resved && contains avail ids then rest else avail

-- More than any reserved ID: the fuel.
unfoldable pub above_all : List ℕ → ℕ
above_all [] = 0
above_all (x ∷ xs) = if leb (above_all xs) x then x + 1 else above_all xs

-- `avail` is `self.avail_id`, which the callers have found not to be None.
unfoldable pub get_next_avail_id : ℕ → IdGenerator → IdGenerator
unfolding skip_resved above_all
get_next_avail_id avail g =
    let next = skip_resved (above_all g.resved_ids) g.resved_ids g.max_resved_id (avail + 1) in
    record g { avail_id = if at_most next g.max_id then some next else none }

-- `if self.max_resved_id is None or x > self.max_resved_id: self.max_resved_id = x`
unfoldable pub raise_max : ℕ → IdGenerator → IdGenerator
raise_max x g = record g {
  max_resved_id = if above x g.max_resved_id then some x else g.max_resved_id;
}

alloc : Option ℕ → IdGenerator → Option ℕ × IdGenerator
unfolding get_next_avail_id raise_max
alloc none g = (none, g)
alloc (some avail) g = (
  some avail,
  raise_max avail (get_next_avail_id avail (record g { resved_ids = avail ∷ g.resved_ids })),
)

unfoldable pub get_new_id : IdGenerator → Option ℕ × IdGenerator
unfolding alloc
get_new_id g = alloc g.avail_id g

-- The `while` of `release_id`: the largest reserved ID from `obj_id` down to `min_id`.
unfoldable pub scan_down : List ℕ → ℕ → ℕ → Option ℕ
unfolding contains
scan_down ids min_id zero =
    if ltb zero min_id then none else if contains zero ids then some zero else none
scan_down ids min_id (suc n) =
    let rest = scan_down ids min_id n in
    if ltb (suc n) min_id then none else if contains (suc n) ids then some (suc n) else rest

-- `if obj_id < self.avail_id: self.avail_id = obj_id`, where Python 2 takes no number for less
-- than None.
abbrev pub lower_avail : ℕ → Option ℕ → Option ℕ
lower_avail x none = none
lower_avail x (some avail) = if ltb x avail then some x else some avail

abbrev pub is_max : ℕ → Option ℕ → Bool
is_max x none = false
is_max x (some m) = nat_eq x m

unfoldable pub release_id : ℕ → IdGenerator → Bool × IdGenerator
unfolding contains without scan_down
release_id obj_id g =
    if contains obj_id g.resved_ids
    then (
      true,
      record g {
        resved_ids = without obj_id g.resved_ids;
        avail_id = lower_avail obj_id g.avail_id;
        max_resved_id =
            if is_max obj_id g.max_resved_id
            then scan_down (without obj_id g.resved_ids) g.min_id obj_id
            else g.max_resved_id;
      },
    )
    else (false, g)

unfoldable pub is_id_used : ℕ → IdGenerator → Bool
unfolding contains
is_id_used obj_id g = contains obj_id g.resved_ids

unfoldable pub in_valid_range : ℕ → IdGenerator → Bool
in_valid_range obj_id g = not (ltb obj_id g.min_id) && at_most obj_id g.max_id

unfoldable pub reserve_id : ℕ → IdGenerator → Bool × IdGenerator
unfolding contains in_valid_range get_next_avail_id raise_max
reserve_id obj_id g =
    if not (in_valid_range obj_id g)
    then (false, g)
    else if contains obj_id g.resved_ids
    then (false, g)
    else let added = record g { resved_ids = obj_id ∷ g.resved_ids } in
      (
        true,
        raise_max obj_id
            (if is_max obj_id g.avail_id then get_next_avail_id obj_id added else added),
      )
