-- ===== src/IdGenerator/Calls.antt =====
-- Sequences of calls of one `IdGenerator`.
use opx_nas_linux.Prelude.{
  Bool, not, All, inl, inr, Option-cases, ℕ, ◌≡◌, ◌≤◌, ◌<◌, ◌||◌, refl, true, Option, none, some,
  ◌∷◌, [], List, arith, nat_eq, ap, ◌∙◌,
}
use opx_nas_linux.IdGenerator.{
  IdGenerator, contains, lower_avail, alloc, get_new_id, release_id, reserve_id, is_id_used,
}
use opx_nas_linux.IdGenerator.Invariant.{IsValid, IsNext}
use opx_nas_linux.IdGenerator.Methods.{
  get_new_id-none, reserve_id_lem, release_id_lem, get_new_id-IsValid, reserve_id-IsValid,
  release_id-IsValid, get_new_id-IsNextFree,
}

pub data Call : Type 0 where
  new : Call
  release reserve : ℕ → Call

unfoldable pub call : Call → IdGenerator → IdGenerator
call new g = (get_new_id g).1
call (release x) g = (release_id x g).1
call (reserve x) g = (reserve_id x g).1

unfoldable pub run : List Call → IdGenerator → IdGenerator
unfolding call
run [] g = g
run (c ∷ cs) g = run cs (call c g)

call-IsValid : (c : Call) (g : IdGenerator) → IsValid g → IsValid (call c g)
unfolding call
call-IsValid new g v = get_new_id-IsValid g v
call-IsValid (release x) g v = release_id-IsValid x g v
call-IsValid (reserve x) g v = reserve_id-IsValid x g v

-- Whatever calls are made, successful or not, a valid generator stays valid.
pub run-IsValid : (cs : List Call) (g : IdGenerator) → IsValid g → IsValid (run cs g)
unfolding run
run-IsValid [] g v = v
run-IsValid (c ∷ cs) g v = run-IsValid cs (call c g) (call-IsValid c g v)

-- Any call but a release of the ID.
abbrev pub keeps : ℕ → Call → Bool
keeps id (release x) = not (nat_eq x id)
keeps id _ = true

call-is_id_used :
    (id : ℕ) (c : Call) (g : IdGenerator)
    → IsValid g
    → keeps id c ≡ true
    → is_id_used id g ≡ true
    → is_id_used id (call c g) ≡ true
unfolding call
call-is_id_used id new g v kept used = elim (Option-cases (get_new_id g).0) [
  | inl failed ↦ ap (is_id_used id) (get_new_id-none g failed) ∙ used
  | inr (a, at) ↦ let given = get_new_id-IsNextFree g v at in ground (arith, given.2 id, used)
]
call-is_id_used id (release x) g v kept used =
    let released = release_id_lem x g in ground (arith, released.1 id, used, kept)
call-is_id_used id (reserve x) g v kept used =
    let reserved = reserve_id_lem x g in ground (arith, reserved.1 id, used)

-- An ID in use stays so until it is released.
pub run-is_id_used :
    (id : ℕ) (cs : List Call) (g : IdGenerator)
    → IsValid g
    → All (λ c. keeps id c ≡ true) cs
    → is_id_used id g ≡ true
    → is_id_used id (run cs g) ≡ true
unfolding run
run-is_id_used id [] g v kept used = used
run-is_id_used id (c ∷ cs) g v (kept0, kept) used =
    run-is_id_used id cs (call c g) (call-IsValid c g v) kept (call-is_id_used id c g v kept0 used)

alloc_exhausted :
    (o : Option ℕ) (g : IdGenerator) → g.avail_id ≡ o → o ≡ none → (alloc o g).1.avail_id ≡ none
unfolding alloc
alloc_exhausted none g at e = at
alloc_exhausted (some a) g at e = cc

call_exhausted : (c : Call) (g : IdGenerator) → g.avail_id ≡ none → (call c g).avail_id ≡ none
unfolding call get_new_id release_id reserve_id
call_exhausted new g e = alloc_exhausted g.avail_id g refl e
call_exhausted (release x) g e = ground arith
call_exhausted (reserve x) g e = ground arith

run_exhausted : (cs : List Call) (g : IdGenerator) → g.avail_id ≡ none → (run cs g).avail_id ≡ none
unfolding run
run_exhausted [] g e = e
run_exhausted (c ∷ cs) g e = run_exhausted cs (call c g) (call_exhausted c g e)

-- Once a generator has found no further ID, `get_new_id` fails for good: no calls in between, a
-- release of every ID included, make it return an ID again.
pub get_new_id-run_exhausted :
    (cs : List Call) (g : IdGenerator) → g.avail_id ≡ none → (get_new_id (run cs g)).0 ≡ none
unfolding get_new_id
get_new_id-run_exhausted cs g e = rw (run_exhausted cs g e)

alloc_value : (o : Option ℕ) (g : IdGenerator) → (alloc o g).0 ≡ o
unfolding alloc
alloc_value none g = refl
alloc_value (some a) g = refl

alloc_bounds :
    (o : Option ℕ) (g : IdGenerator)
    → ((alloc o g).1.min_id ≡ g.min_id) × ((alloc o g).1.max_id ≡ g.max_id)
unfolding alloc
alloc_bounds none g = (refl, refl)
alloc_bounds (some a) g = (refl, refl)

-- `get_new_id` returns `avail_id` and moves neither end of the range.
get_new_id_value : (g : IdGenerator) → (get_new_id g).0 ≡ g.avail_id
unfolding get_new_id
get_new_id_value g = alloc_value g.avail_id g

get_new_id_bounds :
    (g : IdGenerator) → ((get_new_id g).1.min_id ≡ g.min_id) × ((get_new_id g).1.max_id ≡ g.max_id)
unfolding get_new_id
get_new_id_bounds g = alloc_bounds g.avail_id g

release_avail :
    (g : IdGenerator) (a : ℕ) (o : Option ℕ)
    → contains a g.resved_ids ≡ true
    → g.avail_id ≡ o
    → (release_id a g).1.avail_id ≡ lower_avail a o
unfolding release_id
release_avail g a o used e = rw used (ap (lower_avail a) e)

-- With `a` in use and no smaller ID free, releasing `a` makes it the next one.
lowered :
    (g : IdGenerator) (a : ℕ) (o : Option ℕ)
    → IsNext g o
    → g.max_id ≡ none
    → contains a g.resved_ids ≡ true
    → ((x : ℕ) → g.min_id ≤ x → x < a → contains x g.resved_ids ≡ true)
    → lower_avail a o ≡ some a
lowered g a none n unbounded used below = absurd (n unbounded)
lowered g a (some b) n unbounded used below = ground (arith, n.0.free, n.0.from, below b)

-- Without a maximum, an ID that is released straight after it was handed out is handed out next.
pub get_new_id-release_id :
    (g : IdGenerator) {a : ℕ}
    → IsValid g
    → g.max_id ≡ none
    → (get_new_id g).0 ≡ some a
    → (get_new_id (release_id a (get_new_id g).1).1).0 ≡ some a
get_new_id-release_id g {a} v unbounded h =
    let g' = (get_new_id g).1 in
    let least = get_new_id-IsNextFree g v h in
    let used' : (x : ℕ) → contains x g'.resved_ids ≡ (nat_eq a x || contains x g.resved_ids) =
      unfold is_id_used in least.2 in
    let bounds = get_new_id_bounds g in
    get_new_id_value (release_id a g').1
    ∙ release_avail g' a g'.avail_id (ground (arith, used' a)) refl
    ∙ lowered g' a g'.avail_id (get_new_id-IsValid g v).next (bounds.1 ∙ unbounded)
        (ground (arith, used' a)) (λ x l u. ground (arith, used' x, least.0.before x, bounds.0))

call_unbounded : (c : Call) (g : IdGenerator) → g.max_id ≡ none → (call c g).max_id ≡ none
unfolding call release_id reserve_id
call_unbounded new g e = (get_new_id_bounds g).1 ∙ e
call_unbounded (release x) g e = ground arith
call_unbounded (reserve x) g e = ground arith

run_unbounded : (cs : List Call) (g : IdGenerator) → g.max_id ≡ none → (run cs g).max_id ≡ none
unfolding run
run_unbounded [] g e = e
run_unbounded (c ∷ cs) g e = run_unbounded cs (call c g) (call_unbounded c g e)

available : (g : IdGenerator) (o : Option ℕ) → IsNext g o → g.max_id ≡ none → (a : ℕ) × (o ≡ some a)
available g none next unbounded = absurd (next unbounded)
available g (some a) next unbounded = (a, refl)

-- A valid generator without a maximum always hands out a further ID, after any sequence of calls.
pub run-get_new_id :
    (cs : List Call) (g : IdGenerator)
    → IsValid g
    → g.max_id ≡ none
    → (a : ℕ) × ((get_new_id (run cs g)).0 ≡ some a)
run-get_new_id cs g v unbounded =
    let g' = run cs g in
    let (a, at) =
      available g' g'.avail_id (run-IsValid cs g v).next (run_unbounded cs g unbounded) in
    (a, get_new_id_value g' ∙ at)
