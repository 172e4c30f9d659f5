-- ===== src/IdGenerator/Methods.antt =====
-- What the methods of `IdGenerator` return, and that they keep its invariant.
use opx_nas_linux.Prelude.{
  ℕ, ◌≤◌, ◌≡◌, refl, true, Option, none, some, ◌∷◌, arith, nat_eq, Bool-cases, inl, inr, ltb,
  if◌then◌else◌, ◌||◌, ◌&&◌, not,
}
use opx_nas_linux.IdGenerator.{
  IdGenerator, contains, without, at_most, is_max, lower_avail, scan_down, get_next_avail_id,
  raise_max, alloc, get_new_id, release_id, reserve_id, in_valid_range, is_id_used,
}
use opx_nas_linux.IdGenerator.Search.{contains-without, IsNextFree, ScanResult, scan_down-result}
use opx_nas_linux.IdGenerator.Invariant.{
  IsValid, IsNext, IsMaxResved, advance-IsNext, is_next, keep-IsNext, raise-IsMaxResved,
}

alloc-IsValid :
    (g : IdGenerator) (o : Option ℕ) → IsValid g → g.avail_id ≡ o → IsValid (alloc o g).1
unfolding alloc
alloc-IsValid g none v at = v
alloc-IsValid g (some a) v at = record {
  in_range = λ x h. ground (arith, v.in_range x, (is_next g a v at).0.from, (is_next g a v at).1);
  next = unfold raise_max get_next_avail_id in advance-IsNext g a v at;
  max_resved = unfold raise_max get_next_avail_id in raise-IsMaxResved g a v a;
}

-- `get_new_id` keeps the invariant.
pub get_new_id-IsValid : (g : IdGenerator) → IsValid g → IsValid (get_new_id g).1
unfolding get_new_id
get_new_id-IsValid g v = alloc-IsValid g g.avail_id v refl

alloc-result :
    (g : IdGenerator) (o : Option ℕ) {a : ℕ}
    → IsValid g
    → g.avail_id ≡ o
    → (alloc o g).0 ≡ some a
    → IsNextFree g.resved_ids g.min_id a
      × (at_most a g.max_id ≡ true)
      × ((x : ℕ) → is_id_used x (alloc o g).1 ≡ (nat_eq a x || is_id_used x g))
unfolding alloc is_id_used
alloc-result g none v at h = cc
alloc-result g (some b) {a} v at h =
    let e : b ≡ a = cc in
    let n : IsNext g (some a) = is_next g a v (rw at (cc)) in (n.0, n.1, λ x. ground arith)

alloc-none : (g : IdGenerator) (o : Option ℕ) → (alloc o g).0 ≡ none → (alloc o g).1 ≡ g
unfolding alloc
alloc-none g none h = refl
alloc-none g (some a) h = ground arith

pub get_new_id-none : (g : IdGenerator) → (get_new_id g).0 ≡ none → (get_new_id g).1 ≡ g
unfolding get_new_id
get_new_id-none g h = alloc-none g g.avail_id h

-- The ID that `get_new_id` returns is the least in the generator's range that is not in use, and
-- after the call the IDs in use are that one and those in use before.
pub get_new_id-IsNextFree :
    (g : IdGenerator) {a : ℕ}
    → IsValid g
    → (get_new_id g).0 ≡ some a
    → IsNextFree g.resved_ids g.min_id a
      × (at_most a g.max_id ≡ true)
      × ((x : ℕ) → is_id_used x (get_new_id g).1 ≡ (nat_eq a x || is_id_used x g))
unfolding get_new_id
get_new_id-IsNextFree g v h = alloc-result g g.avail_id v refl h

-- the state that `reserve_id` leaves
module _ (g : IdGenerator) (x : ℕ) (v : IsValid g) where
  reserved-IsNext :
      (o : Option ℕ)
      → g.avail_id ≡ o
      → IsNext
          (record g { resved_ids = x ∷ g.resved_ids })
          (if is_max x o
            then (get_next_avail_id x (record g { resved_ids = x ∷ g.resved_ids })).avail_id
            else o)
  reserved-IsNext none at = keep-IsNext g x v x none refl (rw at at v.next)
  reserved-IsNext (some b) at = elim (Bool-cases (nat_eq x b)) [
    | inl e ↦ rw e (advance-IsNext g x v (rw at (ground arith)))
    | inr e ↦ rw e (keep-IsNext g x v x (some b) e (rw at at v.next))
  ]

  reserved-IsValid :
      in_valid_range x g ≡ true
      → IsValid (
          raise_max x (
            if is_max x g.avail_id
            then get_next_avail_id x (record g { resved_ids = x ∷ g.resved_ids })
            else record g { resved_ids = x ∷ g.resved_ids }))
  unfolding raise_max get_next_avail_id in_valid_range
  reserved-IsValid fits = elim (Bool-cases (is_max x g.avail_id)) [
    | inl e ↦ rw e (record {
      in_range = λ y h. ground (arith, v.in_range y);
      next = unfold get_next_avail_id in rw e at (reserved-IsNext g.avail_id refl);
      max_resved = raise-IsMaxResved g x v x;
    })
    | inr e ↦ rw e (record {
      in_range = λ y h. ground (arith, v.in_range y);
      next = rw e at (reserved-IsNext g.avail_id refl);
      max_resved = raise-IsMaxResved g x v x;
    })
  ]

-- `reserve_id` keeps the invariant, whether it reserves the ID or refuses it.
pub reserve_id-IsValid : (x : ℕ) (g : IdGenerator) → IsValid g → IsValid (reserve_id x g).1
unfolding reserve_id
reserve_id-IsValid x g v = elim (Bool-cases (in_valid_range x g)) [
  | inl fits ↦ elim (Bool-cases (contains x g.resved_ids)) [
    | inl used ↦ rw (fits, used) v
    | inr free ↦ rw (fits, free) (reserved-IsValid g x v fits)
  ]
  | inr out ↦ rw out v
]

-- `reserve_id` succeeds exactly on an ID in the range that is not in use. After a success that ID is
-- in use beside those that were, and after a refusal the same IDs are in use as before.
pub reserve_id_lem :
    (x : ℕ) (g : IdGenerator)
    → ((reserve_id x g).0 ≡ (in_valid_range x g && not (is_id_used x g)))
      × ((y : ℕ)
          → is_id_used y (reserve_id x g).1
            ≡ (((reserve_id x g).0 && nat_eq x y) || is_id_used y g))
unfolding reserve_id is_id_used
reserve_id_lem x g = (ground arith, λ y. ground arith)

module _ (g : IdGenerator) (x : ℕ) (v : IsValid g) (used : contains x g.resved_ids ≡ true) where
  released-IsNext :
      (o : Option ℕ)
      → IsNext g o
      → IsNext (record g { resved_ids = without x g.resved_ids }) (lower_avail x o)
  released-IsNext none n = n
  released-IsNext (some b) n = elim (Bool-cases (ltb x b)) [
    | inl less ↦ rw less (
      record {
        from = ground (arith, v.in_range x);
        free = ground (arith, contains-without x x g.resved_ids);
        before = λ y l u. ground (arith, contains-without x y g.resved_ids, n.0.before y);
      },
      ground (arith, v.in_range x),
    )
    | inr more ↦ rw more (
      record {
        from = n.0.from;
        free = ground (arith, contains-without x b g.resved_ids, n.0.free);
        before = λ y l u. ground (arith, contains-without x y g.resved_ids, n.0.before y, n.0.free);
      },
      n.1,
    )
  ]

  scanned-IsMaxResved :
      (r : Option ℕ)
      → ((y : ℕ) → contains y g.resved_ids ≡ true → y ≤ x)
      → ScanResult (without x g.resved_ids) g.min_id x r
      → IsMaxResved (record g { resved_ids = without x g.resved_ids }) r
  scanned-IsMaxResved none top s =
      λ y. ground (arith, s y, top y, v.in_range y, contains-without x y g.resved_ids)
  scanned-IsMaxResved (some r) top s =
      (s.member, λ y h. ground (arith, s.after y, top y, contains-without x y g.resved_ids))

  released-IsMaxResved :
      (o : Option ℕ)
      → IsMaxResved g o
      → IsMaxResved
          (record g { resved_ids = without x g.resved_ids })
          (if is_max x o then scan_down (without x g.resved_ids) g.min_id x else o)
  released-IsMaxResved none m = λ y. ground (arith, m y, contains-without x y g.resved_ids)
  released-IsMaxResved (some b) m = elim (Bool-cases (nat_eq x b)) [
    | inl e ↦ rw e (
        scanned-IsMaxResved (scan_down (without x g.resved_ids) g.min_id x)
          (λ y h. ground (arith, m.1 y)) (scan_down-result (without x g.resved_ids) g.min_id x))
    | inr e ↦ rw e (
      ground (arith, m.0, contains-without x b g.resved_ids),
      λ y h. ground (arith, m.1 y, contains-without x y g.resved_ids),
    )
  ]

-- `release_id` keeps the invariant, whether it releases the ID or refuses it.
pub release_id-IsValid : (x : ℕ) (g : IdGenerator) → IsValid g → IsValid (release_id x g).1
unfolding release_id
release_id-IsValid x g v = elim (Bool-cases (contains x g.resved_ids)) [
  | inl used ↦ rw used (record {
    in_range = λ y h. ground (arith, v.in_range y, contains-without x y g.resved_ids);
    next = released-IsNext g x v used g.avail_id v.next;
    max_resved = released-IsMaxResved g x v used g.max_resved_id v.max_resved;
  })
  | inr free ↦ rw free v
]

-- `release_id` succeeds exactly on an ID in use. After the call that ID is not in use, and every other
-- ID is in use if it was before.
pub release_id_lem :
    (x : ℕ) (g : IdGenerator)
    → ((release_id x g).0 ≡ is_id_used x g)
      × ((y : ℕ) → is_id_used y (release_id x g).1 ≡ (not (nat_eq x y) && is_id_used y g))
unfolding release_id is_id_used
release_id_lem x g = (ground arith, λ y. ground (arith, contains-without x y g.resved_ids))
