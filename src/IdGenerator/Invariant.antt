-- ===== src/IdGenerator/Invariant.antt =====
-- The invariant of `IdGenerator`, and that its methods keep it.
use opx_nas_linux.Prelude.{
  ℕ, ◌+◌, ◌≤◌, ◌≡◌, refl, true, false, Option, none, some, ◌∷◌, arith, Bool-cases, inl, inr, ◌≢◌,
  ltb, if◌then◌else◌,
}
use opx_nas_linux.IdGenerator.{
  IdGenerator, contains, skip_resved, above_all, at_most, above, is_max, fresh, get_next_avail_id,
}
use opx_nas_linux.IdGenerator.Search.{IsNextFree, skip_resved-IsNextFree}

-- The next ID to hand out is the least free one. (After the range was exhausted nothing is said.)
abbrev pub IsNext : IdGenerator → Option ℕ → Type 0
IsNext g none = g.max_id ≢ none
IsNext g (some a) = IsNextFree g.resved_ids g.min_id a × (at_most a g.max_id ≡ true)

-- The largest reserved ID.
abbrev pub IsMaxResved : IdGenerator → Option ℕ → Type 0
IsMaxResved g none = (x : ℕ) → contains x g.resved_ids ≡ false
IsMaxResved g (some m) =
    (contains m g.resved_ids ≡ true) × ((x : ℕ) → contains x g.resved_ids ≡ true → x ≤ m)

pub record IsValid (g : IdGenerator) : Type 0 where
  pub in_range :
      (x : ℕ) → contains x g.resved_ids ≡ true → (g.min_id ≤ x) × (at_most x g.max_id ≡ true)
  pub next : IsNext g g.avail_id
  pub max_resved : IsMaxResved g g.max_resved_id

-- A generator whose range holds its least ID starts valid.
pub fresh-IsValid :
    (min_id : ℕ) (max_id : Option ℕ) → at_most min_id max_id ≡ true → IsValid (fresh min_id max_id)
unfolding fresh contains
fresh-IsValid min_id max_id fits = record {
  in_range = λ x h. cc;
  next = (record { from = omega arith; free = refl; before = λ x h l. absurd (omega arith) }, fits);
  max_resved = λ x. refl;
}

module _ (g : IdGenerator) (a : ℕ) (v : IsValid g) where
  -- no reserved ID passes the recorded maximum
  pub bounded : (x : ℕ) → contains x g.resved_ids ≡ true → at_most x g.max_resved_id ≡ true
  bounded x h = below g.max_resved_id v.max_resved
    where
      below : (m : Option ℕ) → IsMaxResved g m → at_most x m ≡ true
      below none e = refl
      below (some m) e = ground (arith, e.1 x)

  module _ (at : g.avail_id ≡ some a) where
    pub is_next : IsNext g (some a)
    is_next = rw at at v.next

    next_free :
        (r : ℕ) → IsNextFree (a ∷ g.resved_ids) (a + 1) r → IsNextFree (a ∷ g.resved_ids) g.min_id r
    unfolding contains
    next_free r n = record {
      from = omega (arith, is_next.0.from, n.from);
      free = n.free;
      before = λ x h l. ground (arith, is_next.0.before x, n.before x);
    }

    -- after `a` was taken, `get_next_avail_id` finds the next free ID
    abbrev pub taken : IdGenerator
    taken = record g { resved_ids = a ∷ g.resved_ids }

    abbrev found : ℕ
    found = skip_resved (above_all (a ∷ g.resved_ids)) (a ∷ g.resved_ids) g.max_resved_id (a + 1)

    found-IsNextFree : IsNextFree (a ∷ g.resved_ids) g.min_id found
    unfolding contains
    found-IsNextFree = next_free found (
        skip_resved-IsNextFree (a ∷ g.resved_ids) g.max_resved_id (above_all (a ∷ g.resved_ids))
          (a + 1) (omega arith) (λ x h c. bounded x (ground arith)))

    pub advance-IsNext : IsNext taken (get_next_avail_id a taken).avail_id
    unfolding get_next_avail_id
    advance-IsNext = elim (Bool-cases (at_most found g.max_id)) [
      | inl fits ↦ rw fits (found-IsNextFree, fits)
      | inr full ↦ rw full (λ e. full_bound g.max_id full e)
    ]
      where
        full_bound : (m : Option ℕ) → at_most found m ≡ false → m ≢ none
        full_bound none h e = cc
        full_bound (some m) h e = cc

  -- reserving another ID leaves the next free one
  pub keep-IsNext :
      (x : ℕ) (o : Option ℕ)
      → is_max x o ≡ false
      → IsNext g o
      → IsNext (record g { resved_ids = x ∷ g.resved_ids }) o
  unfolding contains
  keep-IsNext x none h n = n
  keep-IsNext x (some b) h n = (
    record {
      from = n.0.from;
      free = ground (arith, n.0.free);
      before = λ y l u. ground (arith, n.0.before y);
    },
    n.1,
  )

  pub raise-IsMaxResved :
      (x : ℕ)
      → IsMaxResved
          (record g { resved_ids = x ∷ g.resved_ids })
          (if above x g.max_resved_id then some x else g.max_resved_id)
  unfolding contains
  raise-IsMaxResved x = raised g.max_resved_id v.max_resved
    where
      raised :
          (m : Option ℕ)
          → IsMaxResved g m
          → IsMaxResved
              (record g { resved_ids = x ∷ g.resved_ids })
              (if above x m then some x else m)
      raised none e = (ground arith, λ y h. ground (arith, e y))
      raised (some m) e = elim (Bool-cases (ltb m x)) [
        | inl more ↦ rw more (ground arith, λ y h. ground (arith, e.1 y))
        | inr less ↦ rw less (ground (arith, e.0), λ y h. ground (arith, e.1 y))
      ]
