-- ===== src/RuleCache/Ids.antt =====
-- The ID that `insert_rule` takes, and what `ensure_list` leaves.
use opx_nas_linux.Prelude.{
  ℕ, String, true, false, Option, none, some, ◌≡◌, ap, arith, inl, inr, Bool-cases, nat_eq, ◌||◌,
}
use opx_nas_linux.IdGenerator
use opx_nas_linux.IdGenerator.{IdGenerator, is_id_used, get_new_id, reserve_id, release_id}
use opx_nas_linux.IdGenerator.Methods.{
  get_new_id-IsValid, reserve_id-IsValid, get_new_id-IsNextFree, get_new_id-none, reserve_id_lem,
  release_id_lem,
}
use opx_nas_linux.RuleList
use opx_nas_linux.Iptables.{System}
use opx_nas_linux.RuleTables.{Tables, Slot}
use opx_nas_linux.RuleTables.Laws.{
  put_list-id_generator, put_list-kernel, put_list-mutex, put_list-ports,
}
use opx_nas_linux.RuleCache.{take_id, ensure_list}

-- The ID that `take_id` gives was free, and it is then in use beside those that were.
pub take_id_lem :
    (o : Option ℕ) (g : IdGenerator) {id : ℕ}
    → IdGenerator.Invariant.IsValid g
    → (take_id o g).0 ≡ some id
    → (is_id_used id g ≡ false)
      × ((x : ℕ) → is_id_used x (take_id o g).1 ≡ (nat_eq id x || is_id_used x g))
unfolding take_id
take_id_lem none g v h =
    let least = get_new_id-IsNextFree g v h in (unfold is_id_used in least.0.free, least.2)
take_id_lem (some x) g v h = elim (Bool-cases (is_id_used x g)) [
  | inl used ↦ ground (arith, used)
  | inr free ↦
      let r = reserve_id_lem x g in (ground (arith, free), λ y. ground (arith, free, r.0, r.1 y))
]

pub take_id-IsValid :
    (o : Option ℕ) (g : IdGenerator)
    → IdGenerator.Invariant.IsValid g
    → IdGenerator.Invariant.IsValid (take_id o g).1
unfolding take_id
take_id-IsValid none g v = get_new_id-IsValid g v
take_id-IsValid (some x) g v = elim (Bool-cases (is_id_used x g)) [
  | inl used ↦ rw used v
  | inr free ↦ rw free (reserve_id-IsValid x g v)
]

pub taken_used :
    (id : ℕ) (g : IdGenerator) → is_id_used id g ≡ true → (take_id (some id) g).0 ≡ none
unfolding take_id
taken_used id g used = ground (arith, used)

-- Without an ID, `take_id` leaves the IDs in use.
pub take_id-none :
    (o : Option ℕ) (g : IdGenerator)
    → (take_id o g).0 ≡ none
    → (x : ℕ) → is_id_used x (take_id o g).1 ≡ is_id_used x g
unfolding take_id
take_id-none none g h x = ap (is_id_used x) (get_new_id-none g h)
take_id-none (some y) g h x = elim (Bool-cases (is_id_used y g)) [
  | inl used ↦ rw used
  | inr free ↦ let r = reserve_id_lem y g in ground (arith, free, r.0, r.1 x)
]

-- Releasing the ID that was taken gives back the IDs that were in use.
pub take_id-release_id :
    (o : Option ℕ) (g : IdGenerator) {id : ℕ}
    → IdGenerator.Invariant.IsValid g
    → (take_id o g).0 ≡ some id
    → (x : ℕ) → is_id_used x (release_id id (take_id o g).1).1 ≡ is_id_used x g
take_id-release_id o g {id} v h x =
    let t = take_id_lem o g v h in
    ground (arith, t.0, t.1 x, (release_id_lem id (take_id o g).1).1 x)

module _ {sys : System} where
  pub ensure_list-rest :
      (p : Slot) (v : String) (s : Tables sys)
      → ((ensure_list p v s).1.id_generator ≡ s.id_generator)
        × ((ensure_list p v s).1.mutex ≡ s.mutex)
        × ((ensure_list p v s).1.ports ≡ s.ports)
  unfolding ensure_list
  ensure_list-rest p v s = ground (
    arith,
    put_list-id_generator p v RuleList.empty s,
    put_list-mutex p v RuleList.empty s,
    put_list-ports p v RuleList.empty s,
  )

  pub ensure_list-kernel :
      (p : Slot) (v : String) (s : Tables sys) → (ensure_list p v s).1.kernel ≡ s.kernel
  unfolding ensure_list
  ensure_list-kernel p v s = ground (arith, put_list-kernel p v RuleList.empty s)
