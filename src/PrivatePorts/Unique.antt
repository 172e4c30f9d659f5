-- ===== src/PrivatePorts/Unique.antt =====
-- The private ports of two aliases differ.
use mathlib.Core.Path.{subst}
use opx_nas_linux.Prelude.{
  ℕ, zero, suc, ◌+◌, ◌≤◌, ◌<◌, true, false, none, some, List, [], ◌∷◌, arith, inl, inr, refl, sym,
  ap, ◌∙◌, ◌≢◌, ◌⊎◌, Bool-cases, Option-cases, lookup, remove, lookup-put, lookup-remove, ◌==◌,
  if◌then◌else◌, ◌≡◌,
}
use opx_nas_linux.IdGenerator.{contains}
use opx_nas_linux.PrivatePorts.{
  Alias, PortMap, eq_alias, alias_same_iff, values, first_free, add_port, pop_port,
}

pub first_free_lem :
    (n port : ℕ) (used : List ℕ) {x : ℕ}
    → first_free n port used ≡ some x
    → (port ≤ x) × (x < port + n) × (contains x used ≡ false)
unfolding first_free
first_free_lem zero port used h = ground arith
first_free_lem (suc n) port used {x} h = elim (Bool-cases (contains port used)) [
  | inl taken ↦
      let r = first_free_lem n (port + 1) used (rw (taken, first_free) at h) in
      (omega (arith, r.0), omega (arith, r.1), r.2)
  | inr free ↦ ground (arith, free)
]

first_free-none :
    (n port : ℕ) (used : List ℕ)
    → first_free n port used ≡ none
    → (x : ℕ) → port ≤ x
    → x < port + n
    → contains x used ≡ true
unfolding first_free
first_free-none zero port used h x l u = absurd (omega (arith, l, u))
first_free-none (suc n) port used h x l u = elim (Bool-cases (contains port used)) [
  | inl taken ↦
      ground (arith, taken, first_free-none n (port + 1) used (rw (taken, first_free) at h) x, l, u)
  | inr free ↦ ground (arith, (rw (free, first_free) at h))
]

lookup-values :
    (a : Alias) (m : PortMap) {port : ℕ} → lookup a m ≡ some port → contains port (values m) ≡ true
unfolding lookup contains
lookup-values a [] h = ground arith
lookup-values a ((b, p) ∷ m) {port} h = elim (Bool-cases (b == a)) [
  | inl same ↦ ground (arith, (rw (same, lookup) at h))
  | inr other ↦ ground (arith, lookup-values a m (rw (other, lookup) at h))
]

-- The ports of the map lie in the range of private ports, and no two aliases share one.
pub record IsValid (m : PortMap) : Type 0 where
  pub in_range : (a : Alias) (port : ℕ) → lookup a m ≡ some port → (62000 ≤ port) × (port < 65000)
  pub unique : (a b : Alias) (port : ℕ) → lookup a m ≡ some port → lookup b m ≡ some port → a ≡ b

-- The port that is given to an alias lies in the range of private ports and belonged to no alias;
-- after the call the alias has it, and every other alias has what it had.
pub add_port_lem :
    (alias : Alias) (m : PortMap) {port : ℕ}
    → (add_port alias m).0 ≡ some port
    → (62000 ≤ port)
      × (port < 65000)
      × (contains port (values m) ≡ false)
      × ((b : Alias)
          → lookup b (add_port alias m).1 ≡ (if alias == b then some port else lookup b m))
unfolding add_port
add_port_lem alias m {port} h = elim (Option-cases (lookup alias m)) [
  | inl absent ↦ elim (Option-cases (first_free 3000 62000 (values m))) [
    | inl full ↦ ground (arith, (rw (absent, full, add_port) at h))
    | inr (x, found) ↦
        let e : some x ≡ some port = rw (absent, found, add_port) at h in
        let same : x ≡ port = ground arith in
        let r = first_free_lem 3000 62000 (values m) found in
        subst
          (λ y.
            (62000 ≤ y)
            × (y < 65000)
            × (contains y (values m) ≡ false)
            × ((b : Alias)
                → lookup b (add_port alias m).1 ≡ (if alias == b then some y else lookup b m)))
          same
          (r.0, omega (arith, r.1), r.2, λ b. rw (absent, found, add_port) (lookup-put alias b x m))
  ]
  | inr (dup, at) ↦ ground (arith, (rw (at, add_port) at h))
]

pub refused-same :
    (alias : Alias) (m : PortMap) → (add_port alias m).0 ≡ none → (add_port alias m).1 ≡ m
unfolding add_port
refused-same alias m h = elim (Option-cases (lookup alias m)) [
  | inr (dup, at) ↦ rw (at, add_port) refl
  | inl absent ↦ elim (Option-cases (first_free 3000 62000 (values m))) [
    | inl full ↦ rw (absent, full, add_port) refl
    | inr (x, found) ↦ ground (arith, (rw (absent, found, add_port) at h))
  ]
]

module _ (alias : Alias) (m : PortMap) {port : ℕ} (given : (add_port alias m).0 ≡ some port) where
  -- An entry of the new map is the new one or an old one.
  added :
      (a : Alias) (x : ℕ)
      → lookup a (add_port alias m).1 ≡ some x
      → ((alias ≡ a) × (x ≡ port)) ⊎ (lookup a m ≡ some x)
  added a x h =
      let r : lookup a (add_port alias m).1 ≡ (if alias == a then some port else lookup a m) =
        (add_port_lem alias m given).3 a in
      elim (Bool-cases (alias == a)) [
        | inl same ↦
            let e : some port ≡ some x = sym (rw same at r) ∙ h in
            inl ((alias_same_iff alias a).0 same, ground arith)
        | inr other ↦ inr (sym (rw other at r) ∙ h)
      ]

  new_port : (a : Alias) → lookup a m ≢ some port
  new_port a h = let r = add_port_lem alias m given in ground (arith, lookup-values a m h, r.2)

  added-IsValid : IsValid m → IsValid (add_port alias m).1
  added-IsValid v =
      let r = add_port_lem alias m given in
      record {
        in_range = λ a x h. elim (added a x h) [
          | inl (e, same) ↦ (omega (arith, r.0, same), omega (arith, r.1, same))
          | inr old ↦ v.in_range a x old
        ];
        unique = λ a b x h k. elim (added a x h) [
          | inl (e, same) ↦ elim (added b x k) [
            | inl (f, _) ↦ sym e ∙ f
            | inr old ↦ absurd (new_port b (old ∙ ap some same))
          ]
          | inr old ↦ elim (added b x k) [
            | inl (f, same) ↦ absurd (new_port a (old ∙ ap some same))
            | inr older ↦ v.unique a b x old older
          ]
        ];
      }

-- The private ports stay in their range, and no two aliases share one, when an alias is added:
-- whether it is given a port, has one already, or all ports are taken.
pub add_port-IsValid : (alias : Alias) (m : PortMap) → IsValid m → IsValid (add_port alias m).1
add_port-IsValid alias m v = elim (Option-cases (add_port alias m).0) [
  | inl refused ↦ subst IsValid (sym (refused-same alias m refused)) v
  | inr (port, given) ↦ added-IsValid alias m given v
]

-- The private ports stay in their range and no two aliases share one when an alias is removed.
pub pop_port-IsValid : (alias : Alias) (m : PortMap) → IsValid m → IsValid (pop_port alias m).1
unfolding pop_port
pop_port-IsValid alias m v = record {
  in_range = λ a x h. v.in_range a x (kept a x h);
  unique = λ a b x h k. v.unique a b x (kept a x h) (kept b x k);
}
  where
    kept : (a : Alias) (x : ℕ) → lookup a (remove alias m) ≡ some x → lookup a m ≡ some x
    kept a x h = ground (arith, lookup-remove alias a m)

-- An alias that has no port yet is refused only when every private port belongs to an alias.
add_port-full :
    (alias : Alias) (m : PortMap)
    → lookup alias m ≡ none
    → (add_port alias m).0 ≡ none
    → (x : ℕ) → 62000 ≤ x
    → x < 65000
    → contains x (values m) ≡ true
unfolding add_port
add_port-full alias m absent refused x l u =
    elim (Option-cases (first_free 3000 62000 (values m))) [
      | inl full ↦ first_free-none 3000 62000 (values m) full x l (omega (arith, u))
      | inr (y, found) ↦ ground (arith, (rw (absent, found, add_port) at refused))
    ]
