-- ===== src/RuleList/Positions.antt =====
-- The map from rule IDs to positions (`rule_id_map`), against the positions of the IDs in the list.
use opx_nas_linux.Prelude.{
  ℕ, zero, suc, ◌+◌, ◌≡◌, refl, false, Option, none, some, List, [], ◌∷◌, ◌++◌, arith, inl, inr,
  Bool-cases, Option-cases, if◌then◌else◌, length, get_elem?, take, drop, insert_at, delete_at,
  length-take, take-append-drop, drop-append, split_at, ap, sym, ◌∙◌, ◌≤◌, lookup, put, remove,
  lookup-put, lookup-remove, eq_nat, eq_option, option_eq_iff, option_eq,
}
use mathlib.Core.Path.{subst}
use opx_nas_linux.RuleList.{number_from}

abbrev pub RuleId : Type 0
RuleId = Option ℕ

-- The first position of an ID.
unfoldable pub index_of : Option ℕ → List (Option ℕ) → Option ℕ
index_of k [] = none
index_of k (x ∷ xs) =
    if option_eq x k then some 0 else elim (index_of k xs) [ none ↦ none | some i ↦ some (suc i) ]

-- No ID occurs twice.
abbrev pub Distinct : List (Option ℕ) → Type 0
Distinct [] = Unit
Distinct (x ∷ xs) = (index_of x xs ≡ none) × Distinct xs

-- `o` moved by `n`, or `other` where it is none
abbrev pub shifted : ℕ → Option ℕ → Option ℕ → Option ℕ
shifted n none other = other
shifted n (some i) other = some (n + i)

pub lookup-number_from :
    (k : Option ℕ) (n : ℕ) (ids : List (Option ℕ)) (m : List (Option ℕ × ℕ))
    → Distinct ids
    → lookup k (number_from n ids m) ≡ shifted n (index_of k ids) (lookup k m)
unfolding number_from index_of
lookup-number_from k n [] m d = refl
lookup-number_from k n (x ∷ xs) m d =
    let ih = lookup-number_from k (n + 1) xs (put x n m) d.1 in
    ground (arith, ih, lookup-put x k n m, option_eq_iff x k)

pub index_of-append :
    (k : Option ℕ) (xs ys : List (Option ℕ))
    → index_of k (xs ++ ys)
      ≡ elim (index_of k xs) [ some i ↦ some i | none ↦ shifted (length xs) (index_of k ys) none ]
unfolding index_of
index_of-append k [] ys = ground arith
index_of-append k (x ∷ xs) ys = ground (arith, index_of-append k xs ys)

-- In a list of distinct IDs, an ID of the second part is not in the first.
pub Distinct-append :
    (k : Option ℕ) (xs ys : List (Option ℕ)) {j : ℕ}
    → Distinct (xs ++ ys)
    → index_of k ys ≡ some j
    → index_of k xs ≡ none
unfolding index_of
Distinct-append k [] ys d e = refl
Distinct-append k (x ∷ xs) ys d e =
    ground (arith, Distinct-append k xs ys d.1 e, index_of-append k xs ys, option_eq_iff x k)

pub Distinct-right : (xs ys : List (Option ℕ)) → Distinct (xs ++ ys) → Distinct ys
Distinct-right [] ys d = d
Distinct-right (x ∷ xs) ys d = Distinct-right xs ys d.1

pub Distinct-insert :
    (x : Option ℕ) (xs ys : List (Option ℕ))
    → Distinct (xs ++ ys)
    → index_of x (xs ++ ys) ≡ none
    → Distinct (xs ++ (x ∷ ys))
unfolding index_of
Distinct-insert x [] ys d e = (e, d)
Distinct-insert x (y ∷ xs) ys d e = (
  ground (
    arith,
    d.0,
    e,
    index_of-append y xs ys,
    index_of-append y xs (x ∷ ys),
    option_eq_iff y x,
    option_eq_iff x y,
  ),
  Distinct-insert x xs ys d.1 (ground arith),
)

pub Distinct-delete :
    (x : Option ℕ) (xs ys : List (Option ℕ))
    → Distinct (xs ++ (x ∷ ys))
    → Distinct (xs ++ ys) × (index_of x (xs ++ ys) ≡ none)
unfolding index_of
Distinct-delete x [] ys d = (d.1, d.0)
Distinct-delete x (y ∷ xs) ys d =
    let ih = Distinct-delete x xs ys d.1 in
    (
      (ground (arith, d.0, index_of-append y xs ys, index_of-append y xs (x ∷ ys)), ih.0),
      ground
          (arith, d.0, ih.1, index_of-append y xs (x ∷ ys), option_eq_iff y x, option_eq_iff x y),
    )

-- An ID that is absent stays absent when another is inserted, or any is deleted.
pub index_of-insert :
    (k x : Option ℕ) (xs ys : List (Option ℕ))
    → option_eq x k ≡ false
    → index_of k (xs ++ ys) ≡ none
    → index_of k (xs ++ (x ∷ ys)) ≡ none
unfolding index_of
index_of-insert k x [] ys ne h = ground arith
index_of-insert k x (y ∷ xs) ys ne h = ground (arith, index_of-insert k x xs ys ne)

pub index_of-delete :
    (k x : Option ℕ) (xs ys : List (Option ℕ))
    → index_of k (xs ++ (x ∷ ys)) ≡ none
    → index_of k (xs ++ ys) ≡ none
unfolding index_of
index_of-delete k x [] ys h = ground arith
index_of-delete k x (y ∷ xs) ys h = ground (arith, index_of-delete k x xs ys)

module _ (x : Option ℕ) (xs ys : List (Option ℕ)) (m : List (Option ℕ × ℕ)) (k : Option ℕ) where
  -- Numbering from the new ID on makes the map of the longer list.
  pub lookup-number_from_insert :
      Distinct (xs ++ ys)
      → index_of x (xs ++ ys) ≡ none
      → lookup k m ≡ index_of k (xs ++ ys)
      → lookup k (number_from (length xs) (x ∷ ys) m) ≡ index_of k (xs ++ (x ∷ ys))
  lookup-number_from_insert d e h =
      let d' = Distinct-insert x xs ys d e in
      let numbered = lookup-number_from k (length xs) (x ∷ ys) m (Distinct-right xs (x ∷ ys) d') in
      elim (Option-cases (index_of k (x ∷ ys))) [
        | inl out ↦ ground (
          arith,
          numbered,
          out,
          h,
          index_of-append k xs ys,
          index_of-append k xs (x ∷ ys),
          tail_none out,
        )
        | inr (j, at) ↦ ground (
          arith,
          numbered,
          at,
          index_of-append k xs (x ∷ ys),
          Distinct-append k xs (x ∷ ys) d' at,
        )
      ]
    where
      tail_none : index_of k (x ∷ ys) ≡ none → index_of k ys ≡ none
      tail_none out = unfold index_of in ground arith

  -- Numbering from the position of the deleted ID on makes the map of the shorter list.
  pub lookup-number_from_delete :
      Distinct (xs ++ (x ∷ ys))
      → lookup k m ≡ index_of k (xs ++ (x ∷ ys))
      → lookup k (number_from (length xs) ys (remove x m)) ≡ index_of k (xs ++ ys)
  lookup-number_from_delete d h =
      let d' = Distinct-delete x xs ys d in
      let numbered = lookup-number_from k (length xs) ys (remove x m) (Distinct-right xs ys d'.0) in
      elim (Option-cases (index_of k ys)) [
        | inl out ↦ elim (Bool-cases (option_eq x k)) [
          | inl same ↦
              ground (arith, numbered, out, h, lookup-remove x k m, option_eq_iff x k, d'.1)
          | inr other ↦ ground (
            arith,
            numbered,
            out,
            h,
            lookup-remove x k m,
            index_of-append k xs ys,
            index_of-append k xs (x ∷ ys),
            tail_none out other,
          )
        ]
        | inr (j, at) ↦
            ground (arith, numbered, at, index_of-append k xs ys, Distinct-append k xs ys d'.0 at)
      ]
    where
      tail_none : index_of k ys ≡ none → option_eq x k ≡ false → index_of k (x ∷ ys) ≡ none
      tail_none out other = unfold index_of in ground arith

-- The same at a position of a list, as `insert` and `remove` number the rules.
pub lookup-insert_at :
    (x : Option ℕ) (i : ℕ) (xs : List (Option ℕ)) (m : List (Option ℕ × ℕ)) (k : Option ℕ)
    → i ≤ length xs
    → Distinct xs
    → index_of x xs ≡ none
    → lookup k m ≡ index_of k xs
    → lookup k (number_from i (drop i (insert_at i x xs)) m) ≡ index_of k (insert_at i x xs)
lookup-insert_at x i xs m k le d e h =
    let front = take i xs in
    let back = drop i xs in
    let whole : front ++ back ≡ xs = take-append-drop i xs in
    subst
      (λ n.
        lookup k (number_from n (drop n (front ++ (x ∷ back))) m)
        ≡ index_of k (front ++ (x ∷ back)))
      (length-take i xs le)
      (rw (drop-append front (x ∷ back)) (
        lookup-number_from_insert x front back m k (subst Distinct (sym whole) d)
          (ap (index_of x) whole ∙ e) (h ∙ ap (index_of k) (sym whole))))

pub lookup-delete_at :
    (x : Option ℕ) (i : ℕ) (xs : List (Option ℕ)) (m : List (Option ℕ × ℕ)) (k : Option ℕ)
    → get_elem? xs i ≡ some x
    → Distinct xs
    → lookup k m ≡ index_of k xs
    → lookup k (number_from i (drop i (delete_at i xs)) (remove x m)) ≡ index_of k (delete_at i xs)
lookup-delete_at x i xs m k at d h =
    let front = take i xs in
    let back = drop (suc i) xs in
    let (whole, inside) = split_at i xs at in
    subst
      (λ n.
        lookup k (number_from n (drop n (front ++ back)) (remove x m)) ≡ index_of k (front ++ back))
      (length-take i xs (omega (arith, inside)))
      (rw (drop-append front back) (
        lookup-number_from_delete x front back m k (subst Distinct (sym whole) d)
          (h ∙ ap (index_of k) (sym whole))))

-- `index_of` finds an occurrence, and of distinct IDs every one.
pub get_elem?-index_of :
    (k : Option ℕ) (xs : List (Option ℕ)) {i : ℕ} → index_of k xs ≡ some i → get_elem? xs i ≡ some k
unfolding index_of
get_elem?-index_of k [] e = cc
get_elem?-index_of k (x ∷ xs) {i} e = elim (Bool-cases (option_eq x k)) [
  | inl same ↦ ground (arith, same, option_eq_iff x k)
  | inr other ↦ elim (Option-cases (index_of k xs)) [
    | inl out ↦ ground (arith, other, out)
    | inr (j, at) ↦ ground (arith, other, at, get_elem?-index_of k xs at)
  ]
]

pub index_of-get_elem? :
    (k : Option ℕ) (xs : List (Option ℕ)) (i : ℕ)
    → Distinct xs
    → get_elem? xs i ≡ some k
    → index_of k xs ≡ some i
unfolding index_of
index_of-get_elem? k [] i d e = cc
index_of-get_elem? k (x ∷ xs) zero d e = ground (arith, option_eq_iff x k)
index_of-get_elem? k (x ∷ xs) (suc i) d e =
    ground (arith, d.0, index_of-get_elem? k xs i d.1 e, option_eq_iff x k)
