-- ===== src/Epochs/Removal.antt =====
-- A node that leaves the list of distinct nodes, and the last that takes its place.
use lockfree_stm.Common.{
  ℕ, zero, suc, ◌≡◌, inl, inr, refl, sym, ap, ◌∙◌, true, false, List, [], ◌∷◌, ◌++◌, ◌==◌, arith,
  Bool-cases, set, some, get_elem?,
}
use lockfree_stm.Common.Distinct.{contains, is_distinct, append-distinct, distinct-append}
use lockfree_stm.PodVector.{move_back, back, drop_last}
use lockfree_stm.PodVector.Laws.{drop_last-back}
use lockfree_stm.Epochs.{index_of, changed}
use lockfree_stm.Epochs.Grace.{contains_snoc}
use lockfree_stm.Epochs.Steps.{index_of-contains}

get-contains : (xs : List ℕ) (k i : ℕ) → get_elem? xs k ≡ some i → contains i xs ≡ true
get-contains [] k i e = absurd (cc)
get-contains (x ∷ xs) zero i e = let same : x ≡ i = cc in ground (arith, same)
get-contains (x ∷ xs) (suc k) i e = let rest = get-contains xs k i e in ground (arith, rest)

set_within :
    (ys : List ℕ) (a k z : ℕ) → contains z (set ys k a) ≡ true → contains z (ys ++ a ∷ []) ≡ true
set_within [] a k z h = absurd (cc)
set_within (y ∷ ys) a zero z h = ground (arith, h, contains_snoc z a ys)
set_within (y ∷ ys) a (suc k) z h = elim (Bool-cases (z == y)) [
  | inl e ↦ ground (arith, e)
  | inr e ↦ let rest = set_within ys a k z (ground (arith, h, e)) in ground (arith, rest)
]

set_without :
    (ys : List ℕ) (a k i : ℕ)
    → get_elem? (ys ++ a ∷ []) k ≡ some i
    → is_distinct (ys ++ a ∷ []) ≡ true
    → contains i (set ys k a) ≡ false
set_without [] a k i e d = refl
set_without (y ∷ ys) a zero i e d =
    let same : y ≡ i = cc in
    let out : contains i (ys ++ a ∷ []) ≡ false =
      ap (λ z. contains z (ys ++ a ∷ [])) (sym same) ∙ ground (arith, d) in
    ground (arith, out, contains_snoc i a ys)
set_without (y ∷ ys) a (suc k) i e d =
    let rest = set_without ys a k i e (ground (arith, d)) in
    let there = get-contains (ys ++ a ∷ []) k i e in
    elim (Bool-cases (i == y)) [
      | inr f ↦ ground (arith, f, rest)
      | inl f ↦
          let same : y ≡ i = ground arith in
          let here : contains y (ys ++ a ∷ []) ≡ true =
            ap (λ z. contains z (ys ++ a ∷ [])) same ∙ there in
          absurd (ground (arith, d, here))
    ]

set_distinct :
    (ys : List ℕ) (a k : ℕ) → is_distinct (ys ++ a ∷ []) ≡ true → is_distinct (set ys k a) ≡ true
set_distinct [] a k d = refl
set_distinct (y ∷ ys) a zero d =
    let (dy, da, far) = distinct-append ys (a ∷ []) (ground (arith, d)) in
    elim (Bool-cases (contains a ys)) [
      | inr e ↦ ground (arith, dy, e)
      | inl e ↦ absurd (ground (arith, far a e))
    ]
set_distinct (y ∷ ys) a (suc k) d =
    let rest = set_distinct ys a k (ground (arith, d)) in
    elim (Bool-cases (contains y (set ys k a))) [
      | inr e ↦ ground (arith, e, rest)
      | inl e ↦ absurd (ground (arith, d, set_within ys a k y e))
    ]

module _ (nodes : List ℕ) (i : ℕ) (dis : is_distinct nodes ≡ true) where
  pub added_distinct : contains i nodes ≡ false → is_distinct (changed true i nodes) ≡ true
  unfolding changed
  added_distinct out = append-distinct nodes (i ∷ []) dis refl (λ z c.
      let apart : (z == i) ≡ false = elim (Bool-cases (z == i)) [
        | inr e ↦ e
        | inl e ↦
            let same : i ≡ z = ground arith in
            let there : contains i nodes ≡ true = ap (λ y. contains y nodes) same ∙ c in
            absurd (ground (arith, out, there))
      ] in
      ground (arith, apart))

  removed :
      (k : ℕ)
      → get_elem? nodes k ≡ some i
      → (is_distinct (move_back nodes k) ≡ true)
        × (contains i (move_back nodes k) ≡ false)
        × ((z : ℕ) → contains z (move_back nodes k) ≡ true → contains z nodes ≡ true)
  unfolding move_back
  removed k e = removed_from nodes k dis e
    where
      removed_from :
          (xs : List ℕ) (k : ℕ)
          → is_distinct xs ≡ true
          → get_elem? xs k ≡ some i
          → (is_distinct (move_back xs k) ≡ true)
            × (contains i (move_back xs k) ≡ false)
            × ((z : ℕ) → contains z (move_back xs k) ≡ true → contains z xs ≡ true)
      removed_from [] k d e = absurd (cc)
      removed_from (x ∷ xs) k d e =
          let split = drop_last-back x xs in
          let d' : is_distinct (drop_last x xs ++ back x xs ∷ []) ≡ true =
            ap is_distinct split ∙ d in
          (
            set_distinct (drop_last x xs) (back x xs) k d',
            set_without (drop_last x xs) (back x xs) k i (ap (λ l. get_elem? l k) split ∙ e) d',
            λ z c. sym (ap (contains z) split) ∙ set_within (drop_last x xs) (back x xs) k z c,
          )

  -- The list without the node.
  pub removed_distinct :
      (is_distinct (changed false i nodes) ≡ true)
      × (contains i (changed false i nodes) ≡ false)
      × ((z : ℕ) → contains z (changed false i nodes) ≡ true → contains z nodes ≡ true)
  unfolding changed
  removed_distinct = elim (Bool-cases (contains i nodes)) [
    | inr e ↦ rw e (dis, e, λ z c. c)
    | inl e ↦ rw e (removed (index_of i nodes) (index_of-contains i nodes e))
  ]
