-- ===== src/Common/Distinct.antt =====
-- Lists of numbers in which no number stands twice.
use Prim.Native.Nat.{ℕ}
use mathlib.Core.Path.{◌≡◌, refl, ◌∙◌, ap}
use mathlib.Core.Logic.{inl, inr}
use mathlib.Core.Bool.{Bool, true, false, not, ◌&&◌, ◌||◌}
use mathlib.Core.List.{List, [], ◌∷◌, ◌++◌}
use native.Mathlib.Omega.{arith}
use lockfree_stm.Common.Tests.{◌==◌, Bool-cases}

abbrev pub contains : ℕ → List ℕ → Bool
contains p [] = false
contains p (x ∷ xs) = (p == x) || contains p xs

abbrev pub is_distinct : List ℕ → Bool
is_distinct [] = true
is_distinct (x ∷ xs) = not (contains x xs) && is_distinct xs

pub contains-append :
    (z : ℕ) (xs ys : List ℕ) → contains z (xs ++ ys) ≡ (contains z xs || contains z ys)
contains-append z [] ys = refl
contains-append z (x ∷ xs) ys = ground (arith, contains-append z xs ys)

-- Two parts of a list of distinct numbers have none in common.
pub distinct-append :
    (xs ys : List ℕ)
    → is_distinct (xs ++ ys) ≡ true
    → (is_distinct xs ≡ true)
      × (is_distinct ys ≡ true)
      × ((z : ℕ) → contains z xs ≡ true → contains z ys ≡ false)
distinct-append [] ys h = (refl, h, λ z i. absurd (cc))
distinct-append (x ∷ xs) ys h =
    let (d, e, far) = distinct-append xs ys (ground arith) in
    (
      ground (arith, d, contains-append x xs ys),
      e,
      λ z i. elim (Bool-cases (z == x)) [
        | inl f ↦
            let same : z ≡ x = ground arith in
            ap (λ w. contains w ys) same ∙ ground (arith, contains-append x xs ys)
        | inr f ↦ far z (ground (arith, i))
      ],
    )

pub append-distinct :
    (xs ys : List ℕ)
    → is_distinct xs ≡ true
    → is_distinct ys ≡ true
    → ((z : ℕ) → contains z xs ≡ true → contains z ys ≡ false)
    → is_distinct (xs ++ ys) ≡ true
append-distinct [] ys d e far = e
append-distinct (x ∷ xs) ys d e far =
    let rest = append-distinct xs ys (ground arith) e (λ z i. far z (ground (arith, i))) in
    let here : contains x ys ≡ false = far x (ground arith) in
    ground (arith, rest, here, contains-append x xs ys)
