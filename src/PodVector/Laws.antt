-- ===== src/PodVector/Laws.antt =====
-- The invariant of a vector, that the unchecked push is the checked one, and what erasure keeps.
use mathlib.Core.List.{Perm, perm_append_singleton}
use mathlib.Core.List.Perm
use lockfree_stm.Common.{
  ℕ, zero, suc, ◌+◌, ◌-◌, ◌^◌, ◌≤◌, ◌<◌, ◌≡◌, refl, ap, false, List, [], ◌∷◌, ◌++◌, some, arith,
  length, get_elem?, set, length-append, length-set,
}
use lockfree_stm.PodVector.{
  PodVector, size, capacity, allocates_on_next_push, unchecked_emplace_back, emplace_back, back,
  drop_last, move_back, unordered_erase, shrink_to_fit, new,
}

module _ {ℓ} {A : Type ℓ} where
  -- One slot past the end is always there, and the capacity is a word.
  pub record IsValid (v : PodVector A) : Type 0 where
    pub room : size v ≤ v.last_valid
    pub fits : v.last_valid + 1 < 2 ^ 64

  pub length-snoc : (xs : List A) (a : A) → length (xs ++ a ∷ []) ≡ length xs + 1
  length-snoc xs a = omega (arith, length-append {ℓ} xs (a ∷ []))

  -- A push keeps the invariant, as long as the doubled capacity is a word, and appends.
  pub emplace_back-IsValid :
      (v : PodVector A) (a : A)
      → IsValid v
      → v.last_valid + 1 < 2 ^ 63
      → IsValid (emplace_back v a) × ((emplace_back v a).elems ≡ v.elems ++ a ∷ [])
  unfolding emplace_back
  emplace_back-IsValid v a h b = ground (arith, length-snoc v.elems a)

  pub unchecked-emplace_back :
      (v : PodVector A) (a : A)
      → IsValid v
      → allocates_on_next_push v ≡ false
      → unchecked_emplace_back v a ≡ emplace_back v a
  unfolding emplace_back allocates_on_next_push
  unchecked-emplace_back v a h e = ground (arith, length-snoc v.elems a)

  pub drop_last-back : (x : A) (xs : List A) → drop_last x xs ++ back x xs ∷ [] ≡ x ∷ xs
  unfolding back drop_last
  drop_last-back x [] = refl
  drop_last-back x (y ∷ xs) = ap (λ l. x ∷ l) (drop_last-back y xs)

  erase_back-perm :
      (ys : List A) (a x : A) (i : ℕ)
      → get_elem? (ys ++ a ∷ []) i ≡ some x
      → Perm (x ∷ set ys i a) (ys ++ a ∷ [])
  erase_back-perm [] a x zero e = let p : a ≡ x = cc in rw p (Perm.refl (x ∷ []))
  erase_back-perm [] a x (suc i) e = cc
  erase_back-perm (y ∷ ys) a x zero e =
      let p : y ≡ x = cc in rw p (Perm.cons x (Perm.symm (perm_append_singleton a ys)))
  erase_back-perm (y ∷ ys) a x (suc i) e =
      Perm.trans (Perm.swap y x (set ys i a)) (Perm.cons y (erase_back-perm ys a x i e))

  move_back-perm :
      (xs : List A) (i : ℕ) (x : A) → get_elem? xs i ≡ some x → Perm (x ∷ move_back xs i) xs
  unfolding move_back
  move_back-perm [] i x e = absurd (cc)
  move_back-perm (y ∷ ys) i x e =
      let split = drop_last-back y ys in
      rw split at (erase_back-perm (drop_last y ys) (back y ys) x i (rw split e))

  pub length-move_back : (xs : List A) (i : ℕ) → length (move_back xs i) ≡ length xs - 1
  unfolding move_back
  length-move_back [] i = omega arith
  length-move_back (y ∷ ys) i = omega (
    arith,
    length-set {ℓ} (drop_last y ys) i (back y ys),
    ap length (drop_last-back y ys),
    length-snoc (drop_last y ys) (back y ys),
  )

  -- Erasing the object at `i` loses that object and no other, in some order, and keeps the
  -- invariant.
  pub unordered_erase-perm :
      (v : PodVector A) (i : ℕ) (x : A)
      → get_elem? v.elems i ≡ some x
      → IsValid v
      → Perm (x ∷ (unordered_erase v i).elems) v.elems × IsValid (unordered_erase v i)
  unfolding unordered_erase
  unordered_erase-perm v i x e h = (
    move_back-perm v.elems i x e,
    record { room = omega (arith, h.room, length-move_back v.elems i); fits = h.fits },
  )

  -- Shrinking keeps the objects and the one free slot, and leaves no more than that.
  pub shrink_to_fit_lem :
      (v : PodVector A)
      → IsValid v
      → IsValid (shrink_to_fit v)
        × ((shrink_to_fit v).elems ≡ v.elems)
        × (capacity (shrink_to_fit v) ≡ size v + 1)
  unfolding shrink_to_fit
  shrink_to_fit_lem v h = ground arith

  pub new-IsValid : IsValid new
  unfolding new
  new-IsValid = record { room = omega arith; fits = omega arith }
