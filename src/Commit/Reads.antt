-- ===== src/Commit/Reads.antt =====
-- Validation of the read set, and the removal of written variables from it before that.
use lockfree_stm.Common.{
  ℕ, zero, suc, ◌<◌, ◌≤◌, ◌≡◌, refl, sym, ap, ◌∙◌, Bool, true, false, not, ◌&&◌, ◌||◌, List, [],
  ◌∷◌, ◌++◌, none, some, arith, if◌then◌else◌, Option-cases, inl, inr, get_elem?, length, set, drop,
}
use lockfree_stm.PodVector.{PodVector, back, drop_last, move_back, unordered_erase}
use lockfree_stm.PodVector.Laws.{length-move_back, drop_last-back}
use lockfree_stm.WriteSet.{PodHashSet, WriteSetValue, find}
use lockfree_stm.Machine.{ThreadData}
use lockfree_stm.Transaction.{Transaction, rw_valid}
use lockfree_stm.Commit.{
  Vars, remove_from, remove_writes_from_reads, validate_reads, unlock_write_set,
}

-- Whether `p` holds of every element.
unfoldable pub every : (ℕ → Bool) → List ℕ → Bool
every p [] = true
every p (x ∷ xs) = p x && every p xs

unfoldable pub is_written : PodHashSet → ℕ → Bool
is_written ws x = elim (find ws x) [ none ↦ false | some i ↦ true ]

every-snoc : (p : ℕ → Bool) (xs : List ℕ) (a : ℕ) → every p (xs ++ a ∷ []) ≡ (p a && every p xs)
unfolding every
every-snoc p [] a = refl
every-snoc p (x ∷ xs) a = ground (arith, every-snoc p xs a)

every-erase_back :
    (p : ℕ → Bool) (ys : List ℕ) (i a x : ℕ)
    → get_elem? (ys ++ a ∷ []) i ≡ some x
    → every p (ys ++ a ∷ []) ≡ (p x && every p (set ys i a))
unfolding every
every-erase_back p [] zero a x e = ground arith
every-erase_back p [] (suc i) a x e = absurd (cc)
every-erase_back p (y ∷ ys) zero a x e = ground (arith, every-snoc p ys a)
every-erase_back p (y ∷ ys) (suc i) a x e = ground (arith, every-erase_back p ys i a x)

every-move_back :
    (p : ℕ → Bool) (xs : List ℕ) (i x : ℕ)
    → get_elem? xs i ≡ some x
    → every p xs ≡ (p x && every p (move_back xs i))
unfolding move_back
every-move_back p [] i x e = absurd (cc)
every-move_back p (y ∷ ys) i x e =
    let split = drop_last-back y ys in
    rw split at (every-erase_back p (drop_last y ys) i (back y ys) x (rw split e))

every-back :
    (p : ℕ → Bool) (x : ℕ) (xs : List ℕ)
    → every p (x ∷ xs) ≡ (p (back x xs) && every p (drop_last x xs))
every-back p x xs =
    ap (every p) (sym (drop_last-back x xs)) ∙ every-snoc p (drop_last x xs) (back x xs)

-- The elements from `i` on, after the erasure at `i`, were behind it before.
every-drop-move_back :
    (p : ℕ → Bool) (x : ℕ) (xs : List ℕ) (i : ℕ)
    → every p (drop (suc i) (x ∷ xs)) ≡ true
    → every p (drop i (move_back (x ∷ xs) i)) ≡ true
unfolding move_back every drop_last back
every-drop-move_back p x [] zero h = refl
every-drop-move_back p x [] (suc i) h = refl
every-drop-move_back p x (y ∷ ys) zero h = ground (arith, every-back p y ys)
every-drop-move_back p x (y ∷ ys) (suc i) h = every-drop-move_back p y ys i h

every-drop :
    (p : ℕ → Bool) (xs : List ℕ) (i : ℕ)
    → i < length xs
    → (x : ℕ) × (get_elem? xs i ≡ some x)
      × (every p (drop i xs) ≡ (p x && every p (drop (suc i) xs)))
unfolding every
every-drop p [] i h = absurd (omega arith)
every-drop p (x ∷ xs) zero h = (x, refl, refl)
every-drop p (x ∷ xs) (suc i) h = every-drop p xs i (omega arith)

unwritten : PodHashSet → ℕ → Bool
unwritten ws x = not (is_written ws x)

every-unwritten :
    (ws : PodHashSet) (p : ℕ → Bool) (xs : List ℕ)
    → every (unwritten ws) xs ≡ true
    → every p xs ≡ every (λ x. is_written ws x || p x) xs
unfolding every unwritten
every-unwritten ws p [] h = refl
every-unwritten ws p (x ∷ xs) h = ground (arith, every-unwritten ws p xs)

every-drop-erase :
    (p : ℕ → Bool) (xs : List ℕ) (i : ℕ)
    → every p (drop (suc i) xs) ≡ true
    → every p (drop i (move_back xs i)) ≡ true
unfolding move_back every
every-drop-erase p [] zero h = refl
every-drop-erase p [] (suc i) h = refl
every-drop-erase p (x ∷ xs) i h = every-drop-move_back p x xs i h

-- What is left of the read set passes a test exactly when each variable of it that has no pending
-- write does.
abbrev Passes : PodHashSet → (ℕ → Bool) → ℕ → PodVector ℕ → Type 0
Passes ws p i rs =
    i ≤ length rs.elems
    → every (unwritten ws) (drop i rs.elems) ≡ true
    → every p (remove_from ws i rs).elems ≡ every (λ x. is_written ws x || p x) rs.elems

Passes-step :
    (ws : PodHashSet) (p : ℕ → Bool) (i : ℕ)
    → ((rs : PodVector ℕ) → Passes ws p i rs)
    → (rs : PodVector ℕ) → Passes ws p (suc i) rs
unfolding remove_from is_written unwritten unordered_erase
Passes-step ws p i ih rs b h =
    let (x, e, d) = every-drop (unwritten ws) rs.elems i b in
    elim (Option-cases (find ws x)) [
      | inl a ↦ rw (e, remove_from, a) (ih rs (omega arith) (d ∙ ground (arith, a, h)))
      | inr (j, w) ↦
          rw (e, remove_from, w)
            (ih (unordered_erase rs i) (omega (arith, length-move_back rs.elems i))
                (every-drop-erase (unwritten ws) rs.elems i h)
              ∙ ground (arith, every-move_back (λ x. is_written ws x || p x) rs.elems i x e))
    ]

remove_from-every : (ws : PodHashSet) (p : ℕ → Bool) (i : ℕ) (rs : PodVector ℕ) → Passes ws p i rs
unfolding remove_from
remove_from-every ws p zero rs b h = every-unwritten ws p rs.elems h
remove_from-every ws p (suc i) rs b h = Passes-step ws p i (remove_from-every ws p i) rs b h

every-drop-length : (p : ℕ → Bool) (xs : List ℕ) → every p (drop (length xs) xs) ≡ true
unfolding every
every-drop-length p [] = refl
every-drop-length p (x ∷ xs) = every-drop-length p xs

-- A test of the whole read set after the removal is that test of each variable that is not written.
pub remove_writes-every :
    (td : ThreadData) (p : ℕ → Bool)
    → every p (remove_writes_from_reads td).read_set.elems
      ≡ every (λ x. is_written td.write_set x || p x) td.read_set.elems
unfolding remove_writes_from_reads
remove_writes-every td p =
    remove_from-every td.write_set p (length td.read_set.elems) td.read_set (omega arith)
      (every-drop-length (unwritten td.write_set) td.read_set.elems)

-- Validation passes where no variable of the read set is newer than the transaction, and gives the
-- locks back if not.
pub validate_reads-every :
    (tx : Transaction) (xs : List ℕ) (es : List WriteSetValue) (vars : Vars)
    → let ok = every (λ x. rw_valid tx (vars x).version_lock) xs in
      validate_reads tx xs es vars ≡ (ok, if ok then vars else unlock_write_set es vars)
unfolding validate_reads every
validate_reads-every tx [] es vars = refl
validate_reads-every tx (x ∷ xs) es vars = ground (arith, validate_reads-every tx xs es vars)
