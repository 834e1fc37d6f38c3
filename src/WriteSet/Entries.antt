-- ===== src/WriteSet/Entries.antt =====
-- What the entries of a write set mean: the word that a commit would write at each address.
use lockfree_stm.Common.{
  ℕ, zero, suc, ◌≡◌, ◌≢◌, refl, sym, List, [], ◌∷◌, ◌++◌, Option, none, some, arith, ◌==◌,
  if◌then◌else◌,
}
use lockfree_stm.WriteSet.{WriteSetValue, entry, find_impl, pending_at, set_pending}

-- The first pending write to `x`.
unfoldable pub pending : ℕ → List WriteSetValue → Option ℕ
pending x [] = none
pending x (e ∷ es) = if x == e.dest_var then some e.pending_write else pending x es

abbrev pub Absent : ℕ → List WriteSetValue → Type 0
Absent x es = find_impl x es ≡ none

-- No address has two entries.
abbrev pub IsUnique : List WriteSetValue → Type 0
IsUnique [] = Unit
IsUnique (e ∷ es) = Absent e.dest_var es × IsUnique es

-- The search finds an entry exactly where there is a pending write, and the entry is that one.
pub find_impl-pending :
    (x : ℕ) (es : List WriteSetValue)
    → (elim (find_impl x es) [ none ↦ none | some i ↦ some (pending_at es i) ]) ≡ pending x es
unfolding find_impl pending pending_at
find_impl-pending x [] = refl
find_impl-pending x (e ∷ es) = ground (arith, find_impl-pending x es)

pub pending-none : (x : ℕ) (es : List WriteSetValue) → Absent x es → pending x es ≡ none
pending-none x es h = sym (rw h at (find_impl-pending x es))

pub Absent-pending : (x : ℕ) (es : List WriteSetValue) → pending x es ≡ none → Absent x es
unfolding find_impl pending
Absent-pending x [] h = refl
Absent-pending x (e ∷ es) h = ground (arith, Absent-pending x es)

pub pending-snoc :
    (x y w : ℕ) (es : List WriteSetValue)
    → Absent y es
    → pending x (es ++ entry y w ∷ []) ≡ (if x == y then some w else pending x es)
unfolding pending find_impl
pending-snoc x y w [] h = refl
pending-snoc x y w (e ∷ es) h = ground (arith, pending-snoc x y w es)

pub pending-set_pending :
    (x y w : ℕ) (es : List WriteSetValue) (i : ℕ)
    → find_impl y es ≡ some i
    → pending x (set_pending es i w) ≡ (if x == y then some w else pending x es)
unfolding pending find_impl set_pending
pending-set_pending x y w [] i h = cc
pending-set_pending x y w (e ∷ es) zero h = ground arith
pending-set_pending x y w (e ∷ es) (suc i) h = ground (arith, pending-set_pending x y w es i)

pub find_impl-set_pending :
    (x w : ℕ) (es : List WriteSetValue) (i : ℕ) → find_impl x (set_pending es i w) ≡ find_impl x es
unfolding find_impl set_pending
find_impl-set_pending x w [] i = refl
find_impl-set_pending x w (e ∷ es) zero = refl
find_impl-set_pending x w (e ∷ es) (suc i) = ground (arith, find_impl-set_pending x w es i)

pub set_pending-IsUnique :
    (w : ℕ) (es : List WriteSetValue) (i : ℕ) → IsUnique es → IsUnique (set_pending es i w)
unfolding set_pending
set_pending-IsUnique w [] i h = tt
set_pending-IsUnique w (e ∷ es) zero h = h
set_pending-IsUnique w (e ∷ es) (suc i) h =
    (rw find_impl-set_pending h.0, set_pending-IsUnique w es i h.1)

Absent-snoc :
    (x y w : ℕ) (es : List WriteSetValue) → Absent x es → x ≢ y → Absent x (es ++ entry y w ∷ [])
unfolding find_impl
Absent-snoc x y w [] h n = ground arith
Absent-snoc x y w (e ∷ es) h n = ground (arith, Absent-snoc x y w es)

pub snoc-IsUnique :
    (y w : ℕ) (es : List WriteSetValue)
    → Absent y es
    → IsUnique es
    → IsUnique (es ++ entry y w ∷ [])
unfolding find_impl
snoc-IsUnique y w [] a h = (refl, tt)
snoc-IsUnique y w (e ∷ es) a h = ground (arith, snoc-IsUnique y w es, Absent-snoc e.dest_var y w es)
