-- ===== src/WriteSet/Filter.antt =====
-- The Bloom filter of a write set never hides an entry.
use lockfree_stm.Common.{
  ℕ, ◌+◌, ◌<◌, ◌^◌, ◌≡◌, ◌≢◌, refl, false, List, [], ◌∷◌, ◌++◌, arith, bit_and, bit_or,
}
use lockfree_stm.Common.Bits.{and-or, and_self}
use lockfree_stm.PodVector
use lockfree_stm.PodVector.{PodVector}
use lockfree_stm.PodVector.Laws
use lockfree_stm.WriteSet.Hash.{var_hash, reference_hash-pos, var_align}
use lockfree_stm.WriteSet.Entries.{Absent, IsUnique, snoc-IsUnique}
use lockfree_stm.WriteSet.{
  WriteSetValue, PodHashSet, entry, find_impl, find, lookup, lookup_slow_path, push_back,
  unchecked_push_back, allocates_on_next_push,
}

-- Every entry has its bit in the filter `f`.
abbrev pub Covers : ℕ → List WriteSetValue → Type 0
Covers f [] = Unit
Covers f (e ∷ es) = (bit_and f (var_hash e.dest_var) ≢ 0) × Covers f es

pub record IsValid (s : PodHashSet) : Type 0 where
  pub covers : Covers s.filter s.elems.elems
  pub unique : IsUnique s.elems.elems
  pub vector : PodVector.Laws.IsValid s.elems

Covers-or : (f g : ℕ) (es : List WriteSetValue) → Covers f es → Covers (bit_or f g) es
Covers-or f g [] h = tt
Covers-or f g (e ∷ es) h =
    (λ z. h.0 ((and-or f g (var_hash e.dest_var)).0 z).0, Covers-or f g es h.1)

Covers-snoc :
    (f y w : ℕ) (es : List WriteSetValue)
    → Covers f es
    → bit_and f (var_hash y) ≢ 0
    → Covers f (es ++ entry y w ∷ [])
Covers-snoc f y w [] h n = (n, tt)
Covers-snoc f y w (e ∷ es) h n = (h.0, Covers-snoc f y w es h.1 n)

hash-and-or : (f y : ℕ) → bit_and (bit_or f (var_hash y)) (var_hash y) ≢ 0
hash-and-or f y z = omega (
  arith,
  ((and-or f (var_hash y) (var_hash y)).0 z).1,
  and_self (var_hash y),
  reference_hash-pos var_align y,
)

pub missed_by_filter :
    (f x : ℕ) (es : List WriteSetValue) → Covers f es → bit_and f (var_hash x) ≡ 0 → Absent x es
unfolding find_impl
missed_by_filter f x [] h z = refl
missed_by_filter f x (e ∷ es) h z = ground (arith, missed_by_filter f x es)

-- `find` answers as the plain search over the entries does: the filter has no false negatives.
pub find-find_impl : (s : PodHashSet) (x : ℕ) → IsValid s → find s x ≡ find_impl x s.elems.elems
unfolding find
find-find_impl s x v = ground (arith, missed_by_filter s.filter x s.elems.elems v.covers)

-- `lookup` answers as the plain search does: an entry, or the bit to record for the address.
pub lookup-lookup_slow_path :
    (s : PodHashSet) (x : ℕ) → IsValid s → lookup s x ≡ lookup_slow_path s x (var_hash x)
unfolding lookup
lookup-lookup_slow_path s x v = ground (arith, missed_by_filter s.filter x s.elems.elems v.covers)

pub push_back-elems :
    (s : PodHashSet) (y w h : ℕ)
    → IsValid s
    → s.elems.last_valid + 1 < 2 ^ 63
    → (push_back s y w h).elems.elems ≡ s.elems.elems ++ entry y w ∷ []
unfolding push_back
push_back-elems s y w h v b = (PodVector.Laws.emplace_back-IsValid s.elems (entry y w) v.vector b).1

-- Pushing an address that has no entry, with its own bit, keeps the set valid.
pub push_back-IsValid :
    (s : PodHashSet) (y w : ℕ)
    → IsValid s
    → Absent y s.elems.elems
    → s.elems.last_valid + 1 < 2 ^ 63
    → IsValid (push_back s y w (var_hash y))
unfolding push_back
push_back-IsValid s y w v a b =
    let (vector, pushed) = PodVector.Laws.emplace_back-IsValid s.elems (entry y w) v.vector b in
    record {
      covers = rw pushed (
          Covers-snoc (bit_or s.filter (var_hash y)) y w s.elems.elems
            (Covers-or s.filter (var_hash y) s.elems.elems v.covers) (hash-and-or s.filter y));
      unique = rw pushed (snoc-IsUnique y w s.elems.elems a v.unique);
      vector = vector;
    }

-- Where no allocation is due, the unchecked push is the checked one.
pub unchecked-push_back :
    (s : PodHashSet) (y w h : ℕ)
    → IsValid s
    → allocates_on_next_push s ≡ false
    → unchecked_push_back s y w h ≡ push_back s y w h
unfolding unchecked_push_back push_back
unchecked-push_back s y w h v e =
    rw (PodVector.Laws.unchecked-emplace_back s.elems (entry y w) v.vector e)
