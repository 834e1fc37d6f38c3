-- ===== src/RwMutex/Count.antt =====
-- Counting the threads of a mutex by where they stand, and what a waiting writer knows of the readers.
use lockfree_stm.Common.{
  ℕ, zero, suc, ◌+◌, ◌%◌, ◌^◌, ◌≤◌, ◌≡◌, List, [], ◌∷◌, some, get_elem?, set, length, arith,
}
use lockfree_stm.RwMutex.{Pc, backing_out, sharing, writing, draining}

-- A thread's increment of the count, its share, and its write bit.
abbrev pub holds : Pc → ℕ
holds backing_out = 1
holds sharing = 1
holds _ = 0

abbrev pub shares : Pc → ℕ
shares sharing = 1
shares _ = 0

abbrev pub owns : Pc → ℕ
owns (draining r) = 1
owns writing = 1
owns _ = 0

abbrev pub writes : Pc → ℕ
writes writing = 1
writes _ = 0

abbrev pub count : (Pc → ℕ) → List Pc → ℕ
count f [] = 0
count f (p ∷ ps) = f p + count f ps

pub count-set :
    (f : Pc → ℕ) (ps : List Pc) (i : ℕ) (p q : Pc)
    → get_elem? ps i ≡ some p
    → count f (set ps i q) + f p ≡ count f ps + f q
count-set f [] i p q e = absurd (cc)
count-set f (r ∷ ps) zero p q e = let same : r ≡ p = cc in rw same (omega arith)
count-set f (r ∷ ps) (suc i) p q e = omega (arith, count-set f ps i p q e)

holds-le : (p : Pc) → holds p ≤ 1
holds-le p = ground arith

pub count-holds : (ps : List Pc) → count holds ps ≤ length ps
count-holds [] = omega arith
count-holds (p ∷ ps) = omega (arith, holds-le p, count-holds ps)

shares-le : (p : Pc) → shares p ≤ holds p
shares-le p = ground arith

pub count-shares : (ps : List Pc) → count shares ps ≤ count holds ps
count-shares [] = omega arith
count-shares (p ∷ ps) = omega (arith, shares-le p, count-shares ps)

-- With `n` threads sharing: a writer that waits has last seen at least as many, and one that is in
-- sees none.
abbrev pub Fits : ℕ → Pc → Type 0
Fits n (draining r) = n ≤ r % 2 ^ 63
Fits n writing = n ≡ 0
Fits n _ = Unit

abbrev pub AllFit : ℕ → List Pc → Type 0
AllFit n [] = Unit
AllFit n (p ∷ ps) = Fits n p × AllFit n ps

pub Fits-le : (n m : ℕ) (p : Pc) → m ≤ n → Fits n p → Fits m p
Fits-le n m p h f = ground arith

pub AllFit-le : (n m : ℕ) (ps : List Pc) → m ≤ n → AllFit n ps → AllFit m ps
AllFit-le n m [] h f = tt
AllFit-le n m (p ∷ ps) h f = (Fits-le n m p h f.0, AllFit-le n m ps h f.1)

pub Fits-free : (n : ℕ) (p : Pc) → owns p ≡ 0 → Fits n p
Fits-free n p h = ground arith

pub AllFit-free : (n : ℕ) (ps : List Pc) → count owns ps ≡ 0 → AllFit n ps
AllFit-free n [] h = tt
AllFit-free n (p ∷ ps) h = (Fits-free n p (omega arith), AllFit-free n ps (omega arith))

pub AllFit-set :
    (n : ℕ) (ps : List Pc) (i : ℕ) (q : Pc) → AllFit n ps → Fits n q → AllFit n (set ps i q)
AllFit-set n [] i q f g = tt
AllFit-set n (p ∷ ps) zero q f g = (g, f.1)
AllFit-set n (p ∷ ps) (suc i) q f g = (f.0, AllFit-set n ps i q f.1 g)

pub AllFit-at :
    (n : ℕ) (ps : List Pc) (i : ℕ) (p : Pc) → AllFit n ps → get_elem? ps i ≡ some p → Fits n p
AllFit-at n [] i p f e = absurd (cc)
AllFit-at n (r ∷ ps) zero p f e = let same : r ≡ p = cc in rw⁻¹ same f.0
AllFit-at n (r ∷ ps) (suc i) p f e = AllFit-at n ps i p f.1 e
