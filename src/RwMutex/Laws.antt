-- ===== src/RwMutex/Laws.antt =====
-- What holds of the mutex under every schedule.
use lockfree_stm.Common.{
  ℕ, zero, suc, ◌+◌, ◌*◌, ◌^◌, ◌≤◌, ◌<◌, ◌≡◌, ◌⊎◌, refl, List, [], ◌∷◌, some, get_elem?, replicate,
  arith, inl, inr, Bool-cases, Option-cases, length-replicate,
}
use lockfree_stm.RwMutex.{
  Pc, idle, backing_out, waiting, sharing, requesting, writing, loaded, requested, draining, Choice,
  System, write_bit, write_locked, read_locked, unlock_shared, step, step_at, run, start,
}
use lockfree_stm.RwMutex.Count.{
  holds, shares, owns, writes, count, count-holds, count-shares, AllFit, AllFit-free, AllFit-at,
}
use lockfree_stm.RwMutex.Moves.{
  Inv, moved, read_locked-mod, Inv-shared, Inv-unlock_shared, Inv-stay, Inv-lock, Inv-loaded,
  Inv-requested, Inv-unlock,
}

-- Every atomic operation of every thread keeps the invariant.
Inv-step :
    (c : Choice) (s : System) (i : ℕ) (p : Pc)
    → Inv s
    → get_elem? s.threads i ≡ some p
    → Inv (moved s i (step c s.word p))
unfolding step unlock_shared
Inv-step c s i idle v e = elim (Bool-cases c.shared) [
  | inl l ↦ rw l (Inv-shared s i v e)
  | inr l ↦ rw l (Inv-lock c.fails s i v e)
]
Inv-step c s i backing_out v e =
    Inv-unlock_shared s i backing_out waiting v e refl refl refl refl refl (λ n. tt)
Inv-step c s i waiting v e =
    Inv-stay s i waiting (loaded s.word) v e refl refl (omega arith) (λ c. tt)
Inv-step c s i (loaded r) v e = elim (Bool-cases (write_locked r)) [
  | inl l ↦ rw l (Inv-stay s i (loaded r) waiting v e refl refl (omega arith) (λ c. tt))
  | inr l ↦ rw l (Inv-loaded c.fails r s i v e l)
]
Inv-step c s i sharing v e =
    Inv-unlock_shared s i sharing idle v e refl refl refl refl refl (λ n. tt)
Inv-step c s i requesting v e =
    Inv-stay s i requesting (requested s.word) v e refl refl (omega arith) (λ c. tt)
Inv-step c s i (requested r) v e = elim (Bool-cases (write_locked r)) [
  | inl l ↦ rw l (Inv-stay s i (requested r) requesting v e refl refl (omega arith) (λ c. tt))
  | inr l ↦ rw l (Inv-requested c.fails r s i v e l)
]
Inv-step c s i (draining r) v e =
    let fit = AllFit-at (count shares s.threads) s.threads i (draining r) v.fit e in
    elim (Bool-cases (read_locked r)) [
      | inl l ↦ rw l (
          Inv-stay s i (draining r) (draining s.word) v e refl refl (omega arith) (λ c.
            omega (arith, c, v.word, v.few, v.sole, count-shares s.threads, count-holds s.threads)))
      | inr l ↦ rw l (
          Inv-stay s i (draining r) writing v e refl refl (omega arith)
            (λ c. ground (arith, c, fit, read_locked-mod r, l)))
    ]
Inv-step c s i writing v e = Inv-unlock s i v e

Inv-step_at : (i : ℕ) (c : Choice) (s : System) → Inv s → Inv (step_at (i, c) s)
unfolding step_at
Inv-step_at i c s v = elim (Option-cases (get_elem? s.threads i)) [
  | inl a ↦ rw (step_at, a) v
  | inr (p, e) ↦ rw (step_at, e) (Inv-step c s i p v e)
]

count-replicate : (f : Pc → ℕ) (n : ℕ) → f idle ≡ 0 → count f (replicate n idle) ≡ 0
count-replicate f zero h = refl
count-replicate f (suc n) h = omega (arith, h, count-replicate f n h)

Inv-start : (n : ℕ) → n < 2 ^ 63 → Inv (start n)
unfolding start
Inv-start n h = record {
  word = omega (arith, count-replicate holds n refl, count-replicate owns n refl);
  sole = omega (arith, count-replicate owns n refl);
  fit =
      AllFit-free (count shares (replicate n idle)) (replicate n idle)
        (count-replicate owns n refl);
  few = rw (length-replicate {0} n idle) h;
}

run-Inv : (ms : List (ℕ × Choice)) (s : System) → Inv s → Inv (run ms s)
unfolding run
run-Inv [] s v = v
run-Inv ((i, c) ∷ ms) s v = run-Inv ms (step_at (i, c) s) (Inv-step_at i c s v)

count-writes : (ps : List Pc) → count writes ps ≤ count owns ps
count-writes [] = omega arith
count-writes (p ∷ ps) = omega (arith, writes-le p, count-writes ps)
  where
    writes-le : (p : Pc) → writes p ≤ owns p
    writes-le p = ground arith

no_readers : (n : ℕ) (ps : List Pc) → AllFit n ps → (count writes ps ≡ 0) ⊎ (n ≡ 0)
no_readers n [] f = inl refl
no_readers n (p ∷ ps) f = ground (arith, f.0, no_readers n ps f.1)

-- Mutual exclusion, for fewer than `2 ^ 63` threads under any schedule: at most one thread is in the
-- exclusive section, and while one is, none is in the shared section.
pub exclusion :
    (n : ℕ) (ms : List (ℕ × Choice))
    → n < 2 ^ 63
    → let ps = (run ms (start n)).threads in
      (count writes ps ≤ 1) × ((count writes ps ≡ 0) ⊎ (count shares ps ≡ 0))
exclusion n ms h =
    let v = run-Inv ms (start n) (Inv-start n h) in
    let ps = (run ms (start n)).threads in
    (omega (arith, v.sole, count-writes ps), no_readers (count shares ps) ps v.fit)

-- The word never drifts, for fewer than `2 ^ 63` threads under any schedule: it is the number of
-- threads with an increment, plus the write bit where a thread owns it.
pub run-word :
    (n : ℕ) (ms : List (ℕ × Choice))
    → n < 2 ^ 63
    → let s = run ms (start n) in s.word ≡ count holds s.threads + write_bit * count owns s.threads
run-word n ms h = (run-Inv ms (start n) (Inv-start n h)).word
