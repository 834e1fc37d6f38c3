-- ===== src/RwMutex/Moves.antt =====
-- The invariant of the mutex, and that each atomic operation keeps it.
use lockfree_stm.Common.{
  ℕ, ◌+◌, ◌-◌, ◌*◌, ◌%◌, ◌^◌, ◌≤◌, ◌<◌, ◌≡◌, ◌⊎◌, refl, Bool, false, not, ◌&&◌, List, some, ◌==◌,
  bit_or, get_elem?, set, length, arith, inl, inr, Bool-cases, length-set,
}
use lockfree_stm.Common.Bits.{bit_at}
use lockfree_stm.Common.Mask.{and_mask}
use lockfree_stm.RwMutex.{
  Pc, idle, backing_out, waiting, sharing, requesting, writing, loaded, requested, draining, System,
  write_bit, write_locked, read_locked, compare_exchange_weak, lock_shared, lock, unlock,
}
use lockfree_stm.RwMutex.Count.{
  holds, shares, owns, count, count-set, count-holds, count-shares, Fits, AllFit, AllFit-le,
  AllFit-free, AllFit-set,
}

-- The word is the number of increments and the write bit; one writer at most; and the writer knows
-- the readers. There are fewer than `2 ^ 63` threads.
pub record Inv (s : System) : Type 0 where
  pub word : s.word ≡ count holds s.threads + write_bit * count owns s.threads
  pub sole : count owns s.threads ≤ 1
  pub fit : AllFit (count shares s.threads) s.threads
  pub few : length s.threads < 2 ^ 63

abbrev pub moved : System → ℕ → ℕ × Pc → System
moved s i (word, q) = record { word = word; threads = set s.threads i q }

-- A move that accounts for its change of the word, brings in no second writer, and no reader
-- beside a writer.
pub Inv-set :
    (s : System) (i w : ℕ) (p q : Pc)
    → Inv s
    → get_elem? s.threads i ≡ some p
    → w + holds p + write_bit * owns p ≡ s.word + holds q + write_bit * owns q
    → count owns s.threads + owns q ≤ 1 + owns p
    → (shares q ≤ shares p) ⊎ ((count owns s.threads ≡ 0) × (owns q ≡ 0))
    → (count shares s.threads + shares q ≡ count shares (set s.threads i q) + shares p
        → Fits (count shares (set s.threads i q)) q)
    → Inv (moved s i (w, q))
Inv-set s i w p q v e hw ho hs hf =
    let ts = s.threads in
    let fits = hf (omega (arith, count-set shares ts i p q e)) in
    record {
      word = omega (arith, v.word, count-set holds ts i p q e, count-set owns ts i p q e);
      sole = omega (arith, count-set owns ts i p q e);
      fit = elim hs [
        | inl le ↦
            AllFit-set (count shares (set ts i q)) ts i q
              (AllFit-le (count shares ts) (count shares (set ts i q)) ts
                (omega (arith, count-set shares ts i p q e)) v.fit)
              fits
        | inr free ↦
            AllFit-set (count shares (set ts i q)) ts i q
              (AllFit-free (count shares (set ts i q)) ts free.0) fits
      ];
      few = omega (arith, v.few, length-set {0} ts i q);
    }

-- The write bit is set exactly where a thread owns it.
write_locked-Inv : (s : System) → Inv s → write_locked s.word ≡ not (count owns s.threads == 0)
unfolding write_locked
write_locked-Inv s v =
    let b = bit_at 63 (count holds s.threads) (omega (arith, count-holds s.threads, v.few)) in
    ground (arith, v.word, v.sole, b.and_clear, b.and_set)

pub read_locked-mod : (r : ℕ) → read_locked r ≡ not (r % 2 ^ 63 == 0)
unfolding read_locked
read_locked-mod r = rw (and_mask 63 r)

-- The thread `p` at `i` would have one more increment as `q`: there is room for it.
room :
    (s : System) (i : ℕ) (p q : Pc)
    → Inv s
    → get_elem? s.threads i ≡ some p
    → count holds s.threads + holds q < 2 ^ 63 + holds p
room s i p q v e = omega (
  arith,
  v.few,
  length-set {0} s.threads i q,
  count-holds (set s.threads i q),
  count-set holds s.threads i p q e,
)

holds-at : (ps : List Pc) (i : ℕ) (p : Pc) → get_elem? ps i ≡ some p → holds p ≤ count holds ps
holds-at ps i p e = omega (arith, count-set holds ps i p idle e)

owns-at : (ps : List Pc) (i : ℕ) (p : Pc) → get_elem? ps i ≡ some p → owns p ≤ count owns ps
owns-at ps i p e = omega (arith, count-set owns ps i p idle e)

pub Inv-shared :
    (s : System) (i : ℕ)
    → Inv s
    → get_elem? s.threads i ≡ some idle
    → Inv (moved s i (lock_shared s.word))
unfolding lock_shared
Inv-shared s i v e = elim (Bool-cases (write_locked s.word)) [
  | inl l ↦ rw l (
      Inv-set s i ((s.word + 1) % 2 ^ 64) idle backing_out v e
        (ground (arith, v.word, v.sole, room s i idle backing_out v e)) (ground (arith, v.sole))
        (inl (ground arith)) (λ c. tt))
  | inr l ↦ rw l (
      Inv-set s i ((s.word + 1) % 2 ^ 64) idle sharing v e
        (ground (arith, v.word, v.sole, room s i idle sharing v e)) (ground (arith, v.sole))
        (inr (ground (arith, write_locked-Inv s v))) (λ c. tt))
]

pub Inv-unlock_shared :
    (s : System) (i : ℕ) (p q : Pc)
    → Inv s
    → get_elem? s.threads i ≡ some p
    → holds p ≡ 1
    → owns p ≡ 0
    → holds q ≡ 0
    → owns q ≡ 0
    → shares q ≡ 0
    → ((n : ℕ) → Fits n q)
    → Inv (moved s i ((s.word + 2 ^ 64 - 1) % 2 ^ 64, q))
Inv-unlock_shared s i p q v e hp op hq oq sq f =
    Inv-set s i ((s.word + 2 ^ 64 - 1) % 2 ^ 64) p q v e
      (ground (arith, v.word, v.sole, room s i p q v e, holds-at s.threads i p e))
      (ground (arith, v.sole)) (inl (omega arith)) (λ c. f (count shares (set s.threads i q)))

-- A move that leaves the word alone.
pub Inv-stay :
    (s : System) (i : ℕ) (p q : Pc)
    → Inv s
    → get_elem? s.threads i ≡ some p
    → holds p ≡ holds q
    → owns p ≡ owns q
    → shares q ≤ shares p
    → (count shares s.threads + shares q ≡ count shares (set s.threads i q) + shares p
        → Fits (count shares (set s.threads i q)) q)
    → Inv (moved s i (s.word, q))
Inv-stay s i p q v e h o sh f =
    Inv-set s i s.word p q v e (omega (arith, h, o)) (omega (arith, v.sole, o)) (inl sh) f

pub Inv-lock :
    (fails : Bool) (s : System) (i : ℕ)
    → Inv s
    → get_elem? s.threads i ≡ some idle
    → Inv (moved s i (lock fails s.word))
unfolding lock compare_exchange_weak
Inv-lock fails s i v e = elim (Bool-cases (not fails && s.word == 0)) [
  | inl l ↦ rw l (
      Inv-set s i write_bit idle writing v e (ground (arith, l)) (ground (arith, v.word, l))
        (inl (ground arith)) (λ c. ground (arith, v.word, l, c, count-shares s.threads)))
  | inr l ↦ rw l (Inv-stay s i idle requesting v e refl refl (omega arith) (λ c. tt))
]

pub Inv-loaded :
    (fails : Bool) (r : ℕ) (s : System) (i : ℕ)
    → Inv s
    → get_elem? s.threads i ≡ some (loaded r)
    → write_locked r ≡ false
    → Inv (moved s i (compare_exchange_weak fails s.word r ((r + 1) % 2 ^ 64) sharing waiting))
unfolding compare_exchange_weak
Inv-loaded fails r s i v e un = elim (Bool-cases (not fails && s.word == r)) [
  | inl l ↦
      let same : s.word ≡ r = ground arith in
      let free : count owns s.threads ≡ 0 = ground (arith, same, write_locked-Inv s v) in
      rw l (
        Inv-set s i ((r + 1) % 2 ^ 64) (loaded r) sharing v e
          (ground (arith, same, v.word, free, room s i (loaded r) sharing v e))
          (ground (arith, v.sole)) (inr (free, refl)) (λ c. tt))
  | inr l ↦ rw l (Inv-stay s i (loaded r) waiting v e refl refl (omega arith) (λ c. tt))
]

pub Inv-requested :
    (fails : Bool) (r : ℕ) (s : System) (i : ℕ)
    → Inv s
    → get_elem? s.threads i ≡ some (requested r)
    → write_locked r ≡ false
    → Inv (
        moved s i
          (compare_exchange_weak fails s.word r (bit_or r write_bit) (draining r) requesting))
unfolding compare_exchange_weak
Inv-requested fails r s i v e un = elim (Bool-cases (not fails && s.word == r)) [
  | inl l ↦
      let same : s.word ≡ r = ground arith in
      let free : count owns s.threads ≡ 0 = ground (arith, same, write_locked-Inv s v) in
      let h = count holds s.threads in
      let few : h < 2 ^ 63 = omega (arith, count-holds s.threads, v.few) in
      let low : r ≡ h = omega (arith, same, v.word) in
      let or : bit_or r write_bit ≡ r + 2 ^ 63 = rw low (bit_at 63 h few).or_clear in
      rw l (
        Inv-set s i (bit_or r write_bit) (requested r) (draining r) v e (omega (arith, or, same))
          (omega (arith, free)) (inl (omega arith))
          (λ c. omega (arith, low, few, c, count-shares s.threads)))
  | inr l ↦ rw l (Inv-stay s i (requested r) requesting v e refl refl (omega arith) (λ c. tt))
]

pub Inv-unlock :
    (s : System) (i : ℕ)
    → Inv s
    → get_elem? s.threads i ≡ some writing
    → Inv (moved s i (unlock s.word))
unfolding unlock
Inv-unlock s i v e = rw (and_mask 63 s.word) (
    Inv-set s i (s.word % 2 ^ 63) writing idle v e
      (ground (arith, v.word, v.sole, room s i writing idle v e, owns-at s.threads i writing e))
      (ground (arith, v.sole)) (inl (omega arith)) (λ c. tt))
