-- ===== src/ThreadData/Reclaim.antt =====
-- The loop of reclamation, against the queue of chunks that the ring holds.
use mathlib.Core.List.{append-nil}
use lockfree_stm.Common.{
  ℕ, zero, suc, ◌+◌, ◌<◌, ◌≡◌, refl, sym, ap, ◌∙◌, true, false, List, [], ◌∷◌, ◌++◌, ltb, ◌==◌,
  if◌then◌else◌, arith, length, Bool-cases, inl, inr,
}
use lockfree_stm.QuiescenceBuffer.{size}
use lockfree_stm.QuiescenceBuffer.Layout.{Chunk, Queue, offset, size_of, length-contents}
use lockfree_stm.QuiescenceBuffer.Queue.{Holds, empty-Holds, size-contents}
use lockfree_stm.QuiescenceBuffer.Run.{do_first_epoch_callbacks-Holds, front_epoch-Holds}
use lockfree_stm.QuiescenceBuffer.Newest.{last_epoch}
use lockfree_stm.Machine.{Callback, World, ThreadData, State, run_callback, run_callbacks}
use lockfree_stm.ThreadData.{
  do_succ_callbacks_front, synchronize, reclaim_all_possible, reclaim_slow_path,
  synchronize_min_epoch,
}

-- The callbacks of the chunks at the front whose epoch lies before `min_epoch`, and what is left.
abbrev pub due : ℕ → List (Chunk Callback) → List Callback
due min_epoch [] = []
due min_epoch (ch ∷ chs) = if ltb ch.epoch min_epoch then ch.callbacks ++ due min_epoch chs else []

abbrev pub left : ℕ → List (Chunk Callback) → List (Chunk Callback)
left min_epoch [] = []
left min_epoch (ch ∷ chs) = if ltb ch.epoch min_epoch then left min_epoch chs else ch ∷ chs

abbrev pub finished : List (Chunk Callback) → Queue Callback
finished chs = record { finished = chs; working = [] }

run_callbacks-append :
    (cs ds : List Callback) (w : World)
    → run_callbacks (cs ++ ds) w ≡ run_callbacks ds (run_callbacks cs w)
unfolding run_callbacks
run_callbacks-append [] ds w = refl
run_callbacks-append (c ∷ cs) ds w = run_callbacks-append cs ds (run_callback c w)

-- `t` is `s` after the callbacks `cs` have run, with the chunks `chs` left.
pub record Reclaimed (s t : State) (cs : List Callback) (chs : List (Chunk Callback)) : Type 0 where
  pub ran : t.world ≡ run_callbacks cs s.world
  pub prev : ℕ
  pub queue : Holds t.td.succ_callbacks prev (finished chs)
  pub same : t.td ≡ record (s.td) { succ_callbacks = t.td.succ_callbacks }

front-Reclaimed :
    (s : State) (prev : ℕ) (ch : Chunk Callback) (chs : List (Chunk Callback))
    → Holds s.td.succ_callbacks prev (finished (ch ∷ chs))
    → Reclaimed s (do_succ_callbacks_front s) ch.callbacks chs
unfolding do_succ_callbacks_front
front-Reclaimed s prev ch chs v =
    let (ran, rest) = do_first_epoch_callbacks-Holds s.td.succ_callbacks prev ch chs [] v in
    record {
      ran = ap (λ cs. run_callbacks cs s.world) ran;
      prev = size_of ch;
      queue = rest;
      same = refl;
    }

Reclaimed-trans :
    (s t u : State) (cs ds : List Callback) (chs chs' : List (Chunk Callback))
    → Reclaimed s t cs chs
    → Reclaimed t u ds chs'
    → Reclaimed s u (cs ++ ds) chs'
Reclaimed-trans s t u cs ds chs chs' v w = record {
  ran = w.ran ∙ ap (run_callbacks ds) v.ran ∙ sym (run_callbacks-append cs ds s.world);
  prev = w.prev;
  queue = w.queue;
  same = w.same ∙ ap (λ (d : ThreadData). record d { succ_callbacks = u.td.succ_callbacks }) v.same;
}

-- With fuel for every chunk, reclaiming runs the oldest chunk and then each next one whose epoch lies
-- before `min_epoch`, in order, and stops at the first that does not; no other part of the record
-- changes.
pub reclaim_all_possible-Reclaimed :
    (fuel min_epoch : ℕ) (s : State) (prev : ℕ) (ch : Chunk Callback) (chs : List (Chunk Callback))
    → Holds s.td.succ_callbacks prev (finished (ch ∷ chs))
    → length chs < fuel
    → Reclaimed s
        (reclaim_all_possible fuel min_epoch s)
        (ch.callbacks ++ due min_epoch chs)
        (left min_epoch chs)
unfolding reclaim_all_possible do_succ_callbacks_front
reclaim_all_possible-Reclaimed zero min_epoch s prev ch chs v h = absurd (omega arith)
reclaim_all_possible-Reclaimed (suc fuel) min_epoch s prev ch [] v h =
    let f = front-Reclaimed s prev ch [] v in
    let b = (do_succ_callbacks_front s).td.succ_callbacks in
    let e : (size b == 1) ≡ true = empty-Holds b f.prev (finished []) f.queue in
    rw (e, append-nil ch.callbacks) f
reclaim_all_possible-Reclaimed (suc fuel) min_epoch s prev ch (d ∷ chs) v h =
    let f = front-Reclaimed s prev ch (d ∷ chs) v in
    let s' = do_succ_callbacks_front s in
    let b = s'.td.succ_callbacks in
    let e : (size b == 1) ≡ false =
      empty-Holds b f.prev (finished (d ∷ chs)) f.queue ∙ ground arith in
    let front = front_epoch-Holds b f.prev d chs [] f.queue in
    elim (Bool-cases (ltb d.epoch min_epoch)) [
      | inr t ↦ rw (e, front, t, append-nil ch.callbacks) f
      | inl t ↦
          rw (e, front, t)
            (Reclaimed-trans s s' (reclaim_all_possible fuel min_epoch s') ch.callbacks
              (d.callbacks ++ due min_epoch chs) (d ∷ chs) (left min_epoch chs) f
              (reclaim_all_possible-Reclaimed fuel min_epoch s' f.prev d chs f.queue (omega arith)))
    ]

length-offset : (chs : List (Chunk Callback)) → length chs < offset chs + 1
length-offset [] = omega arith
length-offset (ch ∷ chs) = omega (arith, length-offset chs)

-- Reclamation, with the fuel that the code's loop needs: where the oldest chunk waits, its callbacks
-- run, then those of the next chunks whose epoch lies before the least epoch of a running section, in
-- order. The other chunks stay, and no other part of the record changes.
pub reclaim_slow_path-Reclaimed :
    (loaded : List ℕ) (s : State) (prev : ℕ) (ch : Chunk Callback) (chs : List (Chunk Callback))
    → Holds s.td.succ_callbacks prev (finished (ch ∷ chs))
    → let min_epoch = synchronize_min_epoch ch.epoch loaded in
      Reclaimed s
        (reclaim_slow_path loaded s)
        (ch.callbacks ++ due min_epoch chs)
        (left min_epoch chs)
unfolding reclaim_slow_path
reclaim_slow_path-Reclaimed loaded s prev ch chs v =
    let b = s.td.succ_callbacks in
    let n : size b ≡ offset (ch ∷ chs) + 1 + 0 =
      size-contents b prev (finished (ch ∷ chs)) v ∙ length-contents prev (finished (ch ∷ chs)) in
    rw (front_epoch-Holds b prev ch chs [] v) (
      reclaim_all_possible-Reclaimed (size b) (synchronize_min_epoch ch.epoch loaded) s prev ch chs
        v (omega (arith, n, length-offset chs)))

abbrev pub all_callbacks : List (Chunk Callback) → List Callback
all_callbacks [] = []
all_callbacks (ch ∷ chs) = ch.callbacks ++ all_callbacks chs

-- The wait of a thread that ends with these chunks: for the newest one's epoch, if there is one.
abbrev pub waited : (ℕ → World → World) → List (Chunk Callback) → State → State
waited others [] s = s
waited others (ch ∷ chs) s = synchronize others (last_epoch ch chs) s
