-- ===== src/QuiescenceBuffer/Run.antt =====
-- Running the callbacks of the oldest chunk.
use mathlib.Core.List.{append_assoc}
use lockfree_stm.Common.{
  ℕ, zero, suc, ◌+◌, ◌%◌, ◌≤◌, ◌<◌, ◌≡◌, refl, sym, ap, ◌∙◌, List, [], ◌∷◌, ◌++◌, some, map, arith,
  length, get_elem?, length-map,
}
use lockfree_stm.Common.Word.{add_word, sub_word}
use lockfree_stm.QuiescenceBuffer
use lockfree_stm.QuiescenceBuffer.{
  QuiescenceBuffer, QuiescenceElem, header, callback, header_of, call, wrap, run_from,
  do_first_epoch_callbacks, front_epoch, reclaim_limit,
}
use lockfree_stm.QuiescenceBuffer.Wrap.{
  slot, slot-lt, slot-slot, slot_zero, IsCapacity, mod-slot, small,
}
use lockfree_stm.QuiescenceBuffer.Ring.{cap, wrap-mod, get_elem?-lt}
use lockfree_stm.QuiescenceBuffer.Layout.{
  Chunk, Queue, size_of, layout, offset, contents, length-contents, get_elem?-append,
}
use lockfree_stm.QuiescenceBuffer.Queue.{Holds}

module _ {C : Type 0} where
  run_from-callbacks :
      (b : QuiescenceBuffer C) (cs : List C) (rest : List (QuiescenceElem C)) (j : ℕ)
      → IsCapacity (cap b)
      → b.ring_begin < cap b
      → j + length cs ≤ cap b
      → ((i : ℕ) (x : QuiescenceElem C)
          → get_elem? (map callback cs ++ rest) i ≡ some x
          → b.buffer (slot (cap b) b.ring_begin (j + i)) ≡ x)
      → run_from b (length cs) (b.ring_begin + j) ≡ cs
  unfolding run_from
  run_from-callbacks b [] rest j h k l f = refl
  run_from-callbacks b (c ∷ cs) rest j h k l f =
      let low = small (cap b) h in
      let first : b.buffer (wrap b (b.ring_begin + j)) ≡ callback c =
        ap b.buffer (
          wrap-mod b (b.ring_begin + j) h
          ∙ mod-slot (cap b) b.ring_begin j k (omega arith)
          ∙ ap (slot (cap b) b.ring_begin) (omega arith))
        ∙ f 0 (callback c) refl in
      let next : add_word (b.ring_begin + j) 1 ≡ b.ring_begin + (j + 1) = omega arith in
      let ih =
        run_from-callbacks b cs rest (j + 1) h k (omega arith) (λ i x q.
          ap (λ n. b.buffer (slot (cap b) b.ring_begin n)) (omega arith) ∙ f (suc i) x q) in
      ap (λ e. call e (run_from b (length cs) (add_word (b.ring_begin + j) 1))) first
      ∙ ap (λ n. c ∷ run_from b (length cs) n) next
      ∙ ap (λ r. c ∷ r) ih

  -- The header of the oldest chunk.
  front_header :
      (b : QuiescenceBuffer C) (prev : ℕ) (ch : Chunk C) (chs : List (Chunk C)) (ws : List C)
      → Holds b prev (record { finished = ch ∷ chs; working = ws })
      → b.buffer b.ring_begin
        ≡ header (record { epoch = ch.epoch; size = size_of ch; prev_size = prev })
  front_header b prev ch chs ws v =
      ap b.buffer (sym (slot_zero (cap b) b.ring_begin v.ring.begin))
      ∙ v.ring.holds 0 (header (record { epoch = ch.epoch; size = size_of ch; prev_size = prev }))
          refl

  -- The epoch that decides whether to reclaim is that of the oldest chunk.
  pub front_epoch-Holds :
      (b : QuiescenceBuffer C) (prev : ℕ) (ch : Chunk C) (chs : List (Chunk C)) (ws : List C)
      → Holds b prev (record { finished = ch ∷ chs; working = ws })
      → front_epoch b ≡ ch.epoch
  unfolding front_epoch
  front_epoch-Holds b prev ch chs ws v =
      ap (λ e. (header_of e).epoch) (front_header b prev ch chs ws v)

  after_first :
      (prev : ℕ) (ch : Chunk C) (chs : List (Chunk C)) (ws : List C) (i : ℕ)
      → get_elem? (contents prev (record { finished = ch ∷ chs; working = ws })) (size_of ch + i)
        ≡ get_elem? (contents (size_of ch) (record { finished = chs; working = ws })) i
  after_first prev ch chs ws i =
      let ds = map callback ch.callbacks in
      let rest = layout (size_of ch) chs in
      let hd : QuiescenceElem C =
        header (record { epoch = ch.epoch; size = size_of ch; prev_size = prev }) in
      let n : length ch.callbacks ≡ length ds = sym (length-map {0, 0} ch.callbacks callback) in
      let e : size_of ch + i ≡ suc (length ch.callbacks + i) = omega arith in
      ap (λ k. get_elem? (hd ∷ (ds ++ rest) ++ map callback ws) k) e
      ∙ ap (λ l. get_elem? l (length ch.callbacks + i)) (append_assoc ds rest (map callback ws))
      ∙ get_elem?-append ds (rest ++ map callback ws) (length ch.callbacks) i n

  -- `b` from the element `m` on.
  abbrev from : QuiescenceBuffer C → ℕ → QuiescenceBuffer C
  from b p = record b { ring_begin = p }

  dropped :
      (b : QuiescenceBuffer C) (prev : ℕ) (ch : Chunk C) (chs : List (Chunk C)) (ws : List C)
      → Holds b prev (record { finished = ch ∷ chs; working = ws })
      → Holds
          (from b (slot (cap b) b.ring_begin (size_of ch)))
          (size_of ch)
          (record { finished = chs; working = ws })
  dropped b prev ch chs ws v =
      let q : Queue C = record { finished = ch ∷ chs; working = ws } in
      let q' : Queue C = record { finished = chs; working = ws } in
      let n = length-contents prev q in
      let n' = length-contents (size_of ch) q' in
      let m = size_of ch in
      let inside : m < cap b = omega (arith, n, v.spare) in
      let step : (i : ℕ)
          → m + i ≤ cap b
          → slot (cap b) (slot (cap b) b.ring_begin m) i ≡ slot (cap b) b.ring_begin (m + i) =
        λ i h. slot-slot (cap b) b.ring_begin m i v.ring.begin inside h in
      record {
        ring = record {
          capacity = v.ring.capacity;
          begin = slot-lt (cap b) b.ring_begin m v.ring.begin (omega (arith, inside));
          room = omega (arith, n, n', v.spare);
          mark = omega (arith, n');
          tail =
              v.ring.tail
              ∙ ap (slot (cap b) b.ring_begin) (omega (arith, n, n'))
              ∙ sym (step (length (contents (size_of ch) q')) (omega (arith, n, n', v.spare)));
          epoch = v.ring.epoch ∙ sym (step (offset chs) (omega (arith, n, v.spare)));
          holds = λ i x l.
              let e = after_first prev ch chs ws i ∙ l in
              ap b.buffer
                (step i (omega (arith, v.spare, get_elem?-lt (contents prev q) (m + i) x e)))
              ∙ v.ring.holds (m + i) x e;
        };
        spare = omega (arith, n, n', v.spare);
      }

  -- Reclaiming one chunk runs its callbacks, in the order in which they were added, and leaves the
  -- rest of the queue.
  pub do_first_epoch_callbacks-Holds :
      (b : QuiescenceBuffer C) (prev : ℕ) (ch : Chunk C) (chs : List (Chunk C)) (ws : List C)
      → Holds b prev (record { finished = ch ∷ chs; working = ws })
      → ((do_first_epoch_callbacks b).0 ≡ ch.callbacks)
        × Holds
            (do_first_epoch_callbacks b).1
            (size_of ch)
            (record { finished = chs; working = ws })
  unfolding do_first_epoch_callbacks
  do_first_epoch_callbacks-Holds b prev ch chs ws v =
      let q : Queue C = record { finished = ch ∷ chs; working = ws } in
      let ds = map callback ch.callbacks in
      let rest = layout (size_of ch) chs in
      let n = length-contents prev q in
      let low = small (cap b) v.ring.capacity in
      let inside : size_of ch < cap b = omega (arith, n, v.spare) in
      let one : add_word b.ring_begin 1 ≡ b.ring_begin + 1 = omega (arith, low, v.ring.begin) in
      let all : sub_word (size_of ch) 1 ≡ length ch.callbacks = omega (arith, low, inside) in
      let add : add_word b.ring_begin (size_of ch) ≡ b.ring_begin + size_of ch =
        omega (arith, low, inside, v.ring.begin) in
      let next : wrap b (add_word b.ring_begin (size_of ch))
          ≡ slot (cap b) b.ring_begin (size_of ch) =
        wrap-mod b (add_word b.ring_begin (size_of ch)) v.ring.capacity
        ∙ ap (λ k. k % cap b) add
        ∙ mod-slot (cap b) b.ring_begin (size_of ch) v.ring.begin (omega (arith, inside)) in
      let ran =
        run_from-callbacks b ch.callbacks (rest ++ map callback ws) 1 v.ring.capacity v.ring.begin
          (omega (arith, inside))
          (λ i x l.
            ap (λ k. b.buffer (slot (cap b) b.ring_begin k)) (omega arith)
            ∙ v.ring.holds (suc i) x
                (ap (λ k. get_elem? k i) (append_assoc ds rest (map callback ws)) ∙ l)) in
      rw (front_header b prev ch chs ws v) (
        ap (λ k. run_from b k (add_word b.ring_begin 1)) all
            ∙ ap (run_from b (length ch.callbacks)) one
            ∙ ran,
        rw next (dropped b prev ch chs ws v),
      )

  -- A fresh ring is the empty queue.
  pub new-Holds : Holds {C = C} QuiescenceBuffer.new 0 (record { finished = []; working = [] })
  unfolding QuiescenceBuffer.new slot
  new-Holds = record {
    ring = record {
      capacity = record { bits = 11; power = refl; small = omega arith };
      begin = omega arith;
      room = omega arith;
      mark = omega arith;
      tail = refl;
      epoch = refl;
      holds = only;
    };
    spare = omega arith;
  }
    where
      only :
          (i : ℕ) (x : QuiescenceElem C)
          → get_elem? (QuiescenceBuffer.initialize_header 0 ∷ []) i ≡ some x
          → QuiescenceBuffer.initialize_header 0 ≡ x
      only zero x l = cc
      only (suc i) x l = absurd (cc)
