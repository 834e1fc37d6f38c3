-- ===== src/QuiescenceBuffer/Queue.antt =====
-- The ring is a queue of chunks: every operation, against what it does to the queue.
use mathlib.Core.List.{append-nil}
use native.Mathlib.Nat.{mod-eq_of_lt}
use lockfree_stm.Common.{
  ℕ, ◌+◌, ◌%◌, ◌^◌, ◌<◌, ◌≡◌, refl, sym, ap, ◌∙◌, false, List, [], ◌∷◌, ◌++◌, map, leb, ◌==◌,
  if◌then◌else◌, arith, Bool-cases, inl, inr, length, set, length-append, length-set,
}
use lockfree_stm.Common.Word.{sub_word}
use lockfree_stm.QuiescenceBuffer.{
  QuiescenceBuffer, QuiescenceElem, header, callback, initialize_header, reclaim_limit, wrap, size,
  working_epoch_size, working_epoch_empty, grow_if_full, emplace_back, unchecked_emplace_back,
  closed, finalize_epoch, clear_working_epoch,
}
use lockfree_stm.QuiescenceBuffer.Wrap.{slot, slot-lt, mod-sub_word, mod-sub_begin, mod-add_word}
use lockfree_stm.QuiescenceBuffer.Ring.{
  cap, IsRing, wrap-mod, put, put-IsRing, write, write-IsRing, grow_if_full-IsRing,
}
use lockfree_stm.QuiescenceBuffer.Layout.{
  Queue, layout, offset, last_size, contents, length-contents, offset-snoc, contents-snoc,
  closed-contents, working-header, get_elem?-prefix,
}

module _ {C : Type 0} where
  -- The ring holds the queue, with a slot to spare; `prev` is the size of the chunk taken last.
  pub record Holds (b : QuiescenceBuffer C) (prev : ℕ) (q : Queue C) : Type 0 where
    pub ring : IsRing b (contents prev q) (offset q.finished)
    pub spare : length (contents prev q) < cap b

  grow-Holds :
      (b : QuiescenceBuffer C) (prev : ℕ) (q : Queue C)
      → IsRing b (contents prev q) (offset q.finished)
      → cap b < 2 ^ 62
      → Holds (grow_if_full b) prev q
  grow-Holds b prev q v h =
      let (ring, spare) = grow_if_full-IsRing b (contents prev q) (offset q.finished) v h in
      record { ring = ring; spare = spare }

  -- A callback joins the working chunk; a ring that is full then grows, as long as its capacity can
  -- double.
  pub emplace_back-Holds :
      (b : QuiescenceBuffer C) (prev : ℕ) (q : Queue C) (c : C)
      → Holds b prev q
      → cap b < 2 ^ 62
      → Holds (emplace_back b c) prev (record q { working = q.working ++ c ∷ [] })
  unfolding emplace_back unchecked_emplace_back
  emplace_back-Holds b prev q c v h =
      let pushed = put-IsRing b (contents prev q) (offset q.finished) (callback c) v.ring v.spare in
      grow-Holds (put b (callback c)) prev (record q { working = q.working ++ c ∷ [] })
        (rw (contents-snoc prev q c) at pushed) h

  pub size-contents :
      (b : QuiescenceBuffer C) (prev : ℕ) (q : Queue C)
      → Holds b prev q
      → size b ≡ length (contents prev q)
  size-contents b prev q v =
      wrap-mod b (sub_word b.write_pos b.ring_begin) v.ring.capacity
      ∙ mod-sub_begin (cap b) b.ring_begin (length (contents prev q)) b.write_pos v.ring.capacity
          v.ring.begin v.spare v.ring.tail

  working-size :
      (b : QuiescenceBuffer C) (prev : ℕ) (q : Queue C)
      → Holds b prev q
      → working_epoch_size b ≡ length q.working + 1
  working-size b prev q v =
      let n = length-contents prev q in
      wrap-mod b (sub_word b.write_pos b.epoch_begin) v.ring.capacity
      ∙ ap (λ a. sub_word b.write_pos a % cap b) v.ring.epoch
      ∙ mod-sub_word (cap b) b.ring_begin (length (contents prev q)) (offset q.finished) b.write_pos
          v.ring.capacity v.ring.begin (omega (arith, n)) (omega (arith, v.spare))
          (omega (arith, v.spare)) v.ring.tail
      ∙ omega (arith, n)

  remark :
      (b : QuiescenceBuffer C) (es : List (QuiescenceElem C)) (e e' p : ℕ)
      → IsRing b es e
      → e' < length es
      → p ≡ slot (cap b) b.ring_begin e'
      → IsRing (record b { epoch_begin = p }) es e'
  remark b es e e' p v h at = record {
    capacity = v.capacity;
    begin = v.begin;
    room = v.room;
    mark = h;
    tail = v.tail;
    epoch = at;
    holds = v.holds;
  }

  -- The queue after a chunk is closed.
  abbrev pub close : ℕ → Queue C → Queue C
  close epoch q = record {
    finished = q.finished ++ record { epoch = epoch; callbacks = q.working } ∷ [];
    working = [];
  }

  abbrev close_header : ℕ → ℕ → Queue C → QuiescenceElem C
  close_header epoch prev q =
      header (record {
        epoch = epoch;
        size = length q.working + 1;
        prev_size = last_size prev q.finished;
      })

  close-contents :
      (epoch prev : ℕ) (q : Queue C)
      → set (contents prev q) (offset q.finished) (close_header epoch prev q)
          ++ initialize_header (length q.working + 1) ∷ []
        ≡ contents prev (close epoch q)
  close-contents epoch prev q =
      closed-contents prev q.finished (record { epoch = epoch; callbacks = q.working })
      ∙ sym (append-nil (layout prev (close epoch q).finished))

  closed-IsRing :
      (b : QuiescenceBuffer C) (prev epoch : ℕ) (q : Queue C)
      → Holds b prev q
      → IsRing (closed b epoch) (contents prev (close epoch q)) (offset (close epoch q).finished)
  closed-IsRing b prev epoch q v =
      let es = contents prev q in
      let e = offset q.finished in
      let x = close_header epoch prev q in
      let old : b.buffer b.epoch_begin ≡ initialize_header (last_size prev q.finished) =
        ap b.buffer v.ring.epoch
        ∙ v.ring.holds e (initialize_header (last_size prev q.finished))
            (working-header prev q.finished (map callback q.working)) in
      let same = length-set {0} es e x in
      let wrote = write-IsRing b es e x v.ring v.spare in
      let new = initialize_header (length q.working + 1) in
      let pushed =
        put-IsRing (write b b.epoch_begin x) (set es e x) e new wrote
          (omega (arith, same, v.spare)) in
      let n = length-contents prev q in
      let e' : offset (close epoch q).finished ≡ length es =
        offset-snoc q.finished (record { epoch = epoch; callbacks = q.working })
        ∙ omega (arith, n) in
      let at : wrap b b.write_pos ≡ slot (cap b) b.ring_begin (offset (close epoch q).finished) =
        wrap-mod b b.write_pos v.ring.capacity
        ∙ v.ring.tail
        ∙ ap (slot (cap b) b.ring_begin) (sym e') in
      let after =
        remark (put (write b b.epoch_begin x) new) (set es e x ++ new ∷ []) e
          (offset (close epoch q).finished) (wrap b b.write_pos) pushed
          (omega (arith, e', same, length-append {0} (set es e x) (new ∷ []))) at in
      rw (old, working-size b prev q v) (rw (close-contents epoch prev q) at after)

  pub empty-working :
      (b : QuiescenceBuffer C) (prev : ℕ) (q : Queue C)
      → Holds b prev q
      → working_epoch_empty b ≡ (length q.working == 0)
  empty-working b prev q v = rw (working-size b prev q v) (ground arith)

  finish :
      (b : QuiescenceBuffer C) (prev epoch : ℕ) (q : Queue C)
      → Holds b prev q
      → cap b < 2 ^ 62
      → Holds (grow_if_full (closed b epoch)) prev (close epoch q)
        × (size (grow_if_full (closed b epoch)) ≡ length (contents prev q) + 1)
  finish b prev epoch q v h =
      let grown =
        grow-Holds (closed b epoch) prev (close epoch q) (closed-IsRing b prev epoch q v) h in
      (
        grown,
        size-contents (grow_if_full (closed b epoch)) prev (close epoch q) grown
            ∙ omega (
              arith,
              length-contents prev q,
              length-contents prev (close epoch q),
              offset-snoc q.finished (record { epoch = epoch; callbacks = q.working }),
            ),
      )

  -- Closing an epoch: nothing where no callback waits. Else the working chunk is finished under that
  -- epoch, an empty one begins, and the answer is whether the ring has reached its limit.
  pub finalize_epoch-Holds :
      (b : QuiescenceBuffer C) (prev epoch : ℕ) (q : Queue C)
      → Holds b prev q
      → cap b < 2 ^ 62
      → if length q.working == 0
        then finalize_epoch b epoch ≡ (false, b)
        else Holds (finalize_epoch b epoch).1 prev (close epoch q)
          × ((finalize_epoch b epoch).0 ≡ leb reclaim_limit (length (contents prev q) + 1))
  unfolding finalize_epoch
  finalize_epoch-Holds b prev epoch q v h = elim (Bool-cases (length q.working == 0)) [
    | inl t ↦ rw (t, empty-working b prev q v ∙ t) refl
    | inr t ↦
        let (holds, n) = finish b prev epoch q v h in
        rw (t, empty-working b prev q v ∙ t) (holds, ap (λ k. leb reclaim_limit k) n)
  ]

  -- A transaction that fails drops the callbacks of the working chunk.
  pub clear_working_epoch-Holds :
      (b : QuiescenceBuffer C) (prev : ℕ) (q : Queue C)
      → Holds b prev q
      → Holds (clear_working_epoch b) prev (record q { working = [] })
  unfolding clear_working_epoch
  clear_working_epoch-Holds b prev q v =
      let n = length-contents prev q in
      let n' = length-contents prev (record q { working = [] }) in
      let begun : b.epoch_begin % cap b ≡ slot (cap b) b.ring_begin (offset q.finished) =
        rw v.ring.epoch (
          mod-eq_of_lt (
            slot-lt (cap b) b.ring_begin (offset q.finished) v.ring.begin
              (omega (arith, n, v.spare)))) in
      record {
        ring = record {
          capacity = v.ring.capacity;
          begin = v.ring.begin;
          room = omega (arith, n, n', v.spare);
          mark = omega (arith, n');
          tail =
              mod-add_word (cap b) b.ring_begin (offset q.finished) b.epoch_begin v.ring.capacity
                v.ring.begin (omega (arith, n, v.spare)) begun
              ∙ ap (slot (cap b) b.ring_begin) (omega (arith, n'));
          epoch = v.ring.epoch;
          holds = λ i x l.
              v.ring.holds i x
                (get_elem?-prefix (layout prev q.finished) (map callback q.working) i x l);
        };
        spare = omega (arith, n, n', v.spare);
      }

  -- The ring is empty where no chunk waits and no callback does.
  pub empty-Holds :
      (b : QuiescenceBuffer C) (prev : ℕ) (q : Queue C)
      → Holds b prev q
      → (size b == 1) ≡ (offset q.finished + length q.working == 0)
  empty-Holds b prev q v = rw (size-contents b prev q v, length-contents prev q) (ground arith)
