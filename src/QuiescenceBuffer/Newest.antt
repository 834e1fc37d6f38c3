-- ===== src/QuiescenceBuffer/Newest.antt =====
-- The newest of the chunks that wait: `back_epoch` reads its epoch, through the size that the header of
-- the working chunk keeps.
use lockfree_stm.Common.{
  ℕ, ◌+◌, ◌≡◌, refl, sym, ap, ◌∙◌, List, [], ◌∷◌, ◌++◌, some, map, arith, get_elem?, length, suc,
  length-map,
}
use mathlib.Core.List.{append_assoc}
use lockfree_stm.Common.Word.{sub_word}
use lockfree_stm.QuiescenceBuffer.{
  QuiescenceBuffer, QuiescenceElem, QuiescenceHeader, header, callback, header_of,
  initialize_header, wrap, back_epoch,
}
use lockfree_stm.QuiescenceBuffer.Wrap.{slot, mod-sub_back}
use lockfree_stm.QuiescenceBuffer.Ring.{cap, wrap-mod}
use lockfree_stm.QuiescenceBuffer.Layout.{
  Chunk, Queue, size_of, layout, offset, last_size, length-contents, get_elem?-append,
  working-header,
}
use lockfree_stm.QuiescenceBuffer.Queue.{Holds}

module _ {C : Type 0} where
  -- The epoch of the last of `ch ∷ chs`.
  abbrev pub last_epoch : Chunk C → List (Chunk C) → ℕ
  last_epoch ch [] = ch.epoch
  last_epoch ch (d ∷ chs) = last_epoch d chs

  -- Where that chunk begins.
  abbrev last_begin : Chunk C → List (Chunk C) → ℕ
  last_begin ch [] = 0
  last_begin ch (d ∷ chs) = size_of ch + last_begin d chs

  begin-size :
      (ch : Chunk C) (chs : List (Chunk C))
      → last_begin ch chs + last_size (size_of ch) chs ≡ offset (ch ∷ chs)
  begin-size ch [] = omega arith
  begin-size ch (d ∷ chs) = omega (arith, begin-size d chs)

  last-header :
      (prev : ℕ) (ch : Chunk C) (chs : List (Chunk C)) (ws : List (QuiescenceElem C))
      → (h : QuiescenceHeader) × (get_elem? (layout prev (ch ∷ chs) ++ ws) (last_begin ch chs)
          ≡ some (header h))
        × (h.epoch ≡ last_epoch ch chs)
  last-header prev ch [] ws =
      (record { epoch = ch.epoch; size = size_of ch; prev_size = prev }, refl, refl)
  last-header prev ch (d ∷ chs) ws =
      let hd : QuiescenceElem C =
        header (record { epoch = ch.epoch; size = size_of ch; prev_size = prev }) in
      let ds = map callback ch.callbacks in
      let rest = layout (size_of ch) (d ∷ chs) in
      let n : length ch.callbacks ≡ length ds = sym (length-map {0, 0} ch.callbacks callback) in
      let e : size_of ch + last_begin d chs ≡ suc (length ch.callbacks + last_begin d chs) =
        omega arith in
      let (h, found, epoch) = last-header (size_of ch) d chs ws in
      (
        h,
        ap (λ k. get_elem? (hd ∷ (ds ++ rest) ++ ws) k) e
            ∙ ap (λ l. get_elem? l (length ch.callbacks + last_begin d chs))
                (append_assoc ds rest ws)
            ∙ get_elem?-append ds (rest ++ ws) (length ch.callbacks) (last_begin d chs) n
            ∙ found,
        epoch,
      )

  -- Where the ring holds a queue with finished chunks, `back_epoch`, which goes back from the working chunk by
  -- the size in its header, finds the header of the newest finished chunk: it gives that chunk's epoch.
  pub back_epoch-Holds :
      (b : QuiescenceBuffer C) (prev : ℕ) (ch : Chunk C) (chs : List (Chunk C)) (ws : List C)
      → Holds b prev (record { finished = ch ∷ chs; working = ws })
      → back_epoch b ≡ last_epoch ch chs
  unfolding back_epoch
  back_epoch-Holds b prev ch chs ws v =
      let q : Queue C = record { finished = ch ∷ chs; working = ws } in
      let o = offset (ch ∷ chs) in
      let m = last_size (size_of ch) chs in
      let n = length-contents prev q in
      let sum = begin-size ch chs in
      let working : b.buffer b.epoch_begin ≡ initialize_header m =
        ap b.buffer v.ring.epoch
        ∙ v.ring.holds o (initialize_header m) (working-header prev (ch ∷ chs) (map callback ws)) in
      let (h, found, epoch) = last-header prev ch chs (map callback ws) in
      let at : wrap b (sub_word b.epoch_begin m) ≡ slot (cap b) b.ring_begin (last_begin ch chs) =
        wrap-mod b (sub_word b.epoch_begin m) v.ring.capacity
        ∙ mod-sub_back (cap b) b.ring_begin o m b.epoch_begin v.ring.capacity v.ring.begin
            (omega (arith, sum)) (omega (arith, n, v.spare)) v.ring.epoch
        ∙ ap (slot (cap b) b.ring_begin) (omega (arith, sum)) in
      let back : QuiescenceElem C → ℕ = λ x.
        (header_of (b.buffer (wrap b (sub_word b.epoch_begin (header_of x).prev_size)))).epoch in
      ap back working
      ∙ ap (λ i. (header_of (b.buffer i)).epoch) at
      ∙ ap (λ x. (header_of x).epoch) (v.ring.holds (last_begin ch chs) (header h) found)
      ∙ epoch
