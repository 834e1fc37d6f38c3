-- ===== src/QuiescenceBuffer.antt =====
-- include/lstm/detail/quiescence_buffer.hpp: the ring of callbacks that wait for a grace period, cut
-- into chunks. Each chunk has a header; the last chunk is the working epoch, which a transaction
-- fills. A callback is a value of `C`: to run callbacks is to give the list of them, in order.
pub mod Wrap
pub mod Ring
pub mod Layout
pub mod Queue
pub mod Run
pub mod Newest
use lockfree_stm.Common.{
  ℕ, zero, suc, ◌+◌, ◌-◌, ◌*◌, Bool, false, List, [], ◌∷◌, ◌==◌, leb, ltb, if◌then◌else◌, bit_and,
}
use lockfree_stm.Common.Update.{update}
use lockfree_stm.Common.Word.{add_word, sub_word, double_word}

pub record QuiescenceHeader : Type 0 where
  pub epoch : ℕ
  pub size : ℕ
  pub prev_size : ℕ

-- `union quiescence_buf_elem`
pub data QuiescenceElem (C : Type 0) : Type 0 where
  header : QuiescenceHeader → QuiescenceElem C
  callback : C → QuiescenceElem C

-- `buffer[i]` is the value of the function at `i`.
pub record QuiescenceBuffer (C : Type 0) : Type 0 where
  pub write_pos : ℕ
  pub epoch_begin : ℕ
  pub ring_begin : ℕ
  pub buffer : ℕ → QuiescenceElem C
  pub last_valid_index : ℕ

abbrev pub reclaim_limit : ℕ
reclaim_limit = 1024

-- A fresh header has only `prev_size` set: the other two fields are indeterminate until
-- `finalize_epoch` writes them, and are 0 here.
abbrev pub initialize_header : {C : Type 0} → ℕ → QuiescenceElem C
initialize_header prev = header (record { epoch = 0; size = 0; prev_size = prev })

-- The header read out of an element; the union holds no header where a callback stands.
abbrev pub header_of : {C : Type 0} → QuiescenceElem C → QuiescenceHeader
header_of (header h) = h
header_of (callback c) = record { epoch = 0; size = 0; prev_size = 0 }

-- `buffer[i].callback()`, as the list of what it runs.
abbrev pub call : {C : Type 0} → QuiescenceElem C → List C → List C
call (header h) ran = ran
call (callback c) ran = c ∷ ran

module _ {C : Type 0} where
  abbrev pub capacity : QuiescenceBuffer C → ℕ
  capacity b = add_word b.last_valid_index 1

  abbrev pub wrap : QuiescenceBuffer C → ℕ → ℕ
  wrap b index = bit_and index (sub_word (capacity b) 1)

  abbrev pub size : QuiescenceBuffer C → ℕ
  size b = wrap b (sub_word b.write_pos b.ring_begin)

  abbrev pub working_epoch_size : QuiescenceBuffer C → ℕ
  working_epoch_size b = wrap b (sub_word b.write_pos b.epoch_begin)

  abbrev pub empty : QuiescenceBuffer C → Bool
  empty b = size b == 1

  abbrev pub allocates_on_next_push : QuiescenceBuffer C → Bool
  allocates_on_next_push b = size b == b.last_valid_index

  abbrev pub working_epoch_empty : QuiescenceBuffer C → Bool
  working_epoch_empty b = working_epoch_size b == 1

  unfoldable pub clear_working_epoch : QuiescenceBuffer C → QuiescenceBuffer C
  clear_working_epoch b = record b { write_pos = add_word b.epoch_begin 1 }

  -- The two `memcpy` calls: first the elements from `ring_begin` to the end of the old block, then
  -- those before `ring_begin`.
  abbrev copied : QuiescenceBuffer C → ℕ → QuiescenceElem C
  copied b i =
      let first_chunk_size = sub_word (capacity b) b.ring_begin in
      if ltb i first_chunk_size
      then b.buffer (i + b.ring_begin)
      else b.buffer (i - first_chunk_size)

  unfoldable pub reserve_more : QuiescenceBuffer C → QuiescenceBuffer C
  reserve_more b = record {
    write_pos = capacity b;
    epoch_begin = wrap b (sub_word b.epoch_begin b.ring_begin);
    ring_begin = 0;
    buffer = copied b;
    last_valid_index = sub_word (double_word (capacity b)) 1;
  }

  -- `new (&buffer[wrap(write_pos++)].callback) gp_callback(...)`
  unfoldable pub unchecked_emplace_back : QuiescenceBuffer C → C → QuiescenceBuffer C
  unchecked_emplace_back b c = record b {
    buffer = update b.buffer (wrap b b.write_pos) (callback c);
    write_pos = add_word b.write_pos 1;
  }

  abbrev grow_if_full : QuiescenceBuffer C → QuiescenceBuffer C
  grow_if_full b = if wrap b b.write_pos == b.ring_begin then reserve_more b else b

  unfoldable pub emplace_back : QuiescenceBuffer C → C → QuiescenceBuffer C
  unfolding unchecked_emplace_back reserve_more
  emplace_back b c = grow_if_full (unchecked_emplace_back b c)

  -- The header of the working epoch gets its epoch and size, and a new working epoch begins.
  abbrev closed : QuiescenceBuffer C → ℕ → QuiescenceBuffer C
  closed b epoch =
      let chunk = working_epoch_size b in
      let begin = wrap b b.write_pos in
      let old = header_of (b.buffer b.epoch_begin) in
      record b {
        buffer =
            update
              (update b.buffer b.epoch_begin (header (record old { epoch = epoch; size = chunk })))
              begin (initialize_header chunk);
        epoch_begin = begin;
        write_pos = add_word b.write_pos 1;
      }

  unfoldable pub finalize_epoch : QuiescenceBuffer C → ℕ → Bool × QuiescenceBuffer C
  unfolding reserve_more
  finalize_epoch b epoch =
      if working_epoch_empty b
      then (false, b)
      else let b' = grow_if_full (closed b epoch) in (leb reclaim_limit (size b'), b')

  -- The loop over `cur_idx`, by the rounds left.
  unfoldable pub run_from : QuiescenceBuffer C → ℕ → ℕ → List C
  run_from b zero i = []
  run_from b (suc n) i = call (b.buffer (wrap b i)) (run_from b n (add_word i 1))

  unfoldable pub do_first_epoch_callbacks : QuiescenceBuffer C → List C × QuiescenceBuffer C
  unfolding run_from
  do_first_epoch_callbacks b =
      let cur_size = (header_of (b.buffer b.ring_begin)).size in
      (
        run_from b (sub_word cur_size 1) (add_word b.ring_begin 1),
        record b { ring_begin = wrap b (add_word b.ring_begin cur_size) },
      )

  unfoldable pub back_epoch : QuiescenceBuffer C → ℕ
  back_epoch b =
      let prev = (header_of (b.buffer b.epoch_begin)).prev_size in
      (header_of (b.buffer (wrap b (sub_word b.epoch_begin prev)))).epoch

  unfoldable pub front_epoch : QuiescenceBuffer C → ℕ
  front_epoch b = (header_of (b.buffer b.ring_begin)).epoch

-- The constructor; every element of the fresh block but the first is uninitialised, and is a header
-- of zeros here.
unfoldable pub new : {C : Type 0} → QuiescenceBuffer C
new = record {
  write_pos = 1;
  epoch_begin = 0;
  ring_begin = 0;
  buffer = λ i. initialize_header 0;
  last_valid_index = reclaim_limit * 2 - 1;
}
