-- ===== src/Tests/Ring.antt =====
-- A ring that gets a callback, closes its chunk and runs it.
use lockfree_stm.Common.{ℕ, ◌+◌, ◌≡◌, [], ◌∷◌, leb, length, arith}
use lockfree_stm.QuiescenceBuffer
use lockfree_stm.QuiescenceBuffer.{QuiescenceBuffer, reclaim_limit}
use lockfree_stm.QuiescenceBuffer.Layout.{Chunk, Queue, contents}
use lockfree_stm.QuiescenceBuffer.Queue.{Holds, close, emplace_back-Holds, finalize_epoch-Holds}
use lockfree_stm.QuiescenceBuffer.Run.{do_first_epoch_callbacks-Holds, new-Holds}
use lockfree_stm.QuiescenceBuffer.Newest.{last_epoch, back_epoch-Holds}

abbrev fresh : QuiescenceBuffer ℕ
fresh = QuiescenceBuffer.new

abbrev nothing : Queue ℕ
nothing = record { finished = []; working = [] }

abbrev five : Queue ℕ
five = record { finished = []; working = 5 ∷ [] }

abbrev pushed : QuiescenceBuffer ℕ
pushed = QuiescenceBuffer.emplace_back fresh 5

emplace_back-Holds_example : Holds pushed 0 five
unfolding QuiescenceBuffer.new
emplace_back-Holds_example = emplace_back-Holds fresh 0 nothing 5 new-Holds (omega arith)

finalize_epoch-Holds_example :
    Holds (QuiescenceBuffer.finalize_epoch pushed 7).1 0 (close 7 five)
    × ((QuiescenceBuffer.finalize_epoch pushed 7).0
        ≡ leb reclaim_limit (length (contents 0 five) + 1))
unfolding QuiescenceBuffer.new QuiescenceBuffer.emplace_back QuiescenceBuffer.unchecked_emplace_back
    QuiescenceBuffer.reserve_more
finalize_epoch-Holds_example =
    finalize_epoch-Holds pushed 0 7 five emplace_back-Holds_example (omega arith)

abbrev one_chunk : Chunk ℕ
one_chunk = record { epoch = 7; callbacks = 5 ∷ [] }

do_first_epoch_callbacks-Holds_example :
    let b = (QuiescenceBuffer.finalize_epoch pushed 7).1 in
    ((QuiescenceBuffer.do_first_epoch_callbacks b).0 ≡ 5 ∷ [])
    × Holds (QuiescenceBuffer.do_first_epoch_callbacks b).1 2 nothing
do_first_epoch_callbacks-Holds_example =
    do_first_epoch_callbacks-Holds (QuiescenceBuffer.finalize_epoch pushed 7).1 0 one_chunk [] []
      finalize_epoch-Holds_example.0

back_epoch-Holds_example :
    QuiescenceBuffer.back_epoch (QuiescenceBuffer.finalize_epoch pushed 7).1
    ≡ last_epoch one_chunk []
back_epoch-Holds_example =
    back_epoch-Holds (QuiescenceBuffer.finalize_epoch pushed 7).1 0 one_chunk [] []
      finalize_epoch-Holds_example.0
