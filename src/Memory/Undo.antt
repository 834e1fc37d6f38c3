-- ===== src/Memory/Undo.antt =====
-- What a failed transaction does to the blocks that it allocated.
use mathlib.Core.List.{reverse, reverse-append}
use lockfree_stm.Common.{
  ℕ, ◌+◌, ◌≤◌, ◌≡◌, refl, ap, ◌∙◌, Bool, true, false, List, [], ◌∷◌, ◌++◌, arith,
}
use lockfree_stm.Common.Update.{update, update_self, update_ne, update-update, update_same}
use lockfree_stm.PodVector
use lockfree_stm.PodVector.{PodVector, emplace_back}
use lockfree_stm.Machine.{
  Callback, Block, free, raw, object, World, State, ThreadData, run_callback, run_callbacks,
}
use lockfree_stm.ThreadData.{
  in_critical_section, in_transaction, access_unlock, after_fail, do_fail_callbacks,
}
use lockfree_stm.Memory.{
  new_block, construct_at, on_fail, dispose, thread_allocate_construct, allocate,
  allocate_construct,
}

-- A request of a transaction for memory.
pub data Request : Type 0 where
  block_only : Request
  object_of : Bool → ℕ → Request

unfoldable pub serve : List Request → State → State
serve [] s = s
serve (block_only ∷ rs) s = serve rs (allocate s).1
serve (object_of trivial u ∷ rs) s = serve rs (allocate_construct trivial u s).1

-- No block from the next one on is in use.
unfoldable pub IsFresh : World → Type 0
IsFresh w = (p : ℕ) → w.next_block ≤ p → w.block p ≡ free

run_callback-block :
    (c : Callback) (w w' : World)
    → w.block ≡ w'.block
    → (run_callback c w).block ≡ (run_callback c w').block
unfolding run_callback
run_callback-block (Callback.destroy_deallocate p) w w' e = rw e refl
run_callback-block (Callback.destroy p) w w' e = rw e refl
run_callback-block (Callback.deallocate p) w w' e = rw e refl
run_callback-block (Callback.closure k) w w' e = e

run_callbacks-block :
    (cs : List Callback) (w w' : World)
    → w.block ≡ w'.block
    → (run_callbacks cs w).block ≡ (run_callbacks cs w').block
unfolding run_callbacks
run_callbacks-block [] w w' e = e
run_callbacks-block (c ∷ cs) w w' e =
    run_callbacks-block cs (run_callback c w) (run_callback c w') (run_callback-block c w w' e)

after_fail-elems :
    (c : Callback) (s : State)
    → (on_fail c s).td.fail_callbacks.elems ≡ s.td.fail_callbacks.elems ++ c ∷ []
unfolding after_fail emplace_back PodVector.unchecked_emplace_back PodVector.reserve_more
after_fail-elems c s = ground arith

-- A callback is the first to run when the transaction that registered it fails.
undo-on_fail :
    (c : Callback) (s : State)
    → (do_fail_callbacks (on_fail c s)).world
      ≡ run_callbacks (reverse s.td.fail_callbacks.elems) (run_callback c s.world)
unfolding do_fail_callbacks run_callbacks
undo-on_fail c s =
    ap (λ cs. run_callbacks (reverse cs) s.world) (after_fail-elems c s)
    ∙ ap (λ cs. run_callbacks cs s.world) (reverse-append s.td.fail_callbacks.elems (c ∷ []))

-- To fail after `on_fail c` is to fail at once, where `c` takes back what was done in between.
undo :
    (c : Callback) (s t : State)
    → (run_callback c t.world).block ≡ s.world.block
    → t.td ≡ s.td
    → (do_fail_callbacks (on_fail c t)).world.block ≡ (do_fail_callbacks s).world.block
unfolding do_fail_callbacks
undo c s t e d =
    ap (λ (w : World). w.block) (undo-on_fail c t)
    ∙ run_callbacks-block (reverse t.td.fail_callbacks.elems) (run_callback c t.world) s.world e
    ∙ ap (λ (td : ThreadData). (run_callbacks (reverse td.fail_callbacks.elems) s.world).block) d

allocate-undo :
    (s : State)
    → IsFresh s.world
    → (do_fail_callbacks (allocate s).1).world.block ≡ (do_fail_callbacks s).world.block
unfolding allocate IsFresh run_callback
allocate-undo s f =
    let w = s.world in
    undo (Callback.deallocate w.next_block) s (record s { world = (new_block w).1 })
      (update-update w.block w.next_block raw free
        ∙ update_same w.block w.next_block free (f w.next_block (omega arith)))
      refl

disposed :
    (trivial : Bool) (p : ℕ) (w : World)
    → (run_callback (dispose trivial p) w).block ≡ update w.block p free
unfolding run_callback
disposed true p w = refl
disposed false p w = refl

allocate_construct-undo :
    (trivial : Bool) (u : ℕ) (s : State)
    → IsFresh s.world
    → (do_fail_callbacks (allocate_construct trivial u s).1).world.block
      ≡ (do_fail_callbacks s).world.block
unfolding allocate_construct IsFresh
allocate_construct-undo trivial u s f =
    let w = s.world in
    let p = w.next_block in
    let w' = construct_at p u (new_block w).1 in
    undo (dispose trivial p) s (record s { world = w' })
      (disposed trivial p w'
        ∙ update-update (update w.block p raw) p (object u) free
        ∙ update-update w.block p raw free
        ∙ update_same w.block p free (f p (omega arith)))
      refl

update-fresh :
    (w : World) (b : Block)
    → IsFresh w
    → (p : ℕ) → w.next_block + 1 ≤ p
    → update w.block w.next_block b p ≡ free
unfolding IsFresh
update-fresh w b f p h = update_ne w.block w.next_block p b (omega arith) ∙ f p (omega arith)

allocate-IsFresh : (s : State) → IsFresh s.world → IsFresh (allocate s).1.world
unfolding allocate IsFresh
allocate-IsFresh s f p h = update-fresh s.world raw f p h

allocate_construct-IsFresh :
    (trivial : Bool) (u : ℕ) (s : State)
    → IsFresh s.world
    → IsFresh (allocate_construct trivial u s).1.world
unfolding allocate_construct IsFresh
allocate_construct-IsFresh trivial u s f p h =
    ap (λ (b : ℕ → Block). b p) (update-update s.world.block s.world.next_block raw (object u))
    ∙ update-fresh s.world (object u) f p h

-- In a memory without used blocks from the next one on: when a transaction fails after any sequence of allocations,
-- with or without construction, the blocks are as if it had failed before the first of them.
pub serve-undo :
    (rs : List Request) (s : State)
    → IsFresh s.world
    → (do_fail_callbacks (serve rs s)).world.block ≡ (do_fail_callbacks s).world.block
unfolding serve
serve-undo [] s f = refl
serve-undo (block_only ∷ rs) s f =
    serve-undo rs (allocate s).1 (allocate-IsFresh s f) ∙ allocate-undo s f
serve-undo (object_of trivial u ∷ rs) s f =
    serve-undo rs (allocate_construct trivial u s).1 (allocate_construct-IsFresh trivial u s f)
    ∙ allocate_construct-undo trivial u s f

-- Without assertions, in a thread without callbacks for failures, in a critical section and outside of a
-- transaction: an object that `allocate_construct` makes from the record of the thread is constructed, and after the
-- section the failure of a transaction still frees it.
pub relative_allocation :
    (trivial : Bool) (u : ℕ) (s : State)
    → in_critical_section s.td ≡ true
    → in_transaction s.td ≡ false
    → s.td.fail_callbacks.elems ≡ []
    → let (p, t) = thread_allocate_construct trivial u s in
      (t.world.block p ≡ object u)
      × ((do_fail_callbacks (record t { td = access_unlock t.td })).world.block p ≡ free)
unfolding thread_allocate_construct do_fail_callbacks run_callbacks
relative_allocation trivial u s c n e =
    let w = s.world in
    let p = w.next_block in
    let w' = construct_at p u (new_block w).1 in
    let t = record s { world = w' } in
    let only : (on_fail (dispose trivial p) t).td.fail_callbacks.elems ≡ dispose trivial p ∷ [] =
      after_fail-elems (dispose trivial p) t ∙ ap (λ cs. cs ++ dispose trivial p ∷ []) e in
    rw c (
      update_self (update w.block p raw) p (object u),
      ap (λ cs. (run_callbacks (reverse cs) w').block p) only
          ∙ ap (λ (b : ℕ → Block). b p) (disposed trivial p w')
          ∙ update_self w'.block p free,
    )
