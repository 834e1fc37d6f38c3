-- ===== src/Var/Access.antt =====
-- What a client of a variable relies on.
use lockfree_stm.Common.{
  ℕ, ◌+◌, ◌≡◌, ◌≢◌, ◌⊎◌, inl, inr, refl, sym, ap, ◌∙◌, fun_ext, true, none, some, arith, ◌==◌,
  Bool-cases,
}
use lockfree_stm.Common.Update.{update, update_self, update_ne}
use lockfree_stm.WriteSet.Hash.{var_hash, reference_hash}
use lockfree_stm.Machine.{VarBase, free, raw, object, World, State, Outcome, value, bind_outcome}
use lockfree_stm.Transaction.{
  Transaction, HeapVar, version_of, rw_valid, rw_write, rw_read_base, rw_read_slow_path,
  rw_atomic_write_base,
}
use lockfree_stm.Transaction.Reads.{IsValid}
use lockfree_stm.Transaction.Writes.{Room, rw_atomic_write-Wrote, read-atomic_write}
use lockfree_stm.Transaction.HeapWrites.{rw_write-Reads}
use lockfree_stm.Var.{
  VarType, heap, atomic, Var, destroy_deallocate, heap_allocate_construct,
  atomic_allocate_construct, allocate_construct, heap_load, atomic_load, load, heap_store,
  atomic_store, var_base, var_alloc_policy, new_var, delete_var, unsafe_get, unsafe_set, loaded,
  rw_read, rw_atomic_write, get, set,
}

VarType-cases : (t : VarType) → (t ≡ heap) ⊎ (t ≡ atomic)
VarType-cases heap = inl refl
VarType-cases atomic = inr refl

-- A read changes no shared memory.
read-world : (tx : Transaction) (x : ℕ) (t : State) → (rw_read_base tx x t).1.world ≡ t.world
unfolding rw_read_base rw_read_slow_path
read-world tx x t = ground arith

-- What a read of a variable gives, from the storage read.
read-load :
    (type : VarType) (m : Outcome ℕ × State) (p : ℕ)
    → m.0 ≡ value p
    → (bind_outcome m (loaded type)).0 ≡ value (load type p m.1.world)
read-load type (r, t) p e = rw e refl

load-object : (p u : ℕ) (w : World) → w.block p ≡ object u → heap_load p w ≡ some u
unfolding heap_load
load-object p u w e = rw (heap_load, e) refl

destroy-raw : (p : ℕ) (w : World) → w.block p ≡ raw → destroy_deallocate p w ≡ none
unfolding destroy_deallocate
destroy-raw p w e = rw (destroy_deallocate, e) refl

destroy-object :
    (p u : ℕ) (w : World)
    → w.block p ≡ object u
    → destroy_deallocate p w ≡ some (record w { block = update w.block p free })
unfolding destroy_deallocate
destroy-object p u w e = rw (destroy_deallocate, e) refl

-- In a transaction with valid sets that have room for an entry, and that may write the variable, whose version
-- allows it: `set` succeeds, and then `get` gives the value set, whether the value lies in the storage or behind a pointer. Behind a pointer, the bit of
-- the variable must be that of its base, as without a stateful allocator.
pub get-set_var :
    (v : Var) (tx : Transaction) (u : ℕ) (s : State)
    → IsValid s
    → Room s
    → rw_valid tx (version_of s v.place.base) ≡ true
    → (v.type ≡ heap → reference_hash v.place.align v.place.self ≡ var_hash v.place.base)
    → ((set v tx u s).0 ≡ value tt) × ((get v tx (set v tx u s).1).0 ≡ value (some u))
unfolding get set rw_read load heap_load atomic_load rw_atomic_write
get-set_var v tx u s w b ok hash = elim (VarType-cases v.type) [
  | inr e ↦
      let x = v.place.base in
      let t = (rw_atomic_write_base tx x u s).1 in
      let wrote = (rw_atomic_write-Wrote tx x u s w b).0 in
      let read = read-atomic_write tx x x u s w b ok in
      let same : (x == x) ≡ true = ground arith in
      rw e (wrote ∙ rw ok refl, read-load atomic (rw_read_base tx x t) u (read ∙ rw same refl))
  | inl e ↦
      let x = v.place.base in
      let t = (rw_write tx v.place u s).1 in
      let (done, (p, read, there)) = rw_write-Reads tx v.place u s w b (hash e) ok in
      rw e (
        done,
        read-load heap (rw_read_base tx x t) p read
            ∙ ap value (ap (heap_load p) (read-world tx x t) ∙ load-object p u t.world there),
      )
]

made :
    (w : World) (type : VarType) (u : ℕ)
    → (storage : ℕ) × (w' : World) × (allocate_construct type (some u) w ≡ some (some storage, w'))
      × (load type storage w' ≡ some u)
      × ((p : ℕ) → p ≢ w.next_block → w'.block p ≡ w.block p)
      × (w'.var ≡ w.var)
unfolding allocate_construct heap_allocate_construct atomic_allocate_construct load atomic_load
made w atomic u = (u, w, refl, refl, λ p d. refl, refl)
made w heap u =
    let p = w.next_block in
    let b = update (update w.block p raw) p (object u) in
    let w' = record w { block = b; next_block = p + 1 } in
    (
      p,
      w',
      refl,
      load-object p u w' (update_self (update w.block p raw) p (object u)),
      λ q d.
          update_ne (update w.block p raw) p q (object u) (λ k. d (sym k))
          ∙ update_ne w.block p q raw (λ k. d (sym k)),
      refl,
    )

throws : (w : World) → heap_allocate_construct none w ≡ none
unfolding heap_allocate_construct
throws w =
    let p = w.next_block in
    let w₁ = record w { block = update w.block p raw; next_block = p + 1 } in
    rw (destroy-raw p w₁ (update_self w.block p raw)) refl

-- Where the constructor of a value in the heap throws, `allocate_construct` destroys an object that was
-- never made, which is undefined, whatever the memory. Where the constructor of a value, in the heap or in the
-- storage, returns, `load` of the new storage gives the value, and no block but a fresh one has changed, nor any variable.
pub allocate_construct-outcome :
    (w : World)
    → (heap_allocate_construct none w ≡ none)
      × ((type : VarType) (u : ℕ)
          → (storage : ℕ) × (w' : World) × (allocate_construct type (some u) w
              ≡ some (some storage, w'))
            × (load type storage w' ≡ some u)
            × ((p : ℕ) → p ≢ w.next_block → w'.block p ≡ w.block p)
            × (w'.var ≡ w.var))
allocate_construct-outcome w = (throws w, λ type u. made w type u)

-- A variable whose storage points to an object in a block that was free: it leaves no block.
heap_delete :
    (place : HeapVar) (u p : ℕ) (w w' : World)
    → (w'.var place.base).storage ≡ p
    → w'.block p ≡ object u
    → w.block p ≡ free
    → ((q : ℕ) → q ≢ p → w'.block q ≡ w.block q)
    → (w'' : World) × (delete_var (record { type = heap; place = place }) w' ≡ some w'')
      × (w''.block ≡ w.block)
unfolding delete_var
heap_delete place u p w w' at b was others =
    let w'' = record w' { block = update w'.block p free } in
    (
      w'',
      rw at (destroy-object p u w' b),
      fun_ext λ q. elim (Bool-cases (q == p)) [
        | inl d ↦
            let same : q ≡ p = ground arith in
            ap w''.block same ∙ update_self w'.block p free ∙ sym was ∙ ap w.block (sym same)
        | inr d ↦
            let apart : q ≢ p = ground arith in
            update_ne w'.block p q free (λ k. apart (sym k)) ∙ others q apart
      ],
    )

-- The value `u` is there once the variable is made, and `u'` once it is set; deleted before or after that,
-- the variable leaves no block.
unfoldable pub IsKept : Var → ℕ → ℕ → World → Type 0
IsKept v u u' w =
    (w' : World) × (new_var v (some u) w ≡ some (true, w'))
    × (unsafe_get v w' ≡ some u)
    × ((w'' : World) × (delete_var v w' ≡ some w'') × (w''.block ≡ w.block))
    × (unsafe_get v (unsafe_set v u' w') ≡ some u')
    × ((w'' : World) × (delete_var v (unsafe_set v u' w') ≡ some w'') × (w''.block ≡ w.block))

heap-IsKept :
    (place : HeapVar) (u u' : ℕ) (w : World)
    → w.block w.next_block ≡ free
    → IsKept (record { type = heap; place = place }) u u' w
unfolding IsKept new_var var_alloc_policy allocate_construct heap_allocate_construct unsafe_get
    unsafe_set heap_store load
heap-IsKept place u u' w e =
    let p = w.next_block in
    let b = update (update w.block p raw) p (object u) in
    let w' = record w {
      block = b;
      next_block = p + 1;
      var = update w.var place.base (var_base p);
    } in
    let q = (w'.var place.base).storage in
    let at : q ≡ p = ap (λ (d : VarBase). d.storage) (update_self w.var place.base (var_base p)) in
    let made_p : w'.block p ≡ object u = update_self (update w.block p raw) p (object u) in
    let others : (r : ℕ) → r ≢ p → w'.block r ≡ w.block r = λ r d.
      update_ne (update w.block p raw) p r (object u) (λ k. d (sym k))
      ∙ update_ne w.block p r raw (λ k. d (sym k)) in
    let w₁ = record w' { block = update w'.block q (object u') } in
    let set_q : w₁.block q ≡ object u' = update_self w'.block q (object u') in
    (
      w',
      refl,
      load-object q u w' (ap w'.block at ∙ made_p),
      heap_delete place u p w w' at made_p e others,
      load-object q u' w₁ set_q,
      heap_delete place u' p w w₁ at (ap w₁.block (sym at) ∙ set_q) e
          (λ r d. update_ne w'.block q r (object u') (λ k. d (sym k ∙ at)) ∙ others r d),
    )

atomic-IsKept :
    (place : HeapVar) (u u' : ℕ) (w : World)
    → IsKept (record { type = atomic; place = place }) u u' w
unfolding IsKept new_var var_alloc_policy allocate_construct atomic_allocate_construct unsafe_get
    unsafe_set delete_var load atomic_load atomic_store
atomic-IsKept place u u' w =
    let x = place.base in
    let w' = record w { var = update w.var x (var_base u) } in
    let got : (w'.var x).storage ≡ u =
      ap (λ (d : VarBase). d.storage) (update_self w.var x (var_base u)) in
    (
      w',
      refl,
      ap some got,
      (w', refl, refl),
      ap (λ (d : VarBase). some d.storage)
          (update_self w'.var x (record (w'.var x) { storage = u' })),
      (atomic_store x u' w', refl, refl),
    )

-- In a memory whose next block is free: a variable is made, `unsafe_get` gives its value, and after
-- `unsafe_set` the value set. Deleted right after it is made, or after `unsafe_set`, it leaves every block
-- as it was.
pub new_var-IsKept :
    (v : Var) (u u' : ℕ) (w : World) → w.block w.next_block ≡ free → IsKept v u u' w
new_var-IsKept v u u' w e = elim (VarType-cases v.type) [
  | inl t ↦ rw t (heap-IsKept v.place u u' w e)
  | inr t ↦ rw t (atomic-IsKept v.place u u' w)
]
