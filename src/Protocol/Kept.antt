-- ===== src/Protocol/Kept.antt =====
-- The reads with which a commit of Protocol began, until its validation is over: those that
-- `remove_writes_from_reads` keeps are tested, and none of the others is forgotten.
use mathlib.Core.List.{append-nil, append_assoc}
use lockfree_stm.Common.{
  ℕ, ◌+◌, ◌≤◌, ◌≡◌, ◌≢◌, inl, inr, true, List, [], ◌∷◌, ◌++◌, none, some, ◌==◌, arith, Bool-cases,
  refl, sym, ap, ◌∙◌,
}
use lockfree_stm.Common.Update.{update, update_self, update_ne}
use Prim.Native.Nat.{bit_xor}
use lockfree_stm.Machine.{as_locked, lock_bit}
use lockfree_stm.WriteSet.{WriteSetValue}
use lockfree_stm.Protocol.{
  ReadSetValue, Pc, idle, running, loading, locking, swapping, validating, writing, publishing,
  undoing, System, has, put, unwritten, valid_at, settle, become, change, bump, move, Choice, load,
  store, retry, commit,
}
use lockfree_stm.Protocol.Invariant.{Returned, Local, IsSound}

-- A commit at a place that began with the reads `all`.
unfoldable pub Kept : (ℕ → ℕ → ℕ) → Pc → List ReadSetValue → Type 0
Kept hist idle all = Unit
Kept hist (running v rs ws) all = Unit
Kept hist (loading v rs ws x w) all = Unit
Kept hist (locking v rs done todo) all = Returned (hist v) all × (rs ≡ unwritten (done ++ todo) all)
Kept hist (swapping v rs done e todo k) all =
    Returned (hist v) all × (rs ≡ unwritten (done ++ e ∷ todo) all)
Kept hist (validating v n ws seen todo) all =
    Returned (hist v) all × (seen ++ todo ≡ unwritten ws all)
Kept hist (writing v n rs ws todo) all = Returned (hist v) all × (rs ≡ unwritten ws all)
Kept hist (publishing n todo) all = Unit
Kept hist (undoing todo) all = Unit

-- The past of the memory is enough.
Kept-past :
    (clock : ℕ) (hist hist' : ℕ → ℕ → ℕ) (q : Pc) (all : List ReadSetValue)
    → Local clock hist q
    → ((t : ℕ) → t ≤ clock → hist' t ≡ hist t)
    → Kept hist q all
    → Kept hist' q all
unfolding Kept Local
Kept-past clock hist hist' idle all l f h = tt
Kept-past clock hist hist' (running v rs ws) all l f h = tt
Kept-past clock hist hist' (loading v rs ws x w) all l f h = tt
Kept-past clock hist hist' (locking v rs done todo) all l f h = rw (f v l.0) h
Kept-past clock hist hist' (swapping v rs done e todo k) all l f h = rw (f v l.0) h
Kept-past clock hist hist' (validating v n ws seen todo) all l f h =
    rw (f v (omega (arith, l.0, l.1))) h
Kept-past clock hist hist' (writing v n rs ws todo) all l f h = rw (f v (omega (arith, l.0, l.1))) h
Kept-past clock hist hist' (publishing n todo) all l f h = tt
Kept-past clock hist hist' (undoing todo) all l f h = tt

abbrev pub AllKept : System → Type 0
AllKept s = (j : ℕ) → Kept s.hist (s.pc j) (s.reads j)

-- Thread `i` goes on at `p`; no other thread loses its reads, and the past stays.
step-Kept :
    (s s' : System) (i : ℕ) (p : Pc)
    → IsSound s
    → AllKept s
    → s'.pc ≡ update s.pc i p
    → ((j : ℕ) → j ≢ i → s'.reads j ≡ s.reads j)
    → ((t : ℕ) → t ≤ s.clock → s'.hist t ≡ s.hist t)
    → Kept s'.hist p (s'.reads i)
    → AllKept s'
step-Kept s s' i p h k e same past new j = elim (Bool-cases (j == i)) [
  | inl f ↦ let at : j ≡ i = ground arith in rw (at, e, update_self s.pc i p) new
  | inr f ↦
      let apart : j ≢ i = ground arith in
      rw (e, update_ne s.pc i j p (λ z. apart (sym z)), same j apart)
        (Kept-past s.clock s.hist s'.hist (s.pc j) (s.reads j) (h.local j) past (k j))
]

-- Where a read whose variable is written returned what the memory `m` holds, and a read that validation
-- tests too, each does.
pub Returned-all :
    (m m' : ℕ → ℕ) (ws : List WriteSetValue) (all : List ReadSetValue)
    → ((x : ℕ) → has x ws ≡ true → m' x ≡ m x)
    → Returned m all
    → Returned m' (unwritten ws all)
    → Returned m' all
unfolding Returned
Returned-all m m' ws [] f h k = tt
Returned-all m m' ws (r ∷ rs) f h k = elim (Bool-cases (has r.src_var ws)) [
  | inl e ↦ (h.0 ∙ sym (f r.src_var e), Returned-all m m' ws rs f h.1 (rw e at k))
  | inr e ↦
      let k' : (r.result ≡ m' r.src_var) × Returned m' (unwritten ws rs) = rw e at k in
      (k'.0, Returned-all m m' ws rs f h.1 k'.1)
]

-- `s'` is `s` but for the place of thread `i` and the variables.
stay :
    (s s' : System) (i : ℕ) (p : Pc)
    → IsSound s
    → AllKept s
    → s'.pc ≡ update s.pc i p
    → s'.reads ≡ s.reads
    → s'.hist ≡ s.hist
    → Kept s.hist p (s.reads i)
    → AllKept s'
stay s s' i p h k e r t new =
    step-Kept s s' i p h k e (λ j n. ap (λ f. f j) r) (λ n b. ap (λ f. f n) t) (rw (r, t) new)

module _ (s : System) (i : ℕ) (h : IsSound s) (k : AllKept s) where
  halt : (p : Pc) → Kept s.hist p (s.reads i) → AllKept (become i p s)
  halt p new = stay s (become i p s) i p h k refl refl refl new

  begin-Kept :
      (v : ℕ) (rs : List ReadSetValue) (ws : List WriteSetValue)
      → Local s.clock s.hist (running v rs ws)
      → AllKept
          (become i (locking v (unwritten ws rs) [] ws) (record s { reads = update s.reads i rs }))
  unfolding Kept Local
  begin-Kept v rs ws l =
      step-Kept s
        (become i (locking v (unwritten ws rs) [] ws) (record s { reads = update s.reads i rs })) i
        (locking v (unwritten ws rs) [] ws) h k refl
        (λ j n. update_ne s.reads i j rs (λ z. n (sym z))) (λ t b. refl)
        (rw (update_self s.reads i rs) (l.1, refl))

module _ (s : System) (i : ℕ) (h : IsSound s) (k : AllKept s) where
  running-Kept :
      (c : Choice) (v : ℕ) (rs : List ReadSetValue) (ws : List WriteSetValue)
      → Local s.clock s.hist (running v rs ws)
      → AllKept (move c i (running v rs ws) s)
  unfolding move Kept
  running-Kept (load x) v rs ws l = elim (Bool-cases (has x ws)) [
    | inl e ↦ rw e (elim (Bool-cases (valid_at v (s.var x).version_lock)) [
      | inl f ↦ rw f k
      | inr f ↦ rw f (halt s i h k idle tt)
    ])
    | inr e ↦ rw e (halt s i h k (loading v rs ws x (s.var x).storage) tt)
  ]
  running-Kept (store x w) v rs ws l = elim (Bool-cases (valid_at v (s.var x).version_lock)) [
    | inl f ↦ rw f (halt s i h k (running v rs (put ws x w)) tt)
    | inr f ↦ rw f (halt s i h k idle tt)
  ]
  running-Kept retry v rs ws l = halt s i h k idle tt
  running-Kept commit v rs [] l = halt s i h k idle tt
  running-Kept commit v rs (e ∷ ws) l = begin-Kept s i h k v rs (e ∷ ws) l

  -- Each move of a commit.
  committing-Kept :
      (c : Choice) (q : Pc)
      → Local s.clock s.hist q
      → Kept s.hist q (s.reads i)
      → AllKept (move c i q s)
  unfolding move Kept
  committing-Kept c idle l here = halt s i h k (running s.clock [] []) tt
  committing-Kept c (running v rs ws) l here = running-Kept c v rs ws l
  committing-Kept c (loading v rs ws x w) l here =
      elim (Bool-cases (valid_at v (s.var x).version_lock)) [
        | inl f ↦
            rw f (halt s i h k (running v (rs ++ record { src_var = x; result = w } ∷ []) ws) tt)
        | inr f ↦ rw f (halt s i h k idle tt)
      ]
  committing-Kept c (locking v rs done []) l here =
      halt s i h k (validating v s.clock done [] rs)
        (here.0, here.1 ∙ ap (λ ws. unwritten ws (s.reads i)) (append-nil done))
  committing-Kept c (locking v rs done (e ∷ todo)) l here =
      elim (Bool-cases (valid_at v (s.var e.dest_var).version_lock)) [
        | inl f ↦
            rw f (halt s i h k (swapping v rs done e todo (s.var e.dest_var).version_lock) here)
        | inr f ↦ rw f (halt s i h k (undoing done) tt)
      ]
  committing-Kept c (swapping v rs done e todo n) l here =
      elim (Bool-cases ((s.var e.dest_var).version_lock == n)) [
        | inl f ↦
            let p = locking v rs (done ++ e ∷ []) todo in
            rw f (
              stay s
                (change i p e.dest_var (record (s.var e.dest_var) { version_lock = as_locked n })
                  (some i) s)
                i p h k refl refl refl
                (
                  here.0,
                  here.1
                      ∙ ap (λ ws. unwritten ws (s.reads i)) (sym (append_assoc done (e ∷ []) todo)),
                ))
        | inr f ↦ rw f (halt s i h k (undoing done) tt)
      ]
  committing-Kept c (validating v n ws seen []) l here =
      halt s i h k (writing v n seen ws ws) (here.0, sym (append-nil seen) ∙ here.1)
  committing-Kept c (validating v n ws seen (r ∷ todo)) l here =
      elim (Bool-cases (valid_at v (s.var r.src_var).version_lock)) [
        | inl f ↦ rw f (
            halt s i h k (validating v n ws (seen ++ r ∷ []) todo)
              (here.0, append_assoc seen (r ∷ []) todo ∙ here.1))
        | inr f ↦ rw f (halt s i h k (undoing ws) tt)
      ]
  committing-Kept c (writing v n rs ws []) l here =
      step-Kept s (bump i (publishing (s.clock + 1) ws) ws s) i (publishing (s.clock + 1) ws) h k
        refl (λ j d. refl)
        (λ t b.
          update_ne s.hist (s.clock + 1) t (λ x. settle ws x (s.hist s.clock x)) (omega arith))
        tt
  committing-Kept c (writing v n rs ws (e ∷ todo)) l here =
      let p = writing v n rs ws todo in
      stay s
        (change i p e.dest_var (record (s.var e.dest_var) { storage = e.pending_write }) (some i) s)
        i p h k refl refl refl here
  committing-Kept c (publishing n []) l here = halt s i h k idle tt
  committing-Kept c (publishing n (e ∷ todo)) l here =
      let p = publishing n todo in
      stay s (change i p e.dest_var (record (s.var e.dest_var) { version_lock = n }) none s) i p h k
        refl refl refl tt
  committing-Kept c (undoing []) l here = halt s i h k idle tt
  committing-Kept c (undoing (e ∷ todo)) l here =
      let x = e.dest_var in
      let p = undoing todo in
      stay s
        (change i p x (record (s.var x) { version_lock = bit_xor (s.var x).version_lock lock_bit })
          none s)
        i p h k refl refl refl tt

pub move-Kept :
    (c : Choice) (s : System) (i : ℕ) → IsSound s → AllKept s → AllKept (move c i (s.pc i) s)
move-Kept c s i h k = committing-Kept s i h k c (s.pc i) (h.local i) (k i)
