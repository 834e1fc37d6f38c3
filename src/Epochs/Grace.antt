-- ===== src/Epochs/Grace.antt =====
-- The grace period: what `synchronize_min_epoch` has waited for when it ends.
use mathlib.Core.Path.{subst}
use lockfree_stm.Common.{
  ℕ, ◌≤◌, ◌<◌, ◌≡◌, ◌≢◌, ◌⊎◌, inl, inr, refl, sym, ap, ◌∙◌, Bool, true, false, ◌||◌, List, [], ◌∷◌,
  ◌++◌, ◌==◌, arith, Bool-cases,
}
use lockfree_stm.Common.Update.{update, update_self, update_ne}
use lockfree_stm.Common.Distinct.{contains, contains-append}
use lockfree_stm.Machine.{off_state}
use lockfree_stm.Epochs.{
  Pc, absent, idle, leaving, entering, changing, locking, unlocking, scanning, waiting, System,
  begin,
}

-- The nodes that are left are those that the scan has yet to see: any other thread that is in the section
-- that it was in at the start of the call is in one past the epoch, and the result is no later.
pub record HasPassed (s : System) (epoch : ℕ) (left : List ℕ) (result : ℕ) (seen : ℕ → ℕ)
    : Type 0 where
  pub before : epoch < result
  pub off : result ≤ off_state
  pub grows : (j : ℕ) → seen j ≤ s.sections j
  pub passed :
      (j : ℕ)
      → contains j left ≡ false
      → s.sections j ≡ seen j
      → (epoch < s.active j) × (result ≤ s.active j)

-- A waited thread is still in its old section, or outside of any.
unfoldable pub Scan : System → Pc → Type 0
Scan s (scanning epoch left result seen) = HasPassed s epoch left result seen
Scan s (waiting epoch j left result seen) =
    HasPassed s epoch (j ∷ left) result seen
    × (s.sections j ≡ seen j → (s.active j ≤ epoch) ⊎ (s.active j ≡ off_state))
Scan s p = Unit

abbrev pub is_listed : Pc → Bool
is_listed idle = true
is_listed (unlocking new left) = new
is_listed (scanning epoch left result seen) = true
is_listed (waiting epoch j left result seen) = true
is_listed p = false

abbrev pub is_idle : Pc → Bool
is_idle idle = true
is_idle p = false

-- Only listed threads are in sections, and only between their calls.
pub record IsConsistent (s : System) : Type 0 where
  pub listed : (j : ℕ) → is_listed (s.pc j) ≡ true → contains j s.nodes ≡ true
  pub outside : (j : ℕ) → is_idle (s.pc j) ≡ false → s.active j ≡ off_state
  pub scans : (j : ℕ) → Scan s (s.pc j)

-- A thread that is not listed is in no section.
unlisted :
    (s : System) (j : ℕ) → IsConsistent s → contains j s.nodes ≡ false → s.active j ≡ off_state
unlisted s j h e = elim (Bool-cases (is_idle (s.pc j))) [
  | inr i ↦ h.outside j i
  | inl i ↦ absurd (ground (arith, e, h.listed j (idle_listed (s.pc j) i)))
]
  where
    idle_listed : (p : Pc) → is_idle p ≡ true → is_listed p ≡ true
    idle_listed idle i = refl
    idle_listed absent i = absurd (cc)
    idle_listed leaving i = absurd (cc)
    idle_listed (entering b) i = absurd (cc)
    idle_listed (changing b) i = absurd (cc)
    idle_listed (locking b js) i = absurd (cc)
    idle_listed (unlocking b js) i = absurd (cc)
    idle_listed (scanning e js r f) i = absurd (cc)
    idle_listed (waiting e j js r f) i = absurd (cc)

-- A thread is in the section that it was in, or has left it, or has begun another.
unfoldable pub Moved : System → System → Type 0
Moved s s' =
    (j : ℕ)
    → ((s'.sections j ≡ s.sections j) × ((s'.active j ≡ s.active j) ⊎ (s'.active j ≡ off_state)))
      ⊎ (s.sections j < s'.sections j)

pub HasPassed-Moved :
    (s s' : System) (epoch : ℕ) (left : List ℕ) (result : ℕ) (seen : ℕ → ℕ)
    → Moved s s'
    → HasPassed s epoch left result seen
    → HasPassed s' epoch left result seen
unfolding Moved
HasPassed-Moved s s' epoch left result seen m h = record {
  before = h.before;
  off = h.off;
  grows = λ j. elim (m j) [
    | inl (e, f) ↦ ground (arith, h.grows j, e)
    | inr l ↦ ground (arith, h.grows j, l)
  ];
  passed = λ j out same. elim (m j) [
    | inr l ↦ absurd (ground (arith, h.grows j, l, same))
    | inl (e, inl f) ↦ let was = h.passed j out (sym e ∙ same) in ground (arith, was, f)
    | inl (e, inr f) ↦ ground (arith, f, h.before, h.off)
  ];
}

Scan-Moved : (s s' : System) (p : Pc) → Moved s s' → Scan s p → Scan s' p
unfolding Scan Moved
Scan-Moved s s' (scanning epoch left result seen) m h =
    HasPassed-Moved s s' epoch left result seen m h
Scan-Moved s s' (waiting epoch j left result seen) m (h, w) = (
  HasPassed-Moved s s' epoch (j ∷ left) result seen m h,
  λ same. elim (m j) [
    | inr l ↦ absurd (ground (arith, h.grows j, l, same))
    | inl (e, inr f) ↦ inr f
    | inl (e, inl f) ↦ elim (w (sym e ∙ same)) [
      | inl b ↦ inl (ground (arith, b, f))
      | inr b ↦ inr (f ∙ b)
    ]
  ],
)
Scan-Moved s s' absent m h = tt
Scan-Moved s s' idle m h = tt
Scan-Moved s s' leaving m h = tt
Scan-Moved s s' (entering b) m h = tt
Scan-Moved s s' (changing b) m h = tt
Scan-Moved s s' (locking b js) m h = tt
Scan-Moved s s' (unlocking b js) m h = tt

-- A step of `i` that leaves the other threads where they are, and their nodes in the list.
module _ (s s' : System) (i : ℕ) (h : IsConsistent s) where
  pub after-IsConsistent :
      Moved s s'
      → ((j : ℕ) → j ≢ i → (s'.pc j ≡ s.pc j) × (s'.active j ≡ s.active j))
      → ((j : ℕ) → j ≢ i → contains j s.nodes ≡ true → contains j s'.nodes ≡ true)
      → (is_listed (s'.pc i) ≡ true → contains i s'.nodes ≡ true)
      → (is_idle (s'.pc i) ≡ false → s'.active i ≡ off_state)
      → Scan s' (s'.pc i)
      → IsConsistent s'
  after-IsConsistent m others keeps listed outside scan = record {
    listed = λ j e. elim (Bool-cases (j == i)) [
      | inl d ↦
          let same : i ≡ j = ground arith in
          ap (λ k. contains k s'.nodes) (sym same) ∙ listed (ap (λ k. is_listed (s'.pc k)) same ∙ e)
      | inr d ↦
          let (p, a) = others j (ground arith) in
          keeps j (ground arith) (h.listed j (ap is_listed (sym p) ∙ e))
    ];
    outside = λ j e. elim (Bool-cases (j == i)) [
      | inl d ↦
          let same : i ≡ j = ground arith in
          ap s'.active (sym same) ∙ outside (ap (λ k. is_idle (s'.pc k)) same ∙ e)
      | inr d ↦ let (p, a) = others j (ground arith) in a ∙ h.outside j (ap is_idle (sym p) ∙ e)
    ];
    scans = λ j. elim (Bool-cases (j == i)) [
      | inl d ↦ let same : i ≡ j = ground arith in subst (λ k. Scan s' (s'.pc k)) same scan
      | inr d ↦
          let (p, a) = others j (ground arith) in
          subst (Scan s') (sym p) (Scan-Moved s s' (s.pc j) m (h.scans j))
    ];
  }

  -- A step that changes the place of `i`, and mutexes.
  pub goto-IsConsistent :
      (p : Pc)
      → (s'.nodes ≡ s.nodes) × (s'.active ≡ s.active) × (s'.sections ≡ s.sections)
      → s'.pc ≡ update s.pc i p
      → (is_listed p ≡ true → contains i s.nodes ≡ true)
      → (is_idle p ≡ false → s.active i ≡ off_state)
      → Scan s p
      → IsConsistent s'
  unfolding Moved
  goto-IsConsistent p (n, a, c) e listed outside scan =
      let at_i : s'.pc i ≡ p = ap (λ f. f i) e ∙ update_self s.pc i p in
      let moved : Moved s s' = λ j. inl (ap (λ f. f j) c, inl (ap (λ f. f j) a)) in
      after-IsConsistent moved
        (λ j d. (ap (λ f. f j) e ∙ update_ne s.pc i j p (λ k. d (sym k)), ap (λ f. f j) a))
        (λ j d k. ap (contains j) n ∙ k)
        (λ k. ap (contains i) n ∙ listed (ap is_listed (sym at_i) ∙ k))
        (λ k. ap (λ f. f i) a ∙ outside (ap is_idle (sym at_i) ∙ k))
        (subst (Scan s') (sym at_i) (Scan-Moved s s' p moved scan))

  -- A step of an idle thread that changes its epoch.
  pub epoch-IsConsistent :
      Moved s s'
      → s.pc i ≡ idle
      → s'.pc ≡ s.pc
      → s'.nodes ≡ s.nodes
      → ((j : ℕ) → j ≢ i → s'.active j ≡ s.active j)
      → IsConsistent s'
  unfolding Scan
  epoch-IsConsistent m at_i p n others =
      let at_i' : s'.pc i ≡ idle = ap (λ f. f i) p ∙ at_i in
      after-IsConsistent m (λ j d. (ap (λ f. f j) p, others j d)) (λ j d k. ap (contains j) n ∙ k)
        (λ k. ap (contains i) n ∙ h.listed i (ap is_listed at_i))
        (λ k. absurd (ground (arith, ap is_idle at_i', k))) (subst (Scan s') (sym at_i') tt)

pub contains_snoc :
    (j i : ℕ) (xs : List ℕ) → contains j (xs ++ i ∷ []) ≡ (contains j xs || (j == i))
contains_snoc j i xs = contains-append j xs (i ∷ []) ∙ ground arith

pub begin-Moved : (s : System) (i epoch : ℕ) → Moved s (begin i epoch s)
unfolding Moved update
begin-Moved s i epoch j = elim (Bool-cases (i == j)) [
  | inl e ↦ inr (rw e (ground arith))
  | inr e ↦ inl (rw e refl, inl (rw e refl))
]

pub left_section-Moved :
    (s : System) (i : ℕ) → Moved s (record s { active = update s.active i off_state })
unfolding Moved update
left_section-Moved s i j = elim (Bool-cases (i == j)) [
  | inl e ↦ inl (refl, inr (rw e refl))
  | inr e ↦ inl (refl, inl (rw e refl))
]

-- The start of a scan: every thread that is not in the list is in no section.
pub scan_start :
    (s : System) (epoch : ℕ)
    → IsConsistent s
    → epoch < off_state
    → HasPassed s epoch s.nodes off_state s.sections
scan_start s epoch h b = record {
  before = b;
  off = omega arith;
  grows = λ j. omega arith;
  passed = λ j out same. let e = unlisted s j h out in ground (arith, e, b);
}
