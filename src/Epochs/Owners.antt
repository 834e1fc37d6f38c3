-- ===== src/Epochs/Owners.antt =====
-- Steps of one thread, and who minds them.
use mathlib.Core.Path.{subst}
use lockfree_stm.Common.{
  ℕ, ◌≡◌, ◌≢◌, ◌⊎◌, inl, inr, refl, sym, ap, ◌∙◌, Bool, true, false, List, ◌==◌, arith, Bool-cases,
}
use lockfree_stm.Common.Update.{update, update_self, update_ne}
use lockfree_stm.Common.Distinct.{contains, is_distinct}
use lockfree_stm.Epochs.{
  Hold, unlocked, shared, exclusive, is_free, is_shareable, Pc, absent, idle, leaving, entering,
  changing, locking, unlocking, scanning, waiting, System, goto, set_node_mut,
}
use lockfree_stm.Epochs.Alive.{has_list, is_scan, is_out, Locks, IsLocked, Unneeded, Locks-set}

-- A step of `i` to the place `p`.
module _ (s s' : System) (i : ℕ) (p : Pc) (h : IsLocked s) where
  pub after-IsLocked :
      s'.pc ≡ update s.pc i p
      → is_distinct s'.nodes ≡ true
      → ((k : ℕ) → k ≢ i → has_list (s.pc k) ≡ true → s'.mut ≡ exclusive)
      → (has_list p ≡ true
          → (s'.mut ≡ exclusive) × ((k : ℕ) → k ≢ i → has_list (s.pc k) ≡ true → k ≡ i))
      → ((k : ℕ) → k ≢ i → is_out (s.pc k) ≡ true → contains k s'.nodes ≡ false)
      → (is_out p ≡ true → contains i s'.nodes ≡ false)
      → ((k : ℕ) → k ≢ i → Locks s'.nodes s'.node_mut k (s.pc k))
      → Locks s'.nodes s'.node_mut i p
      → IsLocked s'
  after-IsLocked e dis mut own out out_i locks locks_i =
      let at_i : s'.pc i ≡ p = ap (λ f. f i) e ∙ update_self s.pc i p in
      let at : (k : ℕ) → k ≢ i → s'.pc k ≡ s.pc k =
        λ k d. ap (λ f. f k) e ∙ update_ne s.pc i k p (λ q. d (sym q)) in
      let split : (k : ℕ) → (k ≡ i) ⊎ (k ≢ i) = λ k. elim (Bool-cases (k == i)) [
        | inl d ↦ inl (ground arith)
        | inr d ↦ inr (ground arith)
      ] in
      record {
        distinct = dis;
        mut = λ k l. elim (split k) [
          | inl d ↦ (own (ap has_list (sym at_i ∙ ap s'.pc (sym d)) ∙ l)).0
          | inr d ↦ mut k d (ap has_list (sym (at k d)) ∙ l)
        ];
        owner = λ k j l m. elim (split k) [
          | inl d ↦ elim (split j) [
            | inl c ↦ d ∙ sym c
            | inr c ↦
                d
                ∙ sym (
                    (own (ap has_list (sym at_i ∙ ap s'.pc (sym d)) ∙ l)).1 j c
                      (ap has_list (sym (at j c)) ∙ m))
          ]
          | inr d ↦ elim (split j) [
            | inl c ↦
                (own (ap has_list (sym at_i ∙ ap s'.pc (sym c)) ∙ m)).1 k d
                  (ap has_list (sym (at k d)) ∙ l)
                ∙ sym c
            | inr c ↦ h.owner k j (ap has_list (sym (at k d)) ∙ l) (ap has_list (sym (at j c)) ∙ m)
          ]
        ];
        out = λ k o. elim (split k) [
          | inl d ↦
              ap (λ z. contains z s'.nodes) d ∙ out_i (ap is_out (sym at_i ∙ ap s'.pc (sym d)) ∙ o)
          | inr d ↦ out k d (ap is_out (sym (at k d)) ∙ o)
        ];
        locks = λ k. elim (split k) [
          | inl d ↦
              subst (λ z. Locks s'.nodes s'.node_mut z (s'.pc z)) (sym d)
                (subst (Locks s'.nodes s'.node_mut i) (sym at_i) locks_i)
          | inr d ↦ subst (Locks s'.nodes s'.node_mut k) (sym (at k d)) (locks k d)
        ];
      }

-- A step that changes neither the list nor a mutex.
pub place-IsLocked :
    (s : System) (i : ℕ) (p q : Pc)
    → IsLocked s
    → s.pc i ≡ q
    → (has_list p ≡ true → has_list q ≡ true)
    → (is_out p ≡ true → is_out q ≡ true)
    → Locks s.nodes s.node_mut i p
    → IsLocked (goto i p s)
place-IsLocked s i p q h e l o locks =
    after-IsLocked s (goto i p s) i p h refl h.distinct (λ k d m. h.mut k m)
      (λ m.
        let here : has_list (s.pc i) ≡ true = ap has_list e ∙ l m in
        (h.mut i here, λ k d n. h.owner k i n here))
      (λ k d m. h.out k m) (λ m. h.out i (ap is_out e ∙ o m)) (λ k d. h.locks k) locks

-- A step that changes one mutex.
pub mutex-IsLocked :
    (s : System) (i : ℕ) (p q : Pc) (j : ℕ) (x : Hold)
    → IsLocked s
    → s.pc i ≡ q
    → (has_list p ≡ true → has_list q ≡ true)
    → (is_out p ≡ true → is_out q ≡ true)
    → ((k : ℕ) → k ≢ i → Unneeded s k (s.pc k) j x)
    → Locks s.nodes (update s.node_mut j x) i p
    → IsLocked (goto i p (set_node_mut j x s))
mutex-IsLocked s i p q j x h e l o free locks =
    after-IsLocked s (goto i p (set_node_mut j x s)) i p h refl h.distinct (λ k d m. h.mut k m)
      (λ m.
        let here : has_list (s.pc i) ≡ true = ap has_list e ∙ l m in
        (h.mut i here, λ k d n. h.owner k i n here))
      (λ k d m. h.out k m) (λ m. h.out i (ap is_out e ∙ o m))
      (λ k d. Locks-set s k j x (s.pc k) (free k d) (h.locks k)) locks

pub Hold-cases : (h : Hold) → (is_free h ≡ true) ⊎ (h ≡ shared) ⊎ (h ≡ exclusive)
Hold-cases unlocked = inl refl
Hold-cases shared = inr (inl refl)
Hold-cases exclusive = inr (inr refl)

abbrev is_shared : Hold → Bool
is_shared shared = true
is_shared h = false

pub not_exclusive : (h : Hold) → is_shareable h ≡ true → h ≢ exclusive
not_exclusive h e f = absurd (ground (arith, ap is_shareable f, e))

free_shareable : (h : Hold) → is_free h ≡ true → is_shareable h ≡ true
free_shareable unlocked e = refl
free_shareable shared e = absurd (cc)
free_shareable exclusive e = absurd (cc)

-- A scanning thread has its own mutex shared, and is in the list.
pub scan-shared :
    (nodes : List ℕ) (m : ℕ → Hold) (k : ℕ) (p : Pc)
    → is_scan p ≡ true
    → Locks nodes m k p
    → m k ≡ shared
unfolding Locks
scan-shared nodes m k (scanning e l r f) i h = h.0
scan-shared nodes m k (waiting e j l r f) i h = h.0
scan-shared nodes m k absent i h = absurd (cc)
scan-shared nodes m k idle i h = absurd (cc)
scan-shared nodes m k leaving i h = absurd (cc)
scan-shared nodes m k (entering b) i h = absurd (cc)
scan-shared nodes m k (changing b) i h = absurd (cc)
scan-shared nodes m k (locking b l) i h = absurd (cc)
scan-shared nodes m k (unlocking b l) i h = absurd (cc)

module _ (s : System) (h : IsLocked s) where
  -- A mutex that is not shared is not that of a scanning thread.
  pub scans_other : (k j : ℕ) → s.node_mut j ≢ shared → is_scan (s.pc k) ≡ true → k ≢ j
  scans_other k j d i e =
      d (ap s.node_mut (sym e) ∙ scan-shared s.nodes s.node_mut k (s.pc k) i (h.locks k))

  -- Nobody needs a free mutex, or one's own that is not exclusive.
  pub free-Unneeded :
      (j k : ℕ) (x : Hold) → is_free (s.node_mut j) ≡ true → Unneeded s k (s.pc k) j x
  unfolding Unneeded
  free-Unneeded j k x e = (
    scans_other k j (λ d. absurd (ground (arith, ap is_free d, e))),
    inr (inl (not_exclusive (s.node_mut j) (free_shareable (s.node_mut j) e))),
  )

  pub own-Unneeded :
      (i k : ℕ) (x : Hold) → k ≢ i → s.node_mut i ≢ exclusive → Unneeded s k (s.pc k) i x
  unfolding Unneeded
  own-Unneeded i k x d e = (λ c. d, inr (inl e))

  -- A mutex of a thread out of the list.
  pub out-Unneeded :
      (i k : ℕ) (x : Hold) → k ≢ i → contains i s.nodes ≡ false → Unneeded s k (s.pc k) i x
  unfolding Unneeded
  out-Unneeded i k x d e = (λ c. d, inr (inr (inl (d, e))))
