-- ===== src/Epochs/Listing.antt =====
-- The calls of an idle thread keep what the mutexes promise, and what becomes of the list.
use mathlib.Core.Path.{subst}
use lockfree_stm.Common.{
  ℕ, ◌≡◌, ◌≢◌, inl, inr, refl, sym, ap, ◌∙◌, Bool, true, false, not, ◌&&◌, ◌||◌, List, leb, ltb,
  ◌==◌, arith, Bool-cases,
}
use lockfree_stm.Common.Update.{update_self}
use lockfree_stm.Common.Distinct.{contains, is_distinct}
use lockfree_stm.Machine.{off_state}
use lockfree_stm.Epochs.{
  unlocked, shared, exclusive, is_free, is_shareable, Pc, idle, entering, scanning, Call, construct,
  destroy, access_unlock, access_lock, access_relock, synchronize_min_epoch, System,
  in_critical_section, changed, call,
}
use lockfree_stm.Epochs.Grace.{IsConsistent, contains_snoc}
use lockfree_stm.Epochs.Removal.{added_distinct, removed_distinct}
use lockfree_stm.Epochs.Owners.{
  place-IsLocked, mutex-IsLocked, scan-shared, not_exclusive, own-Unneeded, scans_other,
}
use lockfree_stm.Epochs.Alive.{has_list, is_scan, is_out, Locks, IsLocked, Unneeded, scan_listed}

added-contains :
    (j i : ℕ) (nodes : List ℕ) → contains j (changed true i nodes) ≡ (contains j nodes || (j == i))
unfolding changed
added-contains j i nodes = contains_snoc j i nodes

module _ (s : System) (i : ℕ) (h : IsLocked s) (c : IsConsistent s) where
  pub place-Locks : (p : Pc) → s.pc i ≡ p → Locks s.nodes s.node_mut i p
  place-Locks p e = subst (Locks s.nodes s.node_mut i) e (h.locks i)

  pub call-IsLocked : (k : Call) → s.pc i ≡ idle → IsLocked (call k i s)
  unfolding call Locks
  call-IsLocked construct e = h
  call-IsLocked destroy e = elim (Bool-cases (in_critical_section i s)) [
    | inl d ↦ rw d h
    | inr d ↦
        rw d (place-IsLocked s i (entering false) idle h e (λ k. k) (λ k. k) (λ k. absurd (cc)))
  ]
  call-IsLocked access_unlock e = elim (Bool-cases (in_critical_section i s)) [
    | inr d ↦ rw d h
    | inl d ↦ rw d (record {
      distinct = h.distinct;
      mut = h.mut;
      owner = h.owner;
      out = h.out;
      locks = h.locks;
    })
  ]
  call-IsLocked (access_lock epoch) e = elim (Bool-cases (in_critical_section i s)) [
    | inl d ↦ rw d h
    | inr d ↦ elim (Bool-cases (ltb epoch off_state)) [
      | inr l ↦ rw (d, l) h
      | inl l ↦
          rw (d, l)
            (record {
              distinct = h.distinct;
              mut = h.mut;
              owner = h.owner;
              out = h.out;
              locks = h.locks;
            })
    ]
  ]
  call-IsLocked (access_relock epoch) e = elim (Bool-cases (in_critical_section i s)) [
    | inr d ↦ rw d h
    | inl d ↦ elim (Bool-cases (ltb epoch off_state && leb (s.active i) epoch)) [
      | inr l ↦ rw (d, l) h
      | inl l ↦
          rw (d, l)
            (record {
              distinct = h.distinct;
              mut = h.mut;
              owner = h.owner;
              out = h.out;
              locks = h.locks;
            })
    ]
  ]
  call-IsLocked (synchronize_min_epoch epoch) e = elim (Bool-cases (in_critical_section i s)) [
    | inl d ↦ rw d h
    | inr d ↦ elim (Bool-cases (ltb epoch off_state && is_shareable (s.node_mut i))) [
      | inr l ↦ rw (d, l) h
      | inl l ↦
          rw (d, l)
            (mutex-IsLocked s i (scanning epoch s.nodes off_state s.sections) idle i shared h e
              (λ k. k) (λ k. k)
              (λ k a.
                own-Unneeded s h i k shared a (not_exclusive (s.node_mut i) (ground (arith, l))))
              (update_self s.node_mut i shared, λ j a. a))
    ]
  ]

  -- Nobody else has the list to itself.
  pub alone :
      (p : Pc) → s.pc i ≡ p → has_list p ≡ true → (k : ℕ) → k ≢ i → has_list (s.pc k) ≡ false
  alone p e l k d = elim (Bool-cases (has_list (s.pc k))) [
    | inr f ↦ f
    | inl f ↦ absurd (d (h.owner k i f (ap has_list e ∙ l)))
  ]

  -- The list is free to take.
  pub nobody : is_free s.mut ≡ true → (k : ℕ) → has_list (s.pc k) ≡ false
  nobody f k = elim (Bool-cases (has_list (s.pc k))) [
    | inr e ↦ e
    | inl e ↦ absurd (ground (arith, ap is_free (h.mut k e), f))
  ]

  pub not_out : (p : Pc) → s.pc i ≡ p → is_out p ≡ true → contains i s.nodes ≡ false
  not_out p e o = h.out i (ap is_out e ∙ o)

  -- With the whole list locked, nobody scans it.
  pub no_scan :
      (j : ℕ)
      → ((z : ℕ) → contains z s.nodes ≡ true → s.node_mut z ≡ exclusive)
      → is_scan (s.pc j) ≡ false
  no_scan j held = elim (Bool-cases (is_scan (s.pc j))) [
    | inr f ↦ f
    | inl f ↦
        let one = scan-shared s.nodes s.node_mut j (s.pc j) f (h.locks j) in
        let two = held j (c.listed j (scan_listed (s.pc j) f)) in
        absurd (ground (arith, ap is_shareable (sym one ∙ two)))
  ]

  pub unlock-Unneeded :
      (j m : ℕ)
      → s.node_mut j ≡ exclusive
      → contains j s.nodes ≡ true
      → has_list (s.pc m) ≡ false
      → Unneeded s m (s.pc m) j unlocked
  unfolding Unneeded
  unlock-Unneeded j m e l a = (
    scans_other s h m j (λ f. absurd (ground (arith, ap is_shareable (sym f ∙ e)))),
    inr (
        inr (
          inr (
            a,
            λ o d.
                let out : contains j s.nodes ≡ false =
                  ap (λ z. contains z s.nodes) (sym d) ∙ h.out m o in
                absurd (ground (arith, out, l)),
          ))),
  )

  -- What becomes of the list.
  pub list_changed :
      (new : Bool)
      → (new ≡ true → s.node_mut i ≡ exclusive)
      → ((z : ℕ) → contains z s.nodes ≡ true → s.node_mut z ≡ exclusive)
      → (new ≡ true → contains i s.nodes ≡ false)
      → (is_distinct (changed new i s.nodes) ≡ true)
        × (not new ≡ true → contains i (changed new i s.nodes) ≡ false)
        × ((k : ℕ)
            → k ≢ i
            → contains k s.nodes ≡ false
            → contains k (changed new i s.nodes) ≡ false)
        × ((z : ℕ)
            → contains z (changed new i s.nodes) ≡ true
            → (s.node_mut z ≡ exclusive) × (contains z (changed new i s.nodes) ≡ true))
  list_changed true own held out = (
    added_distinct s.nodes i h.distinct (out refl),
    λ e. absurd (cc),
    λ k d o. added-contains k i s.nodes ∙ ground (arith, o, d),
    λ z a. (
      elim (Bool-cases (z == i)) [
        | inl d ↦ ap s.node_mut (ground arith) ∙ own refl
        | inr d ↦ held z (ground (arith, sym (added-contains z i s.nodes) ∙ a, d))
      ],
      a,
    ),
  )
  list_changed false own held out =
      let (dis, gone, within) = removed_distinct s.nodes i h.distinct in
      (
        dis,
        λ e. gone,
        λ k d o. elim (Bool-cases (contains k (changed false i s.nodes))) [
          | inr f ↦ f
          | inl f ↦ absurd (ground (arith, within k f, o))
        ],
        λ z a. (held z (within z a), a),
      )
