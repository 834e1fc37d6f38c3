-- ===== src/Epochs/Steps.antt =====
-- Every step of a thread keeps the grace period.
use mathlib.Core.Path.{subst}
use lockfree_stm.Common.{
  ℕ, zero, suc, ◌≤◌, ◌<◌, ◌≡◌, ◌≢◌, ◌⊎◌, inl, inr, refl, sym, ap, ◌∙◌, Bool, true, false, ◌&&◌,
  List, [], ◌∷◌, ◌++◌, leb, ltb, ◌==◌, arith, Bool-cases, some, get_elem?, set, if◌then◌else◌,
}
use lockfree_stm.Common.Update.{update, update_self, update_ne}
use lockfree_stm.Common.Distinct.{contains}
use lockfree_stm.Machine.{off_state}
use lockfree_stm.Epochs.{
  unlocked, shared, exclusive, is_free, is_shareable, Pc, absent, idle, leaving, entering, changing,
  locking, unlocking, scanning, waiting, Call, construct, destroy, access_unlock, access_lock,
  access_relock, synchronize_min_epoch, System, goto, set_node_mut, in_critical_section, begin,
  index_of, changed, call, step, run, start,
}
use lockfree_stm.PodVector.{move_back, back, drop_last}
use lockfree_stm.PodVector.Laws.{drop_last-back}
use lockfree_stm.Epochs.Grace.{
  HasPassed, Scan, is_listed, is_idle, IsConsistent, Moved, after-IsConsistent, goto-IsConsistent,
  epoch-IsConsistent, contains_snoc, begin-Moved, left_section-Moved, scan_start,
}

pub index_of-contains :
    (i : ℕ) (nodes : List ℕ) → contains i nodes ≡ true → get_elem? nodes (index_of i nodes) ≡ some i
unfolding index_of
index_of-contains i [] h = absurd (cc)
index_of-contains i (x ∷ xs) h = elim (Bool-cases (x == i)) [
  | inl e ↦ let same : x ≡ i = ground arith in rw (e, same) refl
  | inr e ↦ rw e (index_of-contains i xs (ground (arith, h, e)))
]

set_keeps :
    (ys : List ℕ) (a k i j : ℕ)
    → get_elem? (ys ++ a ∷ []) k ≡ some i
    → j ≢ i
    → contains j (ys ++ a ∷ []) ≡ true
    → contains j (set ys k a) ≡ true
set_keeps [] a zero i j e d h = let same : a ≡ i = cc in absurd (ground (arith, h, d, same))
set_keeps [] a (suc k) i j e d h = absurd (cc)
set_keeps (y ∷ ys) a zero i j e d h =
    let same : y ≡ i = cc in ground (arith, h, d, same, contains_snoc j a ys)
set_keeps (y ∷ ys) a (suc k) i j e d h = elim (Bool-cases (j == y)) [
  | inl f ↦ ground (arith, f)
  | inr f ↦ let rest = set_keeps ys a k i j e d (ground (arith, h, f)) in ground (arith, rest)
]

move_back-contains :
    (nodes : List ℕ) (k i j : ℕ)
    → get_elem? nodes k ≡ some i
    → j ≢ i
    → contains j nodes ≡ true
    → contains j (move_back nodes k) ≡ true
unfolding move_back
move_back-contains [] k i j e d h = absurd (cc)
move_back-contains (x ∷ xs) k i j e d h =
    let split = drop_last-back x xs in
    set_keeps (drop_last x xs) (back x xs) k i j (ap (λ l. get_elem? l k) split ∙ e) d
      (ap (contains j) split ∙ h)

-- The list loses the node itself, and no other.
changed_keeps :
    (new : Bool) (i : ℕ) (nodes : List ℕ) (j : ℕ)
    → j ≢ i
    → contains j nodes ≡ true
    → contains j (changed new i nodes) ≡ true
unfolding changed
changed_keeps true i nodes j d h = contains_snoc j i nodes ∙ ground (arith, h)
changed_keeps false i nodes j d h = elim (Bool-cases (contains i nodes)) [
  | inr e ↦ rw e h
  | inl e ↦ rw e (move_back-contains nodes (index_of i nodes) i j (index_of-contains i nodes e) d h)
]

changed_adds : (i : ℕ) (nodes : List ℕ) → contains i (changed true i nodes) ≡ true
unfolding changed
changed_adds i nodes = contains_snoc i i nodes ∙ ground arith

module _ (s : System) (epoch j : ℕ) (js : List ℕ) (result : ℕ) (seen : ℕ → ℕ)
    (h : HasPassed s epoch (j ∷ js) result seen) where
  pass_later :
      leb (s.active j) epoch ≡ false
      → HasPassed s epoch js (if ltb (s.active j) result then s.active j else result) seen
  pass_later b = record {
    before = ground (arith, h.before, b);
    off = ground (arith, h.off);
    grows = h.grows;
    passed = λ k out same. elim (Bool-cases (k == j)) [
      | inl d ↦
          let at_j : s.active k ≡ s.active j = ap s.active (ground arith) in ground (arith, at_j, b)
      | inr d ↦ let was = h.passed k (ground (arith, out, d)) same in ground (arith, was, b)
    ];
  }

  pass_waited :
      (s.sections j ≡ seen j → (s.active j ≤ epoch) ⊎ (s.active j ≡ off_state))
      → leb (s.active j) epoch ≡ false
      → HasPassed s epoch js result seen
  pass_waited w b = record {
    before = h.before;
    off = h.off;
    grows = h.grows;
    passed = λ k out same. elim (Bool-cases (k == j)) [
      | inl d ↦
          let here : k ≡ j = ground arith in
          let at_j : s.active k ≡ s.active j = ap s.active here in
          let same_j : s.sections j ≡ seen j = subst (λ z. s.sections z ≡ seen z) here same in
          elim (w same_j) [
            | inl l ↦ absurd (ground (arith, l, b))
            | inr f ↦ ground (arith, at_j, f, h.before, h.off)
          ]
      | inr d ↦ h.passed k (ground (arith, out, d)) same
    ];
  }

module _ (s : System) (i : ℕ) (h : IsConsistent s) where
  not_idle : (p : Pc) → s.pc i ≡ p → is_idle p ≡ false → s.active i ≡ off_state
  not_idle p e d = h.outside i (ap is_idle e ∙ d)

  is_in_list : (p : Pc) → s.pc i ≡ p → is_listed p ≡ true → contains i s.nodes ≡ true
  is_in_list p e d = h.listed i (ap is_listed e ∙ d)

  call-IsConsistent : (c : Call) → s.pc i ≡ idle → IsConsistent (call c i s)
  unfolding call Scan
  call-IsConsistent construct e = h
  call-IsConsistent destroy e = elim (Bool-cases (in_critical_section i s)) [
    | inl d ↦ rw d h
    | inr d ↦ rw d (
        goto-IsConsistent s (goto i (entering false) s) i h (entering false) (refl, refl, refl) refl
          (λ k. absurd (cc)) (λ k. ground (arith, d)) tt)
  ]
  call-IsConsistent access_unlock e = elim (Bool-cases (in_critical_section i s)) [
    | inr d ↦ rw d h
    | inl d ↦ rw d (
        epoch-IsConsistent s (record s { active = update s.active i off_state }) i h
          (left_section-Moved s i) e refl refl
          (λ j k. update_ne s.active i j off_state (λ f. k (sym f))))
  ]
  call-IsConsistent (access_lock epoch) e = elim (Bool-cases (in_critical_section i s)) [
    | inl d ↦ rw d h
    | inr d ↦ elim (Bool-cases (ltb epoch off_state)) [
      | inr l ↦ rw (d, l) h
      | inl l ↦
          rw (d, l)
            (epoch-IsConsistent s (begin i epoch s) i h (begin-Moved s i epoch) e refl refl
              (λ j k. update_ne s.active i j epoch (λ f. k (sym f))))
    ]
  ]
  call-IsConsistent (access_relock epoch) e = elim (Bool-cases (in_critical_section i s)) [
    | inr d ↦ rw d h
    | inl d ↦ elim (Bool-cases (ltb epoch off_state && leb (s.active i) epoch)) [
      | inr l ↦ rw (d, l) h
      | inl l ↦
          rw (d, l)
            (epoch-IsConsistent s (begin i epoch s) i h (begin-Moved s i epoch) e refl refl
              (λ j k. update_ne s.active i j epoch (λ f. k (sym f))))
    ]
  ]
  call-IsConsistent (synchronize_min_epoch epoch) e = elim (Bool-cases (in_critical_section i s)) [
    | inl d ↦ rw d h
    | inr d ↦ elim (Bool-cases (ltb epoch off_state && is_shareable (s.node_mut i))) [
      | inr l ↦ rw (d, l) h
      | inl l ↦
          let p = scanning epoch s.nodes off_state s.sections in
          rw (d, l)
            (goto-IsConsistent s (goto i p (set_node_mut i shared s)) i h p (refl, refl, refl) refl
              (λ k. is_in_list idle e refl) (λ k. ground (arith, d))
              (scan_start s epoch h (ground (arith, l))))
    ]
  ]

  listed_if : (new : Bool) → new ≡ true → contains i (changed new i s.nodes) ≡ true
  listed_if true e = changed_adds i s.nodes
  listed_if false e = absurd (cc)

  pub step-IsConsistent : (c : Call) (p : Pc) → s.pc i ≡ p → IsConsistent (step c i p s)
  unfolding step Scan Moved
  step-IsConsistent c idle e = call-IsConsistent c e
  step-IsConsistent c leaving e =
      goto-IsConsistent s (goto i absent (set_node_mut i unlocked s)) i h absent (refl, refl, refl)
        refl (λ k. absurd (cc)) (λ k. not_idle leaving e refl) tt
  step-IsConsistent c (entering new) e = elim (Bool-cases (is_free s.mut)) [
    | inr f ↦ rw f h
    | inl f ↦ rw f (
        goto-IsConsistent s (goto i (locking new s.nodes) (record s { mut = exclusive })) i h
          (locking new s.nodes) (refl, refl, refl) refl (λ k. absurd (cc))
          (λ k. not_idle (entering new) e refl) tt)
  ]
  step-IsConsistent c (locking new []) e =
      goto-IsConsistent s (goto i (changing new) s) i h (changing new) (refl, refl, refl) refl
        (λ k. absurd (cc)) (λ k. not_idle (locking new []) e refl) tt
  step-IsConsistent c (locking new (j ∷ js)) e = elim (Bool-cases (is_free (s.node_mut j))) [
    | inr f ↦ rw f h
    | inl f ↦ rw f (
        goto-IsConsistent s (goto i (locking new js) (set_node_mut j exclusive s)) i h
          (locking new js) (refl, refl, refl) refl (λ k. absurd (cc))
          (λ k. not_idle (locking new (j ∷ js)) e refl) tt)
  ]
  step-IsConsistent c (unlocking new (j ∷ js)) e =
      goto-IsConsistent s (goto i (unlocking new js) (set_node_mut j unlocked s)) i h
        (unlocking new js) (refl, refl, refl) refl (λ k. is_in_list (unlocking new (j ∷ js)) e k)
        (λ k. not_idle (unlocking new (j ∷ js)) e refl) tt
  step-IsConsistent c (unlocking true []) e =
      goto-IsConsistent s (goto i idle (record s { mut = unlocked })) i h idle (refl, refl, refl)
        refl (λ k. is_in_list (unlocking true []) e refl) (λ k. absurd (cc)) tt
  step-IsConsistent c (unlocking false []) e =
      goto-IsConsistent s (goto i leaving (record s { mut = unlocked })) i h leaving
        (refl, refl, refl) refl (λ k. absurd (cc)) (λ k. not_idle (unlocking false []) e refl) tt
  step-IsConsistent c (scanning epoch [] result seen) e =
      goto-IsConsistent s (goto i idle (set_node_mut i unlocked s)) i h idle (refl, refl, refl) refl
        (λ k. is_in_list (scanning epoch [] result seen) e refl) (λ k. absurd (cc)) tt
  step-IsConsistent c (scanning epoch (j ∷ js) result seen) e =
      let was = subst (Scan s) e (h.scans i) in
      let listed = is_in_list (scanning epoch (j ∷ js) result seen) e refl in
      let off = not_idle (scanning epoch (j ∷ js) result seen) e refl in
      elim (Bool-cases (leb (s.active j) epoch)) [
        | inl b ↦
            let p = waiting epoch j js result seen in
            rw b (
              goto-IsConsistent s (goto i p s) i h p (refl, refl, refl) refl (λ k. listed)
                (λ k. off) (was, λ same. inl (ground (arith, b))))
        | inr b ↦
            let p =
              scanning epoch js (if ltb (s.active j) result then s.active j else result) seen in
            rw b (
              goto-IsConsistent s (goto i p s) i h p (refl, refl, refl) refl (λ k. listed)
                (λ k. off) (pass_later s epoch j js result seen was b))
      ]
  step-IsConsistent c (waiting epoch j js result seen) e =
      let (was, w) = subst (Scan s) e (h.scans i) in
      let listed = is_in_list (waiting epoch j js result seen) e refl in
      let off = not_idle (waiting epoch j js result seen) e refl in
      elim (Bool-cases (leb (s.active j) epoch)) [
        | inl b ↦ rw b h
        | inr b ↦
            let p = scanning epoch js result seen in
            rw b (
              goto-IsConsistent s (goto i p s) i h p (refl, refl, refl) refl (λ k. listed)
                (λ k. off) (pass_waited s epoch j js result seen was w b))
      ]
  step-IsConsistent c (changing new) e =
      let nodes = changed new i s.nodes in
      let p = unlocking new nodes in
      let w = goto i p (record s { nodes = nodes }) in
      let at_i : w.pc i ≡ p = update_self s.pc i p in
      after-IsConsistent s w i h (λ j. inl (refl, inl refl))
        (λ j d. (update_ne s.pc i j p (λ k. d (sym k)), refl))
        (λ j d k. changed_keeps new i s.nodes j d k)
        (λ k. listed_if new (sym (ap is_listed at_i) ∙ k)) (λ k. not_idle (changing new) e refl)
        (subst (Scan w) (sym at_i) tt)
  step-IsConsistent construct absent e = elim (Bool-cases (is_free (s.node_mut i))) [
    | inr f ↦ rw f h
    | inl f ↦
        let p = entering true in
        let v = record (set_node_mut i exclusive s) { active = update s.active i off_state } in
        let w = goto i p v in
        let at_i : w.pc i ≡ p = update_self s.pc i p in
        rw f (
          after-IsConsistent s w i h (left_section-Moved s i)
            (λ j d. (
              update_ne s.pc i j p (λ k. d (sym k)),
              update_ne s.active i j off_state (λ k. d (sym k)),
            ))
            (λ j d k. k) (λ k. absurd (ground (arith, ap is_listed at_i, k)))
            (λ k. update_self s.active i off_state) (subst (Scan w) (sym at_i) tt))
  ]
  step-IsConsistent destroy absent e = h
  step-IsConsistent access_unlock absent e = h
  step-IsConsistent (access_lock x) absent e = h
  step-IsConsistent (access_relock x) absent e = h
  step-IsConsistent (synchronize_min_epoch x) absent e = h

pub run-IsConsistent :
    (schedule : List (ℕ × Call)) (s : System) → IsConsistent s → IsConsistent (run schedule s)
unfolding run
run-IsConsistent [] s h = h
run-IsConsistent ((i, c) ∷ rest) s h =
    run-IsConsistent rest (step c i (s.pc i) s) (step-IsConsistent s i h c (s.pc i) refl)

pub start-IsConsistent : IsConsistent start
unfolding Scan
start-IsConsistent = record { listed = λ j e. absurd (cc); outside = λ j e. refl; scans = λ j. tt }

-- The grace period, under every schedule: when the loop of `synchronize_min_epoch` on an epoch is at its end,
-- with a result, then the result lies past the epoch, and each thread that has begun no section since the call began is
-- either in no section or in one at the result or later.
pub run-grace :
    (schedule : List (ℕ × Call)) (i epoch result : ℕ) (seen : ℕ → ℕ)
    → (run schedule start).pc i ≡ scanning epoch [] result seen
    → (epoch < result)
      × ((j : ℕ)
          → (run schedule start).sections j ≡ seen j
          → result ≤ (run schedule start).active j)
unfolding Scan
run-grace schedule i epoch result seen e =
    let h =
      subst (Scan (run schedule start)) e
        ((run-IsConsistent schedule start start-IsConsistent).scans i) in
    (h.before, λ j same. (h.passed j refl same).1)
