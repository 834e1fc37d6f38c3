-- ===== src/Epochs/Locking.antt =====
-- Every step keeps what the mutexes promise, so no node goes while it is looked at.
use lockfree_stm.Common.{
  ℕ, ◌≡◌, ◌≢◌, inl, inr, refl, sym, ap, ◌∙◌, true, false, List, [], ◌∷◌, leb, ltb, ◌==◌, arith,
  Bool-cases, if◌then◌else◌,
}
use lockfree_stm.Common.Update.{update, update_self}
use lockfree_stm.Common.Distinct.{contains}
use lockfree_stm.Machine.{off_state}
use lockfree_stm.Epochs.{
  unlocked, exclusive, is_free, Pc, absent, idle, leaving, entering, changing, locking, unlocking,
  scanning, waiting, Call, construct, destroy, access_unlock, access_lock, access_relock,
  synchronize_min_epoch, System, goto, set_node_mut, changed, step, run, start,
}
use lockfree_stm.Epochs.Grace.{IsConsistent}
use lockfree_stm.Epochs.Steps.{step-IsConsistent, run-IsConsistent, start-IsConsistent}
use lockfree_stm.Epochs.Owners.{
  after-IsLocked, place-IsLocked, mutex-IsLocked, free-Unneeded, own-Unneeded, out-Unneeded,
}
use lockfree_stm.Epochs.Alive.{
  has_list, is_scan, Locks, IsLocked, Locks-set, still, Locks-elsewhere, scan_listed, to_load,
  to_load-Locks,
}
use lockfree_stm.Epochs.Listing.{
  place-Locks, call-IsLocked, alone, nobody, not_out, no_scan, unlock-Unneeded, list_changed,
}

module _ (s : System) (i : ℕ) (h : IsLocked s) (c : IsConsistent s) where
  step-IsLocked : (k : Call) (p : Pc) → s.pc i ≡ p → IsLocked (step k i p s)
  unfolding step Locks
  step-IsLocked k idle e = call-IsLocked s i h c k e
  step-IsLocked k leaving e =
      mutex-IsLocked s i absent leaving i unlocked h e (λ l. absurd (cc)) (λ o. refl)
        (λ j d. out-Unneeded s h i j unlocked d (not_out s i h c leaving e refl)) tt
  step-IsLocked k (entering new) e = elim (Bool-cases (is_free s.mut)) [
    | inr f ↦ rw f h
    | inl f ↦
        let p = locking new s.nodes in
        let w = goto i p (record s { mut = exclusive }) in
        rw f (
          after-IsLocked s w i p h refl h.distinct (λ j d l. refl)
            (λ l. (refl, λ j d m. absurd (ground (arith, nobody s i h c f j, m))))
            (λ j d o. h.out j o) (λ o. not_out s i h c (entering new) e o) (λ j d. h.locks j)
            (place-Locks s i h c (entering new) e, λ j a b. absurd (ground (arith, a, b))))
  ]
  step-IsLocked k (locking new []) e =
      let (own, held) = place-Locks s i h c (locking new []) e in
      place-IsLocked s i (changing new) (locking new []) h e (λ l. refl) (λ o. o)
        (own, λ j a. held j a refl)
  step-IsLocked k (locking new (j ∷ js)) e = elim (Bool-cases (is_free (s.node_mut j))) [
    | inr f ↦ rw f h
    | inl f ↦
        let (own, held) = place-Locks s i h c (locking new (j ∷ js)) e in
        rw f (
          mutex-IsLocked s i (locking new js) (locking new (j ∷ js)) j exclusive h e (λ l. refl)
            (λ o. o) (λ m d. free-Unneeded s h j m exclusive f)
            (
              λ t. still s i j exclusive i (inl refl) (own t),
              λ z a b. elim (Bool-cases (z == j)) [
                | inr d ↦ still s i j exclusive z (inl refl) (held z a (ground (arith, b, d)))
                | inl d ↦
                    let same : j ≡ z = ground arith in
                    ap (update s.node_mut j exclusive) (sym same)
                    ∙ update_self s.node_mut j exclusive
              ],
            ))
  ]
  step-IsLocked k (changing new) e =
      let (own, held) = place-Locks s i h c (changing new) e in
      let here : has_list (s.pc i) ≡ true = ap has_list e in
      let nodes = changed new i s.nodes in
      let p = unlocking new nodes in
      let (dis, out_i, out, locks) =
        list_changed s i h c new own held (not_out s i h c (changing new) e) in
      after-IsLocked s (goto i p (record s { nodes = nodes })) i p h refl dis (λ j d l. h.mut j l)
        (λ l. (h.mut i here, λ j d m. h.owner j i m here)) (λ j d o. out j d (h.out j o)) out_i
        (λ j d.
          Locks-elsewhere s.nodes nodes s.node_mut j (s.pc j)
            (alone s i h c (changing new) e refl j d) (no_scan s i h c j held) (h.locks j))
        (dis, locks)
  step-IsLocked k (unlocking new (j ∷ js)) e =
      let (dis, held) = place-Locks s i h c (unlocking new (j ∷ js)) e in
      let (locked, listed) = held j (ground arith) in
      mutex-IsLocked s i (unlocking new js) (unlocking new (j ∷ js)) j unlocked h e (λ l. refl)
        (λ o. o)
        (λ m d.
          unlock-Unneeded s i h c j m locked listed
            (alone s i h c (unlocking new (j ∷ js)) e refl m d))
        (
          ground (arith, dis),
          λ z a.
              let (el, l) = held z (ground (arith, a)) in
              let apart : z ≢ j = λ f.
                let there : contains j js ≡ true = ap (λ y. contains y js) (sym f) ∙ a in
                absurd (ground (arith, dis, there)) in
              (still s i j unlocked z (inr (inr apart)) el, l),
        )
  step-IsLocked k (unlocking true []) e =
      after-IsLocked s (goto i idle (record s { mut = unlocked })) i idle h refl h.distinct
        (λ j d l. absurd (ground (arith, alone s i h c (unlocking true []) e refl j d, l)))
        (λ l. absurd (cc)) (λ j d o. h.out j o) (λ o. absurd (cc)) (λ j d. h.locks j) tt
  step-IsLocked k (unlocking false []) e =
      after-IsLocked s (goto i leaving (record s { mut = unlocked })) i leaving h refl h.distinct
        (λ j d l. absurd (ground (arith, alone s i h c (unlocking false []) e refl j d, l)))
        (λ l. absurd (cc)) (λ j d o. h.out j o) (λ o. not_out s i h c (unlocking false []) e refl)
        (λ j d. h.locks j) tt
  step-IsLocked k (scanning epoch [] result seen) e =
      let (own, rest) = place-Locks s i h c (scanning epoch [] result seen) e in
      mutex-IsLocked s i idle (scanning epoch [] result seen) i unlocked h e (λ l. absurd (cc))
        (λ o. absurd (cc)) (λ j d. own-Unneeded s h i j unlocked d (λ f. absurd (cc))) tt
  step-IsLocked k (scanning epoch (j ∷ js) result seen) e =
      let q = scanning epoch (j ∷ js) result seen in
      let (own, rest) = place-Locks s i h c q e in
      elim (Bool-cases (leb (s.active j) epoch)) [
        | inl b ↦ rw b (
            place-IsLocked s i (waiting epoch j js result seen) q h e (λ l. absurd (cc))
              (λ o. absurd (cc)) (own, rest))
        | inr b ↦
            let r = if ltb (s.active j) result then s.active j else result in
            rw b (
              place-IsLocked s i (scanning epoch js r seen) q h e (λ l. absurd (cc))
                (λ o. absurd (cc)) (own, λ z a. rest z (ground (arith, a))))
      ]
  step-IsLocked k (waiting epoch j js result seen) e =
      let q = waiting epoch j js result seen in
      let (own, rest) = place-Locks s i h c q e in
      elim (Bool-cases (leb (s.active j) epoch)) [
        | inl b ↦ rw b h
        | inr b ↦ rw b (
            place-IsLocked s i (scanning epoch js result seen) q h e (λ l. absurd (cc))
              (λ o. absurd (cc)) (own, λ z a. rest z (ground (arith, a))))
      ]
  step-IsLocked construct absent e = elim (Bool-cases (is_free (s.node_mut i))) [
    | inr f ↦ rw f h
    | inl f ↦
        let p = entering true in
        let v = record (set_node_mut i exclusive s) { active = update s.active i off_state } in
        rw f (
          after-IsLocked s (goto i p v) i p h refl h.distinct (λ j d l. h.mut j l)
            (λ l. absurd (cc)) (λ j d o. h.out j o) (λ o. not_out s i h c absent e refl)
            (λ j d.
              Locks-set s j i exclusive (s.pc j) (free-Unneeded s h i j exclusive f) (h.locks j))
            (λ t. update_self s.node_mut i exclusive))
  ]
  step-IsLocked destroy absent e = h
  step-IsLocked access_unlock absent e = h
  step-IsLocked (access_lock x) absent e = h
  step-IsLocked (access_relock x) absent e = h
  step-IsLocked (synchronize_min_epoch x) absent e = h

run-IsLocked :
    (schedule : List (ℕ × Call)) (s : System)
    → IsLocked s
    → IsConsistent s
    → IsLocked (run schedule s)
unfolding run
run-IsLocked [] s h c = h
run-IsLocked ((i, k) ∷ rest) s h c =
    run-IsLocked rest (step k i (s.pc i) s) (step-IsLocked s i h c k (s.pc i) refl)
      (step-IsConsistent s i c k (s.pc i) refl)

start-IsLocked : IsLocked start
unfolding Locks
start-IsLocked = record {
  distinct = refl;
  mut = λ i l. absurd (cc);
  owner = λ i j l m. absurd (cc);
  out = λ i o. refl;
  locks = λ i. tt;
}

-- Under every schedule: while a thread scans the nodes or waits for one, its own node, the one that it
-- waits for and all that it has yet to load are in the list: no destructor has taken one off it.
pub run-alive :
    (schedule : List (ℕ × Call)) (i : ℕ)
    → is_scan ((run schedule start).pc i) ≡ true
    → (contains i (run schedule start).nodes ≡ true)
      × ((j : ℕ)
          → contains j (to_load ((run schedule start).pc i)) ≡ true
          → contains j (run schedule start).nodes ≡ true)
run-alive schedule i e =
    let s = run schedule start in
    let h = run-IsLocked schedule start start-IsLocked start-IsConsistent in
    let c = run-IsConsistent schedule start start-IsConsistent in
    (c.listed i (scan_listed (s.pc i) e), to_load-Locks s.nodes s.node_mut i (s.pc i) (h.locks i))
