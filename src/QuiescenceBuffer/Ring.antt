-- ===== src/QuiescenceBuffer/Ring.antt =====
-- The elements of a ring, from its first one on, as a list; how growing and writing change it.
use lockfree_stm.Common.{
  ℕ, zero, suc, ◌+◌, ◌-◌, ◌*◌, ◌%◌, ◌^◌, ◌≤◌, ◌<◌, ◌≡◌, ◌≢◌, ◌⊎◌, refl, sym, ap, ◌∙◌, true, false,
  List, [], ◌∷◌, ◌++◌, some, ltb, ◌==◌, arith, Bool-cases, inl, inr, length, get_elem?, set,
  length-append, length-set,
}
use native.Mathlib.Nat.{mod-eq_of_lt}
use lockfree_stm.Common.Update.{update, update_self, update_ne}
use lockfree_stm.Common.Word.{add_word, sub_word}
use lockfree_stm.QuiescenceBuffer
use lockfree_stm.QuiescenceBuffer.{
  QuiescenceBuffer, QuiescenceElem, wrap, size, reserve_more, grow_if_full, copied,
}
use lockfree_stm.QuiescenceBuffer.Wrap.{
  slot, slot-lt, slot_inj, slot_ne, slot_start, mod-slot, IsCapacity, small, and-capacity,
  mod-add_word, mod-sub_begin, double-IsCapacity,
}

module _ {C : Type 0} where
  abbrev pub cap : QuiescenceBuffer C → ℕ
  cap b = b.last_valid_index + 1

  -- The ring holds `es`, and its working epoch begins at the element `e` of them.
  pub record IsRing (b : QuiescenceBuffer C) (es : List (QuiescenceElem C)) (e : ℕ) : Type 0 where
    pub capacity : IsCapacity (cap b)
    pub begin : b.ring_begin < cap b
    pub room : length es ≤ cap b
    pub mark : e < length es
    pub tail : b.write_pos % cap b ≡ slot (cap b) b.ring_begin (length es)
    pub epoch : b.epoch_begin ≡ slot (cap b) b.ring_begin e
    pub holds :
        (i : ℕ) (x : QuiescenceElem C)
        → get_elem? es i ≡ some x
        → b.buffer (slot (cap b) b.ring_begin i) ≡ x

  pub wrap-mod : (b : QuiescenceBuffer C) (x : ℕ) → IsCapacity (cap b) → wrap b x ≡ x % cap b
  wrap-mod b x h =
      let low = small (cap b) h in
      let one : sub_word (add_word b.last_valid_index 1) 1 ≡ cap b - 1 = omega arith in
      rw one (and-capacity (cap b) x h)

  pub get_elem?-lt :
      (es : List (QuiescenceElem C)) (i : ℕ) (x : QuiescenceElem C)
      → get_elem? es i ≡ some x
      → i < length es
  get_elem?-lt [] i x h = absurd (cc)
  get_elem?-lt (y ∷ es) zero x h = omega arith
  get_elem?-lt (y ∷ es) (suc i) x h = omega (arith, get_elem?-lt es i x h)

  get_elem?-snoc :
      (es : List (QuiescenceElem C)) (i : ℕ) (x y : QuiescenceElem C)
      → get_elem? (es ++ x ∷ []) i ≡ some y
      → (get_elem? es i ≡ some y) ⊎ ((i ≡ length es) × (x ≡ y))
  get_elem?-snoc [] zero x y h = inr (refl, cc)
  get_elem?-snoc [] (suc i) x y h = absurd (cc)
  get_elem?-snoc (z ∷ es) zero x y h = inl h
  get_elem?-snoc (z ∷ es) (suc i) x y h = elim (get_elem?-snoc es i x y h) [
    | inl a ↦ inl a
    | inr (n, e) ↦ inr (ap suc n, e)
  ]

  -- An element written at the end.
  abbrev pub put : QuiescenceBuffer C → QuiescenceElem C → QuiescenceBuffer C
  put b x = record b {
    buffer = update b.buffer (wrap b b.write_pos) x;
    write_pos = add_word b.write_pos 1;
  }

  pub put-IsRing :
      (b : QuiescenceBuffer C) (es : List (QuiescenceElem C)) (e : ℕ) (x : QuiescenceElem C)
      → IsRing b es e
      → length es < cap b
      → IsRing (put b x) (es ++ x ∷ []) e
  put-IsRing b es e x v h =
      let n : length (es ++ x ∷ []) ≡ length es + 1 =
        omega (arith, length-append {0} es (x ∷ [])) in
      record {
        capacity = v.capacity;
        begin = v.begin;
        room = omega (arith, n);
        mark = omega (arith, n, v.mark);
        tail =
            rw n (
              mod-add_word (cap b) b.ring_begin (length es) b.write_pos v.capacity v.begin h
                v.tail);
        epoch = v.epoch;
        holds = λ i y q.
            rw (wrap-mod b b.write_pos v.capacity, v.tail)
              (elim (get_elem?-snoc es i x y q) [
                | inl old ↦
                    let lt = get_elem?-lt es i y old in
                    let ne = slot_inj (cap b) b.ring_begin i (length es) v.begin lt h in
                    update_ne b.buffer (slot (cap b) b.ring_begin (length es))
                      (slot (cap b) b.ring_begin i) x (λ z. ne (sym z))
                    ∙ v.holds i y old
                | inr (n', s) ↦
                    rw n' (update_self b.buffer (slot (cap b) b.ring_begin (length es)) x ∙ s)
              ]);
      }

  -- An element changed in place.
  abbrev pub write : QuiescenceBuffer C → ℕ → QuiescenceElem C → QuiescenceBuffer C
  write b p x = record b { buffer = update b.buffer p x }

  get_elem?-set :
      (es : List (QuiescenceElem C)) (i j : ℕ) (x y : QuiescenceElem C)
      → get_elem? (set es j x) i ≡ some y
      → ((i ≡ j) × (x ≡ y)) ⊎ ((i ≢ j) × (get_elem? es i ≡ some y))
  get_elem?-set [] i j x y h = absurd (cc)
  get_elem?-set (z ∷ es) zero zero x y h = inl (refl, cc)
  get_elem?-set (z ∷ es) zero (suc j) x y h = inr (λ n. omega arith, h)
  get_elem?-set (z ∷ es) (suc i) zero x y h = inr (λ n. omega arith, h)
  get_elem?-set (z ∷ es) (suc i) (suc j) x y h = elim (get_elem?-set es i j x y h) [
    | inl (n, e) ↦ inl (ap suc n, e)
    | inr (n, e) ↦ inr (λ m. n (omega arith), e)
  ]

  pub write-IsRing :
      (b : QuiescenceBuffer C) (es : List (QuiescenceElem C)) (e : ℕ) (x : QuiescenceElem C)
      → IsRing b es e
      → length es < cap b
      → IsRing (write b b.epoch_begin x) (set es e x) e
  write-IsRing b es e x v h =
      let c = cap b in
      let n : length (set es e x) ≡ length es = length-set {0} es e x in
      record {
        capacity = v.capacity;
        begin = v.begin;
        room = omega (arith, n, v.room);
        mark = omega (arith, n, v.mark);
        tail = rw n v.tail;
        epoch = v.epoch;
        holds = λ i y q. rw v.epoch (elim (get_elem?-set es i e x y q) [
          | inl (m, s) ↦ rw m (update_self b.buffer (slot c b.ring_begin e) x ∙ s)
          | inr (m, old) ↦
              update_ne b.buffer (slot c b.ring_begin e) (slot c b.ring_begin i) x (
                slot_ne c b.ring_begin e i v.begin (λ z. m (sym z)) (omega (arith, v.mark))
                  (omega (arith, get_elem?-lt es i y old)))
              ∙ v.holds i y old
        ]);
      }

  double_cap : (b : QuiescenceBuffer C) → cap b < 2 ^ 62 → cap (reserve_more b) ≡ cap b * 2
  unfolding reserve_more
  double_cap b h = omega arith

  copied-slot :
      (b : QuiescenceBuffer C) (i : ℕ)
      → cap b < 2 ^ 62
      → b.ring_begin < cap b
      → i < cap b
      → copied b i ≡ b.buffer (slot (cap b) b.ring_begin i)
  unfolding slot
  copied-slot b i h k l =
      let first : sub_word (add_word b.last_valid_index 1) b.ring_begin ≡ cap b - b.ring_begin =
        omega arith in
      rw first (elim (Bool-cases (ltb i (cap b - b.ring_begin))) [
        | inl t ↦
            let lt : ltb (b.ring_begin + i) (cap b) ≡ true = ground arith in
            let same : i + b.ring_begin ≡ b.ring_begin + i = omega arith in rw (t, lt, same) refl
        | inr t ↦
            let lt : ltb (b.ring_begin + i) (cap b) ≡ false = ground arith in
            let same : i - (cap b - b.ring_begin) ≡ b.ring_begin + i - cap b = ground arith in
            rw (t, lt, same) refl
      ])

  -- A full ring, grown to twice the capacity.
  pub reserve_more-IsRing :
      (b : QuiescenceBuffer C) (es : List (QuiescenceElem C)) (e : ℕ)
      → IsRing b es e
      → cap b < 2 ^ 62
      → length es ≡ cap b
      → IsRing (reserve_more b) es e
  unfolding reserve_more
  reserve_more-IsRing b es e v h full =
      let d : cap (reserve_more b) ≡ cap b * 2 = double_cap b h in
      let c' = cap (reserve_more b) in
      let p : 0 < c' = omega (arith, d, v.begin) in
      let fits : length es < c' = omega (arith, d, full, v.begin) in
      let from_zero : (i : ℕ) → i < c' → slot c' 0 i ≡ i = λ i l. slot_start c' i l in
      record {
        capacity = rw d (double-IsCapacity (cap b) v.capacity h);
        begin = p;
        room = omega (arith, fits);
        mark = v.mark;
        tail =
            let all : QuiescenceBuffer.capacity b ≡ 0 + length es = omega (arith, full) in
            ap (λ w. w % c') all ∙ mod-slot c' 0 (length es) p (omega (arith, fits));
        epoch =
            let at : b.epoch_begin % cap b ≡ slot (cap b) b.ring_begin e = rw v.epoch (
              mod-eq_of_lt
                (slot-lt (cap b) b.ring_begin e v.begin (omega (arith, v.mark, full)))) in
            wrap-mod b (sub_word b.epoch_begin b.ring_begin) v.capacity
            ∙ mod-sub_begin (cap b) b.ring_begin e b.epoch_begin v.capacity v.begin
                (omega (arith, v.mark, full)) at
            ∙ sym (from_zero e (omega (arith, fits, v.mark)));
        holds = λ i x q.
            let l = get_elem?-lt es i x q in
            rw (from_zero i (omega (arith, l, fits)))
              (copied-slot b i h v.begin (omega (arith, l, full)) ∙ v.holds i x q);
      }

  -- `wrap(write_pos) == ring_begin` is that the ring is full.
  full-length :
      (b : QuiescenceBuffer C) (es : List (QuiescenceElem C)) (e : ℕ)
      → IsRing b es e
      → (wrap b b.write_pos == b.ring_begin) ≡ (length es == cap b)
  unfolding slot
  full-length b es e v =
      rw (wrap-mod b b.write_pos v.capacity, v.tail) (ground (arith, v.room, v.mark, v.begin))

  pub grow_if_full-IsRing :
      (b : QuiescenceBuffer C) (es : List (QuiescenceElem C)) (e : ℕ)
      → IsRing b es e
      → cap b < 2 ^ 62
      → IsRing (grow_if_full b) es e × (length es < cap (grow_if_full b))
  grow_if_full-IsRing b es e v h = elim (Bool-cases (length es == cap b)) [
    | inl t ↦
        rw (full-length b es e v, t)
          (
            reserve_more-IsRing b es e v h (ground arith),
            omega (arith, double_cap b h, v.room, v.begin),
          )
    | inr t ↦ rw (full-length b es e v, t) (v, ground (arith, v.room))
  ]
