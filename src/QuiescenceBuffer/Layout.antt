-- ===== src/QuiescenceBuffer/Layout.antt =====
-- How a queue of chunks lies in the elements of a ring: each chunk behind its header, the working
-- chunk last.
use mathlib.Core.List.{append_assoc}
use lockfree_stm.Common.{
  ℕ, zero, suc, ◌+◌, ◌≡◌, refl, sym, ap, ◌∙◌, List, [], ◌∷◌, ◌++◌, some, map, arith, length,
  get_elem?, set, length-append, length-map,
}
use lockfree_stm.QuiescenceBuffer.{QuiescenceElem, header, callback, initialize_header}

pub record Chunk (C : Type 0) : Type 0 where
  pub epoch : ℕ
  pub callbacks : List C

-- The chunks that wait, the oldest first, and the callbacks of the working chunk.
pub record Queue (C : Type 0) : Type 0 where
  pub finished : List (Chunk C)
  pub working : List C

module _ {C : Type 0} where
  abbrev pub size_of : Chunk C → ℕ
  size_of ch = length ch.callbacks + 1

  -- The finished chunks and the header of the working one; `prev` is the size of the chunk before.
  abbrev pub layout : ℕ → List (Chunk C) → List (QuiescenceElem C)
  layout prev [] = initialize_header prev ∷ []
  layout prev (ch ∷ chs) =
      header (record { epoch = ch.epoch; size = size_of ch; prev_size = prev })
        ∷ map callback ch.callbacks
      ++ layout (size_of ch) chs

  abbrev pub offset : List (Chunk C) → ℕ
  offset [] = 0
  offset (ch ∷ chs) = size_of ch + offset chs

  abbrev pub last_size : ℕ → List (Chunk C) → ℕ
  last_size prev [] = prev
  last_size prev (ch ∷ chs) = last_size (size_of ch) chs

  abbrev pub contents : ℕ → Queue C → List (QuiescenceElem C)
  contents prev q = layout prev q.finished ++ map callback q.working

  pub length-layout : (prev : ℕ) (chs : List (Chunk C)) → length (layout prev chs) ≡ offset chs + 1
  length-layout prev [] = omega arith
  length-layout prev (ch ∷ chs) = omega (
    arith,
    length-append {0} (map callback ch.callbacks) (layout (size_of ch) chs),
    length-map {0, 0} ch.callbacks callback,
    length-layout (size_of ch) chs,
  )

  pub length-contents :
      (prev : ℕ) (q : Queue C) → length (contents prev q) ≡ offset q.finished + 1 + length q.working
  length-contents prev q = omega (
    arith,
    length-append {0} (layout prev q.finished) (map callback q.working),
    length-map {0, 0} q.working callback,
    length-layout prev q.finished,
  )

  pub offset-snoc :
      (chs : List (Chunk C)) (ch : Chunk C) → offset (chs ++ ch ∷ []) ≡ offset chs + size_of ch
  offset-snoc [] ch = omega arith
  offset-snoc (d ∷ chs) ch = omega (arith, offset-snoc chs ch)

  map-snoc :
      (cs : List C) (c : C)
      → map (λ (k : C). callback k) (cs ++ c ∷ []) ≡ map callback cs ++ callback c ∷ []
  map-snoc [] c = refl
  map-snoc (d ∷ cs) c = ap (λ l. callback d ∷ l) (map-snoc cs c)

  pub contents-snoc :
      (prev : ℕ) (q : Queue C) (c : C)
      → contents prev q ++ callback c ∷ []
        ≡ contents prev (record q { working = q.working ++ c ∷ [] })
  contents-snoc prev q c =
      append_assoc (layout prev q.finished) (map callback q.working) (callback c ∷ [])
      ∙ ap (λ l. layout prev q.finished ++ l) (sym (map-snoc q.working c))

  set-append :
      (xs ys : List (QuiescenceElem C)) (n i : ℕ) (x : QuiescenceElem C)
      → n ≡ length xs
      → set (xs ++ ys) (n + i) x ≡ xs ++ set ys i x
  set-append [] ys n i x h = ap (λ k. set ys k x) (omega (arith, h))
  set-append (y ∷ xs) ys n i x h =
      let e : n + i ≡ suc (length xs + i) = omega (arith, h) in
      ap (λ k. set (y ∷ xs ++ ys) k x) e ∙ ap (λ l. y ∷ l) (set-append xs ys (length xs) i x refl)

  pub get_elem?-append :
      (xs ys : List (QuiescenceElem C)) (n i : ℕ)
      → n ≡ length xs
      → get_elem? (xs ++ ys) (n + i) ≡ get_elem? ys i
  get_elem?-append [] ys n i h = ap (λ k. get_elem? ys k) (omega (arith, h))
  get_elem?-append (y ∷ xs) ys n i h =
      let e : n + i ≡ suc (length xs + i) = omega (arith, h) in
      ap (λ k. get_elem? (y ∷ xs ++ ys) k) e ∙ get_elem?-append xs ys (length xs) i refl

  -- The working chunk closed, and a new one begun.
  pub closed-contents :
      (prev : ℕ) (chs : List (Chunk C)) (ch : Chunk C)
      → set (layout prev chs ++ map callback ch.callbacks) (offset chs) (
            header (record { epoch = ch.epoch; size = size_of ch; prev_size = last_size prev chs }))
          ++ initialize_header (size_of ch) ∷ []
        ≡ layout prev (chs ++ ch ∷ [])
  closed-contents prev [] ch = refl
  closed-contents prev (d ∷ chs) ch =
      let hd : QuiescenceElem C =
        header (record { epoch = d.epoch; size = size_of d; prev_size = prev }) in
      let x : QuiescenceElem C =
        header
          (record { epoch = ch.epoch; size = size_of ch; prev_size = last_size (size_of d) chs }) in
      let ds = map callback d.callbacks in
      let rest = layout (size_of d) chs in
      let ws = map callback ch.callbacks in
      let new : List (QuiescenceElem C) = initialize_header (size_of ch) ∷ [] in
      let n : length d.callbacks ≡ length ds = sym (length-map {0, 0} d.callbacks callback) in
      let e : size_of d + offset chs ≡ suc (length d.callbacks + offset chs) = omega arith in
      ap (λ k. set (hd ∷ (ds ++ rest) ++ ws) k x ++ new) e
      ∙ ap (λ l. hd ∷ set l (length d.callbacks + offset chs) x ++ new) (append_assoc ds rest ws)
      ∙ ap (λ l. hd ∷ l ++ new) (set-append ds (rest ++ ws) (length d.callbacks) (offset chs) x n)
      ∙ ap (λ l. hd ∷ l) (append_assoc ds (set (rest ++ ws) (offset chs) x) new)
      ∙ ap (λ l. hd ∷ ds ++ l) (closed-contents (size_of d) chs ch)

  pub working-header :
      (prev : ℕ) (chs : List (Chunk C)) (ws : List (QuiescenceElem C))
      → get_elem? (layout prev chs ++ ws) (offset chs)
        ≡ some (initialize_header (last_size prev chs))
  working-header prev [] ws = refl
  working-header prev (d ∷ chs) ws =
      let hd : QuiescenceElem C =
        header (record { epoch = d.epoch; size = size_of d; prev_size = prev }) in
      let ds = map callback d.callbacks in
      let rest = layout (size_of d) chs in
      let n : length d.callbacks ≡ length ds = sym (length-map {0, 0} d.callbacks callback) in
      let e : size_of d + offset chs ≡ suc (length d.callbacks + offset chs) = omega arith in
      ap (λ k. get_elem? (hd ∷ (ds ++ rest) ++ ws) k) e
      ∙ ap (λ l. get_elem? l (length d.callbacks + offset chs)) (append_assoc ds rest ws)
      ∙ get_elem?-append ds (rest ++ ws) (length d.callbacks) (offset chs) n
      ∙ working-header (size_of d) chs ws

  pub get_elem?-prefix :
      (xs ys : List (QuiescenceElem C)) (i : ℕ) (x : QuiescenceElem C)
      → get_elem? (xs ++ []) i ≡ some x
      → get_elem? (xs ++ ys) i ≡ some x
  get_elem?-prefix [] ys i x h = absurd (cc)
  get_elem?-prefix (y ∷ xs) ys zero x h = h
  get_elem?-prefix (y ∷ xs) ys (suc i) x h = get_elem?-prefix xs ys i x h
