-- ===== src/LinkedList/Nodes.antt =====
-- The nodes of a list in memory, through insertion at the front and until they are freed.
use mathlib.Core.Path.{subst}
use lockfree_stm.Common.{
  ℕ, zero, suc, ◌+◌, ◌^◌, ◌<◌, ◌≡◌, ◌≢◌, refl, sym, ap, ap₂, ◌∙◌, true, false, List, [], ◌∷◌, ◌==◌,
  arith, length, some, ltb,
}
use lockfree_stm.Common.Update.{update, update_self, update_ne}
use lockfree_stm.Common.Word.{add_signed}
use lockfree_stm.Common.Distinct.{contains, is_distinct}
use lockfree_stm.LinkedList.{
  ListNode, LinkedList, destroy_deallocate_sublist, push_front, emplace_front,
}

module _ {A : Type 0} where
  -- The nodes from the address `a` on are those of the list, each pointed back at by the next one.
  unfoldable pub Chain : (ℕ → ListNode A) → ℕ → List ℕ → Type 0
  Chain m a [] = a ≡ 0
  Chain m a (x ∷ []) = (a ≡ x) × (x ≢ 0) × ((m x).next ≡ 0)
  Chain m a (x ∷ y ∷ xs) = (a ≡ x) × (x ≢ 0) × ((m y).prev ≡ x) × Chain m (m x).next (y ∷ xs)

  abbrev pub values : (ℕ → ListNode A) → List ℕ → List A
  values m [] = []
  values m (x ∷ xs) = (m x).value ∷ values m xs

apart : (x : ℕ) (xs : List ℕ) (y : ℕ) → is_distinct (x ∷ xs) ≡ true → contains y xs ≡ true → x ≢ y
apart x xs y d c e =
    let twice : contains x xs ≡ true = ap (λ k. contains k xs) e ∙ c in absurd (ground arith)

module _ {A : Type 0} where
  -- The list holds these nodes.
  pub record IsList (l : LinkedList A) (xs : List ℕ) : Type 0 where
    pub chain : Chain l.node l.head xs
    pub distinct : is_distinct xs ≡ true
    pub size : l.size ≡ length xs

  Chain-frame :
      (m m' : ℕ → ListNode A) (a x : ℕ) (xs : List ℕ)
      → (m' x).next ≡ (m x).next
      → ((y : ℕ) → contains y xs ≡ true → m' y ≡ m y)
      → Chain m a (x ∷ xs)
      → Chain m' a (x ∷ xs)
  unfolding Chain
  Chain-frame m m' a x [] e f (h, nz, last) = (h, nz, e ∙ last)
  Chain-frame m m' a x (y ∷ xs) e f (h, nz, back, rest) =
      let same : m' y ≡ m y = f y (ground arith) in
      (
        h,
        nz,
        ap (λ (n : ListNode A). n.prev) same ∙ back,
        rw e (
            Chain-frame m m' (m x).next y xs (ap (λ (n : ListNode A). n.next) same)
              (λ z c. f z (ground arith)) rest),
      )

  Chain-head : (m : ℕ → ListNode A) (a x : ℕ) (xs : List ℕ) → Chain m a (x ∷ xs) → (a ≡ x) × (x ≢ 0)
  unfolding Chain
  Chain-head m a x [] h = (h.0, h.1)
  Chain-head m a x (y ∷ xs) h = (h.0, h.1)

  Chain-cons :
      (m : ℕ → ListNode A) (p x : ℕ) (xs : List ℕ)
      → p ≢ 0
      → (m x).prev ≡ p
      → Chain m (m p).next (x ∷ xs)
      → Chain m p (p ∷ x ∷ xs)
  unfolding Chain
  Chain-cons m p x xs nz back h = (refl, nz, back, h)

  values-frame :
      (m m' : ℕ → ListNode A) (xs : List ℕ)
      → ((y : ℕ) → contains y xs ≡ true → (m' y).value ≡ (m y).value)
      → values m' xs ≡ values m xs
  values-frame m m' [] f = refl
  values-frame m m' (x ∷ xs) f =
      rw (f x (ground arith), values-frame m m' xs (λ y c. f y (ground arith))) refl

  -- With fuel for each node and one more, `destroy_deallocate_sublist` of a list frees its nodes, each once and in order.
  pub destroy_deallocate_sublist-nodes :
      (fuel : ℕ) (m : ℕ → ListNode A) (a : ℕ) (xs : List ℕ)
      → Chain m a xs
      → length xs < fuel
      → destroy_deallocate_sublist fuel a m ≡ xs
  unfolding Chain destroy_deallocate_sublist
  destroy_deallocate_sublist-nodes zero m a xs h b = absurd (omega arith)
  destroy_deallocate_sublist-nodes (suc fuel) m a [] h b =
      let z : (a == 0) ≡ true = ground (arith, h) in rw z refl
  destroy_deallocate_sublist-nodes (suc fuel) m a (x ∷ []) (e, nz, last) b =
      let z : (x == 0) ≡ false = ground (arith, nz) in
      rw (e, z)
        (ap (λ r. x ∷ r) (destroy_deallocate_sublist-nodes fuel m (m x).next [] last (omega arith)))
  destroy_deallocate_sublist-nodes (suc fuel) m a (x ∷ y ∷ xs) (e, nz, back, rest) b =
      let z : (x == 0) ≡ false = ground (arith, nz) in
      rw (e, z)
        (ap (λ r. x ∷ r)
          (destroy_deallocate_sublist-nodes fuel m (m x).next (y ∷ xs) rest (omega arith)))

  push_front-empty :
      (p : ℕ) (v : A) (n : ℕ) (l : LinkedList A)
      → IsList l []
      → p ≢ 0
      → n ≡ 1
      → IsList (push_front p v n l) (p ∷ []) × (values (push_front p v n l).node (p ∷ []) ≡ v ∷ [])
  unfolding push_front Chain
  push_front-empty p v n l h nz one =
      let z : (l.head == 0) ≡ true = ground (arith, h.chain) in
      let d = record (l.node p) { value = v; next = l.head } in
      rw z (
        record {
          chain = (refl, nz, ap (λ (n : ListNode A). n.next) (update_self l.node p d) ∙ h.chain);
          distinct = refl;
          size = one;
        },
        ap (λ (n : ListNode A). n.value ∷ []) (update_self l.node p d),
      )

  push_front-more :
      (p : ℕ) (v : A) (n : ℕ) (l : LinkedList A) (x : ℕ) (xs : List ℕ)
      → IsList l (x ∷ xs)
      → p ≢ 0
      → contains p (x ∷ xs) ≡ false
      → n ≡ length xs + 2
      → IsList (push_front p v n l) (p ∷ x ∷ xs)
        × (values (push_front p v n l).node (p ∷ x ∷ xs) ≡ v ∷ values l.node (x ∷ xs))
  unfolding push_front
  push_front-more p v n l x xs h nz new one =
      let (head, some_x) = Chain-head l.node l.head x xs h.chain in
      let z : (x == 0) ≡ false = ground (arith, some_x) in
      let d = record (l.node p) { value = v; next = x } in
      let m = update l.node p d in
      let m' = update m x (record (m x) { prev = p }) in
      let at_p : m' p ≡ d =
        update_ne m x p (record (m x) { prev = p }) (ground (arith, new))
        ∙ update_self l.node p d in
      let at_x : m' x ≡ record (l.node x) { prev = p } =
        update_self m x (record (m x) { prev = p })
        ∙ ap (λ (n : ListNode A). record n { prev = p })
            (update_ne l.node p x d (ground (arith, new))) in
      let rest : (y : ℕ) → contains y xs ≡ true → m' y ≡ l.node y = λ y c.
        update_ne m x y (record (m x) { prev = p }) (apart x xs y h.distinct c)
        ∙ update_ne l.node p y d (apart p xs y (ground arith) c) in
      let nodes : (push_front p v n l).node ≡ m' = rw (head, z) refl in
      (
        record {
          chain =
              subst (λ k. Chain k p (p ∷ x ∷ xs)) (sym nodes)
                (Chain-cons m' p x xs nz (ap (λ (n : ListNode A). n.prev) at_x) (
                  rw at_p (
                    Chain-frame l.node m' x x xs (ap (λ (n : ListNode A). n.next) at_x) rest
                      (subst (λ a. Chain l.node a (x ∷ xs)) head h.chain))));
          distinct = ground arith;
          size = omega (arith, one);
        },
        ap (λ k. values k (p ∷ x ∷ xs)) nodes
            ∙ ap₂ (λ (a b : A). a ∷ b ∷ values m' xs) (ap (λ (n : ListNode A). n.value) at_p)
                (ap (λ (n : ListNode A). n.value) at_x)
            ∙ ap (λ ys. v ∷ (l.node x).value ∷ ys)
                (values-frame l.node m' xs (λ y c. ap (λ (n : ListNode A). n.value) (rest y c))),
      )

  -- A list of fewer than `2 ^ 63 - 1` nodes and an address that is not null and is none of theirs: `emplace_front` is
  -- defined, and makes a list of that node and the others, with the new value and the others' values.
  pub emplace_front-IsList :
      (p : ℕ) (v : A) (l : LinkedList A) (xs : List ℕ)
      → IsList l xs
      → p ≢ 0
      → contains p xs ≡ false
      → length xs + 1 < 2 ^ 63
      → (l' : LinkedList A) × (emplace_front p v l ≡ some l')
        × IsList l' (p ∷ xs)
        × (values l'.node (p ∷ xs) ≡ v ∷ values l.node xs)
  unfolding emplace_front add_signed
  emplace_front-IsList p v l [] h nz new b =
      let fits : ltb (l.size + 1) (2 ^ 63) ≡ true = ground (arith, h.size) in
      let n = l.size + 1 in
      let (made, stored) = push_front-empty p v n l h nz (omega (arith, h.size)) in
      (push_front p v n l, rw fits refl, made, stored)
  emplace_front-IsList p v l (x ∷ xs) h nz new b =
      let fits : ltb (l.size + 1) (2 ^ 63) ≡ true = ground (arith, h.size) in
      let n = l.size + 1 in
      let (made, stored) = push_front-more p v n l x xs h nz new (omega (arith, h.size)) in
      (push_front p v n l, rw fits refl, made, stored)
