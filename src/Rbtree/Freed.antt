-- ===== src/Rbtree/Freed.antt =====
-- What `destroy_deallocate_subtree` frees, on the shape of a tree.
use lockfree_stm.Common.{
  ℕ, zero, suc, ◌+◌, ◌≤◌, ◌<◌, ◌≡◌, ◌≢◌, ◌⊎◌, inl, inr, refl, sym, ap, ◌∙◌, true, false, List, [],
  ◌∷◌, ◌++◌, ◌==◌, arith,
}
use lockfree_stm.Common.Update.{update, update_self, update_ne}
use lockfree_stm.Rbtree.{Node}
use lockfree_stm.Rbtree.Lookup.{Shape, leaf, fork, member, Holds}
use lockfree_stm.Rbtree.Clear.{last_left, unlink, destroy_deallocate_subtree}

abbrev pub size : Shape → ℕ
size leaf = 0
size (fork l x r) = size l + (size r + 1)

-- No address stands twice in the shape.
unfoldable pub IsUnique : Shape → Type 0
IsUnique leaf = Unit
IsUnique (fork l x r) =
    IsUnique l
    × IsUnique r
    × (member x l ≡ false)
    × (member x r ≡ false)
    × ((a : ℕ) → member a l ≡ true → member a r ≡ false)

-- One round of the outer loop on the tree of the node `x` with `l` on its left: the parent of the last
-- node on the left, that node, and the shape that is left.
abbrev pub pop : Shape → ℕ → Shape → ℕ × ℕ × Shape
pop leaf x r = (x, x, leaf)
pop (fork leaf y lr) x r = (x, y, fork r x leaf)
pop (fork (fork a b c) y lr) x r = let (p, q, s) = pop (fork a b c) y lr in (p, q, fork s x r)

-- The nodes that are freed: those under a node, then the node, and nothing on the right of a node that has nothing on the left.
unfoldable pub reached : Shape → List ℕ
reached leaf = []
reached (fork leaf x r) = x ∷ []
reached (fork (fork a b c) x r) = reached (fork a b c) ++ (reached r ++ x ∷ [])

module _ {K V : Type 0} where
  Holds-frame :
      (m : ℕ → Node K V) (p : ℕ) (d : Node K V) (a : ℕ) (s : Shape)
      → member p s ≡ false
      → Holds m a s
      → Holds (update m p d) a s
  unfolding Holds
  Holds-frame m p d a leaf f h = h
  Holds-frame m p d a (fork l x r) f (e, n, hl, hr) =
      let same : update m p d x ≡ m x = update_ne m p x d (ground arith) in
      rw same (
        e,
        n,
        Holds-frame m p d (m x).left l (ground arith) hl,
        Holds-frame m p d (m x).right r (ground arith) hr,
      )

-- The tree of `x`, whose left child is `y`.
abbrev node : Shape → ℕ → Shape → ℕ → Shape → Shape
node a y c x r = fork (fork a y c) x r

pop-parent :
    (a : Shape) (y : ℕ) (c : Shape) (x : ℕ) (r : Shape)
    → ((pop (fork a y c) x r).0 ≡ x) ⊎ (member (pop (fork a y c) x r).0 (fork a y c) ≡ true)
pop-parent leaf y c x r = inl refl
pop-parent (fork a z b) y c x r =
    inr (elim (pop-parent a z b y c) [ inl e ↦ ground (arith, e) | inr e ↦ ground (arith, e) ])

pop-member :
    (a : Shape) (y : ℕ) (c : Shape) (x : ℕ) (r : Shape) (w : ℕ)
    → member w (pop (fork a y c) x r).2 ≡ true
    → member w (node a y c x r) ≡ true
pop-member leaf y c x r w h = ground arith
pop-member (fork a z b) y c x r w h = ground (arith, pop-member a z b y c w)

pop-IsUnique :
    (a : Shape) (y : ℕ) (c : Shape) (x : ℕ) (r : Shape)
    → IsUnique (node a y c x r)
    → IsUnique (pop (fork a y c) x r).2
unfolding IsUnique
pop-IsUnique leaf y c x r (ul, ur, nl, nr, far) = (ur, tt, nr, refl, λ w h. refl)
pop-IsUnique (fork a z b) y c x r (ul, ur, nl, nr, far) = (
  pop-IsUnique a z b y c ul,
  ur,
  ground (arith, pop-member a z b y c x),
  nr,
  λ w h. far w (pop-member a z b y c w h),
)

pop-size :
    (a : Shape) (y : ℕ) (c : Shape) (x : ℕ) (r : Shape)
    → size (pop (fork a y c) x r).2 < size (node a y c x r)
pop-size leaf y c x r = omega arith
pop-size (fork a z b) y c x r = omega (arith, pop-size a z b y c)

reached-fork : (r : Shape) (x : ℕ) → reached (fork r x leaf) ≡ reached r ++ x ∷ []
unfolding reached
reached-fork leaf x = refl
reached-fork (fork a b c) x = refl

reached-pop :
    (a : Shape) (y : ℕ) (c : Shape) (x : ℕ) (r : Shape) (w : ℕ) (d : Shape)
    → reached (fork (pop (fork a y c) x r).2 w d)
      ≡ reached (pop (fork a y c) x r).2 ++ (reached d ++ w ∷ [])
unfolding reached
reached-pop leaf y c x r w d = refl
reached-pop (fork a z b) y c x r w d = refl

pop-reached :
    (a : Shape) (y : ℕ) (c : Shape) (x : ℕ) (r : Shape)
    → reached (node a y c x r) ≡ (pop (fork a y c) x r).1 ∷ reached (pop (fork a y c) x r).2
unfolding reached
pop-reached leaf y c x r = ap (λ l. y ∷ l) (sym (reached-fork r x))
pop-reached (fork a z b) y c x r =
    ap (λ l. l ++ (reached r ++ x ∷ [])) (pop-reached a z b y c)
    ∙ ap (λ l. (pop (fork a z b) y c).1 ∷ l) (sym (reached-pop a z b y c x r))

module _ {K V : Type 0} (m : ℕ → Node K V) where
  last_left-pop :
      (a : Shape) (y : ℕ) (c : Shape) (x : ℕ) (r : Shape) (fuel n : ℕ)
      → Holds m n (node a y c x r)
      → size a ≤ fuel
      → last_left fuel x (m x).left m ≡ ((pop (fork a y c) x r).0, (pop (fork a y c) x r).1)
  unfolding Holds last_left
  last_left-pop leaf y c x r zero n (e, nz, hl, hr) b = ap (λ k. (x, k)) hl.0
  last_left-pop leaf y c x r (suc fuel) n (e, nz, (f, ny, g, hc), hr) b =
      rw f (let none : ((m y).left == 0) ≡ true = ground (arith, g) in rw none refl)
  last_left-pop (fork a z b) y c x r zero n h bound = absurd (omega arith)
  last_left-pop (fork a z b) y c x r (suc fuel) n (e, nz, (f, ny, hz, hc), hr) bound = rw f (
      let some_left : ((m y).left == 0) ≡ false = ground (arith, hz.1) in
      rw some_left (last_left-pop a z b y c fuel y (refl, rw (sym f) ny, hz, hc) (omega arith)))

  unlink-Holds :
      (a : Shape) (y : ℕ) (c : Shape) (x : ℕ) (r : Shape) (n : ℕ)
      → IsUnique (node a y c x r)
      → Holds m n (node a y c x r)
      → Holds (unlink (pop (fork a y c) x r).0 m) n (pop (fork a y c) x r).2
  unfolding Holds IsUnique
  unlink-Holds leaf y c x r n (ul, ur, nl, nr, far) (e, nz, hl, hr) =
      let d = record (m x) { left = (m x).right; right = 0 } in
      rw (update_self m x d) (e, nz, Holds-frame m x d (m x).right r nr hr, refl)
  unlink-Holds (fork a z b) y c x r n (ul, ur, nl, nr, far) (e, nz, hl, hr) =
      let p = (pop (fork a z b) y c).0 in
      let d = record (m p) { left = (m p).right; right = 0 } in
      let inside : member p (node a z b y c) ≡ true = elim (pop-parent a z b y c) [
        | inl g ↦ ground (arith, g)
        | inr g ↦ ground (arith, g)
      ] in
      let same : update m p d x ≡ m x = update_ne m p x d (λ g.
        let own : member x (node a z b y c) ≡ true =
          ap (λ k. member k (node a z b y c)) (sym g) ∙ inside in
        absurd (cc)) in
      (
        e,
        nz,
        rw same (unlink-Holds a z b y c (m x).left ul hl),
        rw same (Holds-frame m p d (m x).right r (far p inside) hr),
      )

reached-leaf : (x : ℕ) (r : Shape) → reached (fork leaf x r) ≡ x ∷ []
unfolding reached
reached-leaf x r = refl

module _ {K V : Type 0} where
  -- For a tree at an address that is not null, whose nodes have distinct addresses, and with fuel for each of them:
  -- `destroy_deallocate_subtree` frees, of a node with a left child, what it frees of the left child, then
  -- what it frees of the right child, then the node; of a node without a left child it frees the
  -- node alone.
  pub destroy_deallocate_subtree-reached :
      (fuel : ℕ) (m : ℕ → Node K V) (n : ℕ) (s : Shape)
      → n ≢ 0
      → IsUnique s
      → Holds m n s
      → size s ≤ fuel
      → destroy_deallocate_subtree fuel n m ≡ reached s
  unfolding destroy_deallocate_subtree Holds
  destroy_deallocate_subtree-reached fuel m n leaf nz u h b = absurd (nz h)
  destroy_deallocate_subtree-reached zero m n (fork l x r) nz u h b = absurd (omega arith)
  destroy_deallocate_subtree-reached (suc fuel) m n (fork leaf x r) nz u (e, nn, hl, hr) b =
      let none : ((m x).left == 0) ≡ true = ground (arith, hl) in
      rw (e, none) (sym (reached-leaf x r))
  destroy_deallocate_subtree-reached (suc fuel) m n (fork (fork a y c) x r) nz u (e, nn, hl, hr) b =
      let some_left : ((m x).left == 0) ≡ false = ground (arith, hl.1) in
      let p = (pop (fork a y c) x r).0 in
      let found_p =
        ap (λ k. k.0)
          (last_left-pop m a y c x r fuel x (refl, rw (sym e) nz, hl, hr) (omega arith)) in
      let found_q =
        ap (λ k. k.1)
          (last_left-pop m a y c x r fuel x (refl, rw (sym e) nz, hl, hr) (omega arith)) in
      let ih =
        destroy_deallocate_subtree-reached fuel (unlink p m) x (pop (fork a y c) x r).2
          (rw (sym e) nz) (pop-IsUnique a y c x r u)
          (unlink-Holds m a y c x r x u (refl, rw (sym e) nz, hl, hr))
          (omega (arith, pop-size a y c x r)) in
      rw (e, some_left, found_p, found_q)
        (ap (λ w. (pop (fork a y c) x r).1 ∷ w) ih ∙ sym (pop-reached a y c x r))
