-- ===== src/Rbtree/Recolor.antt =====
-- The colours after the repairs of insertion, on the shapes alone: `c` are the colours before, `c'` after.
use lockfree_stm.Common.{ℕ, ◌+◌, ◌≡◌, refl, sym, ap, ◌∙◌, true, arith}
use lockfree_stm.Rbtree.{Color, red, black, is_black}
use lockfree_stm.Rbtree.Lookup.{Shape, fork, member}
use lockfree_stm.Rbtree.Focus.{Context, in_left, in_right, plug, surrounds}
use lockfree_stm.Rbtree.Balance.{
  is_black_at, black_height, is_even, is_red_apart, is_red_apart_around, same_colors,
  plug-is_red_apart, is_red_apart_around-frame, plug-is_even,
}

-- The colours of a tree that `verify` asks for.
unfoldable pub IsBalanced : (ℕ → Color) → Shape → Type 0
IsBalanced c s = (is_even c s ≡ true) × (is_red_apart c s ≡ true) × (is_black_at c s ≡ true)

-- Another tree in the hole, with a black root and as many black nodes on its paths.
pub plug-IsBalanced :
    (c c' : ℕ → Color) (k : Context) (s s' : Shape)
    → ((z : ℕ) → surrounds k z ≡ true → c' z ≡ c z)
    → is_red_apart_around c k ≡ true
    → is_even c (plug k s) ≡ true
    → black_height c' s' ≡ black_height c s
    → (is_even c s ≡ true → is_even c' s' ≡ true)
    → is_red_apart c' s' ≡ true
    → is_black_at c' s' ≡ true
    → IsBalanced c' (plug k s')
unfolding IsBalanced
plug-IsBalanced c c' k s s' f a e h i r b =
    let around : is_red_apart_around c' k ≡ true = is_red_apart_around-frame c c' k f ∙ a in
    let both = plug-is_red_apart c' k s' in
    (
      plug-is_even c c' k s s' f h i e,
      ground (arith, both, around, r, b),
      ground (arith, both, around, r, b),
    )

-- The black nodes of both trees, from those of the parts.
even_parts :
    (c : ℕ → Color) (l : Shape) (x : ℕ) (r : Shape)
    → is_even c (fork l x r) ≡ true
    → (black_height c l ≡ black_height c r) × (is_even c l ≡ true) × (is_even c r ≡ true)
even_parts c l x r h = (ground arith, ground arith, ground arith)

even_fork :
    (c : ℕ → Color) (l : Shape) (x : ℕ) (r : Shape)
    → black_height c l ≡ black_height c r
    → is_even c l ≡ true
    → is_even c r ≡ true
    → is_even c (fork l x r) ≡ true
even_fork c l x r h hl hr = ground arith

height_red :
    (c : ℕ → Color) (l : Shape) (x : ℕ) (r : Shape)
    → c x ≡ red
    → black_height c (fork l x r) ≡ black_height c l
height_red c l x r e = rw e (omega arith)

module _ (c c' : ℕ → Color) (g p : ℕ) (x b u : Shape) where
  even_right :
      c p ≡ red
      → c' g ≡ red
      → (black_height c' x ≡ black_height c x) × (is_even c' x ≡ is_even c x)
      → (black_height c' b ≡ black_height c b) × (is_even c' b ≡ is_even c b)
      → (black_height c' u ≡ black_height c u) × (is_even c' u ≡ is_even c u)
      → is_even c (fork (fork x p b) g u) ≡ true
      → is_even c' (fork x p (fork b g u)) ≡ true
  even_right pr g' (x2, x3) (b2, b3) (u2, u3) h =
      let (i, j, eu) = even_parts c (fork x p b) g u h in
      let (q, ex, eb) = even_parts c x p b j in
      let xu = sym (height_red c x p b pr) ∙ i in
      even_fork c' x p (fork b g u) (x2 ∙ q ∙ sym b2 ∙ sym (height_red c' b g u g')) (x3 ∙ ex)
        (even_fork c' b g u (b2 ∙ sym q ∙ xu ∙ sym u2) (b3 ∙ eb) (u3 ∙ eu))

module _ (c c' : ℕ → Color) (k : Context) (g p : ℕ) (x b u : Shape) where
  -- The rotation of `p` over its parent `g`, with the colours of both exchanged: `x` under `p` outside.
  pub case5_left-IsBalanced :
      ((z : ℕ) → surrounds k z ≡ true → c' z ≡ c z)
      → ((z : ℕ) → member z x ≡ true → c' z ≡ c z)
      → ((z : ℕ) → member z b ≡ true → c' z ≡ c z)
      → ((z : ℕ) → member z u ≡ true → c' z ≡ c z)
      → c' p ≡ black
      → c' g ≡ red
      → c p ≡ red
      → is_black_at c u ≡ true
      → is_red_apart_around c (in_left (in_left k g u) p b) ≡ true
      → is_red_apart c x ≡ true
      → is_even c (plug k (fork (fork x p b) g u)) ≡ true
      → IsBalanced c' (plug k (fork x p (fork b g u)))
  case5_left-IsBalanced fk fx fb fu p' g' pr bu a rx e =
      let (x1, x2, x3, x4) = same_colors c c' x fx in
      let (b1, b2, b3, b4) = same_colors c c' b fb in
      let (u1, u2, u3, u4) = same_colors c c' u fu in
      let g_black : is_black (c g) ≡ true = ground (arith, a, pr) in
      let b_black : is_black_at c b ≡ true = ground (arith, a, pr) in
      let b_red : is_red_apart c b ≡ true = ground (arith, a) in
      let u_red : is_red_apart c u ≡ true = ground (arith, a) in
      plug-IsBalanced c c' k (fork (fork x p b) g u) (fork x p (fork b g u)) fk (ground (arith, a))
        e (ground (arith, p', g', pr, g_black, x2))
        (even_right c c' g p x b u pr g' (x2, x3) (b2, b3) (u2, u3))
        (rw (p', g', x4, b1, b4, u1, u4, rx, bu, b_red, b_black, u_red) refl) (ground (arith, p'))

module _ (c c' : ℕ → Color) (g p : ℕ) (x b u : Shape) where
  even_left :
      c p ≡ red
      → c' g ≡ red
      → (black_height c' x ≡ black_height c x) × (is_even c' x ≡ is_even c x)
      → (black_height c' b ≡ black_height c b) × (is_even c' b ≡ is_even c b)
      → (black_height c' u ≡ black_height c u) × (is_even c' u ≡ is_even c u)
      → is_even c (fork u g (fork b p x)) ≡ true
      → is_even c' (fork (fork u g b) p x) ≡ true
  even_left pr g' (x2, x3) (b2, b3) (u2, u3) h =
      let (i, eu, j) = even_parts c u g (fork b p x) h in
      let (q, eb, ex) = even_parts c b p x j in
      let ub = i ∙ height_red c b p x pr in
      even_fork c' (fork u g b) p x (height_red c' u g b g' ∙ u2 ∙ ub ∙ q ∙ sym x2)
        (even_fork c' u g b (u2 ∙ ub ∙ sym b2) (u3 ∙ eu) (b3 ∙ eb)) (x3 ∙ ex)

module _ (c c' : ℕ → Color) (k : Context) (g p : ℕ) (x b u : Shape) where
  pub case5_right-IsBalanced :
      ((z : ℕ) → surrounds k z ≡ true → c' z ≡ c z)
      → ((z : ℕ) → member z x ≡ true → c' z ≡ c z)
      → ((z : ℕ) → member z b ≡ true → c' z ≡ c z)
      → ((z : ℕ) → member z u ≡ true → c' z ≡ c z)
      → c' p ≡ black
      → c' g ≡ red
      → c p ≡ red
      → is_black_at c u ≡ true
      → is_red_apart_around c (in_right (in_right k u g) b p) ≡ true
      → is_red_apart c x ≡ true
      → is_even c (plug k (fork u g (fork b p x))) ≡ true
      → IsBalanced c' (plug k (fork (fork u g b) p x))
  case5_right-IsBalanced fk fx fb fu p' g' pr bu a rx e =
      let (x1, x2, x3, x4) = same_colors c c' x fx in
      let (b1, b2, b3, b4) = same_colors c c' b fb in
      let (u1, u2, u3, u4) = same_colors c c' u fu in
      let g_black : is_black (c g) ≡ true = ground (arith, a, pr) in
      let b_black : is_black_at c b ≡ true = ground (arith, a, pr) in
      let b_red : is_red_apart c b ≡ true = ground (arith, a) in
      let u_red : is_red_apart c u ≡ true = ground (arith, a) in
      plug-IsBalanced c c' k (fork u g (fork b p x)) (fork (fork u g b) p x) fk (ground (arith, a))
        e (ground (arith, p', g', pr, g_black, u2))
        (even_left c c' g p x b u pr g' (x2, x3) (b2, b3) (u2, u3))
        (rw (p', g', x4, b1, b4, u1, u4, rx, bu, b_red, b_black, u_red) refl) (ground (arith, p'))

-- A red node that becomes black, over trees that keep their colours.
unfoldable pub Blackened : (ℕ → Color) → (ℕ → Color) → Shape → Type 0
Blackened c c' s =
    (black_height c' s ≡ black_height c s + 1)
    × (is_even c' s ≡ is_even c s)
    × (is_red_apart c' s ≡ true)
    × (is_black_at c' s ≡ true)

pub fork-Blackened :
    (c c' : ℕ → Color) (l : Shape) (x : ℕ) (r : Shape)
    → ((z : ℕ) → member z l ≡ true → c' z ≡ c z)
    → ((z : ℕ) → member z r ≡ true → c' z ≡ c z)
    → c x ≡ red
    → c' x ≡ black
    → is_red_apart c l ≡ true
    → is_red_apart c r ≡ true
    → Blackened c c' (fork l x r)
unfolding Blackened
fork-Blackened c c' l x r fl fr e e' hl hr =
    let (l1, l2, l3, l4) = same_colors c c' l fl in
    let (r1, r2, r3, r4) = same_colors c c' r fr in
    (
      rw (e, e', l2) (omega arith),
      rw (l2, l3, r2, r3) refl,
      rw (e', l4, r4, hl, hr) refl,
      rw e' refl,
    )

-- Case 3 keeps the black nodes on every path: both children of a black node become black, the node red.
pub case3-even :
    (c c' : ℕ → Color) (l : Shape) (g : ℕ) (r : Shape)
    → Blackened c c' l
    → Blackened c c' r
    → is_black (c g) ≡ true
    → c' g ≡ red
    → (black_height c' (fork l g r) ≡ black_height c (fork l g r))
      × (is_even c (fork l g r) ≡ true → is_even c' (fork l g r) ≡ true)
      × (is_red_apart c' (fork l g r) ≡ true)
unfolding Blackened
case3-even c c' l g r (l1, l2, l3, l4) (r1, r2, r3, r4) b e = (
  rw (e, b, l1) (omega arith),
  λ h.
      let (q, el, er) = even_parts c l g r h in
      even_fork c' l g r (l1 ∙ ap (λ (n : ℕ). n + 1) q ∙ sym r1) (l2 ∙ el) (r2 ∙ er),
  rw (e, l3, l4, r3, r4) refl,
)

module _ (c : ℕ → Color) (k : Context) (g p n : ℕ) (a b d u : Shape) where
  -- A turn of two red nodes keeps the black nodes on every path, and leaves both the same way red.
  pub turn_left-colors :
      c p ≡ red
      → c n ≡ red
      → is_red_apart_around c (in_right (in_left k g u) b p) ≡ true
      → is_red_apart c (fork a n d) ≡ true
      → is_even c (plug k (fork (fork b p (fork a n d)) g u)) ≡ true
      → (is_red_apart_around c (in_left (in_left k g u) n d) ≡ true)
        × (is_red_apart c (fork b p a) ≡ true)
        × (is_even c (plug k (fork (fork (fork b p a) n d) g u)) ≡ true)
  unfolding plug
  turn_left-colors e f around r h = (
    ground (arith, e, f, around, r),
    ground (arith, e, f, around, r),
    plug-is_even c c (in_left k g u) (fork b p (fork a n d)) (fork (fork b p a) n d) (λ z i. refl)
        (rw (e, f) (omega arith))
        (even_left c c p n d a b f e (refl, refl) (refl, refl) (refl, refl)) h,
  )

  pub turn_right-colors :
      c p ≡ red
      → c n ≡ red
      → is_red_apart_around c (in_left (in_right k u g) p b) ≡ true
      → is_red_apart c (fork d n a) ≡ true
      → is_even c (plug k (fork u g (fork (fork d n a) p b))) ≡ true
      → (is_red_apart_around c (in_right (in_right k u g) d n) ≡ true)
        × (is_red_apart c (fork a p b) ≡ true)
        × (is_even c (plug k (fork u g (fork d n (fork a p b)))) ≡ true)
  unfolding plug
  turn_right-colors e f around r h = (
    ground (arith, e, f, around, r),
    ground (arith, e, f, around, r),
    plug-is_even c c (in_right k u g) (fork (fork d n a) p b) (fork d n (fork a p b)) (λ z i. refl)
        (rw (e, f) (omega arith))
        (even_right c c p n d a b f e (refl, refl) (refl, refl) (refl, refl)) h,
  )

-- What the climb needs at the grandparent after case 3.
pub case3-colors :
    (c c' : ℕ → Color) (k : Context) (l : Shape) (g : ℕ) (r : Shape)
    → ((z : ℕ) → surrounds k z ≡ true → c' z ≡ c z)
    → Blackened c c' l
    → Blackened c c' r
    → is_black (c g) ≡ true
    → c' g ≡ red
    → is_red_apart_around c k ≡ true
    → is_even c (plug k (fork l g r)) ≡ true
    → (is_red_apart_around c' k ≡ true)
      × (is_red_apart c' (fork l g r) ≡ true)
      × (is_even c' (plug k (fork l g r)) ≡ true)
case3-colors c c' k l g r f hl hr b e around h =
    let (height, even, apart) = case3-even c c' l g r hl hr b e in
    (
      is_red_apart_around-frame c c' k f ∙ around,
      apart,
      plug-is_even c c' k (fork l g r) (fork l g r) f height even h,
    )
