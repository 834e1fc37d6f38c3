-- ===== src/Rbtree/Verified.antt =====
-- `verify` accepts every red-black search tree, and how high such a tree is.
use Prim.Native.Nat.{min}
use native.Mathlib.Nat.{pow-suc, pow-le-pow_right}
use lockfree_stm.Common.{
  ℕ, zero, suc, ◌+◌, ◌*◌, ◌^◌, ◌≤◌, ◌<◌, ◌≡◌, inl, inr, refl, sym, ap, ◌∙◌, Bool, true, false, not,
  ◌||◌, some, leb, ltb, ◌==◌, arith, if◌then◌else◌, Bool-cases,
}
use lockfree_stm.Rbtree.{Tree, Node, Color, is_black, find}
use lockfree_stm.Rbtree.Lookup.{
  Shape, leaf, fork, height, none_after, none_before, is_sorted, Holds, IsWeakOrder, Found,
  find-Found,
}
use lockfree_stm.Rbtree.Freed.{size}
use lockfree_stm.Rbtree.Rotate.{Linked}
use lockfree_stm.Rbtree.Balance.{is_black_at, black_height, is_even, is_red_apart}
use lockfree_stm.Rbtree.Paint.{color_at}
use lockfree_stm.Rbtree.Recolor.{IsBalanced}
use lockfree_stm.Rbtree.Emplace.{IsRbtree}
use lockfree_stm.Rbtree.Verify.{HeightInfo, node_holds, minmax_height, verify}

-- The nodes on the shortest way out of the tree.
abbrev shortest : Shape → ℕ
shortest leaf = 0
shortest (fork l x r) = min (shortest l) (shortest r) + 1

-- The black nodes of a path, against its nodes.
heights :
    (c : ℕ → Color) (s : Shape)
    → is_even c s ≡ true
    → is_red_apart c s ≡ true
    → (height s ≤ black_height c s * 2 + (if is_black_at c s then 0 else 1))
      × (black_height c s ≤ shortest s)
heights c leaf e a = (omega arith, omega arith)
heights c (fork l x r) e a =
    let left = heights c l (ground arith) (ground arith) in
    let right = heights c r (ground arith) (ground arith) in
    let same : black_height c l ≡ black_height c r = ground arith in
    elim (Bool-cases (is_black (c x))) [
      | inl b ↦ (rw b (ground (arith, left, right)), rw b (ground (arith, left, right)))
      | inr b ↦ (rw b (ground (arith, left, right)), rw b (ground (arith, left, right)))
    ]

add_zero : (n : ℕ) → n + 0 ≡ n
add_zero n = omega arith

add_one : (n : ℕ) → n + 1 ≡ suc n
add_one n = omega arith

full : (c : ℕ → Color) (s : Shape) → is_even c s ≡ true → 2 ^ black_height c s ≤ size s + 1
full c leaf e = omega arith
full c (fork l x r) e =
    let left = full c l (ground arith) in
    let right = full c r (ground arith) in
    let same : black_height c l ≡ black_height c r = ground arith in
    let there : 2 ^ black_height c l ≤ size r + 1 = rw same right in
    let step : 2 ^ (black_height c l + 1) ≡ 2 ^ black_height c l * 2 =
      ap (λ (n : ℕ). 2 ^ n) (add_one (black_height c l)) ∙ pow-suc 2 (black_height c l) in
    let black : 2 ^ (black_height c l + 1) ≤ size (fork l x r) + 1 =
      omega (arith, left, there, step) in
    let red : 2 ^ (black_height c l + 0) ≤ size (fork l x r) + 1 =
      omega (arith, left, ap (λ (n : ℕ). 2 ^ n) (add_zero (black_height c l))) in
    elim (Bool-cases (is_black (c x))) [ inl b ↦ rw b black | inr b ↦ rw b red ]

module _ {K V : Type 0} (compare : K → K → Bool) (t : Tree K V) where
  -- A child and its parent, as `verify` tests them on either side.
  child_after :
      (x a : ℕ) (s : Shape)
      → Linked t.node x a s
      → none_before compare t.node (t.node x).key s ≡ true
      → (((a == 0) || ((t.node a).parent == x)) ≡ true)
        × (((a == 0) || not (compare (t.node a).key (t.node x).key)) ≡ true)
        × (((a == 0) || is_black (t.node a).color) ≡ is_black_at (color_at t) s)
  unfolding Linked
  child_after x a leaf h n = rw h (refl, refl, refl)
  child_after x a (fork l y r) (e, y0, up, hl, hr) n =
      let some_y : (y == 0) ≡ false = ground arith in
      rw (e, some_y) (ground (arith, up), ground (arith, n), refl)

  child_before :
      (x a : ℕ) (s : Shape)
      → Linked t.node x a s
      → none_after compare t.node (t.node x).key s ≡ true
      → (((a == 0) || ((t.node a).parent == x)) ≡ true)
        × (((a == 0) || not (compare (t.node x).key (t.node a).key)) ≡ true)
        × (((a == 0) || is_black (t.node a).color) ≡ is_black_at (color_at t) s)
  unfolding Linked
  child_before x a leaf h n = rw h (refl, refl, refl)
  child_before x a (fork l y r) (e, y0, up, hl, hr) n =
      let some_y : (y == 0) ≡ false = ground arith in
      rw (e, some_y) (ground (arith, up), ground (arith, n), refl)

  root_black :
      (p a : ℕ) (s : Shape)
      → Linked t.node p a s
      → ((a == 0) || is_black (t.node a).color) ≡ is_black_at (color_at t) s
  unfolding Linked
  root_black p a leaf h = rw h refl
  root_black p a (fork l y r) (e, y0, up, hl, hr) =
      let some_y : (y == 0) ≡ false = ground arith in rw (e, some_y) refl

  node_holds-fork :
      (p a : ℕ) (l : Shape) (x : ℕ) (r : Shape)
      → Linked t.node p a (fork l x r)
      → is_sorted compare t.node (fork l x r) ≡ true
      → is_red_apart (color_at t) (fork l x r) ≡ true
      → node_holds compare x t ≡ true
  unfolding Linked node_holds
  node_holds-fork p a l x r (e, x0, up, hl, hr) o c =
      let (l1, l2, l3) = child_before x (t.node x).left l hl (ground arith) in
      let (r1, r2, r3) = child_after x (t.node x).right r hr (ground arith) in
      rw (l1, l2, l3, r1, r2, r3) (ground (arith, c))

  unfoldable info : Shape → HeightInfo
  info s = record {
    min_height = shortest s;
    max_height = height s;
    black_height = black_height (color_at t) s;
  }

  minmax_height-info :
      (fuel p a : ℕ) (s : Shape)
      → Linked t.node p a s
      → is_sorted compare t.node s ≡ true
      → is_even (color_at t) s ≡ true
      → is_red_apart (color_at t) s ≡ true
      → height s < fuel
      → minmax_height compare fuel a t ≡ some (info s)
  unfolding minmax_height Linked info
  minmax_height-info zero p a s h o e c b = absurd (omega arith)
  minmax_height-info (suc fuel) p a leaf h o e c b = rw h refl
  minmax_height-info (suc fuel) p a (fork l x r) h o e c b =
      let some_x : (x == 0) ≡ false = ground (arith, h.1) in
      let left =
        minmax_height-info fuel x (t.node x).left l h.3 (ground arith) (ground arith) (ground arith)
          (ground arith) in
      let right =
        minmax_height-info fuel x (t.node x).right r h.4 (ground arith) (ground arith)
          (ground arith) (ground arith) in
      let same : (black_height (color_at t) l == black_height (color_at t) r) ≡ true =
        ground arith in
      rw (h.0, some_x, left, right, same, node_holds-fork p a l x r h o c) refl

-- The repository's own check accepts every red-black search tree, with more fuel than the tree is high.
pub verify-IsRbtree :
    {K V : Type 0} (compare : K → K → Bool) (t : Tree K V) (s : Shape) (fuel : ℕ)
    → IsRbtree compare t s
    → height s < fuel
    → verify compare fuel t ≡ true
unfolding verify IsBalanced info
verify-IsRbtree compare t s fuel h b =
    let (even, apart, rooted) = h.balanced in
    let (high, low) = heights (color_at t) s even apart in
    let enough : leb (height s) (shortest s * 2) ≡ true = ground (arith, high, low, rooted) in
    rw
      (
        root_black compare t 0 t.root s h.links ∙ rooted,
        minmax_height-info compare t fuel 0 t.root s h.links h.sorted even apart b,
        enough,
      )
      refl

-- In a red-black search tree the longest way down has at most twice as many nodes as a number `b` where
-- the tree has `2 ^ b - 1` nodes or more.
pub height-IsRbtree :
    {K V : Type 0} (compare : K → K → Bool) (t : Tree K V) (s : Shape)
    → IsRbtree compare t s
    → (b : ℕ) × (height s ≤ b * 2) × (2 ^ b ≤ size s + 1)
unfolding IsBalanced
height-IsRbtree compare t s h =
    let (even, apart, rooted) = h.balanced in
    let (high, low) = heights (color_at t) s even apart in
    (black_height (color_at t) s, ground (arith, high, rooted), full (color_at t) s even)

Linked-Holds :
    {K V : Type 0} (m : ℕ → Node K V) (p a : ℕ) (s : Shape) → Linked m p a s → Holds m a s
unfolding Linked Holds
Linked-Holds m p a leaf h = h
Linked-Holds m p a (fork l x r) (e, nz, up, hl, hr) =
    (e, λ z. nz (sym e ∙ z), Linked-Holds m x (m x).left l hl, Linked-Holds m x (m x).right r hr)

power_lt : (a b : ℕ) → 2 ^ a < 2 ^ b → a < b
power_lt a b h = elim (Bool-cases (ltb a b)) [
  | inl e ↦ ground (arith, e)
  | inr e ↦
      let two : 0 < 2 = omega arith in
      let up : 2 ^ b ≤ 2 ^ a = pow-le-pow_right two (ground (arith, e)) in
      absurd (omega (arith, up, h))
]

-- For a strict weak order on the keys, in a red-black search tree of fewer than `2 ^ b - 1` nodes, `find` needs at most `2 * b` rounds: with
-- fuel for them, it gives a node of the tree whose key is equivalent to the key sought, or null where no
-- key of the tree is.
pub find-logarithmic :
    {K V : Type 0} (compare : K → K → Bool) (order : IsWeakOrder compare) (u : K)
    → (t : Tree K V) (s : Shape) (b : ℕ) → IsRbtree compare t s
    → size s + 1 < 2 ^ b
    → Found compare order u t.node s (find compare (b * 2) u t)
find-logarithmic compare order u t s b h small =
    let (a, high, full) = height-IsRbtree compare t s h in
    let above = power_lt a b (omega (arith, small, full)) in
    find-Found compare order u t (b * 2) s (Linked-Holds t.node 0 t.root s h.links) h.sorted
      (omega (arith, high, above))
