-- ===== src/Rbtree/Balance.antt =====
-- The colours of a tree: where a red node stands, and how many black nodes a path has.
use lockfree_stm.Common.{
  ℕ, ◌+◌, ◌≡◌, Bool, true, false, ◌&&◌, ◌||◌, ◌==◌, refl, ◌∙◌, arith, if◌then◌else◌,
}
use lockfree_stm.Rbtree.{Color, is_black}
use lockfree_stm.Rbtree.Lookup.{Shape, leaf, fork, member}
use lockfree_stm.Rbtree.Focus.{Context, top, in_left, in_right, plug, surrounds}

-- A null pointer is black.
abbrev pub is_black_at : (ℕ → Color) → Shape → Bool
is_black_at c leaf = true
is_black_at c (fork l x r) = is_black (c x)

-- The black nodes on the way down the left.
abbrev pub black_height : (ℕ → Color) → Shape → ℕ
black_height c leaf = 0
black_height c (fork l x r) = black_height c l + (if is_black (c x) then 1 else 0)

-- All paths down from a node have as many black nodes.
abbrev pub is_even : (ℕ → Color) → Shape → Bool
is_even c leaf = true
is_even c (fork l x r) = (black_height c l == black_height c r) && (is_even c l && is_even c r)

-- No child of a red node is red.
abbrev pub is_red_apart : (ℕ → Color) → Shape → Bool
is_red_apart c leaf = true
is_red_apart c (fork l x r) =
    (is_black (c x) || (is_black_at c l && is_black_at c r))
    && (is_red_apart c l && is_red_apart c r)

-- The same around a hole, where the root is not red and the red nodes under the hole are not counted.
abbrev pub is_black_above : (ℕ → Color) → Context → Bool
is_black_above c top = false
is_black_above c (in_left k x r) = is_black (c x)
is_black_above c (in_right k l x) = is_black (c x)

abbrev pub is_red_apart_around : (ℕ → Color) → Context → Bool
is_red_apart_around c top = true
is_red_apart_around c (in_left k x r) =
    is_red_apart_around c k
    && (is_red_apart c r && (is_black (c x) || (is_black_at c r && is_black_above c k)))
is_red_apart_around c (in_right k l x) =
    is_red_apart_around c k
    && (is_red_apart c l && (is_black (c x) || (is_black_at c l && is_black_above c k)))

-- A tree whose red nodes stand apart under a black root is one around each of its holes.
pub plug-is_red_apart :
    (c : ℕ → Color) (k : Context) (s : Shape)
    → (is_red_apart c (plug k s) && is_black_at c (plug k s))
      ≡ (is_red_apart_around c k && (is_red_apart c s && (is_black_at c s || is_black_above c k)))
unfolding plug
plug-is_red_apart c top s = ground arith
plug-is_red_apart c (in_left k x r) s = plug-is_red_apart c k (fork s x r) ∙ ground arith
plug-is_red_apart c (in_right k l x) s = plug-is_red_apart c k (fork l x s) ∙ ground arith

module _ (c c' : ℕ → Color) where
  pub is_black_at-frame :
      (s : Shape) → ((z : ℕ) → member z s ≡ true → c' z ≡ c z) → is_black_at c' s ≡ is_black_at c s
  is_black_at-frame leaf f = refl
  is_black_at-frame (fork l x r) f = rw (f x (ground arith)) refl

  pub black_height-frame :
      (s : Shape)
      → ((z : ℕ) → member z s ≡ true → c' z ≡ c z)
      → black_height c' s ≡ black_height c s
  black_height-frame leaf f = refl
  black_height-frame (fork l x r) f =
      rw (f x (ground arith), black_height-frame l (λ z i. f z (ground (arith, i)))) refl

  pub is_even-frame :
      (s : Shape) → ((z : ℕ) → member z s ≡ true → c' z ≡ c z) → is_even c' s ≡ is_even c s
  is_even-frame leaf f = refl
  is_even-frame (fork l x r) f =
      let fl : (z : ℕ) → member z l ≡ true → c' z ≡ c z = λ z i. f z (ground (arith, i)) in
      let fr : (z : ℕ) → member z r ≡ true → c' z ≡ c z = λ z i. f z (ground (arith, i)) in
      rw (black_height-frame l fl, black_height-frame r fr, is_even-frame l fl, is_even-frame r fr)
        refl

  pub is_red_apart-frame :
      (s : Shape)
      → ((z : ℕ) → member z s ≡ true → c' z ≡ c z)
      → is_red_apart c' s ≡ is_red_apart c s
  is_red_apart-frame leaf f = refl
  is_red_apart-frame (fork l x r) f =
      let fl : (z : ℕ) → member z l ≡ true → c' z ≡ c z = λ z i. f z (ground (arith, i)) in
      let fr : (z : ℕ) → member z r ≡ true → c' z ≡ c z = λ z i. f z (ground (arith, i)) in
      rw
        (
          f x (ground arith),
          is_black_at-frame l fl,
          is_black_at-frame r fr,
          is_red_apart-frame l fl,
          is_red_apart-frame r fr,
        )
        refl

  is_black_above-frame :
      (k : Context)
      → ((z : ℕ) → surrounds k z ≡ true → c' z ≡ c z)
      → is_black_above c' k ≡ is_black_above c k
  is_black_above-frame top f = refl
  is_black_above-frame (in_left k x r) f = rw (f x (ground arith)) refl
  is_black_above-frame (in_right k l x) f = rw (f x (ground arith)) refl

  pub is_red_apart_around-frame :
      (k : Context)
      → ((z : ℕ) → surrounds k z ≡ true → c' z ≡ c z)
      → is_red_apart_around c' k ≡ is_red_apart_around c k
  is_red_apart_around-frame top f = refl
  is_red_apart_around-frame (in_left k x r) f =
      let fr : (z : ℕ) → member z r ≡ true → c' z ≡ c z = λ z i. f z (ground (arith, i)) in
      let fk : (z : ℕ) → surrounds k z ≡ true → c' z ≡ c z = λ z i. f z (ground (arith, i)) in
      rw
        (
          f x (ground arith),
          is_black_at-frame r fr,
          is_red_apart-frame r fr,
          is_black_above-frame k fk,
          is_red_apart_around-frame k fk,
        )
        refl
  is_red_apart_around-frame (in_right k l x) f =
      let fl : (z : ℕ) → member z l ≡ true → c' z ≡ c z = λ z i. f z (ground (arith, i)) in
      let fk : (z : ℕ) → surrounds k z ≡ true → c' z ≡ c z = λ z i. f z (ground (arith, i)) in
      rw
        (
          f x (ground arith),
          is_black_at-frame l fl,
          is_red_apart-frame l fl,
          is_black_above-frame k fk,
          is_red_apart_around-frame k fk,
        )
        refl

  -- Another tree in the hole with as many black nodes on its paths.
  pub plug-is_even :
      (k : Context) (s s' : Shape)
      → ((z : ℕ) → surrounds k z ≡ true → c' z ≡ c z)
      → black_height c' s' ≡ black_height c s
      → (is_even c s ≡ true → is_even c' s' ≡ true)
      → is_even c (plug k s) ≡ true
      → is_even c' (plug k s') ≡ true
  unfolding plug
  plug-is_even top s s' f e g h = g h
  plug-is_even (in_left k x r) s s' f e g h =
      let fr : (z : ℕ) → member z r ≡ true → c' z ≡ c z = λ z i. f z (ground (arith, i)) in
      let here : c' x ≡ c x = f x (ground arith) in
      plug-is_even k (fork s x r) (fork s' x r) (λ z i. f z (ground (arith, i)))
        (ground (arith, e, here))
        (λ i. ground (arith, e, i, g, black_height-frame r fr, is_even-frame r fr)) h
  plug-is_even (in_right k l x) s s' f e g h =
      let fl : (z : ℕ) → member z l ≡ true → c' z ≡ c z = λ z i. f z (ground (arith, i)) in
      let here : c' x ≡ c x = f x (ground arith) in
      plug-is_even k (fork l x s) (fork l x s') (λ z i. f z (ground (arith, i)))
        (ground (arith, e, here, black_height-frame l fl))
        (λ i. ground (arith, e, i, g, black_height-frame l fl, is_even-frame l fl)) h

pub is_even-plug :
    (c : ℕ → Color) (k : Context) (s : Shape) → is_even c (plug k s) ≡ true → is_even c s ≡ true
unfolding plug
is_even-plug c top s h = h
is_even-plug c (in_left k x r) s h = let i = is_even-plug c k (fork s x r) h in ground (arith, i)
is_even-plug c (in_right k l x) s h = let i = is_even-plug c k (fork l x s) h in ground (arith, i)

-- Everything the colours say of a tree, under other colours that agree on its nodes.
pub same_colors :
    (c c' : ℕ → Color) (s : Shape)
    → ((z : ℕ) → member z s ≡ true → c' z ≡ c z)
    → (is_black_at c' s ≡ is_black_at c s)
      × (black_height c' s ≡ black_height c s)
      × (is_even c' s ≡ is_even c s)
      × (is_red_apart c' s ≡ is_red_apart c s)
same_colors c c' s f = (
  is_black_at-frame c c' s f,
  black_height-frame c c' s f,
  is_even-frame c c' s f,
  is_red_apart-frame c c' s f,
)
