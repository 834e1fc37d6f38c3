-- ===== src/Rbtree/Ascent.antt =====
-- `insert_case1` repairs a whole tree: the climb from a red node whose parent may be red.
use lockfree_stm.Common.{ℕ, ◌+◌, ◌≡◌, ◌≢◌, ◌⊎◌, inl, inr, refl, true, false, arith, Bool-cases}
use lockfree_stm.Rbtree.{Tree, Color, red, black, is_black}
use lockfree_stm.Rbtree.Lookup.{Shape, leaf, fork, member}
use lockfree_stm.Rbtree.Freed.{IsUnique}
use lockfree_stm.Rbtree.Rotate.{Linked}
use lockfree_stm.Rbtree.Focus.{Context, top, in_left, in_right, plug, plug-IsApart}
use lockfree_stm.Rbtree.Balance.{is_black_at, is_even, is_red_apart, is_red_apart_around}
use lockfree_stm.Rbtree.Paint.{color_at, SameKeys-refl, painted-Linked}
use lockfree_stm.Rbtree.Recolor.{IsBalanced, fork-Blackened, case3-colors}
use lockfree_stm.Rbtree.Repair.{Repaired}
use lockfree_stm.Rbtree.Family.{
  recolored, recolored-SameLinks, recolored-g, recolored-y, recolored-p, recolored-other,
}

pub Color-cases : (c : Color) → (c ≡ red) ⊎ (c ≡ black)
Color-cases red = inl refl
Color-cases black = inr refl

abbrev pub depth : Context → ℕ
depth top = 0
depth (in_left k x r) = depth k + 1
depth (in_right k l x) = depth k + 1

-- A tree with a red root has one.
pub red_root :
    (c : ℕ → Color) (s : Shape)
    → is_black_at c s ≡ false
    → (l : Shape) × (x : ℕ) × (r : Shape) × (s ≡ fork l x r) × (c x ≡ red)
red_root c leaf h = absurd (cc)
red_root c (fork l x r) h = elim (Color-cases (c x)) [
  | inl e ↦ (l, x, r, refl, e)
  | inr e ↦ absurd (ground (arith, e, h))
]

module _ {K V : Type 0} where
  -- The tree is red and black all around the hole and in it, but that the red node in it may hang under a red one.
  pub record IsClimbing (t : Tree K V) (k : Context) (s : Shape) : Type 0 where
    pub unique : IsUnique (plug k s)
    pub links : Linked t.node 0 t.root (plug k s)
    pub around : is_red_apart_around (color_at t) k ≡ true
    pub inside : is_red_apart (color_at t) s ≡ true
    pub even : is_even (color_at t) (plug k s) ≡ true

  pub settled :
      (t : Tree K V) (k : Context) (s : Shape)
      → IsClimbing t k s
      → is_red_apart (color_at t) (plug k s) ≡ true
      → is_black_at (color_at t) (plug k s) ≡ true
      → Repaired t (plug k s) t
  unfolding Repaired IsBalanced
  settled t k s h r b = (plug k s, h.links, refl, (h.even, r, b), SameKeys-refl t)

  module _ (t : Tree K V) (k : Context) (g p y : ℕ) (l r ul ur : Shape) where
    pub recolored-left :
        IsUnique (plug k (fork (fork l p r) g (fork ul y ur)))
        → Linked t.node 0 t.root (plug k (fork (fork l p r) g (fork ul y ur)))
        → is_even (color_at t) (plug k (fork (fork l p r) g (fork ul y ur))) ≡ true
        → is_red_apart_around (color_at t) k ≡ true
        → is_black (color_at t g) ≡ true
        → (is_red_apart (color_at t) l ≡ true) × (is_red_apart (color_at t) r ≡ true)
        → is_red_apart (color_at t) (fork ul y ur) ≡ true
        → color_at t p ≡ red
        → color_at t y ≡ red
        → IsClimbing (recolored g y p t) k (fork (fork l p r) g (fork ul y ur))
    unfolding IsUnique
    recolored-left un h e around bg (rl, rr) ru pr yr =
        let s = fork (fork l p r) g (fork ul y ur) in
        let ((u_l, u_r, pl, p_r, fp), (uul, uur, yul, yur, fu), gp, gu, fg) =
          (plug-IsApart k s un).0 in
        let out = (plug-IsApart k s un).1 in
        let c = color_at t in
        let w = recolored g y p t in
        let y_out : member y (fork l p r) ≡ false = elim (Bool-cases (member y (fork l p r))) [
          | inr i ↦ i
          | inl i ↦ absurd (ground (arith, fg y i))
        ] in
        let kept = recolored-other g y p t in
        let p_g : p ≢ g = ground (arith, gp) in
        let y_g : y ≢ g = ground (arith, gu) in
        let p_y : p ≢ y = ground (arith, y_out) in
        let (a, x, ev) =
          case3-colors c (color_at w) k (fork l p r) g (fork ul y ur)
            (λ z i.
              kept z (ground (arith, out z, i)) (ground (arith, out z, i))
                (ground (arith, out z, i)))
            (fork-Blackened c (color_at w) l p r
              (λ z i.
                kept z (ground (arith, gp, i)) (ground (arith, y_out, i)) (ground (arith, pl, i)))
              (λ z i.
                kept z (ground (arith, gp, i)) (ground (arith, y_out, i)) (ground (arith, p_r, i)))
              pr (recolored-p g y p t p_g p_y) rl rr)
            (fork-Blackened c (color_at w) ul y ur
              (λ z i.
                kept z (ground (arith, gu, i)) (ground (arith, yul, i)) (ground (arith, fg p, i)))
              (λ z i.
                kept z (ground (arith, gu, i)) (ground (arith, yur, i)) (ground (arith, fg p, i)))
              yr (recolored-y g y p t y_g) (ground (arith, ru)) (ground (arith, ru)))
            bg (recolored-g g y p t) around e in
        record {
          unique = un;
          links = painted-Linked t w (plug k s) (recolored-SameLinks g y p t) h;
          around = a;
          inside = x;
          even = ev;
        }

    pub recolored-right :
        IsUnique (plug k (fork (fork ul y ur) g (fork l p r)))
        → Linked t.node 0 t.root (plug k (fork (fork ul y ur) g (fork l p r)))
        → is_even (color_at t) (plug k (fork (fork ul y ur) g (fork l p r))) ≡ true
        → is_red_apart_around (color_at t) k ≡ true
        → is_black (color_at t g) ≡ true
        → (is_red_apart (color_at t) l ≡ true) × (is_red_apart (color_at t) r ≡ true)
        → is_red_apart (color_at t) (fork ul y ur) ≡ true
        → color_at t p ≡ red
        → color_at t y ≡ red
        → IsClimbing (recolored g y p t) k (fork (fork ul y ur) g (fork l p r))
    unfolding IsUnique
    recolored-right un h e around bg (rl, rr) ru pr yr =
        let s = fork (fork ul y ur) g (fork l p r) in
        let ((uul, uur, yul, yur, fu), (u_l, u_r, pl, p_r, fp), gu, gp, fg) =
          (plug-IsApart k s un).0 in
        let out = (plug-IsApart k s un).1 in
        let c = color_at t in
        let w = recolored g y p t in
        let y_out : member y (fork l p r) ≡ false = fg y (ground arith) in
        let p_out : member p (fork ul y ur) ≡ false = elim (Bool-cases (member p (fork ul y ur))) [
          | inr i ↦ i
          | inl i ↦ absurd (ground (arith, fg p i))
        ] in
        let kept = recolored-other g y p t in
        let p_g : p ≢ g = ground (arith, gp) in
        let y_g : y ≢ g = ground (arith, gu) in
        let p_y : p ≢ y = ground (arith, y_out) in
        let (a, x, ev) =
          case3-colors c (color_at w) k (fork ul y ur) g (fork l p r)
            (λ z i.
              kept z (ground (arith, out z, i)) (ground (arith, out z, i))
                (ground (arith, out z, i)))
            (fork-Blackened c (color_at w) ul y ur
              (λ z i.
                kept z (ground (arith, gu, i)) (ground (arith, yul, i)) (ground (arith, p_out, i)))
              (λ z i.
                kept z (ground (arith, gu, i)) (ground (arith, yur, i)) (ground (arith, p_out, i)))
              yr (recolored-y g y p t y_g) (ground (arith, ru)) (ground (arith, ru)))
            (fork-Blackened c (color_at w) l p r
              (λ z i.
                kept z (ground (arith, gp, i)) (ground (arith, y_out, i)) (ground (arith, pl, i)))
              (λ z i.
                kept z (ground (arith, gp, i)) (ground (arith, y_out, i)) (ground (arith, p_r, i)))
              pr (recolored-p g y p t p_g p_y) rl rr)
            bg (recolored-g g y p t) around e in
        record {
          unique = un;
          links = painted-Linked t w (plug k s) (recolored-SameLinks g y p t) h;
          around = a;
          inside = x;
          even = ev;
        }
