-- ===== src/Rbtree/Focus.antt =====
-- A rotation inside of a tree: the nodes around the place where it happens.
use mathlib.Core.Path.{subst}
use lockfree_stm.Common.{
  ℕ, ◌≡◌, ◌≢◌, inl, inr, refl, sym, ◌∙◌, Bool, true, false, ◌||◌, ◌==◌, arith, Bool-cases,
}
use lockfree_stm.Rbtree.{Node}
use lockfree_stm.Rbtree.Lookup.{Shape, fork, member}
use lockfree_stm.Rbtree.Freed.{IsUnique}
use lockfree_stm.Rbtree.Rotate.{Linked, Linked-frame}

-- A tree with a hole: at the root, or on the left or the right of a node.
pub data Context : Type 0 where
  top : Context
  in_left : Context → ℕ → Shape → Context
  in_right : Context → Shape → ℕ → Context

unfoldable pub plug : Context → Shape → Shape
plug top s = s
plug (in_left k x r) s = plug k (fork s x r)
plug (in_right k l x) s = plug k (fork l x s)

abbrev pub surrounds : Context → ℕ → Bool
surrounds top z = false
surrounds (in_left k x r) z = (z == x) || (member z r || surrounds k z)
surrounds (in_right k l x) z = (z == x) || (member z l || surrounds k z)

unfoldable pub IsApart : Context → Type 0
IsApart top = Unit
IsApart (in_left k x r) =
    (member x r ≡ false)
    × (surrounds k x ≡ false)
    × ((z : ℕ) → member z r ≡ true → surrounds k z ≡ false)
    × IsApart k
IsApart (in_right k l x) =
    (member x l ≡ false)
    × (surrounds k x ≡ false)
    × ((z : ℕ) → member z l ≡ true → surrounds k z ≡ false)
    × IsApart k

pub plug-IsApart :
    (k : Context) (s : Shape)
    → IsUnique (plug k s)
    → IsUnique s × ((z : ℕ) → member z s ≡ true → surrounds k z ≡ false) × IsApart k
unfolding plug IsApart IsUnique
plug-IsApart top s u = (u, λ z i. refl, tt)
plug-IsApart (in_left k x r) s u =
    let ((us, ur, xs, xr, far), out, apart) = plug-IsApart k (fork s x r) u in
    (
      us,
      λ z i. ground (arith, xs, far z i, out z (ground (arith, i)), i),
      (xr, out x (ground arith), λ z i. out z (ground (arith, i)), apart),
    )
plug-IsApart (in_right k l x) s u =
    let ((ul, us, xl, xs, far), out, apart) = plug-IsApart k (fork l x s) u in
    (
      us,
      λ z i. elim (Bool-cases (member z l)) [
        | inl j ↦ absurd (ground (arith, far z j))
        | inr j ↦ ground (arith, xs, out z (ground (arith, i)), i, j)
      ],
      (xl, out x (ground arith), λ z i. out z (ground (arith, i)), apart),
    )

module _ {K V : Type 0} where
  -- The memory around the hole, where the address `a` hangs under `p`.
  unfoldable pub Around : (ℕ → Node K V) → ℕ → Context → ℕ → ℕ → Type 0
  Around m root top p a = (p ≡ 0) × (root ≡ a)
  Around m root (in_left k x r) p a =
      (p ≡ x)
      × (x ≢ 0)
      × ((m x).left ≡ a)
      × Linked m x (m x).right r
      × Around m root k (m x).parent x
  Around m root (in_right k l x) p a =
      (p ≡ x)
      × (x ≢ 0)
      × ((m x).right ≡ a)
      × Linked m x (m x).left l
      × Around m root k (m x).parent x

  pub focus :
      (m : ℕ → Node K V) (root : ℕ) (k : Context) (s : Shape)
      → Linked m 0 root (plug k s)
      → (p : ℕ) × (a : ℕ) × Around m root k p a × Linked m p a s
  unfolding plug Around Linked
  focus m root top s h = (0, root, (refl, refl), h)
  focus m root (in_left k x r) s h =
      let (p, a, around, (e, nz, up, hl, hr)) = focus m root k (fork s x r) h in
      (
        x,
        (m x).left,
        (
          refl,
          nz,
          refl,
          hr,
          subst (λ b. Around m root k (m x).parent b) e
              (subst (λ b. Around m root k b a) (sym up) around),
        ),
        hl,
      )
  focus m root (in_right k l x) s h =
      let (p, a, around, (e, nz, up, hl, hr)) = focus m root k (fork l x s) h in
      (
        x,
        (m x).right,
        (
          refl,
          nz,
          refl,
          hl,
          subst (λ b. Around m root k (m x).parent b) e
              (subst (λ b. Around m root k b a) (sym up) around),
        ),
        hr,
      )

  pub unfocus :
      (m : ℕ → Node K V) (root : ℕ) (k : Context) (s : Shape) (p a : ℕ)
      → Around m root k p a
      → Linked m p a s
      → Linked m 0 root (plug k s)
  unfolding plug Around Linked
  unfocus m root top s p a (e, f) h =
      subst (λ b. Linked m b root s) e (subst (λ b. Linked m p b s) (sym f) h)
  unfocus m root (in_left k x r) s p a (e, nz, f, hr, around) h =
      unfocus m root k (fork s x r) (m x).parent x around
        (refl, nz, refl, subst (λ b. Linked m x b s) (sym f) (subst (λ b. Linked m b a s) e h), hr)
  unfocus m root (in_right k l x) s p a (e, nz, f, hl, around) h =
      unfocus m root k (fork l x s) (m x).parent x around
        (refl, nz, refl, hl, subst (λ b. Linked m x b s) (sym f) (subst (λ b. Linked m b a s) e h))

  pub Around-frame :
      (m m' : ℕ → Node K V) (root root' : ℕ) (k : Context) (p a : ℕ)
      → root' ≡ root
      → ((z : ℕ) → surrounds k z ≡ true → m' z ≡ m z)
      → Around m root k p a
      → Around m' root' k p a
  unfolding Around
  Around-frame m m' root root' top p a e f h = (h.0, e ∙ h.1)
  Around-frame m m' root root' (in_left k x r) p a e f (g, nz, d, hr, around) =
      let same : m' x ≡ m x = f x (ground arith) in
      rw same (
        g,
        nz,
        d,
        Linked-frame m m' x (m x).right r (λ z i. f z (ground (arith, i))) hr,
        Around-frame m m' root root' k (m x).parent x e (λ z i. f z (ground (arith, i))) around,
      )
  Around-frame m m' root root' (in_right k l x) p a e f (g, nz, d, hl, around) =
      let same : m' x ≡ m x = f x (ground arith) in
      rw same (
        g,
        nz,
        d,
        Linked-frame m m' x (m x).left l (λ z i. f z (ground (arith, i))) hl,
        Around-frame m m' root root' k (m x).parent x e (λ z i. f z (ground (arith, i))) around,
      )
