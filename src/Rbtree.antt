-- ===== src/Rbtree.antt =====
-- The red-black tree of include/lstm/containers/rbtree.hpp: its nodes, the neighbours of a node, and the
-- rotations. An operation runs inside one transaction, so it reads and writes one memory: a function
-- from addresses to nodes, where 0 is the null pointer.
pub mod Insert
pub mod Erase
pub mod Lookup
pub mod Clear
pub mod Freed
pub mod Climb
pub mod Rotate
pub mod Focus
pub mod Above
pub mod Order
pub mod Mirror
pub mod Balance
pub mod Paint
pub mod Recolor
pub mod Repair
pub mod Cases
pub mod Family
pub mod Ascent
pub mod Insertion
pub mod Attach
pub mod Link
pub mod Sorted
pub mod Emplace
pub mod Keys
pub mod Verified
pub mod Turns
pub mod Distinct
pub mod Verify
use lockfree_stm.Common.{
  ℕ, zero, suc, ◌+◌, Bool, true, false, not, ◌&&◌, List, [], ◌∷◌, ◌++◌, ◌==◌, if◌then◌else◌,
}
use lockfree_stm.Common.Update.{update}

pub data Color : Type 0 where
  red black : Color

abbrev pub is_red : Color → Bool
is_red red = true
is_red black = false

abbrev pub is_black : Color → Bool
is_black c = not (is_red c)

pub record Node (K V : Type 0) : Type 0 where
  pub key : K
  pub value : V
  pub parent : ℕ
  pub left : ℕ
  pub right : ℕ
  pub color : Color

-- `retired` are the nodes given to `destroy_deallocate`, and `cleared` the roots of the trees that
-- `clear` took off, both the oldest first: callbacks free them when no section can see them.
pub record Tree (K V : Type 0) : Type 0 where
  pub root : ℕ
  pub node : ℕ → Node K V
  pub retired : List ℕ
  pub cleared : List ℕ

-- What a pointer variable belongs to.
pub data Place : Type 0 where
  at_root : Place
  left_of right_of : ℕ → Place

module _ {K V : Type 0} where
  -- The constructor: a red node without neighbours.
  abbrev pub rb_node : K → V → Node K V
  rb_node k v = record { key = k; value = v; parent = 0; left = 0; right = 0; color = red }

  abbrev pub set_root : ℕ → Tree K V → Tree K V
  set_root n t = record t { root = n }

  abbrev pub set_node : ℕ → Node K V → Tree K V → Tree K V
  set_node n d t = record t { node = update t.node n d }

  abbrev pub set_parent : ℕ → ℕ → Tree K V → Tree K V
  set_parent n p t = set_node n (record (t.node n) { parent = p }) t

  abbrev pub set_left : ℕ → ℕ → Tree K V → Tree K V
  set_left n p t = set_node n (record (t.node n) { left = p }) t

  abbrev pub set_right : ℕ → ℕ → Tree K V → Tree K V
  set_right n p t = set_node n (record (t.node n) { right = p }) t

  abbrev pub set_color : ℕ → Color → Tree K V → Tree K V
  set_color n c t = set_node n (record (t.node n) { color = c }) t

  -- `if (n) n->parent_.set(tx, p)`
  abbrev pub adopt : ℕ → ℕ → Tree K V → Tree K V
  adopt n p t = if n == 0 then t else set_parent n p t

  abbrev pub get_place : Place → Tree K V → ℕ
  get_place at_root t = t.root
  get_place (left_of n) t = (t.node n).left
  get_place (right_of n) t = (t.node n).right

  abbrev pub set_place : Place → ℕ → Tree K V → Tree K V
  set_place at_root p t = set_root p t
  set_place (left_of n) p t = set_left n p t
  set_place (right_of n) p t = set_right n p t

  unfoldable pub grandparent : ℕ → Tree K V → ℕ
  grandparent n t =
      let parent = (t.node n).parent in
      if n == 0 then 0 else if parent == 0 then 0 else (t.node parent).parent

  unfoldable pub uncle : ℕ → Tree K V → ℕ
  uncle n t =
      let g = grandparent n t in
      let left = (t.node g).left in
      if g == 0 then 0 else if (t.node n).parent == left then (t.node g).right else left

  unfoldable pub sibling : ℕ → ℕ → Tree K V → ℕ
  sibling parent n t =
      let p_left = (t.node parent).left in
      if parent == 0 then 0 else if n == p_left then (t.node parent).right else p_left

  -- The end of both rotations: `p` takes the place of `n` under `n_parent`.
  abbrev pub relink : ℕ → Bool → ℕ → Tree K V → Tree K V
  relink n_parent left p t =
      if n_parent == 0
      then set_root p t
      else if left
      then set_left n_parent p t
      else set_right n_parent p t

  unfoldable pub rotate_left : ℕ → Tree K V → Tree K V
  rotate_left n t =
      let p = (t.node n).right in
      let p_left = (t.node p).left in
      let n_parent = (t.node n).parent in
      let left = not (n_parent == 0) && ((t.node n_parent).left == n) in
      relink n_parent left p (
        set_parent p n_parent
          (set_parent n p (set_left p n (adopt p_left n (set_right n p_left t)))))

  unfoldable pub rotate_right : ℕ → Tree K V → Tree K V
  rotate_right n t =
      let p = (t.node n).left in
      let p_right = (t.node p).right in
      let n_parent = (t.node n).parent in
      let left = not (n_parent == 0) && ((t.node n_parent).left == n) in
      relink n_parent left p (
        set_parent p n_parent
          (set_parent n p (set_right p n (adopt p_right n (set_left n p_right t)))))

  -- `color`: a null pointer is black.
  abbrev pub color_of : ℕ → Tree K V → Color
  color_of n t = if n == 0 then black else (t.node n).color

  -- The loop of `min_node`, on fuel.
  unfoldable pub min_node : ℕ → ℕ → Tree K V → ℕ
  min_node zero current t = current
  min_node (suc fuel) current t =
      let rest = min_node fuel (t.node current).left t in
      if (t.node current).left == 0 then current else rest

  -- The loop of `find`, on fuel, with the comparison of the tree.
  unfoldable pub find_from : (K → K → Bool) → ℕ → K → ℕ → Tree K V → ℕ
  find_from compare zero u cur t = cur
  find_from compare (suc fuel) u cur t =
      let key = (t.node cur).key in
      let in_left = find_from compare fuel u (t.node cur).left t in
      let in_right = find_from compare fuel u (t.node cur).right t in
      if cur == 0
      then cur
      else if compare u key
      then in_left
      else if compare key u
      then in_right
      else cur

  unfoldable pub find : (K → K → Bool) → ℕ → K → Tree K V → ℕ
  find compare fuel u t = find_from compare fuel u t.root t

  unfoldable pub empty : (ℕ → Node K V) → Tree K V
  empty memory = record { root = 0; node = memory; retired = []; cleared = [] }
