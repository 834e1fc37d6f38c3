-- ===== src/Epochs/Alive.antt =====
-- The list of nodes does not change under a scan: every node that it loads is in the list.
use lockfree_stm.Common.{
  ℕ, ◌≡◌, ◌≢◌, ◌⊎◌, inl, inr, refl, sym, ap, ◌∙◌, Bool, true, false, not, List, [], ◌∷◌, ◌==◌,
  arith, Bool-cases,
}
use lockfree_stm.Common.Update.{update, update_self, update_ne}
use lockfree_stm.Common.Distinct.{contains, is_distinct}
use lockfree_stm.Epochs.Grace.{is_listed}
use lockfree_stm.Epochs.{
  Hold, shared, exclusive, Pc, absent, idle, leaving, entering, changing, locking, unlocking,
  scanning, waiting, System, set_node_mut,
}

-- Who has the list to itself, who scans it, and who is not in it.
abbrev pub has_list : Pc → Bool
has_list (locking new left) = true
has_list (changing new) = true
has_list (unlocking new left) = true
has_list p = false

abbrev pub is_scan : Pc → Bool
is_scan (scanning epoch left result seen) = true
is_scan (waiting epoch j left result seen) = true
is_scan p = false

abbrev pub is_out : Pc → Bool
is_out absent = true
is_out leaving = true
is_out (entering new) = new
is_out (locking new left) = new
is_out (changing new) = new
is_out (unlocking new left) = not new
is_out p = false

-- What a thread at this place has locked: its own mutex while it makes its node, those of the nodes it has
-- come to in the list, and its own, shared, while it scans.
unfoldable pub Locks : List ℕ → (ℕ → Hold) → ℕ → Pc → Type 0
Locks nodes m i (entering new) = new ≡ true → m i ≡ exclusive
Locks nodes m i (locking new left) =
    (new ≡ true → m i ≡ exclusive)
    × ((j : ℕ) → contains j nodes ≡ true → contains j left ≡ false → m j ≡ exclusive)
Locks nodes m i (changing new) =
    (new ≡ true → m i ≡ exclusive) × ((j : ℕ) → contains j nodes ≡ true → m j ≡ exclusive)
Locks nodes m i (unlocking new left) =
    (is_distinct left ≡ true)
    × ((j : ℕ) → contains j left ≡ true → (m j ≡ exclusive) × (contains j nodes ≡ true))
Locks nodes m i (scanning epoch left result seen) =
    (m i ≡ shared) × ((j : ℕ) → contains j left ≡ true → contains j nodes ≡ true)
Locks nodes m i (waiting epoch j left result seen) =
    (m i ≡ shared) × ((k : ℕ) → contains k (j ∷ left) ≡ true → contains k nodes ≡ true)
Locks nodes m i p = Unit

pub record IsLocked (s : System) : Type 0 where
  pub distinct : is_distinct s.nodes ≡ true
  pub mut : (i : ℕ) → has_list (s.pc i) ≡ true → s.mut ≡ exclusive
  pub owner : (i j : ℕ) → has_list (s.pc i) ≡ true → has_list (s.pc j) ≡ true → i ≡ j
  pub out : (i : ℕ) → is_out (s.pc i) ≡ true → contains i s.nodes ≡ false
  pub locks : (i : ℕ) → Locks s.nodes s.node_mut i (s.pc i)

-- The nodes that a scan has yet to load, with the one that it waits for.
abbrev pub to_load : Pc → List ℕ
to_load (scanning epoch left result seen) = left
to_load (waiting epoch j left result seen) = j ∷ left
to_load p = []

pub to_load-Locks :
    (nodes : List ℕ) (m : ℕ → Hold) (k : ℕ) (p : Pc)
    → Locks nodes m k p
    → (j : ℕ) → contains j (to_load p) ≡ true
    → contains j nodes ≡ true
unfolding Locks
to_load-Locks nodes m k (scanning e l r f) h j i = h.1 j i
to_load-Locks nodes m k (waiting e x l r f) h j i = h.1 j i
to_load-Locks nodes m k absent h j i = absurd (cc)
to_load-Locks nodes m k idle h j i = absurd (cc)
to_load-Locks nodes m k leaving h j i = absurd (cc)
to_load-Locks nodes m k (entering b) h j i = absurd (cc)
to_load-Locks nodes m k (changing b) h j i = absurd (cc)
to_load-Locks nodes m k (locking b l) h j i = absurd (cc)
to_load-Locks nodes m k (unlocking b l) h j i = absurd (cc)

-- Who neither has nor scans the list does not mind a change of it.
pub Locks-elsewhere :
    (nodes nodes' : List ℕ) (m : ℕ → Hold) (k : ℕ) (p : Pc)
    → has_list p ≡ false
    → is_scan p ≡ false
    → Locks nodes m k p
    → Locks nodes' m k p
unfolding Locks
Locks-elsewhere nodes nodes' m k absent l i h = tt
Locks-elsewhere nodes nodes' m k idle l i h = tt
Locks-elsewhere nodes nodes' m k leaving l i h = tt
Locks-elsewhere nodes nodes' m k (entering b) l i h = h
Locks-elsewhere nodes nodes' m k (changing b) l i h = absurd (cc)
Locks-elsewhere nodes nodes' m k (locking b js) l i h = absurd (cc)
Locks-elsewhere nodes nodes' m k (unlocking b js) l i h = absurd (cc)
Locks-elsewhere nodes nodes' m k (scanning e js r f) l i h = absurd (cc)
Locks-elsewhere nodes nodes' m k (waiting e j js r f) l i h = absurd (cc)

pub scan_listed : (p : Pc) → is_scan p ≡ true → is_listed p ≡ true
scan_listed absent i = absurd (cc)
scan_listed idle i = absurd (cc)
scan_listed leaving i = absurd (cc)
scan_listed (entering b) i = absurd (cc)
scan_listed (changing b) i = absurd (cc)
scan_listed (locking b js) i = absurd (cc)
scan_listed (unlocking b js) i = absurd (cc)
scan_listed (scanning e js r f) i = refl
scan_listed (waiting e j js r f) i = refl

-- A mutex that changes hands, where nobody relies on it.
unfoldable pub Unneeded : System → ℕ → Pc → ℕ → Hold → Type 0
Unneeded s k p j h =
    (is_scan p ≡ true → k ≢ j)
    × ((h ≡ exclusive)
        ⊎ ((s.node_mut j ≢ exclusive)
            ⊎ (((k ≢ j) × (contains j s.nodes ≡ false))
                ⊎ ((has_list p ≡ false) × (is_out p ≡ true → k ≢ j)))))

module _ (s : System) (k j : ℕ) (h : Hold) where
  others : (z : ℕ) → z ≢ j → (set_node_mut j h s).node_mut z ≡ s.node_mut z
  others z d = update_ne s.node_mut j z h (λ e. d (sym e))

  -- An exclusive lock that is there after the change.
  pub still :
      (z : ℕ)
      → (h ≡ exclusive) ⊎ ((s.node_mut j ≢ exclusive) ⊎ (z ≢ j))
      → s.node_mut z ≡ exclusive
      → (set_node_mut j h s).node_mut z ≡ exclusive
  still z (inr (inr d)) e = others z d ∙ e
  still z (inr (inl f)) e = others z (λ d. f (ap s.node_mut (sym d) ∙ e)) ∙ e
  still z (inl f) e = elim (Bool-cases (z == j)) [
    | inl d ↦
        let same : j ≡ z = ground arith in
        ap (set_node_mut j h s).node_mut (sym same) ∙ update_self s.node_mut j h ∙ f
    | inr d ↦ others z (ground arith) ∙ e
  ]

  -- The own mutex of `k`, and that of a listed node.
  still_own :
      (p : Pc)
      → is_out p ≡ true
      → Unneeded s k p j h
      → s.node_mut k ≡ exclusive
      → (set_node_mut j h s).node_mut k ≡ exclusive
  unfolding Unneeded
  still_own p o (sc, inl e) = still k (inl e)
  still_own p o (sc, inr (inl f)) = still k (inr (inl f))
  still_own p o (sc, inr (inr (inl (d, f)))) = still k (inr (inr d))
  still_own p o (sc, inr (inr (inr (l, f)))) = still k (inr (inr (f o)))

  still_listed :
      (p : Pc)
      → has_list p ≡ true
      → Unneeded s k p j h
      → (z : ℕ) → contains z s.nodes ≡ true
      → s.node_mut z ≡ exclusive
      → (set_node_mut j h s).node_mut z ≡ exclusive
  unfolding Unneeded
  still_listed p l (sc, inl e) z c = still z (inl e)
  still_listed p l (sc, inr (inl f)) z c = still z (inr (inl f))
  still_listed p l (sc, inr (inr (inl (d, f)))) z c = still z (
      inr (
        inr (λ e.
          let there : contains j s.nodes ≡ true = ap (λ y. contains y s.nodes) (sym e) ∙ c in
          absurd (ground (arith, there, f)))))
  still_listed p l (sc, inr (inr (inr (f, o)))) z c = absurd (ground (arith, l, f))

  pub Locks-set :
      (p : Pc)
      → Unneeded s k p j h
      → Locks s.nodes s.node_mut k p
      → Locks s.nodes (update s.node_mut j h) k p
  unfolding Locks Unneeded
  Locks-set (entering new) u own = λ e. still_own (entering new) e u (own e)
  Locks-set (locking new left) u (own, held) = (
    λ e. still_own (locking new left) e u (own e),
    λ z c d. still_listed (locking new left) refl u z c (held z c d),
  )
  Locks-set (changing new) u (own, held) = (
    λ e. still_own (changing new) e u (own e),
    λ z c. still_listed (changing new) refl u z c (held z c),
  )
  Locks-set (unlocking new left) u (dis, held) =
      (dis, λ z c. let (e, l) = held z c in (still_listed (unlocking new left) refl u z l e, l))
  Locks-set (scanning epoch left result seen) u (own, rest) = (others k (u.0 refl) ∙ own, rest)
  Locks-set (waiting epoch i left result seen) u (own, rest) = (others k (u.0 refl) ∙ own, rest)
  Locks-set absent u l = tt
  Locks-set idle u l = tt
  Locks-set leaving u l = tt
