-- ===== src/ThreadData/Epoch.antt =====
-- The least epoch that a reclaiming thread finds among the running sections.
use lockfree_stm.Common.{
  ℕ, zero, suc, ◌<◌, ◌≤◌, ◌≡◌, List, [], ◌∷◌, some, arith, get_elem?, leb, ltb, if◌then◌else◌,
}
use lockfree_stm.Machine.{off_state}
use lockfree_stm.ThreadData.{wait_min_epoch, synchronize_min_epoch}

abbrev next : ℕ → ℕ → ℕ → ℕ
next epoch e result = if leb e epoch then result else if ltb e result then e else result

wait_min_epoch-le : (epoch : ℕ) (es : List ℕ) (result : ℕ) → wait_min_epoch epoch es result ≤ result
unfolding wait_min_epoch
wait_min_epoch-le epoch [] result = omega arith
wait_min_epoch-le epoch (e ∷ es) result =
    ground (arith, wait_min_epoch-le epoch es (next epoch e result))

wait_min_epoch-at :
    (epoch : ℕ) (es : List ℕ) (result i e : ℕ)
    → get_elem? es i ≡ some e
    → epoch < e
    → wait_min_epoch epoch es result ≤ e
unfolding wait_min_epoch
wait_min_epoch-at epoch [] result i e h l = absurd (cc)
wait_min_epoch-at epoch (d ∷ es) result zero e h l =
    ground (arith, h, l, wait_min_epoch-le epoch es (next epoch d result))
wait_min_epoch-at epoch (d ∷ es) result (suc i) e h l =
    wait_min_epoch-at epoch es (next epoch d result) i e h l

wait_min_epoch-past :
    (epoch : ℕ) (es : List ℕ) (result : ℕ) → epoch < result → epoch < wait_min_epoch epoch es result
unfolding wait_min_epoch
wait_min_epoch-past epoch [] result h = h
wait_min_epoch-past epoch (e ∷ es) result h =
    wait_min_epoch-past epoch es (next epoch e result) (ground (arith, h))

-- The epoch that synchronising on `epoch`, below the off state, gives lies past `epoch`, and is at
-- most that of every section found running past `epoch`.
pub synchronize_min_epoch-bounds :
    (epoch : ℕ) (loaded : List ℕ)
    → epoch < off_state
    → (epoch < synchronize_min_epoch epoch loaded)
      × ((i e : ℕ)
          → get_elem? loaded i ≡ some e
          → epoch < e
          → synchronize_min_epoch epoch loaded ≤ e)
unfolding synchronize_min_epoch
synchronize_min_epoch-bounds epoch loaded h = (
  wait_min_epoch-past epoch loaded off_state h,
  λ i e q l. wait_min_epoch-at epoch loaded off_state i e q l,
)
