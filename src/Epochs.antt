-- ===== src/Epochs.antt =====
-- `thread_synchronization_node` (include/lstm/detail/thread_synchronization.hpp), in small steps of many
-- threads: one step for each lock of a mutex, and for each load or store of an epoch. A schedule says
-- which thread moves and what an idle one calls. The mutexes are taken by what they promise: an
-- exclusive lock waits for a free one, a shared lock for one that is not exclusive. A thread is a
-- number, and so is its node.
pub mod Grace
pub mod Steps
pub mod Alive
pub mod Owners
pub mod Removal
pub mod Listing
pub mod Locking
use lockfree_stm.Common.{
  ℕ, zero, suc, ◌+◌, Bool, true, false, not, ◌&&◌, List, [], ◌∷◌, ◌++◌, leb, ltb, ◌==◌,
  if◌then◌else◌,
}
use lockfree_stm.Common.Update.{update}
use lockfree_stm.Common.Distinct.{contains}
use lockfree_stm.Machine.{off_state}
use lockfree_stm.PodVector.{move_back}

pub data Hold : Type 0 where
  unlocked shared exclusive : Hold

abbrev pub is_free : Hold → Bool
is_free unlocked = true
is_free h = false

abbrev pub is_shareable : Hold → Bool
is_shareable exclusive = false
is_shareable h = true

-- Where a thread stands. The constructor (`true`) and the destructor (`false`) of a node lock the list
-- and every node in it, change the list, and unlock. `scanning` and `waiting` are the loops of
-- `wait_min_epoch` and `wait_on_epoch`, with the epoch, the nodes that are left, and the result so far.
-- They remember the number of sections that each thread had begun when the call began.
pub data Pc : Type 0 where
  absent idle leaving : Pc
  entering changing : Bool → Pc
  locking unlocking : Bool → List ℕ → Pc
  scanning : ℕ → List ℕ → ℕ → (ℕ → ℕ) → Pc
  waiting : ℕ → ℕ → List ℕ → ℕ → (ℕ → ℕ) → Pc

pub data Call : Type 0 where
  construct destroy access_unlock : Call
  access_lock access_relock synchronize_min_epoch : ℕ → Call

-- `sections` counts the sections that a thread has begun, a relocked one as a new one.
pub record System : Type 0 where
  pub mut : Hold
  pub nodes : List ℕ
  pub node_mut : ℕ → Hold
  pub active : ℕ → ℕ
  pub sections : ℕ → ℕ
  pub pc : ℕ → Pc

abbrev pub goto : ℕ → Pc → System → System
goto i p s = record s { pc = update s.pc i p }

abbrev pub set_node_mut : ℕ → Hold → System → System
set_node_mut i h s = record s { node_mut = update s.node_mut i h }

abbrev pub in_critical_section : ℕ → System → Bool
in_critical_section i s = not (s.active i == off_state)

-- A section of `i` at this epoch.
abbrev pub begin : ℕ → ℕ → System → System
begin i epoch s = record s {
  active = update s.active i epoch;
  sections = update s.sections i (s.sections i + 1);
}

-- The loop of the destructor: the node goes, the last of the list comes in its place.
unfoldable pub index_of : ℕ → List ℕ → ℕ
index_of i [] = 0
index_of i (x ∷ xs) = let rest = index_of i xs in if x == i then 0 else suc rest

unfoldable pub changed : Bool → ℕ → List ℕ → List ℕ
changed true i nodes = nodes ++ i ∷ []
changed false i nodes = if contains i nodes then move_back nodes (index_of i nodes) else nodes

-- What an idle thread calls. Where an assertion of the call fails, there is no such step. An epoch is a
-- word, so one that is not the off state is below it.
unfoldable pub call : Call → ℕ → System → System
call construct i s = s
call destroy i s = if in_critical_section i s then s else goto i (entering false) s
call access_unlock i s =
    if in_critical_section i s then record s { active = update s.active i off_state } else s
call (access_lock epoch) i s =
    if in_critical_section i s then s else if ltb epoch off_state then begin i epoch s else s
call (access_relock epoch) i s =
    if not (in_critical_section i s)
    then s
    else if ltb epoch off_state && leb (s.active i) epoch
    then begin i epoch s
    else s
call (synchronize_min_epoch epoch) i s =
    if in_critical_section i s
    then s
    else if ltb epoch off_state && is_shareable (s.node_mut i)
    then goto i (scanning epoch s.nodes off_state s.sections) (set_node_mut i shared s)
    else s

-- One step of the thread `i` at its place.
unfoldable pub step : Call → ℕ → Pc → System → System
step construct i absent s =
    if is_free (s.node_mut i)
    then goto i (entering true)
        (record (set_node_mut i exclusive s) { active = update s.active i off_state })
    else s
step c i absent s = s
step c i idle s = call c i s
step c i (entering new) s =
    if is_free s.mut then goto i (locking new s.nodes) (record s { mut = exclusive }) else s
step c i (locking new []) s = goto i (changing new) s
step c i (locking new (j ∷ js)) s =
    if is_free (s.node_mut j) then goto i (locking new js) (set_node_mut j exclusive s) else s
step c i (changing new) s =
    let nodes = changed new i s.nodes in goto i (unlocking new nodes) (record s { nodes = nodes })
step c i (unlocking new (j ∷ js)) s = goto i (unlocking new js) (set_node_mut j unlocked s)
step c i (unlocking new []) s = goto i (if new then idle else leaving) (record s { mut = unlocked })
step c i leaving s = goto i absent (set_node_mut i unlocked s)
step c i (scanning epoch [] result seen) s = goto i idle (set_node_mut i unlocked s)
step c i (scanning epoch (j ∷ js) result seen) s =
    let td_epoch = s.active j in
    if leb td_epoch epoch
    then goto i (waiting epoch j js result seen) s
    else goto i (scanning epoch js (if ltb td_epoch result then td_epoch else result) seen) s
step c i (waiting epoch j js result seen) s =
    if leb (s.active j) epoch then s else goto i (scanning epoch js result seen) s

-- A schedule from the empty list of nodes.
unfoldable pub run : List (ℕ × Call) → System → System
run [] s = s
run ((i, c) ∷ rest) s = run rest (step c i (s.pc i) s)

abbrev pub start : System
start = record {
  mut = unlocked;
  nodes = [];
  node_mut = λ i. unlocked;
  active = λ i. off_state;
  sections = λ i. 0;
  pc = λ i. absent;
}
