-- ===== src/PrivatizedFuture.antt =====
-- include/lstm/privatized_future.hpp: a value or an exception that a callback stores after a grace
-- period. `debug` says whether assertions are compiled; one that fails ends the program, and an
-- operation whose assertions hold gives `some`.
use lockfree_stm.Common.{
  ℕ, ◌≡◌, Bool, true, false, not, ◌&&◌, Option, none, some, if◌then◌else◌, and_then, arith,
  Bool-cases, inl, inr,
}

-- The union of the value and the exception. `exc none` is an exception_ptr that points to none.
pub data Data (T : Type 0) : Type 0 where
  nothing : Data T
  t : T → Data T
  exc : Option ℕ → Data T

pub record FutureData (T : Type 0) : Type 0 where
  pub underlying : Data T
  pub has_exception : Bool
  pub is_ready : Bool
  pub abandoned : Bool

-- `LSTM_ASSERT`
abbrev pub assert {ℓ} : {A : Type ℓ} → Bool → Bool → Option A → Option A
assert debug b next = if debug && not b then none else next

module _ {T : Type 0} where
  unfoldable pub new : FutureData T
  new = record { underlying = nothing; has_exception = false; is_ready = false; abandoned = false }

  unfoldable pub has_exception : Bool → FutureData T → Option Bool
  has_exception debug d = assert debug d.is_ready (some d.has_exception)

  unfoldable pub set_has_exception : Bool → FutureData T → Option (FutureData T)
  set_has_exception debug d =
      and_then (has_exception debug d)
        λ h. assert debug (not h) (some (record d { has_exception = true }))

  unfoldable pub set_is_ready : Bool → FutureData T → Option (FutureData T)
  set_is_ready debug d = assert debug (not d.is_ready) (some (record d { is_ready = true }))

  unfoldable pub abandon : Bool → FutureData T → Option (FutureData T)
  abandon debug d =
      assert debug (not d.is_ready)
        (assert debug (not d.abandoned) (some (record d { abandoned = true })))

  -- The assertions with which both setters begin.
  unfoldable pub settable : Bool → FutureData T → Option (FutureData T)
  settable debug d = assert debug (not d.abandoned) (
      assert debug (not d.is_ready)
        (and_then (has_exception debug d) λ h. assert debug (not h) (some d)))

  unfoldable pub set_value : Bool → T → FutureData T → Option (FutureData T)
  set_value debug in_t d = and_then (settable debug d) λ d₁.
      and_then (set_is_ready debug (record d₁ { underlying = t in_t }))
        λ d₂. assert debug d₂.is_ready (some d₂)

  unfoldable pub set_exception : Bool → Option ℕ → FutureData T → Option (FutureData T)
  set_exception debug in_exc d = and_then (settable debug d) λ d₁.
      and_then (set_has_exception debug (record d₁ { underlying = exc in_exc }))
        λ d₂. and_then (set_is_ready debug d₂) λ d₃. assert debug d₃.is_ready (some d₃)

-- `get` returns the value or throws the exception.
pub data Got (T : Type 0) : Type 0 where
  returned : T → Got T
  thrown : ℕ → Got T
  garbage : Got T

module _ {T : Type 0} where
  -- The exception or the value in the union, `garbage` where the union holds the other, or where there is
  -- no exception to throw.
  unfoldable pub read_value : Bool → Data T → Got T
  read_value true (exc (some e)) = thrown e
  read_value false (t x) = returned x
  read_value b d = garbage

  -- `std::move(underlying().exc)`, the argument of `std::rethrow_exception`, which is passed by value.
  unfoldable pub moved_out : Bool → Data T → Data T
  moved_out true (exc e) = exc none
  moved_out b d = d

  -- The member of the union that a destructor runs on, `nothing` where the union holds the other.
  abbrev member : Bool → Data T → Data T
  member true (exc e) = exc e
  member false (t x) = t x
  member b d = nothing

  -- What the destructor of the data destroys, if anything.
  unfoldable pub destroyed : FutureData T → Option (Data T)
  destroyed d = if d.is_ready then some (member d.has_exception d.underlying) else none

-- `reclaim` is what `thread_data::reclaim_at` does to the data: to run the callback that it waits for.
module _ {T : Type 0} (reclaim : FutureData T → FutureData T) where
  unfoldable pub wait : FutureData T → FutureData T
  wait d = if d.is_ready then d else reclaim d

  unfoldable pub get : Bool → FutureData T → Option (Got T × FutureData T)
  get debug d =
      let d' = wait d in
      assert debug d'.is_ready (
        and_then (has_exception debug d') λ h.
          some (read_value h d'.underlying, record d' { underlying = moved_out h d'.underlying }))

  -- `privatized_future`: the data while it is owned. Its destructor leaves data that is not ready to the
  -- callback.
  unfoldable pub destroy : Bool → Option (FutureData T) → Option (Option (FutureData T))
  destroy debug none = some none
  destroy debug (some d) =
      if not d.is_ready then and_then (abandon debug d) (λ a. some (some a)) else some none

module _ {T : Type 0} where
  -- With assertions compiled, neither setter ever gets past its assertions.
  pub set-asserts :
      (d : FutureData T) (x : T) (e : Option ℕ)
      → (set_value true x d ≡ none) × (set_exception true e d ≡ none)
  unfolding set_value set_exception settable has_exception
  set-asserts d x e = elim (Bool-cases d.is_ready) [
    | inl r ↦ ground (arith, r)
    | inr r ↦ ground (arith, r)
  ]
