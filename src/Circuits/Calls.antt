-- ===== src/Circuits/Calls.antt =====
-- lib/private/private-peer-controller.js: the calls of the class `CircuitCreditPool`, one after the
-- other.
use hyperdht.Prelude.{ℕ, Bool, List, [], ◌∷◌}
use hyperdht.Circuits.{
  Pool, Outcome, done, add, cancel, touch, destroy, Nested, demand, sent, returned, release, remove,
  idle_fires,
}

-- The calls that arrive at a pool, each with the time and with what `onGrant` does.
pub data Call : Type 0 where
  adds : ℕ → Call
  demands : ℕ → (List (ℕ × ℕ) → List Nested) → ℕ → ℕ → Bool → Call
  sends : ℕ → ℕ → ℕ → Call
  touches_now : ℕ → ℕ → Call
  returns : ℕ → (List (ℕ × ℕ) → List Nested) → ℕ → Call
  releases_now : ℕ → (List (ℕ × ℕ) → List Nested) → ℕ → ℕ → Call
  cancels_now : ℕ → Call
  removes_now : ℕ → (List (ℕ × ℕ) → List Nested) → ℕ → Call
  idles : ℕ → ℕ → Bool → Call
  destroys_now : Call

unfoldable pub step : Call → Pool → Outcome
unfolding add cancel touch destroy demand sent returned release remove idle_fires
step (adds owner) p = add owner p
step (demands now reacts owner amount limited) p = demand now reacts owner amount limited p
step (sends now owner amount) p = sent now owner amount p
step (touches_now now owner) p = done (touch now owner p)
step (returns now reacts amount) p = returned now reacts amount p
step (releases_now now reacts owner amount) p = release now reacts owner amount p
step (cancels_now owner) p = done (cancel owner p)
step (removes_now now reacts owner) p = remove now reacts owner p
step (idles now owner buffered) p = done (idle_fires now owner buffered p)
step destroys_now p = done (destroy p)

-- Calls one after the other; a throw ends one call only.
unfoldable pub play : List Call → Pool → Pool
unfolding step
play [] p = p
play (c ∷ rest) p = play rest (step c p).pool
