-- ===== src/Ledger/Branches/Run.antt =====
-- About whole histories of calls on the branch slots of lib/private/peer-ledger.js.
use hyperdht.Prelude.{ℕ, List, [], ◌∷◌}
use hyperdht.Errors.{Result, ok, err, ◌>>=◌}
use hyperdht.Values.{Value}
use hyperdht.Ledger.{Exact}
use hyperdht.Ledger.Accounts.{
  Store, Request, reserve_peer_ledger, charge_peer_ledger, release_peer_ledger,
}
use hyperdht.Ledger.Branches.Sound.{IsSound}
use hyperdht.Ledger.Branches.Calls.{
  Keeps, create_peer_branch_slots-Keeps, take_peer_branch_authority-Keeps,
  defer_peer_branch_authority_join-Keeps, release_peer_branch_authority-Keeps,
  close_peer_branch_slots-Keeps,
}
use hyperdht.Ledger.Branches.{
  Slots, BranchRows, create_peer_branch_slots, take_peer_branch_authority,
  defer_peer_branch_authority_join, release_peer_branch_authority, close_peer_branch_slots,
}

-- The calls on pools and branches, and those that a branch makes on its ledgers.
pub data Call : Type 0 where
  create : Value → Call
  take : ℕ → Exact BranchRows → Call
  defer : ℕ → Call
  release : ℕ → Call
  close : ℕ → Call
  reserve_ledger : ℕ → Exact Request → Call
  charge_ledger : ℕ → Exact Request → Call
  release_ledger : ℕ → Call

-- What a call leaves: its own state, or the state before it where it throws.
abbrev pub left {ℓ} : {A : Type ℓ} → Slots → Result (A × Slots) → Slots
left s (ok (a, t)) = t
left s (err e) = s

abbrev pub with_ledgers : Slots → Store → Slots
with_ledgers s ledgers = record s { ledgers = ledgers }

abbrev pub left_ledgers : Slots → Result Store → Slots
left_ledgers s (ok ledgers) = with_ledgers s ledgers
left_ledgers s (err e) = s

abbrev pub call : Call → Slots → Slots
call (create v) s = left s (create_peer_branch_slots v s)
call (take p rows) s = left s (take_peer_branch_authority p rows s)
call (defer a) s = left s (defer_peer_branch_authority_join a s)
call (release a) s = left s (release_peer_branch_authority a s)
call (close p) s = left s (close_peer_branch_slots p s)
call (reserve_ledger h given) s =
    left_ledgers s (reserve_peer_ledger h given s.ledgers >>= λ r. ok r.1)
call (charge_ledger h given) s = left_ledgers s (charge_peer_ledger h given s.ledgers)
call (release_ledger h) s = left_ledgers s (release_peer_ledger h s.ledgers >>= λ r. ok r.1)

unfoldable pub run : List Call → Slots → Slots
run [] s = s
run (c ∷ rest) s = run rest (call c s)

left-IsSound :
    {A : Type 0} (s : Slots) (r : Result (A × Slots)) → IsSound s → Keeps r → IsSound (left s r)
left-IsSound s (ok (a, t)) h k = k
left-IsSound s (err e) h k = h

-- The pools do not read the ledgers.
left_ledgers-IsSound : (s : Slots) (r : Result Store) → IsSound s → IsSound (left_ledgers s r)
left_ledgers-IsSound s (ok ledgers) h = record {
  pool_sound = h.pool_sound;
  drained = h.drained;
  placed = h.placed;
}
left_ledgers-IsSound s (err e) h = h

pub call-IsSound : (c : Call) (s : Slots) → IsSound s → IsSound (call c s)
call-IsSound (create v) s h = left-IsSound s _ h (create_peer_branch_slots-Keeps v s h)
call-IsSound (take p rows) s h = left-IsSound s _ h (take_peer_branch_authority-Keeps p rows s h)
call-IsSound (defer a) s h = left-IsSound s _ h (defer_peer_branch_authority_join-Keeps a s h)
call-IsSound (release a) s h = left-IsSound s _ h (release_peer_branch_authority-Keeps a s h)
call-IsSound (close p) s h = left-IsSound s _ h (close_peer_branch_slots-Keeps p s h)
call-IsSound (reserve_ledger r given) s h =
    left_ledgers-IsSound s (reserve_peer_ledger r given s.ledgers >>= λ x. ok x.1) h
call-IsSound (charge_ledger r given) s h =
    left_ledgers-IsSound s (charge_peer_ledger r given s.ledgers) h
call-IsSound (release_ledger r) s h =
    left_ledgers-IsSound s (release_peer_ledger r s.ledgers >>= λ x. ok x.1) h

-- For every sound state and every sequence of calls on pools, branches and ledgers, refused calls
-- included: the state after them is sound. Every pool has at most its capacity of live branches, each
-- once, its own and not released; each branch that is not released is live in its pool; and a pool
-- that is closed has only branches with a deferred join.
pub run-IsSound : (calls : List Call) (s : Slots) → IsSound s → IsSound (run calls s)
unfolding run
run-IsSound [] s h = h
run-IsSound (c ∷ rest) s h = run-IsSound rest (call c s) (call-IsSound c s h)
