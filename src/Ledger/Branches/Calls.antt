-- ===== src/Ledger/Branches/Calls.antt =====
-- About the calls on the branch slots of lib/private/peer-ledger.js, one by one.
use hyperdht.Prelude.{ℕ, true, false, not, [], ◌∷◌, length, ltb, leb, arith}
use hyperdht.Errors.{
  Result, ok, err, invalid_route, quota_exceeded, Ensures, test-Ensures, first-Ensures,
  bind-Ensures,
}
use hyperdht.Values.{Value}
use hyperdht.Ledger.{Exact, properties, check_u32}
use hyperdht.Ledger.Accounts.Balance.{require-Ensures}
use hyperdht.Ledger.Budget.{require}
use hyperdht.Ledger.Branches.Kept.{
  more, marked, add_pool-IsSound, add_authority-IsSound, deferred-IsSound, revoke_all-IsSound,
}
use hyperdht.Ledger.Branches.Live.{has_high}
use hyperdht.Ledger.Branches.Sound.{IsSound, retire-IsSoundBut}
use hyperdht.Ledger.Branches.{
  Slots, BranchRows, set_pool, add_roots, read_plan, branch_kinds, create_peer_branch_slots,
  take_peer_branch_authority, defer_peer_branch_authority_join, release_peer_branch_authority,
  close_peer_branch_slots,
}

abbrev pub Keeps : {A : Type 0} → Result (A × Slots) → Type 0
Keeps = Ensures (λ r. IsSound r.1)

pub create_peer_branch_slots-Keeps :
    (v : Value) (s : Slots) → IsSound s → Keeps (create_peer_branch_slots v s)
unfolding create_peer_branch_slots
create_peer_branch_slots-Keeps v s h =
    bind-Ensures (λ r. IsSound r.1) (check_u32 v) _
      λ n. bind-Ensures (λ r. IsSound r.1) (require (not (ltb n 1))) _ λ _. add_pool-IsSound n s h

pub take_peer_branch_authority-Keeps :
    (p : ℕ) (given : Exact BranchRows) (s : Slots)
    → IsSound s
    → Keeps (take_peer_branch_authority p given s)
unfolding take_peer_branch_authority
take_peer_branch_authority-Keeps p given s h =
    let pool = s.pools p in
    first-Ensures (λ r. IsSound r.1) (ltb p s.next_pool) pool _
      λ known.
        bind-Ensures (λ r. IsSound r.1) (properties given) _
          λ rows.
            bind-Ensures (λ r. IsSound r.1) (read_plan rows branch_kinds) _
              λ plan.
                require-Ensures (λ r. IsSound r.1) (not pool.closed) _
                  λ live.
                    test-Ensures (λ r. IsSound r.1) (leb pool.capacity (length pool.live))
                      (err quota_exceeded) _ (λ _. tt)
                      λ room.
                        let roots = add_roots plan s.ledgers in
                        add_authority-IsSound p roots.0 roots.1 s (ground (arith, known))
                          (ground (arith, live)) (ground (arith, room)) h

pub defer_peer_branch_authority_join-Keeps :
    (a : ℕ) (s : Slots) → IsSound s → Keeps (defer_peer_branch_authority_join a s)
unfolding defer_peer_branch_authority_join
defer_peer_branch_authority_join-Keeps a s h =
    let state = s.authorities a in
    first-Ensures (λ r. IsSound r.1) (ltb a s.next_authority) state _
      λ known.
        test-Ensures (λ r. IsSound r.1) state.released (err invalid_route) _ (λ _. tt)
          λ _.
            test-Ensures (λ r. IsSound r.1) state.join_deferred (ok (false, s)) _ (λ _. h)
              λ _. deferred-IsSound a s (ground (arith, known)) h

pub release_peer_branch_authority-Keeps :
    (a : ℕ) (s : Slots) → IsSound s → Keeps (release_peer_branch_authority a s)
unfolding release_peer_branch_authority
release_peer_branch_authority-Keeps a s h =
    let state = s.authorities a in
    first-Ensures (λ r. IsSound r.1) (ltb a s.next_authority) state _
      λ known.
        test-Ensures (λ r. IsSound r.1) state.released (ok (false, s)) _ (λ _. h)
          λ live. retire-IsSoundBut a [] s (ground (arith, known)) live (more (a ∷ []) s h)

pub close_peer_branch_slots-Keeps :
    (p : ℕ) (s : Slots) → IsSound s → Keeps (close_peer_branch_slots p s)
unfolding close_peer_branch_slots
close_peer_branch_slots-Keeps p s h =
    let pool = s.pools p in
    first-Ensures (λ r. IsSound r.1) (ltb p s.next_pool) pool _
      λ known.
        test-Ensures (λ r. IsSound r.1) pool.closed (ok (false, s)) _ (λ _. h)
          λ _.
            revoke_all-IsSound pool.live (set_pool s p (record pool { closed = true }))
              (λ b live.
                has_high b 0 s.next_authority pool.live
                  (h.pool_sound p (ground (arith, known))).ascending live)
              (marked p s (ground (arith, known)) h)
