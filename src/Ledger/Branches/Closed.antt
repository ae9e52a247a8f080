-- ===== src/Ledger/Branches/Closed.antt =====
-- About a pool of lib/private/peer-ledger.js after `closePeerBranchSlots`.
use hyperdht.Prelude.{
  ℕ, ◌<◌, ◌≡◌, refl, Bool, true, false, not, ◌||◌, List, [], ◌∷◌, length, leb, ltb, arith,
  Bool-cases, inl, inr, ap, transport,
}
use hyperdht.Errors.{
  Result-cases, first-Ensures, test-Ensures, Error, Result, ok, err, invalid_route, quota_exceeded,
  ◌>>=◌, Ensures, bind-Ensures, ensured,
}
use hyperdht.Values.{Value}
use hyperdht.Ledger.{Exact, properties, check_u32}
use hyperdht.Ledger.Budget.{require}
use hyperdht.Ledger.Accounts.{Store, reserve_peer_ledger, charge_peer_ledger, release_peer_ledger}
use hyperdht.Ledger.Accounts.Balance.{require-Ensures}
use hyperdht.Ledger.Branches.{
  Pool, Slots, BranchRows, set_pool, enter, read_plan, branch_kinds, leave, retire_roots, retire,
  revoke, revoke_all, create_peer_branch_slots, take_peer_branch_authority,
  defer_peer_branch_authority_join, release_peer_branch_authority, close_peer_branch_slots,
}
use hyperdht.Ledger.Branches.Sound.{set_pool_lem}
use hyperdht.Ledger.Branches.Run.{
  Call, create, take, defer, release, close, reserve_ledger, charge_ledger, release_ledger, left,
  left_ledgers, call, run,
}

abbrev IsClosed : ℕ → Slots → Type 0
IsClosed p s = (p < s.next_pool) × ((s.pools p).closed ≡ true)

-- A pool stays closed where a call sets another pool, or leaves it closed.
set_pool-closed :
    (p q : ℕ) (s : Slots) (new : Pool)
    → ((s.pools q).closed ≡ true → new.closed ≡ true)
    → (s.pools p).closed ≡ true
    → ((set_pool s q new).pools p).closed ≡ true
set_pool-closed p q s new stays h =
    set_pool_lem (λ k pool. (s.pools k).closed ≡ true → pool.closed ≡ true) s q p new stays
      (λ _ e. e) h

retire-IsClosed : (p a : ℕ) (s : Slots) → IsClosed p s → IsClosed p (retire a s)
retire-IsClosed p a s h =
    let home = (s.authorities a).pool in
    let gone = retire_roots (s.authorities a).roots (s.pools home).retired_spent s.ledgers in
    (h.0, set_pool-closed p home s (leave (s.pools home) a gone.0) (λ e. e) h.1)

revoke-IsClosed : (p a : ℕ) (s : Slots) → IsClosed p s → IsClosed p (revoke a s)
revoke-IsClosed p a s h =
    elim (Bool-cases ((s.authorities a).join_deferred || (s.authorities a).released)) [
      | inl e ↦ let same : s ≡ revoke a s = ground (arith, e) in transport (ap (IsClosed p) same) h
      | inr e ↦
          let same : retire a s ≡ revoke a s = ground (arith, e) in
          transport (ap (IsClosed p) same) (retire-IsClosed p a s h)
    ]

revoke_all-IsClosed :
    (p : ℕ) (pending : List ℕ) (s : Slots) → IsClosed p s → IsClosed p (revoke_all pending s)
unfolding revoke_all
revoke_all-IsClosed p [] s h = h
revoke_all-IsClosed p (a ∷ rest) s h =
    revoke_all-IsClosed p rest (revoke a s) (revoke-IsClosed p a s h)

abbrev StaysClosed : {A : Type 0} → ℕ → Result (A × Slots) → Type 0
StaysClosed p = Ensures (λ r. IsClosed p r.1)

create-StaysClosed :
    (p : ℕ) (v : Value) (s : Slots) → IsClosed p s → StaysClosed p (create_peer_branch_slots v s)
unfolding create_peer_branch_slots
create-StaysClosed p v s h =
    bind-Ensures (λ r. IsClosed p r.1) (check_u32 v) _
      λ n.
        bind-Ensures (λ r. IsClosed p r.1) (require (not (ltb n 1))) _
          λ _. (omega (arith, h.0), ground (arith, h))

take-StaysClosed :
    (p q : ℕ) (given : Exact BranchRows) (s : Slots)
    → IsClosed p s
    → StaysClosed p (take_peer_branch_authority q given s)
unfolding take_peer_branch_authority
take-StaysClosed p q given s h =
    let P = λ (r : ℕ × Slots). IsClosed p r.1 in
    let pool = s.pools q in
    first-Ensures P (ltb q s.next_pool) pool _ λ known. bind-Ensures P (properties given) _ λ rows.
      bind-Ensures P (read_plan rows branch_kinds) _ λ plan.
        require-Ensures P (not pool.closed) _ λ _.
          test-Ensures P (leb pool.capacity (length pool.live)) (err quota_exceeded) _ (λ _. tt)
            λ _. (h.0, set_pool-closed p q s (enter pool s.next_authority) (λ e. e) h.1)

defer-StaysClosed :
    (p a : ℕ) (s : Slots) → IsClosed p s → StaysClosed p (defer_peer_branch_authority_join a s)
unfolding defer_peer_branch_authority_join
defer-StaysClosed p a s h =
    let P = λ (r : Bool × Slots). IsClosed p r.1 in
    let state = s.authorities a in
    first-Ensures P (ltb a s.next_authority) state _ λ known.
      test-Ensures P state.released (err invalid_route) _ (λ _. tt)
        λ _. test-Ensures P state.join_deferred (ok (false, s)) _ (λ _. h) λ _. h

release-StaysClosed :
    (p a : ℕ) (s : Slots) → IsClosed p s → StaysClosed p (release_peer_branch_authority a s)
unfolding release_peer_branch_authority
release-StaysClosed p a s h =
    let P = λ (r : Bool × Slots). IsClosed p r.1 in
    let state = s.authorities a in
    first-Ensures P (ltb a s.next_authority) state _
      λ known. test-Ensures P state.released (ok (false, s)) _ (λ _. h) λ _. retire-IsClosed p a s h

-- Whichever pool is closed, p stays closed.
close-StaysClosed :
    (p q : ℕ) (s : Slots) → IsClosed p s → StaysClosed p (close_peer_branch_slots q s)
unfolding close_peer_branch_slots
close-StaysClosed p q s h =
    let P = λ (r : Bool × Slots). IsClosed p r.1 in
    let pool = s.pools q in
    let shut = record pool { closed = true } in
    first-Ensures P (ltb q s.next_pool) pool _ λ known.
      test-Ensures P pool.closed (ok (false, s)) _ (λ _. h)
        λ _.
          revoke_all-IsClosed p pool.live (set_pool s q shut)
            (h.0, set_pool-closed p q s shut (λ _. refl) h.1)

left-IsClosed :
    {A : Type 0} (p : ℕ) (s : Slots) (r : Result (A × Slots))
    → IsClosed p s
    → StaysClosed p r
    → IsClosed p (left s r)
left-IsClosed p s (ok (a, t)) h k = k
left-IsClosed p s (err e) h k = h

left_ledgers-IsClosed :
    (p : ℕ) (s : Slots) (r : Result Store) → IsClosed p s → IsClosed p (left_ledgers s r)
left_ledgers-IsClosed p s (ok ledgers) h = h
left_ledgers-IsClosed p s (err e) h = h

call-IsClosed : (p : ℕ) (c : Call) (s : Slots) → IsClosed p s → IsClosed p (call c s)
call-IsClosed p (create v) s h = left-IsClosed p s _ h (create-StaysClosed p v s h)
call-IsClosed p (take q rows) s h = left-IsClosed p s _ h (take-StaysClosed p q rows s h)
call-IsClosed p (defer a) s h = left-IsClosed p s _ h (defer-StaysClosed p a s h)
call-IsClosed p (release a) s h = left-IsClosed p s _ h (release-StaysClosed p a s h)
call-IsClosed p (close q) s h = left-IsClosed p s _ h (close-StaysClosed p q s h)
call-IsClosed p (reserve_ledger r given) s h =
    left_ledgers-IsClosed p s (reserve_peer_ledger r given s.ledgers >>= λ x. ok x.1) h
call-IsClosed p (charge_ledger r given) s h =
    left_ledgers-IsClosed p s (charge_peer_ledger r given s.ledgers) h
call-IsClosed p (release_ledger r) s h =
    left_ledgers-IsClosed p s (release_peer_ledger r s.ledgers >>= λ x. ok x.1) h

run-IsClosed : (p : ℕ) (calls : List Call) (s : Slots) → IsClosed p s → IsClosed p (run calls s)
unfolding run
run-IsClosed p [] s h = h
run-IsClosed p (c ∷ rest) s h = run-IsClosed p rest (call c s) (call-IsClosed p c s h)

-- The call that closes.
closes : (p : ℕ) (s : Slots) → StaysClosed p (close_peer_branch_slots p s)
unfolding close_peer_branch_slots
closes p s =
    let P = λ (r : Bool × Slots). IsClosed p r.1 in
    let pool = s.pools p in
    let shut = record pool { closed = true } in
    first-Ensures P (ltb p s.next_pool) pool _ λ known.
      test-Ensures P pool.closed (ok (false, s)) _ (λ e. (ground (arith, known), e))
        λ _.
          revoke_all-IsClosed p pool.live (set_pool s p shut) (ground (arith, known), ground arith)

never :
    (p : ℕ) (given : Exact BranchRows) (s : Slots)
    → IsClosed p s
    → Ensures (λ r. false ≡ true) (take_peer_branch_authority p given s)
unfolding take_peer_branch_authority
never p given s h =
    let P = λ (r : ℕ × Slots). false ≡ true in
    let pool = s.pools p in
    first-Ensures P (ltb p s.next_pool) pool _ λ known. bind-Ensures P (properties given) _ λ rows.
      bind-Ensures P (read_plan rows branch_kinds) _
        λ plan. require-Ensures P (not pool.closed) _ λ open_. absurd (ground (arith, open_, h))

refused :
    (p : ℕ) (given : Exact BranchRows) (s : Slots)
    → IsClosed p s
    → (e : Error) × (take_peer_branch_authority p given s ≡ err e)
refused p given s h = elim (Result-cases (take_peer_branch_authority p given s)) [
  | inl (r, e) ↦ absurd (
      ground (
        arith,
        ensured (λ _. false ≡ true) (take_peer_branch_authority p given s) r (never p given s h) e,
      ))
  | inr (e, there) ↦ (e, there)
]

-- For every state and pool: once `closePeerBranchSlots` has returned, true or false, every take from
-- the pool is refused, whatever calls on pools, branches and ledgers came in between.
pub take_peer_branch_authority-close_peer_branch_slots :
    (p : ℕ) (calls : List Call) (given : Exact BranchRows) (s t : Slots) (first : Bool)
    → close_peer_branch_slots p s ≡ ok (first, t)
    → (e : Error) × (take_peer_branch_authority p given (run calls t) ≡ err e)
take_peer_branch_authority-close_peer_branch_slots p calls given s t first h =
    refused p given (run calls t) (
      run-IsClosed p calls t
        (ensured (λ r. IsClosed p r.1) (close_peer_branch_slots p s) (first, t) (closes p s) h))
