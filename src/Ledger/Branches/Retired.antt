-- ===== src/Ledger/Branches/Retired.antt =====
-- About the calls that retire branches of lib/private/peer-ledger.js: what the pools read afterwards.
use hyperdht.Prelude.{
  ℕ, ◌+◌, ◌<◌, ◌≡◌, refl, Bool, true, false, ◌||◌, List, [], ◌∷◌, ltb, ◌==◌, if◌then◌else◌, arith,
  Bool-cases, inl, inr, ap, ap₂, sym, transport, ◌∙◌,
}
use hyperdht.Errors.{first-Ensures, test-Ensures, Result, ok, err, invalid_route, ◌>>=◌, Ensures}
use hyperdht.Ledger.Budget.{Row}
use hyperdht.Ledger.Branches.{
  Slots, set_pool, set_authority, retire, revoke, revoke_all, defer_peer_branch_authority_join,
  release_peer_branch_authority, close_peer_branch_slots, read_peer_branch_slots,
}
use hyperdht.Ledger.Branches.Live.{has, has_high}
use hyperdht.Ledger.Branches.Sound.{IsSoundBut, IsSound, set_pool_lem}
use hyperdht.Ledger.Branches.Kept.{marked, revoke-IsSoundBut}
use hyperdht.Ledger.Branches.Spent.{
  SameTotals, spent_of, branches_of, retire-SameTotals, sum_live-same,
}
use hyperdht.Ledger.Branches.Run.{Call, defer, release, close, left, call, run, call-IsSound}

trans : (s t u : Slots) → SameTotals s t → SameTotals t u → SameTotals s u
trans s t u h g q = ((g q).0 ∙ (h q).0, (g q).1 ∙ (h q).1)

-- The same totals in a state with as many pools.
abbrev Retires : Slots → Slots → Type 0
Retires s t = (t.next_pool ≡ s.next_pool) × SameTotals s t

revoke-Retires :
    (a : ℕ) (pending : List ℕ) (s : Slots)
    → a < s.next_authority
    → IsSoundBut (a ∷ pending) s
    → Retires s (revoke a s)
revoke-Retires a pending s below h =
    elim (Bool-cases ((s.authorities a).join_deferred || (s.authorities a).released)) [
      | inl e ↦
          let same : s ≡ revoke a s = ground (arith, e) in
          transport (ap (Retires s) same) (refl, λ q. (refl, refl))
      | inr e ↦
          let same : retire a s ≡ revoke a s = ground (arith, e) in
          transport (ap (Retires s) same)
            (refl, retire-SameTotals a s ((h.placed a below).1 (ground (arith, e))))
    ]

revoke_all-Retires :
    (pending : List ℕ) (s : Slots)
    → ((b : ℕ) → has b pending ≡ true → b < s.next_authority)
    → IsSoundBut pending s
    → Retires s (revoke_all pending s)
unfolding revoke_all
revoke_all-Retires [] s below h = (refl, λ q. (refl, refl))
revoke_all-Retires (a ∷ rest) s below h =
    let known = below a (ground arith) in
    let sound = revoke-IsSoundBut a rest s known h in
    let first = revoke-Retires a rest s known h in
    let later =
      revoke_all-Retires rest (revoke a s)
        (λ b e. omega (arith, sound.1, below b (ground (arith, e)))) sound.0 in
    (later.0 ∙ first.0, trans s (revoke a s) (revoke_all rest (revoke a s)) first.1 later.1)

closed-Retires :
    (p : ℕ) (s : Slots) → Retires s (set_pool s p (record (s.pools p) { closed = true }))
closed-Retires p s = (
  refl,
  λ q.
      set_pool_lem
        (λ k pool.
          (spent_of s pool ≡ spent_of s (s.pools k)) × (branches_of pool ≡ branches_of (s.pools k)))
        s p q (record (s.pools p) { closed = true }) (refl, refl) (λ d. (refl, refl)),
)

deferred-Retires :
    (a : ℕ) (s : Slots)
    → Retires s (set_authority s a (record (s.authorities a) { join_deferred = true }))
deferred-Retires a s =
    let t = set_authority s a (record (s.authorities a) { join_deferred = true }) in
    let same : (k : ℕ) → (t.authorities k).roots ≡ (s.authorities k).roots = λ k.
      elim (Bool-cases (k == a)) [
        | inl e ↦ let is : k ≡ a = ground (arith, e) in ground (arith, e, is)
        | inr e ↦ ground (arith, e)
      ] in
    (
      refl,
      λ q. (
        sum_live-same s.ledgers s.ledgers s.authorities t.authorities (s.pools q).live
            (s.pools q).retired_spent (λ k. refl) same,
        refl,
      ),
    )

defer-Retires :
    (a : ℕ) (s : Slots) → Ensures (λ r. Retires s r.1) (defer_peer_branch_authority_join a s)
unfolding defer_peer_branch_authority_join
defer-Retires a s =
    let P = λ (r : Bool × Slots). Retires s r.1 in
    let state = s.authorities a in
    first-Ensures P (ltb a s.next_authority) state _ λ known.
      test-Ensures P state.released (err invalid_route) _ (λ _. tt)
        λ _.
          test-Ensures P state.join_deferred (ok (false, s)) _ (λ _. (refl, λ q. (refl, refl)))
            λ _. deferred-Retires a s

release-Retires :
    (a : ℕ) (s : Slots)
    → IsSound s
    → Ensures (λ r. Retires s r.1) (release_peer_branch_authority a s)
unfolding release_peer_branch_authority
release-Retires a s h =
    let P = λ (r : Bool × Slots). Retires s r.1 in
    let state = s.authorities a in
    first-Ensures P (ltb a s.next_authority) state _ λ known.
      test-Ensures P state.released (ok (false, s)) _ (λ _. (refl, λ q. (refl, refl)))
        λ live. (refl, retire-SameTotals a s ((h.placed a (ground (arith, known))).1 live))

close-Retires :
    (p : ℕ) (s : Slots) → IsSound s → Ensures (λ r. Retires s r.1) (close_peer_branch_slots p s)
unfolding close_peer_branch_slots
close-Retires p s h =
    let P = λ (r : Bool × Slots). Retires s r.1 in
    let pool = s.pools p in
    let shut = set_pool s p (record pool { closed = true }) in
    first-Ensures P (ltb p s.next_pool) pool _ λ known.
      test-Ensures P pool.closed (ok (false, s)) _ (λ _. (refl, λ q. (refl, refl)))
        λ _.
          let below : p < s.next_pool = ground (arith, known) in
          let first = closed-Retires p s in
          let later =
            revoke_all-Retires pool.live shut
              (λ b live.
                has_high b 0 s.next_authority pool.live (h.pool_sound p below).ascending live)
              (marked p s below h) in
          (later.0 ∙ first.0, trans s shut (revoke_all pool.live shut) first.1 later.1)

left-Retires :
    {A : Type 0} (s : Slots) (r : Result (A × Slots))
    → Ensures (λ x. Retires s x.1) r
    → Retires s (left s r)
left-Retires s (ok (a, t)) h = h
left-Retires s (err e) h = (refl, λ q. (refl, refl))

-- The calls that retire branches.
pub data Retirement : Type 0 where
  join_later : ℕ → Retirement
  join : ℕ → Retirement
  shut : ℕ → Retirement

abbrev pub as_call : Retirement → Call
as_call (join_later a) = defer a
as_call (join a) = release a
as_call (shut p) = close p

abbrev pub as_calls : List Retirement → List Call
as_calls [] = []
as_calls (r ∷ rest) = as_call r ∷ as_calls rest

call-Retires : (r : Retirement) (s : Slots) → IsSound s → Retires s (call (as_call r) s)
call-Retires (join_later a) s h = left-Retires s _ (defer-Retires a s)
call-Retires (join a) s h = left-Retires s _ (release-Retires a s h)
call-Retires (shut p) s h = left-Retires s _ (close-Retires p s h)

run-Retires : (calls : List Retirement) (s : Slots) → IsSound s → Retires s (run (as_calls calls) s)
unfolding run
run-Retires [] s h = (refl, λ q. (refl, refl))
run-Retires (r ∷ rest) s h =
    let next = call (as_call r) s in
    let first = call-Retires r s h in
    let later = run-Retires rest next (call-IsSound (as_call r) s h) in
    (later.0 ∙ first.0, trans s next (run (as_calls rest) next) first.1 later.1)

-- The totals that `readPeerBranchSlots` returns: what was spent, and how many branches there were.
abbrev pub read_totals : ℕ → Slots → Result (List Row × ℕ)
read_totals p s = read_peer_branch_slots p s >>= λ r. ok (r.spent, r.live + r.retired)

read_totals_lem :
    (p : ℕ) (s : Slots)
    → read_totals p s ≡ (
        if ltb p s.next_pool
        then ok (spent_of s (s.pools p), branches_of (s.pools p))
        else err invalid_route)
unfolding read_peer_branch_slots
read_totals_lem p s = ground arith

-- For every sound state, every sequence of deferrals, releases and closes, and every pool: what
-- `readPeerBranchSlots` says its branches spent, and the number of its live and retired branches, is
-- the same after the sequence as before it.
pub read_totals-retirements :
    (calls : List Retirement) (p : ℕ) (s : Slots)
    → IsSound s
    → read_totals p (run (as_calls calls) s) ≡ read_totals p s
read_totals-retirements calls p s h =
    let t = run (as_calls calls) s in
    let same = run-Retires calls s h in
    read_totals_lem p t
    ∙ ap₂ (λ n (x : List Row × ℕ). if ltb p n then ok x else err invalid_route) same.0
        (ap₂ (λ a b. (a, b)) (same.1 p).0 (same.1 p).1)
    ∙ sym (read_totals_lem p s)
