-- ===== src/Ledger/Branches/Revoked.antt =====
-- About the roots of a released branch of lib/private/peer-ledger.js.
use hyperdht.Prelude.{
  ℕ, ◌≤◌, ◌<◌, ◌≡◌, refl, Bool, true, false, List, [], ◌∷◌, ltb, ◌==◌, arith, Bool-cases, inl, inr,
  ap, sym, transport, ◌∙◌,
}
use hyperdht.Errors.{first-Ensures, test-Ensures, ok, err, invalid_route, Ensures, ensured}
use hyperdht.Ledger.{Exact}
use hyperdht.Ledger.Budget.{Row}
use hyperdht.Ledger.Accounts.{Store, Request, release_at, charge_peer_ledger, reserve_peer_ledger}
use hyperdht.Ledger.Accounts.Release.{
  IsReleased, release_at-IsReleased, release_at_self, release_at-next,
}
use hyperdht.Ledger.Branches.{Slots, retire_roots, retire, release_peer_branch_authority}
use hyperdht.Ledger.Branches.Live.{has}

retire_roots-IsReleased :
    (k : ℕ) (roots : List ℕ) (totals : List Row) (s : Store)
    → IsReleased k s
    → IsReleased k (retire_roots roots totals s).1
unfolding retire_roots
retire_roots-IsReleased k [] totals s h = h
retire_roots-IsReleased k (root ∷ roots) [] s h =
    retire_roots-IsReleased k roots [] (release_at s.next root s)
      (release_at-IsReleased s.next k root s h)
retire_roots-IsReleased k (root ∷ roots) (total ∷ totals) s h =
    retire_roots-IsReleased k roots totals (release_at s.next root s)
      (release_at-IsReleased s.next k root s h)

retire_roots-next :
    (roots : List ℕ) (totals : List Row) (s : Store) → (retire_roots roots totals s).1.next ≡ s.next
unfolding retire_roots
retire_roots-next [] totals s = refl
retire_roots-next (root ∷ roots) [] s =
    retire_roots-next roots [] (release_at s.next root s) ∙ release_at-next s.next root s
retire_roots-next (root ∷ roots) (total ∷ totals) s =
    retire_roots-next roots totals (release_at s.next root s) ∙ release_at-next s.next root s

rest_totals : List Row → List Row
rest_totals [] = []
rest_totals (total ∷ totals) = totals

retire_roots-later :
    (root : ℕ) (roots : List ℕ) (totals : List Row) (s : Store)
    → (retire_roots (root ∷ roots) totals s).1
      ≡ (retire_roots roots (rest_totals totals) (release_at s.next root s)).1
unfolding retire_roots rest_totals
retire_roots-later root roots [] s = refl
retire_roots-later root roots (total ∷ totals) s = refl

-- Every root is released once the loop has passed it.
roots-IsReleased :
    (k : ℕ) (roots : List ℕ) (totals : List Row) (s : Store)
    → 1 ≤ s.next
    → has k roots ≡ true
    → IsReleased k (retire_roots roots totals s).1
roots-IsReleased k [] totals s some_ledger e = absurd (ground (arith, e))
roots-IsReleased k (root ∷ roots) totals s some_ledger e =
    let first = release_at s.next root s in
    let later = rest_totals totals in
    transport (ap (IsReleased k) (sym (retire_roots-later root roots totals s)))
      (elim (Bool-cases (root == k)) [
        | inl here ↦
            let same : root ≡ k = ground (arith, here) in
            retire_roots-IsReleased k roots later first (
              transport (ap (λ r. IsReleased r first) same)
                (release_at_self s.next root s some_ledger))
        | inr other ↦
            roots-IsReleased k roots later first
              (omega (arith, some_ledger, release_at-next s.next root s)) (ground (arith, e, other))
      ])

-- A ledger that is released, or not in the store, refuses charges and reservations.
abbrev pub Refuses : ℕ → Exact Request → Store → Type 0
Refuses k given s =
    (charge_peer_ledger k given s ≡ err invalid_route)
    × (reserve_peer_ledger k given s ≡ err invalid_route)

released-Refuses :
    (k : ℕ) (given : Exact Request) (s : Store) → (k < s.next → IsReleased k s) → Refuses k given s
unfolding charge_peer_ledger reserve_peer_ledger
released-Refuses k given s h = elim (Bool-cases (ltb k s.next)) [
  | inl e ↦ let r = h (ground (arith, e)) in (ground (arith, e, r), ground (arith, e, r))
  | inr e ↦ (ground (arith, e), ground (arith, e))
]

retired :
    (a : ℕ) (s : Slots)
    → Ensures (λ r. r.0 ≡ true → r.1 ≡ retire a s) (release_peer_branch_authority a s)
unfolding release_peer_branch_authority
retired a s =
    let P = λ (r : Bool × Slots). r.0 ≡ true → r.1 ≡ retire a s in
    let state = s.authorities a in
    first-Ensures P (ltb a s.next_authority) state _ λ known.
      test-Ensures P state.released (ok (false, s)) _ (λ _ e. absurd (ground (arith, e)))
        λ _ _. refl

-- For every state and branch: once `releasePeerBranchAuthority` has returned true, each root ledger
-- that the branch had refuses every charge and every reservation with ERR_INVALID_ROUTE.
pub release_peer_branch_authority-Refuses :
    (a root : ℕ) (given : Exact Request) (s t : Slots)
    → release_peer_branch_authority a s ≡ ok (true, t)
    → has root (s.authorities a).roots ≡ true
    → Refuses root given t.ledgers
release_peer_branch_authority-Refuses a root given s t e own =
    let state = s.authorities a in
    let totals = (s.pools state.pool).retired_spent in
    let same : t ≡ retire a s =
      ensured (λ r. r.0 ≡ true → r.1 ≡ retire a s) (release_peer_branch_authority a s) (true, t)
        (retired a s) e refl in
    transport (ap (λ x. Refuses root given x.ledgers) (sym same)) (
      released-Refuses root given (retire a s).ledgers λ below.
        roots-IsReleased root state.roots totals s.ledgers
          (omega (arith, below, retire_roots-next state.roots totals s.ledgers)) own)
