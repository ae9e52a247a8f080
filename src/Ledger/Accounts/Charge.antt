-- ===== src/Ledger/Accounts/Charge.antt =====
-- About `chargePeerLedger` of lib/private/peer-ledger.js.
use hyperdht.Prelude.{ℕ, zero, suc, ◌+◌, ◌<◌, ◌≡◌, refl, true, false, Option, none, some, arith}
use hyperdht.Errors.{ok, bind-Ensures, ensured}
use hyperdht.Ledger.{Exact}
use hyperdht.Ledger.Budget.{Row}
use hyperdht.Ledger.Accounts.{
  Store, Request, minus, fits, remaining, read_request, write, charged, charged_below, charge_up,
  charge_peer_ledger,
}
use hyperdht.Ledger.Accounts.Sums.{amount-minus, amount-fits}
use hyperdht.Ledger.Accounts.Balance.{
  IsSoundBut, IsSound, after-released, spending-IsSoundBut, live-Ensures, require-Ensures,
}

-- The loop over the ancestors settles what is due.
charge_up-IsSound :
    (fuel : ℕ) (o : Option ℕ) (row : Row) (s : Store)
    → IsSoundBut o row s
    → ((p : ℕ) → o ≡ some p → (p < fuel) × (p < s.next) × ((s.at p).released ≡ false))
    → IsSound (charge_up fuel o row s)
unfolding charge_up
charge_up-IsSound fuel none row s sound live = sound
charge_up-IsSound zero (some p) row s sound live = absurd (ground (arith, live p refl))
charge_up-IsSound (suc fuel) (some p) row s sound live =
    let (p_fuel, below, p_live) = live p refl in
    let left = minus (s.at p).reserved row in
    let direct = (s.at p).direct_cells_spent in
    let up = (sound p below).0 in
    charge_up-IsSound fuel (s.at p).parent row (write s p (charged_below (s.at p) row))
      (spending-IsSoundBut s p row left direct (some p) sound below p_live (λ h e. e)
        (λ c. ground (arith, (sound p below).1 c, amount-minus c (s.at p).reserved row))
        (λ c. ground (arith, (sound p below).1 c, amount-minus c (s.at p).reserved row)))
      (λ q e. ground (arith, up q e, after-released s p row left direct q))

charged-IsSoundBut :
    (s : Store) (h : ℕ) (row : Row)
    → IsSound s
    → h < s.next
    → (s.at h).released ≡ false
    → fits row (remaining (s.at h)) ≡ true
    → IsSoundBut (s.at h).parent row (write s h (charged (s.at h) row))
charged-IsSoundBut s h row sound below live fit =
    spending-IsSoundBut s h row (s.at h).reserved ((s.at h).direct_cells_spent + row.cells) none
      sound below live (λ k e. refl)
      (λ c. ground (
        arith,
        (sound h below).1 c,
        amount-fits c row (remaining (s.at h)) fit,
        amount-minus c (minus (s.at h).allocated (s.at h).spent) (s.at h).reserved,
        amount-minus c (s.at h).allocated (s.at h).spent,
      ))
      (λ c. ground (arith, (sound h below).1 c))

-- For every sound store, handle and request: if the charge is accepted, the store that it leaves is
-- sound.
pub charge_peer_ledger-IsSound :
    (h : ℕ) (given : Exact Request) (s t : Store)
    → IsSound s
    → charge_peer_ledger h given s ≡ ok t
    → IsSound t
unfolding charge_peer_ledger
charge_peer_ledger-IsSound h given s t sound = ensured IsSound (charge_peer_ledger h given s) t (
    live-Ensures IsSound s h _ λ below live. bind-Ensures IsSound (read_request given) _ λ row.
      require-Ensures IsSound (fits row (remaining (s.at h))) _ λ fit.
        charge_up-IsSound s.next (s.at h).parent row (write s h (charged (s.at h) row))
          (charged-IsSoundBut s h row sound below live fit)
          (λ q e.
            let (lower, q_live) = (sound h below).0 q e in
            let direct = (s.at h).direct_cells_spent + row.cells in
            ground (arith, q_live live, after-released s h row (s.at h).reserved direct q)))
