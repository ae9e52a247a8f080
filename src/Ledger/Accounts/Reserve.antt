-- ===== src/Ledger/Accounts/Reserve.antt =====
-- About `createPeerLedger` and `reservePeerLedger` of lib/private/peer-ledger.js.
use hyperdht.Prelude.{
  ℕ, ◌+◌, ◌≤◌, ◌<◌, ◌≡◌, refl, true, false, Option, none, some, ◌==◌, arith, Bool-cases, inl, inr,
  ap, transport, Option-cases,
}
use hyperdht.Errors.{ok, bind-Ensures, ensured}
use hyperdht.Ledger.{Exact}
use hyperdht.Ledger.Budget.{Row}
use hyperdht.Ledger.Accounts.{
  Store, Request, minus, fits, remaining, read_request, write, fresh, add_ledger,
  create_peer_ledger, reserve_from, reserve_peer_ledger, no_row,
}
use hyperdht.Ledger.Accounts.Sums.{
  Column, amount, amount-plus, amount-minus, amount-fits, sum_below, sum_below-same, sum_below-zero,
  held, holdings,
}
use hyperdht.Ledger.Accounts.Balance.{
  HasParent, IsBalanced, IsSoundBut, IsSound, Adds, due, live-Ensures, require-Ensures,
}

amount-no_row : (c : Column) → amount c no_row ≡ 0
amount-no_row Column.cells = refl
amount-no_row Column.bytes = refl
amount-no_row Column.commands = refl

module _ (s : Store) (o : Option ℕ) (row : Row) where
  abbrev grown : Store
  grown = add_ledger s (fresh o row)

  grown-held : (c : Column) (h k : ℕ) → k < s.next → held c (grown.at k) h ≡ held c (s.at k) h
  grown-held c h k below = ground arith

  fresh-held : (c : Column) (h : ℕ) → held c (grown.at s.next) h ≡ due o row c h
  fresh-held Column.cells h = ground arith
  fresh-held Column.bytes h = ground arith
  fresh-held Column.commands h = ground arith

  grown-holdings : (c : Column) (h : ℕ) → holdings c grown h ≡ due o row c h + holdings c s h
  unfolding sum_below
  grown-holdings c h = omega (
    arith,
    fresh-held c h,
    sum_below-same s.next (λ k. held c (s.at k) h) (λ k. held c (grown.at k) h)
        (λ k below. grown-held c h k below),
  )

  grown-at_old : (h : ℕ) → h < s.next → s.at h ≡ grown.at h
  grown-at_old h below = ground arith

  grown-at_new : (h : ℕ) → (h == s.next) ≡ true → fresh o row ≡ grown.at h
  grown-at_new h e = ground arith

  childless : (c : Column) → ((h : ℕ) → h < s.next → HasParent s h) → holdings c s s.next ≡ 0
  childless c up =
      sum_below-zero s.next (λ k. held c (s.at k) s.next)
        λ k below. elim (Option-cases (s.at k).parent) [
          | inl none_ ↦ ground arith
          | inr (q, some_q) ↦ let lower = (up k below q some_q).0 in ground arith
        ]

  not_due :
      (c : Column)
      → ((p : ℕ) → o ≡ some p → (p < s.next) × ((s.at p).released ≡ false))
      → due o row c s.next ≡ 0
  not_due c live = elim (Option-cases o) [
    | inl none_ ↦ ground arith
    | inr (q, some_q) ↦ let lower = (live q some_q).0 in ground arith
  ]

  grown-old :
      (h : ℕ)
      → h < s.next
      → ((k : ℕ) → k < s.next → HasParent s k)
      → ((c : Column) → IsBalanced o row s h c)
      → HasParent grown h × ((c : Column) → IsBalanced none no_row grown h c)
  grown-old h below up balanced = (
    λ p e.
        let (lower, live) = up h below p (ground (arith, grown-at_old h below)) in
        (lower, λ r. ground (arith, grown-at_old h below, grown-at_old p (omega arith))),
    λ c.
        transport (ap (Adds c (holdings c grown h + 0)) (grown-at_old h below))
          (ground (arith, balanced c, grown-holdings c h)),
  )

  grown-new :
      (h : ℕ)
      → (h == s.next) ≡ true
      → ((k : ℕ) → k < s.next → HasParent s k)
      → ((p : ℕ) → o ≡ some p → (p < s.next) × ((s.at p).released ≡ false))
      → HasParent grown h × ((c : Column) → IsBalanced none no_row grown h c)
  grown-new h e up live = (
    λ p parent_p.
        let (lower, p_live) = live p (ground (arith, grown-at_new h e)) in
        (ground arith, λ r. ground (arith, grown-at_old p lower)),
    λ c.
        let last : h ≡ s.next = ground arith in
        let here = ap (λ k. due o row c k + holdings c s k) last in
        transport (ap (Adds c (holdings c grown h + 0)) (grown-at_new h e)) (
          omega (arith, amount-no_row c),
          omega (arith, amount-no_row c, grown-holdings c h, here, childless c up, not_due c live),
        ),
  )

  -- A ledger whose parent is due to hold its amounts restores the balance.
  grown-IsSound :
      IsSoundBut o row s
      → ((p : ℕ) → o ≡ some p → (p < s.next) × ((s.at p).released ≡ false))
      → IsSound grown
  grown-IsSound sound live h h_below = elim (Bool-cases (h == s.next)) [
    | inl e ↦ grown-new h e (λ k below. (sound k below).0) live
    | inr e ↦ grown-old h (ground arith) (λ k below. (sound k below).0) (sound h (ground arith)).1
  ]

-- For every sound store: a root ledger may be created with any request.
pub create_peer_ledger-IsSound :
    (given : Exact Request) (h : ℕ) (s t : Store)
    → IsSound s
    → create_peer_ledger given s ≡ ok (h, t)
    → IsSound t
unfolding create_peer_ledger
create_peer_ledger-IsSound given h s t sound =
    ensured (λ r. IsSound r.1) (create_peer_ledger given s) (h, t)
      (bind-Ensures (λ r. IsSound r.1) (read_request given) _
        λ row. grown-IsSound s none row sound (λ p e. absurd (ground arith)))

module _ (s : Store) (p : ℕ) (row : Row) where
  abbrev parted : Store
  parted = write s p (reserve_from (s.at p) row s.next)

  parted-at_self : (h : ℕ) → (p == h) ≡ true → reserve_from (s.at h) row s.next ≡ parted.at h
  parted-at_self h e = ground arith

  parted-at_other : (h : ℕ) → (p == h) ≡ false → s.at h ≡ parted.at h
  parted-at_other h e = ground arith

  parted-held : (c : Column) (h k : ℕ) → held c (parted.at k) h ≡ held c (s.at k) h
  parted-held c h k = ground arith

  parted-HasParent : (h : ℕ) → HasParent s h → HasParent parted h
  parted-HasParent h up q e = let (lower, live) = up q (ground arith) in (lower, λ r. ground arith)

  room_for :
      (c : Column)
      → fits row (remaining (s.at p)) ≡ true
      → ((d : Column) → IsBalanced none no_row s p d)
      → amount c (s.at p).spent + amount c (s.at p).reserved + amount c row
        ≤ amount c (s.at p).allocated
  room_for c fit balanced = ground (
    arith,
    balanced c,
    amount-fits c row (remaining (s.at p)) fit,
    amount-minus c (minus (s.at p).allocated (s.at p).spent) (s.at p).reserved,
    amount-minus c (s.at p).allocated (s.at p).spent,
  )

  parted-IsSoundBut :
      IsSound s → p < s.next → fits row (remaining (s.at p)) ≡ true → IsSoundBut (some p) row parted
  parted-IsSoundBut sound below fit h h_below = (
    parted-HasParent h (sound h h_below).0,
    λ c.
        let (bounded, balance) = (sound h h_below).1 c in
        let same =
          sum_below-same s.next (λ k. held c (s.at k) h) (λ k. held c (parted.at k) h)
            (λ k _. parted-held c h k) in
        let room = room_for c fit (sound p below).1 in
        elim (Bool-cases (p == h)) [
          | inl e ↦
              transport
                (ap (Adds c (holdings c parted h + due (some p) row c h)) (parted-at_self h e))
                (
                  ground (arith, amount-plus c (s.at h).reserved row),
                  ground (arith, amount-plus c (s.at h).reserved row),
                )
          | inr e ↦
              transport
                (ap (Adds c (holdings c parted h + due (some p) row c h)) (parted-at_other h e))
                (bounded, ground arith)
        ],
  )

-- For every sound store, handle and request: if the reservation is accepted, the store that it leaves
-- is sound.
pub reserve_peer_ledger-IsSound :
    (p : ℕ) (given : Exact Request) (h : ℕ) (s t : Store)
    → IsSound s
    → reserve_peer_ledger p given s ≡ ok (h, t)
    → IsSound t
unfolding reserve_peer_ledger
reserve_peer_ledger-IsSound p given h s t sound =
    ensured (λ r. IsSound r.1) (reserve_peer_ledger p given s) (h, t)
      (live-Ensures (λ r. IsSound r.1) s p _
        λ below live.
          bind-Ensures (λ r. IsSound r.1) (read_request given) _
            λ row.
              require-Ensures (λ r. IsSound r.1) (fits row (remaining (s.at p))) _
                λ fit.
                  grown-IsSound (parted s p row) (some p) row
                    (parted-IsSoundBut s p row sound below fit) (λ q e. ground arith))
