-- ===== src/Ledger/Branches/Kept.antt =====
-- About the changes that the calls on the branch slots of lib/private/peer-ledger.js make.
use hyperdht.Prelude.{
  ℕ, suc, ◌<◌, ◌≡◌, true, false, ◌||◌, List, [], ◌∷◌, length, ◌==◌, if◌then◌else◌, arith,
  Bool-cases, inl, inr, ap, sym, transport, length-append,
}
use hyperdht.Ledger.Accounts.{Store}
use hyperdht.Ledger.Branches.Live.{has, IsAscending-append, IsAscending-high, has_high, has-append}
use hyperdht.Ledger.Branches.Sound.{
  IsSoundPool, IsDrained, IsPlaced, IsSoundBut, IsSound, set_pool_lem, set_authority_lem,
  retire-IsSoundBut, set_pool-IsPlaced,
}
use hyperdht.Ledger.Branches.{
  Pool, Authority, Slots, set_pool, set_authority, new_pool, add_pool, enter, branch, add_authority,
  retire, revoke, revoke_all,
}

-- A branch that needs no waiting for leaves the list.
skip :
    (a : ℕ) (pending : List ℕ) (s : Slots)
    → IsSoundBut (a ∷ pending) s
    → ((s.authorities a).join_deferred || (s.authorities a).released) ≡ true
    → IsSoundBut pending s
skip a pending s h e = record {
  pool_sound = h.pool_sound;
  drained = λ q known closed b live.
      let owned = (h.pool_sound q known).owned b live in
      elim (Bool-cases (a == b)) [
        | inl same ↦
            let is : a ≡ b = ground (arith, same) in
            let state =
              transport
                (ap (λ k. ((s.authorities k).join_deferred || (s.authorities k).released) ≡ true)
                  is)
                e in
            inl (ground (arith, state, owned))
        | inr other ↦ ground (arith, other, h.drained q known closed b live)
      ];
  placed = h.placed;
}

-- It is enough to be sound.
pub more : (pending : List ℕ) (s : Slots) → IsSound s → IsSoundBut pending s
more pending s h = record {
  pool_sound = h.pool_sound;
  drained = λ q known closed b live. ground (arith, h.drained q known closed b live);
  placed = h.placed;
}

pub revoke-IsSoundBut :
    (a : ℕ) (pending : List ℕ) (s : Slots)
    → a < s.next_authority
    → IsSoundBut (a ∷ pending) s
    → IsSoundBut pending (revoke a s) × ((revoke a s).next_authority ≡ s.next_authority)
revoke-IsSoundBut a pending s below h =
    elim (Bool-cases ((s.authorities a).join_deferred || (s.authorities a).released)) [
      | inl e ↦
          let same : s ≡ revoke a s = ground (arith, e) in
          (
            transport (ap (IsSoundBut pending) same) (skip a pending s h e),
            ap (λ t. t.next_authority) (sym same),
          )
      | inr e ↦
          let same : retire a s ≡ revoke a s = ground (arith, e) in
          (
            transport (ap (IsSoundBut pending) same)
                (retire-IsSoundBut a pending s below (ground (arith, e)) h),
            ap (λ t. t.next_authority) (sym same),
          )
    ]

pub revoke_all-IsSound :
    (pending : List ℕ) (s : Slots)
    → ((b : ℕ) → has b pending ≡ true → b < s.next_authority)
    → IsSoundBut pending s
    → IsSound (revoke_all pending s)
unfolding revoke_all
revoke_all-IsSound [] s below h = h
revoke_all-IsSound (a ∷ rest) s below h =
    let first = revoke-IsSoundBut a rest s (below a (ground arith)) h in
    revoke_all-IsSound rest (revoke a s)
      (λ b e. omega (arith, first.1, below b (ground (arith, e)))) first.0

-- Closing a pool marks it, with its branches still to be revoked.
pub marked :
    (p : ℕ) (s : Slots)
    → p < s.next_pool
    → IsSound s
    → IsSoundBut (s.pools p).live (set_pool s p (record (s.pools p) { closed = true }))
marked p s known h =
    let pool = s.pools p in
    let shut = record pool { closed = true } in
    let old = h.pool_sound p known in
    record {
      pool_sound = λ q there.
          set_pool_lem (IsSoundPool s.next_authority s.authorities) s p q shut
            (record { fits = old.fits; ascending = old.ascending; owned = old.owned })
            (λ d. h.pool_sound q there);
      drained = λ q there.
          set_pool_lem (λ k. IsDrained s.authorities pool.live) s p q shut
            (λ closed b live. inr live) (λ d. (more pool.live s h).drained q there);
      placed = λ a there.
          set_pool-IsPlaced s p a s.next_pool shut (s.authorities a) (λ _ e. e) (h.placed a there);
    }

-- A new pool is empty.
pub add_pool-IsSound : (n : ℕ) (s : Slots) → IsSound s → IsSound (add_pool s (new_pool n))
add_pool-IsSound n s h =
    let p = s.next_pool in
    record {
      pool_sound = λ q there.
          set_pool_lem (IsSoundPool s.next_authority s.authorities) s p q (new_pool n)
            (record {
              fits = omega arith;
              ascending = omega arith;
              owned = λ a live. absurd (ground (arith, live));
            })
            (λ d. h.pool_sound q (ground (arith, there, d)));
      drained = λ q there.
          set_pool_lem (λ k. IsDrained s.authorities []) s p q (new_pool n)
            (λ closed. absurd (ground (arith, closed)))
            (λ d. h.drained q (ground (arith, there, d)));
      placed = λ a there.
          let old = h.placed a there in
          set_pool-IsPlaced s p a (suc p) (new_pool n) (s.authorities a)
            (λ at_home. absurd (omega (arith, at_home, old.0))) (omega (arith, old.0), old.1);
    }

-- A branch enters a pool that is open and has room.
entered_pool :
    (p : ℕ) (pool : Pool) (next : ℕ) (authorities : ℕ → Authority) (roots : List ℕ)
    → length pool.live < pool.capacity
    → IsSoundPool next authorities p pool
    → IsSoundPool
        (suc next)
        (λ k. if k == next then branch p roots else authorities k)
        p
        (enter pool next)
entered_pool p pool next authorities roots room h = record {
  fits = omega (arith, room, length-append pool.live (next ∷ []));
  ascending = IsAscending-append 0 next pool.live h.ascending;
  owned = λ a live. elim (Bool-cases (a == next)) [
    | inl e ↦ ground (arith, e)
    | inr e ↦ ground (arith, e, live, has-append a next pool.live, h.owned a)
  ];
}

other_pool :
    (q : ℕ) (pool : Pool) (next : ℕ) (authorities : ℕ → Authority) (state : Authority)
    → IsSoundPool next authorities q pool
    → IsSoundPool (suc next) (λ k. if k == next then state else authorities k) q pool
other_pool q pool next authorities state h = record {
  fits = h.fits;
  ascending = IsAscending-high 0 next pool.live h.ascending;
  owned = λ a live.
      let below = has_high a 0 next pool.live h.ascending live in
      ground (arith, below, h.owned a live);
}

pub add_authority-IsSound :
    (p : ℕ) (roots : List ℕ) (ledgers : Store) (s : Slots)
    → p < s.next_pool
    → (s.pools p).closed ≡ false
    → length (s.pools p).live < (s.pools p).capacity
    → IsSound s
    → IsSound (add_authority s p roots ledgers)
add_authority-IsSound p roots ledgers s known live_pool room h =
    let next = s.next_authority in
    let state = branch p roots in
    let pool = enter (s.pools p) next in
    let authorities = (set_authority s next state).authorities in
    let pools = (set_pool s p pool).pools in
    record {
      pool_sound = λ q there.
          set_pool_lem (IsSoundPool (suc next) authorities) s p q pool
            (entered_pool p (s.pools p) next s.authorities roots room (h.pool_sound p known))
            (λ d. other_pool q (s.pools q) next s.authorities state (h.pool_sound q there));
      drained = λ q there.
          set_pool_lem (λ k. IsDrained authorities []) s p q pool
            (λ closed. absurd (ground (arith, closed, live_pool)))
            (λ d closed a live.
              let below =
                has_high a 0 next (s.pools q).live (h.pool_sound q there).ascending live in
              ground (arith, below, h.drained q there closed a live));
      placed = λ a there.
          set_authority_lem (IsPlaced s.next_pool pools) s next a state
            (known, λ e. ground (arith, has-append next next (s.pools p).live))
            (λ other.
              set_pool-IsPlaced s p a s.next_pool pool (s.authorities a)
                (λ _ e. ground (arith, e, has-append a next (s.pools p).live))
                (h.placed a (ground (arith, there, other))));
    }

pub deferred-IsSound :
    (a : ℕ) (s : Slots)
    → a < s.next_authority
    → IsSound s
    → IsSound (set_authority s a (record (s.authorities a) { join_deferred = true }))
deferred-IsSound a s known h =
    let state = record (s.authorities a) { join_deferred = true } in
    record {
      pool_sound = λ q there.
          let old = h.pool_sound q there in
          record {
            fits = old.fits;
            ascending = old.ascending;
            owned = λ b live. ground (arith, old.owned b live);
          };
      drained = λ q there closed b live. ground (arith, h.drained q there closed b live);
      placed = λ b there.
          set_authority_lem (IsPlaced s.next_pool s.pools) s a b state (h.placed a known)
            (λ d. h.placed b there);
    }
