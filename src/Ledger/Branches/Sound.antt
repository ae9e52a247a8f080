-- ===== src/Ledger/Branches/Sound.antt =====
-- About the branch slots of lib/private/peer-ledger.js: what the pools keep.
use hyperdht.Prelude.{
  ℕ, ◌≤◌, ◌<◌, ◌≡◌, refl, true, false, List, [], ◌∷◌, length, ◌==◌, if◌then◌else◌, arith,
  Bool-cases, inl, inr, ap, transport, ◌⊎◌,
}
use hyperdht.Ledger.Budget.{Row}
use hyperdht.Ledger.Accounts.{Store}
use hyperdht.Ledger.Branches.Live.{
  has, IsAscending, IsAscending-remove, has-remove, has-remove_other, has-removed, length-remove,
}
use hyperdht.Ledger.Branches.{
  Pool, Authority, Slots, set_pool, set_authority, retire_roots, leave, retire,
}

-- The branches of a pool: at most its capacity, each once, of this pool and not released.
pub record IsSoundPool (next : ℕ) (authorities : ℕ → Authority) (q : ℕ) (pool : Pool) : Type 0 where
  pub fits : length pool.live ≤ pool.capacity
  pub ascending : IsAscending 0 next pool.live
  pub owned :
      (a : ℕ)
      → has a pool.live ≡ true
      → ((authorities a).pool ≡ q) × ((authorities a).released ≡ false)

-- A pool that is closed has only branches that wait for their join.
abbrev pub IsDrained : (ℕ → Authority) → List ℕ → Pool → Type 0
IsDrained authorities pending pool =
    pool.closed ≡ true
    → (a : ℕ) → has a pool.live ≡ true
    → ((authorities a).join_deferred ≡ true) ⊎ (has a pending ≡ true)

-- A branch of a pool of the store, live in its pool until it is released.
abbrev pub IsPlaced : ℕ → (ℕ → Pool) → ℕ → Authority → Type 0
IsPlaced next pools a state =
    (state.pool < next) × (state.released ≡ false → has a (pools state.pool).live ≡ true)

-- Every pool has at most its capacity of live branches, each of them its own and not released; every
-- branch that is not released is live in its pool; and in a pool that is closed only branches of
-- `pending`, or with a deferred join, are live.
pub record IsSoundBut (pending : List ℕ) (s : Slots) : Type 0 where
  pub pool_sound :
      (q : ℕ) → q < s.next_pool → IsSoundPool s.next_authority s.authorities q (s.pools q)
  pub drained : (q : ℕ) → q < s.next_pool → IsDrained s.authorities pending (s.pools q)
  pub placed : (a : ℕ) → a < s.next_authority → IsPlaced s.next_pool s.pools a (s.authorities a)

abbrev pub IsSound : Slots → Type 0
IsSound = IsSoundBut []

-- A property of every pool, after one pool is set.
pub set_pool_lem :
    (P : ℕ → Pool → Type 0) (s : Slots) (p q : ℕ) (new : Pool)
    → P p new
    → ((q == p) ≡ false → P q (s.pools q))
    → P q ((set_pool s p new).pools q)
set_pool_lem P s p q new here there = elim (Bool-cases (q == p)) [
  | inl e ↦
      let same : p ≡ q = ground (arith, e) in
      let is : new ≡ (set_pool s p new).pools q = ground (arith, e) in
      transport (ap (λ x. P q x) is) (transport (ap (λ x. P x new) same) here)
  | inr e ↦
      let is : s.pools q ≡ (set_pool s p new).pools q = ground (arith, e) in
      transport (ap (λ x. P q x) is) (there e)
]

-- The same for the authorities.
pub set_authority_lem :
    (P : ℕ → Authority → Type 0) (s : Slots) (p q : ℕ) (new : Authority)
    → P p new
    → ((q == p) ≡ false → P q (s.authorities q))
    → P q ((set_authority s p new).authorities q)
set_authority_lem P s p q new here there = elim (Bool-cases (q == p)) [
  | inl e ↦
      let same : p ≡ q = ground (arith, e) in
      let is : new ≡ (set_authority s p new).authorities q = ground (arith, e) in
      transport (ap (λ x. P q x) is) (transport (ap (λ x. P x new) same) here)
  | inr e ↦
      let is : s.authorities q ≡ (set_authority s p new).authorities q = ground (arith, e) in
      transport (ap (λ x. P q x) is) (there e)
]

-- A branch stays placed where its own pool keeps it.
pub set_pool-IsPlaced :
    (s : Slots) (p a next : ℕ) (new : Pool) (state : Authority)
    → (state.pool ≡ p → has a (s.pools p).live ≡ true → has a new.live ≡ true)
    → IsPlaced next s.pools a state
    → IsPlaced next (set_pool s p new).pools a state
set_pool-IsPlaced s p a next new state stays h = (
  h.0,
  λ live.
      set_pool_lem (λ q pool. state.pool ≡ q → has a pool.live ≡ true) s p state.pool new
        (λ at_home.
          stays at_home (transport (ap (λ q. has a (s.pools q).live ≡ true) at_home) (h.1 live)))
        (λ d at_home. h.1 live) refl,
)

retired_sound :
    (next a p : ℕ) (authorities : ℕ → Authority) (spent : List Row) (pool : Pool)
    → IsSoundPool next authorities p pool
    → IsSoundPool next
        (λ k. if k == a then record (authorities a) { released = true } else authorities k)
        p
        (leave pool a spent)
retired_sound next a p authorities spent pool h = record {
  fits = omega (arith, length-remove a pool.live, h.fits);
  ascending = IsAscending-remove a 0 next pool.live h.ascending;
  owned = λ b live. elim (Bool-cases (b == a)) [
    | inl e ↦ absurd (ground (arith, e, live, has-removed a 0 next pool.live h.ascending))
    | inr e ↦ ground (arith, e, h.owned b (has-remove b a pool.live live))
  ];
}

-- The other pools do not see it.
other_sound :
    (next a q : ℕ) (authorities : ℕ → Authority) (pool : Pool)
    → ((authorities a).pool == q) ≡ false
    → IsSoundPool next authorities q pool
    → IsSoundPool next
        (λ k. if k == a then record (authorities a) { released = true } else authorities k)
        q
        pool
other_sound next a q authorities pool d h = record {
  fits = h.fits;
  ascending = h.ascending;
  owned = λ b live. elim (Bool-cases (b == a)) [
    | inl e ↦ absurd (ground (arith, e, d, live, h.owned b live))
    | inr e ↦ ground (arith, e, h.owned b live)
  ];
}

module _ (a : ℕ) (pending : List ℕ) (s : Slots) where
  abbrev after : Slots
  after = retire a s

  abbrev home : ℕ
  home = (s.authorities a).pool

  abbrev gone : List Row × Store
  gone = retire_roots (s.authorities a).roots (s.pools home).retired_spent s.ledgers

  retired-IsDrained :
      (q : ℕ)
      → IsSoundPool s.next_authority s.authorities q (s.pools q)
      → IsDrained s.authorities (a ∷ pending) (s.pools q)
      → (q == home) ≡ false
      → IsDrained after.authorities pending (s.pools q)
  retired-IsDrained q h d other closed b live =
      ground (arith, h.owned b live, d closed b live, other)

  home-IsDrained :
      IsSoundPool s.next_authority s.authorities home (s.pools home)
      → IsDrained s.authorities (a ∷ pending) (s.pools home)
      → IsDrained after.authorities pending (leave (s.pools home) a gone.0)
  home-IsDrained h d closed b live =
      let before = has-remove b a (s.pools home).live live in
      elim (Bool-cases (b == a)) [
        | inl e ↦ absurd (
            ground
              (arith, e, live, has-removed a 0 s.next_authority (s.pools home).live h.ascending))
        | inr e ↦ ground (arith, e, before, d closed b before)
      ]

  retired-IsPlaced :
      (b : ℕ)
      → home < s.next_pool
      → IsPlaced s.next_pool s.pools b (s.authorities b)
      → IsPlaced s.next_pool after.pools b (after.authorities b)
  retired-IsPlaced b known h =
      set_authority_lem (IsPlaced s.next_pool after.pools) s a b
        (record (s.authorities a) { released = true }) (known, λ e. absurd (ground (arith, e)))
        (λ other.
          set_pool-IsPlaced s home b s.next_pool (leave (s.pools home) a gone.0) (s.authorities b)
            (λ _. has-remove_other b a (s.pools home).live other) h)

  pub retire-IsSoundBut :
      a < s.next_authority
      → (s.authorities a).released ≡ false
      → IsSoundBut (a ∷ pending) s
      → IsSoundBut pending (retire a s)
  retire-IsSoundBut below live h =
      let place = h.placed a below in
      record {
        pool_sound = λ q known.
            set_pool_lem (λ k. IsSoundPool s.next_authority after.authorities k) s home q
              (leave (s.pools home) a gone.0)
              (retired_sound s.next_authority a home s.authorities gone.0 (s.pools home)
                (h.pool_sound home place.0))
              (λ d.
                other_sound s.next_authority a q s.authorities (s.pools q) (ground (arith, d))
                  (h.pool_sound q known));
        drained = λ q known.
            set_pool_lem (λ k. IsDrained after.authorities pending) s home q
              (leave (s.pools home) a gone.0)
              (home-IsDrained (h.pool_sound home place.0) (h.drained home place.0))
              (retired-IsDrained q (h.pool_sound q known) (h.drained q known));
        placed = λ b known. retired-IsPlaced b place.0 (h.placed b known);
      }
