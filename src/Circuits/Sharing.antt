-- ===== src/Circuits/Sharing.antt =====
-- About the class `CircuitCreditPool` of lib/private/private-peer-controller.js: how `_distribute`
-- ends, and what it leaves.
use hyperdht.Prelude.{
  ℕ, zero, suc, ◌+◌, ◌-◌, ◌/◌, ◌≤◌, ◌≡◌, refl, ap, true, false, not, ◌&&◌, Option, none, some, List,
  [], ◌∷◌, ltb, ◌==◌, length, min, max, arith, length-append,
}
use hyperdht.Prelude.Assoc.{lookup, sum_of, sum_of-assign, sum_of-delete}
use hyperdht.Errors.{Error}
use hyperdht.Dht.{if_lem}
use hyperdht.Circuits.{
  Leg, Pool, Outcome, done, credit_grant_idle_ms, without, cancel, is_releasable, touch, destroy,
  Nested, hand_out, nested, nested_all, cancels, releases, removes, touches, destroys, throws,
  after, give, round, rounds, distribute, clear_idle,
}
use hyperdht.Circuits.Credit.{with_leg_lem}
use hyperdht.Circuits.Rounds.{after_lem, while_shared_lem}

abbrev wanted_of : Leg → ℕ
wanted_of leg = leg.wanted

-- What is asked for, and the length of the queue.
abbrev open_demand : Pool → ℕ
open_demand p = sum_of wanted_of p.legs + length p.pending

abbrev AtMost : ℕ → Outcome → Type 0
AtMost n o = open_demand o.pool ≤ n

length-without : (owner : ℕ) (q : List ℕ) → length (without owner q) ≤ length q
length-without owner [] = omega arith
length-without owner (o ∷ q) = ground (arith, length-without owner q)

nested-AtMost : (now : ℕ) (c : Nested) (p : Pool) → AtMost (open_demand p) (nested now c p)
unfolding nested cancel touch destroy
nested-AtMost now (cancels owner) p =
    with_leg_lem (λ q. AtMost (open_demand p) (done q)) (lookup owner p.legs) _ _ (λ e. omega arith)
      λ leg e. omega (
        arith,
        length-without owner p.pending,
        sum_of-assign wanted_of owner leg (record leg { wanted = 0; demand_open = false }) p.legs e,
      )
nested-AtMost now (releases owner amount) p =
    with_leg_lem (AtMost (open_demand p)) (lookup owner p.legs) _ _ (λ e. omega arith)
      λ leg e.
        if_lem (AtMost (open_demand p)) (is_releasable amount leg p) _ _
          (λ h. omega (
            arith,
            sum_of-assign wanted_of owner leg
                (record leg {
                  granted = leg.granted - amount;
                  idle_timer = clear_idle (leg.granted - amount) leg.idle_timer;
                })
                p.legs e,
          ))
          λ h. omega arith
nested-AtMost now (removes owner) p =
    with_leg_lem (AtMost (open_demand p)) (lookup owner p.legs) _ _ (λ e. omega arith)
      λ leg e.
        omega (arith, length-without owner p.pending, sum_of-delete wanted_of owner leg p.legs e)
nested-AtMost now (touches owner) p =
    with_leg_lem (λ q. AtMost (open_demand p) (done q)) (lookup owner p.legs) _ _ (λ e. omega arith)
      λ leg e.
        if_lem (λ q. AtMost (open_demand p) (done q)) (not p.closed && ltb 0 leg.granted) _ _
          (λ h. omega (
            arith,
            sum_of-assign wanted_of owner leg (record leg { last_activity = now }) p.legs e,
          ))
          λ h. omega arith
nested-AtMost now destroys p = omega arith
nested-AtMost now (throws e) p = omega arith

nested_all-AtMost :
    (now : ℕ) (calls : List Nested) (p : Pool) → AtMost (open_demand p) (nested_all now calls p)
unfolding nested_all
nested_all-AtMost now [] p = omega arith
nested_all-AtMost now (c ∷ rest) p =
    let first = nested-AtMost now c p in
    let later = nested_all-AtMost now rest (nested now c p).pool in
    after_lem (AtMost (open_demand p)) (nested now c p) _ (nested_all now rest) first
      (omega (arith, first, later))

hand_out-less :
    (now share owner : ℕ) (rest : List ℕ) (leg : Leg) (p : Pool)
    → p.pending ≡ owner ∷ rest
    → lookup owner p.legs ≡ some leg
    → 1 ≤ share
    → 1 ≤ p.available
    → (leg.wanted == 0) ≡ false
    → suc (open_demand (hand_out now (min share (min leg.wanted p.available)) owner rest leg p))
      ≤ open_demand p
hand_out-less now share owner rest leg p q e h some_left asks =
    let amount = min share (min leg.wanted p.available) in
    let long : length p.pending ≡ suc (length rest) = ap length q in
    ground (
      arith,
      long,
      h,
      some_left,
      asks,
      length-append rest (owner ∷ []),
      sum_of-assign wanted_of owner leg
          (record leg {
            granted = leg.granted + amount;
            wanted = leg.wanted - amount;
            last_activity = now;
            idle_timer = elim leg.idle_timer [
              | none ↦ some credit_grant_idle_ms
              | some delay ↦ some delay
            ];
          })
          p.legs e,
    )

length_zero : (q : List ℕ) → length q ≡ 0 → q ≡ []
length_zero [] e = refl
length_zero (o ∷ q) e = absurd (omega (arith, e))

-- Nobody stands in the queue while credit is available.
abbrev pub IsSettled : Pool → Type 0
IsSettled p = (1 ≤ p.available) → p.pending ≡ []

abbrev pub Settles : Outcome → Type 0
Settles o = o.thrown ≡ none → IsSettled o.pool

module _ (now : ℕ) (reacts : List (ℕ × ℕ) → List Nested) where
  give-less :
      (share owner : ℕ) (rest : List ℕ) (p : Pool)
      → p.pending ≡ owner ∷ rest
      → 1 ≤ share
      → 1 ≤ p.available
      → suc (open_demand (give now reacts share owner rest p).pool) ≤ open_demand p
  unfolding give
  give-less share owner rest p q h some_left =
      let Less = λ (o : Outcome). suc (open_demand o.pool) ≤ open_demand p in
      let long : length p.pending ≡ suc (length rest) = ap length q in
      with_leg_lem Less (lookup owner p.legs) _ _ (λ gone. omega (arith, long))
        λ leg e.
          let given = hand_out now (min share (min leg.wanted p.available)) owner rest leg p in
          if_lem Less (leg.wanted == 0) _ _ (λ idle. omega (arith, long))
            λ asks.
              let less = hand_out-less now share owner rest leg p q e h some_left asks in
              omega (arith, less, nested_all-AtMost now (reacts given.grants) given)

  round-AtMost :
      (n share : ℕ) (p : Pool) → 1 ≤ share → AtMost (open_demand p) (round now reacts n share p)
  unfolding round
  round-AtMost zero share p h = omega arith
  round-AtMost (suc n) share p h =
      while_shared_lem (AtMost (open_demand p)) p.available p.pending _ _ (λ e. omega arith)
        (λ e. omega arith)
        λ owner rest some_left q.
          let o = give now reacts share owner rest p in
          let less = give-less share owner rest p q h some_left in
          after_lem (AtMost (open_demand p)) o _ (round now reacts n share) (omega (arith, less))
            (omega (arith, less, round-AtMost n share o.pool h))

  round-less :
      (n share : ℕ) (p : Pool)
      → 1 ≤ n
      → 1 ≤ share
      → 1 ≤ p.available
      → 1 ≤ length p.pending
      → suc (open_demand (round now reacts n share p).pool) ≤ open_demand p
  unfolding round
  round-less zero share p m h some_left waits = absurd (omega arith)
  round-less (suc n) share p m h some_left waits =
      let Less = λ (o : Outcome). suc (open_demand o.pool) ≤ open_demand p in
      while_shared_lem Less p.available p.pending _ _ (λ e. absurd (omega (arith, e, some_left)))
        (λ e. absurd (omega (arith, ap length e, waits)))
        λ owner rest any q.
          let o = give now reacts share owner rest p in
          let less = give-less share owner rest p q h some_left in
          after_lem Less o _ (round now reacts n share) less
            (omega (arith, less, round-AtMost n share o.pool h))

  after-Settles :
      (o : Outcome) (t : Option Error) (next : Pool → Outcome)
      → o.thrown ≡ t
      → Settles (next o.pool)
      → Settles (after o t next)
  after-Settles o none next e h = h
  after-Settles o (some x) next e h = λ returned_. absurd (ground (arith, e, returned_))

  rounds-Settles : (fuel : ℕ) (p : Pool) → open_demand p ≤ fuel → Settles (rounds now reacts fuel p)
  unfolding rounds
  rounds-Settles zero p enough = λ e some_left. length_zero p.pending (omega (arith, enough))
  rounds-Settles (suc fuel) p enough =
      while_shared_lem Settles p.available p.pending _ _
        (λ e returned_ some_left. absurd (omega (arith, e, some_left))) (λ e returned_ some_left. e)
        λ owner rest some_left q.
          let count = length p.pending in
          let share = max 1 (p.available / count) in
          let o = round now reacts count share p in
          let long : length p.pending ≡ suc (length rest) = ap length q in
          let less =
            round-less count share p (omega (arith, long)) (omega arith) some_left
              (omega (arith, long)) in
          after-Settles o o.thrown (rounds now reacts fuel) refl
            (rounds-Settles fuel o.pool (omega (arith, less, enough)))

  pub distribute-Settles :
      (p : Pool) → (p.closed ≡ true → p.available ≡ 0) → Settles (distribute now reacts p)
  unfolding distribute
  distribute-Settles p s =
      if_lem Settles p.closed _ _ (λ e returned_ some_left. absurd (omega (arith, s e, some_left)))
        λ e. rounds-Settles (open_demand p) p (omega arith)
