-- ===== src/Circuits/Rounds.antt =====
-- About the class `CircuitCreditPool` of lib/private/private-peer-controller.js: the rounds of
-- `_distribute`, and sequences of calls.
use hyperdht.Prelude.{
  ℕ, zero, suc, ◌+◌, ◌-◌, ◌*◌, ◌/◌, ◌≤◌, ◌≡◌, refl, Bool, true, not, ◌&&◌, ◌||◌, Option, none, some,
  List, [], ◌∷◌, ◌++◌, ltb, ◌==◌, length, min, max, arith,
}
use hyperdht.Prelude.Assoc.{lookup, sum_of, All-lookup}
use hyperdht.Errors.{Error}
use hyperdht.Dht.{if_lem}
use hyperdht.Circuits.{
  Leg, Pool, Outcome, circuit_window, credit_grant_idle_ms, demand_progress, credit_idle_ms,
  while_shared, construct, is_releasable, Nested, hand_out, nested, nested_all, cancels, releases,
  removes, touches, destroys, throws, after, give, round, rounds, distribute, demand, sent,
  returned, release, remove, idle_fires, clear_idle, check_idle, if_armed,
}
use hyperdht.Circuits.Calls.{
  Call, adds, demands, sends, touches_now, returns, releases_now, cancels_now, removes_now, idles,
  destroys_now, step, play,
}
use hyperdht.Circuits.Queue.{
  Queued, elem-append, Queued-pop, Keeps-pop, back, elem-back, Keeps-back,
}
use hyperdht.Circuits.Credit.{
  Fits, IsSound, changed-IsSound, with_leg_lem, on_leg, OutcomeIsSound, add-IsSound, cancel-IsSound,
  give_back-IsSound, leave-IsSound, touch-IsSound, destroy-IsSound,
}

pub after_lem :
    (P : Outcome → Type 0) (o : Outcome) (t : Option Error) (next : Pool → Outcome)
    → P o
    → P (next o.pool)
    → P (after o t next)
after_lem P o none next g h = h
after_lem P o (some e) next g h = g

nested-IsSound : (now : ℕ) (c : Nested) (p : Pool) → IsSound p → IsSound (nested now c p).pool
unfolding nested
nested-IsSound now (cancels owner) p s = cancel-IsSound owner p s
nested-IsSound now (releases owner amount) p s =
    on_leg OutcomeIsSound owner p _ _ s s λ leg e fits queued.
      if_lem OutcomeIsSound (is_releasable amount leg p) _ _
        (give_back-IsSound owner amount leg p e s fits queued) λ h. s
nested-IsSound now (removes owner) p s =
    on_leg OutcomeIsSound owner p _ _ s s λ leg e fits queued. leave-IsSound owner leg p e s
nested-IsSound now (touches owner) p s = touch-IsSound now owner p s
nested-IsSound now destroys p s = destroy-IsSound p
nested-IsSound now (throws e) p s = s

nested_all-IsSound :
    (now : ℕ) (calls : List Nested) (p : Pool) → IsSound p → IsSound (nested_all now calls p).pool
unfolding nested_all
nested_all-IsSound now [] p s = s
nested_all-IsSound now (c ∷ rest) p s =
    let first = nested-IsSound now c p s in
    after_lem OutcomeIsSound (nested now c p) _ (nested_all now rest) first
      (nested_all-IsSound now rest (nested now c p).pool first)

pop-IsSound :
    (owner : ℕ) (rest : List ℕ) (p : Pool)
    → p.pending ≡ owner ∷ rest
    → IsSound p
    → ((leg : Leg) → lookup owner p.legs ≡ some leg → (leg.wanted == 0) ≡ true)
    → IsSound (record p { pending = rest })
pop-IsSound owner rest p q s h = (
  s.0,
  s.1,
  s.2,
  s.3,
  Queued-pop owner p.pending rest p.legs s.4 (Keeps-pop owner p.pending rest q) h s.2,
)

hand_out-IsSound :
    (now share owner : ℕ) (rest : List ℕ) (leg : Leg) (p : Pool)
    → p.pending ≡ owner ∷ rest
    → IsSound p
    → lookup owner p.legs ≡ some leg
    → Fits (owner, leg)
    → IsSound (hand_out now (min share (min leg.wanted p.available)) owner rest leg p)
hand_out-IsSound now share owner rest leg p q s e fits =
    let amount = min share (min leg.wanted p.available) in
    changed-IsSound owner leg
      (record leg {
        granted = leg.granted + amount;
        wanted = leg.wanted - amount;
        last_activity = now;
        idle_timer = elim leg.idle_timer [
          | none ↦ some credit_grant_idle_ms
          | some delay ↦ some delay
        ];
      })
      (p.available - amount) p.in_flight (back owner (leg.wanted - amount) rest) p e s (omega arith)
      (omega (arith, fits.0), fits.1) (Keeps-back owner (leg.wanted - amount) p.pending rest q)
      (elem-back owner (leg.wanted - amount) rest)

pub while_shared_lem :
    {B : Type 0} (P : B → Type 0) (available : ℕ) (pending : List ℕ) (stop : B)
    (next : ℕ → List ℕ → B)
    → (available ≡ 0 → P stop)
    → (pending ≡ [] → P stop)
    → ((owner : ℕ) (rest : List ℕ) → 1 ≤ available → pending ≡ owner ∷ rest → P (next owner rest))
    → P (while_shared available pending stop next)
while_shared_lem P zero pending stop next f g h = f refl
while_shared_lem P (suc available) [] stop next f g h = g refl
while_shared_lem P (suc available) (owner ∷ rest) stop next f g h = h owner rest (omega arith) refl

module _ (now : ℕ) (reacts : List (ℕ × ℕ) → List Nested) where
  give-IsSound :
      (share owner : ℕ) (rest : List ℕ) (p : Pool)
      → p.pending ≡ owner ∷ rest
      → IsSound p
      → IsSound (give now reacts share owner rest p).pool
  unfolding give
  give-IsSound share owner rest p q s =
      with_leg_lem OutcomeIsSound (lookup owner p.legs) _ _
        (λ gone. pop-IsSound owner rest p q s λ leg e. absurd (ground (arith, gone, e)))
        λ leg e.
          let given = hand_out now (min share (min leg.wanted p.available)) owner rest leg p in
          if_lem OutcomeIsSound (leg.wanted == 0) _ _
            (λ h. pop-IsSound owner rest p q s λ other f. ground (arith, h, f, e))
            λ h. nested_all-IsSound now (reacts given.grants) given (
              hand_out-IsSound now share owner rest leg p q s e
                (All-lookup Fits owner p.legs leg s.3 e))

  round-IsSound : (n share : ℕ) (p : Pool) → IsSound p → IsSound (round now reacts n share p).pool
  unfolding round
  round-IsSound zero share p s = s
  round-IsSound (suc n) share p s =
      while_shared_lem OutcomeIsSound p.available p.pending _ _ (λ e. s) (λ e. s)
        λ owner rest some_left q.
          let first = give-IsSound share owner rest p q s in
          after_lem OutcomeIsSound (give now reacts share owner rest p) _ (round now reacts n share)
            first (round-IsSound n share (give now reacts share owner rest p).pool first)

  rounds-IsSound : (fuel : ℕ) (p : Pool) → IsSound p → IsSound (rounds now reacts fuel p).pool
  unfolding rounds
  rounds-IsSound zero p s = s
  rounds-IsSound (suc fuel) p s =
      while_shared_lem OutcomeIsSound p.available p.pending _ _ (λ e. s) (λ e. s)
        λ owner rest some_left q.
          let count = length p.pending in
          let share = max 1 (p.available / count) in
          let first = round-IsSound count share p s in
          after_lem OutcomeIsSound (round now reacts count share p) _ (rounds now reacts fuel) first
            (rounds-IsSound fuel (round now reacts count share p).pool first)

  distribute-IsSound : (p : Pool) → IsSound p → IsSound (distribute now reacts p).pool
  unfolding distribute
  distribute-IsSound p s =
      let fuel = sum_of (λ (l : Leg). l.wanted) p.legs + length p.pending in
      if_lem OutcomeIsSound p.closed _ _ (λ e. s) λ e. rounds-IsSound fuel p s

  demand-IsSound :
      (owner amount : ℕ) (limited : Bool) (p : Pool)
      → IsSound p
      → IsSound (demand now reacts owner amount limited p).pool
  unfolding demand
  demand-IsSound owner amount limited p s =
      on_leg OutcomeIsSound owner p _ _ s s λ leg e fits queued.
        if_lem OutcomeIsSound (p.closed || ltb circuit_window amount) _ _ (λ h. s)
          λ in_range.
            if_lem OutcomeIsSound (amount == 0) _ _
              (λ h.
                if_lem OutcomeIsSound leg.demand_open _ _ (λ g. cancel-IsSound owner p s) λ g. s)
              λ h.
                if_lem OutcomeIsSound
                  (not (leg.wanted == 0) || ltb circuit_window (leg.granted + amount)) _ _ (λ g. s)
                  λ small.
                    if_lem OutcomeIsSound
                      (limited
                        && (ltb leg.progress demand_progress
                            && ltb now (leg.last_demand_at + credit_idle_ms)))
                      _ _ (λ g. s)
                      λ g. distribute-IsSound _ (
                        changed-IsSound owner leg
                          (record leg {
                            last_demand_at = now;
                            progress = leg.progress - demand_progress;
                            demand_open = true;
                            wanted = amount;
                          })
                          p.available p.in_flight (p.pending ++ owner ∷ []) p e s refl
                          (ground (arith, fits, small))
                          (λ o differ there.
                            ground (arith, there, elem-append o p.pending (owner ∷ [])))
                          (ground (arith, elem-append owner p.pending (owner ∷ []))))

  returned-IsSound :
      (amount : ℕ) (p : Pool) → IsSound p → IsSound (returned now reacts amount p).pool
  unfolding returned
  returned-IsSound amount p s =
      if_lem OutcomeIsSound (p.closed || (ltb amount 1 || ltb p.in_flight amount)) _ _ (λ h. s)
        λ h. distribute-IsSound _ (ground (arith, s.0, h), s.1, s.2, s.3, s.4)

  release-IsSound :
      (owner amount : ℕ) (p : Pool) → IsSound p → IsSound (release now reacts owner amount p).pool
  unfolding release
  release-IsSound owner amount p s = on_leg OutcomeIsSound owner p _ _ s s λ leg e fits queued.
      if_lem OutcomeIsSound (is_releasable amount leg p) _ _
        (λ h. distribute-IsSound _ (give_back-IsSound owner amount leg p e s fits queued h)) λ h. s

  remove-IsSound : (owner : ℕ) (p : Pool) → IsSound p → IsSound (remove now reacts owner p).pool
  unfolding remove
  remove-IsSound owner p s =
      on_leg OutcomeIsSound owner p _ _ s s
        λ leg e fits queued. distribute-IsSound _ (leave-IsSound owner leg p e s)

sent-IsSound :
    (now owner amount : ℕ) (p : Pool) → IsSound p → IsSound (sent now owner amount p).pool
unfolding sent
sent-IsSound now owner amount p s = on_leg OutcomeIsSound owner p _ _ s s λ leg e fits queued.
    if_lem OutcomeIsSound (is_releasable amount leg p) _ _
      (λ h.
        changed-IsSound owner leg
          (record leg {
            granted = leg.granted - amount;
            progress = min (2 * demand_progress) (leg.progress + amount);
            last_activity = now;
            idle_timer = clear_idle (leg.granted - amount) leg.idle_timer;
          })
          p.available (p.in_flight + amount) p.pending p e s (ground arith) (ground (arith, fits))
          (λ o differ there. there) queued)
      λ h. s

check_idle-IsSound :
    (now owner : ℕ) (buffered : Bool) (leg : Leg) (p : Pool)
    → lookup owner p.legs ≡ some leg
    → IsSound p
    → Fits (owner, leg)
    → Queued p.pending (owner, leg)
    → IsSound (check_idle now owner buffered leg p)
unfolding check_idle
check_idle-IsSound now owner buffered leg p e s fits queued =
    let later = λ (time : ℕ) (timer : Option ℕ).
      changed-IsSound owner leg (record leg { last_activity = time; idle_timer = timer })
        p.available p.in_flight p.pending p e s refl fits (λ o differ h. h) queued in
    if_lem IsSound (p.closed || leg.granted == 0) _ _ (λ h. later leg.last_activity none)
      λ open_.
        if_lem IsSound buffered _ _ (λ h. later now (some credit_grant_idle_ms))
          λ quiet.
            if_lem IsSound (ltb 0 (leg.last_activity + credit_grant_idle_ms - now)) _ _
              (λ h. later leg.last_activity (some (leg.last_activity + credit_grant_idle_ms - now)))
              λ h. later leg.last_activity none

pub if_armed_lem :
    (P : Pool → Type 0) (timer : Option ℕ) (p q : Pool) → P p → P q → P (if_armed timer p q)
if_armed_lem P none p q g h = g
if_armed_lem P (some delay) p q g h = h

idle_fires-IsSound :
    (now owner : ℕ) (buffered : Bool) (p : Pool)
    → IsSound p
    → IsSound (idle_fires now owner buffered p)
unfolding idle_fires
idle_fires-IsSound now owner buffered p s = on_leg IsSound owner p p _ s s λ leg e fits queued.
    if_armed_lem IsSound leg.idle_timer p (check_idle now owner buffered leg p) s
      (check_idle-IsSound now owner buffered leg p e s fits queued)

pub step-IsSound : (c : Call) (p : Pool) → IsSound p → IsSound (step c p).pool
unfolding step
step-IsSound (adds owner) p s = add-IsSound owner p s
step-IsSound (demands now reacts owner amount limited) p s =
    demand-IsSound now reacts owner amount limited p s
step-IsSound (sends now owner amount) p s = sent-IsSound now owner amount p s
step-IsSound (touches_now now owner) p s = touch-IsSound now owner p s
step-IsSound (returns now reacts amount) p s = returned-IsSound now reacts amount p s
step-IsSound (releases_now now reacts owner amount) p s =
    release-IsSound now reacts owner amount p s
step-IsSound (cancels_now owner) p s = cancel-IsSound owner p s
step-IsSound (removes_now now reacts owner) p s = remove-IsSound now reacts owner p s
step-IsSound (idles now owner buffered) p s = idle_fires-IsSound now owner buffered p s
step-IsSound destroys_now p s = destroy-IsSound p

pub play_from : (calls : List Call) (p : Pool) → IsSound p → IsSound (play calls p)
unfolding play
play_from [] p s = s
play_from (c ∷ rest) p s = play_from rest (step c p).pool (step-IsSound c p s)

-- Whatever calls arrive at a new pool, and whatever `onGrant` does during them, the credit that is
-- available, granted and in flight adds up to the window of the circuit as long as the pool is open;
-- at most 64 legs are in it, each of which holds and asks for no more than the window, has earned
-- two renewals at most, and stands in the queue while it asks for credit.
pub play-IsSound : (calls : List Call) → IsSound (play calls construct)
unfolding construct
play-IsSound calls = play_from calls construct (refl, omega arith, tt, tt, tt)
