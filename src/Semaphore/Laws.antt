-- ===== src/Semaphore/Laws.antt =====
-- About the class `Semaphore` of lib/semaphore.js: sequences of its calls.
use hyperdht.Prelude.{
  ℕ, zero, suc, ◌≤◌, ◌≡◌, refl, ap, ◌∙◌, Bool, true, Option, none, some, List, [], ◌∷◌, ◌++◌, arith,
  Bool-cases, Option-cases, inl, inr,
}
use hyperdht.Prelude.Int.{ℤ, pos, negsuc}
use hyperdht.Semaphore.{
  Semaphore, construct, is_below, is_empty, increment, decrement, wait, Served, serve, finish_flush,
  signal, flush, destroy,
}

pub data Call : Type 0 where
  waits : ℕ → Call
  signals : Call
  flushes : ℕ → Call
  destroys : Call

unfoldable pub step : Call → Semaphore → Semaphore
unfolding wait signal flush destroy
step (waits promise) s = (wait promise s).0
step signals s = signal s
step (flushes promise) s = (flush promise s).0
step destroys s = destroy s

unfoldable pub run : List Call → Semaphore → Semaphore
unfolding step
run [] s = s
run (c ∷ rest) s = run rest (step c s)

abbrev pub IsAtMost : ℤ → ℕ → Type 0
IsAtMost (pos n) limit = n ≤ limit
IsAtMost (negsuc n) limit = Unit

-- At most `limit` are active, and nobody waits while fewer are.
abbrev pub IsFair : Semaphore → Type 0
IsFair s = IsAtMost s.active s.limit × (is_below s.active s.limit ≡ true → s.waiting ≡ [])

increment-IsAtMost : (a : ℤ) (limit : ℕ) → is_below a limit ≡ true → IsAtMost (increment a) limit
increment-IsAtMost (pos n) limit h = ground arith
increment-IsAtMost (negsuc zero) limit h = ground arith
increment-IsAtMost (negsuc (suc n)) limit h = tt

decrement-IsAtMost : (a : ℤ) (limit : ℕ) → IsAtMost a limit → IsAtMost (decrement a) limit
decrement-IsAtMost (pos zero) limit h = tt
decrement-IsAtMost (pos (suc n)) limit h = omega arith
decrement-IsAtMost (negsuc n) limit h = tt

abbrev IsServed : ℕ → Served → Type 0
IsServed limit r = IsAtMost r.active limit × (is_below r.active limit ≡ true → r.waiting ≡ [])

serve-IsServed :
    (limit : ℕ) (a : ℤ) (waiting : List ℕ)
    → IsAtMost a limit
    → IsServed limit (serve limit a waiting)
unfolding serve
serve-IsServed limit a [] h = (h, λ _. refl)
serve-IsServed limit a (w ∷ rest) h = elim (Bool-cases (is_below a limit)) [
  | inl e ↦
      let later = serve-IsServed limit (increment a) rest (increment-IsAtMost a limit e) in
      ground arith
  | inr e ↦ ground arith
]

finish_flush-IsFair : (s : Semaphore) (o : Option ℕ) → IsFair s → IsFair (finish_flush s o)
finish_flush-IsFair s none h = h
finish_flush-IsFair s (some promise) h = ground arith

signal-IsFair : (s : Semaphore) → IsFair s → IsFair (signal s)
unfolding signal
signal-IsFair s h =
    let served = serve s.limit (decrement s.active) s.waiting in
    let fair =
      serve-IsServed s.limit (decrement s.active) s.waiting
        (decrement-IsAtMost s.active s.limit h.0) in
    elim (Bool-cases s.destroyed) [
      | inl e ↦ ground arith
      | inr e ↦
          let last =
            finish_flush-IsFair
              (record s {
                active = served.active;
                waiting = served.waiting;
                settled = s.settled ++ served.resolved;
              })
              s.flushed_promise fair in
          ground arith
    ]

wait-IsFair : (promise : ℕ) (s : Semaphore) → IsFair s → IsFair (wait promise s).0
unfolding wait
wait-IsFair promise s h = elim (Bool-cases (is_below s.active s.limit)) [
  | inl below ↦
      let none_waits = ap is_empty (h.1 below) in
      let more = increment-IsAtMost s.active s.limit below in ground arith
  | inr full ↦ ground arith
]

flush-IsFair : (promise : ℕ) (s : Semaphore) → IsFair s → IsFair (flush promise s).0
unfolding flush
flush-IsFair promise s h = elim (Option-cases s.flushed_promise) [
  | inl e ↦ ground arith
  | inr (p, e) ↦ ground arith
]

run_from : (calls : List Call) (s : Semaphore) → IsFair s → IsFair (run calls s)
unfolding run step destroy
run_from [] s h = h
run_from (waits promise ∷ rest) s h =
    run_from rest (step (waits promise) s) (wait-IsFair promise s h)
run_from (signals ∷ rest) s h = run_from rest (step signals s) (signal-IsFair s h)
run_from (flushes promise ∷ rest) s h =
    run_from rest (step (flushes promise) s) (flush-IsFair promise s h)
run_from (destroys ∷ rest) s h = run_from rest (step destroys s) (omega arith, λ _. refl)

-- For every limit and every sequence of calls on a new semaphore: at most `limit` are active, and
-- while fewer are, nobody waits.
pub run-IsFair : (limit : ℕ) (calls : List Call) → IsFair (run calls (construct limit))
unfolding construct
run-IsFair limit calls = run_from calls (construct limit) (omega arith, λ _. refl)

-- The promises that were settled.
abbrev pub promises : List (ℕ × Bool) → List ℕ
promises [] = []
promises ((p, result) ∷ rest) = p ∷ promises rest

promises-append : (a b : List (ℕ × Bool)) → promises (a ++ b) ≡ promises a ++ promises b
promises-append [] b = refl
promises-append ((p, result) ∷ rest) b = ap (λ t. p ∷ t) (promises-append rest b)

serve-promises :
    (limit : ℕ) (a : ℤ) (waiting : List ℕ)
    → promises (serve limit a waiting).resolved ++ (serve limit a waiting).waiting ≡ waiting
unfolding serve
serve-promises limit a [] = refl
serve-promises limit a (w ∷ rest) = ground (arith, serve-promises limit (increment a) rest)

append_regroup : (a b c : List ℕ) → (a ++ b) ++ c ≡ a ++ (b ++ c)
append_regroup [] b c = refl
append_regroup (x ∷ a) b c = ap (λ t. x ∷ t) (append_regroup a b c)

finish_flush-promises :
    (s : Semaphore) (o : Option ℕ)
    → promises (finish_flush s o).settled ++ (finish_flush s o).waiting
      ≡ promises s.settled ++ s.waiting
finish_flush-promises s none = refl
finish_flush-promises s (some p) = ground arith

-- For every semaphore: `signal` keeps the line of the settled promises followed by the waiting ones.
pub signal-promises :
    (s : Semaphore)
    → promises (signal s).settled ++ (signal s).waiting ≡ promises s.settled ++ s.waiting
unfolding signal
signal-promises s =
    let served = serve s.limit (decrement s.active) s.waiting in
    let order : promises (s.settled ++ served.resolved) ++ served.waiting
        ≡ promises s.settled ++ s.waiting =
      ap (λ t. t ++ served.waiting) (promises-append s.settled served.resolved)
      ∙ append_regroup (promises s.settled) (promises served.resolved) served.waiting
      ∙ ap (λ t. promises s.settled ++ t) (serve-promises s.limit (decrement s.active) s.waiting) in
    ground (
      arith,
      finish_flush-promises
          (record s {
            active = served.active;
            waiting = served.waiting;
            settled = s.settled ++ served.resolved;
          })
          s.flushed_promise,
    )
