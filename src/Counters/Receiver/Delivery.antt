-- ===== src/Counters/Receiver/Delivery.antt =====
-- About `OrderedReceiver` of lib/private/counters.js: histories of calls and what they deliver.
use hyperdht.Prelude.{
  ℕ, zero, suc, ◌+◌, ◌≡◌, refl, ◌∙◌, ap, ap₂, sym, Bool, true, false, List, [], ◌∷◌, ◌++◌, inl, inr,
  arith, Bool-cases, length, length-append,
}
use mathlib.Core.List.{append-nil}
use mathlib.Core.Bool.{false≢true}
use hyperdht.Prelude.Int.{pos}
use hyperdht.Errors.{ok}
use hyperdht.Values.{Value, bigint, Options}
use hyperdht.Counters.Receiver.{
  Payload, Receiver, Reading, Observation, destroy, push_authenticated, push, expire,
}
use hyperdht.Counters.Receiver.History.{Moved-push, Moved-expire, Moved-destroy}
use hyperdht.Counters.Receiver.Construct.{ReceiverOptions, construct, construct_parts}
use hyperdht.Counters.Receiver.Waits.{IsQuiet}
use hyperdht.Counters.Receiver.Order.{stream, delivered, Tagged, Moved}

-- What the owner of a receiver does: authenticated payloads arrive, time passes, it is destroyed.
pub data Call : Type 0 where
  pushes : ℕ → Reading → Observation → Call
  expires : Value → Reading → Call
  destroys : Call

-- One call, where counter c carries the payload `msg c`.
pub step : (ℕ → Payload) → Receiver → Call → Receiver × List Payload
step msg r (pushes c reading o) =
    let (r', x) = push (bigint (pos c)) (msg c) reading o r in (r', delivered x)
step msg r (expires at reading) = ((expire at reading r).0, [])
step msg r destroys = (destroy r, [])

-- All that a history delivers, in order.
pub received : (ℕ → Payload) → Receiver → List Call → List Payload
received msg r [] = []
received msg r (c ∷ cs) = let (r', out) = step msg r c in out ++ received msg r' cs

module _ (msg : ℕ → Payload) where
  Moved-step :
      (r : Receiver) (c : Call)
      → Tagged msg r
      → IsQuiet r
      → Moved msg r (step msg r c).1 (step msg r c).0
  unfolding step
  Moved-step r (pushes c reading o) t q = Moved-push msg r c reading o t q
  Moved-step r (expires at reading) t q = Moved-expire msg r at reading t
  Moved-step r destroys t q = Moved-destroy msg r t

  stream-append : (a m n : ℕ) → stream msg a m ++ stream msg (a + m) n ≡ stream msg a (m + n)
  unfolding stream
  stream-append a zero n = ground arith
  stream-append a (suc m) n =
      let shift : a + suc m ≡ a + 1 + m = omega arith in
      let more : suc m + n ≡ suc (m + n) = omega arith in
      rw (more, shift) (ap (◌∷◌ (msg a)) (stream-append (a + 1) m n))

  closed_step :
      (r : Receiver) (x : Call)
      → Tagged msg r
      → IsQuiet r
      → r.closed ≡ true
      → ((step msg r x).1 ≡ []) × ((step msg r x).0.closed ≡ true)
  closed_step r x t q c = (silent x, still (step msg r x).0.closed refl)
    where
      silent : (x : Call) → (step msg r x).1 ≡ []
      silent (pushes n reading o) = unfold step push push_authenticated in ground arith
      silent (expires at reading) = unfold step in refl
      silent destroys = unfold step in refl

      still : (b : Bool) → (step msg r x).0.closed ≡ b → (step msg r x).0.closed ≡ true
      still true e = e
      still false e = absurd (false≢true (sym ((Moved-step r x t q).1 e).0 ∙ c))

  closed_received :
      (cs : List Call) (r : Receiver)
      → Tagged msg r
      → IsQuiet r
      → r.closed ≡ true
      → received msg r cs ≡ []
  unfolding received
  closed_received [] r t q c = refl
  closed_received (x ∷ cs) r t q c =
      let (nothing, shut) = closed_step r x t q c in
      let m = Moved-step r x t q in
      rw nothing (closed_received cs (step msg r x).0 m.2 (m.3 q) shut)

  received_lem :
      (cs : List Call) (r : Receiver)
      → Tagged msg r
      → IsQuiet r
      → received msg r cs ≡ stream msg r.next (length (received msg r cs))
  unfolding received stream
  received_lem [] r t q = refl
  received_lem (x ∷ cs) r t q = elim (Bool-cases (step msg r x).0.closed) [
    | inl shut ↦
        rw (closed_received cs (step msg r x).0 m.2 (m.3 q) shut, append-nil (step msg r x).1) m.0
    | inr opened ↦
        let out = (step msg r x).1 in
        let rest = received msg (step msg r x).0 cs in
        let follows : rest ≡ stream msg (r.next + length out) (length rest) =
          rw (← (m.1 opened).1) (received_lem cs (step msg r x).0 m.2 (m.3 q)) in
        rw (length-append out rest)
          (ap₂ ◌++◌ m.0 follows ∙ stream-append r.next (length out) (length rest))
  ]
    where
      m : Moved msg r (step msg r x).1 (step msg r x).0
      m = Moved-step r x t q

-- Counter c carries the payload `msg c`. For every receiver that `new OrderedReceiver` returns and
-- every list of calls (pushes of any counters in any order with any clock and observer, `expire`,
-- `destroy`), the payloads delivered, in order, are those of the counters from the initial one on,
-- each once and without a gap.
pub received-stream :
    (msg : ℕ → Payload) (given : Options ReceiverOptions) (r : Receiver) (cs : List Call)
    → construct given ≡ ok r
    → received msg r cs ≡ stream msg r.next (length (received msg r cs))
received-stream msg given r cs made =
    let (empty, quiet) = construct_parts given r made in
    received_lem msg cs r (rw empty tt) (λ d. absurd (false≢true (sym quiet ∙ d)))
