-- ===== src/Counters/Receiver/History.antt =====
-- About `OrderedReceiver` of lib/private/counters.js: what each operation delivers.
use hyperdht.Prelude.{
  ℕ, ◌+◌, ◌≡◌, refl, ◌∙◌, ap, Bool, true, false, List, [], inl, inr, arith, ltb, Bool-cases, dec_lt,
  Option-cases, length,
}
use hyperdht.Prelude.Int.{pos}
use hyperdht.Errors.{Result, ok, err}
use hyperdht.Values.{Value, bigint}
use hyperdht.Counters.Receiver.{
  Payload, Receiver, Reading, Observation, Op, current_time, expire_now, discard, continue, ◌>>=◌,
  ◌>>◌, destroy, read_now, expire_at, hold, place, check_gap, push_authenticated, push, expire,
  leave,
}
use hyperdht.Counters.Receiver.Waits.{
  Waits-continue, Waits-current_time, IsQuiet, Waits-expire_at, Waits-check_gap,
}
use hyperdht.Counters.Receiver.Order.{
  stream, delivered, Tagged, Moved, Stays, Stays-Waits, Silent, Moved-deliver, Silent-hold,
}

read_now_open :
    (r : Receiver) (c : Reading) (t : ℕ)
    → r.closed ≡ false
    → (read_now c r).1 ≡ ok t
    → (read_now c r).0.closed ≡ false
unfolding read_now
read_now_open r c t o e = ground arith

expire_at_open :
    (r : Receiver) (t : ℕ) (b : Bool)
    → r.closed ≡ false
    → (expire_at t r).1 ≡ ok b
    → (expire_at t r).0.closed ≡ false
unfolding expire_at
expire_at_open r t b o e = ground arith

open_continue :
    {A B : Type 0} (s : Receiver) (x : Result A) (f : A → Op B) (b : B)
    → ((a : A) → x ≡ ok a → (f a s).1 ≡ ok b → (f a s).0.closed ≡ false)
    → (continue s x f).1 ≡ ok b
    → (continue s x f).0.closed ≡ false
open_continue s (ok a) f b h e = h a refl e
open_continue s (err x) f b h e = cc

check_gap_open :
    (r : Receiver) (c : Reading) (u : Unit {0})
    → r.closed ≡ false
    → (check_gap c r).1 ≡ ok u
    → (check_gap c r).0.closed ≡ false
check_gap_open r c u o e = elim (Option-cases r.gap_started_at) [
  | inl quiet ↦ rw (quiet, check_gap) o
  | inr (g, gap) ↦ rw (gap, check_gap) (timed (rw (gap, check_gap) at e))
]
  where
    s : Receiver
    s = (read_now c r).0

    timed : (expire_now c r).1 ≡ ok u → (expire_now c r).0.closed ≡ false
    timed =
        open_continue s (read_now c r).1 (λ t. expire_at t >>= discard) u
          λ t read.
            open_continue (expire_at t s).0 (expire_at t s).1 discard u
              (λ b kept _. expire_at_open s t b (read_now_open r c t o read) kept)

module _ (msg : ℕ → Payload) where
  Moved-Silent :
      (r s : Receiver) (x : Result (List Payload))
      → Silent msg r (s, x)
      → Tagged msg r
      → Moved msg r (delivered x) s
  unfolding stream
  Moved-Silent r s x h t = ground arith

  Moved-place :
      (r : Receiver) (c : ℕ) (reading : Reading) (o : Observation)
      → Tagged msg r
      → IsQuiet r
      → Moved msg r (delivered (place c (msg c) reading o r).1) (place c (msg c) reading o r).0
  unfolding place stream
  Moved-place r c reading o t q = elim (dec_lt r.next c) [
    | yes above ↦ ground (
      arith,
      Moved-Silent r (hold c (msg c) reading o r).0 (hold c (msg c) reading o r).1
          (Silent-hold msg r c (msg c) reading o refl) t,
    )
    | no below ↦ ground (arith, Moved-deliver msg r (msg c))
  ]

  Moved-after :
      (r s t : Receiver) (out : List Payload)
      → Stays msg r s
      → s.closed ≡ false
      → r.closed ≡ false
      → Moved msg s out t
      → Moved msg r out t
  Moved-after r s t out w o p m =
      let same = (w.0 o).1 in
      (
        rw (← same) m.0,
        (λ c. (p, (m.1 c).1 ∙ ap (λ (n : ℕ). n + length out) same)),
        m.2,
        (λ q. m.3 (w.2 q)),
      )

  Moved-push_authenticated :
      (r : Receiver) (c : ℕ) (reading : Reading) (o : Observation)
      → Tagged msg r
      → IsQuiet r
      → Moved msg r
          (delivered (push_authenticated c (msg c) reading o r).1)
          (push_authenticated c (msg c) reading o r).0
  unfolding push_authenticated stream
  Moved-push_authenticated r c reading o t q = elim (Bool-cases r.closed) [
    | inl shut ↦ ground arith
    | inr opened ↦
        let run : push_authenticated c (msg c) reading o r
            ≡ (check_gap reading >> place c (msg c) reading o) r =
          ground arith in
        rw run (gap opened (check_gap reading r).1 refl)
  ]
    where
      s : Receiver
      s = (check_gap reading r).0

      still : Stays msg r s
      still = Stays-Waits msg r s (Waits-check_gap r reading)

      gap :
          r.closed ≡ false
          → (x : Result (Unit {0})) → (check_gap reading r).1 ≡ x
          → Moved msg r
              (delivered (continue s x (λ _. place c (msg c) reading o)).1)
              (continue s x (λ _. place c (msg c) reading o)).0
      gap opened (ok u) e =
          let alive = check_gap_open r reading u opened e in
          Moved-after r s (place c (msg c) reading o s).0
            (delivered (place c (msg c) reading o s).1) still alive opened
            (Moved-place s c reading o (still.1 t) (still.2 q))
      gap opened (err x) e = Moved-Silent r s (err x) (refl, still) t

  -- `#mutate` around an operation.
  Moved-leave :
      (r : Receiver) (y : Receiver × Result (List Payload))
      → Moved msg r (delivered y.1) y.0
      → Moved msg r (delivered (leave y).1) (leave y).0
  Moved-leave r (s, x) m = ground arith

  pub Moved-push :
      (r : Receiver) (c : ℕ) (reading : Reading) (o : Observation)
      → Tagged msg r
      → IsQuiet r
      → Moved msg r
          (delivered (push (bigint (pos c)) (msg c) reading o r).1)
          (push (bigint (pos c)) (msg c) reading o r).0
  unfolding push stream
  Moved-push r c reading o t q = elim (Bool-cases r.mutating) [
    | inl busy ↦ ground arith
    | inr idle ↦ elim (Bool-cases (ltb r.maximum c)) [
      | inl above ↦ ground arith
      | inr within ↦
          let s : Receiver = record r { mutating = true } in
          let run : push (bigint (pos c)) (msg c) reading o r
              ≡ leave (push_authenticated c (msg c) reading o s) =
            ground arith in
          rw run (
            Moved-leave r (push_authenticated c (msg c) reading o s)
              (Moved-push_authenticated s c reading o t q))
    ]
  ]

  pub Moved-expire :
      (r : Receiver) (at : Value) (reading : Reading)
      → Tagged msg r
      → Moved msg r [] (expire at reading r).0
  unfolding expire stream
  Moved-expire r at reading t = elim (Bool-cases r.mutating) [
    | inl busy ↦ ground arith
    | inr idle ↦ elim (Bool-cases r.closed) [
      | inl shut ↦ ground arith
      | inr opened ↦
          let s : Receiver = record r { mutating = true } in
          let u = (current_time at reading s).0 in
          let w =
            Waits-continue s u (current_time at reading s).1 expire_at
              (Waits-current_time s at reading) (λ n. Waits-expire_at u n) in
          let run : (expire at reading r).0
              ≡ (leave ((current_time at reading >>= expire_at) s)).0 =
            ground arith in
          let v = ((current_time at reading >>= expire_at) s).0 in
          rw run
            (Moved-leave s (v, ok []) (Moved-Silent s v (ok []) (refl, Stays-Waits msg s v w) t))
    ]
  ]

  pub Moved-destroy : (r : Receiver) → Tagged msg r → Moved msg r [] (destroy r)
  unfolding destroy stream
  Moved-destroy r t = ground arith
