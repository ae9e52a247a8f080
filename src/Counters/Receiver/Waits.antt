-- ===== src/Counters/Receiver/Waits.antt =====
-- The operations of a receiver that deliver nothing and put nothing into the buffer.
use hyperdht.Prelude.{ℕ, ◌≡◌, true, false, [], ◌⊎◌, inl, inr, arith, Option-cases}
use hyperdht.Errors.{Result, ok, err}
use hyperdht.Values.{Value, undefined}
use hyperdht.Counters.Receiver.{
  Payload, Receiver, Reading, Observation, Op, current_time, clock_value, continue, read_now,
  expire_at, copy_for_buffer, notify_observer, check_gap,
}

-- A destruction that waits for the end of an operation has closed the receiver already.
abbrev pub IsQuiet : Receiver → Type 0
IsQuiet r = r.destroy_requested ≡ true → r.closed ≡ true

-- An operation that delivers nothing: an open receiver afterwards was open before, at the same next
-- counter, and the buffer is as it was or empty.
abbrev pub Waits : Receiver → Receiver → Type 0
Waits r r' =
    (r'.closed ≡ false → (r.closed ≡ false) × (r'.next ≡ r.next))
    × ((r'.buffer ≡ r.buffer) ⊎ (r'.buffer ≡ []))
    × (IsQuiet r → IsQuiet r')

pub Waits-read_now : (r : Receiver) (c : Reading) → Waits r (read_now c r).0
unfolding read_now
Waits-read_now r c = ground arith

pub Waits-expire_at : (r : Receiver) (t : ℕ) → Waits r (expire_at t r).0
unfolding expire_at
Waits-expire_at r t = ground arith

pub Waits-copy_for_buffer : (r : Receiver) (p : Payload) → Waits r (copy_for_buffer p r).0
unfolding copy_for_buffer
Waits-copy_for_buffer r p = ground arith

pub Waits-notify_observer : (r : Receiver) (o : Observation) → Waits r (notify_observer o r).0
unfolding notify_observer
Waits-notify_observer r o = ground arith

pub Waits-refl : (r : Receiver) → Waits r r
Waits-refl r = ground arith

pub Waits-trans : (r s t : Receiver) → Waits r s → Waits s t → Waits r t
Waits-trans r s t p q = ground arith

pub Waits-continue :
    {A B : Type 0} (r s : Receiver) (x : Result A) (f : A → Op B)
    → Waits r s
    → ((a : A) → Waits s (f a s).0)
    → Waits r (continue s x f).0
Waits-continue r s (ok a) f p q = Waits-trans r s (f a s).0 p (q a)
Waits-continue r s (err e) f p q = p

pub Waits-check_gap : (r : Receiver) (c : Reading) → Waits r (check_gap c r).0
Waits-check_gap r c = elim (Option-cases r.gap_started_at) [
  | inl quiet ↦ rw (quiet, check_gap) (Waits-refl r)
  | inr (g, gap) ↦
      rw (gap, check_gap)
        (Waits-continue r (read_now c r).0 (read_now c r).1 _ (Waits-read_now r c) λ t.
          let s = (read_now c r).0 in
          Waits-continue s (expire_at t s).0 (expire_at t s).1 _ (Waits-expire_at s t)
            (λ _. Waits-refl (expire_at t s).0))
]

Waits-clock_value : (r : Receiver) (v : Value) → Waits r (clock_value v r).0
Waits-clock_value r v = ground arith

pub Waits-current_time : (r : Receiver) (v : Value) (c : Reading) → Waits r (current_time v c r).0
Waits-current_time r undefined c = Waits-read_now r c
Waits-current_time r v c = Waits-clock_value r v
