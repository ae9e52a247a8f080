-- ===== src/Counters/Receiver/Next.antt =====
-- About `pushAuthenticated` of lib/private/counters.js with the next counter.
use hyperdht.Prelude.{
  ℕ, zero, suc, ◌+◌, ◌≤◌, ◌<◌, ◌≡◌, ◌⊎◌, refl, ◌∙◌, ap, true, false, Option, none, some, List, [],
  ◌∷◌, inl, inr, arith, ◌==◌, Bool-cases, Option-cases, length,
}
use hyperdht.Prelude.Assoc.{lookup, delete, length-delete, has-lookup}
use hyperdht.Prelude.Int.{pos}
use hyperdht.Errors.{Result, ok}
use hyperdht.Values.{bigint, integer, max_safe_integer}
use hyperdht.Counters.Receiver.{
  Payload, Receiver, Reading, Observation, continue, ◌>>◌, read_now, expire_at, drain, deliver,
  place, check_gap, push_authenticated, push, leave,
}

drain_complete :
    (f : ℕ) (r : Receiver)
    → length r.buffer < f
    → lookup (drain f r).0.next (drain f r).0.buffer ≡ none
unfolding drain
drain_complete zero r h = elim h [ ]
drain_complete (suc f) r h = elim (Option-cases (lookup r.next r.buffer)) [
  | inl stop ↦ ground arith
  | inr (p, found) ↦
      let next : Receiver = record r { buffer = delete r.next r.buffer; next = r.next + 1 } in
      ground (arith, drain_complete f next, length-delete r.next r.buffer p found)
]

quiet-drain : (f : ℕ) (r : Receiver) → (drain f r).0.destroy_requested ≡ r.destroy_requested
unfolding drain
quiet-drain zero r = refl
quiet-drain (suc f) r =
    ground (arith, quiet-drain f (record r { buffer = delete r.next r.buffer; next = r.next + 1 }))

-- No gap is open, or the clock says that the open one is not over.
abbrev pub InTime : Receiver → Reading → Type 0
InTime r reading =
    (r.gap_started_at ≡ none)
    ⊎ ((t g l : ℕ) × (reading.value ≡ some (integer (pos t)))
        × (reading.destroys ≡ false)
        × (t ≤ max_safe_integer)
        × (r.gap_started_at ≡ some g)
        × (r.last_observed_at ≡ some l)
        × (l ≤ t)
        × (t < g + r.gap_timeout))

-- A receiver between two calls that was not closed.
pub record IsReady (r : Receiver) : Type 0 where
  pub opened : r.closed ≡ false
  pub idle : r.mutating ≡ false
  pub quiet : r.destroy_requested ≡ false
  pub within : r.next ≤ r.maximum

-- After the check of the gap a push of the next counter delivers from the same place.
deliver_complete :
    (r : Receiver) (p : Payload)
    → r.destroy_requested ≡ false
    → ((deliver p r).0.destroy_requested ≡ false)
      × ((rest : List Payload) × ((deliver p r).1 ≡ ok (p ∷ rest)))
      × (lookup (deliver p r).0.next (deliver p r).0.buffer ≡ none)
unfolding deliver
deliver_complete r p q = elim (Bool-cases (r.next == r.maximum)) [
  | inl last ↦ (ground arith, ([], ground arith), ground arith)
  | inr more ↦
      let s : Receiver = record r { next = r.next + 1 } in
      let f = suc (length r.buffer) in
      let calm : (drain f s).0.destroy_requested ≡ false = quiet-drain f s ∙ q in
      let done = drain_complete f s (omega arith) in
      (ground arith, ((drain f s).1, ground arith), ground arith)
]

check_gap-InTime :
    (r : Receiver) (reading : Reading)
    → InTime r reading
    → r.closed ≡ false
    → r.destroy_requested ≡ false
    → (l : Option ℕ) × (check_gap reading r ≡ (record r { last_observed_at = l }, ok tt))
unfolding read_now expire_at
check_gap-InTime r reading (inl none_open) o q = (r.last_observed_at, ground arith)
check_gap-InTime r reading (inr (t, g, l, shown, kept, safe, gap, last, after, before)) o q =
    (some t, ground arith)

place_next :
    (r : Receiver) (p : Payload) (reading : Reading) (o : Observation)
    → lookup r.next r.buffer ≡ none
    → place r.next p reading o r ≡ deliver p r
unfolding place
place_next r p reading o missing = ground (arith, has-lookup r.next r.buffer missing)

push_authenticated_next :
    (r u : Receiver) (p : Payload) (reading : Reading) (o : Observation)
    → r.closed ≡ false
    → check_gap reading r ≡ (u, ok tt)
    → push_authenticated r.next p reading o r ≡ place r.next p reading o u
unfolding push_authenticated
push_authenticated_next r u p reading o opened gap =
    let run : push_authenticated r.next p reading o r
        ≡ (check_gap reading >> place r.next p reading o) r =
      ground arith in
    run
    ∙ ap (λ (y : Receiver × Result (Unit {0})). continue y.0 y.1 (λ _. place r.next p reading o))
        gap

push-leave :
    (r : Receiver) (p : Payload) (reading : Reading) (o : Observation)
    → r.mutating ≡ false
    → r.next ≤ r.maximum
    → push (bigint (pos r.next)) p reading o r
      ≡ leave (push_authenticated r.next p reading o (record r { mutating = true }))
unfolding push
push-leave r p reading o idle within = ground arith

-- Of a receiver between two calls that is open, has not buffered its next counter, and whose gap, if
-- one is open, is not over by the clock: pushing the next counter returns its payload first, and
-- afterwards the payload of the next counter is again not in the buffer, so everything that
-- had become consecutive was delivered.
pub push_next :
    (r : Receiver) (p : Payload) (reading : Reading) (o : Observation)
    → IsReady r
    → lookup r.next r.buffer ≡ none
    → InTime r reading
    → ((rest : List Payload) × ((push (bigint (pos r.next)) p reading o r).1 ≡ ok (p ∷ rest)))
      × (lookup
            (push (bigint (pos r.next)) p reading o r).0.next
            (push (bigint (pos r.next)) p reading o r).0.buffer
          ≡ none)
push_next r p reading o v missing time =
    let s : Receiver = record r { mutating = true } in
    let (l, gap) = check_gap-InTime s reading time v.opened v.quiet in
    let u : Receiver = record s { last_observed_at = l } in
    let (calm, (rest, out), done) = deliver_complete u p v.quiet in
    let run : push (bigint (pos r.next)) p reading o r ≡ leave (deliver p u) =
      push-leave r p reading o v.idle v.within
      ∙ ap leave (
          push_authenticated_next s u p reading o v.opened gap
          ∙ place_next u p reading o missing) in
    rw run ((rest, out), ground arith)
