-- ===== src/Counters/Receiver/Order.antt =====
-- About `OrderedReceiver` of lib/private/counters.js: the counters of the payloads it delivers.
use hyperdht.Prelude.{
  ℕ, zero, suc, ◌+◌, ◌≡◌, refl, ◌∙◌, false, Option, none, some, List, [], ◌∷◌, inl, inr, arith,
  Option-cases, length, All,
}
use hyperdht.Prelude.Assoc.{lookup, delete, All-delete, All-append_one, All-lookup}
use hyperdht.Errors.{Result, ok, err}
use hyperdht.Counters.Receiver.{
  Payload, Receiver, Reading, Observation, finish_hold, store_held, copy_held, keep, pure,
  assert_no_deferred_destroy, Op, continue, put, open_gap, starts_gap, ◌>>◌, read_now,
  copy_for_buffer, notify_observer, drain, deliver, hold,
}
use hyperdht.Counters.Receiver.Waits.{
  IsQuiet, Waits-continue, Waits-refl, Waits, Waits-read_now, Waits-copy_for_buffer,
  Waits-notify_observer,
}

-- The payloads of the counters from `a` on.
unfoldable pub stream : (ℕ → Payload) → ℕ → ℕ → List Payload
stream msg a zero = []
stream msg a (suc n) = msg a ∷ stream msg (a + 1) n

abbrev pub delivered : Result (List Payload) → List Payload
delivered (ok out) = out
delivered (err e) = []

module _ (msg : ℕ → Payload) where
  -- Every buffered payload is the one of its counter.
  abbrev pub Tagged : Receiver → Type 0
  Tagged r = All (λ (e : ℕ × Payload). e.1 ≡ msg e.0) r.buffer

  -- From `r` the payloads `out` were delivered, and the receiver is now `r'`.
  abbrev pub Moved : Receiver → List Payload → Receiver → Type 0
  Moved r out r' =
      (out ≡ stream msg r.next (length out))
      × (r'.closed ≡ false → (r.closed ≡ false) × (r'.next ≡ r.next + length out))
      × Tagged r'
      × (IsQuiet r → IsQuiet r')

  Moved-drain : (f : ℕ) (r : Receiver) → Tagged r → Moved r (drain f r).1 (drain f r).0
  unfolding drain stream
  Moved-drain zero r t = ground arith
  Moved-drain (suc f) r t =
      let next : Receiver = record r { buffer = delete r.next r.buffer; next = r.next + 1 } in
      let rest =
        Moved-drain f next (All-delete (λ (e : ℕ × Payload). e.1 ≡ msg e.0) r.next r.buffer t) in
      elim (Option-cases (lookup r.next r.buffer)) [
        | inl stop ↦ ground arith
        | inr (p, found) ↦
            ground (
              arith,
              rest,
              All-lookup (λ (e : ℕ × Payload). e.1 ≡ msg e.0) r.next r.buffer p t found,
            )
      ]

  pub Moved-deliver :
      (r : Receiver) (p : Payload)
      → p ≡ msg r.next
      → Tagged r
      → IsQuiet r
      → Moved r (delivered (deliver p r).1) (deliver p r).0
  unfolding deliver stream
  Moved-deliver r p same t q =
      ground (arith, Moved-drain (suc (length r.buffer)) (record r { next = r.next + 1 }) t)

  -- An operation that leaves the counters where they are.
  abbrev pub Stays : Receiver → Receiver → Type 0
  Stays r s =
      (s.closed ≡ false → (r.closed ≡ false) × (s.next ≡ r.next))
      × (Tagged r → Tagged s)
      × (IsQuiet r → IsQuiet s)

  pub Stays-Waits : (r s : Receiver) → Waits r s → Stays r s
  Stays-Waits r s (c, inl e, q) = (c, (λ t. rw e t), q)
  Stays-Waits r s (c, inr e, q) = (c, (λ t. rw e tt), q)

  abbrev pub Silent : Receiver → Receiver × Result (List Payload) → Type 0
  Silent r (s, x) = (delivered x ≡ []) × Stays r s

  Silent-continue :
      {A : Type 0} (r s : Receiver) (x : Result A) (f : A → Op (List Payload))
      → Stays r s
      → ((a : A) → x ≡ ok a → Silent s (f a s))
      → Silent r (continue s x f)
  Silent-continue r s (ok a) f (c, t, q) h =
      let (nothing, later) = h a refl in
      (nothing, ((λ o. ground (arith, later.0 o, c)), (λ x. later.1 (t x)), (λ x. later.2 (q x))))
  Silent-continue r s (err e) f w h = (refl, w)

  Stays-put :
      (started : Option ℕ) (c : ℕ) (p : Payload) (r : Receiver)
      → p ≡ msg c
      → Stays r (open_gap started (put c p r))
  Stays-put none c p r e = (
    (λ o. (o, refl)),
    (λ t. All-append_one (λ (x : ℕ × Payload). x.1 ≡ msg x.0) r.buffer (c, p) t e),
    (λ q. q),
  )
  Stays-put (some g) c p r e = (
    (λ o. (o, refl)),
    (λ t. All-append_one (λ (x : ℕ × Payload). x.1 ≡ msg x.0) r.buffer (c, p) t e),
    (λ q. q),
  )

  copy_for_buffer_same : (p q : Payload) (r : Receiver) → (copy_for_buffer p r).1 ≡ ok q → q ≡ p
  unfolding copy_for_buffer
  copy_for_buffer_same p q r e = ground arith

  Waits-starts_gap : (r : Receiver) (c : Reading) → Waits r (starts_gap c r).0
  Waits-starts_gap r c = elim (Option-cases r.gap_started_at) [
    | inl quiet ↦
        rw (quiet, starts_gap)
          (Waits-continue r (read_now c r).0 (read_now c r).1 _ (Waits-read_now r c)
            (λ t. Waits-refl (read_now c r).0))
    | inr (g, gap) ↦ rw (gap, starts_gap) (Waits-refl r)
  ]

  Silent-store :
      (r : Receiver) (c : ℕ) (o : Observation) (started : Option ℕ) (p : Payload)
      → p ≡ msg c
      → Silent r (store_held c o started p r)
  Silent-store r c o started p e =
      let s = open_gap started (put c p r) in
      Silent-continue r s (ok tt) (λ _. finish_hold o) (Stays-put started c p r e)
        λ _ _.
          Silent-continue s (notify_observer o s).0 (notify_observer o s).1
            (λ _. assert_no_deferred_destroy >> pure [])
            (Stays-Waits s (notify_observer o s).0 (Waits-notify_observer s o))
            (λ _ _. ground arith)

  Silent-copy :
      (r : Receiver) (c : ℕ) (p : Payload) (o : Observation) (started : Option ℕ)
      → p ≡ msg c
      → Silent r (copy_held c p o started r)
  Silent-copy r c p o started e =
      let s = (copy_for_buffer p r).0 in
      Silent-continue r s (copy_for_buffer p r).1 (store_held c o started)
        (Stays-Waits r s (Waits-copy_for_buffer r p))
        (λ q copied. Silent-store s c o started q (copy_for_buffer_same p q r copied ∙ e))

  Silent-keep :
      (r : Receiver) (c : ℕ) (p : Payload) (reading : Reading) (o : Observation)
      → p ≡ msg c
      → Silent r (keep c p reading o r)
  unfolding keep
  Silent-keep r c p reading o e =
      let s = (starts_gap reading r).0 in
      Silent-continue r s (starts_gap reading r).1 (copy_held c p o)
        (Stays-Waits r s (Waits-starts_gap r reading)) (λ started _. Silent-copy s c p o started e)

  pub Silent-hold :
      (r : Receiver) (c : ℕ) (p : Payload) (reading : Reading) (o : Observation)
      → p ≡ msg c
      → Silent r (hold c p reading o r)
  unfolding hold
  Silent-hold r c p reading o e = ground (arith, Silent-keep r c p reading o e)
