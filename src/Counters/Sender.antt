-- ===== src/Counters/Sender.antt =====
-- `SenderCounter` of lib/private/counters.js: the counters that one sender emits.
use hyperdht.Prelude.{
  ℕ, zero, suc, ◌+◌, ◌-◌, ◌≤◌, ◌<◌, ◌≡◌, refl, ◌↔◌, Bool, true, false, List, [], ◌∷◌, some, arith,
  leb, ◌==◌, if◌then◌else◌, Bool-cases, get_elem?, inl, inr,
}
use hyperdht.Errors.{Result, ok, err, counter_exhausted, ◌>>=◌}
use hyperdht.Values.{Property, absent, Options}
use hyperdht.Counters.{
  max_counter, options_object, option, counter_value, counter_maximum, or_zero, rotation_at,
}

pub record Sender : Type 0 where
  pub value : ℕ
  pub maximum : ℕ
  pub rotate_at : ℕ
  pub closed : Bool

pub record SenderOptions : Type 0 where
  pub initial : Property
  pub maximum : Property

abbrev no_options : SenderOptions
no_options = record { initial = absent; maximum = absent }

-- `new SenderCounter(options)`
unfoldable pub construct : Options SenderOptions → Result Sender
construct given = do
  options ← options_object given true no_options
  configured ← option options.initial false
  chosen ← option options.maximum false
  maximum ← counter_maximum chosen
  value ← counter_value (or_zero configured) maximum
  ok (record { value = value; maximum = maximum; rotate_at = rotation_at maximum; closed = false })

pub needs_rotation : Sender → Bool
needs_rotation s = leb s.rotate_at s.value

unfoldable pub next : Sender → Sender × Result ℕ
next s =
    if s.closed
    then (s, err counter_exhausted)
    else if s.value == s.maximum
    then (record s { closed = true }, ok s.value)
    else (record s { value = s.value + 1 }, ok s.value)

pub destroy : Sender → Sender
destroy s = record s { value = 0; closed = true }

pub record IsValid (s : Sender) : Type 0 where
  pub in_range : s.value ≤ s.maximum
  pub no_wrap : s.maximum ≤ max_counter
  pub rotation : s.rotate_at ≡ rotation_at s.maximum

construct_parts :
    (given : Options SenderOptions) (s : Sender)
    → construct given ≡ ok s
    → (s.value ≤ s.maximum)
      × (s.maximum ≤ max_counter)
      × (s.rotate_at ≡ rotation_at s.maximum)
      × (s.closed ≡ false)
unfolding construct
construct_parts given s h = ground arith

pub next-IsValid : (s : Sender) → IsValid s → IsValid (next s).0
unfolding next
next-IsValid s v = ground arith

-- `n` calls of `next()` in a row, with what each returns or throws.
pub emit : ℕ → Sender → List (Result ℕ)
emit zero s = []
emit (suc n) s = let (s', r) = next s in r ∷ emit n s'

closed_emit :
    (n i : ℕ) (s : Sender)
    → s.closed ≡ true
    → i < n
    → get_elem? (emit n s) i ≡ some (err counter_exhausted)
unfolding emit next
closed_emit zero i s c h = elim h [ ]
closed_emit (suc n) zero s c h = rw c
closed_emit (suc n) (suc i) s c h = ground (arith, closed_emit n i s c)

emit_open :
    (n i : ℕ) (s : Sender)
    → s.closed ≡ false
    → s.value ≤ s.maximum
    → i < n
    → get_elem? (emit n s) i
      ≡ some (if leb i (s.maximum - s.value) then ok (s.value + i) else err counter_exhausted)
unfolding emit next
emit_open zero i s c v h = elim h [ ]
emit_open (suc n) zero s c v h = ground arith
emit_open (suc n) (suc i) s c v h = elim (Bool-cases (s.value == s.maximum)) [
  | inl last ↦ ground (arith, closed_emit n i (record s { closed = true }) refl)
  | inr more ↦ ground (arith, emit_open n i (record s { value = s.value + 1 }) c)
]

-- A sender that was constructed starts open, at a value within its maximum, which fits 64 bits.
pub construct-IsValid :
    (given : Options SenderOptions) (s : Sender)
    → construct given ≡ ok s
    → IsValid s × (s.closed ≡ false)
construct-IsValid given s h =
    let (fits, bound, rotation, opened) = construct_parts given s h in
    (record { in_range = fits; no_wrap = bound; rotation = rotation }, opened)

-- For every sender that `new SenderCounter` returns, and every number n of calls of `next()`: call
-- i (from 0) returns the initial value plus i as long as that is at most the maximum, and from then
-- on it throws COUNTER_EXHAUSTED. So no counter is skipped, repeated or wrapped.
pub emit-get_elem? :
    (given : Options SenderOptions) (s : Sender) (n i : ℕ)
    → construct given ≡ ok s
    → i < n
    → get_elem? (emit n s) i
      ≡ some (if leb i (s.maximum - s.value) then ok (s.value + i) else err counter_exhausted)
emit-get_elem? given s n i made h =
    let (v, opened) = construct-IsValid given s made in emit_open n i s opened v.in_range h

-- Of a sender in a valid state: `needsRotation` is true exactly when at most 1024 counters are left
-- after the next one.
pub needs_rotation_iff :
    (s : Sender) → IsValid s → (needs_rotation s ≡ true) ↔ (s.maximum - s.value ≤ 1024)
unfolding needs_rotation
needs_rotation_iff s v = ground arith
