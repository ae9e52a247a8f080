-- ===== src/Cells/Laws.antt =====
-- Sealing and opening cells.
use hyperdht.Prelude.{
  ℕ, ◌+◌, ◌-◌, ◌*◌, ◌/◌, ◌%◌, ◌≤◌, ◌≡◌, refl, sym, ap, ap₂, ◌∙◌, Bool, true, false, ◌&&◌, some,
  List, [], ◌∷◌, ◌++◌, length, length-append, take, drop, leb, arith, ◌≢◌, ◌⊎◌, Bool-cases,
  Option-cases, leb→le, inl, inr,
}
use hyperdht.Errors.{Result-cases, cell_invalid, Result, ok, err, ◌>>=◌}
use hyperdht.Counters.Sender.{Sender, next}
use hyperdht.Wire.{write_uint16}
use hyperdht.Dht.{equals, equals-eq}
use hyperdht.Cells.Bytes.{max_uint64, take_exact, drop_exact}
use hyperdht.Cells.{
  Crypto, Circuit, known_circuit, prefix_of, header_of, associated_data, body_of, packet_of,
  finish_seal, seal_body, seal, open_cell, payload_of, cell_size, max_cell_payload, is_buffer,
  valid, given, open_parts, open_text, valid_header, expected_header,
}
use hyperdht.Cells.Headers.{
  length-header_of, valid_header-header_of, read_epoch, read_counter, expected_header-header_of,
  circuit_of,
}

-- What the cipher promises: what was sealed is opened with the same key, prefix, counter and data.
abbrev pub IsCipher : Crypto → Type 0
IsCipher crypto =
    (key prefix associated text sealed : List ℕ) (counter : ℕ)
    → crypto.seal key prefix counter associated text ≡ ok sealed
    → crypto.open_ key prefix counter associated sealed ≡ ok (some text)

append_nil : (xs : List ℕ) → xs ++ [] ≡ xs
append_nil [] = refl
append_nil (x ∷ xs) = ap (◌∷◌ x) (append_nil xs)

-- A body is the length of the payload, the payload and a rest that fills it up.
abbrev Fills : List ℕ → List ℕ → Type 0
Fills payload body =
    (rest : List ℕ) × (body ≡ write_uint16 (length payload) ++ (payload ++ rest))
    × (length payload + length rest ≡ max_cell_payload)

body_of-Fills :
    (crypto : Crypto) (payload body : List ℕ)
    → length payload ≤ max_cell_payload
    → body_of crypto payload ≡ ok body
    → Fills payload body
unfolding body_of write_uint16
body_of-Fills crypto payload body small e =
    elim (Bool-cases (leb max_cell_payload (length payload))) [
      | inl full ↦
          let alone : body ≡ write_uint16 (length payload) ++ payload = ground (arith, full) in
          (
            [],
            alone ∙ ap (λ l. write_uint16 (length payload) ++ l) (sym (append_nil payload)),
            omega (arith, leb→le _ _ full),
          )
      | inr short ↦ elim (Option-cases (crypto.padding (max_cell_payload - length payload))) [
        | inl threw ↦ absurd (ground (arith, short, threw))
        | inr (padding, filled) ↦
            (padding, ground (arith, short, filled), ground (arith, short, filled))
      ]
    ]

payload_of-Fills :
    (payload body : List ℕ)
    → length payload ≤ max_cell_payload
    → Fills payload body
    → payload_of body ≡ ok payload
unfolding payload_of write_uint16
payload_of-Fills payload body small (rest, same, full) =
    let n = length payload in
    let size : n / 256 % 256 * 256 + n % 256 ≡ n = omega arith in
    let front : take (n / 256 % 256 * 256 + n % 256) (payload ++ rest) ≡ payload =
      ap (λ k. take k (payload ++ rest)) size ∙ take_exact n payload rest refl in
    let read : payload_of (write_uint16 n ++ (payload ++ rest)) ≡ ok payload =
      ground (arith, length-append payload rest, size, front) in
    ap payload_of same ∙ read

packet_of-parts :
    (crypto : Crypto) (o : Circuit) (counter : ℕ) (body packet : List ℕ)
    → packet_of crypto o counter body ≡ ok packet
    → (counter ≤ max_uint64)
      × ((sealed : List ℕ) × (crypto.seal o.key o.nonce_prefix counter
              (associated_data (header_of o counter))
              body
            ≡ ok sealed)
          × (length sealed ≡ 1164)
          × (packet ≡ header_of o counter ++ sealed))
unfolding packet_of
packet_of-parts crypto o counter body packet e =
    elim (Result-cases
      (crypto.seal o.key o.nonce_prefix counter (associated_data (header_of o counter)) body)) [
        | inr (x, threw) ↦ absurd (ground (arith, threw))
        | inl (sealed, f) ↦ (ground (arith, f), (sealed, f, ground (arith, f), ground (arith, f)))
      ]

valid-true : {A : Type 0} (b : Bool) (rest : Result A) → b ≡ true → valid b rest ≡ rest
valid-true true rest h = refl
valid-true false rest h = absurd (ground arith)

open_text-sealed :
    (crypto : Crypto) (o : Circuit) (counter : ℕ) (header payload body sealed : List ℕ)
    → crypto.open_ o.key o.nonce_prefix counter (associated_data header) sealed ≡ ok (some body)
    → payload_of body ≡ ok payload
    → open_text crypto o header sealed counter ≡ ok (counter, payload)
unfolding open_text
open_text-sealed crypto o counter header payload body sealed opened read =
    ap (λ t. t >>= λ c. given c (λ plaintext. payload_of plaintext >>= λ p. ok (counter, p))) opened
    ∙ ap (λ r. r >>= λ p. ok (counter, p)) read

open_parts-header_of :
    (crypto : Crypto) (o : Circuit) (counter : ℕ) (sealed : List ℕ)
    → known_circuit o ≡ true
    → counter ≤ max_uint64
    → open_parts crypto o (header_of o counter) sealed
      ≡ open_text crypto o (header_of o counter) sealed counter
unfolding open_parts
open_parts-header_of crypto o counter sealed known small =
    let both : (known_circuit o && expected_header o (header_of o counter)) ≡ true =
      ap₂ ◌&&◌ known (expected_header-header_of o counter known) in
    valid-true (valid_header o (header_of o counter)) _ (valid_header-header_of o counter known)
    ∙ valid-true (known_circuit o && expected_header o (header_of o counter)) _ both
    ∙ ap (open_text crypto o (header_of o counter) sealed) (read_counter o counter known small)

-- What `packet_of` returns is opened.
open_cell-packet_of :
    (crypto : Crypto) (o : Circuit) (counter : ℕ) (payload body packet : List ℕ)
    → IsCipher crypto
    → known_circuit o ≡ true
    → length payload ≤ max_cell_payload
    → body_of crypto payload ≡ ok body
    → packet_of crypto o counter body ≡ ok packet
    → open_cell crypto o packet ≡ ok (counter, payload)
unfolding open_cell
open_cell-packet_of crypto o counter payload body packet cipher known small filled e =
    let (exact, (sealed, sealing, long, same)) = packet_of-parts crypto o counter body packet e in
    let header = header_of o counter in
    let measured = length-header_of o counter known in
    let front : take 36 packet ≡ header =
      ap (take 36) same ∙ take_exact 36 header sealed measured in
    let back : drop 36 packet ≡ sealed = ap (drop 36) same ∙ drop_exact 36 header sealed measured in
    let size : length packet ≡ 1200 =
      ap length same ∙ omega (arith, length-append header sealed, measured, long) in
    let opened = cipher o.key o.nonce_prefix (associated_data header) body sealed counter sealing in
    let read =
      payload_of-Fills payload body small (body_of-Fills crypto payload body small filled) in
    valid-true (is_buffer packet cell_size) _ (ground (arith, size))
    ∙ ap₂ (open_parts crypto o) front back
    ∙ open_parts-header_of crypto o counter sealed known exact
    ∙ open_text-sealed crypto o counter header payload body sealed opened read

finish_seal-packet :
    (crypto : Crypto) (o : Circuit) (body packet : List ℕ) (s : Sender)
    → (finish_seal crypto o body (next s)).1 ≡ ok packet
    → packet_of crypto o s.value body ≡ ok packet
unfolding next
finish_seal-packet crypto o body packet s h = ground (arith, h)

seal_body-packet :
    (crypto : Crypto) (o : Circuit) (packet : List ℕ) (s : Sender) (body : Result (List ℕ))
    → (seal_body crypto o s body).1 ≡ ok packet
    → (b : List ℕ) × (body ≡ ok b) × (packet_of crypto o s.value b ≡ ok packet)
seal_body-packet crypto o packet s (err e) h = absurd (ground (arith, h))
seal_body-packet crypto o packet s (ok b) h = (b, refl, finish_seal-packet crypto o b packet s h)

abbrev Sealing : Crypto → Circuit → List ℕ → Sender → List ℕ → Type 0
Sealing crypto o payload s packet =
    (known_circuit o ≡ true)
    × (length payload ≤ max_cell_payload)
    × ((seal_body crypto o s (body_of crypto payload)).1 ≡ ok packet)

seal-Sealing :
    (crypto : Crypto) (o : Circuit) (payload packet : List ℕ) (s : Sender)
    → (seal crypto o payload s).1 ≡ ok packet
    → Sealing crypto o payload s packet
unfolding seal
seal-Sealing crypto o payload packet s h =
    elim (Bool-cases (known_circuit o && leb (length payload) max_cell_payload)) [
      | inl good ↦ (ground (arith, good), ground (arith, good), ground (arith, good, h))
      | inr bad ↦ absurd (ground (arith, bad, h))
    ]

-- With a cipher that opens what it sealed, a sealed cell is opened for the same circuit: to the value
-- of the sender's counter, and to the payload.
pub open_cell-seal :
    (crypto : Crypto) (o : Circuit) (payload packet : List ℕ) (s : Sender)
    → IsCipher crypto
    → (seal crypto o payload s).1 ≡ ok packet
    → open_cell crypto o packet ≡ ok (s.value, payload)
open_cell-seal crypto o payload packet s cipher h =
    let (known, small, sealing) = seal-Sealing crypto o payload packet s h in
    let (body, filled, e) = seal_body-packet crypto o packet s (body_of crypto payload) sealing in
    open_cell-packet_of crypto o s.value payload body packet cipher known small filled e

-- Two circuits differ in class, direction, epoch or id.
abbrev pub Differ : Circuit → Circuit → Type 0
Differ o p =
    (o.cell_class ≢ p.cell_class)
    ⊎ ((o.direction ≢ p.direction) ⊎ ((o.epoch ≢ p.epoch) ⊎ (o.circuit_id ≢ p.circuit_id)))

equals-false : (xs ys : List ℕ) → xs ≢ ys → equals xs ys ≡ false
equals-false xs ys differ = elim (Bool-cases (equals xs ys)) [
  | inl same ↦ absurd (differ (equals-eq xs ys same))
  | inr other ↦ other
]

other_header :
    (o p : Circuit) (counter : ℕ)
    → known_circuit o ≡ true
    → Differ o p
    → expected_header p (header_of o counter) ≡ false
unfolding header_of prefix_of
other_header o p counter known (inl h) = ground (arith, h)
other_header o p counter known (inr (inl h)) = ground (arith, h)
other_header o p counter known (inr (inr (inl h))) = ground (arith, h, read_epoch o counter known)
other_header o p counter known (inr (inr (inr h))) =
    let same =
      ap (λ c. equals c p.circuit_id) (circuit_of o counter known)
      ∙ equals-false o.circuit_id p.circuit_id h in
    ground (arith, same)

other_parts :
    (crypto : Crypto) (o : Circuit) (header sealed : List ℕ)
    → expected_header o header ≡ false
    → open_parts crypto o header sealed ≡ err cell_invalid
unfolding open_parts
other_parts crypto o header sealed h = ground (arith, h)

-- A cell that was sealed for a circuit is CELL_INVALID for every other one, whatever the cipher does.
pub open_cell-other :
    (crypto : Crypto) (o p : Circuit) (payload packet : List ℕ) (s : Sender)
    → (seal crypto o payload s).1 ≡ ok packet
    → Differ o p
    → open_cell crypto p packet ≡ err cell_invalid
unfolding open_cell
open_cell-other crypto o p payload packet s h differ =
    let (known, small, sealing) = seal-Sealing crypto o payload packet s h in
    let (body, filled, e) = seal_body-packet crypto o packet s (body_of crypto payload) sealing in
    let (exact, (sealed, _, long, same)) = packet_of-parts crypto o s.value body packet e in
    let header = header_of o s.value in
    let measured = length-header_of o s.value known in
    let front : take 36 packet ≡ header =
      ap (take 36) same ∙ take_exact 36 header sealed measured in
    let other = ap (expected_header p) front ∙ other_header o p s.value known differ in
    ground (arith, other_parts crypto p (take 36 packet) (drop 36 packet) other)
