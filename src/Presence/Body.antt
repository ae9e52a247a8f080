-- ===== src/Presence/Body.antt =====
-- About the body of the presence records of lib/private/blinded-presence.js.
use hyperdht.Prelude.{
  ℕ, zero, suc, ◌+◌, ◌-◌, ◌≤◌, ◌≡◌, refl, ap, ap₂, ◌∙◌, Bool, true, not, ◌||◌, ltb, ◌==◌,
  if◌then◌else◌, [], ◌∷◌, ◌++◌, arith, length, take, drop, get_or, length-append, take_append,
  drop_append,
}
use hyperdht.Errors.{Result, ok, err, invalid_descriptor}
use hyperdht.Wire.{write_uint16, read_uint16}
use hyperdht.Cells.Bytes.{
  write_uint64, read_uint64, max_uint64, take_exact, drop_exact, drop_past, get_or_past,
  length-write_uint64, read_uint64-write_uint64,
}
use hyperdht.Dht.{Buffer}
use hyperdht.Blinding.{is_all_zero}
use hyperdht.Presence.{
  Entry, descriptor, tombstone, zeros, body_bytes, encode_body, open_body, entry_of,
  max_descriptor_bytes, valid_tombstone,
}

length-zeros : (n : ℕ) → length (zeros n) ≡ n
length-zeros zero = refl
length-zeros (suc n) = omega (arith, length-zeros n)

is_all_zero-zeros : (n : ℕ) → is_all_zero (zeros n) ≡ true
is_all_zero-zeros zero = refl
is_all_zero-zeros (suc n) = is_all_zero-zeros n

read_length :
    (n : ℕ) (rest : Buffer) → n ≤ max_descriptor_bytes → read_uint16 (write_uint16 n ++ rest) 0 ≡ n
unfolding read_uint16 write_uint16
read_length n rest h = omega arith

-- The checks of a body that are passed.
checked :
    (period n p size : ℕ) (rest_is_zero : Bool) (entry : Result Entry)
    → n ≡ 858
    → p ≡ period
    → size ≤ max_descriptor_bytes
    → rest_is_zero ≡ true
    → (if not (n == 858)
          || (not (p == period) || (ltb max_descriptor_bytes size || not rest_is_zero))
        then err invalid_descriptor
        else entry)
      ≡ entry
checked period n p size rest_is_zero entry a b c d = ground (arith, a, b, c, d)

told :
    (scope : ℕ) (target : Buffer)
    → valid_tombstone scope target ≡ true
    → entry_of 2 scope target [] ≡ ok (tombstone scope target)
told scope target h = ground (arith, h)

module _ (type period scope : ℕ) (target bytes : Buffer) (small : period ≤ max_uint64)
    (wide : length target ≡ 32) (short : length bytes ≤ max_descriptor_bytes) where
  abbrev fill : Buffer
  fill = zeros (max_descriptor_bytes - length bytes)

  abbrev tail : Buffer
  tail = write_uint16 (length bytes) ++ (bytes ++ fill)

  abbrev whole : Buffer
  whole = body_bytes type period scope target bytes

  period_read : read_uint64 (take 8 (drop 1 whole)) ≡ period
  period_read =
      ap read_uint64
        (take_exact 8 (write_uint64 period) (scope ∷ (target ++ tail)) (length-write_uint64 period))
      ∙ read_uint64-write_uint64 period small

  behind : (from : ℕ) → drop (10 + from) whole ≡ drop from (target ++ tail)
  behind from =
      let same : 10 + from ≡ suc (8 + suc from) = omega arith in
      ap (λ k. drop k whole) same
      ∙ drop_past 8 (suc from) (write_uint64 period) (scope ∷ (target ++ tail))
          (length-write_uint64 period)

  scope_read : get_or whole 9 0 ≡ scope
  scope_read =
      get_or_past 8 (write_uint64 period) (scope ∷ (target ++ tail)) 0 (length-write_uint64 period)

  target_read : take 32 (drop 10 whole) ≡ target
  target_read = ap (take 32) (behind 0) ∙ take_exact 32 target tail wide

  size_read : read_uint16 (drop 42 whole) 0 ≡ length bytes
  size_read =
      ap (λ b. read_uint16 b 0) (behind 32 ∙ drop_exact 32 target tail wide)
      ∙ read_length (length bytes) (bytes ++ fill) short

  region : drop 44 whole ≡ bytes ++ fill
  unfolding write_uint16
  region = behind 34 ∙ drop_past 32 2 target tail wide

  descriptor_read : take (read_uint16 (drop 42 whole) 0) (drop 44 whole) ≡ bytes
  descriptor_read =
      ap (λ k. take k (drop 44 whole)) size_read
      ∙ ap (take (length bytes)) region
      ∙ take_append bytes fill

  zeros_read : is_all_zero (drop (read_uint16 (drop 42 whole) 0) (drop 44 whole)) ≡ true
  zeros_read =
      ap (λ k. is_all_zero (drop k (drop 44 whole))) size_read
      ∙ ap (λ b. is_all_zero (drop (length bytes) b)) region
      ∙ ap is_all_zero (drop_append bytes fill)
      ∙ is_all_zero-zeros (max_descriptor_bytes - length bytes)

  pub length-body_bytes : length whole ≡ 858
  unfolding write_uint16
  length-body_bytes = omega (
    arith,
    length-append (write_uint64 period) (scope ∷ (target ++ tail)),
    length-write_uint64 period,
    length-append target tail,
    wide,
    length-append bytes fill,
    length-zeros (max_descriptor_bytes - length bytes),
    short,
  )

  open_whole : open_body period whole ≡ entry_of type scope target bytes
  unfolding open_body
  open_whole =
      let size = read_uint16 (drop 42 whole) 0 in
      let scoped =
        ap (λ k. entry_of type k (take 32 (drop 10 whole)) (take size (drop 44 whole)))
          scope_read in
      checked period (length whole) (read_uint64 (take 8 (drop 1 whole))) size
        (is_all_zero (drop size (drop 44 whole)))
        (entry_of type (get_or whole 9 0) (take 32 (drop 10 whole)) (take size (drop 44 whole)))
        length-body_bytes period_read (omega (arith, size_read, short)) zeros_read
      ∙ scoped
      ∙ ap₂ (entry_of type scope) target_read descriptor_read

-- The body of an entry, opened for its period, tells the entry.
pub open_body-encode_body :
    (period : ℕ) (entry : Entry) (body : Buffer)
    → encode_body period entry ≡ ok body
    → open_body period body ≡ ok entry
unfolding encode_body
open_body-encode_body period (descriptor bytes) body e =
    let same : body ≡ body_bytes 1 period 0 (zeros 32) bytes = ground (arith, e) in
    ap (open_body period) same
    ∙ open_whole 1 period 0 (zeros 32) bytes (ground (arith, e)) refl (ground (arith, e))
open_body-encode_body period (tombstone scope target) body e =
    let same : body ≡ body_bytes 2 period scope target [] = ground (arith, e) in
    let valid : valid_tombstone scope target ≡ true = ground (arith, e) in
    ap (open_body period) same
    ∙ open_whole 2 period scope target [] (ground (arith, e)) (ground (arith, valid)) (omega arith)
    ∙ told scope target valid

pub length-encode_body :
    (period : ℕ) (entry : Entry) (body : Buffer)
    → encode_body period entry ≡ ok body
    → length body ≡ 858
unfolding encode_body
length-encode_body period (descriptor bytes) body e =
    let same : body ≡ body_bytes 1 period 0 (zeros 32) bytes = ground (arith, e) in
    ap length same
    ∙ length-body_bytes 1 period 0 (zeros 32) bytes (ground (arith, e)) refl (ground (arith, e))
length-encode_body period (tombstone scope target) body e =
    let same : body ≡ body_bytes 2 period scope target [] = ground (arith, e) in
    let valid : valid_tombstone scope target ≡ true = ground (arith, e) in
    ap length same
    ∙ length-body_bytes 2 period scope target [] (ground (arith, e)) (ground (arith, valid))
        (omega arith)
