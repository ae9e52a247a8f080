-- ===== src/Wire/Canonical.antt =====
-- About the framing of Wire: encoding what was decoded.
use hyperdht.Prelude.{
  ℕ, ◌+◌, ◌*◌, ap, ◌≤◌, ◌<◌, ◌≡◌, ◌≢◌, ◌∙◌, sym, true, some, List, ◌∷◌, inl, inr, arith, length,
  take, drop, length-take, length-drop, take-append-drop, Option-cases,
}
use hyperdht.Prelude.Assoc.{lookup}
use hyperdht.Errors.{ok}
use hyperdht.Values.{max_safe_integer}
use hyperdht.Wire.{
  Layout, Protocol, buffer, Decoded, valid_body_length, read_uint16, read_uint32, frame, encode,
  decode,
}
use hyperdht.Wire.Laws.{whole, IsBytes, eight}

encode_ok :
    (p : Protocol) (id : ℕ) (body auth : List ℕ) (l : Layout)
    → lookup id p.table ≡ some l
    → id ≤ max_safe_integer
    → valid_body_length (length body) l ≡ true
    → length body < 65536
    → length auth ≡ l.suffix
    → encode p (whole id body auth) ≡ ok (frame p.version id body auth)
unfolding encode
encode_ok p id body auth l there safe valid small suffix = ground arith

module _ (a b c d e f g h : ℕ) (rest : List ℕ) where
  abbrev all : List ℕ
  all = a ∷ b ∷ c ∷ d ∷ e ∷ f ∷ g ∷ h ∷ rest

  frame_back :
      IsBytes all
      → read_uint16 all 6 ≤ length rest
      → frame
          (read_uint32 all 0)
          (read_uint16 all 4)
          (take (read_uint16 all 6) rest)
          (drop (read_uint16 all 6) rest)
        ≡ all
  unfolding frame read_uint32 read_uint16
  frame_back bytes long =
      rw (length-take (g * 256 + h) rest long, take-append-drop (g * 256 + h) rest) (ground arith)

  small_fields : IsBytes all → (read_uint16 all 4 < 65536) × (read_uint16 all 6 < 65536)
  unfolding read_uint16
  small_fields bytes = omega arith

  drop-all : (n : ℕ) → drop (8 + n) all ≡ drop n rest
  drop-all n = rw (eight n)

  encode-decode-all :
      (p : Protocol) (x : Decoded)
      → IsBytes all
      → decode p (buffer all) ≡ ok x
      → encode p (whole x.message_id x.body x.auth_suffix) ≡ ok all
  unfolding decode encode
  encode-decode-all p x bytes accepted = elim (Option-cases (lookup (read_uint16 all 4) p.table)) [
    | inl none_there ↦ absurd (ground arith)
    | inr (l, there) ↦
        let n = read_uint16 all 6 in
        let exact : length rest ≡ n + l.suffix = ground arith in
        let version : read_uint32 all 0 ≡ p.version = ground arith in
        let valid : valid_body_length n l ≡ true = ground arith in
        let small = small_fields bytes in
        let back = frame_back bytes (omega arith) in
        let body : x.body ≡ take n rest = ground arith in
        let auth : x.auth_suffix ≡ drop n rest = ground (arith, drop-all n) in
        let id : x.message_id ≡ read_uint16 all 4 = ground arith in
        let size : length (take n rest) ≡ n = length-take n rest (omega arith) in
        let written =
          encode_ok p (read_uint16 all 4) (take n rest) (drop n rest) l there (omega arith)
            (ap (λ (k : ℕ). valid_body_length k l) size ∙ valid) (omega arith)
            (omega (arith, length-drop n rest)) in
        rw (id, body, auth)
          (written
            ∙ ap (λ (v : ℕ). ok (frame v (read_uint16 all 4) (take n rest) (drop n rest)))
                (sym version)
            ∙ ap ok back)
  ]

short_refused :
    (p : Protocol) (b : List ℕ) (x : Decoded) → length b < 8 → decode p (buffer b) ≢ ok x
unfolding decode
short_refused p b x h e = ground arith

-- For bytes below 256: if they decode, encoding the decoded id, body and suffix gives them back.
pub encode-decode :
    (p : Protocol) (bytes : List ℕ) (x : Decoded)
    → IsBytes bytes
    → decode p (buffer bytes) ≡ ok x
    → encode p (whole x.message_id x.body x.auth_suffix) ≡ ok bytes
encode-decode p (a ∷ b ∷ c ∷ d ∷ e ∷ f ∷ g ∷ h ∷ rest) x bytes accepted =
    encode-decode-all a b c d e f g h rest p x bytes accepted
encode-decode p bytes x small accepted = absurd (short_refused p bytes x (omega arith) accepted)
