-- ===== src/Wire/Laws.antt =====
-- About the framing of Wire: decoding what was encoded, for any table of 16-bit message ids.
use hyperdht.Prelude.{
  ℕ, suc, ◌+◌, ◌≤◌, ◌<◌, ◌≡◌, true, some, List, inl, inr, arith, length, take, drop, length-append,
  take_append, drop_append, Option-cases, All,
}
use hyperdht.Prelude.Int.{pos}
use hyperdht.Prelude.Assoc.{lookup, All-lookup}
use hyperdht.Errors.{ok}
use hyperdht.Values.{integer, object, Options, max_safe_integer}
use hyperdht.Wire.{
  Layout, Protocol, buffer, own, ObjectSlots, valid_body_length, read_uint16, read_uint32, frame,
  encode, decode,
}

-- The options object with these parts.
abbrev pub whole : ℕ → List ℕ → List ℕ → Options ObjectSlots
whole id body auth = object (record {
  message_id = own (integer (pos id));
  body = own (buffer body);
  auth_suffix = own (buffer auth);
})

abbrev pub IsShort : Protocol → Type 0
IsShort p = (p.version < 4294967296) × All (λ (e : ℕ × Layout). e.0 < 65536) p.table

abbrev pub IsBytes : List ℕ → Type 0
IsBytes = All (λ b. b < 256)

pub eight : (n : ℕ) → 8 + n ≡ suc (suc (suc (suc (suc (suc (suc (suc n)))))))
eight n = omega arith

module _ (version id : ℕ) (body auth : List ℕ) where
  read_version : version < 4294967296 → read_uint32 (frame version id body auth) 0 ≡ version
  unfolding frame read_uint32
  read_version h = omega arith

  read_id : id < 65536 → read_uint16 (frame version id body auth) 4 ≡ id
  unfolding frame read_uint16
  read_id h = omega arith

  read_length : length body < 65536 → read_uint16 (frame version id body auth) 6 ≡ length body
  unfolding frame read_uint16
  read_length h = omega arith

  length-frame : length (frame version id body auth) ≡ 8 + length body + length auth
  unfolding frame
  length-frame = omega (arith, length-append body auth)

  take_body : take (length body) (drop 8 (frame version id body auth)) ≡ body
  unfolding frame
  take_body = take_append body auth

  drop_auth : drop (8 + length body) (frame version id body auth) ≡ auth
  unfolding frame
  drop_auth = rw (eight (length body)) (drop_append body auth)

encode_accepts :
    (p : Protocol) (id : ℕ) (body auth bytes : List ℕ)
    → encode p (whole id body auth) ≡ ok bytes
    → (l : Layout) × (lookup id p.table ≡ some l)
      × (id ≤ max_safe_integer)
      × (valid_body_length (length body) l ≡ true)
      × (length body < 65536)
      × (length auth ≡ l.suffix)
      × (bytes ≡ frame p.version id body auth)
unfolding encode
encode_accepts p id body auth bytes e = elim (Option-cases (lookup id p.table)) [
  | inl none_there ↦ absurd (ground arith)
  | inr (l, there) ↦
      (l, there, ground arith, ground arith, ground arith, ground arith, ground arith)
]

module _ (p : Protocol) (short : IsShort p) where
  pub decode-encode :
      (id : ℕ) (body auth bytes : List ℕ)
      → encode p (whole id body auth) ≡ ok bytes
      → decode p (buffer bytes)
        ≡ ok (record {
          protocol_version = p.version;
          message_id = id;
          body = body;
          auth_suffix = auth;
        })
  unfolding decode
  decode-encode id body auth bytes e =
      let (l, there, safe, fits, small, suffix, made) = encode_accepts p id body auth bytes e in
      let narrow = All-lookup (λ (e : ℕ × Layout). e.0 < 65536) id p.table l short.1 there in
      rw made (
        ground (
          arith,
          read_version p.version id body auth short.0,
          read_id p.version id body auth narrow,
          read_length p.version id body auth small,
          length-frame p.version id body auth,
          take_body p.version id body auth,
          drop_auth p.version id body auth,
          there,
        ))
