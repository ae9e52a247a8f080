-- ===== src/Cells/Tests.antt =====
-- A cell of lib/private/cell-codec.js, with a cipher that writes its tag in front of the text.
use hyperdht.Prelude.{
  ℕ, zero, suc, ◌≡◌, refl, sym, ap, false, some, List, [], ◌∷◌, drop, arith, inl, inr,
}
use hyperdht.Errors.{Result, Result, ok, err, cell_invalid}
use hyperdht.Counters.Sender.{Sender, next}
use hyperdht.Wire.{write_uint16}
use hyperdht.Cells.{Crypto, Circuit, seal, open_cell}
use hyperdht.Cells.Laws.{IsCipher, open_cell-seal, open_cell-other}

abbrev bytes : ℕ → List ℕ
bytes zero = []
bytes (suc n) = n ∷ bytes n

abbrev tagged : List ℕ → List ℕ
tagged text = 0 ∷ 0 ∷ 0 ∷ 0 ∷ 0 ∷ 0 ∷ 0 ∷ 0 ∷ 0 ∷ 0 ∷ 0 ∷ 0 ∷ 0 ∷ 0 ∷ 0 ∷ 0 ∷ text

abbrev simple_crypto : Crypto
simple_crypto = record {
  seal = λ key prefix counter associated text. ok (tagged text);
  open_ = λ key prefix counter associated text. ok (some (drop 16 text));
  padding = λ size. some (bytes size);
}

content : Result (List ℕ) → List ℕ
content (err e) = []
content (ok x) = x

simple_crypto-IsCipher : IsCipher simple_crypto
unfolding content
simple_crypto-IsCipher key prefix associated text sealed counter h =
    let same : tagged text ≡ sealed = ap content h in ap (λ l. ok (some (drop 16 l))) (sym same)

abbrev circuit : Circuit
circuit = record {
  key = bytes 32;
  nonce_prefix = bytes 16;
  cell_class = 2;
  direction = 0;
  epoch = 5;
  circuit_id = bytes 16;
}

abbrev reverse : Circuit
reverse = record circuit { direction = 1 }

abbrev sender : Sender
sender = record { value = 3; maximum = 100; rotate_at = 90; closed = false }

abbrev payload : List ℕ
payload = 1 ∷ 2 ∷ []

packet_or_nothing : Result (List ℕ) → List ℕ
packet_or_nothing (err e) = []
packet_or_nothing (ok packet) = packet

abbrev packet : List ℕ
unfolding packet_or_nothing
packet = packet_or_nothing (seal simple_crypto circuit payload sender).1

is_sealed : (seal simple_crypto circuit payload sender).1 ≡ ok packet
unfolding packet_or_nothing seal next write_uint16
is_sealed = refl

open_cell-seal_example : open_cell simple_crypto circuit packet ≡ ok (3, payload)
open_cell-seal_example =
    open_cell-seal simple_crypto circuit payload packet sender simple_crypto-IsCipher is_sealed

open_cell-other_example : open_cell simple_crypto reverse packet ≡ err cell_invalid
open_cell-other_example =
    open_cell-other simple_crypto circuit reverse payload packet sender is_sealed
      (inr (inl (omega arith)))
