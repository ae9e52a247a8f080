-- ===== src/Cells/Headers.antt =====
-- The headers of cells.
use hyperdht.Prelude.{
  ℕ, ◌≤◌, ◌≡◌, refl, sym, ap, ◌∙◌, true, List, [], ◌∷◌, ◌++◌, length, length-append, take, drop,
  arith,
}
use hyperdht.Dht.{equals, equals_refl}
use hyperdht.Cells.Bytes.{
  write_uint64, read_uint64, max_uint64, length-write_uint64, read_uint64-write_uint64, take_exact,
  drop_exact, append_assoc,
}
use hyperdht.Cells.{Circuit, known_circuit, prefix_of, header_of, valid_header, expected_header}

-- The checks of the options, one by one.
abbrev Checked : Circuit → Type 0
Checked o =
    (o.cell_class ≤ 2) × (o.direction ≤ 1) × (o.epoch ≤ max_uint64) × (length o.circuit_id ≡ 16)

known_circuit-Checked : (o : Circuit) → known_circuit o ≡ true → Checked o
known_circuit-Checked o h = ground arith

take_all : (xs : List ℕ) → take (length xs) xs ≡ xs
take_all [] = refl
take_all (x ∷ xs) = ap (◌∷◌ x) (take_all xs)

length-prefix_of : (o : Circuit) → known_circuit o ≡ true → length (prefix_of o) ≡ 28
unfolding prefix_of
length-prefix_of o h = omega (
  arith,
  length-append (write_uint64 o.epoch) o.circuit_id,
  length-write_uint64 o.epoch,
  (known_circuit-Checked o h).3,
)

pub length-header_of :
    (o : Circuit) (counter : ℕ) → known_circuit o ≡ true → length (header_of o counter) ≡ 36
unfolding header_of
length-header_of o counter h = omega (
  arith,
  length-append (prefix_of o) (write_uint64 counter),
  length-prefix_of o h,
  length-write_uint64 counter,
)

-- A header has its fields.
pub valid_header-header_of :
    (o : Circuit) (counter : ℕ)
    → known_circuit o ≡ true
    → valid_header o (header_of o counter) ≡ true
unfolding header_of prefix_of
valid_header-header_of o counter h =
    let checked = known_circuit-Checked o h in ground (arith, checked)

take_exact_all : {n : ℕ} (xs : List ℕ) → length xs ≡ n → take n xs ≡ xs
take_exact_all {n} xs h = ap (λ k. take k xs) (sym h) ∙ take_all xs

epoch_of :
    (o : Circuit) (counter : ℕ)
    → known_circuit o ≡ true
    → take 8 (drop 4 (header_of o counter)) ≡ write_uint64 o.epoch
unfolding header_of prefix_of
epoch_of o counter h =
    ap (take 8) (append_assoc (write_uint64 o.epoch) o.circuit_id (write_uint64 counter))
    ∙ take_exact 8 (write_uint64 o.epoch) (o.circuit_id ++ write_uint64 counter)
        (length-write_uint64 o.epoch)

pub circuit_of :
    (o : Circuit) (counter : ℕ)
    → known_circuit o ≡ true
    → take 16 (drop 12 (header_of o counter)) ≡ o.circuit_id
unfolding header_of prefix_of
circuit_of o counter h =
    ap (λ l. take 16 (drop 8 l))
      (append_assoc (write_uint64 o.epoch) o.circuit_id (write_uint64 counter))
    ∙ ap (take 16) (
        drop_exact 8 (write_uint64 o.epoch) (o.circuit_id ++ write_uint64 counter)
          (length-write_uint64 o.epoch))
    ∙ take_exact 16 o.circuit_id _ (known_circuit-Checked o h).3

counter_of :
    (o : Circuit) (counter : ℕ)
    → known_circuit o ≡ true
    → take 8 (drop 28 (header_of o counter)) ≡ write_uint64 counter
unfolding header_of
counter_of o counter h =
    ap (take 8) (drop_exact 28 (prefix_of o) (write_uint64 counter) (length-prefix_of o h))
    ∙ take_exact_all (write_uint64 counter) (length-write_uint64 counter)

pub read_epoch :
    (o : Circuit) (counter : ℕ)
    → known_circuit o ≡ true
    → read_uint64 (take 8 (drop 4 (header_of o counter))) ≡ o.epoch
read_epoch o counter h =
    ap read_uint64 (epoch_of o counter h)
    ∙ read_uint64-write_uint64 o.epoch (known_circuit-Checked o h).2

pub read_counter :
    (o : Circuit) (counter : ℕ)
    → known_circuit o ≡ true
    → counter ≤ max_uint64
    → read_uint64 (take 8 (drop 28 (header_of o counter))) ≡ counter
read_counter o counter h small =
    ap read_uint64 (counter_of o counter h) ∙ read_uint64-write_uint64 counter small

pub expected_header-header_of :
    (o : Circuit) (counter : ℕ)
    → known_circuit o ≡ true
    → expected_header o (header_of o counter) ≡ true
unfolding header_of prefix_of
expected_header-header_of o counter h =
    let same =
      ap (λ c. equals c o.circuit_id) (circuit_of o counter h) ∙ equals_refl o.circuit_id in
    ground (arith, same, read_epoch o counter h)
