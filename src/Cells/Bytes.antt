-- ===== src/Cells/Bytes.antt =====
-- lib/private/cell-codec.js: `writeUint64BE` and `readUint64BE`.
use hyperdht.Prelude.{
  ℕ, zero, suc, ◌+◌, ◌*◌, ◌/◌, ◌%◌, ◌^◌, ◌≤◌, ◌<◌, ◌-◌, ◌≡◌, refl, sym, ap, ◌∙◌, List, [], ◌∷◌,
  ◌++◌, length, length-append, take, drop, take_append, drop_append, get_or, arith,
}

abbrev pub max_uint64 : ℕ
max_uint64 = 2 ^ 64 - 1

-- The lowest byte is written last, and the rest of the value before it.
unfoldable pub write_be : ℕ → ℕ → List ℕ
write_be zero value = []
write_be (suc n) value = write_be n (value / 256) ++ value % 256 ∷ []

read_be : ℕ → List ℕ → ℕ
read_be value [] = value
read_be value (b ∷ rest) = read_be (value * 256 + b) rest

unfoldable pub write_uint64 : ℕ → List ℕ
unfolding write_be
write_uint64 value = write_be 8 value

pub read_uint64 : List ℕ → ℕ
unfolding read_be
read_uint64 bytes = read_be 0 bytes

length-write_be : (n value : ℕ) → length (write_be n value) ≡ n
unfolding write_be
length-write_be zero value = refl
length-write_be (suc n) value = omega (
  arith,
  length-append (write_be n (value / 256)) (value % 256 ∷ []),
  length-write_be n (value / 256),
)

read_be-append :
    (acc : ℕ) (xs : List ℕ) (b : ℕ) → read_be acc (xs ++ b ∷ []) ≡ read_be acc xs * 256 + b
unfolding read_be
read_be-append acc [] b = refl
read_be-append acc (x ∷ xs) b = read_be-append (acc * 256 + x) xs b

read_be-write_be : (n value : ℕ) → value < 256 ^ n → read_be 0 (write_be n value) ≡ value
unfolding read_be write_be
read_be-write_be zero value h = omega arith
read_be-write_be (suc n) value h =
    let smaller : value / 256 < 256 ^ n = omega arith in
    omega (
      arith,
      read_be-append 0 (write_be n (value / 256)) (value % 256),
      read_be-write_be n (value / 256) smaller,
    )

pub length-write_uint64 : (value : ℕ) → length (write_uint64 value) ≡ 8
unfolding write_uint64
length-write_uint64 value = length-write_be 8 value

pub read_uint64-write_uint64 :
    (value : ℕ) → value ≤ max_uint64 → read_uint64 (write_uint64 value) ≡ value
unfolding write_uint64 read_uint64
read_uint64-write_uint64 value h = read_be-write_be 8 value (omega arith)

-- The parts of bytes that are joined.
pub take_exact : (n : ℕ) (xs ys : List ℕ) → length xs ≡ n → take n (xs ++ ys) ≡ xs
take_exact n xs ys h = ap (λ k. take k (xs ++ ys)) (sym h) ∙ take_append xs ys

pub drop_exact : (n : ℕ) (xs ys : List ℕ) → length xs ≡ n → drop n (xs ++ ys) ≡ ys
drop_exact n xs ys h = ap (λ k. drop k (xs ++ ys)) (sym h) ∙ drop_append xs ys

pub append_assoc : (xs ys zs : List ℕ) → (xs ++ ys) ++ zs ≡ xs ++ (ys ++ zs)
append_assoc [] ys zs = refl
append_assoc (x ∷ xs) ys zs = ap (◌∷◌ x) (append_assoc xs ys zs)

drop_more : (xs rest : List ℕ) (n : ℕ) → drop (length xs + n) (xs ++ rest) ≡ drop n rest
drop_more [] rest n = let same : 0 + n ≡ n = omega arith in ap (λ k. drop k rest) same
drop_more (x ∷ xs) rest n =
    let same : suc (length xs) + n ≡ suc (length xs + n) = omega arith in
    ap (λ k. drop k (x ∷ (xs ++ rest))) same ∙ drop_more xs rest n

-- Bytes behind a part of known size.
pub drop_past :
    (n from : ℕ) (xs rest : List ℕ) → length xs ≡ n → drop (n + from) (xs ++ rest) ≡ drop from rest
drop_past n from xs rest h = ap (λ k. drop (k + from) (xs ++ rest)) (sym h) ∙ drop_more xs rest from

pub take_all : (n : ℕ) (xs : List ℕ) → length xs ≡ n → take n xs ≡ xs
take_all zero [] h = refl
take_all zero (x ∷ xs) h = absurd (omega (arith, h))
take_all (suc n) [] h = refl
take_all (suc n) (x ∷ xs) h = ap (◌∷◌ x) (take_all n xs (omega (arith, h)))

pub get_or_past :
    (n : ℕ) (xs rest : List ℕ) (d : ℕ) → length xs ≡ n → get_or (xs ++ rest) n d ≡ get_or rest 0 d
get_or_past zero [] rest d h = refl
get_or_past zero (x ∷ xs) rest d h = absurd (omega (arith, h))
get_or_past (suc n) [] rest d h = absurd (omega (arith, h))
get_or_past (suc n) (x ∷ xs) rest d h = get_or_past n xs rest d (omega (arith, h))
