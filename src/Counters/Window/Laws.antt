-- ===== src/Counters/Window/Laws.antt =====
-- About `DatagramReplayWindow` of lib/private/counters.js: the bitmap and the accepted counters
-- that it stands for.
use Prim.Native.Nat.{bit_and, bit_or}
use hyperdht.Prelude.{
  ℕ, zero, suc, ◌+◌, ◌-◌, ◌*◌, ◌^◌, ◌≤◌, ◌<◌, max, ◌≡◌, ap, ◌&&◌, List, [], ◌∷◌, arith, leb,
  if◌then◌else◌, All, dec_lt, ℕ_discrete,
}
use hyperdht.Prelude.Bits.{
  bit, bit-bit_and, bit-bit_or, bit-mask_low, bit-shift, bit-shift_low, bit-one, bit-pow_self,
  bit-pow_ne, bit-le-one,
}
use hyperdht.Counters.Window.Seen.{contains, contains_above}

-- Digit i of the bitmap says whether `h - i` was accepted.
abbrev pub Represents : ℕ → ℕ → ℕ → List ℕ → Type 0
Represents window h bitmap seen =
    (i : ℕ) → i < window → bit bitmap i ≡ (if leb i h && contains seen (h - i) then 1 else 0)

pub Represents-first : (window c : ℕ) → Represents window c 1 (c ∷ [])
unfolding bit contains
Represents-first window c zero l = ground arith
Represents-first window c (suc j) l = ground (arith, bit-one j)

module _ (window h : ℕ) (bitmap : ℕ) (seen : List ℕ) where
  bit_moved :
      (s i : ℕ)
      → i < window
      → bit (bit_and (bit_or (bitmap * 2 ^ s) 1) (2 ^ window - 1)) i
        ≡ max (bit (bitmap * 2 ^ s) i) (bit 1 i)
  bit_moved s i l = omega (
    arith,
    bit-bit_and (bit_or (bitmap * 2 ^ s) 1) (2 ^ window - 1) i,
    bit-bit_or (bitmap * 2 ^ s) 1 i,
    bit-mask_low window i l,
    bit-le-one (bitmap * 2 ^ s) i,
    bit-le-one 1 i,
  )

  pub Represents-moved :
      (c : ℕ)
      → h < c
      → All (λ x. x ≤ h) seen
      → Represents window h bitmap seen
      → Represents window c (bit_and (bit_or (bitmap * 2 ^ (c - h)) 1) (2 ^ window - 1)) (c ∷ seen)
  unfolding bit contains
  Represents-moved c above bound rep zero l =
      ground (arith, bit_moved (c - h) 0 l, bit-shift_low bitmap (c - h) 0)
  Represents-moved c above bound rep (suc j) l = elim (dec_lt (suc j) (c - h)) [
    | yes low ↦ ground (
      arith,
      bit_moved (c - h) (suc j) l,
      bit-one j,
      bit-shift_low bitmap (c - h) (suc j) low,
      contains_above seen h (c - suc j) bound,
    )
    | no high ↦
        let k = suc j - (c - h) in
        let index : c - h + k ≡ suc j = omega arith in
        let below : c - suc j ≡ h - k = omega arith in
        ground (
          arith,
          bit_moved (c - h) (suc j) l,
          bit-one j,
          ap (bit (bitmap * 2 ^ (c - h))) index,
          bit-shift bitmap (c - h) k,
          ap (contains seen) below,
          rep k (omega arith),
        )
  ]

  pub Represents-far :
      (c : ℕ) → h < c → window ≤ c - h → All (λ x. x ≤ h) seen → Represents window c 1 (c ∷ seen)
  unfolding bit contains
  Represents-far c above far bound zero l = ground arith
  Represents-far c above far bound (suc j) l =
      ground (arith, bit-one j, contains_above seen h (c - suc j) bound)

  pub Represents-set :
      (c : ℕ)
      → c ≤ h
      → Represents window h bitmap seen
      → Represents window h (bit_or bitmap (2 ^ (h - c))) (c ∷ seen)
  unfolding contains
  Represents-set c within rep i l = elim (ℕ_discrete i (h - c)) [
    | yes same ↦ ground (
      arith,
      bit-bit_or bitmap (2 ^ (h - c)) i,
      ap (bit (2 ^ (h - c))) same,
      bit-pow_self (h - c),
      bit-le-one bitmap i,
    )
    | no differ ↦ ground (
      arith,
      bit-bit_or bitmap (2 ^ (h - c)) i,
      bit-pow_ne (h - c) i (λ e. differ (omega arith)),
      rep i l,
    )
  ]
