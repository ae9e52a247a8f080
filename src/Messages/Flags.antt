-- ===== src/Messages/Flags.antt =====
-- lib/messages.js: the flags of a message, `(a ? 1 : 0) | (b ? 2 : 0) | …`, and their tests.
use Prim.Native.Nat.{bit_and, bit_or}
use hyperdht.Prelude.{
  ℕ, zero, suc, ◌^◌, ◌<◌, ◌≡◌, refl, Bool, true, false, not, ◌&&◌, List, [], ◌∷◌, length, ltb, ◌==◌,
  if◌then◌else◌, arith,
}

-- `flags & mask`, read as a condition
abbrev pub flagged : ℕ → ℕ → Bool
flagged flags mask = not (bit_and flags mask == 0)

-- The conditions from bit k on are added to the flags so far.
or_flags : ℕ → List Bool → ℕ → ℕ
or_flags k [] flags = flags
or_flags k (b ∷ rest) flags = or_flags (suc k) rest (bit_or flags (if b then 2 ^ k else 0))

unfoldable pub flags : List Bool → ℕ
unfolding or_flags
flags conditions = or_flags 0 conditions 0

same : Bool → Bool → Bool
same true b = b
same false b = not b

are_read : ℕ → List Bool → ℕ → Bool
unfolding same
are_read k [] f = true
are_read k (b ∷ rest) f = same (flagged f (2 ^ k)) b && are_read (suc k) rest f

abbrev pub AreRead : ℕ → List Bool → ℕ → Type 0
AreRead k [] f = Unit
AreRead k (b ∷ rest) f = (flagged f (2 ^ k) ≡ b) × AreRead (suc k) rest f

same-eq : (a b : Bool) → same a b ≡ true → a ≡ b
unfolding same
same-eq true b h = ground arith
same-eq false b h = ground arith

are_read-AreRead : (k : ℕ) (bs : List Bool) (f : ℕ) → are_read k bs f ≡ true → AreRead k bs f
unfolding are_read
are_read-AreRead k [] f h = tt
are_read-AreRead k (b ∷ rest) f h =
    ground (arith, same-eq (flagged f (2 ^ k)) b, are_read-AreRead (suc k) rest f)

-- A test of all lists of conditions of one length.
all_lists : ℕ → (List Bool → Bool) → Bool
all_lists zero p = p []
all_lists (suc n) p = all_lists n (λ bs. p (true ∷ bs)) && all_lists n (λ bs. p (false ∷ bs))

all_lists_sound :
    (n : ℕ) (p : List Bool → Bool) (bs : List Bool)
    → all_lists n p ≡ true
    → length bs ≡ n
    → p bs ≡ true
unfolding all_lists
all_lists_sound zero p [] h e = h
all_lists_sound zero p (b ∷ bs) h e = absurd (omega arith)
all_lists_sound (suc n) p [] h e = absurd (omega arith)
all_lists_sound (suc n) p (true ∷ bs) h e =
    all_lists_sound n (λ bs. p (true ∷ bs)) bs (ground arith) (omega arith)
all_lists_sound (suc n) p (false ∷ bs) h e =
    all_lists_sound n (λ bs. p (false ∷ bs)) bs (ground arith) (omega arith)

abbrev fine : List Bool → Bool
fine bs = ltb (flags bs) 253 && are_read 0 bs (flags bs)

-- Flags take one byte, and each condition is read back.
abbrev pub AreFlags : List Bool → Type 0
AreFlags bs = (flags bs < 253) × AreRead 0 bs (flags bs)

fine-AreFlags : (bs : List Bool) → fine bs ≡ true → AreFlags bs
fine-AreFlags bs h = ground (arith, are_read-AreRead 0 bs (flags bs))

pub two_flags : (bs : List Bool) → length bs ≡ 2 → AreFlags bs
unfolding all_lists flags are_read
two_flags bs e = fine-AreFlags bs (all_lists_sound 2 fine bs refl e)

pub one_flag : (bs : List Bool) → length bs ≡ 1 → AreFlags bs
unfolding all_lists flags are_read
one_flag bs e = fine-AreFlags bs (all_lists_sound 1 fine bs refl e)

pub four_flags : (bs : List Bool) → length bs ≡ 4 → AreFlags bs
unfolding all_lists flags are_read
four_flags bs e = fine-AreFlags bs (all_lists_sound 4 fine bs refl e)

pub six_flags : (bs : List Bool) → length bs ≡ 6 → AreFlags bs
unfolding all_lists flags are_read
six_flags bs e = fine-AreFlags bs (all_lists_sound 6 fine bs refl e)

pub seven_flags : (bs : List Bool) → length bs ≡ 7 → AreFlags bs
unfolding all_lists flags are_read
seven_flags bs e = fine-AreFlags bs (all_lists_sound 7 fine bs refl e)
