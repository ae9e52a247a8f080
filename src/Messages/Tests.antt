-- ===== src/Messages/Tests.antt =====
-- A simple package of encodings, at which the messages of lib/messages.js are run: a number is one
-- item, and a buffer, a string and an array start with their length.
mod Witnesses
use hyperdht.Prelude.{
  ℕ, zero, suc, ◌+◌, ◌-◌, ◌≤◌, ◌<◌, ◌≡◌, refl, sym, ap, ap₂, Bool, true, false, Option, none, some,
  List, [], ◌∷◌, ◌++◌, length, take, drop, take_append, drop_append, length-append, length-take,
  All, arith, if◌then◌else◌, ◌==◌, leb, ◌∙◌,
}
use hyperdht.Messages.Encoding.{
  Encoding, Compact, Laws, Address, Reader, IsLawful, IsUint, IsBuffer, IsPort, Part, Given,
}
use hyperdht.Messages.Reads.{Reads, Always, OfValue}

read_uint : Reader ℕ
read_uint [] = none
read_uint (n ∷ rest) = some (n, rest)

abbrev simple_uint : Encoding ℕ
simple_uint = record { preencode = λ n. 1; encode = λ n rest. n ∷ rest; decode = read_uint }

read_fixed : ℕ → Reader (List ℕ)
read_fixed n s = if leb n (length s) then some (take n s, drop n s) else none

abbrev simple_fixed : ℕ → Encoding (List ℕ)
simple_fixed n = record { preencode = λ b. n; encode = λ b rest. b ++ rest; decode = read_fixed n }

read_fixed-append :
    (n : ℕ) (b rest : List ℕ) → length b ≡ n → read_fixed n (b ++ rest) ≡ some (b, rest)
unfolding read_fixed
read_fixed-append n b rest h =
    let fits : n ≤ length (b ++ rest) = omega (arith, length-append b rest) in
    let front : take n (b ++ rest) ≡ b =
      ap (λ k. take k (b ++ rest)) (sym h) ∙ take_append b rest in
    let back : drop n (b ++ rest) ≡ rest =
      ap (λ k. drop k (b ++ rest)) (sym h) ∙ drop_append b rest in
    ground (arith, front, back)

simple_fixed-IsLawful : (n : ℕ) → IsLawful (simple_fixed n) (λ b. length b ≡ n)
simple_fixed-IsLawful n b rest h = record {
  read = read_fixed-append n b rest h;
  size = omega (arith, length-append b rest);
}

read_string : Reader (List ℕ)
unfolding read_fixed
read_string [] = none
read_string (n ∷ rest) = read_fixed n rest

abbrev simple_string : Encoding (List ℕ)
simple_string = record {
  preencode = λ s. 1 + length s;
  encode = λ s rest. length s ∷ s ++ rest;
  decode = read_string;
}

simple_string-IsLawful : IsLawful simple_string (λ s. Unit {0})
unfolding read_string
simple_string-IsLawful s rest h = record {
  read = read_fixed-append (length s) s rest refl;
  size = omega (arith, length-append s rest);
}

nonempty : List ℕ → Option (List ℕ)
nonempty [] = none
nonempty (x ∷ xs) = some (x ∷ xs)

as_buffer : Option (List ℕ × List ℕ) → Option (Option (List ℕ) × List ℕ)
as_buffer none = none
as_buffer (some (s, rest)) = some (nonempty s, rest)

content : Option (List ℕ) → List ℕ
content none = []
content (some b) = b

abbrev simple_buffer : Encoding (Option (List ℕ))
simple_buffer = record {
  preencode = λ b. 1 + length (content b);
  encode = λ b rest. length (content b) ∷ content b ++ rest;
  decode = λ s. as_buffer (read_string s);
}

nonempty-content : (b : Option (List ℕ)) → IsBuffer b → nonempty (content b) ≡ b
unfolding nonempty content
nonempty-content none h = refl
nonempty-content (some []) h = absurd (omega arith)
nonempty-content (some (x ∷ xs)) h = refl

simple_buffer-IsLawful : IsLawful simple_buffer IsBuffer
unfolding as_buffer
simple_buffer-IsLawful b rest h =
    let part = simple_string-IsLawful (content b) rest tt in
    record {
      read = ap as_buffer part.read ∙ ap (λ c. some (c, rest)) (nonempty-content b h);
      size = part.size;
    }

read_address : Reader Address
read_address (host ∷ port ∷ a ∷ b ∷ c ∷ d ∷ rest) = some (record { host = host; port = port }, rest)
read_address s = none

abbrev simple_address : Encoding Address
simple_address = record {
  preencode = λ a. 6;
  encode = λ a rest. a.host ∷ a.port ∷ 0 ∷ 0 ∷ 0 ∷ 0 ∷ rest;
  decode = read_address;
}

simple_address-IsLawful : IsLawful simple_address IsPort
unfolding read_address
simple_address-IsLawful a rest h = record { read = refl; size = omega arith }

write_all : {A : Type 0} → Encoding A → List A → List ℕ → List ℕ
write_all e [] rest = rest
write_all e (a ∷ as_) rest = e.encode a (write_all e as_ rest)

count_all : {A : Type 0} → Encoding A → List A → ℕ
count_all e [] = 0
count_all e (a ∷ as_) = e.preencode a + count_all e as_

add_first : {A : Type 0} → A → Option (List A × List ℕ) → Option (List A × List ℕ)
add_first a none = none
add_first a (some (as_, rest)) = some (a ∷ as_, rest)

read_all : {A : Type 0} → Encoding A → ℕ → Reader (List A)
unfolding add_first
read_all e zero s = some ([], s)
read_all e (suc n) s = elim (e.decode s) [
  | none ↦ none
  | some (a, rest) ↦ add_first a (read_all e n rest)
]

read_array : {A : Type 0} → Encoding A → Reader (List A)
unfolding read_all
read_array e [] = none
read_array e (n ∷ rest) = read_all e n rest

write_all-IsLawful :
    {A : Type 0} (e : Encoding A) (P : A → Type 0) (law : IsLawful e P) (l : List A) (rest : List ℕ)
    → All P l
    → Part (read_all e (length l)) (write_all e l rest) l rest (count_all e l)
unfolding write_all read_all count_all add_first
write_all-IsLawful e P law [] rest h = record { read = refl; size = omega arith }
write_all-IsLawful e P law (a ∷ l) rest (h, hs) =
    let first = law a (write_all e l rest) h in
    let later = write_all-IsLawful e P law l rest hs in
    record {
      read = ground (arith, first.read, later.read);
      size = omega (arith, first.size, later.size);
    }

simple_array : {A : Type 0} → Encoding A → Encoding (List A)
simple_array e = record {
  preencode = λ l. 1 + count_all e l;
  encode = λ l rest. length l ∷ write_all e l rest;
  decode = read_array e;
}

simple_array-IsLawful :
    {A : Type 0} (e : Encoding A) (P : A → Type 0)
    → IsLawful e P
    → IsLawful (simple_array e) (All P)
unfolding simple_array read_array
simple_array-IsLawful e P law l rest h =
    let part = write_all-IsLawful e P law l rest h in
    record { read = part.read; size = omega (arith, part.size) }

read_raw : Reader (List ℕ)
read_raw s = some (s, [])

abbrev simple_raw : Encoding (List ℕ)
simple_raw = record { preencode = λ b. length b; encode = λ b rest. b ++ rest; decode = read_raw }

unfoldable pub simple : Compact
unfolding read_uint read_fixed read_string nonempty as_buffer content read_address read_array
    simple_array write_all count_all read_all add_first read_raw
simple = record {
  uint = simple_uint;
  buffer = simple_buffer;
  fixed32 = simple_fixed 32;
  fixed64 = simple_fixed 64;
  string = simple_string;
  ipv4 = simple_address;
  ipv6 = simple_address;
  raw = simple_raw;
  array = simple_array;
}

pub simple_laws : Laws simple IsPort IsPort
unfolding simple read_uint
simple_laws = record {
  uint = λ n rest h. record { read = refl; size = omega arith };
  uint_small = λ n h. refl;
  buffer = simple_buffer-IsLawful;
  fixed32 = simple_fixed-IsLawful 32;
  fixed32_size = λ b. refl;
  fixed64 = simple_fixed-IsLawful 64;
  fixed64_size = λ b. refl;
  string = simple_string-IsLawful;
  ipv4 = simple_address-IsLawful;
  ipv4_size = λ a. refl;
  ipv6 = simple_address-IsLawful;
  array = simple_array-IsLawful;
}

read_fixed-Always : (n : ℕ) → Always (λ b. length b ≡ n) (read_fixed n)
unfolding read_fixed
read_fixed-Always n s = ground (arith, length-take n s)

as_buffer-IsBuffer : (o : Option (List ℕ × List ℕ)) → Given (OfValue IsBuffer) (as_buffer o)
unfolding as_buffer nonempty
as_buffer-IsBuffer none = tt
as_buffer-IsBuffer (some ([], rest)) = tt
as_buffer-IsBuffer (some (x ∷ xs, rest)) = omega arith

pub simple_reads : Reads simple
unfolding simple
simple_reads = record {
  fixed64 = read_fixed-Always 64;
  buffer = λ s. as_buffer-IsBuffer (read_string s);
}
