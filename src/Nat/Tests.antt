-- ===== src/Nat/Tests.antt =====
-- The NAT sampler on concrete sightings.
use hyperdht.Prelude.{ℕ, ◌≡◌, refl, true, ◌&&◌, some, List, [], ◌∷◌, arith, ◌==◌, if◌then◌else◌}
use hyperdht.Nat.Samples.{Sample, add_sample, total_hits}
use hyperdht.Nat.{Nat, Address, add, construct}
use hyperdht.Nat.Laws.{Returns, IsValid, add-IsValid}

abbrev sample : ℕ → ℕ → ℕ → Sample
sample host port hits = record { host = host; port = port; hits = hits }

abbrev at : ℕ → ℕ → Address
at host port = record { host = host; port = port }

abbrev three : List Sample
three = sample 7 80 2 ∷ sample 8 80 1 ∷ sample 9 80 1 ∷ []

overtaken : add_sample three 9 80 ≡ sample 7 80 2 ∷ sample 9 80 2 ∷ sample 8 80 1 ∷ []
unfolding add_sample
overtaken = refl

-- Two nodes have seen the same address; a third one follows.
abbrev two_in : Nat
two_in = record (construct true) {
  samples_host = sample 7 0 2 ∷ [];
  samples_full = sample 7 80 2 ∷ [];
  sampled = 2;
}

two_in-IsValid : IsValid two_in
unfolding total_hits construct
two_in-IsValid = ground arith

add-IsValid_example : Returns IsValid (add true (at 7 80) (at 3 9) two_in)
add-IsValid_example = add-IsValid true (at 7 80) (at 3 9) two_in two_in-IsValid

abbrev first_in : Nat
first_in = record (construct true) {
  samples_host = sample 7 0 1 ∷ [];
  samples_full = sample 7 80 1 ∷ [];
  visited = λ host port. if host == 3 && port == 9 then 2 else 0;
  sampled = 1;
}

first_in_lem : add true (at 7 80) (at 3 9) (construct true) ≡ some first_in
unfolding add construct add_sample
first_in_lem = refl

abbrev three_in : Nat
three_in = record (construct true) {
  samples_host = sample 7 0 3 ∷ sample 8 0 1 ∷ [];
  samples_full = sample 7 80 3 ∷ sample 8 80 1 ∷ [];
  sampled = 4;
}

three_in-IsValid : IsValid three_in
unfolding total_hits construct
three_in-IsValid = ground arith
