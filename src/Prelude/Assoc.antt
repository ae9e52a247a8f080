-- ===== src/Prelude/Assoc.antt =====
-- A JavaScript Map keyed by numbers: the entries in the order of insertion.
use Prim.Native.Nat.{ℕ, suc, ◌+◌}
use mathlib.Core.Path.{◌≡◌, refl}
use mathlib.Core.Bool.{Bool, false, ◌||◌}
use mathlib.Core.List.{List, [], ◌∷◌, ◌++◌}
use mathlib.Core.Option.{Option, none, some}
use native.Mathlib.Omega.{arith}
use hyperdht.Prelude.Tests.{◌==◌, if◌then◌else◌}
use hyperdht.Prelude.Lists.{length, All}

module _ {ℓ} {V : Type ℓ} where
  abbrev pub lookup : ℕ → List (ℕ × V) → Option V
  lookup k [] = none
  lookup k ((j, v) ∷ m) = if j == k then some v else lookup k m

  abbrev pub has : ℕ → List (ℕ × V) → Bool
  has k [] = false
  has k ((j, v) ∷ m) = j == k || has k m

  abbrev pub delete : ℕ → List (ℕ × V) → List (ℕ × V)
  delete k [] = []
  delete k ((j, v) ∷ m) = if j == k then m else (j, v) ∷ delete k m

  -- No key stands twice.
  abbrev pub Distinct : List (ℕ × V) → Type 0
  Distinct [] = Unit
  Distinct ((j, v) ∷ m) = (has j m ≡ false) × Distinct m

  pub has-lookup : (k : ℕ) (m : List (ℕ × V)) → lookup k m ≡ none → has k m ≡ false
  has-lookup k [] e = refl
  has-lookup k ((j, v) ∷ m) e = ground (arith, has-lookup k m)

  pub has-append : (k : ℕ) (m n : List (ℕ × V)) → has k (m ++ n) ≡ (has k m || has k n)
  has-append k [] n = refl
  has-append k ((j, v) ∷ m) n = ground (arith, has-append k m n)

  pub Distinct-append_one :
      (m : List (ℕ × V)) (k : ℕ) (v : V)
      → Distinct m
      → has k m ≡ false
      → Distinct (m ++ (k, v) ∷ [])
  Distinct-append_one [] k v d h = (refl, tt)
  Distinct-append_one ((j, w) ∷ m) k v d h =
      (ground (arith, has-append j m ((k, v) ∷ [])), Distinct-append_one m k v d.1 (ground arith))

  pub has-delete_le : (k j : ℕ) (m : List (ℕ × V)) → has j m ≡ false → has j (delete k m) ≡ false
  has-delete_le k j [] h = refl
  has-delete_le k j ((i, v) ∷ m) h = ground (arith, has-delete_le k j m)

  pub Distinct-delete : (k : ℕ) (m : List (ℕ × V)) → Distinct m → Distinct (delete k m)
  Distinct-delete k [] d = tt
  Distinct-delete k ((j, v) ∷ m) d =
      ground (arith, Distinct-delete k m d.1, has-delete_le k j m d.0)

  pub has-delete_self : (k : ℕ) (m : List (ℕ × V)) → Distinct m → has k (delete k m) ≡ false
  has-delete_self k [] d = refl
  has-delete_self k ((j, v) ∷ m) d = ground (arith, has-delete_self k m d.1)

  pub length-delete :
      (k : ℕ) (m : List (ℕ × V)) (v : V)
      → lookup k m ≡ some v
      → suc (length (delete k m)) ≡ length m
  length-delete k [] v e = ground arith
  length-delete k ((j, w) ∷ m) v e = ground (arith, length-delete k m v)

module _ {ℓ κ} {V : Type ℓ} (P : ℕ × V → Type κ) where
  pub All-delete : (k : ℕ) (m : List (ℕ × V)) → All P m → All P (delete k m)
  All-delete k [] a = tt
  All-delete k ((j, v) ∷ m) a = ground (arith, All-delete k m a.1)

  pub All-append_one : (m : List (ℕ × V)) (e : ℕ × V) → All P m → P e → All P (m ++ e ∷ [])
  All-append_one [] e a p = (p, tt)
  All-append_one (x ∷ m) e a p = (a.0, All-append_one m e a.1 p)

  pub All-lookup : (k : ℕ) (m : List (ℕ × V)) (v : V) → All P m → lookup k m ≡ some v → P (k, v)
  All-lookup k [] v a e = ground arith
  All-lookup k ((j, w) ∷ m) v a e = ground (arith, All-lookup k m v a.1)

module _ {ℓ κ μ} {V : Type ℓ} (P : ℕ × V → Type κ) (Q : ℕ × V → Type μ) where
  pub All-map : (m : List (ℕ × V)) → ((e : ℕ × V) → P e → Q e) → All P m → All Q m
  All-map [] f a = tt
  All-map (e ∷ m) f a = (f e a.0, All-map m f a.1)

-- A value that is changed in place, and the sum of a weight of the values.
module _ {ℓ} {V : Type ℓ} where
  abbrev pub assign : ℕ → V → List (ℕ × V) → List (ℕ × V)
  assign k w [] = []
  assign k w ((j, v) ∷ m) = if j == k then (j, w) ∷ m else (j, v) ∷ assign k w m

  pub has-assign : (k j : ℕ) (w : V) (m : List (ℕ × V)) → has j (assign k w m) ≡ has j m
  has-assign k j w [] = refl
  has-assign k j w ((i, v) ∷ m) = ground (arith, has-assign k j w m)

  pub Distinct-assign : (k : ℕ) (w : V) (m : List (ℕ × V)) → Distinct m → Distinct (assign k w m)
  Distinct-assign k w [] d = tt
  Distinct-assign k w ((j, v) ∷ m) d = ground (arith, Distinct-assign k w m d.1, has-assign k j w m)

  pub length-assign : (k : ℕ) (w : V) (m : List (ℕ × V)) → length (assign k w m) ≡ length m
  length-assign k w [] = refl
  length-assign k w ((j, v) ∷ m) = ground (arith, length-assign k w m)

  pub lookup-assign :
      (k : ℕ) (w v : V) (m : List (ℕ × V)) → lookup k m ≡ some v → lookup k (assign k w m) ≡ some w
  lookup-assign k w v [] e = ground arith
  lookup-assign k w v ((j, u) ∷ m) e = ground (arith, lookup-assign k w v m)

  pub lookup-assign_other :
      (k i : ℕ) (w : V) (m : List (ℕ × V)) → (i == k) ≡ false → lookup i (assign k w m) ≡ lookup i m
  lookup-assign_other k i w [] e = refl
  lookup-assign_other k i w ((j, u) ∷ m) e = ground (arith, lookup-assign_other k i w m e)

  module _ (f : V → ℕ) where
    abbrev pub sum_of : List (ℕ × V) → ℕ
    sum_of [] = 0
    sum_of ((j, v) ∷ m) = f v + sum_of m

    pub sum_of-assign :
        (k : ℕ) (v w : V) (m : List (ℕ × V))
        → lookup k m ≡ some v
        → sum_of (assign k w m) + f v ≡ sum_of m + f w
    sum_of-assign k v w [] e = ground arith
    sum_of-assign k v w ((j, u) ∷ m) e = ground (arith, sum_of-assign k v w m)

    pub sum_of-delete :
        (k : ℕ) (v : V) (m : List (ℕ × V))
        → lookup k m ≡ some v
        → sum_of (delete k m) + f v ≡ sum_of m
    sum_of-delete k v [] e = ground arith
    sum_of-delete k v ((j, u) ∷ m) e = ground (arith, sum_of-delete k v m)

    pub sum_of-append : (m n : List (ℕ × V)) → sum_of (m ++ n) ≡ sum_of m + sum_of n
    sum_of-append [] n = omega arith
    sum_of-append ((j, u) ∷ m) n = omega (arith, sum_of-append m n)

module _ {ℓ κ} {V : Type ℓ} (P : ℕ × V → Type κ) where
  pub All-assign : (k : ℕ) (w : V) (m : List (ℕ × V)) → All P m → P (k, w) → All P (assign k w m)
  All-assign k w [] a p = tt
  All-assign k w ((j, v) ∷ m) a p = ground (arith, All-assign k w m a.1 p)
