-- ===== src/Messages/Reads.antt =====
-- What the messages of lib/messages.js hold when they are read from any bytes.
use hyperdht.Prelude.{ℕ, ◌≡◌, subst, Option, none, some, List, length, arith}
use hyperdht.Messages.Encoding.{Compact, Reader, ◌>>=◌, Given, IsBuffer}
use hyperdht.Messages.Records.{MutablePutRequest, mutable_put_request}

abbrev pub OfValue : {A : Type 0} → (A → Type 0) → A × List ℕ → Type 0
OfValue P (a, rest) = P a

-- A reader that returns a value returns one of P.
abbrev pub Always : {A : Type 0} → (A → Type 0) → Reader A → Type 0
Always P m = (s : List ℕ) → Given (OfValue P) (m s)

after :
    {A B : Type 0} (Q : A → Type 0) (P : B → Type 0) (f : A → Reader B) (o : Option (A × List ℕ))
    → Given (OfValue Q) o
    → ((a : A) → Q a → Always P (f a))
    → Given (OfValue P) (elim o [ none ↦ none | some (a, rest) ↦ f a rest ])
after Q P f none first later = tt
after Q P f (some (a, rest)) first later = later a first rest

pub Always-then :
    {A B : Type 0} (Q : A → Type 0) (P : B → Type 0) (m : Reader A) (f : A → Reader B)
    → Always Q m
    → ((a : A) → Q a → Always P (f a))
    → Always P (m >>= f)
unfolding ◌>>=◌
Always-then Q P m f first later s = after Q P f (m s) (first s) later

pub Always-first :
    {A : Type 0} (P : A → Type 0) (o : Option (A × List ℕ)) (a : A)
    → Given (OfValue P) o
    → elim o [ none ↦ none | some (b, rest) ↦ some b ] ≡ some a
    → P a
Always-first P none a h e = absurd (ground arith)
Always-first P (some (b, rest)) a h e = let same : b ≡ a = ground arith in subst P same h

abbrev Anything : (A : Type 0) → A → Type 0
Anything A a = Unit

given-Anything : {A : Type 0} (o : Option (A × List ℕ)) → Given (OfValue (Anything A)) o
given-Anything none = tt
given-Anything (some (a, rest)) = tt

pub Always-Anything : {A : Type 0} (m : Reader A) → Always (Anything A) m
Always-Anything m s = given-Anything (m s)

-- What the package promises of a value that it reads.
pub record Reads (c : Compact) : Type 0 where
  pub fixed64 : Always (λ b. length b ≡ 64) c.fixed64.decode
  pub buffer : Always IsBuffer c.buffer.decode

abbrev pub HasSignature : MutablePutRequest → Type 0
HasSignature p = IsBuffer p.value × (length p.signature ≡ 64)

pub mutable_put_request-HasSignature :
    (c : Compact) → Reads c → Always HasSignature (mutable_put_request c).decode
unfolding mutable_put_request
mutable_put_request-HasSignature c reads =
    Always-then (Anything _) _ _ _ (Always-Anything _) (λ key h.
      Always-then (Anything _) _ _ _ (Always-Anything _) (λ seq h.
        Always-then IsBuffer _ _ _ reads.buffer (λ value filled.
          Always-then (λ b. length b ≡ 64) _ _ _ reads.fixed64
            (λ signature long s. (filled, long)))))
