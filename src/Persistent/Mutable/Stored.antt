-- ===== src/Persistent/Mutable/Stored.antt =====
-- What a node keeps as mutable values.
use hyperdht.Prelude.{
  ◌≤◌, ◌≡◌, ◌≢◌, refl, sym, ap, subst, ◌∙◌, true, false, ◌&&◌, Option, none, some, [], ltb, ◌==◌,
  arith, inl, inr,
}
use hyperdht.Messages.Encoding.{Laws, Address, IsUint, IsBuffer, is_some}
use hyperdht.Messages.Records.{
  MutablePutRequest, MutableGetResponse, mutable_put_request, mutable_get_response,
}
use hyperdht.Messages.Records.Lawful.{IsMutableGetResponse, mutable_get_response-IsLawful}
use hyperdht.Messages.Reads.{Reads, HasSignature, mutable_put_request-HasSignature, Always-first}
use hyperdht.Dht.{
  Buffer, Node, Request, CacheLaws, get-set_cases, equals, equals-eq, decode, encode, given_lem,
  if_lem, ◌>>=◌,
}
use hyperdht.Persistent.{State, Response, threw, verify_mutable}
use hyperdht.Persistent.Mutable.{
  Outcome, set_mutable, replace_mutable, store_mutable, put_mutable, on_mutable_put, differs,
}

-- A value is signed by the key whose hash it is stored under.
abbrev pub IsSigned : (n : Node) → Buffer → MutableGetResponse → Type 0
IsSigned n k m =
    (key : Buffer) × (n.hash key ≡ k)
    × (verify_mutable n m.signature m.seq m.value key ≡ true)
    × (is_some m.value ≡ true)

module _ (n : Node) (IsIpv4 IsIpv6 : Address → Type 0) (laws : Laws n.compact IsIpv4 IsIpv6)
    (cache : CacheLaws n.caches) where
  abbrev pub IsKept : Buffer → Buffer → Type 0
  IsKept k bytes =
      (m : MutableGetResponse) × (decode (mutable_get_response n.compact) bytes ≡ some m)
      × IsUint m.seq
      × IsSigned n k m

  -- Each stored value is read back, and signed.
  abbrev pub AreKept : State n → Type 0
  AreKept s = (k bytes : Buffer) → n.caches.get k s.mutables ≡ some bytes → IsKept k bytes

  decode-encode :
      (m : MutableGetResponse)
      → IsMutableGetResponse n.compact IsIpv4 IsIpv6 laws m
      → decode (mutable_get_response n.compact) (encode (mutable_get_response n.compact) m) ≡ some m
  decode-encode m h =
      let part = mutable_get_response-IsLawful n.compact IsIpv4 IsIpv6 laws m [] h in
      ground (arith, part.read)

  -- A stored value gives way to one of a later number, or to itself.
  abbrev pub IsNewer : MutableGetResponse → MutableGetResponse → Type 0
  IsNewer old new = (old.seq ≤ new.seq) × (old.seq ≡ new.seq → old.value ≡ new.value)

  abbrev read : Buffer → Option MutableGetResponse
  read bytes = decode (mutable_get_response n.compact) bytes

  abbrev pub IsOrdered : State n → State n → Type 0
  IsOrdered s t =
      (k before after : Buffer) (old new : MutableGetResponse)
      → n.caches.get k s.mutables ≡ some before
      → read before ≡ some old
      → n.caches.get k t.mutables ≡ some after
      → read after ≡ some new
      → IsNewer old new

  abbrev pub IsSafe : State n → Outcome n → Type 0
  IsSafe s o = AreKept o.0 × IsOrdered s o.0 × (o.1 ≢ threw)

  same_read :
      (before after : Buffer) (old new : MutableGetResponse)
      → before ≡ after
      → read before ≡ some old
      → read after ≡ some new
      → IsNewer old new
  same_read before after old new same e f =
      let g : some old ≡ some new = sym e ∙ ap read same ∙ f in
      let h : old ≡ new = ground arith in
      (omega (arith, ap (λ m. m.seq) h), λ _. ap (λ m. m.value) h)

  unchanged-IsSafe : (s : State n) (r : Response) → AreKept s → r ≢ threw → IsSafe s (s, r)
  unchanged-IsSafe s r kept quiet = (
    kept,
    λ k before after old new e f g h. same_read before after old new (ground arith) f h,
    quiet,
  )

  values_agree :
      (o : Option Buffer) (value : Buffer)
      → is_some o ≡ true
      → differs o value ≡ false
      → o ≡ some value
  values_agree none value filled h = absurd (ground arith)
  values_agree (some old) value filled h = ap some (sym (equals-eq value old (ground arith)))

  module _ (k : Buffer) (m : MutableGetResponse) (s : State n) (kept : AreKept s)
      (fits : IsMutableGetResponse n.compact IsIpv4 IsIpv6 laws m) where
    abbrev bytes_of : Buffer
    bytes_of = encode (mutable_get_response n.compact) m

    abbrev AllOlder : Type 0
    AllOlder =
        (before : Buffer) (old : MutableGetResponse)
        → n.caches.get k s.mutables ≡ some before
        → read before ≡ some old
        → IsNewer old m

    new_entry : (j bytes : Buffer) → IsSigned n k m → j ≡ k → bytes ≡ bytes_of → IsKept j bytes
    new_entry j bytes (key, hashed, verified, filled) same same_bytes = (
      m,
      ap read same_bytes ∙ decode-encode m fits,
      fits.0,
      (key, hashed ∙ sym same, verified, filled),
    )

    replaced :
        (j before after : Buffer) (old new : MutableGetResponse)
        → AllOlder
        → n.caches.get j s.mutables ≡ some before
        → read before ≡ some old
        → j ≡ k
        → after ≡ bytes_of
        → read after ≡ some new
        → IsNewer old new
    replaced j before after old new older e f same same_bytes h =
        let there = sym (ap (λ i. n.caches.get i s.mutables) same) ∙ e in
        let read_new : some m ≡ some new = sym (ap read same_bytes ∙ decode-encode m fits) ∙ h in
        let is_new : m ≡ new = ground arith in subst (IsNewer old) is_new (older before old there f)

    set_mutable-IsSafe : IsSigned n k m → AllOlder → IsSafe s (set_mutable n k m s)
    unfolding set_mutable
    set_mutable-IsSafe signed older = (
      λ j bytes e. elim (get-set_cases n.caches cache j k bytes_of bytes s.mutables e) [
        | inl (same, same_bytes) ↦ new_entry j bytes signed same same_bytes
        | inr before ↦ kept j bytes before
      ],
      λ j before after old new e f g h.
          elim (get-set_cases n.caches cache j k bytes_of after s.mutables g) [
            | inl (same, same_bytes) ↦ replaced j before after old new older e f same same_bytes h
            | inr there ↦ same_read before after old new (ground arith) f h
          ],
      λ e. ground arith,
    )

    only_read :
        (local before : Buffer) (existing old : MutableGetResponse)
        → n.caches.get k s.mutables ≡ some local
        → read local ≡ some existing
        → n.caches.get k s.mutables ≡ some before
        → read before ≡ some old
        → existing ≡ old
    only_read local before existing old found is_read there reads =
        let same : local ≡ before = ground arith in
        let e : some existing ≡ some old = sym is_read ∙ ap read same ∙ reads in ground arith

    -- What `replace_mutable` found out of the value that is stored.
    existing-IsNewer :
        (existing : MutableGetResponse) (value : Buffer)
        → m.value ≡ some value
        → is_some existing.value ≡ true
        → (existing.seq == m.seq && differs existing.value value) ≡ false
        → ltb m.seq existing.seq ≡ false
        → IsNewer existing m
    existing-IsNewer existing value e filled same late =
        (ground arith, λ seqs. values_agree existing.value value filled (ground arith) ∙ sym e)

    replace_mutable-IsSafe :
        (value local : Buffer) (existing : MutableGetResponse)
        → m.value ≡ some value
        → IsSigned n k m
        → n.caches.get k s.mutables ≡ some local
        → read local ≡ some existing
        → is_some existing.value ≡ true
        → IsSafe s (replace_mutable n k m value existing s)
    unfolding replace_mutable
    replace_mutable-IsSafe value local existing e signed found is_read filled =
        if_lem (IsSafe s) (existing.seq == m.seq && differs existing.value value) _ _
          (λ reused. unchanged-IsSafe s _ kept (λ f. ground arith))
          (λ fresh.
            if_lem (IsSafe s) (ltb m.seq existing.seq) _ _
              (λ late. unchanged-IsSafe s _ kept (λ f. ground arith))
              (λ newer. set_mutable-IsSafe signed (λ before old there reads.
                subst (λ o. IsNewer o m)
                  (only_read local before existing old found is_read there reads)
                  (existing-IsNewer existing value e filled fresh newer))))

    store_mutable-IsSafe :
        (value : Buffer)
        → m.value ≡ some value
        → IsSigned n k m
        → IsSafe s (store_mutable n k m value s)
    unfolding store_mutable
    store_mutable-IsSafe value e signed =
        given_lem (IsSafe s) (n.caches.get k s.mutables) _ _
          (λ missing. set_mutable-IsSafe signed (λ before old there reads. absurd (ground arith)))
          (λ local found.
            let (existing, is_read, small, (key, hashed, verified, filled)) = kept k local found in
            given_lem (IsSafe s) (read local) _ _ (λ unread. absurd (ground arith))
              (λ old reads.
                let same : existing ≡ old =
                  only_read local local existing old found is_read found reads in
                replace_mutable-IsSafe value local old e signed found reads
                  (ap (λ o. is_some o.value) (sym same) ∙ filled)))

  put_mutable-IsSafe :
      (target : Buffer) (p : MutablePutRequest) (s : State n)
      → AreKept s
      → IsUint p.seq
      → HasSignature p
      → IsSafe s (put_mutable n target p s)
  unfolding put_mutable
  put_mutable-IsSafe target p s kept small (filled, long) =
      if_lem (IsSafe s) (equals (n.hash p.public_key) target) _ _
        (λ hashed.
          given_lem (IsSafe s) p.value _ _
            (λ missing. unchanged-IsSafe s _ kept (λ f. ground arith))
            (λ value e.
              if_lem (IsSafe s) (verify_mutable n p.signature p.seq (some value) p.public_key) _ _
                (λ verified.
                  store_mutable-IsSafe target
                    (record { seq = p.seq; value = some value; signature = p.signature }) s kept
                    (small, subst IsBuffer e filled, long) value refl
                    (p.public_key, equals-eq _ _ hashed, verified, refl))
                (λ forged. unchanged-IsSafe s _ kept (λ f. ground arith))))
        (λ foreign. unchanged-IsSafe s _ kept (λ f. ground arith))

  abbrev pub put_request : Request → Option MutablePutRequest
  put_request req = req.value >>= decode (mutable_put_request n.compact)

  -- The request has an exact sequence number.
  abbrev pub IsExact : Request → Type 0
  IsExact req = (p : MutablePutRequest) → put_request req ≡ some p → IsUint p.seq

  read_signature :
      (v : Option Buffer) (p : MutablePutRequest)
      → Reads n.compact
      → (v >>= decode (mutable_put_request n.compact)) ≡ some p
      → HasSignature p
  read_signature none p reads e = absurd (ground arith)
  read_signature (some bytes) p reads e =
      Always-first HasSignature ((mutable_put_request n.compact).decode bytes) p
        (mutable_put_request-HasSignature n.compact reads bytes) e

  pub on_mutable_put-IsSafe :
      Reads n.compact
      → (req : Request) (s : State n) → AreKept s
      → IsExact req
      → IsSafe s (on_mutable_put n req s)
  unfolding on_mutable_put
  on_mutable_put-IsSafe reads req s kept exact =
      given_lem (IsSafe s) req.target _ _ (λ missing. unchanged-IsSafe s _ kept (λ f. ground arith))
        (λ target e.
          given_lem (IsSafe s) req.token _ _
            (λ missing. unchanged-IsSafe s _ kept (λ f. ground arith))
            (λ token f.
              given_lem (IsSafe s) (req.value >>= decode (mutable_put_request n.compact)) _ _
                (λ missing. unchanged-IsSafe s _ kept (λ f. ground arith))
                (λ p g.
                  put_mutable-IsSafe target p s kept (exact p g)
                    (read_signature req.value p reads g))))
