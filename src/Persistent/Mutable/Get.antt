-- ===== src/Persistent/Mutable/Get.antt =====
-- Getting the mutable values that were put.
use hyperdht.Prelude.{
  ℕ, ◌≤◌, ◌<◌, ◌≡◌, refl, sym, ap, ◌∙◌, true, none, some, [], arith, inl, inr, ◌⊎◌,
}
use hyperdht.Messages.Encoding.{Laws, Address, IsUint}
use hyperdht.Messages.Records.{
  MutablePutRequest, MutableGetResponse, mutable_put_request, mutable_get_response,
}
use hyperdht.Messages.Records.Lawful.{IsMutablePutRequest, mutable_put_request-IsLawful}
use hyperdht.Dht.{Buffer, Node, Request, CacheLaws, equals, equals_refl, decode, encode}
use hyperdht.Persistent.{State, reply, verify_mutable}
use hyperdht.Persistent.Mutable.{
  set_mutable, replace_mutable, store_mutable, put_mutable, on_mutable_put, get_mutable,
  on_mutable_get,
}

module _ (n : Node) (IsIpv4 IsIpv6 : Address → Type 0) (laws : Laws n.compact IsIpv4 IsIpv6)
    (cache : CacheLaws n.caches) where
  -- Nothing is kept under the key, or a value of an earlier number.
  abbrev pub IsFresh : Buffer → ℕ → State n → Type 0
  IsFresh k seq s =
      (n.caches.get k s.mutables ≡ none)
      ⊎ ((local : Buffer) × (old : MutableGetResponse) × (n.caches.get k s.mutables ≡ some local)
          × (decode (mutable_get_response n.compact) local ≡ some old)
          × (old.seq < seq))

  abbrev pub response_to : ℕ → Buffer → Buffer → MutableGetResponse
  response_to seq value signature = record { seq = seq; value = some value; signature = signature }

  store_fresh :
      (k value : Buffer) (m : MutableGetResponse) (s : State n)
      → IsFresh k m.seq s
      → store_mutable n k m value s ≡ set_mutable n k m s
  unfolding store_mutable replace_mutable
  store_fresh k value m s (inl missing) = ground (arith, missing)
  store_fresh k value m s (inr (local, old, found, is_read, older)) =
      ground (arith, found, is_read, older)

  put_fresh :
      (k value : Buffer) (p : MutablePutRequest) (s : State n)
      → n.hash p.public_key ≡ k
      → p.value ≡ some value
      → verify_mutable n p.signature p.seq (some value) p.public_key ≡ true
      → IsFresh k p.seq s
      → put_mutable n k p s ≡ set_mutable n k (response_to p.seq value p.signature) s
  unfolding put_mutable
  put_fresh k value p s hashed filled verified fresh =
      let same : equals (n.hash p.public_key) k ≡ true =
        ap (equals (n.hash p.public_key)) (sym hashed) ∙ equals_refl (n.hash p.public_key) in
      ground (
        arith,
        same,
        filled,
        verified,
        store_fresh k value (response_to p.seq value p.signature) s fresh,
      )

  get_set :
      (k : Buffer) (m : MutableGetResponse) (seq : ℕ) (s : State n)
      → IsUint m.seq
      → seq ≤ m.seq
      → get_mutable n k seq (set_mutable n k m s).0
        ≡ reply (some (encode (mutable_get_response n.compact) m))
  unfolding get_mutable set_mutable mutable_get_response
  get_set k m seq s small late =
      let part =
        laws.uint m.seq (n.compact.buffer.encode m.value (n.compact.fixed64.encode m.signature []))
          small in
      let found = cache.get-set k (encode (mutable_get_response n.compact) m) s.mutables in
      ground (arith, part.read, found)

  abbrev pub put_of : Buffer → Buffer → Address → MutablePutRequest → Request
  put_of target token from p = record {
    target = some target;
    token = some token;
    value = some (encode (mutable_put_request n.compact) p);
    from = from;
  }

  abbrev pub get_of : Buffer → Address → ℕ → Request
  get_of target from seq = record {
    target = some target;
    token = none;
    value = some (encode n.compact.uint seq);
    from = from;
  }

  -- A get after a put that is signed, and fresher than what is stored, returns what was put, if it
  -- asks for no later number.
  pub on_mutable_get-on_mutable_put :
      (token value : Buffer) (from asker : Address) (p : MutablePutRequest) (seq : ℕ) (s : State n)
      → IsMutablePutRequest n.compact IsIpv4 IsIpv6 laws p
      → p.value ≡ some value
      → verify_mutable n p.signature p.seq (some value) p.public_key ≡ true
      → IsFresh (n.hash p.public_key) p.seq s
      → seq ≤ p.seq
      → on_mutable_get n
          (get_of (n.hash p.public_key) asker seq)
          (on_mutable_put n (put_of (n.hash p.public_key) token from p) s).0
        ≡ reply
            (some (encode (mutable_get_response n.compact) (response_to p.seq value p.signature)))
  unfolding on_mutable_get on_mutable_put
  on_mutable_get-on_mutable_put token value from asker p seq s fits filled verified fresh late =
      let part = mutable_put_request-IsLawful n.compact IsIpv4 IsIpv6 laws p [] fits in
      let asked = laws.uint seq [] (omega (arith, fits)) in
      let k = n.hash p.public_key in
      ground (
        arith,
        part.read,
        asked.read,
        put_fresh k value p s refl filled verified fresh,
        get_set k (response_to p.seq value p.signature) seq s (omega (arith, fits)) late,
      )
