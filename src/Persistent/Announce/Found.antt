-- ===== src/Persistent/Announce/Found.antt =====
-- Looking a peer up that announced itself.
use hyperdht.Prelude.{
  ℕ, ◌+◌, ◌≤◌, ◌≡◌, refl, sym, ap, ap₂, if◌then◌else◌, ◌∙◌, transport, true, false, some, List, [],
  ◌∷◌, ◌++◌, length, length-append, ltb, arith, inl, inr, ◌⊎◌,
}
use hyperdht.Messages.Encoding.{Address}
use hyperdht.Messages.Records.{Announce, Peer, peer, announce}
use hyperdht.Dht.{
  given_lem, if_lem, Buffer, Node, Request, CacheLaws, equals, decode, encode, ◌>>=◌,
}
use hyperdht.Router.{Forward, set, get}
use hyperdht.Persistent.{State, Response, reply}
use hyperdht.Persistent.Announce.{
  ann_signable, set_forward, keep_record, set_bump, shortened, announced, accept_announce,
  announce_peer, announce_decoded, on_announce, lookup_records, records_of, on_find_peer,
}

module _ (n : Node) (cache : CacheLaws n.caches) where
  abbrev pub record_of : Peer → Buffer
  record_of p = encode (peer n.compact) (shortened p)

  -- A request that announces a peer under the hash of its key, with a signature that is right.
  pub record Announces (target : Buffer) (p : Peer) (req : Request) : Type 0 where
    pub token : Buffer
    pub id : Buffer
    pub signature : Buffer
    pub ann : Announce
    pub has_target : req.target ≡ some target
    pub has_token : req.token ≡ some token
    pub has_id : n.id ≡ some id
    pub has_ann : (req.value >>= decode (announce n.compact)) ≡ some ann
    pub has_peer : ann.peer ≡ some p
    pub has_signature : ann.signature ≡ some signature
    pub verified :
        n.verify signature (ann_signable n target token id p ann.refresh n.ns_announce) p.public_key
        ≡ true
    pub own : equals (n.hash p.public_key) target ≡ true

  abbrev forward_of : Peer → Address → Forward
  forward_of p from = record {
    relay = some from;
    record_ = record_of p;
    onpeerhandshake = false;
    onpeerholepunch = false;
  }

  on_announce-accepts :
      (target : Buffer) (p : Peer) (req : Request) (s : State n) (a : Announces target p req)
      → on_announce n req s ≡ accept_announce n target req.from p a.ann s
  unfolding on_announce announce_decoded announce_peer
  on_announce-accepts target p req s a = ground (
    arith, a.has_target, a.has_token, a.has_id, a.has_ann, a.has_peer, a.has_signature, a.verified,
  )

  kept_forwards :
      (target : Buffer) (from : Address) (p : Peer) (ann : Announce) (s : State n)
      → equals (n.hash p.public_key) target ≡ true
      → (keep_record n (announced n target p) p.public_key from (
          if equals (n.hash p.public_key) target then s else set_bump n target ann.bump s)).forwards
        ≡ n.caches.set target (forward_of p from) s.forwards
  unfolding keep_record set_forward set
  kept_forwards target from p ann s own = ground (arith, own)

  kept_records :
      (target : Buffer) (from : Address) (p : Peer) (ann : Announce) (s : State n)
      → equals (n.hash p.public_key) target ≡ true
      → (keep_record n
          (announced n target p)
          p.public_key
          from
          (if equals (n.hash p.public_key) target then s else set_bump n target ann.bump s)).records
        ≡ n.caches.remove target p.public_key s.records
  unfolding keep_record set_forward set
  kept_records target from p ann s own = ground (arith, own)

  -- What the node keeps: the forward of the peer, and no other record of it under the target.
  accepted_state :
      (target : Buffer) (from : Address) (p : Peer) (ann : Announce) (s : State n)
      → equals (n.hash p.public_key) target ≡ true
      → ((accept_announce n target from p ann s).0.forwards
          ≡ n.caches.set target (forward_of p from) s.forwards)
        × ((accept_announce n target from p ann s).0.records
            ≡ n.caches.remove target p.public_key s.records)
  unfolding accept_announce
  accepted_state target from p ann s own =
      let forwards = kept_forwards target from p ann s own in
      let records = kept_records target from p ann s own in
      given_lem
        (λ (t : State n).
          (t.forwards ≡ n.caches.set target (forward_of p from) s.forwards)
          × (t.records ≡ n.caches.remove target p.public_key s.records))
        ann.refresh _ _ (λ e. (forwards, records)) (λ token e. (forwards, records))

  abbrev others : Buffer → Peer → State n → List Buffer
  others target p s = n.caches.list target 20 (n.caches.remove target p.public_key s.records)

  looked_up :
      (target : Buffer) (from : Address) (p : Peer) (s t : State n)
      → t.forwards ≡ n.caches.set target (forward_of p from) s.forwards
      → t.records ≡ n.caches.remove target p.public_key s.records
      → lookup_records n target t ≡ records_of (some (forward_of p from)) (others target p s)
  unfolding lookup_records get
  looked_up target from p s t h g =
      ap₂ (λ f r. records_of (n.caches.get target f) (n.caches.list target 20 r)) h g
      ∙ ap (λ o. records_of o (others target p s))
          (cache.get-set target (forward_of p from) s.forwards)

  found_peer :
      (target : Buffer) (from : Address) (p : Peer) (req : Request) (s t : State n)
      → req.target ≡ some target
      → t.forwards ≡ n.caches.set target (forward_of p from) s.forwards
      → on_find_peer n req t ≡ reply (some (record_of p))
  unfolding on_find_peer get
  found_peer target from p req s t asks h =
      let there : n.caches.get target t.forwards ≡ some (forward_of p from) =
        ap (n.caches.get target) h ∙ cache.get-set target (forward_of p from) s.forwards in
      ground (arith, asks, there)

  -- The record of the peer is looked up as the last one, or the node has twenty others.
  abbrev pub IsFound : Buffer → Peer → State n → List Buffer → Type 0
  IsFound target p s records =
      (length records ≤ 20)
      × ((records ≡ others target p s ++ record_of p ∷ [])
          ⊎ ((records ≡ others target p s) × (length (others target p s) ≡ 20)))

  listed_last :
      (target : Buffer) (from : Address) (p : Peer) (s : State n)
      → length (others target p s) ≤ 20
      → IsFound target p s (records_of (some (forward_of p from)) (others target p s))
  listed_last target from p s few =
      let l = others target p s in
      if_lem (IsFound target p s) (ltb (length l) 20) (l ++ record_of p ∷ []) l
        (λ room.
          let small : length l + 1 ≤ 20 = ground (arith, room) in
          (omega (arith, length-append l (record_of p ∷ []), small), inl refl))
        (λ full. (few, inr (refl, ground (arith, few, full))))

  -- For caches that return what was set last and lists no longer than asked for: after a peer has
  -- announced itself, with a right signature, at the hash of its key, `onfindpeer` returns its record,
  -- and a lookup returns at most twenty records: those listed at the target without its own, and then
  -- the record of the forward, or the listed ones alone where they are twenty.
  pub lookup_records-on_announce :
      (target : Buffer) (p : Peer) (req asks : Request) (s : State n)
      → ((k : Buffer) (m : ℕ) (r : n.caches.Records) → length (n.caches.list k m r) ≤ m)
      → Announces target p req
      → asks.target ≡ some target
      → IsFound target p s (lookup_records n target (on_announce n req s).0)
        × (on_find_peer n asks (on_announce n req s).0 ≡ reply (some (record_of p)))
  lookup_records-on_announce target p req asks s bound a here =
      let t = (on_announce n req s).0 in
      let kept = accepted_state target req.from p a.ann s a.own in
      let same = ap (λ (o : State n × Response). o.0) (on_announce-accepts target p req s a) in
      let forwards = ap (λ (o : State n). o.forwards) same ∙ kept.0 in
      let records = ap (λ (o : State n). o.records) same ∙ kept.1 in
      (
        transport (ap (IsFound target p s) (sym (looked_up target req.from p s t forwards records)))
            (listed_last target req.from p s
              (bound target 20 (n.caches.remove target p.public_key s.records))),
        found_peer target req.from p asks s t here forwards,
      )
