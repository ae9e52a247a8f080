-- ===== src/Persistent/Run.antt =====
-- lib/persistent.js: any sequence of the requests that change what a node keeps.
use hyperdht.Prelude.{◌≡◌, sym, ap, subst, ◌∙◌, some, List, [], ◌∷◌, All, arith, inl, inr}
use hyperdht.Messages.Encoding.{Laws, Address}
use hyperdht.Messages.Reads.{Reads}
use hyperdht.Dht.{
  Buffer, Node, Request, CacheLaws, RecordLaws, get-set_cases, equals, equals-eq, given_lem, if_lem,
}
use hyperdht.Persistent.{State, Response, reply, silent}
use hyperdht.Persistent.Mutable.{
  Outcome, on_mutable_put, put_mutable, store_mutable, replace_mutable, set_mutable,
  on_immutable_put, set_immutable, on_immutable_get, on_mutable_get, get_mutable,
}
use hyperdht.Persistent.Mutable.Stored.{IsKept, AreKept, IsExact, on_mutable_put-IsSafe}
use hyperdht.Persistent.Announce.{
  on_announce, announce_decoded, announce_peer, accept_announce, keep_record, set_forward,
  add_record, set_bump, on_refresh, on_unannounce, unannounce_peer, unannounce,
}
use hyperdht.Persistent.Announce.Signed.{
  IsAnnounced, AreAnnounced, on_announce-AreAnnounced, on_unannounce-AreAnnounced,
}

pub data Call : Type 0 where
  announcing unannouncing putting putting_immutable : Request → Call

unfoldable pub serve : (n : Node) → Call → State n → State n
serve n (announcing req) s = (on_announce n req s).0
serve n (unannouncing req) s = (on_unannounce n req s).0
serve n (putting req) s = (on_mutable_put n req s).0
serve n (putting_immutable req) s = (on_immutable_put n req s).0

unfoldable pub serve_all : (n : Node) → List Call → State n → State n
unfolding serve
serve_all n [] s = s
serve_all n (call ∷ calls) s = serve_all n calls (serve n call s)

-- A handler leaves the values that were put.
abbrev SameValues : (n : Node) → State n → State n × Response → Type 0
SameValues n s (t, r) = (t.mutables ≡ s.mutables) × (t.immutables ≡ s.immutables)

on_announce-SameValues :
    (n : Node) (req : Request) (s : State n) → SameValues n s (on_announce n req s)
unfolding on_announce announce_decoded announce_peer accept_announce keep_record set_forward
    add_record set_bump on_refresh
on_announce-SameValues n req s = ground arith

on_unannounce-SameValues :
    (n : Node) (req : Request) (s : State n) → SameValues n s (on_unannounce n req s)
unfolding on_unannounce unannounce_peer unannounce
on_unannounce-SameValues n req s = ground arith

-- A handler leaves what was announced.
abbrev SameRecords : (n : Node) → State n → State n × Response → Type 0
SameRecords n s (t, r) =
    (t.records ≡ s.records) × (t.forwards ≡ s.forwards) × (t.refreshes ≡ s.refreshes)

on_mutable_put-SameRecords :
    (n : Node) (req : Request) (s : State n)
    → SameRecords n s (on_mutable_put n req s)
      × ((on_mutable_put n req s).0.immutables ≡ s.immutables)
unfolding on_mutable_put put_mutable store_mutable replace_mutable set_mutable
on_mutable_put-SameRecords n req s = ground arith

on_immutable_put-SameRecords :
    (n : Node) (req : Request) (s : State n)
    → SameRecords n s (on_immutable_put n req s)
      × ((on_immutable_put n req s).0.mutables ≡ s.mutables)
unfolding on_immutable_put set_immutable
on_immutable_put-SameRecords n req s = ground arith

module _ (n : Node) (IsIpv4 IsIpv6 : Address → Type 0) (laws : Laws n.compact IsIpv4 IsIpv6)
    (cache : CacheLaws n.caches) (record_laws : RecordLaws n.caches) where
  -- An immutable value stands under its hash.
  abbrev pub AreHashed : State n → Type 0
  AreHashed s = (k v : Buffer) → n.caches.get k s.immutables ≡ some v → n.hash v ≡ k

  abbrev HashedIn : Outcome n → Type 0
  HashedIn (t, r) = AreHashed t

  on_immutable_put-AreHashed :
      (req : Request) (s : State n) → AreHashed s → AreHashed (on_immutable_put n req s).0
  unfolding on_immutable_put set_immutable
  on_immutable_put-AreHashed req s all =
      given_lem HashedIn req.target _ _ (λ e. all)
        (λ target e.
          given_lem HashedIn req.token _ _ (λ f. all)
            (λ token f.
              given_lem HashedIn req.value _ _ (λ g. all)
                (λ value g.
                  if_lem HashedIn (equals (n.hash value) target) _ _
                    (λ same j v h.
                      elim (get-set_cases n.caches cache j target value v s.immutables h) [
                        | inl (here, entry) ↦
                            ap n.hash entry ∙ equals-eq (n.hash value) target same ∙ sym here
                        | inr there ↦ all j v there
                      ])
                    (λ other. all))))

  abbrev pub IsSound : State n → Type 0
  IsSound s =
      AreKept n IsIpv4 IsIpv6 laws cache s × AreAnnounced n cache record_laws s × AreHashed s

  abbrev pub IsExactCall : Call → Type 0
  IsExactCall (putting req) = IsExact n IsIpv4 IsIpv6 laws cache req
  IsExactCall call = Unit

  IsSound-values :
      (s t : State n)
      → t.mutables ≡ s.mutables
      → t.immutables ≡ s.immutables
      → IsSound s
      → AreAnnounced n cache record_laws t
      → IsSound t
  IsSound-values s t e f (kept, announced, hashed) still = (
    λ k b h. kept k b (ap (n.caches.get k) (sym e) ∙ h),
    still,
    λ k v h. hashed k v (ap (n.caches.get k) (sym f) ∙ h),
  )

  AreAnnounced-records :
      (s t : State n)
      → SameRecords n s (t, silent)
      → AreAnnounced n cache record_laws s
      → AreAnnounced n cache record_laws t
  AreAnnounced-records s t (e, f, g) (listed, forwarded, refreshed) = (
    λ k m.
        subst (λ r. All (IsAnnounced n cache record_laws k) (n.caches.list k m r)) (sym e)
          (listed k m),
    λ k v h. forwarded k v (ap (n.caches.get k) (sym f) ∙ h),
    λ k v h. refreshed k v (ap (n.caches.get k) (sym g) ∙ h),
  )

  serve-IsSound :
      Reads n.compact
      → (call : Call) (s : State n) → IsSound s
      → IsExactCall call
      → IsSound (serve n call s)
  unfolding serve
  serve-IsSound reads (announcing req) s sound exact =
      let (e, f) = on_announce-SameValues n req s in
      IsSound-values s (on_announce n req s).0 e f sound
        (on_announce-AreAnnounced n cache record_laws req s sound.1)
  serve-IsSound reads (unannouncing req) s sound exact =
      let (e, f) = on_unannounce-SameValues n req s in
      IsSound-values s (on_unannounce n req s).0 e f sound
        (on_unannounce-AreAnnounced n cache record_laws req s sound.1)
  serve-IsSound reads (putting req) s (kept, announced, hashed) exact =
      let (same, e) = on_mutable_put-SameRecords n req s in
      let safe = on_mutable_put-IsSafe n IsIpv4 IsIpv6 laws cache reads req s kept exact in
      (
        safe.0,
        AreAnnounced-records s (on_mutable_put n req s).0 same announced,
        λ k v h. hashed k v (ap (n.caches.get k) (sym e) ∙ h),
      )
  serve-IsSound reads (putting_immutable req) s (kept, announced, hashed) exact =
      let (same, e) = on_immutable_put-SameRecords n req s in
      (
        λ k b h. kept k b (ap (n.caches.get k) (sym e) ∙ h),
        AreAnnounced-records s (on_immutable_put n req s).0 same announced,
        on_immutable_put-AreHashed req s hashed,
      )

  -- After any sequence of calls whose puts have exact sequence numbers, at a sound state: mutable
  -- values are read back and signed, immutable ones stand under their hash, and records, forwards
  -- and refreshes were signed for their key by their peer.
  pub serve_all-IsSound :
      Reads n.compact
      → (calls : List Call) (s : State n) → IsSound s
      → All IsExactCall calls
      → IsSound (serve_all n calls s)
  unfolding serve_all
  serve_all-IsSound reads [] s sound exact = sound
  serve_all-IsSound reads (call ∷ calls) s sound (first, rest) =
      serve_all-IsSound reads calls _ (serve-IsSound reads call s sound first) rest

  -- Where immutable values stand under their hash, a reply has the target as hash.
  pub on_immutable_get-hash :
      (target v : Buffer) (req : Request) (s : State n)
      → AreHashed s
      → req.target ≡ some target
      → on_immutable_get n req s ≡ reply (some v)
      → n.hash v ≡ target
  unfolding on_immutable_get
  on_immutable_get-hash target v req s hashed e h = hashed target v (ground arith)

  -- At a sound state, whatever is replied to a get is read back and signed by a key whose hash is
  -- the target.
  pub on_mutable_get-IsKept :
      (target v : Buffer) (req : Request) (s : State n)
      → IsSound s
      → req.target ≡ some target
      → on_mutable_get n req s ≡ reply (some v)
      → IsKept n IsIpv4 IsIpv6 laws cache target v
  unfolding on_mutable_get get_mutable
  on_mutable_get-IsKept target v req s (kept, announced, hashed) e h = kept target v (ground arith)
