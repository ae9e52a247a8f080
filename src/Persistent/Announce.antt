-- ===== src/Persistent/Announce.antt =====
-- lib/persistent.js: the handlers of announcements and lookups.
pub mod Signed
pub mod Found
use hyperdht.Prelude.{
  ℕ, ◌+◌, ◌≤◌, ◌≡◌, Bool, true, false, not, ◌&&◌, Option, none, some, List, [], ◌∷◌, ◌++◌, length,
  take, ltb, leb, if◌then◌else◌,
}
use hyperdht.Messages.Encoding.{Encoding, Address}
use hyperdht.Messages.Records.{Announce, Peer, announce, peer, encode_lookup_raw_reply}
use hyperdht.Dht.{Buffer, Node, Request, equals, decode, encode, given, ◌>>=◌}
use hyperdht.Router.{Forward, set, get, delete}
use hyperdht.Persistent.{State, Refresh, Response, silent, threw, reply, max_bump_drift}

abbrev pub or_empty : Option Buffer → Buffer
or_empty none = []
or_empty (some b) = b

-- `annSignable`
unfoldable pub ann_signable :
    Node → Buffer → Buffer → Buffer → Peer → Option Buffer → Buffer → Buffer
ann_signable n target token id p refresh ns =
    ns ++ n.hash_batch (target ∷ id ∷ token ∷ encode (peer n.compact) p ∷ or_empty refresh ∷ [])

-- A peer that announces itself under the hash of its key is found through its relay.
unfoldable pub set_forward : (n : Node) → Buffer → Buffer → Buffer → Address → State n → State n
unfolding set
set_forward n k public_key record_ from s = record s {
  records = n.caches.remove k public_key s.records;
  forwards =
      set n k
        (record {
          relay = some from;
          record_ = record_;
          onpeerhandshake = false;
          onpeerholepunch = false;
        })
        s.forwards;
}

unfoldable pub add_record : (n : Node) → Buffer → Buffer → Buffer → State n → State n
add_record n k public_key record_ s = record s {
  records = n.caches.add k public_key record_ s.records;
}

-- A record that is announced or refreshed.
unfoldable pub keep_record : (n : Node) → Refresh → Buffer → Address → State n → State n
unfolding set_forward add_record
keep_record n r public_key from s =
    if r.announce_self
    then set_forward n r.k public_key r.record_ from s
    else add_record n r.k public_key r.record_ s

abbrev pub or_zero : Option ℕ → ℕ
or_zero none = 0
or_zero (some bump) = bump

unfoldable pub set_bump : (n : Node) → Buffer → ℕ → State n → State n
set_bump n k bump s =
    if ltb (or_zero (n.caches.get k s.bumps)) bump && leb bump (n.now + max_bump_drift)
    then record s { bumps = n.caches.set k bump s.bumps }
    else s

abbrev pub with_refreshes : {n : Node} → n.caches.Store Refresh → State n → State n
with_refreshes refreshes s = record s { refreshes = refreshes }

-- `_onrefresh`: the preimage of a kept refresh token takes its place.
unfoldable pub on_refresh : (n : Node) → Buffer → Request → State n → State n × Response
unfolding keep_record
on_refresh n token req s =
    given (n.caches.get (n.hash token) s.refreshes) (s, silent)
      (λ r.
        let kept = keep_record n r (take 32 r.record_) req.from s in
        (
          with_refreshes (n.caches.set token r (n.caches.delete (n.hash token) kept.refreshes))
              kept,
          reply none,
        ))

abbrev pub shortened : Peer → Peer
shortened p = record {
  public_key = p.public_key;
  relay_addresses =
      if ltb 3 (length p.relay_addresses) then take 3 p.relay_addresses else p.relay_addresses;
}

abbrev pub announced : Node → Buffer → Peer → Refresh
announced n target p = record {
  k = target;
  record_ = encode (peer n.compact) (shortened p);
  announce_self = equals (n.hash p.public_key) target;
}

-- The end of `onannounce`, of a record whose signature is right.
unfoldable pub accept_announce :
    (n : Node) → Buffer → Address → Peer → Announce → State n → State n × Response
unfolding keep_record set_bump
accept_announce n target from p ann s =
    let r : Refresh = announced n target p in
    let bumped : State n = if r.announce_self then s else set_bump n target ann.bump s in
    let kept : State n = keep_record n r p.public_key from bumped in
    (
      given ann.refresh kept (λ token. with_refreshes (n.caches.set token r kept.refreshes) kept),
      reply none,
    )

unfoldable pub announce_peer :
    (n : Node) → Buffer → Buffer → Buffer → Address → Peer → Announce → State n → State n × Response
unfolding ann_signable accept_announce
announce_peer n target token id from p ann s =
    given ann.signature (s, silent)
      (λ signature.
        if n.verify signature (ann_signable n target token id p ann.refresh n.ns_announce)
          p.public_key
        then accept_announce n target from p ann s
        else (s, silent))

unfoldable pub announce_decoded :
    (n : Node) → Buffer → Buffer → Buffer → Request → Announce → State n → State n × Response
unfolding announce_peer on_refresh
announce_decoded n target token id req ann s =
    given ann.peer (given ann.refresh (s, silent) (λ refresh. on_refresh n refresh req s))
      (λ p. announce_peer n target token id req.from p ann s)

-- `onannounce`
unfoldable pub on_announce : (n : Node) → Request → State n → State n × Response
unfolding announce_decoded
on_announce n req s =
    given req.target (s, silent)
      (λ target.
        given req.token (s, silent)
          (λ token.
            given n.id (s, silent)
              (λ id.
                given (req.value >>= decode (announce n.compact)) (s, silent)
                  (λ ann. announce_decoded n target token id req ann s))))

-- `unannounce`
unfoldable pub unannounce : (n : Node) → Buffer → Buffer → State n → State n
unfolding delete
unannounce n target public_key s = record s {
  records = n.caches.remove target public_key s.records;
  forwards = if equals (n.hash public_key) target then delete n target s.forwards else s.forwards;
}

-- `onunannounce`; hashing throws where the node has no id.
unfoldable pub unannounce_peer :
    (n : Node) → Buffer → Buffer → Peer → Buffer → Option Buffer → State n → State n × Response
unfolding ann_signable unannounce
unannounce_peer n target token p signature refresh s =
    given n.id (s, threw)
      (λ id.
        if n.verify signature (ann_signable n target token id p refresh n.ns_unannounce)
          p.public_key
        then (unannounce n target p.public_key s, reply none)
        else (s, silent))

unfoldable pub on_unannounce : (n : Node) → Request → State n → State n × Response
unfolding unannounce_peer
on_unannounce n req s =
    given req.target (s, silent)
      (λ target.
        given req.token (s, silent)
          (λ token.
            given (req.value >>= decode (announce n.compact)) (s, silent)
              (λ ann.
                given ann.peer (s, silent)
                  (λ p.
                    given ann.signature (s, silent)
                      (λ signature. unannounce_peer n target token p signature ann.refresh s)))))

abbrev pub records_of : Option Forward → List Buffer → List Buffer
records_of none records = records
records_of (some fwd) records =
    if ltb (length records) 20 then records ++ fwd.record_ ∷ [] else records

-- The records of `onlookup`.
unfoldable pub lookup_records : (n : Node) → Buffer → State n → List Buffer
unfolding get
lookup_records n target s = records_of (get n target s.forwards) (n.caches.list target 20 s.records)

abbrev reply_records : (n : Node) → List Buffer → ℕ → Response
reply_records n [] bump = reply none
reply_records n (r ∷ records) bump =
    reply
      (some (encode_lookup_raw_reply n.compact (record { peers = r ∷ records; bump = bump }) []))

-- `onlookup`
unfoldable pub on_lookup : (n : Node) → Request → State n → Response
unfolding lookup_records
on_lookup n req s =
    given req.target silent (λ target.
      reply_records n (lookup_records n target s) (or_zero (n.caches.get target s.bumps)))

-- `onfindpeer`
unfoldable pub on_find_peer : (n : Node) → Request → State n → Response
unfolding get
on_find_peer n req s =
    given req.target silent
      (λ target. given (get n target s.forwards) (reply none) (λ fwd. reply (some fwd.record_)))
