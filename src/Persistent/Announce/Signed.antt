-- ===== src/Persistent/Announce/Signed.antt =====
-- What a node keeps of announcements.
use hyperdht.Prelude.{
  ℕ, ◌≡◌, refl, sym, subst, true, ◌&&◌, Option, some, All, take, ltb, leb, inl, inr, ◌+◌,
}
use hyperdht.Messages.Encoding.{Address}
use hyperdht.Messages.Records.{Announce, Peer, peer, announce}
use hyperdht.Dht.{
  Buffer, Node, Request, CacheLaws, RecordLaws, get-set_cases, equals, decode, encode, given_lem,
  if_lem, ◌>>=◌,
}
use hyperdht.Router.{Forward, Forwards, set, delete}
use hyperdht.Persistent.{State, Refresh, Response, max_bump_drift}
use hyperdht.Persistent.Announce.{
  ann_signable, set_forward, add_record, keep_record, set_bump, on_refresh, shortened, announced,
  accept_announce, announce_peer, announce_decoded, on_announce, unannounce, unannounce_peer,
  on_unannounce, or_zero,
}

module _ (n : Node) (cache : CacheLaws n.caches) (laws : RecordLaws n.caches) where
  -- A record was signed, for this node and key, by the peer that it tells of.
  abbrev pub IsAnnounced : Buffer → Buffer → Type 0
  IsAnnounced k record_ =
      (p : Peer) × (token : Buffer) × (id : Buffer) × (refresh : Option Buffer)
      × (signature : Buffer) × (record_ ≡ encode (peer n.compact) (shortened p))
      × (n.verify signature (ann_signable n k token id p refresh n.ns_announce) p.public_key ≡ true)

  abbrev AreListed : n.caches.Records → Type 0
  AreListed records = (k : Buffer) (m : ℕ) → All (IsAnnounced k) (n.caches.list k m records)

  abbrev AreForwarded : Forwards n → Type 0
  AreForwarded forwards =
      (k : Buffer) (f : Forward) → n.caches.get k forwards ≡ some f → IsAnnounced k f.record_

  abbrev AreRefreshed : n.caches.Store Refresh → Type 0
  AreRefreshed refreshes =
      (t : Buffer) (r : Refresh) → n.caches.get t refreshes ≡ some r → IsAnnounced r.k r.record_

  abbrev pub AreAnnounced : State n → Type 0
  AreAnnounced s = AreListed s.records × AreForwarded s.forwards × AreRefreshed s.refreshes

  set_refreshed :
      (refreshes : n.caches.Store Refresh) (token : Buffer) (r : Refresh)
      → AreRefreshed refreshes
      → IsAnnounced r.k r.record_
      → AreRefreshed (n.caches.set token r refreshes)
  set_refreshed refreshes token r all new t q e =
      elim (get-set_cases n.caches cache t token r q refreshes e) [
        | inl (same, entry) ↦ subst (λ x. IsAnnounced x.k x.record_) (sym entry) new
        | inr there ↦ all t q there
      ]

  set_forward-AreAnnounced :
      (k public_key record_ : Buffer) (from : Address) (s : State n)
      → AreAnnounced s
      → IsAnnounced k record_
      → AreAnnounced (set_forward n k public_key record_ from s)
  unfolding set_forward set
  set_forward-AreAnnounced k public_key record_ from s (listed, forwarded, refreshed) new = (
    λ j m. laws.list-remove (IsAnnounced j) j k public_key m s.records (listed j),
    λ j f e. elim (get-set_cases n.caches cache j k _ f s.forwards e) [
      | inl (same, entry) ↦
          subst (λ i. IsAnnounced i f.record_) (sym same)
            (subst (λ x. IsAnnounced k x.record_) (sym entry) new)
      | inr there ↦ forwarded j f there
    ],
    refreshed,
  )

  add_record-AreAnnounced :
      (k public_key record_ : Buffer) (s : State n)
      → AreAnnounced s
      → IsAnnounced k record_
      → AreAnnounced (add_record n k public_key record_ s)
  unfolding add_record
  add_record-AreAnnounced k public_key record_ s (listed, forwarded, refreshed) new = (
    λ j m.
        laws.list-add (IsAnnounced j) j k public_key record_ m s.records (listed j)
          (λ same. subst (λ i. IsAnnounced i record_) (sym same) new),
    forwarded,
    refreshed,
  )

  keep_record-AreAnnounced :
      (r : Refresh) (public_key : Buffer) (from : Address) (s : State n)
      → AreAnnounced s
      → IsAnnounced r.k r.record_
      → AreAnnounced (keep_record n r public_key from s)
  unfolding keep_record
  keep_record-AreAnnounced r public_key from s all new =
      if_lem AreAnnounced r.announce_self _ _
        (λ self. set_forward-AreAnnounced r.k public_key r.record_ from s all new)
        (λ other. add_record-AreAnnounced r.k public_key r.record_ s all new)

  set_bump-AreAnnounced :
      (k : Buffer) (bump : ℕ) (s : State n) → AreAnnounced s → AreAnnounced (set_bump n k bump s)
  unfolding set_bump
  set_bump-AreAnnounced k bump s all =
      if_lem AreAnnounced
        (ltb (or_zero (n.caches.get k s.bumps)) bump && leb bump (n.now + max_bump_drift)) _ _
        (λ later. all) (λ earlier. all)

  -- The same of the state that a handler leaves.
  abbrev Kept : State n × Response → Type 0
  Kept (s, response) = AreAnnounced s

  on_refresh-Kept :
      (token : Buffer) (req : Request) (s : State n)
      → AreAnnounced s
      → Kept (on_refresh n token req s)
  unfolding on_refresh
  on_refresh-Kept token req s all =
      given_lem Kept (n.caches.get (n.hash token) s.refreshes) _ _ (λ e. all)
        (λ r e.
          let new = all.2 (n.hash token) r e in
          let (listed, forwarded, refreshed) =
            keep_record-AreAnnounced r (take 32 r.record_) req.from s all new in
          (
            listed,
            forwarded,
            set_refreshed _ token r
                (λ t q f. refreshed t q (laws.get-delete t (n.hash token) q _ f)) new,
          ))

  accept_announce-Kept :
      (target : Buffer) (from : Address) (p : Peer) (ann : Announce) (s : State n)
      → AreAnnounced s
      → IsAnnounced target (encode (peer n.compact) (shortened p))
      → Kept (accept_announce n target from p ann s)
  unfolding accept_announce
  accept_announce-Kept target from p ann s all new =
      let r = announced n target p in
      let bumped =
        if_lem AreAnnounced r.announce_self s (set_bump n target ann.bump s) (λ self. all)
          (λ other. set_bump-AreAnnounced target ann.bump s all) in
      let kept = keep_record-AreAnnounced r p.public_key from _ bumped new in
      given_lem AreAnnounced ann.refresh _ _ (λ missing. kept)
        (λ token e. (kept.0, kept.1, set_refreshed _ token r kept.2 new))

  announce_peer-Kept :
      (target token id : Buffer) (from : Address) (p : Peer) (ann : Announce) (s : State n)
      → AreAnnounced s
      → Kept (announce_peer n target token id from p ann s)
  unfolding announce_peer
  announce_peer-Kept target token id from p ann s all =
      given_lem Kept ann.signature _ _ (λ e. all)
        (λ signature e.
          if_lem Kept
            (n.verify signature (ann_signable n target token id p ann.refresh n.ns_announce)
              p.public_key)
            _ _
            (λ verified.
              accept_announce-Kept target from p ann s all
                (p, token, id, ann.refresh, signature, refl, verified))
            (λ forged. all))

  pub on_announce-AreAnnounced :
      (req : Request) (s : State n) → AreAnnounced s → AreAnnounced (on_announce n req s).0
  unfolding on_announce announce_decoded
  on_announce-AreAnnounced req s all =
      given_lem Kept req.target _ _ (λ e. all)
        (λ target e.
          given_lem Kept req.token _ _ (λ f. all)
            (λ token f.
              given_lem Kept n.id _ _ (λ g. all)
                (λ id g.
                  given_lem Kept (req.value >>= decode (announce n.compact)) _ _ (λ h. all)
                    (λ ann h.
                      given_lem Kept ann.peer _ _
                        (λ missing.
                          given_lem Kept ann.refresh _ _ (λ i. all)
                            (λ refresh i. on_refresh-Kept refresh req s all))
                        (λ p i. announce_peer-Kept target token id req.from p ann s all)))))

  unannounce-AreAnnounced :
      (target public_key : Buffer) (s : State n)
      → AreAnnounced s
      → AreAnnounced (unannounce n target public_key s)
  unfolding unannounce delete
  unannounce-AreAnnounced target public_key s (listed, forwarded, refreshed) = (
    λ j m. laws.list-remove (IsAnnounced j) j target public_key m s.records (listed j),
    if_lem AreForwarded (equals (n.hash public_key) target) _ _
        (λ same j f e. forwarded j f (laws.get-delete j target f s.forwards e))
        (λ other. forwarded),
    refreshed,
  )

  pub on_unannounce-AreAnnounced :
      (req : Request) (s : State n) → AreAnnounced s → AreAnnounced (on_unannounce n req s).0
  unfolding on_unannounce unannounce_peer
  on_unannounce-AreAnnounced req s all =
      given_lem Kept req.target _ _ (λ e. all)
        (λ target e.
          given_lem Kept req.token _ _ (λ f. all)
            (λ token f.
              given_lem Kept (req.value >>= decode (announce n.compact)) _ _ (λ h. all)
                (λ ann h.
                  given_lem Kept ann.peer _ _ (λ h. all)
                    (λ p i.
                      given_lem Kept ann.signature _ _ (λ j. all)
                        (λ signature j.
                          given_lem Kept n.id _ _ (λ k. all)
                            (λ id k.
                              if_lem Kept
                                (n.verify signature
                                  (ann_signable n target token id p ann.refresh n.ns_unannounce)
                                  p.public_key)
                                _ _ (λ verified. unannounce-AreAnnounced target p.public_key s all)
                                (λ forged. all)))))))
