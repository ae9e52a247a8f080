-- ===== src/Persistent.antt =====
-- lib/persistent.js: the class `Persistent`, the records that a node keeps for others.
pub mod Mutable
pub mod Announce
pub mod Run
mod Tests
use hyperdht.Prelude.{ℕ, ◌+◌, Bool, Option, List, [], ◌∷◌, ◌++◌}
use hyperdht.Messages.Encoding.{Encoding}
use hyperdht.Messages.Records.{PluginRequest, MutableSignable, mutable_signable}
use hyperdht.Dht.{Buffer, Node, encode}
use hyperdht.Router.{Forward}

-- An entry of `refreshes`.
pub record Refresh : Type 0 where
  pub k : Buffer
  pub record_ : Buffer
  pub announce_self : Bool

-- The caches of the class, and the table of the router.
pub record State (n : Node) : Type 0 where
  pub records : n.caches.Records
  pub bumps : n.caches.Store ℕ
  pub refreshes : n.caches.Store Refresh
  pub mutables : n.caches.Store Buffer
  pub immutables : n.caches.Store Buffer
  pub forwards : n.caches.Store Forward

-- What a handler does with its request: it returns, throws, calls `req.reply` or `req.error`, or
-- hands the request to a plugin.
pub data Response : Type 0 where
  silent threw : Response
  reply : Option Buffer → Response
  failed : ℕ → Response
  handed : PluginRequest → Response

-- `ERROR.SEQ_REUSED` and `ERROR.SEQ_TOO_LOW`
abbrev pub seq_reused : ℕ
seq_reused = 16

abbrev pub seq_too_low : ℕ
seq_too_low = 17

abbrev pub max_bump_drift : ℕ
max_bump_drift = 60000

-- The bytes that the signature of a mutable value covers.
unfoldable pub mutable_signed : Node → ℕ → Option Buffer → Buffer
mutable_signed n seq value =
    n.ns_mutable_put
    ++ n.hash (encode (mutable_signable n.compact) (record { seq = seq; value = value }))

-- `verifyMutable`
unfoldable pub verify_mutable : Node → Buffer → ℕ → Option Buffer → Buffer → Bool
unfolding mutable_signed
verify_mutable n signature seq value public_key =
    n.verify signature (mutable_signed n seq value) public_key
