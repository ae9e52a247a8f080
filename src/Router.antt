-- ===== src/Router.antt =====
-- lib/router.js: the forward table of the class `Router`.
pub mod Handshake
pub mod Holepunch
pub mod Route
pub mod Connect
mod Tests
use hyperdht.Prelude.{ℕ, Bool, true, false, Option, none, some, if◌then◌else◌}
use hyperdht.Messages.Encoding.{Address}
use hyperdht.Dht.{Buffer, Node, Caches}

-- A state of the table. A server's has the handlers `onpeerhandshake` and `onpeerholepunch`.
pub record Forward : Type 0 where
  pub relay : Option Address
  pub record_ : Buffer
  pub onpeerhandshake : Bool
  pub onpeerholepunch : Bool

abbrev pub Forwards : Node → Type 0
Forwards n = n.caches.Store Forward

-- `Router.set`
unfoldable pub set : (n : Node) → Buffer → Forward → Forwards n → Forwards n
set n target state forwards =
    if state.onpeerhandshake
    then n.caches.retain target state forwards
    else n.caches.set target state forwards

-- `Router.get`
unfoldable pub get : (n : Node) → Buffer → Forwards n → Option Forward
get n target forwards = n.caches.get target forwards

-- `Router.delete`
unfoldable pub delete : (n : Node) → Buffer → Forwards n → Forwards n
delete n target forwards = n.caches.delete target forwards
