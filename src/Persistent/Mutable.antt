-- ===== src/Persistent/Mutable.antt =====
-- lib/persistent.js: the handlers of mutable and immutable values, and of plugins.
pub mod Stored
pub mod Get
use hyperdht.Prelude.{
  ℕ, ◌≡◌, Bool, true, false, not, ◌&&◌, Option, none, some, List, [], ◌∷◌, ◌==◌, ltb, if◌then◌else◌,
}
use hyperdht.Messages.Encoding.{Encoding, is_some}
use hyperdht.Messages.Records.{
  MutablePutRequest, MutableGetResponse, PluginRequest, mutable_put_request, mutable_get_response,
  plugin_request,
}
use hyperdht.Dht.{Buffer, Node, Request, equals, decode, encode, given, ◌>>=◌}
use hyperdht.Persistent.{
  State, Response, silent, threw, reply, failed, handed, seq_reused, seq_too_low, verify_mutable,
}

-- What a handler returns.
abbrev pub Outcome : Node → Type 0
Outcome n = State n × Response

unfoldable pub set_mutable : (n : Node) → Buffer → MutableGetResponse → State n → Outcome n
set_mutable n k m s = (
  record s { mutables = n.caches.set k (encode (mutable_get_response n.compact) m) s.mutables },
  reply none,
)

abbrev pub differs : Option Buffer → Buffer → Bool
differs none value = false
differs (some old) value = not (equals value old)

-- The end of `onmutableput`, against the value that is stored.
unfoldable pub replace_mutable :
    (n : Node) → Buffer → MutableGetResponse → Buffer → MutableGetResponse → State n → Outcome n
unfolding set_mutable
replace_mutable n k m value existing s =
    if existing.seq == m.seq && differs existing.value value
    then (s, failed seq_reused)
    else if ltb m.seq existing.seq
    then (s, failed seq_too_low)
    else set_mutable n k m s

unfoldable pub store_mutable :
    (n : Node) → Buffer → MutableGetResponse → Buffer → State n → Outcome n
unfolding set_mutable replace_mutable
store_mutable n k m value s = given (n.caches.get k s.mutables) (set_mutable n k m s) (λ local.
    given (decode (mutable_get_response n.compact) local) (s, threw)
      (λ existing. replace_mutable n k m value existing s))

-- `onmutableput`, of a request that is decoded
unfoldable pub put_mutable : (n : Node) → Buffer → MutablePutRequest → State n → Outcome n
unfolding store_mutable
put_mutable n target p s =
    if equals (n.hash p.public_key) target
    then given p.value (s, silent)
        (λ value.
          if verify_mutable n p.signature p.seq (some value) p.public_key
          then store_mutable n target
              (record { seq = p.seq; value = some value; signature = p.signature }) value s
          else (s, silent))
    else (s, silent)

-- `onmutableput`
unfoldable pub on_mutable_put : (n : Node) → Request → State n → Outcome n
unfolding put_mutable
on_mutable_put n req s =
    given req.target (s, silent)
      (λ target.
        given req.token (s, silent)
          (λ token.
            given (req.value >>= decode (mutable_put_request n.compact)) (s, silent)
              (λ p. put_mutable n target p s)))

-- The end of `onmutableget`.
unfoldable pub get_mutable : (n : Node) → Buffer → ℕ → State n → Response
get_mutable n target seq s = given (n.caches.get target s.mutables) (reply none) (λ value.
    given (decode n.compact.uint value) threw
      (λ local_seq. if ltb local_seq seq then reply none else reply (some value)))

-- `onmutableget`
unfoldable pub on_mutable_get : (n : Node) → Request → State n → Response
unfolding get_mutable
on_mutable_get n req s = given req.target silent (λ target.
    given (req.value >>= decode n.compact.uint) silent (λ seq. get_mutable n target seq s))

unfoldable pub set_immutable : (n : Node) → Buffer → Buffer → State n → Outcome n
set_immutable n k value s =
    (record s { immutables = n.caches.set k value s.immutables }, reply none)

-- `onimmutableput`
unfoldable pub on_immutable_put : (n : Node) → Request → State n → Outcome n
unfolding set_immutable
on_immutable_put n req s =
    given req.target (s, silent)
      (λ target.
        given req.token (s, silent)
          (λ token.
            given req.value (s, silent)
              (λ value.
                if equals (n.hash value) target
                then set_immutable n target value s
                else (s, silent))))

-- `onimmutableget`
unfoldable pub on_immutable_get : (n : Node) → Request → State n → Response
on_immutable_get n req s =
    given req.target silent (λ target. reply (n.caches.get target s.immutables))

abbrev equal_version : Option ℕ → ℕ → Bool
equal_version none version = false
equal_version (some v) version = v == version

-- `onplugin`
unfoldable pub on_plugin : Node → Request → Response
on_plugin n req =
    given (req.value >>= decode (plugin_request n.compact)) silent
      (λ p. if equal_version (n.plugin_version p.plugin) p.version then handed p else silent)
