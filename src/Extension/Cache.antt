-- ===== src/Extension/Cache.antt =====
-- extension/src/lib/storage.js: the time-bounded cache and the dashboard's address. The storage is
-- the state; `new URL` is a parameter.
pub mod Laws
use stock_dashboard.Prelude.{
  ℕ, ◌+◌, String, Bool, not, ◌&&◌, Option, none, some, ltb, if◌then◌else◌, str_eq, entry,
}

-- `{ v: value, t: epochMillis }`
pub record Entry (V : Type 0) : Type 0 where
  pub v : V
  pub t : ℕ

unfoldable pub read_cache : {V : Type 0} → ℕ → ℕ → Option (Entry V) → Option V
read_cache now ttl none = none
read_cache now ttl (some entry) = if ltb (entry.t + ttl) now then none else some entry.v

unfoldable pub write_cache : {V : Type 0} → ℕ → V → Option (Entry V)
write_cache now value = some (record { v = value; t = now })

-- The parts of a parsed URL that are read.
pub record ParsedUrl : Type 0 where
  pub protocol : String
  pub origin : String

-- `trim`, `includes("://")` and the prefixing of "http://" are the text operations of the platform.
pub record UrlText : Type 0 where
  pub trim : String → String
  pub has_scheme : String → Bool
  pub with_http : String → String
  pub parse : String → Option ParsedUrl

abbrev pub web_origin : Option ParsedUrl → Option String
web_origin none = none
web_origin (some url) =
    if not (str_eq url.protocol "http:") && not (str_eq url.protocol "https:")
    then none
    else some url.origin

unfoldable pub normalize_base : UrlText → String → Option String
normalize_base text input =
    let raw = text.trim input in
    if str_eq raw ""
    then none
    else web_origin (text.parse (if text.has_scheme raw then raw else text.with_http raw))
