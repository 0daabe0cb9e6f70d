-- ===== src/Extension/Cache/Laws.antt =====
-- How long a cached value is read, and which addresses are accepted.
use stock_dashboard.Prelude.{
  ℕ, ◌+◌, String, ◌≡◌, refl, ◌⊎◌, inl, inr, Bool, true, false, not, ◌&&◌, Option, none, some, arith,
  leb, if◌then◌else◌, str_eq, str_eq_iff,
}
use stock_dashboard.Extension.Cache.{
  ParsedUrl, UrlText, read_cache, write_cache, web_origin, normalize_base,
}

-- A value is read back exactly until its time to live has passed, and not later.
pub read_cache-write_cache :
    {V : Type 0} (written now ttl : ℕ) (value : V)
    → read_cache now ttl (write_cache written value)
      ≡ (if leb now (written + ttl) then some value else none)
unfolding read_cache write_cache
read_cache-write_cache written now ttl value = ground arith

web_origin-web :
    (o : Option ParsedUrl) {origin : String}
    → web_origin o ≡ some origin
    → (url : ParsedUrl) × (o ≡ some url)
      × (url.origin ≡ origin)
      × ((url.protocol ≡ "http:") ⊎ (url.protocol ≡ "https:"))
web_origin-web none e = cc
web_origin-web (some url) {origin} e =
    pick (str_eq url.protocol "http:") (str_eq url.protocol "https:")
      (str_eq_iff url.protocol "http:").0 (str_eq_iff url.protocol "https:").0 e
  where
    pick :
        (b c : Bool)
        → (b ≡ true → url.protocol ≡ "http:")
        → (c ≡ true → url.protocol ≡ "https:")
        → (if not b && not c then none else some url.origin) ≡ some origin
        → (u : ParsedUrl) × (some url ≡ some u)
          × (u.origin ≡ origin)
          × ((u.protocol ≡ "http:") ⊎ (u.protocol ≡ "https:"))
    pick true c f g e = (url, refl, ground arith, inl (f refl))
    pick false true f g e = (url, refl, ground arith, inr (g refl))
    pick false false f g e = cc

-- An address is accepted only as the origin of a URL, parsed from the trimmed text as it stands or
-- behind "http://", whose scheme is http or https.
pub normalize_base-web :
    (text : UrlText) (input : String) {origin : String}
    → normalize_base text input ≡ some origin
    → (url : ParsedUrl) × ((text.parse (text.trim input) ≡ some url)
        ⊎ (text.parse (text.with_http (text.trim input)) ≡ some url))
      × (url.origin ≡ origin)
      × ((url.protocol ≡ "http:") ⊎ (url.protocol ≡ "https:"))
unfolding normalize_base
normalize_base-web text input {origin} e = go (str_eq raw "") (text.has_scheme raw) e
  where
    raw : String
    raw = text.trim input

    go :
        (empty scheme : Bool)
        → (if empty
            then none
            else web_origin (text.parse (if scheme then raw else text.with_http raw)))
          ≡ some origin
        → (url : ParsedUrl) × ((text.parse raw ≡ some url)
            ⊎ (text.parse (text.with_http raw) ≡ some url))
          × (url.origin ≡ origin)
          × ((url.protocol ≡ "http:") ⊎ (url.protocol ≡ "https:"))
    go true scheme e = cc
    go false true e = let (url, p, o, w) = web_origin-web (text.parse raw) e in (url, inl p, o, w)
    go false false e =
        let (url, p, o, w) = web_origin-web (text.parse (text.with_http raw)) e in
        (url, inr p, o, w)
