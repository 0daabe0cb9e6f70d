-- ===== src/Extension/Sites.antt =====
-- extension/src/lib/sites.js with the switch of a site in extension/src/popup/Popup.jsx and in
-- extension/src/options/Options.jsx. A host name is the list of its codes; the browser gives host
-- names in ASCII, so `toLowerCase` is that of ASCII.
pub mod Laws
mod Tests
use stock_dashboard.Prelude.{
  ℕ, ◌+◌, ◌-◌, Bool, true, false, not, ◌&&◌, ◌||◌, Option, none, some, List, [], ◌∷◌, map, leb,
  ◌==◌, if◌then◌else◌, length, drop, find?,
}
use stock_dashboard.Desktop.Window.{codes, same_codes}

abbrev pub Host : Type 0
Host = List ℕ

abbrev pub content_hosts : List Host
content_hosts =
    codes "finance.yahoo.com"
    ∷ codes "reddit.com"
    ∷ codes "x.com"
    ∷ codes "twitter.com"
    ∷ codes "stocktwits.com"
    ∷ codes "cnbc.com"
    ∷ codes "marketwatch.com"
    ∷ codes "seekingalpha.com"
    ∷ codes "bloomberg.com"
    ∷ []

unfoldable pub to_lower : ℕ → ℕ
to_lower c = if leb b'A' c && leb c b'Z' then c + 32 else c

-- `.replace(/^www\./, "")`
abbrev pub www : Host
www = codes "www."

abbrev pub starts_with : Host → Host → Bool
starts_with [] h = true
starts_with (p ∷ ps) [] = false
starts_with (p ∷ ps) (c ∷ cs) = p == c && starts_with ps cs

unfoldable pub strip_www : Host → Host
strip_www h = if starts_with www h then drop 4 h else h

-- `h.endsWith(suffix)`
unfoldable pub ends_with : Host → Host → Bool
ends_with suffix h =
    leb (length suffix) (length h) && same_codes (drop (length h - length suffix) h) suffix

unfoldable pub is_host : Host → Host → Bool
unfolding ends_with
is_host h c = same_codes h c || ends_with (b'.' ∷ c) h

-- The first host that matches, or the name itself.
abbrev pub listed_or : Host → Option Host → Host
listed_or h none = h
listed_or h (some c) = c

unfoldable pub stripped : Host → Host
unfolding to_lower strip_www
stripped hostname = strip_www (map to_lower hostname)

unfoldable pub site_key : Host → Host
unfolding stripped is_host
site_key hostname =
    let h = stripped hostname in listed_or h (find? (λ c. is_host h c) content_hosts)

-- The settings that the switch depends on; `sites` holds what a key was set to.
pub record Settings : Type 0 where
  pub overlay_enabled : Bool
  pub sites : Host → Option Bool

abbrev pub is_not_false : Option Bool → Bool
is_not_false (some false) = false
is_not_false _ = true

unfoldable pub is_site_enabled : Settings → Host → Bool
unfolding site_key
is_site_enabled s hostname =
    if not s.overlay_enabled then false else is_not_false (s.sites (site_key hostname))

-- `{ sites: { ...s.sites, [host]: next } }`, of the popup and of the options page.
unfoldable pub set_site : Host → Bool → Settings → Settings
set_site host next s = record s { sites = λ k. if same_codes k host then some next else s.sites k }

-- The popup on a page: the host that it keeps and whether its switch is on.
pub record Popup : Type 0 where
  pub host : Host
  pub site_on : Bool

unfoldable pub open_popup : Host → Settings → Popup
unfolding site_key is_site_enabled
open_popup hostname s =
    let h = site_key hostname in record { host = h; site_on = is_site_enabled s h }

-- The switch writes to the settings as they are then.
unfoldable pub toggle_site : Bool → Popup → Settings → Popup × Settings
unfolding set_site
toggle_site next p s = (record p { site_on = next }, set_site p.host next s)
