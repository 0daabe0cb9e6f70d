-- ===== src/Extension/Sites/Laws.antt =====
-- What sites.js promises: the popup, the options page and the content script agree about a site.
use stock_dashboard.Prelude.{
  ℕ, zero, suc, ◌≡◌, refl, sym, ap, ◌∙◌, ◌⊎◌, inl, inr, Bool, true, false, not, ◌&&◌, Option, some,
  List, [], ◌∷◌, map, arith, if◌then◌else◌, Bool-cases, Option-cases, drop, find?, All,
}
use stock_dashboard.Extension.Sites.{
  Host, content_hosts, to_lower, www, starts_with, strip_www, is_host, listed_or, stripped,
  site_key, Settings, is_not_false, is_site_enabled, set_site, open_popup, toggle_site,
}
use mathlib.Core.Option.{some-injective}
use stock_dashboard.Desktop.Window.{same_codes}

to_lower_twice : (c : ℕ) → to_lower (to_lower c) ≡ to_lower c
unfolding to_lower
to_lower_twice c = ground arith

lower_drop : (n : ℕ) (h : Host) → map to_lower (drop n (map to_lower h)) ≡ drop n (map to_lower h)
lower_drop zero [] = refl
lower_drop zero (c ∷ cs) = rw (to_lower_twice c) (ap (λ ds. to_lower c ∷ ds) (lower_drop zero cs))
lower_drop (suc n) [] = refl
lower_drop (suc n) (c ∷ cs) = lower_drop n cs

lower_stripped : (h : Host) → map to_lower (stripped h) ≡ stripped h
unfolding stripped strip_www
lower_stripped h = elim (Bool-cases (starts_with www (map to_lower h))) [
  | inl w ↦ rw w (lower_drop 4 h)
  | inr n ↦ rw n (lower_drop 0 h)
]

strip_plain : (h : Host) → starts_with www h ≡ false → strip_www h ≡ h
unfolding strip_www
strip_plain h n = rw n refl

stripped_twice :
    (h : Host) → starts_with www (stripped h) ≡ false → stripped (stripped h) ≡ stripped h
unfolding stripped
stripped_twice h none_left = ap strip_www (lower_stripped h) ∙ strip_plain (stripped h) none_left

module _ (P : Host → Type 0) (p : Host → Bool) where
  find-All : (hs : List Host) {c : Host} → All P hs → find? p hs ≡ some c → P c
  find-All [] all found = cc
  find-All (h ∷ hs) {c} all found = elim (Bool-cases (p h)) [
    | inl hit ↦
        let here : some h ≡ some c = ap (λ b. if b then some h else find? p hs) (sym hit) ∙ found in
        rw (← some-injective _ _ here) all.0
    | inr miss ↦ find-All hs all.1 (ap (λ b. if b then some h else find? p hs) (sym miss) ∙ found)
  ]

-- The hosts of the list are their own keys.
hosts_are_keys : All (λ c. site_key c ≡ c) content_hosts
unfolding site_key
hosts_are_keys = (refl, (refl, (refl, (refl, (refl, (refl, (refl, (refl, (refl, tt)))))))))

unfoldable key_of : Host → Host
key_of h = listed_or h (find? (λ c. is_host h c) content_hosts)

site_key-stripped : (h : Host) → site_key h ≡ key_of (stripped h)
unfolding site_key key_of
site_key-stripped h = refl

key_of-cases : (h : Host) → (key_of h ≡ h) ⊎ (site_key (key_of h) ≡ key_of h)
unfolding key_of
key_of-cases h = elim (Option-cases (find? (λ c. is_host h c) content_hosts)) [
  | inl none_found ↦ inl (ap (listed_or h) none_found)
  | inr (c, found) ↦
      let is_c : key_of h ≡ c = ap (listed_or h) found in
      let own : site_key c ≡ c =
        find-All (λ k. site_key k ≡ k) (λ k. is_host h k) content_hosts hosts_are_keys found in
      inr (ap site_key is_c ∙ own ∙ sym is_c)
]

-- A key that does not begin with "www." is its own key.
pub site_key_twice :
    (h : Host) → starts_with www (site_key h) ≡ false → site_key (site_key h) ≡ site_key h
site_key_twice h n = elim (key_of-cases (stripped h)) [
  | inl plain ↦
      let whole : site_key h ≡ stripped h = site_key-stripped h ∙ plain in
      let same = stripped_twice h (ap (starts_with www) (sym whole) ∙ n) in
      ap site_key whole ∙ site_key-stripped (stripped h) ∙ ap key_of same ∙ plain ∙ sym whole
  | inr own ↦ rw (site_key-stripped h) own
]

shown :
    (hostname : Host) (s : Settings)
    → starts_with www (site_key hostname) ≡ false
    → (open_popup hostname s).site_on ≡ is_site_enabled s hostname
unfolding open_popup is_site_enabled
shown hostname s n =
    ap (λ k. if not s.overlay_enabled then false else is_not_false (s.sites k))
      (site_key_twice hostname n)

if_set :
    (b enabled next : Bool) (v : Option Bool)
    → (if not enabled then false else is_not_false (if b then some next else v))
      ≡ (if b then enabled && next else (if not enabled then false else is_not_false v))
if_set true true true v = refl
if_set true true false v = refl
if_set true false next v = refl
if_set false true next v = refl
if_set false false next v = refl

switched :
    (hostname other : Host) (next : Bool) (s : Settings)
    → is_site_enabled (toggle_site next (open_popup hostname s) s).1 other ≡ (
        if same_codes (site_key other) (site_key hostname)
        then s.overlay_enabled && next
        else is_site_enabled s other)
unfolding open_popup is_site_enabled toggle_site set_site
switched hostname other next s =
    if_set (same_codes (site_key other) (site_key hostname)) s.overlay_enabled next
      (s.sites (site_key other))

-- On a page whose key does not begin with "www.", the popup's switch shows whether the overlay may
-- run on the page; switching it sets that for the pages of the same key and leaves the others.
pub toggle_site_agrees :
    (hostname other : Host) (next : Bool) (s : Settings)
    → starts_with www (site_key hostname) ≡ false
    → ((open_popup hostname s).site_on ≡ is_site_enabled s hostname)
      × (is_site_enabled (toggle_site next (open_popup hostname s) s).1 other ≡ (
          if same_codes (site_key other) (site_key hostname)
          then s.overlay_enabled && next
          else is_site_enabled s other))
toggle_site_agrees hostname other next s n = (shown hostname s n, switched hostname other next s)
