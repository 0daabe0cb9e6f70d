-- ===== src/Extension/Sites/Tests.antt =====
-- Runs of extension/src/lib/sites.js, and witnesses.
use stock_dashboard.Prelude.{◌≡◌, refl, true, false, ◌&&◌, none, if◌then◌else◌}
use stock_dashboard.Extension.Sites.{
  Host, www, starts_with, site_key, Settings, is_site_enabled, open_popup, toggle_site,
}
use stock_dashboard.Extension.Sites.Laws.{toggle_site_agrees}
use stock_dashboard.Desktop.Window.{codes, same_codes}

abbrev old_reddit : Host
old_reddit = codes "old.Reddit.com"

abbrev all_on : Settings
all_on = record { overlay_enabled = true; sites = λ k. none }

keys :
    (site_key old_reddit ≡ codes "reddit.com")
    × (site_key (codes "www.example.org") ≡ codes "example.org")
    × (site_key (codes "netflix.com") ≡ codes "netflix.com")
unfolding site_key
keys = (refl, refl, refl)

no_www : starts_with www (site_key old_reddit) ≡ false
unfolding site_key
no_www = refl

-- Switched off on old.reddit.com, the overlay is off on www.reddit.com.
toggle_site_agrees_example :
    ((open_popup old_reddit all_on).site_on ≡ is_site_enabled all_on old_reddit)
    × (is_site_enabled
          (toggle_site false (open_popup old_reddit all_on) all_on).1
          (codes "www.reddit.com")
        ≡ (if same_codes (site_key (codes "www.reddit.com")) (site_key old_reddit)
            then true && false
            else is_site_enabled all_on (codes "www.reddit.com")))
toggle_site_agrees_example =
    toggle_site_agrees old_reddit (codes "www.reddit.com") false all_on no_www
