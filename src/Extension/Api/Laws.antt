-- ===== src/Extension/Api/Laws.antt =====
-- What the status of a failed request says.
use stock_dashboard.Prelude.{String, ◌≡◌, refl, ◌↔◌, Bool, true, false, Option, none, some, is_some}
use stock_dashboard.Extension.Api.{
  Status, permission_denied, Reply, ok, err, Fetched, aborted, threw, responded, request,
}

abbrev pub status_of : {A : Type 0} → Reply A → Option Status
status_of (ok a) = none
status_of (err e) = some e.status

-- The network is used exactly where an address is stored and its permission granted; a request
-- fails with "permission denied" exactly where it is not used.
pub request_permission :
    {A : Type 0} (base : Option String) (permission : Option Bool) (fetched : Fetched A)
    → ((status_of (request base permission fetched).0 ≡ some permission_denied)
        ↔ ((request base permission fetched).1 ≡ false))
      × (((request base permission fetched).1 ≡ true)
          ↔ (is_some base ≡ true) × (permission ≡ some true))
unfolding request
request_permission none permission fetched = ((λ e. refl, λ e. refl), (λ e. cc, λ e. cc))
request_permission (some base) none fetched = ((λ e. refl, λ e. refl), (λ e. cc, λ e. cc))
request_permission (some base) (some false) fetched = ((λ e. refl, λ e. refl), (λ e. cc, λ e. cc))
request_permission (some base) (some true) aborted =
    ((λ e. cc, λ e. cc), (λ e. (refl, refl), λ e. refl))
request_permission (some base) (some true) (threw m) =
    ((λ e. cc, λ e. cc), (λ e. (refl, refl), λ e. refl))
request_permission (some base) (some true) (responded s true d a) =
    ((λ e. cc, λ e. cc), (λ e. (refl, refl), λ e. refl))
request_permission (some base) (some true) (responded s false d a) =
    ((λ e. cc, λ e. cc), (λ e. (refl, refl), λ e. refl))
