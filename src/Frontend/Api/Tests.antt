-- ===== src/Frontend/Api/Tests.antt =====
-- Runs of frontend/src/api.js, and witnesses.
use stock_dashboard.Prelude.{String, ◌≡◌, refl, ◌≢◌, false, some, [], ◌∷◌, ◌++◌}
use stock_dashboard.Frontend.Api.{
  UrlPath, Message, Detail, Body, Fetched, Outcome, is_auth_path, request, heard,
}
use stock_dashboard.Frontend.Api.Laws.{Reports, request-Reports, refused_signs_out}
use stock_dashboard.Frontend.Auth.{Status, Auth, Event, run}
use stock_dashboard.Desktop.Window.{codes}

abbrev watchlists : UrlPath
watchlists = codes "/api/watchlists"

abbrev bad_stop : Body Detail
bad_stop =
    Body.value (Detail.object (some "invalid") (("stop_price", "must be below the price") ∷ []))

abbrev invalid : Fetched String
invalid = Fetched.refused 422 bad_stop

-- The fields of a form's refusal reach the caller.
invalid_fields :
    (request watchlists invalid).0
    ≡ Outcome.api_error (record {
      message = Message.text "invalid";
      status = 422;
      fields = some (("stop_price", "must be below the price") ∷ []);
    })
unfolding request
invalid_fields = refl

request-Reports_example : Reports invalid (request watchlists invalid).0
request-Reports_example = request-Reports watchlists invalid

abbrev signed_in : Auth String
signed_in = record { status = Status.authed; user = some "sam" }

outside : is_auth_path watchlists ≡ false
unfolding is_auth_path
outside = refl

refused_signs_out_example :
    let f : Fetched String = Fetched.refused 401 Body.no_json in
    (run (heard watchlists f ++ Event.cancel ∷ []) signed_in).status ≢ Status.authed
refused_signs_out_example =
    refused_signs_out String watchlists Body.no_json (Event.cancel ∷ []) signed_in outside
      (refl, tt)
