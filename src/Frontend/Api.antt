-- ===== src/Frontend/Api.antt =====
-- frontend/src/api.js: one request of the application, and what a 401 does to the sign-in. The path
-- is the list of its codes; what `fetch` comes to, with the body of the response, is an input.
pub mod Laws
mod Tests
use stock_dashboard.Prelude.{
  ℕ, String, Bool, true, false, not, ◌&&◌, Option, none, some, List, [], ◌∷◌, ◌==◌, if◌then◌else◌,
  str_eq,
}
use stock_dashboard.Desktop.Window.{codes}
use stock_dashboard.Frontend.Auth.{Status, Auth, Event, after_expiry, initial, step, run}

abbrev pub UrlPath : Type 0
UrlPath = List ℕ

-- The message of an error. The source writes the path into three of them.
pub data Message : Type 0 where
  timed_out network_error request_failed : Message
  text : String → Message
  -- `msg`s joined by "; "
  joined : List String → Message

-- `detail` of an error's body: missing, a text, FastAPI's list with the `msg` of each entry, or an
-- object with its `message` and its `errors`.
pub data Detail : Type 0 where
  missing : Detail
  plain : String → Detail
  entries : List (Option String) → Detail
  object : Option String → List (String × String) → Detail

pub record ApiError : Type 0 where
  pub message : Message
  pub status : ℕ
  pub fields : Option (List (String × String))

-- The body of a response: no JSON, JSON that is `null`, or a value; of a refusal, its `detail`.
pub data Body (A : Type 0) : Type 0 where
  no_json : Body A
  null : Body A
  value : A → Body A

pub data Fetched (A : Type 0) : Type 0 where
  aborted : Fetched A
  threw : String → Fetched A
  -- `res.ok`, with its JSON
  accepted : Body A → Fetched A
  -- not `res.ok`, with its status
  refused : ℕ → Body Detail → Fetched A

pub data Outcome (A : Type 0) : Type 0 where
  ok : A → Outcome A
  -- JSON that is `null`
  nothing : Outcome A
  api_error : ApiError → Outcome A
  -- an exception that is no ApiError: what `res.json()` throws, or a property of null
  other_error : Outcome A

abbrev pub present : List (Option String) → List String
present [] = []
present (none ∷ ms) = present ms
present (some m ∷ ms) = if str_eq m "" then present ms else m ∷ present ms

abbrev pub text_or : Option String → Message → Message
text_or none m = m
text_or (some s) m = if str_eq s "" then m else Message.text s

abbrev pub joined_or : List String → Message → Message
joined_or [] m = m
joined_or (s ∷ ss) m = Message.joined (s ∷ ss)

-- `detailMessage(detail) || fallback`
unfoldable pub detail_or : Detail → Message → Message
detail_or Detail.missing m = m
detail_or (Detail.plain s) m = text_or (some s) m
detail_or (Detail.entries ms) m = joined_or (present ms) m
detail_or (Detail.object s errors) m = text_or s m

abbrev pub fields_of : Detail → Option (List (String × String))
fields_of (Detail.object s (e ∷ es)) = some (e ∷ es)
fields_of _ = none

abbrev pub starts_with : UrlPath → UrlPath → Bool
starts_with [] h = true
starts_with (p ∷ ps) [] = false
starts_with (p ∷ ps) (c ∷ cs) = p == c && starts_with ps cs

unfoldable pub is_auth_path : UrlPath → Bool
is_auth_path path = starts_with (codes "/api/auth/") path

abbrev pub fail_with : {A : Type 0} → Message → ℕ → Option (List (String × String)) → Outcome A
fail_with message status fields =
    Outcome.api_error (record { message = message; status = status; fields = fields })

abbrev pub refusal : {A : Type 0} → ℕ → Body Detail → Outcome A
refusal status Body.no_json = fail_with Message.request_failed status none
refusal status Body.null = Outcome.other_error
refusal status (Body.value d) = fail_with (detail_or d Message.request_failed) status (fields_of d)

abbrev pub json : {A : Type 0} → Body A → Outcome A
json Body.no_json = Outcome.other_error
json Body.null = Outcome.nothing
json (Body.value a) = Outcome.ok a

-- The outcome, and whether "auth:expired" was dispatched.
unfoldable pub request : {A : Type 0} → UrlPath → Fetched A → Outcome A × Bool
unfolding is_auth_path detail_or
request path Fetched.aborted = (fail_with Message.timed_out 0 none, false)
request path (Fetched.threw e) = (fail_with (text_or (some e) Message.network_error) 0 none, false)
request path (Fetched.accepted body) = (json body, false)
request path (Fetched.refused status body) =
    (refusal status body, status == 401 && not (is_auth_path path))

-- What useAuth hears of a request.
unfoldable pub heard : {A U : Type 0} → UrlPath → Fetched A → List (Event U)
unfolding request
heard path f = if (request path f).1 then Event.expired ∷ [] else []
