-- ===== src/Frontend/Api/Laws.antt =====
-- What api.js promises of its errors, and what useAuth makes of a refused request.
use stock_dashboard.Prelude.{
  ℕ, ◌<◌, String, ◌≡◌, refl, ◌≢◌, inl, inr, false, Option, none, some, List, [], ◌∷◌, ◌++◌, arith,
  str_eq, str_eq_iff, Bool-cases, length, All,
}
use stock_dashboard.Frontend.Api.{
  UrlPath, Message, Detail, Body, Fetched, Outcome, present, text_or, joined_or, detail_or,
  is_auth_path, refusal, json, request, heard,
}
use stock_dashboard.Frontend.Auth.{authed, Auth, Event, step, run}
use stock_dashboard.Frontend.Auth.Laws.{expiry_leaves, signs_in, run_stays_out}

-- A message that is not empty, nor any of the texts that it joins.
pub IsTold : Message → Type 0
IsTold (Message.text s) = s ≢ ""
IsTold (Message.joined ss) = (0 < length ss) × All (λ s. s ≢ "") ss
IsTold _ = Unit

text_or-IsTold : (s : Option String) (m : Message) → IsTold m → IsTold (text_or s m)
unfolding IsTold
text_or-IsTold none m h = h
text_or-IsTold (some s) m h = elim (Bool-cases (str_eq s "")) [
  | inl empty ↦ rw empty h
  | inr full ↦ rw full λ (e : s ≡ ""). let same = (str_eq_iff s "").1 e in cc
]

present-told : (ms : List (Option String)) → All (λ s. s ≢ "") (present ms)
present-told [] = tt
present-told (none ∷ ms) = present-told ms
present-told (some s ∷ ms) = elim (Bool-cases (str_eq s "")) [
  | inl empty ↦ rw empty (present-told ms)
  | inr full ↦ rw full ((λ (e : s ≡ ""). let same = (str_eq_iff s "").1 e in cc), present-told ms)
]

joined_or-IsTold :
    (ss : List String) (m : Message) → All (λ s. s ≢ "") ss → IsTold m → IsTold (joined_or ss m)
unfolding IsTold
joined_or-IsTold [] m a h = h
joined_or-IsTold (s ∷ ss) m a h = (omega arith, a)

detail_or-IsTold : (d : Detail) (m : Message) → IsTold m → IsTold (detail_or d m)
unfolding detail_or IsTold
detail_or-IsTold Detail.missing m h = h
detail_or-IsTold (Detail.plain s) m h = text_or-IsTold (some s) m h
detail_or-IsTold (Detail.entries ms) m h = joined_or-IsTold (present ms) m (present-told ms) h
detail_or-IsTold (Detail.object s errors) m h = text_or-IsTold s m h

-- What an outcome has to be for each thing that `fetch` may come to.
pub Reports : {A : Type 0} → Fetched A → Outcome A → Type 0
Reports f (Outcome.ok a) = f ≡ Fetched.accepted (Body.value a)
Reports f Outcome.nothing = f ≡ Fetched.accepted Body.null
Reports Fetched.aborted (Outcome.api_error e) = (e.status ≡ 0) × IsTold e.message
Reports (Fetched.threw s) (Outcome.api_error e) = (e.status ≡ 0) × IsTold e.message
Reports (Fetched.accepted b) (Outcome.api_error e) = ⊥
Reports (Fetched.refused status b) (Outcome.api_error e) = (e.status ≡ status) × IsTold e.message
Reports (Fetched.accepted b) Outcome.other_error = b ≡ Body.no_json
Reports (Fetched.refused status b) Outcome.other_error = b ≡ Body.null
Reports _ Outcome.other_error = ⊥

json-Reports : {A : Type 0} (b : Body A) → Reports (Fetched.accepted b) (json b)
unfolding Reports
json-Reports Body.no_json = refl
json-Reports Body.null = refl
json-Reports (Body.value a) = refl

refusal-Reports :
    (A : Type 0) (status : ℕ) (b : Body Detail)
    → Reports {A = A} (Fetched.refused status b) (refusal status b)
unfolding Reports IsTold
refusal-Reports A status Body.no_json = (refl, tt)
refusal-Reports A status Body.null = refl
refusal-Reports A status (Body.value d) = (refl, detail_or-IsTold d Message.request_failed tt)

-- A request yields a value only where the server accepted it with one. Where no response came its
-- error has status 0, and where the server refused it the server's status, and the message of either
-- is not empty, nor any text that it joins; only JSON that is missing or `null` makes an error of another kind.
pub request-Reports : {A : Type 0} (path : UrlPath) (f : Fetched A) → Reports f (request path f).0
unfolding request Reports IsTold
request-Reports path Fetched.aborted = (refl, tt)
request-Reports path (Fetched.threw s) = (refl, text_or-IsTold (some s) Message.network_error tt)
request-Reports path (Fetched.accepted b) = json-Reports b
request-Reports {A} path (Fetched.refused status b) = refusal-Reports A status b

-- A request that the server answers with 401 signs the tab out, unless it is one of the sign-in
-- itself: whatever follows, the tab is signed in again only by an existing session, a second factor
-- or a finished setup.
pub refused_signs_out :
    (A : Type 0) {U : Type 0} (path : UrlPath) (b : Body Detail) (es : List (Event U)) (s : Auth U)
    → is_auth_path path ≡ false
    → All (λ e. signs_in e ≡ false) es
    → let f : Fetched A = Fetched.refused 401 b in (run (heard path f ++ es) s).status ≢ authed
unfolding heard request run step
refused_signs_out A path b es s outside quiet =
    rw outside (run_stays_out es (step Event.expired s) (expiry_leaves s.status) quiet)
