-- ===== src/Extension/Api.antt =====
-- extension/src/lib/api.js: one request to the dashboard. The stored address, the permission, the
-- network and the response are inputs.
pub mod Laws
use stock_dashboard.Prelude.{
  ℕ, String, Bool, true, false, not, Option, none, some, if◌then◌else◌, str_eq,
}

-- The status of an ApiError: -1 without the host permission, 0 where the server was not reached,
-- else the HTTP status.
pub data Status : Type 0 where
  permission_denied network : Status
  http : ℕ → Status

pub data Message : Type 0 where
  no_url no_access timed_out network_error request_failed unknown_message : Message
  detail : String → Message

pub record ApiError : Type 0 where
  pub status : Status
  pub message : Message

pub data Reply (A : Type 0) : Type 0 where
  ok : A → Reply A
  err : ApiError → Reply A

-- What `fetch` came to: an abort by the timer, another failure with its message (which may be
-- empty), or a response with its status, its `ok` flag, its `detail` and its value.
pub data Fetched (A : Type 0) : Type 0 where
  aborted : Fetched A
  threw : String → Fetched A
  responded : ℕ → Bool → Option String → A → Fetched A

abbrev pub fail : {A : Type 0} → Message → Status → Reply A
fail message status = err (record { status = status; message = message })

-- `a || fallback` on messages.
abbrev pub detail_or : Option String → Message → Message
detail_or none m = m
detail_or (some d) m = if str_eq d "" then m else detail d

module _ {A : Type 0} where
  abbrev pub from_fetch : Fetched A → Reply A
  from_fetch aborted = fail timed_out network
  from_fetch (threw message) = fail (detail_or (some message) network_error) network
  from_fetch (responded status is_ok found value) =
      if not is_ok then fail (detail_or found request_failed) (http status) else ok value

  -- `request`; the permission check answers `none` where it throws, which counts as false. The
  -- second component says whether the network was used.
  unfoldable pub request : Option String → Option Bool → Fetched A → Reply A × Bool
  request none permission fetched = (fail no_url permission_denied, false)
  request (some base) none fetched = (fail no_access permission_denied, false)
  request (some base) (some false) fetched = (fail no_access permission_denied, false)
  request (some base) (some true) fetched = (from_fetch fetched, true)
