-- ===== src/Client.antt =====
-- A client of the service: client-rest/examples/netrid-flow.rs, an aircraft that logs in and reports
-- its identifier over Network Remote ID. The service that answers is that of Rest/Server.
pub mod Text
pub mod Items
pub mod Flow
pub mod Repeats
pub mod Tests
use svc_telemetry.Base.{
  ℕ, zero, suc, ◌-◌, Bool, true, false, ◌∷◌, ◌++◌, Option, none, some, Result, ok, err, ok_or,
  length, replicate, ◌==◌, if◌then◌else◌,
}
use svc_telemetry.Base.Text.{codes, decimal_u32, from_utf8}
use svc_telemetry.World.{Bytes, History, Io, ◌>>=◌, ◌>>◌, return, lift}
use svc_telemetry.Msg.Netrid.{Frame, Header, BasicMessage, default_header, default_basic_message}
use svc_telemetry.Msg.Netrid.Fields.{MessageType, IdType, UaType}
use svc_telemetry.Rest.Status.{StatusCode, unauthorized}
use svc_telemetry.Rest.Server.{
  post, get, Reply, counted, token, healthy, status, denied, unrouted, HttpRequest, Site, serve,
  netrid_path, login_path,
}
use Text.{trim_quotes, without_quotes}

-- What becomes of an HTTP request: it does not reach the service, its answer is lost, or it is answered.
pub data Delivery : Type 0 where
  lost unanswered answered : Delivery

abbrev pub seen : Delivery → Reply → Option Reply
seen answered r = some r
seen _ r = none

abbrev pub arrived : Delivery → History → History → History
arrived lost h h' = h
arrived _ h h' = h'

abbrev pub is_answered : Delivery → Bool
is_answered answered = true
is_answered _ = false

-- The libraries of the client: packed_struct's `pack`, the JSON text of a string and of a number, and
-- what becomes of an HTTP request, by its number among the requests of the client.
pub record Library : Type 0 where
  pub pack_basic : BasicMessage → Option Bytes
  pub pack_frame : Frame → Option Bytes
  pub delivery : ℕ → History → Delivery
  pub json_string : Bytes → Bytes
  pub json_number : ℕ → Bytes

abbrev pub identifier : ℕ → Bytes
identifier reporter = codes "aircraft" ++ decimal_u32 reporter

-- `{:>20}`
abbrev pub pad_20 : Bytes → Bytes
pad_20 s = replicate (20 - length s) b' ' ++ s

-- `<[u8; 20]>::try_from`
abbrev pub array_20 : Bytes → Option Bytes
array_20 s = if length s == 20 then some s else none

-- The message of a reporter, with its identifier.
abbrev pub message_of : Bytes → BasicMessage
message_of uas_id = record default_basic_message {
  id_type = IdType.caa_assigned;
  ua_type = UaType.rotorcraft;
  uas_id = uas_id;
}

abbrev pub frame_of : Bytes → Frame
frame_of message = record {
  header = record default_header { message_type = MessageType.basic };
  message = message;
}

abbrev pub plain_request : Bytes → HttpRequest
plain_request body = record {
  method = post;
  path = netrid_path;
  credentials = record { token_cookie = none; authorization = none };
  body = body;
}

is_unauthorized : StatusCode → Bool
is_unauthorized unauthorized = true
is_unauthorized _ = false

module _ (lib : Library) where
  -- `unwrap` panics; a computation fails with `tt` when the client panics.
  unfoldable pub packet : ℕ → Result (Unit {0}) Bytes
  packet reporter = elim (array_20 (pad_20 (identifier reporter))) [
    | none ↦ err tt
    | some uas_id ↦ elim (lib.pack_basic (message_of uas_id)) [
      | none ↦ err tt
      | some message ↦ ok_or (lib.pack_frame (frame_of message)) tt
    ]
  ]

  -- The body of a reply with status 200.
  unfoldable pub ok_body : Reply → Option Bytes
  ok_body (counted n) = some (lib.json_number n)
  ok_body (token t) = some (lib.json_string t)
  ok_body healthy = some (codes "")
  ok_body (status s) = none
  ok_body (denied s m) = none
  ok_body unrouted = none

  -- The first push, without credentials; a request that is not answered is only printed.
  expect_unauthorized : Option Reply → Result (Unit {0}) (Unit {0})
  unfolding is_unauthorized
  expect_unauthorized none = ok tt
  expect_unauthorized (some (status s)) = if is_unauthorized s then ok tt else err tt
  expect_unauthorized (some (denied s m)) = if is_unauthorized s then ok tt else err tt
  expect_unauthorized (some _) = err tt

  -- The token in the answer to the login.
  token_of : Option Reply → Result (Unit {0}) Bytes
  unfolding ok_body
  token_of none = err tt
  token_of (some r) = elim (ok_body r) [
    | none ↦ err tt
    | some body ↦ elim (from_utf8 body) [
      | none ↦ err tt
      | some text ↦ ok (without_quotes (trim_quotes text))
    ]
  ]

  expect_ok : Option Reply → Result (Unit {0}) (Unit {0})
  unfolding ok_body
  expect_ok none = ok tt
  expect_ok (some r) = elim (ok_body r) [ none ↦ err tt | some body ↦ ok tt ]

  module _ (site : Site) where
    -- `client.request(req).await`
    unfoldable pub request : ℕ → HttpRequest → Io (Unit {0}) (Option Reply)
    request number req h =
        let (r, h') = serve site req h in
        let d = lib.delivery number h in (ok (seen d r), arrived d h h')

    -- `for _ in 0..10`: so many pushes, the first with the given number.
    pushes : ℕ → ℕ → HttpRequest → Io (Unit {0}) (Unit {0})
    unfolding request expect_ok
    pushes zero number req = return tt
    pushes (suc n) number req = do
      r ← request number req
      lift (expect_ok r)
      pushes n (suc number) req

    -- The part without credentials.
    try_plain : Bytes → Io (Unit {0}) (Unit {0})
    unfolding request expect_unauthorized
    try_plain payload = do r ← request 0 (plain_request payload); lift (expect_unauthorized r)

    log_in : ℕ → Io (Unit {0}) Bytes
    unfolding request token_of
    log_in reporter = do
      r ← request 1 (record {
        method = get;
        path = login_path;
        credentials = record { token_cookie = none; authorization = none };
        body = identifier reporter;
      })
      lift (token_of r)

    unfoldable pub netrid : ℕ → Io (Unit {0}) (Unit {0})
    unfolding packet try_plain log_in pushes
    netrid reporter = do
      payload ← lift (packet reporter)
      try_plain payload
      t ← log_in reporter
      pushes 10 2 (record {
        method = post;
        path = netrid_path;
        credentials = record { token_cookie = none; authorization = some (codes "Bearer " ++ t) };
        body = payload;
      })
