-- ===== src/Client/Repeats.antt =====
-- The client of client-rest/examples/rest.rs: it reports ADS-B packets, some of them again, and prints
-- whether each answer is the one that it expects. What it prints is its result here. The part after the
-- wait of ten seconds is left out.
pub mod Counts
pub mod Answers
pub mod Tests
use svc_telemetry.Base.{
  ◌+◌, ℕ, zero, suc, Bool, true, false, List, [], ◌∷◌, Option, none, some, Result, ok, err, ◌==◌,
  if◌then◌else◌,
}
use svc_telemetry.Base.Int.{ℤ, pos, negsuc}
use svc_telemetry.World.{Bytes, Io, ◌>>=◌, return, lift}
use svc_telemetry.Rest.Server.{post, Reply, HttpRequest, Site, adsb_path}
use svc_telemetry.Client.{Library, request, ok_body}

pub data Evaluation : Type 0 where
  no_answer unexpected_code unexpected_count as_expected : Evaluation

-- `reported_count == expected_count`
abbrev pub equal_counts : ℤ → ℤ → Bool
equal_counts (pos m) (pos n) = m == n
equal_counts (negsuc m) (negsuc n) = m == n
equal_counts _ _ = false

abbrev pub payload_of : ℕ → Bytes
payload_of count =
    0x8d ∷ 0x48 ∷ 0x40 ∷ count ∷ 0x20 ∷ 0x2c ∷ 0xc3 ∷ 0x71 ∷ 0xc3 ∷ 0x2c ∷ 0xe0 ∷ 0x57 ∷ 0x60 ∷ 0x98
    ∷ []

abbrev pub report_request : Bytes → HttpRequest
report_request payload = record {
  method = post;
  path = adsb_path;
  credentials = record { token_cookie = none; authorization = none };
  body = payload;
}

-- `from_slice` reads an i64 from JSON text. The expected code is always 200; a body of another form makes
-- the client panic.
module _ (lib : Library) (from_slice : Bytes → Option ℤ) where
  evaluate : Option Reply → ℤ → Result (Unit {0}) Evaluation
  unfolding ok_body
  evaluate none expected_count = ok no_answer
  evaluate (some r) expected_count = elim (ok_body lib r) [
    | none ↦ ok unexpected_code
    | some bytes ↦ elim (from_slice bytes) [
      | none ↦ err tt
      | some reported_count ↦
          ok (if equal_counts reported_count expected_count then as_expected else unexpected_count)
    ]
  ]

  module _ (site : Site) where
    report_packet : ℕ → Bytes → ℤ → Io (Unit {0}) Evaluation
    unfolding request evaluate
    report_packet number payload expected_count = do
      resp ← request lib site number (report_request payload)
      lift (evaluate resp expected_count)

    -- `for count in 0..=max`: so many packets, from `count` on.
    nominal : ℕ → ℕ → Io (Unit {0}) (List Evaluation)
    unfolding report_packet
    nominal zero count = return []
    nominal (suc n) count = do
      e ← report_packet count (payload_of count) (pos 1)
      es ← nominal n (suc count)
      return (e ∷ es)

    -- `for expected_count in 2..=6`, after five requests.
    repeated : ℕ → Bytes → ℕ → Io (Unit {0}) (List Evaluation)
    unfolding report_packet
    repeated zero payload expected_count = return []
    repeated (suc n) payload expected_count = do
      e ← report_packet (3 + expected_count) payload (pos expected_count)
      es ← repeated n payload (suc expected_count)
      return (e ∷ es)

    unfoldable pub adsb : Io (Unit {0}) (List Evaluation × List Evaluation)
    unfolding nominal repeated
    adsb = do first ← nominal 5 0; again ← repeated 5 (payload_of 4) 2; return (first, again)
