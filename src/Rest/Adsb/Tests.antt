-- ===== src/Rest/Adsb/Tests.antt =====
-- The theorems on the ADS-B endpoint applied to two packets.
use svc_telemetry.Base.{
  ℕ, ◌≡◌, ◌≤◌, ◌⊎◌, refl, length, [], ◌∷◌, some, none, ok, err, replicate, false,
}
use svc_telemetry.Base.Text.{codes}
use svc_telemetry.World.{Bytes, Event, pipeline, publish, insert, lpush, History}
use svc_telemetry.Amqp.{exchange_name_telemetry, routing_key_adsb}
use svc_telemetry.Cache.{TelemetryPools, bytes_to_key}
use svc_telemetry.Cache.Pool.{increment}
use svc_telemetry.Cache.Pool.Pipelines.{increment_steps}
use svc_telemetry.Cache.Pool.Tests.{fresh_redis, fresh_redis-IsPipelined}
use svc_telemetry.Msg.Adsb.{Libm, get_adsb_icao_address, get_adsb_message_type}
use svc_telemetry.Msg.Netrid.Tests.{clock}
use svc_telemetry.Rest.Status.{internal_server_error, bad_request}
use svc_telemetry.Rest.Service.{Service}
use svc_telemetry.Rest.Adsb.Stored.{IsStored, adsb-eq-ok}
use svc_telemetry.Rest.Adsb.Push.{
  AdsbDeku, Me, identification, a, odd, even, airborne_position, Packet, adsb_format,
}
use svc_telemetry.Rest.Adsb.{adsb, cache_expire_ms_adsb}
use svc_telemetry.Rest.Adsb.Replies.{adsb-eq-bad_request}
use svc_telemetry.Rest.Adsb.Positions.{adsb-airborne_position}

abbrev service : Service clock
service = record {
  backends = fresh_redis;
  now = λ h k. 1_700_000_000_000_000_000;
  id_json = λ x. some (codes "id");
  position_json = λ x. some (codes "position");
  velocity_json = λ x. some (codes "velocity");
  key_id = codes "gis:id";
  key_position = codes "gis:position";
  key_velocity = codes "gis:velocity";
}

abbrev pub plain : Libm
plain = record { cos = λ x. x; acos = λ x. x; atan2 = λ y x. y }

abbrev pub address : Bytes
address = 0x40 ∷ 0x62 ∷ 0x1d ∷ []

abbrev one_packet : Packet
one_packet = adsb_format address (airborne_position even 93000 51372 (some 3128))

-- Every packet is the one above.
abbrev deku : AdsbDeku
deku = record {
  from_bytes = λ payload. some one_packet;
  display = λ flag. elim flag [ even ↦ codes "even" | odd ↦ codes "odd" ];
  odd_digit = codes "1";
}

abbrev pools : TelemetryPools
pools = record {
  netrid = record { key_folder = codes "tlm:netrid" };
  adsb = record { key_folder = codes "tlm:adsb" };
}

abbrev pub payload : Bytes
payload = replicate 14 0x8d

abbrev counted : Event
counted = pipeline (increment_steps pools.adsb (bytes_to_key payload) cache_expire_ms_adsb)

first_count :
    increment fresh_redis pools.adsb (bytes_to_key payload) cache_expire_ms_adsb []
    ≡ (ok 1, counted ∷ [])
unfolding increment
first_count = refl

adsb-airborne_position_example :
    (adsb clock service plain deku pools payload []).0 ≡ err internal_server_error
adsb-airborne_position_example =
    adsb-airborne_position clock service plain deku fresh_redis-IsPipelined pools payload address
      93000 51372 3128 even [] (counted ∷ []) refl first_count refl

-- An identification of a rotorcraft.
abbrev pub naming : Me
naming = identification a 7 (codes "HELI1")

abbrev pub name_deku : AdsbDeku
name_deku = record {
  from_bytes = λ payload. some (adsb_format address naming);
  display = λ flag. elim flag [ even ↦ codes "even" | odd ↦ codes "odd" ];
  odd_digit = codes "1";
}

abbrev named : History
named =
    insert 0x40621d 17 payload
    ∷ publish exchange_name_telemetry routing_key_adsb payload
    ∷ pipeline (record { command = lpush (codes "gis:id") (codes "id"); ignored = false } ∷ [])
    ∷ counted
    ∷ []

named_once : adsb clock service plain name_deku pools payload [] ≡ (ok 1, named)
unfolding adsb get_adsb_icao_address get_adsb_message_type
named_once = refl

adsb-eq-ok_example :
    (length payload ≡ 14)
    × (count : ℕ) × (h1 : History) × (increment fresh_redis pools.adsb
          (bytes_to_key payload)
          cache_expire_ms_adsb
          []
        ≡ (ok count, h1))
    × (((2 ≤ count) × (◌≡◌ {A = ℕ} 1 count) × (named ≡ h1))
        ⊎ ((count ≡ 1) × IsStored clock service plain name_deku pools payload h1 named))
adsb-eq-ok_example = adsb-eq-ok clock service plain name_deku pools payload 1 [] named named_once

-- A packet that does not parse.
abbrev deaf_deku : AdsbDeku
deaf_deku = record name_deku { from_bytes = λ payload. none }

unparsed : adsb clock service plain deaf_deku pools payload [] ≡ (err bad_request, counted ∷ [])
unfolding adsb
unparsed = refl

adsb-eq-bad_request_example :
    ◌⊎◌ (◌≡◌ {A = History} (counted ∷ []) []) (◌≡◌ {A = History} (counted ∷ []) (counted ∷ []))
adsb-eq-bad_request_example =
    adsb-eq-bad_request clock service plain deaf_deku pools payload [] (counted ∷ []) unparsed
