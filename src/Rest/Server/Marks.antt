-- ===== src/Rest/Server/Marks.antt =====
-- Measures of a history that tell one ADS-B packet from the others, and what the telemetry handlers of
-- server/src/rest/api/ add to them.
use svc_telemetry.Base.{
  ℕ, ◌+◌, ◌≤◌, ◌<◌, ◌≡◌, refl, ◌∙◌, ap, arith, true, ◌&&◌, List, [], ◌∷◌, All, same, same_ext,
  if◌then◌else◌,
}
use svc_telemetry.World.{Event, publish, insert, pipeline, Step, Bytes, History}
use svc_telemetry.World.Tally.{tally, Adds}
use svc_telemetry.Amqp.{exchange_name_telemetry, routing_key_adsb}
use svc_telemetry.Cache.{bytes_to_key}
use svc_telemetry.Cache.Keys.{bytes_to_key-injective}
use svc_telemetry.Cache.Pool.Pipelines.{increment_steps}
use svc_telemetry.Cache.Pool.Quiet.{IsIdle}
use svc_telemetry.Cache.Pool.Counting.{event_incrs, event_incrs-increment_steps}
use svc_telemetry.Rest.Netrid as Netrid
use svc_telemetry.Rest.Jwt.{Claim}
use svc_telemetry.Rest.Netrid.Replies.{counting as netrid_counting}
use svc_telemetry.Rest.Netrid.Quiet.{IsUnheard}
use svc_telemetry.Rest.Netrid.Weights.{network_remote_id-Adds}
use svc_telemetry.Rest.Adsb as Adsb
use svc_telemetry.Rest.Adsb.Weights.{IsLight, adsb-Adds}
use svc_telemetry.Rest.Adsb.Duplicates.{packet_key, counting}
use svc_telemetry.Rest.Server.{Site, service_pools}
use svc_telemetry.Rest.Server.Runs.{is_declaration}

-- The INCRs of an ADS-B packet's key are the reports of that packet.
pub netrid_incrs :
    (p : Bytes) (key : Bytes) (ms : ℕ)
    → event_incrs
        (packet_key service_pools p)
        (pipeline (increment_steps service_pools.netrid key ms))
      ≡ 0
unfolding same
netrid_incrs p key ms =
    event_incrs-increment_steps service_pools.netrid key (packet_key service_pools p) ms

pub adsb_incrs :
    (p q : Bytes)
    → All (λ b. b < 256) p
    → All (λ b. b < 256) q
    → event_incrs (packet_key service_pools p) (counting service_pools q)
      ≡ (if same p q then 1 else 0)
unfolding same
adsb_incrs p q hp hq =
    let e =
      same_ext (bytes_to_key p) (bytes_to_key q) p q (bytes_to_key-injective p q hp hq)
        (λ w. ap bytes_to_key w) in
    event_incrs-increment_steps service_pools.adsb (bytes_to_key q) (packet_key service_pools p) _
    ∙ rw e refl

-- What counts the messages, or the records, of one packet only.
pub record IsMark (p : Bytes) (weigh : Event → ℕ) : Type 0 where
  pub pipelines : (steps : List Step) → weigh (pipeline steps) ≡ 0
  pub unheard : IsUnheard weigh
  pub declared : (e : Event) → is_declaration e ≡ true → weigh e ≡ 0
  pub light : (q : Bytes) → IsLight weigh q (if same p q then 1 else 0)

-- The messages with a packet under the routing key of ADS-B.
abbrev pub publishes : Bytes → Event → ℕ
publishes p (publish exchange routing_key msg) =
    if same exchange exchange_name_telemetry && (same routing_key routing_key_adsb && same p msg)
    then 1
    else 0
publishes p _ = 0

-- The records of a packet.
abbrev pub inserts : Bytes → Event → ℕ
inserts p (insert icao message_type payload) = if same p payload then 1 else 0
inserts p _ = 0

pub publishes-IsMark : (p : Bytes) → IsMark p (publishes p)
unfolding same
publishes-IsMark p = record {
  pipelines = λ steps. refl;
  unheard = record { id = λ m. refl; position = λ m. refl; velocity = λ m. refl };
  declared = λ e d. ground arith;
  light = λ q icao. ground arith;
}

pub inserts-IsMark : (p : Bytes) → IsMark p (inserts p)
inserts-IsMark p = record {
  pipelines = λ steps. refl;
  unheard = record { id = λ m. refl; position = λ m. refl; velocity = λ m. refl };
  declared = λ e d. ground arith;
  light = λ q icao. ground arith;
}

pub declared_tally :
    (weigh : Event → ℕ) (h : History)
    → ((e : Event) → is_declaration e ≡ true → weigh e ≡ 0)
    → All (λ e. is_declaration e ≡ true) h
    → tally weigh h ≡ 0
unfolding tally
declared_tally weigh [] f d = refl
declared_tally weigh (e ∷ h) f (d, ds) = omega (arith, f e d, declared_tally weigh h f ds)

pub event_incrs-declared : (k : Bytes) (e : Event) → is_declaration e ≡ true → event_incrs k e ≡ 0
unfolding event_incrs
event_incrs-declared k e d = ground arith

pub incrs-IsUnheard : (k : Bytes) → IsUnheard (event_incrs k)
unfolding event_incrs
incrs-IsUnheard k = record { id = λ m. refl; position = λ m. refl; velocity = λ m. refl }

pub incrs-IsLight : (k q : Bytes) → IsLight (event_incrs k) q 0
unfolding event_incrs
incrs-IsLight k q icao = omega arith

module _ (site : Site) where
  open site use {chrono, service, libm, deku, unpack}

  unfoldable pub netrid_handler : Claim → Bytes → History → History
  netrid_handler claim q h =
      (Netrid.network_remote_id chrono service unpack service_pools claim q h).1

  unfoldable pub adsb_handler : Bytes → History → History
  adsb_handler q h = (Adsb.adsb chrono service libm deku service_pools q h).1

  module _ (weigh : Event → ℕ) (idle : IsIdle (service.backends) weigh) where
    pub netrid_tally :
        (claim : Claim) (q : Bytes) (h : History)
        → IsUnheard weigh
        → weigh (netrid_counting chrono service unpack service_pools q) ≡ 0
        → tally weigh (netrid_handler claim q h) ≡ tally weigh h
    unfolding netrid_handler Adds
    netrid_tally claim q h un z =
        let (a, b) =
          network_remote_id-Adds chrono service unpack weigh idle un service_pools claim q h in
        omega (arith, a, b, z)

    pub adsb_tally :
        (q : Bytes) (n : ℕ) (h : History)
        → IsLight weigh q n
        → (tally weigh h ≤ tally weigh (adsb_handler q h))
          × (tally weigh (adsb_handler q h) ≤ weigh (counting service_pools q) + n + tally weigh h)
    unfolding adsb_handler Adds
    adsb_tally q n h light = adsb-Adds chrono service libm deku weigh idle service_pools q n light h
