-- ===== src/Rest/Gis.antt =====
-- The items that the handlers push for svc-gis: the types of its client library, with the fields that
-- server/src/rest/api/ fills in. `T` is the type of times.
use svc_telemetry.Base.{ℕ, List, Option}
use svc_telemetry.Float.{Float}

pub data AircraftType : Type 0 where
  undeclared aeroplane rotorcraft gyroplane hybridlift ornithopter glider kite : AircraftType
  freeballoon captiveballoon airship unpowered rocket tethered groundobstacle other : AircraftType

pub record AircraftId (T : Type 0) : Type 0 where
  pub identifier : Option (List ℕ)
  pub session_id : Option (List ℕ)
  pub aircraft_type : AircraftType
  pub timestamp_network : T
  pub timestamp_asset : Option T

pub record Position : Type 0 where
  pub latitude : Float
  pub longitude : Float
  pub altitude_meters : Float

pub record AircraftPosition (T : Type 0) : Type 0 where
  pub identifier : List ℕ
  pub position : Position
  pub timestamp_network : T
  pub timestamp_asset : Option T

pub record AircraftVelocity (T : Type 0) : Type 0 where
  pub identifier : List ℕ
  pub velocity_vertical_mps : Float
  pub velocity_horizontal_ground_mps : Float
  pub velocity_horizontal_air_mps : Option Float
  pub track_angle_degrees : Float
  pub timestamp_asset : Option T
  pub timestamp_network : T
