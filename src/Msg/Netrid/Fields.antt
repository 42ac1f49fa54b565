-- ===== src/Msg/Netrid/Fields.antt =====
-- The field enumerations of server/src/msg/netrid.rs, with the discriminants that they are
-- transmitted as, and the reading of a discriminant back (`from_primitive`).
use svc_telemetry.Base.{ℕ, List, [], ◌∷◌, ◌==◌, if◌then◌else◌}
use mathlib.Core.Option.{Option}

-- The first value in a list of all values that has the discriminant `n`.
unfoldable pub from_primitive : {A : Type 0} → (A → ℕ) → List A → ℕ → Option A
from_primitive code [] n = Option.none
from_primitive code (x ∷ xs) n = if code x == n then Option.some x else from_primitive code xs n

pub data MessageType : Type 0 where
  basic location authentication self_id system operator_id message_pack : MessageType

abbrev pub message_type_code : MessageType → ℕ
message_type_code MessageType.basic = 0
message_type_code MessageType.location = 1
message_type_code MessageType.authentication = 2
message_type_code MessageType.self_id = 3
message_type_code MessageType.system = 4
message_type_code MessageType.operator_id = 5
message_type_code MessageType.message_pack = 15

pub data UaType : Type 0 where
  undeclared aeroplane rotorcraft gyroplane hybrid_lift ornithopter glider kite free_balloon
        captive_balloon airship unpowered rocket tethered ground_obstacle other :
      UaType

abbrev pub ua_type_code : UaType → ℕ
ua_type_code UaType.undeclared = 0
ua_type_code UaType.aeroplane = 1
ua_type_code UaType.rotorcraft = 2
ua_type_code UaType.gyroplane = 3
ua_type_code UaType.hybrid_lift = 4
ua_type_code UaType.ornithopter = 5
ua_type_code UaType.glider = 6
ua_type_code UaType.kite = 7
ua_type_code UaType.free_balloon = 8
ua_type_code UaType.captive_balloon = 9
ua_type_code UaType.airship = 10
ua_type_code UaType.unpowered = 11
ua_type_code UaType.rocket = 12
ua_type_code UaType.tethered = 13
ua_type_code UaType.ground_obstacle = 14
ua_type_code UaType.other = 15

pub data IdType : Type 0 where
  none serial_number caa_assigned utm_assigned specific_session : IdType

abbrev pub id_type_code : IdType → ℕ
id_type_code IdType.none = 0
id_type_code IdType.serial_number = 1
id_type_code IdType.caa_assigned = 2
id_type_code IdType.utm_assigned = 3
id_type_code IdType.specific_session = 4

pub data OperationalStatus : Type 0 where
  undeclared ground airborne emergency system_failure : OperationalStatus

abbrev pub operational_status_code : OperationalStatus → ℕ
operational_status_code OperationalStatus.undeclared = 0
operational_status_code OperationalStatus.ground = 1
operational_status_code OperationalStatus.airborne = 2
operational_status_code OperationalStatus.emergency = 3
operational_status_code OperationalStatus.system_failure = 4

pub data HorizontalAccuracyMeters : Type 0 where
  gte18520 lt18520 lt7408 lt3704 lt1852 lt926 lt555_6 lt185_2 lt92_6 lt30 lt10 lt3 lt1 :
      HorizontalAccuracyMeters

abbrev pub horizontal_accuracy_meters_code : HorizontalAccuracyMeters → ℕ
horizontal_accuracy_meters_code HorizontalAccuracyMeters.gte18520 = 0
horizontal_accuracy_meters_code HorizontalAccuracyMeters.lt18520 = 1
horizontal_accuracy_meters_code HorizontalAccuracyMeters.lt7408 = 2
horizontal_accuracy_meters_code HorizontalAccuracyMeters.lt3704 = 3
horizontal_accuracy_meters_code HorizontalAccuracyMeters.lt1852 = 4
horizontal_accuracy_meters_code HorizontalAccuracyMeters.lt926 = 5
horizontal_accuracy_meters_code HorizontalAccuracyMeters.lt555_6 = 6
horizontal_accuracy_meters_code HorizontalAccuracyMeters.lt185_2 = 7
horizontal_accuracy_meters_code HorizontalAccuracyMeters.lt92_6 = 8
horizontal_accuracy_meters_code HorizontalAccuracyMeters.lt30 = 9
horizontal_accuracy_meters_code HorizontalAccuracyMeters.lt10 = 10
horizontal_accuracy_meters_code HorizontalAccuracyMeters.lt3 = 11
horizontal_accuracy_meters_code HorizontalAccuracyMeters.lt1 = 12

pub data VerticalAccuracyMeters : Type 0 where
  gte150_unknown lt150 lt45 lt25 lt10 lt3 lt1 : VerticalAccuracyMeters

abbrev pub vertical_accuracy_meters_code : VerticalAccuracyMeters → ℕ
vertical_accuracy_meters_code VerticalAccuracyMeters.gte150_unknown = 0
vertical_accuracy_meters_code VerticalAccuracyMeters.lt150 = 1
vertical_accuracy_meters_code VerticalAccuracyMeters.lt45 = 2
vertical_accuracy_meters_code VerticalAccuracyMeters.lt25 = 3
vertical_accuracy_meters_code VerticalAccuracyMeters.lt10 = 4
vertical_accuracy_meters_code VerticalAccuracyMeters.lt3 = 5
vertical_accuracy_meters_code VerticalAccuracyMeters.lt1 = 6

pub data SpeedAccuracyMetersPerSecond : Type 0 where
  gte10_unknown lt10 lt3 lt1 lt0_3 : SpeedAccuracyMetersPerSecond

abbrev pub speed_accuracy_meters_per_second_code : SpeedAccuracyMetersPerSecond → ℕ
speed_accuracy_meters_per_second_code SpeedAccuracyMetersPerSecond.gte10_unknown = 0
speed_accuracy_meters_per_second_code SpeedAccuracyMetersPerSecond.lt10 = 1
speed_accuracy_meters_per_second_code SpeedAccuracyMetersPerSecond.lt3 = 2
speed_accuracy_meters_per_second_code SpeedAccuracyMetersPerSecond.lt1 = 3
speed_accuracy_meters_per_second_code SpeedAccuracyMetersPerSecond.lt0_3 = 4

pub data OperatorLocationSource : Type 0 where
  takeoff dynamic fixed : OperatorLocationSource

abbrev pub operator_location_source_code : OperatorLocationSource → ℕ
operator_location_source_code OperatorLocationSource.takeoff = 0
operator_location_source_code OperatorLocationSource.dynamic = 1
operator_location_source_code OperatorLocationSource.fixed = 2

pub data UaClassification : Type 0 where
  undeclared european_union : UaClassification

abbrev pub ua_classification_code : UaClassification → ℕ
ua_classification_code UaClassification.undeclared = 0
ua_classification_code UaClassification.european_union = 1

pub data EuropeanUnionCategory : Type 0 where
  undefined open_category specific certified : EuropeanUnionCategory

abbrev pub european_union_category_code : EuropeanUnionCategory → ℕ
european_union_category_code EuropeanUnionCategory.undefined = 0
european_union_category_code EuropeanUnionCategory.open_category = 1
european_union_category_code EuropeanUnionCategory.specific = 2
european_union_category_code EuropeanUnionCategory.certified = 3

pub data EuropeanUnionClass : Type 0 where
  undefined c0 c1 c2 c3 c4 c5 c6 : EuropeanUnionClass

abbrev pub european_union_class_code : EuropeanUnionClass → ℕ
european_union_class_code EuropeanUnionClass.undefined = 0
european_union_class_code EuropeanUnionClass.c0 = 1
european_union_class_code EuropeanUnionClass.c1 = 2
european_union_class_code EuropeanUnionClass.c2 = 3
european_union_class_code EuropeanUnionClass.c3 = 4
european_union_class_code EuropeanUnionClass.c4 = 5
european_union_class_code EuropeanUnionClass.c5 = 6
european_union_class_code EuropeanUnionClass.c6 = 7

pub data UaAuthenticationType : Type 0 where
  none uas_id_signature operator_id_signature message_set_signature network_remote_id
        specific_auth_method :
      UaAuthenticationType

abbrev pub ua_authentication_type_code : UaAuthenticationType → ℕ
ua_authentication_type_code UaAuthenticationType.none = 0
ua_authentication_type_code UaAuthenticationType.uas_id_signature = 1
ua_authentication_type_code UaAuthenticationType.operator_id_signature = 2
ua_authentication_type_code UaAuthenticationType.message_set_signature = 3
ua_authentication_type_code UaAuthenticationType.network_remote_id = 4
ua_authentication_type_code UaAuthenticationType.specific_auth_method = 5

pub data HeightType : Type 0 where
  above_takeoff above_ground_level : HeightType

abbrev pub height_type_code : HeightType → ℕ
height_type_code HeightType.above_takeoff = 0
height_type_code HeightType.above_ground_level = 1

pub data EastWestDirection : Type 0 where
  east west : EastWestDirection

abbrev pub east_west_direction_code : EastWestDirection → ℕ
east_west_direction_code EastWestDirection.east = 0
east_west_direction_code EastWestDirection.west = 1

pub data SpeedMultiplier : Type 0 where
  x0_25 x0_75 : SpeedMultiplier

abbrev pub speed_multiplier_code : SpeedMultiplier → ℕ
speed_multiplier_code SpeedMultiplier.x0_25 = 0
speed_multiplier_code SpeedMultiplier.x0_75 = 1
