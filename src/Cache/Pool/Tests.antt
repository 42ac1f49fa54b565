-- ===== src/Cache/Pool/Tests.antt =====
-- Two concrete Redis servers, and the theorems on server/src/cache/ applied to them.
use svc_telemetry.Base.{
  ℕ, zero, suc, ◌≡◌, refl, ◌≢◌, arith, true, List, [], ◌∷◌, Option, some, none, length, ok, err,
  false, ◌⊎◌,
}
use svc_telemetry.Base.Int.{pos}
use svc_telemetry.Base.Text.{codes, parse_u32}
use svc_telemetry.World.{
  Value, Values, end, more, to_list, reported, Command, incr, lpush, Step, pipeline, History,
  Backends, IsPipelined,
}
use svc_telemetry.Cache.Keys.{bytes_to_key-injective}
use svc_telemetry.Cache.Pool.{
  TelemetryPool, could_not_connect, operation_failed, increment, multiple_set, multiple_get,
}
use svc_telemetry.Cache.Pool.Pipelines.{
  increment_steps, increment_sends, multiple_set-ne-ok, multiple_get-ne-ok,
}
use svc_telemetry.Cache.Pool.Counting.{IsCounting, incrs, increment-incrs}

-- One 1 for each command that is reported.
abbrev ones : ℕ → Values
ones zero = end
ones (suc n) = more (Value.int (pos 1)) (ones n)

length-ones : (n : ℕ) → length (to_list (ones n)) ≡ n
length-ones zero = refl
length-ones (suc n) = omega (arith, length-ones n)

abbrev pub fresh_redis : Backends
fresh_redis = record {
  connects = λ h. true;
  answer = λ h p. some (Value.bulk (ones (reported p)));
  published = λ h. true;
  inserted = λ h. true;
}

pub fresh_redis-IsPipelined : IsPipelined fresh_redis
fresh_redis-IsPipelined = record {
  bulk_answer = λ h p v e. (ones (reported p), cc e, length-ones (reported p));
}

-- INCR is answered with the number of INCRs so far and one more, and LPUSH with a length.
abbrev count_answer : History → Command → Option Value
count_answer h (incr k) = some (Value.bulk (more (Value.int (pos (suc (incrs k h)))) end))
count_answer h (lpush list item) = some (Value.bulk (more (Value.int (pos 1)) end))
count_answer h c = none

abbrev counting_answer : History → List Step → Option Value
counting_answer h (s ∷ p) = count_answer h s.command
counting_answer h [] = none

abbrev pub counting_redis : Backends
counting_redis = record {
  connects = λ h. true;
  answer = counting_answer;
  published = λ h. true;
  inserted = λ h. true;
}

pub counting_redis-IsCounting : IsCounting counting_redis
counting_redis-IsCounting = record { connected = λ h. refl; counts = λ h pool key ms. refl }

abbrev folder : TelemetryPool
folder = record { key_folder = codes "tlm:adsb" }

abbrev packet_key : List ℕ
packet_key = codes "8d40621d"

-- The same without a connection.
abbrev down_redis : Backends
down_redis = record fresh_redis { connects = λ h. false }

increment_sends_example :
    ((false ≡ false)
      × (increment down_redis folder packet_key 10000 [] ≡ (err could_not_connect, [])))
    ⊎ ((false ≡ true)
        × ((increment down_redis folder packet_key 10000 []).1
            ≡ pipeline (increment_steps folder packet_key 10000) ∷ [])
        × (((n : ℕ) × ((increment down_redis folder packet_key 10000 []).0 ≡ ok n))
            ⊎ ((increment down_redis folder packet_key 10000 []).0 ≡ err operation_failed)))
increment_sends_example = increment_sends down_redis folder packet_key 10000 []

multiple_set-ne-ok_example :
    (multiple_set fresh_redis folder ((codes "a", codes "1") ∷ []) 1000 []).0 ≢ ok tt
multiple_set-ne-ok_example =
    multiple_set-ne-ok fresh_redis fresh_redis-IsPipelined folder ((codes "a", codes "1") ∷ []) 1000
      []

multiple_get-ne-ok_example :
    (multiple_get fresh_redis folder parse_u32 (codes "a" ∷ codes "b" ∷ []) []).0 ≢ ok (1 ∷ 2 ∷ [])
multiple_get-ne-ok_example =
    multiple_get-ne-ok fresh_redis fresh_redis-IsPipelined folder parse_u32
      (codes "a" ∷ codes "b" ∷ []) (1 ∷ 2 ∷ []) [] (omega arith)

-- The second packet of a key.
increment-incrs_example :
    increment counting_redis folder packet_key 10000
      (pipeline (increment_steps folder packet_key 10000) ∷ [])
    ≡ (
      ok 2,
      pipeline (increment_steps folder packet_key 10000)
          ∷ pipeline (increment_steps folder packet_key 10000)
          ∷ [],
    )
unfolding incrs
increment-incrs_example =
    increment-incrs counting_redis counting_redis-IsCounting folder packet_key 10000
      (pipeline (increment_steps folder packet_key 10000) ∷ []) (omega arith)

bytes_to_key-injective_example : ◌≡◌ {A = List ℕ} (0x8d ∷ 0x04 ∷ []) (0x8d ∷ 0x04 ∷ [])
bytes_to_key-injective_example =
    bytes_to_key-injective (0x8d ∷ 0x04 ∷ []) (0x8d ∷ 0x04 ∷ []) (omega arith, (omega arith, tt))
      (omega arith, (omega arith, tt)) refl
