-- ===== src/Client/Repeats/Tests.antt =====
-- The client of client-rest/examples/rest.rs against a counting Redis.
use svc_telemetry.Base.{
  ℕ, zero, suc, ◌-◌, ◌<◌, ◌≡◌, refl, arith, ◌⊎◌, ◌&&◌, List, [], ◌∷◌, Option, none, some, ok,
  length, replicate, leb, All, if◌then◌else◌,
}
use svc_telemetry.Base.Int.{ℤ, pos}
use svc_telemetry.Base.Text.{decimal_u32}
use svc_telemetry.World.{Bytes, History}
use svc_telemetry.Cache.Pool.Tests.{counting_redis-IsCounting}
use svc_telemetry.Rest.Server.Tests.{site, route_list-IsAxum}
use svc_telemetry.Client.{Library, Delivery}
use svc_telemetry.Cache.Pool.Counting.{incrs}
use svc_telemetry.Rest.Server.Reports.{Report, counts}
use svc_telemetry.Client.Repeats.{Evaluation, unexpected_code, as_expected, adsb}
use svc_telemetry.Client.Repeats.Answers.{adsb-answered}

-- One digit.
abbrev read_digit : Bytes → Option ℤ
read_digit (d ∷ []) = if leb 48 d && leb d 57 then some (pos (d - 48)) else none
read_digit _ = none

digit_read : (n : ℕ) → n < 10 → read_digit (decimal_u32 n) ≡ some (pos n)
unfolding decimal_u32
digit_read zero h = refl
digit_read (suc zero) h = refl
digit_read (suc (suc zero)) h = refl
digit_read (suc (suc (suc zero))) h = refl
digit_read (suc (suc (suc (suc zero)))) h = refl
digit_read (suc (suc (suc (suc (suc zero))))) h = refl
digit_read (suc (suc (suc (suc (suc (suc zero)))))) h = refl
digit_read (suc (suc (suc (suc (suc (suc (suc zero))))))) h = refl
digit_read (suc (suc (suc (suc (suc (suc (suc (suc zero)))))))) h = refl
digit_read (suc (suc (suc (suc (suc (suc (suc (suc (suc zero))))))))) h = refl
digit_read (suc (suc (suc (suc (suc (suc (suc (suc (suc (suc n)))))))))) h = absurd (omega arith)

abbrev library : Library
library = record {
  pack_basic = λ m. none;
  pack_frame = λ f. none;
  delivery = λ n h. Delivery.answered;
  json_string = λ t. t;
  json_number = λ n. decimal_u32 n;
}

nothing_counted : (r : Report) → All (λ b. b < 256) r.payload → counts [] r ≡ 0
unfolding incrs
nothing_counted r hr = refl

adsb-answered_example :
    (es : List Evaluation) × (h' : History) × (adsb library read_digit site []
      ≡ (ok (es, replicate 5 as_expected), h'))
    × (length es ≡ 5)
    × All (λ e. (e ≡ as_expected) ⊎ (e ≡ unexpected_code)) es
adsb-answered_example =
    adsb-answered library read_digit site route_list-IsAxum counting_redis-IsCounting refl
      (λ n h. refl) digit_read [] nothing_counted
