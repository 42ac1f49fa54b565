-- ===== src/Rest/Server/Concurrent/Tests.antt =====
-- Two reports of one ADS-B packet in flight, interleaved: server/src/rest/server.rs.
use svc_telemetry.Base.{◌≤◌, ◌≡◌, refl, arith, List, [], ◌∷◌, same}
use svc_telemetry.Base.Text.{codes}
use svc_telemetry.World.{Event, pipeline, publish, insert, History}
use svc_telemetry.World.Tally.{tally}
use svc_telemetry.Cache.{bytes_to_key}
use svc_telemetry.Msg.Adsb.{get_adsb_icao_address, get_adsb_message_type}
use svc_telemetry.Rest.Adsb as Adsb
use svc_telemetry.Rest.Adsb.Tests.{payload}
use svc_telemetry.Amqp.Topology.{topology}
use svc_telemetry.Rest.Server.{serve, service_pools}
use svc_telemetry.Cache.Pool.Counting.{incrs}
use svc_telemetry.Cache.Pool.Quiet.{push_steps}
use svc_telemetry.Cache.Pool.Tests.{counting_redis-IsCounting}
use svc_telemetry.Rest.Server.Marks.{publishes, inserts}
use svc_telemetry.Rest.Server.Tests.{site, adsb_report, host, config, begun, started, payload_bytes}
use svc_telemetry.Rest.Server.Concurrent.{Task, Interleaved, start, accept, send}
use svc_telemetry.Rest.Server.Concurrent.Once.{Interleaved-once}
use svc_telemetry.Rest.Adsb.Duplicates.{packet_key, counting}

abbrev count_it : Event
count_it = counting service_pools payload

-- The task that counts first: the other one counts next.
abbrev first_view : History → History
first_view [] = topology []
first_view (e ∷ []) = count_it ∷ e ∷ topology []
first_view (e ∷ s) = e ∷ first_view s

-- The other one.
abbrev second_view : History → History
second_view [] = count_it ∷ topology []
second_view (e ∷ s) = e ∷ second_view s

abbrev push_it : Event
push_it = pipeline (push_steps (codes "gis:id") (codes "id"))

abbrev publish_it : Event
publish_it = publish (codes "telemetry") (codes "adsb") payload

abbrev insert_it : Event
insert_it = insert 0x40621d 17 payload

abbrev first_task : History → List Event → Task
first_task sent left = record { request = adsb_report; view = first_view; sent = sent; left = left }

abbrev second_task : History → List Event → Task
second_task sent left = record {
  request = adsb_report;
  view = second_view;
  sent = sent;
  left = left;
}

both_begun :
    Interleaved site
      (second_task [] (count_it ∷ [])
        ∷ first_task [] (count_it ∷ push_it ∷ publish_it ∷ insert_it ∷ [])
        ∷ [])
      (topology [])
unfolding serve Adsb.adsb same get_adsb_icao_address get_adsb_message_type bytes_to_key incrs
both_begun = accept adsb_report second_view _ (topology []) payload_bytes (
    accept adsb_report first_view [] (topology []) payload_bytes
      (start host config begun (topology []) started refl refl))

-- The first task counts, then the second; the first goes on.
abbrev counted_both : History
counted_both = count_it ∷ count_it ∷ topology []

abbrev all_sent : History
all_sent = insert_it ∷ publish_it ∷ push_it ∷ counted_both

interleaved :
    Interleaved site
      (second_task (count_it ∷ []) []
        ∷ first_task (insert_it ∷ publish_it ∷ push_it ∷ count_it ∷ []) []
        ∷ [])
      all_sent
interleaved =
    let done : List Task = second_task (count_it ∷ []) [] ∷ [] in
    let i1 =
      send (second_task [] (count_it ∷ []) ∷ []) adsb_report first_view [] count_it
        (push_it ∷ publish_it ∷ insert_it ∷ []) [] (topology []) refl both_begun in
    let i2 =
      send [] adsb_report second_view [] count_it []
        (first_task (count_it ∷ []) (push_it ∷ publish_it ∷ insert_it ∷ []) ∷ [])
        (count_it ∷ topology []) refl i1 in
    let i3 =
      send done adsb_report first_view (count_it ∷ []) push_it (publish_it ∷ insert_it ∷ []) []
        counted_both refl i2 in
    let i4 =
      send done adsb_report first_view (push_it ∷ count_it ∷ []) publish_it (insert_it ∷ []) []
        (push_it ∷ counted_both) refl i3 in
    send done adsb_report first_view (publish_it ∷ push_it ∷ count_it ∷ []) insert_it [] []
      (publish_it ∷ push_it ∷ counted_both) refl i4

counted_twice : incrs (packet_key service_pools payload) all_sent ≡ 2
unfolding incrs same bytes_to_key
counted_twice = refl

passed_on : tally (publishes payload) all_sent ≡ 1
unfolding tally same
passed_on = refl

Interleaved-once_example :
    (tally (publishes payload) all_sent ≤ 1)
    × (tally (inserts payload) all_sent ≤ 1)
    × (tally (publishes payload) all_sent ≤ incrs (packet_key service_pools payload) all_sent)
    × (tally (inserts payload) all_sent ≤ incrs (packet_key service_pools payload) all_sent)
Interleaved-once_example =
    Interleaved-once site counting_redis-IsCounting payload payload_bytes _ all_sent interleaved
      (omega (arith, counted_twice))
