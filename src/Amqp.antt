-- ===== src/Amqp.antt =====
-- RabbitMQ: server/src/amqp/mod.rs and server/src/amqp/pool.rs. The names of the exchange, the queues
-- and the routing keys, and the setting up of the broker, whose answers are a parameter.
pub mod Topology
mod Tests
use svc_telemetry.Base.{
  ℕ, Bool, true, false, List, [], ◌∷◌, Option, none, some, Result, ok, err, ok_or, if◌then◌else◌,
}
use svc_telemetry.Base.Text.{codes}
use svc_telemetry.World.{
  Bytes, Event, exchange_declare, queue_declare, queue_bind, History, Io, ◌>>=◌, ◌>>◌, return, lift,
}

abbrev pub exchange_name_telemetry : List ℕ
exchange_name_telemetry = codes "telemetry"

abbrev pub queue_name_adsb : List ℕ
queue_name_adsb = codes "adsb"

abbrev pub routing_key_adsb : List ℕ
routing_key_adsb = codes "adsb"

abbrev pub queue_name_netrid_id : List ℕ
queue_name_netrid_id = codes "netrid_id"

abbrev pub queue_name_netrid_position : List ℕ
queue_name_netrid_position = codes "netrid_pos"

abbrev pub queue_name_netrid_velocity : List ℕ
queue_name_netrid_velocity = codes "netrid_vel"

abbrev pub routing_key_netrid_id : List ℕ
routing_key_netrid_id = codes "netrid:id"

abbrev pub routing_key_netrid_position : List ℕ
routing_key_netrid_position = codes "netrid:pos"

abbrev pub routing_key_netrid_velocity : List ℕ
routing_key_netrid_velocity = codes "netrid:vel"

pub data AmqpError : Type 0 where
  could_not_publish could_not_connect missing_configuration could_not_create_channel : AmqpError
  could_not_declare_queue could_not_bind_queue could_not_declare_exchange : AmqpError

-- The configured address and the outcomes of the calls of deadpool_lapin and lapin.
pub record Broker : Type 0 where
  pub url : Option Bytes
  pub creates_pool : Bool
  pub connects : Bool
  pub creates_channel : Bool
  pub accepts : History → Event → Bool

check : Bool → AmqpError → Result AmqpError (Unit {0})
check b e = if b then ok tt else err e

module _ (broker : Broker) where
  -- `AMQPPool::new`, then `get_connection`.
  new_pool : Io AmqpError (Unit {0})
  unfolding check
  new_pool = do
    url ← lift (ok_or broker.url missing_configuration)
    lift (check broker.creates_pool could_not_connect)

  get_connection : Io AmqpError (Unit {0})
  unfolding check
  get_connection = lift (check broker.connects could_not_connect)

  -- A declaration joins the history when the broker accepts it.
  declare : AmqpError → Event → Io AmqpError (Unit {0})
  declare e x h = if broker.accepts h x then (ok tt, x ∷ h) else (err e, h)

  -- The loop over the queues.
  create_queues : List (Bytes × Bytes) → Io AmqpError (Unit {0})
  unfolding declare
  create_queues [] = return tt
  create_queues ((queue, routing_key) ∷ queues) = do
    declare could_not_declare_queue (queue_declare queue)
    declare could_not_bind_queue (queue_bind queue exchange_name_telemetry routing_key)
    create_queues queues

  open_channel : Io AmqpError (Unit {0})
  unfolding new_pool get_connection check
  open_channel = do
    new_pool
    get_connection
    lift (check broker.creates_channel could_not_create_channel)

  set_up : Io AmqpError (Unit {0})
  unfolding create_queues
  set_up = do
    declare could_not_declare_exchange (exchange_declare exchange_name_telemetry)
    create_queues (
        (queue_name_adsb, routing_key_adsb)
        ∷ (queue_name_netrid_id, routing_key_netrid_id)
        ∷ (queue_name_netrid_position, routing_key_netrid_position)
        ∷ (queue_name_netrid_velocity, routing_key_netrid_velocity)
        ∷ [])

  unfoldable pub init_mq : Io AmqpError (Unit {0})
  unfolding open_channel set_up
  init_mq = do open_channel; set_up
