-- ===== src/Amqp/Topology.antt =====
-- What init_mq of server/src/amqp/mod.rs has set up in RabbitMQ when it returns.
use svc_telemetry.Base.{◌≡◌, refl, ◌∙◌, ap, arith, true, List, [], ◌∷◌, some, ok}
use svc_telemetry.World.{Bytes, Event, exchange_declare, queue_declare, queue_bind, History, ◌>>=◌}
use svc_telemetry.World.Effects.{bind_ok, bind-eq-ok}
use svc_telemetry.Amqp.{
  open_channel, set_up, exchange_name_telemetry, queue_name_adsb, routing_key_adsb,
  queue_name_netrid_id, queue_name_netrid_position, queue_name_netrid_velocity,
  routing_key_netrid_id, routing_key_netrid_position, routing_key_netrid_velocity, AmqpError,
  Broker, declare, create_queues, init_mq,
}

-- The declarations of a list of queues, newest first, on top of a history.
abbrev pub declared : List (Bytes × Bytes) → History → History
declared [] h = h
declared ((queue, routing_key) ∷ queues) h =
    declared queues (queue_bind queue exchange_name_telemetry routing_key ∷ queue_declare queue ∷ h)

abbrev queues_in_order : List (Bytes × Bytes)
queues_in_order =
    (queue_name_adsb, routing_key_adsb)
    ∷ (queue_name_netrid_id, routing_key_netrid_id)
    ∷ (queue_name_netrid_position, routing_key_netrid_position)
    ∷ (queue_name_netrid_velocity, routing_key_netrid_velocity)
    ∷ []

-- The exchange, and the four queues in the order of the code.
abbrev pub topology : History → History
topology h = declared queues_in_order (exchange_declare exchange_name_telemetry ∷ h)

-- A broker that is configured, up, and accepts every declaration.
pub record IsUp (b : Broker) : Type 0 where
  pub address : (url : Bytes) × (b.url ≡ some url)
  pub pool : b.creates_pool ≡ true
  pub connection : b.connects ≡ true
  pub channel : b.creates_channel ≡ true
  pub acceptance : (h : History) (x : Event) → b.accepts h x ≡ true

module _ (b : Broker) where
  create_queues-eq-ok :
      (queues : List (Bytes × Bytes)) (h h' : History)
      → create_queues b queues h ≡ (ok tt, h')
      → h' ≡ declared queues h
  unfolding create_queues
  create_queues-eq-ok [] h h' e = cc
  create_queues-eq-ok ((q, k) ∷ queues) h h' e = ground (
    arith,
    create_queues-eq-ok queues (queue_bind q exchange_name_telemetry k ∷ queue_declare q ∷ h) h',
  )

  declare-eq-ok :
      (e : AmqpError) (x : Event) (h h' : History) → declare b e x h ≡ (ok tt, h') → h' ≡ x ∷ h
  unfolding declare
  declare-eq-ok e x h h' p = ground arith

  declare-IsUp :
      (e : AmqpError) (x : Event) (h : History) → IsUp b → declare b e x h ≡ (ok tt, x ∷ h)
  unfolding declare
  declare-IsUp e x h up = rw (up.acceptance h x) refl

  create_queues-IsUp :
      (queues : List (Bytes × Bytes)) (h : History)
      → IsUp b
      → create_queues b queues h ≡ (ok tt, declared queues h)
  unfolding create_queues
  create_queues-IsUp [] h up = refl
  create_queues-IsUp ((q, k) ∷ queues) h up =
      let bind =
        declare b AmqpError.could_not_bind_queue (queue_bind q exchange_name_telemetry k) in
      bind_ok (declare b AmqpError.could_not_declare_queue (queue_declare q))
        (λ u. bind >>= λ u. create_queues b queues) tt h (queue_declare q ∷ h)
        (declare-IsUp AmqpError.could_not_declare_queue (queue_declare q) h up)
      ∙ bind_ok bind (λ u. create_queues b queues) tt (queue_declare q ∷ h)
          (queue_bind q exchange_name_telemetry k ∷ queue_declare q ∷ h)
          (declare-IsUp AmqpError.could_not_bind_queue (queue_bind q exchange_name_telemetry k)
            (queue_declare q ∷ h) up)
      ∙ create_queues-IsUp queues (queue_bind q exchange_name_telemetry k ∷ queue_declare q ∷ h) up

  open_channel-eq-ok : (h h' : History) → open_channel b h ≡ (ok tt, h') → h' ≡ h
  unfolding open_channel
  open_channel-eq-ok h h' e = ground arith

  open_channel-IsUp : (h : History) → IsUp b → open_channel b h ≡ (ok tt, h)
  unfolding open_channel
  open_channel-IsUp h up = ground (arith, up.address.1, up.pool, up.connection, up.channel)

  set_up-eq-ok : (h h' : History) → set_up b h ≡ (ok tt, h') → h' ≡ topology h
  unfolding set_up
  set_up-eq-ok h h' e =
      let exchange = exchange_declare exchange_name_telemetry in
      let (u, h1, p, q) =
        bind-eq-ok (declare b AmqpError.could_not_declare_exchange exchange)
          (λ u. create_queues b queues_in_order) tt h h' e in
      create_queues-eq-ok queues_in_order h1 h' q
      ∙ ap (declared queues_in_order)
          (declare-eq-ok AmqpError.could_not_declare_exchange exchange h h1 p)

  set_up-IsUp : (h : History) → IsUp b → set_up b h ≡ (ok tt, topology h)
  unfolding set_up
  set_up-IsUp h up =
      bind_ok
        (declare b AmqpError.could_not_declare_exchange (exchange_declare exchange_name_telemetry))
        (λ u. create_queues b queues_in_order) tt h (exchange_declare exchange_name_telemetry ∷ h)
        (declare-IsUp AmqpError.could_not_declare_exchange
          (exchange_declare exchange_name_telemetry) h up)
      ∙ create_queues-IsUp queues_in_order (exchange_declare exchange_name_telemetry ∷ h) up

  -- When init_mq succeeds, RabbitMQ has accepted the exchange and then each of the four queues with
  -- its binding, in the order of the code, and nothing else.
  pub init_mq-eq-ok : (h h' : History) → init_mq b h ≡ (ok tt, h') → h' ≡ topology h
  unfolding init_mq
  init_mq-eq-ok h h' e =
      let (u, h1, p, q) = bind-eq-ok (open_channel b) (λ u. set_up b) tt h h' e in
      set_up-eq-ok h1 h' q ∙ ap topology (open_channel-eq-ok h h1 p)

  -- With a broker that is configured, up, and accepts every declaration, init_mq succeeds, and what it
  -- has declared is the exchange and then each of the four queues with its binding.
  pub init_mq-IsUp : (h : History) → IsUp b → init_mq b h ≡ (ok tt, topology h)
  unfolding init_mq
  init_mq-IsUp h up =
      bind_ok (open_channel b) (λ u. set_up b) tt h h (open_channel-IsUp h up) ∙ set_up-IsUp h up
