-- ===== src/Lib.antt =====
-- The telemetry service svc-telemetry: it takes Network Remote ID and ADS-B packets over REST, drops
-- repeated ones by counting them in Redis, decodes them, pushes what they say to a Redis queue for
-- svc-gis, publishes it on RabbitMQ, and stores ADS-B packets with svc-storage.
--
-- Parts and files, with the code they model:
--   Msg/Netrid: server/src/msg/netrid.rs. The structs and enums of the messages and the codecs of the
--     location message (decode_direction, encode_direction and so on, under the same names).
--     Fields has the enums, Clock the time library that the timestamps use.
--   Msg/Adsb: server/src/msg/adsb.rs. Address, message type, altitude, CPR position, velocity. Cpr/Codes
--     has the codes of latitudes that decode_cpr is held against.
--   Cache: server/src/cache/mod.rs (bytes_to_key, TelemetryPools); Cache/Pool: server/src/cache/pool.rs
--     (GisPool::push, TelemetryPool::increment, multiple_set, multiple_get).
--   Rest/Jwt: server/src/rest/api/jwt.rs (Claim::create is create, Claim::decode is decode_claim).
--   Rest/Netrid: server/src/rest/api/netrid.rs (network_remote_id and what it calls).
--   Rest/Adsb: server/src/rest/api/adsb.rs (adsb); Rest/Adsb/Push its pushes for svc-gis.
--   Rest/Server: server/src/rest/server.rs. app is the router with its auth layer, serve a request
--     through router, layers and handler; Startup is rest_server up to serving (start_up). Runs has the
--     histories that the service reaches from a start by requests one after the other, Concurrent those
--     with requests in flight at the same time, Sessions the sessions of a client, Availability the
--     answer to the health check, Reports the service as an abstract counter of reports. Rest/OpenApi:
--     server/src/rest/mod.rs.
--   Config: server/src/config.rs (Config::new is new; try_from_env).
--   Grpc: server/src/grpc/client.rs (GrpcClients::default is default_clients), is_ready of
--     server/src/grpc/server.rs, and its callers in client-grpc/src/client.rs and client-grpc/src/grpc.rs.
--   Program: server/src/main.rs (main), grpc_server of server/src/grpc/server.rs, and the command
--     line (Cli) of server/src/lib.rs.
--   Client: client-rest/examples/netrid-flow.rs (netrid), run against the service of Rest/Server;
--     Client/Flow says what the two do together, Client/Text how a token comes out of its quotes, and
--     Client/Items what the pushes that reach the service send.
--     Client/Repeats: client-rest/examples/rest.rs (evaluate, adsb), against the same service.
--   Rest/Health: server/src/rest/api/health.rs. Rest/Status, Rest/Gis, Rest/Service: status codes, the
--     items for svc-gis, and what a handler runs with.
--   Amqp: server/src/amqp/mod.rs and server/src/amqp/pool.rs (the names, init_mq).
--   World: the effects. A handler is a function from the history of effects, newest first, to a
--     result and a longer history; `?` is the bind of Io. The answers of Redis, RabbitMQ and svc-storage
--     are functions of the history. World/Effects has the rules for such computations, and
--     World/Tally those for measures summed over a history, World/Extends that a history only grows.
--   Float: Rust's f32 and f64 with rounding to nearest, as an exact count of the smallest positive
--     number; Float/Exact says where rounding does nothing, Float/Near how far it moves a value, and
--     Float/Fixed has f64 on multiples of 2^-17.
--   Base: names of the libraries, Boolean tests, Rust's Result, i32 with wrap-around, text.
--   The Tests modules hold concrete inputs.
--
-- Parameters. Code that is not in the repository is an argument: the time library (Chrono), the
-- mathematical functions cos, acos and atan2 (Libm), the packet parsers (Unpack for packed_struct,
-- AdsbDeku), jsonwebtoken (JwtLibrary), axum's router (Axum), the config library (ConfigLibrary), the
-- libraries that the start calls (Host, ClientLibrary), those of the client (Client's Library),
-- tonic's channel (Channel), serde_json and the backends (Service, Backends, Broker). What
-- theorems rely on is a record of documented behaviour: IsClock, IsJwtLibrary, IsPipelined (a pipeline
-- is answered with one element for each command that is not ignored), IsCounting (INCR counts, while
-- the key does not expire), IsAxum (what `route` and `route_layer` add), IsConfigLibrary (the
-- environment overrides the defaults), IsPushing (Redis is up and answers a push with one value),
-- IsLibrary (packets unpack to what was packed), IsChannel (a call reaches the server, or fails), and
-- IsUp (a broker that accepts every declaration).
--
-- Bounds. Arithmetic on machine words wraps as in a release build. Rounding halves a number on fuel
-- 4096: the numbers that are rounded have less than 3300 bits, and at most one halving per bit is
-- needed. The integer square root has fuel 2048, one round for two bits; Float/Root shows that this is
-- enough. Everything else is structural recursion.
--
-- Lost requests. A request of a client may be lost on the way, or its answer may be; Delivery says which,
-- for each request of the client by its number.
--
-- Requests in flight. A task of Rest/Server/Concurrent has a view, which gives the history of the whole
-- service when its own is the argument; a step sends the next effect of one task where the view agrees
-- with the history so far. Tasks that never send again stand for requests that are dropped.
--
-- Not modelled: CORS, the rate and concurrency limits and the shutdown of the REST server; the tonic
-- server behind gRPC; logging; the mock pools for tests; generated code other than is_ready of the gRPC
-- client; the example adsb-flow.rs, the listener of netrid-flow.rs, and the last report of rest.rs, which
-- waits for a key to expire; the network timestamp of the record for svc-storage.
pub mod Base
pub mod Config
pub mod Grpc
pub mod Float
pub mod Msg
pub mod Program
pub mod World
pub mod Cache
pub mod Rest
pub mod Amqp
pub mod Client
