-- ===== src/Grpc/Ready.antt =====
-- The client crate against the server: client-grpc/src/client.rs and server/src/grpc/server.rs.
use svc_telemetry.Base.{◌≡◌, refl, arith, ◌⊎◌, inl, inr, true, Result, ok, err}
use svc_telemetry.Base.Text.{codes}
use svc_telemetry.Grpc.{Channel, Status, ReadyResponse, is_ready, client_is_ready}

-- A channel to the server: a call of the method's path reaches it, unless the transport fails.
pub record IsChannel (ch : Channel) : Type 0 where
  pub served :
      (ch.unary (codes "/grpc.RpcService/isReady") ≡ is_ready tt)
      ⊎ ((s : Status) × (ch.unary (codes "/grpc.RpcService/isReady") ≡ err s))

-- Over channels to the server, is_ready of the client is an error or reports that the server is ready.
pub client_is_ready-ready :
    (get_client : Result Status Channel) (r : ReadyResponse)
    → ((ch : Channel) → get_client ≡ ok ch → IsChannel ch)
    → client_is_ready get_client tt ≡ ok r
    → r.ready ≡ true
unfolding client_is_ready is_ready
client_is_ready-ready (err s) r k e = cc e
client_is_ready-ready (ok ch) r k e = elim (k ch refl).served [
  | inl q ↦ ground (arith, q)
  | inr (s, q) ↦ ground (arith, q)
]
