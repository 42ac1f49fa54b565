-- ===== src/Rest/Server/Once.antt =====
-- An ADS-B packet is passed on once in a run of the service, however often it is reported:
-- server/src/rest/server.rs and server/src/rest/api/adsb.rs on a Redis that counts.
use svc_telemetry.Base.{
  ℕ, suc, ◌≤◌, ◌<◌, ◌^◌, ◌≡◌, ◌∙◌, ap, arith, inl, inr, true, false, Bool-cases, ◌∷◌, All, length,
  ◌==◌, same, same_refl, eq_of_same, if◌then◌else◌,
}
use svc_telemetry.World.{Event, Bytes, History}
use svc_telemetry.World.Tally.{tally, Adds}
use svc_telemetry.Cache.{bytes_to_key}
use svc_telemetry.Cache.Pool.Pipelines.{increment_steps}
use svc_telemetry.Cache.Pool.Quiet.{IsIdle}
use svc_telemetry.Cache.Pool.Counting.{
  IsCounting, incrs, event_incrs, event_incrs-IsIdle, incrs-increment,
}
use svc_telemetry.Rest.Netrid as Netrid
use svc_telemetry.Rest.Jwt.{Claim}
use svc_telemetry.Rest.Adsb as Adsb
use svc_telemetry.Rest.Adsb.Weights.{IsLight, process_packet-Adds}
use svc_telemetry.Rest.Adsb.Duplicates.{packet_key, counting, adsb_short, adsb-incrs}
use svc_telemetry.Rest.Server.{Site, HttpRequest, service_pools}
use svc_telemetry.Rest.Server.Runs.{
  start-IsDeclared, Reached-pools, is_declaration, Reached, start, request, IsHandled,
  serve-IsHandled,
}
use svc_telemetry.Rest.Server.Marks.{
  publishes, inserts, publishes-IsMark, inserts-IsMark, netrid_incrs, IsMark, declared_tally,
  incrs-IsUnheard, incrs-IsLight, netrid_handler, adsb_handler, netrid_tally, adsb_tally,
}

module _ (site : Site) (k : IsCounting (site.service.backends)) where
  open site use {chrono, service, libm, deku, unpack}

  module _ (p : Bytes) (hp : All (λ b. b < 256) p) (weigh : Event → ℕ) (mark : IsMark p weigh) where
    abbrev key : Bytes
    key = packet_key service_pools p

    mark-IsIdle : IsIdle (service.backends) weigh
    mark-IsIdle = record {
      pushing = λ list item. mark.pipelines _;
      setting = λ kvs ms. mark.pipelines _;
      getting = λ keys. mark.pipelines _;
    }

    -- The packet is marked at most once, and not before its first report.
    record IsOnce (h : History) : Type 0 where
      once : tally weigh h ≤ 1
      first : incrs key h ≡ 0 → tally weigh h ≡ 0

    start-IsOnce : (h : History) → All (λ e. is_declaration e ≡ true) h → IsOnce h
    start-IsOnce h d =
        let z = declared_tally weigh h mark.declared d in
        record { once = omega (arith, z); first = λ e. z }

    IsOnce-ext :
        (h h' : History)
        → tally weigh h' ≡ tally weigh h
        → incrs key h ≤ incrs key h'
        → IsOnce h
        → IsOnce h'
    IsOnce-ext h h' e f o = record {
      once = omega (arith, e, o.once);
      first = λ z. e ∙ o.first (omega (arith, z, f));
    }

    incrs-netrid_handler :
        (claim : Claim) (q : Bytes) (h : History)
        → incrs key (netrid_handler site claim q h) ≡ incrs key h
    unfolding incrs
    incrs-netrid_handler claim q h =
        netrid_tally site (event_incrs key) (event_incrs-IsIdle (service.backends) key) claim q h
          (incrs-IsUnheard key) (netrid_incrs p (bytes_to_key q) Netrid.cache_expire_ms_netrid)

    incrs-adsb_handler : (q : Bytes) (h : History) → incrs key h ≤ incrs key (adsb_handler site q h)
    unfolding incrs
    incrs-adsb_handler q h =
        (adsb_tally site (event_incrs key) (event_incrs-IsIdle (service.backends) key) q 0 h
          (incrs-IsLight key q)).0

    netrid-IsOnce :
        (claim : Claim) (q : Bytes) (h : History)
        → IsOnce h
        → IsOnce (netrid_handler site claim q h)
    netrid-IsOnce claim q h o =
        IsOnce-ext h (netrid_handler site claim q h)
          (netrid_tally site weigh mark-IsIdle claim q h mark.unheard (mark.pipelines _))
          (omega (arith, incrs-netrid_handler claim q h)) o

    -- A report of another packet.
    other-IsOnce :
        (q : Bytes) (h : History) → same p q ≡ false → IsOnce h → IsOnce (adsb_handler site q h)
    other-IsOnce q h e o =
        let (a, b) =
          adsb_tally site weigh mark-IsIdle q 0 h (λ icao. rw e at (mark.light q icao)) in
        let z =
          mark.pipelines
            (increment_steps service_pools.adsb (bytes_to_key q) Adsb.cache_expire_ms_adsb) in
        IsOnce-ext h (adsb_handler site q h) (omega (arith, a, b, z)) (incrs-adsb_handler q h) o

    -- The packet is counted.
    counted_tally : (h : History) → tally weigh (counting service_pools p ∷ h) ≡ tally weigh h
    unfolding tally
    counted_tally h =
        let z =
          mark.pipelines
            (increment_steps service_pools.adsb (bytes_to_key p) Adsb.cache_expire_ms_adsb) in
        omega (arith, z)

    counted_incrs : (h : History) → incrs key (counting service_pools p ∷ h) ≡ suc (incrs key h)
    counted_incrs h =
        incrs-increment service_pools.adsb (bytes_to_key p) Adsb.cache_expire_ms_adsb h

    process_packet-IsOnce :
        (n : ℕ) (h : History)
        → tally weigh h ≡ 0
        → 1 ≤ incrs key h
        → IsOnce (Adsb.process_packet chrono service libm deku service_pools p n h).1
    unfolding Adds incrs
    process_packet-IsOnce n h z c =
        let light : IsLight weigh p 1 = λ icao. rw (same_refl p) at (mark.light p icao) in
        let (a, b) =
          process_packet-Adds chrono service libm deku weigh mark-IsIdle service_pools p n 1 light
            h in
        let (d, e) =
          process_packet-Adds chrono service libm deku (event_incrs key)
            (event_incrs-IsIdle (service.backends) key) service_pools p n 0 (incrs-IsLight key p)
            h in
        record { once = omega (arith, z, b); first = λ w. absurd (omega (arith, w, d, c)) }

    -- A report of the packet itself.
    own_report :
        (h : History)
        → length p == 14 ≡ true
        → suc (incrs key h) < 2 ^ 32
        → adsb_handler site p h ≡ (
            if incrs key h == 0
            then (Adsb.process_packet chrono service libm deku service_pools p 1
                (counting service_pools p ∷ h)).1
            else counting service_pools p ∷ h)
    unfolding adsb_handler
    own_report h q small =
        rw
          (
            adsb_handler,
            adsb-incrs chrono service libm deku k service_pools p h (ground arith) small,
          )
          (ground arith)

    short_report : (h : History) → length p == 14 ≡ false → adsb_handler site p h ≡ h
    unfolding adsb_handler
    short_report h q = ap (λ x. x.1) (adsb_short chrono service libm deku service_pools p h q)

    own-IsOnce :
        (h : History) → suc (incrs key h) < 2 ^ 32 → IsOnce h → IsOnce (adsb_handler site p h)
    own-IsOnce h small o = elim (Bool-cases (length p == 14)) [
      | inr q ↦ rw (short_report h q) o
      | inl q ↦ rw (own_report h q small) (elim (Bool-cases (incrs key h == 0)) [
        | inl z ↦ rw z (
            process_packet-IsOnce 1 (counting service_pools p ∷ h)
              (counted_tally h ∙ o.first (ground arith)) (omega (arith, counted_incrs h)))
        | inr z ↦ rw z (
            IsOnce-ext h (counting service_pools p ∷ h) (counted_tally h)
              (omega (arith, counted_incrs h)) o)
      ])
    ]

    adsb-IsOnce :
        (q : Bytes) (h : History)
        → suc (incrs key h) < 2 ^ 32
        → IsOnce h
        → IsOnce (adsb_handler site q h)
    adsb-IsOnce q h small o = elim (Bool-cases (same p q)) [
      | inl e ↦ rw (← eq_of_same p q e) (own-IsOnce h small o)
      | inr e ↦ other-IsOnce q h e o
    ]

    -- Every request.
    handled-IsOnce :
        (req : HttpRequest) (h h' : History)
        → IsHandled site req h h'
        → suc (incrs key h') < 2 ^ 32
        → (suc (incrs key h) < 2 ^ 32 → IsOnce h)
        → site.pools ≡ service_pools
        → IsOnce h'
    unfolding adsb_handler netrid_handler
    handled-IsOnce req h h' (inl e) small o named = rw e (o (rw e at small))
    handled-IsOnce req h h' (inr (inl (claim, e))) small o named =
        let w : h' ≡ netrid_handler site claim req.body h = rw named at e in
        let c = incrs-netrid_handler claim req.body h in
        rw w (netrid-IsOnce claim req.body h (o (omega (arith, c, rw w at small))))
    handled-IsOnce req h h' (inr (inr e)) small o named =
        let w : h' ≡ adsb_handler site req.body h = rw named at e in
        let s : suc (incrs key h) < 2 ^ 32 =
          omega (arith, incrs-adsb_handler req.body h, rw w at small) in
        rw w (adsb-IsOnce req.body h s (o s))

    Reached-IsOnce : (h : History) → Reached site h → suc (incrs key h) < 2 ^ 32 → IsOnce h
    Reached-IsOnce _ (start host config s h e p q) small =
        start-IsOnce h (start-IsDeclared host config s h e)
    Reached-IsOnce _ (request req h b r) small =
        handled-IsOnce req h _ (serve-IsHandled site req h) small (Reached-IsOnce h r)
          (Reached-pools site h r)

  -- In every run of the service on a Redis that counts, with keys that do not expire: an ADS-B packet
  -- that was reported less than 2 ^ 32 - 1 times has been published under the routing key of ADS-B at
  -- most once and sent to svc-storage at most once, and never without a report.
  pub Reached-once :
      (p : Bytes) (h : History)
      → All (λ b. b < 256) p
      → Reached site h
      → suc (incrs (packet_key service_pools p) h) < 2 ^ 32
      → (tally (publishes p) h ≤ 1)
        × (tally (inserts p) h ≤ 1)
        × (tally (publishes p) h ≤ incrs (packet_key service_pools p) h)
        × (tally (inserts p) h ≤ incrs (packet_key service_pools p) h)
  Reached-once p h hp r small =
      let a = Reached-IsOnce p hp (publishes p) (publishes-IsMark p) h r small in
      let b = Reached-IsOnce p hp (inserts p) (inserts-IsMark p) h r small in
      (a.once, b.once, ground (arith, a.first, a.once), ground (arith, b.first, b.once))
