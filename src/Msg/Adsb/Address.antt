-- ===== src/Msg/Adsb/Address.antt =====
-- The ICAO address and the message type of an ADS-B packet: get_adsb_icao_address and
-- get_adsb_message_type of server/src/msg/adsb.rs.
use Prim.Native.Nat.{bit_and}
use svc_telemetry.Base.{
  ℕ, ◌+◌, ◌*◌, ◌/◌, ◌%◌, ◌^◌, ◌<◌, ◌≡◌, refl, true, arith, List, [], ◌∷◌, ◌==◌, ==_iff, every_below,
  every_below-true,
}
use svc_telemetry.Msg.Adsb.{get_adsb_icao_address, get_adsb_message_type}

-- Two aircraft never share an address: equal addresses of three bytes come from equal bytes.
pub get_adsb_icao_address-injective :
    (a b c a' b' c' : ℕ)
    → (a < 256) × (b < 256) × (c < 256)
    → (a' < 256) × (b' < 256) × (c' < 256)
    → get_adsb_icao_address (a ∷ b ∷ c ∷ []) ≡ get_adsb_icao_address (a' ∷ b' ∷ c' ∷ [])
    → (a ≡ a') × (b ≡ b') × (c ≡ c')
unfolding get_adsb_icao_address
get_adsb_icao_address-injective a b c a' b' c' h h' e = (omega arith, omega arith, omega arith)

type_table : every_below 256 (λ x. bit_and (x / 2 ^ 3) 0x1f == x / 8) ≡ true
unfolding every_below
type_table = refl

-- The message type of a packet of five bytes or more is the five high bits of the fifth, and below 32.
pub get_adsb_message_type_high :
    (b0 b1 b2 b3 b4 : ℕ) (rest : List ℕ)
    → b4 < 256
    → (get_adsb_message_type (b0 ∷ b1 ∷ b2 ∷ b3 ∷ b4 ∷ rest) * 8 + b4 % 8 ≡ b4)
      × (get_adsb_message_type (b0 ∷ b1 ∷ b2 ∷ b3 ∷ b4 ∷ rest) < 32)
unfolding get_adsb_message_type
get_adsb_message_type_high b0 b1 b2 b3 b4 rest h =
    let e =
      (==_iff _ _).0
        (every_below-true (λ x. bit_and (x / 2 ^ 3) 0x1f == x / 8) 256 b4 h type_table) in
    (omega (arith, e), omega (arith, e))
