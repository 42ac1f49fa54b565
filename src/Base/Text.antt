-- ===== src/Base/Text.antt =====
-- Text as a list of character codes, and the formatting that the service uses: `{:02x}`, `{:x}`,
-- decimal `to_string` and the parsing of a u32.
use Prim.Native.Char.{code}
use Prim.Native.Nat.{ℕ, zero, suc, ◌+◌, ◌-◌, ◌*◌, ◌/◌, ◌%◌, ◌^◌, ◌<◌}
use Prim.Native.String.{String}
use mathlib.Core.Path.{◌≡◌, refl}
use mathlib.Core.Bool.{Bool, ◌&&◌, ◌||◌}
use mathlib.Core.List.{List, [], ◌∷◌, ◌++◌, reverse}
use mathlib.Core.Option.{Option, none, some}
use svc_telemetry.Base.Lists.{All}
use svc_telemetry.Base.Tests.{ltb, leb, lt→ltb, ◌==◌, ==_refl, if◌then◌else◌}

abbrev pub codes : String → List ℕ
codes String.[] = []
codes (String.◌∷◌ c s) = code c ∷ codes s

-- A hexadecimal digit in lower case.
abbrev pub hex_digit : ℕ → ℕ
hex_digit n = if ltb n 10 then n + b'0' else n - 10 + b'a'

-- `{:02x}` of a byte.
abbrev pub hex_byte : ℕ → List ℕ
hex_byte b = hex_digit (b / 16) ∷ hex_digit (b % 16) ∷ []

-- The digits of a number to a base, most significant first, in front of `rest`; one round a digit.
unfoldable pub digits_onto : ℕ → ℕ → (ℕ → ℕ) → ℕ → List ℕ → List ℕ
digits_onto zero base digit n rest = rest
digits_onto (suc fuel) base digit n rest =
    let more = digits_onto fuel base digit (n / base) (digit (n % base) ∷ rest) in
    if n / base == 0 then digit (n % base) ∷ rest else more

-- `{:x}` of a u32: eight digits at most.
unfoldable pub hex_u32 : ℕ → List ℕ
unfolding digits_onto
hex_u32 n = digits_onto 8 16 hex_digit n []

-- `to_string` of a u32: ten digits at most.
unfoldable pub decimal_u32 : ℕ → List ℕ
unfolding digits_onto
decimal_u32 n = digits_onto 10 10 (λ d. d + b'0') n []

-- The digits of `u32::from_str`, which fails on another character and on overflow.
unfoldable pub parse_digits : List ℕ → ℕ → Option ℕ
parse_digits [] acc = some acc
parse_digits (c ∷ cs) acc =
    let next = acc * 10 + (c - b'0') in
    let rest = parse_digits cs next in
    if leb b'0' c && leb c b'9' && ltb next (2 ^ 32) then rest else none

-- `u32::from_str`: a leading plus sign is allowed, an empty number is not.
unfoldable pub parse_u32 : List ℕ → Option ℕ
unfolding parse_digits
parse_u32 [] = none
parse_u32 (c ∷ []) = if c == b'+' then none else parse_digits (c ∷ []) 0
parse_u32 (c ∷ d ∷ cs) = if c == b'+' then parse_digits (d ∷ cs) 0 else parse_digits (c ∷ d ∷ cs) 0

-- `keys.join(" ")`
unfoldable pub join_space : List (List ℕ) → List ℕ
join_space [] = []
join_space (k ∷ []) = k
join_space (k ∷ l ∷ ks) = k ++ (b' ' ∷ join_space (l ∷ ks))

-- What the first byte of a character in UTF-8 says: how many bytes follow, the range of the next one,
-- and its bits of the character.
utf8_lead : ℕ → Option (ℕ × ℕ × ℕ × ℕ)
utf8_lead b =
    if ltb b 0x80
    then some (0, 0x80, 0xbf, b)
    else if ltb b 0xc2
    then none
    else if ltb b 0xe0
    then some (1, 0x80, 0xbf, b % 32)
    else if ltb b 0xf0
    then some (2, (if b == 0xe0 then 0xa0 else 0x80), (if b == 0xed then 0x9f else 0xbf), b % 16)
    else if ltb b 0xf5
    then some (3, (if b == 0xf0 then 0x90 else 0x80), (if b == 0xf4 then 0x8f else 0xbf), b % 8)
    else none

utf8_step : ℕ → ℕ → ℕ → ℕ → ℕ → Option (ℕ × ℕ × ℕ × ℕ)
unfolding utf8_lead
utf8_step zero lo hi acc b = utf8_lead b
utf8_step (suc k) lo hi acc b =
    if leb lo b && leb b hi then some (k, 0x80, 0xbf, acc * 64 + b % 64) else none

cons_if_done : ℕ → ℕ → Option (List ℕ) → Option (List ℕ)
cons_if_done zero c rest = elim rest [ none ↦ none | some cs ↦ some (c ∷ cs) ]
cons_if_done (suc k) c rest = rest

utf8_loop : ℕ → ℕ → ℕ → ℕ → List ℕ → Option (List ℕ)
unfolding utf8_step cons_if_done
utf8_loop k lo hi acc [] = if k == 0 then some [] else none
utf8_loop k lo hi acc (b ∷ bs) = elim (utf8_step k lo hi acc b) [
  | none ↦ none
  | some (k', lo', hi', acc') ↦ cons_if_done k' acc' (utf8_loop k' lo' hi' acc' bs)
]

-- `String::from_utf8`: the characters of the bytes, if they are UTF-8.
unfoldable pub from_utf8 : List ℕ → Option (List ℕ)
unfolding utf8_loop
from_utf8 bs = utf8_loop 0 0x80 0xbf 0 bs

-- The characters of Unicode's White_Space.
is_whitespace : ℕ → Bool
is_whitespace c =
    (leb 9 c && leb c 13)
    || c == 0x20
    || c == 0x85
    || c == 0xa0
    || c == 0x1680
    || (leb 0x2000 c && leb c 0x200a)
    || c == 0x2028
    || c == 0x2029
    || c == 0x202f
    || c == 0x205f
    || c == 0x3000

trim_start : List ℕ → List ℕ
unfolding is_whitespace
trim_start [] = []
trim_start (c ∷ cs) = if is_whitespace c then trim_start cs else c ∷ cs

-- `trim`: without white space at either end.
unfoldable pub trim : List ℕ → List ℕ
unfolding trim_start
trim s = reverse (trim_start (reverse (trim_start s)))

-- `strip_prefix`
unfoldable pub strip_prefix : List ℕ → List ℕ → Option (List ℕ)
strip_prefix [] s = some s
strip_prefix (p ∷ ps) [] = none
strip_prefix (p ∷ ps) (c ∷ cs) = if p == c then strip_prefix ps cs else none

pub strip_prefix-append : (p s : List ℕ) → strip_prefix p (p ++ s) ≡ some s
unfolding strip_prefix
strip_prefix-append [] s = refl
strip_prefix-append (c ∷ p) s = rw (==_refl c) (strip_prefix-append p s)

utf8_lead_ascii : (c : ℕ) → c < 0x80 → utf8_lead c ≡ some (0, 0x80, 0xbf, c)
unfolding utf8_lead
utf8_lead_ascii c p = rw (lt→ltb c 0x80 p) refl

utf8_loop_ascii :
    (acc : ℕ) (s : List ℕ) → All (λ c. c < 0x80) s → utf8_loop 0 0x80 0xbf acc s ≡ some s
unfolding utf8_loop utf8_step cons_if_done
utf8_loop_ascii acc [] h = refl
utf8_loop_ascii acc (c ∷ s) (p, h) =
    rw (utf8_loop, utf8_lead_ascii c p) (rw (utf8_loop_ascii c s h) refl)

-- ASCII is UTF-8.
pub from_utf8_ascii : (s : List ℕ) → All (λ c. c < 0x80) s → from_utf8 s ≡ some s
unfolding from_utf8
from_utf8_ascii s h = utf8_loop_ascii 0 s h
