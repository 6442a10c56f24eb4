-- ===== src/Std/Utf8.antt =====
-- `String::from_utf8_lossy`, with the replacement of each maximal ill-formed part, as crates and
-- src use it on the bytes that Envoy hands over.
use ruvoy.Prelude.{
  ℕ, zero, suc, ◌-◌, ◌==◌, ◌≡◌, refl, Bool, ◌&&◌, ◌≤◌, ◌<◌, [], ◌∷◌, ◌++◌, leb, ltb, length, drop,
  take, if◌then◌else◌, Bytes, All, arith,
}

is_between : ℕ → ℕ → ℕ → Bool
is_between lo hi b = leb lo b && leb b hi

is_continuation : ℕ → Bool
unfolding is_between
is_continuation = is_between 0x80 0xBF

-- Whether `b` may follow the first byte of a sequence of three or four.
second_fits : ℕ → ℕ → Bool
unfolding is_between
second_fits first b =
    if leb first 0xDF
    then is_between 0x80 0xBF b
    else if leb first 0xE0
    then is_between 0xA0 0xBF b
    else if leb first 0xEC
    then is_between 0x80 0xBF b
    else if leb first 0xED
    then is_between 0x80 0x9F b
    else if leb first 0xEF
    then is_between 0x80 0xBF b
    else if leb first 0xF0
    then is_between 0x90 0xBF b
    else if leb first 0xF3
    then is_between 0x80 0xBF b
    else is_between 0x80 0x8F b

-- How many bytes a sequence that starts with `b` has; none may start with 0.
width : ℕ → ℕ
width b =
    if leb b 0x7F
    then 1
    else if ltb b 0xC2
    then 0
    else if leb b 0xDF
    then 2
    else if leb b 0xEF
    then 3
    else if leb b 0xF4
    then 4
    else 0

-- How many of the bytes that should continue a sequence do.
continued : ℕ → Bytes → ℕ
unfolding is_continuation
continued zero bs = 0
continued (suc n) [] = 0
continued (suc n) (b ∷ bs) =
    let more = suc (continued n bs) in if is_continuation b then more else 0

after_first : ℕ → ℕ → Bytes → ℕ
unfolding continued second_fits
after_first first zero bs = 0
after_first first (suc n) [] = 0
after_first first (suc n) (b ∷ bs) = if second_fits first b then suc (continued n bs) else 0

abbrev replacement : Bytes
replacement = 0xEF ∷ 0xBF ∷ 0xBD ∷ []

-- One turn of the scan: what it writes and how many bytes it passes.
scan_one : ℕ → Bytes → Bytes × ℕ
unfolding width after_first
scan_one b bs =
    let w = width b in
    let n = suc (after_first b (w - 1) bs) in
    if n == w then (b ∷ take (w - 1) bs, n) else (replacement, n)

scan : ℕ → Bytes → Bytes
unfolding scan_one
scan zero bs = []
scan (suc fuel) [] = []
scan (suc fuel) (b ∷ bs) = let (out, n) = scan_one b bs in out ++ scan fuel (drop n (b ∷ bs))

-- Each turn passes at least one byte, so the length is fuel enough.
unfoldable pub from_utf8_lossy : Bytes → Bytes
unfolding scan
from_utf8_lossy bs = scan (length bs) bs

abbrev pub IsAscii : Bytes → Type 0
IsAscii = All (λ b. b < 0x80)

scan_ascii : (fuel : ℕ) (bs : Bytes) → length bs ≤ fuel → IsAscii bs → scan fuel bs ≡ bs
unfolding scan
scan_ascii zero [] h a = refl
scan_ascii (suc fuel) [] h a = refl
scan_ascii zero (b ∷ bs) h a = absurd (omega arith)
scan_ascii (suc fuel) (b ∷ bs) h a = ground (arith, scan_ascii fuel bs (omega arith) a.1)

-- ASCII is read as it is.
pub from_utf8_lossy-ascii : (bs : Bytes) → IsAscii bs → from_utf8_lossy bs ≡ bs
unfolding from_utf8_lossy
from_utf8_lossy-ascii bs a = scan_ascii (length bs) bs (omega arith) a

lossy_test :
    from_utf8_lossy (97 ∷ 0xC3 ∷ 0xA9 ∷ 0xFF ∷ 0xE2 ∷ 0x82 ∷ 98 ∷ [])
    ≡ 97 ∷ 0xC3 ∷ 0xA9 ∷ 0xEF ∷ 0xBF ∷ 0xBD ∷ 0xEF ∷ 0xBF ∷ 0xBD ∷ 98 ∷ []
unfolding from_utf8_lossy
lossy_test = refl
