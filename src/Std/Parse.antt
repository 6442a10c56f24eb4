-- ===== src/Std/Parse.antt =====
-- `str::parse::<u16>` and `::<u64>`.
use ruvoy.Prelude.{
  ℕ, ◌+◌, ◌*◌, ◌-◌, ◌≤◌, ◌≡◌, refl, Bool, ◌&&◌, Option, none, some, [], ◌∷◌, leb, ◌==◌, is_empty,
  if◌then◌else◌, Bytes, arith, text, usize_mod,
}

abbrev pub is_digit : ℕ → Bool
is_digit c = leb b'0' c && leb c b'9'

unfoldable pub parse_digits : ℕ → ℕ → Bytes → Option ℕ
parse_digits bound acc [] = some acc
parse_digits bound acc (c ∷ cs) =
    let n = acc * 10 + (c - b'0') in
    let rest = parse_digits bound n cs in if is_digit c && leb n bound then rest else none

-- A sign is allowed, digits are wanted, and a value over the bound is refused.
unfoldable pub parse_to : ℕ → Bytes → Option ℕ
unfolding parse_digits
parse_to bound [] = none
parse_to bound (c ∷ cs) =
    if c == b'+'
    then (if is_empty cs then none else parse_digits bound 0 cs)
    else parse_digits bound 0 (c ∷ cs)

unfoldable pub parse_u16 : Bytes → Option ℕ
unfolding parse_to
parse_u16 = parse_to 65535

unfoldable pub parse_u64 : Bytes → Option ℕ
unfolding parse_to
parse_u64 = parse_to (usize_mod - 1)

parse_digits-le :
    (bound acc : ℕ) (bs : Bytes) (n : ℕ)
    → acc ≤ bound
    → parse_digits bound acc bs ≡ some n
    → n ≤ bound
unfolding parse_digits
parse_digits-le bound acc [] n h e = ground arith
parse_digits-le bound acc (c ∷ cs) n h e =
    ground (arith, parse_digits-le bound (acc * 10 + (c - b'0')) cs n)

pub parse_u16-le : (bs : Bytes) (n : ℕ) → parse_u16 bs ≡ some n → n ≤ 65535
unfolding parse_u16 parse_to
parse_u16-le [] n h = cc
parse_u16-le (c ∷ cs) n h =
    ground (arith, parse_digits-le 65535 0 cs n, parse_digits-le 65535 0 (c ∷ cs) n)

parse_test :
    (parse_u16 (text "+0101") ≡ some 101)
    × (parse_u16 (text "65536") ≡ none)
    × (parse_u16 (text "+") ≡ none)
unfolding parse_u16 parse_to text
parse_test = (refl, refl, refl)
