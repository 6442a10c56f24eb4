-- ===== src/Prelude/Text.antt =====
-- Byte strings: a `String` or a `Vec<u8>` of the program is the list of its bytes.
use Prim.Native.Nat.{ℕ, zero, suc, ◌+◌, ◌-◌, ◌/◌, ◌%◌}
use Prim.Native.Char.{code}
use Prim.Native.String.{String}
use native.Mathlib.Omega.{arith}
use mathlib.Core.Path.{◌≡◌, refl, ap, ap₂, sym, ◌∙◌}
use mathlib.Core.Bool.{Bool, true, false, ◌&&◌}
use mathlib.Core.List.{List, [], ◌∷◌}
use ruvoy.Prelude.Tests.{leb, ltb, ◌==◌, if◌then◌else◌}

abbrev pub Bytes : Type 0
Bytes = List ℕ

-- The bytes of an ASCII literal.
unfoldable pub text : String → Bytes
text String.[] = []
text (String.◌∷◌ c s) = code c ∷ text s

-- `a == b` on strings.
unfoldable pub bytes_eq : Bytes → Bytes → Bool
bytes_eq [] [] = true
bytes_eq (a ∷ as') (b ∷ bs) = a == b && bytes_eq as' bs
bytes_eq _ _ = false

-- `char::to_ascii_uppercase`.
unfoldable pub to_ascii_uppercase : ℕ → ℕ
to_ascii_uppercase c = if leb b'a' c && leb c b'z' then c - 32 else c

-- `str::eq_ignore_ascii_case`.
unfoldable pub eq_ignore_ascii_case : Bytes → Bytes → Bool
unfolding to_ascii_uppercase
eq_ignore_ascii_case [] [] = true
eq_ignore_ascii_case (a ∷ as') (b ∷ bs) =
    to_ascii_uppercase a == to_ascii_uppercase b && eq_ignore_ascii_case as' bs
eq_ignore_ascii_case _ _ = false

-- `str::starts_with` at one byte.
unfoldable pub starts_with_byte : ℕ → Bytes → Bool
starts_with_byte c [] = false
starts_with_byte c (b ∷ bs) = b == c

digits_of : ℕ → ℕ → Bytes → Bytes
digits_of zero n acc = acc
digits_of (suc f) n acc =
    let more = digits_of f (n / 10) ((b'0' + n % 10) ∷ acc) in
    if ltb n 10 then (b'0' + n) ∷ acc else more

-- The decimal numeral that `{n}` prints. Twenty digits hold any `u64`.
unfoldable pub decimal : ℕ → Bytes
unfolding digits_of
decimal n = digits_of 20 n []

-- `str::starts_with`, with the prefix first.
unfoldable pub starts_with : Bytes → Bytes → Bool
starts_with [] bs = true
starts_with (a ∷ as') [] = false
starts_with (a ∷ as') (b ∷ bs) = a == b && starts_with as' bs

pub bytes_eq_sound : (a b : Bytes) → bytes_eq a b ≡ true → a ≡ b
unfolding bytes_eq
bytes_eq_sound [] [] h = refl
bytes_eq_sound [] (b ∷ bs) h = absurd (ground arith)
bytes_eq_sound (a ∷ as') [] h = absurd (ground arith)
bytes_eq_sound (a ∷ as') (b ∷ bs) h =
    let same : a ≡ b = ground arith in ap₂ (◌∷◌) same (bytes_eq_sound as' bs (ground arith))

-- Equal texts compare the same with a third, and of two that differ at most one is equal to it.
pub bytes_eq_same : (a b k : Bytes) → bytes_eq a b ≡ true → bytes_eq a k ≡ bytes_eq b k
bytes_eq_same a b k h = ap (λ x. bytes_eq x k) (bytes_eq_sound a b h)

pub bytes_eq_other :
    (a b k : Bytes) → bytes_eq a b ≡ false → bytes_eq b k ≡ true → bytes_eq a k ≡ false
bytes_eq_other a b k h same = ap (bytes_eq a) (sym (bytes_eq_sound b k same)) ∙ h
