-- ===== src/Prelude/ByteForms.antt =====
-- Byte vectors, UTF-8 texts and the big-endian form of a `u64`.
use Prim.Native.Nat.{ℕ, zero, suc, ◌+◌, ◌*◌, ◌/◌, ◌%◌, ◌^◌, ◌<◌}
use mathlib.Core.Path.{◌≡◌, ap}
use mathlib.Core.Bool.{Bool, true, false, ◌&&◌}
use mathlib.Core.Option.{Option, none, some}
use mathlib.Core.List.{List, [], ◌∷◌}
use native.Mathlib.Omega.{arith}
use threshold.Prelude.Tests.{ltb, leb, nat_eqb, if◌then◌else◌}

abbrev pub Bytes : Type 0
Bytes = List ℕ

-- A Rust `String`, by the bytes of its UTF-8 form: `as_bytes` is the identity.
abbrev pub Text : Type 0
Text = List ℕ

abbrev pub u64_mod : ℕ
u64_mod = 2 ^ 64

abbrev pub u32_mod : ℕ
u32_mod = 2 ^ 32

-- `+` on `u64` and `u32` in a release build.
abbrev pub add64 : ℕ → ℕ → ℕ
add64 a b = (a + b) % u64_mod

abbrev pub add32 : ℕ → ℕ → ℕ
add32 a b = (a + b) % u32_mod

-- `u64::to_be_bytes`
unfoldable pub to_be_bytes : ℕ → Bytes
to_be_bytes n =
    (n / 2 ^ 56 % 256)
    ∷ (n / 2 ^ 48 % 256)
    ∷ (n / 2 ^ 40 % 256)
    ∷ (n / 2 ^ 32 % 256)
    ∷ (n / 2 ^ 24 % 256)
    ∷ (n / 2 ^ 16 % 256)
    ∷ (n / 2 ^ 8 % 256)
    ∷ (n % 256)
    ∷ []

abbrev be_value : ℕ → ℕ → ℕ → ℕ → ℕ → ℕ → ℕ → ℕ → ℕ
be_value a b c d e f g h =
    ((((((a * 256 + b) * 256 + c) * 256 + d) * 256 + e) * 256 + f) * 256 + g) * 256 + h

-- `u64::from_be_bytes` after `try_into::<[u8; 8]>`: only eight bytes are a number.
unfoldable pub from_be_bytes : Bytes → Option ℕ
from_be_bytes (a ∷ b ∷ c ∷ d ∷ e ∷ f ∷ g ∷ h ∷ []) = some (be_value a b c d e f g h)
from_be_bytes _ = none

pub from_be_bytes-to_be_bytes : (n : ℕ) → n < u64_mod → from_be_bytes (to_be_bytes n) ≡ some n
unfolding from_be_bytes to_be_bytes
from_be_bytes-to_be_bytes n h =
    let value : be_value (n / 2 ^ 56 % 256) (n / 2 ^ 48 % 256) (n / 2 ^ 40 % 256) (n / 2 ^ 32 % 256)
          (n / 2 ^ 24 % 256) (n / 2 ^ 16 % 256) (n / 2 ^ 8 % 256) (n % 256)
        ≡ n =
      omega arith in
    ap some value

-- What may follow the first byte of a character: how many bytes, and the range of the next one.
unfoldable pub utf8_lead : ℕ → Option (ℕ × ℕ × ℕ)
utf8_lead a =
    if ltb a 128
    then some (0, 128, 191)
    else if leb 194 a && leb a 223
    then some (1, 128, 191)
    else if nat_eqb a 224
    then some (2, 160, 191)
    else if nat_eqb a 237
    then some (2, 128, 159)
    else if leb 225 a && leb a 239
    then some (2, 128, 191)
    else if nat_eqb a 240
    then some (3, 144, 191)
    else if leb 241 a && leb a 243
    then some (3, 128, 191)
    else if nat_eqb a 244
    then some (3, 128, 143)
    else none

-- `pending` more bytes belong to the character; the next one lies between `lo` and `hi`.
unfoldable pub utf8_from : (pending lo hi : ℕ) → Bytes → Bool
unfolding utf8_lead
utf8_from zero lo hi [] = true
utf8_from (suc pending) lo hi [] = false
utf8_from zero lo hi (a ∷ rest) = elim (utf8_lead a) [
  | none ↦ false
  | some (n, l, h) ↦ utf8_from n l h rest
]
utf8_from (suc pending) lo hi (a ∷ rest) = leb lo a && leb a hi && utf8_from pending 128 191 rest

unfoldable pub is_utf8 : Bytes → Bool
unfolding utf8_from
is_utf8 = utf8_from 0 128 191

-- `String::from_utf8` accepts exactly the well-formed sequences: no overlong form, no surrogate,
-- nothing past U+10FFFF.
unfoldable pub from_utf8 : Bytes → Option Text
unfolding is_utf8
from_utf8 bs = if is_utf8 bs then some bs else none

pub from_utf8-is_utf8 : (bs : Bytes) → is_utf8 bs ≡ true → from_utf8 bs ≡ some bs
unfolding from_utf8
from_utf8-is_utf8 bs h = ground arith
