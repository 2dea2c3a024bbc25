-- ===== src/Base/Bytes.antt =====
-- Bitwise operations on bytes, and shifts as the source makes them: a shift by more bits than the type has panics.
use Prim.Native.Nat.{ℕ, zero, suc, ◌+◌, ◌-◌, ◌*◌, ◌/◌, ◌%◌, ◌^◌, ◌≤◌, ◌<◌, min, max}
use mathlib.Core.Path.{◌≡◌, refl, ap, sym, ◌∙◌}
use mathlib.Core.Option.{Option, none, some}
use native.Mathlib.Omega.{arith}
use native.Mathlib.Nat.{pow-suc, mul_assoc}
use ethercat.Base.Tests.{ltb, if◌then◌else◌}

-- The `n` lowest bits of `a | b` and `a & b`.
abbrev pub or_bits : ℕ → ℕ → ℕ → ℕ
or_bits zero a b = 0
or_bits (suc n) a b = max (a % 2) (b % 2) + 2 * or_bits n (a / 2) (b / 2)

abbrev pub and_bits : ℕ → ℕ → ℕ → ℕ
and_bits zero a b = 0
and_bits (suc n) a b = min (a % 2) (b % 2) + 2 * and_bits n (a / 2) (b / 2)

-- `a | b` and `a & b` on `u8`.
unfoldable pub bit_or : ℕ → ℕ → ℕ
bit_or a b = or_bits 8 a b

unfoldable pub bit_and : ℕ → ℕ → ℕ
bit_and a b = and_bits 8 a b

-- `a << n` and `a >> n` on `u8`.
unfoldable pub shl : ℕ → ℕ → Option ℕ
shl a n = if ltb n 8 then some (a * 2 ^ n % 2 ^ 8) else none

unfoldable pub shr : ℕ → ℕ → Option ℕ
shr a n = if ltb n 8 then some (a / 2 ^ n) else none

-- The same numbers, bit by bit: the `s` lowest bits of `a`, `c` shifted up by `s`, and `s` ones.
abbrev pub low : ℕ → ℕ → ℕ
low zero a = 0
low (suc s) a = a % 2 + 2 * low s (a / 2)

abbrev pub up : ℕ → ℕ → ℕ
up zero c = c
up (suc s) c = 2 * up s c

abbrev pub ones : ℕ → ℕ
ones zero = 0
ones (suc s) = 1 + 2 * ones s

pub and_bits-zero : (n a : ℕ) → and_bits n a 0 ≡ 0
and_bits-zero zero a = refl
and_bits-zero (suc n) a = omega (arith, and_bits-zero n (a / 2))

pub and_bits-ones : (n s a : ℕ) → s ≤ n → and_bits n a (ones s) ≡ low s a
and_bits-ones zero zero a h = refl
and_bits-ones zero (suc s) a h = absurd (omega arith)
and_bits-ones (suc n) zero a h = and_bits-zero (suc n) a
and_bits-ones (suc n) (suc s) a h =
    let e : (1 + 2 * ones s) / 2 ≡ ones s = omega arith in
    omega (arith, ap (and_bits n (a / 2)) e, and_bits-ones n s (a / 2) (omega arith))

or_bits-zero_left : (n c : ℕ) → c < up n 1 → or_bits n 0 c ≡ c
or_bits-zero_left zero c h = omega arith
or_bits-zero_left (suc n) c h = omega (arith, or_bits-zero_left n (c / 2) (omega arith))

-- Bits that do not overlap are added.
pub or_bits-up :
    (n s a c : ℕ) → a < up s 1 → a + up s c < up n 1 → or_bits n a (up s c) ≡ a + up s c
or_bits-up n zero a c h k =
    let e : a ≡ 0 = omega arith in
    ap (λ x. or_bits n x c) e ∙ or_bits-zero_left n c (omega arith) ∙ omega arith
or_bits-up zero (suc s) a c h k = omega arith
or_bits-up (suc n) (suc s) a c h k =
    let e : (2 * up s c) / 2 ≡ up s c = omega arith in
    omega (arith, ap (or_bits n (a / 2)) e, or_bits-up n s (a / 2) c (omega arith) (omega arith))

low-lt : (s a : ℕ) → low s a < up s 1
low-lt zero a = omega arith
low-lt (suc s) a = omega (arith, low-lt s (a / 2))

-- A value put above the `s` lowest bits of a byte.
put_above :
    (s byte v : ℕ)
    → low s byte + up s v < 256
    → s ≤ 8
    → bit_or (bit_and byte (ones s)) (up s v) ≡ low s byte + up s v
unfolding bit_or bit_and
put_above s byte v h k =
    ap (λ a. or_bits 8 a (up s v)) (and_bits-ones 8 s byte k)
    ∙ or_bits-up 8 s (low s byte) v (low-lt s byte) (omega arith)

-- A statement on the places of a byte's bits holds if it does for each.
pub below_eight :
    (P : ℕ → Type 0) → P 0 → P 1 → P 2 → P 3 → P 4 → P 5 → P 6 → P 7 → (s : ℕ) → s < 8 → P s
below_eight P a b c d e f g h zero l = a
below_eight P a b c d e f g h (suc zero) l = b
below_eight P a b c d e f g h (suc (suc zero)) l = c
below_eight P a b c d e f g h (suc (suc (suc zero))) l = d
below_eight P a b c d e f g h (suc (suc (suc (suc zero)))) l = e
below_eight P a b c d e f g h (suc (suc (suc (suc (suc zero))))) l = f
below_eight P a b c d e f g h (suc (suc (suc (suc (suc (suc zero)))))) l = g
below_eight P a b c d e f g h (suc (suc (suc (suc (suc (suc (suc zero))))))) l = h
below_eight P a b c d e f g h (suc (suc (suc (suc (suc (suc (suc (suc s)))))))) l =
    absurd (omega arith)

Puts : ℕ → Type 0
Puts s =
    (byte v : ℕ)
    → v < 2 ^ (8 - s)
    → bit_or (bit_and byte (2 ^ s - 1)) (v * 2 ^ s) ≡ byte % 2 ^ s + v * 2 ^ s

-- A byte with the `s` lowest bits of `byte`, and `v` above them.
pub put_bits :
    (s : ℕ)
    → s < 8
    → (byte v : ℕ) → v < 2 ^ (8 - s)
    → bit_or (bit_and byte (2 ^ s - 1)) (v * 2 ^ s) ≡ byte % 2 ^ s + v * 2 ^ s
unfolding Puts
put_bits =
    below_eight Puts
      (λ byte v k.
        ap (bit_or (bit_and byte 0)) (omega arith)
        ∙ put_above 0 byte v (omega arith) (omega arith)
        ∙ omega arith)
      (λ byte v k.
        ap (bit_or (bit_and byte 1)) (omega arith)
        ∙ put_above 1 byte v (omega arith) (omega arith)
        ∙ omega arith)
      (λ byte v k.
        ap (bit_or (bit_and byte 3)) (omega arith)
        ∙ put_above 2 byte v (omega arith) (omega arith)
        ∙ omega arith)
      (λ byte v k.
        ap (bit_or (bit_and byte 7)) (omega arith)
        ∙ put_above 3 byte v (omega arith) (omega arith)
        ∙ omega arith)
      (λ byte v k.
        ap (bit_or (bit_and byte 15)) (omega arith)
        ∙ put_above 4 byte v (omega arith) (omega arith)
        ∙ omega arith)
      (λ byte v k.
        ap (bit_or (bit_and byte 31)) (omega arith)
        ∙ put_above 5 byte v (omega arith) (omega arith)
        ∙ omega arith)
      (λ byte v k.
        ap (bit_or (bit_and byte 63)) (omega arith)
        ∙ put_above 6 byte v (omega arith) (omega arith)
        ∙ omega arith)
      (λ byte v k.
        ap (bit_or (bit_and byte 127)) (omega arith)
        ∙ put_above 7 byte v (omega arith) (omega arith)
        ∙ omega arith)

pub shl-some : (s : ℕ) → s < 8 → (v : ℕ) → v < 2 ^ (8 - s) → shl v s ≡ some (v * 2 ^ s)
unfolding shl
shl-some =
    below_eight (λ s. (v : ℕ) → v < 2 ^ (8 - s) → shl v s ≡ some (v * 2 ^ s))
      (λ v k. ap some (omega arith)) (λ v k. ap some (omega arith)) (λ v k. ap some (omega arith))
      (λ v k. ap some (omega arith)) (λ v k. ap some (omega arith)) (λ v k. ap some (omega arith))
      (λ v k. ap some (omega arith)) (λ v k. ap some (omega arith))

pub shr_mask : (s : ℕ) → s < 8 → 1 ≤ s → shr 0xFF (8 - s) ≡ some (2 ^ s - 1)
unfolding shr
shr_mask =
    below_eight (λ s. 1 ≤ s → shr 0xFF (8 - s) ≡ some (2 ^ s - 1)) (λ k. absurd (omega arith))
      (λ k. refl) (λ k. refl) (λ k. refl) (λ k. refl) (λ k. refl) (λ k. refl) (λ k. refl)

pub shr-some : (v s : ℕ) → s < 8 → shr v s ≡ some (v / 2 ^ s)
unfolding shr
shr-some v s h = ground arith

-- What was put above the `s` lowest bits comes back when these are shifted out, and the byte ends with it.
pub put_bits_back : (s : ℕ) → s < 8 → (byte v : ℕ) → (byte % 2 ^ s + v * 2 ^ s) / 2 ^ s ≡ v
put_bits_back =
    below_eight (λ s. (byte v : ℕ) → (byte % 2 ^ s + v * 2 ^ s) / 2 ^ s ≡ v) (λ byte v. omega arith)
      (λ byte v. omega arith) (λ byte v. omega arith) (λ byte v. omega arith)
      (λ byte v. omega arith) (λ byte v. omega arith) (λ byte v. omega arith)
      (λ byte v. omega arith)

pub put_bits_low :
    (s : ℕ) → s < 8 → (byte v : ℕ) → (byte % 2 ^ s + v * 2 ^ s) % 2 ^ s ≡ byte % 2 ^ s
put_bits_low =
    below_eight (λ s. (byte v : ℕ) → (byte % 2 ^ s + v * 2 ^ s) % 2 ^ s ≡ byte % 2 ^ s)
      (λ byte v. omega arith) (λ byte v. omega arith) (λ byte v. omega arith)
      (λ byte v. omega arith) (λ byte v. omega arith) (λ byte v. omega arith)
      (λ byte v. omega arith) (λ byte v. omega arith)

pub put_bits-lt : (s : ℕ) → s < 8 → (byte v m : ℕ) → v < m → byte % 2 ^ s + v * 2 ^ s < 2 ^ s * m
put_bits-lt =
    below_eight (λ s. (byte v m : ℕ) → v < m → byte % 2 ^ s + v * 2 ^ s < 2 ^ s * m)
      (λ byte v m h. omega arith) (λ byte v m h. omega arith) (λ byte v m h. omega arith)
      (λ byte v m h. omega arith) (λ byte v m h. omega arith) (λ byte v m h. omega arith)
      (λ byte v m h. omega arith) (λ byte v m h. omega arith)

-- `low | (high << 7)`.
pub or_seventh : (a b : ℕ) → a < 128 → bit_or a (b * 2 ^ 7 % 2 ^ 8) ≡ a + 128 * (b % 2)
unfolding bit_or
or_seventh a b h =
    ap (or_bits 8 a) (omega arith)
    ∙ or_bits-up 8 7 a (b % 2) (omega arith) (omega arith)
    ∙ omega arith

pub pow_add : (s n : ℕ) → 2 ^ (s + n) ≡ 2 ^ s * 2 ^ n
pow_add s zero = let e : s + zero ≡ s = omega arith in ap (λ k. 2 ^ k) e ∙ omega arith
pow_add s (suc n) =
    let e : s + suc n ≡ suc (s + n) = omega arith in
    ap (λ k. 2 ^ k) e
    ∙ pow-suc 2 (s + n)
    ∙ ap (λ k. k * 2) (pow_add s n)
    ∙ mul_assoc (2 ^ s) (2 ^ n) 2
    ∙ ap (λ k. 2 ^ s * k) (sym (pow-suc 2 n))
