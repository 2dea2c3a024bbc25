-- ===== src/Foreign.antt =====
-- The code that the sources only call: the `bitfield` crate's accessors over byte slices, and the
-- conversions that `num_enum` derives. Each is a parameter, a record of operations with the documented
-- behaviour that the sources rely on.
pub mod Bits
pub mod Lsb0
pub mod Codes
pub mod Commands
pub mod Messages
use ethercat.Base.{
  ℕ, zero, suc, ◌+◌, ◌-◌, ◌*◌, ◌/◌, ◌%◌, ◌^◌, ◌≤◌, ◌<◌, ◌≡◌, ◌≢◌, ◌⊎◌, ◌++◌, Option, none, some,
  List, length, get_elem?,
}

-- `BitRange` of the `bitfield` crate for a little-endian byte slice: bit `i` is bit `i % 8` of the byte
-- `i / 8`, and a field is named by its highest and lowest bit. The arguments stand as in the crate.
pub record Bitfield : Type 0 where
  pub bit_range : List ℕ → ℕ → ℕ → ℕ
  pub set_bit_range : List ℕ → ℕ → ℕ → ℕ → List ℕ
  pub length-set_bit_range :
      (bytes : List ℕ) (msb lsb v : ℕ) → length (set_bit_range bytes msb lsb v) ≡ length bytes
  -- A field reads back the value that was written, if that fits.
  pub bit_range-set_bit_range :
      (bytes : List ℕ) (msb lsb v : ℕ)
      → lsb ≤ msb
      → msb < 8 * length bytes
      → v < 2 ^ (msb + 1 - lsb)
      → bit_range (set_bit_range bytes msb lsb v) msb lsb ≡ v
  -- A write leaves a field alone that shares no bit with it.
  pub bit_range-set_bit_range_disjoint :
      (bytes : List ℕ) (msb lsb v msb' lsb' : ℕ)
      → (msb < lsb') ⊎ (msb' < lsb)
      → bit_range (set_bit_range bytes msb lsb v) msb' lsb' ≡ bit_range bytes msb' lsb'
  -- A write leaves the bytes alone in which the field has no bit.
  pub get_elem?-set_bit_range :
      (bytes : List ℕ) (msb lsb v i : ℕ)
      → lsb ≤ msb
      → (i < lsb / 8) ⊎ (msb / 8 < i)
      → get_elem? (set_bit_range bytes msb lsb v) i ≡ get_elem? bytes i
  -- A field does not depend on what follows its bytes.
  pub bit_range-append :
      (bytes rest : List ℕ) (msb lsb : ℕ)
      → msb < 8 * length bytes
      → bit_range (bytes ++ rest) msb lsb ≡ bit_range bytes msb lsb
  -- A write leaves alone what follows the bytes of its field.
  pub set_bit_range-append :
      (bytes rest : List ℕ) (msb lsb v : ℕ)
      → msb < 8 * length bytes
      → set_bit_range (bytes ++ rest) msb lsb v ≡ set_bit_range bytes msb lsb v ++ rest
  pub bit_range-lt : (bytes : List ℕ) (msb lsb : ℕ) → bit_range bytes msb lsb < 2 ^ (msb + 1 - lsb)

-- `BitRange` over `MSB0` slices, which number the bits of a byte from its highest one on: another order of
-- the bits, with the same laws.
pub record Msb0 : Type 0 where
  pub order : Bitfield

-- `TryFromPrimitive`: the variant whose discriminant is the number, if there is one.
pub record TryFromPrimitive {ℓ} (T : Type ℓ) (discriminant : T → ℕ) : Type ℓ where
  pub try_from : ℕ → Option T
  pub try_from-discriminant : (v : T) → try_from (discriminant v) ≡ some v
  pub try_from-none : (n : ℕ) → ((v : T) → discriminant v ≢ n) → try_from n ≡ none

-- `FromPrimitive` with a default variant.
pub record FromPrimitive {ℓ} (T : Type ℓ) (discriminant : T → ℕ) (default : T) : Type ℓ where
  pub from : ℕ → T
  pub from-discriminant : (v : T) → from (discriminant v) ≡ v
  pub from-default : (n : ℕ) → ((v : T) → discriminant v ≢ n) → from n ≡ default
