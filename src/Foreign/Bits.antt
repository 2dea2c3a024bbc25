-- ===== src/Foreign/Bits.antt =====
-- Access to a field of a byte slice as the generated getters and setters make it: an index out of the
-- slice panics.
use ethercat.Base.{
  ℕ, ◌/◌, ◌<◌, ◌≡◌, Bool, not, Option, none, some, List, length, ltb, ◌==◌, if◌then◌else◌, ◌>>=◌,
  arith,
}
use ethercat.Foreign.{Bitfield}

-- A write that did not panic and kept the length.
abbrev pub Written : List ℕ → Option (List ℕ) → Type 0
Written bytes out = (bytes' : List ℕ) × (out ≡ some bytes') × (length bytes' ≡ length bytes)

module _ ⦃bf : Bitfield⦄ where
  unfoldable pub read_field : List ℕ → ℕ → ℕ → Option ℕ
  read_field bytes msb lsb =
      if ltb (msb / 8) (length bytes) then some (bf.bit_range bytes msb lsb) else none

  unfoldable pub write_field : List ℕ → ℕ → ℕ → ℕ → Option (List ℕ)
  write_field bytes msb lsb v =
      if ltb (msb / 8) (length bytes) then some (bf.set_bit_range bytes msb lsb v) else none

  -- A field of one bit is a flag.
  unfoldable pub read_flag : List ℕ → ℕ → Option Bool
  unfolding read_field
  read_flag bytes bit = do v ← read_field bytes bit bit; some (not (v == 0))

  unfoldable pub write_flag : List ℕ → ℕ → Bool → Option (List ℕ)
  unfolding write_field
  write_flag bytes bit v = write_field bytes bit bit (if v then 1 else 0)

  pub read_field-some :
      (bytes : List ℕ) (msb lsb : ℕ)
      → msb / 8 < length bytes
      → read_field bytes msb lsb ≡ some (bf.bit_range bytes msb lsb)
  unfolding read_field
  read_field-some bytes msb lsb h = ground arith

  pub read_flag-some :
      (bytes : List ℕ) (bit : ℕ)
      → bit / 8 < length bytes
      → read_flag bytes bit ≡ some (not (bf.bit_range bytes bit bit == 0))
  unfolding read_flag
  read_flag-some bytes bit h = ground arith

  pub write_field-some :
      (bytes : List ℕ) (msb lsb v : ℕ)
      → msb / 8 < length bytes
      → write_field bytes msb lsb v ≡ some (bf.set_bit_range bytes msb lsb v)
  unfolding write_field
  write_field-some bytes msb lsb v h = ground arith

  pub write_flag-some :
      (bytes : List ℕ) (bit : ℕ) (v : Bool)
      → bit / 8 < length bytes
      → write_flag bytes bit v ≡ some (bf.set_bit_range bytes bit bit (if v then 1 else 0))
  unfolding write_flag
  write_flag-some bytes bit v h = ground arith

  pub write_field-Written :
      (bytes : List ℕ) (msb lsb v : ℕ)
      → msb / 8 < length bytes
      → Written bytes (write_field bytes msb lsb v)
  write_field-Written bytes msb lsb v h = (
    bf.set_bit_range bytes msb lsb v,
    write_field-some bytes msb lsb v h,
    bf.length-set_bit_range bytes msb lsb v,
  )

  pub write_flag-Written :
      (bytes : List ℕ) (bit : ℕ) (v : Bool)
      → bit / 8 < length bytes
      → Written bytes (write_flag bytes bit v)
  write_flag-Written bytes bit v h = (
    bf.set_bit_range bytes bit bit (if v then 1 else 0),
    write_flag-some bytes bit v h,
    bf.length-set_bit_range bytes bit bit (if v then 1 else 0),
  )
