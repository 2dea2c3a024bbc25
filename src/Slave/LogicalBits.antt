-- ===== src/Slave/LogicalBits.antt =====
-- src/slave/slave.rs: `LogicalBits`, the place of a value in the image of the process data, and how it is read
-- and written there. src/slave/config.rs: `PdoEntry`, which hands on to it, as `FmmuConfig` does.
pub mod Laws
mod Tests
use ethercat.Base.{
  ℕ, zero, suc, ◌+◌, ◌-◌, ◌/◌, ◌%◌, ◌^◌, Bool, true, false, not, ◌&&◌, Option, none, some, List,
  length, get_elem?, set_at, ltb, leb, ◌==◌, if◌then◌else◌, ◌>>=◌,
}
use ethercat.Base.Bytes.{bit_or, bit_and, shl, shr}

pub record LogicalBits : Type 0 where
  pub logical_address : Option ℕ
  pub start_bit : ℕ
  pub bit_length : ℕ

unfoldable pub new : LogicalBits
new = record { logical_address = none; start_bit = 0; bit_length = 0 }

unfoldable pub byte_length : LogicalBits → ℕ
byte_length l =
    let length = l.bit_length + l.start_bit in
    if length % 8 == 0 then length / 8 else length / 8 + 1

unfoldable pub end_bit : LogicalBits → ℕ
end_bit l = let mod8 = (l.bit_length + l.start_bit) % 8 in if mod8 == 0 then 7 else mod8 - 1

-- `a - b`, which panics below 0.
abbrev pub less : ℕ → ℕ → Option ℕ
less a b = if ltb a b then none else some (a - b)

-- The rounds of `read_to_buffer` for the bytes before the last one, from `i` on.
read_rounds : ℕ → ℕ → ℕ → ℕ → List ℕ → List ℕ → Option (List ℕ)
read_rounds zero i start_bit pdo_offset image buf = some buf
read_rounds (suc n) i start_bit pdo_offset image buf = do
  byte ← get_elem? image (pdo_offset + i)
  v ← shr byte start_bit
  next ← get_elem? image (pdo_offset + i + 1)
  by ← less 7 start_bit
  next_v ← shl next by
  buf ← set_at i (bit_or v next_v) buf
  read_rounds n (i + 1) start_bit pdo_offset image buf

read_bytes : ℕ → ℕ → ℕ → List ℕ → List ℕ → Option (List ℕ)
unfolding read_rounds
read_bytes size start_bit pdo_offset image buf = do
  buf ← read_rounds (size - 1) 0 start_bit pdo_offset image buf
  byte ← get_elem? image (pdo_offset + size - 1)
  v ← shr byte start_bit
  set_at (size - 1) v buf

-- The outer `none` is a panic, the inner one the `None` that the source returns.
read_at : LogicalBits → ℕ → List ℕ → List ℕ → Option ℕ → Option (Option (List ℕ))
unfolding read_bytes
read_at l offset image buf none = some none
read_at l offset image buf (some start) = do
  pdo_offset ← less start offset
  last ← less (pdo_offset + byte_length l) 1
  if ltb last (length image)
      then (do
        final ← less (byte_length l) 1
        if ltb final (length buf)
            then (do
              buf ← read_bytes (byte_length l) l.start_bit pdo_offset image buf
              some (some buf))
            else some none)
      else some none

unfoldable pub read_to_buffer : LogicalBits → ℕ → List ℕ → List ℕ → Option (Option (List ℕ))
unfolding read_at
read_to_buffer l logical_address_offset process_data_image buf =
    read_at l logical_address_offset process_data_image buf l.logical_address

-- What a byte of the image keeps before the value is put into it.
kept : LogicalBits → ℕ → ℕ → Option ℕ
kept l i byte =
    if i == 0
    then (if l.start_bit == 0
        then some 0
        else (do by ← less 8 l.start_bit; mask ← shr 0xFF by; some (bit_and byte mask)))
    else if i == byte_length l - 1
    then (let mod8 = (l.bit_length + l.start_bit) % 8 in
        if mod8 == 0 then some 0 else (do mask ← shl 0xFF mod8; some (bit_and byte mask)))
    else some 0

-- The bits of the byte before that run over into this one.
carried : LogicalBits → ℕ → List ℕ → ℕ → Option ℕ
carried l i buf byte =
    if leb 1 i && not (l.start_bit == 0)
    then (do
      before ← get_elem? buf (i - 1)
      by ← less 8 l.start_bit
      over ← shr before by
      some (bit_or byte over))
    else some byte

write_rounds : ℕ → ℕ → LogicalBits → ℕ → List ℕ → List ℕ → Option (List ℕ)
unfolding kept carried
write_rounds zero i l pdo_offset image buf = some image
write_rounds (suc n) i l pdo_offset image buf = do
  byte ← get_elem? image (pdo_offset + i)
  byte ← kept l i byte
  value ← get_elem? buf i
  shifted ← shl value l.start_bit
  byte ← carried l i buf (bit_or byte shifted)
  image ← set_at (pdo_offset + i) byte image
  write_rounds n (i + 1) l pdo_offset image buf

write_at : LogicalBits → ℕ → List ℕ → List ℕ → Option ℕ → Option (Option (List ℕ))
unfolding write_rounds
write_at l offset image buf none = some none
write_at l offset image buf (some start) = do
  pdo_offset ← less start offset
  last ← less (pdo_offset + byte_length l) 1
  if ltb last (length image)
      then (do image ← write_rounds (byte_length l) 0 l pdo_offset image buf; some (some image))
      else some none

unfoldable pub write_from_buffer : LogicalBits → ℕ → List ℕ → List ℕ → Option (Option (List ℕ))
unfolding write_at
write_from_buffer l logical_address_offset process_data_image buf =
    write_at l logical_address_offset process_data_image buf l.logical_address
