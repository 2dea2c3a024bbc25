-- ===== src/Slave/LogicalBits/Tests.antt =====
-- The laws of `LogicalBits` at concrete bits.
use ethercat.Base.{ℕ, ◌%◌, ◌^◌, ◌<◌, ◌≡◌, refl, some, [], ◌∷◌, arith}
use ethercat.Slave.LogicalBits.{LogicalBits, read_to_buffer, write_from_buffer}
use ethercat.Slave.LogicalBits.Laws.{write_from_buffer-read_to_buffer, read_to_buffer_word}

-- Three bits from the second bit of the byte at 0x1001 on.
abbrev three_bits : LogicalBits
three_bits = record { logical_address = some 0x1001; start_bit = 2; bit_length = 3 }

abbrev word : LogicalBits
word = record { logical_address = some 0x1001; start_bit = 0; bit_length = 16 }

write_from_buffer-read_to_buffer_example :
    (new : ℕ) × (write_from_buffer three_bits 0x1000 (9 ∷ 0xFF ∷ []) (5 ∷ [])
      ≡ some (some (9 ∷ new ∷ [])))
    × (read_to_buffer three_bits 0x1000 (9 ∷ new ∷ []) (0 ∷ []) ≡ some (some (5 ∷ [])))
    × (new % 2 ^ 2 ≡ 0xFF % 2 ^ 2)
    × (new < 2 ^ 5)
write_from_buffer-read_to_buffer_example =
    write_from_buffer-read_to_buffer three_bits (9 ∷ []) 0xFF [] 0x1000 5 0
      (record { some_bit = omega arith; within = omega arith }) refl (omega arith)

read_to_buffer_word_example :
    read_to_buffer word 0x1000 (9 ∷ 0 ∷ 1 ∷ []) (0 ∷ 0 ∷ []) ≡ some (some (128 ∷ 1 ∷ []))
read_to_buffer_word_example =
    read_to_buffer_word word (9 ∷ []) 0 1 [] 0x1000 0 0 refl refl refl (omega arith)
