-- ===== src/Slave/LogicalBits/Laws.antt =====
-- src/slave/slave.rs: what `LogicalBits` reads and writes in a single byte and in a word.
use ethercat.Base.{
  ℕ, zero, suc, ◌+◌, ◌-◌, ◌*◌, ◌/◌, ◌%◌, ◌^◌, ◌≤◌, ◌<◌, ◌≡◌, refl, ap, sym, ◌∙◌, Option, none, some,
  List, [], ◌∷◌, ◌++◌, lt→ltb, length, length-append, get_elem?, set, set_at, set_at-append, ltb,
  ◌==◌, if◌then◌else◌, ◌>>=◌, arith,
}
use native.Mathlib.Nat.{pow-le-pow_right}
use native.Mathlib.Decide.{ℕ_discrete}
use ethercat.Base.Bytes.{
  bit_and, shl, shr, put_bits, and_bits-zero, shl-some, shr_mask, shr-some, put_bits_back,
  put_bits_low, put_bits-lt, or_seventh, pow_add,
}
use ethercat.Slave.LogicalBits.{
  LogicalBits, byte_length, end_bit, read_to_buffer, write_from_buffer, less, read_at, write_at,
  read_bytes, read_rounds, write_rounds, kept,
}

-- `byte_length` is the number of bytes that the bits touch, and `end_bit` the place of the last of them in its byte.
pub byte_length_lem :
    (l : LogicalBits)
    → 1 ≤ l.bit_length
    → (8 * (byte_length l - 1) + end_bit l + 1 ≡ l.start_bit + l.bit_length)
      × (end_bit l < 8)
      × (1 ≤ byte_length l)
unfolding byte_length end_bit
byte_length_lem l h = ground arith

-- The bits lie in one byte.
pub record OneByte (l : LogicalBits) : Type 0 where
  pub some_bit : 1 ≤ l.bit_length
  pub within : l.start_bit + l.bit_length ≤ 8

byte_length-OneByte : (l : LogicalBits) → OneByte l → byte_length l ≡ 1
unfolding byte_length
byte_length-OneByte l o = ground arith

get_elem?-append :
    (xs : List ℕ) (x : ℕ) (ys : List ℕ) (i : ℕ)
    → i ≡ length xs
    → get_elem? (xs ++ (x ∷ ys)) i ≡ some x
get_elem?-append [] x ys zero h = refl
get_elem?-append [] x ys (suc i) h = absurd (omega arith)
get_elem?-append (y ∷ xs) x ys zero h = absurd (omega arith)
get_elem?-append (y ∷ xs) x ys (suc i) h = get_elem?-append xs x ys i (omega arith)

-- The mask of the first byte.
kept_first :
    (l : LogicalBits) (byte : ℕ)
    → l.start_bit < 8
    → kept l 0 byte ≡ some (bit_and byte (2 ^ l.start_bit - 1))
unfolding kept bit_and
kept_first l byte h = elim (ℕ_discrete l.start_bit 0) [
  | yes e ↦ rw e (ap some (sym (and_bits-zero 8 byte)))
  | no n ↦ ground (arith, shr_mask l.start_bit h (omega arith))
]

less-some : (a b n : ℕ) → a ≡ n + b → less a b ≡ some n
less-some a b n h = ground arith

pow_fits : (s n v : ℕ) → s + n ≤ 8 → v < 2 ^ n → v < 2 ^ (8 - s)
pow_fits s n v h k =
    omega (arith, pow-le-pow_right {n = 2} (omega arith) {i = n} {j = 8 - s} (omega arith))

-- The only round of a writing within a byte.
write_round :
    (l : LogicalBits) (front : List ℕ) (byte : ℕ) (rest : List ℕ) (v : ℕ) (buf : List ℕ)
    → OneByte l
    → v < 2 ^ (8 - l.start_bit)
    → write_rounds 1 0 l (length front) (front ++ (byte ∷ rest)) (v ∷ buf)
      ≡ some (front ++ ((byte % 2 ^ l.start_bit + v * 2 ^ l.start_bit) ∷ rest))
unfolding write_rounds
write_round l front byte rest v buf o k =
    let s = l.start_bit in
    rw
      (
        get_elem?-append front byte rest (length front + 0) (omega arith),
        kept_first l byte (omega (arith, o.within, o.some_bit)),
        shl-some s (omega (arith, o.within, o.some_bit)) v k,
        put_bits s (omega (arith, o.within, o.some_bit)) byte v k,
        set_at-append front (byte ∷ rest) (length front + 0) 0 (byte % 2 ^ s + v * 2 ^ s)
            (omega arith) (omega arith),
      )
      refl

-- A value of the length of the bits replaces what the byte has at and above them: the bits of the byte above the
-- value are cleared.
pub write_from_buffer_byte :
    (l : LogicalBits) (front : List ℕ) (byte : ℕ) (rest : List ℕ) (offset v : ℕ) (buf : List ℕ)
    → OneByte l
    → l.logical_address ≡ some (offset + length front)
    → v < 2 ^ l.bit_length
    → write_from_buffer l offset (front ++ (byte ∷ rest)) (v ∷ buf)
      ≡ some (some (front ++ ((byte % 2 ^ l.start_bit + v * 2 ^ l.start_bit) ∷ rest)))
unfolding write_from_buffer write_at write_rounds
write_from_buffer_byte l front byte rest offset v buf o a k =
    ap (write_at l offset (front ++ (byte ∷ rest)) (v ∷ buf)) a
    ∙ rw
        (
          less-some (offset + length front) offset (length front) (omega arith),
          byte_length-OneByte l o,
          less-some (length front + 1) 1 (length front) refl,
          lt→ltb (length front) (length (front ++ (byte ∷ rest)))
              (omega (arith, length-append front (byte ∷ rest))),
          write_round l front byte rest v buf o (pow_fits l.start_bit l.bit_length v o.within k),
        )
        refl

-- Reading goes through, if the image and the buffer are long enough.
read_at-read_bytes :
    (l : LogicalBits) (image buf : List ℕ) (offset pdo k : ℕ)
    → byte_length l ≡ suc k
    → pdo + k < length image
    → k < length buf
    → read_at l offset image buf (some (offset + pdo))
      ≡ (read_bytes (suc k) l.start_bit pdo image buf >>= λ buf. some (some buf))
unfolding read_at
read_at-read_bytes l image buf offset pdo k e h m =
    rw
      (
        less-some (offset + pdo) offset pdo (omega arith),
        e,
        less-some (pdo + suc k) 1 (pdo + k) (omega arith),
        lt→ltb (pdo + k) (length image) h,
        less-some (suc k) 1 k (omega arith),
        lt→ltb k (length buf) m,
      )
      refl

pub read_to_buffer_byte :
    (l : LogicalBits) (front : List ℕ) (byte : ℕ) (rest : List ℕ) (offset b : ℕ) (buf : List ℕ)
    → OneByte l
    → l.logical_address ≡ some (offset + length front)
    → read_to_buffer l offset (front ++ (byte ∷ rest)) (b ∷ buf)
      ≡ some (some ((byte / 2 ^ l.start_bit) ∷ buf))
unfolding read_to_buffer read_bytes read_rounds
read_to_buffer_byte l front byte rest offset b buf o a =
    ap (read_at l offset (front ++ (byte ∷ rest)) (b ∷ buf)) a
    ∙ read_at-read_bytes l (front ++ (byte ∷ rest)) (b ∷ buf) offset (length front) 0
        (byte_length-OneByte l o) (omega (arith, length-append front (byte ∷ rest))) (omega arith)
    ∙ rw
        (
          get_elem?-append front byte rest (length front + 1 - 1) (omega arith),
          shr-some byte l.start_bit (omega (arith, o.within, o.some_bit)),
          set_at-append [] (b ∷ buf) 0 0 (byte / 2 ^ l.start_bit) refl (omega arith),
        )
        refl

-- A value that is written within a byte is read back there, and the bits above it are lost: the byte holds nothing
-- beyond the value.
pub write_from_buffer-read_to_buffer :
    (l : LogicalBits) (front : List ℕ) (byte : ℕ) (rest : List ℕ) (offset v b : ℕ)
    → OneByte l
    → l.logical_address ≡ some (offset + length front)
    → v < 2 ^ l.bit_length
    → (new : ℕ) × (write_from_buffer l offset (front ++ (byte ∷ rest)) (v ∷ [])
        ≡ some (some (front ++ (new ∷ rest))))
      × (read_to_buffer l offset (front ++ (new ∷ rest)) (b ∷ []) ≡ some (some (v ∷ [])))
      × (new % 2 ^ l.start_bit ≡ byte % 2 ^ l.start_bit)
      × (new < 2 ^ (l.start_bit + l.bit_length))
write_from_buffer-read_to_buffer l front byte rest offset v b o a k =
    let s = l.start_bit in
    let small : s < 8 = omega (arith, o.within, o.some_bit) in
    (
      byte % 2 ^ s + v * 2 ^ s,
      write_from_buffer_byte l front byte rest offset v [] o a k,
      read_to_buffer_byte l front (byte % 2 ^ s + v * 2 ^ s) rest offset b [] o a
          ∙ ap (λ x. some (some (x ∷ []))) (put_bits_back s small byte v),
      put_bits_low s small byte v,
      rw (pow_add s l.bit_length) (put_bits-lt s small byte v (2 ^ l.bit_length) k),
    )

byte_length_word : (l : LogicalBits) → l.start_bit ≡ 0 → l.bit_length ≡ 16 → byte_length l ≡ 2
unfolding byte_length
byte_length_word l s n = ground arith

get_elem?-append_next :
    (xs : List ℕ) (x y : ℕ) (ys : List ℕ) (i : ℕ)
    → i ≡ length xs + 1
    → get_elem? (xs ++ (x ∷ y ∷ ys)) i ≡ some y
get_elem?-append_next [] x y ys i h = ap (get_elem? (x ∷ y ∷ ys)) h
get_elem?-append_next (z ∷ xs) x y ys zero h = absurd (omega arith)
get_elem?-append_next (z ∷ xs) x y ys (suc i) h = get_elem?-append_next xs x y ys i (omega arith)

unshifted : (v : ℕ) → shr v 0 ≡ some v
unfolding shr
unshifted v = ap some (omega arith)

shifted : (v : ℕ) → shl v 7 ≡ some (v * 2 ^ 7 % 2 ^ 8)
unfolding shl
shifted v = refl

word_bytes :
    (front : List ℕ) (lo high : ℕ) (rest : List ℕ) (a b : ℕ)
    → lo < 128
    → (read_bytes 2 0 (length front) (front ++ (lo ∷ high ∷ rest)) (a ∷ b ∷ []) >>= λ buf.
        some (some buf))
      ≡ some (some ((lo + 128 * (high % 2)) ∷ high ∷ []))
unfolding read_bytes read_rounds ethercat.Base.Slices.set_at
word_bytes front lo high rest a b h =
    rw
      (
        get_elem?-append front lo (high ∷ rest) (length front + 0) (omega arith),
        unshifted lo,
        get_elem?-append_next front lo high rest (length front + 0 + 1) (omega arith),
        shifted high,
        or_seventh lo high h,
        get_elem?-append_next front lo high rest (length front + 2 - 1) (omega arith),
        unshifted high,
      )
      refl

-- A word of the image that is aligned to a byte, and whose low byte lies below 128, is read into a buffer of two bytes
-- with its high byte as it is, but with 128 more in its low byte if the high byte is odd: the lowest bit of the high
-- byte stands in both.
pub read_to_buffer_word :
    (l : LogicalBits) (front : List ℕ) (low high : ℕ) (rest : List ℕ) (offset a b : ℕ)
    → l.start_bit ≡ 0
    → l.bit_length ≡ 16
    → l.logical_address ≡ some (offset + length front)
    → low < 128
    → read_to_buffer l offset (front ++ (low ∷ high ∷ rest)) (a ∷ b ∷ [])
      ≡ some (some ((low + 128 * (high % 2)) ∷ high ∷ []))
unfolding read_to_buffer read_bytes read_rounds
read_to_buffer_word l front lo high rest offset a b s n e h =
    ap (read_at l offset (front ++ (lo ∷ high ∷ rest)) (a ∷ b ∷ [])) e
    ∙ read_at-read_bytes l (front ++ (lo ∷ high ∷ rest)) (a ∷ b ∷ []) offset (length front) 1
        (byte_length_word l s n) (omega (arith, length-append front (lo ∷ high ∷ rest)))
        (omega arith)
    ∙ ap
        (λ z. read_bytes 2 z (length front) (front ++ (lo ∷ high ∷ rest)) (a ∷ b ∷ []) >>= λ buf.
          some (some buf))
        s
    ∙ word_bytes front lo high rest a b h
