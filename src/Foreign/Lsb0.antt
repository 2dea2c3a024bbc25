-- ===== src/Foreign/Lsb0.antt =====
-- A bit-by-bit implementation of `Bitfield`, which shows that its laws can be met and lets tests run.
use ethercat.Base.{
  ℕ, zero, suc, ◌+◌, ◌-◌, ◌*◌, ◌/◌, ◌%◌, ◌^◌, ◌≤◌, ◌<◌, ◌≡◌, ◌≢◌, ◌⊎◌, inl, inr, refl, ap, ◌∙◌,
  List, [], ◌∷◌, ◌++◌, length, get_or, get_elem?, set, length-set, get_elem?-set_ne, arith,
}
use native.Mathlib.Nat.{pow-suc}
use native.Mathlib.Decide.{ℕ_discrete, dec_lt}
use ethercat.Foreign.{Bitfield, Msb0}

abbrev pub bit : ℕ → ℕ → ℕ
bit zero b = b % 2
bit (suc k) b = bit k (b / 2)

abbrev pub put : ℕ → ℕ → ℕ → ℕ
put zero v b = b / 2 * 2 + v
put (suc k) v b = put k v (b / 2) * 2 + b % 2

bit-lt : (k b : ℕ) → bit k b < 2
bit-lt zero b = omega arith
bit-lt (suc k) b = bit-lt k (b / 2)

bit-put : (k v b : ℕ) → v < 2 → bit k (put k v b) ≡ v
bit-put zero v b h = omega arith
bit-put (suc k) v b h = ap (bit k) (omega arith) ∙ bit-put k v (b / 2) h

bit-put_ne : (k m v b : ℕ) → v < 2 → k ≢ m → bit m (put k v b) ≡ bit m b
bit-put_ne zero zero v b h ne = absurd (ne refl)
bit-put_ne zero (suc m) v b h ne = ap (bit m) (omega arith)
bit-put_ne (suc k) zero v b h ne = omega arith
bit-put_ne (suc k) (suc m) v b h ne =
    ap (bit m) (omega arith) ∙ bit-put_ne k m v (b / 2) h (λ e. ne (ap suc e))

get_or-set_self : (xs : List ℕ) (i v : ℕ) → i < length xs → get_or (set xs i v) i 0 ≡ v
get_or-set_self [] i v h = absurd (omega arith)
get_or-set_self (x ∷ xs) zero v h = refl
get_or-set_self (x ∷ xs) (suc i) v h = get_or-set_self xs i v (omega arith)

get_or-set_out : (xs : List ℕ) (i v : ℕ) → length xs ≤ i → set xs i v ≡ xs
get_or-set_out [] i v h = refl
get_or-set_out (x ∷ xs) zero v h = absurd (omega arith)
get_or-set_out (x ∷ xs) (suc i) v h = ap (◌∷◌ x) (get_or-set_out xs i v (omega arith))

get_or-set_ne : (xs : List ℕ) (i j v : ℕ) → i ≢ j → get_or (set xs i v) j 0 ≡ get_or xs j 0
get_or-set_ne [] i j v ne = refl
get_or-set_ne (x ∷ xs) zero zero v ne = absurd (ne refl)
get_or-set_ne (x ∷ xs) zero (suc j) v ne = refl
get_or-set_ne (x ∷ xs) (suc i) zero v ne = refl
get_or-set_ne (x ∷ xs) (suc i) (suc j) v ne = get_or-set_ne xs i j v (λ e. ne (ap suc e))

abbrev pub bit_at : List ℕ → ℕ → ℕ
bit_at bytes i = bit (i % 8) (get_or bytes (i / 8) 0)

abbrev pub set_bit : List ℕ → ℕ → ℕ → List ℕ
set_bit bytes i v = set bytes (i / 8) (put (i % 8) v (get_or bytes (i / 8) 0))

bit_at-set_bit :
    (bytes : List ℕ) (i v : ℕ) → i < 8 * length bytes → v < 2 → bit_at (set_bit bytes i v) i ≡ v
bit_at-set_bit bytes i v h k =
    rw (get_or-set_self bytes (i / 8) (put (i % 8) v (get_or bytes (i / 8) 0)) (omega arith))
      (bit-put (i % 8) v (get_or bytes (i / 8) 0) k)

bit_at-set_bit_ne :
    (bytes : List ℕ) (i j v : ℕ) → v < 2 → i ≢ j → bit_at (set_bit bytes i v) j ≡ bit_at bytes j
bit_at-set_bit_ne bytes i j v k ne = elim (ℕ_discrete (i / 8) (j / 8)) [
  | no p ↦ rw (get_or-set_ne bytes (i / 8) (j / 8) (put (i % 8) v (get_or bytes (i / 8) 0)) p)
  | yes p ↦ rw p (elim (dec_lt (j / 8) (length bytes)) [
    | yes q ↦
        rw (get_or-set_self bytes (j / 8) (put (i % 8) v (get_or bytes (j / 8) 0)) q)
          (bit-put_ne (i % 8) (j % 8) v (get_or bytes (j / 8) 0) k (λ e. ne (omega arith)))
    | no q ↦
        rw (get_or-set_out bytes (j / 8) (put (i % 8) v (get_or bytes (j / 8) 0)) (omega arith))
  ])
]

-- The field of `n` bits from the bit `i` on, the lowest first.
abbrev pub read_bits : List ℕ → ℕ → ℕ → ℕ
read_bits bytes i zero = 0
read_bits bytes i (suc n) = bit_at bytes i + 2 * read_bits bytes (i + 1) n

abbrev pub write_bits : List ℕ → ℕ → ℕ → ℕ → List ℕ
write_bits bytes i zero v = bytes
write_bits bytes i (suc n) v = write_bits (set_bit bytes i (v % 2)) (i + 1) n (v / 2)

pub length-write_bits :
    (bytes : List ℕ) (i n v : ℕ) → length (write_bits bytes i n v) ≡ length bytes
length-write_bits bytes i zero v = refl
length-write_bits bytes i (suc n) v =
    length-write_bits (set_bit bytes i (v % 2)) (i + 1) n (v / 2)
    ∙ length-set bytes (i / 8) (put (i % 8) (v % 2) (get_or bytes (i / 8) 0))

bit_at-write_bits :
    (bytes : List ℕ) (i n v j : ℕ)
    → (j < i) ⊎ (i + n ≤ j)
    → bit_at (write_bits bytes i n v) j ≡ bit_at bytes j
bit_at-write_bits bytes i zero v j h = refl
bit_at-write_bits bytes i (suc n) v j h =
    bit_at-write_bits (set_bit bytes i (v % 2)) (i + 1) n (v / 2) j
      (elim h [ inl a ↦ inl (omega arith) | inr b ↦ inr (omega arith) ])
    ∙ bit_at-set_bit_ne bytes i j (v % 2) (omega arith) (omega arith)

pub read_bits-lt : (bytes : List ℕ) (i n : ℕ) → read_bits bytes i n < 2 ^ n
read_bits-lt bytes i zero = omega arith
read_bits-lt bytes i (suc n) =
    omega
      (arith, pow-suc 2 n, bit-lt (i % 8) (get_or bytes (i / 8) 0), read_bits-lt bytes (i + 1) n)

pub read_bits-write_bits :
    (bytes : List ℕ) (i n v : ℕ)
    → i + n ≤ 8 * length bytes
    → v < 2 ^ n
    → read_bits (write_bits bytes i n v) i n ≡ v
read_bits-write_bits bytes i zero v h k = omega arith
read_bits-write_bits bytes i (suc n) v h k = omega (
  arith,
  bit_at-write_bits (set_bit bytes i (v % 2)) (i + 1) n (v / 2) i (inl (omega arith)),
  bit_at-set_bit bytes i (v % 2) (omega arith) (omega arith),
  read_bits-write_bits (set_bit bytes i (v % 2)) (i + 1) n (v / 2)
      (omega (arith, length-set bytes (i / 8) (put (i % 8) (v % 2) (get_or bytes (i / 8) 0))))
      (omega (arith, pow-suc 2 n)),
)

read_bits-ext :
    (xs ys : List ℕ) (i n : ℕ)
    → ((j : ℕ) → i ≤ j → j < i + n → bit_at xs j ≡ bit_at ys j)
    → read_bits xs i n ≡ read_bits ys i n
read_bits-ext xs ys i zero h = refl
read_bits-ext xs ys i (suc n) h = omega (
  arith,
  h i (omega arith) (omega arith),
  read_bits-ext xs ys (i + 1) n (λ j a b. h j (omega arith) (omega arith)),
)

get_elem?-write_bits :
    (bytes : List ℕ) (i n v k : ℕ)
    → (k < i / 8) ⊎ (i + n ≤ 8 * k)
    → get_elem? (write_bits bytes i n v) k ≡ get_elem? bytes k
get_elem?-write_bits bytes i zero v k h = refl
get_elem?-write_bits bytes i (suc n) v k h =
    get_elem?-write_bits (set_bit bytes i (v % 2)) (i + 1) n (v / 2) k
      (elim h [ inl a ↦ inl (omega arith) | inr b ↦ inr (omega arith) ])
    ∙ get_elem?-set_ne bytes {i = i / 8} {j = k} (put (i % 8) (v % 2) (get_or bytes (i / 8) 0))
        (omega arith)

pub get_elem?-write_field :
    (bytes : List ℕ) (msb lsb v i : ℕ)
    → lsb ≤ msb
    → (i < lsb / 8) ⊎ (msb / 8 < i)
    → get_elem? (write_bits bytes lsb (msb + 1 - lsb) v) i ≡ get_elem? bytes i
get_elem?-write_field bytes msb lsb v i le (inl a) =
    get_elem?-write_bits bytes lsb (msb + 1 - lsb) v i (inl a)
get_elem?-write_field bytes msb lsb v i le (inr b) =
    get_elem?-write_bits bytes lsb (msb + 1 - lsb) v i (inr (omega arith))

pub read_field-write_disjoint :
    (bytes : List ℕ) (msb lsb v msb' lsb' : ℕ)
    → (msb < lsb') ⊎ (msb' < lsb)
    → read_bits (write_bits bytes lsb (msb + 1 - lsb) v) lsb' (msb' + 1 - lsb')
      ≡ read_bits bytes lsb' (msb' + 1 - lsb')
read_field-write_disjoint bytes msb lsb v msb' lsb' h =
    read_bits-ext _ bytes lsb' (msb' + 1 - lsb') λ j a b.
      bit_at-write_bits bytes lsb (msb + 1 - lsb) v j (elim h [
        | inl p ↦ elim (dec_lt j lsb) [ yes q ↦ inl q | no q ↦ inr (omega arith) ]
        | inr p ↦ inl (omega arith)
      ])

get_or-append : (xs ys : List ℕ) (i : ℕ) → i < length xs → get_or (xs ++ ys) i 0 ≡ get_or xs i 0
get_or-append [] ys i h = absurd (omega arith)
get_or-append (x ∷ xs) ys zero h = refl
get_or-append (x ∷ xs) ys (suc i) h = get_or-append xs ys i (omega arith)

pub read_field-append :
    (xs ys : List ℕ) (msb lsb : ℕ)
    → msb < 8 * length xs
    → read_bits (xs ++ ys) lsb (msb + 1 - lsb) ≡ read_bits xs lsb (msb + 1 - lsb)
read_field-append xs ys msb lsb h =
    read_bits-ext (xs ++ ys) xs lsb (msb + 1 - lsb)
      λ j a b. ap (bit (j % 8)) (get_or-append xs ys (j / 8) (omega arith))

set-append : (xs ys : List ℕ) (i v : ℕ) → i < length xs → set (xs ++ ys) i v ≡ set xs i v ++ ys
set-append [] ys i v h = absurd (omega arith)
set-append (x ∷ xs) ys zero v h = refl
set-append (x ∷ xs) ys (suc i) v h = ap (◌∷◌ x) (set-append xs ys i v (omega arith))

write_bits-append :
    (xs ys : List ℕ) (i n v : ℕ)
    → i + n ≤ 8 * length xs
    → write_bits (xs ++ ys) i n v ≡ write_bits xs i n v ++ ys
write_bits-append xs ys i zero v h = refl
write_bits-append xs ys i (suc n) v h =
    ap (λ b. write_bits (set (xs ++ ys) (i / 8) (put (i % 8) (v % 2) b)) (i + 1) n (v / 2))
      (get_or-append xs ys (i / 8) (omega arith))
    ∙ ap (λ l. write_bits l (i + 1) n (v / 2))
        (set-append xs ys (i / 8) (put (i % 8) (v % 2) (get_or xs (i / 8) 0)) (omega arith))
    ∙ write_bits-append (set_bit xs i (v % 2)) ys (i + 1) n (v / 2)
        (omega (arith, length-set xs (i / 8) (put (i % 8) (v % 2) (get_or xs (i / 8) 0))))

pub write_field-append :
    (xs ys : List ℕ) (msb lsb v : ℕ)
    → msb < 8 * length xs
    → write_bits (xs ++ ys) lsb (msb + 1 - lsb) v ≡ write_bits xs lsb (msb + 1 - lsb) v ++ ys
write_field-append xs ys msb lsb v h = elim (dec_lt msb lsb) [
  | yes l ↦ let e : msb + 1 - lsb ≡ 0 = omega arith in rw e refl
  | no l ↦ write_bits-append xs ys lsb (msb + 1 - lsb) v (omega arith)
]

instance abbrev pub lsb0 : Bitfield
lsb0 = record {
  bit_range = λ bytes msb lsb. read_bits bytes lsb (msb + 1 - lsb);
  set_bit_range = λ bytes msb lsb v. write_bits bytes lsb (msb + 1 - lsb) v;
  length-set_bit_range = λ bytes msb lsb v. length-write_bits bytes lsb (msb + 1 - lsb) v;
  bit_range-set_bit_range = λ bytes msb lsb v le lt fits.
      read_bits-write_bits bytes lsb (msb + 1 - lsb) v (omega arith) fits;
  bit_range-set_bit_range_disjoint = read_field-write_disjoint;
  get_elem?-set_bit_range = get_elem?-write_field;
  bit_range-append = read_field-append;
  set_bit_range-append = write_field-append;
  bit_range-lt = λ bytes msb lsb. read_bits-lt bytes lsb (msb + 1 - lsb);
}

instance abbrev pub msb0 : Msb0
msb0 = record { order = lsb0 }
