-- ===== src/IndexSet/Laws.antt =====
-- What `IndexSet` promises its client: a partial map from handles to items, of fixed capacity.
use ethercat.Base.{
  ℕ, zero, suc, ◌+◌, ◌≤◌, ◌<◌, ◌≡◌, inl, inr, refl, ap, none, some, List, [], ◌∷◌, arith, length,
  get_elem?,
}
use native.Mathlib.Decide.{ℕ_discrete}
use ethercat.IndexSet.{IndexSet, next_free_index, links, new}
use ethercat.IndexSet.Chain.{In, Distinct, Chain}

-- The free list links every free slot once and no other.
pub record IsValid {ℓ} {T : Type ℓ} (s : IndexSet T) : Type ℓ where
  pub free : List ℕ
  pub chain : Chain s.items s.free_index free
  pub distinct : Distinct free
  pub covers : (i next : ℕ) → get_elem? s.items i ≡ some (next_free_index next) → In i free

abbrev pub capacity {ℓ} : {T : Type ℓ} → IndexSet T → ℕ
capacity s = length s.items

-- The indices from `start` on, `n` of them.
abbrev upto : ℕ → ℕ → List ℕ
upto zero start = []
upto (suc n) start = start ∷ upto n (start + 1)

not-In-upto : (n start i : ℕ) → i < start → ¬ In i (upto n start)
not-In-upto zero start i h m = m
not-In-upto (suc n) start i h (inl e) = absurd (omega arith)
not-In-upto (suc n) start i h (inr m) = not-In-upto n (start + 1) i (omega arith) m

upto-Distinct : (n start : ℕ) → Distinct (upto n start)
upto-Distinct zero start = tt
upto-Distinct (suc n) start =
    (not-In-upto n (start + 1) start (omega arith), upto-Distinct n (start + 1))

In-upto : (n start i : ℕ) → start ≤ i → i < start + n → In i (upto n start)
In-upto zero start i h k = absurd (omega arith)
In-upto (suc n) start i h k = elim (ℕ_discrete i start) [
  | yes e ↦ inl e
  | no e ↦ inr (In-upto n (start + 1) i (omega arith) (omega arith))
]

pub get_elem?-lt {ℓ} :
    {A : Type ℓ} (items : List A) (i : ℕ) {v : A} → get_elem? items i ≡ some v → i < length items
get_elem?-lt [] i h = cc
get_elem?-lt (x ∷ xs) zero h = omega arith
get_elem?-lt (x ∷ xs) (suc i) h = omega (arith, get_elem?-lt xs i h)

pub le_of_get_elem?-none {ℓ} :
    {A : Type ℓ} (items : List A) (i : ℕ) → get_elem? items i ≡ none → length items ≤ i
le_of_get_elem?-none [] i h = omega arith
le_of_get_elem?-none (x ∷ xs) zero h = cc
le_of_get_elem?-none (x ∷ xs) (suc i) h = omega (arith, le_of_get_elem?-none xs i h)

pub get_elem?-none {ℓ} :
    {A : Type ℓ} (items : List A) (i : ℕ) → length items ≤ i → get_elem? items i ≡ none
get_elem?-none [] i h = refl
get_elem?-none (x ∷ xs) zero h = absurd (omega arith)
get_elem?-none (x ∷ xs) (suc i) h = get_elem?-none xs i (omega arith)

module _ {ℓ} (T : Type ℓ) where
  length-links : (n start : ℕ) → length (links {T = T} n start) ≡ n
  unfolding links
  length-links zero start = refl
  length-links (suc n) start = ap suc (length-links n (start + 1))

  get_elem?-links :
      (n start i k : ℕ)
      → i < n
      → start + i ≡ k
      → get_elem? (links {T = T} n start) i ≡ some (next_free_index (k + 1))
  unfolding links
  get_elem?-links zero start i k h e = absurd (omega arith)
  get_elem?-links (suc n) start zero k h e = ap (λ j. some (next_free_index j)) (omega arith)
  get_elem?-links (suc n) start (suc i) k h e =
      get_elem?-links n (start + 1) i k (omega arith) (omega arith)

  Chain-links : (n start k : ℕ) → start + k ≡ n → Chain (links {T = T} n 0) start (upto k start)
  Chain-links n start zero e = (omega (arith, length-links n 0), tt)
  Chain-links n start (suc k) e = (
    refl,
    (
      start + 1,
      get_elem?-links n 0 start start (omega arith) (omega arith),
      Chain-links n (start + 1) k (omega arith),
    ),
  )

  -- `IndexSet::new` is well formed: all of its slots are linked as free.
  pub new-IsValid : (n : ℕ) → IsValid (new {T = T} n)
  unfolding new
  new-IsValid n = record {
    free = upto n 0;
    chain = Chain-links n 0 n (omega arith);
    distinct = upto-Distinct n 0;
    covers = λ i next h.
        In-upto n 0 i (omega arith) (omega (arith, get_elem?-lt (links n 0) i h, length-links n 0));
  }
