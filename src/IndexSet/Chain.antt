-- ===== src/IndexSet/Chain.antt =====
-- The free list of an `IndexSet`: which slots it links, and in what order.
use ethercat.Base.{
  ℕ, ◌≡◌, ◌⊎◌, inl, inr, ◌∙◌, some, List, [], ◌∷◌, arith, length, get_elem?, set, length-set,
  get_elem?-set_ne,
}
use ethercat.IndexSet.{IndexOption, next_free_index}

abbrev pub In : ℕ → List ℕ → Type 0
In i [] = ⊥
In i (x ∷ xs) = (i ≡ x) ⊎ In i xs

abbrev pub Distinct : List ℕ → Type 0
Distinct [] = Unit
Distinct (x ∷ xs) = (¬ In x xs) × Distinct xs

module _ {ℓ} {T : Type ℓ} where
  -- From the index `f` the slots link exactly the indices listed, and the last link leaves the array.
  abbrev pub Chain : List (IndexOption T) → ℕ → List ℕ → Type ℓ
  Chain items f [] = (f ≡ length items) × Unit {ℓ}
  Chain items f (i ∷ is) =
      (f ≡ i)
      × ((next : ℕ) × (get_elem? items i ≡ some (next_free_index next)) × Chain items next is)

  pub Chain-get_elem? :
      (items : List (IndexOption T)) (f : ℕ) (l : List ℕ) (i : ℕ)
      → Chain items f l
      → In i l
      → (next : ℕ) × (get_elem? items i ≡ some (next_free_index next))
  Chain-get_elem? items f [] i c m = absurd m
  Chain-get_elem? items f (x ∷ xs) i c (inl e) = (c.1.0, ground arith)
  Chain-get_elem? items f (x ∷ xs) i c (inr m) = Chain-get_elem? items c.1.0 xs i c.1.2 m

  -- A write to a slot that is not linked leaves the chain.
  pub Chain-set :
      (items : List (IndexOption T)) (f : ℕ) (l : List ℕ) (j : ℕ) (v : IndexOption T)
      → ¬ In j l
      → Chain items f l
      → Chain (set items j v) f l
  Chain-set items f [] j v out c = (omega (arith, length-set items j v, c.0), tt)
  Chain-set items f (i ∷ is) j v out c = (
    c.0,
    (
      c.1.0,
      get_elem?-set_ne items v (λ e. out (inl e)) ∙ c.1.1,
      Chain-set items c.1.0 is j v (λ m. out (inr m)) c.1.2,
    ),
  )
