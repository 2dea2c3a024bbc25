-- ===== src/IndexSet/Update.antt =====
-- `add_item`, `remove_item` and `get_item_mut` on a well-formed `IndexSet`.
use ethercat.Base.{
  ℕ, ◌<◌, ◌≡◌, ◌≢◌, inl, inr, refl, sym, ◌∙◌, ap, Option, none, some, List, [], ◌∷◌, arith, length,
  get_elem?, set, length-set, get_elem?-set_self, get_elem?-set_ne, Result, ok, err, ◌==◌,
  if◌then◌else◌,
}
use mathlib.Core.Path.{subst}
use mathlib.Core.Option
use native.Mathlib.Decide.{ℕ_discrete}
use ethercat.IndexSet.{
  IndexOption, IndexSet, next_free_index, exist, add_item, remove_item, get_item, get_item_mut,
  item_of, add_at,
}
use ethercat.IndexSet.Chain.{In, Distinct, Chain, Chain-get_elem?, Chain-set}
use ethercat.IndexSet.Laws.{IsValid, get_elem?-lt, le_of_get_elem?-none, get_elem?-none, capacity}

module _ {ℓ} {T : Type ℓ} where
  get_item-set :
      (items : List (IndexOption T)) (i j : ℕ) (v : IndexOption T)
      → i < length items
      → item_of (get_elem? (set items i v) j)
        ≡ (if i == j then item_of (some v) else item_of (get_elem? items j))
  get_item-set items i j v h = elim (ℕ_discrete i j) [
    | yes e ↦ ground (arith, get_elem?-set_self items i v h)
    | no e ↦ ground (arith, get_elem?-set_ne items {i = i} {j = j} v e)
  ]

  -- What a successful `add_item` did.
  pub record Added (s : IndexSet T) (item : T) (t : IndexSet T) (handle : ℕ) : Type ℓ where
    pub valid : IsValid t
    pub same_capacity : capacity t ≡ capacity s
    pub was_free : get_item s handle ≡ none
    pub in_range : handle < capacity s
    pub view : (j : ℕ) → get_item t j ≡ (if handle == j then some item else get_item s j)

  -- What `add_item` may answer: a free slot was taken, or every slot is in use and nothing changed.
  pub data AddOutcome (s : IndexSet T) (item : T) : Option (IndexSet T × Result ℕ T) → Type ℓ where
    added :
        {t : IndexSet T} {handle : ℕ}
        → Added s item t handle
        → AddOutcome s item (some (t, ok handle))
    full : ((j : ℕ) → j < capacity s → get_item s j ≢ none) → AddOutcome s item (some (s, err item))

  full_of_no_free :
      (s : IndexSet T)
      → ((i next : ℕ) → get_elem? s.items i ≡ some (next_free_index next) → ⊥)
      → (j : ℕ) → j < capacity s
      → get_item s j ≢ none
  unfolding get_item
  full_of_no_free s h j lt = go (get_elem? s.items j) refl
    where
      go : (o : Option (IndexOption T)) → get_elem? s.items j ≡ o → get_item s j ≢ none
      go none e = absurd (omega (arith, le_of_get_elem?-none s.items j e))
      go (some (exist x)) e = rw e (λ h. cc)
      go (some (next_free_index n)) e = absurd (h j n e)

  -- The slot `i`, free and first of the chain, is taken for `item`.
  take_slot :
      (s : IndexSet T) (item : T) (i next : ℕ) (is : List ℕ)
      → Chain s.items next is
      → Distinct (i ∷ is)
      → ((j n : ℕ) → get_elem? s.items j ≡ some (next_free_index n) → In j (i ∷ is))
      → get_elem? s.items i ≡ some (next_free_index next)
      → Added s item (record s { free_index = next; items = set s.items i (exist item) }) i
  unfolding get_item
  take_slot s item i next is c d cov e =
      let lt : i < length s.items = get_elem?-lt s.items i e in
      record {
        valid = record {
          free = is;
          chain = Chain-set s.items next is i (exist item) d.0 c;
          distinct = d.1;
          covers = λ j n h. elim (ℕ_discrete i j) [
            | yes p ↦ absurd (ground (arith, get_elem?-set_self s.items i (exist item) lt))
            | no p ↦
                elim (cov j n (sym (get_elem?-set_ne s.items {i = i} {j = j} (exist item) p) ∙ h)) [
                  | inl q ↦ absurd (p (sym q))
                  | inr m ↦ m
                ]
          ];
        };
        same_capacity = length-set s.items i (exist item);
        was_free = rw e;
        in_range = lt;
        view = λ j. get_item-set s.items i j (exist item) lt;
      }

  -- On a well-formed set `add_item` does not reach `unreachable!()`: it takes a free slot, leaves the
  -- others alone and keeps the set well formed, or refuses because all slots are in use.
  pub add_item_lem : (s : IndexSet T) (item : T) → IsValid s → AddOutcome s item (add_item s item)
  unfolding add_item get_item
  add_item_lem s item v = go v.free v.chain v.distinct v.covers
    where
      go :
          (l : List ℕ)
          → Chain s.items s.free_index l
          → Distinct l
          → ((j n : ℕ) → get_elem? s.items j ≡ some (next_free_index n) → In j l)
          → AddOutcome s item (add_at s item (get_elem? s.items s.free_index))
      go [] c d cov =
          rw (get_elem?-none s.items s.free_index (omega arith))
            (full (full_of_no_free s (λ j n h. cov j n h)))
      go (i ∷ is) c d cov =
          let e : get_elem? s.items s.free_index ≡ some (next_free_index c.1.0) =
            ap (get_elem? s.items) c.0 ∙ c.1.1 in
          rw e (
            added (
              take_slot s item s.free_index c.1.0 is c.1.2 (rw c.0 d)
                (λ j n h. subst (λ x. In j (x ∷ is)) (sym c.0) (cov j n h)) e))

  -- The slot `i`, in use, becomes the first of the chain.
  pub record Removed (s : IndexSet T) (handle : ℕ) (t : IndexSet T) : Type ℓ where
    pub valid : IsValid t
    pub same_capacity : capacity t ≡ capacity s
    pub view : (j : ℕ) → get_item t j ≡ (if handle == j then none else get_item s j)

  release_slot :
      (s : IndexSet T) (i : ℕ) (item : T)
      → IsValid s
      → get_elem? s.items i ≡ some (exist item)
      → Removed s i
          (record s { free_index = i; items = set s.items i (next_free_index s.free_index) })
  unfolding get_item
  release_slot s i item v e =
      let lt : i < length s.items = get_elem?-lt s.items i e in
      let out : ¬ In i v.free =
        λ m. (let (n, q) = Chain-get_elem? s.items s.free_index v.free i v.chain m in cc) in
      record {
        valid = record {
          free = i ∷ v.free;
          chain = (
            refl,
            (
              s.free_index,
              get_elem?-set_self s.items i (next_free_index s.free_index) lt,
              Chain-set s.items s.free_index v.free i (next_free_index s.free_index) out v.chain,
            ),
          );
          distinct = (out, v.distinct);
          covers = λ j n h. elim (ℕ_discrete j i) [
            | yes p ↦ inl p
            | no p ↦ inr (
                v.covers j n (
                  sym (get_elem?-set_ne s.items (next_free_index s.free_index) (λ q. p (sym q)))
                  ∙ h))
          ];
        };
        same_capacity = length-set s.items i (next_free_index s.free_index);
        view = λ j. get_item-set s.items i j (next_free_index s.free_index) lt;
      }

  -- On a well-formed set `remove_item` returns what the handle stood for, frees exactly that slot and
  -- keeps the set well formed; an unused or foreign handle changes nothing.
  pub remove_item_lem :
      (s : IndexSet T) (handle : ℕ)
      → IsValid s
      → ((remove_item s handle).1 ≡ get_item s handle) × Removed s handle (remove_item s handle).0
  unfolding remove_item get_item
  remove_item_lem s i v = go (get_elem? s.items i) refl
    where
      unchanged : get_item s i ≡ none → Removed s i s
      unchanged e = record { valid = v; same_capacity = refl; view = λ j. ground (arith, e) }

      go :
          (o : Option (IndexOption T))
          → get_elem? s.items i ≡ o
          → ((remove_item s i).1 ≡ get_item s i) × Removed s i (remove_item s i).0
      go none e = rw (e, remove_item) (refl, unchanged (rw e))
      go (some (exist x)) e = rw (e, remove_item) (refl, release_slot s i x v e)
      go (some (next_free_index n)) e = rw (e, remove_item) (refl, unchanged (rw e))

  -- A handle that was just freed is the next one given out.
  pub add_item-remove_item :
      (s : IndexSet T) (handle : ℕ) (old item : T)
      → get_item s handle ≡ some old
      → (t : IndexSet T) × (add_item (remove_item s handle).0 item ≡ some (t, ok handle))
  unfolding add_item remove_item get_item
  add_item-remove_item s i old item g = go (get_elem? s.items i) refl
    where
      go :
          (o : Option (IndexOption T))
          → get_elem? s.items i ≡ o
          → (t : IndexSet T) × (add_item (remove_item s i).0 item ≡ some (t, ok i))
      go none e = absurd (cc)
      go (some (next_free_index n)) e = absurd (cc)
      go (some (exist x)) e =
          rw (e, remove_item)
            (rw
              (get_elem?-set_self s.items i (next_free_index s.free_index)
                (get_elem?-lt s.items i e))
              (_, refl))

  -- A write through `get_item_mut` changes the item behind the handle, and neither the other items nor
  -- which handles are in use.
  pub get_item-get_item_mut :
      (s : IndexSet T) (handle j : ℕ) (f : T → T)
      → get_item (get_item_mut s handle f) j
        ≡ (if handle == j then Option.map f (get_item s j) else get_item s j)
  unfolding get_item get_item_mut
  get_item-get_item_mut s i j f = go (get_elem? s.items i) refl
    where
      go :
          (o : Option (IndexOption T))
          → get_elem? s.items i ≡ o
          → get_item (get_item_mut s i f) j
            ≡ (if i == j then Option.map f (get_item s j) else get_item s j)
      go none e = rw (e, get_item_mut) (ground (arith, e))
      go (some (next_free_index n)) e = rw (e, get_item_mut) (ground (arith, e))
      go (some (exist x)) e =
          rw (e, get_item_mut)
            (rw (get_item-set s.items i j (exist (f x)) (get_elem?-lt s.items i e))
              (ground (arith, e)))
