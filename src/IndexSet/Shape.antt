-- ===== src/IndexSet/Shape.antt =====
-- src/util.rs: the free list of an `IndexSet` does not depend on the items: whatever changes only those keeps the
-- set well formed.
use ethercat.Base.{
  some_inj, ℕ, zero, suc, ◌≡◌, refl, ap, sym, ◌∙◌, Option, none, some, List, [], ◌∷◌, map, length,
  length-map, get_elem?, get_elem?-set_ne, ◌≢◌, set, arith,
}
use ethercat.IndexSet.{
  IndexOption, IndexSet, exist, next_free_index, get_item, get_item_mut, item_of, modify_at,
}
use ethercat.IndexSet.Chain.{Chain}
use ethercat.IndexSet.Laws.{IsValid}

module _ {T : Type 0} where
  abbrev pub link : IndexOption T → Option ℕ
  link (next_free_index n) = some n
  link (exist item) = none

  -- The links of the free slots, with nothing for a slot in use.
  abbrev pub links_of : List (IndexOption T) → List (Option ℕ)
  links_of slots = map link slots

  get_elem?-links_of :
      (slots : List (IndexOption T)) (i n : ℕ)
      → get_elem? slots i ≡ some (next_free_index n)
      → get_elem? (links_of slots) i ≡ some (some n)
  get_elem?-links_of [] i n h = cc
  get_elem?-links_of (x ∷ xs) zero n h = ap (λ o. elim o [ none ↦ none | some y ↦ some (link y) ]) h
  get_elem?-links_of (x ∷ xs) (suc i) n h = get_elem?-links_of xs i n h

  links_of-get_elem? :
      (slots : List (IndexOption T)) (i n : ℕ)
      → get_elem? (links_of slots) i ≡ some (some n)
      → get_elem? slots i ≡ some (next_free_index n)
  links_of-get_elem? [] i n h = cc
  links_of-get_elem? (next_free_index m ∷ xs) zero n h = cc
  links_of-get_elem? (exist item ∷ xs) zero n h = cc
  links_of-get_elem? (x ∷ xs) (suc i) n h = links_of-get_elem? xs i n h

  same_link :
      (xs ys : List (IndexOption T)) (i n : ℕ)
      → links_of xs ≡ links_of ys
      → get_elem? xs i ≡ some (next_free_index n)
      → get_elem? ys i ≡ some (next_free_index n)
  same_link xs ys i n e h =
      links_of-get_elem? ys i n (ap (λ l. get_elem? l i) (sym e) ∙ get_elem?-links_of xs i n h)

  pub same_length :
      (xs ys : List (IndexOption T)) → links_of xs ≡ links_of ys → length xs ≡ length ys
  same_length xs ys e = sym (length-map xs link) ∙ ap length e ∙ length-map ys link

  Chain-links_of :
      (xs ys : List (IndexOption T)) (f : ℕ) (l : List ℕ)
      → links_of xs ≡ links_of ys
      → Chain xs f l
      → Chain ys f l
  Chain-links_of xs ys f [] e c = (c.0 ∙ same_length xs ys e, tt)
  Chain-links_of xs ys f (i ∷ is) e c =
      (c.0, (c.1.0, same_link xs ys i c.1.0 e c.1.1, Chain-links_of xs ys c.1.0 is e c.1.2))

  pub IsValid-links_of :
      (s : IndexSet T) (items : List (IndexOption T))
      → links_of s.items ≡ links_of items
      → IsValid s
      → IsValid (record s { items = items })
  IsValid-links_of s items e v = record {
    free = v.free;
    chain = Chain-links_of s.items items s.free_index v.free e v.chain;
    distinct = v.distinct;
    covers = λ i next h. v.covers i next (same_link items s.items i next (sym e) h);
  }

  links_of-set :
      (slots : List (IndexOption T)) (i : ℕ) (old new : T)
      → get_elem? slots i ≡ some (exist old)
      → links_of (set slots i (exist new)) ≡ links_of slots
  links_of-set [] i old new h = refl
  links_of-set (x ∷ xs) zero old new h =
      ap (λ o. elim o [ none ↦ none ∷ links_of xs | some y ↦ link y ∷ links_of xs ]) (sym h)
  links_of-set (x ∷ xs) (suc i) old new h = ap (◌∷◌ (link x)) (links_of-set xs i old new h)

  -- A write to an item keeps the links.
  pub links_of-get_item_mut :
      (s : IndexSet T) (i : ℕ) (f : T → T) → links_of (get_item_mut s i f).items ≡ links_of s.items
  unfolding get_item_mut modify_at
  links_of-get_item_mut s i f = go (get_elem? s.items i) refl
    where
      go :
          (o : Option (IndexOption T))
          → get_elem? s.items i ≡ o
          → links_of (modify_at f s i o).items ≡ links_of s.items
      go none e = refl
      go (some (next_free_index n)) e = refl
      go (some (exist item)) e = links_of-set s.items i item (f item) e

  pub free_index-get_item_mut :
      (s : IndexSet T) (i : ℕ) (f : T → T) → (get_item_mut s i f).free_index ≡ s.free_index
  unfolding get_item_mut
  free_index-get_item_mut s i f = ground arith

  -- A write to an item that is there goes to its slot.
  pub get_item_mut-set :
      (s : IndexSet T) (i : ℕ) (x : T) (f : T → T)
      → get_item s i ≡ some x
      → (get_item_mut s i f).items ≡ set s.items i (exist (f x))
  unfolding get_item get_item_mut item_of modify_at
  get_item_mut-set s i x f h = go (get_elem? s.items i) h
    where
      go :
          (o : Option (IndexOption T))
          → item_of o ≡ some x
          → (modify_at f s i o).items ≡ set s.items i (exist (f x))
      go none e = cc
      go (some (next_free_index n)) e = cc
      go (some (exist y)) e = ap (λ y. set s.items i (exist (f y))) (some_inj e)

  item_of-set_self :
      (slots : List (IndexOption T)) (i : ℕ) (x y : T)
      → item_of (get_elem? slots i) ≡ some x
      → item_of (get_elem? (set slots i (exist y)) i) ≡ some y
  unfolding item_of
  item_of-set_self [] i x y h = cc
  item_of-set_self (z ∷ zs) zero x y h = refl
  item_of-set_self (z ∷ zs) (suc i) x y h = item_of-set_self zs i x y h

  pub get_item-get_item_mut_self :
      (s : IndexSet T) (i : ℕ) (x : T) (f : T → T)
      → get_item s i ≡ some x
      → get_item (get_item_mut s i f) i ≡ some (f x)
  unfolding get_item
  get_item-get_item_mut_self s i x f h =
      ap (λ l. item_of (get_elem? l i)) (get_item_mut-set s i x f h)
      ∙ item_of-set_self s.items i x (f x) h

  pub get_item-get_item_mut_ne :
      (s : IndexSet T) (i j : ℕ) (x : T) (f : T → T)
      → get_item s i ≡ some x
      → i ≢ j
      → get_item (get_item_mut s i f) j ≡ get_item s j
  unfolding get_item
  get_item-get_item_mut_ne s i j x f h n =
      ap (λ l. item_of (get_elem? l j)) (get_item_mut-set s i x f h)
      ∙ ap item_of (get_elem?-set_ne s.items (exist (f x)) n)
