-- ===== src/IndexSet.antt =====
-- src/util.rs: `IndexSet`, the fixed array of slots that hands out socket handles. A free slot holds
-- the index of the next free one, and `free_index` is the head of that list.
pub mod Chain
pub mod Laws
pub mod Update
pub mod Shape
mod Tests
use ethercat.Base.{
  ℕ, zero, suc, ◌+◌, Option, none, some, List, [], ◌∷◌, Result, ok, err, get_elem?, set,
}

pub data IndexOption {ℓ} (T : Type ℓ) : Type ℓ where
  next_free_index : ℕ → IndexOption T
  exist : T → IndexOption T

-- The array's length `N` is the length of `items`, which no operation changes.
pub record IndexSet {ℓ} (T : Type ℓ) : Type ℓ where
  pub free_index : ℕ
  pub items : List (IndexOption T)

module _ {ℓ} {T : Type ℓ} where
  -- The slots from `index` on, each linked to its neighbour.
  pub links : ℕ → ℕ → List (IndexOption T)
  links zero index = []
  links (suc left) index = next_free_index (index + 1) ∷ links left (index + 1)

  unfoldable pub new : ℕ → IndexSet T
  unfolding links
  new n = record { free_index = 0; items = links n 0 }

  -- The branches of `add_item` on the slot at `free_index`.
  add_at : IndexSet T → T → Option (IndexOption T) → Option (IndexSet T × Result ℕ T)
  add_at s item (some (next_free_index next)) = some (
    record s { free_index = next; items = set s.items s.free_index (exist item) },
    ok s.free_index,
  )
  add_at s item (some (exist _)) = none
  add_at s item none = some (s, err item)

  -- `none` is the `unreachable!()`.
  unfoldable pub add_item : IndexSet T → T → Option (IndexSet T × Result ℕ T)
  unfolding add_at
  add_item s item = add_at s item (get_elem? s.items s.free_index)

  remove_at : IndexSet T → ℕ → Option (IndexOption T) → IndexSet T × Option T
  remove_at s index (some (exist item)) = (
    record s { free_index = index; items = set s.items index (next_free_index s.free_index) },
    some item,
  )
  remove_at s index (some (next_free_index _)) = (s, none)
  remove_at s index none = (s, none)

  unfoldable pub remove_item : IndexSet T → ℕ → IndexSet T × Option T
  unfolding remove_at
  remove_item s index = remove_at s index (get_elem? s.items index)

  pub item_of : Option (IndexOption T) → Option T
  item_of (some (exist item)) = some item
  item_of (some (next_free_index _)) = none
  item_of none = none

  unfoldable pub get_item : IndexSet T → ℕ → Option T
  unfolding item_of
  get_item s index = item_of (get_elem? s.items index)

  modify_at : (T → T) → IndexSet T → ℕ → Option (IndexOption T) → IndexSet T
  modify_at f s index (some (exist item)) = record s { items = set s.items index (exist (f item)) }
  modify_at f s index (some (next_free_index _)) = s
  modify_at f s index none = s

  -- A write through the reference that `get_item_mut` returns.
  unfoldable pub get_item_mut : IndexSet T → ℕ → (T → T) → IndexSet T
  unfolding modify_at
  get_item_mut s index f = modify_at f s index (get_elem? s.items index)

  -- The `filter_map` of `items` and `items_mut`.
  pub live : List (IndexOption T) → List T
  live [] = []
  live (exist item ∷ slots) = item ∷ live slots
  live (next_free_index _ ∷ slots) = live slots

  unfoldable pub items_of : IndexSet T → List T
  unfolding live
  items_of s = live s.items
