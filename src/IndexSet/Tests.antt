-- ===== src/IndexSet/Tests.antt =====
-- Runs of an `IndexSet` of three slots, and the laws at them.
use ethercat.Base.{ℕ, ◌≡◌, refl, Option, some, Result, ok, [], ◌∷◌}
use mathlib.Core.Path.{subst}
use native.Mathlib.Omega.{arith}
use ethercat.IndexSet.{IndexSet, new, add_item, remove_item, get_item, next_free_index, exist}
use ethercat.IndexSet.Laws.{IsValid, new-IsValid}
use ethercat.IndexSet.Update.{AddOutcome, Removed, add_item_lem, remove_item_lem}

abbrev empty : IndexSet ℕ
empty = record {
  free_index = 0;
  items = next_free_index 1 ∷ next_free_index 2 ∷ next_free_index 3 ∷ [];
}

abbrev one_item : IndexSet ℕ
one_item = record { free_index = 1; items = exist 100 ∷ next_free_index 2 ∷ next_free_index 3 ∷ [] }

new_three : new 3 ≡ empty
unfolding new
new_three = refl

add_first : add_item empty 100 ≡ some (one_item, ok 0)
unfolding add_item
add_first = refl

empty-IsValid : IsValid empty
empty-IsValid = subst IsValid new_three (new-IsValid ℕ 3)

one_item-IsValid : IsValid one_item
one_item-IsValid = go (add_item empty 100) add_first (add_item_lem empty 100 empty-IsValid)
  where
    go :
        (r : Option (IndexSet ℕ × Result ℕ ℕ))
        → r ≡ some (one_item, ok 0)
        → AddOutcome empty 100 r
        → IsValid one_item
    go r e (AddOutcome.added {t = t} a) = subst IsValid (ground (arith, e)) a.valid
    go r e (AddOutcome.full f) = absurd (cc)

add_item_lem_example : AddOutcome empty 100 (add_item empty 100)
add_item_lem_example = add_item_lem empty 100 empty-IsValid

remove_item_lem_example :
    ((remove_item one_item 0).1 ≡ get_item one_item 0)
    × Removed one_item 0 (remove_item one_item 0).0
remove_item_lem_example = remove_item_lem one_item 0 one_item-IsValid
