-- ===== src/Packing/Modified.antt =====
-- nemo_rl/data/packing/algorithms.py: `ModifiedFirstFitDecreasingPacker`. An item is a pair of an
-- index and a size, and a bin a list of items. The comparisons of a size with a half, a third or
-- a sixth of the capacity are multiplied out.
mod Phases
mod Outcome
pub mod Packs
use nemo_rl_submission.Prelude.{
  ℕ, zero, suc, ◌+◌, ◌-◌, ◌*◌, Bool, ◌&&◌, ◌||◌, Option, none, some, List, [], ◌∷◌, ◌++◌, map, ltb,
  leb, ◌==◌, if◌then◌else◌, length, any, sum_by, sort, Result, ok, raise, value_error, raise_if,
  ◌>>◌,
}
use nemo_rl_submission.Packing.Packer.{validate_sequence_lengths}

abbrev pub Item : Type 0
Item = ℕ × ℕ

-- `sum(size for _, size in b)`.
abbrev pub size_of : List Item → ℕ
size_of b = sum_by (λ e. e.1) b

pub record Classes : Type 0 where
  pub large : List Item
  pub medium : List Item
  pub small : List Item
  pub tiny : List Item

-- `_classify_items`.
unfoldable pub classify_items : ℕ → List Item → Classes
classify_items capacity [] = record { large = []; medium = []; small = []; tiny = [] }
classify_items capacity ((idx, size) ∷ items) =
    let rest = classify_items capacity items in
    if ltb capacity (2 * size)
    then record rest { large = (idx, size) ∷ rest.large }
    else if ltb capacity (3 * size)
    then record rest { medium = (idx, size) ∷ rest.medium }
    else if ltb capacity (6 * size)
    then record rest { small = (idx, size) ∷ rest.small }
    else record rest { tiny = (idx, size) ∷ rest.tiny }

-- The orders of the sorts by size.
abbrev pub largest_first : Item → Item → Bool
largest_first x y = leb y.1 x.1

abbrev pub smallest_first : Item → Item → Bool
smallest_first x y = leb x.1 y.1

-- The first item that is no larger than the room, and the list without it.
unfoldable pub pop_first_fit : ℕ → List Item → Option (Item × List Item)
pop_first_fit room [] = none
pop_first_fit room (x ∷ xs) =
    if leb x.1 room
    then some (x, xs)
    else elim (pop_first_fit room xs) [ none ↦ none | some (e, rest) ↦ some (e, x ∷ rest) ]

-- The same from the end.
unfoldable pub pop_last_fit : ℕ → List Item → Option (Item × List Item)
pop_last_fit room [] = none
pop_last_fit room (x ∷ xs) = elim (pop_last_fit room xs) [
  | none ↦ if leb x.1 room then some (x, xs) else none
  | some (e, rest) ↦ some (e, x ∷ rest)
]

-- Phase 2 at one bin.
unfoldable pub add_medium : ℕ → List Item → List Item → List Item × List Item
unfolding pop_first_fit
add_medium capacity b medium = elim (pop_first_fit (capacity - size_of b) medium) [
  | none ↦ (b, medium)
  | some (e, rest) ↦ (b ++ e ∷ [], rest)
]

-- Phase 3 at one bin. Where no second item fits, the first is popped and goes nowhere.
unfoldable pub add_pair : ℕ → List Item → List Item → List Item × List Item
unfolding pop_last_fit
add_pair capacity b (first ∷ second ∷ small) =
    let has_medium = any (λ e. ltb capacity (3 * e.1) && leb (2 * e.1) capacity) b in
    let remaining = capacity - size_of b in
    if has_medium || ltb remaining (first.1 + second.1)
    then (b, first ∷ second ∷ small)
    else elim (pop_last_fit (remaining - first.1) (second ∷ small)) [
      | none ↦ (b, second ∷ small)
      | some (e, rest) ↦ (b ++ first ∷ e ∷ [], rest)
    ]
add_pair capacity b small = (b, small)

-- `remaining_items[-1][1]`.
unfoldable pub last_size : Item → List Item → ℕ
last_size x [] = x.1
last_size x (y ∷ ys) = last_size y ys

-- The `while` of phase 4 at one bin, on fuel. An iteration that goes on takes an item.
unfoldable pub fill_bin : ℕ → ℕ → List Item → List Item → List Item × List Item
unfolding pop_first_fit last_size
fill_bin zero capacity b items = (b, items)
fill_bin (suc fuel) capacity b [] = (b, [])
fill_bin (suc fuel) capacity b (x ∷ xs) =
    if ltb (capacity - size_of b) (last_size x xs)
    then (b, x ∷ xs)
    else elim (pop_first_fit (capacity - size_of b) (x ∷ xs)) [
      | none ↦ (b, x ∷ xs)
      | some (e, rest) ↦ fill_bin fuel capacity (b ++ e ∷ []) rest
    ]

-- A pass over the bins that draws items from a list, forward or backward.
unfoldable pub forward :
    (List Item → List Item → List Item × List Item)
    → List (List Item)
    → List Item
    → List (List Item) × List Item
forward step [] items = ([], items)
forward step (b ∷ bins) items =
    let (b', items') = step b items in
    let (bins', items'') = forward step bins items' in (b' ∷ bins', items'')

unfoldable pub backward :
    (List Item → List Item → List Item × List Item)
    → List (List Item)
    → List Item
    → List (List Item) × List Item
backward step [] items = ([], items)
backward step (b ∷ bins) items =
    let (bins', items') = backward step bins items in
    let (b', items'') = step b items' in (b' ∷ bins', items'')

-- Phase 5: first fit over the leftovers.
unfoldable pub put_leftover : ℕ → Item → List (List Item) → List (List Item)
put_leftover capacity e [] = (e ∷ []) ∷ []
put_leftover capacity e (b ∷ bins) =
    if leb e.1 (capacity - size_of b)
    then (b ++ e ∷ []) ∷ bins
    else b ∷ put_leftover capacity e bins

unfoldable pub put_leftovers : ℕ → List Item → List (List Item) → List (List Item)
unfolding put_leftover
put_leftovers capacity [] bins = bins
put_leftovers capacity (e ∷ items) bins =
    put_leftovers capacity items (put_leftover capacity e bins)

-- `enumerate`, with the index first.
abbrev pub items_from : ℕ → List ℕ → List Item
items_from i [] = []
items_from i (l ∷ ls) = (i, l) ∷ items_from (suc i) ls

-- The five phases.
unfoldable pub pack_items : ℕ → List Item → List (List Item)
unfolding classify_items sort forward backward add_medium add_pair fill_bin put_leftovers
pack_items capacity items =
    let classes = classify_items capacity items in
    let bins1 = map (λ e. e ∷ []) (sort largest_first classes.large) in
    let (bins2, medium) = forward (add_medium capacity) bins1 (sort largest_first classes.medium) in
    let (bins3, small) = backward (add_pair capacity) bins2 (sort smallest_first classes.small) in
    let rest = sort largest_first (medium ++ (small ++ sort smallest_first classes.tiny)) in
    let (bins4, leftovers) = forward (λ b l. fill_bin (length l) capacity b l) bins3 rest in
    bins4 ++ put_leftovers capacity (sort largest_first leftovers) []

-- `ModifiedFirstFitDecreasingPacker._pack_implementation`.
unfoldable pub pack_modified : ℕ → List ℕ → Result (List (List ℕ))
unfolding pack_items validate_sequence_lengths
pack_modified capacity lens = do
  raise_if (capacity == 0) value_error
  raise_if (any (λ l. l == 0) lens) value_error
  validate_sequence_lengths capacity lens
  ok (map (map (λ e. e.0)) (pack_items capacity (items_from 0 lens)))
