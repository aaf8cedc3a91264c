-- ===== src/BTree.antt =====
-- `BTreeMap` and `BTreeSet` as lists in the order of their keys.
pub mod Order
pub mod Laws
use sdarc.Prelude.{ℕ, List, ◌∷◌, Option, none, some, ltb, ◌==◌, if◌then◌else◌, []}

abbrev pub BTreeMap : Type 0 → Type 0
BTreeMap V = List (ℕ × V)

module _ {V : Type 0} where
  -- `BTreeMap::insert`: the value that was there, and the map
  unfoldable pub insert : ℕ → V → BTreeMap V → Option V × BTreeMap V
  insert key value [] = (none, (key, value) ∷ [])
  insert key value ((k, v) ∷ rest) =
      let (old, later) = insert key value rest in
      if ltb key k
      then (none, (key, value) ∷ (k, v) ∷ rest)
      else if key == k
      then (some v, (key, value) ∷ rest)
      else (old, (k, v) ∷ later)

  -- `BTreeMap::remove`
  unfoldable pub remove : ℕ → BTreeMap V → Option V × BTreeMap V
  remove key [] = (none, [])
  remove key ((k, v) ∷ rest) =
      let (old, later) = remove key rest in
      if key == k then (some v, rest) else (old, (k, v) ∷ later)

  -- `BTreeMap::get_mut`, and the write through it
  unfoldable pub get : ℕ → BTreeMap V → Option V
  get key [] = none
  get key ((k, v) ∷ rest) = let later = get key rest in if key == k then some v else later

  unfoldable pub put : ℕ → V → BTreeMap V → BTreeMap V
  put key value [] = []
  put key value ((k, v) ∷ rest) =
      let later = put key value rest in if key == k then (k, value) ∷ rest else (k, v) ∷ later

-- `BTreeSet::insert` and `extend`
unfoldable pub set_insert : ℕ → List ℕ → List ℕ
set_insert key [] = key ∷ []
set_insert key (k ∷ rest) =
    let later = set_insert key rest in
    if ltb key k then key ∷ k ∷ rest else if key == k then k ∷ rest else k ∷ later

unfoldable pub extend : List ℕ → List ℕ → List ℕ
extend [] set = set
extend (key ∷ keys) set = extend keys (set_insert key set)
