-- ===== src/BTree/Laws.antt =====
-- What the operations of a map and of a set come to, as changes of a function from the keys.
use sdarc.Prelude.{
  ℕ, suc, ◌<◌, ◌≤◌, ◌≡◌, refl, sym, inl, inr, Bool, true, false, ◌||◌, Bool-cases, List, [], ◌∷◌,
  none, some, arith, ltb, ◌==◌, ==_iff, if◌then◌else◌,
}
use sdarc.BTree.{BTreeMap, insert, remove, get, put, set_insert, extend}
use sdarc.BTree.Order.{AllFrom, keys, AllFrom-weaken}

abbrev pub Ascending : ℕ → List ℕ → Type 0
Ascending b [] = Unit
Ascending b (key ∷ set) = (b ≤ key) × Ascending (suc key) set

abbrev pub elem : ℕ → List ℕ → Bool
elem k [] = false
elem k (key ∷ set) = k == key || elem k set

pub Ascending-weaken : (b b' : ℕ) (set : List ℕ) → b ≤ b' → Ascending b' set → Ascending b set
Ascending-weaken b b' [] le v = tt
Ascending-weaken b b' (key ∷ set) le v = (omega (arith, v.0), v.1)

pub elem-above : (b k : ℕ) (set : List ℕ) → Ascending b set → elem k set ≡ true → b ≤ k
elem-above b k [] v h = cc
elem-above b k (key ∷ set) v h = elim (Bool-cases (k == key)) [
  | inl same ↦ let e : k ≡ key = (==_iff k key).0 same in omega (arith, v.0)
  | inr other ↦ let above = elem-above (suc key) k set v.1 (rw other at h) in omega (arith, v.0)
]

-- A set with a lower bound of `b` or of the new key
pub Ascending-set_insert :
    (b key : ℕ) (set : List ℕ) → b ≤ key → Ascending b set → Ascending b (set_insert key set)
unfolding set_insert
Ascending-set_insert b key [] le v = (le, tt)
Ascending-set_insert b key (k ∷ set) le v = elim (Bool-cases (ltb key k)) [
  | inl before ↦ rw before (le, (ground arith, v.1))
  | inr after ↦ elim (Bool-cases (key == k)) [
    | inl same ↦ rw (after, same) v
    | inr other ↦ rw (after, other) (v.0, Ascending-set_insert (suc k) key set (ground arith) v.1)
  ]
]

pub Ascending-extend : (added set : List ℕ) → Ascending 0 set → Ascending 0 (extend added set)
unfolding extend
Ascending-extend [] set v = v
Ascending-extend (key ∷ added) set v =
    Ascending-extend added _ (Ascending-set_insert 0 key set (omega arith) v)

pub elem-set_insert :
    (k key : ℕ) (set : List ℕ) → elem k (set_insert key set) ≡ (k == key || elem k set)
unfolding set_insert
elem-set_insert k key [] = refl
elem-set_insert k key (j ∷ set) = elim (Bool-cases (ltb key j)) [
  | inl before ↦ rw before refl
  | inr after ↦ elim (Bool-cases (key == j)) [
    | inl same ↦ let e : key ≡ j = (==_iff key j).0 same in rw (after, same) (ground arith)
    | inr other ↦ rw (after, other) (ground (arith, elem-set_insert k key set))
  ]
]

pub elem-extend :
    (k : ℕ) (added set : List ℕ) → elem k (extend added set) ≡ (elem k added || elem k set)
unfolding extend
elem-extend k [] set = refl
elem-extend k (key ∷ added) set =
    ground (arith, elem-extend k added (set_insert key set), elem-set_insert k key set)

module _ {V : Type 0} where
  pub get-below : (b k : ℕ) (m : BTreeMap V) → AllFrom b m → k < b → get k m ≡ none
  unfolding get
  get-below b k [] v lt = refl
  get-below b k ((key, value) ∷ m) v lt =
      let differs : (k == key) ≡ false = ground arith in
      rw differs (get-below (suc key) k m v.1 (omega (arith, v.0)))

  pub get-put :
      (k key : ℕ) (value : V) (m : BTreeMap V) {old : V}
      → get key m ≡ some old
      → get k (put key value m) ≡ (if k == key then some value else get k m)
  unfolding get put
  get-put k key value [] h = cc
  get-put k key value ((j, x) ∷ m) h = elim (Bool-cases (key == j)) [
    | inl same ↦ let e : key ≡ j = (==_iff key j).0 same in rw same (ground arith)
    | inr other ↦ rw other (ground (arith, get-put k key value m (rw other at h)))
  ]

  pub AllFrom-put :
      (b key : ℕ) (value : V) (m : BTreeMap V) → AllFrom b m → AllFrom b (put key value m)
  unfolding put
  AllFrom-put b key value [] v = tt
  AllFrom-put b key value ((j, x) ∷ m) v = elim (Bool-cases (key == j)) [
    | inl same ↦ rw same v
    | inr other ↦ rw other (v.0, AllFrom-put (suc j) key value m v.1)
  ]

  pub remove-get : (key : ℕ) (m : BTreeMap V) → (remove key m).0 ≡ get key m
  unfolding remove get
  remove-get key [] = refl
  remove-get key ((j, x) ∷ m) = elim (Bool-cases (key == j)) [
    | inl same ↦ rw same refl
    | inr other ↦ rw other (remove-get key m)
  ]

  pub get-remove :
      (b k key : ℕ) (m : BTreeMap V)
      → AllFrom b m
      → get k (remove key m).1 ≡ (if k == key then none else get k m)
  unfolding remove get
  get-remove b k key [] v = ground arith
  get-remove b k key ((j, x) ∷ m) v = elim (Bool-cases (key == j)) [
    | inl same ↦
        let e : key ≡ j = (==_iff key j).0 same in
        rw same (elim (Bool-cases (k == key)) [
          | inl here ↦
              let e' : k ≡ key = (==_iff k key).0 here in
              rw here (get-below (suc j) k m v.1 (omega arith))
          | inr there ↦ let there' : (k == j) ≡ false = ground arith in rw (there, there') refl
        ])
    | inr other ↦ rw other (ground (arith, get-remove (suc j) k key m v.1))
  ]

  pub AllFrom-remove : (b key : ℕ) (m : BTreeMap V) → AllFrom b m → AllFrom b (remove key m).1
  unfolding remove
  AllFrom-remove b key [] v = tt
  AllFrom-remove b key ((j, x) ∷ m) v = elim (Bool-cases (key == j)) [
    | inl same ↦ rw same (AllFrom-weaken b (suc j) m (omega (arith, v.0)) v.1)
    | inr other ↦ rw other (v.0, AllFrom-remove (suc j) key m v.1)
  ]

  pub insert-get :
      (b key : ℕ) (value : V) (m : BTreeMap V) → AllFrom b m → (insert key value m).0 ≡ get key m
  unfolding insert get
  insert-get b key value [] v = refl
  insert-get b key value ((j, x) ∷ m) v = elim (Bool-cases (ltb key j)) [
    | inl before ↦
        let differs : (key == j) ≡ false = ground arith in
        rw (before, differs) (sym (get-below (suc j) key m v.1 (ground arith)))
    | inr after ↦ elim (Bool-cases (key == j)) [
      | inl same ↦ rw (after, same) refl
      | inr other ↦ rw (after, other) (insert-get (suc j) key value m v.1)
    ]
  ]

  pub get-insert :
      (b k key : ℕ) (value : V) (m : BTreeMap V)
      → AllFrom b m
      → get k (insert key value m).1 ≡ (if k == key then some value else get k m)
  unfolding insert get
  get-insert b k key value [] v = refl
  get-insert b k key value ((j, x) ∷ m) v = elim (Bool-cases (ltb key j)) [
    | inl before ↦ rw before refl
    | inr after ↦ elim (Bool-cases (key == j)) [
      | inl same ↦ let e : key ≡ j = (==_iff key j).0 same in rw (after, same) (ground arith)
      | inr other ↦ rw (after, other) (ground (arith, get-insert (suc j) k key value m v.1))
    ]
  ]

  pub AllFrom-insert :
      (b key : ℕ) (value : V) (m : BTreeMap V)
      → b ≤ key
      → AllFrom b m
      → AllFrom b (insert key value m).1
  unfolding insert
  AllFrom-insert b key value [] le v = (le, tt)
  AllFrom-insert b key value ((j, x) ∷ m) le v = elim (Bool-cases (ltb key j)) [
    | inl before ↦ rw before (le, (ground arith, v.1))
    | inr after ↦ elim (Bool-cases (key == j)) [
      | inl same ↦
          let e : key ≡ j = (==_iff key j).0 same in
          rw (after, same) (le, AllFrom-weaken (suc key) (suc j) m (omega arith) v.1)
      | inr other ↦ rw (after, other) (v.0, AllFrom-insert (suc j) key value m (ground arith) v.1)
    ]
  ]

  pub keys-Ascending : (b : ℕ) (m : BTreeMap V) → AllFrom b m → Ascending b (keys m)
  keys-Ascending b [] v = tt
  keys-Ascending b ((key, value) ∷ m) v = (v.0, keys-Ascending (suc key) m v.1)
