-- ===== src/BTree/Order.antt =====
-- The order of the keys of a map, and what its operations find in that order.
use sdarc.Prelude.{
  ℕ, suc, ◌<◌, ◌≤◌, ◌≡◌, refl, ap, false, List, [], ◌∷◌, ◌++◌, some, arith, ◌==◌, ==_iff,
}
use sdarc.BTree.{BTreeMap, remove, get, put}

module _ {V : Type 0} where
  -- The keys ascend from `b` on.
  abbrev pub AllFrom : ℕ → BTreeMap V → Type 0
  AllFrom b [] = Unit
  AllFrom b ((key, counter) ∷ rest) = (b ≤ key) × AllFrom (suc key) rest

  abbrev pub keys : BTreeMap V → List ℕ
  keys [] = []
  keys ((key, counter) ∷ rest) = key ∷ keys rest

  pub AllFrom-weaken : (b b' : ℕ) (m : BTreeMap V) → b ≤ b' → AllFrom b' m → AllFrom b m
  AllFrom-weaken b b' [] le v = tt
  AllFrom-weaken b b' ((key, counter) ∷ rest) le v = (omega (arith, v.0), v.1)

  -- Keys below `b`
  unfoldable pub PrefixBelow : ℕ → BTreeMap V → Type 0
  PrefixBelow b [] = Unit
  PrefixBelow b ((key, counter) ∷ rest) = (key < b) × PrefixBelow b rest

  pub PrefixBelow-weaken : (b b' : ℕ) (m : BTreeMap V) → b ≤ b' → PrefixBelow b m → PrefixBelow b' m
  unfolding PrefixBelow
  PrefixBelow-weaken b b' [] le v = tt
  PrefixBelow-weaken b b' ((key, counter) ∷ rest) le v =
      (omega (arith, v.0), PrefixBelow-weaken b b' rest le v.1)

  pub PrefixBelow-append :
      (b key : ℕ) (counter : V) (m : BTreeMap V)
      → key < b
      → PrefixBelow b m
      → PrefixBelow b (m ++ (key, counter) ∷ [])
  unfolding PrefixBelow
  PrefixBelow-append b key counter [] lt v = (lt, tt)
  PrefixBelow-append b key counter (x ∷ rest) lt v =
      (v.0, PrefixBelow-append b key counter rest lt v.1)

  pub append_one : (pre m : BTreeMap V) (x : ℕ × V) → (pre ++ x ∷ []) ++ m ≡ pre ++ x ∷ m
  append_one [] m x = refl
  append_one (y ∷ pre) m x = ap (λ z. y ∷ z) (append_one pre m x)

  pub remove_past :
      (pre m : BTreeMap V) (key : ℕ) (counter : V)
      → PrefixBelow key pre
      → remove key (pre ++ (key, counter) ∷ m) ≡ (some counter, pre ++ m)
  unfolding remove PrefixBelow
  remove_past [] m key counter v = rw ((==_iff key key).1 refl)
  remove_past ((k, x) ∷ pre) m key counter v =
      let below : k < key = v.0 in
      let differs : (key == k) ≡ false = ground arith in
      rw (differs, remove_past pre m key counter v.1) refl

  pub get_past :
      (pre m : BTreeMap V) (key : ℕ) (counter : V)
      → PrefixBelow key pre
      → get key (pre ++ (key, counter) ∷ m) ≡ some counter
  unfolding get PrefixBelow
  get_past [] m key counter v = rw ((==_iff key key).1 refl) refl
  get_past ((k, x) ∷ pre) m key counter v =
      let below : k < key = v.0 in
      let differs : (key == k) ≡ false = ground arith in rw differs (get_past pre m key counter v.1)

  pub put_past :
      (pre m : BTreeMap V) (key : ℕ) (counter counter' : V)
      → PrefixBelow key pre
      → put key counter' (pre ++ (key, counter) ∷ m) ≡ pre ++ (key, counter') ∷ m
  unfolding put PrefixBelow
  put_past [] m key counter counter' v = rw ((==_iff key key).1 refl) refl
  put_past ((k, x) ∷ pre) m key counter counter' v =
      let below : k < key = v.0 in
      let differs : (key == k) ≡ false = ground arith in
      rw (differs, put_past pre m key counter counter' v.1) refl
