-- ===== src/Collector/Schedule.antt =====
-- What the other threads leave true between two accesses of the collector.
use sdarc.Prelude.{List, [], ◌∷◌}
use sdarc.Object.{Object, Action, Config, apply, apply_all}
use sdarc.Object.Accounts.{Plain, Accounted, HasNoPinned, apply-Accounted, apply-HasNoPinned}
use sdarc.Object.Quiet.{IsDead, apply_all-IsDead}
use sdarc.Collector.{Run, tick, others}

-- No exchange of a `raw_compare_and_set` among the actions
abbrev pub AllPlain : List Action → Type 0
AllPlain [] = Unit
AllPlain (a ∷ rest) = Plain a × AllPlain rest

abbrev pub PlainFuture : List (List Action) → Type 0
PlainFuture [] = Unit
PlainFuture (now ∷ later) = AllPlain now × PlainFuture later

-- The counters add up to the references, and no increment is owed.
pub record IsBalanced (c : Config) (o : Object) : Type 0 where
  pub accounted : Accounted c.shards o
  pub none_pinned : HasNoPinned o

module _ (c : Config) where
  pub apply-IsBalanced :
      (a : Action) (o : Object) → Plain a → IsBalanced c o → IsBalanced c (apply c a o)
  apply-IsBalanced a o p v = record {
    accounted = apply-Accounted c a o v.accounted;
    none_pinned = apply-HasNoPinned c a o p v.none_pinned;
  }

  -- What each action keeps is kept between two accesses.
  module _ {ℓ} (P : Object → Type ℓ)
      (keeps : (a : Action) (o : Object) → Plain a → P o → P (apply c a o)) where
    pub apply_all_keeps :
        (acts : List Action) (o : Object) → AllPlain acts → P o → P (apply_all c acts o)
    unfolding apply_all
    apply_all_keeps [] o p v = v
    apply_all_keeps (a ∷ rest) o p v = apply_all_keeps rest (apply c a o) p.1 (keeps a o p.0 v)

    others_keeps :
        (o : Object) (future : List (List Action))
        → PlainFuture future
        → P o
        → P (others c o future).object × PlainFuture (others c o future).future
    unfolding others
    others_keeps o [] p v = (v, tt)
    others_keeps o (now ∷ later) p v = (apply_all_keeps now o p.0 v, p.1)

    pub tick_keeps :
        (r : Run)
        → PlainFuture r.future
        → P r.object
        → P (tick c r).object × PlainFuture (tick c r).future
    unfolding tick
    tick_keeps r p v = others_keeps r.object r.future p v

  -- A dead object stays dead whatever the others do.
  pub tick-IsDead : (r : Run) → IsDead c r.object → IsDead c (tick c r).object
  unfolding tick others
  tick-IsDead r v = go r.object r.future v
    where
      go :
          (o : Object) (future : List (List Action))
          → IsDead c o
          → IsDead c (others c o future).object
      go o [] v = v
      go o (now ∷ later) v = apply_all-IsDead c now o v
