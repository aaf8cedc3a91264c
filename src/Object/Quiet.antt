-- ===== src/Object/Quiet.antt =====
-- When nobody can get at the object any more, and why that lasts.
use sdarc.Prelude.{ℕ, ◌<◌, ◌≡◌, ◌≢◌, false, arith, List, [], ◌∷◌}
use sdarc.Object.{
  Object, Action, Config, loaded, borrowed, is_live, hz_ptr_slot_count, clone, count,
  clone_borrowed, apply, apply_all,
}

-- No strong reference, in an owner or in an atomic pointer, and no weak reference to upgrade.
pub record HasNoSource (o : Object) : Type 0 where
  pub no_owner : o.owners ≡ 0
  pub no_stored : o.stored ≡ 0
  pub no_upgrade : is_live o.weak ≡ false

-- Of two moments, the later has no reader that holds the object if the earlier has none.
pub record NoGain (o o' : Object) : Type 0 where
  pub section : (t : ℕ) → (o'.reader t).section ≡ loaded → (o.reader t).section ≡ loaded
  pub slot : (t s : ℕ) → (o'.reader t).slot s ≡ borrowed → (o.reader t).slot s ≡ borrowed

module _ (c : Config) where
  -- With no source, a load or a re-load does not find the object.
  pub apply-NoGain : (a : Action) (o : Object) → HasNoSource o → NoGain o (apply c a o)
  unfolding apply
  apply-NoGain (clone i) o v = record {
    section = λ t e. ground arith;
    slot = λ t s e. ground arith;
  }
  apply-NoGain _ o v = record { section = λ t e. ground arith; slot = λ t s e. ground arith }

  -- A weak reference that can be upgraded stays so: only the collector clears it.
  pub apply-live :
      (a : Action) (o : Object) → is_live (apply c a o).weak ≡ false → is_live o.weak ≡ false
  unfolding apply
  apply-live (clone i) o e = ground arith
  apply-live _ o e = ground arith

  -- Nobody has the object, is about to count it or borrows it.
  pub record IsDead (o : Object) : Type 0 where
    pub no_source : HasNoSource o
    pub none_pinned : o.pinned ≡ 0
    pub section : (t : ℕ) → t < c.readers → (o.reader t).section ≢ loaded
    pub slot : (t s : ℕ) → t < c.readers → s < hz_ptr_slot_count → (o.reader t).slot s ≢ borrowed

  apply-source :
      (a : Action) (o : Object) → IsDead o → HasNoSource (apply c a o) × ((apply c a o).pinned ≡ 0)
  unfolding apply
  apply-source (clone i) o v = ground arith
  apply-source (count t i) o v = ground (arith, v.section t)
  apply-source (clone_borrowed t s i) o v = ground (arith, v.slot t s)
  apply-source _ o v = ground arith

  -- No action of anybody brings a dead object back.
  pub apply-IsDead : (a : Action) (o : Object) → IsDead o → IsDead (apply c a o)
  apply-IsDead a o v = record {
    no_source = (apply-source a o v).0;
    none_pinned = (apply-source a o v).1;
    section = λ t lt e. v.section t lt ((apply-NoGain a o v.no_source).section t e);
    slot = λ t s lt ls e. v.slot t s lt ls ((apply-NoGain a o v.no_source).slot t s e);
  }

  pub apply_all-IsDead : (acts : List Action) (o : Object) → IsDead o → IsDead (apply_all c acts o)
  unfolding apply_all
  apply_all-IsDead [] o v = v
  apply_all-IsDead (a ∷ rest) o v = apply_all-IsDead rest (apply c a o) (apply-IsDead a o v)
