-- ===== src/Cell.antt =====
-- One counter shard as the algorithm sees it: a signed count and a tag. `TaggedCounter` packs the
-- two into one word; `TaggedCounter.Refine` shows that its operations are these.
use sdarc.Prelude.{Bool, true, false}
use sdarc.Prelude.Int.{ℤ, pos, ◌+ℤ◌, ◌-ℤ◌}

pub record Cell : Type 0 where
  pub count : ℤ
  pub tag : Bool

abbrev pub fresh : Cell
fresh = record { count = pos 0; tag = false }

-- A new reference is counted, and the tag stays.
abbrev pub increment : Cell → Cell
increment c = record c { count = c.count +ℤ pos 1 }

-- A reference is given up, and the tag records that.
abbrev pub decrement : Cell → Cell
decrement c = record { count = c.count -ℤ pos 1; tag = true }

abbrev pub clear_tag : Cell → Cell
clear_tag c = record c { tag = false }
