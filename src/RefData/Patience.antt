-- ===== src/RefData/Patience.antt =====
-- core/refdata/_refdata.py: a read gives up only when the primary publishes during every round.
use xime_framework.Prelude.{ℕ, zero, suc, ◌+◌, ◌<◌}
use xime_framework.RefData.{Accesses, Read, gave_up, Round, ended, again, round_end}
use xime_framework.RefData.Torn.{seen}
use xime_framework.RefData.Writer.{Action}

-- The last access of the round that starts at `t`: it reads the generation once more.
abbrev pub last_of : Accesses → ℕ → ℕ
last_of at t = t + 4 + (at (t + 3)).lengths (at (t + 1)).pointer

-- The last access of so many rounds from `next` on, `last` if there are none.
abbrev pub last_from : Accesses → ℕ → ℕ → ℕ → ℕ
last_from at last next zero = last
last_from at last next (suc n) = last_from at (last_of at next) (round_end at next) n

-- The last access of so many rounds from `t` on.
abbrev pub last_access : Accesses → ℕ → ℕ → ℕ
last_access at spins t = last_from at t t spins

module _ (max_bytes index : ℕ) (actions : ℕ → Action) (times : ℕ → ℕ) where
  abbrev table : Accesses
  table = seen max_bytes index actions times

  abbrev Answer : Read → Type 0
  Answer gave_up = ⊥
  Answer _ = Unit

  abbrev Moved : ℕ → Round → Type 0
  Moved t (ended r cache) = Answer r
  Moved t again = (table t).generation < (table (last_of table t)).generation
