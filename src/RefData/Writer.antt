-- ===== src/RefData/Writer.antt =====
-- core/refdata/_refdata.py: `_write` one store at a time, as other processes see it. The primary
-- writes and nobody else; a call begins when the one before has returned.
use xime_framework.Prelude.{
  ℕ, zero, suc, ◌+◌, ◌-◌, true, false, List, [], ◌∷◌, ltb, if◌then◌else◌, length,
}
use xime_framework.Container.Registry.{put}
use xime_framework.RefData.{Block, write_length, write_header}

-- The next store of `_write`. `target` is the spare slot, `payload` the bytes of the new version,
-- `rest` those not written yet, from place `i` on.
pub data Pc : Type 0 where
  idle : Pc
  filling : (target i : ℕ) → (rest payload : List ℕ) → Pc
  sizing : (target : ℕ) → (payload : List ℕ) → Pc
  segmenting : (target : ℕ) → (payload : List ℕ) → Pc
  stamping : (target : ℕ) → (payload : List ℕ) → Pc
  signing : (target : ℕ) → (payload : List ℕ) → Pc
  flipping : (target : ℕ) → (payload : List ℕ) → Pc
  bumping : Pc
  unflagging : Pc

-- A call of publish() with the bytes of the value, or one more store, with the time of the clock.
pub data Action : Type 0 where
  call : List ℕ → Action
  tick : ℕ → Action

-- The versions are the payloads the pointer was turned to, by number, for the statements alone.
pub record Writer : Type 0 where
  pub pc : Pc
  pub block : Block
  pub flips : ℕ
  pub versions : ℕ → List ℕ

abbrev pub new_writer : ℕ → Writer
new_writer max_bytes = record {
  pc = idle;
  block = write_header max_bytes;
  flips = 0;
  versions = λ _. [];
}

abbrev pub store : Pc → Block → Writer → Writer
store pc block w = record w { pc = pc; block = block }

unfoldable pub begin : ℕ → List ℕ → Writer → Writer
begin max_bytes payload w =
    if ltb max_bytes (length payload)
    then store idle (record w.block { stale = true }) w
    else store (filling (1 - w.block.pointer) 0 payload payload) w.block w

abbrev pub write_cell : ℕ → ℕ → ℕ → Block → Block
write_cell slot i x block = record block {
  cells = put slot (put i x (block.cells slot)) block.cells;
}

-- One store of a writer that stands at `pc`.
unfoldable pub advance : ℕ → ℕ → Pc → Writer → Writer
advance index now idle w = store idle w.block w
advance index now (filling target i [] payload) w = store (sizing target payload) w.block w
advance index now (filling target i (x ∷ rest) payload) w =
    store (filling target (i + 1) rest payload) (write_cell target i x w.block) w
advance index now (sizing target payload) w =
    store (segmenting target payload) (write_length target (length payload) w.block) w
advance index now (segmenting target payload) w =
    store (stamping target payload) (record w.block { segments = 1 }) w
advance index now (stamping target payload) w =
    store (signing target payload) (record w.block { written_at = now }) w
advance index now (signing target payload) w =
    store (flipping target payload) (record w.block { writer = index }) w
advance index now (flipping target payload) w = record {
  pc = bumping;
  block = record w.block { pointer = target };
  flips = w.flips + 1;
  versions = put (w.flips + 1) payload w.versions;
}
advance index now bumping w =
    store unflagging (record w.block { generation = w.block.generation + 1 }) w
advance index now unflagging w = store idle (record w.block { stale = false }) w

unfoldable pub respond : ℕ → ℕ → Action → Pc → Writer → Writer
unfolding advance begin
respond max_bytes index (call payload) idle w = begin max_bytes payload w
respond max_bytes index (call payload) _ w = w
respond max_bytes index (tick now) pc w = advance index now pc w

unfoldable pub step : ℕ → ℕ → Action → Writer → Writer
unfolding respond
step max_bytes index action w = respond max_bytes index action w.pc w

-- The writer after `n` actions.
unfoldable pub writer_at : ℕ → ℕ → (ℕ → Action) → ℕ → Writer
unfolding step
writer_at max_bytes index actions zero = new_writer max_bytes
writer_at max_bytes index actions (suc n) =
    step max_bytes index (actions n) (writer_at max_bytes index actions n)
