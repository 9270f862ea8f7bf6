-- ===== src/RefData.antt =====
-- core/refdata: a table of reference data in shared memory, kept twice. `_layout.py` says where
-- the fields lie, `_refdata.py` publishes and reads.
-- The fields of a block are kept apart, as their offsets are; a byte is a number. The counter of
-- 64 bits does not fill. Encoding and decoding are code of the application: a value is its bytes.
pub mod Bounds
pub mod Bytes
pub mod RoundTrip
pub mod Writer
pub mod Intact
pub mod Steady
pub mod Runs
pub mod Stores
pub mod Landing
pub mod Torn
pub mod Patience
use xime_framework.Prelude.{
  ℕ, zero, suc, ◌+◌, ◌-◌, ◌*◌, Bool, true, false, ◌&&◌, Option, none, some, List, [], ◌∷◌, ◌==◌,
  leb, ltb, if◌then◌else◌, length,
}
use xime_framework.Container.Registry.{put}

abbrev pub header_bytes : ℕ
header_bytes = 40

abbrev pub no_writer : ℕ
no_writer = 255

abbrev pub never_published : ℕ
never_published = 0

abbrev pub max_spins : ℕ
max_spins = 100

pub record RefDataLayout : Type 0 where
  pub max_bytes : ℕ
  pub slot_a_offset : ℕ
  pub slot_b_offset : ℕ
  pub total_bytes : ℕ

-- `none` is the refusal of a size below one.
unfoldable pub create_layout : ℕ → Option RefDataLayout
create_layout max_bytes =
    if ltb max_bytes 1
    then none
    else some (record {
      max_bytes = max_bytes;
      slot_a_offset = header_bytes;
      slot_b_offset = header_bytes + max_bytes;
      total_bytes = header_bytes + max_bytes * 2;
    })

unfoldable pub slot_offset : RefDataLayout → ℕ → ℕ
slot_offset layout slot = if slot == 0 then layout.slot_a_offset else layout.slot_b_offset

-- The fields of the header, and the bytes of the two slots.
pub record Block : Type 0 where
  pub magic : ℕ
  pub version : ℕ
  pub stale : Bool
  pub generation : ℕ
  pub written_at : ℕ
  pub lengths : ℕ → ℕ
  pub limit : ℕ
  pub segments : ℕ
  pub pointer : ℕ
  pub writer : ℕ
  pub cells : ℕ → ℕ → ℕ

-- `XREF` as a number
abbrev pub magic_number : ℕ
magic_number = 0x58524546

abbrev pub layout_version : ℕ
layout_version = 1

-- write_header on memory of zeros
abbrev pub write_header : ℕ → Block
write_header max_bytes = record {
  magic = magic_number;
  version = layout_version;
  stale = false;
  generation = never_published;
  written_at = 0;
  lengths = λ _. 0;
  limit = max_bytes;
  segments = 0;
  pointer = 0;
  writer = no_writer;
  cells = λ _ _. 0;
}

unfoldable pub verify_header : ℕ → Block → Bool
verify_header max_bytes block =
    block.magic == magic_number && block.version == layout_version && block.limit == max_bytes

abbrev pub write_bytes : List ℕ → ℕ → (ℕ → ℕ) → ℕ → ℕ
write_bytes [] i f = f
write_bytes (b ∷ bs) i f = write_bytes bs (i + 1) (put i b f)

abbrev pub read_bytes : (ℕ → ℕ) → ℕ → ℕ → List ℕ
read_bytes f i zero = []
read_bytes f i (suc n) = f i ∷ read_bytes f (i + 1) n

abbrev pub write_slot : ℕ → List ℕ → Block → Block
write_slot slot payload block = record block {
  cells = put slot (write_bytes payload 0 (block.cells slot)) block.cells;
}

abbrev pub write_length : ℕ → ℕ → Block → Block
write_length slot n block = record block { lengths = put slot n block.lengths }

-- bytes(layout.slot_view(...))
abbrev pub slot_view : Block → ℕ → List ℕ
slot_view block slot = read_bytes (block.cells slot) 0 (block.lengths slot)

pub data WriteError : Type 0 where
  not_writer : WriteError
  many_segments : ℕ → WriteError
  too_large : ℕ → WriteError

pub data Written : Type 0 where
  published : ℕ → Written
  refused : WriteError → Written

-- The statements of _write from the spare slot on, in their order.
unfoldable pub write_payload : ℕ → ℕ → List ℕ → Block → Block
write_payload now index payload block =
    let target = 1 - block.pointer in
    let filled = write_length target (length payload) (write_slot target payload block) in
    record filled {
      segments = 1;
      written_at = now;
      writer = index;
      pointer = target;
      generation = block.generation + 1;
      stale = false;
    }

unfoldable pub write_one : ℕ → ℕ → ℕ → List ℕ → Block → Written × Block
unfolding write_payload
write_one max_bytes now index payload block =
    if ltb max_bytes (length payload)
    then (refused (too_large (length payload)), record block { stale = true })
    else (published (block.generation + 1), write_payload now index payload block)

-- _write
unfoldable pub write : ℕ → ℕ → ℕ → List (List ℕ) → Block → Written × Block
unfolding write_one
write max_bytes now index (payload ∷ []) block = write_one max_bytes now index payload block
write max_bytes now index segments block = (refused (many_segments (length segments)), block)

-- publish(), with the segments that encode_segments gave
unfoldable pub publish : Bool → ℕ → ℕ → ℕ → List (List ℕ) → Block → Written × Block
unfolding write
publish primary max_bytes now index segments block =
    if primary then write max_bytes now index segments block else (refused not_writer, block)

-- The cache of a table in one process, by its generation.
pub record Cache : Type 0 where
  pub generation : ℕ
  pub value : List ℕ

abbrev pub empty_cache : Cache
empty_cache = record { generation = never_published; value = [] }

pub data Read : Type 0 where
  not_ready : Read
  value_of : List ℕ → Read
  torn_segments : ℕ → Read
  gave_up : Read

-- One round of read() ends, or the loop goes round again.
pub data Round : Type 0 where
  ended : Read → Cache → Round
  again : Round

-- The memory as the accesses of a reader find it, one after the other; others write in between.
abbrev pub Accesses : Type 0
Accesses = ℕ → Block

-- The bytes of a slot, each read at its own time.
abbrev pub copy_bytes : Accesses → ℕ → ℕ → ℕ → ℕ → List ℕ
copy_bytes at t slot i zero = []
copy_bytes at t slot i (suc n) = (at t).cells slot i ∷ copy_bytes at (t + 1) slot (i + 1) n

unfoldable pub finish_round : Bool → ℕ → ℕ → List ℕ → Cache → Round
finish_round same first segments chunk cache =
    if same
    then if segments == 1
      then ended (value_of chunk) (record { generation = first; value = chunk })
      else ended (torn_segments segments) cache
    else again

-- The body of the loop from time `t` on: the generation, the pointer, the number of segments, the
-- length, the bytes, and the generation once more.
unfoldable pub copy_round : Accesses → ℕ → ℕ → Cache → Round
unfolding finish_round
copy_round at t first cache =
    let slot = (at (t + 1)).pointer in
    let segments = (at (t + 2)).segments in
    let n = (at (t + 3)).lengths slot in
    finish_round ((at (t + 4 + n)).generation == first) first segments
      (copy_bytes at (t + 4) slot 0 n) cache

unfoldable pub read_round : Accesses → ℕ → Cache → Round
unfolding copy_round
read_round at t cache =
    let first = (at t).generation in
    if first == never_published
    then ended not_ready cache
    else if first == cache.generation
    then ended (value_of cache.value) cache
    else copy_round at t first cache

-- Where the round that starts at `t` ends.
abbrev pub round_end : Accesses → ℕ → ℕ
round_end at t = t + 5 + (at (t + 3)).lengths (at (t + 1)).pointer

-- read()
unfoldable pub read : ℕ → Accesses → ℕ → Cache → Read × Cache
unfolding read_round
read zero at t cache = (gave_up, cache)
read (suc spins) at t cache = elim (read_round at t cache) [
  | ended result cache' ↦ (result, cache')
  | again ↦ read spins at (round_end at t) cache
]

-- read_or_fail(): `none` is RefDataNotReadyError or RefDataTornError.
abbrev pub or_fail : Read → Option (List ℕ)
or_fail (value_of value) = some value
or_fail _ = none
