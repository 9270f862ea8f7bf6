-- ===== src/Link.antt =====
-- core/link/_layout.py: where the fields of a channel lie in its shared memory.
pub mod Places
pub mod Masks
pub mod Unread
use Prim.Native.Nat.{bit_and, bit_or, bit_xor}
use xime_framework.Prelude.{ℕ, ◌+◌, ◌*◌, ◌/◌, ◌%◌, ◌^◌, ◌==◌, Bool, not}
use xime_framework.Container.Registry.{put}

abbrev pub missed_start : ℕ
missed_start = 24

abbrev pub row_header_bytes : ℕ
row_header_bytes = 72

-- `(value + 7) & ~7`
abbrev pub align8 : ℕ → ℕ
align8 value = (value + 7) / 8 * 8

pub record ChannelLayout : Type 0 where
  pub rows_per_writer : ℕ
  pub payload_bytes : ℕ
  pub process_count : ℕ
  pub total_rows : ℕ
  pub row_bytes : ℕ
  pub bitmap_offset : ℕ
  pub bitmap_stride : ℕ
  pub rows_offset : ℕ
  pub region_bytes : ℕ
  pub total_bytes : ℕ

unfoldable pub channel_layout : ℕ → ℕ → ℕ → ChannelLayout
channel_layout rows payload processes = record {
  rows_per_writer = rows;
  payload_bytes = payload;
  process_count = processes;
  total_rows = rows * processes;
  row_bytes = row_header_bytes + payload;
  bitmap_offset = align8 (missed_start + 8 * processes);
  bitmap_stride = align8 ((rows * processes + 7) / 8);
  rows_offset =
      align8 (missed_start + 8 * processes) + align8 ((rows * processes + 7) / 8) * processes;
  region_bytes = (row_header_bytes + payload) * rows;
  total_bytes =
      align8 (missed_start + 8 * processes)
      + align8 ((rows * processes + 7) / 8) * processes
      + (row_header_bytes + payload) * rows * processes;
}

abbrev pub missed_offset : ℕ → ℕ
missed_offset index = missed_start + 8 * index

-- bit_offset: the byte of a bit, and its mask
abbrev pub bit_byte : ChannelLayout → ℕ → ℕ → ℕ
bit_byte layout reader row = layout.bitmap_offset + layout.bitmap_stride * reader + row / 8

abbrev pub bit_mask : ℕ → ℕ
bit_mask row = 2 ^ (row % 8)

abbrev pub row_offset : ChannelLayout → ℕ → ℕ
row_offset layout row = layout.rows_offset + layout.row_bytes * row

-- The first row of rows_of(writer).
abbrev pub first_row : ChannelLayout → ℕ → ℕ
first_row layout writer = writer * layout.rows_per_writer

-- The bytes of a block, by place. One process changes a byte at a time.
abbrev pub Buffer : Type 0
Buffer = ℕ → ℕ

-- `buf[pos] |= mask`
unfoldable pub set_bit : ChannelLayout → ℕ → ℕ → Buffer → Buffer
set_bit layout reader row buf =
    let pos = bit_byte layout reader row in put pos (bit_or (buf pos) (bit_mask row)) buf

-- `buf[pos] &= 0xFF ^ mask`
unfoldable pub clear_bit : ChannelLayout → ℕ → ℕ → Buffer → Buffer
clear_bit layout reader row buf =
    let pos = bit_byte layout reader row in
    put pos (bit_and (buf pos) (bit_xor 0xFF (bit_mask row))) buf

-- `bool(buf[pos] & mask)`
unfoldable pub test_bit : ChannelLayout → ℕ → ℕ → Buffer → Bool
test_bit layout reader row buf =
    not (bit_and (buf (bit_byte layout reader row)) (bit_mask row) == 0)
