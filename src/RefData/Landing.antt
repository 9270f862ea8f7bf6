-- ===== src/RefData/Landing.antt =====
-- core/refdata/_refdata.py: what a reader finds in the block once all stores of `_write` are done.
use xime_framework.Prelude.{
  ℕ, ◌+◌, ◌-◌, ◌≤◌, ◌<◌, ◌≡◌, refl, Bool, true, false, List, arith, ◌==◌, ltb, if◌then◌else◌,
  length, ap₂, sym, subst,
}
use xime_framework.Container.Registry.{put_other}
use xime_framework.RefData.{
  Block, Written, published, refused, too_large, write_one, write_payload, write_bytes, slot_view,
  read_bytes,
}
use xime_framework.RefData.Writer.{Writer, store, idle}
use xime_framework.RefData.RoundTrip.{slot_view-write_payload}
use xime_framework.RefData.Stores.{perform, whole_write, perform-write_one}

-- A payload that fits lies in the slot that the pointer did not name, which it names now, the slot
-- that it named reads as before, and the table is one generation on; a payload that does not fit
-- leaves everything but the mark of staleness.
pub data Lands (max_bytes index now : ℕ) (payload : List ℕ) (before after : Block) : Type 0 where
  landed :
      length payload ≤ max_bytes
      → after.generation ≡ before.generation + 1
      → after.pointer ≡ 1 - before.pointer
      → slot_view after after.pointer ≡ payload
      → slot_view after before.pointer ≡ slot_view before before.pointer
      → after.segments ≡ 1
      → after.stale ≡ false
      → (after.written_at ≡ now) × (after.writer ≡ index)
      → Lands max_bytes index now payload before after
  kept_out :
      max_bytes < length payload
      → after ≡ record before { stale = true }
      → Lands max_bytes index now payload before after

module _ (max_bytes index now : ℕ) (payload : List ℕ) (block : Block) where
  -- The slot that readers may be copying is not written.
  slot_view_kept :
      block.pointer ≤ 1
      → slot_view (write_payload now index payload block) block.pointer
        ≡ slot_view block block.pointer
  unfolding write_payload
  slot_view_kept h =
      ap₂ (λ (f : ℕ → ℕ) n. read_bytes f 0 n)
        (put_other (1 - block.pointer) block.pointer
          (write_bytes payload 0 (block.cells (1 - block.pointer))) block.cells apart)
        (put_other (1 - block.pointer) block.pointer (length payload) block.lengths apart)
    where
      apart : (1 - block.pointer == block.pointer) ≡ false
      apart = ground (arith, h)

  write_payload-Lands :
      length payload ≤ max_bytes
      → block.pointer ≤ 1
      → Lands max_bytes index now payload block (write_payload now index payload block)
  unfolding write_payload
  write_payload-Lands fits h =
      landed fits refl refl (slot_view-write_payload now index payload block) (slot_view_kept h)
        refl refl (refl, refl)

  write_one-Lands :
      block.pointer ≤ 1
      → Lands max_bytes index now payload block (write_one max_bytes now index payload block).1
  unfolding write_one
  write_one-Lands h = by_test (ltb max_bytes (length payload)) refl
    where
      by_test :
          (b : Bool)
          → ltb max_bytes (length payload) ≡ b
          → Lands max_bytes index now payload block
              (if◌then◌else◌ {A = Written × Block} b
                (refused (too_large (length payload)), record block { stale = true })
                (published (block.generation + 1), write_payload now index payload block)).1
      by_test true e = kept_out (ground (arith, e)) refl
      by_test false e = write_payload-Lands (ground (arith, e)) h

  -- On a writer at rest, a call of publish() with one segment and the ticks that its stores take, in a
  -- block whose pointer is one of its slots: a payload that fits is what the slot of the turned
  -- pointer reads, the other slot reads as before, the generation is one more, the number of segments
  -- is one, the table is not stale, and the clock and the writer are noted; a larger payload changes
  -- nothing but that the table is stale. The writer is then ready for the next call.
  pub perform-Lands :
      (w : Writer)
      → block.pointer ≤ 1
      → let after = perform max_bytes index (whole_write now payload) (store idle block w) in
        Lands max_bytes index now payload block after.block × (after.pc ≡ idle)
  perform-Lands w h =
      let (done, ready) = perform-write_one max_bytes index now payload block w in
      (subst (Lands max_bytes index now payload block) (sym done) (write_one-Lands h), ready)
