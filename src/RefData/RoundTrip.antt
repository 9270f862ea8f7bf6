-- ===== src/RefData/RoundTrip.antt =====
-- core/refdata/_refdata.py: what was published is read.
use xime_framework.Prelude.{
  ℕ, zero, suc, ◌+◌, ◌-◌, ◌≤◌, ◌<◌, ◌≡◌, refl, Bool, true, false, List, [], ◌∷◌, arith, ◌==◌, ltb,
  if◌then◌else◌, length, ap, ap₂, ◌∙◌, sym, subst,
}
use xime_framework.RefData.{
  Block, write_payload, publish, published, Accesses, Cache, copy_bytes, read_bytes, read_round,
  read, Read, value_of, not_ready, ended, refused, too_large, Written, finish_round, copy_round,
  slot_view, never_published, write_one, write_bytes,
}
use xime_framework.Container.Registry.{put_self}
use xime_framework.RefData.Bytes.{read_bytes-write_bytes}

-- Nobody writes during the accesses.
abbrev pub still : Block → Accesses
still block t = block

copy_bytes-still :
    (block : Block) (t slot i n : ℕ)
    → copy_bytes (still block) t slot i n ≡ read_bytes (block.cells slot) i n
copy_bytes-still block t slot i zero = refl
copy_bytes-still block t slot i (suc n) =
    ap (λ l. block.cells slot i ∷ l) (copy_bytes-still block (t + 1) slot (i + 1) n)

finish_round-same :
    (b : Bool) (first segments : ℕ) (chunk : List ℕ) (cache : Cache)
    → b ≡ true
    → segments ≡ 1
    → finish_round b first segments chunk cache
      ≡ ended (value_of chunk) (record { generation = first; value = chunk })
unfolding finish_round
finish_round-same true first segments chunk cache e one = ground (arith, one)
finish_round-same false first segments chunk cache e one = absurd (cc)

-- A round that nobody disturbs reads the slot of the pointer.
read_round-still :
    (block : Block) (t : ℕ) (cache : Cache)
    → cache.generation < block.generation
    → block.segments ≡ 1
    → read_round (still block) t cache
      ≡ ended
          (value_of (slot_view block block.pointer))
          (record { generation = block.generation; value = slot_view block block.pointer })
unfolding read_round copy_round
read_round-still block t cache g one =
    by_tests (block.generation == never_published) (block.generation == cache.generation)
      (ground arith) (ground arith)
  where
    by_tests :
        (b c : Bool)
        → b ≡ false
        → c ≡ false
        → (if b
            then ended not_ready cache
            else if c
            then ended (value_of cache.value) cache
            else copy_round (still block) t block.generation cache)
          ≡ ended
              (value_of (slot_view block block.pointer))
              (record { generation = block.generation; value = slot_view block block.pointer })
    by_tests true c e f = absurd (cc)
    by_tests false true e f = absurd (cc)
    by_tests false false e f =
        finish_round-same (block.generation == block.generation) block.generation block.segments
          (copy_bytes (still block) (t + 4) block.pointer 0 (block.lengths block.pointer)) cache
          (ground arith) one
        ∙ ap
            (λ (l : List ℕ).
              ended (value_of l) (record { generation = block.generation; value = l }))
            (copy_bytes-still block (t + 4) block.pointer 0 (block.lengths block.pointer))

read_ended :
    (spins : ℕ) (at : Accesses) (t : ℕ) (cache cache' : Cache) (r : Read)
    → read_round at t cache ≡ ended r cache'
    → read (suc spins) at t cache ≡ (r, cache')
unfolding read
read_ended spins at t cache cache' r e = rw (e, read)

-- The spare slot holds the payload, and the pointer names it.
pub slot_view-write_payload :
    (now index : ℕ) (payload : List ℕ) (block : Block)
    → let after = write_payload now index payload block in slot_view after after.pointer ≡ payload
unfolding write_payload
slot_view-write_payload now index payload block =
    ap₂ (λ (f : ℕ → ℕ) n. read_bytes f 0 n)
      (put_self (1 - block.pointer) (write_bytes payload 0 (block.cells (1 - block.pointer)))
        block.cells)
      (put_self (1 - block.pointer) (length payload) block.lengths)
    ∙ read_bytes-write_bytes payload 0 (block.cells (1 - block.pointer))

write_one-fits :
    (max_bytes now index : ℕ) (payload : List ℕ) (block : Block)
    → length payload ≤ max_bytes
    → write_one max_bytes now index payload block
      ≡ (published (block.generation + 1), write_payload now index payload block)
unfolding write_one
write_one-fits max_bytes now index payload block h =
    by_test (ltb max_bytes (length payload)) (ground arith)
  where
    by_test :
        (b : Bool)
        → b ≡ false
        → (if◌then◌else◌ {A = Written × Block} b
            (refused (too_large (length payload)), record block { stale = true })
            (published (block.generation + 1), write_payload now index payload block))
          ≡ (published (block.generation + 1), write_payload now index payload block)
    by_test false e = refl
    by_test true e = absurd (cc)

write_payload-generation :
    (now index : ℕ) (payload : List ℕ) (block : Block)
    → ((write_payload now index payload block).generation ≡ block.generation + 1)
      × ((write_payload now index payload block).segments ≡ 1)
unfolding write_payload
write_payload-generation now index payload block = (refl, refl)

-- A payload of at most `max_bytes` bytes that the primary publishes gets the next generation, and
-- a process whose cache is not newer than the table reads it back, whatever was there before.
pub read-publish :
    (max_bytes now index : ℕ) (payload : List ℕ) (block : Block) (cache : Cache) (spins t : ℕ)
    → length payload ≤ max_bytes
    → cache.generation ≤ block.generation
    → let after = publish true max_bytes now index (payload ∷ []) block in
      (after.0 ≡ published (block.generation + 1))
      × (read (suc spins) (still after.1) t cache
          ≡ (value_of payload, record { generation = block.generation + 1; value = payload }))
unfolding publish
read-publish max_bytes now index payload block cache spins t h g =
    subst
      (λ (w : Written × Block).
        (w.0 ≡ published (block.generation + 1))
        × (read (suc spins) (still w.1) t cache
            ≡ (value_of payload, record { generation = block.generation + 1; value = payload })))
      (sym (write_one-fits max_bytes now index payload block h)) (refl, read_after)
  where
    read_after :
        read (suc spins) (still (write_payload now index payload block)) t cache
        ≡ (value_of payload, record { generation = block.generation + 1; value = payload })
    read_after =
        let done = write_payload now index payload block in
        let (newer, one) = write_payload-generation now index payload block in
        read_ended spins (still done) t cache _ _
          (read_round-still done t cache (omega (arith, newer, g)) one)
        ∙ ap₂ (λ (l : List ℕ) (n : ℕ). (value_of l, record { generation = n; value = l }))
            (slot_view-write_payload now index payload block) newer
