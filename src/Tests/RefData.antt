-- ===== src/Tests/RefData.antt =====
-- core/refdata: a table of four bytes.
use xime_framework.Prelude.{
  ℕ, ◌+◌, ◌≤◌, ◌<◌, ◌≡◌, ◌≢◌, refl, true, some, [], ◌∷◌, arith, inl, if◌then◌else◌, ◌==◌, ◌*◌,
}
use xime_framework.RefData.{
  RefDataLayout, create_layout, header_bytes, write_header, verify_header, published, publish,
  empty_cache, value_of, read,
}
use xime_framework.RefData.Bounds.{byte_at, byte_at_bounds}
use xime_framework.RefData.RoundTrip.{still, read-publish}
use xime_framework.RefData.Writer.{Action, call, tick, idle, new_writer, writer_at, store}
use xime_framework.RefData.Stores.{perform, whole_write}
use xime_framework.RefData.Landing.{Lands, perform-Lands}
use xime_framework.RefData.Torn.{read-Fits, Fits}

abbrev four : RefDataLayout
four = record { max_bytes = 4; slot_a_offset = 40; slot_b_offset = 44; total_bytes = 48 }

create_layout-four : create_layout 4 ≡ some four
unfolding create_layout
create_layout-four = refl

verify_header-write_header : verify_header 4 (write_header 4) ≡ true
unfolding verify_header
verify_header-write_header = refl

byte_at_bounds_example :
    (header_bytes ≤ byte_at four 1 3)
    × (byte_at four 1 3 < four.total_bytes)
    × (byte_at four 0 3 ≢ byte_at four 1 0)
byte_at_bounds_example = byte_at_bounds 4 four 1 3 0 create_layout-four (omega arith) (omega arith)

read-publish_example :
    let after = publish true 4 77 0 ((10 ∷ 20 ∷ []) ∷ []) (write_header 4) in
    (after.0 ≡ published 1)
    × (read 100 (still after.1) 0 empty_cache
        ≡ (value_of (10 ∷ 20 ∷ []), record { generation = 1; value = 10 ∷ 20 ∷ [] }))
read-publish_example =
    read-publish 4 77 0 (10 ∷ 20 ∷ []) (write_header 4) empty_cache 99 0 (omega arith) (omega arith)

perform-Lands_example :
    let after =
      perform 4 0 (whole_write 77 (10 ∷ 20 ∷ [])) (store idle (write_header 4) (new_writer 4)) in
    Lands 4 0 77 (10 ∷ 20 ∷ []) (write_header 4) after.block × (after.pc ≡ idle)
perform-Lands_example =
    perform-Lands 4 0 77 (10 ∷ 20 ∷ []) (write_header 4) (new_writer 4) (omega arith)

-- Two bytes are published, and then two others, and so on.
abbrev busy : ℕ → Action
busy n = if n == 0 then call (10 ∷ 20 ∷ []) else if n == 12 then call (30 ∷ 40 ∷ []) else tick n

abbrev times : ℕ → ℕ
times i = i + 8

table_at_eleven : (writer_at 4 0 busy 11).block.generation ≡ 1
unfolding writer_at
table_at_eleven = refl

read-Fits_example :
    Fits 4 0 busy times 3
      (value_of (10 ∷ 20 ∷ []))
      (record { generation = 1; value = 10 ∷ 20 ∷ [] })
unfolding read writer_at
read-Fits_example = read-Fits 4 0 busy times (λ i. omega arith) 100 3 empty_cache (inl refl)

-- The second version comes between the accesses of the only round.
abbrev slowly : ℕ → ℕ
slowly i = i * 4 + 12
