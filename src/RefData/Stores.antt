-- ===== src/RefData/Stores.antt =====
-- core/refdata/_refdata.py: the stores of `_write`, one after the other, make the write.
use xime_framework.Prelude.{
  ℕ, ◌+◌, ◌-◌, ◌≡◌, refl, Bool, true, false, List, [], ◌∷◌, arith, ◌==◌, ap, ap₂, ◌∙◌, sym, ltb,
  if◌then◌else◌, length, subst,
}
use xime_framework.Container.Registry.{put, put_self}
use xime_framework.RefData.{
  Block, Written, published, refused, too_large, write_one, write_payload, write_bytes,
}
use xime_framework.RefData.Writer.{
  idle, filling, Action, call, tick, Writer, advance, begin, respond, step, store, write_cell,
}

unfoldable pub perform : ℕ → ℕ → List Action → Writer → Writer
unfolding step
perform max_bytes index [] w = w
perform max_bytes index (action ∷ actions) w =
    perform max_bytes index actions (step max_bytes index action w)

-- One tick for each byte, and then `rest`.
abbrev pub tick_each : ℕ → List ℕ → List Action → List Action
tick_each now [] rest = rest
tick_each now (x ∷ xs) rest = tick now ∷ tick_each now xs rest

-- A call and the ticks that its stores take.
abbrev pub whole_write : ℕ → List ℕ → List Action
whole_write now payload =
    call payload
    ∷ tick_each now payload
        (tick now ∷ tick now ∷ tick now ∷ tick now ∷ tick now ∷ tick now ∷ tick now ∷ tick now ∷ [])

put-put : {B : Type 0} (key : ℕ) (x y : B) (d : ℕ → B) → put key x (put key y d) ≡ put key x d
put-put key x y d i k = by_test (key == k) i
  where
    by_test : (b : Bool) → (if b then x else (if b then y else d k)) ≡ (if b then x else d k)
    by_test true = refl
    by_test false = refl

put_same : {B : Type 0} (key : ℕ) (d : ℕ → B) → put key (d key) d ≡ d
put_same key d i k = by_test (key == k) refl i
  where
    by_test : (b : Bool) → (key == k) ≡ b → (if b then d key else d k) ≡ d k
    by_test true e = ap d (ground arith)
    by_test false e = refl

-- The writer after the bytes that were left to write.
abbrev filled : ℕ → ℕ → List ℕ → List ℕ → Writer → Writer
filled target i rest payload w =
    store (filling target (i + length rest) [] payload)
      (record w.block {
        cells = put target (write_bytes rest i (w.block.cells target)) w.block.cells;
      })
      w

module _ (max_bytes index now : ℕ) where
  perform-fill :
      (rest : List ℕ) (target i : ℕ) (payload : List ℕ) (tail : List Action) (w : Writer)
      → perform max_bytes index
          (tick_each now rest tail)
          (store (filling target i rest payload) w.block w)
        ≡ perform max_bytes index tail (filled target i rest payload w)
  unfolding perform step respond advance
  perform-fill [] target i payload tail w =
      ap₂
        (λ (j : ℕ) (cells : ℕ → ℕ → ℕ).
          perform max_bytes index tail
            (store (filling target j [] payload) (record w.block { cells = cells }) w))
        (omega arith) (sym (put_same target w.block.cells))
  perform-fill (x ∷ rest) target i payload tail w =
      perform-fill rest target (i + 1) payload tail (store idle (write_cell target i x w.block) w)
      ∙ ap₂
          (λ (j : ℕ) (cells : ℕ → ℕ → ℕ).
            perform max_bytes index tail
              (store (filling target j [] payload) (record w.block { cells = cells }) w))
          (omega arith)
          (ap
              (λ f.
                put target (write_bytes rest (i + 1) f)
                  (put target (put i x (w.block.cells target)) w.block.cells))
              (put_self target (put i x (w.block.cells target)) w.block.cells)
            ∙ put-put target (write_bytes rest (i + 1) (put i x (w.block.cells target)))
                (put i x (w.block.cells target)) w.block.cells)

  perform-idle :
      (rest : List ℕ) (tail : List Action) (block : Block) (w : Writer)
      → perform max_bytes index (tick_each now rest tail) (store idle block w)
        ≡ perform max_bytes index tail (store idle block w)
  unfolding perform step respond advance
  perform-idle [] tail block w = refl
  perform-idle (x ∷ rest) tail block w = perform-idle rest tail block w

  -- On a writer that does nothing else, a call of publish() with one segment and the ticks its stores
  -- take leave the block as the write, with the clock at rest, and the writer ready for the next call.
  pub perform-write_one :
      (payload : List ℕ) (block : Block) (w : Writer)
      → let after = perform max_bytes index (whole_write now payload) (store idle block w) in
        (after.block ≡ (write_one max_bytes now index payload block).1) × (after.pc ≡ idle)
  unfolding perform step respond advance begin write_one write_payload
  perform-write_one payload block w = by_test (ltb max_bytes (length payload))
    where
      tail : List Action
      tail =
          tick now ∷ tick now ∷ tick now ∷ tick now ∷ tick now ∷ tick now ∷ tick now ∷ tick now ∷ []

      by_test :
          (b : Bool)
          → let after = perform max_bytes index (tick_each now payload tail) (
              if b
              then store idle (record block { stale = true }) w
              else store (filling (1 - block.pointer) 0 payload payload) block w) in
            (after.block
              ≡ (if◌then◌else◌ {A = Written × Block} b
                  (refused (too_large (length payload)), record block { stale = true })
                  (published (block.generation + 1), write_payload now index payload block)).1)
            × (after.pc ≡ idle)
      by_test true =
          subst (λ (v : Writer). (v.block ≡ record block { stale = true }) × (v.pc ≡ idle))
            (sym (perform-idle payload tail (record block { stale = true }) w)) (refl, refl)
      by_test false =
          subst (λ (v : Writer). (v.block ≡ write_payload now index payload block) × (v.pc ≡ idle))
            (sym (perform-fill payload (1 - block.pointer) 0 payload tail (store idle block w)))
            (refl, refl)
