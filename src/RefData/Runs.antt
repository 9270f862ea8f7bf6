-- ===== src/RefData/Runs.antt =====
-- core/refdata/_refdata.py: what the stores keep from one moment of a run to a later one.
use xime_framework.Prelude.{
  ℕ, zero, suc, ◌-◌, ◌≤◌, ◌≡◌, refl, Bool, true, false, [], ◌∷◌, arith, leb, ltb, length,
  if◌then◌else◌, subst,
}
use xime_framework.RefData.{Block}
use xime_framework.RefData.Writer.{
  Pc, idle, filling, sizing, segmenting, stamping, signing, flipping, bumping, unflagging, Action,
  call, tick, Writer, writer_at, step, respond, begin, advance, store,
}
use xime_framework.RefData.Intact.{writer_at-Intact}
use xime_framework.RefData.Steady.{Steady, Kept-trans, Kept-refl, Safe, respond-Steady}

-- What holds of a moment and itself and is kept by each step holds of a moment and every later one.
pub climb {ℓ} :
    (R : ℕ → ℕ → Type ℓ)
    → ((u : ℕ) → R u u)
    → ((u v : ℕ) → u ≤ v → R u v → R u (suc v))
    → (u v : ℕ) → u ≤ v
    → R u v
climb R here next u zero h = subst (λ v. R u v) (omega (arith, h)) (here u)
climb R here next u (suc v) h = by_test (leb u v) refl (climb R here next u v)
  where
    by_test : (b : Bool) → leb u v ≡ b → (u ≤ v → R u v) → R u (suc v)
    by_test true e before = next u v (ground arith) (before (ground arith))
    by_test false e before = subst (λ w. R u w) (ground arith) (here u)

advance-generation :
    (index now : ℕ) (pc : Pc) (w : Writer)
    → w.block.generation ≤ (advance index now pc w).block.generation
unfolding advance
advance-generation index now idle w = omega arith
advance-generation index now (filling target i [] payload) w = omega arith
advance-generation index now (filling target i (x ∷ rest) payload) w = omega arith
advance-generation index now (sizing target payload) w = omega arith
advance-generation index now (segmenting target payload) w = omega arith
advance-generation index now (stamping target payload) w = omega arith
advance-generation index now (signing target payload) w = omega arith
advance-generation index now (flipping target payload) w = omega arith
advance-generation index now bumping w = omega arith
advance-generation index now unflagging w = omega arith

respond-generation :
    (max_bytes index : ℕ) (action : Action) (pc : Pc) (w : Writer)
    → w.block.generation ≤ (respond max_bytes index action pc w).block.generation
unfolding respond begin
respond-generation max_bytes index (tick now) pc w = advance-generation index now pc w
respond-generation max_bytes index (call payload) idle w = by_test (ltb max_bytes (length payload))
  where
    by_test :
        (b : Bool)
        → w.block.generation
          ≤ (if◌then◌else◌ {A = Writer} b
              (store idle (record w.block { stale = true }) w)
              (store (filling (1 - w.block.pointer) 0 payload payload) w.block w)).block.generation
    by_test true = omega arith
    by_test false = omega arith
respond-generation max_bytes index (call payload) pc w = omega arith

module _ (max_bytes index : ℕ) (actions : ℕ → Action) where
  -- The memory after `n` actions.
  abbrev pub memory : ℕ → Block
  memory n = (writer_at max_bytes index actions n).block

  -- The generation never falls.
  pub generation_mono : (u v : ℕ) → u ≤ v → (memory u).generation ≤ (memory v).generation
  unfolding writer_at step
  generation_mono =
      climb (λ u v. (memory u).generation ≤ (memory v).generation) (λ u. omega arith)
        (λ u v h ih.
          let w = writer_at max_bytes index actions v in
          omega (arith, ih, respond-generation max_bytes index (actions v) w.pc w))

  -- A slot that is safe to read stays as it is while the generation stays.
  pub memory-Steady :
      (slot u v : ℕ)
      → Safe (writer_at max_bytes index actions u).pc (memory u) slot
      → u ≤ v
      → (memory v).generation ≡ (memory u).generation
      → Steady slot (memory u) (writer_at max_bytes index actions v)
  unfolding writer_at step
  memory-Steady slot u v safe h =
      climb
        (λ u v.
          Safe (writer_at max_bytes index actions u).pc (memory u) slot
          → (memory v).generation ≡ (memory u).generation
          → Steady slot (memory u) (writer_at max_bytes index actions v))
        (λ u safe g. record { kept = Kept-refl slot (memory u); safe = safe })
        (λ u v h ih safe g.
          let w = writer_at max_bytes index actions v in
          let intact = writer_at-Intact max_bytes index actions v in
          let rises = respond-generation max_bytes index (actions v) w.pc w in
          let below = generation_mono u v h in
          let so_far = ih safe (omega (arith, g, rises, below)) in
          let last =
            respond-Steady max_bytes index slot (actions v) w.pc w refl intact.held.slot
              intact.stage (omega (arith, g, rises, below)) so_far.safe in
          record { kept = Kept-trans so_far.kept last.kept; safe = last.safe })
        u v h safe
