-- ===== src/RefData/Intact.antt =====
-- core/refdata/_refdata.py: the slot of the pointer holds the last version at every store.
use xime_framework.Prelude.{
  ℕ, zero, suc, ◌+◌, ◌-◌, ◌≤◌, ◌≡◌, refl, true, false, Bool, List, [], ◌∷◌, arith, ◌==◌, length, ap,
  ◌∙◌, sym, subst, ltb, if◌then◌else◌,
}
use xime_framework.Container.Registry.{put, put_self, put_other}
use xime_framework.RefData.{Block, read_bytes, write_bytes, slot_view}
use xime_framework.RefData.Bytes.{read_bytes-write_bytes}
use xime_framework.RefData.Writer.{
  Pc, idle, filling, sizing, segmenting, stamping, signing, flipping, bumping, unflagging, Action,
  call, tick, Writer, advance, begin, respond, step, writer_at, store,
}

-- The pointer names a slot, and once something was published that slot holds the last version.
pub record Held (block : Block) (flips : ℕ) (version : List ℕ) : Type 0 where
  pub slot : block.pointer ≤ 1
  pub one : 1 ≤ flips → block.segments ≡ 1
  pub whole : 1 ≤ flips → slot_view block block.pointer ≡ version

-- The spare slot is the one being written, and the versions are as many as the generation.
pub record Spare (target flips : ℕ) (block : Block) : Type 0 where
  pub level : flips ≡ block.generation
  pub spare : target ≡ 1 - block.pointer

-- What is true of the spare slot before each store.
abbrev pub Stage : Pc → ℕ → Block → Type 0
Stage idle flips block = flips ≡ block.generation
Stage (filling target i rest payload) flips block =
    Spare target flips block
    × (read_bytes (write_bytes rest i (block.cells target)) 0 (length payload) ≡ payload)
Stage (sizing target payload) flips block =
    Spare target flips block × (read_bytes (block.cells target) 0 (length payload) ≡ payload)
Stage (segmenting target payload) flips block =
    Spare target flips block × (slot_view block target ≡ payload)
Stage (stamping target payload) flips block =
    Spare target flips block × (slot_view block target ≡ payload) × (block.segments ≡ 1)
Stage (signing target payload) flips block =
    Spare target flips block × (slot_view block target ≡ payload) × (block.segments ≡ 1)
Stage (flipping target payload) flips block =
    Spare target flips block × (slot_view block target ≡ payload) × (block.segments ≡ 1)
Stage bumping flips block = flips ≡ block.generation + 1
Stage unflagging flips block = flips ≡ block.generation

pub record Intact (w : Writer) : Type 0 where
  pub held : Held w.block w.flips (w.versions w.flips)
  pub stage : Stage w.pc w.flips w.block

pub apart : (p : ℕ) → p ≤ 1 → ((1 - p) == p) ≡ false
apart p h = ground arith

-- A store into the spare slot leaves the other one as it is.
pub put_spare :
    {A : Type 0} (target p : ℕ) (x : A) (f : ℕ → A)
    → target ≡ 1 - p
    → p ≤ 1
    → put target x f p ≡ f p
put_spare target p x f e h = put_other target p x f (ap (λ t. t == p) e ∙ apart p h)

advance-Intact :
    (index now : ℕ) (pc : Pc) (w : Writer)
    → Held w.block w.flips (w.versions w.flips)
    → Stage pc w.flips w.block
    → Intact (advance index now pc w)
unfolding advance
advance-Intact index now idle w held s = record { held = held; stage = s }
advance-Intact index now (filling target i [] payload) w held s = record { held = held; stage = s }
advance-Intact index now (filling target i (x ∷ rest) payload) w held (spare, s) = record {
  held = record {
    slot = held.slot;
    one = held.one;
    whole = λ h.
        ap (λ (f : ℕ → ℕ). read_bytes f 0 (w.block.lengths w.block.pointer))
          (put_spare target w.block.pointer (put i x (w.block.cells target)) w.block.cells
            spare.spare held.slot)
        ∙ held.whole h;
  };
  stage = (
    record { level = spare.level; spare = spare.spare },
    ap (λ (f : ℕ → ℕ). read_bytes (write_bytes rest (i + 1) f) 0 (length payload))
          (put_self target (put i x (w.block.cells target)) w.block.cells)
        ∙ s,
  );
}
advance-Intact index now (sizing target payload) w held (spare, s) = record {
  held = record {
    slot = held.slot;
    one = held.one;
    whole = λ h.
        ap (λ n. read_bytes (w.block.cells w.block.pointer) 0 n)
          (put_spare target w.block.pointer (length payload) w.block.lengths spare.spare held.slot)
        ∙ held.whole h;
  };
  stage = (
    record { level = spare.level; spare = spare.spare },
    ap (λ n. read_bytes (w.block.cells target) 0 n)
          (put_self target (length payload) w.block.lengths)
        ∙ s,
  );
}
advance-Intact index now (segmenting target payload) w held (spare, s) = record {
  held = record { slot = held.slot; one = λ _. refl; whole = held.whole };
  stage = (record { level = spare.level; spare = spare.spare }, s, refl);
}
advance-Intact index now (stamping target payload) w held (spare, s, one) = record {
  held = record { slot = held.slot; one = held.one; whole = held.whole };
  stage = (record { level = spare.level; spare = spare.spare }, s, one);
}
advance-Intact index now (signing target payload) w held (spare, s, one) = record {
  held = record { slot = held.slot; one = held.one; whole = held.whole };
  stage = (record { level = spare.level; spare = spare.spare }, s, one);
}
advance-Intact index now (flipping target payload) w held (spare, whole, one) = record {
  held = record {
    slot = omega (arith, spare.spare);
    one = λ _. one;
    whole = λ _. whole ∙ sym (put_self (w.flips + 1) payload w.versions);
  };
  stage = ap (λ n. n + 1) spare.level;
}
advance-Intact index now bumping w held s = record {
  held = record { slot = held.slot; one = held.one; whole = held.whole };
  stage = s;
}
advance-Intact index now unflagging w held s = record {
  held = record { slot = held.slot; one = held.one; whole = held.whole };
  stage = s;
}

begin-Intact :
    (max_bytes : ℕ) (payload : List ℕ) (w : Writer)
    → Held w.block w.flips (w.versions w.flips)
    → w.flips ≡ w.block.generation
    → Intact (begin max_bytes payload w)
unfolding begin
begin-Intact max_bytes payload w held level = by_test (ltb max_bytes (length payload))
  where
    by_test :
        (b : Bool)
        → Intact (
            if b
            then store idle (record w.block { stale = true }) w
            else store (filling (1 - w.block.pointer) 0 payload payload) w.block w)
    by_test true = record {
      held = record { slot = held.slot; one = held.one; whole = held.whole };
      stage = level;
    }
    by_test false = record {
      held = held;
      stage = (
        record { level = level; spare = refl },
        read_bytes-write_bytes payload 0 (w.block.cells (1 - w.block.pointer)),
      );
    }

respond-Intact :
    (max_bytes index : ℕ) (action : Action) (pc : Pc) (w : Writer)
    → pc ≡ w.pc
    → Held w.block w.flips (w.versions w.flips)
    → Stage pc w.flips w.block
    → Intact (respond max_bytes index action pc w)
unfolding respond
respond-Intact max_bytes index (tick now) pc w e held s = advance-Intact index now pc w held s
respond-Intact max_bytes index (call payload) idle w e held s =
    begin-Intact max_bytes payload w held s
respond-Intact max_bytes index (call payload) pc w e held s = record {
  held = held;
  stage = subst (λ c. Stage c w.flips w.block) e s;
}

pub writer_at-Intact :
    (max_bytes index : ℕ) (actions : ℕ → Action) (n : ℕ)
    → Intact (writer_at max_bytes index actions n)
unfolding writer_at step
writer_at-Intact max_bytes index actions zero = record {
  held = record {
    slot = omega arith;
    one = λ h. absurd (omega (arith, h));
    whole = λ h. absurd (omega (arith, h));
  };
  stage = refl;
}
writer_at-Intact max_bytes index actions (suc n) =
    let w = writer_at max_bytes index actions n in
    let ih = writer_at-Intact max_bytes index actions n in
    respond-Intact max_bytes index (actions n) w.pc w refl ih.held ih.stage

-- The pointer is turned first and the generation counted after.
pub level_lem :
    (w : Writer) → Intact w → (w.block.generation ≤ w.flips) × (w.flips ≤ w.block.generation + 1)
level_lem w intact = by_stage w.pc w.flips w.block intact.stage
  where
    by_stage :
        (pc : Pc) (flips : ℕ) (block : Block)
        → Stage pc flips block
        → (block.generation ≤ flips) × (flips ≤ block.generation + 1)
    by_stage idle flips block s = (omega (arith, s), omega (arith, s))
    by_stage (filling t i rest p) flips block (s, _) =
        (omega (arith, s.level), omega (arith, s.level))
    by_stage (sizing t p) flips block (s, _) = (omega (arith, s.level), omega (arith, s.level))
    by_stage (segmenting t p) flips block (s, _) = (omega (arith, s.level), omega (arith, s.level))
    by_stage (stamping t p) flips block (s, _, _) = (omega (arith, s.level), omega (arith, s.level))
    by_stage (signing t p) flips block (s, _, _) = (omega (arith, s.level), omega (arith, s.level))
    by_stage (flipping t p) flips block (s, _, _) = (omega (arith, s.level), omega (arith, s.level))
    by_stage bumping flips block s = (omega (arith, s), omega (arith, s))
    by_stage unflagging flips block s = (omega (arith, s), omega (arith, s))
