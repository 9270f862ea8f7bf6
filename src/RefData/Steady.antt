-- ===== src/RefData/Steady.antt =====
-- core/refdata/_refdata.py: while the generation stays, nobody writes into the slot a reader found.
use xime_framework.Prelude.{
  ℕ, ◌≤◌, ◌≡◌, refl, true, false, Bool, List, [], ◌∷◌, arith, length, ◌-◌, ap, ◌∙◌, sym, subst, ltb,
  if◌then◌else◌,
}
use xime_framework.Container.Registry.{put}
use xime_framework.RefData.{Block}
use xime_framework.RefData.Writer.{
  Pc, idle, filling, sizing, segmenting, stamping, signing, flipping, bumping, unflagging, Action,
  call, tick, Writer, advance, begin, respond, store,
}
use xime_framework.RefData.Intact.{Spare, Stage, put_spare}

-- A slot that is not written before the generation goes up.
abbrev pub Safe : Pc → Block → ℕ → Type 0
Safe bumping block slot = Unit
Safe pc block slot = slot ≡ block.pointer

-- The slot reads the same in both states.
pub record Kept (slot : ℕ) (before after : Block) : Type 0 where
  pub length : after.lengths slot ≡ before.lengths slot
  pub cells : (i : ℕ) → after.cells slot i ≡ before.cells slot i

pub Kept-refl : (slot : ℕ) (block : Block) → Kept slot block block
Kept-refl slot block = record { length = refl; cells = λ i. refl }

pub Kept-trans : {slot : ℕ} {a b c : Block} → Kept slot a b → Kept slot b c → Kept slot a c
Kept-trans k l = record { length = l.length ∙ k.length; cells = λ i. l.cells i ∙ k.cells i }

-- The slot is kept, and still safe.
pub record Steady (slot : ℕ) (before : Block) (after : Writer) : Type 0 where
  pub kept : Kept slot before after.block
  pub safe : Safe after.pc after.block slot

pub pointer-Safe : (pc : Pc) (block : Block) → Safe pc block block.pointer
pointer-Safe idle block = refl
pointer-Safe (filling t i rest p) block = refl
pointer-Safe (sizing t p) block = refl
pointer-Safe (segmenting t p) block = refl
pointer-Safe (stamping t p) block = refl
pointer-Safe (signing t p) block = refl
pointer-Safe (flipping t p) block = refl
pointer-Safe bumping block = tt
pointer-Safe unflagging block = refl

spared :
    {A : Type 0} {target flips slot : ℕ} {block : Block}
    → Spare target flips block
    → slot ≡ block.pointer
    → block.pointer ≤ 1
    → (x : A) (f : ℕ → A) → put target x f slot ≡ f slot
spared {A} {target} {flips} {slot} {block} spare e p x f =
    ap (put target x f) e ∙ put_spare target block.pointer x f spare.spare p ∙ ap f (sym e)

advance-Steady :
    (index now slot : ℕ) (pc : Pc) (w : Writer)
    → w.block.pointer ≤ 1
    → Stage pc w.flips w.block
    → (advance index now pc w).block.generation ≡ w.block.generation
    → Safe pc w.block slot
    → Steady slot w.block (advance index now pc w)
unfolding advance
advance-Steady index now slot idle w p s g safe = record {
  kept = Kept-refl slot w.block;
  safe = safe;
}
advance-Steady index now slot (filling target i [] payload) w p s g safe = record {
  kept = Kept-refl slot w.block;
  safe = safe;
}
advance-Steady index now slot (filling target i (x ∷ rest) payload) w p (spare, s) g safe = record {
  kept = record {
    length = refl;
    cells = λ j.
        ap (λ (f : ℕ → ℕ). f j)
          (spared spare safe p (put i x (w.block.cells target)) w.block.cells);
  };
  safe = safe;
}
advance-Steady index now slot (sizing target payload) w p (spare, s) g safe = record {
  kept = record {
    length = spared spare safe p (length payload) w.block.lengths;
    cells = λ j. refl;
  };
  safe = safe;
}
advance-Steady index now slot (segmenting target payload) w p s g safe = record {
  kept = record { length = refl; cells = λ j. refl };
  safe = safe;
}
advance-Steady index now slot (stamping target payload) w p s g safe = record {
  kept = record { length = refl; cells = λ j. refl };
  safe = safe;
}
advance-Steady index now slot (signing target payload) w p s g safe = record {
  kept = record { length = refl; cells = λ j. refl };
  safe = safe;
}
advance-Steady index now slot (flipping target payload) w p s g safe = record {
  kept = record { length = refl; cells = λ j. refl };
  safe = tt;
}
advance-Steady index now slot bumping w p s g safe = absurd (omega (arith, g))
advance-Steady index now slot unflagging w p s g safe = record {
  kept = record { length = refl; cells = λ j. refl };
  safe = safe;
}

begin-Steady :
    (max_bytes slot : ℕ) (payload : List ℕ) (w : Writer)
    → slot ≡ w.block.pointer
    → Steady slot w.block (begin max_bytes payload w)
unfolding begin
begin-Steady max_bytes slot payload w safe = by_test (ltb max_bytes (length payload))
  where
    by_test :
        (b : Bool)
        → Steady slot w.block (
            if b
            then store idle (record w.block { stale = true }) w
            else store (filling (1 - w.block.pointer) 0 payload payload) w.block w)
    by_test true = record { kept = record { length = refl; cells = λ j. refl }; safe = safe }
    by_test false = record { kept = Kept-refl slot w.block; safe = safe }

pub respond-Steady :
    (max_bytes index slot : ℕ) (action : Action) (pc : Pc) (w : Writer)
    → pc ≡ w.pc
    → w.block.pointer ≤ 1
    → Stage pc w.flips w.block
    → (respond max_bytes index action pc w).block.generation ≡ w.block.generation
    → Safe pc w.block slot
    → Steady slot w.block (respond max_bytes index action pc w)
unfolding respond
respond-Steady max_bytes index slot (tick now) pc w e p s g safe =
    advance-Steady index now slot pc w p s g safe
respond-Steady max_bytes index slot (call payload) idle w e p s g safe =
    begin-Steady max_bytes slot payload w safe
respond-Steady max_bytes index slot (call payload) pc w e p s g safe = record {
  kept = Kept-refl slot w.block;
  safe = subst (λ c. Safe c w.block slot) e safe;
}
