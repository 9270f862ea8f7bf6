-- ===== src/RefData/Torn.antt =====
-- core/refdata/_refdata.py: `read` while the primary writes.
use xime_framework.Prelude.{
  ℕ, zero, suc, ◌+◌, ◌≤◌, ◌<◌, ◌≡◌, refl, Bool, true, false, List, ◌∷◌, arith, ◌==◌, ap, ap₂, ◌∙◌,
  sym, if◌then◌else◌, ◌⊎◌, inl, inr,
}
use xime_framework.RefData.{
  Accesses, Cache, Read, value_of, not_ready, torn_segments, gave_up, Round, ended, again,
  copy_bytes, read_bytes, finish_round, copy_round, read_round, round_end, read, never_published,
  slot_view,
}
use xime_framework.RefData.Writer.{Action, writer_at}
use xime_framework.RefData.Intact.{Intact, writer_at-Intact, level_lem}
use xime_framework.RefData.Steady.{pointer-Safe}
use xime_framework.RefData.Runs.{climb, memory, generation_mono, memory-Steady}

copy_bytes-kept :
    (at : Accesses) (t slot i n last : ℕ) (f : ℕ → ℕ)
    → t + n ≤ last
    → ((s : ℕ) → t ≤ s → s ≤ last → (j : ℕ) → (at s).cells slot j ≡ f j)
    → copy_bytes at t slot i n ≡ read_bytes f i n
copy_bytes-kept at t slot i zero last f h kept = refl
copy_bytes-kept at t slot i (suc n) last f h kept =
    ap₂ (λ x xs. x ∷ xs) (kept t (omega arith) (omega (arith, h)) i)
      (copy_bytes-kept at (t + 1) slot (i + 1) n last f (omega (arith, h))
        (λ s a b. kept s (omega (arith, a)) b))

-- Each access of the reader comes at a moment of the run, and not before the access that went before.
abbrev pub IsOrdered : (ℕ → ℕ) → Type 0
IsOrdered times = (i : ℕ) → times i ≤ times (suc i)

times_mono : (times : ℕ → ℕ) → IsOrdered times → (i j : ℕ) → i ≤ j → times i ≤ times j
times_mono times ordered =
    climb (λ i j. times i ≤ times j) (λ i. omega arith) (λ i j h ih. omega (arith, ih, ordered j))

module _ (max_bytes index : ℕ) (actions : ℕ → Action) where
  -- The value is what one call of publish() wrote, whole: the version that the pointer was turned to
  -- last at some moment, whose number is the generation or the next one.
  pub record Version (generation : ℕ) (value : List ℕ) : Type 0 where
    pub time : ℕ
    pub low : generation ≤ (writer_at max_bytes index actions time).flips
    pub high : (writer_at max_bytes index actions time).flips ≤ generation + 1
    pub some_flip : 1 ≤ (writer_at max_bytes index actions time).flips
    pub whole :
        value
        ≡ (writer_at max_bytes index actions time).versions
            (writer_at max_bytes index actions time).flips

  -- A cache holds nothing, or a version.
  abbrev pub Known : Cache → Type 0
  Known cache = (cache.generation ≡ never_published) ⊎ Version cache.generation cache.value

  module _ (times : ℕ → ℕ) where
    abbrev pub seen : Accesses
    seen i = memory max_bytes index actions (times i)

    -- What a read that started at access `t` may give. A value that is served is the one cached, and
    -- its generation was the table's at some access of the read.
    abbrev pub Fits : ℕ → Read → Cache → Type 0
    Fits t not_ready cache =
        Known cache × ((i : ℕ) × (t ≤ i) × ((seen i).generation ≡ never_published))
    Fits t (value_of value) cache =
        ((i : ℕ) × (t ≤ i) × ((seen i).generation ≡ cache.generation))
        × (cache.value ≡ value)
        × Version cache.generation value
    Fits t (torn_segments n) cache = ⊥
    Fits t gave_up cache = Known cache

    -- What a round may end with.
    abbrev FitsRound : ℕ → Cache → Round → Type 0
    FitsRound t cache (ended r cache') = Fits t r cache'
    FitsRound t cache again =
        Known cache × ((seen t).generation < (seen (round_end seen t)).generation)

    module _ (ordered : IsOrdered times) where
      pub later : (i j : ℕ) → i ≤ j → (seen i).generation ≤ (seen j).generation
      later i j h =
          generation_mono max_bytes index actions (times i) (times j)
            (times_mono times ordered i j h)

      -- Between two equal generations a slot that the pointer named is kept.
      slot-kept :
          (i j : ℕ)
          → i ≤ j
          → (seen j).generation ≡ (seen i).generation
          → ((seen j).lengths (seen i).pointer ≡ (seen i).lengths (seen i).pointer)
            × ((k : ℕ) → (seen j).cells (seen i).pointer k ≡ (seen i).cells (seen i).pointer k)
      slot-kept i j h same =
          let steady =
            memory-Steady max_bytes index actions (seen i).pointer (times i) (times j)
              (pointer-Safe (writer_at max_bytes index actions (times i)).pc (seen i))
              (times_mono times ordered i j h) same in
          (steady.kept.length, steady.kept.cells)

      -- What the accesses of a round gave, when the generation was the same at both ends.
      copied :
          (t : ℕ)
          → 1 ≤ (seen t).generation
          → (seen (t + 4 + (seen (t + 3)).lengths (seen (t + 1)).pointer)).generation
            ≡ (seen t).generation
          → ((seen (t + 2)).segments ≡ 1)
            × Version (seen t).generation (
                copy_bytes seen
                  (t + 4)
                  (seen (t + 1)).pointer
                  0
                  ((seen (t + 3)).lengths (seen (t + 1)).pointer))
      copied t positive same = (
        two.held.one (omega (arith, positive, at_two, (level_lem _ two).0)),
        record {
          time = times (t + 1);
          low = omega (arith, at_one, (level_lem _ one).0);
          high = omega (arith, at_one, (level_lem _ one).1);
          some_flip = omega (arith, positive, at_one, (level_lem _ one).0);
          whole = bytes ∙ one.held.whole (omega (arith, positive, at_one, (level_lem _ one).0));
        },
      )
        where
          slot : ℕ
          slot = (seen (t + 1)).pointer

          n : ℕ
          n = (seen (t + 3)).lengths slot

          one : Intact (writer_at max_bytes index actions (times (t + 1)))
          one = writer_at-Intact max_bytes index actions (times (t + 1))

          two : Intact (writer_at max_bytes index actions (times (t + 2)))
          two = writer_at-Intact max_bytes index actions (times (t + 2))

          equal : (i : ℕ) → t ≤ i → i ≤ t + 4 + n → (seen i).generation ≡ (seen t).generation
          equal i a b = omega (arith, later t i a, later i (t + 4 + n) b, same)

          at_one : (seen (t + 1)).generation ≡ (seen t).generation
          at_one = equal (t + 1) (omega arith) (omega arith)

          at_two : (seen (t + 2)).generation ≡ (seen t).generation
          at_two = equal (t + 2) (omega arith) (omega arith)

          since :
              (i : ℕ) → t + 1 ≤ i → i ≤ t + 4 + n → (seen i).generation ≡ (seen (t + 1)).generation
          since i a b = equal i (omega (arith, a)) b ∙ sym at_one

          bytes : copy_bytes seen (t + 4) slot 0 n ≡ slot_view (seen (t + 1)) slot
          bytes =
              copy_bytes-kept seen (t + 4) slot 0 n (t + 4 + n) ((seen (t + 1)).cells slot)
                (omega arith)
                (λ s a b. (slot-kept (t + 1) s (omega (arith, a)) (since s (omega (arith, a)) b)).1)
              ∙ ap (λ m. read_bytes ((seen (t + 1)).cells slot) 0 m)
                  (slot-kept (t + 1) (t + 3) (omega arith)
                    (since (t + 3) (omega arith) (omega arith))).0

      finish_round-Fits :
          (t : ℕ) (cache : Cache) (b : Bool) (segments : ℕ) (chunk : List ℕ)
          → (b ≡ true → (segments ≡ 1) × Version (seen t).generation chunk)
          → (b ≡ false → (seen t).generation < (seen (round_end seen t)).generation)
          → Known cache
          → FitsRound t cache (finish_round b (seen t).generation segments chunk cache)
      unfolding finish_round
      finish_round-Fits t cache false segments chunk same moved known = (known, moved refl)
      finish_round-Fits t cache true segments chunk same moved known =
          by_test (segments == 1) (ground (arith, (same refl).0))
        where
          by_test :
              (b : Bool)
              → b ≡ true
              → FitsRound t cache (
                  if b
                  then ended
                      (value_of chunk)
                      (record { generation = (seen t).generation; value = chunk })
                  else ended (torn_segments segments) cache)
          by_test true e = ((t, omega arith, refl), refl, (same refl).1)
          by_test false e = absurd (cc)

      copy_round-Fits :
          (t : ℕ) (cache : Cache)
          → 1 ≤ (seen t).generation
          → Known cache
          → FitsRound t cache (copy_round seen t (seen t).generation cache)
      unfolding copy_round
      copy_round-Fits t cache positive known =
          finish_round-Fits t cache ((seen last).generation == (seen t).generation) _ _
            (λ e. copied t positive (ground arith))
            (λ e.
              let rises = later t last (omega arith) in
              let on = later last (round_end seen t) (omega arith) in ground (arith, rises, on, e))
            known
        where
          last : ℕ
          last = t + 4 + (seen (t + 3)).lengths (seen (t + 1)).pointer

      read_round-Fits :
          (t : ℕ) (cache : Cache) → Known cache → FitsRound t cache (read_round seen t cache)
      unfolding read_round
      read_round-Fits t cache known =
          by_tests ((seen t).generation == never_published) refl
            ((seen t).generation == cache.generation) refl
        where
          by_tests :
              (b : Bool)
              → ((seen t).generation == never_published) ≡ b
              → (c : Bool) → ((seen t).generation == cache.generation) ≡ c
              → FitsRound t cache (
                  if b
                  then ended not_ready cache
                  else if c
                  then ended (value_of cache.value) cache
                  else copy_round seen t (seen t).generation cache)
          by_tests true e c f = (known, (t, omega arith, ground arith))
          by_tests false e true f = (
            (t, omega arith, ground arith),
            refl,
            elim known [ inl unset ↦ absurd (ground arith) | inr v ↦ v ],
          )
          by_tests false e false f = copy_round-Fits t cache (ground arith) known

      Fits-earlier : (t u : ℕ) (r : Read) (cache : Cache) → t ≤ u → Fits u r cache → Fits t r cache
      Fits-earlier t u not_ready cache h (known, (i, a, g)) = (known, (i, omega (arith, h, a), g))
      Fits-earlier t u (value_of value) cache h ((i, a, g), e, v) =
          ((i, omega (arith, h, a), g), e, v)
      Fits-earlier t u (torn_segments n) cache h fits = fits
      Fits-earlier t u gave_up cache h fits = fits

      -- For a cache that holds nothing or a version, whatever the primary does between the accesses: a
      -- read serves a version that was written whole, whose number is the generation or the next one, of
      -- a generation the table had during the read; it says that nothing was published only at generation
      -- 0, and never finds another number of segments than one. The cache again holds such a version.
      pub read-Fits :
          (spins t : ℕ) (cache : Cache)
          → Known cache
          → Fits t (read spins seen t cache).0 (read spins seen t cache).1
      unfolding read
      read-Fits zero t cache known = known
      read-Fits (suc spins) t cache known =
          by_round (read_round seen t cache) (read_round-Fits t cache known)
            (λ k. read-Fits spins (round_end seen t) cache k)
        where
          after : Round → Read × Cache
          after (ended r cache') = (r, cache')
          after again = read spins seen (round_end seen t) cache

          by_round :
              (round : Round)
              → FitsRound t cache round
              → (Known cache
                  → Fits
                      (round_end seen t)
                      (read spins seen (round_end seen t) cache).0
                      (read spins seen (round_end seen t) cache).1)
              → Fits t (after round).0 (after round).1
          by_round (ended r cache') fits next = fits
          by_round again (k, moved) next =
              Fits-earlier t (round_end seen t) _ _ (omega arith) (next k)
