-- ===== src/Watchdog/History.antt =====
-- core/bootstrap/_watchdog.py: what the parent reads is what the child has done since its reset.
use xime_framework.Prelude.{
  ℕ, ◌+◌, ◌-◌, ◌^◌, ◌≤◌, ◌<◌, ◌≡◌, refl, Bool, true, false, Option, none, some, List, [], ◌∷◌,
  arith, ◌==◌, ltb, if◌then◌else◌, sym, ◌∙◌, length, subst,
}
use xime_framework.Watchdog.{
  Beat, never, Heartbeats, create, write, pat, reset, Silence, starting, silent, silence_of,
  silent_for,
}

pub data Event : Type 0 where
  patting : ℕ → ℕ → Event
  resetting : ℕ → Event

unfoldable pub happen : Heartbeats → Event → Heartbeats
unfolding pat reset
happen table (patting index now) = (pat table index now).1
happen table (resetting index) = reset table index

unfoldable pub happen_all : Heartbeats → List Event → Heartbeats
unfolding happen
happen_all table [] = table
happen_all table (e ∷ rest) = happen_all (happen table e) rest

-- The clock is past zero at every pat.
abbrev pub IsTimed : List Event → Type 0
IsTimed [] = Unit
IsTimed (patting index now ∷ rest) = (1 ≤ now) × IsTimed rest
IsTimed (resetting index ∷ rest) = IsTimed rest

-- The last pat of a slot since its last reset.
abbrev pub last_pat : ℕ → Option ℕ → List Event → Option ℕ
last_pat k seen [] = seen
last_pat k seen (patting index now ∷ rest) = last_pat k (if index == k then some now else seen) rest
last_pat k seen (resetting index ∷ rest) = last_pat k (if index == k then none else seen) rest

-- What the parent should read.
abbrev pub expected : Option ℕ → ℕ → Silence
expected none now = starting
expected (some t) now = silent (now - t)

-- The cell of a slot tells its last pat, and has counted no more than `bound`.
abbrev Tells : ℕ → Option ℕ → Beat → Type 0
Tells bound none beat = beat.count ≡ 0
Tells bound (some t) beat = (beat.at ≡ t) × (1 ≤ t) × (1 ≤ beat.count) × (beat.count ≤ bound)

room :
    (bound : ℕ) (seen : Option ℕ) (beat : Beat)
    → bound + 1 < 2 ^ 64
    → Tells bound seen beat
    → ltb (beat.count + 1) (2 ^ 64) ≡ true
room bound none beat b h = ground (arith, h)
room bound (some t) beat b h = ground (arith, h)

next :
    (bound now : ℕ) (seen : Option ℕ) (beat : Beat)
    → 1 ≤ now
    → Tells bound seen beat
    → Tells (bound + 1) (some now) (record { at = now; count = beat.count + 1 })
next bound now none beat p h = (refl, p, omega arith, omega (arith, h))
next bound now (some t) beat p (_, _, _, c) = (refl, p, omega arith, omega (arith, c))

more :
    (bound : ℕ) (seen : Option ℕ) (beat : Beat)
    → Tells bound seen beat
    → Tells (bound + 1) seen beat
more bound none beat h = h
more bound (some t) beat (a, p, q, c) = (a, p, q, omega (arith, c))

module _ (table : Heartbeats) (k index now bound : ℕ) (seen : Option ℕ) (p : 1 ≤ now)
    (b : bound + 1 < 2 ^ 64) (h : Tells bound seen (table.cells k)) where
  written :
      (q : Bool)
      → (index == k) ≡ q
      → Tells
          (bound + 1)
          (if q then some now else seen)
          (if q then record { at = now; count = (table.cells index).count + 1 } else table.cells k)
  written true e =
      next bound now seen (table.cells index) p
        (subst (λ i. Tells bound seen (table.cells i)) (sym (equal e)) h)
    where
      equal : (index == k) ≡ true → index ≡ k
      equal q = ground arith
  written false e = more bound seen (table.cells k) h

  kept :
      (q : Bool)
      → (index == k) ≡ q
      → ltb ((table.cells index).count + 1) (2 ^ 64) ≡ false
      → Tells (bound + 1) (if q then some now else seen) (table.cells k)
  kept true e f = absurd (
      differ (
        sym (
          room bound seen (table.cells index) b
            (subst (λ i. Tells bound seen (table.cells i)) (sym (equal e)) h))
        ∙ f))
    where
      differ : true ≡ false → ⊥
      differ r = cc

      equal : (index == k) ≡ true → index ≡ k
      equal q = ground arith
  kept false e f = more bound seen (table.cells k) h

  pat-Tells :
      Tells (bound + 1) (if index == k then some now else seen) ((pat table index now).1.cells k)
  unfolding pat
  pat-Tells = by_room (ltb ((table.cells index).count + 1) (2 ^ 64)) refl
    where
      by_room :
          (q : Bool)
          → ltb ((table.cells index).count + 1) (2 ^ 64) ≡ q
          → Tells (bound + 1) (if index == k then some now else seen) (
              (if◌then◌else◌ {A = Bool × Heartbeats} q
                  (
                    true,
                    write table index (record { at = now; count = (table.cells index).count + 1 }),
                  )
                  (false, table)).1.cells
                k)
      by_room true f = written (index == k) refl
      by_room false f = kept (index == k) refl f

reset-Tells :
    (table : Heartbeats) (k index bound : ℕ) (seen : Option ℕ)
    → Tells bound seen (table.cells k)
    → Tells (bound + 1) (if index == k then none else seen) ((reset table index).cells k)
unfolding reset
reset-Tells table k index bound seen h = by_slot (index == k)
  where
    by_slot :
        (q : Bool)
        → Tells (bound + 1) (if q then none else seen) (if q then never else table.cells k)
    by_slot true = refl
    by_slot false = more bound seen (table.cells k) h

happen_all-Tells :
    (table : Heartbeats) (k bound : ℕ) (seen : Option ℕ) (events : List Event)
    → IsTimed events
    → bound + length events < 2 ^ 64
    → Tells bound seen (table.cells k)
    → Tells (bound + length events) (last_pat k seen events) ((happen_all table events).cells k)
unfolding happen_all
happen_all-Tells table k bound seen [] t b h =
    subst (λ n. Tells n seen (table.cells k)) (omega arith) h
happen_all-Tells table k bound seen (patting index now ∷ rest) t b h =
    subst
      (λ n.
        Tells n (last_pat k (if index == k then some now else seen) rest)
          ((happen_all (pat table index now).1 rest).cells k))
      (omega arith)
      (happen_all-Tells (pat table index now).1 k (bound + 1)
        (if index == k then some now else seen) rest t.1 (omega (arith, b))
        (pat-Tells table k index now bound seen t.0 (omega (arith, b)) h))
happen_all-Tells table k bound seen (resetting index ∷ rest) t b h =
    subst
      (λ n.
        Tells n (last_pat k (if index == k then none else seen) rest)
          ((happen_all (reset table index) rest).cells k))
      (omega arith)
      (happen_all-Tells (reset table index) k (bound + 1) (if index == k then none else seen) rest t
        (omega (arith, b)) (reset-Tells table k index bound seen h))

silence-Tells :
    (bound now : ℕ) (seen : Option ℕ) (beat : Beat)
    → Tells bound seen beat
    → silence_of beat now ≡ expected seen now
silence-Tells bound now none beat h = ground (arith, h)
silence-Tells bound now (some t) beat h = ground (arith, h)

-- After any pats and resets, fewer than 2^64 and with the clock past zero: silent_for() answers
-- for a slot that it is starting if nothing has patted it since its last reset, and otherwise the
-- time since the last pat; it never finds the slot broken.
pub happen_all-silent_for :
    (slots k now : ℕ) (events : List Event)
    → IsTimed events
    → length events < 2 ^ 64
    → silent_for (happen_all (create slots) events) k now ≡ expected (last_pat k none events) now
unfolding silent_for
happen_all-silent_for slots k now events t b =
    silence-Tells (0 + length events) now (last_pat k none events)
      ((happen_all (create slots) events).cells k)
      (happen_all-Tells (create slots) k 0 none events t (omega (arith, b)) refl)
