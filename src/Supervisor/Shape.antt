-- ===== src/Supervisor/Shape.antt =====
-- core/bootstrap/_supervisor.py: the table of children through a promotion and a hand-over.
use xime_framework.Prelude.{
  ℕ, ◌≡◌, refl, Bool, true, false, not, ◌||◌, Option, none, some, ◌==◌, leb, arith, if◌then◌else◌,
  length, ap,
}
use xime_framework.Container.Registry.{put}
use xime_framework.Supervisor.{
  Supervisor, is_id, next_live, or_restart, appoint, recent, promote_within, promote_someone,
  promotion_limit, ids, hand_over,
}

-- A property of an entry after one was put.
pub put_entry :
    {B : Type 0} (P : B → Type 0) (key k : ℕ) (x : B) (f : ℕ → B)
    → (key ≡ k → P x)
    → P (f k)
    → P (put key x f k)
put_entry P key k x f new old = by_test (key == k) refl
  where
    by_test : (b : Bool) → (key == k) ≡ b → P (if b then x else f k)
    by_test true e = new (ground arith)
    by_test false e = old

-- What holds of both branches.
pub if_both :
    {A : Type 0} (P : A → Type 0) (b : Bool) {x y : A} → P x → P y → P (if b then x else y)
if_both P true h k = h
if_both P false h k = k

pub is_id_eq : (o : Option ℕ) (p : ℕ) → is_id o p ≡ true → o ≡ some p
is_id_eq none p e = absurd (cc)
is_id_eq (some q) p e = ap (λ n. some n) (ground arith)

-- A property of the outcome of a promotion, by what the parent may do.
pub promote_someone-cases :
    (P : Supervisor → Type 0) (now : ℕ) (exclude restart : Option ℕ) (s : Supervisor)
    → (let trimmed = record s { promotions = recent now s.promotions } in
        P s
        × P (record trimmed { promotion_stopped = true; primary_id = none })
        × P (
            appoint now
              (or_restart (next_live (ids s) exclude s.children) restart)
              restart
              trimmed))
    → P (promote_someone now exclude restart s)
unfolding promote_someone promote_within
promote_someone-cases P now exclude restart s (same, stopped, appointed) =
    if_both P (not s.linked || s.promotion_stopped) same
      (if_both P (leb promotion_limit (length (recent now s.promotions))) stopped appointed)

appoint-children :
    (now : ℕ) (chosen restart : Option ℕ) (s : Supervisor)
    → (appoint now chosen restart s).children ≡ s.children
unfolding appoint
appoint-children now none restart s = refl
appoint-children now (some c) restart s =
    if_both (λ (t : Supervisor). t.children ≡ s.children) (is_id restart c) refl refl

-- A promotion touches no child.
pub promote_someone-children :
    (now : ℕ) (exclude restart : Option ℕ) (s : Supervisor)
    → (promote_someone now exclude restart s).children ≡ s.children
promote_someone-children now exclude restart s =
    promote_someone-cases (λ (t : Supervisor). t.children ≡ s.children) now exclude restart s
      (refl, refl, appoint-children now _ restart _)

pub hand_over-children : (now p : ℕ) (s : Supervisor) → (hand_over now p s).children ≡ s.children
unfolding hand_over
hand_over-children now p s =
    if_both (λ (t : Supervisor). t.children ≡ s.children) (is_id s.primary_id p)
      (promote_someone-children now (some p) (some p) (record s { primary_id = none })) refl
