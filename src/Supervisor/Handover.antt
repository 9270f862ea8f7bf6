-- ===== src/Supervisor/Handover.antt =====
-- core/bootstrap/_supervisor.py: when the primary has died, another process has the role.
use xime_framework.Prelude.{
  ℕ, ◌<◌, ◌≡◌, refl, Bool, true, false, not, ◌||◌, Option, none, some, [], ◌∷◌, ◌==◌, leb, arith,
  if◌then◌else◌, length, subst, sym, ap, ◌∙◌, ◌⊎◌, ◌++◌, inl, inr,
}
use xime_framework.Container.Registry.{put, put_self, put_other}
use xime_framework.Supervisor.{
  Child, Supervisor, is_id, spawn, is_alive, next_live, or_restart, announce, appoint, recent,
  promote_within, promote_someone, promotion_limit, ids, hand_over, restart_child, respawn_popped,
  respawn,
}
use xime_framework.Supervisor.Roles.{Holds, Claims, IsCandidate, next_live-IsCandidate}
use xime_framework.Supervisor.Shape.{if_both}
use xime_framework.Supervisor.Lives.{forgotten}

-- Some process lives and holds the role or has a PROMOTE to read, and the parent knows it.
abbrev pub HasPrimary : Supervisor → Type 0
HasPrimary s =
    (c : ℕ) × (s.primary_id ≡ some c)
    × (is_alive (s.children c) ≡ true)
    × Claims (s.children c) (s.unread c)

-- The role has gone to a live process other than `p`, which is told of it, or is kept for `p`.
abbrev Handed : ℕ → Supervisor → Type 0
Handed p s =
    (s.primary_id ≡ some p)
    ⊎ ((c : ℕ) × ((p == c) ≡ false)
        × (s.primary_id ≡ some c)
        × (is_alive (s.children c) ≡ true)
        × (s.unread c ≡ true))

announce-unread :
    (c : ℕ) (s : Supervisor) → s.sends s.announced ≡ true → (announce c s).unread c ≡ true
announce-unread c s sent =
    ap (λ b. (if b then put c true s.unread else s.unread) c) sent ∙ put_self c true s.unread

appoint-Handed :
    (now p : ℕ) (found : Option ℕ) (s : Supervisor)
    → s.sends s.announced ≡ true
    → IsCandidate (some p) s.children found
    → Handed p (appoint now (or_restart found (some p)) (some p) s)
unfolding appoint
appoint-Handed now p none s sent h =
    if_both (λ (t : Supervisor). Handed p t) (is_id (some p) p) (inl refl) (inl refl)
appoint-Handed now p (some c) s sent (other, alive) = by_test (p == c) other
  where
    chosen : Supervisor
    chosen = record s { promotions = s.promotions ++ now ∷ []; primary_id = some c }

    by_test : (b : Bool) → b ≡ false → Handed p (if b then chosen else announce c chosen)
    by_test true e = absurd (cc)
    by_test false e = inr (c, other, refl, alive, announce-unread c chosen sent)

promote_someone-Handed :
    (now p : ℕ) (s : Supervisor)
    → s.linked ≡ true
    → s.promotion_stopped ≡ false
    → length (recent now s.promotions) < promotion_limit
    → s.sends s.announced ≡ true
    → Handed p (promote_someone now (some p) (some p) s)
unfolding promote_someone promote_within
promote_someone-Handed now p s linked going few sent =
    by_tests (not s.linked || s.promotion_stopped) (ground (arith, linked, going))
      (leb promotion_limit (length (recent now s.promotions))) (ground (arith, few))
  where
    trimmed : Supervisor
    trimmed = record s { promotions = recent now s.promotions }

    by_tests :
        (b : Bool)
        → b ≡ false
        → (c : Bool) → c ≡ false
        → Handed p (
            if b
            then s
            else if c
            then record trimmed { promotion_stopped = true; primary_id = none }
            else appoint now
                (or_restart (next_live (ids s) (some p) s.children) (some p))
                (some p)
                trimmed)
    by_tests true e c f = absurd (cc)
    by_tests false e true f = absurd (cc)
    by_tests false e false f =
        appoint-Handed now p _ trimmed sent (next_live-IsCandidate (ids s) (some p) s.children)

is_id_self : (o : Option ℕ) (p : ℕ) → o ≡ some p → is_id o p ≡ true
is_id_self o p e = ap (λ q. is_id q p) e ∙ ground arith

-- The restarted process has the role if it was kept for it.
restart_child-HasPrimary :
    (now p : ℕ) (s : Supervisor) → Handed p s → HasPrimary (restart_child now p s)
unfolding restart_child spawn
restart_child-HasPrimary now p s (inl kept) =
    let back = put_self p _ s.children in
    (p, kept, ap is_alive back, inl (subst Holds (sym back) (refl, is_id_self s.primary_id p kept)))
restart_child-HasPrimary now p s (inr (c, other, known, alive, u)) =
    (c, known, ap is_alive (put_other p c _ s.children other) ∙ alive, inr u)

-- When the primary has died and the parent is not stopping, has a link, has made fewer than three
-- promotions in the last minute without ever having stopped them, and its announcement does not fail:
-- after the restart of the dead process, some live process holds the primary role or has a PROMOTE to
-- read, and it is the one the parent takes for the primary.
pub respawn-HasPrimary :
    (now p : ℕ) (child : Child) (s : Supervisor)
    → s.children p ≡ some child
    → s.primary_id ≡ some p
    → s.stopping ≡ false
    → s.linked ≡ true
    → s.promotion_stopped ≡ false
    → length (recent now s.promotions) < promotion_limit
    → s.sends s.announced ≡ true
    → HasPrimary (respawn now p s)
unfolding respawn respawn_popped hand_over
respawn-HasPrimary now p child s here known running linked going few sent =
    by_entry (s.children p) here
  where
    vacant : Supervisor
    vacant = record (forgotten p s) { primary_id = none }

    by_role :
        (b : Bool)
        → b ≡ true
        → HasPrimary (
            restart_child now p
              (if b then promote_someone now (some p) (some p) vacant else forgotten p s))
    by_role true e =
        restart_child-HasPrimary now p (promote_someone now (some p) (some p) vacant)
          (promote_someone-Handed now p vacant linked going few sent)
    by_role false e = absurd (cc)

    popped : Supervisor
    popped = record s { children = put p none s.children }

    by_stop :
        (b : Bool)
        → b ≡ false
        → HasPrimary (if b then popped else restart_child now p (hand_over now p (forgotten p s)))
    by_stop true e = absurd (cc)
    by_stop false e = by_role (is_id s.primary_id p) (is_id_self s.primary_id p known)

    by_entry :
        (o : Option Child)
        → o ≡ some child
        → HasPrimary (elim o [ none ↦ s | some child' ↦ respawn_popped now p popped ])
    by_entry none e = absurd (cc)
    by_entry (some child') e = by_stop s.stopping running
