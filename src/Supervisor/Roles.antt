-- ===== src/Supervisor/Roles.antt =====
-- core/bootstrap/_supervisor.py: who holds the primary role, in the functions of the parent.
use xime_framework.Prelude.{
  ℕ, ◌+◌, ◌≡◌, refl, Bool, true, false, not, Option, none, some, arith, if◌then◌else◌, ◌++◌, subst,
  ap, ◌∙◌, some_unique, ◌⊎◌, inl, inr, List, [], ◌∷◌, ◌&&◌,
}
use xime_framework.Container.Registry.{put, put_self}
use xime_framework.Supervisor.{
  Child, Children, Supervisor, is_id, is_alive, spawn, next_live, or_restart, appoint, announce,
  recent, promote_someone, ids, hand_over, restart_child, respawn_popped, respawn, count_death,
  delay_after,
}
use xime_framework.Supervisor.Shape.{
  put_entry, if_both, is_id_eq, promote_someone-cases, hand_over-children,
}

-- A process that lives and holds the role.
abbrev pub Holds : Option Child → Type 0
Holds none = ⊥
Holds (some child) = (child.alive ≡ true) × (child.role ≡ true)

-- An entry that holds the role, or whose index has an unread PROMOTE.
abbrev pub Claims : Option Child → Bool → Type 0
Claims entry unread = Holds entry ⊎ (unread ≡ true)

-- Whoever claims the role is the primary that the parent knows.
abbrev pub Owned : Children → (ℕ → Bool) → Option ℕ → Type 0
Owned children unread primary = (p : ℕ) → Claims (children p) (unread p) → primary ≡ some p

abbrev pub NoClaim : Children → (ℕ → Bool) → Type 0
NoClaim children unread = (p : ℕ) → Claims (children p) (unread p) → ⊥

-- A process that lives without the role.
abbrev pub Idle : Option Child → Type 0
Idle none = ⊥
Idle (some child) = (child.alive ≡ true) × (child.role ≡ false)

-- An unread PROMOTE waits for a live process without the role.
abbrev pub Untaken : Children → (ℕ → Bool) → Type 0
Untaken children unread = (p : ℕ) → unread p ≡ true → Idle (children p)

abbrev pub Orderly : Children → (ℕ → Bool) → Option ℕ → Type 0
Orderly children unread primary = Owned children unread primary × Untaken children unread

abbrev pub IsOrderly : Supervisor → Type 0
IsOrderly s = Orderly s.children s.unread s.primary_id

pub not_unread : (b : Bool) → (b ≡ true → ⊥) → b ≡ false
not_unread true h = absurd (h refl)
not_unread false h = refl

-- An index with no live process has nothing unread.
pub Untaken-dead :
    (p : ℕ) (children : Children) (unread : ℕ → Bool)
    → Untaken children unread
    → is_alive (children p) ≡ false
    → unread p ≡ false
Untaken-dead p children unread untaken dead =
    not_unread (unread p) (λ u. dead_Idle (children p) dead (untaken p u))
  where
    dead_Idle : (o : Option Child) → is_alive o ≡ false → Idle o → ⊥
    dead_Idle none e h = h
    dead_Idle (some child) e h = absurd (cc)

-- What next_live may answer.
abbrev pub IsCandidate : Option ℕ → Children → Option ℕ → Type 0
IsCandidate exclude children none = Unit
IsCandidate exclude children (some c) = (is_id exclude c ≡ false) × (is_alive (children c) ≡ true)

pub next_live-IsCandidate :
    (ps : List ℕ) (exclude : Option ℕ) (children : Children)
    → IsCandidate exclude children (next_live ps exclude children)
next_live-IsCandidate [] exclude children = tt
next_live-IsCandidate (p ∷ ps) exclude children =
    by_tests (is_id exclude p) refl (is_alive (children p)) refl
      (next_live-IsCandidate ps exclude children)
  where
    by_tests :
        (b : Bool)
        → is_id exclude p ≡ b
        → (c : Bool) → is_alive (children p) ≡ c
        → IsCandidate exclude children (next_live ps exclude children)
        → IsCandidate exclude children
            (if not b && c then some p else next_live ps exclude children)
    by_tests true e c f rest = rest
    by_tests false e false f rest = rest
    by_tests false e true f rest = (e, f)

nobody_Idle : (o : Option Child) → is_alive o ≡ true → (Holds o → ⊥) → Idle o
nobody_Idle none e nobody = absurd (cc)
nobody_Idle (some child) e nobody = (e, not_unread child.role (λ f. nobody (e, f)))

-- Nobody claims the role: an announcement to a live process makes the only claim.
announce-Orderly :
    (c : ℕ) (s : Supervisor)
    → s.primary_id ≡ some c
    → NoClaim s.children s.unread
    → is_alive (s.children c) ≡ true
    → IsOrderly (announce c s)
announce-Orderly c s known nobody alive =
    if_both (λ u. Orderly s.children u s.primary_id) (s.sends s.announced) (owned, untaken)
      (λ p claim. absurd (nobody p claim), λ p u. absurd (nobody p (inr u)))
  where
    owned : Owned s.children (put c true s.unread) s.primary_id
    owned p (inl holds) = absurd (nobody p (inl holds))
    owned p (inr u) =
        put_entry (λ b. b ≡ true → s.primary_id ≡ some p) c p true s.unread
          (λ e f. known ∙ ap (λ n. some n) e) (λ f. absurd (nobody p (inr f))) u

    untaken : Untaken s.children (put c true s.unread)
    untaken p u =
        put_entry (λ b. b ≡ true → Idle (s.children p)) c p true s.unread
          (λ e f.
            subst (λ n. Idle (s.children n)) e
              (nobody_Idle (s.children c) alive (λ h. nobody c (inl h))))
          (λ f. absurd (nobody p (inr f))) u

-- A promotion tells a process that lives, or keeps the role for the one that is restarted.
appoint-Orderly :
    (now : ℕ) (exclude restart found : Option ℕ) (s : Supervisor)
    → NoClaim s.children s.unread
    → IsCandidate exclude s.children found
    → IsOrderly (appoint now (or_restart found restart) restart s)
unfolding appoint
appoint-Orderly now exclude none none s nobody h =
    (λ p claim. absurd (nobody p claim), λ p u. absurd (nobody p (inr u)))
appoint-Orderly now exclude (some q) none s nobody h = by_test (is_id (some q) q) (ground arith)
  where
    chosen : Supervisor
    chosen = record s { promotions = s.promotions ++ now ∷ []; primary_id = some q }

    by_test : (b : Bool) → b ≡ true → IsOrderly (if b then chosen else announce q chosen)
    by_test true e = (λ p claim. absurd (nobody p claim), λ p u. absurd (nobody p (inr u)))
    by_test false e = absurd (cc)
appoint-Orderly now exclude restart (some c) s nobody (other, alive) =
    if_both IsOrderly (is_id restart c)
      (λ p claim. absurd (nobody p claim), λ p u. absurd (nobody p (inr u)))
      (announce-Orderly c (record s { promotions = s.promotions ++ now ∷ []; primary_id = some c })
        refl nobody alive)

-- When nobody claims the role, a promotion gives it to at most one process, whom the parent knows.
pub promote_someone-Orderly :
    (now : ℕ) (exclude restart : Option ℕ) (s : Supervisor)
    → NoClaim s.children s.unread
    → IsOrderly (promote_someone now exclude restart s)
promote_someone-Orderly now exclude restart s nobody =
    promote_someone-cases IsOrderly now exclude restart s (
      nothing s.primary_id,
      nothing none,
      appoint-Orderly now exclude restart _ (record s { promotions = recent now s.promotions })
          nobody (next_live-IsCandidate (ids s) exclude s.children),
    )
  where
    nothing : (primary : Option ℕ) → Orderly s.children s.unread primary
    nothing primary = (λ p claim. absurd (nobody p claim), λ p u. absurd (nobody p (inr u)))

-- A process that is started reads what waits for its index, so nothing may wait there.
pub spawn-Orderly :
    (now p : ℕ) (s : Supervisor) → s.unread p ≡ false → IsOrderly s → IsOrderly (spawn now p s)
unfolding spawn
spawn-Orderly now p s read (owned, untaken) = (
  λ q. elim [
    | inl holds ↦
        put_entry (λ o. Holds o → s.primary_id ≡ some q) p q _ s.children
          (λ e h. is_id_eq s.primary_id p h.1 ∙ ap (λ n. some n) e) (λ h. owned q (inl h)) holds
    | inr u ↦ owned q (inr u)
  ],
  λ q u. put_entry Idle p q _ s.children (λ e. absurd (waits (ap s.unread e ∙ u))) (untaken q u),
)
  where
    waits : s.unread p ≡ true → ⊥
    waits u = cc

-- Once the child is out of the table, its role goes to another or to nobody.
hand_over-Orderly :
    (now p : ℕ) (s : Supervisor) → IsOrderly s → s.children p ≡ none → IsOrderly (hand_over now p s)
unfolding hand_over
hand_over-Orderly now p s (owned, untaken) gone = by_test (is_id s.primary_id p) refl
  where
    at_p : Claims (s.children p) (s.unread p) → ⊥
    at_p (inl holds) = subst Holds gone holds
    at_p (inr u) = subst Idle gone (untaken p u)

    nobody : is_id s.primary_id p ≡ true → NoClaim s.children s.unread
    nobody e q claim = at_p (
        subst (λ n. Claims (s.children n) (s.unread n))
          (some_unique (owned q claim) (is_id_eq s.primary_id p e)) claim)

    by_test :
        (b : Bool)
        → is_id s.primary_id p ≡ b
        → IsOrderly (
            if b then promote_someone now (some p) (some p) (record s { primary_id = none }) else s)
    by_test true e =
        promote_someone-Orderly now (some p) (some p) (record s { primary_id = none }) (nobody e)
    by_test false e = (owned, untaken)

restart_child-Orderly :
    (now p : ℕ) (s : Supervisor)
    → s.unread p ≡ false
    → IsOrderly s
    → IsOrderly (restart_child now p s)
unfolding restart_child
restart_child-Orderly now p s read orderly =
    let deaths = count_death now p s in
    spawn-Orderly (now + delay_after deaths) p (record s { respawns = put p deaths s.respawns })
      read orderly

-- A dead child is restarted, and the role is still claimed by the known primary alone.
pub respawn-Orderly :
    (now p : ℕ) (s : Supervisor) → s.unread p ≡ false → IsOrderly s → IsOrderly (respawn now p s)
unfolding respawn respawn_popped
respawn-Orderly now p s read (owned, untaken) = by_entry (s.children p)
  where
    popped : Supervisor
    popped = record s { children = put p none s.children }

    forgotten : Supervisor
    forgotten = record popped { killed_by_me = put p false s.killed_by_me }

    waits : s.unread p ≡ true → ⊥
    waits u = cc

    popped-Orderly : IsOrderly popped
    popped-Orderly = (
      λ q. elim [
        | inl holds ↦
            put_entry (λ o. Holds o → s.primary_id ≡ some q) p q none s.children (λ e h. absurd h)
              (λ h. owned q (inl h)) holds
        | inr u ↦ owned q (inr u)
      ],
      λ q u.
          put_entry Idle p q none s.children (λ e. absurd (waits (ap s.unread e ∙ u)))
            (untaken q u),
    )

    handed : Supervisor
    handed = hand_over now p forgotten

    handed-Orderly : IsOrderly handed
    handed-Orderly = hand_over-Orderly now p forgotten popped-Orderly (put_self p none s.children)

    absent : is_alive (handed.children p) ≡ false
    absent =
        ap (λ t. is_alive (t p)) (hand_over-children now p forgotten)
        ∙ ap is_alive (put_self p none s.children)

    by_entry :
        (o : Option Child)
        → IsOrderly (elim o [ none ↦ s | some child ↦ respawn_popped now p popped ])
    by_entry none = (owned, untaken)
    by_entry (some child) = if_both IsOrderly s.stopping popped-Orderly (
        restart_child-Orderly now p handed
          (Untaken-dead p handed.children handed.unread handed-Orderly.1 absent) handed-Orderly)
