-- ===== src/Supervisor/Taken.antt =====
-- core/bootstrap/_cluster.py: the role stays with the known primary when a child reads the PROMOTE, and
-- when the row of one is claimed again.
use xime_framework.Prelude.{
  ℕ, ◌≡◌, refl, Bool, true, false, some, ◌==◌, if◌then◌else◌, inl, inr, ap, ◌∙◌, All-map,
}
use xime_framework.Container.Registry.{put}
use xime_framework.Supervisor.{Supervisor}
use xime_framework.Supervisor.Roles.{Holds, Owned, Idle, Untaken}
use xime_framework.Supervisor.Shape.{put_entry}
use xime_framework.Supervisor.Cluster.{Cluster, Dead, take_role}
use xime_framework.Supervisor.Refusals.{NoRole, Inv}
use xime_framework.Supervisor.Kept.{change-Dead}

-- What is unread after one index is cleared was unread before.
cleared : (p q : ℕ) (unread : ℕ → Bool) → put p false unread q ≡ true → unread q ≡ true
cleared p q unread =
    put_entry (λ b. b ≡ true → unread q ≡ true) p q false unread (λ e u. absurd (cc)) (λ u. u)

stays_read : (p q : ℕ) (unread : ℕ → Bool) → unread q ≡ false → put p false unread q ≡ false
stays_read p q unread read = put_entry (λ b. b ≡ false) p q false unread (λ _. refl) read

take_role-Owned :
    (p : ℕ) (s : Supervisor)
    → s.unread p ≡ true
    → Owned s.children s.unread s.primary_id
    → Owned (take_role p s).children (take_role p s).unread s.primary_id
take_role-Owned p s u owned q (inl holds) =
    put_entry (λ o. Holds o → s.primary_id ≡ some q) p q _ s.children
      (λ e _. owned p (inr u) ∙ ap (λ n. some n) e) (λ h. owned q (inl h)) holds
take_role-Owned p s u owned q (inr v) = owned q (inr (cleared p q s.unread v))

take_role-Untaken :
    (p : ℕ) (s : Supervisor)
    → Untaken s.children s.unread
    → Untaken (take_role p s).children (take_role p s).unread
take_role-Untaken p s untaken q = by_test (p == q)
  where
    by_test :
        (b : Bool)
        → (if b then false else s.unread q) ≡ true
        → Idle (if b then some (record { alive = true; role = true }) else s.children q)
    by_test true v = absurd (cc)
    by_test false v = untaken q v

pub takes-Inv :
    {c : Cluster} (p : ℕ) (role : Bool)
    → c.parent.children p ≡ some (record { alive = true; role = role })
    → c.parent.unread p ≡ true
    → Inv c
    → Inv (record c { parent = take_role p c.parent })
takes-Inv {c} p role here u inv = record {
  owned = take_role-Owned p c.parent u inv.owned;
  untaken = take_role-Untaken p c.parent inv.untaken;
  dead = All-map _ _ c.found (λ q. change-Dead p q _ c.parent (λ d. absurd (alive d))) inv.dead;
  distinct = inv.distinct;
  pending = elim inv.pending [
    | inl calm ↦ inl calm
    | inr (q, w) ↦ inr (
      q,
      record {
        refusal = w.refusal;
        known = w.known;
        dropped =
            put_entry NoRole p q _ c.parent.children (λ e. absurd (unread_q q e w.read)) w.dropped;
        read = stays_read p q c.parent.unread w.read;
        apart = w.apart;
      },
    )
  ];
}
  where
    alive : Dead c.parent p → ⊥
    alive d = cc

    unread_q : (q : ℕ) → p ≡ q → c.parent.unread q ≡ false → ⊥
    unread_q q e read = cc

pub loses-Inv :
    {c : Cluster} (p : ℕ)
    → Inv c
    → Inv (record c { parent = record c.parent { unread = put p false c.parent.unread } })
loses-Inv {c} p inv = record {
  owned = λ q. elim [
    | inl holds ↦ inv.owned q (inl holds)
    | inr u ↦ inv.owned q (inr (cleared p q c.parent.unread u))
  ];
  untaken = λ q u. inv.untaken q (cleared p q c.parent.unread u);
  dead = inv.dead;
  distinct = inv.distinct;
  pending = elim inv.pending [
    | inl calm ↦ inl calm
    | inr (q, w) ↦ inr (
      q,
      record {
        refusal = w.refusal;
        known = w.known;
        dropped = w.dropped;
        read = stays_read p q c.parent.unread w.read;
        apart = w.apart;
      },
    )
  ];
}
