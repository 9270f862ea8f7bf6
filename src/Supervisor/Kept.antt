-- ===== src/Supervisor/Kept.antt =====
-- core/bootstrap/_supervisor.py: each step of the cluster keeps the role with the known primary.
use xime_framework.Prelude.{
  ℕ, ◌≡◌, refl, Bool, true, false, none, some, List, [], ◌∷◌, ◌++◌, ◌==◌, arith, inl, inr, subst,
  sym, ap, ◌∙◌, IsDistinct, All, contains, some_unique, All-map, All-append,
}
use xime_framework.Container.Registry.{put_self}
use xime_framework.Supervisor.{
  Child, Supervisor, spawn, is_alive, is_id, Message, promote_failed, pump_control, respawn,
}
use xime_framework.Supervisor.Reaping.{reap_hung_children}
use xime_framework.Supervisor.Roles.{
  Holds, Claims, Owned, Idle, Untaken, IsOrderly, not_unread, Untaken-dead, spawn-Orderly,
  respawn-Orderly,
}
use xime_framework.Supervisor.Shape.{put_entry}
use xime_framework.Supervisor.Lives.{
  pump_control-lives, respawn-lives, respawn-others, reap_hung_children-SameTable,
}
use xime_framework.Supervisor.Cluster.{Cluster, IsNews, Dead, change}
use xime_framework.Supervisor.Refusals.{
  NoRole, Waiting, Inv, pump-Orderly, Refused-news, Refused-new, All-contains,
}

-- A child that is changed and does not get the role leaves the role where it was.
change-Owned :
    (p : ℕ) (child : Child) (s : Supervisor)
    → (Holds (some child) → Holds (s.children p))
    → Owned s.children s.unread s.primary_id
    → Owned (change p child s).children s.unread s.primary_id
change-Owned p child s loses_none owned q (inl holds) =
    put_entry (λ o. Holds o → s.primary_id ≡ some q) p q (some child) s.children
      (λ e h. owned p (inl (loses_none h)) ∙ ap (λ n. some n) e) (λ h. owned q (inl h)) holds
change-Owned p child s loses_none owned q (inr u) = owned q (inr u)

change-Untaken :
    (p : ℕ) (child : Child) (s : Supervisor)
    → (s.unread p ≡ true → Idle (some child))
    → Untaken s.children s.unread
    → Untaken (change p child s).children s.unread
change-Untaken p child s idle untaken q u =
    put_entry Idle p q (some child) s.children (λ e. idle (ap s.unread e ∙ u)) (untaken q u)

pub change-Dead :
    (p q : ℕ) (child : Child) (s : Supervisor)
    → (Dead s p → child.alive ≡ false)
    → Dead s q
    → Dead (change p child s) q
change-Dead p q child s dies_too dead =
    put_entry (λ o. is_alive o ≡ false) p q (some child) s.children
      (λ e. dies_too (subst (Dead s) (sym e) dead)) dead

change-NoRole :
    (p q : ℕ) (child : Child) (s : Supervisor)
    → (NoRole (s.children p) → child.role ≡ false)
    → NoRole (s.children q)
    → NoRole ((change p child s).children q)
change-NoRole p q child s loses dropped =
    put_entry NoRole p q (some child) s.children
      (λ e. loses (subst (λ n. NoRole (s.children n)) (sym e) dropped)) dropped

pub dies-Inv :
    {c : Cluster} (p : ℕ) (role : Bool)
    → c.parent.children p ≡ some (record { alive = true; role = role })
    → c.parent.unread p ≡ false
    → Inv c
    → Inv (record c { parent = change p (record { alive = false; role = role }) c.parent })
dies-Inv {c} p role here read inv = record {
  owned = change-Owned p _ c.parent (λ holds. absurd (cc)) inv.owned;
  untaken = change-Untaken p _ c.parent (λ u. absurd (cc)) inv.untaken;
  dead = All-map _ _ c.found (λ q. change-Dead p q _ c.parent (λ _. refl)) inv.dead;
  distinct = inv.distinct;
  pending = elim inv.pending [
    | inl calm ↦ inl calm
    | inr (q, w) ↦ inr (
      q,
      record {
        refusal = w.refusal;
        known = w.known;
        dropped = change-NoRole p q _ c.parent (λ h. subst NoRole here h) w.dropped;
        read = w.read;
        apart = w.apart;
      },
    )
  ];
}

pub refuses-Inv :
    {c : Cluster} (p : ℕ)
    → c.parent.children p ≡ some (record { alive = true; role = true })
    → Inv c
    → Inv (record c {
      parent = change p (record { alive = true; role = false }) c.parent;
      channel = c.channel ++ promote_failed p ∷ [];
    })
refuses-Inv {c} p here inv = record {
  owned = change-Owned p _ c.parent (λ holds. absurd (cc)) inv.owned;
  untaken = change-Untaken p _ c.parent (λ _. (refl, refl)) inv.untaken;
  dead = All-map _ _ c.found (λ q. change-Dead p q _ c.parent (λ d. absurd (alive d))) inv.dead;
  distinct = inv.distinct;
  pending = inr (
    p,
    elim inv.pending [
      | inl calm ↦ record {
        refusal = Refused-new p c.channel calm;
        known = known;
        dropped =
            subst NoRole
              (sym (put_self p (some (record { alive = true; role = false })) c.parent.children))
              refl;
        read = not_unread (c.parent.unread p) taken;
        apart = outside (contains c.found p) refl;
      }
      | inr (q, w) ↦ absurd (held q w.known w.dropped)
    ],
  );
}
  where
    alive : Dead c.parent p → ⊥
    alive d = cc

    known : c.parent.primary_id ≡ some p
    known = inv.owned p (inl (subst Holds (sym here) (refl, refl)))

    taken : c.parent.unread p ≡ true → ⊥
    taken u = let idle = subst Idle here (inv.untaken p u) in cc

    held : (q : ℕ) → c.parent.primary_id ≡ some q → NoRole (c.parent.children q) → ⊥
    held q primary dropped =
        let at_p = subst NoRole (ap c.parent.children (some_unique primary known) ∙ here) dropped in
        cc

    outside : (b : Bool) → contains c.found p ≡ b → contains c.found p ≡ false
    outside true e = absurd (alive (All-contains (Dead c.parent) c.found p inv.dead e))
    outside false e = e

All-others :
    (P Q : ℕ → Type 0) (p : ℕ) (ps : List ℕ)
    → contains ps p ≡ false
    → ((q : ℕ) → (p == q) ≡ false → P q → Q q)
    → All P ps
    → All Q ps
All-others P Q p [] out h all = tt
All-others P Q p (x ∷ ps) out h all =
    (h x (ground (arith, out)) all.0, All-others P Q p ps (ground (arith, out)) h all.1)

pub restarts-Inv :
    {c : Cluster} (now p : ℕ) (rest : List ℕ)
    → c.found ≡ p ∷ rest
    → Inv c
    → Inv (record c { parent = respawn now p c.parent; found = rest })
restarts-Inv {c} now p rest e inv = record {
  owned = orderly.0;
  untaken = orderly.1;
  dead =
      All-others (Dead c.parent) (Dead (respawn now p c.parent)) p rest distinct.0
        (λ q other h. respawn-lives now p q c.parent other ∙ h) dead.1;
  distinct = distinct.1;
  pending = elim inv.pending [ inl calm ↦ inl calm | inr (q, w) ↦ inr (q, still_waiting q w) ];
}
  where
    distinct : IsDistinct (p ∷ rest)
    distinct = subst IsDistinct e inv.distinct

    dead : All (Dead c.parent) (p ∷ rest)
    dead = subst (All (Dead c.parent)) e inv.dead

    orderly : IsOrderly (respawn now p c.parent)
    orderly =
        respawn-Orderly now p c.parent
          (Untaken-dead p c.parent.children c.parent.unread inv.untaken dead.0)
          (inv.owned, inv.untaken)

    still_waiting :
        (q : ℕ)
        → Waiting c q
        → Waiting (record c { parent = respawn now p c.parent; found = rest }) q
    still_waiting q w =
        let apart = subst (λ l. contains l q ≡ false) e w.apart in
        let kept =
          respawn-others now p q c.parent (ap (λ o. is_id o p) w.known ∙ ground (arith, apart))
            (ground (arith, apart)) in
        record {
          refusal = w.refusal;
          known = kept.1 ∙ w.known;
          dropped = subst NoRole (sym kept.0) w.dropped;
          read = ap (λ u. u q) kept.2 ∙ w.read;
          apart = ground (arith, apart);
        }

pub starts-Inv :
    {c : Cluster} (now p : ℕ)
    → c.found ≡ []
    → c.parent.children p ≡ none
    → Inv c
    → Inv (record c { parent = spawn now p c.parent })
unfolding spawn
starts-Inv {c} now p idle absent inv = record {
  owned = orderly.0;
  untaken = orderly.1;
  dead = subst (All (Dead (spawn now p c.parent))) (sym idle) tt;
  distinct = inv.distinct;
  pending = elim inv.pending [ inl calm ↦ inl calm | inr (q, w) ↦ inr (q, still_waiting q w) ];
}
  where
    orderly : IsOrderly (spawn now p c.parent)
    orderly =
        spawn-Orderly now p c.parent
          (Untaken-dead p c.parent.children c.parent.unread inv.untaken (ap is_alive absent))
          (inv.owned, inv.untaken)

    still_waiting : (q : ℕ) → Waiting c q → Waiting (record c { parent = spawn now p c.parent }) q
    still_waiting q w = record {
      refusal = w.refusal;
      known = w.known;
      dropped =
          put_entry NoRole p q _ c.parent.children
            (λ e. absurd (subst NoRole (ap c.parent.children (sym e) ∙ absent) w.dropped))
            w.dropped;
      read = w.read;
      apart = w.apart;
    }

pub wakes-Inv :
    {c : Cluster} (now : ℕ) (dead : List ℕ)
    → IsDistinct dead
    → All (Dead c.parent) dead
    → Inv c
    → Inv (record { parent = pump_control now c.channel c.parent; channel = []; found = dead })
wakes-Inv {c} now dead distinct all inv = record {
  owned = (pump-Orderly now c inv).0;
  untaken = (pump-Orderly now c inv).1;
  dead = All-map _ _ dead (λ q h. pump_control-lives now c.channel c.parent q ∙ h) all;
  distinct = distinct;
  pending = inl tt;
}

pub reaps-Inv :
    {c : Cluster} (now : ℕ) → Inv c → Inv (record c { parent = reap_hung_children now c.parent })
reaps-Inv {c} now inv = record {
  owned = orderly.0;
  untaken = orderly.1;
  dead = All-map _ _ c.found (λ q h. ap (λ t. is_alive (t q)) same ∙ h) inv.dead;
  distinct = inv.distinct;
  pending = elim inv.pending [
    | inl calm ↦ inl calm
    | inr (q, w) ↦ inr (
      q,
      record {
        refusal = w.refusal;
        known = known ∙ w.known;
        dropped = subst (λ t. NoRole (t q)) (sym same) w.dropped;
        read = ap (λ f. f q) left ∙ w.read;
        apart = w.apart;
      },
    )
  ];
}
  where
    left : (reap_hung_children now c.parent).unread ≡ c.parent.unread
    left = (reap_hung_children-SameTable now c.parent).2

    same : (reap_hung_children now c.parent).children ≡ c.parent.children
    same = (reap_hung_children-SameTable now c.parent).0

    known : (reap_hung_children now c.parent).primary_id ≡ c.parent.primary_id
    known = (reap_hung_children-SameTable now c.parent).1

    orderly : IsOrderly (reap_hung_children now c.parent)
    orderly = (
      λ p claim.
          known
          ∙ inv.owned p (
              subst (λ t. Claims (t p) (c.parent.unread p)) same
                (subst (λ f. Claims ((reap_hung_children now c.parent).children p) (f p)) left
                  claim)),
      λ p u. subst (λ t. Idle (t p)) (sym same) (inv.untaken p (sym (ap (λ f. f p) left) ∙ u)),
    )

pub stops-Inv :
    {c : Cluster} → Inv c → Inv (record c { parent = record c.parent { stopping = true } })
stops-Inv {c} inv = record {
  owned = inv.owned;
  untaken = inv.untaken;
  dead = inv.dead;
  distinct = inv.distinct;
  pending = elim inv.pending [
    | inl calm ↦ inl calm
    | inr (q, w) ↦ inr (
      q,
      record {
        refusal = w.refusal;
        known = w.known;
        dropped = w.dropped;
        read = w.read;
        apart = w.apart;
      },
    )
  ];
}

pub tells-Inv :
    {c : Cluster} (m : Message)
    → IsNews m
    → Inv c
    → Inv (record c { channel = c.channel ++ m ∷ [] })
tells-Inv {c} m news inv = record {
  owned = inv.owned;
  untaken = inv.untaken;
  dead = inv.dead;
  distinct = inv.distinct;
  pending = elim inv.pending [
    | inl calm ↦ inl (All-append IsNews c.channel (m ∷ []) calm (news, tt))
    | inr (q, w) ↦ inr (
      q,
      record {
        refusal = Refused-news q c.channel m news w.refusal;
        known = w.known;
        dropped = w.dropped;
        read = w.read;
        apart = w.apart;
      },
    )
  ];
}
