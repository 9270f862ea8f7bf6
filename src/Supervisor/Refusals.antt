-- ===== src/Supervisor/Refusals.antt =====
-- core/bootstrap/_supervisor.py: a refusal in the channel means that nobody claims the role.
use xime_framework.Prelude.{
  ℕ, ◌≡◌, refl, Bool, true, false, Option, none, some, List, [], ◌∷◌, ◌++◌, ◌==◌, arith, ◌⊎◌, inl,
  inr, subst, sym, IsDistinct, All, contains, some_unique, All-append,
}
use xime_framework.Supervisor.{
  Child, Children, Supervisor, Message, run_once_done, ready, promoted, promote_failed,
  adapter_isolated, on_control, control_each, pump_control, id_at,
}
use xime_framework.Supervisor.Roles.{
  Holds, Claims, Owned, Untaken, Orderly, IsOrderly, NoClaim, promote_someone-Orderly,
}
use xime_framework.Supervisor.Shape.{if_both}
use xime_framework.Supervisor.Cluster.{Cluster, IsNews, Dead}

abbrev pub Calm : List Message → Type 0
Calm ms = All IsNews ms

-- One refusal among news.
abbrev pub Refused : ℕ → List Message → Type 0
Refused q [] = ⊥
Refused q (m ∷ ms) = (IsNews m × Refused q ms) ⊎ ((m ≡ promote_failed q) × Calm ms)

abbrev pub NoRole : Option Child → Type 0
NoRole none = ⊥
NoRole (some child) = child.role ≡ false

-- The primary has refused, and the parent does not know yet.
pub record Waiting (c : Cluster) (q : ℕ) : Type 0 where
  pub refusal : Refused q c.channel
  pub known : c.parent.primary_id ≡ some q
  pub dropped : NoRole (c.parent.children q)
  pub read : c.parent.unread q ≡ false
  pub apart : contains c.found q ≡ false

pub record Inv (c : Cluster) : Type 0 where
  pub owned : Owned c.parent.children c.parent.unread c.parent.primary_id
  pub untaken : Untaken c.parent.children c.parent.unread
  pub dead : All (Dead c.parent) c.found
  pub distinct : IsDistinct c.found
  pub pending : Calm c.channel ⊎ ((q : ℕ) × Waiting c q)

news_keeps :
    (P : Children → (ℕ → Bool) → Option ℕ → Type 0) (now : ℕ) (m : Message) (s : Supervisor)
    → IsNews m
    → P s.children s.unread s.primary_id
    → let after = on_control now m s in P after.children after.unread after.primary_id
unfolding on_control
news_keeps P now (run_once_done index) s news h = h
news_keeps P now (promote_failed index) s news h = absurd news
news_keeps P now (ready index) s news h = h
news_keeps P now (promoted index) s news h = h
news_keeps P now (adapter_isolated index) s news h = h

calm-Orderly :
    (now : ℕ) (ms : List Message) (s : Supervisor)
    → Calm ms
    → IsOrderly s
    → IsOrderly (control_each now ms s)
unfolding control_each
calm-Orderly now [] s calm orderly = orderly
calm-Orderly now (m ∷ ms) s calm orderly =
    calm-Orderly now ms (on_control now m s) calm.1 (news_keeps Orderly now m s calm.0 orderly)

-- The primary that has refused is known, so nobody claims the role.
abbrev Vacant : ℕ → Children → (ℕ → Bool) → Option ℕ → Type 0
Vacant q children unread primary =
    Orderly children unread primary × (primary ≡ some q) × NoRole (children q) × (unread q ≡ false)

pub NoRole-Holds : (o : Option Child) → NoRole o → Holds o → ⊥
NoRole-Holds none h k = k
NoRole-Holds (some child) h k = absurd (cc)

Vacant-NoClaim :
    (q : ℕ) (children : Children) (unread : ℕ → Bool) (primary : Option ℕ)
    → Vacant q children unread primary
    → NoClaim children unread
Vacant-NoClaim q children unread primary ((owned, untaken), known, dropped, read) p claim =
    at_q (subst (λ n. Claims (children n) (unread n)) (some_unique (owned p claim) known) claim)
  where
    at_q : Claims (children q) (unread q) → ⊥
    at_q (inl holds) = NoRole-Holds (children q) dropped holds
    at_q (inr u) = cc

refusal-Orderly :
    (now q : ℕ) (s : Supervisor)
    → Vacant q s.children s.unread s.primary_id
    → IsOrderly (on_control now (promote_failed q) s)
unfolding on_control
refusal-Orderly now q s vacant =
    promote_someone-Orderly now (id_at s q) none s
      (Vacant-NoClaim q s.children s.unread s.primary_id vacant)

Refused-Orderly :
    (now q : ℕ) (ms : List Message) (s : Supervisor)
    → Refused q ms
    → Vacant q s.children s.unread s.primary_id
    → IsOrderly (control_each now ms s)
unfolding control_each
Refused-Orderly now q [] s refused vacant = absurd refused
Refused-Orderly now q (m ∷ ms) s (inl (news, refused)) vacant =
    Refused-Orderly now q ms (on_control now m s) refused
      (news_keeps (Vacant q) now m s news vacant)
Refused-Orderly now q (m ∷ ms) s (inr (e, calm)) vacant =
    calm-Orderly now ms (on_control now m s) calm
      (subst (λ n. IsOrderly (on_control now n s)) (sym e) (refusal-Orderly now q s vacant))

pub pump-Orderly : (now : ℕ) (c : Cluster) → Inv c → IsOrderly (pump_control now c.channel c.parent)
unfolding pump_control
pump-Orderly now c inv =
    if_both IsOrderly c.parent.linked
      (elim inv.pending [
        | inl calm ↦ calm-Orderly now c.channel c.parent calm (inv.owned, inv.untaken)
        | inr (q, w) ↦
            Refused-Orderly now q c.channel c.parent w.refusal
              ((inv.owned, inv.untaken), w.known, w.dropped, w.read)
      ])
      (inv.owned, inv.untaken)

-- Messages that come later.
pub Refused-news :
    (q : ℕ) (ms : List Message) (m : Message) → IsNews m → Refused q ms → Refused q (ms ++ m ∷ [])
Refused-news q [] m news refused = absurd refused
Refused-news q (n ∷ ms) m news (inl (h, refused)) = inl (h, Refused-news q ms m news refused)
Refused-news q (n ∷ ms) m news (inr (e, calm)) =
    inr (e, All-append IsNews ms (m ∷ []) calm (news, tt))

pub Refused-new : (q : ℕ) (ms : List Message) → Calm ms → Refused q (ms ++ promote_failed q ∷ [])
Refused-new q [] calm = inr (refl, tt)
Refused-new q (m ∷ ms) calm = inl (calm.0, Refused-new q ms calm.1)

-- A member of the dead is dead.
pub All-contains : (P : ℕ → Type 0) (ps : List ℕ) (p : ℕ) → All P ps → contains ps p ≡ true → P p
All-contains P [] p h e = absurd (cc)
All-contains P (x ∷ ps) p h e = by_test (x == p) refl (All-contains P ps p h.1)
  where
    by_test : (b : Bool) → (x == p) ≡ b → (contains ps p ≡ true → P p) → P p
    by_test true f rest = subst P (ground arith) h.0
    by_test false f rest = rest (ground (arith, e, f))
