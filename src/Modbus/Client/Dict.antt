-- ===== src/Modbus/Client/Dict.antt =====
-- adapters/modbus/_client.py: the payloads that the commands leave.
use xime_framework.Prelude.{
  ℕ, ◌≡◌, refl, Bool, true, false, ◌&&◌, List, [], ◌∷◌, ◌==◌, arith, if◌then◌else◌, ap, subst, sym,
  All, Any, inl, inr,
}
use xime_framework.Modbus.Model.{Area, same_area}
use xime_framework.Modbus.Planner.{ReadCommand}
use xime_framework.Modbus.Planner.Keys.{same_key, IsKeyed, same_area_eq, same_area_self}
use xime_framework.Modbus.Client.{Items, Payloads, put_item, store_payload, read_commands}

-- What a place of the dict holds.
abbrev pub IsAt : ℕ → List ℕ → ℕ × List ℕ → Type 0
IsAt start values item = (item.0 ≡ start) × (item.1 ≡ values)

put_item-new :
    (start : ℕ) (values : List ℕ) (items : Items)
    → Any (IsAt start values) (put_item start values items)
put_item-new start values [] = inl (refl, refl)
put_item-new start values (item ∷ items) =
    by_test (item.0 == start) (put_item-new start values items)
  where
    by_test :
        (b : Bool)
        → Any (IsAt start values) (put_item start values items)
        → Any
            (IsAt start values)
            (if b then (start, values) ∷ items else item ∷ put_item start values items)
    by_test true rest = inl (refl, refl)
    by_test false rest = inr rest

put_item-old :
    (start old : ℕ) (values held : List ℕ) (items : Items)
    → (old == start) ≡ false
    → Any (IsAt old held) items
    → Any (IsAt old held) (put_item start values items)
put_item-old start old values held [] e h = absurd h
put_item-old start old values held (item ∷ items) e h =
    by_test (item.0 == start) refl (put_item-old start old values held items e) h
  where
    by_test :
        (b : Bool)
        → (item.0 == start) ≡ b
        → (Any (IsAt old held) items → Any (IsAt old held) (put_item start values items))
        → Any (IsAt old held) (item ∷ items)
        → Any
            (IsAt old held)
            (if b then (start, values) ∷ items else item ∷ put_item start values items)
    by_test true f rest (inl (at, _)) = absurd (ground (arith, e, f, at))
    by_test true f rest (inr k) = inr k
    by_test false f rest (inl k) = inl k
    by_test false f rest (inr k) = inr (rest k)

put_item-All :
    (P : ℕ × List ℕ → Type 0) (start : ℕ) (values : List ℕ) (items : Items)
    → P (start, values)
    → All P items
    → All P (put_item start values items)
put_item-All P start values [] new all = (new, tt)
put_item-All P start values (item ∷ items) new all =
    by_test (item.0 == start) (put_item-All P start values items new all.1)
  where
    by_test :
        (b : Bool)
        → All P (put_item start values items)
        → All P (if b then (start, values) ∷ items else item ∷ put_item start values items)
    by_test true rest = (new, all.1)
    by_test false rest = (all.0, rest)

module _ (read : Area → ℕ → ℕ → List ℕ) where
  -- What was read from an area lies in the dict under its address.
  abbrev pub IsRead : Area → ℕ × List ℕ → Type 0
  IsRead area item = (n : ℕ) × (item.1 ≡ read area item.0 n)

  abbrev pub Holds : Payloads → ReadCommand → Type 0
  Holds payloads c = Any (IsAt c.address (read c.area c.address c.count)) (payloads c.area)

  abbrev stored : ReadCommand → Payloads → Payloads
  stored d payloads = store_payload d.area d.address (read d.area d.address d.count) payloads

  stored-new : (c : ReadCommand) (payloads : Payloads) → Holds (stored c payloads) c
  stored-new c payloads = by_test (same_area c.area c.area) (same_area_self c.area)
    where
      values : List ℕ
      values = read c.area c.address c.count

      by_test :
          (b : Bool)
          → b ≡ true
          → Any
              (IsAt c.address values)
              (if b then put_item c.address values (payloads c.area) else payloads c.area)
      by_test true e = put_item-new c.address values (payloads c.area)
      by_test false e = absurd (cc)

  stored-old :
      (c d : ReadCommand) (payloads : Payloads)
      → same_key c d ≡ false
      → Holds payloads c
      → Holds (stored d payloads) c
  stored-old c d payloads apart h = by_test (same_area d.area c.area) refl
    where
      values : List ℕ
      values = read d.area d.address d.count

      other : same_area d.area c.area ≡ true → (c.address == d.address) ≡ false
      other e =
          subst
            (λ a.
              (same_area c.area a && c.address == d.address) ≡ false
              → (c.address == d.address) ≡ false)
            (sym (same_area_eq d.area c.area e)) (λ f. ground (arith, f, same_area_self c.area))
            apart

      by_test :
          (b : Bool)
          → same_area d.area c.area ≡ b
          → Any
              (IsAt c.address (read c.area c.address c.count))
              (if b then put_item d.address values (payloads c.area) else payloads c.area)
      by_test true e = put_item-old d.address c.address values _ (payloads c.area) (other e) h
      by_test false e = h

  read_commands-old :
      (cs : List ReadCommand) (payloads : Payloads) (c : ReadCommand)
      → All (λ d. same_key c d ≡ false) cs
      → Holds payloads c
      → Holds (read_commands read cs payloads) c
  unfolding read_commands
  read_commands-old [] payloads c apart h = h
  read_commands-old (d ∷ cs) payloads c apart h =
      read_commands-old cs (stored d payloads) c apart.1 (stored-old c d payloads apart.0 h)

  -- Every command that satisfies a predicate is in the dict.
  pub read_commands-Holds :
      (P : ReadCommand → Type 0) (cs : List ReadCommand) (payloads : Payloads)
      → IsKeyed cs
      → Any P cs
      → (c : ReadCommand) × P c × Holds (read_commands read cs payloads) c
  unfolding read_commands
  read_commands-Holds P [] payloads keyed h = absurd h
  read_commands-Holds P (c ∷ cs) payloads keyed (inl p) =
      (c, p, read_commands-old cs (stored c payloads) c keyed.0 (stored-new c payloads))
  read_commands-Holds P (c ∷ cs) payloads keyed (inr h) =
      read_commands-Holds P cs (stored c payloads) keyed.1 h

  -- Nothing else is.
  pub read_commands-IsRead :
      (area : Area) (cs : List ReadCommand) (payloads : Payloads)
      → All (IsRead area) (payloads area)
      → All (IsRead area) (read_commands read cs payloads area)
  unfolding read_commands
  read_commands-IsRead area [] payloads all = all
  read_commands-IsRead area (d ∷ cs) payloads all =
      read_commands-IsRead area cs (stored d payloads) (by_test (same_area d.area area) refl)
    where
      values : List ℕ
      values = read d.area d.address d.count

      by_test :
          (b : Bool)
          → same_area d.area area ≡ b
          → All
              (IsRead area)
              (if b then put_item d.address values (payloads area) else payloads area)
      by_test true e =
          put_item-All (IsRead area) d.address values (payloads area)
            (d.count, ap (λ a. read a d.address d.count) (same_area_eq d.area area e)) all
      by_test false e = all
