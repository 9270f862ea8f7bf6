-- ===== src/Container/Pipeline/Keys.antt =====
-- core/container/__init__.py: the classes of the resolved map are all different.
use xime_framework.Prelude.{
  ℕ, ◌≡◌, refl, Bool, true, false, ◌||◌, List, [], ◌∷◌, ◌++◌, arith, ◌==◌, if◌then◌else◌, contains,
  IsDistinct, append-IsDistinct, Bool-cases, inl, inr, ap, sym, ◌∙◌, subst,
}
use xime_framework.Container.Graph.{ResolvedMap, keys}
use xime_framework.Container.Validator.{ClassFacts}
use xime_framework.Container.Pipeline.{
  ClassDeps, Signatures, FactoryEntry, resolve, set_item, add_factories, merge_unique,
  drop_optional, Declared, all_classes, resolved_map, resolve_hints,
}

merge_unique-IsDistinct :
    (base extra : List ℕ) → IsDistinct base → IsDistinct (merge_unique base extra)
unfolding merge_unique
merge_unique-IsDistinct base [] d = d
merge_unique-IsDistinct base (cls ∷ extra) d =
    merge_unique-IsDistinct (if contains base cls then base else base ++ cls ∷ []) extra
      (by_test (contains base cls) refl)
  where
    by_test : (b : Bool) → contains base cls ≡ b → IsDistinct (if b then base else base ++ cls ∷ [])
    by_test true e = d
    by_test false e =
        append-IsDistinct base (cls ∷ []) d (refl, tt)
          (λ a m. elim (Bool-cases (cls == a)) [
            | inl same ↦ absurd (present e m (equal a same))
            | inr other ↦ ground arith
          ])
      where
        equal : (a : ℕ) → (cls == a) ≡ true → a ≡ cls
        equal a q = ground arith

        present : {a : ℕ} → contains base cls ≡ false → contains base a ≡ true → a ≡ cls → ⊥
        present absent m q = differ (sym absent ∙ ap (contains base) (sym q) ∙ m)
          where
            differ : false ≡ true → ⊥
            differ r = cc

module _ (facts : ClassFacts) (bindings : List (ℕ × ℕ)) (signatures : Signatures) where
  keys-resolve : (classes : List ℕ) → keys (resolve facts bindings signatures classes) ≡ classes
  unfolding resolve
  keys-resolve [] = refl
  keys-resolve (cls ∷ rest) = ap (λ l. cls ∷ l) (keys-resolve rest)

  keys-set_item :
      (key : ℕ) (deps : ClassDeps) (resolved : ResolvedMap) (a : ℕ)
      → contains (keys (set_item facts bindings key deps resolved)) a
        ≡ (contains (keys resolved) a || key == a)
  unfolding set_item
  keys-set_item key deps [] a = ground arith
  keys-set_item key deps ((k, old) ∷ rest) a =
      by_test (k == key) refl (keys-set_item key deps rest a)
    where
      by_test :
          (b : Bool)
          → (k == key) ≡ b
          → contains (keys (set_item facts bindings key deps rest)) a
            ≡ (contains (keys rest) a || key == a)
          → contains
              (keys
                (if b then (k, deps) ∷ rest else (k, old) ∷ set_item facts bindings key deps rest))
              a
            ≡ ((k == a || contains (keys rest) a) || key == a)
      by_test true e ih = ground arith
      by_test false e ih = ground (arith, ih)

  set_item-IsDistinct :
      (key : ℕ) (deps : ClassDeps) (resolved : ResolvedMap)
      → IsDistinct (keys resolved)
      → IsDistinct (keys (set_item facts bindings key deps resolved))
  unfolding set_item
  set_item-IsDistinct key deps [] d = (refl, tt)
  set_item-IsDistinct key deps ((k, old) ∷ rest) d =
      by_test (k == key) refl (set_item-IsDistinct key deps rest d.1)
    where
      by_test :
          (b : Bool)
          → (k == key) ≡ b
          → IsDistinct (keys (set_item facts bindings key deps rest))
          → IsDistinct (
              keys
                (if b then (k, deps) ∷ rest else (k, old) ∷ set_item facts bindings key deps rest))
      by_test true e ih = d
      by_test false e ih = (ground (arith, keys-set_item key deps rest k, d.0), ih)

  add_factories-IsDistinct :
      (entries : List FactoryEntry) (resolved : ResolvedMap)
      → IsDistinct (keys resolved)
      → IsDistinct (keys (add_factories facts bindings entries resolved))
  unfolding add_factories
  add_factories-IsDistinct [] resolved d = d
  add_factories-IsDistinct (entry ∷ rest) resolved d =
      add_factories-IsDistinct rest
        (set_item facts bindings entry.provided_type
          (resolve_hints facts bindings entry.dependencies) resolved)
        (set_item-IsDistinct entry.provided_type (resolve_hints facts bindings entry.dependencies)
          resolved d)

keys-drop_optional :
    (signatures : Signatures) (entries : List FactoryEntry) (available : List ℕ)
    (resolved : ResolvedMap)
    → keys (drop_optional signatures entries available resolved) ≡ keys resolved
unfolding drop_optional
keys-drop_optional signatures entries available [] = refl
keys-drop_optional signatures entries available ((cls, deps) ∷ rest) =
    ap (λ l. cls ∷ l) (keys-drop_optional signatures entries available rest)

-- The scanner returns no class twice, and neither does the resolved map.
pub resolved_map-IsDistinct :
    (d : Declared) → IsDistinct d.scanned → IsDistinct (keys (resolved_map d))
unfolding resolved_map
resolved_map-IsDistinct d s =
    subst IsDistinct (sym (keys-drop_optional d.signatures d.factory_entries _ _)) (
      add_factories-IsDistinct d.facts d.resolver_bindings d.signatures d.factory_entries
        (resolve d.facts d.resolver_bindings d.signatures (all_classes d))
        (subst IsDistinct
          (sym (keys-resolve d.facts d.resolver_bindings d.signatures (all_classes d)))
          (merge_unique-IsDistinct d.scanned d.explicit_classes s)))
