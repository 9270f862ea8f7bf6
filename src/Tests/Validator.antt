-- ===== src/Tests/Validator.antt =====
-- core/container/validator.py: the class 1 needs the protocol 5 and the class 2; 3 implements 5.
use xime_framework.Prelude.{◌≡◌, refl, [], ◌∷◌, ◌==◌}
use xime_framework.Container.Graph.{ResolvedMap, build}
use xime_framework.Container.Validator.{
  ClassFacts, invalid, missing_binding, invalid_binding, unregistered_dependency, validate,
}
use xime_framework.Container.Validator.Verdict.{IsVerdict, validate-IsVerdict}

-- The protocol 5 has the method 7, which only the class 3 has.
abbrev facts : ClassFacts
facts = record {
  is_protocol = λ c. c == 5;
  protocol_methods = λ c. 7 ∷ [];
  has_method = λ c m. c == 3;
}

abbrev resolved : ResolvedMap
resolved = (1, (10, 5) ∷ (11, 2) ∷ []) ∷ (2, []) ∷ (3, []) ∷ []

validate-unbound :
    validate facts resolved (build resolved) [] (1 ∷ 2 ∷ 3 ∷ []) [] []
    ≡ invalid (missing_binding 5 3)
unfolding validate build
validate-unbound = refl

validate-wrong :
    validate facts resolved (build resolved) ((5, 2 ∷ []) ∷ []) (1 ∷ 2 ∷ 3 ∷ []) (5 ∷ []) []
    ≡ invalid (invalid_binding 5 2 (7 ∷ []))
unfolding validate build
validate-wrong = refl

validate-unscanned :
    validate facts resolved (build resolved) ((5, 3 ∷ []) ∷ []) (1 ∷ 3 ∷ []) (5 ∷ []) []
    ≡ invalid (unregistered_dependency 1 2)
unfolding validate build
validate-unscanned = refl

validate-IsVerdict_example :
    IsVerdict facts resolved
      ((5, 3 ∷ []) ∷ [])
      (1 ∷ 2 ∷ 3 ∷ [])
      (5 ∷ [])
      []
      (validate facts resolved (build resolved) ((5, 3 ∷ []) ∷ []) (1 ∷ 2 ∷ 3 ∷ []) (5 ∷ []) [])
validate-IsVerdict_example =
    validate-IsVerdict facts resolved ((5, 3 ∷ []) ∷ []) (1 ∷ 2 ∷ 3 ∷ []) (5 ∷ []) []
