-- ===== src/Tests/Pipeline.antt =====
-- core/container/__init__.py: the class 1 needs the protocol 5, bound to 2, and has an optional text.
use xime_framework.Prelude.{◌≡◌, refl, [], ◌∷◌, ◌==◌, if◌then◌else◌}
use xime_framework.Container.Graph.{build}
use xime_framework.Container.Validator.{unregistered_dependency}
use xime_framework.Container.Pipeline.{Declared, built, rejected, build_container}
use xime_framework.Container.Pipeline.Built.{BuildEnds, build_container-BuildEnds}

-- The parameter 12 has the type 9, which nothing supplies.
abbrev application : Declared
application = record {
  facts = record {
    is_protocol = λ c. c == 5;
    protocol_methods = λ c. 7 ∷ [];
    has_method = λ c m. c == 2;
  };
  signatures = record {
    hints = λ c. if c == 1 then (10, 5) ∷ (11, 3) ∷ (12, 9) ∷ [] else [];
    defaults = λ c. 12 ∷ [];
  };
  scanned = 1 ∷ 2 ∷ [];
  explicit_classes = 2 ∷ [];
  factory_entries = record { provided_type = 3; dependencies = []; defaults = [] } ∷ [];
  instances = [];
  resolver_bindings = (5, 2) ∷ [];
  validation_bindings = (5, 2 ∷ []) ∷ [];
  order_rules = (3 ∷ 2 ∷ []) ∷ [];
}

build-application : build_container application ≡ built (3 ∷ 2 ∷ 1 ∷ [])
unfolding build_container build
build-application = refl

-- The same parameter without a default
abbrev required : Declared
required = record application { signatures = record application.signatures { defaults = λ c. [] } }

build-required : build_container required ≡ rejected (unregistered_dependency 1 9)
unfolding build_container build
build-required = refl

build_container-BuildEnds_example : BuildEnds application (build_container application)
build_container-BuildEnds_example = build_container-BuildEnds application (refl, (refl, tt))
