-- ===== src/Container/Switcher.antt =====
-- core/container/switcher.py: which implementation stands for a dynamic interface.
-- A tuple of implementations is its first element and the others, as the container refuses an
-- empty one.
pub mod Selected
use xime_framework.Prelude.{
  ℕ, Bool, true, false, Option, none, some, List, [], ◌∷◌, ◌==◌, if◌then◌else◌, contains,
}
use xime_framework.Container.Registry.{put}

pub record Implementations : Type 0 where
  pub first : ℕ
  pub others : List ℕ

abbrev pub declared : Implementations → List ℕ
declared impls = impls.first ∷ impls.others

abbrev pub Tuples : Type 0
Tuples = List (ℕ × Implementations)

abbrev pub find {ℓ} : {B : Type ℓ} → List (ℕ × B) → ℕ → Option B
find [] k = none
find ((key, value) ∷ rest) k = if key == k then some value else find rest k

pub record Switcher : Type 0 where
  pub enabled : Bool
  pub tuples : Tuples
  pub current : ℕ → Option ℕ

abbrev pub default_of : Option Implementations → Option ℕ
default_of none = none
default_of (some impls) = some impls.first

abbrev pub create : Tuples → Bool → Switcher
create tuples enabled = record {
  enabled = enabled;
  tuples = tuples;
  current = λ i. default_of (find tuples i);
}

pub data SwitcherError : Type 0 where
  disabled : SwitcherError
  not_dynamic : ℕ → SwitcherError
  not_declared : ℕ → ℕ → SwitcherError

-- The error raised, if any, and the switcher after the call.
abbrev pub Called : Type 0
Called = Option SwitcherError × Switcher

abbrev pub select : Switcher → ℕ → ℕ → Switcher
select switcher interface implementation = record switcher {
  current = put interface (some implementation) switcher.current;
}

unfoldable pub use_known : Switcher → ℕ → ℕ → Option Implementations → Called
use_known switcher interface implementation none = (some (not_dynamic interface), switcher)
use_known switcher interface implementation (some impls) =
    if contains (declared impls) implementation
    then (none, select switcher interface implementation)
    else (some (not_declared interface implementation), switcher)

-- use()
unfoldable pub switch_to : Switcher → ℕ → ℕ → Called
unfolding use_known
switch_to switcher interface implementation =
    if switcher.enabled
    then use_known switcher interface implementation (find switcher.tuples interface)
    else (some disabled, switcher)

unfoldable pub reset_each : Tuples → (ℕ → Option ℕ) → ℕ → Option ℕ
reset_each [] current = current
reset_each ((interface, impls) ∷ rest) current =
    reset_each rest (put interface (some impls.first) current)

unfoldable pub reset_known : Switcher → ℕ → Option Implementations → Called
reset_known switcher interface none = (some (not_dynamic interface), switcher)
reset_known switcher interface (some impls) = (none, select switcher interface impls.first)

unfoldable pub reset_one : Switcher → Option ℕ → Called
unfolding reset_each reset_known
reset_one switcher none =
    (none, record switcher { current = reset_each switcher.tuples switcher.current })
reset_one switcher (some interface) =
    reset_known switcher interface (find switcher.tuples interface)

-- reset(), for one interface or for all
unfoldable pub reset : Switcher → Option ℕ → Called
unfolding reset_one
reset switcher interface =
    if switcher.enabled then reset_one switcher interface else (some disabled, switcher)
