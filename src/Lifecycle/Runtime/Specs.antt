-- ===== src/Lifecycle/Runtime/Specs.antt =====
-- The text of an init request, src/CanDriverRuntime.cpp: devices between commas, blanks around them,
-- and `optional:` before those that may fail.
use old_car_can_driver.Prelude.{
  String, Bool, true, false, ◌&&◌, ◌||◌, Option, none, some, List, [], ◌∷◌, ◌≡◌, refl, ◌==◌, leb,
  if◌then◌else◌, null, is_empty,
}
use Prim.Native.Char.{Char, code}

-- std::isspace in the "C" locale.
abbrev is_space : Char → Bool
is_space c = leb 9 (code c) && leb (code c) 13 || code c == 32

unfoldable pub skip_spaces : String → String
skip_spaces String.[] = ""
skip_spaces (String.◌∷◌ c s) =
    let rest = skip_spaces s in if is_space c then rest else String.◌∷◌ c s

unfoldable pub drop_spaces : String → String
drop_spaces String.[] = ""
drop_spaces (String.◌∷◌ c s) =
    let rest = drop_spaces s in if is_space c && is_empty rest then "" else String.◌∷◌ c rest

unfoldable pub trim_copy : String → String
unfolding skip_spaces drop_spaces
trim_copy s = drop_spaces (skip_spaces s)

abbrev extend : Char → List String → List String
extend c [] = String.◌∷◌ c "" ∷ []
extend c (token ∷ tokens) = String.◌∷◌ c token ∷ tokens

-- std::getline on commas. The empty token after a last comma, which getline does not yield, is
-- skipped with the other empty ones.
unfoldable pub tokens_of : String → List String
tokens_of String.[] = "" ∷ []
tokens_of (String.◌∷◌ c s) =
    let rest = tokens_of s in if code c == b',' then "" ∷ rest else extend c rest

-- The rest of a text that begins with another.
unfoldable pub after_prefix : String → String → Option String
after_prefix String.[] s = some s
after_prefix (String.◌∷◌ p ps) String.[] = none
after_prefix (String.◌∷◌ p ps) (String.◌∷◌ c s) =
    let rest = after_prefix ps s in if code p == code c then rest else none

abbrev named : Bool → String → Option (String × Bool)
named optional token = if is_empty token then none else some (token, optional)

unfoldable pub spec_of : String → Option (String × Bool)
unfolding trim_copy after_prefix
spec_of raw =
    let token = trim_copy raw in
    elim (after_prefix "optional:" token) [
      | none ↦ named false token
      | some rest ↦ named true (trim_copy rest)
    ]

abbrev gather : Option (String × Bool) → List (String × Bool) → List (String × Bool)
gather none specs = specs
gather (some spec) specs = spec ∷ specs

unfoldable pub specs_in : List String → List (String × Bool)
unfolding spec_of
specs_in [] = []
specs_in (token ∷ tokens) = gather (spec_of token) (specs_in tokens)

-- The text itself stands where no device is named.
unfoldable pub specs_of : String → List (String × Bool)
unfolding tokens_of specs_in
specs_of device =
    let specs = specs_in (tokens_of device) in if null specs then (device, false) ∷ [] else specs

-- Blanks and empty tokens are skipped.
two_devices : specs_of " can0 ,optional: can1,," ≡ ("can0", false) ∷ ("can1", true) ∷ []
unfolding specs_of
two_devices = refl
