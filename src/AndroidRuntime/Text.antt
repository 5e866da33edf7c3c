-- ===== src/AndroidRuntime/Text.antt =====
-- C strings, as their bytes before the null byte; and the system properties.
use Prim.Native.Char.{code}
use Prim.Native.String.{String}
use learn_node.Base.{ℕ, Bool, true, false, ◌&&◌, List, [], ◌∷◌, ◌==◌}

abbrev pub Text : Type 0
Text = List ℕ

-- The bytes of a literal, which is ASCII.
unfoldable pub text : String → Text
text String.[] = []
text (String.◌∷◌ c s) = code c ∷ text s

-- `strcmp(a, b) == 0`
unfoldable pub text_eq : Text → Text → Bool
text_eq [] [] = true
text_eq [] (b ∷ bs) = false
text_eq (a ∷ as') [] = false
text_eq (a ∷ as') (b ∷ bs) = a == b && text_eq as' bs

abbrev pub is_empty : Text → Bool
is_empty [] = true
is_empty (c ∷ cs) = false

-- `s[0] == c`, for a `c` that is not null.
abbrev pub first_is : ℕ → Text → Bool
first_is c [] = false
first_is c (b ∷ bs) = b == c

-- What `property_get(key, buffer, default)` leaves in the buffer, and whether it returns a length
-- below 0.
pub record Properties : Type 0 where
  pub get : String → Text → Text
  pub fails : String → Bool
