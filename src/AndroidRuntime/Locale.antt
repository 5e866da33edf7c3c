-- ===== src/AndroidRuntime/Locale.antt =====
-- getProperty and readLocale of jni/AndroidRuntime.cpp.
use Prim.Native.String.{String}
use learn_node.Base.{◌≡◌, refl, ◌≢◌, false, List, [], ◌∷◌, ◌++◌, arith, if◌then◌else◌}
use learn_node.AndroidRuntime.Text.{Text, text, is_empty, Properties}

module _ (properties : Properties) where
  open properties use {get, fails}

  unfoldable pub get_property : String → Text → Text
  get_property key default_value = if fails key then [] else get key default_value

  -- `out = out + "-" + part`, where the part is not empty.
  with_part : Text → Text → Text
  with_part out part = if is_empty part then out else out ++ (text "-" ++ part)

  pub read_locale : Text
  unfolding get_property with_part
  read_locale =
      let locale = get_property "persist.sys.locale" [] in
      let language = get_property "persist.sys.language" [] in
      let country = get_property "persist.sys.country" [] in
      let variant = get_property "persist.sys.localevar" [] in
      let product_locale = get_property "ro.product.locale" [] in
      let product_language = get_property "ro.product.locale.language" (text "en") in
      let product_region = get_property "ro.product.locale.region" (text "US") in
      if is_empty locale
      then (if is_empty language
          then (if is_empty product_locale
              then product_language ++ (text "-" ++ product_region)
              else product_locale)
          else with_part (with_part language country) variant)
      else locale

-- The first text of a list that is not empty.
abbrev pub first_nonempty : List Text → Text
first_nonempty [] = []
first_nonempty (t ∷ ts) = if is_empty t then first_nonempty ts else t

-- A language with those of its parts that are not empty, each behind a dash.
abbrev pub dashed : Text → List Text → Text
dashed out [] = out
dashed out (t ∷ ts) = dashed (if is_empty t then out else out ++ (text "-" ++ t)) ts

is_empty-dash : (a b : Text) → is_empty (a ++ (text "-" ++ b)) ≡ false
unfolding text
is_empty-dash [] b = refl
is_empty-dash (x ∷ a) b = refl

-- readLocale gives the first of these that is not empty: persist.sys.locale; the language of
-- persist.sys with those of its country and variant that are set, if the language is; then
-- ro.product.locale; and then the product's language and region with a dash. It never gives an
-- empty locale, whatever the properties are.
pub read_locale-first :
    (p : Properties)
    → let language = get_property p "persist.sys.language" [] in
      let parts =
        get_property p "persist.sys.country" [] ∷ get_property p "persist.sys.localevar" [] ∷ [] in
      let product =
        get_property p "ro.product.locale.language" (text "en")
        ++ (text "-" ++ get_property p "ro.product.locale.region" (text "US")) in
      (read_locale p
        ≡ first_nonempty (
            get_property p "persist.sys.locale" []
            ∷ (if is_empty language then [] else dashed language parts)
            ∷ get_property p "ro.product.locale" []
            ∷ product
            ∷ []))
      × (read_locale p ≢ [])
unfolding read_locale
read_locale-first p =
    let language = get_property p "persist.sys.language" [] in
    let country = get_property p "persist.sys.country" [] in
    let variant = get_property p "persist.sys.localevar" [] in
    let lc = is_empty-dash language country in
    let lv = is_empty-dash language variant in
    let lcv = is_empty-dash (language ++ (text "-" ++ country)) variant in
    let product =
      is_empty-dash (get_property p "ro.product.locale.language" (text "en"))
        (get_property p "ro.product.locale.region" (text "US")) in
    (ground arith, ground arith)
