-- ===== src/AndroidRuntime/Options.antt =====
-- The options of the VM in jni/AndroidRuntime.cpp: addOption and the functions that make options of
-- properties. A function gives the options that it adds at the end of mOptions, in order. The
-- buffers that the options point into are distinct, so an option is its text.
pub mod Words
use Prim.Native.String.{String}
use learn_node.Base.{
  ℕ, zero, suc, ◌+◌, Bool, true, false, not, Option, none, some, List, [], ◌∷◌, ◌++◌, ◌==◌,
  if◌then◌else◌, length,
}
use learn_node.AndroidRuntime.Text.{Text, text, is_empty, Properties}

-- The hooks that `addOption` passes as extra information.
pub data Hook : Type 0 where
  runtime_exit runtime_vfprintf runtime_is_sensitive_thread : Hook

pub record JavaVmOption : Type 0 where
  pub option_string : Text
  pub extra_info : Option Hook

abbrev pub add_option : Text → List JavaVmOption
add_option s = record { option_string = s; extra_info = none } ∷ []

abbrev pub add_hook : Text → Hook → List JavaVmOption
add_hook s h = record { option_string = s; extra_info = some h } ∷ []

-- `while (*start == ' ') start++;`
pub skip_spaces : Text → Text
skip_spaces [] = []
skip_spaces (c ∷ cs) = let rest = skip_spaces cs in if c == b' ' then rest else c ∷ cs

-- `while (*end != ' ' && *end != '\0') end++;` The token, and what stands behind the blank that
-- ends it.
pub take_token : Text → Text × Text
take_token [] = ([], [])
take_token (c ∷ cs) =
    let (token, rest) = take_token cs in if c == b' ' then ([], cs) else (c ∷ token, rest)

abbrev pub quote : Option Text → List JavaVmOption
quote none = []
quote (some q) = add_option q

-- The loop of `parseExtraOpts`, a round for each unit of fuel. The first byte of a token is not
-- looked at again. `none` is the end of the fuel.
pub extra_opts_loop : ℕ → Option Text → Text → Option (List JavaVmOption)
unfolding skip_spaces take_token
extra_opts_loop zero quoting start = none
extra_opts_loop (suc fuel) quoting start = elim (skip_spaces start) [
  | [] ↦ some []
  | c ∷ cs ↦
      let (token, end) = take_token cs in
      elim (extra_opts_loop fuel quoting end) [
        | none ↦ none
        | some opts ↦ some (quote quoting ++ add_option (c ∷ token) ++ opts)
      ]
]

-- A round consumes at least one byte.
pub parse_extra_opts : Text → Option Text → Option (List JavaVmOption)
unfolding extra_opts_loop
parse_extra_opts buffer quoting = extra_opts_loop (suc (length buffer)) quoting buffer

module _ (properties : Properties) where
  open properties use {get}

  unfoldable pub parse_runtime_option : String → Text → Text → Bool × List JavaVmOption
  parse_runtime_option property runtime_arg default_arg =
      let value = get property default_arg in
      if is_empty value then (false, []) else (true, add_option (runtime_arg ++ value))

  unfoldable pub parse_compiler_option : String → Text → Text → Bool × List JavaVmOption
  parse_compiler_option property compiler_arg quoting_arg =
      let value = get property [] in
      if is_empty value
      then (false, [])
      else (true, add_option quoting_arg ++ add_option (compiler_arg ++ value))

  unfoldable pub parse_compiler_runtime_option : String → Text → Text → Bool × List JavaVmOption
  parse_compiler_runtime_option property runtime_arg quoting_arg =
      let value = get property [] in
      if is_empty value then (false, []) else (
        true,
        add_option quoting_arg
            ++ add_option (text "--runtime-arg")
            ++ add_option quoting_arg
            ++ add_option (runtime_arg ++ value),
      )
