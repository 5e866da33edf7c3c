-- ===== src/AndroidRuntime/StartVm/Outcome.antt =====
-- What startVm of jni/AndroidRuntime.cpp comes to on every device, and what fits into its buffers.
use Prim.Native.String.{String}
use learn_node.Base.{
  ℕ, zero, suc, ◌+◌, ◌≤◌, ◌≡◌, refl, ◌↔◌, ◌≢◌, inl, inr, Bool, true, false, none, some, List, [],
  ◌∷◌, ◌++◌, length, length-append, append_assoc, arith, Bool-cases,
}
use learn_node.AndroidRuntime.Text.{Text, text, is_empty}
use learn_node.AndroidRuntime.Options.{JavaVmOption, add_option, parse_runtime_option}
use learn_node.AndroidRuntime.Options.Words.{quoted, words, parse_extra_opts-words}
use learn_node.AndroidRuntime.Locale.{read_locale}
use learn_node.AndroidRuntime.StartVm.{
  Device, VmResult, started, failed, first_options, middle_options, abi_list, last_options,
  start_vm, locale_option, take, property_value_max, class_options, loader_options, isa_options,
  trace_options, bridge_options, image, compiler,
}

abbrev middle : Device → List JavaVmOption
middle d =
    class_options d
    ++ quoted (some image) (words (d.get "dalvik.vm.image-dex2oat-flags" []))
    ++ loader_options d
    ++ isa_options d
    ++ quoted (some compiler) (words (d.get "dalvik.vm.dex2oat-flags" []))
    ++ quoted none (words (d.get "dalvik.vm.extra-opts" []))
    ++ add_option (locale_option d)
    ++ trace_options d
    ++ bridge_options d

middle_options_lem : (d : Device) → middle_options d ≡ some (middle d)
unfolding middle_options
middle_options_lem d = simp parse_extra_opts-words

is_empty-eq-nil : (s : Text) → is_empty s ≡ true → s ≡ []
is_empty-eq-nil [] e = refl
is_empty-eq-nil (c ∷ s) e = cc

nonempty-ne-nil : (s : Text) → is_empty s ≡ false → s ≢ []
nonempty-ne-nil [] e z = cc
nonempty-ne-nil (c ∷ s) e z = cc

-- On every device startVm returns. It only adds options behind those that were there. It succeeds
-- exactly if the file of preloaded classes is there, the list of ABIs is not empty, and the VM can
-- be created from the very options that mOptions then holds.
pub start_vm-outcome :
    (d : Device) (create : List JavaVmOption → Bool) (zygote : Bool) (opts : List JavaVmOption)
    → (r : VmResult) × (added : List JavaVmOption) × (start_vm d create zygote opts
        ≡ some (r, opts ++ added))
      × ((r ≡ started) ↔ (
          (d.has_file "/system/etc/preloaded-classes" ≡ true)
          × (abi_list d ≢ [])
          × (create (opts ++ added) ≡ true)))
unfolding start_vm
start_vm-outcome d create zygote opts =
    elim (Bool-cases (d.has_file "/system/etc/preloaded-classes")) [
      | inr missing ↦ (failed, first, rw missing, ((λ e. cc), (λ h. cc (h.0, missing))))
      | inl there ↦ elim (Bool-cases (is_empty (abi_list d))) [
        | inl empty ↦ (
          failed,
          first ++ middle d,
          rw (there, middle_options_lem d, empty)
              (ground (arith, append_assoc opts first (middle d))),
          ((λ e. cc), (λ h. absurd (h.1 (is_empty-eq-nil (abi_list d) empty)))),
        )
        | inr abis ↦
            let full = first ++ middle d ++ last_options d in
            let same : opts ++ first ++ middle d ++ last_options d ≡ opts ++ full =
              simp append_assoc in
            elim (Bool-cases (create (opts ++ full))) [
              | inl made ↦ (
                started,
                full,
                rw (there, middle_options_lem d, abis, same, made),
                ((λ e. (there, nonempty-ne-nil (abi_list d) abis, made)), (λ h. refl)),
              )
              | inr refused ↦ (
                failed,
                full,
                rw (there, middle_options_lem d, abis, same, refused),
                ((λ e. cc), (λ h. cc (h.2, refused))),
              )
            ]
      ]
    ]
  where
    first : List JavaVmOption
    first = first_options d zygote

length-take : (n : ℕ) (s : Text) → length (take n s) ≤ n
length-take zero s = omega arith
length-take (suc n) [] = omega arith
length-take (suc n) (c ∷ s) = omega (arith, length-take n s)

-- Every option string of a list is shorter than a buffer.
abbrev pub AllFit : ℕ → List JavaVmOption → Type 0
AllFit size [] = Unit {0}
AllFit size (o ∷ os) = (length o.option_string + 1 ≤ size) × AllFit size os

-- The buffer of the locale option, sizeof("-Duser.locale=") + PROPERTY_VALUE_MAX bytes, holds the
-- option with its null byte, however long the locale is that the properties make up. A buffer of
-- sizeof(prefix) - 1 + PROPERTY_VALUE_MAX bytes holds what parseRuntimeOption writes into it, if no
-- property is longer than PROPERTY_VALUE_MAX - 1 bytes, which property_get promises.
pub options-fit :
    (d : Device) (property : String) (prefix default_arg : Text)
    → ((key : String) (default_value : Text)
        → length (d.get key default_value) + 1 ≤ property_value_max)
    → (length (locale_option d) + 1 ≤ (length (text "-Duser.locale=") + 1) + property_value_max)
      × AllFit
          (length prefix + property_value_max)
          (parse_runtime_option d.properties property prefix default_arg).1
unfolding locale_option parse_runtime_option
options-fit d property prefix default_arg short = (
  omega (
    arith,
    length-append (text "-Duser.locale=") (take property_value_max (read_locale d.properties)),
    length-take property_value_max (read_locale d.properties),
  ),
  ground (arith, length-append prefix (d.get property default_arg), short property default_arg),
)
