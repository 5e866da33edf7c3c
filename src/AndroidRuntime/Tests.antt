-- ===== src/AndroidRuntime/Tests.antt =====
-- Tests of the model of jni/AndroidRuntime.cpp, and its theorems at concrete devices and texts.
use package.text.Mathlib.Text.{◌==◌ as str_eq}
use learn_node.Base.{
  ℕ, ◌≤◌, ◌+◌, ◌≡◌, ◌≢◌, ◌↔◌, true, false, if◌then◌else◌, ◌&&◌, some, List, [], ◌∷◌, ◌++◌, length,
  replicate, suc, arith,
}
use learn_node.AndroidRuntime.Text.{text, Properties}
use learn_node.AndroidRuntime.Options.{
  JavaVmOption, add_option, parse_extra_opts, parse_runtime_option,
}
use learn_node.AndroidRuntime.Options.Words.{parse_extra_opts-words}
use learn_node.AndroidRuntime.Locale.{get_property, read_locale, first_nonempty, read_locale-first}
use learn_node.AndroidRuntime.StartVm.{Device, VmResult, started, abi_list, start_vm, locale_option}
use learn_node.AndroidRuntime.StartVm.Outcome.{AllFit, start_vm-outcome, options-fit}
use learn_node.AndroidRuntime.Names.{thread_name, set_argv0, take, set_argv0-fits}
use learn_node.AndroidRuntime.Start.{System, start, main_calls, destroyed, runs, start-main_calls}

abbrev properties : Properties
properties = record {
  get = λ key default_value. if str_eq key "persist.sys.language" then text "de" else default_value;
  fails = λ key. false;
}

abbrev device : Device
device = record {
  properties = properties;
  has_file = λ path. true;
  instruction_set = "arm";
  lp64 = false;
}

parse_extra_opts-words_example :
    parse_extra_opts (text " -a  -b ") (some (text "-q"))
    ≡ some (
        add_option (text "-q")
        ++ add_option (text "-a")
        ++ add_option (text "-q")
        ++ add_option (text "-b"))
unfolding text
parse_extra_opts-words_example = parse_extra_opts-words (text " -a  -b ") (some (text "-q"))

read_locale-first_example :
    (read_locale properties ≡ first_nonempty ([] ∷ text "de" ∷ [] ∷ text "en-US" ∷ []))
    × (read_locale properties ≢ [])
unfolding get_property text
read_locale-first_example = read_locale-first properties

start_vm-outcome_example :
    (r : VmResult) × (added : List JavaVmOption) × (start_vm device (λ opts. true) true []
      ≡ some (r, added))
    × ((r ≡ started) ↔ ((true ≡ true) × (abi_list device ≢ []) × (true ≡ true)))
start_vm-outcome_example = start_vm-outcome device (λ opts. true) true []

abbrev plain_properties : Properties
plain_properties = record { get = λ key default_value. []; fails = λ key. false }

abbrev plain_device : Device
plain_device = record device { properties = plain_properties }

options-fit_example :
    (length (locale_option plain_device) + 1 ≤ (length (text "-Duser.locale=") + 1) + 92)
    × AllFit
        (length (text "-Xms") + 92)
        (parse_runtime_option plain_properties "dalvik.vm.heapstartsize"
          (text "-Xms")
          (text "4m")).1
options-fit_example =
    options-fit plain_device "dalvik.vm.heapstartsize" (text "-Xms") (text "4m")
      (λ key default_value. omega arith)

set_argv0-fits_example :
    let (name, block) = set_argv0 true 6 (text "com.android.systemui") in
    (name ≡ some (thread_name (text "com.android.systemui")))
    × (length (thread_name (text "com.android.systemui")) ≤ 15)
    × (20 ≤ 15 → thread_name (text "com.android.systemui") ≡ text "com.android.systemui")
    × (take 5 (text "com.android.systemui") ++ thread_name (text "com.android.systemui")
        ≡ text "com.android.systemui")
    × (length block ≡ 6)
    × ((k : ℕ) × (block ≡ take 5 (text "com.android.systemui") ++ replicate (suc k) 0))
unfolding text
set_argv0-fits_example = set_argv0-fits 5 (text "com.android.systemui")

-- ANDROID_ROOT is not set, but /system is there.
abbrev system : System
system = record {
  root = false;
  has_system = true;
  device = device;
  create = λ opts. true;
  options = [];
  registers = true ∷ true ∷ [];
  has_class = λ name. true;
  has_main = λ name. true;
}

abbrev zygote_init : List ℕ
zygote_init = text "com.android.internal.os.ZygoteInit"

start-main_calls_example :
    (main_calls (start system true zygote_init (text "start-system-server" ∷ [])) ≡ (
      if runs system true && (true && true)
      then (zygote_init ∷ text "start-system-server" ∷ []) ∷ []
      else []))
    × (destroyed (start system true zygote_init (text "start-system-server" ∷ []))
        ≡ runs system true)
start-main_calls_example =
    start-main_calls system true zygote_init (text "start-system-server" ∷ [])
