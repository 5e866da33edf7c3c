-- ===== src/AndroidRuntime/Start.antt =====
-- start and exit of jni/AndroidRuntime.cpp. What the system and the VM answer is an argument, and what
-- is done there is a list of events; the natives that startReg registers are in Threads.
use learn_node.Base.{
  ℕ, ◌≡◌, refl, ◌∙◌, Bool, true, false, ◌&&◌, ◌||◌, Option, none, some, List, [], ◌∷◌, ◌++◌,
  if◌then◌else◌, arith,
}
use learn_node.AndroidRuntime.Text.{Text, text, text_eq}
use learn_node.AndroidRuntime.Options.{JavaVmOption}
use learn_node.AndroidRuntime.StartVm.{Device, VmResult, started, failed, start_vm}
use learn_node.AndroidRuntime.Threads.{start_reg}
use learn_node.AndroidRuntime.Names.{to_slash_class_name}

pub data StartEvent : Type 0 where
  log_boot_progress set_root vm_created detach_main destroy_vm : StartEvent
  find_class : Text → StartEvent
  call_static_main : List Text → StartEvent

-- `root` says whether ANDROID_ROOT is set, `has_system` whether /system is a directory, `registers`
-- which registrations succeed, `has_class` and `has_main` what the VM finds.
pub record System : Type 0 where
  pub root : Bool
  pub has_system : Bool
  pub device : Device
  pub create : List JavaVmOption → Bool
  pub options : List JavaVmOption
  pub registers : List Bool
  pub has_class : Text → Bool
  pub has_main : Text → Bool

boot_events : List Text → List StartEvent
unfolding text
boot_events [] = []
boot_events (o ∷ os) =
    let rest = boot_events os in
    if text_eq o (text "start-system-server") then log_boot_progress ∷ rest else rest

pub vm_started : Option (VmResult × List JavaVmOption) → Bool
vm_started (some (started, opts)) = true
vm_started (some (failed, opts)) = false
vm_started none = false

-- The call of main, if the class and the method are there.
main_events : System → Text → List Text → List StartEvent
main_events w class_name options =
    let slashed = to_slash_class_name class_name in
    find_class slashed
    ∷ (if w.has_class slashed
        then (if w.has_main slashed then call_static_main (class_name ∷ options) ∷ [] else [])
        else [])

-- From the creation of the VM on.
run_events : System → Bool → Text → List Text → List StartEvent
unfolding vm_started main_events
run_events w zygote class_name options =
    if vm_started (start_vm w.device w.create zygote w.options)
    then vm_created
      ∷ (if (start_reg w.registers).0
          then main_events w class_name options ++ detach_main ∷ destroy_vm ∷ []
          else [])
    else []

pub start : System → Bool → Text → List Text → List StartEvent
unfolding boot_events run_events
start w zygote class_name options =
    boot_events options
    ++ (if w.root
        then run_events w zygote class_name options
        else if w.has_system
        then set_root ∷ run_events w zygote class_name options
        else [])

pub data ExitEvent : Type 0 where
  on_exit exit_process exit_without_cleanup : ℕ → ExitEvent

pub exit : Bool → ℕ → List ExitEvent
exit without_cleanup code =
    if without_cleanup
    then exit_without_cleanup code ∷ []
    else on_exit code ∷ exit_process code ∷ []

-- The arguments of the calls of main, and whether the VM was destroyed.
abbrev pub main_calls : List StartEvent → List (List Text)
main_calls [] = []
main_calls (call_static_main args ∷ es) = args ∷ main_calls es
main_calls (e ∷ es) = main_calls es

abbrev pub destroyed : List StartEvent → Bool
destroyed [] = false
destroyed (destroy_vm ∷ es) = true
destroyed (e ∷ es) = destroyed es

boot-silent :
    (options : List Text) (es : List StartEvent)
    → (main_calls (boot_events options ++ es) ≡ main_calls es)
      × (destroyed (boot_events options ++ es) ≡ destroyed es)
unfolding boot_events
boot-silent [] es = (refl, refl)
boot-silent (o ∷ os) es =
    let (calls, ends) = boot-silent os es in (ground (arith, calls), ground (arith, ends))

-- The VM runs: it was created and the natives are registered.
abbrev pub runs : System → Bool → Bool
runs w zygote =
    (w.root || w.has_system)
    && (vm_started (start_vm w.device w.create zygote w.options) && (start_reg w.registers).0)

main_events-calls :
    (w : System) (class_name : Text) (options : List Text)
    → (main_calls (main_events w class_name options ++ detach_main ∷ destroy_vm ∷ []) ≡ (
        if w.has_class (to_slash_class_name class_name)
          && w.has_main (to_slash_class_name class_name)
        then (class_name ∷ options) ∷ []
        else []))
      × (destroyed (main_events w class_name options ++ detach_main ∷ destroy_vm ∷ []) ≡ true)
unfolding main_events
main_events-calls w class_name options =
    cases (w.has_class (to_slash_class_name class_name))
      (w.has_main (to_slash_class_name class_name))
  where
    cases :
        (c m : Bool)
        → (main_calls (
              (find_class (to_slash_class_name class_name)
                ∷ (if c
                    then (if m then call_static_main (class_name ∷ options) ∷ [] else [])
                    else []))
              ++ detach_main ∷ destroy_vm ∷ [])
            ≡ (if c && m then (class_name ∷ options) ∷ [] else []))
          × (destroyed (
                (find_class (to_slash_class_name class_name)
                  ∷ (if c
                      then (if m then call_static_main (class_name ∷ options) ∷ [] else [])
                      else []))
                ++ detach_main ∷ destroy_vm ∷ [])
              ≡ true)
    cases true true = (refl, refl)
    cases true false = (refl, refl)
    cases false true = (refl, refl)
    cases false false = (refl, refl)

-- What is behind the two tests of run_events, and behind those for the root directory.
run_gate :
    (v r p : Bool) (es : List StartEvent) (calls : List (List Text))
    → main_calls es ≡ (if p then calls else [])
    → destroyed es ≡ true
    → (main_calls (if v then vm_created ∷ (if r then es else []) else [])
        ≡ (if (v && r) && p then calls else []))
      × (destroyed (if v then vm_created ∷ (if r then es else []) else []) ≡ v && r)
run_gate true true p es calls h k = (h, k)
run_gate true false p es calls h k = (refl, refl)
run_gate false true p es calls h k = (refl, refl)
run_gate false false p es calls h k = (refl, refl)

root_gate :
    (root sys q p : Bool) (es : List StartEvent) (calls : List (List Text))
    → main_calls es ≡ (if q && p then calls else [])
    → destroyed es ≡ q
    → (main_calls (if root then es else if sys then set_root ∷ es else [])
        ≡ (if ((root || sys) && q) && p then calls else []))
      × (destroyed (if root then es else if sys then set_root ∷ es else []) ≡ (root || sys) && q)
root_gate true sys q p es calls h k = (h, k)
root_gate false true q p es calls h k = (h, k)
root_gate false false q p es calls h k = (refl, refl)

run_events-calls :
    (w : System) (zygote : Bool) (class_name : Text) (options : List Text)
    → (main_calls (run_events w zygote class_name options) ≡ (
        if (vm_started (start_vm w.device w.create zygote w.options) && (start_reg w.registers).0)
          && (w.has_class (to_slash_class_name class_name)
              && w.has_main (to_slash_class_name class_name))
        then (class_name ∷ options) ∷ []
        else []))
      × (destroyed (run_events w zygote class_name options)
          ≡ vm_started (start_vm w.device w.create zygote w.options) && (start_reg w.registers).0)
unfolding run_events
run_events-calls w zygote class_name options =
    let (calls, ends) = main_events-calls w class_name options in
    run_gate (vm_started (start_vm w.device w.create zygote w.options)) (start_reg w.registers).0
      (w.has_class (to_slash_class_name class_name) && w.has_main (to_slash_class_name class_name))
      (main_events w class_name options ++ detach_main ∷ destroy_vm ∷ [])
      ((class_name ∷ options) ∷ []) calls ends

-- start calls main once, with the class name and the options as they came, if ANDROID_ROOT is set or
-- /system is a directory, startVm succeeds, all natives are registered, and the class by its name with
-- slashes and its main are found; else it never calls main. It destroys the VM exactly if all but the
-- last two of these hold, so also where the class or its main is missing.
pub start-main_calls :
    (w : System) (zygote : Bool) (class_name : Text) (options : List Text)
    → (main_calls (start w zygote class_name options) ≡ (
        if runs w zygote
          && (w.has_class (to_slash_class_name class_name)
              && w.has_main (to_slash_class_name class_name))
        then (class_name ∷ options) ∷ []
        else []))
      × (destroyed (start w zygote class_name options) ≡ runs w zygote)
unfolding start
start-main_calls w zygote class_name options =
    let (calls, ends) = boot-silent options (
      if w.root
      then run_events w zygote class_name options
      else if w.has_system
      then set_root ∷ run_events w zygote class_name options
      else []) in
    let (ran, over) = run_events-calls w zygote class_name options in
    let (called, ended) =
      root_gate w.root w.has_system
        (vm_started (start_vm w.device w.create zygote w.options) && (start_reg w.registers).0)
        (w.has_class (to_slash_class_name class_name)
          && w.has_main (to_slash_class_name class_name))
        (run_events w zygote class_name options) ((class_name ∷ options) ∷ []) ran over in
    (calls ∙ called, ends ∙ ended)
