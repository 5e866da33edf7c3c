-- ===== src/AndroidRuntime/StartVm.antt =====
-- AndroidRuntime::startVm of jni/AndroidRuntime.cpp: the options of the VM, from the properties and
-- the files of the device. The parts follow the source from its top to its end.
pub mod Outcome
use Prim.Native.String.{String, ◌++◌ as str_append}
use learn_node.Base.{
  ℕ, zero, suc, ◌+◌, ◌≡◌, refl, Bool, true, false, ◌&&◌, ◌||◌, Option, none, some, List, [], ◌∷◌,
  ◌++◌, ◌==◌, if◌then◌else◌, length, arith, ◌>>=◌,
}
use learn_node.AndroidRuntime.Text.{Text, text, text_eq, is_empty, first_is, Properties}
use learn_node.AndroidRuntime.Options.{
  Hook, runtime_exit, runtime_vfprintf, runtime_is_sensitive_thread, JavaVmOption, add_option,
  add_hook, parse_extra_opts, parse_runtime_option, parse_compiler_option,
  parse_compiler_runtime_option,
}
use learn_node.AndroidRuntime.Locale.{read_locale}

-- The device: its properties, its regular files, and how the runtime was built.
pub record Device : Type 0 where
  pub properties : Properties
  pub open properties use *
  pub has_file : String → Bool
  pub instruction_set : String
  pub lp64 : Bool

-- `PROPERTY_VALUE_MAX`
abbrev pub property_value_max : ℕ
property_value_max = 92

abbrev pub take : ℕ → Text → Text
take zero s = []
take (suc n) [] = []
take (suc n) (c ∷ s) = c ∷ take n s

abbrev add_if : Bool → Text → List JavaVmOption
add_if test s = if test then add_option s else []

abbrev image : Text
image = text "-Ximage-compiler-option"

abbrev compiler : Text
compiler = text "-Xcompiler-option"

pub data ExecutionMode : Type 0 where
  em_default em_int_portable em_int_fast em_jit_compiler : ExecutionMode

pub mode_option : ExecutionMode → List JavaVmOption
mode_option em_default = []
mode_option em_int_portable = add_option (text "-Xint:portable")
mode_option em_int_fast = add_option (text "-Xint:fast")
mode_option em_jit_compiler = add_option (text "-Xint:jit")

module _ (d : Device) where
  abbrev is : String → Text → Text → Bool
  is key default_value s = text_eq (d.get key default_value) s

  abbrev runtime : String → Text → Text → List JavaVmOption
  runtime property arg default_arg = (parse_runtime_option d.properties property arg default_arg).1

  abbrev compile : String → Text → Text → List JavaVmOption
  compile property arg quoting = (parse_compiler_option d.properties property arg quoting).1

  abbrev compile_runtime : String → Text → Text → List JavaVmOption
  compile_runtime property arg quoting =
      (parse_compiler_runtime_option d.properties property arg quoting).1

  abbrev extra : String → Option Text → Option (List JavaVmOption)
  extra property quoting = parse_extra_opts (d.get property []) quoting

  pub check_jni : Bool
  check_jni =
      if is "dalvik.vm.checkjni" [] (text "true")
      then true
      else if is "dalvik.vm.checkjni" [] (text "false")
      then false
      else first_is b'1' (d.get "ro.kernel.android.checkjni" [])

  pub execution_mode : ExecutionMode
  execution_mode =
      if is "dalvik.vm.execution-mode" [] (text "int:portable")
      then em_int_portable
      else if is "dalvik.vm.execution-mode" [] (text "int:fast")
      then em_int_fast
      else if is "dalvik.vm.execution-mode" [] (text "int:jit")
      then em_jit_compiler
      else em_default

  -- Up to the options of the heap.
  pub hook_options : List JavaVmOption
  unfolding check_jni
  hook_options =
      add_if check_jni (text "-Xcheck:jni")
      ++ runtime "dalvik.vm.stack-trace-file" (text "-Xstacktracefile:") []
      ++ runtime "dalvik.vm.jniopts" (text "-Xjniopts:") []
      ++ add_hook (text "exit") runtime_exit
      ++ add_hook (text "vfprintf") runtime_vfprintf
      ++ add_hook (text "sensitiveThread") runtime_is_sensitive_thread
      ++ add_option (text "-verbose:gc")

  pub heap_options : List JavaVmOption
  heap_options =
      runtime "dalvik.vm.heapstartsize" (text "-Xms") (text "4m")
      ++ runtime "dalvik.vm.heapsize" (text "-Xmx") (text "16m")
      ++ runtime "dalvik.vm.heapgrowthlimit" (text "-XX:HeapGrowthLimit=") []
      ++ runtime "dalvik.vm.heapminfree" (text "-XX:HeapMinFree=") []
      ++ runtime "dalvik.vm.heapmaxfree" (text "-XX:HeapMaxFree=") []
      ++ runtime "dalvik.vm.heaptargetutilization" (text "-XX:HeapTargetUtilization=") []

  pub jit_options : List JavaVmOption
  jit_options =
      runtime "dalvik.vm.usejit" (text "-Xusejit:") []
      ++ runtime "dalvik.vm.jitmaxsize" (text "-Xjitmaxsize:") []
      ++ runtime "dalvik.vm.jitinitialsize" (text "-Xjitinitialsize:") []
      ++ runtime "dalvik.vm.jitthreshold" (text "-Xjitthreshold:") []
      ++ add_if (is "dalvik.vm.usejitprofiles" [] (text "true")) (text "-Xjitsaveprofilinginfo")
      ++ runtime "dalvik.vm.jitprithreadweight" (text "-Xjitprithreadweight:") []
      ++ runtime "dalvik.vm.jittransitionweight" (text "-Xjittransitionweight:") []

  pub mode_options : Bool → List JavaVmOption
  unfolding mode_option execution_mode
  mode_options zygote =
      add_if (is "ro.config.low_ram" [] (text "true")) (text "-XX:LowMemoryMode")
      ++ runtime "dalvik.vm.gctype" (text "-Xgc:") []
      ++ runtime "dalvik.vm.backgroundgctype" (text "-XX:BackgroundGC=") []
      ++ add_if zygote (text "-agentlib:jdwp=transport=dt_android_adb,suspend=n,server=y")
      ++ runtime "dalvik.vm.lockprof.threshold" (text "-Xlockprofthreshold:") []
      ++ mode_option execution_mode

  -- Booting without the real /data.
  pub skip_compilation : Bool
  skip_compilation =
      is "vold.decrypt" [] (text "trigger_restart_min_framework") || is "vold.decrypt" [] (text "1")

  pub image_options : List JavaVmOption
  unfolding skip_compilation
  image_options =
      compile_runtime "dalvik.vm.image-dex2oat-Xms" (text "-Xms") image
      ++ compile_runtime "dalvik.vm.image-dex2oat-Xmx" (text "-Xmx") image
      ++ (if skip_compilation
          then add_option image ++ add_option (text "--compiler-filter=assume-verified")
          else compile "dalvik.vm.image-dex2oat-filter" (text "--compiler-filter=") image)

  -- From the file of preloaded classes, which must be there, to the flags of the boot image.
  pub class_options : List JavaVmOption
  class_options =
      add_option image
      ++ add_option (text "--image-classes=/system/etc/preloaded-classes")
      ++ (if d.has_file "/system/etc/compiled-classes"
          then add_option image
            ++ add_option (text "--compiled-classes=/system/etc/compiled-classes")
          else [])

  pub loader_options : List JavaVmOption
  unfolding skip_compilation
  loader_options =
      compile_runtime "dalvik.vm.dex2oat-Xms" (text "-Xms") compiler
      ++ compile_runtime "dalvik.vm.dex2oat-Xmx" (text "-Xmx") compiler
      ++ (if skip_compilation
          then add_option compiler
            ++ add_option (text "--compiler-filter=assume-verified")
            ++ add_option (text "--runtime-arg")
            ++ add_option (text "-Xnorelocate")
          else compile "dalvik.vm.dex2oat-filter" (text "--compiler-filter=") compiler)
      ++ compile "dalvik.vm.dex2oat-threads" (text "-j") compiler
      ++ compile "dalvik.vm.image-dex2oat-threads" (text "-j") image

  abbrev isa_key : String → String
  isa_key item = str_append "dalvik.vm.isa." (str_append d.instruction_set item)

  pub isa_options : List JavaVmOption
  isa_options =
      compile (isa_key ".variant") (text "--instruction-set-variant=") image
      ++ compile (isa_key ".variant") (text "--instruction-set-variant=") compiler
      ++ compile (isa_key ".features") (text "--instruction-set-features=") image
      ++ compile (isa_key ".features") (text "--instruction-set-features=") compiler

  -- `strncat` takes at most PROPERTY_VALUE_MAX bytes of the locale.
  pub locale_option : Text
  locale_option = text "-Duser.locale=" ++ take property_value_max (read_locale d.properties)

  pub trace_options : List JavaVmOption
  trace_options =
      if is "ro.debuggable" (text "0") (text "1")
        && is "dalvik.vm.method-trace" (text "false") (text "true")
      then add_option (text "-Xmethod-trace")
        ++ runtime "dalvik.vm.method-trace-file" (text "-Xmethod-trace-file:") []
        ++ runtime "dalvik.vm.method-trace-file-siz" (text "-Xmethod-trace-file-size:") []
        ++ add_if (is "dalvik.vm.method-trace-stream" (text "false") (text "true"))
            (text "-Xmethod-trace-stream")
      else []

  pub bridge_options : List JavaVmOption
  bridge_options =
      let bridge = d.get "ro.dalvik.vm.native.bridge" [] in
      if is_empty bridge
      then []
      else if text_eq bridge (text "0")
      then []
      else add_option (text "-XX:NativeBridge=" ++ bridge)

  pub abi_list : Text
  abi_list = d.get (if d.lp64 then "ro.product.cpu.abilist64" else "ro.product.cpu.abilist32") []

  pub last_options : List JavaVmOption
  last_options =
      add_option (text "--cpu-abilist=" ++ abi_list)
      ++ runtime "dalvik.vm.zygote.max-boot-retry" (text "-Xzygote-max-boot-retry=") []
      ++ (if is "debug.generate-debug-info" [] (text "true")
          then add_option compiler
            ++ add_option (text "--generate-debug-info")
            ++ add_option image
            ++ add_option (text "--generate-debug-info")
          else [])
      ++ runtime "ro.build.fingerprint" (text "-Xfingerprint:") []

-- The result of `startVm` and the options that mOptions holds then. `none` stands for an option
-- loop that runs out of fuel.
pub data VmResult : Type 0 where
  started failed : VmResult

-- The options between the two early returns.
pub middle_options : Device → Option (List JavaVmOption)
unfolding class_options loader_options isa_options locale_option trace_options bridge_options
middle_options d = do
  image_flags ← extra d "dalvik.vm.image-dex2oat-flags" (some image)
  flags ← extra d "dalvik.vm.dex2oat-flags" (some compiler)
  extras ← extra d "dalvik.vm.extra-opts" none
  some (
      class_options d
      ++ image_flags
      ++ loader_options d
      ++ isa_options d
      ++ flags
      ++ extras
      ++ add_option (locale_option d)
      ++ trace_options d
      ++ bridge_options d)

pub first_options : Device → Bool → List JavaVmOption
unfolding hook_options heap_options jit_options mode_options image_options
first_options d zygote =
    hook_options d ++ heap_options d ++ jit_options d ++ mode_options d zygote ++ image_options d

-- `create` is JNI_CreateJavaVM, which sees the options and may refuse.
create_vm : (List JavaVmOption → Bool) → List JavaVmOption → VmResult × List JavaVmOption
create_vm create opts = (if create opts then started else failed, opts)

pub start_vm :
    Device
    → (List JavaVmOption → Bool)
    → Bool
    → List JavaVmOption
    → Option (VmResult × List JavaVmOption)
unfolding first_options middle_options abi_list last_options create_vm
start_vm d create zygote opts =
    let before = opts ++ first_options d zygote in
    if d.has_file "/system/etc/preloaded-classes"
    then (middle_options d >>= λ middle. some (
        if is_empty (abi_list d)
        then (failed, before ++ middle)
        else create_vm create (before ++ middle ++ last_options d)))
    else some (failed, before)
