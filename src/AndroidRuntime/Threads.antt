-- ===== src/AndroidRuntime/Threads.antt =====
-- Threads and start in jni/AndroidRuntime.cpp: register_jni_procs, startReg, javaThreadShell,
-- javaCreateThreadEtc, callMain, exit and start. What the VM and the system answer is an argument,
-- and what is done there is a list of events.
use learn_node.Base.{
  ℕ, suc, ◌+◌, ◌≡◌, refl, Bool, true, false, not, Option, none, some, List, [], ◌∷◌, ◌++◌, arith,
  if◌then◌else◌, length,
}
use learn_node.Status.{Status, no_error, unknown_error}
use learn_node.AndroidRuntime.Text.{Text}

-- A registration either fails, with a result below 0, or not. Of what the loop does the number of
-- calls counts.
pub register_jni_procs : List Bool → Bool × ℕ
register_jni_procs [] = (true, 0)
register_jni_procs (ok ∷ procs) =
    let (all, calls) = register_jni_procs procs in if ok then (all, suc calls) else (false, 1)

pub data Event : Type 0 where
  set_create_thread_func push_local_frame pop_local_frame : Event
  registered : ℕ → Event
  free_args attach detach free_name : Event
  run_thread : Event

-- The result is 0 or -1.
pub start_reg : List Bool → Bool × List Event
unfolding register_jni_procs
start_reg procs =
    let (ok, calls) = register_jni_procs procs in
    (ok, set_create_thread_func ∷ push_local_frame ∷ registered calls ∷ pop_local_frame ∷ [])

-- `attached` is the result of the attach, `result` that of the thread's own function.
pub java_thread_shell : Bool → ℕ → Option ℕ × List Event
java_thread_shell attached result =
    if attached
    then (some result, free_args ∷ attach ∷ run_thread ∷ detach ∷ free_name ∷ [])
    else (none, free_args ∷ attach ∷ [])

-- The JVM's answers to `callMain`: whether there is an environment, a class and a main method.
pub call_main : Bool → Bool → Bool → List Text → Status × Option (List Text)
call_main has_class has_env has_method args =
    if not has_class
    then (unknown_error, none)
    else if not has_env
    then (unknown_error, none)
    else if has_method
    then (no_error, some args)
    else (unknown_error, none)

abbrev pub all_true : List Bool → Bool
all_true [] = true
all_true (true ∷ bs) = all_true bs
all_true (false ∷ bs) = false

-- Where none of the procedures fails, all are called and the registration succeeds; and where one
-- fails behind them it is the last one called, and the registration fails, whatever follows.
pub register_jni_procs_lem :
    (before after_ : List Bool)
    → all_true before ≡ true
    → (register_jni_procs before ≡ (true, length before))
      × (register_jni_procs (before ++ false ∷ after_) ≡ (false, length before + 1))
unfolding register_jni_procs
register_jni_procs_lem [] after_ h = (refl, refl)
register_jni_procs_lem (true ∷ bs) after_ h =
    let (all, cut) = register_jni_procs_lem bs after_ h in (rw all, rw cut (ground arith))
register_jni_procs_lem (false ∷ bs) after_ h = cc
