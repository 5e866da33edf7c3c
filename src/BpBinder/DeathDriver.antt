-- ===== src/BpBinder/DeathDriver.antt =====
-- The death notification of a proxy as driver/binder.c keeps it: one cookie for each reference, set
-- by BC_REQUEST_DEATH_NOTIFICATION and taken away by BC_CLEAR_DEATH_NOTIFICATION. The driver
-- refuses a request where a cookie is set, and a clear where none is set or where it is another.
use learn_node.Base.{
  ℕ, ◌≡◌, refl, ◌∙◌, inl, inr, Bool, true, Option, none, some, List, [], ◌∷◌, ◌++◌, arith, ◌==◌,
  if◌then◌else◌, is_some, Option-cases, map,
}
use learn_node.Status.{Status}
use learn_node.IpcCall.{IpcCall, request_death_notification, clear_death_notification}
use learn_node.BpBinder.Objects.{Cleanup, kill}
use learn_node.BpBinder.{
  BpBinder, Obituary, Effect, ipc, binder_died, Memory, link_to_death, unlink_to_death, take_first,
  send_obituary, report_deaths, obituary_list, new_proxy, destroy, extend_lifetime_weak, inc_weak,
  cleanup,
}

-- The driver's part for the proxy's handle; `none` is a refused command.
pub death_command : ℕ → Option ℕ → IpcCall → Option (Option ℕ)
death_command handle none (request_death_notification h cookie) =
    if h == handle then some (some cookie) else some none
death_command handle (some c) (request_death_notification h cookie) =
    if h == handle then none else some (some c)
death_command handle none (clear_death_notification h cookie) =
    if h == handle then none else some none
death_command handle (some c) (clear_death_notification h cookie) =
    if h == handle then (if c == cookie then some none else none) else some (some c)
death_command handle death call = some death

-- Effects that are no calls do not reach the driver.
pub watch : ℕ → Option ℕ → List Effect → Option (Option ℕ)
unfolding death_command
watch handle death [] = some death
watch handle death (ipc call ∷ es) = elim (death_command handle death call) [
  | none ↦ none
  | some d ↦ watch handle d es
]
watch handle death (e ∷ es) = watch handle death es

-- What the driver should hold for a proxy: its address, while it keeps a vector of obituaries.
abbrev pub registered : BpBinder → Option ℕ
registered p = if is_some p.obituaries then some p.self else none

pub data Operation : Type 0 where
  link : Memory → Obituary → Operation
  unlink : ℕ → ℕ → ℕ → Operation
  obituary : (ℕ → Bool) → Operation

abbrev outcome : BpBinder → Option (Status × BpBinder × List Effect) → BpBinder × List Effect
outcome p none = (p, [])
outcome p (some (_, q, es)) = (q, es)

-- An abort ends the process; nothing is done.
pub step : BpBinder → Operation → BpBinder × List Effect
step p (link mem ob) = outcome p (link_to_death mem ob p)
step p (unlink r c f) = let (_, _, q, es) = unlink_to_death r c f p in (q, es)
step p (obituary promote) = send_obituary promote p

pub run : BpBinder → List Operation → BpBinder × List Effect
unfolding step
run p [] = (p, [])
run p (op ∷ ops) = let (q, es) = step p op in let (r, fs) = run q ops in (r, es ++ fs)

watch-append :
    (h : ℕ) (d d' : Option ℕ) (es fs : List Effect)
    → watch h d es ≡ some d'
    → watch h d (es ++ fs) ≡ watch h d' fs
unfolding watch
watch-append h d d' [] fs e = ground arith
watch-append h d d' (ipc call ∷ es) fs e = elim (Option-cases (death_command h d call)) [
  | inl refused ↦ ground arith
  | inr (d'', accepted) ↦ ground (arith, watch-append h d'' d' es fs)
]
watch-append h d d' (extend_lifetime_weak n ∷ es) fs e = watch-append h d d' es fs e
watch-append h d d' (inc_weak n ∷ es) fs e = watch-append h d d' es fs e
watch-append h d d' (binder_died n ∷ es) fs e = watch-append h d d' es fs e
watch-append h d d' (cleanup n ∷ es) fs e = watch-append h d d' es fs e

watch-cleanup : (h : ℕ) (d : Option ℕ) (cs : List Cleanup) → watch h d (map cleanup cs) ≡ some d
unfolding watch
watch-cleanup h d [] = refl
watch-cleanup h d (c ∷ cs) = watch-cleanup h d cs

watch-report :
    (h : ℕ) (d : Option ℕ) (promote : ℕ → Bool) (os : List Obituary)
    → watch h d (report_deaths promote os) ≡ some d
unfolding watch report_deaths
watch-report h d promote [] = refl
watch-report h d promote (o ∷ os) = ground (arith, watch-report h d promote os)

-- What a step leaves: the driver accepts its calls, and holds what it should for the new proxy.
abbrev Keeps : BpBinder → BpBinder × List Effect → Type 0
Keeps p (q, es) =
    (watch p.handle (registered p) es ≡ some (registered q))
    × (q.handle ≡ p.handle)
    × (q.self ≡ p.self)

link-Keeps : (mem : Memory) (ob : Obituary) (p : BpBinder) → Keeps p (step p (link mem ob))
unfolding step link_to_death watch
link-Keeps mem ob p = ground arith

unlink-Keeps : (r c f : ℕ) (p : BpBinder) → Keeps p (step p (unlink r c f))
unfolding step unlink_to_death watch take_first
unlink-Keeps r c f p = ground arith

obituary-Keeps : (promote : ℕ → Bool) (p : BpBinder) → Keeps p (step p (obituary promote))
unfolding step send_obituary watch
obituary-Keeps promote p =
    ground (arith, watch-report p.handle none promote (obituary_list p.obituaries))

step-Keeps : (p : BpBinder) (op : Operation) → Keeps p (step p op)
step-Keeps p (link mem ob) = link-Keeps mem ob p
step-Keeps p (unlink r c f) = unlink-Keeps r c f p
step-Keeps p (obituary promote) = obituary-Keeps promote p

run-Keeps : (p : BpBinder) (ops : List Operation) → Keeps p (run p ops)
unfolding run watch
run-Keeps p [] = (refl, refl, refl)
run-Keeps p (op ∷ ops) =
    let (q, es) = step p op in
    let (r, fs) = run q ops in
    ground (
      arith,
      step-Keeps p op,
      run-Keeps q ops,
      watch-append p.handle (registered p) (registered q) es fs,
    )

destroy-watch :
    (q : BpBinder) (h : ℕ) → q.handle ≡ h → watch h (registered q) (destroy true q) ≡ some none
unfolding watch destroy
destroy-watch q h e = ground (arith, watch-cleanup h none (kill q.objects).1)

-- Through the whole life of a proxy, from its constructor through any sequence of linkToDeath,
-- unlinkToDeath and sendObituary calls, the driver refuses none of its death commands: it never
-- asks twice, never clears what is not set, and never uses a wrong cookie. After the sequence the
-- driver holds the address of the proxy exactly if the proxy keeps a vector of obituaries, and once
-- the destructor has run on a thread with an IPCThreadState the driver holds nothing.
pub life-death_command :
    (self handle : ℕ) (ops : List Operation)
    → let (p, made) = new_proxy self handle in
      let (q, es) = run p ops in
      (watch handle none (made ++ es) ≡ some (registered q))
      × (watch handle none ((made ++ es) ++ destroy true q) ≡ some none)
unfolding watch new_proxy
life-death_command self handle ops =
    let (p, made) = new_proxy self handle in
    let (q, es) = run p ops in
    let (kept, same, _) = run-Keeps p ops in
    (
      kept,
      watch-append handle none (registered q) es (destroy true q) kept
          ∙ destroy-watch q handle same,
    )
