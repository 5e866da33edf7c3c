-- ===== src/ServiceManager/Registry.antt =====
-- The list of services as a map from names, and the acquires and releases of handles, through any
-- sequence of add requests and death notices (native/service_manager.c).
pub mod Handles
pub mod Keeps
pub mod Kept
pub mod TwoNames
use learn_node.Base.{
  ℕ, ◌+◌, ◌≡◌, refl, ap, Bool, true, false, not, Option, none, some, List, [], ◌∷◌, ◌++◌, ltb, ◌==◌,
  if◌then◌else◌, length, ◌&&◌, ◌||◌, arith, Bool-cases, inl, inr, ==_iff, take-append_len,
}
use learn_node.IpcThreadState.{Command, bc_acquire, bc_release}
use learn_node.ServiceManager.{
  Platform, SvcInfo, svc_can_register, units_eq, find_svc, set_handle, at_address, svcinfo_death,
  do_add_service,
}

-- `tail` is what lies behind the name in the message.
pub data Event : Type 0 where
  add_request :
      (sehandle : ℕ) (memory : Option ℕ) (name tail : List ℕ) (handle uid : ℕ) (allow : Bool)
      (spid : ℕ)
      → Event
  death_notice : ℕ → Event

module _ (p : Platform) where
  unfoldable pub step : List SvcInfo → Event → List SvcInfo × List Command
  step l (add_request sh memory name tail handle uid allow spid) =
      let (_, l', cs) =
        do_add_service p sh memory (name ++ tail) (length name) handle uid allow spid l in
      (l', cs)
  step l (death_notice ptr) = svcinfo_death ptr l

  pub svc_run : List SvcInfo → List Event → List SvcInfo × List Command
  svc_run l [] = (l, [])
  svc_run l (e ∷ es) = let (l', cs) = step l e in let (l'', ds) = svc_run l' es in (l'', cs ++ ds)

abbrev pub IsFree : Option ℕ → List SvcInfo → Type 0
IsFree none l = Unit
IsFree (some a) l = at_address a l ≡ none

-- malloc gives no address that is in use.
abbrev pub IsFresh : Platform → List SvcInfo → List Event → Type 0
IsFresh p l [] = Unit
IsFresh p l (add_request sh memory name tail handle uid allow spid ∷ es) =
    IsFree memory l
    × IsFresh p (step p l (add_request sh memory name tail handle uid allow spid)).0 es
IsFresh p l (death_notice ptr ∷ es) = IsFresh p (step p l (death_notice ptr)).0 es

-- The registry that the program promises: for each name its service.
abbrev pub Registry : Type 0
Registry = List ℕ → Option SvcInfo

abbrev pub with_handle : ℕ → SvcInfo → SvcInfo
with_handle h si = record si { handle = h }

abbrev pub mark_dead : ℕ → Option SvcInfo → Option SvcInfo
mark_dead ptr none = none
mark_dead ptr (some si) = some (if si.address == ptr then with_handle 0 si else si)

-- What a name has after an add that is let through.
abbrev pub entered : Option SvcInfo → Option ℕ → List ℕ → ℕ → Bool → Option SvcInfo
entered (some si) memory name handle allow = some (with_handle handle si)
entered none (some a) name handle allow =
    some (record { address = a; handle = handle; allow_isolated = allow; name = name })
entered none none name handle allow = none

abbrev pub lets_through : Platform → Event → Bool
lets_through p (death_notice ptr) = false
lets_through p (add_request sh memory name tail handle uid allow spid) =
    not (handle == 0 || length name == 0 || ltb 127 (length name))
    && svc_can_register p sh (name ++ tail) (length name) spid uid

abbrev pub spec_step : Platform → Registry → Event → Registry
spec_step p r (death_notice ptr) = λ n. mark_dead ptr (r n)
spec_step p r (add_request sh memory name tail handle uid allow spid) = λ n.
    if lets_through p (add_request sh memory name tail handle uid allow spid) && units_eq n name
    then entered (r name) memory name handle allow
    else r n

abbrev pub spec_run : Platform → Registry → List Event → Registry
spec_run p r [] = r
spec_run p r (e ∷ es) = spec_run p (spec_step p r e) es

-- How often a handle was acquired and given back, and how many services have it.
abbrev pub acquires : ℕ → List Command → ℕ
acquires h [] = 0
acquires h (bc_acquire k ∷ cs) = (if k == h then 1 else 0) + acquires h cs
acquires h (c ∷ cs) = acquires h cs

abbrev pub releases : ℕ → List Command → ℕ
releases h [] = 0
releases h (bc_release k ∷ cs) = (if k == h then 1 else 0) + releases h cs
releases h (c ∷ cs) = releases h cs

abbrev pub holders : ℕ → List SvcInfo → ℕ
holders h [] = 0
holders h (si ∷ l) = (if si.handle == h then 1 else 0) + holders h l

pub units_eq_self : (s : List ℕ) → units_eq s s ≡ true
unfolding units_eq
units_eq_self [] = refl
units_eq_self (x ∷ s) = ground (arith, units_eq_self s)

pub units_eq→≡ : (s t : List ℕ) → units_eq s t ≡ true → s ≡ t
unfolding units_eq
units_eq→≡ [] [] e = refl
units_eq→≡ [] (y ∷ t) e = cc
units_eq→≡ (x ∷ s) [] e = cc
units_eq→≡ (x ∷ s) (y ∷ t) e = ground (arith, units_eq→≡ s t)

units_eq-length : (s t : List ℕ) → units_eq s t ≡ true → length s ≡ length t
units_eq-length s t e = ap length (units_eq→≡ s t e)

-- find_svc by the name alone.
pub lookup : List ℕ → List SvcInfo → Option SvcInfo
lookup n [] = none
lookup n (si ∷ l) = if units_eq n si.name then some si else lookup n l

pub find_svc-lookup :
    (n tail : List ℕ) (l : List SvcInfo) → find_svc (n ++ tail) (length n) l ≡ lookup n l
unfolding find_svc lookup
find_svc-lookup n tail [] = refl
find_svc-lookup n tail (si ∷ l) = elim (Bool-cases (units_eq n si.name)) [
  | inl same ↦
      rw (take-append_len (length n) n tail refl, same)
        (ground (arith, units_eq-length n si.name same, ==_iff (length n) (length si.name)))
  | inr other ↦
      rw (take-append_len (length n) n tail refl, other, find_svc-lookup n tail l) (ground arith)
]

-- No two services have one name or one address.
abbrev pub AreDistinct : List SvcInfo → Type 0
AreDistinct [] = Unit
AreDistinct (si ∷ l) = (lookup si.name l ≡ none) × (at_address si.address l ≡ none) × AreDistinct l

pub mark_dead-none :
    (a : ℕ) (n : List ℕ) (l : List SvcInfo)
    → at_address a l ≡ none
    → mark_dead a (lookup n l) ≡ lookup n l
unfolding at_address lookup
mark_dead-none a n [] e = refl
mark_dead-none a n (si ∷ l) e = ground (arith, mark_dead-none a n l)

abbrev pub rehandle : ℕ → ℕ → Option SvcInfo → Option SvcInfo
rehandle a h none = none
rehandle a h (some si) = some (if si.address == a then with_handle h si else si)

rehandle-none :
    (a h : ℕ) (n : List ℕ) (l : List SvcInfo)
    → at_address a l ≡ none
    → rehandle a h (lookup n l) ≡ lookup n l
unfolding at_address lookup
rehandle-none a h n [] e = refl
rehandle-none a h n (si ∷ l) e = ground (arith, rehandle-none a h n l)

pub lookup-set_handle :
    (a h : ℕ) (n : List ℕ) (l : List SvcInfo)
    → AreDistinct l
    → lookup n (set_handle a h l) ≡ rehandle a h (lookup n l)
unfolding set_handle lookup
lookup-set_handle a h n [] d = refl
lookup-set_handle a h n (si ∷ l) d =
    ground (arith, lookup-set_handle a h n l, rehandle-none a h n l, ==_iff si.address a)
