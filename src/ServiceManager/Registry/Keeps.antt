-- ===== src/ServiceManager/Registry/Keeps.antt =====
-- What svcinfo_death and do_add_service of native/service_manager.c keep, each alone.
use learn_node.Base.{
  ℕ, ◌+◌, ◌≡◌, refl, sym, ap, ◌∙◌, ◌≢◌, Bool, true, Option, none, some, List, [], ◌++◌, ◌==◌,
  if◌then◌else◌, length, arith, Bool-cases, inl, inr, ==_iff, take-append_len, Option-cases,
}
use learn_node.IpcThreadState.{Command}
use learn_node.ServiceManager.{
  SvcInfo, units_eq, set_handle, at_address, release, svcinfo_death, override, register,
}
use learn_node.ServiceManager.Registry.{
  IsFree, Registry, with_handle, mark_dead, entered, acquires, releases, holders, units_eq_self,
  units_eq→≡, lookup, AreDistinct, mark_dead-none, rehandle, lookup-set_handle,
}
use learn_node.ServiceManager.Registry.Handles.{
  at_address-own, at_address-set_handle, AreDistinct-set_handle, holders-set_handle,
  at_address-lookup, lookup-name,
}

-- What one step leaves, when the registry after it should be `r`.
abbrev pub Keeps : List SvcInfo → Registry → List SvcInfo × List Command → Type 0
Keeps l r (l', cs) =
    AreDistinct l'
    × ((n : List ℕ) → lookup n l' ≡ r n)
    × ((h : ℕ) → h ≢ 0 → acquires h cs + holders h l ≡ releases h cs + holders h l')

pub same-Keeps :
    (l : List SvcInfo) (r : Registry)
    → AreDistinct l
    → ((n : List ℕ) → lookup n l ≡ r n)
    → Keeps l r (l, [])
same-Keeps l r d e = (d, e, λ h p. refl)

rehandle-mark_dead : (a : ℕ) (o : Option SvcInfo) → rehandle a 0 o ≡ mark_dead a o
rehandle-mark_dead a none = refl
rehandle-mark_dead a (some si) = refl

-- A service whose handle is 0 already, or that is not in the list.
dead_already :
    (ptr : ℕ) (n : List ℕ) (l : List SvcInfo) (si : SvcInfo)
    → AreDistinct l
    → at_address ptr l ≡ some si
    → si.handle ≡ 0
    → (o : Option SvcInfo) → lookup n l ≡ o
    → o ≡ mark_dead ptr o
dead_already ptr n l si d at zero none e = refl
dead_already ptr n l si d at zero (some sj) e =
    ground (arith, at_address-lookup n l sj d, ==_iff sj.address ptr)

release-Keeps :
    (ptr : ℕ) (l : List SvcInfo) (si : SvcInfo)
    → AreDistinct l
    → at_address ptr l ≡ some si
    → Keeps l (λ n. mark_dead ptr (lookup n l)) (release si l)
unfolding release
release-Keeps ptr l si d at = elim (Bool-cases (si.handle == 0)) [
  | inl dead ↦
      rw dead (
        same-Keeps l _ d
          (λ n. dead_already ptr n l si d at ((==_iff _ 0).0 dead) (lookup n l) refl))
  | inr live ↦
      rw (live, at_address-own ptr l si at)
        (
          AreDistinct-set_handle ptr 0 l d,
          λ n. lookup-set_handle ptr 0 n l d ∙ rehandle-mark_dead ptr (lookup n l),
          λ h p. ground (arith, holders-set_handle h ptr 0 l si at, ==_iff 0 h),
        )
]

pub death-Keeps :
    (ptr : ℕ) (l : List SvcInfo)
    → AreDistinct l
    → Keeps l (λ n. mark_dead ptr (lookup n l)) (svcinfo_death ptr l)
unfolding svcinfo_death
death-Keeps ptr l d = elim (Option-cases (at_address ptr l)) [
  | inl nowhere ↦
      rw (nowhere, svcinfo_death) (same-Keeps l _ d (λ n. sym (mark_dead-none ptr n l nowhere)))
  | inr (si, at) ↦ rw (at, svcinfo_death) (release-Keeps ptr l si d at)
]

rehandle-rehandle :
    (a h k : ℕ) (o : Option SvcInfo) → rehandle a h (rehandle a k o) ≡ rehandle a h o
rehandle-rehandle a h k none = refl
rehandle-rehandle a h k (some si) = ground arith

-- An add for a name that has a service gives that service the handle, and changes no other.
abbrev pub added : SvcInfo → ℕ → List ℕ → Registry → Registry
added si handle name r = λ n. if units_eq n name then some (with_handle handle si) else r n

module _ (name : List ℕ) (handle : ℕ) (l : List SvcInfo) (si : SvcInfo) (d : AreDistinct l)
    (here : lookup name l ≡ some si) where
  pub other_name :
      (n : List ℕ) (o : Option SvcInfo)
      → lookup n l ≡ o
      → rehandle si.address handle o ≡ (if units_eq n name then some (with_handle handle si) else o)
  other_name n none e = elim (Bool-cases (units_eq n name)) [
    | inl same ↦ absurd (cc (here, e, ap (λ m. lookup m l) (units_eq→≡ n name same)))
    | inr other ↦ rw other
  ]
  other_name n (some sj) e = elim (Bool-cases (units_eq n name)) [
    | inl same ↦ rw same (cc (here, e, ap (λ m. lookup m l) (units_eq→≡ n name same), own))
    | inr other ↦ elim (Bool-cases (sj.address == si.address)) [
      | inl one ↦ absurd (
          ground (
            arith,
            at_address-lookup n l sj d e,
            at_address-lookup name l si d here,
            ==_iff sj.address si.address,
            lookup-name n l sj e,
            lookup-name name l si here,
            clash,
          ))
      | inr two ↦ rw (other, two)
    ]
  ]
    where
      own : rehandle si.address handle (some si) ≡ some (with_handle handle si)
      own = ground arith

      clash : sj ≡ si → units_eq n name ≡ true
      clash eq = ground (
        arith,
        units_eq→≡ n sj.name (lookup-name n l sj e),
        units_eq→≡ name si.name (lookup-name name l si here),
        units_eq_self n,
      )

  override-Keeps :
      Keeps l
        (added si handle name (λ n. lookup n l))
        (let (_, l', cs) = override si handle l in (l', cs))
  unfolding override release
  override-Keeps =
      let at = at_address-lookup name l si d here in
      let at' : at_address si.address (set_handle si.address 0 l) ≡ some (with_handle 0 si) =
        at_address-set_handle si.address si.address 0 l ∙ rw at (ground arith) in
      let d' = AreDistinct-set_handle si.address 0 l d in
      elim (Bool-cases (si.handle == 0)) [
        | inl dead ↦ rw dead (
          AreDistinct-set_handle si.address handle l d,
          λ n. lookup-set_handle si.address handle n l d ∙ other_name n (lookup n l) refl,
          λ h p. ground (arith, holders-set_handle h si.address handle l si at, ==_iff 0 h),
        )
        | inr live ↦ rw live (
          AreDistinct-set_handle si.address handle (set_handle si.address 0 l) d',
          λ n.
              lookup-set_handle si.address handle n (set_handle si.address 0 l) d'
              ∙ (ap (rehandle si.address handle) (lookup-set_handle si.address 0 n l d)
                  ∙ (rehandle-rehandle si.address handle 0 (lookup n l)
                      ∙ other_name n (lookup n l) refl)),
          λ h p. ground (
            arith,
            holders-set_handle h si.address 0 l si at,
            holders-set_handle h si.address handle (set_handle si.address 0 l) (with_handle 0 si)
                at',
            ==_iff 0 h,
          ),
        )
      ]

unknown_name :
    (name n : List ℕ) (l : List SvcInfo)
    → lookup name l ≡ none
    → lookup n l ≡ (if units_eq n name then none else lookup n l)
unknown_name name n l e = elim (Bool-cases (units_eq n name)) [
  | inl same ↦ rw same (ap (λ m. lookup m l) (units_eq→≡ n name same) ∙ e)
  | inr other ↦ rw other
]

-- What register leaves, where the guards of do_add_service let the request through.
pub register-Keeps :
    (memory : Option ℕ) (name tail : List ℕ) (handle : ℕ) (allow : Bool) (l : List SvcInfo)
    (o : Option SvcInfo)
    → AreDistinct l
    → IsFree memory l
    → lookup name l ≡ o
    → Keeps l
        (λ n. if units_eq n name then entered o memory name handle allow else lookup n l)
        (let (_, l', cs) = register memory (name ++ tail) (length name) handle allow o l in
          (l', cs))
unfolding register lookup
register-Keeps memory name tail handle allow l (some si) d free here =
    override-Keeps name handle l si d here
register-Keeps none name tail handle allow l none d free here =
    same-Keeps l _ d (λ n. unknown_name name n l here)
register-Keeps (some a) name tail handle allow l none d free here =
    rw (take-append_len (length name) name tail refl)
      ((here, free, d), λ n. refl, λ h p. ground arith)
