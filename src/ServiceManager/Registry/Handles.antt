-- ===== src/ServiceManager/Registry/Handles.antt =====
-- The list of services of native/service_manager.c with the handle of one replaced.
use learn_node.Base.{
  ℕ, ◌+◌, ◌≡◌, refl, ap, ◌∙◌, ◌≢◌, true, some, List, [], ◌∷◌, ◌++◌, ◌==◌, if◌then◌else◌, arith,
  Bool-cases, inl, inr, ==_iff,
}
use learn_node.IpcThreadState.{Command, bc_acquire, bc_release}
use learn_node.ServiceManager.{SvcInfo, units_eq, set_handle, at_address}
use learn_node.ServiceManager.Registry.{
  acquires, releases, holders, lookup, AreDistinct, rehandle, lookup-set_handle,
}

rehandle_ne :
    (a b h : ℕ) (l : List SvcInfo) → a ≢ b → rehandle a h (at_address b l) ≡ at_address b l
unfolding at_address
rehandle_ne a b h [] p = refl
rehandle_ne a b h (si ∷ l) p =
    ground (arith, rehandle_ne a b h l, ==_iff si.address a, ==_iff si.address b)

pub at_address-own :
    (a : ℕ) (l : List SvcInfo) (si : SvcInfo) → at_address a l ≡ some si → si.address ≡ a
unfolding at_address
at_address-own a [] si e = absurd (cc)
at_address-own a (sj ∷ l) si e = ground (arith, at_address-own a l si)

pub at_address-set_handle :
    (a b h : ℕ) (l : List SvcInfo) → at_address b (set_handle a h l) ≡ rehandle a h (at_address b l)
unfolding at_address set_handle
at_address-set_handle a b h [] = refl
at_address-set_handle a b h (si ∷ l) =
    ground (arith, at_address-set_handle a b h l, rehandle_ne a b h l)

pub AreDistinct-set_handle :
    (a h : ℕ) (l : List SvcInfo) → AreDistinct l → AreDistinct (set_handle a h l)
unfolding set_handle
AreDistinct-set_handle a h [] d = d
AreDistinct-set_handle a h (si ∷ l) d = elim (Bool-cases (si.address == a)) [
  | inl hit ↦ rw hit d
  | inr miss ↦ rw miss (
    lookup-set_handle a h si.name l d.2 ∙ ap (rehandle a h) d.0,
    at_address-set_handle a si.address h l ∙ ap (rehandle a h) d.1,
    AreDistinct-set_handle a h l d.2,
  )
]

pub holders-set_handle :
    (x a h : ℕ) (l : List SvcInfo) (si : SvcInfo)
    → at_address a l ≡ some si
    → holders x (set_handle a h l) + (if si.handle == x then 1 else 0)
      ≡ holders x l + (if h == x then 1 else 0)
unfolding at_address set_handle
holders-set_handle x a h [] si e = absurd (cc)
holders-set_handle x a h (sj ∷ l) si e = ground (arith, holders-set_handle x a h l si)

pub at_address-lookup :
    (n : List ℕ) (l : List SvcInfo) (si : SvcInfo)
    → AreDistinct l
    → lookup n l ≡ some si
    → at_address si.address l ≡ some si
unfolding at_address lookup
at_address-lookup n [] si d e = absurd (cc)
at_address-lookup n (sj ∷ l) si d e =
    ground (arith, at_address-lookup n l si, ==_iff sj.address si.address)

pub lookup-name :
    (n : List ℕ) (l : List SvcInfo) (si : SvcInfo)
    → lookup n l ≡ some si
    → units_eq n si.name ≡ true
unfolding lookup
lookup-name n [] si e = absurd (cc)
lookup-name n (sj ∷ l) si e = ground (arith, lookup-name n l si)

pub acquires-append :
    (h : ℕ) (cs ds : List Command) → acquires h (cs ++ ds) ≡ acquires h cs + acquires h ds
acquires-append h [] ds = omega arith
acquires-append h (bc_acquire k ∷ cs) ds = omega (arith, acquires-append h cs ds)
acquires-append h (c ∷ cs) ds = acquires-append h cs ds

pub releases-append :
    (h : ℕ) (cs ds : List Command) → releases h (cs ++ ds) ≡ releases h cs + releases h ds
releases-append h [] ds = omega arith
releases-append h (bc_release k ∷ cs) ds = omega (arith, releases-append h cs ds)
releases-append h (c ∷ cs) ds = releases-append h cs ds
