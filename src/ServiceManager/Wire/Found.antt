-- ===== src/ServiceManager/Wire/Found.antt =====
-- What do_add_service of native/service_manager.c enters, and what do_find_service then finds.
use learn_node.Base.{
  ℕ, zero, suc, ◌%◌, ◌^◌, map, ◌≤◌, ◌≡◌, ◌≢◌, refl, sym, ap, ◌∙◌, Bool, true, false, not, Option,
  none, some, List, [], ◌∷◌, ◌++◌, ltb, ◌==◌, if◌then◌else◌, ◌&&◌, ◌||◌, length, take, Bool-cases,
  Option-cases, inl, inr, arith,
}
use learn_node.IpcThreadState.{Command, TransactionData}
use learn_node.BinderIo.{BinderIo, bio_put_uint32, bio_put_ref, until_zero}
use learn_node.ServiceManager.{
  Platform, find, Environment, Manager, SvcInfo, refresh, get_service, do_add_service,
  do_find_service, register, found, find_svc, units_eq, svc_can_find, svc_can_register, is_isolated,
  str8, check_mac_perms_from_lookup,
}
use learn_node.ServiceManager.Registry.{
  AreDistinct, IsFree, lookup, find_svc-lookup, units_eq_self, entered, lets_through, add_request,
  step,
}
use learn_node.ServiceManager.Registry.Kept.{add-Keeps}

pub guards_passed :
    (g may : Bool) (r : Bool × List SvcInfo × List Command) (l : List SvcInfo)
    → (if g then (false, l, []) else if may then r else (false, l, [])).0 ≡ true
    → ((not g && may) ≡ true) × (r.0 ≡ true)
guards_passed true may r l ok = absurd (cc)
guards_passed false true r l ok = (refl, ok)
guards_passed false false r l ok = absurd (cc)

pub register-entered :
    (memory : Option ℕ) (s16 s : List ℕ) (len handle : ℕ) (allow : Bool) (o : Option SvcInfo)
    (l : List SvcInfo)
    → (register memory s16 len handle allow o l).0 ≡ true
    → (si : SvcInfo) × (entered o memory s handle allow ≡ some si) × (si.handle ≡ handle)
unfolding register
register-entered memory s16 s len handle allow (some si) l ok =
    (record si { handle = handle }, refl, refl)
register-entered none s16 s len handle allow none l ok = absurd (cc)
register-entered (some a) s16 s len handle allow none l ok =
    (record { address = a; handle = handle; allow_isolated = allow; name = s }, refl, refl)

-- An add that succeeds was let through, and enters the handle.
pub accepted :
    (p : Platform) (sh : ℕ) (memory : Option ℕ) (s tail : List ℕ) (handle uid : ℕ) (allow : Bool)
    (spid : ℕ) (l : List SvcInfo)
    → (do_add_service p sh memory (s ++ tail) (length s) handle uid allow spid l).0 ≡ true
    → (lets_through p (add_request sh memory s tail handle uid allow spid) ≡ true)
      × (si : SvcInfo) × (entered (lookup s l) memory s handle allow ≡ some si)
      × (si.handle ≡ handle)
unfolding do_add_service
accepted p sh memory s tail handle uid allow spid l ok =
    let (through, registers) =
      guards_passed (handle == 0 || length s == 0 || ltb 127 (length s))
        (svc_can_register p sh (s ++ tail) (length s) spid uid)
        (register memory (s ++ tail) (length s) handle allow (find_svc (s ++ tail) (length s) l) l)
        l ok in
    let (si, now, handle_is) =
      register-entered memory (s ++ tail) s (length s) handle allow
        (find_svc (s ++ tail) (length s) l) l registers in
    (
      through,
      si,
      ap (λ o. entered o memory s handle allow) (sym (find_svc-lookup s tail l)) ∙ now,
      handle_is,
    )

-- It is found from then on.
pub added-found :
    (p : Platform) (sh : ℕ) (memory : Option ℕ) (s tail : List ℕ) (handle uid : ℕ) (allow : Bool)
    (spid : ℕ) (l : List SvcInfo)
    → AreDistinct l
    → IsFree memory l
    → let r = do_add_service p sh memory (s ++ tail) (length s) handle uid allow spid l in
      r.0 ≡ true
      → (si : SvcInfo) × (si.handle ≡ handle)
        × ((tail' : List ℕ) → find_svc (s ++ tail') (length s) r.1 ≡ some si)
unfolding step
added-found p sh memory s tail handle uid allow spid l d free ok =
    let (through, si, now, handle_is) = accepted p sh memory s tail handle uid allow spid l ok in
    let kept = add-Keeps p sh memory s tail handle uid allow spid l d free in
    let new = entered (lookup s l) memory s handle allow in
    let mine =
      kept.1 s
      ∙ (ap (λ b. if b && units_eq s s then new else lookup s l) through
          ∙ (ap (λ b. if b then new else lookup s l) (units_eq_self s) ∙ now)) in
    (si, handle_is, λ tail'. find_svc-lookup s tail' _ ∙ mine)

pub refresh-svclist : (env : Environment) (m : Manager) → (refresh env m).svclist ≡ m.svclist
unfolding refresh
refresh-svclist env m = elim (Bool-cases (m.sehandle == 0)) [
  | inl none_yet ↦ rw none_yet refl
  | inr some_there ↦ elim (Option-cases env.new_sehandle) [
    | inl same ↦ rw (some_there, same) refl
    | inr (h, new) ↦ rw (some_there, new) refl
  ]
]

-- Whether a service is shown to a process.
abbrev pub visible : Platform → ℕ → List ℕ → ℕ → ℕ → SvcInfo → Bool
visible p sh s uid spid si =
    (si.allow_isolated || not (is_isolated p uid)) && svc_can_find p sh s (length s) spid

pub found-visible :
    (p : Platform) (sh : ℕ) (s16 : List ℕ) (len uid spid handle : ℕ) (si : SvcInfo)
    → si.handle ≡ handle
    → handle ≢ 0
    → found p sh s16 len uid spid (some si) ≡ (
        if (si.allow_isolated || not (is_isolated p uid)) && svc_can_find p sh s16 len spid
        then handle
        else 0)
unfolding found
found-visible p sh s16 len uid spid handle si e there = ground (arith, e)

pub take_prefix : (n : ℕ) (s tail : List ℕ) → n ≤ length s → take n (s ++ tail) ≡ take n s
take_prefix zero s tail h = refl
take_prefix (suc n) [] tail h = absurd (omega (arith, h))
take_prefix (suc n) (x ∷ s) tail h = ap (λ l. x ∷ l) (take_prefix n s tail (omega (arith, h)))

-- The name alone decides whether it may be looked for.
pub svc_can_find_prefix :
    (p : Platform) (sh : ℕ) (s tail : List ℕ) (spid : ℕ)
    → svc_can_find p sh (s ++ tail) (length s) spid ≡ svc_can_find p sh s (length s) spid
unfolding svc_can_find str8
svc_can_find_prefix p sh s tail spid =
    let n = if ltb (length s) 127 then length s else 127 in
    let le : n ≤ length s = ground arith in
    ap (λ x. check_mac_perms_from_lookup p sh spid find (map (λ c. c % 2 ^ 8) (until_zero x)))
      (take_prefix n s tail le)

pub reply_handle :
    (b : Bool) (handle : ℕ) (m : Manager) (reply : BinderIo)
    → handle ≢ 0
    → (let k = if b then handle else 0 in
        if k == 0 then bio_put_uint32 0 reply else bio_put_ref k reply)
      ≡ (if b then bio_put_ref handle reply else bio_put_uint32 0 reply)
reply_handle true handle m reply there =
    let other : (handle == 0) ≡ false = ground arith in rw other refl
reply_handle false handle m reply there = refl

pub get_service-visible :
    (p : Platform) (txn : TransactionData) (m : Manager) (reply : BinderIo) (s tail : List ℕ)
    (handle : ℕ) (si : SvcInfo)
    → si.handle ≡ handle
    → handle ≢ 0
    → find_svc (s ++ tail) (length s) m.svclist ≡ some si
    → get_service p txn m reply (length s, some (s ++ tail)) ≡ (
      true,
      m,
      if visible p m.sehandle s txn.sender_euid txn.sender_pid si
          then bio_put_ref handle reply
          else bio_put_uint32 0 reply,
      [],
    )
unfolding get_service do_find_service
get_service-visible p txn m reply s tail handle si e there here =
    let spid = txn.sender_pid in
    let shown = si.allow_isolated || not (is_isolated p txn.sender_euid) in
    let is_found =
      ap (found p m.sehandle (s ++ tail) (length s) txn.sender_euid spid) here
      ∙ (found-visible p m.sehandle (s ++ tail) (length s) txn.sender_euid spid handle si e there
          ∙ ap (λ b. if shown && b then handle else 0)
              (svc_can_find_prefix p m.sehandle s tail spid)) in
    ap (λ k. (true, m, if k == 0 then bio_put_uint32 0 reply else bio_put_ref k reply, [])) is_found
    ∙ ap (λ r. (true, m, r, []))
        (reply_handle (visible p m.sehandle s txn.sender_euid spid si) handle m reply there)
