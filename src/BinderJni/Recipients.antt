-- ===== src/BinderJni/Recipients.antt =====
-- The death recipients of Java in jni/android_util_Binder.cpp: JavaDeathRecipient, the
-- DeathRecipientList of a BinderProxy, and linkToDeath and unlinkToDeath of a BinderProxy whose
-- binder is a BpBinder. A Java object is a number, and null is 0. `alloc` is the address that `new`
-- gives a JavaDeathRecipient while those at the given addresses live; `collected` says which Java
-- objects have no strong reference left and are gone.
pub mod InStep
pub mod Notices
use learn_node.Base.{
  ℕ, Bool, true, false, not, ◌&&◌, ◌||◌, Option, none, some, List, [], ◌∷◌, ◌++◌, map, ◌==◌,
  if◌then◌else◌,
}
use learn_node.Status.{Status, name_not_found, is_no_error, is_dead_object}
use learn_node.BpBinder.{
  BpBinder, Obituary, Effect, binder_died, Memory, link_to_death, unlink_to_death, send_obituary,
}
use learn_node.BinderJni.Errors.{
  Exception, raise, null_pointer_exception, no_such_element_exception, no_text,
  death_link_does_not_exist, signal_exception_for_error,
}

-- `strong` says that mObject is set; after that mObjectWeak is.
pub record JavaRecipient : Type 0 where
  pub address : ℕ
  pub object : ℕ
  pub strong : Bool

-- `notices` are the objects that sendDeathNotice was called for, `effects` what the BpBinder did.
pub record JavaProxy : Type 0 where
  pub native : BpBinder
  pub recipients : List JavaRecipient
  pub notices : List ℕ
  pub effects : List Effect

abbrev pub addresses : List JavaRecipient → List ℕ
addresses = map λ r. r.address

-- `JavaDeathRecipient::matches`
pub recipient_matches : (ℕ → Bool) → ℕ → JavaRecipient → Bool
recipient_matches collected obj r =
    obj == (if r.strong then r.object else if collected r.object then 0 else r.object)

pub add_recipient : JavaRecipient → List JavaRecipient → List JavaRecipient
add_recipient r rs = rs ++ r ∷ []

pub remove_recipient : ℕ → List JavaRecipient → List JavaRecipient
remove_recipient address [] = []
remove_recipient address (r ∷ rs) =
    let rest = remove_recipient address rs in if r.address == address then rs else r ∷ rest

pub find_recipient : (ℕ → Bool) → ℕ → List JavaRecipient → Option JavaRecipient
unfolding recipient_matches
find_recipient collected obj [] = none
find_recipient collected obj (r ∷ rs) =
    let rest = find_recipient collected obj rs in
    if recipient_matches collected obj r then some r else rest

-- The part behind `target->linkToDeath`: a recipient that was not added loses its reference.
after_link :
    ℕ → JavaProxy → Option (Status × BpBinder × List Effect) → Option (Option Exception × JavaProxy)
unfolding remove_recipient
after_link address p none = none
after_link address p (some (err, q, es)) =
    let p' = record p { native = q; effects = p.effects ++ es } in
    some (
      if is_no_error err then (none, p') else (
        some (signal_exception_for_error err true 0),
        record p' { recipients = remove_recipient address p.recipients },
      ))

-- android_os_BinderProxy_linkToDeath, with what it throws; `none` is an abort of the process.
pub java_link_to_death :
    (List ℕ → ℕ) → Memory → ℕ → ℕ → JavaProxy → Option (Option Exception × JavaProxy)
unfolding add_recipient after_link
java_link_to_death alloc mem obj flags p =
    let address = alloc (addresses p.recipients) in
    let jdr : JavaRecipient = record { address = address; object = obj; strong = true } in
    if obj == 0
    then some (some (raise null_pointer_exception no_text), p)
    else after_link address (record p { recipients = add_recipient jdr p.recipients })
        (link_to_death mem (record { recipient = address; cookie = 0; flags = flags }) p.native)

-- The end of unlinkToDeath: what it returns, or throws.
unlink_result : Status → Option Exception × Bool
unlink_result err =
    if is_no_error err || is_dead_object err
    then (none, true)
    else (some (raise no_such_element_exception death_link_does_not_exist), false)

after_unlink : JavaProxy → Status × Option ℕ × BpBinder × List Effect → Status × JavaProxy
unfolding remove_recipient
after_unlink p (err, out, q, es) =
    let p' = record p { native = q; effects = p.effects ++ es } in
    (
      err,
      elim out [
        | none ↦ p'
        | some address ↦
            if is_no_error err
            then record p' { recipients = remove_recipient address p.recipients }
            else p'
      ],
    )

unlink_recipient : ℕ → JavaProxy → Option JavaRecipient → Status × JavaProxy
unfolding after_unlink
unlink_recipient flags p none = (name_not_found, p)
unlink_recipient flags p (some r) = after_unlink p (unlink_to_death r.address 0 flags p.native)

-- android_os_BinderProxy_unlinkToDeath, with what it throws and returns.
pub java_unlink_to_death : (ℕ → Bool) → ℕ → ℕ → JavaProxy → (Option Exception × Bool) × JavaProxy
unfolding unlink_recipient unlink_result find_recipient
java_unlink_to_death collected obj flags p =
    let (err, p') = unlink_recipient flags p (find_recipient collected obj p.recipients) in
    if obj == 0
    then ((some (raise null_pointer_exception no_text), false), p)
    else (unlink_result err, p')

-- `binderDied` of the recipient at an address: the notice, and the weak reference in place of the
-- strong one.
pub binder_died_at : ℕ → List JavaRecipient → List JavaRecipient × List ℕ
binder_died_at address [] = ([], [])
binder_died_at address (r ∷ rs) =
    let (rest, notices) = binder_died_at address rs in
    if r.address == address
    then (if r.strong then (record r { strong = false } ∷ rs, r.object ∷ []) else (r ∷ rs, []))
    else (r ∷ rest, notices)

pub deliver : List Effect → List JavaRecipient → List JavaRecipient × List ℕ
unfolding binder_died_at
deliver [] rs = (rs, [])
deliver (binder_died address ∷ es) rs =
    let (rs', notices) = binder_died_at address rs in
    let (rs'', more) = deliver es rs' in (rs'', notices ++ more)
deliver (e ∷ es) rs = deliver es rs

-- The obituary of the BpBinder reaches the recipients; the list holds all of them.
pub java_obituary : JavaProxy → JavaProxy
unfolding deliver
java_obituary p =
    let (q, es) = send_obituary (λ address. true) p.native in
    let (rs, notices) = deliver es p.recipients in
    record {
      native = q;
      recipients = rs;
      notices = p.notices ++ notices;
      effects = p.effects ++ es;
    }
