-- ===== src/ServiceManager.antt =====
-- native/service_manager.c: the list of services, what adds to it and looks into it, and the handler
-- of the requests. A name is a list of 16-bit units, and an svcinfo is named by its address. What the
-- program writes to the driver is a list of the commands of IpcThreadState.
pub mod Registry
pub mod Wire
mod Tests
use learn_node.Base.{
  ℕ, zero, suc, ◌+◌, ◌%◌, ◌^◌, Bool, true, false, not, Option, none, some, List, [], ◌∷◌, ◌++◌, map,
  ltb, leb, ◌==◌, if◌then◌else◌, length, take, get_elem?, ◌&&◌, ◌||◌, is_some,
}
use learn_node.IpcThreadState.{
  Command, bc_acquire, bc_release, bc_request_death_notification, TransactionData,
}
use learn_node.BinderIo.{
  BinderIo, bio_get_uint32, bio_get_string16, bio_get_ref, bio_put_ref, bio_put_uint32,
  bio_put_string16, until_zero,
}

-- What the program takes from elsewhere: multiuser_get_app_id and the numbers of
-- android_filesystem_config.h, and SELinux: the context of a process, that of a name by the handle of
-- the service contexts, and whether a context may do something to another. `own_context` is
-- service_manager_context.
pub data Permission : Type 0 where
  add find list : Permission

pub record Platform : Type 0 where
  pub get_app_id : ℕ → ℕ
  pub aid_app : ℕ
  pub aid_user : ℕ
  pub aid_isolated_start : ℕ
  pub aid_isolated_end : ℕ
  pub getpidcon : ℕ → Option ℕ
  pub selabel_lookup : ℕ → List ℕ → Option ℕ
  pub check_access : ℕ → ℕ → Permission → Bool
  pub own_context : ℕ

pub record SvcInfo : Type 0 where
  pub address : ℕ
  pub handle : ℕ
  pub allow_isolated : Bool
  pub name : List ℕ

abbrev pub str8_max : ℕ
str8_max = 127

-- At most 127 units, up to a 0, each cut to a byte; the end is not part of the list.
pub str8 : List ℕ → ℕ → List ℕ
str8 x x_len =
    map (λ c. c % 2 ^ 8) (until_zero (take (if ltb x_len str8_max then x_len else str8_max) x))

module _ (p : Platform) (sehandle : ℕ) where
  check_mac_perms : ℕ → ℕ → Permission → Bool
  check_mac_perms spid tctx perm = elim (p.getpidcon spid) [
    | none ↦ false
    | some sctx ↦ p.check_access sctx tctx perm
  ]

  check_mac_perms_from_getcon : ℕ → Permission → Bool
  unfolding check_mac_perms
  check_mac_perms_from_getcon spid perm = check_mac_perms spid p.own_context perm

  -- Without a handle to look names up with (sehandle) the program aborts; here it goes on.
  pub check_mac_perms_from_lookup : ℕ → Permission → List ℕ → Bool
  unfolding check_mac_perms
  check_mac_perms_from_lookup spid perm name = elim (p.selabel_lookup sehandle name) [
    | none ↦ false
    | some tctx ↦ check_mac_perms spid tctx perm
  ]

  pub svc_can_register : List ℕ → ℕ → ℕ → ℕ → Bool
  svc_can_register name name_len spid uid =
      if leb p.aid_app (p.get_app_id uid)
      then false
      else check_mac_perms_from_lookup spid add (str8 name name_len)

  pub svc_can_list : ℕ → Bool
  svc_can_list spid = check_mac_perms_from_getcon spid list

  pub svc_can_find : List ℕ → ℕ → ℕ → Bool
  svc_can_find name name_len spid = check_mac_perms_from_lookup spid find (str8 name name_len)

-- memcmp of two names of the same length
pub units_eq : List ℕ → List ℕ → Bool
units_eq [] [] = true
units_eq [] (y ∷ ys) = false
units_eq (x ∷ xs) [] = false
units_eq (x ∷ xs) (y ∷ ys) = x == y && units_eq xs ys

pub find_svc : List ℕ → ℕ → List SvcInfo → Option SvcInfo
find_svc s16 len [] = none
find_svc s16 len (si ∷ svclist) =
    if len == length si.name && units_eq (take len s16) si.name
    then some si
    else find_svc s16 len svclist

-- A write through the pointer to an svcinfo.
pub set_handle : ℕ → ℕ → List SvcInfo → List SvcInfo
set_handle address handle [] = []
set_handle address handle (si ∷ svclist) =
    if si.address == address
    then record si { handle = handle } ∷ svclist
    else si ∷ set_handle address handle svclist

pub at_address : ℕ → List SvcInfo → Option SvcInfo
at_address address [] = none
at_address address (si ∷ svclist) =
    if si.address == address then some si else at_address address svclist

pub release : SvcInfo → List SvcInfo → List SvcInfo × List Command
unfolding set_handle
release si svclist =
    if si.handle == 0
    then (svclist, [])
    else (set_handle si.address 0 svclist, bc_release si.handle ∷ [])

-- The pointer is the svcinfo of the death notice; it is never freed.
pub svcinfo_death : ℕ → List SvcInfo → List SvcInfo × List Command
unfolding at_address release
svcinfo_death ptr svclist = elim (at_address ptr svclist) [
  | none ↦ (svclist, [])
  | some si ↦ release si svclist
]

abbrev pub is_isolated : Platform → ℕ → Bool
is_isolated p uid =
    let appid = uid % p.aid_user in leb p.aid_isolated_start appid && leb appid p.aid_isolated_end

-- 0 where there is no such service, or the caller may not have it.
pub found : Platform → ℕ → List ℕ → ℕ → ℕ → ℕ → Option SvcInfo → ℕ
found p sehandle s len uid spid none = 0
found p sehandle s len uid spid (some si) =
    if si.handle == 0
    then 0
    else if not si.allow_isolated && is_isolated p uid
    then 0
    else if svc_can_find p sehandle s len spid
    then si.handle
    else 0

pub do_find_service : Platform → ℕ → List ℕ → ℕ → ℕ → ℕ → List SvcInfo → ℕ
unfolding found
do_find_service p sehandle s len uid spid svclist =
    found p sehandle s len uid spid (find_svc s len svclist)

-- binder_acquire and binder_link_to_death; the cookie is the address of the svcinfo's `death`.
abbrev pub watch_commands : ℕ → ℕ → List Command
watch_commands handle address =
    bc_acquire handle ∷ bc_request_death_notification handle address ∷ []

-- The service is known: a handle that it has is given back first.
pub override : SvcInfo → ℕ → List SvcInfo → Bool × List SvcInfo × List Command
unfolding release
override si handle svclist =
    let (svclist', released) = release si svclist in
    (true, set_handle si.address handle svclist', released ++ watch_commands handle si.address)

-- `memory` is what malloc returns.
pub register :
    Option ℕ
    → List ℕ
    → ℕ
    → ℕ
    → Bool
    → Option SvcInfo
    → List SvcInfo
    → Bool × List SvcInfo × List Command
unfolding override
register memory s len handle allow_isolated (some si) svclist = override si handle svclist
register none s len handle allow_isolated none svclist = (false, svclist, [])
register (some address) s len handle allow_isolated none svclist = (
  true,
  record { address = address; handle = handle; allow_isolated = allow_isolated; name = take len s }
      ∷ svclist,
  watch_commands handle address,
)

-- `true` is the result 0, `false` -1.
pub do_add_service :
    Platform
    → ℕ
    → Option ℕ
    → List ℕ
    → ℕ
    → ℕ
    → ℕ
    → Bool
    → ℕ
    → List SvcInfo
    → Bool × List SvcInfo × List Command
unfolding register
do_add_service p sehandle memory s len handle uid allow_isolated spid svclist =
    if handle == 0 || len == 0 || ltb 127 len
    then (false, svclist, [])
    else if svc_can_register p sehandle s len spid uid
    then register memory s len handle allow_isolated (find_svc s len svclist) svclist
    else (false, svclist, [])

abbrev pub ping_transaction : ℕ
ping_transaction = 0x5f504e47

abbrev pub svcmgr_id : List ℕ
svcmgr_id =
    b'a' ∷ b'n' ∷ b'd' ∷ b'r' ∷ b'o' ∷ b'i' ∷ b'd' ∷ b'.' ∷ b'o' ∷ b's' ∷ b'.' ∷ b'I' ∷ b'S' ∷ b'e'
    ∷ b'r' ∷ b'v' ∷ b'i' ∷ b'c' ∷ b'e' ∷ b'M' ∷ b'a' ∷ b'n' ∷ b'a' ∷ b'g' ∷ b'e' ∷ b'r' ∷ []

-- The variables of the program.
pub record Manager : Type 0 where
  pub sehandle : ℕ
  pub svclist : List SvcInfo

-- What the system answers during one request: malloc, and the new handle of the service contexts, if
-- they were changed and could be read.
pub record Environment : Type 0 where
  pub memory : Option ℕ
  pub new_sehandle : Option ℕ

-- The result (`true` for 0), the program's variables, the reply, and the commands written.
abbrev pub Handled : Type 0
Handled = Bool × Manager × BinderIo × List Command

-- SVC_MGR_GET_SERVICE and SVC_MGR_CHECK_SERVICE
pub get_service : Platform → TransactionData → Manager → BinderIo → (ℕ × Option (List ℕ)) → Handled
get_service p txn m reply (len, none) = (false, m, reply, [])
get_service p txn m reply (len, some s) =
    let handle = do_find_service p m.sehandle s len txn.sender_euid txn.sender_pid m.svclist in
    (true, m, if handle == 0 then bio_put_uint32 0 reply else bio_put_ref handle reply, [])

-- SVC_MGR_ADD_SERVICE; `msg` is what is behind the name.
pub add_service :
    Platform
    → Environment
    → TransactionData
    → Manager
    → BinderIo
    → BinderIo
    → (ℕ × Option (List ℕ))
    → Handled
add_service p env txn m msg reply (len, none) = (false, m, reply, [])
add_service p env txn m msg reply (len, some s) =
    let (handle, msg') = bio_get_ref msg in
    let (allow, _) = bio_get_uint32 msg' in
    let (ok, svclist, commands) =
      do_add_service p m.sehandle env.memory s len handle txn.sender_euid (not (allow == 0))
        txn.sender_pid m.svclist in
    (ok, record m { svclist = svclist }, if ok then bio_put_uint32 0 reply else reply, commands)

-- SVC_MGR_LIST_SERVICES: the name of the service at that place in the list.
list_services : Platform → TransactionData → Manager → BinderIo → ℕ → Handled
list_services p txn m reply n =
    if svc_can_list p m.sehandle txn.sender_pid
    then elim (get_elem? m.svclist n) [
      | none ↦ (false, m, reply, [])
      | some si ↦ (true, m, bio_put_string16 (some si.name) reply, [])
    ]
    else (false, m, reply, [])

-- selinux_status_updated
pub refresh : Environment → Manager → Manager
refresh env m =
    if m.sehandle == 0
    then m
    else elim env.new_sehandle [ none ↦ m | some h ↦ record m { sehandle = h } ]

-- The switch on the code.
pub dispatch : Platform → Environment → TransactionData → Manager → BinderIo → BinderIo → Handled
unfolding get_service add_service list_services
dispatch p env txn m msg reply =
    let named = bio_get_string16 msg in
    if txn.code == 1 || txn.code == 2
    then get_service p txn m reply (named.0, named.1)
    else if txn.code == 3
    then add_service p env txn m named.2 reply (named.0, named.1)
    else if txn.code == 4
    then list_services p txn m reply (bio_get_uint32 msg).0
    else (false, m, reply, [])

-- The name of the interface, at the pointer that bio_get_string16 gave.
pub is_svcmgr_id : ℕ → List ℕ → Bool
is_svcmgr_id len s = len == length svcmgr_id && units_eq svcmgr_id (take (length svcmgr_id) s)

pub check_id :
    Platform
    → Environment
    → TransactionData
    → Manager
    → BinderIo
    → BinderIo
    → (ℕ × Option (List ℕ))
    → Handled
unfolding is_svcmgr_id refresh dispatch
check_id p env txn m msg reply (len, none) = (false, m, reply, [])
check_id p env txn m msg reply (len, some s) =
    if is_svcmgr_id len s
    then dispatch p env txn (refresh env m) msg reply
    else (false, m, reply, [])

pub svcmgr_handler :
    Platform → Environment → TransactionData → Manager → BinderIo → BinderIo → Handled
unfolding check_id
svcmgr_handler p env txn m msg reply =
    if not (txn.target == 0)
    then (false, m, reply, [])
    else if txn.code == ping_transaction
    then (true, m, reply, [])
    else let (strict_policy, msg1) = bio_get_uint32 msg in
      let (len, s, msg2) = bio_get_string16 msg1 in check_id p env txn m msg2 reply (len, s)
