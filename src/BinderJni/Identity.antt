-- ===== src/BinderJni/Identity.antt =====
-- The token of clearCallingIdentity in native/IPCThreadState.cpp and jni/android_util_Binder.cpp. A
-- pid_t, a uid_t and the token are the words of 32, 32 and 64 bits that hold them; a pid is below
-- zero from `2 ^ 31` on.
use learn_node.Base.{
  ℕ, ◌+◌, ◌-◌, ◌*◌, ◌/◌, ◌%◌, ◌^◌, ◌≤◌, ◌<◌, ◌≡◌, refl, ◌⊎◌, inl, inr, ◌&&◌, Option, none, some,
  ltb, lt→ltb, Bool-cases, if◌then◌else◌, arith,
}
use learn_node.IpcThreadState.{Thread}

-- `((int64_t)uid << 32) | pid`: the upper half of a pid below zero, which the conversion to 64 bits
-- fills with ones, takes the uid's place.
abbrev pub identity_token : ℕ → ℕ → ℕ
identity_token uid pid =
    if ltb pid (2 ^ 31) then uid * 2 ^ 32 + pid else (2 ^ 32 - 1) * 2 ^ 32 + pid

-- `own_pid` and `own_uid` are what getpid and getuid return.
unfoldable pub clear_calling_identity : ℕ → ℕ → Thread → ℕ × Thread
clear_calling_identity own_pid own_uid s = (
  identity_token s.calling_uid s.calling_pid,
  record s { calling_pid = own_pid; calling_uid = own_uid },
)

pub restore_calling_identity : ℕ → Thread → Thread
restore_calling_identity token s = record s {
  calling_uid = token / 2 ^ 32;
  calling_pid = token % 2 ^ 32;
}

-- android_os_Binder_restoreCallingIdentity, none where it throws.
pub jni_restore_calling_identity : ℕ → Thread → Option Thread
unfolding restore_calling_identity
jni_restore_calling_identity token s =
    let uid = token / 2 ^ 32 in
    if ltb 0 uid && ltb uid 999 then none else some (restore_calling_identity token s)

split-token :
    (uid pid : ℕ)
    → pid < 2 ^ 32
    → ((uid * 2 ^ 32 + pid) / 2 ^ 32 ≡ uid) × ((uid * 2 ^ 32 + pid) % 2 ^ 32 ≡ pid)
split-token uid pid h = (omega arith, omega arith)

-- Java's clearCallingIdentity makes the thread the process's own, and restoreCallingIdentity with
-- its token brings the caller back, whatever was done to the thread meanwhile, where the caller's
-- pid is not below zero and its uid is none of 1 to 998. With a uid of 1 to 998 it throws.
pub jni_restore-clear :
    (own_pid own_uid : ℕ) (s t : Thread)
    → s.calling_pid < 2 ^ 31
    → let (token, cleared) = clear_calling_identity own_pid own_uid s in
      (cleared.calling_pid ≡ own_pid)
      × (cleared.calling_uid ≡ own_uid)
      × (((0 < s.calling_uid)
            × (s.calling_uid < 999)
            × (jni_restore_calling_identity token t ≡ none))
          ⊎ (((s.calling_uid ≡ 0) ⊎ (999 ≤ s.calling_uid))
              × (jni_restore_calling_identity token t
                  ≡ some (record t { calling_pid = s.calling_pid; calling_uid = s.calling_uid }))))
unfolding clear_calling_identity jni_restore_calling_identity
jni_restore-clear own_pid own_uid s t h =
    let (high, low) = split-token s.calling_uid s.calling_pid (omega arith) in
    let token : identity_token s.calling_uid s.calling_pid
        ≡ s.calling_uid * 2 ^ 32 + s.calling_pid =
      rw (lt→ltb s.calling_pid (2 ^ 31) h) refl in
    elim (Bool-cases (ltb 0 s.calling_uid && ltb s.calling_uid 999)) [
      | inl bad ↦ (refl, refl, inl (ground arith, ground arith, simp (token, high, low, bad) refl))
      | inr fine ↦ (refl, refl, inr (ground arith, simp (token, high, low, fine) refl))
    ]
