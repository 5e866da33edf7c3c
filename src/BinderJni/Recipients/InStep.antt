-- ===== src/BinderJni/Recipients/InStep.antt =====
-- The list of a BinderProxy in jni/android_util_Binder.cpp and the vector of its BpBinder stay in
-- step.
use learn_node.Base.{
  ℕ, ◌≡◌, refl, sym, ap, ◌∙◌, ◌≢◌, inl, inr, Bool, true, false, Option, none, some, List, [], ◌∷◌,
  ◌++◌, ◌==◌, arith, Bool-cases,
}
use learn_node.Status.{Status}
use learn_node.BpBinder.{
  BpBinder, Obituary, Effect, ipc, extend_lifetime_weak, inc_weak, binder_died, cleanup, Memory,
  unlink_to_death, send_obituary, new_proxy,
}
use learn_node.BpBinder.Recipients.{
  member, AllDistinct, without, recipients_of, append-AllDistinct, member-append, member-without,
  without-AllDistinct, Linked, link_to_death-Linked, Unlinked, unlink_to_death-Unlinked,
  send_obituary-sent,
}
use learn_node.BinderJni.Recipients.{
  JavaRecipient, JavaProxy, addresses, add_recipient, remove_recipient, recipient_matches,
  find_recipient, after_link, java_link_to_death, after_unlink, unlink_recipient,
  java_unlink_to_death, binder_died_at, deliver, java_obituary,
}
use learn_node.BinderJni.Errors.{Exception}

-- The addresses of the list are distinct and not null and, until the obituary, those that the
-- vector has, in its order.
pub record InStep (p : JavaProxy) : Type 0 where
  pub distinct : AllDistinct (addresses p.recipients)
  pub nonzero : member 0 (addresses p.recipients) ≡ false
  pub same : p.native.obits_sent ≡ false → recipients_of p.native ≡ addresses p.recipients

addresses-add :
    (rs : List JavaRecipient) (r : JavaRecipient)
    → addresses (rs ++ r ∷ []) ≡ addresses rs ++ r.address ∷ []
addresses-add [] r = refl
addresses-add (x ∷ rs) r = ground (arith, addresses-add rs r)

remove-add :
    (rs : List JavaRecipient) (r : JavaRecipient)
    → member r.address (addresses rs) ≡ false
    → remove_recipient r.address (rs ++ r ∷ []) ≡ rs
unfolding remove_recipient
remove-add [] r h = ground arith
remove-add (x ∷ rs) r h = ground (arith, remove-add rs r)

addresses-remove :
    (a : ℕ) (rs : List JavaRecipient) → addresses (remove_recipient a rs) ≡ without a (addresses rs)
unfolding remove_recipient
addresses-remove a [] = refl
addresses-remove a (x ∷ rs) = ground (arith, addresses-remove a rs)

binder_died_at-addresses :
    (a : ℕ) (rs : List JavaRecipient) → addresses (binder_died_at a rs).0 ≡ addresses rs
unfolding binder_died_at
binder_died_at-addresses a [] = refl
binder_died_at-addresses a (r ∷ rs) = ground (arith, binder_died_at-addresses a rs)

deliver-addresses :
    (es : List Effect) (rs : List JavaRecipient) → addresses (deliver es rs).0 ≡ addresses rs
unfolding deliver
deliver-addresses [] rs = refl
deliver-addresses (binder_died a ∷ es) rs =
    deliver-addresses es (binder_died_at a rs).0 ∙ binder_died_at-addresses a rs
deliver-addresses (ipc call ∷ es) rs = deliver-addresses es rs
deliver-addresses (extend_lifetime_weak n ∷ es) rs = deliver-addresses es rs
deliver-addresses (inc_weak n ∷ es) rs = deliver-addresses es rs
deliver-addresses (cleanup c ∷ es) rs = deliver-addresses es rs

find-nonzero :
    (collected : ℕ → Bool) (obj : ℕ) (rs : List JavaRecipient) (r : JavaRecipient)
    → member 0 (addresses rs) ≡ false
    → find_recipient collected obj rs ≡ some r
    → r.address ≢ 0
unfolding find_recipient
find-nonzero collected obj [] r nz e = absurd (cc)
find-nonzero collected obj (x ∷ rs) r nz e = elim (Bool-cases (recipient_matches collected obj x)) [
  | inl hit ↦ ground arith
  | inr miss ↦ find-nonzero collected obj rs r (ground arith) (ground arith)
]

obituary-InStep : (p : JavaProxy) → InStep p → InStep (java_obituary p)
unfolding java_obituary
obituary-InStep p h =
    let kept = deliver-addresses (send_obituary (λ address. true) p.native).1 p.recipients in
    record {
      distinct = rw kept h.distinct;
      nonzero = rw kept h.nonzero;
      same = λ open_. absurd (cc (open_, send_obituary-sent (λ address. true) p.native));
    }

-- An aborted call leaves the process, and so the proxy, as it was.
abbrev pub stepped : JavaProxy → Option (Option Exception × JavaProxy) → JavaProxy
stepped p none = p
stepped p (some (thrown, q)) = q

after_link-InStep :
    (r : JavaRecipient) (ob : Obituary) (p : JavaProxy) (res : Status × BpBinder × List Effect)
    → InStep p
    → ob.recipient ≡ r.address
    → r.address ≢ 0
    → member r.address (addresses p.recipients) ≡ false
    → Linked p.native ob res
    → InStep (
        stepped p (
          after_link r.address (record p { recipients = add_recipient r p.recipients }) (some res)))
unfolding after_link add_recipient
after_link-InStep r ob p (err, b, es) h at ne fresh (sent, inl (ok, recipients)) = rw ok (record {
  distinct =
      rw (addresses-add p.recipients r)
        (append-AllDistinct r.address (addresses p.recipients) h.distinct fresh);
  nonzero =
      rw (addresses-add p.recipients r, member-append 0 r.address (addresses p.recipients))
        (ground (arith, h.nonzero));
  same = λ open_. rw (addresses-add p.recipients r) (recipients ∙ ground (arith, h.same));
})
after_link-InStep r ob p (err, b, es) h at ne fresh (sent, inr (bad, recipients)) = rw bad (record {
  distinct = rw (remove-add p.recipients r fresh) h.distinct;
  nonzero = rw (remove-add p.recipients r fresh) h.nonzero;
  same = λ open_. rw (remove-add p.recipients r fresh) (recipients ∙ h.same (sym sent ∙ open_));
})

module _ (alloc : List ℕ → ℕ) (unused : (xs : List ℕ) → member (alloc xs) xs ≡ false)
    (not_null : (xs : List ℕ) → alloc xs ≢ 0) where
  link-InStep :
      (mem : Memory) (obj flags : ℕ) (p : JavaProxy)
      → InStep p
      → InStep (stepped p (java_link_to_death alloc mem obj flags p))
  unfolding java_link_to_death
  link-InStep mem obj flags p h = elim (Bool-cases (obj == 0)) [
    | inl null ↦ rw null h
    | inr there ↦
        let jdr : JavaRecipient = record {
          address = alloc (addresses p.recipients);
          object = obj;
          strong = true;
        } in
        let ob : Obituary = record { recipient = jdr.address; cookie = 0; flags = flags } in
        let (res, e, linked) =
          link_to_death-Linked mem ob p.native (not_null (addresses p.recipients)) in
        rw (there, e)
          (after_link-InStep jdr ob p res h refl (not_null (addresses p.recipients))
            (unused (addresses p.recipients)) linked)
  ]

after_unlink-InStep :
    (a : ℕ) (p : JavaProxy) (res : Status × Option ℕ × BpBinder × List Effect)
    → InStep p
    → Unlinked a p.native res
    → InStep (after_unlink p res).1
unfolding after_unlink
after_unlink-InStep a p (err, out, b, es) h (sent, inl (ok, named, recipients)) =
    let gone = addresses-remove a p.recipients in
    rw (named, ok)
      (record {
        distinct = rw gone (without-AllDistinct a (addresses p.recipients) h.distinct);
        nonzero = rw gone (member-without 0 a (addresses p.recipients) h.nonzero);
        same = λ open_. rw gone (recipients ∙ ap (without a) (h.same (sym sent ∙ open_)));
      })
after_unlink-InStep a p (err, out, b, es) h (sent, inr (bad, silent, recipients)) =
    rw silent (record {
      distinct = h.distinct;
      nonzero = h.nonzero;
      same = λ open_. recipients ∙ h.same (sym sent ∙ open_);
    })

unlink_recipient-InStep :
    (flags : ℕ) (p : JavaProxy) (found : Option JavaRecipient)
    → InStep p
    → ((r : JavaRecipient) → found ≡ some r → r.address ≢ 0)
    → InStep (unlink_recipient flags p found).1
unfolding unlink_recipient
unlink_recipient-InStep flags p none h nz = h
unlink_recipient-InStep flags p (some r) h nz =
    after_unlink-InStep r.address p (unlink_to_death r.address 0 flags p.native) h (
      unlink_to_death-Unlinked r.address flags p.native (nz r refl)
        (λ open_. rw (h.same open_) h.distinct))

unlink-InStep :
    (collected : ℕ → Bool) (obj flags : ℕ) (p : JavaProxy)
    → InStep p
    → InStep (java_unlink_to_death collected obj flags p).1
unfolding java_unlink_to_death
unlink-InStep collected obj flags p h = elim (Bool-cases (obj == 0)) [
  | inl null ↦ rw null h
  | inr there ↦ rw there (
      unlink_recipient-InStep flags p (find_recipient collected obj p.recipients) h
        (λ r e. find-nonzero collected obj p.recipients r h.nonzero e))
]

-- What Java and the driver do to a BinderProxy.
pub data JavaCall : Type 0 where
  links : Memory → ℕ → ℕ → JavaCall
  unlinks : (ℕ → Bool) → ℕ → ℕ → JavaCall
  dies : JavaCall

pub java_step : (List ℕ → ℕ) → JavaProxy → JavaCall → JavaProxy
java_step alloc p (links mem obj flags) = stepped p (java_link_to_death alloc mem obj flags p)
java_step alloc p (unlinks collected obj flags) = (java_unlink_to_death collected obj flags p).1
java_step alloc p dies = java_obituary p

pub java_run : (List ℕ → ℕ) → JavaProxy → List JavaCall → JavaProxy
unfolding java_step
java_run alloc p [] = p
java_run alloc p (c ∷ cs) = java_run alloc (java_step alloc p c) cs

abbrev pub new_java_proxy : ℕ → ℕ → JavaProxy
new_java_proxy self handle = record {
  native = (new_proxy self handle).0;
  recipients = [];
  notices = [];
  effects = (new_proxy self handle).1;
}

-- Where `new` gives a recipient an address that is not null and that no recipient of the list has,
-- every sequence of linkToDeath and unlinkToDeath calls of Java, failed ones included, and
-- obituaries on a BinderProxy keeps its list in step with its BpBinder: the addresses in the list
-- stay distinct, and until an obituary was sent they are the recipients that the vector of the
-- BpBinder has, in its order.
pub java_run-InStep :
    (alloc : List ℕ → ℕ)
    → ((xs : List ℕ) → member (alloc xs) xs ≡ false)
    → ((xs : List ℕ) → alloc xs ≢ 0)
    → (cs : List JavaCall) (p : JavaProxy) → InStep p
    → InStep (java_run alloc p cs)
unfolding java_run
java_run-InStep alloc unused not_null [] p h = h
java_run-InStep alloc unused not_null (links mem obj flags ∷ cs) p h =
    java_run-InStep alloc unused not_null cs _ (link-InStep alloc unused not_null mem obj flags p h)
java_run-InStep alloc unused not_null (unlinks collected obj flags ∷ cs) p h =
    java_run-InStep alloc unused not_null cs _ (unlink-InStep collected obj flags p h)
java_run-InStep alloc unused not_null (dies ∷ cs) p h =
    java_run-InStep alloc unused not_null cs _ (obituary-InStep p h)
