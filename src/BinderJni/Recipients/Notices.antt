-- ===== src/BinderJni/Recipients/Notices.antt =====
-- Whom an obituary reaches through the list of a BinderProxy in jni/android_util_Binder.cpp.
use learn_node.Base.{
  is_some, ℕ, ◌≡◌, refl, ap, Bool, true, false, List, [], ◌∷◌, ◌++◌, append_assoc, append-nil, map,
  if◌then◌else◌, arith,
}
use learn_node.BpBinder.{BpBinder, Effect, binder_died, send_obituary, death_calls}
use learn_node.IpcCall.{clear_death_notification}
use learn_node.BpBinder.Recipients.{
  member, AllDistinct, send_obituary-reports, send_obituary-sent, send_obituary-silent,
}
use learn_node.BinderJni.Recipients.{
  JavaRecipient, JavaProxy, addresses, binder_died_at, deliver, java_obituary,
}
use learn_node.BinderJni.Recipients.InStep.{InStep}

-- The Java objects that are held, in order, and the recipients when none is held.
abbrev pub held : List JavaRecipient → List ℕ
held [] = []
held (r ∷ rs) = (if r.strong then r.object ∷ [] else []) ++ held rs

abbrev pub released : List JavaRecipient → List JavaRecipient
released [] = []
released (r ∷ rs) = record r { strong = false } ∷ released rs

died_here :
    (done_ rs : List JavaRecipient) (r : JavaRecipient)
    → member r.address (addresses done_) ≡ false
    → binder_died_at r.address (done_ ++ r ∷ rs)
      ≡ (done_ ++ record r { strong = false } ∷ rs, if r.strong then r.object ∷ [] else [])
unfolding binder_died_at
died_here [] rs r h = ground arith
died_here (d ∷ done_) rs r h = ground (arith, died_here done_ rs r)

distinct-new :
    (done_ rs : List JavaRecipient) (r : JavaRecipient)
    → AllDistinct (addresses (done_ ++ r ∷ rs))
    → member r.address (addresses done_) ≡ false
distinct-new [] rs r d = refl
distinct-new (x ∷ done_) rs r d =
    ground (arith, distinct-new done_ rs r d.1, member-middle r.address done_ rs r)
  where
    member-middle :
        (a : ℕ) (done_ rs : List JavaRecipient) (r : JavaRecipient)
        → member r.address (addresses (done_ ++ r ∷ rs)) ≡ true
    member-middle a [] rs r = ground arith
    member-middle a (x ∷ done_) rs r = ground (arith, member-middle a done_ rs r)

released-addresses :
    (done_ rs : List JavaRecipient) (r : JavaRecipient)
    → addresses ((done_ ++ record r { strong = false } ∷ []) ++ rs) ≡ addresses (done_ ++ r ∷ rs)
released-addresses [] rs r = refl
released-addresses (x ∷ done_) rs r = ap (◌∷◌ x.address) (released-addresses done_ rs r)

deliver-all :
    (rs done_ : List JavaRecipient)
    → AllDistinct (addresses (done_ ++ rs))
    → deliver (map binder_died (addresses rs)) (done_ ++ rs) ≡ (done_ ++ released rs, held rs)
unfolding deliver
deliver-all [] done_ d = refl
deliver-all (r ∷ rs) done_ d =
    let weak : JavaRecipient = record r { strong = false } in
    let ih = deliver-all rs (done_ ++ weak ∷ []) (rw (released-addresses done_ rs r) d) in
    rw (died_here done_ rs r (distinct-new done_ rs r d))
      (ap (λ x. (x.0, (if r.strong then r.object ∷ [] else []) ++ x.1)) (simp append_assoc at ih))

deliver-calls :
    (b : Bool) (p : BpBinder) (es : List Effect) (rs : List JavaRecipient)
    → deliver ((if b then death_calls clear_death_notification p else []) ++ es) rs ≡ deliver es rs
unfolding deliver
deliver-calls true p es rs = refl
deliver-calls false p es rs = refl

-- The first obituary of a BinderProxy whose list is in step with its BpBinder gives a death notice
-- to each Java object that the list holds, once and in the order of the list, and lets go of all of
-- them; a second obituary gives no notice more.
pub java_obituary-notices :
    (p : JavaProxy)
    → InStep p
    → p.native.obits_sent ≡ false
    → ((java_obituary p).notices ≡ p.notices ++ held p.recipients)
      × ((java_obituary p).recipients ≡ released p.recipients)
      × ((java_obituary (java_obituary p)).notices ≡ (java_obituary p).notices)
unfolding java_obituary
java_obituary-notices p h open_ =
    let e : deliver (send_obituary (λ address. true) p.native).1 p.recipients
        ≡ (released p.recipients, held p.recipients) =
      rw
        (
          send_obituary-reports p.native open_,
          deliver-calls (is_some p.native.obituaries) p.native,
          h.same open_,
        )
        (deliver-all p.recipients [] h.distinct) in
    let again =
      send_obituary-silent (λ address. true) (send_obituary (λ address. true) p.native).0
        (send_obituary-sent (λ address. true) p.native) in
    (ap (λ x. p.notices ++ x.1) e, ap (λ x. x.0) e, rw again (append-nil (java_obituary p).notices))
