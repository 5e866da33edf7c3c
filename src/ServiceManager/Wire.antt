-- ===== src/ServiceManager/Wire.antt =====
-- Requests to native/service_manager.c as they are written into a message by native/binder.c.
pub mod Messages
pub mod Found
pub mod Served
use learn_node.Base.{
  ℕ, ◌+◌, ◌*◌, ◌^◌, ◌≤◌, ◌<◌, ◌≡◌, ◌≢◌, refl, sym, ap, ◌∙◌, Bool, true, false, not, Option, none,
  some, List, [], ◌∷◌, ◌++◌, leb, ◌==◌, if◌then◌else◌, length, take, drop, take-append-drop,
  length-take, take-append_len, Bool-cases, Option-cases, inl, inr, arith,
}
use learn_node.IpcThreadState.{TransactionData}
use learn_node.BinderIo.{
  BinderIo, bio_init, bio_get_uint32, bio_get_string16, bio_get_ref, bio_put_uint32, until_zero,
}
use learn_node.BinderIo.Items.{
  Item, word, ref, name, get_item, get_all, put_all, string_at, AreItems,
}
use learn_node.BinderIo.Items.RoundTrip.{put_all-get_all}
use learn_node.ServiceManager.{
  Platform, Environment, Manager, Handled, svcmgr_id, refresh, dispatch, is_svcmgr_id, check_id,
  add_service, do_add_service, svcmgr_handler, ping_transaction, units_eq,
}
use learn_node.ServiceManager.Registry.{units_eq_self}

-- What is read first, and what behind it.
pub first_read :
    (i : Item) (is : List Item) (r : BinderIo)
    → (get_all (i ∷ is) r).0 ≡ i ∷ is
    → ((get_item i r).0 ≡ i) × ((get_all is (get_item i r).1).0 ≡ is)
unfolding get_all
first_read i is r e = (cc, cc)

pub word_read : (n : ℕ) (r : BinderIo) → (get_item (word n) r).0 ≡ word n → (bio_get_uint32 r).0 ≡ n
unfolding get_item
word_read n r e = cc

pub ref_read : (h : ℕ) (r : BinderIo) → (get_item (ref h) r).0 ≡ ref h → (bio_get_ref r).0 ≡ h
unfolding get_item
ref_read h r e = cc

-- A string that is not empty is read with its length, in front of what the rounding added.
string_found :
    (s : List ℕ) (len : ℕ) (o : Option (List ℕ))
    → 0 < length s
    → string_at len o ≡ s
    → (len ≡ length s) × (tail : List ℕ) × (o ≡ some (s ++ tail))
string_found s len none some_units e = absurd (omega (arith, ap length e))
string_found s len (some t) some_units e = elim (Bool-cases (leb len (length t))) [
  | inl fits ↦
      let whole : string_at len (some t) ≡ take len t = rw fits refl in
      let same : take len t ≡ s = sym whole ∙ e in
      (
        sym (length-take len t (ground arith)) ∙ ap length same,
        drop len t,
        ap some (sym (take-append-drop len t) ∙ ap (λ l. l ++ drop len t) same),
      )
  | inr cut ↦
      let whole : string_at len (some t) ≡ [] = rw cut refl in
      absurd (omega (arith, ap length (sym whole ∙ e)))
]

pub name_read :
    (s : List ℕ) (r : BinderIo)
    → 0 < length s
    → (get_item (name s) r).0 ≡ name s
    → ((bio_get_string16 r).0 ≡ length s)
      × (tail : List ℕ) × ((bio_get_string16 r).1 ≡ some (s ++ tail))
unfolding get_item
name_read s r some_units e =
    string_found s (bio_get_string16 r).0 (bio_get_string16 r).1 some_units cc

-- The test of the interface, at its name.
pub is_svcmgr_id-name : (tail : List ℕ) → is_svcmgr_id 26 (svcmgr_id ++ tail) ≡ true
unfolding is_svcmgr_id
is_svcmgr_id-name tail = rw (take-append_len 26 svcmgr_id tail refl, units_eq_self svcmgr_id) refl

-- The request to add a service, as it is to be in the message.
abbrev pub add_items : ℕ → List ℕ → ℕ → ℕ → List Item
add_items policy s handle allow =
    word policy ∷ name svcmgr_id ∷ name s ∷ ref handle ∷ word allow ∷ []

-- What comes of it; `sh` and `l` are as the handler has them by then.
abbrev pub added :
    Platform → Environment → TransactionData → Manager → BinderIo → List ℕ → ℕ → ℕ → ℕ → Handled
added p env txn m reply s16 len handle allow =
    let (ok, svclist, commands) =
      do_add_service p m.sehandle env.memory s16 len handle txn.sender_euid (not (allow == 0))
        txn.sender_pid m.svclist in
    (ok, record m { svclist = svclist }, if ok then bio_put_uint32 0 reply else reply, commands)

-- The parts of the handler, one behind the other.
module _ (p : Platform) (env : Environment) (txn : TransactionData) where
  add_service-added :
      (m : Manager) (msg reply : BinderIo) (s16 : List ℕ) (len handle allow : ℕ)
      → (bio_get_ref msg).0 ≡ handle
      → (bio_get_uint32 (bio_get_ref msg).1).0 ≡ allow
      → add_service p env txn m msg reply (len, some s16)
        ≡ added p env txn m reply s16 len handle allow
  unfolding add_service
  add_service-added m msg reply s16 len handle allow h a =
      ap (λ k. added p env txn m reply s16 len k (bio_get_uint32 (bio_get_ref msg).1).0) h
      ∙ ap (added p env txn m reply s16 len handle) a

  dispatch-add_service :
      (m : Manager) (msg reply : BinderIo)
      → txn.code ≡ 3
      → dispatch p env txn m msg reply ≡ (
          let named = bio_get_string16 msg in
          add_service p env txn m named.2 reply (named.0, named.1))
  unfolding dispatch
  dispatch-add_service m msg reply code = rw code refl

  pub check_id-dispatch :
      (m : Manager) (msg reply : BinderIo) (tail : List ℕ)
      → check_id p env txn m msg reply (26, some (svcmgr_id ++ tail))
        ≡ dispatch p env txn (refresh env m) msg reply
  unfolding check_id
  check_id-dispatch m msg reply tail = rw (is_svcmgr_id-name tail) refl

  pub svcmgr_handler-check_id :
      (m : Manager) (msg reply : BinderIo)
      → txn.target ≡ 0
      → txn.code < 5
      → svcmgr_handler p env txn m msg reply ≡ (
          let named = bio_get_string16 (bio_get_uint32 msg).1 in
          check_id p env txn m named.2 reply (named.0, named.1))
  unfolding svcmgr_handler
  svcmgr_handler-check_id m msg reply target code =
      let other : (txn.code == ping_transaction) ≡ false = ground arith in rw (target, other) refl

-- A message of which the items are read.
pub handled_items :
    (p : Platform) (env : Environment) (txn : TransactionData) (m : Manager) (msg reply : BinderIo)
    (policy : ℕ) (s : List ℕ) (handle allow : ℕ)
    → txn.target ≡ 0
    → txn.code ≡ 3
    → 0 < length s
    → (get_all (add_items policy s handle allow) msg).0 ≡ add_items policy s handle allow
    → (tail : List ℕ) × (svcmgr_handler p env txn m msg reply
        ≡ added p env txn (refresh env m) reply (s ++ tail) (length s) handle allow)
unfolding get_item
handled_items p env txn m msg reply policy s handle allow target code some_units all =
    let (word_is, rest1) = first_read (word policy) _ msg all in
    let r1 = (bio_get_uint32 msg).1 in
    let (id_is, rest2) = first_read (name svcmgr_id) _ r1 rest1 in
    let (len1, o1, r2) = bio_get_string16 r1 in
    let (name_is, rest3) = first_read (name s) _ r2 rest2 in
    let (len2, o2, r3) = bio_get_string16 r2 in
    let (ref_is, rest4) = first_read (ref handle) _ r3 rest3 in
    let (allow_is, rest5) = first_read (word allow) [] (bio_get_ref r3).1 rest4 in
    let (id_len, id_tail, id_units) = name_read svcmgr_id r1 (omega arith) id_is in
    let (len_is, tail, units) = name_read s r2 some_units name_is in
    let m' = refresh env m in
    (
      tail,
      svcmgr_handler-check_id p env txn m msg reply target (omega arith)
          ∙ (ap (λ l. check_id p env txn m r2 reply (l, o1)) id_len
              ∙ (ap (λ o. check_id p env txn m r2 reply (26, o)) id_units
                  ∙ (check_id-dispatch p env txn m r2 reply id_tail
                      ∙ (dispatch-add_service p env txn m' r2 reply code
                          ∙ (ap (λ l. add_service p env txn m' r3 reply (l, o2)) len_is
                              ∙ (ap (λ o. add_service p env txn m' r3 reply (length s, o)) units
                                  ∙ add_service-added p env txn m' r3 reply (s ++ tail) (length s)
                                      handle allow (ref_read handle r3 ref_is)
                                      (word_read allow (bio_get_ref r3).1 allow_is))))))),
    )
