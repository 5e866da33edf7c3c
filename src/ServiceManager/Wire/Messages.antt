-- ===== src/ServiceManager/Wire/Messages.antt =====
-- Requests written into a buffer, and the handling of one that looks for a service
-- (native/service_manager.c).
use learn_node.Base.{
  some_same, ℕ, ◌*◌, ◌≤◌, ◌<◌, ◌≡◌, ◌⊎◌, refl, sym, ap, ◌∙◌, subst, false, some, List, [], ◌∷◌,
  ◌++◌, length, inl, inr, arith,
}
use learn_node.IpcThreadState.{TransactionData}
use learn_node.BinderDriver.Objects.{Translation}
use learn_node.BinderIo.{BinderIo, bio_init, bio_get_uint32, bio_get_string16}
use learn_node.BinderIo.Items.{
  Item, word, name, get_item, get_all, put_all, delivered, translate_items, AreItems,
}
use learn_node.BinderIo.Items.RoundTrip.{put_all-get_all}
use learn_node.ServiceManager.{
  Platform, Environment, Manager, svcmgr_id, refresh, dispatch, check_id, get_service,
  svcmgr_handler,
}
use learn_node.ServiceManager.Wire.{
  first_read, name_read, check_id-dispatch, svcmgr_handler-check_id,
}

-- A buffer to write a message in, as bio_init takes it.
pub record Room : Type 0 where
  pub memory : List ℕ
  pub offsets : List ℕ
  pub maxdata : ℕ
  pub maxoffs : ℕ

abbrev pub empty : Room → BinderIo
empty b = bio_init b.memory b.offsets b.maxdata b.maxoffs

abbrev pub written : List Item → Room → BinderIo
written is b = put_all is (empty b)

-- The items are ones that a message has, the buffer is as large as it says, and they fit.
abbrev pub IsWhole : List Item → Room → Type 0
IsWhole is b =
    AreItems is
    × (b.maxdata ≤ 2 * length b.memory)
    × (b.maxoffs ≤ length b.offsets)
    × ((written is b).overflow ≡ false)

-- A whole message is delivered, and its items are read as they are for the receiver.
pub whole-read :
    (t : Translation) (is is' : List Item) (b : Room)
    → IsWhole is b
    → translate_items t is ≡ some is'
    → (r : BinderIo) × (delivered t (written is b) ≡ some r) × ((get_all is' r).0 ≡ is')
whole-read t is is' b (ok, large, many, fine) known =
    let (r, delivery, all, _) =
      put_all-get_all is is' t b.memory b.offsets b.maxdata b.maxoffs ok large many fine known in
    (r, delivery, all)

pub message_read :
    (t : Translation) (is is' : List Item) (b : Room) (msg : BinderIo)
    → IsWhole is b
    → translate_items t is ≡ some is'
    → delivered t (written is b) ≡ some msg
    → (get_all is' msg).0 ≡ is'
message_read t is is' b msg whole known delivery =
    let (r, delivery', all) = whole-read t is is' b whole known in
    subst (λ x. (get_all is' x).0 ≡ is') (some_same r msg (sym delivery' ∙ delivery)) all

abbrev pub find_items : ℕ → List ℕ → List Item
find_items policy s = word policy ∷ name svcmgr_id ∷ name s ∷ []

abbrev pub IsFindCode : ℕ → Type 0
IsFindCode c = (c ≡ 1) ⊎ (c ≡ 2)

pub dispatch-get_service :
    (p : Platform) (env : Environment) (txn : TransactionData) (m : Manager) (msg reply : BinderIo)
    → IsFindCode txn.code
    → dispatch p env txn m msg reply
      ≡ (let named = bio_get_string16 msg in get_service p txn m reply (named.0, named.1))
unfolding dispatch
dispatch-get_service p env txn m msg reply (inl one) = rw one refl
dispatch-get_service p env txn m msg reply (inr two) = rw two refl

pub find_below : (c : ℕ) → IsFindCode c → c < 5
find_below c (inl one) = omega (arith, one)
find_below c (inr two) = omega (arith, two)

-- A request to find a service, of which the items are read.
pub handled_find :
    (p : Platform) (env : Environment) (txn : TransactionData) (m : Manager) (msg reply : BinderIo)
    (policy : ℕ) (s : List ℕ)
    → txn.target ≡ 0
    → IsFindCode txn.code
    → 0 < length s
    → (get_all (find_items policy s) msg).0 ≡ find_items policy s
    → (tail : List ℕ) × (svcmgr_handler p env txn m msg reply
        ≡ get_service p txn (refresh env m) reply (length s, some (s ++ tail)))
unfolding get_item
handled_find p env txn m msg reply policy s target code some_units all =
    let (word_is, rest1) = first_read (word policy) _ msg all in
    let r1 = (bio_get_uint32 msg).1 in
    let (id_is, rest2) = first_read (name svcmgr_id) _ r1 rest1 in
    let (len1, o1, r2) = bio_get_string16 r1 in
    let (name_is, rest3) = first_read (name s) _ r2 rest2 in
    let (len2, o2, r3) = bio_get_string16 r2 in
    let (id_len, id_tail, id_units) = name_read svcmgr_id r1 (omega arith) id_is in
    let (len_is, tail, units) = name_read s r2 some_units name_is in
    let m' = refresh env m in
    (
      tail,
      svcmgr_handler-check_id p env txn m msg reply target (find_below txn.code code)
          ∙ (ap (λ l. check_id p env txn m r2 reply (l, o1)) id_len
              ∙ (ap (λ o. check_id p env txn m r2 reply (26, o)) id_units
                  ∙ (check_id-dispatch p env txn m r2 reply id_tail
                      ∙ (dispatch-get_service p env txn m' r2 reply code
                          ∙ (ap (λ l. get_service p txn m' reply (l, o2)) len_is
                              ∙ ap (λ o. get_service p txn m' reply (length s, o)) units))))),
    )
