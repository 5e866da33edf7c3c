-- ===== src/BpBinder/Transact.antt =====
-- The transactions of a proxy, in native/BpBinder.cpp: transact, pingBinder, dump and
-- getInterfaceDescriptor. The IPC below is an argument: from handle, code, data and flags it gives
-- a status and a reply. Of a reply the proxy reads what `Reader` names.
use learn_node.Base.{
  ℕ, ◌≡◌, Bool, true, false, List, [], ◌∷◌, length, arith, ltb, ◌==◌, if◌then◌else◌, map,
}
use learn_node.Status.{Status, not_enough_data, dead_object, is_no_error, is_dead_object}
use learn_node.BpBinder.{BpBinder}

-- The items that a proxy writes into a parcel to send.
pub data Item : Type 0 where
  file_descriptor int32 : ℕ → Item
  string16 : List ℕ → Item

pub data Code : Type 0 where
  interface_transaction ping_transaction dump_transaction : Code
  user : ℕ → Code

abbrev pub Ipc : Type 0 → Type 0
Ipc R = ℕ → Code → List Item → ℕ → Status × R

-- The reads of `Parcel` that the proxy makes on a reply, and the empty parcel.
pub record Reader (R : Type 0) : Type 0 where
  pub data_size : R → ℕ
  pub read_status : R → Status
  pub read_string16 : R → List ℕ
  pub empty : R

-- `sizeof(status_t)`
abbrev pub status_size : ℕ
status_size = 4

module _ {R : Type 0} (reader : Reader R) (ipc : Ipc R) where
  after_transact : BpBinder → Status × R → Status × R × BpBinder
  after_transact p (status, reply) =
      (status, reply, if is_dead_object status then record p { alive = false } else p)

  -- The caller gives a fresh parcel for the reply, and a dead proxy leaves it empty.
  unfoldable pub transact : Code → List Item → ℕ → BpBinder → Status × R × BpBinder
  unfolding after_transact
  transact code items flags p =
      if p.alive
      then after_transact p (ipc p.handle code items flags)
      else (dead_object, reader.empty, p)

  pub ping_binder : BpBinder → Status × BpBinder
  unfolding transact
  ping_binder p =
      let (err, reply, q) = transact ping_transaction [] 0 p in
      if is_no_error err
      then (if ltb (reader.data_size reply) status_size
          then (not_enough_data, q)
          else (reader.read_status reply, q))
      else (err, q)

  pub dump : ℕ → List (List ℕ) → BpBinder → Status × BpBinder
  unfolding transact
  dump fd args p =
      let items = file_descriptor fd ∷ int32 (length args) ∷ map string16 args in
      let (err, _, q) = transact dump_transaction items 0 p in (err, q)

  pub is_descriptor_cached : BpBinder → Bool
  is_descriptor_cached p = if length p.descriptor_cache == 0 then false else true

  store_descriptor : List ℕ → BpBinder → BpBinder
  store_descriptor res p =
      if length p.descriptor_cache == 0 then record p { descriptor_cache = res } else p

  -- The call is made without the lock; `meanwhile` is what other threads do to the proxy then.
  pub get_interface_descriptor : (BpBinder → BpBinder) → BpBinder → List ℕ × BpBinder
  unfolding transact is_descriptor_cached store_descriptor
  get_interface_descriptor meanwhile p =
      let (err, reply, q) = transact interface_transaction [] 0 p in
      let r =
        (if is_no_error err
          then store_descriptor (reader.read_string16 reply) (meanwhile q)
          else meanwhile q) in
      if is_descriptor_cached p then (p.descriptor_cache, p) else (r.descriptor_cache, r)

-- Once a transaction has answered DEAD_OBJECT the proxy is dead, and each later transaction on it,
-- of whatever code and data, answers DEAD_OBJECT with an empty reply, changes nothing, and
-- does not ask the driver: the answer is the same whatever the IPC below would say.
pub transact_dead :
    {R : Type 0} (reader : Reader R) (ipc ipc' : Ipc R) (code code' : Code)
    (items items' : List Item) (flags flags' : ℕ) (p : BpBinder)
    → is_dead_object (transact reader ipc code items flags p).0 ≡ true
    → let q = (transact reader ipc code items flags p).2 in
      (q.alive ≡ false)
      × (transact reader ipc' code' items' flags' q ≡ (dead_object, reader.empty, q))
unfolding transact
transact_dead reader ipc ipc' code code' items items' flags flags' p h = ground arith
