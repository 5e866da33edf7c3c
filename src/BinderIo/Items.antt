-- ===== src/BinderIo/Items.antt =====
-- What is put into a binder_io of native/binder.c, and got out of it in the same order.
pub mod Written
pub mod RoundTrip
pub mod NoRef
use learn_node.Base.{
  ℕ, ◌*◌, ◌^◌, ◌%◌, ◌+◌, ◌>>=◌, ◌≤◌, ◌<◌, ◌≡◌, ◌≢◌, Bool, true, false, Option, none, some, List, [],
  ◌∷◌, ◌++◌, ◌==◌, leb, if◌then◌else◌, length, take,
}
use learn_node.BinderDriver.Objects.{Target, own, other, Translation, translate_all}
use learn_node.BinderIo.{
  BinderIo, position, bio_put_uint32, bio_put_ref, bio_put_string16, bio_get_uint32, bio_get_ref,
  bio_get_string16, bio_init_from_txn, has_offset, until_zero,
}

pub data Item : Type 0 where
  word ref : ℕ → Item
  name : List ℕ → Item

-- A uint32_t; a handle, which is not 0; and a string without a 0, shorter than MAX_BIO_SIZE allows.
abbrev pub IsItem : Item → Type 0
IsItem (word n) = n < 2 ^ 32
IsItem (ref h) = (h < 2 ^ 32) × (h ≢ 0)
IsItem (name s) = (until_zero s ≡ s) × (length s < 2 ^ 29)

abbrev pub AreItems : List Item → Type 0
AreItems [] = Unit
AreItems (i ∷ is) = IsItem i × AreItems is

unfoldable pub put_item : Item → BinderIo → BinderIo
put_item (word n) io = bio_put_uint32 n io
put_item (ref h) io = bio_put_ref h io
put_item (name s) io = bio_put_string16 (some s) io

unfoldable pub put_all : List Item → BinderIo → BinderIo
put_all [] io = io
put_all (i ∷ is) io = put_all is (put_item i io)

-- The string, if all of it lies at the pointer.
abbrev pub string_at : ℕ → Option (List ℕ) → List ℕ
string_at len none = []
string_at len (some s) = if leb len (length s) then take len s else []

-- The item says only what is to be read.
unfoldable pub get_item : Item → BinderIo → Item × BinderIo
get_item (word n) io = let (m, io') = bio_get_uint32 io in (word m, io')
get_item (ref h) io = let (k, io') = bio_get_ref io in (ref k, io')
get_item (name s) io = let (len, t, io') = bio_get_string16 io in (name (string_at len t), io')

unfoldable pub get_all : List Item → BinderIo → List Item × BinderIo
get_all [] io = ([], io)
get_all (i ∷ is) io =
    let (v, io') = get_item i io in let (vs, io'') = get_all is io' in (v ∷ vs, io'')

-- The message as the driver delivers it: its objects are rewritten for the process that receives it,
-- which has it in one piece with what lies behind it.
pub delivered : Translation → BinderIo → Option BinderIo
delivered t io = do
  units ← translate_all t (position io) io.offs_before (io.before ++ io.after)
  some (
      bio_init_from_txn units (position io) (io.offs_before ++ io.offs_after)
        (8 * length io.offs_before))

-- What the receiving process gets for a handle: a uint32_t, or no handle where the node is its own.
abbrev pub seen : Target → ℕ
seen (own ptr cookie) = 0
seen (other desc) = desc % 2 ^ 32

-- The items as the receiving process is to get them.
unfoldable pub translate_item : Translation → Item → Option Item
translate_item t (word n) = some (word n)
translate_item t (ref h) = do target ← t.target h; some (ref (seen target))
translate_item t (name s) = some (name s)

unfoldable pub translate_items : Translation → List Item → Option (List Item)
unfolding translate_item
translate_items t [] = some []
translate_items t (i ∷ is) = do i' ← translate_item t i; is' ← translate_items t is; some (i' ∷ is')

-- The memory is as large as the counts say.
abbrev pub HasRoom : BinderIo → Type 0
HasRoom io = (io.data_avail ≤ 2 * length io.after) × (io.offs_avail ≤ length io.offs_after)

abbrev pub AllFound : List ℕ → ℕ → List ℕ → Type 0
AllFound [] n os = Unit
AllFound (o ∷ wanted) n os = (has_offset n os o ≡ true) × AllFound wanted n os

-- What reading an item leaves, where the item takes the units `c` and `x` is behind them.
pub record IsRead (i : Item) (c x : List ℕ) (r : BinderIo) (t : Item × BinderIo) : Type 0 where
  pub value : t.0 ≡ i
  pub rest : t.1.after ≡ x
  pub passed : length t.1.before ≡ length r.before + length c
  pub avail : t.1.data_avail + 2 * length c ≡ r.data_avail
  pub offs_count : t.1.offs_avail ≡ r.offs_avail
  pub offs : t.1.offs_after ≡ r.offs_after
  pub fine : t.1.overflow ≡ r.overflow

-- The units `c`, written from the place `b` on with the offsets `os`, are read as the item.
abbrev pub Reads : Item → ℕ → List ℕ → List ℕ → Type 0
Reads i b c os =
    (r : BinderIo) (x : List ℕ)
    → r.after ≡ c ++ x
    → 2 * length c ≤ r.data_avail
    → length r.before ≡ b
    → AllFound os r.offs_avail r.offs_after
    → IsRead i c x r (get_item i r)

-- The units `c`, written from the place `b` on with the offsets `os`, are delivered as units of that
-- length from which the translated item is read.
abbrev pub Delivers : Item → ℕ → List ℕ → List ℕ → Type 0
Delivers i b c os =
    (t : Translation) (i' : Item)
    → translate_item t i ≡ some i'
    → (c' : List ℕ) × (length c' ≡ length c)
      × ((p x : List ℕ) (size : ℕ)
          → length p ≡ b
          → 2 * (b + length c) ≤ size
          → translate_all t size os (p ++ (c ++ x)) ≡ some (p ++ (c' ++ x)))
      × Reads i' b c' os

-- What writing an item leaves, if there was room for it.
pub record IsWritten (i : Item) (io io' : BinderIo) : Type 0 where
  pub units : List ℕ
  pub offsets : List ℕ
  pub grown : io'.before ≡ io.before ++ units
  pub offs_grown : io'.offs_before ≡ io.offs_before ++ offsets
  pub room : HasRoom io'
  pub even : length units % 2 ≡ 0
  pub delivers : length io.before % 2 ≡ 0 → Delivers i (length io.before) units offsets
