-- ===== src/BinderDriver/Objects.antt =====
-- The objects in the data of a transaction, which binder_transaction of driver/binder.c rewrites for
-- the process that receives it. The data is a list of 16-bit units, as in BinderIo; an object has 24
-- bytes: its type, flags, a 64-bit union whose lower half is a handle, and a cookie.
pub mod Placed
use learn_node.Base.{
  ℕ, ◌+◌, ◌-◌, ◌*◌, ◌/◌, ◌%◌, Bool, Option, none, some, List, [], ◌∷◌, ◌++◌, ltb, ◌==◌,
  if◌then◌else◌, not, ◌||◌, ◌>>=◌, take, drop,
}
use learn_node.BinderIo.{units32, units64, read32, type_binder, type_handle, object_size}

-- What a handle of the sender stands for: a node of the receiving process itself, or one of another, to
-- which that process has a reference of this number.
pub data Target : Type 0 where
  own : (ptr cookie : ℕ) → Target
  other : ℕ → Target

-- The tables of the two processes, as they are once the message has gone through (a reference that is
-- made keeps its number): binder_get_ref for a handle of the sender, with what binder_get_ref_for_node
-- gives for its node, and the number for a node of the sender. `none` is the failure of the transaction. Weak objects and files, which binder_io never writes, are `remaining`.
pub record Translation : Type 0 where
  pub target : ℕ → Option Target
  pub exported : ℕ → ℕ → Option ℕ
  pub remaining : List ℕ → Option (List ℕ)

-- `fp->type` and `fp->handle`; the upper half of the union keeps what is there.
abbrev pub with_handle : ℕ → List ℕ → List ℕ
with_handle desc obj = units32 type_handle ++ (take 2 (drop 2 obj) ++ (units32 desc ++ drop 6 obj))

-- `fp->type`, `fp->binder` and `fp->cookie`.
abbrev pub with_node : ℕ → ℕ → List ℕ → List ℕ
with_node ptr cookie obj =
    units32 type_binder ++ (take 2 (drop 2 obj) ++ (units64 ptr ++ units64 cookie))

abbrev pub with_target : List ℕ → Target → List ℕ
with_target obj (own ptr cookie) = with_node ptr cookie obj
with_target obj (other desc) = with_handle desc obj

abbrev pub read64 : List ℕ → ℕ
read64 obj = read32 obj + 0x100000000 * read32 (drop 2 obj)

-- The switch on the type.
pub translate_object : Translation → List ℕ → Option (List ℕ)
translate_object t obj =
    if read32 obj == type_binder
    then (do
      desc ← t.exported (read64 (drop 4 obj)) (read64 (drop 8 obj))
      some (with_handle desc obj))
    else if read32 obj == type_handle
    then (do target ← t.target (read32 (drop 4 obj)); some (with_target obj target))
    else t.remaining obj

-- One round of the loop over the offsets.
pub translate_at : Translation → ℕ → ℕ → List ℕ → Option (List ℕ)
unfolding translate_object
translate_at t data_size offset units =
    let at = offset / 2 in
    if ltb data_size object_size || ltb (data_size - object_size) offset || not (offset % 4 == 0)
    then none
    else (do
      obj ← translate_object t (take 12 (drop at units))
      some (take at units ++ (obj ++ drop (at + 12) units)))

pub translate_all : Translation → ℕ → List ℕ → List ℕ → Option (List ℕ)
unfolding translate_at
translate_all t data_size [] units = some units
translate_all t data_size (offset ∷ offsets) units = do
  units' ← translate_at t data_size offset units
  translate_all t data_size offsets units'
