-- ===== src/BinderIo/Tests.antt =====
-- Tests of the model of the message buffers of native/binder.c, and its theorem at a concrete message.
use learn_node.Base.{ℕ, ◌≡◌, refl, false, none, some, List, [], ◌∷◌, replicate, arith}
use learn_node.BinderDriver.Objects.{Translation, other}
use learn_node.BinderIo.{
  BinderIo, bio_init, bio_alloc, bio_alloc_obj, push_offset, bio_put_uint32, bio_put_ref,
  bio_put_string16,
}
use learn_node.BinderIo.Items.{
  Item, word, ref, name, put_item, put_all, get_all, delivered, translate_item, translate_items,
  AreItems,
}
use learn_node.BinderIo.Items.RoundTrip.{put_all-get_all}

-- As a client registers a service; the buffer holds other things before.
abbrev message : List Item
message = word 0 ∷ name (b'w' ∷ b'i' ∷ b'f' ∷ b'i' ∷ []) ∷ ref 0x10005 ∷ word 1 ∷ []

abbrev memory : List ℕ
memory = replicate 40 7

message-fits : (put_all message (bio_init memory (0 ∷ 0 ∷ []) 80 2)).overflow ≡ false
unfolding put_all put_item bio_init bio_alloc bio_alloc_obj push_offset bio_put_uint32 bio_put_ref
    bio_put_string16
message-fits = refl

message-AreItems : AreItems message
message-AreItems = (
  omega arith,
  ((refl, omega arith), ((omega arith, λ e. absurd (omega arith)), (omega arith, tt))),
)

-- The receiver has the client's object as its handle 7; other objects are not sent.
abbrev translation : Translation
translation = record {
  target = λ h. some (other 7);
  exported = λ ptr cookie. none;
  remaining = λ obj. none;
}

abbrev message' : List Item
message' = word 0 ∷ name (b'w' ∷ b'i' ∷ b'f' ∷ b'i' ∷ []) ∷ ref 7 ∷ word 1 ∷ []

message-translated : translate_items translation message ≡ some message'
unfolding translate_items translate_item
message-translated = refl

put_all-get_all_example :
    let io = put_all message (bio_init memory (0 ∷ 0 ∷ []) 80 2) in
    (r : BinderIo) × (delivered translation io ≡ some r)
    × ((get_all message' r).0 ≡ message')
    × ((get_all message' r).1.overflow ≡ false)
put_all-get_all_example =
    put_all-get_all message message' translation memory (0 ∷ 0 ∷ []) 80 2 message-AreItems
      (omega arith) (omega arith) message-fits message-translated
