-- ===== src/BinderIo/Items/Written/Fine.antt =====
-- An overflow of a binder_io (native/binder.c) is never forgotten by what is written after it.
use learn_node.Base.{ℕ, ◌≡◌, subst, false, List, length}
use learn_node.BinderIo.{BinderIo, units32, bio_alloc_obj, bio_put_uint32, handle_object}
use learn_node.BinderIo.Items.{Item, word, ref, name, IsItem, put_item}
use learn_node.BinderIo.Items.Written.Objects.{object_allocated, put_ref_object}
use learn_node.BinderIo.Items.Written.Strings.{alloc_fine, string_units, string_size, put_string}

object_fine :
    (write : List ℕ → List ℕ) (io : BinderIo)
    → (bio_alloc_obj write io).1.overflow ≡ false
    → io.overflow ≡ false
object_fine write io fine =
    let (entry, le, done) = object_allocated write io fine in
    subst (λ (t : BinderIo). t.overflow ≡ false) done fine

put_uint32_fine :
    (n : ℕ) (io : BinderIo) → (bio_put_uint32 n io).overflow ≡ false → io.overflow ≡ false
unfolding bio_put_uint32
put_uint32_fine n io fine = alloc_fine 4 (λ old. units32 n) io fine

-- No operation takes the mark of an overflow away.
pub put_item_fine :
    (i : Item) (io : BinderIo) → IsItem i → (put_item i io).overflow ≡ false → io.overflow ≡ false
unfolding put_item
put_item_fine (word n) io ok fine = put_uint32_fine n io fine
put_item_fine (ref h) io ok fine =
    object_fine (handle_object h) io
      (subst (λ (t : BinderIo). t.overflow ≡ false) (put_ref_object h io ok.1) fine)
put_item_fine (name s) io ok fine = put_uint32_fine (length s) io (
    alloc_fine (string_size s) (string_units s) (bio_put_uint32 (length s) io)
      (subst (λ (t : BinderIo). t.overflow ≡ false) (put_string s io ok.0 ok.1) fine))
