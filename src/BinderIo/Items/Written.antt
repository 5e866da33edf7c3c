-- ===== src/BinderIo/Items/Written.antt =====
-- What one operation of native/binder.c writes into a binder_io, and that it is read as it was.
pub mod Objects
pub mod Strings
pub mod Fine
use learn_node.Base.{
  ℕ, suc, ◌+◌, ◌-◌, ◌*◌, ◌/◌, ◌%◌, ◌^◌, ◌≤◌, ◌<◌, ◌≡◌, ◌≢◌, ◌∙◌, refl, sym, ap, subst, Bool, true,
  false, some, some_same, List, [], ◌∷◌, ◌++◌, ltb, leb, ◌==◌, length, take, drop, arith,
  Bool-cases, inl, inr, append-nil, append_assoc, length-append, length-take, length-drop,
  take-append_len, drop-append_len,
}
use learn_node.BinderIo.{
  BinderIo, align4, units32, object_size, advance, bio_alloc, push_offset, position, bio_alloc_obj,
  bio_put_uint32, handle_object, bio_put_ref, until_zero, bio_put_string16, bio_get, bio_get_uint32,
  bio_get_string16, bio_get_obj, bio_get_ref,
}
use learn_node.BinderDriver.Objects.{Translation}
use learn_node.BinderDriver.Objects.Placed.{translate_all-nothing}
use learn_node.BinderIo.Items.{
  Item, word, ref, name, IsItem, string_at, put_item, get_item, HasRoom, Reads, Delivers,
  translate_item, IsWritten,
}

-- bio_get of units that lie there.
pub got :
    (size : ℕ) (c x : List ℕ) (r : BinderIo)
    → r.after ≡ c ++ x
    → align4 size ≡ 2 * length c
    → 2 * length c ≤ r.data_avail
    → bio_get size r ≡ (
      some c,
      record r { before = r.before ++ c; after = x; data_avail = r.data_avail - 2 * length c },
    )
unfolding bio_get
got size c x r e al le =
    let fits : ltb r.data_avail (2 * length c) ≡ false = ground arith in
    let half : 2 * length c / 2 ≡ length c = omega arith in
    rw (al, fits, half, e, take-append_len (length c) c x refl, drop-append_len (length c) c x refl)

word-Reads : (n b : ℕ) → n < 2 ^ 32 → Reads (word n) b (units32 n) []
unfolding get_item bio_get_uint32
word-Reads n b lt r x e le at found = rw (got 4 (units32 n) x r e refl le) record {
  value = ap word (omega arith);
  rest = refl;
  passed = length-append r.before (units32 n);
  avail = omega arith;
  offs_count = refl;
  offs = refl;
  fine = refl;
}

-- bio_alloc, where it did not overflow.
pub allocated :
    (size : ℕ) (write : List ℕ → List ℕ) (io : BinderIo)
    → (bio_alloc size write io).1.overflow ≡ false
    → (align4 size ≤ io.data_avail)
      × (bio_alloc size write io ≡ (true, advance (align4 size) write io))
unfolding bio_alloc
allocated size write io fine = elim (Bool-cases (ltb io.data_avail (align4 size))) [
  | inl full ↦ absurd (overflows full fine)
  | inr fits ↦ (ground arith, rw fits)
]
  where
    overflows :
        ltb io.data_avail (align4 size) ≡ true → (bio_alloc size write io).1.overflow ≡ false → ⊥
    overflows full = rw full (λ e. cc)

-- What is behind `data` after units were taken.
pub room_after :
    (size : ℕ) (c : List ℕ) (io : BinderIo)
    → HasRoom io
    → align4 size ≡ 2 * length c
    → align4 size ≤ io.data_avail
    → io.data_avail - align4 size ≤ 2 * length (drop (align4 size / 2) io.after)
room_after size c io room e le = omega (arith, room.0, length-drop (align4 size / 2) io.after)

-- An item without an object is delivered as it was.
pub plain-Delivers :
    (i : Item) (b : ℕ) (c : List ℕ)
    → ((t : Translation) → translate_item t i ≡ some i)
    → Reads i b c []
    → Delivers i b c []
plain-Delivers i b c same reads t i' e = (
  c,
  refl,
  λ p x size at le. translate_all-nothing t size (p ++ (c ++ x)),
  subst (λ j. Reads j b c []) (some_same i i' (sym (same t) ∙ e)) reads,
)

pub word-IsWritten :
    (n : ℕ) (io : BinderIo)
    → n < 2 ^ 32
    → HasRoom io
    → (bio_put_uint32 n io).overflow ≡ false
    → IsWritten (word n) io (bio_put_uint32 n io)
unfolding bio_put_uint32
word-IsWritten n io lt room fine =
    let (le, done) = allocated 4 (λ old. units32 n) io fine in
    subst (λ t. IsWritten (word n) io t.1) (sym done)
      (record {
        units = units32 n;
        offsets = [];
        grown = refl;
        offs_grown = sym (append-nil io.offs_before);
        room = (room_after 4 (units32 n) io room refl le, room.1);
        even = refl;
        delivers = λ b.
            plain-Delivers (word n) (length io.before) (units32 n)
              (λ t. unfold translate_item in refl) (word-Reads n (length io.before) lt);
      })
