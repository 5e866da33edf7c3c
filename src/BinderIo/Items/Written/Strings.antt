-- ===== src/BinderIo/Items/Written/Strings.antt =====
-- A string that native/binder.c writes into a binder_io, and that it is read as it was.
use learn_node.Base.{
  ℕ, ◌+◌, ◌-◌, ◌*◌, ◌/◌, ◌%◌, ◌^◌, ◌≤◌, ◌<◌, ◌≡◌, refl, sym, ap, subst, Bool, true, false, some,
  List, [], ◌∷◌, ◌++◌, leb, length, take, drop, arith, append-nil, append_assoc, length-append,
  length-take, length-drop, take-append_len,
}
use learn_node.BinderIo.{
  BinderIo, align4, units32, advance, bio_alloc, bio_put_uint32, until_zero, bio_put_string16,
  bio_get_uint32, bio_get_string16,
}
use learn_node.BinderIo.Items.{translate_item, name, string_at, get_item, HasRoom, Reads, IsWritten}
use learn_node.BinderIo.Items.Written.{plain-Delivers, got, allocated, room_after}

pub alloc_fine :
    (size : ℕ) (write : List ℕ → List ℕ) (io : BinderIo)
    → (bio_alloc size write io).1.overflow ≡ false
    → io.overflow ≡ false
alloc_fine size write io fine =
    let (le, done) = allocated size write io fine in
    subst (λ (t : Bool × BinderIo). t.1.overflow ≡ false) done fine

-- The units of a string and of its end, with what the rounding leaves.
abbrev pub string_units : List ℕ → List ℕ → List ℕ
string_units s old = s ++ (0 ∷ drop (length s + 1) old)

abbrev pub string_size : List ℕ → ℕ
string_size s = (length s + 1) * 2

pub put_string :
    (s : List ℕ) (io : BinderIo)
    → until_zero s ≡ s
    → length s < 2 ^ 29
    → bio_put_string16 (some s) io
      ≡ (bio_alloc (string_size s) (string_units s) (bio_put_uint32 (length s) io)).1
unfolding bio_put_string16
put_string s io e lt =
    let short : leb (2 ^ 30 / 2) (length s) ≡ false = ground arith in rw (e, short)

length-string_units :
    (s old : List ℕ) → length s + 1 ≤ length old → length (string_units s old) ≡ length old
length-string_units s old le =
    omega (arith, length-append s (0 ∷ drop (length s + 1) old), length-drop (length s + 1) old)

string_there : (s tail : List ℕ) → string_at (length s) (some (s ++ tail)) ≡ s
string_there s tail =
    let there : leb (length s) (length (s ++ tail)) ≡ true = ground (arith, length-append s tail) in
    rw there (take-append_len (length s) s tail refl)

name-Reads :
    (s old : List ℕ) (b : ℕ)
    → length s < 2 ^ 29
    → align4 (string_size s) ≡ 2 * length (string_units s old)
    → Reads (name s) b (units32 (length s) ++ string_units s old) []
unfolding get_item bio_get_string16 bio_get_uint32
name-Reads s old b lt al r x e le at found =
    let c = string_units s old in
    let small : length s % 2 ^ 16 + 2 ^ 16 * (length s / 2 ^ 16 % 2 ^ 16) ≡ length s =
      omega arith in
    let fits : (length s + 1) * 2 % 2 ^ 64 ≡ (length s + 1) * 2 = omega arith in
    let r1 = record r {
      before = r.before ++ units32 (length s);
      after = c ++ x;
      data_avail = r.data_avail - 4;
    } in
    rw
      (
        got 4 (units32 (length s)) (c ++ x) r e refl (omega (arith, le)),
        small,
        fits,
        got (string_size s) c x r1 refl al (omega (arith, le)),
      )
      (record {
        value = ap name (string_there s (0 ∷ drop (length s + 1) old));
        rest = refl;
        passed = omega (
          arith,
          length-append (r.before ++ units32 (length s)) c,
          length-append r.before (units32 (length s)),
        );
        avail = omega (arith, le);
        offs_count = refl;
        offs = refl;
        fine = refl;
      })

abbrev after_length : List ℕ → BinderIo → BinderIo
after_length s io = advance 4 (λ old. units32 (length s)) io

put_length :
    (s : List ℕ) (io : BinderIo)
    → (bio_put_uint32 (length s) io).overflow ≡ false
    → (4 ≤ io.data_avail) × (bio_put_uint32 (length s) io ≡ after_length s io)
unfolding bio_put_uint32
put_length s io fine =
    let (le, done) = allocated 4 (λ old. units32 (length s)) io fine in
    (le, ap (λ (t : Bool × BinderIo). t.1) done)

name_behind :
    (s : List ℕ) (io : BinderIo)
    → length s < 2 ^ 29
    → HasRoom io
    → 4 ≤ io.data_avail
    → (bio_alloc (string_size s) (string_units s) (after_length s io)).1.overflow ≡ false
    → IsWritten (name s) io (bio_alloc (string_size s) (string_units s) (after_length s io)).1
name_behind s io lt room le fine =
    let io1 = after_length s io in
    let (le1, done) = allocated (string_size s) (string_units s) io1 fine in
    let k = align4 (string_size s) / 2 in
    let room1 = room_after 4 (units32 (length s)) io room refl le in
    let old = take k io1.after in
    let long : length old ≡ k = length-take k io1.after (omega (arith, le1, room1)) in
    let size = length-string_units s old (omega (arith, long)) in
    let al : align4 (string_size s) ≡ 2 * length (string_units s old) = omega (arith, size, long) in
    subst (λ (t : Bool × BinderIo). IsWritten (name s) io t.1) (sym done)
      (record {
        units = units32 (length s) ++ string_units s old;
        offsets = [];
        grown = append_assoc io.before (units32 (length s)) (string_units s old);
        offs_grown = sym (append-nil io.offs_before);
        room = (room_after (string_size s) (string_units s old) io1 (room1, room.1) al le1, room.1);
        even = omega (arith, al, length-append (units32 (length s)) (string_units s old));
        delivers = λ b.
            plain-Delivers (name s) (length io.before) (units32 (length s) ++ string_units s old)
              (λ t. unfold translate_item in refl) (name-Reads s old (length io.before) lt al);
      })

pub name-IsWritten :
    (s : List ℕ) (io : BinderIo)
    → until_zero s ≡ s
    → length s < 2 ^ 29
    → HasRoom io
    → (bio_put_string16 (some s) io).overflow ≡ false
    → IsWritten (name s) io (bio_put_string16 (some s) io)
name-IsWritten s io e lt room fine =
    let same = put_string s io e lt in
    let fine' = subst (λ (t : BinderIo). t.overflow ≡ false) same fine in
    let first = alloc_fine (string_size s) (string_units s) (bio_put_uint32 (length s) io) fine' in
    let (le, done) = put_length s io first in
    subst (IsWritten (name s) io) (sym same) (
      subst
        (λ (q : BinderIo).
          (bio_alloc (string_size s) (string_units s) q).1.overflow ≡ false
          → IsWritten (name s) io (bio_alloc (string_size s) (string_units s) q).1)
        (sym done) (name_behind s io lt room le) fine')
