-- ===== src/BinderIo.antt =====
-- The binder_io of native/binder.c, through which the C programs (native/service_manager.c) write
-- and read messages. The memory behind `data0` is a list of 16-bit units, split at `data`: `before`
-- is what lies between data0 and data, `after` the rest. All steps of `data` are multiples of four
-- bytes, so no unit is cut. size_t and binder_size_t have 64 bits, and bytes go lowest first.
pub mod Items
mod Tests
use learn_node.Base.{
  ℕ, zero, suc, ◌+◌, ◌-◌, ◌*◌, ◌/◌, ◌%◌, ◌^◌, Bool, true, false, not, Option, none, some, List, [],
  ◌∷◌, ◌++◌, ltb, leb, ◌==◌, if◌then◌else◌, length, take, drop, ◌&&◌,
}

-- `offs_before` and `offs_after` are the array of offsets, split at `offs`.
pub record BinderIo : Type 0 where
  pub before : List ℕ
  pub after : List ℕ
  pub data_avail : ℕ
  pub offs_before : List ℕ
  pub offs_after : List ℕ
  pub offs_avail : ℕ
  pub shared : Bool
  pub overflow : Bool
  pub io_error : Bool

-- `(size + 3) & (~3)`
abbrev pub align4 : ℕ → ℕ
align4 size = (size + 3) % 2 ^ 64 / 4 * 4

-- The two units of a uint32_t.
abbrev pub units32 : ℕ → List ℕ
units32 n = (n % 2 ^ 16) ∷ (n / 2 ^ 16 % 2 ^ 16) ∷ []

-- A read of a uint32_t at the first unit; the callers have at least two.
abbrev pub read32 : List ℕ → ℕ
read32 [] = 0
read32 (a ∷ []) = a
read32 (a ∷ b ∷ rest) = a + 2 ^ 16 * b

-- sizeof(struct flat_binder_object), BINDER_TYPE_BINDER, BINDER_TYPE_HANDLE, and 0x7f with
-- FLAT_BINDER_FLAG_ACCEPTS_FDS
abbrev pub object_size : ℕ
object_size = 24

abbrev pub type_binder : ℕ
type_binder = 0x73622a85

abbrev pub type_handle : ℕ
type_handle = 0x73682a85

abbrev pub object_flags : ℕ
object_flags = 0x17f

abbrev pub max_bio_size : ℕ
max_bio_size = 2 ^ 30

-- A buffer that the driver delivered, and its offsets.
pub bio_init_from_txn : List ℕ → ℕ → List ℕ → ℕ → BinderIo
bio_init_from_txn memory data_size offsets offsets_size = record {
  before = [];
  after = memory;
  data_avail = data_size;
  offs_before = [];
  offs_after = offsets;
  offs_avail = offsets_size / 8;
  shared = true;
  overflow = false;
  io_error = false;
}

-- `memory` and `offsets` are what the caller's buffer holds. Where there is no room the pointers
-- stay unset.
unfoldable pub bio_init : List ℕ → List ℕ → ℕ → ℕ → BinderIo
bio_init memory offsets maxdata maxoffs =
    let n = maxoffs * 8 % 2 ^ 64 in
    if ltb maxdata n
    then record {
      before = [];
      after = [];
      data_avail = 0;
      offs_before = [];
      offs_after = [];
      offs_avail = 0;
      shared = false;
      overflow = true;
      io_error = false;
    }
    else record {
      before = [];
      after = memory;
      data_avail = maxdata - n;
      offs_before = [];
      offs_after = offsets;
      offs_avail = maxoffs;
      shared = false;
      overflow = false;
      io_error = false;
    }

-- `data` goes on by `size` bytes, and the units between are replaced.
abbrev pub advance : ℕ → (List ℕ → List ℕ) → BinderIo → BinderIo
advance size write io = record io {
  before = io.before ++ write (take (size / 2) io.after);
  after = drop (size / 2) io.after;
  data_avail = io.data_avail - size;
}

-- bio_alloc, with what its caller then writes through the pointer: `write` is given the units that
-- are there. The result says whether the pointer is not NULL.
unfoldable pub bio_alloc : ℕ → (List ℕ → List ℕ) → BinderIo → Bool × BinderIo
bio_alloc size write io =
    if ltb io.data_avail (align4 size)
    then (false, record io { overflow = true })
    else (true, advance (align4 size) write io)

-- `*bio->offs++ = offset`, where an entry is left; a write out of the array is ruled out by
-- offs_avail.
unfoldable pub push_offset : ℕ → List ℕ → List ℕ → List ℕ × List ℕ
push_offset offset done [] = (done, [])
push_offset offset done (o ∷ os) = (done ++ offset ∷ [], os)

-- `data - data0` in bytes
abbrev pub position : BinderIo → ℕ
position io = 2 * length io.before

-- bio_alloc_obj, with what its caller writes. Where no entry of the offsets is left the space is
-- gone, and nothing is written into it.
unfoldable pub bio_alloc_obj : (List ℕ → List ℕ) → BinderIo → Bool × BinderIo
unfolding bio_alloc push_offset
bio_alloc_obj write io =
    let room = not (io.offs_avail == 0) in
    let (ok, io') = bio_alloc object_size (if room then write else (λ old. old)) io in
    if ok && room
    then (
      true,
      record io' {
        offs_avail = io.offs_avail - 1;
        offs_before = (push_offset (position io) io.offs_before io.offs_after).0;
        offs_after = (push_offset (position io) io.offs_before io.offs_after).1;
      },
    )
    else (false, record io' { overflow = true })

unfoldable pub bio_put_uint32 : ℕ → BinderIo → BinderIo
unfolding bio_alloc
bio_put_uint32 n io = (bio_alloc 4 (λ old. units32 n) io).1

-- A pointer has 64 bits.
abbrev pub units64 : ℕ → List ℕ
units64 n = units32 (n % 2 ^ 32) ++ units32 (n / 2 ^ 32)

pub bio_put_obj : ℕ → BinderIo → BinderIo
unfolding bio_alloc_obj
bio_put_obj ptr io =
    (bio_alloc_obj
      (λ old. units32 type_binder ++ (units32 object_flags ++ (units64 ptr ++ units64 0))) io).1

-- Only the lower half of the union is written: the upper keeps what was there.
abbrev pub handle_object : ℕ → List ℕ → List ℕ
handle_object handle old =
    units32 type_handle
    ++ (units32 object_flags ++ (units32 handle ++ (take 2 (drop 6 old) ++ units64 0)))

unfoldable pub bio_put_ref : ℕ → BinderIo → BinderIo
unfolding bio_alloc bio_alloc_obj
bio_put_ref handle io =
    if handle == 0
    then (bio_alloc object_size (handle_object handle) io).1
    else (bio_alloc_obj (handle_object handle) io).1

-- A string of C, up to its first 0.
abbrev pub until_zero : List ℕ → List ℕ
until_zero [] = []
until_zero (c ∷ s) = if c == 0 then [] else c ∷ until_zero s

-- `none` is a null pointer. What the rounding to four bytes adds is not written.
unfoldable pub bio_put_string16 : Option (List ℕ) → BinderIo → BinderIo
unfolding bio_alloc bio_put_uint32
bio_put_string16 none io = bio_put_uint32 0xffffffff io
bio_put_string16 (some s) io =
    let str = until_zero s in
    if leb (max_bio_size / 2) (length str)
    then bio_put_uint32 0xffffffff io
    else (bio_alloc ((length str + 1) * 2) (λ old. str ++ (0 ∷ drop (length str + 1) old))
        (bio_put_uint32 (length str) io)).1

-- The same of a string of bytes.
pub bio_put_string16_x : Option (List ℕ) → BinderIo → BinderIo
unfolding bio_alloc bio_put_uint32
bio_put_string16_x none io = bio_put_uint32 0xffffffff io
bio_put_string16_x (some s) io =
    let str = until_zero s in
    if leb (max_bio_size / 2) (length str)
    then bio_put_uint32 0xffffffff io
    else (bio_alloc ((length str + 1) * 2) (λ old. str ++ (0 ∷ drop (length str + 1) old))
        (bio_put_uint32 (length str) io)).1

-- `data_avail` is 0 after a failure. The result is what lies at the pointer.
pub bio_get : ℕ → BinderIo → Option (List ℕ) × BinderIo
bio_get size io =
    if ltb io.data_avail (align4 size)
    then (none, record io { data_avail = 0; overflow = true })
    else (some (take (align4 size / 2) io.after), advance (align4 size) (λ old. old) io)

abbrev pub word_at : Option (List ℕ) → ℕ
word_at none = 0
word_at (some chunk) = read32 chunk

pub bio_get_uint32 : BinderIo → ℕ × BinderIo
unfolding bio_get
bio_get_uint32 io = let (ptr, io') = bio_get 4 io in (word_at ptr, io')

-- The length, and the units at the pointer: those of the string, its end, and what rounding adds.
pub bio_get_string16 : BinderIo → ℕ × Option (List ℕ) × BinderIo
unfolding bio_get bio_get_uint32
bio_get_string16 io =
    let (len, io') = bio_get_uint32 io in
    let (ptr, io'') = bio_get ((len + 1) * 2 % 2 ^ 64) io' in (len, ptr, io'')

-- The search of the first `n` offsets.
pub has_offset : ℕ → List ℕ → ℕ → Bool
has_offset zero os off = false
has_offset (suc n) [] off = false
has_offset (suc n) (o ∷ os) off = if o == off then true else has_offset n os off

pub bio_get_obj : BinderIo → Option (List ℕ) × BinderIo
unfolding bio_get has_offset
bio_get_obj io =
    if has_offset io.offs_avail io.offs_after (position io)
    then bio_get object_size io
    else (none, record io { data_avail = 0; overflow = true })

abbrev pub handle_of : Option (List ℕ) → ℕ
handle_of none = 0
handle_of (some obj) = if read32 obj == type_handle then read32 (drop 4 obj) else 0

pub bio_get_ref : BinderIo → ℕ × BinderIo
unfolding bio_get_obj
bio_get_ref io = let (obj, io') = bio_get_obj io in (handle_of obj, io')
