-- ===== src/BinderDriver/Buffers.antt =====
-- The buffers of a process in driver/binder.c: binder_alloc_buf and binder_free_buf. The list of
-- buffers is in the order of addresses, and a buffer's size is what lies between it and the next. A
-- kernel of 64 bits: pointers have 8 bytes, and size_t wraps at 2 ^ 64. The tree of free buffers gives
-- the smallest that is large enough; which of several of that size it meets depends on its shape, and
-- is an argument.
pub mod Layout
pub mod Run
use learn_node.Base.{
  ℕ, zero, suc, ◌+◌, ◌-◌, ◌*◌, ◌/◌, ◌%◌, ◌^◌, Bool, true, false, not, Option, none, some, List, [],
  ◌∷◌, ◌++◌, ltb, leb, ◌==◌, if◌then◌else◌, ◌&&◌, ◌||◌,
}

pub record Buffer : Type 0 where
  pub address : ℕ
  pub free : Bool
  pub async_transaction : Bool
  pub data_size : ℕ
  pub offsets_size : ℕ

-- sizeof(struct binder_buffer), which is also the offset of its `data`; PAGE_SIZE
abbrev pub header_size : ℕ
header_size = 80

abbrev pub page_size : ℕ
page_size = 4096

-- ALIGN(n, sizeof(void *))
abbrev pub align8 : ℕ → ℕ
align8 n = (n + 7) % 2 ^ 64 / 8 * 8

abbrev pub page_align : ℕ → ℕ
page_align a = (a + (page_size - 1)) / page_size * page_size

abbrev pub page_mask : ℕ → ℕ
page_mask a = a / page_size * page_size

-- What is asked of binder_update_page_range: pages between two addresses, to be there or to be given
-- back.
pub data PageRequest : Type 0 where
  allocate_pages free_pages : ℕ → ℕ → PageRequest

-- `end` is the end of the region, `buffer + buffer_size` in the source.
pub record Region : Type 0 where
  pub buffers : List Buffer
  pub region_end : ℕ
  pub free_async_space : ℕ
  pub has_vma : Bool

-- Where the part before a rest of the list ends.
abbrev pub limit : ℕ → List Buffer → ℕ
limit end_ [] = end_
limit end_ (b ∷ l) = b.address

-- binder_buffer_size, of a buffer with the rest of the list behind it
abbrev pub buffer_size : ℕ → Buffer → List Buffer → ℕ
buffer_size end_ b l = limit end_ l - (b.address + header_size)

abbrev pub needed : ℕ → ℕ → ℕ
needed data_size offsets_size = (align8 data_size + align8 offsets_size) % 2 ^ 64

-- The search of the tree of free buffers: address and size of the one that fits best.
pub better : (ℕ → ℕ → Bool) → ℕ × ℕ → Option (ℕ × ℕ) → ℕ × ℕ
better prefers new none = new
better prefers new (some old) =
    if ltb new.1 old.1 || (new.1 == old.1 && prefers new.0 old.0) then new else old

pub best_fit : (ℕ → ℕ → Bool) → ℕ → ℕ → List Buffer → Option (ℕ × ℕ)
unfolding better
best_fit prefers end_ size [] = none
best_fit prefers end_ size (b ∷ l) =
    if b.free && leb size (buffer_size end_ b l)
    then some (better prefers (b.address, buffer_size end_ b l) (best_fit prefers end_ size l))
    else best_fit prefers end_ size l

-- `buffer_size` as binder_alloc_buf leaves it: how far the new buffer and the header behind it go.
abbrev pub used_size : ℕ → ℕ → ℕ
used_size size fit =
    if fit == size
    then size
    else if leb fit (size + header_size + 4)
    then size
    else size + header_size

-- The free buffer behind what is used, if there is room for one.
abbrev pub remainder : ℕ → ℕ → ℕ → List Buffer
remainder address size fit =
    if used_size size fit == size
    then []
    else record {
      address = address + header_size + size;
      free = true;
      async_transaction = false;
      data_size = 0;
      offsets_size = 0;
    }
      ∷ []

pub take_buffer : ℕ → ℕ → Bool → ℕ → ℕ → ℕ → List Buffer → List Buffer
take_buffer address fit is_async data_size offsets_size size [] = []
take_buffer address fit is_async data_size offsets_size size (b ∷ l) =
    if b.address == address
    then record {
      address = b.address;
      free = false;
      async_transaction = is_async;
      data_size = data_size;
      offsets_size = offsets_size;
    }
      ∷ (remainder b.address size fit ++ l)
    else b ∷ take_buffer address fit is_async data_size offsets_size size l

-- The pages asked for, between the first page border in the data and the end that is used.
abbrev pub wanted_pages : ℕ → ℕ → ℕ → PageRequest
wanted_pages address size fit =
    let data_ = address + header_size in
    let has_page_addr = page_mask (data_ + fit) in
    let end_page_addr = page_align (data_ + used_size size fit) in
    allocate_pages (page_align data_)
      (if ltb has_page_addr end_page_addr then has_page_addr else end_page_addr)

pub with_async : Bool → ℕ → Region → Region
with_async true size p = record p { free_async_space = p.free_async_space - (size + header_size) }
with_async false size p = p

-- Address of the buffer, or `none` for NULL; `mapped` is whether the pages could be had.
pub allocate_at :
    Bool → Bool → ℕ → ℕ → ℕ → Option (ℕ × ℕ) → Region → Option ℕ × Region × List PageRequest
unfolding take_buffer with_async
allocate_at mapped is_async data_size offsets_size size none p = (none, p, [])
allocate_at mapped is_async data_size offsets_size size (some (address, fit)) p =
    if mapped
    then (
      some address,
      with_async is_async size (record p {
        buffers = take_buffer address fit is_async data_size offsets_size size p.buffers;
      }),
      wanted_pages address size fit ∷ [],
    )
    else (none, p, wanted_pages address size fit ∷ [])

pub binder_alloc_buf :
    (ℕ → ℕ → Bool) → Bool → ℕ → ℕ → Bool → Region → Option ℕ × Region × List PageRequest
unfolding best_fit allocate_at
binder_alloc_buf prefers mapped data_size offsets_size is_async p =
    let size = needed data_size offsets_size in
    if not p.has_vma
    then (none, p, [])
    else if ltb size data_size || ltb size offsets_size
    then (none, p, [])
    else if is_async && ltb p.free_async_space (size + header_size)
    then (none, p, [])
    else allocate_at mapped is_async data_size offsets_size size
        (best_fit prefers p.region_end size p.buffers) p

-- binder_buffer_lookup, among the buffers in use
pub binder_buffer_lookup : ℕ → List Buffer → Option Buffer
binder_buffer_lookup address [] = none
binder_buffer_lookup address (b ∷ l) =
    if not b.free && b.address == address then some b else binder_buffer_lookup address l

-- buffer_start_page and buffer_end_page: the pages in which the header begins and ends
abbrev pub start_page : Buffer → ℕ
start_page b = page_mask b.address

abbrev pub end_page : Buffer → ℕ
end_page b = page_mask (b.address + header_size - 1)

abbrev next_starts_in : ℕ → List Buffer → Bool
next_starts_in page [] = false
next_starts_in page (b ∷ l) = start_page b == page

-- binder_delete_free_buffer: the pages of the header of a buffer that goes, unless a neighbour has its
-- header there.
deleted_pages : Buffer → Buffer → List Buffer → List PageRequest
deleted_pages prev b next =
    let free_page_start =
      not (end_page prev == start_page b)
      && not (next_starts_in (end_page b) next && next_starts_in (start_page b) next) in
    let free_page_end =
      not (end_page prev == start_page b && end_page prev == end_page b)
      && not (next_starts_in (end_page b) next) in
    if free_page_start || free_page_end
    then free_pages (if free_page_start then start_page b else end_page b)
        ((if free_page_end then end_page b else start_page b) + page_size)
      ∷ []
    else []

-- The next buffer goes, if it is free.
pub drop_free : List Buffer → List Buffer
drop_free [] = []
drop_free (b ∷ l) = if b.free then l else b ∷ l

drop_free_pages : Buffer → List Buffer → List PageRequest
unfolding deleted_pages
drop_free_pages b [] = []
drop_free_pages b (c ∷ l) = if c.free then deleted_pages b c l else []

-- The buffer at the address is free now, and is one with the free buffers beside it.
pub release_buffer : ℕ → List Buffer → List Buffer
release_buffer address [] = []
release_buffer address (b ∷ []) =
    (if b.address == address then record b { free = true } else b) ∷ []
release_buffer address (b ∷ (c ∷ l)) =
    let rest = release_buffer address (c ∷ l) in
    if b.address == address
    then record b { free = true } ∷ drop_free (c ∷ l)
    else if c.address == address && b.free
    then b ∷ drop_free l
    else b ∷ rest

-- The pages given back: those within the data, then those of the headers that go.
release_pages : ℕ → ℕ → List Buffer → List PageRequest
unfolding drop_free_pages deleted_pages
release_pages end_ address [] = []
release_pages end_ address (b ∷ []) =
    if b.address == address
    then free_pages (page_align (b.address + header_size))
        (page_mask (b.address + header_size + buffer_size end_ b []))
      ∷ []
    else []
release_pages end_ address (b ∷ (c ∷ l)) =
    let rest = release_pages end_ address (c ∷ l) in
    if b.address == address
    then free_pages (page_align (b.address + header_size))
        (page_mask (b.address + header_size + buffer_size end_ b (c ∷ l)))
      ∷ drop_free_pages b (c ∷ l)
    else if c.address == address && b.free
    then rest ++ deleted_pages b c (drop_free l)
    else rest

pub give_back_async : Buffer → Region → Region
give_back_async b p =
    if b.async_transaction
    then record p {
      free_async_space = p.free_async_space + (needed b.data_size b.offsets_size + header_size);
    }
    else p

-- The buffer is one in use of the process (the BUG_ONs).
pub binder_free_buf : Buffer → Region → Region × List PageRequest
unfolding give_back_async release_pages release_buffer
binder_free_buf b p = (
  record (give_back_async b p) { buffers = release_buffer b.address p.buffers },
  release_pages p.region_end b.address p.buffers,
)

-- What binder_mmap leaves: one free buffer over the whole region.
pub mapped_region : ℕ → ℕ → Region
mapped_region start size = record {
  buffers =
      record {
        address = start;
        free = true;
        async_transaction = false;
        data_size = 0;
        offsets_size = 0;
      }
      ∷ [];
  region_end = start + size;
  free_async_space = size / 2;
  has_vma = true;
}
