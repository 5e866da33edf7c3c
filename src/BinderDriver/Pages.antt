-- ===== src/BinderDriver/Pages.antt =====
-- The pages behind the buffers of a process: binder_update_page_range of driver/binder.c. A page is
-- named by its index in `proc->pages`. What the kernel's functions answer is an argument; one that
-- fails has changed nothing. Addresses of the kernel are far from 0, where `page_addr - PAGE_SIZE`
-- would wrap.
pub mod Marked
pub mod Range
pub mod AllOrNone
use learn_node.Base.{
  ℕ, zero, suc, ◌+◌, ◌-◌, ◌/◌, Bool, true, false, not, ltb, leb, ◌==◌, if◌then◌else◌, ◌&&◌,
}
use learn_node.BinderDriver.Buffers.{page_size}

-- `allocated` is whether the entry of `proc->pages` is not NULL, the others where the page is mapped.
pub record Page : Type 0 where
  pub allocated : Bool
  pub in_kernel : Bool
  pub in_user : Bool

-- The answers of alloc_page, map_vm_area and vm_insert_page for a page.
pub record Kernel : Type 0 where
  pub alloc_page : ℕ → Bool
  pub map_vm_area : ℕ → Bool
  pub vm_insert_page : ℕ → Bool

-- Whether the argument `vma` is not NULL, the process's memory could be had, `proc->vma` is not NULL,
-- and that memory is the one it belongs to.
pub record Caller : Type 0 where
  pub vma : Bool
  pub mm : Bool
  pub proc_vma : Bool
  pub same_mm : Bool

-- 0, -ENOMEM, and a BUG_ON that holds
pub data UpdateResult : Type 0 where
  updated no_memory bug : UpdateResult

pub page_index : ℕ → ℕ → ℕ
page_index buffer page_addr = (page_addr - buffer) / page_size

pub change : ℕ → (Page → Page) → (ℕ → Page) → ℕ → Page
change i f pages j = if j == i then f (pages j) else pages j

-- err_map_kernel_failed, and err_vm_insert_page_failed above it
abbrev pub free_page : Page → Page
free_page s = record s { allocated = false }

abbrev pub unmap_page : Page → Page
unmap_page s = free_page (record s { in_kernel = false })

-- A whole round at free_range; the page is taken from the user where there is a vma.
abbrev pub zap_page : Bool → Page → Page
zap_page vma s = unmap_page (if vma then record s { in_user = false } else s)

-- The rounds of the loop at free_range, `k` of them, from `page_addr` down.
pub free_range : Bool → ℕ → ℕ → ℕ → (ℕ → Page) → ℕ → Page
unfolding page_index change
free_range vma buffer zero page_addr pages = pages
free_range vma buffer (suc k) page_addr pages =
    free_range vma buffer k (page_addr - page_size)
      (change (page_index buffer page_addr) (zap_page vma) pages)

-- How often `page_addr >= start` holds.
abbrev pub rounds_down : ℕ → ℕ → ℕ
rounds_down start page_addr =
    if ltb page_addr start then 0 else suc ((page_addr - start) / page_size)

-- How often `page_addr < end` holds.
abbrev pub rounds_up : ℕ → ℕ → ℕ
rounds_up start end_ = (end_ - start + (page_size - 1)) / page_size

-- A round of the allocation, up to the label at which a failure leaves it, that label's part for the
-- page included.
pub allocate_page : Kernel → ℕ → (ℕ → Page) → Bool × (ℕ → Page)
unfolding change
allocate_page kernel i pages =
    let allocated = change i (λ s. record s { allocated = true }) pages in
    let mapped = change i (λ s. record s { in_kernel = true }) allocated in
    if not (kernel.alloc_page i)
    then (false, pages)
    else if not (kernel.map_vm_area i)
    then (false, change i free_page allocated)
    else if not (kernel.vm_insert_page i)
    then (false, change i unmap_page mapped)
    else (true, change i (λ s. record s { in_user = true }) mapped)

-- A failure goes on with the pages below, in the loop at free_range.
pub allocate_range : Kernel → ℕ → ℕ → ℕ → ℕ → (ℕ → Page) → UpdateResult × (ℕ → Page)
unfolding allocate_page free_range page_index
allocate_range kernel buffer start zero page_addr pages = (updated, pages)
allocate_range kernel buffer start (suc k) page_addr pages =
    let i = page_index buffer page_addr in
    let (ok, pages') = allocate_page kernel i pages in
    let rest = allocate_range kernel buffer start k (page_addr + page_size) pages' in
    let below = page_addr - page_size in
    if (pages i).allocated
    then (bug, pages)
    else if ok
    then rest
    else (no_memory, free_range true buffer (rounds_down start below) below pages')

abbrev pub has_vma : Caller → Bool
has_vma c = if c.vma then true else c.mm && (c.proc_vma && c.same_mm)

-- Freeing returns -ENOMEM too; its callers do not look at the result.
pub binder_update_page_range :
    Kernel → Caller → ℕ → Bool → ℕ → ℕ → (ℕ → Page) → UpdateResult × (ℕ → Page)
unfolding allocate_range free_range
binder_update_page_range kernel c buffer allocate start end_ pages =
    if leb end_ start
    then (updated, pages)
    else if not allocate
    then (
      no_memory,
      free_range (has_vma c) buffer (rounds_down start (end_ - page_size)) (end_ - page_size) pages,
    )
    else if not (has_vma c)
    then (no_memory, pages)
    else allocate_range kernel buffer start (rounds_up start end_) start pages
