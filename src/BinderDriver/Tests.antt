-- ===== src/BinderDriver/Tests.antt =====
-- Tests of the model of driver/binder.c, and its theorems at concrete runs.
use learn_node.Base.{
  ℕ, ◌+◌, ◌*◌, ◌≡◌, refl, Bool, true, false, not, ◌==◌, none, some, List, [], ◌∷◌, arith,
}
use learn_node.BinderDriver.{BinderRef}
use learn_node.BinderDriver.Nodes.{
  Operation, new_ref, inc_ref, dec_ref, enter_buffer, leave_buffer, refs_done, read_work,
}
use learn_node.BinderDriver.Descs
use learn_node.BinderDriver.Descs.{ref_of_node, binder_get_ref_for_node, first_desc}
use learn_node.BinderDriver.Descs.Numbers.{IsNumbered, binder_get_ref_for_node-numbers}
use learn_node.BinderDriver.Buffers.{mapped_region, binder_alloc_buf}
use learn_node.BinderDriver.Pages
use learn_node.BinderDriver.Pages.{binder_update_page_range}
use learn_node.BinderDriver.Pages.Marked.{absent}
use learn_node.BinderDriver.Pages.AllOrNone.{AllOrNone, binder_update_page_range-AllOrNone}
use learn_node.BinderDriver.Buffers.Run.{
  Request, allocate, release, region_run, IsLaidOut, Outcome, region_run-IsLaidOut,
}

-- A node gets a reference, its owner is told, it is held by a transaction, and let go and freed.
abbrev uses : List Operation
uses =
    new_ref 10 1 1
    ∷ inc_ref 0 true true
    ∷ read_work
    ∷ read_work
    ∷ read_work
    ∷ enter_buffer true false
    ∷ refs_done true
    ∷ refs_done false
    ∷ leave_buffer true
    ∷ dec_ref 0 true
    ∷ read_work
    ∷ read_work
    ∷ read_work
    ∷ []

-- The numbers 0, 1 and 3 are taken.
abbrev table : List BinderRef
table = Descs.new_ref 10 100 0 ∷ Descs.new_ref 10 101 1 ∷ Descs.new_ref 10 103 3 ∷ []

binder_get_ref_for_node-numbers_example :
    ((r : BinderRef)
      → ref_of_node 102 table ≡ some r
      → binder_get_ref_for_node (some 100) 10 102 table ≡ some (r, table))
    × (ref_of_node 102 table ≡ none
        → (d : ℕ) × (l' : List BinderRef) × (binder_get_ref_for_node (some 100) 10 102 table
            ≡ some (Descs.new_ref 10 102 d, l'))
          × IsNumbered (first_desc (some 100) 102) (Descs.new_ref 10 102 d) table l')
binder_get_ref_for_node-numbers_example =
    binder_get_ref_for_node-numbers (some 100) 10 102 table (omega arith) (omega arith)

-- Three buffers, of which the first two are given back.
abbrev requests : List Request
requests =
    allocate (λ a b. true) true 100 8 false
    ∷ allocate (λ a b. true) true 200 0 true
    ∷ allocate (λ a b. true) true 300 0 false
    ∷ release 65536
    ∷ release (65536 + 80 + 112)
    ∷ []

region_run-IsLaidOut_example :
    let p = region_run (mapped_region 65536 1040384) requests in
    IsLaidOut 65536 1040384 p
    × ((prefers : ℕ → ℕ → Bool) (mapped : Bool) (data_size offsets_size : ℕ) (is_async : Bool)
        → Outcome mapped data_size offsets_size is_async p
            (binder_alloc_buf prefers mapped data_size offsets_size is_async p))
region_run-IsLaidOut_example = region_run-IsLaidOut 65536 1040384 requests (omega arith)

-- The kernel has memory for page 1 but not for page 2; all answers are good for others.
abbrev kernel : Pages.Kernel
kernel = record {
  alloc_page = λ i. not (i == 2);
  map_vm_area = λ i. true;
  vm_insert_page = λ i. true;
}

abbrev in_ioctl : Pages.Caller
in_ioctl = record { vma = false; mm = true; proc_vma = true; same_mm = true }

abbrev no_pages : ℕ → Pages.Page
no_pages i = absent

binder_update_page_range-AllOrNone_example :
    AllOrNone kernel in_ioctl in_ioctl 8192 12288 2 no_pages
      (binder_update_page_range kernel in_ioctl 8192 true 12288 (12288 + 4096 * 2) no_pages)
binder_update_page_range-AllOrNone_example =
    binder_update_page_range-AllOrNone kernel in_ioctl in_ioctl 8192 12288 2 no_pages (omega arith)
      (omega arith) (λ j lo hi. refl) refl
