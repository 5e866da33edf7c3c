-- ===== src/BinderDriver/Pages/Range.antt =====
-- The loops of binder_update_page_range (driver/binder.c): what they bring in and give back.
use learn_node.Base.{
  ℕ, zero, suc, ◌+◌, ◌-◌, ◌*◌, ◌≤◌, ◌<◌, ◌≡◌, refl, sym, ap, ◌∙◌, subst, ◌⊎◌, inl, inr, Bool, true,
  false, not, ltb, if◌then◌else◌, ◌&&◌, Bool-cases, arith,
}
use learn_node.BinderDriver.Pages.{
  Page, Kernel, UpdateResult, updated, no_memory, page_index, change, free_page, unmap_page,
  free_range, rounds_down, allocate_page, allocate_range,
}
use learn_node.BinderDriver.Pages.Marked.{
  absent, present, marked, AreAbsent, page_index-above, change-marked, marked-over, marked_same,
  marked-beyond, change-change, change_same, free_range-marked,
}

-- Whether the kernel gives and maps the page.
pub serves : Kernel → ℕ → Bool
serves kernel i = kernel.alloc_page i && (kernel.map_vm_area i && kernel.vm_insert_page i)

-- Three tests in a row: all hold, or one of the results before the last is taken.
module _ {A : Type 0} where
  all_hold :
      (a b c : Bool) (x y z w : A)
      → (a && (b && c)) ≡ true
      → (if not a then x else if not b then y else if not c then z else w) ≡ w
  all_hold true true true x y z w e = refl
  all_hold true true false x y z w e = absurd (cc)
  all_hold true false c x y z w e = absurd (cc)
  all_hold false b c x y z w e = absurd (cc)

  one_fails :
      (a b c : Bool) (x y z w v : A)
      → (a && (b && c)) ≡ false
      → x ≡ v
      → y ≡ v
      → z ≡ v
      → (if not a then x else if not b then y else if not c then z else w) ≡ v
  one_fails true true true x y z w v e one two three = absurd (cc)
  one_fails true true false x y z w v e one two three = three
  one_fails true false c x y z w v e one two three = two
  one_fails false b c x y z w v e one two three = one

pub allocate_page-present :
    (kernel : Kernel) (i : ℕ) (pages : ℕ → Page)
    → serves kernel i ≡ true
    → allocate_page kernel i pages ≡ (true, change i (λ s. present) pages)
unfolding allocate_page serves
allocate_page-present kernel i pages e =
    let allocated : Page → Page = λ s. record s { allocated = true } in
    let mapped : Page → Page = λ s. record s { in_kernel = true } in
    all_hold (kernel.alloc_page i) (kernel.map_vm_area i) (kernel.vm_insert_page i) _ _ _ _ e
    ∙ ap (λ p. (true, p))
        (ap (change i (λ s. record s { in_user = true })) (change-change i allocated mapped pages)
          ∙ change-change i (λ s. mapped (allocated s)) (λ s. record s { in_user = true }) pages)

pub allocate_page-absent :
    (kernel : Kernel) (i : ℕ) (pages : ℕ → Page)
    → serves kernel i ≡ false
    → pages i ≡ absent
    → allocate_page kernel i pages ≡ (false, pages)
unfolding allocate_page serves
allocate_page-absent kernel i pages e there =
    let allocated : Page → Page = λ s. record s { allocated = true } in
    let mapped : Page → Page = λ s. record s { in_kernel = true } in
    let one =
      change-change i allocated free_page pages
      ∙ change_same i (λ s. free_page (allocated s)) pages
          (ap (λ s. free_page (allocated s)) there ∙ sym there) in
    let two =
      ap (change i unmap_page) (change-change i allocated mapped pages)
      ∙ (change-change i (λ s. mapped (allocated s)) unmap_page pages
          ∙ change_same i (λ s. unmap_page (mapped (allocated s))) pages
              (ap (λ s. unmap_page (mapped (allocated s))) there ∙ sym there)) in
    one_fails (kernel.alloc_page i) (kernel.map_vm_area i) (kernel.vm_insert_page i) _ _ _ _ _ e
      refl (ap (λ p. (false, p)) one) (ap (λ p. (false, p)) two)

-- A round of the allocation that goes on, and one that does not.
pub allocate_range-next :
    (kernel : Kernel) (buffer start k addr i : ℕ) (pages : ℕ → Page)
    → page_index buffer addr ≡ i
    → pages i ≡ absent
    → serves kernel i ≡ true
    → allocate_range kernel buffer start (suc k) addr pages
      ≡ allocate_range kernel buffer start k (addr + 4096) (change i (λ s. present) pages)
unfolding allocate_range
allocate_range-next kernel buffer start k addr i pages at there ok =
    let here : (pages (page_index buffer addr)).allocated ≡ false =
      ap (λ n. (pages n).allocated) at ∙ ap (λ s. s.allocated) there in
    let got = ap (λ n. allocate_page kernel n pages) at ∙ allocate_page-present kernel i pages ok in
    rw here (rw got refl)

pub allocate_range-fail :
    (kernel : Kernel) (buffer start k addr i : ℕ) (pages : ℕ → Page)
    → page_index buffer addr ≡ i
    → pages i ≡ absent
    → serves kernel i ≡ false
    → allocate_range kernel buffer start (suc k) addr pages
      ≡ (no_memory, free_range true buffer (rounds_down start (addr - 4096)) (addr - 4096) pages)
unfolding allocate_range
allocate_range-fail kernel buffer start k addr i pages at there bad =
    let here : (pages (page_index buffer addr)).allocated ≡ false =
      ap (λ n. (pages n).allocated) at ∙ ap (λ s. s.allocated) there in
    let got =
      ap (λ n. allocate_page kernel n pages) at ∙ allocate_page-absent kernel i pages bad there in
    rw here (rw got refl)

-- What the loop of the allocation leaves that is to bring in the `n` pages from `m` on, those from `k`
-- on still to come.
abbrev pub RangeOutcome : Kernel → ℕ → ℕ → ℕ → (ℕ → Page) → UpdateResult × (ℕ → Page) → Type 0
RangeOutcome kernel m n k pages r =
    ((r.0 ≡ updated)
      × (r.1 ≡ marked m n present pages)
      × ((j : ℕ) → m + k ≤ j → j < m + n → serves kernel j ≡ true))
    ⊎ ((r.0 ≡ no_memory)
        × (r.1 ≡ pages)
        × (j : ℕ) × (m ≤ j)
        × (j < m + n)
        × (serves kernel j ≡ false))

-- As many rounds as pages lie below.
pub rounds_down-below :
    (start k addr : ℕ)
    → 4096 ≤ start
    → addr ≡ start + 4096 * k
    → rounds_down start (addr - 4096) ≡ k
rounds_down-below start k addr far at = ground arith

-- Pages that were brought in are given back from the last one down.
pub taken_back :
    (buffer start k addr : ℕ) (pages : ℕ → Page)
    → buffer ≤ start
    → 4096 ≤ start
    → addr ≡ start + 4096 * k
    → AreAbsent (page_index buffer start) k pages
    → free_range true buffer
        (rounds_down start (addr - 4096))
        (addr - 4096)
        (marked (page_index buffer start) k present pages)
      ≡ pages
taken_back buffer start k addr pages le far at none_there =
    let m = page_index buffer start in
    let before = marked m k present pages in
    ap (λ r. free_range true buffer r (addr - 4096) before) (rounds_down-below start k addr far at)
    ∙ (free_range-marked buffer start k (addr - 4096) before le far (omega arith)
        ∙ (marked-over m k absent present pages ∙ marked_same m k pages none_there))

-- The first page that fails: the pages below it are all given back.
pub failed-outcome :
    (kernel : Kernel) (buffer start n k left addr : ℕ) (pages : ℕ → Page)
    → buffer ≤ start
    → 4096 ≤ start
    → addr ≡ start + 4096 * k
    → k + suc left ≡ n
    → AreAbsent (page_index buffer start) n pages
    → serves kernel (page_index buffer start + k) ≡ false
    → RangeOutcome kernel (page_index buffer start) n k pages (
        allocate_range kernel buffer start
          (suc left)
          addr
          (marked (page_index buffer start) k present pages))
failed-outcome kernel buffer start n k left addr pages le far at whole none_there bad =
    let m = page_index buffer start in
    let before = marked m k present pages in
    let there = marked-beyond m k present pages ∙ none_there (m + k) (omega arith) (omega arith) in
    let left_at =
      allocate_range-fail kernel buffer start left addr (m + k) before
        (page_index-above buffer start k addr le at) there bad in
    let back =
      taken_back buffer start k addr pages le far at (λ j lo hi. none_there j lo (omega arith)) in
    inr (ap (λ r. r.0) left_at, ap (λ r. r.1) left_at ∙ back, m + k, omega arith, omega arith, bad)

-- The pages from one on, where the kernel gave that one and those behind it.
pub serves_from :
    (kernel : Kernel) (m k j : ℕ)
    → serves kernel (m + k) ≡ true
    → (m + suc k ≤ j → serves kernel j ≡ true)
    → m + k ≤ j
    → serves kernel j ≡ true
serves_from kernel m k j ok rest lo = elim (Bool-cases (ltb (m + k) j)) [
  | inl above ↦ rest (ground arith)
  | inr here ↦ let same : m + k ≡ j = ground arith in subst (λ i. serves kernel i ≡ true) same ok
]

-- A page that the kernel gave is one of those up to the end.
pub earlier :
    (kernel : Kernel) (m n k : ℕ) (pages : ℕ → Page) (r : UpdateResult × (ℕ → Page))
    → serves kernel (m + k) ≡ true
    → RangeOutcome kernel m n (suc k) pages r
    → RangeOutcome kernel m n k pages r
earlier kernel m n k pages r ok (inl (result, all, rest)) =
    inl (result, all, λ j lo hi. serves_from kernel m k j ok (λ lo'. rest j lo' hi) lo)
earlier kernel m n k pages r ok (inr failed) = inr failed

pub allocate_range-outcome :
    (kernel : Kernel) (buffer start n k left addr : ℕ) (pages : ℕ → Page)
    → buffer ≤ start
    → 4096 ≤ start
    → addr ≡ start + 4096 * k
    → k + left ≡ n
    → AreAbsent (page_index buffer start) n pages
    → RangeOutcome kernel (page_index buffer start) n k pages (
        allocate_range kernel buffer start left addr
          (marked (page_index buffer start) k present pages))
unfolding allocate_range
allocate_range-outcome kernel buffer start n k zero addr pages le far at whole none_there = inl (
  refl,
  ap (λ i. marked (page_index buffer start) i present pages) (omega (arith, whole)),
  λ j lo hi. absurd (omega arith),
)
allocate_range-outcome kernel buffer start n k (suc left) addr pages le far at whole none_there =
    let m = page_index buffer start in
    let there = marked-beyond m k present pages ∙ none_there (m + k) (omega arith) (omega arith) in
    elim (Bool-cases (serves kernel (m + k))) [
      | inr bad ↦
          failed-outcome kernel buffer start n k left addr pages le far at whole none_there bad
      | inl ok ↦
          let next =
            allocate_range-next kernel buffer start left addr (m + k) (marked m k present pages)
              (page_index-above buffer start k addr le at) there ok
            ∙ ap (allocate_range kernel buffer start left (addr + 4096))
                (change-marked m k present (λ s. present) pages refl) in
          subst (RangeOutcome kernel m n k pages) (sym next) (
            earlier kernel m n k pages _ ok (
              allocate_range-outcome kernel buffer start n (suc k) left (addr + 4096) pages le far
                (omega arith) (omega arith) none_there))
    ]
