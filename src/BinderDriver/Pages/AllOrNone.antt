-- ===== src/BinderDriver/Pages/AllOrNone.antt =====
-- What binder_update_page_range of driver/binder.c leaves: all of the pages or none.
use learn_node.Base.{
  ℕ, zero, suc, ◌+◌, ◌-◌, ◌*◌, ◌≤◌, ◌<◌, ◌≡◌, ◌≢◌, refl, sym, ap, ◌∙◌, subst, ◌⊎◌, inl, inr, Bool,
  true, false, not, leb, if◌then◌else◌, Bool-cases, arith,
}
use learn_node.BinderDriver.Pages.{
  Page, Kernel, Caller, UpdateResult, updated, no_memory, page_index, free_range, rounds_down,
  rounds_up, allocate_range, has_vma, binder_update_page_range,
}
use learn_node.BinderDriver.Pages.Marked.{present, marked, AreAbsent, marked-nothing}
use learn_node.BinderDriver.Pages.Range.{serves, RangeOutcome, taken_back, allocate_range-outcome}

-- An allocation, where there is a vma, and the release of what one brought in.
update-allocate_range :
    (kernel : Kernel) (c : Caller) (buffer start n : ℕ) (pages : ℕ → Page)
    → 0 < n
    → has_vma c ≡ true
    → binder_update_page_range kernel c buffer true start (start + 4096 * n) pages
      ≡ allocate_range kernel buffer start n start
          (marked (page_index buffer start) 0 present pages)
unfolding binder_update_page_range
update-allocate_range kernel c buffer start n pages some_pages vma =
    let end_ = start + 4096 * n in
    let above : leb end_ start ≡ false = ground arith in
    let many : rounds_up start end_ ≡ n = omega arith in
    let all = λ (k : ℕ) (p : ℕ → Page). allocate_range kernel buffer start k start p in
    rw above (
      ap (λ v. if not v then (no_memory, pages) else all (rounds_up start end_) pages) vma
      ∙ (ap (λ k. all k pages) many
          ∙ ap (all n) (sym (marked-nothing (page_index buffer start) present pages))))

update_no_vma :
    (kernel : Kernel) (c : Caller) (buffer start n : ℕ) (pages : ℕ → Page)
    → 0 < n
    → has_vma c ≡ false
    → binder_update_page_range kernel c buffer true start (start + 4096 * n) pages
      ≡ (no_memory, pages)
unfolding binder_update_page_range
update_no_vma kernel c buffer start n pages some_pages vma =
    let end_ = start + 4096 * n in
    let above : leb end_ start ≡ false = ground arith in
    rw above (
      ap
        (λ v.
          if not v
          then (no_memory, pages)
          else allocate_range kernel buffer start (rounds_up start end_) start pages)
        vma)

update_nothing :
    (kernel : Kernel) (c : Caller) (buffer start : ℕ) (allocate : Bool) (pages : ℕ → Page)
    → binder_update_page_range kernel c buffer allocate start (start + 4096 * 0) pages
      ≡ (updated, pages)
unfolding binder_update_page_range
update_nothing kernel c buffer start allocate pages =
    let here : leb (start + 4096 * 0) start ≡ true = ground arith in rw here refl

update-taken_back :
    (kernel : Kernel) (c : Caller) (buffer start n : ℕ) (pages : ℕ → Page)
    → buffer ≤ start
    → 4096 ≤ start
    → AreAbsent (page_index buffer start) n pages
    → has_vma c ≡ true
    → (binder_update_page_range kernel c buffer false start
        (start + 4096 * n)
        (marked (page_index buffer start) n present pages)).1
      ≡ pages
unfolding binder_update_page_range
update-taken_back kernel c buffer start zero pages le far none_there vma =
    ap (λ r. r.1) (update_nothing kernel c buffer start false _)
    ∙ marked-nothing (page_index buffer start) present pages
update-taken_back kernel c buffer start (suc n) pages le far none_there vma =
    let end_ = start + 4096 * suc n in
    let above : leb end_ start ≡ false = ground arith in
    let before = marked (page_index buffer start) (suc n) present pages in
    rw above (
      ap (λ v. free_range v buffer (rounds_down start (end_ - 4096)) (end_ - 4096) before) vma
      ∙ taken_back buffer start (suc n) end_ pages le far refl none_there)

-- What an allocation comes to.
abbrev pub AllOrNone :
    Kernel → Caller → Caller → ℕ → ℕ → ℕ → (ℕ → Page) → UpdateResult × (ℕ → Page) → Type 0
AllOrNone kernel c c' buffer start n pages r =
    let m = page_index buffer start in
    let end_ = start + 4096 * n in
    ((r.0 ≡ updated)
      × (r.1 ≡ marked m n present pages)
      × ((n ≡ 0) ⊎ (has_vma c ≡ true))
      × ((j : ℕ) → m ≤ j → j < m + n → serves kernel j ≡ true)
      × ((binder_update_page_range kernel c' buffer false start end_ r.1).1 ≡ pages))
    ⊎ ((r.0 ≡ no_memory)
        × (r.1 ≡ pages)
        × (((n ≢ 0) × (has_vma c ≡ false))
            ⊎ ((j : ℕ) × (m ≤ j) × (j < m + n) × (serves kernel j ≡ false))))

-- Some pages are to be had: the loop's outcome is the whole one.
some-AllOrNone :
    (kernel : Kernel) (c c' : Caller) (buffer start n : ℕ) (pages : ℕ → Page)
    → buffer ≤ start
    → 4096 ≤ start
    → AreAbsent (page_index buffer start) n pages
    → has_vma c ≡ true
    → has_vma c' ≡ true
    → (r : UpdateResult × (ℕ → Page)) → RangeOutcome kernel (page_index buffer start) n 0 pages r
    → AllOrNone kernel c c' buffer start n pages r
some-AllOrNone kernel c c' buffer start n pages le far none_there vma vma' r
      (inl (result, all, given)) =
    let m = page_index buffer start in
    inl (
      result,
      all,
      inr vma,
      λ j lo hi. given j (omega arith) hi,
      ap (λ p. (binder_update_page_range kernel c' buffer false start (start + 4096 * n) p).1) all
          ∙ update-taken_back kernel c' buffer start n pages le far none_there vma',
    )
some-AllOrNone kernel c c' buffer start n pages le far none_there vma vma' r
      (inr (result, same, j, lo, hi, bad)) =
    inr (result, same, inr (j, lo, hi, bad))

-- For a range that begins at or behind the start of the process's buffer, not in the first page of
-- addresses, and has `n` whole pages, none of which is there: an allocation returns 0 only where there
-- are no pages to get or there is a vma, and each page was given and mapped; then all of them are there,
-- everything else is as before, and giving back the same range, by a caller with a vma, leaves the pages
-- as they were before the allocation. Otherwise it returns -ENOMEM and leaves every page as it was, and
-- there was no vma for some pages to get, or a page was not given or not mapped.
pub binder_update_page_range-AllOrNone :
    (kernel : Kernel) (c c' : Caller) (buffer start n : ℕ) (pages : ℕ → Page)
    → buffer ≤ start
    → 4096 ≤ start
    → AreAbsent (page_index buffer start) n pages
    → has_vma c' ≡ true
    → AllOrNone kernel c c' buffer start n pages
        (binder_update_page_range kernel c buffer true start (start + 4096 * n) pages)
binder_update_page_range-AllOrNone kernel c c' buffer start zero pages le far none_there vma' =
    let m = page_index buffer start in
    let e = update_nothing kernel c buffer start true pages in
    inl (
      ap (λ r. r.0) e,
      ap (λ r. r.1) e ∙ sym (marked-nothing m present pages),
      inl refl,
      λ j lo hi. absurd (omega arith),
      ap (λ r. r.1) (update_nothing kernel c' buffer start false _) ∙ ap (λ r. r.1) e,
    )
binder_update_page_range-AllOrNone kernel c c' buffer start (suc n) pages le far none_there vma' =
    elim (Bool-cases (has_vma c)) [
      | inl vma ↦
          subst (AllOrNone kernel c c' buffer start (suc n) pages)
            (sym (update-allocate_range kernel c buffer start (suc n) pages (omega arith) vma))
            (some-AllOrNone kernel c c' buffer start (suc n) pages le far none_there vma vma' _ (
              allocate_range-outcome kernel buffer start (suc n) 0 (suc n) start pages le far
                (omega arith) (omega arith) none_there))
      | inr no_vma ↦
          let e = update_no_vma kernel c buffer start (suc n) pages (omega arith) no_vma in
          inr (ap (λ r. r.0) e, ap (λ r. r.1) e, inl ((λ z. omega (arith, z)), no_vma))
    ]
