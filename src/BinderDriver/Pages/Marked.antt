-- ===== src/BinderDriver/Pages/Marked.antt =====
-- Runs of pages in one state (driver/binder.c, binder_update_page_range).
use learn_node.Base.{
  ℕ, zero, suc, ◌+◌, ◌-◌, ◌*◌, ◌≤◌, ◌<◌, ◌≡◌, refl, sym, ap, ◌∙◌, fun_ext, true, false, ltb, leb,
  if◌then◌else◌, ◌&&◌, arith,
}
use learn_node.BinderDriver.Pages.{Page, page_index, change, zap_page, free_range}

-- Where a page is nowhere, and where it is everywhere.
abbrev pub absent : Page
absent = record { allocated = false; in_kernel = false; in_user = false }

abbrev pub present : Page
present = record { allocated = true; in_kernel = true; in_user = true }

-- The `k` pages from `m` on are `s`.
pub marked : ℕ → ℕ → Page → (ℕ → Page) → ℕ → Page
marked m k s pages j = if leb m j && ltb j (m + k) then s else pages j

abbrev pub AreAbsent : ℕ → ℕ → (ℕ → Page) → Type 0
AreAbsent m k pages = (j : ℕ) → m ≤ j → j < m + k → pages j ≡ absent

-- An address `k` pages above `start`.
pub page_index-above :
    (buffer start k addr : ℕ)
    → buffer ≤ start
    → addr ≡ start + 4096 * k
    → page_index buffer addr ≡ page_index buffer start + k
unfolding page_index
page_index-above buffer start k addr le at = omega (arith, le, at)

pub marked-nothing : (m : ℕ) (s : Page) (pages : ℕ → Page) → marked m 0 s pages ≡ pages
unfolding marked
marked-nothing m s pages = fun_ext (λ j. ground arith)

-- One page more at the end, of any kind that ends as the others.
pub marked-change :
    (m k : ℕ) (s : Page) (f : Page → Page) (pages : ℕ → Page)
    → f (pages (m + k)) ≡ s
    → marked m k s (change (m + k) f pages) ≡ marked m (suc k) s pages
unfolding marked change
marked-change m k s f pages e = fun_ext (λ j. grind arith)

pub change-marked :
    (m k : ℕ) (s : Page) (f : Page → Page) (pages : ℕ → Page)
    → f (pages (m + k)) ≡ s
    → change (m + k) f (marked m k s pages) ≡ marked m (suc k) s pages
unfolding marked change
change-marked m k s f pages e = fun_ext (λ j. grind arith)

-- A second mark over the first, and a mark of what is there.
pub marked-over :
    (m k : ℕ) (s t : Page) (pages : ℕ → Page)
    → marked m k s (marked m k t pages) ≡ marked m k s pages
unfolding marked
marked-over m k s t pages = fun_ext (λ j. ground arith)

pub marked_same :
    (m k : ℕ) (pages : ℕ → Page) → AreAbsent m k pages → marked m k absent pages ≡ pages
unfolding marked
marked_same m k pages none_there = fun_ext (λ j. grind arith)

pub marked-beyond :
    (m k : ℕ) (s : Page) (pages : ℕ → Page) → marked m k s pages (m + k) ≡ pages (m + k)
unfolding marked
marked-beyond m k s pages = ground arith

pub change-change :
    (i : ℕ) (f g : Page → Page) (pages : ℕ → Page)
    → change i g (change i f pages) ≡ change i (λ s. g (f s)) pages
unfolding change
change-change i f g pages = fun_ext (λ j. ground arith)

pub change_same :
    (i : ℕ) (f : Page → Page) (pages : ℕ → Page) → f (pages i) ≡ pages i → change i f pages ≡ pages
unfolding change
change_same i f pages e = fun_ext (λ j. grind arith)

pub change_eq :
    (i : ℕ) (f g : Page → Page) (pages : ℕ → Page)
    → f (pages i) ≡ g (pages i)
    → change i f pages ≡ change i g pages
unfolding change
change_eq i f g pages e = fun_ext (λ j. grind arith)

-- The loop at free_range takes everything, from its start on.
pub free_range-marked :
    (buffer start k addr : ℕ) (pages : ℕ → Page)
    → buffer ≤ start
    → 4096 ≤ start
    → addr + 4096 ≡ start + 4096 * k
    → free_range true buffer k addr pages ≡ marked (page_index buffer start) k absent pages
unfolding free_range
free_range-marked buffer start zero addr pages le far at =
    sym (marked-nothing (page_index buffer start) absent pages)
free_range-marked buffer start (suc k) addr pages le far at =
    let m = page_index buffer start in
    let here : page_index buffer addr ≡ m + k =
      page_index-above buffer start k addr le (omega arith) in
    let zap = zap_page true in
    free_range-marked buffer start k (addr - 4096) (change (page_index buffer addr) zap pages) le
      far (omega arith)
    ∙ (ap (λ i. marked m k absent (change i zap pages)) here
        ∙ marked-change m k absent zap pages refl)
