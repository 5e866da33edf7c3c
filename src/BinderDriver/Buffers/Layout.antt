-- ===== src/BinderDriver/Buffers/Layout.antt =====
-- How the buffers of a process lie in its region, through any sequence of binder_alloc_buf and
-- binder_free_buf (driver/binder.c).
pub mod Alloc
pub mod Release
use learn_node.Base.{
  ℕ, ◌+◌, ◌-◌, ◌%◌, ◌^◌, ◌/◌, ◌≤◌, ◌≡◌, refl, ◌⊎◌, Bool, true, false, not, Option, none, some, List,
  [], ◌∷◌, ◌++◌, ltb, leb, ◌==◌, if◌then◌else◌, ◌&&◌, ◌||◌, arith, Bool-cases, inl, inr,
}
use learn_node.BinderDriver.Buffers.{Buffer, header_size, limit, buffer_size, needed}

-- From an address on: no buffer begins before the header of the one before it ends, a buffer in use is
-- as large as what was asked for, and no two free buffers are neighbours. `before` says whether the
-- buffer before the list is free.
abbrev pub IsLaid : ℕ → Bool → List Buffer → Type 0
IsLaid end_ before [] = Unit
IsLaid end_ before (b ∷ l) =
    ((before && b.free) ≡ false)
    × (b.address + header_size ≤ limit end_ l)
    × (b.free ≡ false → needed b.data_size b.offsets_size ≤ buffer_size end_ b l)
    × IsLaid end_ b.free l

-- What the buffers in use for one-way calls hold of the space for them.
abbrev pub async_held : Buffer → ℕ
async_held b =
    if not b.free && b.async_transaction then needed b.data_size b.offsets_size + header_size else 0

abbrev pub async_used : List Buffer → ℕ
async_used [] = 0
async_used (b ∷ l) = async_held b + async_used l

-- A free buffer of that size at that address, which is large enough.
abbrev pub Fits : ℕ → ℕ → ℕ → ℕ → List Buffer → Type 0
Fits end_ size address fit [] = ⊥
Fits end_ size address fit (b ∷ l) =
    ((b.address ≡ address) × (b.free ≡ true) × (fit ≡ buffer_size end_ b l) × (size ≤ fit))
    ⊎ Fits end_ size address fit l

-- No free buffer that is large enough is smaller than `fit`.
abbrev pub IsSmallest : ℕ → ℕ → ℕ → List Buffer → Type 0
IsSmallest end_ size fit [] = Unit
IsSmallest end_ size fit (b ∷ l) =
    (b.free ≡ true → size ≤ buffer_size end_ b l → fit ≤ buffer_size end_ b l)
    × IsSmallest end_ size fit l

-- No free buffer is large enough.
abbrev pub NoneFits : ℕ → ℕ → List Buffer → Type 0
NoneFits end_ size [] = Unit
NoneFits end_ size (b ∷ l) =
    ((b.free && leb size (buffer_size end_ b l)) ≡ false) × NoneFits end_ size l

pub IsLaid-weaker :
    (end_ : ℕ) (before : Bool) (l : List Buffer) → IsLaid end_ before l → IsLaid end_ false l
IsLaid-weaker end_ before [] laid = laid
IsLaid-weaker end_ before (b ∷ l) laid = (refl, laid.1, laid.2, laid.3)

pub Fits-limit :
    (end_ size address fit : ℕ) (before : Bool) (l : List Buffer)
    → IsLaid end_ before l
    → Fits end_ size address fit l
    → limit end_ l ≤ address
Fits-limit end_ size address fit before [] laid fits = absurd fits
Fits-limit end_ size address fit before (b ∷ l) laid (inl here) = omega arith
Fits-limit end_ size address fit before (b ∷ l) laid (inr there) =
    omega (arith, Fits-limit end_ size address fit b.free l laid.3 there)
