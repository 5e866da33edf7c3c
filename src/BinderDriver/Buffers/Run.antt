-- ===== src/BinderDriver/Buffers/Run.antt =====
-- The buffers of a process through any sequence of allocations and releases (driver/binder.c).
use learn_node.Base.{
  ℕ, ◌+◌, ◌/◌, ◌≤◌, ◌<◌, ◌≡◌, ◌∙◌, subst, refl, sym, ◌⊎◌, Bool, true, false, Option, none, some,
  List, [], ◌∷◌, ltb, ◌&&◌, ◌||◌, arith, Bool-cases, inl, inr,
}
use learn_node.BinderDriver.Buffers.{
  Buffer, Region, PageRequest, header_size, limit, needed, best_fit, take_buffer, allocate_at,
  with_async, give_back_async, binder_alloc_buf, binder_buffer_lookup, binder_free_buf,
  mapped_region,
}
use learn_node.BinderDriver.Buffers.Layout.{
  IsLaid, async_held, async_used, Fits, IsSmallest, NoneFits,
}
use learn_node.BinderDriver.Buffers.Layout.Alloc.{
  IsBest, best_fit-IsBest, held_by, taken, taken-lookup,
}
use learn_node.BinderDriver.Buffers.Layout.Release.{released}

-- `prefers` and `mapped` are what the tree's shape and the pages answer; BC_FREE_BUFFER names a buffer
-- by its address.
pub data Request : Type 0 where
  allocate :
      (prefers : ℕ → ℕ → Bool) (mapped : Bool) (data_size offsets_size : ℕ) (is_async : Bool)
      → Request
  release : ℕ → Request

-- A buffer that is not there, or free, is not freed. That the receiver may free it by now
-- (allow_user_free) is not asked: this has all runs of the source, and more.
free_found : Option Buffer → Region → Region
free_found none p = p
free_found (some b) p = (binder_free_buf b p).0

pub step : Region → Request → Region
unfolding free_found
step p (allocate prefers mapped data_size offsets_size is_async) =
    (binder_alloc_buf prefers mapped data_size offsets_size is_async p).1
step p (release address) = free_found (binder_buffer_lookup address p.buffers) p

pub region_run : Region → List Request → Region
unfolding step
region_run p [] = p
region_run p (r ∷ rs) = region_run (step p r) rs

-- The buffers fill the region from its start, and the space for one-way calls is what is left of a
-- half of it.
abbrev pub IsLaidOut : ℕ → ℕ → Region → Type 0
IsLaidOut start size p =
    IsLaid p.region_end false p.buffers
    × (limit p.region_end p.buffers ≡ start)
    × (p.region_end ≡ start + size)
    × (p.free_async_space + async_used p.buffers ≡ size / 2)

-- What an allocation came to.
abbrev pub Outcome : Bool → ℕ → ℕ → Bool → Region → Option ℕ × Region × List PageRequest → Type 0
Outcome mapped data_size offsets_size is_async p (some address, p', pages) =
    (binder_buffer_lookup address p'.buffers
      ≡ some (record {
        address = address;
        free = false;
        async_transaction = is_async;
        data_size = data_size;
        offsets_size = offsets_size;
      }))
    × (fit : ℕ) × Fits p.region_end (needed data_size offsets_size) address fit p.buffers
    × IsSmallest p.region_end (needed data_size offsets_size) fit p.buffers
Outcome mapped data_size offsets_size is_async p (none, p', pages) =
    (p' ≡ p)
    × ((p.has_vma ≡ false)
        ⊎ ((ltb (needed data_size offsets_size) data_size
              || ltb (needed data_size offsets_size) offsets_size)
            ≡ true)
        ⊎ ((is_async ≡ true) × (p.free_async_space < needed data_size offsets_size + header_size))
        ⊎ NoneFits p.region_end (needed data_size offsets_size) p.buffers
        ⊎ (mapped ≡ false))

-- The space that a call takes.
charged :
    (a : Bool) (space size : ℕ) (q : Region)
    → (a && ltb q.free_async_space (size + header_size)) ≡ false
    → q.free_async_space ≡ space
    → ((with_async a size q).buffers ≡ q.buffers)
      × ((with_async a size q).region_end ≡ q.region_end)
      × ((with_async a size q).free_async_space + held_by a size ≡ space)
unfolding with_async
charged true space size q room e = (refl, refl, ground arith)
charged false space size q room e = (refl, refl, omega (arith, e))

module _ (start size : ℕ) (data_size offsets_size : ℕ) (is_async : Bool) (p : Region)
    (laid : IsLaidOut start size p) where
  abbrev Fine : Bool → Option ℕ × Region × List PageRequest → Type 0
  Fine mapped t = IsLaidOut start size t.1 × Outcome mapped data_size offsets_size is_async p t

  abbrev wanted : ℕ
  wanted = needed data_size offsets_size

  placed :
      (mapped : Bool) (o : Option (ℕ × ℕ))
      → IsBest p.region_end wanted p.buffers o
      → (is_async && ltb p.free_async_space (wanted + header_size)) ≡ false
      → Fine mapped (allocate_at mapped is_async data_size offsets_size wanted o p)
  unfolding allocate_at
  placed mapped none best space = (laid, (refl, inr (inr (inr (inl best)))))
  placed false (some (address, fit)) best space = (laid, (refl, inr (inr (inr (inr refl)))))
  placed true (some (address, fit)) best space =
      let l = take_buffer address fit is_async data_size offsets_size wanted p.buffers in
      let (laid', same, used) =
        taken p.region_end is_async data_size offsets_size address fit p.buffers false laid.0
          best.0 in
      let (bufs, end_, charge) =
        charged is_async p.free_async_space wanted (record p { buffers = l }) space refl in
      (
        (
          rw (bufs, end_) laid',
          rw (bufs, end_) (same ∙ laid.1),
          end_ ∙ laid.2,
          rw bufs (omega (arith, charge, used, laid.3)),
        ),
        (
          rw bufs (
              taken-lookup p.region_end is_async data_size offsets_size address fit p.buffers false
                laid.0 best.0),
          fit,
          best.0,
          best.1,
        ),
      )

  -- Past its guards, binder_alloc_buf does this.
  reaches :
      (prefers : ℕ → ℕ → Bool) (mapped : Bool)
      → p.has_vma ≡ true
      → (ltb wanted data_size || ltb wanted offsets_size) ≡ false
      → (is_async && ltb p.free_async_space (wanted + header_size)) ≡ false
      → binder_alloc_buf prefers mapped data_size offsets_size is_async p
        ≡ allocate_at mapped is_async data_size offsets_size wanted
            (best_fit prefers p.region_end wanted p.buffers)
            p
  unfolding binder_alloc_buf
  reaches prefers mapped vma fine space = rw (vma, fine, space)

  pub binder_alloc_buf-Outcome :
      (prefers : ℕ → ℕ → Bool) (mapped : Bool)
      → Fine mapped (binder_alloc_buf prefers mapped data_size offsets_size is_async p)
  unfolding binder_alloc_buf
  binder_alloc_buf-Outcome prefers mapped = elim (Bool-cases p.has_vma) [
    | inr none_there ↦ rw none_there (laid, (refl, inl refl))
    | inl vma ↦ elim (Bool-cases (ltb wanted data_size || ltb wanted offsets_size)) [
      | inl wraps ↦ rw (vma, wraps) (laid, (refl, inr (inl wraps)))
      | inr fine ↦ elim (Bool-cases (is_async && ltb p.free_async_space (wanted + header_size))) [
        | inl full ↦ rw (vma, fine, full) (laid, (refl, inr (inr (inl (ground arith)))))
        | inr space ↦ subst (Fine mapped) (sym (reaches prefers mapped vma fine space)) (
            placed mapped (best_fit prefers p.region_end wanted p.buffers)
              (best_fit-IsBest prefers p.region_end wanted p.buffers) space)
      ]
    ]
  ]

lookup_in_use :
    (address : ℕ) (l : List Buffer) (b : Buffer)
    → binder_buffer_lookup address l ≡ some b
    → (b.address ≡ address) × (b.free ≡ false)
unfolding binder_buffer_lookup
lookup_in_use address [] b e = absurd (cc)
lookup_in_use address (c ∷ l) b e = ground (arith, lookup_in_use address l b)

-- The space that is given back.
given_back :
    (b : Buffer) (q : Region)
    → b.free ≡ false
    → ((give_back_async b q).region_end ≡ q.region_end)
      × ((give_back_async b q).free_async_space ≡ q.free_async_space + async_held b)
unfolding give_back_async
given_back b q e = ground arith

free-IsLaidOut :
    (start size address : ℕ) (p : Region) (o : Option Buffer)
    → binder_buffer_lookup address p.buffers ≡ o
    → IsLaidOut start size p
    → IsLaidOut start size (free_found o p)
unfolding free_found binder_free_buf
free-IsLaidOut start size address p none e laid = laid
free-IsLaidOut start size address p (some b) e laid =
    let (at, used) = lookup_in_use address p.buffers b e in
    let (end_, space) = given_back b p used in
    let (laid', same, held) =
      released p.region_end address false p.buffers b laid.0 (λ f. absurd (cc)) e in
    (
      rw (at, end_) laid',
      rw (at, end_) (same ∙ laid.1),
      end_ ∙ laid.2,
      rw at (omega (arith, space, held, laid.3)),
    )

step-IsLaidOut :
    (start size : ℕ) (p : Region) (r : Request)
    → IsLaidOut start size p
    → IsLaidOut start size (step p r)
unfolding step
step-IsLaidOut start size p (allocate prefers mapped data_size offsets_size is_async) laid =
    (binder_alloc_buf-Outcome start size data_size offsets_size is_async p laid prefers mapped).0
step-IsLaidOut start size p (release address) laid =
    free-IsLaidOut start size address p (binder_buffer_lookup address p.buffers) refl laid

run-IsLaidOut :
    (start size : ℕ) (p : Region) (rs : List Request)
    → IsLaidOut start size p
    → IsLaidOut start size (region_run p rs)
unfolding region_run
run-IsLaidOut start size p [] laid = laid
run-IsLaidOut start size p (r ∷ rs) laid =
    run-IsLaidOut start size (step p r) rs (step-IsLaidOut start size p r laid)

mapped-IsLaidOut :
    (start size : ℕ) → header_size ≤ size → IsLaidOut start size (mapped_region start size)
unfolding mapped_region
mapped-IsLaidOut start size le =
    ((refl, omega arith, (λ f. absurd (cc)), tt), refl, refl, omega arith)

-- From the region that binder_mmap leaves, if it has room for a header, and through any sequence of
-- allocations and releases, whatever the tree of free buffers prefers and whether pages can be had or
-- not: the first buffer begins where the region does, each begins behind the header of the one before
-- it and the last has its header in the region, no two free buffers are neighbours, each buffer in use
-- has the size that was asked for, and the space for one-way calls with what such buffers hold is half
-- of the region. The next allocation then, if it gives a buffer, gives one that was free and large
-- enough with no smaller one such, and it is in use with the sizes asked for; if it gives none, nothing
-- is changed, and there is no vma, the sizes wrap, the space for one-way calls is too small, no free
-- buffer is large enough, or the pages could not be had.
pub region_run-IsLaidOut :
    (start size : ℕ) (rs : List Request)
    → header_size ≤ size
    → let p = region_run (mapped_region start size) rs in
      IsLaidOut start size p
      × ((prefers : ℕ → ℕ → Bool) (mapped : Bool) (data_size offsets_size : ℕ) (is_async : Bool)
          → Outcome mapped data_size offsets_size is_async p
              (binder_alloc_buf prefers mapped data_size offsets_size is_async p))
region_run-IsLaidOut start size rs le =
    let p = region_run (mapped_region start size) rs in
    let laid =
      run-IsLaidOut start size (mapped_region start size) rs (mapped-IsLaidOut start size le) in
    (
      laid,
      λ prefers mapped data_size offsets_size is_async.
          (binder_alloc_buf-Outcome start size data_size offsets_size is_async p laid prefers
            mapped).1,
    )
