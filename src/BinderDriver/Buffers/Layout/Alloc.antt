-- ===== src/BinderDriver/Buffers/Layout/Alloc.antt =====
-- What binder_alloc_buf of driver/binder.c finds, and how it leaves the buffers.
use learn_node.Base.{
  ℕ, ◌+◌, ◌≤◌, ◌≡◌, refl, sym, ap, subst, Bool, true, false, not, Option, none, some, List, [], ◌∷◌,
  ◌++◌, ltb, leb, ◌==◌, if◌then◌else◌, ◌&&◌, ◌||◌, arith, Bool-cases, inl, inr, both-true, leb→le,
  ==_iff,
}
use learn_node.BinderDriver.Buffers.{
  Buffer, header_size, limit, buffer_size, needed, better, best_fit, used_size, remainder,
  take_buffer, binder_buffer_lookup,
}
use learn_node.BinderDriver.Buffers.Layout.{
  IsLaid, async_used, Fits, IsSmallest, NoneFits, IsLaid-weaker, Fits-limit,
}

-- What a search has as its result.
abbrev pub IsBest : ℕ → ℕ → List Buffer → Option (ℕ × ℕ) → Type 0
IsBest end_ size l none = NoneFits end_ size l
IsBest end_ size l (some (address, fit)) = Fits end_ size address fit l × IsSmallest end_ size fit l

IsSmallest-of_none :
    (end_ size fit : ℕ) (l : List Buffer) → NoneFits end_ size l → IsSmallest end_ size fit l
IsSmallest-of_none end_ size fit [] h = tt
IsSmallest-of_none end_ size fit (b ∷ l) h =
    (λ e m. absurd (ground (arith, h.0)), IsSmallest-of_none end_ size fit l h.1)

IsSmallest-weaker :
    (end_ size fit fit' : ℕ) (l : List Buffer)
    → fit' ≤ fit
    → IsSmallest end_ size fit l
    → IsSmallest end_ size fit' l
IsSmallest-weaker end_ size fit fit' [] le h = tt
IsSmallest-weaker end_ size fit fit' (b ∷ l) le h =
    (λ e m. omega (arith, h.0 e m), IsSmallest-weaker end_ size fit fit' l le h.1)

better_new :
    (prefers : ℕ → ℕ → Bool) (new old : ℕ × ℕ)
    → (ltb new.1 old.1 || (new.1 == old.1 && prefers new.0 old.0)) ≡ true
    → better prefers new (some old) ≡ new
unfolding better
better_new prefers new old e = rw e

better_old :
    (prefers : ℕ → ℕ → Bool) (new old : ℕ × ℕ)
    → (ltb new.1 old.1 || (new.1 == old.1 && prefers new.0 old.0)) ≡ false
    → better prefers new (some old) ≡ old
unfolding better
better_old prefers new old e = rw e

better-IsBest :
    (prefers : ℕ → ℕ → Bool) (end_ size : ℕ) (b : Buffer) (l : List Buffer) (o : Option (ℕ × ℕ))
    → b.free ≡ true
    → size ≤ buffer_size end_ b l
    → IsBest end_ size l o
    → IsBest end_ size (b ∷ l) (some (better prefers (b.address, buffer_size end_ b l) o))
better-IsBest prefers end_ size b l none e le best =
    unfold better in
    (
      inl (refl, e, refl, le),
      ((λ f m. omega arith), IsSmallest-of_none end_ size (buffer_size end_ b l) l best),
    )
better-IsBest prefers end_ size b l (some (address, fit)) e le best =
    elim (Bool-cases (
      ltb (buffer_size end_ b l) fit
      || (buffer_size end_ b l == fit && prefers b.address address))) [
        | inl new ↦
            subst (λ q. IsBest end_ size (b ∷ l) (some q))
              (sym (better_new prefers (b.address, buffer_size end_ b l) (address, fit) new))
              (
                inl (refl, e, refl, le),
                (
                  (λ f m. omega arith),
                  IsSmallest-weaker end_ size fit (buffer_size end_ b l) l (ground arith) best.1,
                ),
              )
        | inr old ↦
            subst (λ q. IsBest end_ size (b ∷ l) (some q))
              (sym (better_old prefers (b.address, buffer_size end_ b l) (address, fit) old))
              (inr best.0, ((λ f m. ground arith), best.1))
      ]

pub best_fit-IsBest :
    (prefers : ℕ → ℕ → Bool) (end_ size : ℕ) (l : List Buffer)
    → IsBest end_ size l (best_fit prefers end_ size l)
unfolding best_fit
best_fit-IsBest prefers end_ size [] = tt
best_fit-IsBest prefers end_ size (b ∷ l) =
    elim (Bool-cases (b.free && leb size (buffer_size end_ b l))) [
      | inl fits ↦ rw fits (
          better-IsBest prefers end_ size b l (best_fit prefers end_ size l) (both-true _ _ fits).0
            (leb→le _ _ (both-true _ _ fits).1) (best_fit-IsBest prefers end_ size l))
      | inr not_this ↦ rw not_this (
          passed_over (best_fit prefers end_ size l) not_this (best_fit-IsBest prefers end_ size l))
    ]
  where
    passed_over :
        (o : Option (ℕ × ℕ))
        → (b.free && leb size (buffer_size end_ b l)) ≡ false
        → IsBest end_ size l o
        → IsBest end_ size (b ∷ l) o
    passed_over none e best = (e, best)
    passed_over (some (address, fit)) e best =
        (inr best.0, ((λ f m. absurd (ground arith)), best.1))

-- What the list is after a buffer was taken.
abbrev pub Taken : ℕ → Bool → List Buffer → ℕ → List Buffer → Type 0
Taken end_ before l held l' =
    IsLaid end_ before l' × (limit end_ l' ≡ limit end_ l) × (async_used l' ≡ async_used l + held)

abbrev pub held_by : Bool → ℕ → ℕ
held_by is_async size = if is_async then size + header_size else 0

and_false : (b : Bool) → (b && false) ≡ false
and_false b = ground arith

module _ (end_ : ℕ) (is_async : Bool) (data_size offsets_size : ℕ) where
  abbrev pub size : ℕ
  size = needed data_size offsets_size

  taken_here :
      (b : Buffer) (l : List Buffer) (before : Bool)
      → b.free ≡ true
      → size ≤ buffer_size end_ b l
      → IsLaid end_ before (b ∷ l)
      → Taken end_ before (b ∷ l) (held_by is_async size) (
          record {
            address = b.address;
            free = false;
            async_transaction = is_async;
            data_size = data_size;
            offsets_size = offsets_size;
          }
          ∷ (remainder b.address size (buffer_size end_ b l) ++ l))
  taken_here b l before e le laid =
      elim (Bool-cases (used_size size (buffer_size end_ b l) == size)) [
        | inl whole ↦ rw whole (
          (and_false before, laid.1, (λ f. le), IsLaid-weaker end_ b.free l laid.3),
          refl,
          ground arith,
        )
        | inr split ↦
            let room : b.address + header_size + size + header_size ≤ limit end_ l = ground arith in
            rw split (
              (
                and_false before,
                omega arith,
                (λ f. omega arith),
                (refl, room, (λ f. absurd (cc)), subst (λ f. IsLaid end_ f l) e laid.3),
              ),
              refl,
              ground arith,
            )
      ]

  -- The buffer that is taken is the one at the address, and the others stay.
  pub taken :
      (address fit : ℕ) (l : List Buffer) (before : Bool)
      → IsLaid end_ before l
      → Fits end_ size address fit l
      → Taken end_ before l
          (held_by is_async size)
          (take_buffer address fit is_async data_size offsets_size size l)
  unfolding take_buffer
  taken address fit [] before laid fits = absurd fits
  taken address fit (b ∷ l) before laid (inl (at, e, same, le)) =
      let here : (b.address == address) ≡ true = (==_iff b.address address).1 at in
      rw (here, same) (taken_here b l before e (ground arith) laid)
  taken address fit (b ∷ l) before laid (inr there) =
      let low = Fits-limit end_ size address fit b.free l laid.3 there in
      let (laid', same, used) = taken address fit l b.free laid.3 there in
      let other : (b.address == address) ≡ false = ground arith in
      rw other
        ((laid.0, rw same laid.1, (λ f. rw same (laid.2 f)), laid'), refl, omega (arith, used))

  pub taken-lookup :
      (address fit : ℕ) (l : List Buffer) (before : Bool)
      → IsLaid end_ before l
      → Fits end_ size address fit l
      → binder_buffer_lookup address
          (take_buffer address fit is_async data_size offsets_size size l)
        ≡ some (record {
          address = address;
          free = false;
          async_transaction = is_async;
          data_size = data_size;
          offsets_size = offsets_size;
        })
  unfolding take_buffer binder_buffer_lookup
  taken-lookup address fit [] before laid fits = absurd fits
  taken-lookup address fit (b ∷ l) before laid (inl (at, e, same, le)) =
      let here : (b.address == address) ≡ true = (==_iff b.address address).1 at in
      rw (here, here)
        (ap
          (λ a. some (record {
            address = a;
            free = false;
            async_transaction = is_async;
            data_size = data_size;
            offsets_size = offsets_size;
          }))
          at)
  taken-lookup address fit (b ∷ l) before laid (inr there) =
      let low = Fits-limit end_ size address fit b.free l laid.3 there in
      let other : (b.address == address) ≡ false = ground arith in
      rw (other, other, and_false (not b.free)) (taken-lookup address fit l b.free laid.3 there)
