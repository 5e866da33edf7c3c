-- ===== src/BinderDriver/Buffers/Layout/Release.antt =====
-- How binder_free_buf of driver/binder.c leaves the buffers.
use learn_node.Base.{
  ℕ, ◌+◌, ◌≤◌, ◌<◌, ◌≡◌, ◌≢◌, refl, sym, subst, Bool, true, false, none, some, List, [], ◌∷◌, ◌==◌,
  ◌&&◌, arith, Bool-cases, inl, inr, ==_iff, both-true,
}
use learn_node.BinderDriver.Buffers.{
  Buffer, header_size, limit, binder_buffer_lookup, drop_free, release_buffer,
}
use learn_node.BinderDriver.Buffers.Layout.{IsLaid, async_held, async_used}

lookup_above :
    (end_ address : ℕ) (before : Bool) (l : List Buffer)
    → IsLaid end_ before l
    → address < limit end_ l
    → binder_buffer_lookup address l ≡ none
unfolding binder_buffer_lookup
lookup_above end_ address before [] laid lt = refl
lookup_above end_ address before (b ∷ l) laid lt =
    ground
      (arith, lookup_above end_ address b.free l laid.3 (omega arith), ==_iff b.address address)

-- At the head of the list: the buffer that the search finds is that one, and is in use.
lookup_head :
    (end_ address : ℕ) (before : Bool) (b r : Buffer) (l : List Buffer)
    → IsLaid end_ before (b ∷ l)
    → (b.address == address) ≡ true
    → binder_buffer_lookup address (b ∷ l) ≡ some r
    → (b.free ≡ false) × (r ≡ b)
unfolding binder_buffer_lookup
lookup_head end_ address before b r l laid at e = ground (
  arith,
  lookup_above end_ address b.free l laid.3
      (omega (arith, laid.1, (==_iff b.address address).0 at)),
)

lookup_tail :
    (address : ℕ) (b r : Buffer) (l : List Buffer)
    → (b.address == address) ≡ false
    → binder_buffer_lookup address (b ∷ l) ≡ some r
    → binder_buffer_lookup address l ≡ some r
unfolding binder_buffer_lookup
lookup_tail address b r l other e = ground arith

-- A list without its first buffer, if that is free.
abbrev Dropped : ℕ → ℕ → List Buffer → List Buffer → Type 0
Dropped end_ low l l' = IsLaid end_ true l' × (low ≤ limit end_ l') × (async_used l' ≡ async_used l)

drop_yes : (b : Buffer) (l : List Buffer) → b.free ≡ true → drop_free (b ∷ l) ≡ l
unfolding drop_free
drop_yes b l e = rw e

drop_no : (b : Buffer) (l : List Buffer) → b.free ≡ false → drop_free (b ∷ l) ≡ b ∷ l
unfolding drop_free
drop_no b l e = rw e

dropped :
    (end_ low : ℕ) (before : Bool) (l : List Buffer)
    → IsLaid end_ before l
    → low ≤ limit end_ l
    → Dropped end_ low l (drop_free l)
dropped end_ low before [] laid le = unfold drop_free in (tt, le, refl)
dropped end_ low before (b ∷ l) laid le = elim (Bool-cases b.free) [
  | inl e ↦
      subst (Dropped end_ low (b ∷ l)) (sym (drop_yes b l e))
        (subst (λ f. IsLaid end_ f l) e laid.3, omega (arith, laid.1), ground arith)
  | inr e ↦
      subst (Dropped end_ low (b ∷ l)) (sym (drop_no b l e)) ((e, laid.1, laid.2, laid.3), le, refl)
]

-- What the list is after the buffer `r` was given back.
abbrev pub Released : ℕ → Bool → List Buffer → Buffer → List Buffer → Type 0
Released end_ before l r l' =
    IsLaid end_ before l'
    × (limit end_ l' ≡ limit end_ l)
    × (async_used l' + async_held r ≡ async_used l)

-- The buffer itself is at the head, and the one behind it may go.
released_here :
    (end_ : ℕ) (before : Bool) (b : Buffer) (l l' : List Buffer)
    → IsLaid end_ before (b ∷ l)
    → before ≡ false
    → b.free ≡ false
    → Dropped end_ (b.address + header_size) l l'
    → Released end_ before (b ∷ l) b (record b { free = true } ∷ l')
released_here end_ before b l l' laid not_before e (rest, le, used) =
    ((rw not_before, le, (λ f. absurd (cc)), rest), refl, ground (arith, used))

-- The buffer before it is free, and keeps its place.
released_next :
    (end_ : ℕ) (before : Bool) (b c : Buffer) (l l' : List Buffer)
    → IsLaid end_ before (b ∷ (c ∷ l))
    → b.free ≡ true
    → Dropped end_ (b.address + header_size) l l'
    → Released end_ before (b ∷ (c ∷ l)) c (b ∷ l')
released_next end_ before b c l l' laid e (rest, le, used) = (
  (laid.0, le, (λ f. absurd (cc)), subst (λ f. IsLaid end_ f l') (sym e) rest),
  refl,
  omega (arith, used),
)

released_later :
    (end_ : ℕ) (before : Bool) (b r : Buffer) (l l' : List Buffer)
    → IsLaid end_ before (b ∷ l)
    → Released end_ b.free l r l'
    → Released end_ before (b ∷ l) r (b ∷ l')
released_later end_ before b r l l' laid (rest, same, used) =
    ((laid.0, rw same laid.1, (λ f. rw same (laid.2 f)), rest), refl, omega (arith, used))

-- The clauses of release_buffer.
release_head :
    (address : ℕ) (b : Buffer) (l : List Buffer)
    → (b.address == address) ≡ true
    → release_buffer address (b ∷ l) ≡ record b { free = true } ∷ drop_free l
unfolding release_buffer drop_free
release_head address b [] at = rw at
release_head address b (c ∷ l) at = rw at

release_next :
    (address : ℕ) (b c : Buffer) (l : List Buffer)
    → (b.address == address) ≡ false
    → (c.address == address && b.free) ≡ true
    → release_buffer address (b ∷ (c ∷ l)) ≡ b ∷ drop_free l
unfolding release_buffer
release_next address b c l other next = rw (other, next)

release_later :
    (address : ℕ) (b c : Buffer) (l : List Buffer)
    → (b.address == address) ≡ false
    → (c.address == address && b.free) ≡ false
    → release_buffer address (b ∷ (c ∷ l)) ≡ b ∷ release_buffer address (c ∷ l)
unfolding release_buffer
release_later address b c l other not_next = rw (other, not_next)

not_free :
    (f : Bool) (b : Buffer) (address : ℕ)
    → (f ≡ true → b.address ≢ address)
    → (b.address == address) ≡ true
    → f ≡ false
not_free f b address h at = ground (arith, ==_iff b.address address)

at_head :
    (end_ address : ℕ) (before : Bool) (b r : Buffer) (l : List Buffer)
    → IsLaid end_ before (b ∷ l)
    → (before ≡ true → b.address ≢ address)
    → (b.address == address) ≡ true
    → binder_buffer_lookup address (b ∷ l) ≡ some r
    → Released end_ before (b ∷ l) r (release_buffer address (b ∷ l))
at_head end_ address before b r l laid apart at e =
    let (used, same) = lookup_head end_ address before b r l laid at e in
    subst (Released end_ before (b ∷ l) r) (sym (release_head address b l at)) (
      subst (λ q. Released end_ before (b ∷ l) q (record b { free = true } ∷ drop_free l))
        (sym same)
        (released_here end_ before b l (drop_free l) laid (not_free before b address apart at) used
          (dropped end_ (b.address + header_size) b.free l laid.3 laid.1)))

pub released :
    (end_ address : ℕ) (before : Bool) (l : List Buffer) (r : Buffer)
    → IsLaid end_ before l
    → (before ≡ true → limit end_ l ≢ address)
    → binder_buffer_lookup address l ≡ some r
    → Released end_ before l r (release_buffer address l)
released end_ address before [] r laid apart e = absurd (unfold binder_buffer_lookup in cc)
released end_ address before (b ∷ []) r laid apart e = elim (Bool-cases (b.address == address)) [
  | inl at ↦ at_head end_ address before b r [] laid apart at e
  | inr other ↦ absurd (nothing (lookup_tail address b r [] other e))
]
  where
    nothing : binder_buffer_lookup address [] ≡ some r → ⊥
    nothing h = unfold binder_buffer_lookup in cc
released end_ address before (b ∷ (c ∷ l)) r laid apart e =
    elim (Bool-cases (b.address == address)) [
      | inl at ↦ at_head end_ address before b r (c ∷ l) laid apart at e
      | inr other ↦
          let e' = lookup_tail address b r (c ∷ l) other e in
          elim (Bool-cases (c.address == address && b.free)) [
            | inl next ↦
                let (at, free) = both-true (c.address == address) b.free next in
                let (used, same) = lookup_head end_ address b.free c r l laid.3 at e' in
                subst (Released end_ before (b ∷ (c ∷ l)) r)
                  (sym (release_next address b c l other next))
                  (subst (λ q. Released end_ before (b ∷ (c ∷ l)) q (b ∷ drop_free l)) (sym same)
                    (released_next end_ before b c l (drop_free l) laid free (
                      dropped end_ (b.address + header_size) c.free l laid.3.3
                        (omega (arith, laid.1, laid.3.1)))))
            | inr not_next ↦
                subst (Released end_ before (b ∷ (c ∷ l)) r)
                  (sym (release_later address b c l other not_next))
                  (released_later end_ before b r (c ∷ l) (release_buffer address (c ∷ l)) laid (
                    released end_ address b.free (c ∷ l) r laid.3
                      (λ f. not_address c.address b.free not_next f) e'))
          ]
    ]
  where
    not_address : (a : ℕ) (f : Bool) → (a == address && f) ≡ false → f ≡ true → a ≢ address
    not_address a f h g = λ q. cc (h, g, (==_iff a address).1 q)
