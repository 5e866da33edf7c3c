-- ===== src/BinderDriver/Objects/Placed.antt =====
-- The rewriting of objects (binder_transaction of driver/binder.c) where they lie among other data.
use learn_node.Base.{
  ℕ, ◌+◌, ◌-◌, ◌*◌, ◌/◌, ◌%◌, ◌^◌, ◌≤◌, ◌<◌, ◌≡◌, ◌∙◌, refl, sym, ap, false, not, ltb, ◌==◌, ◌||◌,
  Option, none, some, List, [], ◌∷◌, ◌++◌, ◌>>=◌, some_same, length, drop, arith, append_assoc,
  length-append, take-append_len, drop-append_len,
}
use learn_node.BinderIo.{handle_object}
use learn_node.BinderDriver.Objects.{
  Target, Translation, with_target, translate_object, translate_at, translate_all,
}

pub translate_all-nothing :
    (t : Translation) (size : ℕ) (units : List ℕ) → translate_all t size [] units ≡ some units
unfolding translate_all
translate_all-nothing t size units = refl

pub translate_all-append :
    (t : Translation) (size : ℕ) (os more units units' : List ℕ)
    → translate_all t size os units ≡ some units'
    → translate_all t size (os ++ more) units ≡ translate_all t size more units'
unfolding translate_all
translate_all-append t size [] more units units' e =
    ap (translate_all t size more) (some_same units units' e)
translate_all-append t size (o ∷ os) more units units' e =
    after (translate_at t size o units) (λ u h. translate_all-append t size os more u units' h) e
  where
    after :
        (r : Option (List ℕ))
        → ((u : List ℕ)
            → translate_all t size os u ≡ some units'
            → translate_all t size (os ++ more) u ≡ translate_all t size more units')
        → (r >>= translate_all t size os) ≡ some units'
        → (r >>= translate_all t size (os ++ more)) ≡ translate_all t size more units'
    after none later h = absurd (cc)
    after (some u) later h = later u h

-- An object of its size, at a place that is a multiple of four bytes.
pub translate_all-one :
    (t : Translation) (size b : ℕ) (p obj obj' x : List ℕ)
    → length p ≡ b
    → length obj ≡ 12
    → b % 2 ≡ 0
    → 2 * (b + length obj) ≤ size
    → translate_object t obj ≡ some obj'
    → translate_all t size (2 * b ∷ []) (p ++ (obj ++ x)) ≡ some (p ++ (obj' ++ x))
unfolding translate_all translate_at
translate_all-one t size b p obj obj' x at len even le e =
    let half : 2 * b / 2 ≡ b = omega arith in
    let inside : (ltb size 24 || ltb (size - 24) (2 * b) || not (2 * b % 4 == 0)) ≡ false =
      ground arith in
    let behind : drop (b + 12) (p ++ (obj ++ x)) ≡ x =
      ap (drop (b + 12)) (sym (append_assoc p obj x))
      ∙ drop-append_len (b + 12) (p ++ obj) x (omega (arith, length-append p obj)) in
    rw
      (
        inside,
        half,
        drop-append_len b p (obj ++ x) at,
        take-append_len 12 obj x len,
        e,
        take-append_len b p (obj ++ x) at,
        behind,
      )
      refl

pub translate_object-handle :
    (t : Translation) (h : ℕ) (old : List ℕ) (target : Target)
    → h < 2 ^ 32
    → t.target h ≡ some target
    → translate_object t (handle_object h old) ≡ some (with_target (handle_object h old) target)
unfolding translate_object
translate_object-handle t h old target lt e =
    let read : h % 2 ^ 16 + 2 ^ 16 * (h / 2 ^ 16 % 2 ^ 16) ≡ h = omega arith in rw (read, e) refl
