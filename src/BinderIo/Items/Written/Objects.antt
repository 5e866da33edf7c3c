-- ===== src/BinderIo/Items/Written/Objects.antt =====
-- A handle that native/binder.c writes into a binder_io, and that it is read as it was.
use learn_node.Base.{
  ℕ, suc, ◌-◌, ◌*◌, ◌^◌, ◌≤◌, ◌<◌, ◌≡◌, ◌≢◌, ◌∙◌, refl, sym, ap, subst, true, false, List, [], ◌∷◌,
  ◌++◌, ◌%◌, ◌/◌, ◌+◌, ◌>>=◌, Option, none, some, some_same, ltb, ◌==◌, length, take, drop, arith,
  Bool-cases, inl, inr, length-append, length-take, length-drop,
}
use learn_node.BinderIo.{
  BinderIo, units32, object_size, advance, bio_alloc, push_offset, position, bio_alloc_obj,
  handle_object, bio_put_ref, bio_get_obj, bio_get_ref,
}
use learn_node.BinderDriver.Objects.{Target, own, other, with_node, with_target, translate_all}
use learn_node.BinderDriver.Objects.Placed.{translate_all-one, translate_object-handle}
use learn_node.BinderIo.Items.{
  seen, Delivers, translate_item, ref, get_item, HasRoom, Reads, IsWritten,
}
use learn_node.BinderIo.Items.Written.{got, room_after}

-- bio_alloc_obj, where it did not overflow: an entry of the offsets was left.
pub object_allocated :
    (write : List ℕ → List ℕ) (io : BinderIo)
    → (bio_alloc_obj write io).1.overflow ≡ false
    → (io.offs_avail ≢ 0)
      × (object_size ≤ io.data_avail)
      × ((bio_alloc_obj write io).1 ≡ record (advance object_size write io) {
        offs_avail = io.offs_avail - 1;
        offs_before = (push_offset (position io) io.offs_before io.offs_after).0;
        offs_after = (push_offset (position io) io.offs_before io.offs_after).1;
      })
unfolding bio_alloc_obj bio_alloc
object_allocated write io fine = elim (Bool-cases (io.offs_avail == 0)) [
  | inl none_left ↦ absurd (no_entry none_left fine)
  | inr some_left ↦ elim (Bool-cases (ltb io.data_avail object_size)) [
    | inl full ↦ absurd (no_room some_left full fine)
    | inr fits ↦ (ground arith, ground arith, rw (some_left, fits))
  ]
]
  where
    no_entry : (io.offs_avail == 0) ≡ true → (bio_alloc_obj write io).1.overflow ≡ false → ⊥
    no_entry e = elim (Bool-cases (ltb io.data_avail object_size)) [
      | inl full ↦ rw (e, full) (λ f. cc)
      | inr fits ↦ rw (e, fits) (λ f. cc)
    ]

    no_room :
        (io.offs_avail == 0) ≡ false
        → ltb io.data_avail object_size ≡ true
        → (bio_alloc_obj write io).1.overflow ≡ false
        → ⊥
    no_room e full = rw (e, full) (λ f. cc)

pushed :
    (o : ℕ) (done os : List ℕ)
    → 1 ≤ length os
    → ((push_offset o done os).0 ≡ done ++ o ∷ [])
      × (length os ≡ suc (length (push_offset o done os).1))
unfolding push_offset
pushed o done [] le = absurd (omega arith)
pushed o done (p ∷ os) le = (refl, refl)

length-handle_object :
    (h : ℕ) (old : List ℕ) → 12 ≤ length old → length (handle_object h (take 12 old)) ≡ 12
length-handle_object h old le = omega (
  arith,
  length-append (take 2 (drop 6 (take 12 old))) (units32 0 ++ units32 0),
  length-take 2 (drop 6 (take 12 old)),
  length-drop 6 (take 12 old),
  length-take 12 old,
)

ref-Reads :
    (h b : ℕ) (old : List ℕ)
    → h < 2 ^ 32
    → length (handle_object h old) ≡ 12
    → Reads (ref h) b (handle_object h old) (2 * b ∷ [])
unfolding get_item bio_get_ref bio_get_obj
ref-Reads h b old lt len r x e le at found =
    rw (at, found.0, got object_size (handle_object h old) x r e (omega (arith, len)) le)
      record {
        value = ap ref (omega arith);
        rest = refl;
        passed = length-append r.before (handle_object h old);
        avail = omega (arith, le);
        offs_count = refl;
        offs = refl;
        fine = refl;
      }

own-Reads :
    (h b ptr cookie : ℕ) (old : List ℕ)
    → Reads (ref 0) b (with_node ptr cookie (handle_object h old)) (2 * b ∷ [])
unfolding get_item bio_get_ref bio_get_obj
own-Reads h b ptr cookie old r x e le at found =
    let obj = with_node ptr cookie (handle_object h old) in
    rw (at, found.0, got object_size obj x r e refl le)
      record {
        value = refl;
        rest = refl;
        passed = length-append r.before obj;
        avail = omega (arith, le);
        offs_count = refl;
        offs = refl;
        fine = refl;
      }

-- A number that an object has is taken as a uint32_t.
handle_object-mod : (k : ℕ) (old : List ℕ) → handle_object k old ≡ handle_object (k % 2 ^ 32) old
handle_object-mod k old =
    let low : k % 2 ^ 32 % 2 ^ 16 ≡ k % 2 ^ 16 = omega arith in
    let high : k % 2 ^ 32 / 2 ^ 16 % 2 ^ 16 ≡ k / 2 ^ 16 % 2 ^ 16 = omega arith in
    rw (low, high) refl

target-Reads :
    (h b : ℕ) (old : List ℕ) (target : Target)
    → length (handle_object h old) ≡ 12
    → (length (with_target (handle_object h old) target) ≡ 12)
      × Reads (ref (seen target)) b (with_target (handle_object h old) target) (2 * b ∷ [])
target-Reads h b old (own ptr cookie) len = (refl, own-Reads h b ptr cookie old)
target-Reads h b old (other k) len = (
  len,
  subst (λ c. Reads (ref (k % 2 ^ 32)) b c (2 * b ∷ [])) (sym (handle_object-mod k old))
      (ref-Reads (k % 2 ^ 32) b old (omega arith) len),
)

-- The driver rewrites an object, and leaves it in its place.
ref-Delivers :
    (h b : ℕ) (old : List ℕ)
    → h < 2 ^ 32
    → length (handle_object h old) ≡ 12
    → b % 2 ≡ 0
    → Delivers (ref h) b (handle_object h old) (2 * b ∷ [])
unfolding translate_item
ref-Delivers h b old lt len even t i' = known (t.target h) refl
  where
    known :
        (o : Option Target)
        → t.target h ≡ o
        → (o >>= λ target. some (ref (seen target))) ≡ some i'
        → (c' : List ℕ) × (length c' ≡ length (handle_object h old))
          × ((p x : List ℕ) (size : ℕ)
              → length p ≡ b
              → 2 * (b + length (handle_object h old)) ≤ size
              → translate_all t size (2 * b ∷ []) (p ++ (handle_object h old ++ x))
                ≡ some (p ++ (c' ++ x)))
          × Reads i' b c' (2 * b ∷ [])
    known none e h' = absurd (cc)
    known (some target) e h' =
        let (size', reads) = target-Reads h b old target len in
        (
          with_target (handle_object h old) target,
          size' ∙ sym len,
          λ p x size at le.
              translate_all-one t size b p (handle_object h old) _ x at len even le
                (translate_object-handle t h old target lt e),
          subst (λ j. Reads j b (with_target (handle_object h old) target) (2 * b ∷ []))
              (some_same (ref (seen target)) i' h') reads,
        )

pub put_ref_object :
    (h : ℕ) (io : BinderIo) → h ≢ 0 → bio_put_ref h io ≡ (bio_alloc_obj (handle_object h) io).1
unfolding bio_put_ref
put_ref_object h io nz = let not_null : (h == 0) ≡ false = ground arith in rw not_null

pub ref-IsWritten :
    (h : ℕ) (io : BinderIo)
    → h < 2 ^ 32
    → h ≢ 0
    → HasRoom io
    → (bio_put_ref h io).overflow ≡ false
    → IsWritten (ref h) io (bio_put_ref h io)
ref-IsWritten h io lt nz room fine =
    let same = put_ref_object h io nz in
    let (entry, le, done) =
      object_allocated (handle_object h) io
        (subst (λ (t : BinderIo). t.overflow ≡ false) same fine) in
    let long : 12 ≤ length io.after = omega (arith, room.0, le) in
    let size = length-handle_object h io.after long in
    let (more, fewer) =
      pushed (position io) io.offs_before io.offs_after (omega (arith, entry, room.1)) in
    subst (λ t. IsWritten (ref h) io t) (sym (same ∙ done))
      (record {
        units = handle_object h (take 12 io.after);
        offsets = position io ∷ [];
        grown = refl;
        offs_grown = more;
        room = (
          room_after object_size (handle_object h (take 12 io.after)) io room (omega (arith, size))
              le,
          omega (arith, room.1, fewer),
        );
        even = omega (arith, size);
        delivers = ref-Delivers h (length io.before) (take 12 io.after) lt size;
      })
