-- ===== src/BinderIo/Items/NoRef.antt =====
-- About a message of native/binder.c that has only a word, and so carries no object.
use learn_node.Base.{
  some, ◌*◌, ◌/◌, ◌≡◌, ◌∙◌, refl, ap, List, [], ◌++◌, Bool-cases, ltb, inl, inr, ◌%◌, ◌^◌, ℕ,
  length, arith,
}
use learn_node.BinderIo.{
  bio_get_ref, bio_get_obj, bio_put_uint32, bio_alloc, BinderIo, bio_init, position,
  bio_init_from_txn, has_offset,
}
use learn_node.BinderDriver.Objects.{Translation, translate_all}
use learn_node.BinderDriver.Objects.Placed.{translate_all-nothing}
use learn_node.BinderIo.Items.{delivered}

no_offset-no_ref :
    (t : Translation) (io : BinderIo)
    → io.offs_before ≡ []
    → (r : BinderIo) × (delivered t io ≡ some r) × ((bio_get_ref r).0 ≡ 0)
unfolding bio_get_ref bio_get_obj has_offset bio_init_from_txn delivered
no_offset-no_ref t io none_there =
    let r =
      bio_init_from_txn (io.before ++ io.after) (position io) (io.offs_before ++ io.offs_after)
        (8 * length io.offs_before) in
    let nothing : 8 * length io.offs_before / 8 ≡ 0 = rw none_there (omega arith) in
    let same : translate_all t (position io) io.offs_before (io.before ++ io.after)
        ≡ some (io.before ++ io.after) =
      ap (λ l. translate_all t (position io) l (io.before ++ io.after)) none_there
      ∙ translate_all-nothing t (position io) (io.before ++ io.after) in
    (r, rw same refl, rw nothing refl)

put_uint32-offsets : (n : ℕ) (io : BinderIo) → (bio_put_uint32 n io).offs_before ≡ io.offs_before
unfolding bio_put_uint32 bio_alloc
put_uint32-offsets n io = elim (Bool-cases (ltb io.data_avail 4)) [
  | inl full ↦ ground (arith, full)
  | inr fits ↦ ground (arith, fits)
]

init-offsets :
    (memory offsets : List ℕ) (maxdata maxoffs : ℕ)
    → (bio_init memory offsets maxdata maxoffs).offs_before ≡ []
unfolding bio_init
init-offsets memory offsets maxdata maxoffs =
    elim (Bool-cases (ltb maxdata (maxoffs * 8 % 2 ^ 64))) [
      | inl full ↦ rw full refl
      | inr fits ↦ rw fits refl
    ]

-- A message that has only a word holds no reference: a client that asks for one gets 0.
pub word-no_ref :
    (t : Translation) (n : ℕ) (memory offsets : List ℕ) (maxdata maxoffs : ℕ)
    → (r : BinderIo) × (delivered t (bio_put_uint32 n (bio_init memory offsets maxdata maxoffs))
        ≡ some r)
      × ((bio_get_ref r).0 ≡ 0)
word-no_ref t n memory offsets maxdata maxoffs =
    no_offset-no_ref t (bio_put_uint32 n (bio_init memory offsets maxdata maxoffs)) (
      put_uint32-offsets n (bio_init memory offsets maxdata maxoffs)
      ∙ init-offsets memory offsets maxdata maxoffs)
