-- ===== src/BinderIo/Items/RoundTrip.antt =====
-- Messages written and read by native/binder.c.
use learn_node.Base.{
  suc, Option, none, some, some_same, ◌>>=◌, ◌+◌, ◌*◌, ◌/◌, ◌≤◌, ◌≡◌, ◌∙◌, refl, sym, ap, subst,
  true, false, List, [], ◌∷◌, ◌++◌, ◌==◌, ◌%◌, ℕ, length, arith, append_assoc, append-nil,
  length-append,
}
use learn_node.BinderIo.{BinderIo, bio_init, position, bio_init_from_txn, has_offset}
use learn_node.BinderDriver.Objects.{Translation, translate_all}
use learn_node.BinderDriver.Objects.Placed.{translate_all-nothing, translate_all-append}
use learn_node.BinderIo.Items.{
  Item, word, ref, name, IsItem, AreItems, put_item, put_all, get_item, get_all, delivered,
  translate_item, translate_items, Delivers, HasRoom, AllFound, Reads, IsWritten,
}
use learn_node.BinderIo.Items.Written.{word-IsWritten}
use learn_node.BinderIo.Items.Written.Objects.{ref-IsWritten}
use learn_node.BinderIo.Items.Written.Strings.{name-IsWritten}
use learn_node.BinderIo.Items.Written.Fine.{put_item_fine}

item-IsWritten :
    (i : Item) (io : BinderIo)
    → IsItem i
    → HasRoom io
    → (put_item i io).overflow ≡ false
    → IsWritten i io (put_item i io)
unfolding put_item
item-IsWritten (word n) io ok room fine = word-IsWritten n io ok room fine
item-IsWritten (ref h) io ok room fine = ref-IsWritten h io ok.0 ok.1 room fine
item-IsWritten (name s) io ok room fine = name-IsWritten s io ok.0 ok.1 room fine

put_all_fine :
    (is : List Item) (io : BinderIo)
    → AreItems is
    → (put_all is io).overflow ≡ false
    → io.overflow ≡ false
unfolding put_all
put_all_fine [] io ok fine = fine
put_all_fine (i ∷ is) io ok fine =
    put_item_fine i io ok.0 (put_all_fine is (put_item i io) ok.1 fine)

-- All items are read from the units `d`, which begin at the place `b`.
abbrev ReadsAll : List Item → ℕ → List ℕ → List ℕ → Type 0
ReadsAll is b d os =
    (r : BinderIo) (x : List ℕ)
    → r.after ≡ d ++ x
    → 2 * length d ≤ r.data_avail
    → length r.before ≡ b
    → AllFound os r.offs_avail r.offs_after
    → ((get_all is r).0 ≡ is) × ((get_all is r).1.overflow ≡ r.overflow)

found_first : (os more : List ℕ) (n : ℕ) (l : List ℕ) → AllFound (os ++ more) n l → AllFound os n l
found_first [] more n l f = tt
found_first (o ∷ os) more n l f = (f.0, found_first os more n l f.1)

found_later :
    (os more : List ℕ) (n : ℕ) (l : List ℕ) → AllFound (os ++ more) n l → AllFound more n l
found_later [] more n l f = f
found_later (o ∷ os) more n l f = found_later os more n l f.1

both-Reads :
    (i : Item) (is : List Item) (b : ℕ) (c d os more : List ℕ)
    → Reads i b c os
    → ReadsAll is (b + length c) d more
    → ReadsAll (i ∷ is) b (c ++ d) (os ++ more)
unfolding get_all
both-Reads i is b c d os more one all r x e le at found =
    let long = length-append c d in
    let step =
      one r (d ++ x) (e ∙ append_assoc c d x) (omega (arith, le, long)) at
        (found_first os more r.offs_avail r.offs_after found) in
    let r1 = (get_item i r).1 in
    let (values, fine) =
      all r1 x step.rest (omega (arith, le, long, step.avail)) (omega (arith, step.passed, at))
        (rw (step.offs_count, step.offs) (found_later os more r.offs_avail r.offs_after found)) in
    (rw (step.value, values), fine ∙ step.fine)

-- The same of what is delivered of them.
abbrev DeliversAll : List Item → ℕ → List ℕ → List ℕ → Type 0
DeliversAll is b d os =
    (t : Translation) (is' : List Item)
    → translate_items t is ≡ some is'
    → (d' : List ℕ) × (length d' ≡ length d)
      × ((p x : List ℕ) (size : ℕ)
          → length p ≡ b
          → 2 * (b + length d) ≤ size
          → translate_all t size os (p ++ (d ++ x)) ≡ some (p ++ (d' ++ x)))
      × ReadsAll is' b d' os

-- One item and the rest, translated.
both-translated :
    (t : Translation) (i : Item) (is js : List Item)
    → translate_items t (i ∷ is) ≡ some js
    → (i' : Item) × (is' : List Item) × (translate_item t i ≡ some i')
      × (translate_items t is ≡ some is')
      × (i' ∷ is' ≡ js)
unfolding translate_items
both-translated t i is js e = taken (translate_item t i) (translate_items t is) refl refl e
  where
    taken :
        (o : Option Item) (os : Option (List Item))
        → translate_item t i ≡ o
        → translate_items t is ≡ os
        → (o >>= λ i'. os >>= λ is'. some (i' ∷ is')) ≡ some js
        → (i' : Item) × (is' : List Item) × (translate_item t i ≡ some i')
          × (translate_items t is ≡ some is')
          × (i' ∷ is' ≡ js)
    taken none os a b h = absurd (cc)
    taken (some i') none a b h = absurd (cc)
    taken (some i') (some is') a b h = (i', is', a, b, some_same (i' ∷ is') js h)

both-Delivers :
    (i : Item) (is : List Item) (b : ℕ) (c d os more : List ℕ)
    → Delivers i b c os
    → DeliversAll is (b + length c) d more
    → DeliversAll (i ∷ is) b (c ++ d) (os ++ more)
both-Delivers i is b c d os more one all t js e =
    let (i', is', ei, eis, same) = both-translated t i is js e in
    let (c', len, puts, reads) = one t i' ei in
    let (d', len', puts', reads') = all t is' eis in
    let long = length-append c d in
    (
      c' ++ d',
      omega (arith, long, length-append c' d', len, len'),
      λ p x size at le.
          ap (λ l. translate_all t size (os ++ more) (p ++ l)) (append_assoc c d x)
          ∙ (translate_all-append t size os more (p ++ (c ++ (d ++ x))) (p ++ (c' ++ (d ++ x)))
                (puts p (d ++ x) size at (omega (arith, le, long)))
              ∙ (ap (translate_all t size more) (sym (append_assoc p c' (d ++ x)))
                  ∙ (puts' (p ++ c') x size (omega (arith, at, len, length-append p c'))
                        (omega (arith, le, long))
                      ∙ ap some (
                          append_assoc p c' (d' ++ x)
                          ∙ ap (λ l. p ++ l) (sym (append_assoc c' d' x)))))),
      subst (λ ks. ReadsAll ks b (c' ++ d') (os ++ more)) same
          (both-Reads i' is' b c' d' os more reads
            (subst (λ n. ReadsAll is' (b + n) d' more) (sym len) reads')),
    )

put_all-DeliversAll :
    (is : List Item) (io : BinderIo)
    → AreItems is
    → HasRoom io
    → length io.before % 2 ≡ 0
    → (put_all is io).overflow ≡ false
    → (d : List ℕ) × (os : List ℕ) × ((put_all is io).before ≡ io.before ++ d)
      × ((put_all is io).offs_before ≡ io.offs_before ++ os)
      × DeliversAll is (length io.before) d os
unfolding put_all translate_items
put_all-DeliversAll [] io ok room even fine = (
  [],
  [],
  sym (append-nil io.before),
  sym (append-nil io.offs_before),
  λ t is' e. (
    [],
    refl,
    λ p x size at le. translate_all-nothing t size (p ++ x),
    subst (λ ks. ReadsAll ks (length io.before) [] []) (some_same [] is' e)
        (λ r x e' le at found. unfold get_all in (refl, refl)),
  ),
)
put_all-DeliversAll (i ∷ is) io ok room even fine =
    let w = item-IsWritten i io ok.0 room (put_all_fine is (put_item i io) ok.1 fine) in
    let long = ap length w.grown ∙ length-append io.before w.units in
    let (d, os, grown, offs_grown, all) =
      put_all-DeliversAll is (put_item i io) ok.1 w.room (omega (arith, long, even, w.even)) fine in
    (
      w.units ++ d,
      w.offsets ++ os,
      grown ∙ (ap (λ l. l ++ d) w.grown ∙ append_assoc io.before w.units d),
      offs_grown ∙ (ap (λ l. l ++ os) w.offs_grown ∙ append_assoc io.offs_before w.offsets os),
      both-Delivers i is (length io.before) w.units d w.offsets os (w.delivers even)
          (subst (λ b. DeliversAll is b d os) long all),
    )

has_offset-append :
    (before : List ℕ) (o m : ℕ) (l : List ℕ)
    → has_offset (length before + suc m) (before ++ (o ∷ l)) o ≡ true
unfolding has_offset
has_offset-append [] o m l =
    let same : (o == o) ≡ true = ground arith in
    let n : 0 + suc m ≡ suc m = omega arith in rw (n, same)
has_offset-append (p ∷ before) o m l =
    let n : suc (length before) + suc m ≡ suc (length before + suc m) = omega arith in
    rw n (ground (arith, has_offset-append before o m l))

all_found :
    (before os rest : List ℕ) → AllFound os (length before + length os) (before ++ (os ++ rest))
all_found before [] rest = tt
all_found before (o ∷ os) rest = (
  has_offset-append before o (length os) (os ++ rest),
  subst (λ n. AllFound os n (before ++ (o ∷ (os ++ rest))))
      (omega (arith, length-append before (o ∷ [])))
      (subst (λ l. AllFound os (length (before ++ o ∷ []) + length os) l)
        (append_assoc before (o ∷ []) (os ++ rest)) (all_found (before ++ o ∷ []) os rest)),
)

-- What bio_init leaves, where it does not overflow.
initialised :
    (memory offsets : List ℕ) (maxdata maxoffs : ℕ)
    → maxdata ≤ 2 * length memory
    → maxoffs ≤ length offsets
    → (bio_init memory offsets maxdata maxoffs).overflow ≡ false
    → HasRoom (bio_init memory offsets maxdata maxoffs)
      × ((bio_init memory offsets maxdata maxoffs).before ≡ [])
      × ((bio_init memory offsets maxdata maxoffs).offs_before ≡ [])
unfolding bio_init
initialised memory offsets maxdata maxoffs large many fine = ground arith

-- What a receiving process gets.
abbrev pub IsReceived : Translation → BinderIo → List Item → Type 0
IsReceived t io is' =
    (r : BinderIo) × (delivered t io ≡ some r)
    × ((get_all is' r).0 ≡ is')
    × ((get_all is' r).1.overflow ≡ false)

delivered_read :
    (is : List Item) (io : BinderIo) (t : Translation) (is' : List Item)
    → DeliversAll is 0 io.before io.offs_before
    → translate_items t is ≡ some is'
    → IsReceived t io is'
unfolding bio_init_from_txn delivered
delivered_read is io t is' all e =
    let (d', len, puts, reads) = all t is' e in
    let count : 8 * length io.offs_before / 8 ≡ 0 + length io.offs_before = omega arith in
    let r =
      bio_init_from_txn (d' ++ io.after) (position io) (io.offs_before ++ io.offs_after)
        (8 * length io.offs_before) in
    let (values, fine) = reads r io.after refl (omega (arith, len)) refl (
      subst (λ n. AllFound io.offs_before n (io.offs_before ++ io.offs_after)) (sym count)
        (all_found [] io.offs_before io.offs_after)) in
    (r, rw (puts [] io.after (position io) refl (omega arith)) refl, values, fine)

-- For any units that fit their kind, any handles but 0, and any strings without a 0 that are shorter
-- than 2 ^ 29: what was put into an io of bio_init without an overflow, whatever its memory held, is
-- delivered by the driver, if it knows the handles, and got out of the delivered message, item for item
-- and in the same order, without an overflow: words and strings as they were put in, and each handle as
-- the number that the driver has for its node in the receiving process, or as 0 where the node is that
-- process's own.
pub put_all-get_all :
    (is is' : List Item) (t : Translation) (memory offsets : List ℕ) (maxdata maxoffs : ℕ)
    → AreItems is
    → maxdata ≤ 2 * length memory
    → maxoffs ≤ length offsets
    → (put_all is (bio_init memory offsets maxdata maxoffs)).overflow ≡ false
    → translate_items t is ≡ some is'
    → (r : BinderIo) × (delivered t (put_all is (bio_init memory offsets maxdata maxoffs)) ≡ some r)
      × ((get_all is' r).0 ≡ is')
      × ((get_all is' r).1.overflow ≡ false)
put_all-get_all is is' t memory offsets maxdata maxoffs ok large many fine known =
    let start = bio_init memory offsets maxdata maxoffs in
    let io = put_all is start in
    let (room, empty, no_offs) =
      initialised memory offsets maxdata maxoffs large many (put_all_fine is start ok fine) in
    let (d, os, grown, offs_grown, all) =
      put_all-DeliversAll is start ok room (ap (λ l. length l % 2) empty) fine in
    let units : io.before ≡ d = grown ∙ ap (λ l. l ++ d) empty in
    let offs : io.offs_before ≡ os = offs_grown ∙ ap (λ l. l ++ os) no_offs in
    delivered_read is io t is'
      (subst (λ l. DeliversAll is 0 l io.offs_before) (sym units)
        (subst (λ l. DeliversAll is 0 d l) (sym offs)
          (subst (λ n. DeliversAll is n d os) (ap length empty) all)))
      known
