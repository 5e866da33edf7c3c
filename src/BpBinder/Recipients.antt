-- ===== src/BpBinder/Recipients.antt =====
-- The recipients in the vector of a proxy of native/BpBinder.cpp, as linkToDeath, unlinkToDeath and
-- sendObituary change them.
use learn_node.Base.{
  ap, is_some, ℕ, ◌≡◌, refl, ◌≢◌, ◌⊎◌, inl, inr, Bool, true, false, ◌||◌, Option, none, some, List,
  [], ◌∷◌, ◌++◌, map, ◌==◌, if◌then◌else◌, arith, Bool-cases,
}
use learn_node.Status.{Status, no_error, dead_object, is_no_error, is_negative, is_negative→}
use learn_node.IpcCall.{clear_death_notification}
use learn_node.BpBinder.{
  BpBinder, Obituary, Effect, Memory, link_to_death, link_locked, add_obituary, unlink_to_death,
  unlink_found, drop_obituaries, send_obituary, report_deaths, binder_died, death_calls, matches,
  take_first, obituary_list,
}

abbrev pub member : ℕ → List ℕ → Bool
member a [] = false
member a (x ∷ xs) = x == a || member a xs

abbrev pub AllDistinct : List ℕ → Type 0
AllDistinct [] = Unit
AllDistinct (x ∷ xs) = (member x xs ≡ false) × AllDistinct xs

abbrev pub without : ℕ → List ℕ → List ℕ
without a [] = []
without a (x ∷ xs) = if x == a then xs else x ∷ without a xs

abbrev pub recipients_of : BpBinder → List ℕ
recipients_of q = map (λ o. o.recipient) (obituary_list q.obituaries)

pub member-append : (a x : ℕ) (xs : List ℕ) → member a (xs ++ x ∷ []) ≡ (member a xs || x == a)
member-append a x [] = ground arith
member-append a x (y ∷ xs) = ground (arith, member-append a x xs)

pub append-AllDistinct :
    (x : ℕ) (xs : List ℕ) → AllDistinct xs → member x xs ≡ false → AllDistinct (xs ++ x ∷ [])
append-AllDistinct x [] d h = (refl, tt)
append-AllDistinct x (y ∷ xs) d h =
    ground (arith, append-AllDistinct x xs d.1, member-append y x xs)

pub member-without : (a b : ℕ) (xs : List ℕ) → member a xs ≡ false → member a (without b xs) ≡ false
member-without a b [] h = refl
member-without a b (x ∷ xs) h = ground (arith, member-without a b xs)

pub without-AllDistinct : (a : ℕ) (xs : List ℕ) → AllDistinct xs → AllDistinct (without a xs)
without-AllDistinct a [] d = tt
without-AllDistinct a (x ∷ xs) d =
    ground (arith, without-AllDistinct a xs d.1, member-without x a xs d.0)

recipients-add :
    (os : List Obituary) (o : Obituary)
    → map (λ o. o.recipient) (os ++ o ∷ []) ≡ map (λ o. o.recipient) os ++ o.recipient ∷ []
recipients-add [] o = refl
recipients-add (x ∷ os) o = ground (arith, recipients-add os o)

-- What a link leaves: one more recipient at the end, or an error and the recipients of before.
abbrev pub Linked : BpBinder → Obituary → Status × BpBinder × List Effect → Type 0
Linked p ob (err, q, es) =
    (q.obits_sent ≡ p.obits_sent)
    × (((err ≡ no_error) × (recipients_of q ≡ recipients_of p ++ ob.recipient ∷ []))
        ⊎ ((is_no_error err ≡ false) × (recipients_of q ≡ recipients_of p)))

add-Linked :
    (mem : Memory) (ob : Obituary) (os : List Obituary) (p : BpBinder) (es : List Effect)
    → obituary_list p.obituaries ≡ os
    → Linked p ob (add_obituary mem ob os p es)
unfolding add_obituary
add-Linked mem ob os p es e = elim (Bool-cases (is_negative mem.add)) [
  | inl fails ↦ rw fails (refl, inr (is_negative→ mem.add fails, rw e refl))
  | inr works ↦ rw works (refl, inl (refl, rw e (recipients-add os ob)))
]

locked-Linked :
    (mem : Memory) (ob : Obituary) (p : BpBinder) (o : Option (List Obituary))
    → p.obituaries ≡ o
    → Linked p ob (link_locked mem ob p o)
unfolding link_locked
locked-Linked mem ob p none e = elim (Bool-cases mem.vector) [
  | inl there ↦ simp there (add-Linked mem ob [] p _ (rw e refl))
  | inr short ↦ simp short (refl, inr (refl, refl))
]
locked-Linked mem ob p (some os) e = add-Linked mem ob os p [] (rw e refl)

pub link_to_death-Linked :
    (mem : Memory) (ob : Obituary) (p : BpBinder)
    → ob.recipient ≢ 0
    → (r : Status × BpBinder × List Effect) × (link_to_death mem ob p ≡ some r) × Linked p ob r
unfolding link_to_death
link_to_death-Linked mem ob p live = elim (Bool-cases p.obits_sent) [
  | inl sent ↦ ((dead_object, p, []), ground arith, (refl, inr (refl, refl)))
  | inr open_ ↦
      (link_locked mem ob p p.obituaries, ground arith, locked-Linked mem ob p p.obituaries refl)
]

take-missing :
    (a f : ℕ) (os : List Obituary)
    → a ≢ 0
    → member a (map (λ o. o.recipient) os) ≡ false
    → take_first (matches a 0 f) os ≡ none
unfolding take_first matches
take-missing a f [] ne h = refl
take-missing a f (x ∷ os) ne h = ground (arith, take-missing a f os ne)

take-without :
    (a f : ℕ) (os : List Obituary)
    → a ≢ 0
    → AllDistinct (map (λ o. o.recipient) os)
    → (take_first (matches a 0 f) os ≡ none)
      ⊎ ((o : Obituary) × (os' : List Obituary) × (take_first (matches a 0 f) os ≡ some (o, os'))
          × (o.recipient ≡ a)
          × (map (λ o. o.recipient) os' ≡ without a (map (λ o. o.recipient) os)))
unfolding take_first matches
take-without a f [] ne d = inl refl
take-without a f (x ∷ os) ne d = elim (Bool-cases (x.recipient == a)) [
  | inl hit ↦ elim (Bool-cases (x.flags == f)) [
    | inl flags ↦ inr (x, os, ground arith, ground arith, ground arith)
    | inr other ↦ inl (ground (arith, take-missing a f os ne))
  ]
  | inr miss ↦ elim (take-without a f os ne d.1) [
    | inl none_ ↦ inl (ground arith)
    | inr (o, os', e, at, rest) ↦ inr (o, x ∷ os', ground arith, at, ground arith)
  ]
]

-- What an unlink of the recipient `a` leaves: it is taken out, or an error and the proxy as it was.
abbrev pub Unlinked : ℕ → BpBinder → Status × Option ℕ × BpBinder × List Effect → Type 0
Unlinked a p (err, out, q, es) =
    (q.obits_sent ≡ p.obits_sent)
    × (((err ≡ no_error) × (out ≡ some a) × (recipients_of q ≡ without a (recipients_of p)))
        ⊎ ((is_no_error err ≡ false) × (out ≡ none) × (recipients_of q ≡ recipients_of p)))

drop-recipients :
    (p : BpBinder) (os : List Obituary)
    → ((drop_obituaries p os).0.obits_sent ≡ p.obits_sent)
      × (recipients_of (drop_obituaries p os).0 ≡ map (λ o. o.recipient) os)
unfolding drop_obituaries
drop-recipients p [] = (refl, refl)
drop-recipients p (o ∷ os) = (refl, refl)

pub unlink_to_death-Unlinked :
    (a f : ℕ) (p : BpBinder)
    → a ≢ 0
    → (p.obits_sent ≡ false → AllDistinct (recipients_of p))
    → Unlinked a p (unlink_to_death a 0 f p)
unfolding unlink_to_death unlink_found
unlink_to_death-Unlinked a f p ne d = elim (Bool-cases p.obits_sent) [
  | inl sent ↦ simp sent (refl, inr (refl, refl, refl))
  | inr open_ ↦ elim (take-without a f (obituary_list p.obituaries) ne (d open_)) [
    | inl none_ ↦ simp (open_, none_) (refl, inr (refl, refl, refl))
    | inr (o, os', e, at, rest) ↦
        let (sent, left) = drop-recipients p os' in
        simp (open_, e, sent, left, at) (refl, inl (refl, refl, rest))
  ]
]

pub send_obituary-sent :
    (promote : ℕ → Bool) (p : BpBinder) → (send_obituary promote p).0.obits_sent ≡ true
unfolding send_obituary
send_obituary-sent promote p = ground arith

reports-all :
    (os : List Obituary)
    → report_deaths (λ a. true) os ≡ map binder_died (map (λ o. o.recipient) os)
unfolding report_deaths
reports-all [] = refl
reports-all (o ∷ os) = ap (◌∷◌ (binder_died o.recipient)) (reports-all os)

-- The effects of the first obituary where all recipients live.
pub send_obituary-reports :
    (p : BpBinder)
    → p.obits_sent ≡ false
    → (send_obituary (λ a. true) p).1
      ≡ (if is_some p.obituaries then death_calls clear_death_notification p else [])
        ++ map binder_died (recipients_of p)
unfolding send_obituary
send_obituary-reports p open_ = rw (open_, reports-all (obituary_list p.obituaries)) refl

-- A later obituary does nothing outside.
pub send_obituary-silent :
    (promote : ℕ → Bool) (p : BpBinder) → p.obits_sent ≡ true → (send_obituary promote p).1 ≡ []
unfolding send_obituary
send_obituary-silent promote p sent = rw sent refl
