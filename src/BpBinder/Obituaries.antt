-- ===== src/BpBinder/Obituaries.antt =====
-- Links, their removal and the obituaries of one proxy (linkToDeath, unlinkToDeath, sendObituary in
-- native/BpBinder.cpp), and the race of threads that send the obituaries of one proxy.
use learn_node.Base.{
  ℕ, suc, ◌+◌, ◌<◌, ◌≡◌, refl, inl, inr, ◌≢◌, Bool, true, false, Option, none, some, List, [], ◌∷◌,
  ◌++◌, arith, ◌==◌, if◌then◌else◌, is_some, Option-cases, map, ◌-◌,
}
use learn_node.Status.{Status, no_error, dead_object, is_negative}
use learn_node.IpcCall.{request_death_notification, clear_death_notification}
use learn_node.BpBinder.{
  BpBinder, Obituary, Effect, inc_weak, Memory, death_calls, link_to_death, unlink_to_death,
  matches, take_first, obituary_list, obituary_begin, obituary_locked, new_proxy, send_obituary,
  report_deaths,
}

take_first-append :
    (test : Obituary → Bool) (os : List Obituary) (ob : Obituary)
    → take_first test os ≡ none
    → test ob ≡ true
    → take_first test (os ++ ob ∷ []) ≡ some (ob, os)
unfolding take_first
take_first-append test [] ob miss hit = ground arith
take_first-append test (o ∷ os) ob miss hit = ground (arith, take_first-append test os ob)

matches_self : (ob : Obituary) → matches ob.recipient ob.cookie ob.flags ob ≡ true
unfolding matches
matches_self ob = ground arith

-- On a proxy that has sent no obituary and whose vector, if any, is not empty and holds no earlier
-- match, unlinking what was just linked with memory at hand succeeds, names the recipient, and
-- gives the proxy back as it was. The driver is called only if the proxy had no vector: asked by
-- the link, and told by the unlink.
pub unlink_to_death-link_to_death :
    (mem : Memory) (ob : Obituary) (p : BpBinder)
    → ob.recipient ≢ 0
    → p.obits_sent ≡ false
    → p.obituaries ≢ some []
    → mem.vector ≡ true
    → is_negative mem.add ≡ false
    → take_first (matches ob.recipient ob.cookie ob.flags) (obituary_list p.obituaries) ≡ none
    → (q : BpBinder) × (link_to_death mem ob p
        ≡ some (
          no_error,
          q,
          if is_some p.obituaries
              then []
              else inc_weak p.self ∷ death_calls request_death_notification p,
        ))
      × (unlink_to_death ob.recipient ob.cookie ob.flags q ≡ (
        no_error,
        some ob.recipient,
        p,
        if is_some p.obituaries then [] else death_calls clear_death_notification p,
      ))
unfolding link_to_death unlink_to_death
unlink_to_death-link_to_death mem ob p live open_ full vec room miss = (
  record p { obituaries = some (obituary_list p.obituaries ++ ob ∷ []) },
  ground arith,
  ground (
    arith,
    take_first-append (matches ob.recipient ob.cookie ob.flags) (obituary_list p.obituaries) ob
        miss,
    matches_self ob,
  ),
)

-- After an obituary the proxy is dead for good: a second obituary does nothing, and linking and
-- unlinking answer DEAD_OBJECT, without a call and without a change. The obituary itself reports
-- the vector as it stood, in its order, unless one was sent before.
pub send_obituary_final :
    (promote promote' : ℕ → Bool) (mem : Memory) (ob : Obituary) (r c f : ℕ) (p : BpBinder)
    → ob.recipient ≢ 0
    → let (q, es) = send_obituary promote p in
      (send_obituary promote' q ≡ (q, []))
      × (link_to_death mem ob q ≡ some (dead_object, q, []))
      × (unlink_to_death r c f q ≡ (dead_object, none, q, []))
      × (q.alive ≡ false)
      × (es ≡ (
          if p.obits_sent
          then []
          else (if is_some p.obituaries then death_calls clear_death_notification p else [])
            ++ report_deaths promote (obituary_list p.obituaries)))
unfolding send_obituary link_to_death unlink_to_death
send_obituary_final promote promote' mem ob r c f p live = ground arith

-- Threads that work on one proxy, as the steps that they take under its lock: linking, unlinking,
-- and the two halves of sendObituary, between which other threads may run. `entered` counts the
-- threads that have passed the first half and not yet come to the second. The lists keep the
-- recipients that were linked and unlinked with success, and those of the vectors that threads took
-- for reporting.
pub record World : Type 0 where
  pub proxy : BpBinder
  pub entered : ℕ
  pub linked : List ℕ
  pub unlinked : List ℕ
  pub taken : List ℕ

pub data Turn : Type 0 where
  links : Memory → Obituary → Turn
  unlinks : ℕ → ℕ → ℕ → Turn
  begins locks : Turn

abbrev pub recipients : List Obituary → List ℕ
recipients = map λ o. o.recipient

abbrev pub count : ℕ → List ℕ → ℕ
count r [] = 0
count r (x ∷ xs) = if x == r then suc (count r xs) else count r xs

after_link : World → ℕ → Option (Status × BpBinder × List Effect) → World
after_link w r none = w
after_link w r (some (no_error, q, _)) = record w { proxy = q; linked = r ∷ w.linked }
after_link w r (some (_, q, _)) = record w { proxy = q }

after_unlink : World → Status × Option ℕ × BpBinder × List Effect → World
after_unlink w (_, none, q, _) = record w { proxy = q }
after_unlink w (_, some r, q, _) = record w { proxy = q; unlinked = r ∷ w.unlinked }

after_begin : World → BpBinder × Bool → World
after_begin w (q, go_on) = record w {
  proxy = q;
  entered = if go_on then suc w.entered else w.entered;
}

after_lock : World → BpBinder × List Obituary × List Effect → World
after_lock w (q, obits, _) = record w {
  proxy = q;
  entered = w.entered - 1;
  taken = recipients obits ++ w.taken;
}

pub turn : World → Turn → World
unfolding after_link after_unlink after_begin after_lock
turn w (links mem ob) = after_link w ob.recipient (link_to_death mem ob w.proxy)
turn w (unlinks r c f) = after_unlink w (unlink_to_death r c f w.proxy)
turn w begins = after_begin w (obituary_begin w.proxy)
turn w locks =
    let next = after_lock w (obituary_locked w.proxy) in if w.entered == 0 then w else next

pub turns : World → List Turn → World
unfolding turn
turns w [] = w
turns w (t ∷ ts) = turns (turn w t) ts

count-append : (r : ℕ) (xs ys : List ℕ) → count r (xs ++ ys) ≡ count r xs + count r ys
count-append r [] ys = omega arith
count-append r (x ∷ xs) ys = ground (arith, count-append r xs ys)

recipients-append : (xs ys : List Obituary) → recipients (xs ++ ys) ≡ recipients xs ++ recipients ys
recipients-append [] ys = refl
recipients-append (x ∷ xs) ys = ground (arith, recipients-append xs ys)

-- Every link is pending, unlinked or taken, once; and a proxy whose obituary was sent is dead and
-- has nothing pending.
pub record Accounted (r : ℕ) (w : World) : Type 0 where
  pub balance :
      count r w.linked
      ≡ count r (recipients (obituary_list w.proxy.obituaries))
        + count r w.unlinked
        + count r w.taken
  pub sent : w.proxy.obits_sent ≡ true → w.proxy.obituaries ≡ none
  pub dead : 0 < w.entered → w.proxy.alive ≡ false

count-take_first :
    (r : ℕ) (test : Obituary → Bool) (os : List Obituary) {o : Obituary} {rest : List Obituary}
    → take_first test os ≡ some (o, rest)
    → count r (recipients os) ≡ count r (o.recipient ∷ recipients rest)
unfolding take_first
count-take_first r test [] e = cc
count-take_first r test (x ∷ os) {o} {rest} e = elim (Option-cases (take_first test os)) [
  | inl miss ↦ ground arith
  | inr ((y, ys), hit) ↦ ground (arith, count-take_first r test os {o = y} {rest = ys} hit)
]

links-Accounted :
    (r : ℕ) (w : World) (mem : Memory) (ob : Obituary)
    → Accounted r w
    → Accounted r (turn w (links mem ob))
unfolding turn link_to_death
links-Accounted r w mem ob a = ground (
  arith,
  recipients-append (obituary_list w.proxy.obituaries) (ob ∷ []),
  count-append r (recipients (obituary_list w.proxy.obituaries)) (ob.recipient ∷ []),
)

unlinks-Accounted :
    (r : ℕ) (w : World) (x c f : ℕ) → Accounted r w → Accounted r (turn w (unlinks x c f))
unfolding turn unlink_to_death
unlinks-Accounted r w x c f a =
    elim (Option-cases (take_first (matches x c f) (obituary_list w.proxy.obituaries))) [
      | inl miss ↦ ground arith
      | inr ((o, os), hit) ↦ ground (
        arith,
        count-take_first r (matches x c f) (obituary_list w.proxy.obituaries) {o = o} {rest = os}
            hit,
      )
    ]

begins-Accounted : (r : ℕ) (w : World) → Accounted r w → Accounted r (turn w begins)
unfolding turn obituary_begin
begins-Accounted r w a = ground arith

locks-Accounted : (r : ℕ) (w : World) → Accounted r w → Accounted r (turn w locks)
unfolding turn obituary_locked
locks-Accounted r w a =
    ground (arith, count-append r (recipients (obituary_list w.proxy.obituaries)) w.taken)

turn-Accounted : (r : ℕ) (w : World) (t : Turn) → Accounted r w → Accounted r (turn w t)
turn-Accounted r w (links mem ob) a = links-Accounted r w mem ob a
turn-Accounted r w (unlinks x c f) a = unlinks-Accounted r w x c f a
turn-Accounted r w begins a = begins-Accounted r w a
turn-Accounted r w locks a = locks-Accounted r w a

turns-Accounted : (r : ℕ) (w : World) (ts : List Turn) → Accounted r w → Accounted r (turns w ts)
unfolding turns
turns-Accounted r w [] a = a
turns-Accounted r w (t ∷ ts) a = turns-Accounted r (turn w t) ts (turn-Accounted r w t a)

abbrev pub fresh : ℕ → ℕ → World
unfolding new_proxy
fresh self handle = record {
  proxy = (new_proxy self handle).0;
  entered = 0;
  linked = [];
  unlinked = [];
  taken = [];
}

-- In every schedule of threads that link, unlink and send obituaries on a new proxy, the successful
-- links of a recipient are as many as its successful unlinks, its entries still in the vector and
-- its entries taken for reporting together. Once an obituary was sent the vector is gone: each link
-- that was not unlinked has been taken exactly once, however many threads raced to send.
pub turns-reported_once :
    (self handle r : ℕ) (ts : List Turn)
    → let w = turns (fresh self handle) ts in
      (count r w.linked
        ≡ count r (recipients (obituary_list w.proxy.obituaries))
          + count r w.unlinked
          + count r w.taken)
      × (w.proxy.obits_sent ≡ true → count r w.linked ≡ count r w.unlinked + count r w.taken)
unfolding new_proxy
turns-reported_once self handle r ts =
    let a =
      turns-Accounted r (fresh self handle) ts
        (record { balance = refl; sent = λ h. refl; dead = λ h. elim h [ ] }) in
    (a.balance, ground arith)
