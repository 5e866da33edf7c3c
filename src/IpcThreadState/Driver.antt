-- ===== src/IpcThreadState/Driver.antt =====
-- talkWithDriver and flushCommands of native/IPCThreadState.cpp, on Android (HAVE_ANDROID_OS).
pub mod Rounds
mod Tests
use learn_node.Base.{
  ℕ, zero, suc, ◌+◌, ◌≤◌, ◌<◌, ◌≡◌, refl, sym, ap, ◌∙◌, ◌≢◌, ◌⊎◌, inl, inr, Bool, true, false, not,
  ◌&&◌, ◌||◌, Option, none, some, List, [], ◌∷◌, ◌++◌, append_assoc, append-nil, arith, ltb, ◌==◌,
  if◌then◌else◌, length, Bool-cases, lt→ltb,
}
use learn_node.Status.{Status, no_error, ebadf, eintr, is_negative}
use learn_node.IpcThreadState.{
  Command, Message, Answer, Thread, Run, done, blocked, out_of_fuel, is_nil, Ends, Ends-done,
}

abbrev pub take_commands : ℕ → List Command → List Command
take_commands zero cs = []
take_commands (suc n) [] = []
take_commands (suc n) (c ∷ cs) = c ∷ take_commands n cs

abbrev pub drop_commands : ℕ → List Command → List Command
drop_commands zero cs = cs
drop_commands (suc n) [] = []
drop_commands (suc n) (c ∷ cs) = drop_commands n cs

-- `err` behind the ioctl, with its test of the descriptor.
abbrev ioctl_error : Answer → Status
ioctl_error a = if a.fd_closed then ebadf else if is_negative a.result then a.result else no_error

abbrev pub is_eintr : Status → Bool
is_eintr eintr = true
is_eintr _ = false

-- The do loop: the first answer that is no interruption, and those behind it.
pub ioctl : List Answer → Run (Answer × List Answer)
ioctl [] = blocked
ioctl (a ∷ as') = let rest = ioctl as' in if is_eintr (ioctl_error a) then rest else done (a, as')

-- What follows the loop where its error is none; `consumed` of the last answer is what the driver took
-- in all tries, since each goes on where the one before ended. `written` is the write buffer of the call, which
-- `sent` records as far as the driver took it.
pub absorb : List Command → Answer → Thread → Thread
absorb written a s = record s {
  out =
      if ltb 0 a.consumed
      then (if ltb a.consumed (length s.out) then drop_commands a.consumed s.out else [])
      else s.out;
  input = if is_nil a.received then s.input else a.received;
  sent = s.sent ++ take_commands a.consumed written;
}

-- An error leaves both buffers as they are, whatever the driver had taken by then.
after_ioctl : List Command → Thread → Answer × List Answer → Status × Thread
unfolding absorb
after_ioctl written s (a, as') =
    let s' = record s {
      answers = as';
      driver_open = if a.fd_closed then false else s.driver_open;
    } in
    if is_negative (ioctl_error a)
    then (ioctl_error a, record s' { sent = s'.sent ++ take_commands a.consumed written })
    else (no_error, absorb written a s')

call_driver : List Command → Thread → Run (Answer × List Answer) → Run (Status × Thread)
unfolding after_ioctl
call_driver written s (done r) = done (after_ioctl written s r)
call_driver written s blocked = blocked
call_driver written s out_of_fuel = out_of_fuel

-- The write buffer that a call hands to the driver.
pub write_buffer : Bool → Thread → List Command
write_buffer do_receive s = if not do_receive || is_nil s.input then s.out else []

unfoldable pub talk_with_driver : Bool → Thread → Run (Status × Thread)
unfolding ioctl write_buffer call_driver
talk_with_driver do_receive s =
    let written = write_buffer do_receive s in
    if s.driver_open
    then (if is_nil written && not (do_receive && is_nil s.input)
        then done (no_error, s)
        else call_driver written s (ioctl s.answers))
    else done (ebadf, s)

after_flush : Thread → Run (Status × Thread) → Run Thread
after_flush s (done (_, s')) = done s'
after_flush s blocked = blocked
after_flush s out_of_fuel = out_of_fuel

pub flush_commands : Thread → Run Thread
unfolding talk_with_driver after_flush
flush_commands s = if s.driver_open then after_flush s (talk_with_driver false s) else done s

-- What binder_thread_write and binder_thread_read of driver/binder.c promise of an answer to a call
-- with this write buffer: no more commands are taken than were given, and nothing is read unless
-- the call wanted to read.
pub record Sound (written : List Command) (wants : Bool) (a : Answer) : Type 0 where
  pub within : a.consumed ≤ length written
  pub unasked : wants ≡ false → a.received ≡ []

take-append-drop : (n : ℕ) (cs : List Command) → take_commands n cs ++ drop_commands n cs ≡ cs
take-append-drop zero cs = refl
take-append-drop (suc n) [] = refl
take-append-drop (suc n) (c ∷ cs) = rw (take-append-drop n cs)

take-all : (n : ℕ) (cs : List Command) → length cs ≤ n → take_commands n cs ≡ cs
take-all zero [] h = refl
take-all zero (c ∷ cs) h = absurd (omega arith)
take-all (suc n) [] h = refl
take-all (suc n) (c ∷ cs) h = rw (take-all n cs (omega arith))

kept_out :
    (n : ℕ) (out : List Command)
    → take_commands n out
        ++ (if ltb 0 n then (if ltb n (length out) then drop_commands n out else []) else out)
      ≡ out
kept_out zero out = refl
kept_out (suc n) out = elim (Bool-cases (ltb (suc n) (length out))) [
  | inl less ↦ rw (lt→ltb 0 (suc n) (omega arith), less) (take-append-drop (suc n) out)
  | inr all ↦
      rw (lt→ltb 0 (suc n) (omega arith), all)
        (append-nil (take_commands (suc n) out) ∙ take-all (suc n) out (ground arith))
]

-- The commands that have gone to the driver and those that wait, as one sequence.
abbrev pub stream : Thread → List Command
stream s = s.sent ++ s.out

absorb-stream :
    (do_receive : Bool) (a : Answer) (s : Thread)
    → a.consumed ≤ length (write_buffer do_receive s)
    → stream (absorb (write_buffer do_receive s) a s) ≡ stream s
unfolding absorb write_buffer
absorb-stream do_receive a s within = elim (Bool-cases (not do_receive || is_nil s.input)) [
  | inl writes ↦ rw (writes, append_assoc s.sent) (ap (◌++◌ s.sent) (kept_out a.consumed s.out))
  | inr reads ↦
      let no_bytes : a.consumed ≡ 0 = nothing_written reads in
      rw (reads, no_bytes, append-nil s.sent)
]
  where
    nothing_written : (not do_receive || is_nil s.input) ≡ false → a.consumed ≡ 0
    nothing_written reads = ground arith

-- How much of its write buffer the driver takes in the next call.
abbrev pub consumed_by : Run (Answer × List Answer) → ℕ
consumed_by (done (a, rest)) = a.consumed
consumed_by blocked = 0
consumed_by out_of_fuel = 0

abbrev pub driver_took : Thread → ℕ
driver_took s = if s.driver_open then consumed_by (ioctl s.answers) else 0

-- What a call with the thread `s` before it has done.
abbrev Talked : Bool → Thread → Status × Thread → Type 0
Talked do_receive s (err, s') =
    (((err ≡ no_error) × (stream s' ≡ stream s))
      ⊎ ((is_negative err ≡ true)
          × (s'.out ≡ s.out)
          × (s'.input ≡ s.input)
          × (s'.sent ≡ s.sent ++ take_commands (driver_took s) (write_buffer do_receive s))))
    × (is_nil s.input ≡ false → s'.input ≡ s.input)
    × (do_receive ≡ false → s'.input ≡ s.input)

after_ioctl-Talked :
    (do_receive : Bool) (s : Thread) (a : Answer) (rest : List Answer)
    → driver_took s ≡ a.consumed
    → Sound (write_buffer do_receive s) (do_receive && is_nil s.input) a
    → Talked do_receive s (after_ioctl (write_buffer do_receive s) s (a, rest))
unfolding after_ioctl
after_ioctl-Talked do_receive s a rest took sound =
    elim (Bool-cases (is_negative (ioctl_error a))) [
      | inl fails ↦ rw fails (
        inr (
          fails,
          refl,
          refl,
          ap (λ n. s.sent ++ take_commands n (write_buffer do_receive s)) (sym took),
        ),
        (λ unread. refl),
        (λ sends. refl),
      )
      | inr works ↦ rw works (
        inl (refl, absorb-stream do_receive a s sound.within),
        (λ unread. ground arith),
        (λ sends. ground arith),
      )
    ]

talk-Talked :
    (do_receive : Bool) (s : Thread)
    → ((a : Answer) (rest : List Answer)
        → ioctl s.answers ≡ done (a, rest)
        → Sound (write_buffer do_receive s) (do_receive && is_nil s.input) a)
    → Ends (Talked do_receive s) (talk_with_driver do_receive s)
unfolding talk_with_driver
talk-Talked do_receive s sound = elim (Bool-cases s.driver_open) [
  | inr shut ↦
      simp shut (inr (refl, refl, refl, sym (append-nil s.sent)), (λ unread. refl), (λ sends. refl))
  | inl open_ ↦
      elim (Bool-cases (is_nil (write_buffer do_receive s) && not (do_receive && is_nil s.input))) [
        | inl nothing ↦ simp (open_, nothing) (inl (refl, refl), (λ unread. refl), (λ sends. refl))
        | inr something ↦ simp (open_, something) (called open_ (ioctl s.answers) refl)
      ]
]
  where
    called :
        s.driver_open ≡ true
        → (r : Run (Answer × List Answer)) → ioctl s.answers ≡ r
        → Ends (Talked do_receive s) (call_driver (write_buffer do_receive s) s r)
    called open_ (done (a, rest)) e =
        after_ioctl-Talked do_receive s a rest (rw (open_, e) refl) (sound a rest e)
    called open_ blocked e = tt
    called open_ out_of_fuel e = tt

-- One call of talkWithDriver, where the answer that the driver gives to it is sound and the call
-- succeeds, loses, repeats and reorders no command: what was sent and what waits make the same sequence
-- before and after. It fails only with a status below 0, and then both buffers are as before, also
-- where the driver had taken commands: those that it took of the write buffer, none if the driver is
-- not open, were sent and still wait to be sent. Messages that are still unread stay, and a call that
-- is not to receive brings none.
pub talk_with_driver-stream :
    (do_receive : Bool) (s s' : Thread) (err : Status)
    → talk_with_driver do_receive s ≡ done (err, s')
    → ((a : Answer) (rest : List Answer)
        → ioctl s.answers ≡ done (a, rest)
        → Sound (write_buffer do_receive s) (do_receive && is_nil s.input) a)
    → (((err ≡ no_error) × (stream s' ≡ stream s))
        ⊎ ((is_negative err ≡ true)
            × (s'.out ≡ s.out)
            × (s'.input ≡ s.input)
            × (s'.sent ≡ s.sent ++ take_commands (driver_took s) (write_buffer do_receive s))))
      × (is_nil s.input ≡ false → s'.input ≡ s.input)
      × (do_receive ≡ false → s'.input ≡ s.input)
talk_with_driver-stream do_receive s s' err e sound =
    Ends-done (Talked do_receive s) (talk_with_driver do_receive s) (talk-Talked do_receive s sound)
      e

-- While a message waits, a call that is to receive does nothing.
pub talk_with_driver-unread :
    (s : Thread)
    → s.driver_open ≡ true
    → is_nil s.input ≡ false
    → talk_with_driver true s ≡ done (no_error, s)
unfolding talk_with_driver write_buffer
talk_with_driver-unread s open_ unread = simp (open_, unread) refl
