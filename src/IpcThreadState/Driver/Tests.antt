-- ===== src/IpcThreadState/Driver/Tests.antt =====
-- The theorem on talkWithDriver of native/IPCThreadState.cpp at a concrete thread.
use learn_node.Base.{◌≡◌, ◌++◌, refl, ◌⊎◌, true, false, ◌&&◌, List, [], ◌∷◌, arith}
use learn_node.Status.{no_error, eintr, is_negative}
use learn_node.IpcThreadState.{
  bc_enter_looper, bc_free_buffer, br_noop, Answer, Thread, no_flags, done, is_nil,
}
use learn_node.IpcThreadState.Driver.{
  ioctl, talk_with_driver, write_buffer, Sound, stream, take_commands, driver_took,
  talk_with_driver-stream,
}

-- The driver takes one command of two, and an interruption comes first.
abbrev answer : Answer
answer = record { result = no_error; fd_closed = false; consumed = 1; received = br_noop ∷ [] }

abbrev interrupted : Answer
interrupted = record { result = eintr; fd_closed = false; consumed = 0; received = [] }

abbrev before : Thread
before = record {
  out = bc_enter_looper ∷ bc_free_buffer 4096 ∷ [];
  input = [];
  in_error = no_error;
  pending_strong = [];
  pending_weak = [];
  last_error = no_error;
  calling_pid = 1;
  calling_uid = 2;
  strict_mode_policy = 0;
  last_flags = no_flags;
  driver_open = true;
  answers = interrupted ∷ answer ∷ [];
  sent = [];
  taken = [];
  outside = [];
}

abbrev after : Thread
after = record before {
  out = bc_free_buffer 4096 ∷ [];
  input = br_noop ∷ [];
  answers = [];
  sent = bc_enter_looper ∷ [];
}

before-talks : talk_with_driver true before ≡ done (no_error, after)
unfolding talk_with_driver
before-talks = refl

answer-Sound :
    (a : Answer) (rest : List Answer)
    → ioctl before.answers ≡ done (a, rest)
    → Sound (write_buffer true before) (true && is_nil before.input) a
unfolding ioctl write_buffer
answer-Sound a rest e = record { within = ground arith; unasked = λ u. absurd (cc) }

talk_with_driver-stream_example :
    (((no_error ≡ no_error) × (stream after ≡ stream before))
      ⊎ ((is_negative no_error ≡ true)
          × (after.out ≡ before.out)
          × (after.input ≡ before.input)
          × (after.sent
              ≡ before.sent ++ take_commands (driver_took before) (write_buffer true before))))
    × (true ≡ false → after.input ≡ before.input)
    × (true ≡ false → after.input ≡ before.input)
talk_with_driver-stream_example =
    talk_with_driver-stream true before after no_error before-talks answer-Sound
