-- ===== src/IpcThreadState/Driver/Rounds.antt =====
-- What a call of talkWithDriver in native/IPCThreadState.cpp takes off the answers of the driver
-- and the messages that wait.
use learn_node.Base.{
  ℕ, suc, ◌+◌, ◌≤◌, ◌<◌, ◌≡◌, refl, ◌≢◌, ◌⊎◌, inl, inr, Bool, true, false, not, ◌&&◌, ◌||◌, List,
  [], ◌∷◌, Bool-cases, if◌then◌else◌, length, arith,
}
use learn_node.Status.{Status, ebadf, is_negative}
use learn_node.IpcThreadState.{
  Command, Answer, Thread, Run, done, blocked, out_of_fuel, ◌>>=◌, is_nil,
}
use learn_node.IpcThreadState.Driver.{
  ioctl, is_eintr, ioctl_error, talk_with_driver, call_driver, after_ioctl, absorb, write_buffer,
}

-- What the answers of the driver are worth: one round each, and one for each message in it.
abbrev pub total : List Answer → ℕ
total [] = 0
total (a ∷ as') = suc (length a.received + total as')

-- The rounds that a thread can still do.
abbrev pub rounds : Thread → ℕ
rounds s = length s.input + total s.answers

-- The run does not use up its fuel, and what it gives is within `n`.
abbrev pub Within : {A : Type 0} → (A → ℕ) → ℕ → Run A → Type 0
Within size n (done a) = size a ≤ n
Within size n blocked = Unit
Within size n out_of_fuel = ⊥

pub Within-bind :
    {A B : Type 0} (size : A → ℕ) (size' : B → ℕ) (n k : ℕ) (m : Run A) (f : A → Run B)
    → Within size n m
    → ((a : A) → size a ≤ n → Within size' k (f a))
    → Within size' k (m >>= f)
Within-bind size size' n k (done a) f h g = g a h
Within-bind size size' n k blocked f h g = tt
Within-bind size size' n k out_of_fuel f h g = absurd h

pub Within-weaken :
    {A : Type 0} (size : A → ℕ) (n k : ℕ) (m : Run A) → n ≤ k → Within size n m → Within size k m
Within-weaken size n k (done a) le h = omega arith
Within-weaken size n k blocked le h = tt
Within-weaken size n k out_of_fuel le h = h

pub Within-out_of_fuel :
    {A : Type 0} (size : A → ℕ) (n : ℕ) (m : Run A) → Within size n m → m ≢ out_of_fuel
Within-out_of_fuel size n (done a) h e = absurd (cc)
Within-out_of_fuel size n blocked h e = absurd (cc)
Within-out_of_fuel size n out_of_fuel h e = h

pub Within-if :
    {A : Type 0} (size : A → ℕ) (n : ℕ) (b : Bool) (m k : Run A)
    → Within size n m
    → Within size n k
    → Within size n (if b then m else k)
Within-if size n true m k h g = h
Within-if size n false m k h g = g

abbrev pub is_ebadf : Status → Bool
is_ebadf ebadf = true
is_ebadf _ = false

-- What a call of the driver leaves; without a message it has to have used up an answer, unless the
-- descriptor was closed.
abbrev pub left : Status × Thread → ℕ
left (err, s) =
    rounds s + (if not (is_ebadf err) && (is_nil s.input || is_negative err) then 1 else 0)

abbrev answer_worth : Answer × List Answer → ℕ
answer_worth (a, rest) = suc (length a.received + total rest)

ioctl-Within : (as' : List Answer) → Within answer_worth (total as') (ioctl as')
unfolding ioctl
ioctl-Within [] = tt
ioctl-Within (a ∷ as') = elim (Bool-cases (is_eintr (ioctl_error a))) [
  | inl again ↦
      rw again
        (Within-weaken answer_worth (total as') _ (ioctl as') (omega arith) (ioctl-Within as'))
  | inr ends ↦ rw ends (omega arith)
]

is_nil-length :
    {A : Type 0} (xs : List A)
    → (is_nil xs ≡ true × length xs ≡ 0) ⊎ (is_nil xs ≡ false × 0 < length xs)
is_nil-length [] = inl (refl, refl)
is_nil-length (x ∷ xs) = inr (refl, omega arith)

after_ioctl-left :
    (written : List Command) (s : Thread) (r : Answer × List Answer)
    → answer_worth r ≤ total s.answers
    → left (after_ioctl written s r) ≤ rounds s
unfolding after_ioctl absorb
after_ioctl-left written s (a, rest) h = elim (Bool-cases (is_negative (ioctl_error a))) [
  | inl fails ↦ rw fails (ground arith)
  | inr works ↦ elim (is_nil-length a.received) [
    | inl (none_, empty) ↦ simp (works, none_) (ground arith)
    | inr (some_, full) ↦ simp (works, some_) (ground arith)
  ]
]

called-Within :
    (written : List Command) (s : Thread) (m : Run (Answer × List Answer))
    → Within answer_worth (total s.answers) m
    → Within left (rounds s) (call_driver written s m)
unfolding call_driver
called-Within written s (done r) h = after_ioctl-left written s r h
called-Within written s blocked h = tt
called-Within written s out_of_fuel h = absurd h

pub talk-Within : (s : Thread) → Within left (rounds s) (talk_with_driver true s)
unfolding talk_with_driver write_buffer
talk-Within s = elim (Bool-cases s.driver_open) [
  | inr shut ↦ simp shut (omega arith)
  | inl open_ ↦ elim (is_nil-length s.input) [
    | inl (none_, empty) ↦ elim (Bool-cases (is_nil s.out)) [
      | inl idle ↦
          simp (open_, none_, idle)
            (called-Within s.out s (ioctl s.answers) (ioctl-Within s.answers))
      | inr busy ↦
          simp (open_, none_, busy)
            (called-Within s.out s (ioctl s.answers) (ioctl-Within s.answers))
    ]
    | inr (some_, full) ↦ simp (open_, some_) (omega arith)
  ]
]

-- The size of what does not matter.
abbrev pub nothing : {A : Type 0} → A → ℕ
nothing a = 0

called-ends :
    (written : List Command) (s : Thread) (m : Run (Answer × List Answer)) (n : ℕ)
    → Within answer_worth n m
    → Within nothing 0 (call_driver written s m)
unfolding call_driver
called-ends written s (done r) n h = omega arith
called-ends written s blocked n h = tt
called-ends written s out_of_fuel n h = absurd h

pub talk-ends : (do_receive : Bool) (s : Thread) → Within nothing 0 (talk_with_driver do_receive s)
unfolding talk_with_driver
talk-ends do_receive s =
    Within-if nothing 0 s.driver_open _ _
      (Within-if nothing 0
        (is_nil (write_buffer do_receive s) && not (do_receive && is_nil s.input)) _ _ (omega arith)
        (called-ends (write_buffer do_receive s) s (ioctl s.answers) (total s.answers)
          (ioctl-Within s.answers)))
      (omega arith)
