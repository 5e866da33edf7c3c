-- ===== src/ProcessState/Driver.antt =====
-- The opening of the driver in native/ProcessState.cpp: open_driver, and the constructor. A file
-- descriptor that is -1 is `none`.
use learn_node.Base.{
  ℕ, ◌+◌, ◌⊎◌, inl, inr, refl, Bool-cases, ◌≡◌, ◌↔◌, Bool, true, false, Option, none, some, List,
  [], ◌∷◌, ◌++◌, arith, ◌==◌, if◌then◌else◌, ◌&&◌,
}
use learn_node.ProcessState.Contexts.{IoctlResult, done, failed, other}

pub data DriverEffect : Type 0 where
  close : Option ℕ → DriverEffect
  set_max_threads : Option ℕ → ℕ → DriverEffect

-- What the kernel answers: `open`, the version ioctl with the version it wrote, and `mmap`.
pub record Kernel : Type 0 where
  pub open_fd : Option ℕ
  pub version_result : IoctlResult
  pub version : ℕ
  pub mapped : Bool

abbrev pub max_threads : ℕ
max_threads = 15

abbrev close_on : Bool → Option ℕ → Option ℕ × List DriverEffect
close_on test fd = if test then (none, close fd ∷ []) else (fd, [])

abbrev is_failed : IoctlResult → Bool
is_failed failed = true
is_failed _ = false

abbrev is_done : IoctlResult → Bool
is_done done = true
is_done _ = false

opened : ℕ → Kernel → ℕ → Option ℕ × List DriverEffect
opened protocol k fd =
    let (fd1, es1) = close_on (is_failed k.version_result) (some fd) in
    let (fd2, es2) =
      close_on (if is_done k.version_result && k.version == protocol then false else true) fd1 in
    (fd2, es1 ++ es2 ++ set_max_threads fd2 max_threads ∷ [])

pub open_driver : ℕ → Kernel → Option ℕ × List DriverEffect
unfolding opened
open_driver protocol k = elim k.open_fd [ none ↦ (none, []) | some fd ↦ opened protocol k fd ]

map_driver : Kernel → Option ℕ × List DriverEffect → Option ℕ × List DriverEffect
map_driver k (none, es) = (none, es)
map_driver k (some fd, es) = if k.mapped then (some fd, es) else (none, es ++ close (some fd) ∷ [])

-- `none` is the abort of the last line.
pub new_process : ℕ → Kernel → Option ℕ × List DriverEffect
unfolding open_driver map_driver
new_process protocol k = map_driver k (open_driver protocol k)

-- A process has the driver's descriptor exactly if the driver was opened, told its version, and
-- that is the protocol of this side, and its memory was mapped; otherwise it aborts. A descriptor
-- that it keeps has not been closed and has had its threads limited to 15.
pub new_process_iff :
    (protocol fd : ℕ) (k : Kernel)
    → (((new_process protocol k).0 ≡ some fd) ↔ (
        (k.open_fd ≡ some fd)
        × (k.version_result ≡ done)
        × (k.version ≡ protocol)
        × (k.mapped ≡ true)))
      × ((new_process protocol k).0 ≡ some fd
          → (new_process protocol k).1 ≡ set_max_threads (some fd) 15 ∷ [])
unfolding new_process
new_process_iff protocol fd k = ((λ e. ground arith, λ e. ground arith), λ e. ground arith)

-- How often a descriptor is closed, and how often -1 is.
abbrev pub closes : ℕ → List DriverEffect → ℕ
closes fd [] = 0
closes fd (close (some d) ∷ es) = (if d == fd then 1 else 0) + closes fd es
closes fd (e ∷ es) = closes fd es

abbrev pub closes_none : List DriverEffect → ℕ
closes_none [] = 0
closes_none (close none ∷ es) = 1 + closes_none es
closes_none (e ∷ es) = closes_none es

-- Whatever the version ioctl answers: a descriptor that the driver was opened with is either what
-- open_driver returns, and then it was not closed, or open_driver returns -1 and has closed it exactly
-- once. The close of -1 is called, once, exactly where the version ioctl failed.
pub open_driver-closes :
    (protocol fd : ℕ) (k : Kernel)
    → k.open_fd ≡ some fd
    → let (r, calls) = open_driver protocol k in
      (((r ≡ some fd) × (closes fd calls ≡ 0)) ⊎ ((r ≡ none) × (closes fd calls ≡ 1)))
      × (closes_none calls ≡ (if is_failed k.version_result then 1 else 0))
unfolding open_driver opened
open_driver-closes protocol fd k o =
    let same : (fd == fd) ≡ true = ground arith in
    rw o (elim (Bool-cases (is_failed k.version_result)) [
      | inl fails ↦
          let undone : is_done k.version_result ≡ false = not_both k.version_result fails in
          rw (fails, undone, same) (inr (refl, refl), refl)
      | inr works ↦ elim (Bool-cases (is_done k.version_result && k.version == protocol)) [
        | inl good ↦ rw (works, good) (inl (refl, refl), refl)
        | inr bad ↦ rw (works, bad, same) (inr (refl, refl), refl)
      ]
    ])
  where
    not_both : (r : IoctlResult) → is_failed r ≡ true → is_done r ≡ false
    not_both failed e = refl
    not_both done e = cc
    not_both other e = cc
