-- ===== src/AndroidRuntime/Names.antt =====
-- Names in jni/AndroidRuntime.cpp: setArgv0, toSlashClassName and NewStringLatin1.
use learn_node.Base.{
  ℕ, zero, suc, ◌+◌, ◌-◌, ◌≤◌, ◌≡◌, refl, ap, ◌≢◌, Bool, true, Option, none, some, List, [], ◌∷◌,
  ◌++◌, map, arith, ltb, leb, ◌==◌, if◌then◌else◌, length, replicate, get_elem?, length-append,
  length-replicate, Bool-cases, ltb→lt, inl, inr,
}
use learn_node.AndroidRuntime.Text.{Text}

abbrev pub drop : ℕ → Text → Text
drop zero s = s
drop (suc n) [] = []
drop (suc n) (c ∷ s) = drop n s

abbrev pub take : ℕ → Text → Text
take zero s = []
take (suc n) [] = []
take (suc n) (c ∷ s) = c ∷ take n s

-- The name for `pthread_setname_np`, which takes at most 15 bytes.
pub thread_name : Text → Text
thread_name argv0 = let len = length argv0 in if ltb len 15 then argv0 else drop (len - 15) argv0

-- `memset` and `strlcpy` on the argument block of `size` bytes.
pub arg_block : ℕ → Text → Text
arg_block zero argv0 = []
arg_block (suc n) argv0 = let copied = take n argv0 in copied ++ replicate (suc n - length copied) 0

-- The name that the thread gets, if it is to get one, and the block.
pub set_argv0 : Bool → ℕ → Text → Option Text × Text
unfolding thread_name arg_block
set_argv0 set_proc_name size argv0 =
    (if set_proc_name then some (thread_name argv0) else none, arg_block size argv0)

slash : ℕ → ℕ
slash c = if c == b'.' then b'/' else c

pub to_slash_class_name : Text → Text
unfolding slash
to_slash_class_name [] = []
to_slash_class_name (c ∷ cs) = slash c ∷ to_slash_class_name cs

-- `*chp++ = *bytes++` from char to jchar. Where char is signed, a byte from 128 on is a negative
-- number, and wraps at 16 bits.
pub widen : Bool → ℕ → ℕ
widen char_is_signed b = if char_is_signed then (if leb 128 b then b + 65280 else b) else b

-- `none` is a null pointer.
pub new_string_latin1 : Bool → Option Text → Option (List ℕ)
new_string_latin1 char_is_signed none = none
new_string_latin1 char_is_signed (some bytes) = some (map (widen char_is_signed) bytes)

length-drop : (n : ℕ) (s : Text) → length (drop n s) ≡ length s - n
length-drop zero s = omega arith
length-drop (suc n) [] = omega arith
length-drop (suc n) (c ∷ s) = omega (arith, length-drop n s)

take-append-drop : (n : ℕ) (s : Text) → take n s ++ drop n s ≡ s
take-append-drop zero s = refl
take-append-drop (suc n) [] = refl
take-append-drop (suc n) (c ∷ s) = rw (take-append-drop n s)

length-take : (n : ℕ) (s : Text) → length (take n s) ≤ n
length-take zero s = omega arith
length-take (suc n) [] = omega arith
length-take (suc n) (c ∷ s) = omega (arith, length-take n s)

name_short : (argv0 : Text) → length argv0 ≤ 15 → thread_name argv0 ≡ argv0
unfolding thread_name
name_short argv0 short = elim (Bool-cases (ltb (length argv0) 15)) [
  | inl less ↦ rw less
  | inr full ↦ let none_cut : length argv0 - 15 ≡ 0 = omega arith in rw (full, none_cut)
]

name_end : (argv0 : Text) → take (length argv0 - 15) argv0 ++ thread_name argv0 ≡ argv0
unfolding thread_name
name_end argv0 = elim (Bool-cases (ltb (length argv0) 15)) [
  | inl less ↦
      let none_cut : length argv0 - 15 ≡ 0 = omega (arith, ltb→lt (length argv0) 15 less) in
      rw (less, none_cut)
  | inr full ↦ rw full (take-append-drop (length argv0 - 15) argv0)
]

-- The name that a thread gets is an end of argv0, of at most 15 bytes, and all of argv0 where that
-- has at most 15 bytes. The argument block keeps its size, and if it has one it is the start of
-- argv0, as far as it fits before a null byte, and null bytes.
pub set_argv0-fits :
    (n : ℕ) (argv0 : Text)
    → let (name, block) = set_argv0 true (suc n) argv0 in
      (name ≡ some (thread_name argv0))
      × (length (thread_name argv0) ≤ 15)
      × (length argv0 ≤ 15 → thread_name argv0 ≡ argv0)
      × (take (length argv0 - 15) argv0 ++ thread_name argv0 ≡ argv0)
      × (length block ≡ suc n)
      × ((k : ℕ) × (block ≡ take n argv0 ++ replicate (suc k) 0))
unfolding set_argv0
set_argv0-fits n argv0 = (
  refl,
  ground (arith, length-drop (length argv0 - 15) argv0),
  λ short. name_short argv0 short,
  name_end argv0,
  omega (
    arith,
    length-append (take n argv0) (replicate (suc n - length (take n argv0)) 0),
    length-replicate {A = ℕ} (suc n - length (take n argv0)) 0,
    length-take n argv0,
  ),
  (
    n - length (take n argv0),
    let left : suc n - length (take n argv0) ≡ suc (n - length (take n argv0)) =
          omega (arith, length-take n argv0) in
        ap (λ (k : ℕ). take n argv0 ++ replicate k 0) left,
  ),
)

slash-ne-dot : (c : ℕ) → slash c ≢ b'.'
unfolding slash
slash-ne-dot c e = ground arith

slash-slash : (c : ℕ) → slash (slash c) ≡ slash c
unfolding slash
slash-slash c = ground arith

get_elem?-slashed : (s : Text) (i : ℕ) → get_elem? (to_slash_class_name s) i ≢ some b'.'
unfolding to_slash_class_name
get_elem?-slashed [] i e = cc
get_elem?-slashed (c ∷ s) zero e = slash-ne-dot c (ground arith)
get_elem?-slashed (c ∷ s) (suc i) e = get_elem?-slashed s i e

-- toSlashClassName keeps the length, leaves no dot, and changes nothing but the dots; a second
-- conversion changes nothing.
pub to_slash_class_name_lem :
    (name : Text)
    → (length (to_slash_class_name name) ≡ length name)
      × ((i : ℕ) → get_elem? (to_slash_class_name name) i ≢ some b'.')
      × (to_slash_class_name (to_slash_class_name name) ≡ to_slash_class_name name)
unfolding to_slash_class_name
to_slash_class_name_lem [] = (refl, get_elem?-slashed [], refl)
to_slash_class_name_lem (c ∷ s) =
    let (same, _, again) = to_slash_class_name_lem s in
    (ap suc same, get_elem?-slashed (c ∷ s), rw (slash-slash c, again))
