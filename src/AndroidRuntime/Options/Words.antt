-- ===== src/AndroidRuntime/Options/Words.antt =====
-- What parseExtraOpts of jni/AndroidRuntime.cpp cuts out of its buffer.
use learn_node.Base.{
  ℕ, zero, suc, ◌≤◌, ◌<◌, ◌≡◌, refl, ap, false, Option, some, List, [], ◌∷◌, ◌++◌, ◌==◌,
  if◌then◌else◌, arith, length, Bool-cases, List-cases, ◌⊎◌, inl, inr,
}
use learn_node.AndroidRuntime.Text.{Text, is_empty}
use learn_node.AndroidRuntime.Options.{
  JavaVmOption, add_option, quote, skip_spaces, take_token, extra_opts_loop, parse_extra_opts,
}

-- Cut at every blank; then drop the empty pieces.
abbrev pub cons_head : ℕ → List Text → List Text
cons_head c [] = (c ∷ []) ∷ []
cons_head c (w ∷ ws) = (c ∷ w) ∷ ws

abbrev pub split : Text → List Text
split [] = [] ∷ []
split (c ∷ cs) = if c == b' ' then [] ∷ split cs else cons_head c (split cs)

abbrev pub nonempty : List Text → List Text
nonempty [] = []
nonempty (w ∷ ws) = if is_empty w then nonempty ws else w ∷ nonempty ws

abbrev pub words : Text → List Text
words s = nonempty (split s)

abbrev pub quoted : Option Text → List Text → List JavaVmOption
quoted q [] = []
quoted q (w ∷ ws) = quote q ++ (add_option w ++ quoted q ws)

words-skip_spaces : (s : Text) → words (skip_spaces s) ≡ words s
unfolding skip_spaces
words-skip_spaces [] = refl
words-skip_spaces (c ∷ s) = elim (Bool-cases (c == b' ')) [
  | inl blank ↦ rw blank (words-skip_spaces s)
  | inr other ↦ ground arith
]

skip_spaces-head : (s : Text) (c : ℕ) (cs : Text) → skip_spaces s ≡ c ∷ cs → (c == b' ') ≡ false
unfolding skip_spaces
skip_spaces-head [] c cs e = cc
skip_spaces-head (x ∷ s) c cs e = ground (arith, skip_spaces-head s c cs)

length-skip_spaces : (s : Text) → length (skip_spaces s) ≤ length s
unfolding skip_spaces
length-skip_spaces [] = omega arith
length-skip_spaces (c ∷ s) = ground (arith, length-skip_spaces s)

length-take_token : (s : Text) → length (take_token s).1 ≤ length s
unfolding take_token
length-take_token [] = omega arith
length-take_token (c ∷ s) = ground (arith, length-take_token s)

split-take_token :
    (s : Text)
    → (split s ≡ (take_token s).0 ∷ split (take_token s).1)
      ⊎ ((split s ≡ (take_token s).0 ∷ []) × ((take_token s).1 ≡ []))
unfolding take_token
split-take_token [] = inr (refl, refl)
split-take_token (c ∷ s) = ground (arith, split-take_token s)

words_token :
    (c : ℕ) (s : Text)
    → (c == b' ') ≡ false
    → words (c ∷ s) ≡ (c ∷ (take_token s).0) ∷ words (take_token s).1
words_token c s other = ground (arith, split-take_token s)

extra_opts_loop-words :
    (fuel : ℕ) (q : Option Text) (s : Text)
    → length s < fuel
    → extra_opts_loop fuel q s ≡ some (quoted q (words s))
unfolding extra_opts_loop
extra_opts_loop-words zero q s enough = absurd (omega arith)
extra_opts_loop-words (suc fuel) q s enough = elim (List-cases (skip_spaces s)) [
  | inl e ↦ rw (e, extra_opts_loop) (ground (arith, words-skip_spaces s))
  | inr (c, cs, e) ↦
      let shorter : length (take_token cs).1 < fuel =
        omega (arith, length-take_token cs, length-skip_spaces s, ap length e) in
      rw (e, extra_opts_loop, extra_opts_loop-words fuel q (take_token cs).1 shorter)
        (ground (arith, words-skip_spaces s, words_token c cs (skip_spaces-head s c cs e)))
]

-- parseExtraOpts returns on every buffer, and adds the maximal runs of bytes that are not blank, in
-- their order, each behind the quoting argument if there is one; nothing else.
pub parse_extra_opts-words :
    (buffer : Text) (q : Option Text) → parse_extra_opts buffer q ≡ some (quoted q (words buffer))
unfolding parse_extra_opts
parse_extra_opts-words buffer q = extra_opts_loop-words (suc (length buffer)) q buffer (omega arith)
