-- ===== src/ProcessState/Contexts.antt =====
-- The named context objects of native/ProcessState.cpp, and its claim to be the context manager.
-- The KeyedVector of contexts is a list of entries with their names; `add` replaces. A null binder
-- is 0. What the transaction on handle 0 answers, and the driver's ioctl, are arguments.
use Prim.Native.String.{String}
use text.Mathlib.Text.{◌==◌ as str_eq}
use text.Mathlib.TextEquality.{eq_iff}
use learn_node.Base.{
  ℕ, ◌≡◌, refl, ◌≢◌, ◌↔◌, Bool, true, false, Option, none, some, List, [], ◌∷◌, arith, ◌==◌,
  if◌then◌else◌,
}
use learn_node.Status.{Status, is_no_error}

pub record Contexts : Type 0 where
  pub entries : List (String × ℕ)
  pub manages : Bool
  pub check_func : ℕ
  pub user_data : ℕ

abbrev pub value_for : String → List (String × ℕ) → Option ℕ
value_for k [] = none
value_for k ((j, v) ∷ m) = if str_eq j k then some v else value_for k m

abbrev pub add : String → ℕ → List (String × ℕ) → List (String × ℕ)
add k v [] = (k, v) ∷ []
add k v ((j, w) ∷ m) = if str_eq j k then (k, v) ∷ m else (j, w) ∷ add k v m

pub set_context_object : ℕ → String → Contexts → Contexts
set_context_object object name c = record c { entries = add name object c.entries }

abbrev pub or_null : Option ℕ → ℕ
or_null none = 0
or_null (some b) = b

-- What comes back, the new state, and whether a transaction was made.
ask_manager : (String → ℕ → Status × ℕ) → String → ℕ → Contexts → ℕ × Contexts × Bool
unfolding set_context_object
ask_manager transact name caller c =
    let (result, read) = transact name caller in
    let object = if is_no_error result then read else 0 in
    (object, if object == 0 then c else set_context_object object name c, true)

unfoldable pub get_context_object :
    (String → ℕ → Status × ℕ) → String → ℕ → Contexts → ℕ × Contexts × Bool
unfolding ask_manager
get_context_object transact name caller c =
    let object = or_null (value_for name c.entries) in
    if object == 0
    then (if c.manages then (0, c, false) else ask_manager transact name caller c)
    else (object, c, false)

-- What the ioctl returns; any other value changes nothing.
pub data IoctlResult : Type 0 where
  done failed other : IoctlResult

claim : IoctlResult → Contexts → Contexts
claim done c = record c { manages = true }
claim failed c = record c { check_func = 0; user_data = 0 }
claim other c = c

pub become_context_manager : IoctlResult → ℕ → ℕ → Contexts → Bool × Contexts
unfolding claim
become_context_manager result check data_ c =
    let d = claim result (record c { check_func = check; user_data = data_ }) in
    if c.manages then (true, c) else (d.manages, d)

value_for-add :
    (k j : String) (v : ℕ) (m : List (String × ℕ))
    → value_for j (add k v m) ≡ (if str_eq k j then some v else value_for j m)
value_for-add k j v [] = refl
value_for-add k j v ((i, w) ∷ m) =
    ground (arith, eq_iff k j, eq_iff i k, eq_iff i j, value_for-add k j v m)

-- A context object that was once found, or set, is found from then on under its name without a
-- transaction, whatever the context manager would answer and whoever asks; other names keep theirs.
pub get_context_object-cached :
    (transact transact' : String → ℕ → Status × ℕ) (name j : String) (caller caller' : ℕ)
    (c : Contexts)
    → (get_context_object transact name caller c).0 ≢ 0
    → let (b, d, _) = get_context_object transact name caller c in
      (get_context_object transact' name caller' d ≡ (b, d, false))
      × (str_eq name j ≡ false → value_for j d.entries ≡ value_for j c.entries)
unfolding get_context_object
get_context_object-cached transact transact' name j caller caller' c found = (
  ground (arith, eq_iff name name, value_for-add name name (transact name caller).1 c.entries),
  λ other_name. ground (arith, value_for-add name j (transact name caller).1 c.entries),
)

-- A process that manages the contexts never asks for one by a transaction, and stays the manager;
-- one that does not becomes it exactly if the driver agrees, and keeps the check function it gave
-- unless the driver refuses.
pub become_context_manager_outcome :
    (transact : String → ℕ → Status × ℕ) (name : String) (caller check user : ℕ)
    (result : IoctlResult) (c : Contexts)
    → let (now, d) = become_context_manager result check user c in
      (now ≡ d.manages)
      × (c.manages ≡ true → d ≡ c)
      × (c.manages ≡ false → (now ≡ true) ↔ (result ≡ done))
      × (c.manages ≡ false → result ≡ failed → (d.check_func ≡ 0) × (d.user_data ≡ 0))
      × (c.manages ≡ false → result ≢ failed → (d.check_func ≡ check) × (d.user_data ≡ user))
      × (d.manages ≡ true → (get_context_object transact name caller d).2 ≡ false)
unfolding become_context_manager get_context_object
become_context_manager_outcome transact name caller check user result c = ground arith
