-- ===== src/BpBinder/Objects.antt =====
-- BpBinder::ObjectManager of native/BpBinder.cpp: objects that other code attaches to a proxy. Its
-- KeyedVector is a list of entries with its keys.
use learn_node.Base.{
  ℕ, ◌≡◌, refl, ◌≢◌, Option, none, some, List, [], ◌∷◌, ◌++◌, arith, ◌==◌, if◌then◌else◌, is_some,
}

-- A null cleanup function is 0.
pub record Entry : Type 0 where
  pub object : ℕ
  pub cleanup_cookie : ℕ
  pub func : ℕ

abbrev pub ObjectManager : Type 0
ObjectManager = List (ℕ × Entry)

-- A call of `func(objectID, object, cleanupCookie)`.
pub record Cleanup : Type 0 where
  pub called : ℕ
  pub id : ℕ
  pub of_object : ℕ
  pub with_cookie : ℕ

abbrev pub value_for : ℕ → ObjectManager → Option Entry
value_for id [] = none
value_for id ((k, e) ∷ m) = if k == id then some e else value_for id m

-- An id that is in use stays with its object.
pub attach : ℕ → Entry → ObjectManager → ObjectManager
attach id e m = if is_some (value_for id m) then m else m ++ (id, e) ∷ []

abbrev object_of : Option Entry → ℕ
object_of none = 0
object_of (some e) = e.object

pub find : ℕ → ObjectManager → ℕ
find id m = object_of (value_for id m)

pub detach : ℕ → ObjectManager → ObjectManager
detach id [] = []
detach id ((k, e) ∷ m) = let rest = detach id m in if k == id then m else (k, e) ∷ rest

-- The cleanup calls of `kill`, before the vector is cleared: the same calls as in
-- the source, whose KeyedVector has them in the order of the keys and not of the attaching.
pub kill_calls : ObjectManager → List Cleanup
kill_calls [] = []
kill_calls ((k, e) ∷ m) =
    let rest = kill_calls m in
    if e.func == 0
    then rest
    else record { called = e.func; id = k; of_object = e.object; with_cookie = e.cleanup_cookie }
      ∷ rest

pub kill : ObjectManager → ObjectManager × List Cleanup
unfolding kill_calls
kill m = ([], kill_calls m)

-- No id is listed twice.
abbrev pub Distinct : ObjectManager → Type 0
Distinct [] = Unit {0}
Distinct ((k, e) ∷ m) = (value_for k m ≡ none) × Distinct m

value_for-append :
    (j id : ℕ) (e : Entry) (m : ObjectManager)
    → value_for j (m ++ (id, e) ∷ [])
      ≡ elim (value_for j m) [ none ↦ if id == j then some e else none | some x ↦ some x ]
value_for-append j id e [] = ground arith
value_for-append j id e ((k, x) ∷ m) = ground (arith, value_for-append j id e m)

append-Distinct :
    (id : ℕ) (e : Entry) (m : ObjectManager)
    → Distinct m
    → value_for id m ≡ none
    → Distinct (m ++ (id, e) ∷ [])
append-Distinct id e [] d h = (refl, tt)
append-Distinct id e ((k, x) ∷ m) d h =
    ground (arith, append-Distinct id e m d.1, value_for-append k id e m)

value_for-detach_ne :
    (j id : ℕ) (m : ObjectManager) → j ≢ id → value_for j (detach id m) ≡ value_for j m
unfolding detach
value_for-detach_ne j id [] h = refl
value_for-detach_ne j id ((k, x) ∷ m) h = ground (arith, value_for-detach_ne j id m h)

value_for-detach_self :
    (id : ℕ) (m : ObjectManager) → Distinct m → value_for id (detach id m) ≡ none
unfolding detach
value_for-detach_self id [] d = refl
value_for-detach_self id ((k, x) ∷ m) d = ground (arith, value_for-detach_self id m d.1)

detach-Distinct : (id : ℕ) (m : ObjectManager) → Distinct m → Distinct (detach id m)
unfolding detach
detach-Distinct id [] d = tt
detach-Distinct id ((k, x) ∷ m) d =
    ground (arith, detach-Distinct id m d.1, value_for-detach_ne k id m)

-- The object manager is a map that never overwrites: where no id is listed twice, attaching under
-- an id gives that id its object if it had none and changes no other id, detaching takes the id
-- away and changes no other id, and both keep the ids distinct.
pub attach-detach_map :
    (id j : ℕ) (e : Entry) (m : ObjectManager)
    → Distinct m
    → Distinct (attach id e m)
      × Distinct (detach id m)
      × (find j (attach id e m) ≡ (
          if id == j
          then elim (value_for id m) [ none ↦ e.object | some x ↦ x.object ]
          else find j m))
      × (find j (detach id m) ≡ (if id == j then 0 else find j m))
unfolding attach find
attach-detach_map id j e m d = (
  ground (arith, append-Distinct id e m d),
  detach-Distinct id m d,
  ground (arith, value_for-append j id e m),
  ground (arith, value_for-detach_self id m d, value_for-detach_ne j id m),
)
