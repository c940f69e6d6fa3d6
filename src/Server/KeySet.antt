-- ===== src/Server/KeySet.antt =====
-- The in-flight map of internal/server/server.go as a set of group keys: lists of keys, up to what they contain.
use tgpager.Base.{
  ◌≡◌, refl, Bool, true, false, List, [], ◌∷◌, Bytes, str_eq, str_eq_iff, arith, if◌then◌else◌,
}
use mathlib.Core.Bool.{Bool-set}
use mathlib.Core.Quot
use mathlib.Core.Quot.{Quot, Quot-set}
use tgpager.Server.{contains, delete}

abbrev pub SameKeys : List Bytes → List Bytes → Type 0
SameKeys xs ys = (k : Bytes) → contains k xs ≡ contains k ys

abbrev pub KeySet : Type 0
KeySet = Quot SameKeys

pub contains-delete :
    (k j : Bytes) (js : List Bytes)
    → contains k (delete j js) ≡ (if str_eq j k then false else contains k js)
unfolding contains delete
contains-delete k j [] = ground arith
contains-delete k j (i ∷ js) =
    ground (arith, contains-delete k j js, str_eq_iff i j, str_eq_iff i k, str_eq_iff j k)

unfoldable pub member : Bytes → KeySet → Bool
member k = Quot.lift Bool-set (contains k) (λ xs ys h. h k)

pub SameKeys-cons : (k : Bytes) (xs ys : List Bytes) → SameKeys xs ys → SameKeys (k ∷ xs) (k ∷ ys)
unfolding contains
SameKeys-cons k xs ys h j = ground (arith, h j)

pub SameKeys-delete :
    (k : Bytes) (xs ys : List Bytes) → SameKeys xs ys → SameKeys (delete k xs) (delete k ys)
SameKeys-delete k xs ys h j = ground (arith, contains-delete j k xs, contains-delete j k ys, h j)

unfoldable pub with_key : Bytes → KeySet → KeySet
with_key k =
    Quot.lift Quot-set (λ xs. Quot.mk (k ∷ xs)) (λ xs ys h. Quot.sound (SameKeys-cons k xs ys h))

unfoldable pub leave : Bytes → KeySet → KeySet
leave k =
    Quot.lift Quot-set (λ xs. Quot.mk (delete k xs))
      (λ xs ys h. Quot.sound (SameKeys-delete k xs ys h))

-- A set has no order and no repetition.
pub with_key_comm :
    (j k : Bytes) (s : KeySet) → with_key j (with_key k s) ≡ with_key k (with_key j s)
unfolding with_key contains
with_key_comm j k = Quot.ind (λ s. Quot-set _ _) (λ xs. Quot.sound (λ i. ground arith))

pub with_key_twice : (k : Bytes) (s : KeySet) → with_key k (with_key k s) ≡ with_key k s
unfolding with_key contains
with_key_twice k = Quot.ind (λ s. Quot-set _ _) (λ xs. Quot.sound (λ i. ground arith))

-- What is in a set behind a key that enters, or leaves.
pub member-with_key :
    (j k : Bytes) (s : KeySet) → member j (with_key k s) ≡ (if str_eq k j then true else member j s)
unfolding member with_key contains
member-with_key j k = Quot.ind (λ s. Bool-set _ _) (λ xs. refl)

pub member-leave :
    (j k : Bytes) (s : KeySet) → member j (leave k s) ≡ (if str_eq k j then false else member j s)
unfolding member leave
member-leave j k = Quot.ind (λ s. Bool-set _ _) (λ xs. contains-delete j k xs)
