-- ===== src/Server/Keys.antt =====
-- How often a group occurs in a list of group keys, and the effect of the set operations on it.
use tgpager.Base.{
  ℕ, suc, ◌+◌, ◌≡◌, refl, false, List, [], ◌∷◌, ◌++◌, Bytes, str_eq, str_eq_iff, str_eq_refl,
  if◌then◌else◌, arith,
}
use tgpager.Server.{contains, delete}

abbrev pub count : Bytes → List Bytes → ℕ
count k [] = 0
count k (j ∷ js) = if str_eq j k then suc (count k js) else count k js

pub count-append : (k : Bytes) (xs ys : List Bytes) → count k (xs ++ ys) ≡ count k xs + count k ys
count-append k [] ys = omega arith
count-append k (j ∷ js) ys = ground (arith, count-append k js ys)

pub count-contains-false : (k : Bytes) (js : List Bytes) → contains k js ≡ false → count k js ≡ 0
unfolding contains
count-contains-false k [] h = refl
count-contains-false k (j ∷ js) h = ground (arith, count-contains-false k js)

pub contains-count_zero : (k : Bytes) (js : List Bytes) → count k js ≡ 0 → contains k js ≡ false
unfolding contains
contains-count_zero k [] h = refl
contains-count_zero k (j ∷ js) h = ground (arith, contains-count_zero k js)

-- Deleting a key removes it and leaves every other one.
pub count-delete :
    (k j : Bytes) (js : List Bytes) → count k (delete j js) ≡ (if str_eq j k then 0 else count k js)
unfolding delete
count-delete k j [] = ground arith
count-delete k j (i ∷ js) =
    ground (arith, count-delete k j js, str_eq_iff i j, str_eq_iff i k, str_eq_iff j k)

pub delete-absent : (k : Bytes) (js : List Bytes) → contains k js ≡ false → delete k js ≡ js
unfolding contains delete
delete-absent k [] h = refl
delete-absent k (j ∷ js) h = ground (arith, delete-absent k js)

-- Entering a group and deleting it again leaves the set as it was.
pub delete-cons : (k : Bytes) (js : List Bytes) → contains k js ≡ false → delete k (k ∷ js) ≡ js
unfolding delete
delete-cons k js h = rw (str_eq_refl k) (delete-absent k js h)
