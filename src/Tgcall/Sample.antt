-- ===== src/Tgcall/Sample.antt =====
-- A concrete error type for the tests: an error of the program, a wrapped one, an error of Telegram by
-- its type, and a flood wait.
use tgpager.Base.{Bool, false, ◌||◌, List, [], ◌∷◌, Option, none, some, Bytes, str_eq, ℤ, refl}
use tgpager.Tgcall.Errors.{ErrorLib}

pub data Failure : Type 0 where
  made : Bytes → Failure
  wrapped : Bytes → Failure → Failure
  rpc : Bytes → Failure
  flood : ℤ → Failure

abbrev pub one_of : Bytes → List Bytes → Bool
one_of t [] = false
one_of t (u ∷ us) = str_eq t u || one_of t us

abbrev pub has_type : Failure → List Bytes → Bool
has_type (made m) ts = false
has_type (wrapped m e) ts = has_type e ts
has_type (rpc t) ts = one_of t ts
has_type (flood d) ts = false

abbrev pub flood_wait : Failure → Option ℤ
flood_wait (made m) = none
flood_wait (wrapped m e) = flood_wait e
flood_wait (rpc t) = none
flood_wait (flood d) = some d

abbrev pub failures : ErrorLib
failures = record {
  Error = Failure;
  new = made;
  wrap = wrapped;
  wrap_nil = λ m. none;
  is_rpc = has_type;
  as_flood_wait = flood_wait;
  is_rpc-new = λ m ts. refl;
  is_rpc-wrap = λ m e ts. refl;
  as_flood_wait-wrap = λ m e. refl;
}
