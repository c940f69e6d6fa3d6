-- ===== src/Audio/Spec.antt =====
-- internal/audio/stream.go: what a call plays.
use tgpager.Base.{
  ℕ, suc, ◌≡◌, ◌≢◌, ◌↔◌, refl, Bool, true, false, List, [], ◌∷◌, Option, none, some, Bytes, str_eq,
  str_eq_iff, str_eq-false, All, ℤ, pos, leb_ℤ, ◌≤ℤ◌, Result, ok, err, if◌then◌else◌, arith,
}

pub record Spec : Type 0 where
  pub segments : List Bytes
  pub repeat : ℤ

pub data SpecError : Type 0 where
  no_segments : SpecError
  empty_segment : ℕ → SpecError
  bad_repeat : ℤ → SpecError

-- `File`.
abbrev pub file_spec : Bytes → Spec
file_spec path = record { segments = path ∷ []; repeat = pos 1 }

-- The index of the first segment with no path, from `i` on.
unfoldable pub first_empty : ℕ → List Bytes → Option ℕ
first_empty i [] = none
first_empty i (seg ∷ segs) = if str_eq seg [] then some i else first_empty (suc i) segs

abbrev pub is_nil : List Bytes → Bool
is_nil [] = true
is_nil (seg ∷ segs) = false

-- `Spec.Validate`.
unfoldable pub validate : Spec → Result SpecError (Unit {0})
validate s = if is_nil s.segments then err no_segments else elim (first_empty 0 s.segments) [
  | some i ↦ err (empty_segment i)
  | none ↦ if leb_ℤ (pos 1) s.repeat then ok tt else err (bad_repeat s.repeat)
]

-- Something is played, every segment has a path, and the whole is played at least once.
pub record IsPlayable (s : Spec) : Type 0 where
  pub some_segments : s.segments ≢ []
  pub paths : All (λ seg. seg ≢ []) s.segments
  pub repeats : pos 1 ≤ℤ s.repeat

first_empty-none :
    (i : ℕ) (segs : List Bytes) → first_empty i segs ≡ none → All (λ seg. seg ≢ []) segs
unfolding first_empty
first_empty-none i [] h = tt
first_empty-none i (seg ∷ segs) h =
    (λ e. ground (arith, str_eq_iff seg []), first_empty-none (suc i) segs (ground arith))

none-first_empty :
    (i : ℕ) (segs : List Bytes) → All (λ seg. seg ≢ []) segs → first_empty i segs ≡ none
unfolding first_empty
none-first_empty i [] h = refl
none-first_empty i (seg ∷ segs) h =
    ground (arith, str_eq-false seg [] h.0, none-first_empty (suc i) segs h.1)

-- `Validate` accepts exactly the playable specs.
pub validate_iff : (s : Spec) → (validate s ≡ ok tt) ↔ IsPlayable s
unfolding validate
validate_iff s = (there, back)
  where
    there : validate s ≡ ok tt → IsPlayable s
    there h = record {
      some_segments = λ e. ground arith;
      paths = first_empty-none 0 s.segments (ground arith);
      repeats = ground arith;
    }

    back : IsPlayable s → validate s ≡ ok tt
    back p = ground (arith, none-first_empty 0 s.segments p.paths, p.some_segments)
