-- ===== src/Tracing/Nesting.antt =====
-- Spans that are open, and traces in which each is ended.
use tgpager.Base.{
  ℕ, zero, suc, str_eq, if◌then◌else◌, ◌≡◌, refl, List, [], ◌∷◌, ◌++◌, Option, none, some, Bytes,
  Result, ok, err,
}
use tgpager.Tracing.{Attributes, SpanDeed, started, ended, finish_span, enclosing, traced, set_each}

abbrev pub and_then : Option ℕ → (ℕ → Option ℕ) → Option ℕ
and_then none f = none
and_then (some n) f = f n

passed :
    (m : Option ℕ) (f g h : ℕ → Option ℕ)
    → ((n : ℕ) → h n ≡ and_then (f n) g)
    → and_then m h ≡ and_then (and_then m f) g
passed none f g h e = refl
passed (some n) f g h e = e n

module _ {E : Type 0} where
  -- How many spans are open behind a deed; none if it is on a span where there is none.
  abbrev pub open_behind : SpanDeed E → ℕ → Option ℕ
  open_behind (started name first) n = some (suc n)
  open_behind d zero = none
  open_behind ended (suc n) = some n
  open_behind d (suc n) = some (suc n)

  unfoldable pub open_after : List (SpanDeed E) → ℕ → Option ℕ
  open_after [] n = some n
  open_after (d ∷ ds) n = and_then (open_behind d n) (open_after ds)

  -- Each span that is started is ended, and each deed is on an open span: inside of `n` others.
  abbrev pub NestsIn : ℕ → List (SpanDeed E) → Type 0
  NestsIn n ds = open_after ds n ≡ some n

  pub open_after-append :
      (xs ys : List (SpanDeed E)) (n : ℕ)
      → open_after (xs ++ ys) n ≡ and_then (open_after xs n) (open_after ys)
  unfolding open_after
  open_after-append [] ys n = refl
  open_after-append (x ∷ xs) ys n =
      passed (open_behind x n) (open_after xs) (open_after ys) (open_after (xs ++ ys))
        (open_after-append xs ys)

  pub NestsIn-append :
      (n : ℕ) (xs ys : List (SpanDeed E)) → NestsIn n xs → NestsIn n ys → NestsIn n (xs ++ ys)
  NestsIn-append n xs ys e f = rw (open_after-append xs ys n, e) f

  finishes : {A : Type 0} → (r : Result E A) (n : ℕ) → open_after (finish_span r) (suc n) ≡ some n
  unfolding open_after finish_span
  finishes (ok a) n = refl
  finishes (err e) n = refl

  pub enclosing-NestsIn :
      {A : Type 0}
      → (name : Bytes) (first : Attributes) (inner : List (SpanDeed E)) (r : Result E A) (n : ℕ)
      → NestsIn (suc n) inner
      → NestsIn n (enclosing name first inner r)
  unfolding open_after enclosing
  enclosing-NestsIn name first inner r n e =
      rw (open_after-append inner (finish_span r) (suc n), e) (finishes r n)

  -- How many spans of a name are started.
  unfoldable pub starts_of : Bytes → List (SpanDeed E) → ℕ
  starts_of name [] = 0
  starts_of name (started other first ∷ ds) =
      let rest = starts_of name ds in if str_eq other name then suc rest else rest
  starts_of name (d ∷ ds) = starts_of name ds

  pub finish_span-starts :
      {A : Type 0}
      → (name : Bytes) (r : Result E A) (ds : List (SpanDeed E))
      → starts_of name (finish_span r ++ ds) ≡ starts_of name ds
  unfolding starts_of finish_span
  finish_span-starts name (ok a) ds = refl
  finish_span-starts name (err e) ds = refl

  pub finish_span-starts_none :
      {A : Type 0} → (name : Bytes) (r : Result E A) → starts_of name (finish_span r) ≡ 0
  unfolding starts_of finish_span
  finish_span-starts_none name (ok a) = refl
  finish_span-starts_none name (err e) = refl

set_each-NestsIn :
    (E : Type 0) (later : List Attributes) (n : ℕ)
    → NestsIn {E = E} (suc n) (set_each {E = E} later)
unfolding open_after
set_each-NestsIn E [] n = refl
set_each-NestsIn E (a ∷ later) n = set_each-NestsIn E later n

-- A function that only sets attributes on the way leaves a span that is ended.
pub traced-NestsIn :
    {E A : Type 0}
    → (name : Bytes) (first : Attributes) (later : List Attributes) (r : Result E A) (n : ℕ)
    → NestsIn n (traced name first later r)
unfolding traced enclosing
traced-NestsIn {E} name first later r n =
    enclosing-NestsIn name first (set_each later) r n (set_each-NestsIn E later n)
