-- ===== src/Tgcall/Spans/Nested.antt =====
-- The spans of a call, from their start to their end, and the attempts among them.
use tgpager.Base.{
  ℕ, suc, ◌≡◌, refl, ap, ◌∙◌, sym, str_eq, inl, inr, Option-cases, List, [], ◌∷◌, ◌++◌,
  append_assoc, Option, none, some, Bytes, codes, ℤ,
}
use tgpager.Tracing.{SpanDeed, string, finish_span, enclosing}
use tgpager.Tracing.Nesting.{
  NestsIn, NestsIn-append, enclosing-NestsIn, open_after, starts_of, finish_span-starts,
  finish_span-starts_none,
}
use tgpager.Tgcall.Errors.{ErrorLib}
use tgpager.Tgcall.Retry.Schedule.{tries}
use tgpager.Tgcall.Retry.{Event, waited, tried, retry}
use tgpager.Tgcall.Call.Lifetime.{counted, ring-up}
use tgpager.Tgcall.Call.{
  InputUser, Attempt, Signal, cancelled, connected, disconnected, Ringing, place_call, ring_once,
  tries_of, ring,
}
use tgpager.Tgcall.Spans.{
  returned, place_spans, signal_spans, attempt_spans, ring_once_span, tried_spans, ring_span,
}

abbrev pub attempt_name : Bytes
attempt_name = codes "tgcall.Attempt"

module _ (lib : ErrorLib) where
  place_spans-NestsIn : (peer : Option InputUser) (n : ℕ) → NestsIn (suc n) (place_spans lib peer)
  unfolding place_spans open_after
  place_spans-NestsIn none n = refl
  place_spans-NestsIn (some u) n = refl

  signal_spans-NestsIn : (s : Signal lib) (n : ℕ) → NestsIn (suc n) (signal_spans lib s)
  unfolding open_after
  signal_spans-NestsIn (cancelled e) n = refl
  signal_spans-NestsIn connected n = refl
  signal_spans-NestsIn disconnected n = refl

  attempt_spans-NestsIn :
      (peer : Option InputUser) (a : Attempt lib) (n : ℕ)
      → NestsIn (suc n) (attempt_spans lib peer a)
  unfolding attempt_spans
  attempt_spans-NestsIn peer a n = elim (Option-cases (place_call lib peer a).0) [
    | inr (e, p) ↦ rw (p, attempt_spans) (place_spans-NestsIn peer n)
    | inl p ↦
        rw (p, attempt_spans)
          (NestsIn-append (suc n) (place_spans lib peer) (signal_spans lib a.signal)
            (place_spans-NestsIn peer n) (signal_spans-NestsIn a.signal n))
  ]

  ring_once_span-NestsIn :
      (peer : Option InputUser) (a : Attempt lib) (n : ℕ) → NestsIn n (ring_once_span lib peer a)
  unfolding ring_once_span
  ring_once_span-NestsIn peer a n =
      enclosing-NestsIn (codes "tgcall.Attempt") [] (attempt_spans lib peer a)
        (returned lib (ring_once lib peer a).0) n (attempt_spans-NestsIn peer a n)

  place_spans-starts :
      (peer : Option InputUser) (ds : List (SpanDeed lib.Error))
      → starts_of attempt_name (place_spans lib peer ++ ds) ≡ starts_of attempt_name ds
  unfolding place_spans starts_of str_eq
  place_spans-starts none ds = refl
  place_spans-starts (some u) ds = refl

  signal_spans-starts :
      (s : Signal lib) (ds : List (SpanDeed lib.Error))
      → starts_of attempt_name (signal_spans lib s ++ ds) ≡ starts_of attempt_name ds
  unfolding starts_of
  signal_spans-starts (cancelled e) ds = refl
  signal_spans-starts connected ds = refl
  signal_spans-starts disconnected ds = refl

  attempt_spans-starts :
      (peer : Option InputUser) (a : Attempt lib) (ds : List (SpanDeed lib.Error))
      → starts_of attempt_name (attempt_spans lib peer a ++ ds) ≡ starts_of attempt_name ds
  unfolding attempt_spans
  attempt_spans-starts peer a ds = elim (Option-cases (place_call lib peer a).0) [
    | inr (e, p) ↦ rw (p, attempt_spans) (place_spans-starts peer ds)
    | inl p ↦
        rw
          (
            p,
            attempt_spans,
            append_assoc (place_spans lib peer) (signal_spans lib a.signal) ds,
            place_spans-starts peer (signal_spans lib a.signal ++ ds),
          )
          (signal_spans-starts a.signal ds)
  ]

  ring_once_span-starts :
      (peer : Option InputUser) (a : Attempt lib) (ds : List (SpanDeed lib.Error))
      → starts_of attempt_name (ring_once_span lib peer a ++ ds) ≡ suc (starts_of attempt_name ds)
  unfolding ring_once_span enclosing starts_of str_eq
  ring_once_span-starts peer a ds =
      let end = finish_span (returned lib (ring_once lib peer a).0) in
      rw
        (
          append_assoc (attempt_spans lib peer a) end ds,
          attempt_spans-starts peer a (end ++ ds),
          finish_span-starts attempt_name (returned lib (ring_once lib peer a).0) ds,
        )
        refl

  module _ (name : Bytes) (peer : Option InputUser) (env : ℕ → Ringing lib) where
    tried_spans-NestsIn : (es : List Event) (n : ℕ) → NestsIn n (tried_spans lib name peer env es)
    unfolding open_after
    tried_spans-NestsIn [] n = refl
    tried_spans-NestsIn (waited w ∷ es) n = tried_spans-NestsIn es n
    tried_spans-NestsIn (tried k ∷ es) n =
        NestsIn-append n (ring_once_span lib peer ((env k).attempt))
          (tried_spans lib name peer env es) (ring_once_span-NestsIn peer ((env k).attempt) n)
          (tried_spans-NestsIn es n)

    tried_spans-starts :
        (es : List Event) (ds : List (SpanDeed lib.Error))
        → starts_of attempt_name ds ≡ 0
        → starts_of attempt_name (tried_spans lib name peer env es ++ ds) ≡ tries es
    tried_spans-starts [] ds e = e
    tried_spans-starts (waited w ∷ es) ds e = tried_spans-starts es ds e
    tried_spans-starts (tried k ∷ es) ds e =
        let first = ring_once_span lib peer ((env k).attempt) in
        let rest = tried_spans lib name peer env es in
        ap (starts_of attempt_name) (append_assoc first rest ds)
        ∙ ring_once_span-starts peer ((env k).attempt) (rest ++ ds)
        ∙ ap suc (tried_spans-starts es ds e)

    ring_span-starts :
        (attempts : ℕ) (delay : ℤ)
        → starts_of attempt_name (ring_span lib name peer env attempts delay)
          ≡ tries (retry lib (tries_of lib peer env) delay attempts).1
    unfolding ring_span enclosing starts_of str_eq
    ring_span-starts attempts delay =
        let es = (retry lib (tries_of lib peer env) delay attempts).1 in
        let r = returned lib (ring lib peer env attempts delay).0 in
        tried_spans-starts es (finish_span r) (finish_span-starts_none attempt_name r)

    ring_span-NestsIn :
        (attempts : ℕ) (delay : ℤ) (n : ℕ) → NestsIn n (ring_span lib name peer env attempts delay)
    unfolding ring_span
    ring_span-NestsIn attempts delay n =
        let es = (retry lib (tries_of lib peer env) delay attempts).1 in
        enclosing-NestsIn (codes "tgcall.Ring") ((codes "tgpager.peer", string name) ∷ [])
          (tried_spans lib name peer env es) (returned lib (ring lib peer env attempts delay).0) n
          (tried_spans-NestsIn es (suc n))

    -- The spans of a call fit together, however its calls, waits and context end: inside any number of
    -- open spans, each span that a run of `Ring` starts is ended, those inside of it first, and nothing is
    -- done to a span where none is open; and as many attempts are traced as are counted.
    pub ring_span-IsWhole :
        (attempts : ℕ) (delay : ℤ) (n : ℕ)
        → NestsIn n (ring_span lib name peer env attempts delay)
          × (starts_of attempt_name (ring_span lib name peer env attempts delay)
              ≡ counted (ring lib peer env attempts delay).1)
    unfolding ring_span
    ring_span-IsWhole attempts delay n = (
      ring_span-NestsIn attempts delay n,
      ring_span-starts attempts delay ∙ sym ((ring-up lib peer env attempts delay 0).2),
    )
