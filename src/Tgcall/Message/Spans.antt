-- ===== src/Tgcall/Message/Spans.antt =====
-- The spans of `SendVoice` and `SendText` in internal/tgcall/voice.go and text.go.
use tgpager.Base.{
  ℕ, ◌≡◌, ◌≢◌, refl, List, [], ◌∷◌, Option, Bytes, codes, str_eq-false, ltb, ℤ, Result, ok, err,
  if◌then◌else◌,
}
use tgpager.Tracing.{Attributes, number, seconds_of, SpanDeed, traced}
use tgpager.Tgcall.Errors.{ErrorLib}
use tgpager.Tgcall.Call.{InputUser}
use tgpager.Tgcall.Spans.{returned}
use tgpager.Tgcall.Message.{input_peer, Sending, send_voice, Texting, send_text}

module _ (lib : ErrorLib) where
  open lib use {Error}

  -- The size is set once the file is known to be small enough.
  unfoldable pub send_voice_settings : ℕ → Option InputUser → Result Error ℕ → List Attributes
  send_voice_settings limit peer size = elim (input_peer lib peer) [
    | err e ↦ []
    | ok p ↦ elim size [
      | err e ↦ []
      | ok n ↦ if ltb limit n then [] else ((codes "tgpager.voice.bytes", number n) ∷ []) ∷ []
    ]
  ]

  -- The span of `SendVoice`, for a recording of a duration.
  unfoldable pub send_voice_span :
      ℤ → ℕ → Option InputUser → Result Error ℕ → (ℕ → Sending lib) → ℕ → ℤ → List (SpanDeed Error)
  send_voice_span dur limit peer size env attempts delay =
      traced (codes "tgcall.SendVoice") ((codes "tgpager.voice.duration", seconds_of dur) ∷ [])
        (send_voice_settings limit peer size)
        (returned lib (send_voice lib limit peer size env attempts delay).error)

  -- The span of `SendText`.
  unfoldable pub send_text_span :
      Option InputUser → Bytes → (ℕ → Texting lib) → ℕ → ℤ → List (SpanDeed Error)
  send_text_span peer text env attempts delay =
      traced (codes "tgcall.SendText") [] []
        (returned lib (send_text lib peer text env attempts delay).error)

  -- Whatever the text is, if it is not empty, sending it leaves the same span when the tries end alike.
  pub send_text_span_hides :
      (peer : Option InputUser) (text other : Bytes) (env : ℕ → Texting lib) (attempts : ℕ)
      (delay : ℤ)
      → text ≢ []
      → other ≢ []
      → send_text_span peer text env attempts delay ≡ send_text_span peer other env attempts delay
  unfolding send_text_span send_text
  send_text_span_hides peer text other env attempts delay t u =
      rw (str_eq-false text [] t, str_eq-false other [] u) refl
