-- ===== src/Tts/Spans/OpenAi.antt =====
-- The span of `OpenAI.Synthesize` in internal/tts/openai.go, and what it shows of the text and of the settings.
use tgpager.Base.{
  ◌≡◌, refl, ap, inl, inr, Result-cases, sym, ◌∙◌, not, ◌==◌, List, [], ◌∷◌, ◌++◌, Bytes, codes,
  length, Result, ok, err, ◌>>=◌, ◌>>◌, if◌then◌else◌,
}
use tgpager.Tracing.{Attributes, string, number, SpanDeed, traced}
use tgpager.Tts.OpenAi.{
  OpenAiOptions, Endpoint, HttpResponse, build_request, post, wrapped_text, refused_text,
  read_limited, max_audio_bytes, receive_audio, open_ai_synthesize,
}

-- What is set behind the exchange: the status, and the length of the audio if it is read.
unfoldable pub response_attributes : HttpResponse → List Attributes
response_attributes r =
    let status = (codes "http.response.status_code", number r.status_code) ∷ [] in
    if not (r.status_code == 200) then status ∷ [] else elim (read_limited max_audio_bytes r) [
      | err e ↦ status ∷ []
      | ok audio ↦ status ∷ ((codes "tts.audio_bytes", number (length audio)) ∷ []) ∷ []
    ]

module _ (o : OpenAiOptions) where
  abbrev pub open_ai_attributes : Bytes → Attributes
  open_ai_attributes text =
      (codes "tts.provider", string (codes "openai"))
      ∷ (codes "tts.model", string o.model)
      ∷ (codes "tts.voice", string o.voice)
      ∷ (codes "tts.dialect", string o.dialect)
      ∷ (codes "server.address", string o.base_url)
      ∷ (codes "tts.text_bytes", number (length text))
      ∷ []

  module _ (e : Endpoint) (text : Bytes) where
    -- The steps of `Synthesize` up to the response.
    unfoldable pub respond : Result Bytes HttpResponse
    respond = do
      body ← wrapped_text (codes "encode request") (e.marshal (build_request o text))
      refused_text (codes "create request") (e.url_error (o.base_url ++ codes "/audio/speech"))
      wrapped_text (codes "synthesize") (e.exchange (post o body))

    unfoldable pub open_ai_settings : List Attributes
    open_ai_settings = elim respond [ err x ↦ [] | ok r ↦ response_attributes r ]

    -- The span of `Synthesize`.
    unfoldable pub open_ai_span : List (SpanDeed Bytes)
    open_ai_span =
        traced (codes "tts.openai.Synthesize") (open_ai_attributes text) open_ai_settings
          (open_ai_synthesize o e text)

    synthesize-respond : open_ai_synthesize o e text ≡ (respond >>= receive_audio o)
    unfolding open_ai_synthesize respond
    synthesize-respond = elim (Result-cases (e.marshal (build_request o text))) [
      | inr (x, d) ↦ rw d refl
      | inl (body, d) ↦
          elim (Result-cases (
            refused_text (codes "create request")
              (e.url_error (o.base_url ++ codes "/audio/speech")))) [
                | inr (x, f) ↦ rw (d, f) refl
                | inl (u, f) ↦ rw (d, f) refl
              ]
    ]

receive_alike :
    (o p : OpenAiOptions) (r : HttpResponse)
    → o.format ≡ p.format
    → receive_audio o r ≡ receive_audio p r
unfolding receive_audio
receive_alike o p r f = rw f refl

received_alike :
    (o p : OpenAiOptions) (r : Result Bytes HttpResponse)
    → o.format ≡ p.format
    → (r >>= receive_audio o) ≡ (r >>= receive_audio p)
received_alike o p (ok r) f = receive_alike o p r f
received_alike o p (err e) f = refl

-- The settings that the span names, and the format of the audio.
abbrev pub named : OpenAiOptions → Bytes × Bytes × Bytes × Bytes × Bytes
named o = (o.model, o.voice, o.dialect, o.base_url, o.format)

settings_alike :
    (o p : OpenAiOptions) (e : Endpoint) (text other : Bytes)
    → respond o e text ≡ respond p e other
    → open_ai_settings o e text ≡ open_ai_settings p e other
unfolding open_ai_settings
settings_alike o p e text other r = rw (r, open_ai_settings) refl

attributes_alike :
    (o p : OpenAiOptions) (text other : Bytes)
    → named o ≡ named p
    → length text ≡ length other
    → open_ai_attributes o text ≡ open_ai_attributes p other
attributes_alike o p text other n l =
    rw (ap (λ x. x.0) n, ap (λ x. x.1) n, ap (λ x. x.2) n, ap (λ x. x.3) n, l) refl

result_alike :
    (o p : OpenAiOptions) (e : Endpoint) (text other : Bytes)
    → named o ≡ named p
    → respond o e text ≡ respond p e other
    → open_ai_synthesize o e text ≡ open_ai_synthesize p e other
result_alike o p e text other n r =
    synthesize-respond o e text
    ∙ ap (λ x. x >>= receive_audio o) r
    ∙ received_alike o p (respond p e other) (ap (λ x. x.4) n)
    ∙ sym (synthesize-respond p e other)

-- The span of a synthesis over HTTP shows nothing of the text but its length, and nothing of the key, the
-- instructions and the speed, but for what the endpoint answers: settings that agree in the model, the voice,
-- the dialect, the address and the format, and texts of the same length, leave the same span whenever the
-- requests come to the same response or the same error.
pub open_ai_span_hides :
    (o p : OpenAiOptions) (e : Endpoint) (text other : Bytes)
    → named o ≡ named p
    → length text ≡ length other
    → respond o e text ≡ respond p e other
    → open_ai_span o e text ≡ open_ai_span p e other
unfolding open_ai_span
open_ai_span_hides o p e text other n l r =
    rw
      (
        attributes_alike o p text other n l,
        settings_alike o p e text other r,
        result_alike o p e text other n r,
      )
      refl
