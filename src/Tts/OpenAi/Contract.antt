-- ===== src/Tts/OpenAi/Contract.antt =====
-- What a synthesis by the endpoint returns.
use tgpager.Base.{
  ℕ, ◌≡◌, ◌≢◌, refl, ap, sym, ◌∙◌, ◌==◌, [], ◌++◌, Bytes, codes, take, take_all, bind_ok, then_ok,
  eq_of_beq, Result, ok, err, ◌>>=◌, arith, Bool-cases, inl, inr,
}
use tgpager.Tts.Synthesizer.{Audio, IsSound, validated, validated_lem}
use tgpager.Tts.OpenAi.{
  OpenAiOptions, build_request, HttpResponse, Endpoint, post, receive_audio, read_limited,
  max_audio_bytes, open_ai_synthesize, open_ai_synthesizer, wrapped_text, refused_text,
}

-- The audio is the body of an answer with status 200, cut at the limit.
read_limited_lem :
    (n : ℕ) (r : HttpResponse) (b : Bytes) → read_limited n r ≡ ok b → b ≡ take n r.body
unfolding read_limited
read_limited_lem n r b h = ground (arith, take_all n r.body)

unwrapped :
    {A : Type 0} (m : Bytes) (x : Result Bytes A) (a : A) → wrapped_text m x ≡ ok a → x ≡ ok a
unwrapped m (ok b) a h = h
unwrapped m (err e) a h = absurd (ground arith)

received :
    (o : OpenAiOptions) (r : HttpResponse) (out : Audio)
    → receive_audio o r ≡ ok out
    → (r.status_code ≡ 200)
      × (out.audio ≡ take max_audio_bytes r.body)
      × (out.audio ≢ [])
      × (out.format ≡ o.format)
unfolding receive_audio
received o r out h = elim (Bool-cases (r.status_code == 200)) [
  | inr other ↦ absurd (ground arith)
  | inl fine ↦
      let opened : (wrapped_text (codes "read audio") (read_limited max_audio_bytes r) >>= λ b.
      validated (record { audio = b; format = o.format }))
          ≡ ok out =
        sym (rw (fine, receive_audio) refl) ∙ h in
      let (audio, read, valid) =
        bind_ok (wrapped_text (codes "read audio") (read_limited max_audio_bytes r))
          (λ b. validated (record { audio = b; format = o.format })) out opened in
      let (same, filled) = validated_lem (record { audio = audio; format = o.format }) out valid in
      (
        eq_of_beq r.status_code 200 fine,
        ap (λ a. a.audio) same
            ∙ read_limited_lem max_audio_bytes r audio
                (unwrapped (codes "read audio") _ audio read),
        rw same filled,
        ap (λ a. a.format) same,
      )
]

-- Audio is returned only for a request that was encoded and sent as it is built, and answered with
-- status 200: it is the body of the answer up to the limit of 32 MiB, it is not empty, and it has the
-- format that was announced.
pub open_ai_synthesize_lem :
    (o : OpenAiOptions) (e : Endpoint) (text : Bytes) (out : Audio)
    → open_ai_synthesize o e text ≡ ok out
    → (body : Bytes) × (r : HttpResponse) × (e.marshal (build_request o text) ≡ ok body)
      × (e.exchange (post o body) ≡ ok r)
      × (r.status_code ≡ 200)
      × (out.audio ≡ take max_audio_bytes r.body)
      × (out.audio ≢ [])
      × (out.format ≡ o.format)
unfolding open_ai_synthesize
open_ai_synthesize_lem o e text out h =
    let (body, m, h1) =
      bind_ok (wrapped_text (codes "encode request") (e.marshal (build_request o text))) _ out h in
    let (r, x, valid) =
      bind_ok (wrapped_text (codes "synthesize") (e.exchange (post o body))) (receive_audio o) out (
        then_ok
          (refused_text (codes "create request")
            (e.url_error (o.base_url ++ codes "/audio/speech")))
          _ out h1) in
    let (fine, same, filled, format) = received o r out valid in
    (
      body,
      r,
      unwrapped (codes "encode request") _ body m,
      unwrapped (codes "synthesize") _ r x,
      fine,
      same,
      filled,
      format,
    )

pub open_ai-IsSound : (o : OpenAiOptions) (e : Endpoint) → IsSound (open_ai_synthesizer o e)
open_ai-IsSound o e = record {
  some_audio = λ text out h.
      let (body, r, m, x, s, a, filled, f) = open_ai_synthesize_lem o e text out h in filled;
  announced = λ text out h.
      let (body, r, m, x, s, a, filled, f) = open_ai_synthesize_lem o e text out h in f;
}
