-- ===== src/Main/Fit.antt =====
-- What the parts of a page are called with, in `processPage` of cmd/tgpager/main.go.
use tgpager.Base.{
  ◌≤◌, ◌≡◌, ◌≢◌, refl, Bool, true, false, List, [], ◌∷◌, Option, none, some, Bytes, length, All,
  All-append, ok, arith, Result-cases, Option-cases, Bool-cases, inl, inr, if◌then◌else◌,
}
use tgpager.Alertmanager.{WebhookPayload}
use tgpager.Audio.Spec.{Spec, IsPlayable}
use tgpager.Config.Modes.{VoiceMode, TextMode, calls, text_sends}
use tgpager.Server.{CallRequest}
use tgpager.Tgcall.Call.{is_failure}
use tgpager.Tgcall.Errors.{ErrorLib, voice_forbidden}
use tgpager.Tts.Speaker.{max_text_bytes}
use tgpager.Main.{
  Deed, rang, rendered, sent_text, failed_to_page, Parts, last_segment, voice_spec, removal,
  deliver_voice, send_voice, send_text, voice_report, leave_message, place_call, process_page,
}

-- A call or a rendering gets a playable spec, a rendering a path, and a text message some text of at
-- most 1024 bytes.
abbrev pub IsFit : Deed → Type 0
IsFit (rang s) = IsPlayable s
IsFit (rendered s path) = IsPlayable s × (path ≢ [])
IsFit (sent_text t) = (t ≢ []) × (length t ≤ max_text_bytes)
IsFit _ = Unit

last_segment-filled :
    (segs : List Bytes) → segs ≢ [] → All (λ s. s ≢ []) segs → last_segment segs ≢ []
last_segment-filled [] h a = absurd (h refl)
last_segment-filled (s ∷ []) h a = a.0
last_segment-filled (s ∷ t ∷ ss) h a = last_segment-filled (t ∷ ss) (λ e. ground arith) a.1

voice_spec-IsPlayable : (s : Spec) → IsPlayable s → IsPlayable (voice_spec s)
unfolding voice_spec
voice_spec-IsPlayable s p = record {
  some_segments = λ e. ground arith;
  paths = (last_segment-filled s.segments p.some_segments p.paths, tt);
  repeats = omega arith;
}

module _ (lib : ErrorLib) (parts : Parts lib)
    (speaks : (p : WebhookPayload) → IsPlayable (parts.speak p))
    (named : (path : Bytes) → parts.create_temp ≡ ok path → path ≢ [])
    (texts : (p : WebhookPayload) (t : Bytes)
      → parts.text p ≡ ok t
      → (t ≢ []) × (length t ≤ max_text_bytes)) where
  removal-IsFit : (path : Bytes) → IsFit (removal lib parts path)
  removal-IsFit path = elim (Bool-cases (is_failure (parts.remove path))) [
    | inl e ↦ simp e tt
    | inr e ↦ simp e tt
  ]

  deliver_voice-IsFit :
      (spec : Spec) (path : Bytes)
      → IsPlayable spec
      → path ≢ []
      → All IsFit (deliver_voice lib parts spec path).1
  unfolding deliver_voice
  deliver_voice-IsFit spec path p filled =
      let fit = voice_spec-IsPlayable spec p in
      elim (Option-cases (parts.render (voice_spec spec) path)) [
        | inr (e, x) ↦ simp (x, deliver_voice) ((fit, filled), (removal-IsFit path, tt))
        | inl x ↦ elim (Result-cases (parts.ogg_duration path)) [
          | inr (e, y) ↦ simp (x, y, deliver_voice) ((fit, filled), (removal-IsFit path, tt))
          | inl (d, y) ↦ simp (x, y, deliver_voice) ((fit, filled), (tt, (removal-IsFit path, tt)))
        ]
      ]

  send_voice-IsFit : (spec : Spec) → IsPlayable spec → All IsFit (send_voice lib parts spec).1
  unfolding send_voice
  send_voice-IsFit spec p = elim (Result-cases parts.create_temp) [
    | inr (e, x) ↦ simp (x, send_voice) tt
    | inl (path, x) ↦ elim (Option-cases parts.close_temp) [
      | inr (e, y) ↦ simp (x, y, send_voice) (tt, tt)
      | inl y ↦ simp (x, y, send_voice) (tt, deliver_voice-IsFit spec path p (named path x))
    ]
  ]

  send_text-IsFit :
      (mode : TextMode) (payload : WebhookPayload) (failed : Bool)
      → All IsFit (send_text lib parts mode payload failed).1
  unfolding send_text
  send_text-IsFit mode payload failed = elim (Bool-cases (text_sends mode failed)) [
    | inr x ↦ simp (x, send_text) tt
    | inl x ↦ elim (Result-cases (parts.text payload)) [
      | inr (e, y) ↦ simp (x, y, send_text) (tt, tt)
      | inl (t, y) ↦ elim (Option-cases (parts.send_text t)) [
        | inr (e, z) ↦ simp (x, y, z, send_text) (texts payload t y, (tt, tt))
        | inl z ↦ simp (x, y, z, send_text) (texts payload t y, (tt, tt))
      ]
    ]
  ]

  voice_report-IsFit : (e : Option lib.Error) → IsFit (voice_report lib parts e)
  unfolding voice_report
  voice_report-IsFit none = tt
  voice_report-IsFit (some e) = elim (Bool-cases (voice_forbidden lib e)) [
    | inl x ↦ rw (x, voice_report) tt
    | inr x ↦ rw (x, voice_report) tt
  ]

  alarm-IsFit : (b : Bool) → All IsFit (if b then failed_to_page ∷ [] else [])
  alarm-IsFit true = (tt, tt)
  alarm-IsFit false = tt

  leave_message-IsFit :
      (mode : VoiceMode) (text_mode : TextMode) (spec : Spec) (payload : WebhookPayload)
      → IsPlayable spec
      → All IsFit (leave_message lib parts mode text_mode spec payload)
  unfolding leave_message
  leave_message-IsFit mode text_mode spec payload p =
      let e = (send_voice lib parts spec).0 in
      let text = send_text lib parts text_mode payload (is_failure e) in
      All-append IsFit (send_voice lib parts spec).1 _ (send_voice-IsFit spec p) (
        voice_report-IsFit e,
        All-append IsFit text.1 _ (send_text-IsFit text_mode payload (is_failure e))
            (alarm-IsFit _),
      )

  place_call-IsFit :
      (mode : VoiceMode) (spec : Spec)
      → IsPlayable spec
      → All IsFit (place_call lib parts mode spec).1
  unfolding place_call
  place_call-IsFit mode spec p = elim (Bool-cases (calls mode)) [
    | inr x ↦ simp (x, place_call) tt
    | inl x ↦ elim (Option-cases (parts.ring spec)) [
      | inr (e, y) ↦ simp (x, y, place_call) (p, (tt, tt))
      | inl y ↦ simp (x, y, place_call) (p, (tt, tt))
    ]
  ]

  message_if : (b : Bool) (ds : List Deed) → All IsFit ds → All IsFit (if b then ds else [])
  message_if true ds h = h
  message_if false ds h = tt

  -- Whatever its parts answer, provided what is spoken is playable, temporary files have names and texts
  -- are fit to send.
  pub process_page-IsFit :
      (mode : VoiceMode) (text_mode : TextMode) (req : CallRequest)
      → All IsFit (process_page lib parts mode text_mode req)
  unfolding process_page
  process_page-IsFit mode text_mode req =
      let spec = parts.speak req.payload in
      let p = speaks req.payload in
      All-append IsFit (place_call lib parts mode spec).1 _ (place_call-IsFit mode spec p)
        (message_if _ _ (leave_message-IsFit mode text_mode spec req.payload p))
