-- ===== src/Main/Reaches.antt =====
-- The calls, messages and reports in the deeds of a page, `processPage` of cmd/tgpager/main.go.
use tgpager.Base.{
  ◌≡◌, refl, ap, ◌∙◌, Bool, true, false, not, ◌&&◌, ◌||◌, List, [], ◌∷◌, ◌++◌, Option,
  if◌then◌else◌, arith, Bool-cases, inl, inr,
}
use tgpager.Alertmanager.{WebhookPayload}
use tgpager.Audio.Spec.{Spec}
use tgpager.Config.Modes.{
  VoiceMode, TextMode, calls, voice_sends, voice_off, voice_fallback, voice_always, voice_only,
}
use tgpager.Server.{CallRequest}
use tgpager.Tgcall.Call.{is_failure}
use tgpager.Tgcall.Errors.{ErrorLib}
use tgpager.Main.{
  Deed, rang, left_voice, voice_not_accepted, voice_not_left, failed_to_page, Parts, send_voice,
  send_text, voice_report, leave_message, place_call, process_page, is_only,
}

abbrev pub has : (Deed → Bool) → List Deed → Bool
has p [] = false
has p (d ∷ ds) = p d || has p ds

pub has-append : (p : Deed → Bool) (ds es : List Deed) → has p (ds ++ es) ≡ (has p ds || has p es)
has-append p [] es = refl
has-append p (d ∷ ds) es = ground (arith, has-append p ds es)

pub has-in_order :
    (p : Deed → Bool) (ds : List Deed) (d : Deed) (es fs : List Deed)
    → has p (ds ++ (d ∷ (es ++ fs))) ≡ (has p ds || (p d || (has p es || has p fs)))
has-in_order p ds d es fs =
    has-append p ds (d ∷ (es ++ fs)) ∙ ap (λ b. has p ds || (p d || b)) (has-append p es fs)

abbrev pub is_ring : Deed → Bool
is_ring (rang s) = true
is_ring _ = false

-- The report on the voice message, whichever it is.
abbrev pub is_report : Deed → Bool
is_report left_voice = true
is_report voice_not_accepted = true
is_report voice_not_left = true
is_report _ = false

abbrev pub is_alarm : Deed → Bool
is_alarm failed_to_page = true
is_alarm _ = false

calls_or_sends : (mode : VoiceMode) (failed : Bool) → (calls mode || voice_sends mode failed) ≡ true
unfolding calls voice_sends
calls_or_sends voice_off failed = refl
calls_or_sends voice_fallback failed = refl
calls_or_sends voice_always failed = refl
calls_or_sends voice_only failed = refl

module _ (lib : ErrorLib) (parts : Parts lib) where
  open lib use {Error}

  abbrev pub call_error : VoiceMode → CallRequest → Option Error
  call_error mode req = (place_call lib parts mode (parts.speak req.payload)).0

  abbrev pub voice_error : CallRequest → Option Error
  voice_error req = (send_voice lib parts (parts.speak req.payload)).0

  abbrev pub texted : TextMode → CallRequest → Bool
  texted text_mode req =
      (send_text lib parts text_mode req.payload (is_failure (voice_error req))).0

  -- A message by itself rings nobody, reports nothing yet, and raises no alarm.
  abbrev pub IsQuiet : List Deed → Type 0
  IsQuiet ds = (has is_ring ds ≡ false) × (has is_report ds ≡ false) × (has is_alarm ds ≡ false)

  pub send_voice-IsQuiet : (spec : Spec) → IsQuiet (send_voice lib parts spec).1
  unfolding send_voice
  send_voice-IsQuiet spec = ground arith

  send_text-IsQuiet :
      (mode : TextMode) (p : WebhookPayload) (failed : Bool)
      → IsQuiet (send_text lib parts mode p failed).1
  unfolding send_text
  send_text-IsQuiet mode p failed = ground arith

  voice_report-Quiet :
      (e : Option Error)
      → (is_ring (voice_report lib parts e) ≡ false)
        × (is_report (voice_report lib parts e) ≡ true)
        × (is_alarm (voice_report lib parts e) ≡ false)
  unfolding voice_report
  voice_report-Quiet e = ground arith

  -- The message rings nobody, is reported, and raises the alarm in one case only.
  leave_message_lem :
      (mode : VoiceMode) (text_mode : TextMode) (req : CallRequest)
      → let ds = leave_message lib parts mode text_mode (parts.speak req.payload) req.payload in
        (has is_ring ds ≡ false)
        × (has is_report ds ≡ true)
        × (has is_alarm ds ≡ (
            is_only lib parts mode && is_failure (voice_error req) && not (texted text_mode req)))
  unfolding leave_message
  leave_message_lem mode text_mode req =
      let spec = parts.speak req.payload in
      let (e, ds) = send_voice lib parts spec in
      let (t, es) = send_text lib parts text_mode req.payload (is_failure e) in
      let last =
        if is_only lib parts mode && is_failure e && not t then failed_to_page ∷ [] else [] in
      let splits = λ (p : Deed → Bool). has-in_order p ds (voice_report lib parts e) es last in
      let (r, q, a) = send_voice-IsQuiet spec in
      let (r', q', a') = send_text-IsQuiet text_mode req.payload (is_failure e) in
      let (r'', q'', a'') = voice_report-Quiet e in
      (
        ground (arith, splits is_ring),
        ground (arith, splits is_report),
        ground (arith, splits is_alarm),
      )

  place_call_lem :
      (mode : VoiceMode) (spec : Spec)
      → let (e, ds) = place_call lib parts mode spec in
        (has is_ring ds ≡ calls mode)
        × (has is_report ds ≡ false)
        × (has is_alarm ds ≡ (calls mode && is_failure e))
  unfolding place_call calls
  place_call_lem mode spec = ground arith

  -- What the log and the wire show of a page. A call is placed exactly when the mode calls; the voice
  -- message is reported on exactly when the mode leaves one after such a call; one of the two always
  -- happens; and "Failed to page" is logged exactly when a placed call failed or, in the mode without
  -- calls, when neither the voice message nor a text was delivered.
  pub process_page_reaches :
      (mode : VoiceMode) (text_mode : TextMode) (req : CallRequest)
      → let ds = process_page lib parts mode text_mode req in
        let failed = is_failure (call_error mode req) in
        (has is_ring ds ≡ calls mode)
        × (has is_report ds ≡ voice_sends mode failed)
        × ((has is_ring ds || has is_report ds) ≡ true)
        × (has is_alarm ds ≡ (
            (calls mode && failed)
            || (not (calls mode) && is_failure (voice_error req) && not (texted text_mode req))))
  unfolding process_page
  process_page_reaches mode text_mode req =
      let spec = parts.speak req.payload in
      let (e, ds) = place_call lib parts mode spec in
      let es = leave_message lib parts mode text_mode spec req.payload in
      let (r, q, a) = place_call_lem mode spec in
      let (r', q', a') = leave_message_lem mode text_mode req in
      elim (Bool-cases (voice_sends mode (is_failure e))) [
        | inl sends ↦
            rw (sends, process_page)
              (
                ground (arith, has-append is_ring ds es),
                ground (arith, has-append is_report ds es),
                ground (arith, has-append is_report ds es),
                ground (arith, has-append is_alarm ds es),
              )
        | inr silent ↦
            rw (silent, process_page)
              (
                ground (arith, has-append is_ring ds []),
                ground (arith, has-append is_report ds []),
                ground (arith, has-append is_ring ds [], calls_or_sends mode (is_failure e)),
                ground (arith, has-append is_alarm ds [], calls_or_sends mode (is_failure e)),
              )
      ]
