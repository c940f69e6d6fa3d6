-- ===== src/Main/Linked/Heard.antt =====
-- What "paged successfully" in the log of cmd/tgpager/main.go says of the call.
use tgpager.Base.{
  ℕ, ◌≤◌, ◌≡◌, ◌≢◌, refl, ap, ◌∙◌, Bool, true, false, List, [], Option, none, some, Bytes, Result,
  ok, err, pos_part, arith, Option-cases, inl, inr, if◌then◌else◌,
}
use tgpager.Alertmanager.{WebhookPayload}
use tgpager.Audio.Spec.{Spec}
use tgpager.Audio.Stream.{FfmpegError, StreamDeed, stream}
use tgpager.Audio.Stream.Whole.{Completes, stream-Completes}
use tgpager.Config.Modes.{VoiceMode, TextMode, voice_sends}
use tgpager.Server.{CallRequest}
use tgpager.Tgcall.Call.{is_failure, connected}
use tgpager.Tgcall.Call.Answered.{ring-IsAnswered}
use tgpager.Tgcall.Errors.{ErrorLib}
use tgpager.Tts.Build.{Built}
use tgpager.Main.{
  Deed, paged_successfully, Parts, send_voice, send_text, voice_report, leave_message, place_call,
  process_page,
}
use tgpager.Main.Reaches.{has, has-append, has-in_order}
use tgpager.Main.Linked.{Meets, linked, rings_with, failure, result_of}

abbrev pub is_success : Deed → Bool
is_success paged_successfully = true
is_success _ = false

module _ (lib : ErrorLib) (parts : Parts lib) where
  send_voice_silent : (spec : Spec) → has is_success (send_voice lib parts spec).1 ≡ false
  unfolding send_voice
  send_voice_silent spec = ground arith

  send_text_silent :
      (mode : TextMode) (payload : WebhookPayload) (failed : Bool)
      → has is_success (send_text lib parts mode payload failed).1 ≡ false
  unfolding send_text
  send_text_silent mode payload failed = ground arith

  report_silent : (e : Option lib.Error) → is_success (voice_report lib parts e) ≡ false
  unfolding voice_report
  report_silent e = ground arith

  leave_message_silent :
      (mode : VoiceMode) (text_mode : TextMode) (spec : Spec) (payload : WebhookPayload)
      → has is_success (leave_message lib parts mode text_mode spec payload) ≡ false
  unfolding leave_message
  leave_message_silent mode text_mode spec payload =
      let e = (send_voice lib parts spec).0 in
      let v = send_voice_silent spec in
      let r = report_silent e in
      let t = send_text_silent text_mode payload (is_failure e) in
      has-in_order is_success (send_voice lib parts spec).1 (voice_report lib parts e)
        (send_text lib parts text_mode payload (is_failure e)).1 _
      ∙ ground (arith, v, r, t)

  -- The call succeeded, if the log of a page says so.
  paged_by :
      (mode : VoiceMode) (text_mode : TextMode) (req : CallRequest)
      → has is_success (process_page lib parts mode text_mode req) ≡ true
      → parts.ring (parts.speak req.payload) ≡ none
  unfolding process_page place_call
  paged_by mode text_mode req h =
      let spec = parts.speak req.payload in
      let ds = (place_call lib parts mode spec).1 in
      let silent = leave_message_silent mode text_mode spec req.payload in
      let split = has-append is_success ds (
        if voice_sends mode (is_failure (place_call lib parts mode spec).0)
        then leave_message lib parts mode text_mode spec req.payload
        else []) in
      elim (Option-cases (parts.ring spec)) [
        | inl e ↦ e
        | inr (x, e) ↦ absurd (ground (arith, e, split, silent, h))
      ]

module _ (lib : ErrorLib) (Packet : Type 0) (unmarshal : Bytes → Result Bytes Packet)
    (write : Packet → Option Bytes) (m : Meets lib Packet unmarshal write) (b : Built) where
  -- The stream of try `n` was played to its end.
  abbrev pub Heard : Spec → ℕ → Type 0
  Heard spec n =
      (ds : List (StreamDeed Packet)) × (stream Packet unmarshal write (m.streams n) spec
        ≡ (some (ok tt), ds))
      × Completes Packet unmarshal write (m.streams n) spec ds

  succeeded :
      (o : Option (Result FfmpegError (Unit {0}))) (h : o ≢ none)
      → failure lib m.ffmpeg_error (result_of o h) ≡ none
      → o ≡ some (ok tt)
  succeeded none h e = absurd (h refl)
  succeeded (some (ok u)) h e = refl
  succeeded (some (err x)) h e = absurd (ground arith)

  -- If the log of a page says "paged successfully", then in some try of the call it was accepted and
  -- connected, and the stream of the page's spec returned without an error: ffmpeg ran with the arguments
  -- for the spec and exited with success, and every packet it sent was handed on, in order. The client
  -- makes at least one try, and every stream returns.
  pub paged-Heard :
      (mode : VoiceMode) (text_mode : TextMode) (req : CallRequest)
      → 1 ≤ pos_part m.client.attempts
      → has is_success (process_page lib (linked lib Packet unmarshal write m b) mode text_mode req)
        ≡ true
      → let spec = (linked lib Packet unmarshal write m b).speak req.payload in
        (n : ℕ) × (((m.rings n).attempt).request ≡ none)
        × (((m.rings n).attempt).signal ≡ connected)
        × Heard spec n
  unfolding linked
  paged-Heard mode text_mode req some_try h =
      let parts = linked lib Packet unmarshal write m b in
      let spec = parts.speak req.payload in
      let (n, answered) =
        ring-IsAnswered lib m.peer (rings_with lib Packet unmarshal write m b spec)
          (pos_part m.client.attempts) m.client.retry_delay some_try
          (paged_by lib parts mode text_mode req h) in
      let s = stream Packet unmarshal write (m.streams n) spec in
      let done : s ≡ (some (ok tt), s.1) =
        ap (λ o. (o, s.1)) (succeeded s.0 (m.returns n spec) answered.played_all) in
      (
        n,
        answered.requested,
        answered.joined,
        (s.1, done, stream-Completes Packet unmarshal write (m.streams n) spec s.1 done),
      )
