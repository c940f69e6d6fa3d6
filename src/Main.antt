-- ===== src/Main.antt =====
-- cmd/tgpager/main.go: what happens to one page.
pub mod Files
pub mod Fit
pub mod Linked
pub mod Reaches
pub mod Serving
pub mod Startup
pub mod Tests
use tgpager.Base.{
  ℕ, Bool, true, false, not, ◌&&◌, List, [], ◌∷◌, ◌++◌, Option, none, some, Bytes, codes, ℤ, Result,
  ok, err, if◌then◌else◌,
}
use tgpager.Alertmanager.{WebhookPayload}
use tgpager.Audio.Spec.{Spec, file_spec}
use tgpager.Config.Modes.{VoiceMode, TextMode, calls, voice_sends, text_sends, voice_only}
use tgpager.Server.{CallRequest}
use tgpager.Tgcall.Call.{is_failure}
use tgpager.Tgcall.Errors.{ErrorLib, voice_forbidden}

-- What `processPage` does to the world and to the log, in order.
pub data Deed : Type 0 where
  rang : Spec → Deed
  made_file removed_file file_not_removed : Bytes → Deed
  rendered : Spec → Bytes → Deed
  sent_voice : Bytes → ℤ → Deed
  sent_text : Bytes → Deed
  paged_successfully left_voice voice_not_accepted voice_not_left text_failed text_sent : Deed
  failed_to_page : Deed

-- The last segment, if there is one.
abbrev pub last_segment : List Bytes → Bytes
last_segment [] = []
last_segment (s ∷ []) = s
last_segment (s ∷ t ∷ ss) = last_segment (t ∷ ss)

-- `voiceSpec`; a spec of the speaker has a segment.
unfoldable pub voice_spec : Spec → Spec
voice_spec spec = file_spec (last_segment spec.segments)

module _ (lib : ErrorLib) where
  open lib use {Error, wrap}

  -- The parts of the program that a page goes through: the speaker, the client and the renderer, with
  -- the calls of `os` between them. A part's own effects are the business of its module.
  pub record Parts : Type 0 where
    pub speak : WebhookPayload → Spec
    pub ring : Spec → Option Error
    pub create_temp : Result Error Bytes
    pub close_temp : Option Error
    pub remove : Bytes → Option Error
    pub render : Spec → Bytes → Option Error
    pub ogg_duration : Bytes → Result Error ℤ
    pub send_voice : Bytes → ℤ → Option Error
    pub text : WebhookPayload → Result Error Bytes
    pub send_text : Bytes → Option Error

  module _ (parts : Parts) where
    open parts use {speak, ring, create_temp, close_temp, remove, render, ogg_duration, text}

    -- `os.Remove`; where it fails, the log warns of it.
    abbrev pub removal : Bytes → Deed
    removal path = if is_failure (remove path) then file_not_removed path else removed_file path

    -- `sendVoice` behind the closed file: the deferred removal runs on every path.
    unfoldable pub deliver_voice : Spec → Bytes → Option Error × List Deed
    deliver_voice spec path = elim (render (voice_spec spec) path) [
      | some e ↦
          (some (wrap (codes "render") e), rendered (voice_spec spec) path ∷ removal path ∷ [])
      | none ↦ elim (ogg_duration path) [
        | err e ↦ (
          some (wrap (codes "read duration") e),
          rendered (voice_spec spec) path ∷ removal path ∷ [],
        )
        | ok dur ↦ (
          parts.send_voice path dur,
          rendered (voice_spec spec) path ∷ sent_voice path dur ∷ removal path ∷ [],
        )
      ]
    ]

    abbrev pub then_deeds : List Deed → Option Error × List Deed → Option Error × List Deed
    then_deeds ds (e, es) = (e, ds ++ es)

    unfoldable pub send_voice : Spec → Option Error × List Deed
    unfolding deliver_voice
    send_voice spec = elim create_temp [
      | err e ↦ (some (wrap (codes "create temp file") e), [])
      | ok path ↦ elim close_temp [
        | some e ↦ (some (wrap (codes "close temp file") e), made_file path ∷ [])
        | none ↦ then_deeds (made_file path ∷ []) (deliver_voice spec path)
      ]
    ]

    -- `sendText`: whether the text was delivered.
    unfoldable pub send_text : TextMode → WebhookPayload → Bool → Bool × List Deed
    send_text mode payload voice_failed =
        if not (text_sends mode voice_failed) then (false, []) else elim (text payload) [
          | err e ↦ (false, text_failed ∷ [])
          | ok t ↦ elim (parts.send_text t) [
            | some e ↦ (false, sent_text t ∷ text_failed ∷ [])
            | none ↦ (true, sent_text t ∷ text_sent ∷ [])
          ]
        ]

    -- How the log names the end of the voice message.
    unfoldable pub voice_report : Option Error → Deed
    voice_report none = left_voice
    voice_report (some e) = if voice_forbidden lib e then voice_not_accepted else voice_not_left

    abbrev pub is_only : VoiceMode → Bool
    is_only mode = not (calls mode)

    -- `processPage` behind the call.
    unfoldable pub leave_message : VoiceMode → TextMode → Spec → WebhookPayload → List Deed
    leave_message mode text_mode spec payload =
        let (voice_err, ds) = send_voice spec in
        let (texted, es) = send_text text_mode payload (is_failure voice_err) in
        ds
        ++ (voice_report voice_err
            ∷ (es
                ++ (if is_only mode && is_failure voice_err && not texted
                    then failed_to_page ∷ []
                    else [])))

    -- The call, if the mode places one, and its report.
    unfoldable pub place_call : VoiceMode → Spec → Option Error × List Deed
    place_call mode spec =
        if calls mode
        then elim (ring spec) [
          | some e ↦ (some e, rang spec ∷ failed_to_page ∷ [])
          | none ↦ (none, rang spec ∷ paged_successfully ∷ [])
        ]
        else (none, [])

    -- `processPage`.
    unfoldable pub process_page : VoiceMode → TextMode → CallRequest → List Deed
    process_page mode text_mode req =
        let spec = speak req.payload in
        let (call_err, ds) = place_call mode spec in
        ds
        ++ (if voice_sends mode (is_failure call_err)
            then leave_message mode text_mode spec req.payload
            else [])
