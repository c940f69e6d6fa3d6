-- ===== src/Main/Tests.antt =====
-- Pages on sample parts.
use tgpager.Base.{◌≡◌, refl, true, not, ◌&&◌, ◌||◌, [], ◌∷◌, none, some, codes, str_eq, pos, ok}
use tgpager.Audio.Spec.{Spec, file_spec}
use tgpager.Config.Modes.{voice_fallback, voice_only, text_fallback, calls, voice_sends, text_sends}
use tgpager.Server.{CallRequest}
use tgpager.Tgcall.Call.{is_failure}
use tgpager.Tgcall.Errors.{voice_forbidden}
use tgpager.Tgcall.Sample.{made, rpc, failures}
use tgpager.Main.{
  rang, made_file, removed_file, rendered, sent_voice, sent_text, voice_not_accepted, text_sent,
  failed_to_page, Parts, process_page, leave_message, place_call, send_voice, send_text,
  deliver_voice, voice_report, voice_spec,
}
use tgpager.Main.Reaches.{
  has, is_ring, is_report, is_alarm, call_error, voice_error, texted, process_page_reaches,
}
use tgpager.Main.Files.{replay, process_page_leaves_no_file}

abbrev speech : Spec
speech = record { segments = codes "tone.wav" ∷ codes "speech.mp3" ∷ []; repeat = pos 2 }

abbrev page : CallRequest
page = record {
  group_key = codes "disk";
  payload = record {
    version = codes "4";
    group_key = codes "disk";
    status = codes "firing";
    receiver = codes "tgpager";
    group_labels = [];
    common_labels = [];
    common_annotations = [];
    external_url = [];
    alerts = [];
    truncated_alerts = pos 0;
  };
}

-- The call is not answered, and the callee does not take voice messages.
abbrev pub parts : Parts failures
parts = record {
  speak = λ p. speech;
  ring = λ s. some (made (codes "disconnected before connect"));
  create_temp = ok (codes "/tmp/tgpager-1.ogg");
  close_temp = none;
  remove = λ p. none;
  render = λ s p. none;
  ogg_duration = λ p. ok (pos 4000000000);
  send_voice = λ p d. some (rpc (codes "VOICE_MESSAGES_FORBIDDEN"));
  text = λ p. ok (codes "Disk full");
  send_text = λ t. none;
}

page_falls_back :
    process_page failures parts voice_fallback text_fallback page
    ≡ rang speech
      ∷ failed_to_page
      ∷ made_file (codes "/tmp/tgpager-1.ogg")
      ∷ rendered (file_spec (codes "speech.mp3")) (codes "/tmp/tgpager-1.ogg")
      ∷ sent_voice (codes "/tmp/tgpager-1.ogg") (pos 4000000000)
      ∷ removed_file (codes "/tmp/tgpager-1.ogg")
      ∷ voice_not_accepted
      ∷ sent_text (codes "Disk full")
      ∷ text_sent
      ∷ []
unfolding process_page leave_message place_call send_voice send_text deliver_voice voice_report
    voice_spec calls voice_sends text_sends voice_forbidden str_eq
page_falls_back = refl

process_page_reaches_example :
    let ds = process_page failures parts voice_fallback text_fallback page in
    let failed = is_failure (call_error failures parts voice_fallback page) in
    (has is_ring ds ≡ calls voice_fallback)
    × (has is_report ds ≡ voice_sends voice_fallback failed)
    × ((has is_ring ds || has is_report ds) ≡ true)
    × (has is_alarm ds ≡ (
        (calls voice_fallback && failed)
        || (not (calls voice_fallback)
            && is_failure (voice_error failures parts page)
            && not (texted failures parts text_fallback page))))
process_page_reaches_example = process_page_reaches failures parts voice_fallback text_fallback page

process_page_leaves_no_file_example :
    replay (process_page failures parts voice_only text_fallback page) none ≡ some none
process_page_leaves_no_file_example =
    process_page_leaves_no_file failures parts voice_only text_fallback page refl (λ p. refl)
