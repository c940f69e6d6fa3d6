-- ===== src/Config/Modes.antt =====
-- `VoiceMode` and `TextMode`. The two are strings in the code, and the enum fields of the
-- configuration admit only the values below.
use tgpager.Base.{Bool, true, false}

pub data VoiceMode : Type 0 where
  voice_off voice_fallback voice_always voice_only : VoiceMode

pub data TextMode : Type 0 where
  text_off text_fallback text_always : TextMode

-- `VoiceMode.Calls`.
unfoldable pub calls : VoiceMode → Bool
calls voice_only = false
calls voice_off = true
calls voice_fallback = true
calls voice_always = true

-- `VoiceMode.Sends`.
unfoldable pub voice_sends : VoiceMode → Bool → Bool
voice_sends voice_always call_failed = true
voice_sends voice_only call_failed = true
voice_sends voice_fallback call_failed = call_failed
voice_sends voice_off call_failed = false

-- `TextMode.Sends`.
unfoldable pub text_sends : TextMode → Bool → Bool
text_sends text_always voice_failed = true
text_sends text_fallback voice_failed = voice_failed
text_sends text_off voice_failed = false
