-- ===== src/Main/Startup/TestMessage.antt =====
-- `runVoice` of cmd/tgpager/main.go: a test message.
use tgpager.Base.{Bytes, ℕ, ◌≡◌, refl, false, none, some, ok, Result-cases, inl, inr}
use tgpager.Config.Load.{Config}
use tgpager.Main.{Parts}
use tgpager.Main.Reaches.{has, is_ring, send_voice-IsQuiet}
use tgpager.Main.Files.{replay, send_voice-replay}
use tgpager.Tgcall.Errors.{ErrorLib}
use tgpager.Tgcall.Client.{Telegram, run_client, verify_self, new_client, apply_all, apply}
use tgpager.Tts.Build.{Site, build}
use tgpager.Tts.Speaker.{Speaker}
use tgpager.Tts.Preflight.{preflight_payload}
use tgpager.Main.Startup.{
  VoiceEnding, not_built, not_started, left_message, voice_client, run_voice, unmetered,
}

module _ (lib : ErrorLib) (site : Site) (telegram : Telegram lib) (parts : Speaker → Parts lib)
    (logger : ℕ) (cfg : Config) where
  -- What a test message is, if one is sent.
  abbrev pub Sends : VoiceEnding lib.Error → Type 0
  Sends (not_built e) = Unit
  Sends (not_started e) = Unit
  Sends (left_message e ds) = (has is_ring ds ≡ false) × (replay ds none ≡ some none)

  -- A test of the voice message rings nobody, and removes the one file that it makes, in whatever mode
  -- the configuration pages, provided new files can be closed and removed; and its client does not ask whether the
  -- session is a bot's.
  pub run_voice_quiet :
      ((s : Speaker) → (parts s).close_temp ≡ none)
      → ((s : Speaker) (path : Bytes) → (parts s).remove path ≡ none)
      → Sends (run_voice lib site telegram parts logger cfg)
        × (verify_self lib (voice_client logger cfg) telegram ≡ ok tt)
  unfolding run_voice verify_self new_client apply_all apply
  run_voice_quiet closed removed = (sends, refl)
    where
      sends : Sends (run_voice lib site telegram parts logger cfg)
      sends = elim (Result-cases (build (unmetered site) cfg.tts cfg.audio)) [
        | inr (e, x) ↦ simp (x, run_voice) tt
        | inl (b, x) ↦ elim (Result-cases (run_client lib (voice_client logger cfg) telegram)) [
          | inr (e, y) ↦ simp (x, y, run_voice) tt
          | inl (u, y) ↦
              let spec = (parts b.speaker).speak preflight_payload in
              simp (x, y, run_voice)
                (
                  (send_voice-IsQuiet lib (parts b.speaker) spec).0,
                  send_voice-replay lib (parts b.speaker) spec (closed b.speaker)
                      (removed b.speaker),
                )
        ]
      ]
