-- ===== src/Main/Linked/WellCalled.antt =====
-- The calls that a page of cmd/tgpager/main.go makes of its linked parts.
use tgpager.Base.{◌≡◌, ◌≢◌, Option, Bytes, [], All, Result, ok, err, arith}
use tgpager.Audio.Spec.{validate_iff}
use tgpager.Config.Load.{Tts}
use tgpager.Config.Modes.{VoiceMode, TextMode}
use tgpager.Server.{CallRequest}
use tgpager.Tgcall.Errors.{ErrorLib}
use tgpager.Tts.Speaker.{SpeechError, render}
use tgpager.Tts.Speaker.Playable.{ready-Plays, render_lem}
use tgpager.Tts.Build.{Site, Built, build}
use tgpager.Tts.Build.Promises.{build-Keeps}
use tgpager.Main.{process_page}
use tgpager.Main.Fit.{IsFit, process_page-IsFit}
use tgpager.Main.Linked.{Meets, linked, around, relabelled}

relabelled_ok :
    (lib : ErrorLib) (as' : SpeechError → lib.Error) (r : Result SpeechError Bytes) (t : Bytes)
    → relabelled lib as' r ≡ ok t
    → r ≡ ok t
relabelled_ok lib as' (ok a) t h = ground arith
relabelled_ok lib as' (err e) t h = absurd (ground arith)

module _ (lib : ErrorLib) (Packet : Type 0) (unmarshal : Bytes → Result Bytes Packet)
    (write : Packet → Option Bytes) (site : Site) (tts : Option Tts) (tone : Bytes) (b : Built)
    (m : Meets lib Packet unmarshal write) where
  -- On every page, with a speaker that was built from a configuration and whatever Telegram, ffmpeg, the
  -- provider and the disk answer, a call is placed and a file is rendered only with a spec that is
  -- playable, the file that is rendered has a path, and a text message is sent only with a text that is
  -- not empty and at most 1024 bytes long; provided a path that is joined from a file name is not empty,
  -- and neither is that of a new temporary file.
  pub linked-IsFit :
      build site tts tone ≡ ok b
      → ((d n : Bytes) → n ≢ [] → m.env.join_path d n ≢ [])
      → ((path : Bytes) → m.create_temp ≡ ok path → path ≢ [])
      → (mode : VoiceMode) (text_mode : TextMode) (req : CallRequest)
      → All IsFit (process_page lib (linked lib Packet unmarshal write m b) mode text_mode req)
  unfolding linked
  linked-IsFit built joined named =
      process_page-IsFit lib (linked lib Packet unmarshal write m b)
        (λ p.
          (validate_iff _).0
            (ready-Plays (around lib Packet unmarshal write m b) b.speaker joined
              (build-Keeps site tts tone b built).0 m.writing m.now m.later p m.folder).0)
        named
        (λ p t h.
          render_lem (b.template p) t
            (relabelled_ok lib m.speech_error (render (b.template p)) t h))
