-- ===== src/Main/Linked.antt =====
-- The parts that `run` of cmd/tgpager/main.go gives to processPage: the speaker that was built, the client,
-- ffmpeg and the reader of recordings.
pub mod WellCalled
pub mod Heard
pub mod Tests
use tgpager.Base.{◌≢◌, refl, ℕ, Option, none, some, List, Bytes, Result, ok, err, ℤ, pos_part}
use tgpager.Alertmanager.{WebhookPayload}
use tgpager.Audio.Ogg.{OggFile, OggError, ogg_duration}
use tgpager.Audio.Spec.{Spec}
use tgpager.Audio.Stream.{FfmpegError, render_spec, Meeting, stream}
use tgpager.Tgcall.Errors.{ErrorLib}
use tgpager.Tgcall.Call.{InputUser, Ringing}
use tgpager.Tgcall.Call
use tgpager.Tgcall.Client.{Client}
use tgpager.Tgcall.Message.{Sending, Texting}
use tgpager.Tgcall.Message
use tgpager.Tts.Cache.{File, Writing}
use tgpager.Tts.Speaker.{SpeechError, Surroundings, render, speak}
use tgpager.Tts.Build.{Built}
use tgpager.Main.{Parts}

-- What there is, where there is something.
abbrev pub result_of : {A : Type 0} → (o : Option A) → o ≢ none → A
result_of none h = absurd (h refl)
result_of (some a) h = a

module _ (lib : ErrorLib) where
  open lib use {Error}

  abbrev pub failure {ℓ} : {E : Type 0} {A : Type ℓ} → (E → Error) → Result E A → Option Error
  failure as' (ok a) = none
  failure as' (err e) = some (as' e)

  abbrev pub relabelled : {E A : Type 0} → (E → Error) → Result E A → Result Error A
  relabelled as' (ok a) = ok a
  relabelled as' (err e) = err (as' e)

module _ (lib : ErrorLib) (Packet : Type 0) (unmarshal : Bytes → Result Bytes Packet)
    (write : Packet → Option Bytes) where
  open lib use {Error}

  -- What a page meets: the client with its resolved peer, how the tries of a call, of a message and of a
  -- text go, the stream in each try of a call, which returns at some time, the calls of os, the runs of
  -- ffmpeg, the recordings by their paths, and the errors of the other parts as errors of the program.
  pub record Meets : Type 0 where
    pub client : Client
    pub peer : Option InputUser
    pub rings : ℕ → Ringing lib
    pub streams : ℕ → Meeting Packet unmarshal write
    pub returns : (n : ℕ) (spec : Spec) → (stream Packet unmarshal write (streams n) spec).0 ≢ none
    pub sends : ℕ → Sending lib
    pub texting : ℕ → Texting lib
    pub limit : ℕ
    pub size : Bytes → Result Error ℕ
    pub env : Surroundings
    pub writing : Writing
    pub now : ℕ
    pub later : ℕ
    pub folder : List File
    pub create_temp : Result Error Bytes
    pub close_temp : Option Error
    pub remove : Bytes → Option Error
    pub run : List Bytes → Option Bytes × Bytes
    pub recording : Bytes → OggFile
    pub ffmpeg_error : FfmpegError → Error
    pub ogg_error : OggError → Error
    pub speech_error : SpeechError → Error

  module _ (m : Meets) (b : Built) where
    -- The template that is executed is the one that was parsed.
    abbrev pub around : Surroundings
    around = record (m.env) { execute = b.template }

    -- The callback of a try: the stream of the spec.
    abbrev pub streaming : Spec → ℕ → Option Error
    streaming spec n =
        failure lib m.ffmpeg_error
          (result_of (stream Packet unmarshal write (m.streams n) spec).0 (m.returns n spec))

    -- The tries of a call that plays the spec.
    abbrev pub rings_with : Spec → ℕ → Ringing lib
    rings_with spec n = record (m.rings n) {
      attempt = record ((m.rings n).attempt) { play = streaming spec n };
    }

    unfoldable pub linked : Parts lib
    linked = record {
      speak = λ p. (speak around b.speaker m.writing m.now m.later p m.folder).result;
      ring = λ spec.
          (Call.ring lib m.peer (rings_with spec) (pos_part m.client.attempts)
            m.client.retry_delay).0;
      create_temp = m.create_temp;
      close_temp = m.close_temp;
      remove = m.remove;
      render = λ spec path. failure lib m.ffmpeg_error (render_spec m.run spec path).0;
      ogg_duration = λ path. relabelled lib m.ogg_error (ogg_duration (m.recording path));
      send_voice = λ path d.
          (Message.send_voice lib m.limit m.peer (m.size path) m.sends
            (pos_part m.client.voice_attempts) m.client.voice_retry_delay).error;
      text = λ p. relabelled lib m.speech_error (render (b.template p));
      send_text = λ t.
          (Message.send_text lib m.peer t m.texting (pos_part m.client.voice_attempts)
            m.client.voice_retry_delay).error;
    }
