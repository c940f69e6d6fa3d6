-- ===== src/Main/Startup.antt =====
-- cmd/tgpager/main.go outside the page loop: the commands, and what the configuration becomes.
pub mod Checked
pub mod Configured
pub mod Run
pub mod Serves
pub mod TestMessage
pub mod Tests
use tgpager.Base.{
  ℕ, Bool, true, false, List, [], ◌∷◌, Option, none, some, Bytes, codes, ℤ, pos_part, Result, ok,
  err, ◌>>=◌, if◌then◌else◌,
}
use tgpager.Audio.Spec.{Spec}
use tgpager.Config.Modes.{calls}
use tgpager.Config.Load.{Config, TelegramConfig}
use tgpager.Strings.{wrap_text}
use tgpager.Tgcall.Client.{
  Client, ClientOption, given, with_logger, with_tracer_provider, with_meter_provider,
  with_peer_storage, with_bot_token, with_peer, with_calls, with_ring_timeout, with_connect_timeout,
  with_retry, with_voice_retry, new_client, Telegram, run_client, auth_flow, wrapped,
}
use tgpager.Main.{Deed, Parts, send_voice}
use tgpager.Tgcall.Errors.{ErrorLib}
use tgpager.Server.{Server}
use tgpager.Server.Metrics.{new_server}
use tgpager.Tts.Cache.{File}
use tgpager.Tts.Speaker.{Surroundings, Speaker, Spoken}
use tgpager.Tts.Build.{Site, BuildError, Built, build}
use tgpager.Tts.Preflight.{Moment, PreflightError, preflight, preflight_payload}

-- What the options hand on beside the configuration: the logger and the providers that `app.Run` gives,
-- and the peer cache, by their addresses.
pub record Tools : Type 0 where
  pub logger : ℕ
  pub tracer_provider : ℕ
  pub meter_provider : ℕ
  pub peer_storage : ℕ

-- The options that `run` gives the client.
abbrev pub client_options : Tools → Config → List ClientOption
client_options tools cfg =
    with_logger (given tools.logger)
    ∷ with_tracer_provider (given tools.tracer_provider)
    ∷ with_meter_provider (given tools.meter_provider)
    ∷ with_peer cfg.peer
    ∷ with_bot_token cfg.telegram.bot_token.value
    ∷ with_calls (calls cfg.voice.mode)
    ∷ with_peer_storage (given tools.peer_storage)
    ∷ with_ring_timeout cfg.call.ring_timeout
    ∷ with_connect_timeout cfg.call.connect_timeout
    ∷ with_retry cfg.call.attempts cfg.call.retry_delay
    ∷ with_voice_retry cfg.voice.attempts cfg.voice.retry_delay
    ∷ []

-- Those of `runVoice`.
abbrev pub voice_client_options : ℕ → Config → List ClientOption
voice_client_options logger cfg =
    with_logger (given logger)
    ∷ with_peer cfg.peer
    ∷ with_bot_token cfg.telegram.bot_token.value
    ∷ with_calls false
    ∷ with_voice_retry cfg.voice.attempts cfg.voice.retry_delay
    ∷ []

-- Its logger is the one for development.
abbrev pub voice_client : ℕ → Config → Client
voice_client logger cfg =
    new_client cfg.telegram.app_id cfg.telegram.app_hash.value cfg.telegram.session
      (voice_client_options logger cfg)

-- The client of `runLogin`.
abbrev pub login_client : TelegramConfig → Client
login_client tg = new_client tg.app_id tg.app_hash.value tg.session []

-- `runLogin`; it then prints where the session was written.
unfoldable pub run_login :
    (lib : ErrorLib) → Telegram lib → TelegramConfig → Result lib.Error (Unit {0})
run_login lib telegram tg =
    wrapped lib (codes "authenticate") (auth_flow lib (login_client tg) telegram)

-- What `run` puts together before it serves.
pub record Running : Type 0 where
  pub client : Client
  pub server : Server
  pub speaker : Speaker

pub data RunError : Type 0 where
  peer_cache_error : Bytes → RunError
  build_error : BuildError → RunError
  -- `server.New` panics.
  server_panics : Bytes → RunError

abbrev pub as_run : Result BuildError Built → Result RunError Built
as_run (ok b) = ok b
as_run (err e) = err (build_error e)

abbrev pub as_panic : Result Bytes Server → Result RunError Server
as_panic (ok s) = ok s
as_panic (err e) = err (server_panics e)

-- `run` up to its goroutines, for the outcome of opening the peer cache.
unfoldable pub run_up : Site → Tools → (Bytes → Option Bytes) → Config → Result RunError Running
run_up site tools open_cache cfg = elim (open_cache cfg.peer_cache) [
  | some e ↦ err (peer_cache_error e)
  | none ↦ do
    s ← as_panic (new_server site.meter (pos_part cfg.webhook.queue_size) cfg.webhook.token.value)
    b ← as_run (build site cfg.tts cfg.audio)
    ok (record {
      client =
          new_client cfg.telegram.app_id cfg.telegram.app_hash.value cfg.telegram.session
            (client_options tools cfg);
      server = s;
      speaker = b.speaker;
    })
]

-- `BuildOptions` without a meter provider.
abbrev pub unmetered : Site → Site
unmetered site = record site { meter = none }

pub data CheckError : Type 0 where
  audio_file : Bytes → CheckError
  check_build : BuildError → CheckError
  check_preflight : PreflightError → CheckError

abbrev pub as_check : Result BuildError Built → Result CheckError Built
as_check (ok b) = ok b
as_check (err e) = err (check_build e)

abbrev pub as_preflight : Result PreflightError (Unit {0}) → Result CheckError (Unit {0})
as_preflight (ok u) = ok tt
as_preflight (err e) = err (check_preflight e)

module _ (site : Site) (stat : Bytes → Option Bytes) where
  -- `runCheck`, with a logger that could be made; the template of the speaker is the one that was parsed.
  unfoldable pub run_check :
      Surroundings → (ℕ → Moment) → List File → Config → Result CheckError (Unit {0})
  run_check env moments fs cfg = elim (stat cfg.audio) [
    | some e ↦ err (audio_file e)
    | none ↦ do
      b ← as_check (build (unmetered site) cfg.tts cfg.audio)
      as_preflight (preflight (record env { execute = b.template }) b.speaker moments fs).result
  ]

-- How `runVoice` ends: the speaker is not built, the client does not start, or the message is sent, with
-- its error and its deeds.
pub data VoiceEnding (E : Type 0) : Type 0 where
  not_built : BuildError → VoiceEnding E
  not_started : E → VoiceEnding E
  left_message : Option E → List Deed → VoiceEnding E

module _ (lib : ErrorLib) (site : Site) (telegram : Telegram lib) (parts : Speaker → Parts lib)
    (logger : ℕ) where
  -- `runVoice`, with a logger that could be made, and the parts that belong to a speaker.
  unfoldable pub run_voice : Config → VoiceEnding lib.Error
  run_voice cfg = elim (build (unmetered site) cfg.tts cfg.audio) [
    | err e ↦ not_built e
    | ok b ↦ elim (run_client lib (voice_client logger cfg) telegram) [
      | err e ↦ not_started e
      | ok user ↦
          let (e, ds) =
            send_voice lib (parts b.speaker) ((parts b.speaker).speak preflight_payload) in
          left_message e ds
    ]
  ]

pub record Flags : Type 0 where
  pub login : Bool
  pub check : Bool
  pub voice : Bool

-- The parts of `main`, with the texts of their errors: `config.Load`, `runLogin`, `os.Stat`, `runVoice`
-- and `runCheck`.
pub record Program : Type 0 where
  pub load : Result Bytes Config
  pub sign_in : TelegramConfig → Option Bytes
  pub stat : Bytes → Option Bytes
  pub test_voice : Config → Option Bytes
  pub test_speech : Config → Option Bytes

-- How `main` ends: it prints an error and exits with 1, returns from one of the commands, or serves.
pub data Ending : Type 0 where
  exits_with : Bytes → Ending
  signed_in tested_voice healthy : Ending
  serves : Config → Ending

abbrev pub ends_by : Option Bytes → Ending → Ending
ends_by none done = done
ends_by (some e) done = exits_with e

-- `main` behind the audio file.
unfoldable pub choose : Flags → Program → Config → Ending
choose flags p cfg =
    if flags.voice
    then ends_by (p.test_voice cfg) tested_voice
    else if flags.check
    then ends_by (p.test_speech cfg) healthy
    else serves cfg

-- `main`.
unfoldable pub main : Flags → Program → Ending
unfolding choose
main flags p = elim p.load [
  | err e ↦ exits_with e
  | ok cfg ↦
      if flags.login then ends_by (p.sign_in cfg.telegram) signed_in else elim (p.stat cfg.audio) [
        | some e ↦ exits_with (wrap_text (codes "audio file") e)
        | none ↦ choose flags p cfg
      ]
]
