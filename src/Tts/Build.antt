-- ===== src/Tts/Build.antt =====
-- internal/tts/build.go, and NewTemplate of template.go: the speaker that a configuration describes.
pub mod Promises
pub mod Settings
pub mod Succeeds
pub mod Tests
use tgpager.Base.{
  Bool, true, false, List, [], ◌∷◌, ◌++◌, Option, none, some, Bytes, codes, str_eq, ℤ, pos, Result,
  ok, err, ◌>>=◌, if◌then◌else◌,
}
use tgpager.Alertmanager.{WebhookPayload}
use tgpager.Config.Load.{
  TtsDialect, dialect_open_ai, dialect_open_router, OpenAiTts, CommandTts, TtsProvider, TtsCache,
  Tts,
}
use tgpager.Spaces.{trim_space}
use tgpager.Tts.Synthesizer.{Synthesizer, disabled_synthesizer}
use tgpager.Tts.Command.{CommandOptions, Machine, new_command, command_synthesizer}
use tgpager.Tts.OpenAi.{
  OpenAiOptions, Endpoint, new_open_ai, open_ai_synthesizer, dialect_openai, dialect_openrouter,
  no_speed,
}
use tgpager.Tts.Cache.{CacheError, Cache, new_cache_with}
use tgpager.Telemetry.{MeterProvider}
use tgpager.Tts.Speaker.{Speaker, SpeakerError, new_speaker}

-- A parsed template: the text that it gives for an alert, if it executes.
abbrev pub Template : Type 0
Template = WebhookPayload → Option Bytes

abbrev pub default_template : Bytes
default_template =
    codes "{{ .Status }} alert."
    ++ (codes "{{ with .CommonLabels.alertname }} {{ . }}.{{ end }}"
        ++ (codes "{{ with .CommonLabels.severity }} Severity {{ . }}.{{ end }}"
            ++ codes "{{ with .CommonAnnotations.summary }} {{ . }}{{ end }}"))

-- What is around a build: the test of a speed, the endpoint and the machine that providers use, whether
-- `os.MkdirAll` makes the cache directory, and the parser of templates.
pub record Site : Type 0 where
  pub in_range : Bytes → Bool
  pub endpoint : Endpoint
  pub machine : Machine
  pub makes_dir : Bool
  pub parse : Bytes → Option Template
  -- `BuildOptions.MeterProvider`; an error by its text.
  pub meter : Option (MeterProvider Bytes)

pub data BuildError : Type 0 where
  provider_error : Bytes → BuildError
  no_provider : BuildError
  cache_error : CacheError → BuildError
  bad_template : BuildError
  speaker_error : SpeakerError → BuildError

pub record Built : Type 0 where
  pub speaker : Speaker
  pub template : Template

abbrev pub dialect_text : TtsDialect → Bytes
dialect_text dialect_open_ai = dialect_openai
dialect_text dialect_open_router = dialect_openrouter

abbrev pub speed_text : Option Bytes → Bytes
speed_text none = no_speed
speed_text (some s) = s

abbrev pub as_provider : {A : Type 0} → Result Bytes A → Result BuildError A
as_provider (ok a) = ok a
as_provider (err e) = err (provider_error e)

abbrev pub as_cache : Result CacheError Cache → Result BuildError Cache
as_cache (ok a) = ok a
as_cache (err e) = err (cache_error e)

abbrev pub as_speaker : Result SpeakerError Speaker → Result BuildError Speaker
as_speaker (ok a) = ok a
as_speaker (err e) = err (speaker_error e)

abbrev pub open_ai_options : OpenAiTts → ℤ → OpenAiOptions
open_ai_options p timeout = record {
  base_url = p.base_url;
  api_key = p.api_key.value;
  model = p.model;
  voice = p.voice;
  format = p.format;
  instructions = p.instructions;
  speed = speed_text p.speed;
  dialect = dialect_text p.dialect;
  timeout = timeout;
}

abbrev pub command_options : CommandTts → ℤ → CommandOptions
command_options p timeout = record {
  name = p.name;
  args = p.args;
  format = p.output_format;
  timeout = timeout;
}

module _ (site : Site) where
  unfoldable pub new_template : Bytes → Result BuildError Template
  new_template text =
      elim (site.parse (if str_eq (trim_space text) [] then default_template else text)) [
        | none ↦ err bad_template
        | some t ↦ ok t
      ]

  unfoldable pub new_synthesizer : Tts → Result BuildError Synthesizer
  new_synthesizer cfg = elim cfg.provider.open_ai [
    | some p ↦ do
      o ← as_provider (new_open_ai site.in_range (open_ai_options p cfg.timeout))
      ok (open_ai_synthesizer o site.endpoint)
    | none ↦ elim cfg.provider.command [
      | some p ↦ do
        c ← as_provider (new_command (command_options p cfg.timeout))
        ok (command_synthesizer c site.machine)
      | none ↦ err no_provider
    ]
  ]

  -- `Build`; `NewSpeaker` makes the default template where none is given.
  unfoldable pub build : Option Tts → Bytes → Result BuildError Built
  unfolding new_template new_synthesizer
  build none tone = do
    s ← as_speaker (new_speaker site.meter disabled_synthesizer none tone (pos 1))
    t ← new_template []
    ok (record { speaker = s; template = t })
  build (some cfg) tone = do
    synth ← new_synthesizer cfg
    cache ← as_cache (new_cache_with site.makes_dir cfg.cache.dir cfg.cache.ttl cfg.cache.max_bytes)
    t ← new_template cfg.template
    s ← as_speaker (new_speaker site.meter synth (some cache) tone cfg.repeat)
    ok (record { speaker = s; template = t })
