-- ===== src/Config/Schema.antt =====
-- The descriptors of config.go: the values that each section admits, and the defaults. Durations are
-- nanoseconds.
use tgpager.Base.{
  ℕ, ◌*◌, Bool, true, false, not, ◌&&◌, [], none, some, Bytes, codes, str_eq, ℤ, pos, leb_ℤ,
}
use tgpager.Config.Modes.{voice_off, text_fallback}
use tgpager.Config.Secrets.{Secret}
use tgpager.Config.Load.{
  TelegramConfig, CallConfig, WebhookConfig, dialect_open_ai, OpenAiTts, CommandTts, TtsProvider,
  TtsCache, Tts, Voice, Config,
}

-- `InRange`, `AtLeast` and `NonEmpty`.
abbrev pub between : ℕ → ℕ → ℤ → Bool
between lo hi v = leb_ℤ (pos lo) v && leb_ℤ v (pos hi)

abbrev pub at_least : ℕ → ℤ → Bool
at_least lo v = leb_ℤ (pos lo) v

abbrev pub non_empty : Bytes → Bool
non_empty s = not (str_eq s [])

abbrev pub one_second : ℕ
one_second = 1000000000

unfoldable pub telegram_admits : TelegramConfig → Bool
telegram_admits c = between 1 2147483647 c.app_id && non_empty c.session

unfoldable pub call_admits : CallConfig → Bool
call_admits c =
    at_least one_second c.ring_timeout
    && (at_least one_second c.connect_timeout
        && (between 1 100 c.attempts && at_least 0 c.retry_delay))

unfoldable pub webhook_admits : WebhookConfig → Bool
webhook_admits c = non_empty c.addr && between 1 10000 c.queue_size

-- The speed is a float: `in_range` is its test against 0.25 and 4.
unfoldable pub open_ai_admits : (Bytes → Bool) → OpenAiTts → Bool
open_ai_admits in_range c =
    non_empty c.base_url
    && (non_empty c.model
        && (non_empty c.format && elim c.speed [ none ↦ true | some s ↦ in_range s ]))

unfoldable pub command_admits : CommandTts → Bool
command_admits c = non_empty c.name && non_empty c.output_format

unfoldable pub cache_admits : TtsCache → Bool
cache_admits c = non_empty c.dir && (at_least 0 c.ttl && at_least 0 c.max_bytes)

-- `OneOf`: exactly one variant is set.
unfoldable pub provider_admits : (Bytes → Bool) → TtsProvider → Bool
unfolding open_ai_admits command_admits
provider_admits in_range p = elim p.open_ai [
  | some o ↦ open_ai_admits in_range o && elim p.command [ none ↦ true | some c ↦ false ]
  | none ↦ elim p.command [ none ↦ false | some c ↦ command_admits c ]
]

unfoldable pub tts_admits : (Bytes → Bool) → Tts → Bool
unfolding provider_admits cache_admits
tts_admits in_range c =
    provider_admits in_range c.provider
    && (cache_admits c.cache && (between 1 10 c.repeat && at_least one_second c.timeout))

unfoldable pub voice_admits : Voice → Bool
voice_admits c =
    at_least one_second c.timeout && (between 1 100 c.attempts && at_least 0 c.retry_delay)

-- `Descriptor`.
unfoldable pub admits : (Bytes → Bool) → Config → Bool
unfolding telegram_admits webhook_admits call_admits tts_admits voice_admits
admits in_range c =
    telegram_admits c.telegram
    && (webhook_admits c.webhook
        && (call_admits c.call
            && (elim c.tts [ none ↦ true | some t ↦ tts_admits in_range t ]
                && (voice_admits c.voice
                    && (non_empty c.peer && (non_empty c.audio && non_empty c.peer_cache))))))

abbrev pub no_secret : Secret
no_secret = record { value = []; env = []; file = [] }

-- The defaults of the fields that have one.
abbrev pub call_defaults : CallConfig
call_defaults = record {
  ring_timeout = pos (45 * one_second);
  connect_timeout = pos (30 * one_second);
  attempts = pos 3;
  retry_delay = pos (10 * one_second);
}

abbrev pub webhook_defaults : WebhookConfig
webhook_defaults = record { addr = codes ":8080"; token = no_secret; queue_size = pos 100 }

-- The model must be given.
abbrev pub open_ai_defaults : Bytes → OpenAiTts
open_ai_defaults model = record {
  base_url = codes "https://api.openai.com/v1";
  api_key = no_secret;
  model = model;
  voice = codes "alloy";
  format = codes "mp3";
  instructions = [];
  speed = none;
  dialect = dialect_open_ai;
}

-- The name must be given.
abbrev pub command_defaults : Bytes → CommandTts
command_defaults name = record { name = name; args = []; output_format = codes "wav" }

abbrev pub cache_defaults : TtsCache
cache_defaults = record {
  dir = codes "tts-cache";
  ttl = pos (2592000 * one_second);
  max_bytes = pos 268435456;
}

abbrev pub tts_defaults : TtsProvider → Tts
tts_defaults p = record {
  provider = p;
  template = [];
  cache = cache_defaults;
  repeat = pos 3;
  timeout = pos (10 * one_second);
}

abbrev pub voice_defaults : Voice
voice_defaults = record {
  mode = voice_off;
  text = text_fallback;
  timeout = pos (60 * one_second);
  attempts = pos 3;
  retry_delay = pos (2 * one_second);
}

-- The application, the peer and the audio must be given.
abbrev pub config_defaults : ℤ → Secret → Bytes → Bytes → Config
config_defaults app_id app_hash peer audio = record {
  telegram = record {
    app_id = app_id;
    app_hash = app_hash;
    bot_token = no_secret;
    session = codes "session.json";
  };
  webhook = webhook_defaults;
  call = call_defaults;
  tts = none;
  voice = voice_defaults;
  peer = peer;
  audio = audio;
  peer_cache = codes "peers.bolt";
  debug = false;
}
