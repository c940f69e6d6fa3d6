-- ===== src/Config/Tests.antt =====
-- Credentials and configurations, resolved against a sample system.
use tgpager.Base.{
  ◌≡◌, ◌++◌, refl, false, [], ◌∷◌, none, some, Bytes, codes, str_eq, has_prefix, pos, ok, err,
  if◌then◌else◌,
}
use tgpager.Config.Modes.{voice_off, text_fallback, calls}
use tgpager.Config.Secrets.{Secret, Os, plain, secret_path, resolve, trim_newlines}
use tgpager.Config.Load.{Config, bot_cannot_call, resolve_secrets, resolve_tts, enforce}

abbrev system : Os
system = record {
  getenv = λ v. if str_eq v (codes "APP_HASH") then codes "0123" else [];
  read_file =
      λ p. if str_eq p (codes "/etc/tgpager/token") then some (codes "secret\r\n") else none;
  join = λ d p. d ++ b'/' ∷ p;
  clean = λ p. p;
}

abbrev dir : Bytes
dir = codes "/etc/tgpager"

abbrev from_env : Bytes → Secret
from_env v = record { value = []; env = v; file = [] }

abbrev from_file : Bytes → Secret
from_file p = record { value = []; env = []; file = p }

token_read : resolve system dir (from_file (codes "token")) ≡ ok (plain system dir (codes "secret"))
unfolding resolve str_eq has_prefix trim_newlines
token_read = refl

found : system.read_file (secret_path system dir (codes "token")) ≡ some (codes "secret\r\n")
unfolding str_eq has_prefix
found = refl

abbrev given : Config
given = record {
  telegram = record {
    app_id = pos 1;
    app_hash = from_env (codes "APP_HASH");
    bot_token = from_env [];
    session = codes "session.json";
  };
  webhook = record { addr = codes ":8080"; token = from_file (codes "token"); queue_size = pos 16 };
  call = record {
    ring_timeout = pos 45;
    connect_timeout = pos 30;
    attempts = pos 3;
    retry_delay = pos 10;
  };
  tts = none;
  voice = record {
    mode = voice_off;
    text = text_fallback;
    timeout = pos 60;
    attempts = pos 3;
    retry_delay = pos 2;
  };
  peer = codes "@oncall";
  audio = codes "alert.ogg";
  peer_cache = codes "peers.bbolt";
  debug = false;
}

abbrev loaded : Config
loaded = record given {
  telegram = record (given.telegram) { app_hash = plain system dir (codes "0123") };
  webhook = record (given.webhook) { token = plain system dir (codes "secret") };
}

load_sample : resolve_secrets system dir given ≡ ok loaded
unfolding resolve_secrets resolve_tts enforce resolve str_eq has_prefix trim_newlines
load_sample = refl

-- A bot token does not go with a mode that places calls.
load_sample_bot :
    resolve_secrets system dir (record given {
      telegram = record (given.telegram) { bot_token = plain system dir (codes "1:a") };
    })
    ≡ err bot_cannot_call
unfolding resolve_secrets resolve_tts enforce resolve str_eq has_prefix trim_newlines calls
load_sample_bot = refl
