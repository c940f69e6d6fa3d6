-- ===== src/Main/Startup/Tests.antt =====
-- The program with a sample configuration.
use mathlib.Core.Path.{subst}
use tgpager.Base.{
  ok_unique, Result, pos, ◌≡◌, refl, true, false, [], ◌∷◌, ◌++◌, none, some, Option, Bytes, codes,
  str_eq, ok, err,
}
use tgpager.Config.Secrets.{Os, resolve}
use tgpager.Config.Load.{Config, Tts, resolve_provider, resolve_secrets, load, resolve_tts, enforce}
use tgpager.Config.Schema.{
  admits, telegram_admits, webhook_admits, call_admits, voice_admits, tts_admits, provider_admits,
  command_admits, cache_admits, config_defaults,
}
use tgpager.Tgcall.Call.{input_user}
use tgpager.Tgcall.Sample.{failures}
use tgpager.Telemetry.{noop}
use tgpager.Tgcall.Client.{User, Telegram}
use tgpager.Tts.Speaker.{Speaker}
use tgpager.Main.{Parts}
use tgpager.Tts.Build.{Site}
use tgpager.Main.Startup.{Running, Tools, Flags, Program, run_up}
use tgpager.Main.Startup.Configured.{Configured, load-Configured}

abbrev site : Site
site = record {
  in_range = λ s. true;
  endpoint = record {
    marshal = λ r. ok [];
    url_error = λ u. none;
    exchange = λ q. err (codes "refused");
  };
  machine = record {
    make_dir = err (codes "full");
    join_path = λ d n. d ++ n;
    run = λ i. record { failure = none; stdout = []; stderr = []; file = ok [] };
  };
  makes_dir = true;
  parse = λ t. some (λ p. some (codes "alert"));
  meter = none;
}

abbrev no_files : Os
no_files = record { getenv = λ n. []; read_file = λ p. none; join = λ d f. d ++ f; clean = λ p. p }

abbrev opens : Bytes → Option Bytes
opens path = none

abbrev local_speech : Tts
local_speech = record {
  provider = record {
    open_ai = none;
    command = some (record {
      name = codes "espeak-ng";
      args = codes "--stdout" ∷ [];
      output_format = codes "wav";
    });
  };
  template = [];
  cache = record { dir = codes "/var/cache"; ttl = pos 0; max_bytes = pos 1000 };
  repeat = pos 3;
  timeout = pos 10000000000;
}

abbrev config : Config
config =
    record (config_defaults (pos 17) (record { value = codes "hash"; env = []; file = [] })
      (codes "@oncall") (codes "tone.wav")) { tts = some local_speech }

config_admitted : admits site.in_range config ≡ true
unfolding admits telegram_admits webhook_admits call_admits voice_admits tts_admits provider_admits
    command_admits cache_admits str_eq
config_admitted = refl

abbrev decode : Bytes → Result Bytes Config
decode path = ok config

abbrev tools : Tools
tools = record { logger = 1; tracer_provider = 2; meter_provider = 3; peer_storage = 4 }

abbrev dir : Bytes → Bytes
dir path = codes "/etc"

config_loads : load decode dir no_files (codes "/etc/tgpager.yml") ≡ ok config
unfolding load resolve_secrets resolve resolve_tts resolve_provider enforce str_eq
config_loads = refl

load-Configured_example :
    (r : Running) × (run_up site tools opens config ≡ ok r) × Configured site tools config r
load-Configured_example =
    load-Configured decode dir no_files (codes "/etc/tgpager.yml") site tools opens config
      (λ c e.
        subst (λ d. admits site.in_range d ≡ true)
          (ok_unique (decode (codes "/etc/tgpager.yml")) refl e) config_admitted)
      config_loads refl refl (λ m i. refl) refl

abbrev program : Program
program = record {
  load = ok config;
  sign_in = λ t. none;
  stat = λ f. none;
  test_voice = λ c. none;
  test_speech = λ c. some (codes "down");
}

abbrev no_flags : Flags
no_flags = record { login = false; check = false; voice = false }

abbrev oncall : User
oncall = record { is_bot = false; is_self = false; input = input_user (pos 42) (pos 9) }

abbrev answers : Telegram failures
answers = record {
  meters = λ n. noop;
  status_authorized = ok true;
  sign_in_bot = ok tt;
  sign_in_user = ok tt;
  status_is_bot = ok (some true);
  resolve_phone = λ p. ok oncall;
  resolve_user_id = λ i. ok oncall;
  resolve_domain = λ d. ok (some oncall);
  resolve_deeplink = λ l. ok none;
}

abbrev parts : Speaker → Parts failures
parts s = record {
  speak = λ p. record { segments = s.tone ∷ []; repeat = s.repeat };
  ring = λ spec. none;
  create_temp = ok (codes "/tmp/v.ogg");
  close_temp = none;
  remove = λ p. none;
  render = λ spec path. none;
  ogg_duration = λ path. ok (pos 2000000000);
  send_voice = λ path d. none;
  text = λ p. ok (codes "text");
  send_text = λ t. none;
}
