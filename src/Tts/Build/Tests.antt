-- ===== src/Tts/Build/Tests.antt =====
-- Speakers, built from sample configurations.
use tgpager.Base.{◌≡◌, refl, true, [], ◌∷◌, ◌++◌, none, some, codes, str_eq, pos, ok, err}
use tgpager.Config.Load.{Config, Tts}
use tgpager.Config.Schema.{
  admits, telegram_admits, webhook_admits, call_admits, command_admits, provider_admits,
  cache_admits, tts_admits, voice_admits, config_defaults, tts_defaults, command_defaults,
  no_secret,
}
use tgpager.Tts.Command.{new_command, command_synthesizer}
use tgpager.Tts.Synthesizer.{disabled_synthesizer}
use tgpager.Tts.Cache.{new_cache_with}
use tgpager.Tts.Speaker.{new_speaker}
use tgpager.Tts.Build.{Site, Built, build, new_template, new_synthesizer}

abbrev pub site : Site
site = record {
  in_range = λ s. true;
  endpoint = record {
    marshal = λ r. ok [];
    url_error = λ u. none;
    exchange = λ q. err (codes "connection refused");
  };
  machine = record {
    make_dir = ok (codes "/tmp/d");
    join_path = λ d n. d ++ b'/' ∷ n;
    run = λ i. record { failure = none; stdout = codes "RIFF"; stderr = []; file = ok [] };
  };
  makes_dir = true;
  parse = λ t. some (λ p. some (codes "alert"));
  meter = none;
}

abbrev pub local_speech : Tts
local_speech =
    tts_defaults (record { open_ai = none; command = some (command_defaults (codes "piper")) })

abbrev pub config : Config
config = record (config_defaults (pos 1) no_secret (codes "@oncall") (codes "tone.wav")) {
  tts = some local_speech;
}

-- The defaults are admitted, with the fields given that have none.
config_admitted : admits site.in_range config ≡ true
unfolding admits telegram_admits webhook_admits call_admits provider_admits command_admits
    cache_admits tts_admits voice_admits str_eq
config_admitted = refl

abbrev silent : Built
silent = record {
  speaker = record {
    synth = disabled_synthesizer;
    cache = record { dir = []; ttl = 0; max_bytes = 0 };
    tone = codes "tone.wav";
    repeat = pos 1;
  };
  template = λ p. some (codes "alert");
}

-- Without a tts section the tone is played alone.
tone_alone : build site none (codes "tone.wav") ≡ ok silent
unfolding build new_template new_speaker str_eq
tone_alone = refl

abbrev pub spoken : Built
spoken = record {
  speaker = record {
    synth =
        command_synthesizer
          (record {
            name = codes "piper";
            args = [];
            format = codes "wav";
            timeout = pos 10000000000;
          })
          site.machine;
    cache = record { dir = codes "tts-cache"; ttl = 2592000000000000; max_bytes = 268435456 };
    tone = codes "tone.wav";
    repeat = pos 3;
  };
  template = λ p. some (codes "alert");
}

pub piper_built : build site (some local_speech) (codes "tone.wav") ≡ ok spoken
unfolding build new_template new_synthesizer new_command new_cache_with new_speaker str_eq
piper_built = refl
