-- ===== src/Main/Startup/Checked/Tests.antt =====
-- A check whose provider answers at the second attempt.
use tgpager.Base.{
  ℕ, ◌≡◌, ◌∷◌, err, false, codes, refl, true, ◌⊎◌, Option, none, Bytes, ok, str_eq, [],
}
use tgpager.Spaces.{fields, join}
use tgpager.Tts.Build.{Built, build}
use tgpager.Tts.Build.Promises.{Keeps}
use tgpager.Tts.Build.Tests.{site, config, spoken, piper_built}
use tgpager.Tts.Command.{new_command, command_fingerprint}
use tgpager.Tts.Cache.{File, written, file_name, new_cache_with, lookup, find_file, store}
use tgpager.Tts.Speaker.{name_of, hit, new_speaker, render, speech}
use tgpager.Tts.Preflight.{Moment, preflight}
use tgpager.Tts.Preflight.Tests.{around, moments}
use tgpager.Main.Startup.{unmetered, run_check}
use tgpager.Main.Startup.Checked.{HasSpoken, run_check-Shows}
use tgpager.Main.Startup.Checked.Cached.{run_check_cached}

abbrev found : Bytes → Option Bytes
found path = none

checks_out : run_check site found around moments [] config ≡ ok tt
unfolding run_check build new_command str_eq new_cache_with new_speaker preflight speech render join
    fields lookup find_file store
checks_out = refl

run_check-Shows_example :
    (found config.audio ≡ none)
    × (b : Built) × (build (unmetered site) config.tts config.audio ≡ ok b)
    × Keeps b.speaker
    × ((b.speaker.synth.disabled ≡ true) ⊎ HasSpoken around moments [] b)
run_check-Shows_example = run_check-Shows site found around moments [] config checks_out

-- The sample alert was spoken by an earlier start, and the provider is down by now.
abbrev spoken_before : File
spoken_before = record {
  name =
      name_of (record around { execute = spoken.template }) spoken.speaker (codes "alert")
        (codes "wav");
  is_dir = false;
  size = 3;
  audio = codes "abc";
  used = 1;
}

abbrev outage : ℕ → Moment
outage n = record {
  answer = λ t. err (codes "connection refused");
  writing = written;
  now = 2;
  later = 3;
  cancelled = none;
}

run_check_cached_example :
    (run_check site found around outage (spoken_before ∷ []) config ≡ ok tt)
    × ((preflight
          (record around { execute = spoken.template })
          spoken.speaker
          outage
          (spoken_before ∷ [])).counts
        ≡ hit ∷ [])
unfolding str_eq render join fields lookup find_file file_name command_fingerprint
run_check_cached_example =
    run_check_cached site found around outage (spoken_before ∷ []) config spoken (codes "alert")
      refl piper_built refl refl refl
