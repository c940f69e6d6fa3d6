-- ===== src/Tts/Preflight/Tests.antt =====
-- Preflight with a provider that warms up.
use tgpager.Base.{
  ℕ, zero, suc, ◌≡◌, refl, true, false, [], ◌∷◌, ◌++◌, none, some, codes, str_eq, pos, ok, err,
}
use tgpager.Spaces.{fields, join, split_fields, strip_space}
use tgpager.Tts.Cache.{written, lookup, find_file, store, evict}
use tgpager.Tts.Speaker.{Speaker, Surroundings, render, speech, synthesize_and_store, error, miss}
use tgpager.Tts.Preflight.{Moment, preflight, preflight_loop, preflight_attempts}
use tgpager.Tts.Preflight.Warm.{Ends, preflight-Ends}

abbrev pub around : Surroundings
around = record {
  execute = λ p. some (codes "T G pager");
  hash = λ t. t;
  join_path = λ d n. d ++ b'/' ∷ n;
  disk = record { lists = true; describes = λ n. true; removes = λ n. true; touches = λ n. true };
  sort = λ fs. fs;
}

abbrev speaker : Speaker
speaker = record {
  synth = record {
    disabled = false;
    fingerprint = codes "v1";
    format = codes "mp3";
    synthesize = λ t. err (codes "down");
  };
  cache = record { dir = codes "/cache"; ttl = 0; max_bytes = 0 };
  tone = codes "tone.wav";
  repeat = pos 2;
}

-- The first attempt times out, and the second is answered.
abbrev pub moments : ℕ → Moment
moments (suc zero) = record {
  answer = λ t. err (codes "timeout");
  writing = written;
  now = 1;
  later = 2;
  cancelled = none;
}
moments n = record {
  answer = λ t. ok (record { audio = codes "abc"; format = codes "mp3" });
  writing = written;
  now = 3;
  later = 4;
  cancelled = none;
}

warmed : (preflight around speaker moments []).counts ≡ error ∷ miss ∷ []
unfolding preflight preflight_loop speech synthesize_and_store render fields join split_fields
    strip_space str_eq lookup find_file store evict
warmed = refl

preflight-Ends_example :
    Ends around speaker moments preflight_attempts 1 none []
      (preflight around speaker moments []).result
preflight-Ends_example = preflight-Ends around speaker moments [] refl
