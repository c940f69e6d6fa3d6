-- ===== src/Tts/Speaker/Tests.antt =====
-- A speaker on a sample alert.
use tgpager.Base.{
  none, ◌≡◌, ◌≢◌, inr, refl, true, false, [], ◌∷◌, ◌++◌, some, Bytes, codes, str_eq, has_prefix,
  pos, ok, arith,
}
use tgpager.Alertmanager.{WebhookPayload}
use tgpager.Spaces.{fields, join, split_fields, strip_space}
use tgpager.Tts.Synthesizer.{Synthesizer}
use tgpager.Tts.Cache.{
  Cache, written, no_write, lookup, find_file, file_name, is_temp, entries, without, store,
}
use tgpager.Tts.Cache.Lookup.{fits}
use tgpager.Tts.Speaker.{
  render, Speaker, new_speaker, hit, miss, error, fell_back, Surroundings, speak, speech,
  synthesize_and_store,
}
use tgpager.Tts.Speaker.Again.{name, spoken_spec, speak_again}
use tgpager.Tts.Speaker.Lost.{speak_lost}

abbrev alert : WebhookPayload
alert = record {
  version = codes "4";
  group_key = codes "disk";
  status = codes "firing";
  receiver = codes "tgpager";
  group_labels = [];
  common_labels = [];
  common_annotations = [];
  external_url = [];
  alerts = [];
  truncated_alerts = pos 0;
}

abbrev around : Surroundings
around = record {
  execute = λ p. some (codes " disk\n full ");
  hash = λ t. t;
  join_path = λ d n. d ++ b'/' ∷ n;
  disk = record { lists = true; describes = λ n. true; removes = λ n. true; touches = λ n. true };
  sort = λ fs. fs;
}

abbrev voice : Synthesizer
voice = record {
  disabled = false;
  fingerprint = codes "v1";
  format = codes "mp3";
  synthesize = λ t. ok (record { audio = codes "abc"; format = codes "mp3" });
}

abbrev cache : Cache
cache = record { dir = codes "/cache"; ttl = 100; max_bytes = 10 }

abbrev speaker : Speaker
speaker = record { synth = voice; cache = cache; tone = codes "tone.wav"; repeat = pos 2 }

made : new_speaker none voice (some cache) (codes "tone.wav") (pos 2) ≡ ok speaker
unfolding new_speaker str_eq
made = refl

rendered : render (around.execute alert) ≡ ok (codes "disk full")
unfolding render fields join split_fields strip_space str_eq
rendered = refl

-- Writing the file fails, and the page plays the tone.
falls_back : (speak around speaker no_write 5 6 alert []).counts ≡ error ∷ fell_back ∷ []
unfolding speak speech synthesize_and_store render fields join split_fields strip_space str_eq
    lookup find_file store
falls_back = refl

path_filled : (d n : Bytes) → n ≢ [] → around.join_path d n ≢ []
path_filled [] n h e = ground arith
path_filled (x ∷ d) n h e = ground arith

missed : (lookup around.disk cache (name around speaker alert (codes "disk full")) 5 []).1 ≡ false
unfolding lookup find_file
missed = refl

room :
    fits around.disk cache
      (name around speaker alert (codes "disk full"))
      around.sort
      (codes "abc")
      6
      (lookup around.disk cache (name around speaker alert (codes "disk full")) 5 []).0
    ≡ true
unfolding lookup find_file entries without has_prefix str_eq file_name
room = refl

-- The same alert from another receiver.
abbrev resent : WebhookPayload
resent = record alert { receiver = codes "second" }

speak_again_example :
    let first = speak around speaker written 5 6 alert [] in
    let second = speak around speaker no_write 90 91 resent first.folder in
    (first.result ≡ spoken_spec around speaker alert (codes "disk full"))
    × (first.counts ≡ miss ∷ [])
    × (second.result ≡ spoken_spec around speaker alert (codes "disk full"))
    × (second.counts ≡ hit ∷ [])
speak_again_example =
    speak_again around speaker alert resent (codes "disk full") no_write 5 6 90 91 [] (codes "abc")
      refl rendered rendered missed refl (λ e. ground arith) refl room (inr (omega arith))

-- A speaker whose cache holds two bytes.
abbrev cramped : Speaker
cramped = record speaker { cache = record cache { max_bytes = 2 } }

abbrev cramped_name : Bytes
cramped_name = name around cramped alert (codes "disk full")

cramped_missed : (lookup around.disk cramped.cache cramped_name 5 []).1 ≡ false
unfolding lookup find_file
cramped_missed = refl

cramped_counted : is_temp around.disk cramped.cache cramped_name ≡ false
unfolding file_name has_prefix
cramped_counted = refl

speak_lost_example :
    ((speak around cramped written 5 6 alert []).result
      ≡ spoken_spec around cramped alert (codes "disk full"))
    × (find_file cramped_name (speak around cramped written 5 6 alert []).folder ≡ none)
speak_lost_example =
    speak_lost around cramped alert (codes "disk full") 5 6 [] (codes "abc")
      (record { sums = λ fs. refl; keeps = λ P fs h. h; parts = λ fs d. d }) (λ n. refl) refl
      (omega arith) tt refl cramped_counted refl rendered cramped_missed refl (omega arith)
