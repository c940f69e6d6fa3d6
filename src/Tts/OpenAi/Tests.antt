-- ===== src/Tts/OpenAi/Tests.antt =====
-- An endpoint, on samples.
use tgpager.Base.{◌≡◌, refl, false, [], ◌∷◌, none, some, codes, str_eq, pos, ok, arith}
use tgpager.Strings.{trim_suffix}
use tgpager.Tts.Synthesizer.{validated}
use tgpager.Tts.Command.{CommandOptions}
use tgpager.Tts.OpenAi.{
  OpenAiOptions, new_open_ai, open_ai_synthesize, build_request, plain_request, HttpResponse,
  Endpoint, receive_audio, read_limited,
}
use tgpager.Tts.OpenAi.Fingerprints.{SoundsAlike, open_ai_fingerprint_unique}

abbrev given : OpenAiOptions
given = record {
  base_url = codes "https://openrouter.ai/api/v1/";
  api_key = codes "k";
  model = codes "tts";
  voice = codes "alloy";
  format = [];
  instructions = codes "Speak urgently";
  speed = codes "0";
  dialect = codes "openrouter";
  timeout = pos 0;
}

abbrev made : OpenAiOptions
made = record given {
  base_url = codes "https://openrouter.ai/api/v1";
  format = codes "mp3";
  timeout = pos 10000000000;
}

new_sample : new_open_ai (λ s. false) given ≡ ok made
unfolding new_open_ai str_eq trim_suffix
new_sample = refl

nested_instructions :
    build_request made (codes "disk full")
    ≡ record (plain_request made (codes "disk full")) { provider = some (codes "Speak urgently") }
unfolding build_request str_eq
nested_instructions = refl

abbrev answer : HttpResponse
answer = record { status_code = 200; status = codes "200 OK"; body = codes "ID3"; broken = none }

abbrev endpoint : Endpoint
endpoint = record { marshal = λ r. ok r.input; url_error = λ u. none; exchange = λ q. ok answer }

spoken :
    open_ai_synthesize made endpoint (codes "disk full")
    ≡ ok (record { audio = codes "ID3"; format = codes "mp3" })
unfolding open_ai_synthesize receive_audio read_limited validated str_eq
spoken = refl

-- Instructions may have bars.
abbrev barred : OpenAiOptions
barred = record made { instructions = codes "Calm|clear" }

open_ai_fingerprint_unique_example : SoundsAlike barred barred
open_ai_fingerprint_unique_example =
    open_ai_fingerprint_unique barred barred (omega arith) (omega arith) refl

abbrev say : CommandOptions
say = record { name = codes "say"; args = codes "-o" ∷ []; format = codes "wav"; timeout = pos 1 }
