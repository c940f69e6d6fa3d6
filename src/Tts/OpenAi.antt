-- ===== src/Tts/OpenAi.antt =====
-- internal/tts/openai.go: synthesis by an OpenAI-compatible endpoint.
pub mod Contract
pub mod Fingerprints
pub mod Tests
use tgpager.Base.{
  ℕ, ◌*◌, ◌^◌, Bool, true, false, not, ◌&&◌, ◌||◌, ◌==◌, List, [], ◌∷◌, ◌++◌, Option, none, some,
  Bytes, codes, str_eq, length, take, leb, ℤ, pos, leb_ℤ, Result, ok, err, ◌>>=◌, ◌>>◌,
  if◌then◌else◌,
}
use tgpager.Spaces.{trim_space, join}
use tgpager.Strings.{wrap_text, trim_suffix}
use tgpager.Tts.Synthesizer.{Audio, Synthesizer, validated}
use tgpager.Tts.Command.{or_default, or_default_timeout}

-- `OpenAIOptions`. The speed, a float, is its shortest decimal text, and the dialect its string.
pub record OpenAiOptions : Type 0 where
  pub base_url : Bytes
  pub api_key : Bytes
  pub model : Bytes
  pub voice : Bytes
  pub format : Bytes
  pub instructions : Bytes
  pub speed : Bytes
  pub dialect : Bytes
  pub timeout : ℤ

abbrev pub dialect_openai : Bytes
dialect_openai = codes "openai"

abbrev pub dialect_openrouter : Bytes
dialect_openrouter = codes "openrouter"

abbrev pub no_speed : Bytes
no_speed = codes "0"

-- 32 MiB.
abbrev pub max_audio_bytes : ℕ
max_audio_bytes = 33554432

abbrev pub max_detail_bytes : ℕ
max_detail_bytes = 4096

abbrev pub is_dialect : Bytes → Bool
is_dialect d = str_eq d [] || str_eq d dialect_openai || str_eq d dialect_openrouter

-- `NewOpenAI`; `in_range` is the test of the speed against 0.25 and 4.
unfoldable pub new_open_ai : (Bytes → Bool) → OpenAiOptions → Result Bytes OpenAiOptions
new_open_ai in_range opts =
    if str_eq opts.model []
    then err (codes "model is required")
    else if not (is_dialect opts.dialect)
    then err (codes "unknown dialect")
    else if not (str_eq opts.speed no_speed) && not (in_range opts.speed)
    then err (codes "speed must be between 0.25 and 4.0")
    else ok (record opts {
      base_url = trim_suffix b'/' (or_default opts.base_url (codes "https://api.openai.com/v1"));
      format = or_default opts.format (codes "mp3");
      timeout = or_default_timeout opts.timeout;
      dialect = or_default opts.dialect dialect_openai;
    })

-- The fields of the fingerprint.
abbrev pub fingerprint_fields : OpenAiOptions → List Bytes
fingerprint_fields o =
    o.base_url ∷ o.model ∷ o.voice ∷ o.format ∷ o.instructions ∷ o.speed ∷ o.dialect ∷ []

unfoldable pub open_ai_fingerprint : OpenAiOptions → Bytes
open_ai_fingerprint o = join (codes "|") (codes "openai" ∷ fingerprint_fields o)

-- `speechRequest`: the instructions at the top, and those nested under the provider options, if there
-- are such options. Empty fields and a speed of 0 are left out of the JSON.
pub record SpeechRequest : Type 0 where
  pub model : Bytes
  pub input : Bytes
  pub voice : Bytes
  pub response_format : Bytes
  pub instructions : Bytes
  pub speed : Bytes
  pub provider : Option Bytes

abbrev pub plain_request : OpenAiOptions → Bytes → SpeechRequest
plain_request o text = record {
  model = o.model;
  input = text;
  voice = o.voice;
  response_format = o.format;
  instructions = [];
  speed = o.speed;
  provider = none;
}

unfoldable pub build_request : OpenAiOptions → Bytes → SpeechRequest
build_request o text =
    if str_eq o.instructions []
    then plain_request o text
    else if str_eq o.dialect dialect_openrouter
    then record (plain_request o text) { provider = some o.instructions }
    else record (plain_request o text) { instructions = o.instructions }

pub record HttpRequest : Type 0 where
  pub url : Bytes
  pub content_type : Bytes
  pub authorization : Option Bytes
  pub body : Bytes

-- A body, and the error that reading it ends with, if there is one.
pub record HttpResponse : Type 0 where
  pub status_code : ℕ
  pub status : Bytes
  pub body : Bytes
  pub broken : Option Bytes

-- `json.Marshal` of a request, the check of the URL by `http.NewRequestWithContext`, and the exchange
-- with the endpoint, each with the text of its error.
pub record Endpoint : Type 0 where
  pub marshal : SpeechRequest → Result Bytes Bytes
  pub url_error : Bytes → Option Bytes
  pub exchange : HttpRequest → Result Bytes HttpResponse

-- `io.ReadAll(io.LimitReader(body, n))`: at the limit the body is not read any further.
unfoldable pub read_limited : ℕ → HttpResponse → Result Bytes Bytes
read_limited n r =
    if leb n (length r.body)
    then ok (take n r.body)
    else elim r.broken [ none ↦ ok r.body | some e ↦ err e ]

-- The same where the error is not looked at.
abbrev pub read_detail : HttpResponse → Bytes
read_detail r = take max_detail_bytes r.body

abbrev pub wrapped_text : {A : Type 0} → Bytes → Result Bytes A → Result Bytes A
wrapped_text m (ok a) = ok a
wrapped_text m (err e) = err (wrap_text m e)

abbrev pub refused_text : Bytes → Option Bytes → Result Bytes (Unit {0})
refused_text m none = ok tt
refused_text m (some e) = err (wrap_text m e)

module _ (o : OpenAiOptions) where
  abbrev pub post : Bytes → HttpRequest
  post body = record {
    url = o.base_url ++ codes "/audio/speech";
    content_type = codes "application/json";
    authorization = if str_eq o.api_key [] then none else some (codes "Bearer " ++ o.api_key);
    body = body;
  }

  -- Behind the exchange.
  unfoldable pub receive_audio : HttpResponse → Result Bytes Audio
  receive_audio r =
      if not (r.status_code == 200)
      then err (wrap_text (wrap_text (codes "synthesize") r.status) (trim_space (read_detail r)))
      else do
        audio ← wrapped_text (codes "read audio") (read_limited max_audio_bytes r)
        validated (record { audio = audio; format = o.format })

  -- `Synthesize`.
  unfoldable pub open_ai_synthesize : Endpoint → Bytes → Result Bytes Audio
  open_ai_synthesize e text = do
    body ← wrapped_text (codes "encode request") (e.marshal (build_request o text))
    refused_text (codes "create request") (e.url_error (o.base_url ++ codes "/audio/speech"))
    r ← wrapped_text (codes "synthesize") (e.exchange (post body))
    receive_audio r

  abbrev pub open_ai_synthesizer : Endpoint → Synthesizer
  open_ai_synthesizer e = record {
    disabled = false;
    fingerprint = open_ai_fingerprint o;
    format = o.format;
    synthesize = open_ai_synthesize e;
  }
