-- ===== src/Tts/Spans/Tests.antt =====
-- The spans of the providers, on samples.
use tgpager.Base.{◌≡◌, refl, [], ◌∷◌, ◌++◌, some, none, codes, str_eq, has_prefix, pos, ok, err}
use tgpager.Strings.{includes, replace_all, lines}
use tgpager.Spaces.{trim_space, strip_all, strip_space, strip_space_back}
use tgpager.Tts.Command.{
  CommandOptions, Machine, substitute, command_synthesize, collect, last_line,
}
use tgpager.Tts.OpenAi.{OpenAiOptions, Endpoint, build_request}
use tgpager.Tts.Spans.Command.{command_span, command_span_hides}
use tgpager.Tts.Spans.OpenAi.{respond, open_ai_span, open_ai_span_hides}

abbrev spoken : CommandOptions
spoken = record {
  name = codes "say";
  args = codes "{{text}}" ∷ [];
  format = codes "wav";
  timeout = pos 10;
}

-- The same with another argument.
abbrev loud : CommandOptions
loud = record spoken { args = codes "-l" ∷ codes "{{text}}" ∷ [] }

abbrev machine : Machine
machine = record {
  make_dir = ok (codes "/tmp/d");
  join_path = λ d n. d ++ b'/' ∷ n;
  run = λ i. record {
    failure = none;
    stdout = codes "RIFF";
    stderr = [];
    file = err (codes "no such file");
  };
}

command_span_hides_example :
    command_span spoken machine (codes "disk") ≡ command_span loud machine (codes "host")
unfolding substitute includes replace_all has_prefix
command_span_hides_example =
    command_span_hides spoken loud machine (codes "disk") (codes "host") refl refl refl
      (λ dir. (refl, refl, refl))

-- A command that repeats its input on the standard error, and fails.
abbrev echoing : Machine
echoing = record machine {
  run = λ i. record {
    failure = some (codes "exit status 1");
    stdout = [];
    stderr = elim i.stdin [ none ↦ [] | some text ↦ text ];
    file = err (codes "no such file");
  };
}

-- The text is in the error that the span records.
echoed_text :
    (command_synthesize (record spoken { args = [] }) echoing (codes "host db1")).0
    ≡ err (codes "say: host db1: exit status 1")
unfolding command_synthesize collect substitute last_line lines str_eq trim_space strip_all
    strip_space strip_space_back has_prefix
echoed_text = refl

abbrev settings : OpenAiOptions
settings = record {
  base_url = codes "http://tts/v1";
  api_key = codes "k1";
  model = codes "tts-1";
  voice = codes "onyx";
  format = codes "mp3";
  instructions = [];
  speed = [];
  dialect = codes "openai";
  timeout = pos 10;
}

abbrev endpoint : Endpoint
endpoint = record {
  marshal = λ r. ok r.input;
  url_error = λ u. none;
  exchange = λ q.
      ok (record { status_code = 200; status = codes "200 OK"; body = codes "ID3"; broken = none });
}

open_ai_span_hides_example :
    open_ai_span settings endpoint (codes "disk")
    ≡ open_ai_span (record settings { api_key = codes "k2" }) endpoint (codes "host")
unfolding respond build_request str_eq
open_ai_span_hides_example =
    open_ai_span_hides settings (record settings { api_key = codes "k2" }) endpoint (codes "disk")
      (codes "host") refl refl refl
