-- ===== src/Tts/Command/Tests.antt =====
-- Commands, run on samples.
use tgpager.Base.{
  ◌≡◌, refl, true, false, List, [], ◌∷◌, ◌++◌, none, codes, str_eq, has_prefix, pos, ok, err, arith,
}
use tgpager.Spaces.{trim_space, strip_all, strip_space, strip_space_back}
use tgpager.Strings.{includes, replace_all, lines}
use tgpager.Tts.Synthesizer.{validated}
use tgpager.Tts.Command.{
  CommandOptions, substitute, Machine, command_synthesize, collect, last_line,
}
use tgpager.Tts.Command.Placeholders.{
  Arg, plain, with_text, with_output, spelled_all, substitute_diverted,
}

-- piper --output_file {{output}}, with the text on the standard input.
abbrev piper : List Arg
piper = plain (codes "--output_file") ∷ with_output [] [] ∷ []

-- espeak-ng --stdout {{text}}.
abbrev espeak : List Arg
espeak = plain (codes "--stdout") ∷ with_text [] [] ∷ []

abbrev machine : Machine
machine = record {
  make_dir = ok (codes "/tmp/d");
  join_path = λ d n. d ++ b'/' ∷ n;
  run = λ i. record {
    failure = none;
    stdout = codes "RIFF";
    stderr = [];
    file = err (codes "no such file");
  };
}

abbrev speak_command : CommandOptions
speak_command = record {
  name = codes "espeak-ng";
  args = spelled_all espeak;
  format = codes "wav";
  timeout = pos 10;
}

substitute_sample :
    substitute (codes "disk full") (codes "/tmp/d/speech.wav") (spelled_all piper) ≡ record {
      args = codes "--output_file" ∷ codes "/tmp/d/speech.wav" ∷ [];
      wants_text = false;
      wants_file = true;
    }
unfolding substitute includes replace_all has_prefix
substitute_sample = refl

-- The same command fails on a text with the output placeholder.
diverted_sample :
    (command_synthesize speak_command machine (codes "{{output}}")).0
    ≡ err (codes "read command output: no such file")
unfolding command_synthesize collect substitute includes replace_all has_prefix
diverted_sample = refl

spoken_sample :
    (command_synthesize speak_command machine (codes "disk full")).0
    ≡ ok (record { audio = codes "RIFF"; format = codes "wav" })
unfolding command_synthesize collect substitute includes replace_all has_prefix validated str_eq
spoken_sample = refl

last_line_sample : last_line (codes "loading\nno voice \n\n") ≡ codes "no voice"
unfolding last_line lines trim_space strip_all strip_space strip_space_back str_eq
last_line_sample = refl

placeholder_in_text : includes (codes "{{output}}") (codes "{{output}}") ≡ true
unfolding includes has_prefix
placeholder_in_text = refl

substitute_diverted_example :
    (substitute (codes "{{output}}") (codes "/tmp/d/speech.wav") (spelled_all espeak)).wants_file
    ≡ true
substitute_diverted_example =
    substitute_diverted (codes "{{output}}") (codes "/tmp/d/speech.wav") espeak (omega arith) refl
      placeholder_in_text
