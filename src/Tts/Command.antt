-- ===== src/Tts/Command.antt =====
-- internal/tts/command.go: synthesis by a local executable.
pub mod Placeholders
pub mod Contract
pub mod Tests
use tgpager.Base.{
  ℕ, Bool, true, false, ◌||◌, List, [], ◌∷◌, ◌++◌, Option, none, some, Bytes, codes, str_eq, ℤ, pos,
  leb_ℤ, Result, ok, err, if◌then◌else◌,
}
use tgpager.Spaces.{trim_space, join}
use tgpager.Strings.{wrap_text, includes, replace_all, lines}
use tgpager.Tts.Synthesizer.{Audio, Synthesizer, validated}

pub record CommandOptions : Type 0 where
  pub name : Bytes
  pub args : List Bytes
  pub format : Bytes
  pub timeout : ℤ

-- In nanoseconds.
abbrev pub default_timeout : ℤ
default_timeout = pos 10000000000

abbrev pub text_placeholder : Bytes
text_placeholder = codes "{{text}}"

abbrev pub output_placeholder : Bytes
output_placeholder = codes "{{output}}"

abbrev pub or_default : Bytes → Bytes → Bytes
or_default s d = if str_eq s [] then d else s

abbrev pub or_default_timeout : ℤ → ℤ
or_default_timeout t = if leb_ℤ t (pos 0) then default_timeout else t

-- `NewCommand`; the error is its text.
unfoldable pub new_command : CommandOptions → Result Bytes CommandOptions
new_command opts =
    if str_eq opts.name []
    then err (codes "command name is required")
    else ok (record opts {
      format = or_default opts.format (codes "wav");
      timeout = or_default_timeout opts.timeout;
    })

unfoldable pub command_fingerprint : CommandOptions → Bytes
command_fingerprint opts = join (codes "|") (codes "command" ∷ opts.name ∷ opts.args)

-- The arguments with the placeholders replaced, and which of the two were there.
pub record Substituted : Type 0 where
  pub args : List Bytes
  pub wants_text : Bool
  pub wants_file : Bool

-- The loop over the arguments in `Synthesize`. The test for the output comes after the text is in.
unfoldable pub substitute : Bytes → Bytes → List Bytes → Substituted
substitute text out [] = record { args = []; wants_text = false; wants_file = false }
substitute text out (a ∷ more) =
    let rest = substitute text out more in
    let has_text = includes a text_placeholder in
    let b = if has_text then replace_all text_placeholder text a else a in
    let has_file = includes b output_placeholder in
    let c = if has_file then replace_all output_placeholder out b else b in
    record {
      args = c ∷ rest.args;
      wants_text = has_text || rest.wants_text;
      wants_file = has_file || rest.wants_file;
    }

-- How a command is run: its standard input, if it gets one, and whether its output is captured.
pub record Invocation : Type 0 where
  pub name : Bytes
  pub args : List Bytes
  pub stdin : Option Bytes
  pub captures : Bool

-- How the run ends: the text of its error, if it fails, what it wrote to the two outputs, and what
-- reading the output file gives.
pub record Exit : Type 0 where
  pub failure : Option Bytes
  pub stdout : Bytes
  pub stderr : Bytes
  pub file : Result Bytes Bytes

-- The last line that is not blank, trimmed, or the one given.
abbrev pub last_filled : List Bytes → Bytes → Bytes
last_filled [] last = last
last_filled (l ∷ ls) last =
    let line = trim_space l in last_filled ls (if str_eq line [] then last else line)

unfoldable pub last_line : Bytes → Bytes
last_line b = last_filled (lines b) []

-- What a synthesis does beside its result.
pub data CommandDeed : Type 0 where
  made_dir removed_dir : Bytes → CommandDeed
  ran : Invocation → CommandDeed

-- `os.MkdirTemp`, `filepath.Join`, and the executable.
pub record Machine : Type 0 where
  pub make_dir : Result Bytes Bytes
  pub join_path : Bytes → Bytes → Bytes
  pub run : Invocation → Exit

module _ (opts : CommandOptions) where
  abbrev pub invocation : Bytes → Substituted → Invocation
  invocation text s = record {
    name = opts.name;
    args = s.args;
    stdin = if s.wants_text then none else some text;
    captures = if s.wants_file then false else true;
  }

  abbrev pub run_error : Bytes → Bytes → Bytes
  run_error e stderr =
      let reason = last_line stderr in
      if str_eq reason [] then wrap_text opts.name e else wrap_text (wrap_text opts.name reason) e

  -- Behind `cmd.Run`. Without a capture the buffer of the output stays empty.
  unfoldable pub collect : Substituted → Exit → Result Bytes Audio
  collect s x = elim x.failure [
    | some e ↦ err (run_error e x.stderr)
    | none ↦ elim (if s.wants_file then x.file else ok x.stdout) [
      | err e ↦ err (wrap_text (codes "read command output") e)
      | ok audio ↦ validated (record { audio = audio; format = opts.format })
    ]
  ]

  -- `Synthesize`: the directory is removed on every path behind its creation.
  unfoldable pub command_synthesize : Machine → Bytes → Result Bytes Audio × List CommandDeed
  command_synthesize m text = elim m.make_dir [
    | err e ↦ (err (wrap_text (codes "temp dir") e), [])
    | ok dir ↦
        let s = substitute text (m.join_path dir (codes "speech." ++ opts.format)) opts.args in
        let i = invocation text s in
        (collect s (m.run i), made_dir dir ∷ ran i ∷ removed_dir dir ∷ [])
  ]

  -- The synthesizer that the speaker sees.
  abbrev pub command_synthesizer : Machine → Synthesizer
  command_synthesizer m = record {
    disabled = false;
    fingerprint = command_fingerprint opts;
    format = opts.format;
    synthesize = λ text. (command_synthesize m text).0;
  }
