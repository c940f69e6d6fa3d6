-- ===== src/Tts/Preflight.antt =====
-- `Preflight` of internal/tts/speaker.go: the speech path, tried at start-up.
pub mod Warm
pub mod Tests
use tgpager.Base.{
  ℕ, zero, suc, Bool, true, false, List, [], ◌∷◌, ◌++◌, Option, none, some, Bytes, codes, pos,
  Result, ok, err, if◌then◌else◌,
}
use tgpager.Alertmanager.{WebhookPayload}
use tgpager.Tts.Synthesizer.{Audio, Synthesizer}
use tgpager.Tts.Cache.{File, Writing}
use tgpager.Tts.Speaker.{SpeechError, Speaker, Surroundings, Count, Spoken, speech}

abbrev pub preflight_attempts : ℕ
preflight_attempts = 3

-- `PreflightPayload`; the fields that it leaves out are zero.
abbrev pub preflight_payload : WebhookPayload
preflight_payload = record {
  version = codes "4";
  group_key = codes "tgpager-preflight";
  status = codes "firing";
  receiver = [];
  group_labels = [];
  common_labels =
      (codes "alertname", codes "PreflightCheck") ∷ (codes "severity", codes "warning") ∷ [];
  common_annotations = (codes "summary", codes "T G pager is starting up") ∷ [];
  external_url = [];
  alerts = [];
  truncated_alerts = pos 0;
}

-- What an attempt meets: how the provider answers then, how the writing ends, the two times that are
-- read, and the error of the context if it has ended after the attempt.
pub record Moment : Type 0 where
  pub answer : Bytes → Result Bytes Audio
  pub writing : Writing
  pub now : ℕ
  pub later : ℕ
  pub cancelled : Option Bytes

pub data PreflightError : Type 0 where
  preflight_cancelled : Bytes → PreflightError
  -- The error of the last attempt; nil is passed on by `errors.Wrapf`.
  preflight_failed : SpeechError → PreflightError

module _ (env : Surroundings) (s : Speaker) (moments : ℕ → Moment) where
  -- The speech of attempt `n`.
  abbrev pub attempt_at : ℕ → List File → Spoken (Result SpeechError Bytes)
  attempt_at n fs =
      let m = moments n in
      speech env (record s { synth = record (s.synth) { synthesize = m.answer } }) m.writing m.now
        m.later preflight_payload fs

  abbrev pub last_failure : Option SpeechError → Result PreflightError (Unit {0})
  last_failure none = ok tt
  last_failure (some e) = err (preflight_failed e)

  abbrev pub counted_before :
      List Count
      → Spoken (Result PreflightError (Unit {0}))
      → Spoken (Result PreflightError (Unit {0}))
  counted_before cs r = record r { counts = cs ++ r.counts }

  -- The loop with `left` attempts to go, at attempt `n`.
  unfoldable pub preflight_loop :
      ℕ → ℕ → Option SpeechError → List File → Spoken (Result PreflightError (Unit {0}))
  preflight_loop zero n last fs = record { result = last_failure last; folder = fs; counts = [] }
  preflight_loop (suc left) n last fs =
      let r = attempt_at n fs in
      elim r.result [
        | ok path ↦ record { result = ok tt; folder = r.folder; counts = r.counts }
        | err e ↦ elim ((moments n).cancelled) [
          | some c ↦ record {
            result = err (preflight_cancelled c);
            folder = r.folder;
            counts = r.counts;
          }
          | none ↦ counted_before r.counts (preflight_loop left (suc n) (some e) r.folder)
        ]
      ]

  -- `Preflight`.
  unfoldable pub preflight : List File → Spoken (Result PreflightError (Unit {0}))
  unfolding preflight_loop
  preflight fs =
      if s.synth.disabled
      then record { result = ok tt; folder = fs; counts = [] }
      else preflight_loop preflight_attempts 1 none fs
