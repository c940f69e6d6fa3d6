-- ===== src/Main/Linked/Tests.antt =====
-- A page with a speaker that plays the tone alone.
use tgpager.Base.{
  ℕ, Result, Option, ◌≡◌, refl, true, false, none, some, Bytes, [], ◌∷◌, ◌++◌, All, codes, str_eq,
  pos, ok, err, arith,
}
use tgpager.Config.Modes.{voice_fallback, text_always}
use tgpager.Server.{CallRequest}
use tgpager.Tgcall.Sample.{made, failures}
use tgpager.Tgcall.Call.{input_user, connected}
use tgpager.Tgcall.Client.{new_client, apply_all}
use tgpager.Tts.Cache.{written}
use tgpager.Tts.Synthesizer.{disabled_synthesizer}
use tgpager.Tts.Speaker.{new_speaker, speak}
use tgpager.Tts.Build.{Site, Built, build, new_template}
use tgpager.Tts.Preflight.{preflight_payload}
use tgpager.Audio.Stream.{
  stream, run_ffmpeg, stream_loop, round, handle, finish_ffmpeg, Meeting, datagram, timed_out,
  exited,
}
use tgpager.Audio.Stream.Ends.{ends_exited}
use tgpager.Audio.Stream.Whole.{stream_returns}
use tgpager.Audio.Spec.{Spec, validate, first_empty}
use tgpager.Tgcall.Call
use tgpager.Tgcall.Retry.{retry, loop}
use tgpager.Config.Modes.{calls, voice_sends, voice_off, text_off}
use tgpager.Main.Reaches.{has}
use tgpager.Main.Linked.Heard.{is_success, Heard, paged-Heard}
use tgpager.Main.{process_page, place_call}
use tgpager.Main.Fit.{IsFit}
use tgpager.Main.Linked.{Meets, linked}
use tgpager.Main.Linked.WellCalled.{linked-IsFit}

abbrev site : Site
site = record {
  in_range = λ s. true;
  endpoint = record {
    marshal = λ r. ok [];
    url_error = λ u. none;
    exchange = λ q. err (codes "refused");
  };
  machine = record {
    make_dir = err (codes "full");
    join_path = λ d n. d ++ n;
    run = λ i. record { failure = none; stdout = []; stderr = []; file = ok [] };
  };
  makes_dir = true;
  parse = λ t. some (λ p. some (codes "Disk full"));
  meter = none;
}

abbrev built : Built
built = record {
  speaker = record {
    synth = disabled_synthesizer;
    cache = record { dir = []; ttl = 0; max_bytes = 0 };
    tone = codes "tone.wav";
    repeat = pos 1;
  };
  template = λ p. some (codes "Disk full");
}

built_lem : build site none (codes "tone.wav") ≡ ok built
unfolding build new_speaker new_template str_eq
built_lem = refl

joined_path : Bytes → Bytes → Bytes
joined_path d n = b'/' ∷ n

-- A packet is the first byte of a datagram.
abbrev first_byte : Bytes → Result Bytes ℕ
first_byte [] = err (codes "short")
first_byte (c ∷ s) = ok c

abbrev accept_all : ℕ → Option Bytes
accept_all p = none

abbrev one_packet : Meeting ℕ first_byte accept_all
one_packet = record {
  listen = ok (codes "127.0.0.1", 40000);
  ssrc = 7;
  pipe = none;
  start = λ args. none;
  readings = datagram (7 ∷ []) ∷ timed_out (exited none []) ∷ [];
}

abbrev meets : Meets failures ℕ first_byte accept_all
meets = record {
  client = new_client (pos 0) [] [] [];
  peer = some (input_user (pos 42) (pos 9));
  rings = λ n. record {
    attempt = record { request = none; signal = connected; play = none; discard = none };
    interrupted = none;
    cancelled_after = false;
  };
  streams = λ n. one_packet;
  returns = λ n spec.
      stream_returns ℕ first_byte accept_all one_packet spec (datagram (7 ∷ []) ∷ [])
        (timed_out (exited none [])) [] refl (ends_exited none []);
  sends =
      λ n. record { upload = ok true; media = none; interrupted = none; cancelled_after = false };
  texting = λ n. record { text = none; interrupted = none; cancelled_after = false };
  limit = 10000000;
  size = λ path. ok 4096;
  env = record {
    execute = λ p. none;
    hash = λ t. t;
    join_path = λ d n. b'/' ∷ n;
    disk = record { lists = true; describes = λ n. true; removes = λ n. true; touches = λ n. true };
    sort = λ fs. fs;
  };
  writing = written;
  now = 1;
  later = 2;
  folder = [];
  create_temp = ok (codes "/tmp/v.ogg");
  close_temp = none;
  remove = λ p. none;
  run = λ args. (none, []);
  recording = λ path. record {
    opens = true;
    stats = true;
    head_reads = true;
    tail_reads = true;
    bytes = [];
  };
  ffmpeg_error = λ e. made (codes "ffmpeg");
  ogg_error = λ e. made (codes "ogg");
  speech_error = λ e. made (codes "speech");
}

abbrev page : CallRequest
page = record { group_key = codes "disk"; payload = preflight_payload }

linked-IsFit_example : All IsFit (
    process_page failures
      (linked failures ℕ first_byte accept_all meets built)
      voice_fallback
      text_always
      page)
linked-IsFit_example =
    linked-IsFit failures ℕ first_byte accept_all site none (codes "tone.wav") built meets built_lem
      (λ d n h e. ground arith) (λ path h e. ground arith) voice_fallback text_always page

abbrev tone_spec : Spec
tone_spec = (linked failures ℕ first_byte accept_all meets built).speak preflight_payload

page_rings : (linked failures ℕ first_byte accept_all meets built).ring tone_spec ≡ none
unfolding linked speak Call.ring retry loop Call.ring_once Call.place_call Call.hold_call
    Call.wait_connected stream run_ffmpeg stream_loop round handle validate first_empty str_eq
    finish_ffmpeg new_client apply_all
page_rings = refl

page_succeeds :
    has is_success (
      process_page failures
        (linked failures ℕ first_byte accept_all meets built)
        voice_off
        text_off
        page)
    ≡ true
unfolding process_page place_call calls voice_sends
page_succeeds = rw (page_rings, place_call) refl

paged-Heard_example :
    (n : ℕ) × (((meets.rings n).attempt).request ≡ none)
    × (((meets.rings n).attempt).signal ≡ connected)
    × Heard failures ℕ first_byte accept_all meets built tone_spec n
unfolding new_client apply_all
paged-Heard_example =
    paged-Heard failures ℕ first_byte accept_all meets built voice_off text_off page (omega arith)
      page_succeeds
