-- ===== src/Tgcall/Message.antt =====
-- internal/tgcall/voice.go and text.go: the page left in the chat as a voice message or as text.
pub mod Laws
pub mod Spans
pub mod Tests
use tgpager.Base.{
  ℕ, zero, suc, ◌+◌, ◌-◌, ◌*◌, ◌/◌, ◌%◌, ◌^◌, Bool, true, false, not, List, [], ◌∷◌, Option, none,
  some, Bytes, codes, str_eq, ℤ, pos, negsuc, ltb, leb, Result, ok, err, if◌then◌else◌,
}
use tgpager.Tgcall.Errors.{ErrorLib}
use tgpager.Tgcall.Retry.{Event, Try, retry}
use tgpager.Tgcall.Call.{
  InputUser, input_user, input_user_self, input_user_from_message, other_user, is_failure,
}

-- `tg.InputPeerClass`, as `inputPeer` makes it.
pub data InputPeer : Type 0 where
  input_peer_user : ℤ → ℤ → InputPeer
  input_peer_self : InputPeer
  input_peer_user_from_message : ℤ → ℤ → ℤ → InputPeer

abbrev pub second : ℕ
second = 1000000000

-- `d.Round(time.Second)` in whole seconds, for a duration that is not negative: half a second rounds
-- up, and a result that is no int64 becomes the greatest duration, of 9223372036 seconds.
abbrev pub rounded_seconds : ℕ → ℕ
rounded_seconds d =
    if ltb (d % second + d % second) second
    then d / second
    else if ltb (d - d % second + second) (2 ^ 63)
    then d / second + 1
    else 9223372036

-- `voiceSeconds`. A negative duration rounds to one that is not positive.
unfoldable pub voice_seconds : ℤ → ℕ
voice_seconds (pos d) = if ltb 0 (rounded_seconds d) then rounded_seconds d else 1
voice_seconds (negsuc d) = 1

module _ (lib : ErrorLib) where
  open lib use {Error, new, wrap}

  -- `inputPeer` of peer.go.
  unfoldable pub input_peer : Option InputUser → Result Error InputPeer
  input_peer none = err (new (codes "peer is not resolved"))
  input_peer (some (input_user id hash)) = ok (input_peer_user id hash)
  input_peer (some input_user_self) = ok input_peer_self
  input_peer (some (input_user_from_message peer msg id)) =
      ok (input_peer_user_from_message peer msg id)
  input_peer (some other_user) = err (new (codes "cannot address as a chat peer"))

  -- How the calls of one try end: the upload, with whether it is a small file, and the sending.
  pub record Sending : Type 0 where
    pub upload : Result Error Bool
    pub media : Option Error
    pub interrupted : Option Error
    pub cancelled_after : Bool

  -- `sendVoiceOnce`.
  unfoldable pub send_voice_once : Sending → Option Error
  send_voice_once s = elim s.upload [
    | err e ↦ some (wrap (codes "upload voice message") e)
    | ok small ↦
        if not small
        then some (new (codes "a voice message must be a small file"))
        else elim s.media [ none ↦ none | some e ↦ some (wrap (codes "send voice message") e) ]
  ]

  abbrev pub voice_tries : (ℕ → Sending) → ℕ → Try lib
  voice_tries env n = record {
    interrupted = (env n).interrupted;
    outcome = send_voice_once (env n);
    cancelled = (env n).cancelled_after;
  }

  -- What a send does: the tries, and the one count by outcome when it returns (true is a failure).
  pub record Sent : Type 0 where
    pub error : Option Error
    pub events : List Event
    pub counted : Bool

  abbrev pub finished : Option Error × List Event → Sent
  finished (e, es) = record { error = e; events = es; counted = is_failure e }

  -- `SendVoice`; `limit` is gotd's limit of small files, `size` the answer of `os.Stat`.
  unfoldable pub send_voice : ℕ → Option InputUser → Result Error ℕ → (ℕ → Sending) → ℕ → ℤ → Sent
  send_voice limit peer size env attempts delay = elim (input_peer peer) [
    | err e ↦ finished (some e, [])
    | ok p ↦ elim size [
      | err e ↦ finished (some (wrap (codes "stat voice message") e), [])
      | ok n ↦
          if ltb limit n
          then finished (some (new (codes "voice message is over the small-file limit")), [])
          else finished (retry lib (voice_tries env) delay attempts)
    ]
  ]

  -- A try at a text: how the sending ends.
  pub record Texting : Type 0 where
    pub text : Option Error
    pub interrupted : Option Error
    pub cancelled_after : Bool

  abbrev pub text_once : Texting → Option Error
  text_once t = elim t.text [ none ↦ none | some e ↦ some (wrap (codes "send text message") e) ]

  abbrev pub text_tries : (ℕ → Texting) → ℕ → Try lib
  text_tries env n = record {
    interrupted = (env n).interrupted;
    outcome = text_once (env n);
    cancelled = (env n).cancelled_after;
  }

  -- `SendText`.
  unfoldable pub send_text : Option InputUser → Bytes → (ℕ → Texting) → ℕ → ℤ → Sent
  send_text peer text env attempts delay =
      if str_eq text []
      then finished (some (new (codes "text is empty")), [])
      else elim (input_peer peer) [
        | err e ↦ finished (some e, [])
        | ok p ↦ finished (retry lib (text_tries env) delay attempts)
      ]
