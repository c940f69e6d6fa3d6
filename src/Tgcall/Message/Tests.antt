-- ===== src/Tgcall/Message/Tests.antt =====
-- Messages, sent against sample answers.
use tgpager.Base.{
  ℕ, ◌≡◌, refl, true, false, [], ◌∷◌, none, some, codes, str_eq, pos, negsuc, ok, arith,
}
use tgpager.Tgcall.Errors.{voice_forbidden}
use tgpager.Tgcall.Sample.{wrapped, rpc, failures}
use tgpager.Tgcall.Retry.{tried}
use tgpager.Tgcall.Call.{input_user}
use tgpager.Tgcall.Message.{voice_seconds, Sending, send_voice, input_peer, input_peer_user}
use tgpager.Tgcall.Message.Laws.{send_voice-forbidden}

abbrev refusing : ℕ → Sending failures
refusing n = record {
  upload = ok true;
  media = some (rpc (codes "VOICE_MESSAGES_FORBIDDEN"));
  interrupted = none;
  cancelled_after = false;
}

voice_seconds_sample :
    (voice_seconds (pos 7499999999) ≡ 7)
    × (voice_seconds (pos 7500000000) ≡ 8)
    × (voice_seconds (negsuc 4) ≡ 1)
unfolding voice_seconds
voice_seconds_sample = (refl, refl, refl)

refused : voice_forbidden failures (rpc (codes "VOICE_MESSAGES_FORBIDDEN")) ≡ true
unfolding voice_forbidden str_eq
refused = refl

addressed :
    input_peer failures (some (input_user (pos 42) (pos 9))) ≡ ok (input_peer_user (pos 42) (pos 9))
unfolding input_peer
addressed = refl

send_voice-forbidden_example :
    let s =
      send_voice failures 1000 (some (input_user (pos 42) (pos 9))) (ok 20) refusing 3 (pos 2) in
    (s.error ≡ some (wrapped (codes "send voice message") (rpc (codes "VOICE_MESSAGES_FORBIDDEN"))))
    × (s.events ≡ tried 1 ∷ [])
    × (voice_forbidden failures
          (wrapped (codes "send voice message") (rpc (codes "VOICE_MESSAGES_FORBIDDEN")))
        ≡ true)
send_voice-forbidden_example =
    send_voice-forbidden failures 1000 (input_user (pos 42) (pos 9)) 20 refusing 2 (pos 2)
      (rpc (codes "VOICE_MESSAGES_FORBIDDEN")) addressed (omega arith) refl refl refused
