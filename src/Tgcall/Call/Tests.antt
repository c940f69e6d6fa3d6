-- ===== src/Tgcall/Call/Tests.antt =====
-- Calls and retries, run on samples.
use tgpager.Base.{ℕ, zero, suc, true, false, [], ◌∷◌, none, some, codes, pos, ◌≡◌, ◌≤◌, ◌+◌, refl}
use tgpager.Tgcall.Errors.{permanent, voice_forbidden}
use tgpager.Tgcall.Sample.{made, wrapped, flood, failures}
use tgpager.Tgcall.Retry.{waited, tried, Try, retry, retry_wait, loop}
use tgpager.Tgcall.Retry.Schedule.{tries, plan, retry-plan}
use tgpager.Tgcall.Retry.Result.{Ends, retry-Ends}
use tgpager.Tgcall.Call.{
  InputUser, input_user, accepted, played, discarded, attempt_counted, duration_recorded, Ringing,
  connected, disconnected, ring_once, place_call, hold_call, wait_connected, tries_of, ring,
}
use tgpager.Tgcall.Call.Lifetime.{held_after, up_after, failed_hangups, counted, ring-up}

-- Telegram demands a longer wait than the configured two seconds, then the call fails once, then the
-- callee answers.
abbrev samples : ℕ → Try failures
samples (suc zero) = record {
  interrupted = none;
  outcome = some (wrapped (codes "request call") (flood (pos 7)));
  cancelled = false;
}
samples (suc (suc zero)) = record {
  interrupted = none;
  outcome = some (made (codes "busy"));
  cancelled = false;
}
samples _ = record { interrupted = none; outcome = none; cancelled = false }

retry_sample :
    retry failures samples (pos 2) 5
    ≡ (none, tried 1 ∷ waited (pos 7) ∷ tried 2 ∷ waited (pos 2) ∷ tried 3 ∷ [])
unfolding retry loop retry_wait permanent voice_forbidden
retry_sample = refl

retry_sample_gives_up : retry failures samples (pos 2) 2 ≡ (
  some (wrapped (codes "all %d attempts failed") (made (codes "busy"))),
  tried 1 ∷ waited (pos 7) ∷ tried 2 ∷ [],
)
unfolding retry loop retry_wait permanent voice_forbidden
retry_sample_gives_up = refl

retry-plan_example :
    let es = (retry failures samples (pos 2) 5).1 in
    (tries es ≤ 5) × (es ≡ plan failures samples (pos 2) (tries es) 1 (pos 2))
retry-plan_example = retry-plan failures samples (pos 2) 5

retry-Ends_example : Ends failures samples 5 1 none (retry failures samples (pos 2) 5)
retry-Ends_example = retry-Ends failures samples (pos 2) 5

abbrev pub callee : InputUser
callee = input_user (pos 42) (pos 9)

-- The first call is not answered in time, and the second plays.
abbrev pub rings : ℕ → Ringing failures
rings (suc zero) = record {
  attempt = record { request = none; signal = disconnected; play = none; discard = none };
  interrupted = none;
  cancelled_after = false;
}
rings _ = record {
  attempt = record {
    request = none;
    signal = connected;
    play = none;
    discard = some (made (codes "gone"));
  };
  interrupted = none;
  cancelled_after = false;
}

ring_sample : ring failures (some callee) rings 3 (pos 2) ≡ (
  none,
  accepted callee
      ∷ discarded false
      ∷ attempt_counted true
      ∷ duration_recorded true
      ∷ accepted callee
      ∷ played
      ∷ discarded true
      ∷ attempt_counted false
      ∷ duration_recorded false
      ∷ [],
)
unfolding ring retry loop retry_wait permanent voice_forbidden ring_once place_call hold_call
    wait_connected
ring_sample = refl

ring-up_example :
    let es = (ring failures (some callee) rings 3 (pos 2)).1 in
    (held_after es false ≡ some false)
    × (up_after es 0 ≡ failed_hangups es + 0)
    × (counted es ≡ tries (retry failures (tries_of failures (some callee) rings) (pos 2) 3).1)
ring-up_example = ring-up failures (some callee) rings 3 (pos 2) 0

-- The hangup of the second call fails, and that call stays up.
hangup_fails : up_after (ring failures (some callee) rings 3 (pos 2)).1 0 ≡ 1
unfolding up_after ring retry loop retry_wait permanent voice_forbidden ring_once place_call
    hold_call wait_connected
hangup_fails = refl
