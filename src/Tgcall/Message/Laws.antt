-- ===== src/Tgcall/Message/Laws.antt =====
-- What is known of a voice message and of its failure.
use tgpager.Base.{
  ℕ, suc, ◌+◌, ◌-◌, ◌*◌, ◌/◌, ◌^◌, ◌≤◌, ◌<◌, ◌≡◌, refl, ◌∙◌, Bool, true, ◌||◌, [], ◌∷◌, none, some,
  Bytes, codes, ℤ, pos, ok, arith,
}
use tgpager.Tgcall.Errors.{ErrorLib, voice_forbidden, permanent}
use tgpager.Tgcall.Retry.{tried, Try, retry, loop_stops}
use tgpager.Tgcall.Call.{InputUser}
use tgpager.Tgcall.Message.{
  voice_seconds, second, Sending, send_voice_once, voice_tries, send_voice, input_peer, InputPeer,
}

-- From half a second on and below 2^63 - 2^30 nanoseconds, the seconds that are reported are the
-- duration to within half a second, and at least one.
pub voice_seconds_close :
    (d : ℕ)
    → second / 2 ≤ d
    → d < 2 ^ 63 - 2 ^ 30
    → (1 ≤ voice_seconds (pos d))
      × (voice_seconds (pos d) * second ≤ d + second / 2)
      × (d < voice_seconds (pos d) * second + second / 2 + 1)
unfolding voice_seconds
voice_seconds_close d h k = ground arith

-- Whatever the duration, negative ones included, at least one second is reported.
pub voice_seconds_pos : (d : ℤ) → 1 ≤ voice_seconds d
unfolding voice_seconds
voice_seconds_pos d = ground arith

or_true : (a : Bool) {b : Bool} → b ≡ true → (a || b) ≡ true
or_true a h = ground arith

module _ (lib : ErrorLib) where
  open lib use {Error, wrap, is_rpc-wrap}

  voice_forbidden-wrap :
      (m : Bytes) (e : Error) → voice_forbidden lib (wrap m e) ≡ voice_forbidden lib e
  unfolding voice_forbidden
  voice_forbidden-wrap m e = is_rpc-wrap m e _

  -- An error for good at the first try ends the run there.
  pub retry-permanent :
      (env : ℕ → Try lib) (left : ℕ) (delay : ℤ) (e : Error)
      → (env 1).outcome ≡ some e
      → permanent lib e ≡ true
      → retry lib env delay (suc left) ≡ (some e, tried 1 ∷ [])
  unfolding retry
  retry-permanent env left delay e o f =
      loop_stops lib env delay left 1 delay none refl o (or_true ((env 1).cancelled) f)

  refused_once :
      (s : Sending lib) (e : Error)
      → s.upload ≡ ok true
      → s.media ≡ some e
      → send_voice_once lib s ≡ some (wrap (codes "send voice message") e)
  unfolding send_voice_once
  refused_once s e up media = ground arith

  forbidden-permanent : (e : Error) → voice_forbidden lib e ≡ true → permanent lib e ≡ true
  unfolding permanent
  forbidden-permanent e h = rw h

  -- If a file within the size limit is uploaded as a small file and Telegram answers the first sending
  -- with VOICE_MESSAGES_FORBIDDEN, that try is the last, and the error that comes back still says so,
  -- whatever the later tries would have done. The peer is resolved to a class that can be addressed, and
  -- at least one try is allowed.
  pub send_voice-forbidden :
      (limit : ℕ) (user : InputUser) (n : ℕ) (env : ℕ → Sending lib) (left : ℕ) (delay : ℤ)
      (e : Error) {p : InputPeer}
      → input_peer lib (some user) ≡ ok p
      → n ≤ limit
      → (env 1).upload ≡ ok true
      → (env 1).media ≡ some e
      → voice_forbidden lib e ≡ true
      → let s = send_voice lib limit (some user) (ok n) env (suc left) delay in
        (s.error ≡ some (wrap (codes "send voice message") e))
        × (s.events ≡ tried 1 ∷ [])
        × (voice_forbidden lib (wrap (codes "send voice message") e) ≡ true)
  unfolding send_voice
  send_voice-forbidden limit user n env left delay e peer fits up media forbidden =
      let w : Error = wrap (codes "send voice message") e in
      let kept : voice_forbidden lib w ≡ true =
        voice_forbidden-wrap (codes "send voice message") e ∙ forbidden in
      let stops =
        retry-permanent (voice_tries lib env) left delay w (refused_once (env 1) e up media)
          (forbidden-permanent w kept) in
      (ground (arith, stops), ground (arith, stops), kept)
