-- ===== src/Tgcall/Errors.antt =====
-- Go errors as the client handles them: made and wrapped by go-faster/errors, and inspected through
-- `tgerr.Is` and `telegram.AsFloodWait` of gotd. These are parameters; the laws say that wrapping keeps
-- what the two inspect, and that an error of the program's own is no Telegram error.
use tgpager.Base.{Bool, false, ◌||◌, List, [], ◌∷◌, Option, Bytes, codes, ℤ, ◌≡◌}

pub record ErrorLib : Type 1 where
  pub Error : Type 0
  -- `errors.New` and `errors.Errorf`, by the text of the call.
  pub new : Bytes → Error
  -- `errors.Wrap` and `errors.Wrapf` of an error, and of nil.
  pub wrap : Bytes → Error → Error
  pub wrap_nil : Bytes → Option Error
  pub is_rpc : Error → List Bytes → Bool
  pub as_flood_wait : Error → Option ℤ
  pub is_rpc-new : (m : Bytes) (ts : List Bytes) → is_rpc (new m) ts ≡ false
  pub is_rpc-wrap : (m : Bytes) (e : Error) (ts : List Bytes) → is_rpc (wrap m e) ts ≡ is_rpc e ts
  pub as_flood_wait-wrap : (m : Bytes) (e : Error) → as_flood_wait (wrap m e) ≡ as_flood_wait e

module _ (lib : ErrorLib) where
  open lib use {Error, is_rpc}

  -- `VoiceForbidden` of text.go.
  unfoldable pub voice_forbidden : Error → Bool
  voice_forbidden e = is_rpc e (codes "VOICE_MESSAGES_FORBIDDEN" ∷ [])

  abbrev pub refusals : List Bytes
  refusals =
      codes "CHAT_WRITE_FORBIDDEN"
      ∷ codes "USER_IS_BLOCKED"
      ∷ codes "PEER_ID_INVALID"
      ∷ codes "YOU_BLOCKED_USER"
      ∷ []

  -- `permanent` of text.go.
  unfoldable pub permanent : Error → Bool
  permanent e = voice_forbidden e || is_rpc e refusals
