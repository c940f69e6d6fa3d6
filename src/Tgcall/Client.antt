-- ===== src/Tgcall/Client.antt =====
-- internal/tgcall/client.go and the resolution in peer.go: the settings of a client, and the steps
-- between signing in and serving. Telegram is the record `Telegram` of answers.
pub mod Gate
pub mod Tests
use tgpager.Base.{
  ℕ, Bool, true, false, not, ◌&&◌, List, [], ◌∷◌, Option, none, some, Bytes, codes, str_eq, ℤ, pos,
  leb_ℤ, Result, ok, err, ◌>>=◌, ◌>>◌, if◌then◌else◌,
}
use tgpager.Telemetry.{MeterProvider, noop}
use tgpager.Tgcall.Errors.{ErrorLib}
use tgpager.Tgcall.Metrics.{new_metrics}
use tgpager.Tgcall.Call.{InputUser, input_user}
use tgpager.Tgcall.Peer.{
  PeerKind, peer_id, peer_username, peer_phone, peer_deeplink, PeerTarget, PeerError,
  parse_peer_target,
}

-- A logger, a provider or a storage that a client is given, by its address: nil, one that does nothing,
-- or one of the caller's.
pub data Tool : Type 0 where
  absent idle : Tool
  given : ℕ → Tool

-- The settings of `Client`; durations in nanoseconds.
pub record Client : Type 0 where
  pub logger : Tool
  pub tracer_provider : Tool
  pub meter_provider : Tool
  pub peer_storage : Tool
  pub app_id : ℤ
  pub app_hash : Bytes
  pub session : Bytes
  pub bot_token : Bytes
  pub calls_enabled : Bool
  pub peer : Bytes
  pub ring_timeout : ℤ
  pub connect_timeout : ℤ
  pub attempts : ℤ
  pub retry_delay : ℤ
  pub voice_attempts : ℤ
  pub voice_retry_delay : ℤ

-- The options of `New`.
pub data ClientOption : Type 0 where
  with_bot_token with_peer : Bytes → ClientOption
  with_calls : Bool → ClientOption
  with_ring_timeout with_connect_timeout : ℤ → ClientOption
  with_retry with_voice_retry : ℤ → ℤ → ClientOption
  with_logger with_tracer_provider with_meter_provider with_peer_storage : Tool → ClientOption

unfoldable pub apply : ClientOption → Client → Client
apply (with_bot_token token) c = record c { bot_token = token }
apply (with_peer peer) c = record c { peer = peer }
apply (with_calls enabled) c = record c { calls_enabled = enabled }
apply (with_ring_timeout d) c = record c { ring_timeout = d }
apply (with_connect_timeout d) c = record c { connect_timeout = d }
apply (with_retry n d) c = record c { attempts = n; retry_delay = d }
apply (with_voice_retry n d) c = record c { voice_attempts = n; voice_retry_delay = d }
apply (with_logger t) c = record c { logger = t }
apply (with_tracer_provider t) c = record c { tracer_provider = t }
apply (with_meter_provider t) c = record c { meter_provider = t }
apply (with_peer_storage t) c = record c { peer_storage = t }

abbrev pub defaults : ℤ → Bytes → Bytes → Client
defaults app_id app_hash session = record {
  logger = idle;
  tracer_provider = absent;
  meter_provider = absent;
  peer_storage = absent;
  app_id = app_id;
  app_hash = app_hash;
  session = session;
  bot_token = [];
  calls_enabled = true;
  peer = [];
  ring_timeout = pos 45000000000;
  connect_timeout = pos 30000000000;
  attempts = pos 3;
  retry_delay = pos 10000000000;
  voice_attempts = pos 3;
  voice_retry_delay = pos 2000000000;
}

unfoldable pub apply_all : List ClientOption → Client → Client
unfolding apply
apply_all [] c = c
apply_all (o ∷ os) c = apply_all os (apply o c)

abbrev pub at_least_one : ℤ → ℤ
at_least_one n = if leb_ℤ (pos 1) n then n else pos 1

-- nil becomes the provider that does nothing.
abbrev pub or_idle : Tool → Tool
or_idle absent = idle
or_idle idle = idle
or_idle (given n) = given n

-- `New`.
unfoldable pub new_client : ℤ → Bytes → Bytes → List ClientOption → Client
new_client app_id app_hash session opts =
    let c = apply_all opts (defaults app_id app_hash session) in
    record c {
      attempts = at_least_one c.attempts;
      voice_attempts = at_least_one c.voice_attempts;
      tracer_provider = or_idle c.tracer_provider;
      meter_provider = or_idle c.meter_provider;
    }

-- `peers.User` of gotd, as the client reads it.
pub record User : Type 0 where
  pub is_bot : Bool
  pub is_self : Bool
  pub input : InputUser

module _ (lib : ErrorLib) where
  open lib use {Error, new, wrap}

  abbrev pub wrapped : {A : Type 0} → Bytes → Result Error A → Result Error A
  wrapped m (ok a) = ok a
  wrapped m (err e) = err (wrap m e)

  -- How Telegram answers. A status has no user before the sign-in, and a user may be a bot; a name or
  -- a link may resolve to a peer that is no user (none).
  pub record Telegram : Type 0 where
    -- The meters of a provider, by its address.
    pub meters : ℕ → MeterProvider Error
    pub status_authorized : Result Error Bool
    pub sign_in_bot : Result Error (Unit {0})
    pub sign_in_user : Result Error (Unit {0})
    pub status_is_bot : Result Error (Option Bool)
    pub resolve_phone : Bytes → Result Error User
    pub resolve_user_id : ℤ → Result Error User
    pub resolve_domain : Bytes → Result Error (Option User)
    pub resolve_deeplink : Bytes → Result Error (Option User)

  module _ (c : Client) (t : Telegram) where
    unfoldable pub authenticate_bot : Result Error (Unit {0})
    authenticate_bot = do
      authorized ← wrapped (codes "auth status") t.status_authorized
      if authorized then ok tt else wrapped (codes "authenticate as bot") t.sign_in_bot

    unfoldable pub authenticate : Result Error (Unit {0})
    unfolding authenticate_bot
    authenticate =
        if not (str_eq c.bot_token [])
        then authenticate_bot
        else wrapped (codes "authenticate") t.sign_in_user

    unfoldable pub bot_session_error : Option Bool → Result Error (Unit {0})
    bot_session_error none = ok tt
    bot_session_error (some is_bot) =
        if not is_bot
        then ok tt
        else err (new (codes "session is a bot, but calls are enabled: bots cannot place calls"))

    unfoldable pub verify_self : Result Error (Unit {0})
    verify_self =
        if not c.calls_enabled
        then ok tt
        else do user ← wrapped (codes "auth status") t.status_is_bot; bot_session_error user

    abbrev pub as_user : Result Error (Option User) → Result Error User
    as_user (err e) = err e
    as_user (ok none) = err (new (codes "resolved a peer, calls require a user"))
    as_user (ok (some u)) = ok u

    unfoldable pub resolve_user : PeerTarget → Result Error User
    resolve_user p = elim p.kind [
      | peer_phone ↦ t.resolve_phone p.value
      | peer_id ↦ t.resolve_user_id p.user_id
      | peer_username ↦ as_user (t.resolve_domain p.value)
      | peer_deeplink ↦ as_user (t.resolve_deeplink p.value)
    ]

    abbrev pub is_id : PeerKind → Bool
    is_id peer_id = true
    is_id peer_username = false
    is_id peer_phone = false
    is_id peer_deeplink = false

    -- Calls need a user; a bot may message one.
    unfoldable pub accept_user : User → Result Error InputUser
    accept_user user =
        if user.is_bot && str_eq c.bot_token []
        then err (new (codes "peer is a bot, calls require a user"))
        else ok user.input

    -- `resolvePeer` for a parsed target: the user that `peerUser` is set to.
    unfoldable pub resolve_target : PeerTarget → Result Error InputUser
    unfolding accept_user
    resolve_target p =
        if is_id p.kind && p.has_access_hash
        then ok (input_user p.user_id p.access_hash)
        else do user ← wrapped (codes "resolve peer") (resolve_user p); accept_user user

    abbrev pub parsed : Result PeerError PeerTarget → Result Error PeerTarget
    parsed (ok p) = ok p
    parsed (err e) = err (new (codes "invalid peer"))

    unfoldable pub resolve_peer : Result Error InputUser
    resolve_peer = do p ← parsed (parse_peer_target c.peer); resolve_target p

    abbrev pub meters_of : Tool → MeterProvider Error
    meters_of absent = noop
    meters_of idle = noop
    meters_of (given n) = t.meters n

    unfoldable pub init : Result Error (Unit {0})
    unfolding new_metrics
    init = do m ← wrapped (codes "create metrics") (new_metrics (meters_of c.meter_provider)); ok tt

    -- `Run` up to the callback, which gets the resolved user.
    unfoldable pub run_client : Result Error InputUser
    unfolding init
    run_client = do init; authenticate; verify_self; resolve_peer

    -- `AuthFlow`.
    unfoldable pub auth_flow : Result Error (Unit {0})
    unfolding init
    auth_flow = do init; authenticate
