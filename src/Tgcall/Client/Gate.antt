-- ===== src/Tgcall/Client/Gate.antt =====
-- What holds whenever a client has started.
use tgpager.Base.{
  ◌≡◌, ◌≢◌, ◌⊎◌, inl, inr, refl, Bool, true, false, List, ◌∷◌, Option, none, some, Bytes, codes, ℤ,
  pos, ◌≤ℤ◌, IsInt64, Result, ok, err, arith, ◌++◌,
}
use tgpager.Tgcall.Errors.{ErrorLib}
use tgpager.Strconv.{format_int}
use tgpager.Tgcall.Call.{InputUser, input_user}
use tgpager.Tgcall.Peer.Parse.{parse_peer_target-ids}
use tgpager.Tgcall.Client.{
  Client, ClientOption, Telegram, new_client, verify_self, bot_session_error, resolve_target,
  resolve_peer, run_client,
}

-- Whatever options it is given, a client makes at least one attempt at a call and at a message.
pub new_client-attempts :
    (app_id : ℤ) (app_hash session : Bytes) (opts : List ClientOption)
    → (pos 1 ≤ℤ (new_client app_id app_hash session opts).attempts)
      × (pos 1 ≤ℤ (new_client app_id app_hash session opts).voice_attempts)
unfolding new_client
new_client-attempts app_id app_hash session opts = ground arith

module _ (lib : ErrorLib) (c : Client) (t : Telegram lib) where
  -- If a client that places calls starts, its session is no bot's: the status was read, and it shows no
  -- user or one that is not a bot.
  pub run_client-not_bot :
      (u : InputUser)
      → run_client lib c t ≡ ok u
      → c.calls_enabled ≡ true
      → (t.status_is_bot ≡ ok none) ⊎ (t.status_is_bot ≡ ok (some false))
  unfolding run_client verify_self bot_session_error
  run_client-not_bot u h calls = at t.status_is_bot refl
    where
      at :
          (s : Result lib.Error (Option Bool))
          → t.status_is_bot ≡ s
          → (t.status_is_bot ≡ ok none) ⊎ (t.status_is_bot ≡ ok (some false))
      at (ok none) e = inl e
      at (ok (some false)) e = inr e
      at (ok (some true)) e = absurd (ground arith)
      at (err x) e = absurd (ground arith)

  -- A target with a user id that is not zero and an explicit access hash is resolved as it is written, without asking Telegram: the
  -- answers of every resolving call may be what they like.
  pub resolve_peer-offline :
      (id hash : ℤ)
      → c.peer ≡ codes "id:" ++ (format_int id ++ b':' ∷ format_int hash)
      → IsInt64 id
      → IsInt64 hash
      → id ≢ pos 0
      → resolve_peer lib c t ≡ ok (input_user id hash)
  unfolding resolve_peer resolve_target
  resolve_peer-offline id hash e hi hh ne = simp (e, (parse_peer_target-ids id hash hi hh ne).1)
