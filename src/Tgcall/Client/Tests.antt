-- ===== src/Tgcall/Client/Tests.antt =====
-- Clients, started against sample answers of Telegram.
use tgpager.Base.{
  ◌≡◌, ◌⊎◌, refl, true, false, List, [], ◌∷◌, ◌++◌, none, some, codes, str_eq, cut_prefix,
  has_prefix, pos, negsuc, ok, err, arith,
}
use tgpager.Spaces.{trim_space, strip_space, strip_space_back, strip_all}
use tgpager.Strconv.{format_int}
use tgpager.Tgcall.Sample.{made, rpc, failures}
use tgpager.Tgcall.Call.{input_user}
use tgpager.Tgcall.Peer.{parse_peer_target, classify, is_deeplink, is_phone}
use tgpager.Telemetry.{noop}
use tgpager.Tgcall.Client.{
  ClientOption, with_peer, with_retry, with_bot_token, new_client, apply, apply_all, User, Telegram,
  run_client, authenticate, authenticate_bot, verify_self, bot_session_error, resolve_peer,
  resolve_target, resolve_user, accept_user,
}
use tgpager.Tgcall.Client.Gate.{run_client-not_bot, resolve_peer-offline}

abbrev oncall : User
oncall = record { is_bot = false; is_self = false; input = input_user (pos 42) (pos 9) }

abbrev answers : Telegram failures
answers = record {
  meters = λ n. noop;
  status_authorized = ok true;
  sign_in_bot = ok tt;
  sign_in_user = ok tt;
  status_is_bot = ok (some false);
  resolve_phone = λ p. err (rpc (codes "PHONE_NOT_OCCUPIED"));
  resolve_user_id = λ i. ok oncall;
  resolve_domain = λ d. ok (some oncall);
  resolve_deeplink = λ l. ok none;
}

abbrev by_name : List ClientOption
by_name = with_peer (codes "@oncall") ∷ with_retry (pos 0) (pos 5) ∷ []

abbrev by_hash : List ClientOption
by_hash = with_peer (codes "id:" ++ (format_int (pos 7) ++ b':' ∷ format_int (negsuc 2))) ∷ []

abbrev with_bot : List ClientOption
with_bot = with_bot_token (codes "123:abc") ∷ with_peer (codes "@oncall") ∷ []

run_sample :
    run_client failures (new_client (pos 17) (codes "hash") (codes "s.json") by_name) answers
    ≡ ok (input_user (pos 42) (pos 9))
unfolding run_client authenticate authenticate_bot verify_self bot_session_error resolve_peer
    resolve_target resolve_user accept_user new_client apply_all apply parse_peer_target trim_space
    strip_space strip_space_back strip_all classify str_eq cut_prefix has_prefix is_deeplink
    is_phone
run_sample = refl

-- A session that turns out to be a bot's is refused, since calls are enabled.
run_sample_bot :
    run_client failures
      (new_client (pos 17) (codes "hash") (codes "s.json") with_bot)
      (record answers { status_is_bot = ok (some true) })
    ≡ err (made (codes "session is a bot, but calls are enabled: bots cannot place calls"))
unfolding run_client authenticate authenticate_bot verify_self bot_session_error new_client
    apply_all apply str_eq
run_sample_bot = refl

calls_by_default :
    (new_client (pos 17) (codes "hash") (codes "s.json") by_name).calls_enabled ≡ true
unfolding new_client apply_all apply
calls_by_default = refl

run_client-not_bot_example :
    (answers.status_is_bot ≡ ok none) ⊎ (answers.status_is_bot ≡ ok (some false))
run_client-not_bot_example =
    run_client-not_bot failures (new_client (pos 17) (codes "hash") (codes "s.json") by_name)
      answers (input_user (pos 42) (pos 9)) run_sample calls_by_default

peer_by_hash :
    (new_client (pos 17) (codes "hash") (codes "s.json") by_hash).peer
    ≡ codes "id:" ++ (format_int (pos 7) ++ b':' ∷ format_int (negsuc 2))
unfolding new_client apply_all apply
peer_by_hash = refl

resolve_peer-offline_example :
    resolve_peer failures (new_client (pos 17) (codes "hash") (codes "s.json") by_hash) answers
    ≡ ok (input_user (pos 7) (negsuc 2))
resolve_peer-offline_example =
    resolve_peer-offline failures (new_client (pos 17) (codes "hash") (codes "s.json") by_hash)
      answers (pos 7) (negsuc 2) peer_by_hash (omega arith) (omega arith) (λ e. ground arith)
