-- ===== src/Tgcall/Peer/Tests.antt =====
-- The forms of a peer, parsed.
use tgpager.Base.{◌≡◌, refl, codes, str_eq, cut_prefix, has_prefix, ok}
use tgpager.Spaces.{trim_space, strip_space, strip_space_back, strip_all}
use tgpager.Tgcall.Peer.{
  peer_username, peer_deeplink, parse_peer_target, classify, of_kind, is_deeplink, is_phone,
}

parse_sample : parse_peer_target (codes " @oncall ") ≡ ok (of_kind peer_username (codes "oncall"))
unfolding parse_peer_target trim_space strip_space strip_space_back strip_all classify str_eq
    cut_prefix has_prefix is_deeplink is_phone
parse_sample = refl

parse_sample_link :
    parse_peer_target (codes "T.me/oncall") ≡ ok (of_kind peer_deeplink (codes "T.me/oncall"))
unfolding parse_peer_target trim_space strip_space strip_space_back strip_all classify str_eq
    cut_prefix has_prefix is_deeplink is_phone
parse_sample_link = refl
