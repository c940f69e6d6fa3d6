-- ===== src/Tgcall/Peer.antt =====
-- internal/tgcall/peer.go: the call target, from its text to the user that is addressed.
pub mod Parse
pub mod Tests
use tgpager.Base.{
  ℕ, ◌+◌, Bool, true, false, not, ◌&&◌, ◌||◌, List, [], ◌∷◌, ◌++◌, Option, none, some, Bytes, codes,
  str_eq, has_prefix, cut_prefix, ℤ, pos, leb, ◌==◌, Result, ok, err, ◌>>=◌, map, if◌then◌else◌,
}
use tgpager.Strings.{cut_at}
use tgpager.Spaces.{trim_space}
use tgpager.Strconv.{parse_int}

pub data PeerKind : Type 0 where
  peer_username peer_phone peer_deeplink peer_id : PeerKind

pub record PeerTarget : Type 0 where
  pub kind : PeerKind
  pub value : Bytes
  pub user_id : ℤ
  pub access_hash : ℤ
  pub has_access_hash : Bool

pub data PeerError : Type 0 where
  empty_peer zero_user_id : PeerError
  invalid_username bad_user_id bad_access_hash : Bytes → PeerError

-- `strings.Cut` at a colon.
unfoldable pub cut_colon : Bytes → Bytes × Option Bytes
cut_colon s = cut_at b':' s

abbrev pub of_kind : PeerKind → Bytes → PeerTarget
of_kind kind value = record {
  kind = kind;
  value = value;
  user_id = pos 0;
  access_hash = pos 0;
  has_access_hash = false;
}

abbrev pub or_fail : {E A : Type 0} → Option A → E → Result E A
or_fail none e = err e
or_fail (some a) e = ok a

abbrev pub is_zero : ℤ → Bool
is_zero (pos n) = n == 0
is_zero z = false

abbrev pub id_target : Bytes → ℤ → PeerTarget
id_target s id = record {
  kind = peer_id;
  value = s;
  user_id = id;
  access_hash = pos 0;
  has_access_hash = false;
}

-- The part of `parsePeerID` behind the user id.
unfoldable pub with_hash : PeerTarget → Option Bytes → Result PeerError PeerTarget
with_hash t none = ok t
with_hash t (some hash_part) = do
  hash ← or_fail (parse_int hash_part) (bad_access_hash hash_part)
  ok (record t { access_hash = hash; has_access_hash = true })

unfoldable pub parse_peer_id : Bytes → Result PeerError PeerTarget
parse_peer_id s =
    let (id_part, hash_part) = cut_colon s in
    do
      id ← or_fail (parse_int id_part) (bad_user_id id_part)
      if is_zero id then err zero_user_id else with_hash (id_target s id) hash_part

-- `strings.ToLower`, on ASCII. No other rune is lowered to a letter of the prefixes below.
abbrev pub to_lower : ℕ → ℕ
to_lower c = if leb b'A' c && leb c b'Z' then c + 32 else c

unfoldable pub is_deeplink : Bytes → Bool
is_deeplink s =
    let lower = map to_lower s in
    has_prefix lower (codes "t.me/")
    || has_prefix lower (codes "http://")
    || has_prefix lower (codes "https://")
    || has_prefix lower (codes "tg:")

unfoldable pub is_phone : Bytes → Bool
is_phone [] = false
is_phone (c ∷ s) = c == b'+' || leb b'0' c && leb c b'9'

-- `strings.TrimPrefix`.
abbrev pub trim_prefix : Bytes → Bytes → Bytes
trim_prefix s p = elim (cut_prefix s p) [ none ↦ s | some rest ↦ rest ]

-- `parsePeerTarget` on a trimmed text.
unfoldable pub classify : Bytes → Result PeerError PeerTarget
classify s = if str_eq s [] then err empty_peer else elim (cut_prefix s (codes "id:")) [
  | some rest ↦ parse_peer_id rest
  | none ↦
      if is_deeplink s
      then ok (of_kind peer_deeplink s)
      else if is_phone s
      then ok (of_kind peer_phone s)
      else if str_eq (trim_prefix s (codes "@")) []
      then err (invalid_username s)
      else ok (of_kind peer_username (trim_prefix s (codes "@")))
]

unfoldable pub parse_peer_target : Bytes → Result PeerError PeerTarget
parse_peer_target s = classify (trim_space s)
