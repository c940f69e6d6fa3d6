-- ===== src/Tgcall/Peer/Parse.antt =====
-- What `parsePeerTarget` makes of a text.
use tgpager.Base.{
  ◌≡◌, ◌≢◌, ◌⊎◌, inl, inr, refl, ◌∙◌, true, false, [], ◌∷◌, ◌++◌, none, some, Bytes, codes, str_eq,
  str_eq_iff, has_prefix, cut_prefix, All, All-append, ℤ, pos, negsuc, IsInt64, ok, arith,
  Option-cases,
}
use tgpager.Strings.{cut_at_found, cut_at_missing}
use tgpager.Spaces.{IsVisible, trim_space, trim_space-visible}
use tgpager.Strconv.{format_int, parse_int-format_int, format_int-lacks, format_int-IsVisible}
use tgpager.Tgcall.Peer.{
  peer_id, PeerTarget, cut_colon, id_target, with_hash, parse_peer_id, classify, parse_peer_target,
  is_zero, trim_prefix,
}

cut_colon_found : (p t : Bytes) → All (λ c. c ≢ b':') p → cut_colon (p ++ b':' ∷ t) ≡ (p, some t)
unfolding cut_colon
cut_colon_found p t h = cut_at_found b':' p t h

cut_colon_missing : (p : Bytes) → All (λ c. c ≢ b':') p → cut_colon p ≡ (p, none)
unfolding cut_colon
cut_colon_missing p h = cut_at_missing b':' p h

is_zero-false : (z : ℤ) → z ≢ pos 0 → is_zero z ≡ false
is_zero-false (pos n) h = ground arith
is_zero-false (negsuc n) h = refl

parse_peer_id-hash :
    (id hash : ℤ)
    → IsInt64 id
    → IsInt64 hash
    → id ≢ pos 0
    → parse_peer_id (format_int id ++ b':' ∷ format_int hash)
      ≡ ok (record (id_target (format_int id ++ b':' ∷ format_int hash) id) {
        access_hash = hash;
        has_access_hash = true;
      })
unfolding parse_peer_id with_hash
parse_peer_id-hash id hash hi hh ne =
    rw
      (
        cut_colon_found (format_int id) (format_int hash) (format_int-lacks id),
        parse_int-format_int id hi,
      )
      (rw (is_zero-false id ne) (rw (parse_int-format_int hash hh)))

parse_peer_id-bare :
    (id : ℤ)
    → IsInt64 id
    → id ≢ pos 0
    → parse_peer_id (format_int id) ≡ ok (id_target (format_int id) id)
unfolding parse_peer_id with_hash
parse_peer_id-bare id hi ne =
    rw (cut_colon_missing (format_int id) (format_int-lacks id), parse_int-format_int id hi)
      (rw (is_zero-false id ne))

-- A visible text behind "id:" is parsed as a user id.
parse_peer_target-id :
    (s : Bytes) → All IsVisible s → parse_peer_target (codes "id:" ++ s) ≡ parse_peer_id s
unfolding parse_peer_target classify cut_prefix has_prefix str_eq
parse_peer_target-id s h =
    rw
      (trim_space-visible (codes "id:" ++ s) (All-append IsVisible (codes "id:") s (omega arith) h))

-- The forms "id:<user id>" and "id:<user id>:<access hash>" stand for the numbers written in them,
-- for every user id that is not zero and every access hash.
pub parse_peer_target-ids :
    (id hash : ℤ)
    → IsInt64 id
    → IsInt64 hash
    → id ≢ pos 0
    → (parse_peer_target (codes "id:" ++ format_int id) ≡ ok (id_target (format_int id) id))
      × (parse_peer_target (codes "id:" ++ (format_int id ++ b':' ∷ format_int hash))
          ≡ ok (record (id_target (format_int id ++ b':' ∷ format_int hash) id) {
            access_hash = hash;
            has_access_hash = true;
          }))
parse_peer_target-ids id hash hi hh ne = (
  parse_peer_target-id (format_int id) (format_int-IsVisible id) ∙ parse_peer_id-bare id hi ne,
  parse_peer_target-id (format_int id ++ b':' ∷ format_int hash) (
        All-append IsVisible (format_int id) (b':' ∷ format_int hash) (format_int-IsVisible id)
          (omega arith, format_int-IsVisible hash))
      ∙ parse_peer_id-hash id hash hi hh ne,
)

-- A target that the client can use: a user id that is not zero, or a name, phone or link that is not
-- empty and carries no access hash.
abbrev pub IsTarget : PeerTarget → Type 0
IsTarget t =
    ((t.kind ≡ peer_id) × (t.user_id ≢ pos 0))
    ⊎ ((t.kind ≢ peer_id) × (t.value ≢ []) × (t.has_access_hash ≡ false))

parse_peer_id-IsTarget : (s : Bytes) (t : PeerTarget) → parse_peer_id s ≡ ok t → IsTarget t
unfolding parse_peer_id with_hash
parse_peer_id-IsTarget s t h = inl (ground arith, λ e. ground arith)

classify-IsTarget : (s : Bytes) (t : PeerTarget) → classify s ≡ ok t → IsTarget t
unfolding classify
classify-IsTarget s t h = elim (Option-cases (cut_prefix s (codes "id:"))) [
  | inr (rest, found) ↦ parse_peer_id-IsTarget rest t (ground arith)
  | inl missing ↦ inr (
    λ e. ground arith,
    λ e. ground (arith, str_eq_iff s [], str_eq_iff (trim_prefix s (codes "@")) []),
    ground arith,
  )
]

-- Every text that is accepted gives a target that the client can use: a user id that is not zero, or
-- a name, phone or link that is not empty and carries no access hash.
pub parse_peer_target-IsTarget :
    (s : Bytes) (t : PeerTarget) → parse_peer_target s ≡ ok t → IsTarget t
unfolding parse_peer_target
parse_peer_target-IsTarget s t h = classify-IsTarget (trim_space s) t h
