-- ===== src/PeerCache/Laws.antt =====
-- What the peer cache returns after it has saved something.
use tgpager.Base.{◌≡◌, ◌≢◌, inl, inr, refl, ◌∙◌, [], ◌∷◌, none, some, Bytes, ℤ, IsInt64, ok}
use tgpager.PeerCache.Bolt.{Bolt}
use tgpager.PeerCache.Codec.{
  Key, peer_key, i64b, b64i-i64b, parse_peer_key-peer_key, peer_key-injective, i64b-ne-nil,
  peer_key-ne-nil,
}
use tgpager.PeerCache.Storage.{
  peers_bucket, phones_bucket, meta_bucket, contacts_hash_key, save, find, save_phone, find_phone,
  get_contacts_hash, save_contacts_hash, decode_hash, find_decoded, decode_or_zero, get-store,
  get-store_other,
}

peers-ne-phones : peers_bucket ≢ phones_bucket
peers-ne-phones e = cc

module _ (bolt : Bolt) where
  open bolt use {State, Error, view_error}

  decode_hash-i64b : (v : ℤ) → IsInt64 v → decode_hash bolt (i64b v) ≡ ok (some v)
  decode_hash-i64b v h = at (i64b v) refl
    where
      at : (raw : Bytes) → i64b v ≡ raw → decode_hash bolt raw ≡ ok (some v)
      at [] e = absurd (i64b-ne-nil v e)
      at (b ∷ raw) e = rw (← e, b64i-i64b v h)

  -- If saving a peer succeeds and the database can be read after it, the access hash, an int64, is found
  -- again.
  pub find-save :
      (key : Key) (v : ℤ) (s t : State)
      → save bolt key v s ≡ ok t
      → view_error t ≡ none
      → IsInt64 v
      → find bolt key t ≡ ok (some v)
  unfolding find save
  find-save key v s t saved readable h =
      rw (get-store bolt peers_bucket (peer_key key) (i64b v) s t saved readable)
        (decode_hash-i64b v h)

  -- Saving a peer leaves what is found of every other one, if the database can be read before and
  -- after; the ids are int64 values.
  pub find-save_other :
      (key other : Key) (v : ℤ) (s t : State)
      → save bolt key v s ≡ ok t
      → other ≢ key
      → IsInt64 key.id
      → IsInt64 other.id
      → view_error s ≡ none
      → view_error t ≡ none
      → find bolt other t ≡ find bolt other s
  unfolding find save
  find-save_other key other v s t saved ne hk ho rs rt = rw (
      get-store_other bolt peers_bucket (peer_key key) (i64b v) peers_bucket (peer_key other) s t
        saved (inr (λ e. ne (peer_key-injective other key ho hk e))) rs rt)

  -- Saving a phone leaves what is found of every peer.
  find-save_phone :
      (phone : Bytes) (key other : Key) (s t : State)
      → save_phone bolt phone key s ≡ ok t
      → view_error s ≡ none
      → view_error t ≡ none
      → find bolt other t ≡ find bolt other s
  unfolding find save_phone
  find-save_phone phone key other s t phoned rs rt = rw (
      get-store_other bolt phones_bucket phone (peer_key key) peers_bucket (peer_key other) s t
        phoned (inl peers-ne-phones) rs rt)

  find_decoded-peer_key :
      (key : Key) (v : ℤ) (t : State)
      → IsInt64 key.id
      → find bolt key t ≡ ok (some v)
      → find_decoded bolt (peer_key key) t ≡ ok (some (key, v))
  find_decoded-peer_key key v t h found = at (peer_key key) refl
    where
      at : (raw : Bytes) → peer_key key ≡ raw → find_decoded bolt raw t ≡ ok (some (key, v))
      at [] e = absurd (peer_key-ne-nil key e)
      at (b ∷ raw) e = rw (← e, parse_peer_key-peer_key key h) (rw found)

  -- A peer that is saved, and its phone after it, is found by the phone with its access hash, if both
  -- saves succeed and the database can be read after each.
  pub find_phone-save_phone :
      (phone : Bytes) (key : Key) (v : ℤ) (s t u : State)
      → save bolt key v s ≡ ok t
      → save_phone bolt phone key t ≡ ok u
      → view_error t ≡ none
      → view_error u ≡ none
      → IsInt64 key.id
      → IsInt64 v
      → find_phone bolt phone u ≡ ok (some (key, v))
  unfolding find_phone save_phone
  find_phone-save_phone phone key v s t u saved phoned rt ru hk hv =
      rw (get-store bolt phones_bucket phone (peer_key key) t u phoned ru) (
        find_decoded-peer_key key v u hk
          (find-save_phone phone key key t u phoned rt ru ∙ find-save key v s t saved rt hv))

  -- The contacts hash, an int64, is read back as it was saved, if the save succeeds and the database can
  -- be read after it.
  pub get_contacts_hash-save :
      (v : ℤ) (s t : State)
      → save_contacts_hash bolt v s ≡ ok t
      → view_error t ≡ none
      → IsInt64 v
      → get_contacts_hash bolt t ≡ ok v
  unfolding get_contacts_hash save_contacts_hash
  get_contacts_hash-save v s t saved readable h =
      rw (get-store bolt meta_bucket contacts_hash_key (i64b v) s t saved readable)
        (at (i64b v) refl)
    where
      at : (raw : Bytes) → i64b v ≡ raw → decode_or_zero bolt raw ≡ ok v
      at [] e = absurd (i64b-ne-nil v e)
      at (b ∷ raw) e = rw (← e, b64i-i64b v h)
