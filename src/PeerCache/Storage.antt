-- ===== src/PeerCache/Storage.antt =====
-- The operations of `Storage` over a bbolt database, and what one reads after another.
use tgpager.Base.{
  ◌≡◌, ◌≢◌, ◌⊎◌, Bool, true, false, [], ◌∷◌, Option, none, some, Bytes, codes, ℤ, pos, Result, ok,
  err, ◌>>=◌, if◌then◌else◌, arith,
}
use tgpager.PeerCache.Bolt.{Bolt}
use tgpager.PeerCache.Codec.{Key, CodecError, peer_key, parse_peer_key, i64b, b64i}

abbrev pub peers_bucket : Bytes
peers_bucket = codes "peers"

abbrev pub phones_bucket : Bytes
phones_bucket = codes "phones"

abbrev pub meta_bucket : Bytes
meta_bucket = codes "meta"

abbrev pub contacts_hash_key : Bytes
contacts_hash_key = codes "contacts_hash"

pub data StorageError (E : Type 0) : Type 0 where
  database : E → StorageError E
  codec : CodecError → StorageError E

abbrev pub from_codec : {E A : Type 0} → Result CodecError A → Result (StorageError E) A
from_codec (ok a) = ok a
from_codec (err e) = err (codec e)

abbrev pub from_database : {E A : Type 0} → Result E A → Result (StorageError E) A
from_database (ok a) = ok a
from_database (err e) = err (database e)

module _ (bolt : Bolt) where
  open bolt use {
    State, Error, open_db, close_db, view_error, has_bucket, lookup, update, create_bucket, put,
    wrapf, lookup_missing, update_commits, create_keeps, put_same, put_other,
  }

  pub record Storage : Type 0 where
    pub db : State
    pub owned : Bool

  -- `Open` owns its database, `New` does not, and `Close` closes only an owned one.
  unfoldable pub open_storage : Bytes → Result Error Storage
  open_storage path = elim (open_db path) [
    | err e ↦ err (wrapf path e)
    | ok db ↦ ok (record { db = db; owned = true })
  ]

  unfoldable pub new : State → Storage
  new db = record { db = db; owned = false }

  unfoldable pub close : Storage → Result Error State
  close s = if s.owned then close_db s.db else ok s.db

  -- `Storage.put`: the transaction creates the bucket if it is not there.
  unfoldable pub store : Bytes → Bytes → Bytes → State → Result Error State
  store bucket key value s = update s λ tx. elim (create_bucket tx bucket) [
    | err e ↦ err (wrapf bucket e)
    | ok b ↦ put b bucket key value
  ]

  -- `Storage.get`: [] is Go's nil, which a copy of an empty value is as well.
  unfoldable pub get : Bytes → Bytes → State → Result Error Bytes
  get bucket key s = elim (view_error s) [
    | some e ↦ err e
    | none ↦
        if has_bucket s bucket
        then elim (lookup s bucket key) [ none ↦ ok [] | some raw ↦ ok raw ]
        else ok []
  ]

  unfoldable pub save : Key → ℤ → State → Result Error State
  save key access_hash s = store peers_bucket (peer_key key) (i64b access_hash) s

  -- What a found value is decoded to: nothing from nil.
  abbrev pub decode_hash : Bytes → Result (StorageError Error) (Option ℤ)
  decode_hash [] = ok none
  decode_hash (b ∷ raw) = do hash ← from_codec (b64i (b ∷ raw)); ok (some hash)

  unfoldable pub find : Key → State → Result (StorageError Error) (Option ℤ)
  find key s = do raw ← from_database (get peers_bucket (peer_key key) s); decode_hash raw

  unfoldable pub save_phone : Bytes → Key → State → Result Error State
  save_phone phone key s = store phones_bucket phone (peer_key key) s

  abbrev pub find_decoded : Bytes → State → Result (StorageError Error) (Option (Key × ℤ))
  find_decoded [] s = ok none
  find_decoded (b ∷ raw) s = do
    key ← from_codec (parse_peer_key (b ∷ raw))
    found ← find key s
    elim found [ none ↦ ok none | some hash ↦ ok (some (key, hash)) ]

  unfoldable pub find_phone : Bytes → State → Result (StorageError Error) (Option (Key × ℤ))
  find_phone phone s = do raw ← from_database (get phones_bucket phone s); find_decoded raw s

  abbrev pub decode_or_zero : Bytes → Result (StorageError Error) ℤ
  decode_or_zero [] = ok (pos 0)
  decode_or_zero (b ∷ raw) = from_codec (b64i (b ∷ raw))

  unfoldable pub get_contacts_hash : State → Result (StorageError Error) ℤ
  get_contacts_hash s = do
    raw ← from_database (get meta_bucket contacts_hash_key s)
    decode_or_zero raw

  unfoldable pub save_contacts_hash : ℤ → State → Result Error State
  save_contacts_hash hash s = store meta_bucket contacts_hash_key (i64b hash) s

  -- The value that `get` shows for a key.
  abbrev value_or_nil : Option Bytes → Bytes
  value_or_nil none = []
  value_or_nil (some raw) = raw

  get-lookup :
      (bucket key : Bytes) (s : State)
      → view_error s ≡ none
      → get bucket key s ≡ ok (value_or_nil (lookup s bucket key))
  unfolding get
  get-lookup bucket key s h = ground (arith, lookup_missing s bucket key)

  store_commits :
      (bucket key value : Bytes) (s t : State)
      → store bucket key value s ≡ ok t
      → (u : State) × (create_bucket s bucket ≡ ok u) × (put u bucket key value ≡ ok t)
  unfolding store
  store_commits bucket key value s t h = ground (arith, update_commits s t _ h)

  -- A stored value is read back.
  pub get-store :
      (bucket key value : Bytes) (s t : State)
      → store bucket key value s ≡ ok t
      → view_error t ≡ none
      → get bucket key t ≡ ok value
  get-store bucket key value s t h v =
      let (u, c, p) = store_commits bucket key value s t h in
      ground (arith, get-lookup bucket key t v, put_same u t bucket key value p)

  -- Every other value is left as it was.
  pub get-store_other :
      (bucket key value c j : Bytes) (s t : State)
      → store bucket key value s ≡ ok t
      → (c ≢ bucket) ⊎ (j ≢ key)
      → view_error s ≡ none
      → view_error t ≡ none
      → get c j t ≡ get c j s
  get-store_other bucket key value c j s t h ne vs vt =
      let (u, cr, p) = store_commits bucket key value s t h in
      ground (
        arith,
        get-lookup c j t vt,
        get-lookup c j s vs,
        put_other u t bucket key value c j p ne,
        create_keeps s u bucket c j cr,
      )
