-- ===== src/PeerCache/Bolt.antt =====
-- What the cache relies on of bbolt (go.etcd.io/bbolt): a database whose transactions read and write
-- buckets of keys and values. The laws are its documented behaviour.
use tgpager.Base.{Bool, false, Option, none, some, Bytes, Result, ok, ◌≡◌, ◌≢◌, ◌⊎◌}

pub record Bolt : Type 1 where
  pub State : Type 0
  pub Error : Type 0
  -- `bolt.Open` and `DB.Close`.
  pub open_db : Bytes → Result Error State
  pub close_db : State → Result Error State
  -- The error of a read transaction, if it cannot begin.
  pub view_error : State → Option Error
  -- `tx.Bucket(b) != nil`, and `Get` in a bucket.
  pub has_bucket : State → Bytes → Bool
  pub lookup : State → Bytes → Bytes → Option Bytes
  -- `Update` with the function that it runs, and the two calls inside one.
  pub update : State → (State → Result Error State) → Result Error State
  pub create_bucket : State → Bytes → Result Error State
  pub put : State → Bytes → Bytes → Bytes → Result Error State
  -- `errors.Wrapf`.
  pub wrapf : Bytes → Error → Error
  -- A missing bucket holds nothing.
  pub lookup_missing : (s : State) (b k : Bytes) → has_bucket s b ≡ false → lookup s b k ≡ none
  -- An update that succeeds has committed what its function made of the database.
  pub update_commits :
      (s t : State) (f : State → Result Error State) → update s f ≡ ok t → f s ≡ ok t
  -- Creating a bucket changes no value.
  pub create_keeps :
      (s t : State) (b c k : Bytes) → create_bucket s b ≡ ok t → lookup t c k ≡ lookup s c k
  -- A value put is the value read, and no other one changes.
  pub put_same : (s t : State) (b k v : Bytes) → put s b k v ≡ ok t → lookup t b k ≡ some v
  pub put_other :
      (s t : State) (b k v c j : Bytes)
      → put s b k v ≡ ok t
      → (c ≢ b) ⊎ (j ≢ k)
      → lookup t c j ≡ lookup s c j
