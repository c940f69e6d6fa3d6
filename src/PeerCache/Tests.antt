-- ===== src/PeerCache/Tests.antt =====
-- A database as a list of entries, newest first, and the theorems at it.
use tgpager.Base.{
  ◌≡◌, ◌≢◌, ◌⊎◌, refl, true, false, ◌&&◌, List, [], ◌∷◌, Option, none, some, Bytes, codes, pos,
  negsuc, Result, ok, err, str_eq, str_eq_iff, str_eq_refl, if◌then◌else◌, arith,
}
use tgpager.Strconv.{digits, format_int}
use tgpager.PeerCache.Bolt.{Bolt}
use tgpager.PeerCache.Codec.{Key, peer_key, parse_peer_key, i64b, malformed_key}
use tgpager.PeerCache.Storage.{save, find, save_phone, find_phone, save_contacts_hash, store}
use tgpager.PeerCache.Laws.{find-save, find_phone-save_phone}

abbrev Entries : Type 0
Entries = List (Bytes × Bytes × Bytes)

abbrev read_entry : Entries → Bytes → Bytes → Option Bytes
read_entry [] b k = none
read_entry ((c, j, v) ∷ s) b k = if str_eq c b && str_eq j k then some v else read_entry s b k

true-ne-false : true ≢ false
true-ne-false e = cc

create_keeps :
    (s t : Entries) (b c k : Bytes)
    → ◌≡◌ {A = Result (Unit {0}) Entries} (ok s) (ok t)
    → read_entry t c k ≡ read_entry s c k
create_keeps s t b c k h = cc

put_same :
    (s t : Entries) (b k v : Bytes)
    → ◌≡◌ {A = Result (Unit {0}) Entries} (ok ((b, k, v) ∷ s)) (ok t)
    → read_entry t b k ≡ some v
put_same s t b k v h = ground (arith, str_eq_refl b, str_eq_refl k)

put_other :
    (s t : Entries) (b k v c j : Bytes)
    → ◌≡◌ {A = Result (Unit {0}) Entries} (ok ((b, k, v) ∷ s)) (ok t)
    → (c ≢ b) ⊎ (j ≢ k)
    → read_entry t c j ≡ read_entry s c j
put_other s t b k v c j h ne = ground (arith, str_eq_iff b c, str_eq_iff k j)

abbrev in_memory : Bolt
in_memory = record {
  State = Entries;
  Error = Unit {0};
  open_db = λ path. ok [];
  close_db = λ s. ok s;
  view_error = λ s. none;
  has_bucket = λ s b. true;
  lookup = read_entry;
  update = λ s f. f s;
  create_bucket = λ s b. ok s;
  put = λ s b k v. ok ((b, k, v) ∷ s);
  wrapf = λ b e. e;
  lookup_missing = λ s b k h. absurd (true-ne-false h);
  update_commits = λ s t f h. h;
  create_keeps = create_keeps;
  put_same = put_same;
  put_other = put_other;
}

abbrev alice : Key
alice = record { prefix = codes "users_"; id = pos 42 }

abbrev channel : Key
channel = record { prefix = codes "chan:"; id = negsuc 1000 }

abbrev saved : Entries
saved = (codes "peers", codes "users_:42", 0 ∷ 0 ∷ 0 ∷ 0 ∷ 0 ∷ 0 ∷ 1 ∷ 2 ∷ []) ∷ []

abbrev phoned : Entries
phoned = (codes "phones", codes "+100", codes "users_:42") ∷ saved

channel-ne-alice : channel ≢ alice
channel-ne-alice e = cc

key_text : peer_key channel ≡ codes "chan::-1001"
unfolding peer_key format_int digits
key_text = refl

no_colon : parse_peer_key (codes "users") ≡ err (malformed_key (codes "users"))
unfolding parse_peer_key
no_colon = refl

hash_bytes : i64b (negsuc 0) ≡ 255 ∷ 255 ∷ 255 ∷ 255 ∷ 255 ∷ 255 ∷ 255 ∷ 255 ∷ []
unfolding i64b
hash_bytes = refl

saves : save in_memory alice (pos 258) [] ≡ ok saved
unfolding save store peer_key format_int digits i64b
saves = refl

saves_phone : save_phone in_memory (codes "+100") alice saved ≡ ok phoned
unfolding save_phone store peer_key format_int digits
saves_phone = refl

saves_contacts :
    save_contacts_hash in_memory (negsuc 0) []
    ≡ ok ((codes "meta", codes "contacts_hash", i64b (negsuc 0)) ∷ [])
unfolding save_contacts_hash store
saves_contacts = refl

find-save_example : find in_memory alice saved ≡ ok (some (pos 258))
find-save_example = find-save in_memory alice (pos 258) [] saved saves refl (omega arith)

find_phone-save_phone_example :
    find_phone in_memory (codes "+100") phoned ≡ ok (some (alice, pos 258))
find_phone-save_phone_example =
    find_phone-save_phone in_memory (codes "+100") alice (pos 258) [] saved phoned saves saves_phone
      refl refl (omega arith) (omega arith)
