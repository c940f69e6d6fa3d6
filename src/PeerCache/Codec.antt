-- ===== src/PeerCache/Codec.antt =====
-- The keys and the values of the cache as bytes: `peerKey`, `parsePeerKey`, `i64b` and `b64i`.
use tgpager.Base.{
  ℕ, zero, suc, ◌+◌, ◌*◌, ◌/◌, ◌%◌, ◌^◌, ◌≤◌, ◌<◌, ◌≡◌, refl, [], ◌∷◌, ◌++◌, none, some, Bytes,
  byte_at, length, take, drop, All, ℤ, pos, negsuc, IsInt64, to_u64, of_u64, of_u64-to_u64, Result,
  ok, err, ◌==◌, not, if◌then◌else◌, arith, ◌≢◌, take-append, length-append, get_elem?-append, ◌∙◌,
  ap, sym,
}
use tgpager.Strconv.{format_int, parse_int, parse_int-format_int, format_int-lacks}

-- `peers.Key` of gotd.
pub record Key : Type 0 where
  pub prefix : Bytes
  pub id : ℤ

pub data CodecError : Type 0 where
  malformed_key bad_id : Bytes → CodecError
  malformed_value : ℕ → CodecError

unfoldable pub peer_key : Key → Bytes
peer_key k = k.prefix ++ (b':' ∷ format_int k.id)

-- The key read at a colon at `i`.
unfoldable pub key_at : Bytes → ℕ → Result CodecError Key
key_at s i = elim (parse_int (drop (i + 1) s)) [
  | none ↦ err (bad_id s)
  | some id ↦ ok (record { prefix = take i s; id = id })
]

-- The loop of `parsePeerKey`, with `i` counting down from the argument less one.
unfoldable pub parse_below : Bytes → ℕ → Result CodecError Key
parse_below s zero = err (malformed_key s)
parse_below s (suc i) =
    let rest = parse_below s i in if not (byte_at s i == b':') then rest else key_at s i

unfoldable pub parse_peer_key : Bytes → Result CodecError Key
unfolding parse_below key_at
parse_peer_key s = parse_below s (length s)

-- `binary.BigEndian.PutUint64` and `Uint64`, at any width.
unfoldable pub put_big_endian : ℕ → ℕ → Bytes
put_big_endian zero w = []
put_big_endian (suc n) w = (w / 256 ^ n % 256) ∷ put_big_endian n w

unfoldable pub big_endian : Bytes → ℕ → ℕ
big_endian [] w = w
big_endian (b ∷ s) w = big_endian s (w * 256 + b)

unfoldable pub i64b : ℤ → Bytes
unfolding put_big_endian
i64b v = put_big_endian 8 (to_u64 v)

unfoldable pub b64i : Bytes → Result CodecError ℤ
unfolding big_endian
b64i b =
    if not (length b == 8) then err (malformed_value (length b)) else ok (of_u64 (big_endian b 0))

eight_bytes : (w : ℕ) → w < 2 ^ 64 → big_endian (put_big_endian 8 w) 0 ≡ w
unfolding big_endian put_big_endian
eight_bytes w h = omega arith

to_u64-lt : (v : ℤ) → to_u64 v < 2 ^ 64
to_u64-lt (pos n) = omega arith
to_u64-lt (negsuc n) = omega arith

length-put_big_endian : (n w : ℕ) → length (put_big_endian n w) ≡ n
unfolding put_big_endian
length-put_big_endian zero w = refl
length-put_big_endian (suc n) w = ap suc (length-put_big_endian n w)

-- Every int64 is read back from its eight bytes.
pub b64i-i64b : (v : ℤ) → IsInt64 v → b64i (i64b v) ≡ ok v
b64i-i64b v h =
    unfold b64i i64b in rw (eight_bytes (to_u64 v) (to_u64-lt v)) (ap ok (of_u64-to_u64 v h))

parse_below_hit : (s : Bytes) (i : ℕ) → byte_at s i ≡ b':' → parse_below s (suc i) ≡ key_at s i
unfolding parse_below
parse_below_hit s i h = ground arith

parse_below_miss :
    (s : Bytes) (i : ℕ) → byte_at s i ≢ b':' → parse_below s (suc i) ≡ parse_below s i
unfolding parse_below
parse_below_miss s i h = ground arith

byte_at-append : (p t : Bytes) (i : ℕ) → byte_at (p ++ t) (length p + i) ≡ byte_at t i
byte_at-append p t i = rw (get_elem?-append p t i, byte_at)

All-byte_at : (P : ℕ → Type 0) (t : Bytes) (i : ℕ) → All P t → i < length t → P (byte_at t i)
All-byte_at P [] i h lt = absurd (omega arith)
All-byte_at P (c ∷ t) zero h lt = h.0
All-byte_at P (c ∷ t) (suc i) h lt = All-byte_at P t i h.1 (omega arith)

-- The colon of a key is found from behind: what follows it has none.
parse_below_behind :
    (p t : Bytes) (n : ℕ)
    → All (λ c. c ≢ b':') t
    → n ≤ length t
    → parse_below (p ++ b':' ∷ t) (suc (length p + n)) ≡ key_at (p ++ b':' ∷ t) (length p)
parse_below_behind p t zero h le =
    let e : length p + 0 ≡ length p = omega arith in
    rw e (parse_below_hit _ (length p) (rw (← e) (byte_at-append p (b':' ∷ t) 0)))
parse_below_behind p t (suc n) h le =
    let e : length p + suc n ≡ suc (length p + n) = omega arith in
    parse_below_miss _ (length p + suc n)
      (λ c. All-byte_at _ t n h le (sym (byte_at-append p (b':' ∷ t) (suc n)) ∙ c))
    ∙ rw e (parse_below_behind p t n h (omega arith))

drop-colon : (p t : Bytes) → drop (length p + 1) (p ++ b':' ∷ t) ≡ t
drop-colon [] t = refl
drop-colon (c ∷ p) t =
    let e : suc (length p) + 1 ≡ suc (length p + 1) = omega arith in rw e (drop-colon p t)

key_at-peer_key :
    (p : Bytes) (id : ℤ)
    → IsInt64 id
    → key_at (p ++ b':' ∷ format_int id) (length p) ≡ ok (record { prefix = p; id = id })
unfolding key_at
key_at-peer_key p id h =
    rw (drop-colon p (format_int id), parse_int-format_int id h, key_at)
      (rw (take-append p (b':' ∷ format_int id)))

colon :
    (p t : Bytes)
    → All (λ c. c ≢ b':') t
    → parse_below (p ++ b':' ∷ t) (length (p ++ b':' ∷ t)) ≡ key_at (p ++ b':' ∷ t) (length p)
colon p t h =
    let e : length (p ++ b':' ∷ t) ≡ suc (length p + length t) =
      omega (arith, length-append p (b':' ∷ t)) in
    rw e (parse_below_behind p t (length t) h (omega arith))

-- Every key is read back from its encoding, whatever bytes its prefix holds.
pub parse_peer_key-peer_key : (k : Key) → IsInt64 k.id → parse_peer_key (peer_key k) ≡ ok k
unfolding parse_peer_key peer_key
parse_peer_key-peer_key k h =
    colon k.prefix (format_int k.id) (format_int-lacks k.id) ∙ key_at-peer_key k.prefix k.id h

ok-injective : {a b : Key} → ◌≡◌ {A = Result CodecError Key} (ok a) (ok b) → a ≡ b
ok-injective e = cc

append_colon : (p t : Bytes) → p ++ b':' ∷ t ≢ []
append_colon [] t e = cc
append_colon (c ∷ p) t e = cc

-- Two keys with one encoding are equal.
pub peer_key-injective : (j k : Key) → IsInt64 j.id → IsInt64 k.id → peer_key j ≡ peer_key k → j ≡ k
peer_key-injective j k hj hk e =
    ok-injective
      (sym (parse_peer_key-peer_key j hj) ∙ ap parse_peer_key e ∙ parse_peer_key-peer_key k hk)

pub i64b-ne-nil : (v : ℤ) → i64b v ≢ []
unfolding i64b
i64b-ne-nil v e = cc

pub peer_key-ne-nil : (k : Key) → peer_key k ≢ []
unfolding peer_key
peer_key-ne-nil k = append_colon k.prefix (format_int k.id)
