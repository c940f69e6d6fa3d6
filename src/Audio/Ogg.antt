-- ===== src/Audio/Ogg.antt =====
-- internal/audio/ogg.go: the playable length of an Ogg/Opus file, from its first and last bytes.
pub mod Granule
pub mod Duration
pub mod Tests
use tgpager.Base.{
  ℕ, zero, suc, ◌+◌, ◌-◌, ◌*◌, ◌/◌, ◌%◌, ◌^◌, ◌≤◌, ◌<◌, Bool, true, false, not, ◌&&◌, List, [], ◌∷◌,
  Option, none, some, Bytes, codes, str_eq, index, byte_at, slice, length, take, drop, ℤ, pos,
  of_u64, Result, ok, err, ◌>>=◌, ◌>>◌, ensure, ltb, leb, ◌==◌, if◌then◌else◌,
}
use Prim.Native.Nat.{min}

abbrev pub ogg_page_header_size : ℕ
ogg_page_header_size = 27

abbrev pub opus_head_size : ℕ
opus_head_size = 19

abbrev pub ogg_head_window : ℕ
ogg_head_window = 4096

abbrev pub ogg_tail_window : ℕ
ogg_tail_window = 131072

abbrev pub ogg_magic : Bytes
ogg_magic = codes "OggS"

abbrev pub opus_magic : Bytes
opus_magic = codes "OpusHead"

-- `sampleRate` of ffmpeg.go.
abbrev pub sample_rate : ℕ
sample_rate = 48000

abbrev pub nanoseconds : ℕ
nanoseconds = 1000000000

-- `int64(math.MaxInt64/time.Second)`.
abbrev pub max_seconds : ℕ
max_seconds = 9223372036

pub data OggError : Type 0 where
  open_failed stat_failed read_header_failed read_tail_failed : OggError
  no_opus_head no_granule : OggError
  implausible : ℕ → OggError

-- The file as the calls of `os` show it: its bytes, and which calls succeed.
pub record OggFile : Type 0 where
  pub bytes : Bytes
  pub opens : Bool
  pub stats : Bool
  pub head_reads : Bool
  pub tail_reads : Bool

-- `binary.LittleEndian`, at any width.
unfoldable pub little_endian : Bytes → ℕ
little_endian [] = 0
little_endian (b ∷ s) = b + 256 * little_endian s

unfoldable pub opus_pre_skip : Bytes → Result OggError ℕ
opus_pre_skip head = elim (index head opus_magic) [
  | none ↦ err no_opus_head
  | some i ↦
      if ltb (length head - i) opus_head_size
      then err no_opus_head
      else ok (little_endian (slice head (i + 10) (i + 12)))
]

-- The test of the loop: the magic at `i` and version 0 behind it.
abbrev pub page_at : Bytes → ℕ → Bool
page_at tail i = str_eq (slice tail i (i + 4)) ogg_magic && byte_at tail (i + 4) == 0

-- The granule position in the page header at `i`, as the 64 bits that stand there.
abbrev pub granule_at : Bytes → ℕ → ℕ
granule_at tail i = little_endian (slice tail (i + 6) (i + 14))

-- The loop with `i` counting down from the argument less one. As an int64 the granule is not negative
-- if its bits are below 2^63.
unfoldable pub scan_back : Bytes → ℕ → Option ℕ
scan_back tail zero = none
scan_back tail (suc i) =
    let rest = scan_back tail i in
    if not (page_at tail i)
    then rest
    else if ltb (granule_at tail i) (2 ^ 63)
    then some (granule_at tail i)
    else rest

unfoldable pub last_granule : Bytes → Result OggError ℕ
last_granule tail = elim (scan_back tail (length tail + 1 - ogg_page_header_size)) [
  | none ↦ err no_granule
  | some g ↦ ok g
]

-- `samplesDuration`, for a positive count: the sum is an int64, so it wraps.
unfoldable pub samples_duration : ℕ → Result OggError ℤ
samples_duration samples =
    let seconds = samples / sample_rate in
    let remainder = samples % sample_rate in
    if ltb max_seconds seconds
    then err (implausible samples)
    else ok (of_u64 ((seconds * nanoseconds + remainder * nanoseconds / sample_rate) % 2 ^ 64))

-- `OggDuration` from the two positions on.
unfoldable pub playable : ℕ → ℕ → Result OggError ℤ
playable granule pre_skip =
    if leb granule pre_skip then ok (pos 0) else samples_duration (granule - pre_skip)

-- `min(size, oggHeadWindow)` bytes from the start, and the like from the end.
abbrev pub head_of : Bytes → Bytes
head_of bytes = take (min (length bytes) ogg_head_window) bytes

abbrev pub tail_of : Bytes → Bytes
tail_of bytes = drop (length bytes - min (length bytes) ogg_tail_window) bytes

unfoldable pub ogg_duration : OggFile → Result OggError ℤ
ogg_duration f = do
  ensure f.opens open_failed
  ensure f.stats stat_failed
  ensure f.head_reads read_header_failed
  pre_skip ← opus_pre_skip (head_of f.bytes)
  ensure f.tail_reads read_tail_failed
  granule ← last_granule (tail_of f.bytes)
  playable granule pre_skip
