-- ===== src/Audio/Ogg/Duration.antt =====
-- The conversion of a sample count to nanoseconds in internal/audio/ogg.go.
use tgpager.Base.{
  ℕ, ◌+◌, ◌-◌, ◌*◌, ◌/◌, ◌^◌, ◌≤◌, ◌<◌, ◌≡◌, pos, negsuc, ok, err, arith, length, true,
}
use tgpager.Audio.Ogg.{
  OggFile, ogg_page_header_size, ogg_duration, opus_pre_skip, head_of, tail_of, granule_at,
  samples_duration, playable, implausible, sample_rate, nanoseconds, max_seconds,
}
use tgpager.Audio.Ogg.Granule.{Completes, Silent, last_granule_at}

-- The largest sample count whose length in nanoseconds is an int64.
abbrev pub max_samples : ℕ
max_samples = 442721857769029

-- Up to 442721857769029 samples the duration is the exact length in nanoseconds, rounded down.
pub samples_duration_exact :
    (n : ℕ)
    → n ≤ max_samples
    → (samples_duration n ≡ ok (pos (n * nanoseconds / sample_rate)))
      × (n * nanoseconds / sample_rate < 2 ^ 63)
unfolding samples_duration
samples_duration_exact n h = ground arith

-- Above 442721857769029 samples, up to the end of the last second that the guard accepts, the sum
-- overflows: a negative duration is returned as a success.
pub samples_duration_wraps :
    (n : ℕ)
    → max_samples < n
    → n < (max_seconds + 1) * sample_rate
    → (m : ℕ) × (samples_duration n ≡ ok (negsuc m))
unfolding samples_duration
samples_duration_wraps n h k = (2 ^ 64 - 1 - n * nanoseconds / sample_rate, ground arith)

-- A count behind the last second that the guard accepts is refused.
pub samples_duration_refused :
    (n : ℕ) → (max_seconds + 1) * sample_rate ≤ n → samples_duration n ≡ err (implausible n)
unfolding samples_duration
samples_duration_refused n h = ground arith

-- All calls of `os` succeed.
abbrev pub IsReadable : OggFile → Type 0
IsReadable f = (f.opens ≡ true) × (f.stats ≡ true) × (f.head_reads ≡ true) × (f.tail_reads ≡ true)

-- A readable file whose first bytes hold an OpusHead with a pre-skip, and in whose last bytes a page
-- header that completes a packet stands with none behind it, has the length of the samples that this
-- page counts less the pre-skip, and 0 if there are none left; provided that these samples are at most
-- 442721857769029, the greatest number whose duration fits an int64.
pub ogg_duration_lem :
    (f : OggFile) (pre_skip i c : ℕ)
    → IsReadable f
    → opus_pre_skip (head_of f.bytes) ≡ ok pre_skip
    → i + ogg_page_header_size + c ≡ length (tail_of f.bytes)
    → Completes (tail_of f.bytes) i
    → Silent (tail_of f.bytes) (i + 1) c
    → granule_at (tail_of f.bytes) i - pre_skip ≤ max_samples
    → ogg_duration f
      ≡ ok (pos ((granule_at (tail_of f.bytes) i - pre_skip) * nanoseconds / sample_rate))
unfolding ogg_duration playable
ogg_duration_lem f pre_skip i c (o, s, h, t) skip e here above fits = ground (
  arith,
  last_granule_at (tail_of f.bytes) i c e here above,
  samples_duration_exact (granule_at (tail_of f.bytes) i - pre_skip) fits,
)
