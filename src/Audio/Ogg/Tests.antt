-- ===== src/Audio/Ogg/Tests.antt =====
-- `OggDuration` on a small file, and the theorems at it.
use tgpager.Base.{
  ℕ, ◌+◌, ◌-◌, ◌≡◌, ◌⊎◌, refl, true, [], ◌∷◌, ◌++◌, Bytes, codes, length, pos, negsuc, ok, err,
  arith, str_eq, index, has_prefix,
}
use tgpager.Audio.Ogg.{
  OggFile, ogg_duration, ogg_page_header_size, granule_at, last_granule, scan_back, little_endian,
  opus_pre_skip, samples_duration, playable, no_granule,
}
use tgpager.Audio.Ogg.Granule.{is_silent-Silent, Completes, Silent, last_granule_cases}
use tgpager.Audio.Ogg.Duration.{samples_duration_wraps, ogg_duration_lem, max_samples}

-- A header with the given granule position, and the fields that the code skips as zeros.
abbrev header : Bytes → Bytes
header granule =
    codes "OggS" ++ (0 ∷ 4 ∷ (granule ++ (0 ∷ 0 ∷ 0 ∷ 0 ∷ 0 ∷ 0 ∷ 0 ∷ 0 ∷ 0 ∷ 0 ∷ 0 ∷ 0 ∷ 1 ∷ [])))

-- 312 samples to skip.
abbrev opus_head : Bytes
opus_head = codes "OpusHead" ++ (1 ∷ 1 ∷ 56 ∷ 1 ∷ 128 ∷ 187 ∷ 0 ∷ 0 ∷ 0 ∷ 0 ∷ 0 ∷ [])

-- A page at 48312 samples, and behind it one that completes no packet.
abbrev recording : Bytes
recording =
    opus_head
    ++ (header (184 ∷ 188 ∷ 0 ∷ 0 ∷ 0 ∷ 0 ∷ 0 ∷ 0 ∷ [])
        ++ header (255 ∷ 255 ∷ 255 ∷ 255 ∷ 255 ∷ 255 ∷ 255 ∷ 255 ∷ []))

abbrev one_second : OggFile
one_second = record {
  bytes = recording;
  opens = true;
  stats = true;
  head_reads = true;
  tail_reads = true;
}

lasts_one_second : ogg_duration one_second ≡ ok (pos 1000000000)
unfolding ogg_duration opus_pre_skip index has_prefix last_granule scan_back str_eq little_endian
    playable samples_duration
lasts_one_second = refl

skip_read : opus_pre_skip recording ≡ ok 312
unfolding opus_pre_skip index has_prefix little_endian
skip_read = refl

Completes-at : Completes recording 19
unfolding little_endian
Completes-at = (refl, refl, omega arith)

Silent-behind : Silent recording 20 27
unfolding str_eq little_endian
Silent-behind = is_silent-Silent recording 20 27 refl

ogg_duration_lem_example : ogg_duration one_second ≡ ok (pos 1000000000)
unfolding little_endian
ogg_duration_lem_example =
    ogg_duration_lem one_second 312 19 27 (refl, refl, refl, refl) skip_read refl Completes-at
      Silent-behind (omega arith)

last_granule_cases_example :
    ((i : ℕ) × (c : ℕ) × (i + ogg_page_header_size + c ≡ length recording)
      × Completes recording i
      × Silent recording (i + 1) c
      × (last_granule recording ≡ ok (granule_at recording i)))
    ⊎ (Silent recording 0 (length recording + 1 - ogg_page_header_size)
        × (last_granule recording ≡ err no_granule))
last_granule_cases_example = last_granule_cases recording

samples_duration_wraps_example : (m : ℕ) × (samples_duration (max_samples + 1) ≡ ok (negsuc m))
samples_duration_wraps_example =
    samples_duration_wraps (max_samples + 1) (omega arith) (omega arith)
