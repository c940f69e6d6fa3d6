-- ===== src/Audio/Ogg/Granule.antt =====
-- The page header that `lastGranule` of internal/audio/ogg.go takes.
use tgpager.Base.{
  slice, byte_at, ℕ, zero, suc, ◌+◌, ◌-◌, ◌^◌, ◌<◌, ◌≡◌, refl, Bool, true, not, ◌&&◌, none, some,
  Bytes, length, ok, err, str_eq_iff, ltb, arith, Bool-cases, inl, inr, false, ◌⊎◌, ◌∙◌,
}
use tgpager.Audio.Ogg.{
  ogg_page_header_size, page_at, granule_at, scan_back, last_granule, ogg_magic, no_granule,
}

-- A page header with a granule position that is not negative stands at `i`.
abbrev pub Completes : Bytes → ℕ → Type 0
Completes tail i =
    (slice tail i (i + 4) ≡ ogg_magic) × (byte_at tail (i + 4) ≡ 0) × (granule_at tail i < 2 ^ 63)

-- No such header stands at any of the `count` positions from `low` on.
abbrev pub Silent : Bytes → ℕ → ℕ → Type 0
Silent tail low zero = Unit
Silent tail low (suc count) = (¬ Completes tail (low + count)) × Silent tail low count

-- The loop's test on a header, and whether it returns there.
abbrev pub returns_at : Bytes → ℕ → Bool
returns_at tail i = page_at tail i && ltb (granule_at tail i) (2 ^ 63)

returns_at-Completes : (tail : Bytes) (i : ℕ) → returns_at tail i ≡ true → Completes tail i
returns_at-Completes tail i h = ground (arith, str_eq_iff (slice tail i (i + 4)) ogg_magic)

not_Completes : (tail : Bytes) (i : ℕ) → returns_at tail i ≡ false → ¬ Completes tail i
not_Completes tail i h c = ground (arith, str_eq_iff (slice tail i (i + 4)) ogg_magic)

scan_back_hit :
    (tail : Bytes) (n : ℕ)
    → returns_at tail n ≡ true
    → scan_back tail (suc n) ≡ some (granule_at tail n)
unfolding scan_back
scan_back_hit tail n h = ground arith

scan_back_miss :
    (tail : Bytes) (n : ℕ) → returns_at tail n ≡ false → scan_back tail (suc n) ≡ scan_back tail n
unfolding scan_back
scan_back_miss tail n h = ground arith

-- The test for a silent range.
abbrev pub is_silent : Bytes → ℕ → ℕ → Bool
is_silent tail low zero = true
is_silent tail low (suc count) = not (returns_at tail (low + count)) && is_silent tail low count

pub is_silent-Silent :
    (tail : Bytes) (low count : ℕ) → is_silent tail low count ≡ true → Silent tail low count
is_silent-Silent tail low zero h = tt
is_silent-Silent tail low (suc count) h = elim (Bool-cases (returns_at tail (low + count))) [
  | inl hit ↦ ground arith
  | inr miss ↦
      (not_Completes tail (low + count) miss, is_silent-Silent tail low count (ground arith))
]

-- What the loop over the positions below `n` may find: the last completing header, or none at all.
abbrev Found : Bytes → ℕ → Type 0
Found tail n =
    ((i : ℕ) × (c : ℕ) × (i + 1 + c ≡ n)
      × Completes tail i
      × Silent tail (i + 1) c
      × (scan_back tail n ≡ some (granule_at tail i)))
    ⊎ (Silent tail 0 n × (scan_back tail n ≡ none))

scan_back-Found : (tail : Bytes) (n : ℕ) → Found tail n
unfolding scan_back
scan_back-Found tail zero = inr (tt, refl)
scan_back-Found tail (suc n) = elim (Bool-cases (returns_at tail n)) [
  | inl hit ↦ inl (n, 0, omega arith, returns_at-Completes tail n hit, tt, scan_back_hit tail n hit)
  | inr miss ↦ elim (scan_back-Found tail n) [
    | inl (i, c, e, here, above, found) ↦
        inl (
          i,
          suc c,
          omega arith,
          here,
          (silent_at e miss, above),
          scan_back_miss tail n miss ∙ found,
        )
    | inr (all, nothing) ↦
        inr ((silent_at (omega arith) miss, all), scan_back_miss tail n miss ∙ nothing)
  ]
]
  where
    silent_at : {m : ℕ} → m ≡ n → returns_at tail n ≡ false → ¬ Completes tail m
    silent_at e miss = rw e (not_Completes tail n miss)

-- The result of `lastGranule` on every input: the granule position of the last header in the tail that
-- completes a packet, headers of continued packets (-1) and of another version passed over; or an
-- error, exactly when no position of the tail has such a header.
pub last_granule_cases :
    (tail : Bytes)
    → ((i : ℕ) × (c : ℕ) × (i + ogg_page_header_size + c ≡ length tail)
        × Completes tail i
        × Silent tail (i + 1) c
        × (last_granule tail ≡ ok (granule_at tail i)))
      ⊎ (Silent tail 0 (length tail + 1 - ogg_page_header_size)
          × (last_granule tail ≡ err no_granule))
unfolding last_granule
last_granule_cases tail = elim (scan_back-Found tail (length tail + 1 - ogg_page_header_size)) [
  | inl (i, c, e, here, above, found) ↦
      inl (i, c, omega arith, here, above, rw (found, last_granule))
  | inr (all, nothing) ↦ inr (all, rw (nothing, last_granule))
]

Completes-returns_at : (tail : Bytes) (i : ℕ) → Completes tail i → returns_at tail i ≡ true
Completes-returns_at tail i c = ground (arith, str_eq_iff (slice tail i (i + 4)) ogg_magic)

not_Completes-returns_at : (tail : Bytes) (i : ℕ) → ¬ Completes tail i → returns_at tail i ≡ false
not_Completes-returns_at tail i h = elim (Bool-cases (returns_at tail i)) [
  | inl hit ↦ absurd (h (returns_at-Completes tail i hit))
  | inr miss ↦ miss
]

scan_back_at :
    (tail : Bytes) (i c : ℕ) (n : ℕ)
    → n ≡ i + 1 + c
    → Completes tail i
    → Silent tail (i + 1) c
    → scan_back tail n ≡ some (granule_at tail i)
scan_back_at tail i zero n e here above =
    let first : n ≡ suc i = omega arith in
    rw first (scan_back_hit tail i (Completes-returns_at tail i here))
scan_back_at tail i (suc c) n e here (top, above) =
    let last : n ≡ suc (i + 1 + c) = omega arith in
    rw last (
      scan_back_miss tail (i + 1 + c) (not_Completes-returns_at tail (i + 1 + c) top)
      ∙ scan_back_at tail i c (i + 1 + c) refl here above)

-- A header that completes a packet, with none behind it, is the one that is found.
pub last_granule_at :
    (tail : Bytes) (i c : ℕ)
    → i + ogg_page_header_size + c ≡ length tail
    → Completes tail i
    → Silent tail (i + 1) c
    → last_granule tail ≡ ok (granule_at tail i)
unfolding last_granule
last_granule_at tail i c e here above = rw (
  scan_back_at tail i c (length tail + 1 - ogg_page_header_size) (omega arith) here above,
  last_granule,
)
