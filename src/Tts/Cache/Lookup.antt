-- ===== src/Tts/Cache/Lookup.antt =====
-- What `Lookup` finds after `Store`.
use tgpager.Base.{
  ℕ, ◌+◌, ◌==◌, ◌≤◌, ◌≡◌, ◌≢◌, ◌⊎◌, inl, inr, refl, ap, sym, ◌∙◌, Bool, true, false, not, ◌&&◌,
  ◌||◌, List, [], ◌∷◌, some, Bytes, str_eq, str_eq_iff, str_eq_refl, length, leb, All, arith,
  Bool-cases, if◌then◌else◌,
}
use tgpager.Tts.Cache.{
  File, Cache, Disk, written, find_file, without, remove, expired, counts, lookup, entries, evict,
  put, store, total_size,
}

without-lacks :
    (name : Bytes) (fs : List File) → All (λ f. str_eq f.name name ≡ false) (without name fs)
unfolding without
without-lacks name [] = tt
without-lacks name (f ∷ fs) = elim (Bool-cases (str_eq f.name name)) [
  | inl same ↦ rw same (without-lacks name fs)
  | inr other ↦ rw other (other, without-lacks name fs)
]

find_file-skips :
    (name : Bytes) (f : File) (fs : List File)
    → str_eq f.name name ≡ false
    → find_file name (f ∷ fs) ≡ find_file name fs
unfolding find_file
find_file-skips name f fs differs = rw differs refl

find_file-without_other :
    (name other : Bytes) (fs : List File)
    → str_eq other name ≡ false
    → find_file name (without other fs) ≡ find_file name fs
unfolding find_file without
find_file-without_other name other [] ne = refl
find_file-without_other name other (f ∷ fs) ne =
    let rest = find_file-without_other name other fs ne in
    elim (Bool-cases (str_eq f.name other)) [
      | inl same ↦ rw same (
          rest
          ∙ sym (
              find_file-skips name f fs
                (ap (λ n. str_eq n name) ((str_eq_iff f.name other).0 same) ∙ ne)))
      | inr differs ↦ rw differs (ground (arith, rest))
    ]

module _ (disk : Disk) (c : Cache) (name : Bytes) where
  find_file-remove :
      (other : Bytes) (fs : List File)
      → str_eq other name ≡ false
      → find_file name (remove disk other fs) ≡ find_file name fs
  unfolding remove
  find_file-remove other fs ne = elim (Bool-cases (disk.removes other)) [
    | inl gone ↦ rw gone (find_file-without_other name other fs ne)
    | inr stays ↦ rw stays refl
  ]

  find_file-drop :
      (b : Bool) (f : File) (fs : List File)
      → (str_eq f.name name ≡ false) ⊎ (b ≡ false)
      → find_file name (if b then remove disk f.name fs else fs) ≡ find_file name fs
  find_file-drop true f fs (inl ne) = find_file-remove f.name fs ne
  find_file-drop true f fs (inr h) = absurd (ground arith)
  find_file-drop false f fs h = refl

  -- The listing removes no file of this name, unless one of them has expired.
  find_file-entries :
      (now : ℕ) (dir fs : List File)
      → All (λ f. (str_eq f.name name ≡ false) ⊎ (expired disk c now f ≡ false)) dir
      → find_file name (entries disk c now dir fs).0 ≡ find_file name fs
  unfolding entries remove
  find_file-entries now [] fs h = refl
  find_file-entries now (f ∷ dir) fs (k, h) =
      find_file-entries now dir _ h
      ∙ find_file-drop (counts disk c f && expired disk c now f) f fs (kept k)
    where
      kept :
          (str_eq f.name name ≡ false) ⊎ (expired disk c now f ≡ false)
          → (str_eq f.name name ≡ false) ⊎ ((counts disk c f && expired disk c now f) ≡ false)
      kept (inl ne) = inl ne
      kept (inr e) = inr (ground arith)

  others_lack :
      (now : ℕ) (fs : List File)
      → All (λ f. str_eq f.name name ≡ false) fs
      → All (λ f. (str_eq f.name name ≡ false) ⊎ (expired disk c now f ≡ false)) fs
  others_lack now [] h = tt
  others_lack now (f ∷ fs) (ne, h) = (inl ne, others_lack now fs h)

  module _ (sort : List File → List File) (audio : Bytes) (now : ℕ) (fs : List File) where
    abbrev pub stored : File
    stored = record { name = name; is_dir = false; size = length audio; audio = audio; used = now }

    abbrev pub fits : Bool
    fits =
        c.max_bytes == 0
        || leb (total_size (entries disk c now (put name audio now fs) (put name audio now fs)).1)
            c.max_bytes

    found : find_file name (put name audio now fs) ≡ some stored
    unfolding find_file
    found = rw (str_eq_refl name) refl

    find_file-evict :
        fits ≡ true → find_file name (evict disk sort c now (put name audio now fs)) ≡ some stored
    unfolding evict
    find_file-evict h = elim (Bool-cases (c.ttl == 0 && c.max_bytes == 0 || not disk.lists)) [
      | inl off ↦ rw off found
      | inr on ↦ rw on (
          rw h (
            find_file-entries now (put name audio now fs) (put name audio now fs)
              (inr (ground arith), others_lack now (without name fs) (without-lacks name fs))
            ∙ found))
    ]

    filled : (s : Bytes) → s ≢ [] → (length s == 0) ≡ false
    filled [] h = absurd (h refl)
    filled (x ∷ s) h = ground arith

    lookup_hits :
        (now' : ℕ) (gs : List File)
        → find_file name gs ≡ some stored
        → (length audio == 0) ≡ false
        → disk.describes name ≡ true
        → expired disk c now' stored ≡ false
        → (lookup disk c name now' gs).1 ≡ true
    unfolding lookup
    lookup_hits now' gs f some_audio described live =
        rw (described, lookup) (rw (f, lookup) (rw some_audio (rw live refl)))

    -- Audio that is written in full while the files together fit the cap is found: the file holds what was
    -- stored, and until it expires a lookup hits, unless the audio is empty or the file cannot be
    -- described.
    pub lookup-store :
        (now' : ℕ)
        → fits ≡ true
        → audio ≢ []
        → disk.describes name ≡ true
        → (c.ttl ≡ 0) ⊎ (now' ≤ now + c.ttl)
        → let after = (store disk sort c written name audio now fs).0 in
          (find_file name after ≡ some stored) × ((lookup disk c name now' after).1 ≡ true)
    unfolding store lookup
    lookup-store now' h some_audio described fresh = (
      find_file-evict h,
      lookup_hits now' _ (find_file-evict h) (filled audio some_audio) described (ground arith),
    )
