-- ===== src/Tts/Cache/Listing.antt =====
-- The bytes of the files in the directory of internal/tts/cache.go, through listing and removing.
use tgpager.Base.{
  ℕ, ◌+◌, ◌≤◌, ◌≡◌, ◌≢◌, ◌⊎◌, inl, inr, refl, ap, sym, ◌∙◌, true, List, [], ◌∷◌, ◌++◌, All, Bytes,
  arith, Bool-cases, str_eq, str_eq_iff, if◌then◌else◌,
}
use mathlib.Core.Path.{subst}
use tgpager.Tts.Cache.{
  File, Cache, Disk, counts, expired, entries, remove, without, without_all, total_size,
}
use tgpager.Tts.Cache.Merges.{Merges, nothing, left, right, All-left, All-before}

-- The file stands in the list.
abbrev pub Has : List File → File → Type 0
Has [] f = ⊥
Has (g ∷ gs) f = (f ≡ g) ⊎ Has gs f

-- No two files have one name.
abbrev pub IsDistinct : List File → Type 0
IsDistinct [] = Unit {0}
IsDistinct (f ∷ fs) = All (λ g. f.name ≢ g.name) fs × IsDistinct fs

pub Has-without :
    (name : Bytes) (fs : List File) (f : File) → f.name ≢ name → Has fs f → Has (without name fs) f
unfolding without
Has-without name [] f h m = m
Has-without name (g ∷ gs) f h (inl e) = elim (Bool-cases (str_eq g.name name)) [
  | inl same ↦ absurd (h (ap (λ x. x.name) e ∙ (str_eq_iff g.name name).0 same))
  | inr other ↦ rw other (inl e)
]
Has-without name (g ∷ gs) f h (inr m) = elim (Bool-cases (str_eq g.name name)) [
  | inl same ↦ rw same (Has-without name gs f h m)
  | inr other ↦ rw other (inr (Has-without name gs f h m))
]

-- What holds of all files of a list holds of one in it.
pub All-Has : (P : File → Type 0) (fs : List File) (f : File) → All P fs → Has fs f → P f
All-Has P [] f h m = absurd m
All-Has P (g ∷ gs) f (p, h) (inl e) = subst P (sym e) p
All-Has P (g ∷ gs) f (p, h) (inr m) = All-Has P gs f h m

pub IsDistinct-before : (xs ys : List File) → IsDistinct (xs ++ ys) → IsDistinct xs
IsDistinct-before [] ys d = tt
IsDistinct-before (x ∷ xs) ys (apart, d) =
    (All-before (λ g. x.name ≢ g.name) xs ys apart, IsDistinct-before xs ys d)

pub IsDistinct-left : {xs ys zs : List File} → Merges xs ys zs → IsDistinct zs → IsDistinct xs
IsDistinct-left nothing d = tt
IsDistinct-left (left f m) (apart, d) =
    (All-left (λ g. f.name ≢ g.name) m apart, IsDistinct-left m d)
IsDistinct-left (right f m) (apart, d) = IsDistinct-left m d

pub All-without :
    (P : File → Type 0) (name : Bytes) (fs : List File) → All P fs → All P (without name fs)
unfolding without
All-without P name [] h = tt
All-without P name (f ∷ fs) (p, h) = elim (Bool-cases (str_eq f.name name)) [
  | inl same ↦ rw same (All-without P name fs h)
  | inr other ↦ rw other (p, All-without P name fs h)
]

pub without-IsDistinct :
    (name : Bytes) (fs : List File) → IsDistinct fs → IsDistinct (without name fs)
unfolding without
without-IsDistinct name [] d = tt
without-IsDistinct name (f ∷ fs) (apart, d) = elim (Bool-cases (str_eq f.name name)) [
  | inl same ↦ rw same (without-IsDistinct name fs d)
  | inr other ↦
      rw other (All-without (λ g. f.name ≢ g.name) name fs apart, without-IsDistinct name fs d)
]

pub without_apart : (name : Bytes) (fs : List File) → All (λ g. name ≢ g.name) (without name fs)
unfolding without
without_apart name [] = tt
without_apart name (f ∷ fs) = elim (Bool-cases (str_eq f.name name)) [
  | inl same ↦ rw same (without_apart name fs)
  | inr other ↦
      rw other ((λ e. ground (arith, other, str_eq_iff f.name name, e)), without_apart name fs)
]

-- What sorting does to files: it keeps them, with their sizes.
pub record Sorts (sort : List File → List File) : Type 1 where
  pub sums : (fs : List File) → total_size (sort fs) ≡ total_size fs
  pub keeps : (P : File → Type 0) (fs : List File) → All P fs → All P (sort fs)
  pub parts : (fs : List File) → IsDistinct fs → IsDistinct (sort fs)

module _ (disk : Disk) (c : Cache) where
  -- The bytes of the files that the cache counts.
  abbrev pub held : List File → ℕ
  held [] = 0
  held (f ∷ fs) = (if counts disk c f then f.size else 0) + held fs

  held-without-le : (name : Bytes) (fs : List File) → held (without name fs) ≤ held fs
  unfolding without
  held-without-le name [] = omega arith
  held-without-le name (g ∷ gs) = ground (arith, held-without-le name gs)

  -- Removing a counted file by its name frees its bytes at least.
  held-without :
      (f : File) (fs : List File)
      → counts disk c f ≡ true
      → Has fs f
      → held (without f.name fs) + f.size ≤ held fs
  unfolding without
  held-without f [] k m = absurd m
  held-without f (g ∷ gs) k (inl e) =
      ground (arith, held-without-le f.name gs, str_eq_iff g.name f.name, ap (λ x. x.name) e)
  held-without f (g ∷ gs) k (inr m) = ground (arith, held-without f gs k m)

  module _ (now : ℕ) (yields : (name : Bytes) → disk.removes name ≡ true) where
    removed_rest :
        (f : File) (dir cur : List File)
        → IsDistinct (f ∷ dir)
        → ((g : File) → Has (f ∷ dir) g → Has cur g)
        → (g : File) → Has dir g
        → Has (without f.name cur) g
    removed_rest f dir cur (apart, d) there g m =
        Has-without f.name cur g (λ e. All-Has (λ x. f.name ≢ x.name) dir g apart m (sym e))
          (there g (inr m))

    -- What is left and what was listed are together no more than what there was and what is kept.
    pub entries-held :
        (dir cur : List File)
        → IsDistinct dir
        → ((g : File) → Has dir g → Has cur g)
        → held (entries disk c now dir cur).0 + held dir
          ≤ held cur + total_size (entries disk c now dir cur).1
    unfolding entries remove
    entries-held [] cur d there = omega arith
    entries-held (f ∷ dir) cur d there =
        let stays = entries-held dir cur d.1 (λ g m. there g (inr m)) in
        let goes = entries-held dir (without f.name cur) d.1 (removed_rest f dir cur d there) in
        ground (arith, yields f.name, stays, goes, held-without f cur, there f (inl refl))

    -- What the listing makes of its first file.
    data Listed (f : File) (dir cur : List File) : Type 0 where
      gone :
          entries disk c now (f ∷ dir) cur ≡ entries disk c now dir (without f.name cur)
          → Listed f dir cur
      kept :
          counts disk c f ≡ true
          → entries disk c now (f ∷ dir) cur
            ≡ ((entries disk c now dir cur).0, f ∷ (entries disk c now dir cur).1)
          → Listed f dir cur
      skipped : entries disk c now (f ∷ dir) cur ≡ entries disk c now dir cur → Listed f dir cur

    first-Listed : (f : File) (dir cur : List File) → Listed f dir cur
    unfolding entries remove
    first-Listed f dir cur = elim (Bool-cases (counts disk c f)) [
      | inr k ↦ skipped (rw (k, entries) refl)
      | inl k ↦ elim (Bool-cases (expired disk c now f)) [
        | inl x ↦ gone (rw (k, entries, x, yields f.name) refl)
        | inr x ↦ kept k (rw (k, entries, x) refl)
      ]
    ]

    Has-entries :
        (dir cur : List File) (g : File)
        → All (λ x. g.name ≢ x.name) dir
        → Has cur g
        → Has (entries disk c now dir cur).0 g
    Has-entries [] cur g apart m = unfold entries in m
    Has-entries (f ∷ dir) cur g (here, apart) m = elim (first-Listed f dir cur) [
      | gone e ↦
          rw e (Has-entries dir (without f.name cur) g apart (Has-without f.name cur g here m))
      | kept k e ↦ rw e (Has-entries dir cur g apart m)
      | skipped e ↦ rw e (Has-entries dir cur g apart m)
    ]

    -- A file that is listed is counted, and is in the directory after the listing.
    abbrev pub Lists : List File → List File → Type 0
    Lists out = All λ f. (counts disk c f ≡ true) × Has out f

    pub entries-Lists :
        (dir cur : List File)
        → IsDistinct dir
        → ((g : File) → Has dir g → Has cur g)
        → Lists (entries disk c now dir cur).0 (entries disk c now dir cur).1
    entries-Lists [] cur d there = unfold entries in tt
    entries-Lists (f ∷ dir) cur (apart, d) there = elim (first-Listed f dir cur) [
      | gone e ↦
          rw e (entries-Lists dir (without f.name cur) d (removed_rest f dir cur (apart, d) there))
      | kept k e ↦ rw e (
        (k, Has-entries dir cur f apart (there f (inl refl))),
        entries-Lists dir cur d (λ g m. there g (inr m)),
      )
      | skipped e ↦ rw e (entries-Lists dir cur d (λ g m. there g (inr m)))
    ]

    entries-All :
        (P : File → Type 0) (dir cur : List File) → All P dir → All P (entries disk c now dir cur).1
    entries-All P [] cur h = unfold entries in tt
    entries-All P (f ∷ dir) cur (p, h) = elim (first-Listed f dir cur) [
      | gone e ↦ rw e (entries-All P dir (without f.name cur) h)
      | kept k e ↦ rw e (p, entries-All P dir cur h)
      | skipped e ↦ rw e (entries-All P dir cur h)
    ]

    pub entries-IsDistinct :
        (dir cur : List File) → IsDistinct dir → IsDistinct (entries disk c now dir cur).1
    entries-IsDistinct [] cur d = unfold entries in tt
    entries-IsDistinct (f ∷ dir) cur (apart, d) = elim (first-Listed f dir cur) [
      | gone e ↦ rw e (entries-IsDistinct dir (without f.name cur) d)
      | kept k e ↦
          rw e (entries-All (λ x. f.name ≢ x.name) dir cur apart, entries-IsDistinct dir cur d)
      | skipped e ↦ rw e (entries-IsDistinct dir cur d)
    ]

  pub removed_held :
      (rs cur : List File)
      → IsDistinct rs
      → All (λ f. (counts disk c f ≡ true) × Has cur f) rs
      → held (without_all rs cur) + total_size rs ≤ held cur
  removed_held [] cur d h = omega arith
  removed_held (f ∷ rs) cur (apart, d) ((k, m), h) =
      omega
        (arith, removed_held rs (without f.name cur) d (still rs apart h), held-without f cur k m)
    where
      still :
          (rs : List File)
          → All (λ g. f.name ≢ g.name) rs
          → All (λ f. (counts disk c f ≡ true) × Has cur f) rs
          → All (λ g. (counts disk c g ≡ true) × Has (without f.name cur) g) rs
      still [] a h = tt
      still (g ∷ rs) (a, as') ((k, m), h) =
          ((k, Has-without f.name cur g (λ e. a (sym e)) m), still rs as' h)
