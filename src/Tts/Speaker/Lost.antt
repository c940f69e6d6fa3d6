-- ===== src/Tts/Speaker/Lost.antt =====
-- A page whose speech does not fit the cache, internal/tts/speaker.go with cache.go.
use tgpager.Base.{
  ℕ, ◌<◌, ◌==◌, ◌≡◌, ap, ◌∙◌, true, false, List, Bytes, none, ok, length, inl, inr, arith,
  Bool-cases, Option-cases, if◌then◌else◌,
}
use tgpager.Alertmanager.{WebhookPayload}
use tgpager.Tts.Cache.{File, Disk, Cache, written, lookup, find_file, is_temp, remove, expired}
use tgpager.Tts.Cache.Listing.{IsDistinct, Sorts, without-IsDistinct}
use tgpager.Tts.Cache.Oversized.{store_loses_oversized}
use tgpager.Tts.Speaker.{render, Speaker, Surroundings, spoken_or_tone, speak}
use tgpager.Tts.Speaker.Again.{name, spoken_spec, speech_missed, speak_on}

module _ (disk : Disk) (c : Cache) where
  remove-IsDistinct : (n : Bytes) (fs : List File) → IsDistinct fs → IsDistinct (remove disk n fs)
  unfolding remove
  remove-IsDistinct n fs d = elim (Bool-cases (disk.removes n)) [
    | inl r ↦ rw r (without-IsDistinct n fs d)
    | inr r ↦ rw r d
  ]

  lookup-IsDistinct :
      (n : Bytes) (now : ℕ) (fs : List File)
      → (lookup disk c n now fs).1 ≡ false
      → IsDistinct fs
      → IsDistinct (lookup disk c n now fs).0
  unfolding lookup
  lookup-IsDistinct n now fs missed d =
      elim (Option-cases (if disk.describes n then find_file n fs else none)) [
        | inl e ↦ rw (e, lookup) d
        | inr (f, e) ↦ elim (Bool-cases (f.size == 0)) [
          | inl empty ↦ rw (e, lookup) (rw empty d)
          | inr filled ↦ elim (Bool-cases (expired disk c now f)) [
            | inl old ↦ rw (e, lookup) (rw filled (rw old (remove-IsDistinct n fs d)))
            | inr fresh ↦ absurd (ground (arith, e, filled, fresh, missed))
          ]
        ]
      ]

module _ (env : Surroundings) (s : Speaker) (p : WebhookPayload) (text : Bytes) where
  -- A page plays the tone and a file that is not there, if its speech is not cached yet and is
  -- synthesized in the announced format, but is larger than the cap of the cache: the eviction behind
  -- the storing removes it. The directory can be listed and has no name twice, every file can be removed
  -- and the new one is counted; the sorting keeps the files with their sizes.
  pub speak_lost :
      (now later : ℕ) (fs : List File) (audio : Bytes)
      → Sorts env.sort
      → ((n : Bytes) → env.disk.removes n ≡ true)
      → env.disk.lists ≡ true
      → 0 < s.cache.max_bytes
      → IsDistinct fs
      → env.disk.describes (name env s p text) ≡ true
      → is_temp env.disk s.cache (name env s p text) ≡ false
      → s.synth.disabled ≡ false
      → render (env.execute p) ≡ ok text
      → (lookup env.disk s.cache (name env s p text) now fs).1 ≡ false
      → s.synth.synthesize text ≡ ok (record { audio = audio; format = s.synth.format })
      → s.cache.max_bytes < length audio
      → ((speak env s written now later p fs).result ≡ spoken_spec env s p text)
        × (find_file (name env s p text) (speak env s written now later p fs).folder ≡ none)
  speak_lost now later fs audio sorts yields listed some_cap apart described named on r missed made
        over =
      let file = name env s p text in
      let fs' = (lookup env.disk s.cache file now fs).0 in
      let spoken =
        speak_on env s p text written now later fs on
        ∙ ap (spoken_or_tone env s) (speech_missed env s p text now later fs audio r missed made) in
      let (stored, gone) =
        store_loses_oversized env.disk s.cache env.sort sorts yields file audio later fs' listed
          some_cap (lookup-IsDistinct env.disk s.cache file now fs missed apart) described named
          over in
      (ap (λ x. x.result) spoken, ap (λ x. find_file file x.folder) spoken ∙ gone)
