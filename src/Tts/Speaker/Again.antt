-- ===== src/Tts/Speaker/Again.antt =====
-- Two pages with one text, in internal/tts/speaker.go.
use tgpager.Base.{ℕ, ◌+◌, ◌≤◌, ◌≡◌, ◌≢◌, ◌⊎◌, refl, ap, ◌∙◌, true, false, List, [], ◌∷◌, Bytes, ok}
use tgpager.Alertmanager.{WebhookPayload}
use tgpager.Audio.Spec.{Spec}
use tgpager.Tts.Cache.{File, Writing, written, lookup, store}
use tgpager.Tts.Cache.Lookup.{lookup-store, fits}
use tgpager.Tts.Speaker.{
  render, Speaker, hit, miss, Surroundings, name_of, path_of, synthesize_and_store, speech,
  spoken_or_tone, speak,
}

module _ (env : Surroundings) (s : Speaker) (p : WebhookPayload) (text : Bytes) where
  abbrev pub name : Bytes
  name = name_of env s text s.synth.format

  abbrev pub spoken_spec : Spec
  spoken_spec = record {
    segments = s.tone ∷ path_of env s text s.synth.format ∷ [];
    repeat = s.repeat;
  }

  pub speech_found :
      (writing : Writing) (now later : ℕ) (fs : List File)
      → render (env.execute p) ≡ ok text
      → (lookup env.disk s.cache name now fs).1 ≡ true
      → speech env s writing now later p fs ≡ record {
        result = ok (path_of env s text s.synth.format);
        folder = (lookup env.disk s.cache name now fs).0;
        counts = hit ∷ [];
      }
  unfolding speech
  speech_found writing now later fs r found = rw (r, speech) (rw found refl)

  pub speech_missed :
      (now later : ℕ) (fs : List File) (audio : Bytes)
      → render (env.execute p) ≡ ok text
      → (lookup env.disk s.cache name now fs).1 ≡ false
      → s.synth.synthesize text ≡ ok (record { audio = audio; format = s.synth.format })
      → speech env s written now later p fs ≡ record {
        result = ok (path_of env s text s.synth.format);
        folder =
            (store env.disk env.sort s.cache written name audio later
              (lookup env.disk s.cache name now fs).0).0;
        counts = miss ∷ [];
      }
  unfolding speech synthesize_and_store store
  speech_missed now later fs audio r missed made =
      rw (r, speech) (rw missed (rw (made, synthesize_and_store) refl))

  pub speak_on :
      (writing : Writing) (now later : ℕ) (fs : List File)
      → s.synth.disabled ≡ false
      → speak env s writing now later p fs
        ≡ spoken_or_tone env s (speech env s writing now later p fs)
  unfolding speak
  speak_on writing now later fs on = simp on

module _ (env : Surroundings) (s : Speaker) (p q : WebhookPayload) (text : Bytes) where
  -- A page whose speech is not cached, is synthesized in the announced format and is stored while the
  -- files fit the cap, plays the tone and the new file; and for a page with the same text, of whatever
  -- payload, until the file expires, the same is played from the cache, with no call of the synthesizer
  -- (the count is a hit).
  pub speak_again :
      (writing : Writing) (now later again after : ℕ) (fs : List File) (audio : Bytes)
      → s.synth.disabled ≡ false
      → render (env.execute p) ≡ ok text
      → render (env.execute q) ≡ ok text
      → (lookup env.disk s.cache (name env s p text) now fs).1 ≡ false
      → s.synth.synthesize text ≡ ok (record { audio = audio; format = s.synth.format })
      → audio ≢ []
      → env.disk.describes (name env s p text) ≡ true
      → fits env.disk s.cache
          (name env s p text)
          env.sort
          audio
          later
          (lookup env.disk s.cache (name env s p text) now fs).0
        ≡ true
      → (s.cache.ttl ≡ 0) ⊎ (again ≤ later + s.cache.ttl)
      → let first = speak env s written now later p fs in
        let second = speak env s writing again after q first.folder in
        (first.result ≡ spoken_spec env s p text)
        × (first.counts ≡ miss ∷ [])
        × (second.result ≡ spoken_spec env s p text)
        × (second.counts ≡ hit ∷ [])
  unfolding speak
  speak_again writing now later again after fs audio on r r' missed made filled described room
        fresh =
      let n = name env s p text in
      let fs' = (lookup env.disk s.cache n now fs).0 in
      let stored = (store env.disk env.sort s.cache written n audio later fs').0 in
      let first =
        speak_on env s p text written now later fs on
        ∙ ap (spoken_or_tone env s) (speech_missed env s p text now later fs audio r missed made) in
      let found =
        (lookup-store env.disk s.cache n env.sort audio later fs' again room filled described
          fresh).1 in
      let second =
        speak_on env s q text writing again after stored on
        ∙ ap (spoken_or_tone env s)
            (speech_found env s q text writing again after stored r' found) in
      rw first (refl, refl, ap (λ t. t.result) second, ap (λ t. t.counts) second)
