-- ===== src/Tts/OpenAi/Fingerprints.antt =====
-- The fingerprints of the two providers, openai.go and command.go.
use tgpager.Base.{
  ◌≡◌, ◌≢◌, refl, ap, sym, ◌∙◌, List, [], ◌∷◌, ◌++◌, append_assoc, Bytes, codes, All, arith,
}
use tgpager.Spaces.{join}
use tgpager.Strings.{join_unique, cut_unique, last_cut_unique}
use tgpager.Tts.Command.{CommandOptions, command_fingerprint}
use tgpager.Tts.OpenAi.{OpenAiOptions, build_request, fingerprint_fields, open_ai_fingerprint}

abbrev tail : List Bytes → List Bytes
tail [] = []
tail (x ∷ xs) = xs

abbrev pub HasNoBar : Bytes → Type 0
HasNoBar = All λ c. c ≢ b'|'

-- The settings without the instructions, which are free text.
abbrev pub short_settings : OpenAiOptions → List Bytes
short_settings o = o.base_url ∷ o.model ∷ o.voice ∷ o.format ∷ o.speed ∷ o.dialect ∷ []

-- What of the settings decides on the sound: where the requests go, what they ask for, and the format of
-- what comes back.
abbrev pub SoundsAlike : OpenAiOptions → OpenAiOptions → Type 0
SoundsAlike a b =
    (a.base_url ≡ b.base_url)
    × ((text : Bytes) → build_request a text ≡ build_request b text)
    × (a.format ≡ b.format)

requests_alike :
    (a b : OpenAiOptions)
    → a.model ≡ b.model
    → a.voice ≡ b.voice
    → a.format ≡ b.format
    → a.instructions ≡ b.instructions
    → a.speed ≡ b.speed
    → a.dialect ≡ b.dialect
    → (text : Bytes) → build_request a text ≡ build_request b text
unfolding build_request
requests_alike a b m v f i s d text = simp (m, v, f, i, s, d) refl

-- Behind the format: the instructions are what stands before the last two bars.
instructions_unique :
    (x y s t d e : Bytes)
    → All (All (λ c. c ≢ b'|')) (s ∷ d ∷ [])
    → All (All (λ c. c ≢ b'|')) (t ∷ e ∷ [])
    → x ++ b'|' ∷ (s ++ b'|' ∷ d) ≡ y ++ b'|' ∷ (t ++ b'|' ∷ e)
    → (x ≡ y) × (s ≡ t) × (d ≡ e)
instructions_unique x y s t d e (hs, (hd, u)) (ht, (he, v)) h =
    let (front, back) =
      last_cut_unique b'|' (x ++ b'|' ∷ s) (y ++ b'|' ∷ t) d e hd he
        (append_assoc x (b'|' ∷ s) (b'|' ∷ d) ∙ h ∙ sym (append_assoc y (b'|' ∷ t) (b'|' ∷ e))) in
    let (start, middle) = last_cut_unique b'|' x y s t hs ht front in (start, middle, back)

-- Two settings of the endpoint with equal fingerprints have the same address, ask for every text by the same
-- request and announce the same format, whatever their instructions, if no other field has a vertical bar.
pub open_ai_fingerprint_unique :
    (a b : OpenAiOptions)
    → All HasNoBar (short_settings a)
    → All HasNoBar (short_settings b)
    → open_ai_fingerprint a ≡ open_ai_fingerprint b
    → SoundsAlike a b
unfolding open_ai_fingerprint join
open_ai_fingerprint_unique a b (ua, (ma, (va, (fa, rest_a)))) (ub, (mb, (vb, (fb, rest_b)))) e =
    let (o, e1) =
      cut_unique b'|' (codes "openai") (codes "openai") _ _ (omega arith) (omega arith) e in
    let (u, e2) = cut_unique b'|' a.base_url b.base_url _ _ ua ub e1 in
    let (m, e3) = cut_unique b'|' a.model b.model _ _ ma mb e2 in
    let (v, e4) = cut_unique b'|' a.voice b.voice _ _ va vb e3 in
    let (f, e5) = cut_unique b'|' a.format b.format _ _ fa fb e4 in
    let (i, s, d) =
      instructions_unique a.instructions b.instructions a.speed b.speed a.dialect b.dialect rest_a
        rest_b e5 in
    (u, requests_alike a b m v f i s d, f)

-- Two commands with equal fingerprints have the same name and the same arguments, and a command never
-- has the fingerprint of an endpoint, if no name, argument or field has a vertical bar.
pub command_fingerprint_unique :
    (a b : CommandOptions) (o : OpenAiOptions)
    → All HasNoBar (a.name ∷ a.args)
    → All HasNoBar (b.name ∷ b.args)
    → All HasNoBar (fingerprint_fields o)
    → (command_fingerprint a ≡ command_fingerprint b → (a.name ∷ a.args) ≡ (b.name ∷ b.args))
      × (command_fingerprint a ≢ open_ai_fingerprint o)
unfolding command_fingerprint open_ai_fingerprint
command_fingerprint_unique a b o ha hb ho = (
  λ e. ap tail (
      join_unique b'|' (codes "command") (codes "command") (a.name ∷ a.args) (b.name ∷ b.args)
        (omega arith, ha) (omega arith, hb) e),
  λ e. ground (
    arith,
    join_unique b'|' (codes "command") (codes "openai") (a.name ∷ a.args) (fingerprint_fields o)
        (omega arith, ha) (omega arith, ho) e,
  ),
)
