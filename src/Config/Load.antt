-- ===== src/Config/Load.antt =====
-- The configuration of config.go and the end of `Load`: credentials, required ones and combinations.
-- The values that the descriptors admit are in Schema.
use tgpager.Base.{
  ap, ◌∙◌, ok_unique, ◌≡◌, ◌≢◌, ◌⊎◌, inl, inr, refl, Bool, false, not, ◌&&◌, List, [], Option, none,
  some, Bytes, codes, str_eq, str_eq_iff, ℤ, Result, ok, err, ◌>>=◌, if◌then◌else◌, arith,
  Result-cases, Bool-cases,
}
use mathlib.Core.Path.{subst}
use tgpager.Config.Modes.{VoiceMode, TextMode, calls}
use tgpager.Config.Secrets.{Secret, SecretError, Os, resolve}

pub record TelegramConfig : Type 0 where
  pub app_id : ℤ
  pub app_hash : Secret
  pub bot_token : Secret
  pub session : Bytes

pub record CallConfig : Type 0 where
  pub ring_timeout : ℤ
  pub connect_timeout : ℤ
  pub attempts : ℤ
  pub retry_delay : ℤ

pub record WebhookConfig : Type 0 where
  pub addr : Bytes
  pub token : Secret
  pub queue_size : ℤ

pub data TtsDialect : Type 0 where
  dialect_open_ai dialect_open_router : TtsDialect

-- `OpenAITTS`; the playback speed, a float, is carried as its text.
pub record OpenAiTts : Type 0 where
  pub base_url : Bytes
  pub api_key : Secret
  pub model : Bytes
  pub voice : Bytes
  pub format : Bytes
  pub instructions : Bytes
  pub speed : Option Bytes
  pub dialect : TtsDialect

pub record CommandTts : Type 0 where
  pub name : Bytes
  pub args : List Bytes
  pub output_format : Bytes

pub record TtsProvider : Type 0 where
  pub open_ai : Option OpenAiTts
  pub command : Option CommandTts

pub record TtsCache : Type 0 where
  pub dir : Bytes
  pub ttl : ℤ
  pub max_bytes : ℤ

pub record Tts : Type 0 where
  pub provider : TtsProvider
  pub template : Bytes
  pub cache : TtsCache
  pub repeat : ℤ
  pub timeout : ℤ

pub record Voice : Type 0 where
  pub mode : VoiceMode
  pub text : TextMode
  pub timeout : ℤ
  pub attempts : ℤ
  pub retry_delay : ℤ

pub record Config : Type 0 where
  pub telegram : TelegramConfig
  pub webhook : WebhookConfig
  pub call : CallConfig
  pub tts : Option Tts
  pub voice : Voice
  pub peer : Bytes
  pub audio : Bytes
  pub peer_cache : Bytes
  pub debug : Bool

-- An error of `Load`, with the path of the credential that it is about.
pub data LoadError : Type 0 where
  bad_secret : Bytes → SecretError → LoadError
  app_hash_required bot_cannot_call : LoadError

abbrev pub named : {A : Type 0} → Bytes → Result SecretError A → Result LoadError A
named path (ok a) = ok a
named path (err e) = err (bad_secret path e)

module _ (os : Os) (base_dir : Bytes) where
  -- The credential of an OpenAI-compatible provider, if there is one.
  unfoldable pub resolve_provider : TtsProvider → Result LoadError TtsProvider
  resolve_provider p = elim p.open_ai [
    | none ↦ ok p
    | some o ↦ do
      key ← named (codes "tts.provider.api_key") (resolve os base_dir o.api_key)
      ok (record p { open_ai = some (record o { api_key = key }) })
  ]

  unfoldable pub resolve_tts : Option Tts → Result LoadError (Option Tts)
  unfolding resolve_provider
  resolve_tts none = ok none
  resolve_tts (some t) = do p ← resolve_provider t.provider; ok (some (record t { provider = p }))

  -- The rules on the resolved configuration.
  unfoldable pub enforce : Config → Result LoadError Config
  enforce c =
      if str_eq c.telegram.app_hash.value []
      then err app_hash_required
      else if not (str_eq c.telegram.bot_token.value []) && calls c.voice.mode
      then err bot_cannot_call
      else ok c

  abbrev pub with_secrets : Config → Secret → Secret → Secret → Option Tts → Config
  with_secrets c hash bot token tts = record c {
    telegram = record (c.telegram) { app_hash = hash; bot_token = bot };
    webhook = record (c.webhook) { token = token };
    tts = tts;
  }

  -- `resolveSecrets`: the configuration is changed in place there, and returned here.
  unfoldable pub resolve_secrets : Config → Result LoadError Config
  resolve_secrets c = do
    hash ← named (codes "telegram.app_hash") (resolve os base_dir c.telegram.app_hash)
    bot ← named (codes "telegram.bot_token") (resolve os base_dir c.telegram.bot_token)
    token ← named (codes "webhook.token") (resolve os base_dir c.webhook.token)
    tts ← resolve_tts c.tts
    enforce (with_secrets c hash bot token tts)

  enforce-eq : (c d : Config) → enforce c ≡ ok d → c ≡ d
  unfolding enforce
  enforce-eq c d h = ground arith

  enforce_sound :
      (c d : Config)
      → enforce c ≡ ok d
      → (c.telegram.app_hash.value ≢ [])
        × ((c.telegram.bot_token.value ≡ []) ⊎ (calls c.voice.mode ≡ false))
  unfolding enforce
  enforce_sound c d h = (
    λ e. ground (arith, str_eq_iff c.telegram.app_hash.value []),
    elim (Bool-cases (calls c.voice.mode)) [
      | inr silent ↦ inr silent
      | inl loud ↦ inl (ground (arith, str_eq_iff c.telegram.bot_token.value []))
    ],
  )

  -- What a successful load says of its result.
  abbrev pub Loads : Config → Config → Type 0
  Loads c d =
      (d.telegram.app_hash.value ≢ [])
      × ((d.telegram.bot_token.value ≡ []) ⊎ (calls d.voice.mode ≡ false))
      × (resolve os base_dir c.telegram.app_hash ≡ ok d.telegram.app_hash)
      × (resolve os base_dir c.telegram.bot_token ≡ ok d.telegram.bot_token)
      × (resolve os base_dir c.webhook.token ≡ ok d.webhook.token)
      × (resolve_tts c.tts ≡ ok d.tts)
      × (d.voice ≡ c.voice)
      × (d.call ≡ c.call)
      × (d.peer ≡ c.peer)
      × (d.audio ≡ c.audio)
      × (d.webhook.queue_size ≡ c.webhook.queue_size)
      × (d.telegram.session ≡ c.telegram.session)
      × (d.peer_cache ≡ c.peer_cache)

  with_secrets-Loads :
      (c d : Config) (hash bot token : Secret) (tts : Option Tts)
      → resolve os base_dir c.telegram.app_hash ≡ ok hash
      → resolve os base_dir c.telegram.bot_token ≡ ok bot
      → resolve os base_dir c.webhook.token ≡ ok token
      → resolve_tts c.tts ≡ ok tts
      → enforce (with_secrets c hash bot token tts) ≡ ok d
      → Loads c d
  with_secrets-Loads c d hash bot token tts h b t u e =
      let (required, silent) = enforce_sound (with_secrets c hash bot token tts) d e in
      subst (Loads c) (enforce-eq (with_secrets c hash bot token tts) d e)
        (required, silent, h, b, t, u, refl, refl, refl, refl, refl, refl, refl)

  -- A configuration that loads has an app hash, and a bot token in it only where no page places a
  -- call; its credentials are the resolved ones, and the call, voice, peer, audio, queue size, session
  -- and peer cache settings are those that were given.
  pub resolve_secrets-Loads : (c d : Config) → resolve_secrets c ≡ ok d → Loads c d
  unfolding resolve_secrets
  resolve_secrets-Loads c d h = elim (Result-cases (resolve os base_dir c.telegram.app_hash)) [
    | inr (e, x) ↦ absurd (ground arith)
    | inl (hash, x) ↦ elim (Result-cases (resolve os base_dir c.telegram.bot_token)) [
      | inr (e, y) ↦ absurd (ground arith)
      | inl (bot, y) ↦ elim (Result-cases (resolve os base_dir c.webhook.token)) [
        | inr (e, z) ↦ absurd (ground arith)
        | inl (token, z) ↦ elim (Result-cases (resolve_tts c.tts)) [
          | inr (e, w) ↦ absurd (ground arith)
          | inl (tts, w) ↦ with_secrets-Loads c d hash bot token tts x y z w (ground arith)
        ]
      ]
    ]
  ]

pub data LoadFailure : Type 0 where
  unresolved : Bytes → LoadFailure
  refused : LoadError → LoadFailure

-- `Load`, for `Descriptor.Resolve` of the figureout library with its sources at a path, with the text of
-- its error, and `filepath.Dir`.
unfoldable pub load :
    (Bytes → Result Bytes Config) → (Bytes → Bytes) → Os → Bytes → Result LoadFailure Config
load decode dir os path = elim (decode path) [
  | err e ↦ err (unresolved e)
  | ok c ↦ elim (resolve_secrets os (dir path) c) [ err e ↦ err (refused e) | ok d ↦ ok d ]
]

-- The two steps of a load that succeeds.
pub load_steps :
    (decode : Bytes → Result Bytes Config) (dir : Bytes → Bytes) (os : Os) (path : Bytes)
    (d : Config)
    → load decode dir os path ≡ ok d
    → (c : Config) × (decode path ≡ ok c) × (resolve_secrets os (dir path) c ≡ ok d)
unfolding load
load_steps decode dir os path d h = elim (Result-cases (decode path)) [
  | inr (e, x) ↦ absurd (ground arith)
  | inl (c, x) ↦ elim (Result-cases (resolve_secrets os (dir path) c)) [
    | inr (e, y) ↦ absurd (ground arith)
    | inl (f, y) ↦
        (c, x, y ∙ ap ok (ok_unique (load decode dir os path) (simp (x, y, load) refl) h))
  ]
]
