-- ===== src/Main/Startup/Configured.antt =====
-- What the client, the server and the speaker of cmd/tgpager/main.go are for a configuration that loads.
use tgpager.Base.{
  ℕ, negsuc, ◌≤ℤ◌, ◌≤◌, ◌≡◌, refl, ap, sym, ◌∙◌, ◌⊎◌, ◌↔◌, ◌++◌, Bool, true, false, ◌&&◌, [],
  Option, none, some, Bytes, ℤ, pos, pos_part, Result, ok, err, arith, bind_ok, ok_unique,
}
use mathlib.Core.Path.{subst}
use tgpager.Config.Modes.{calls}
use tgpager.Config.Secrets.{Os, resolve}
use tgpager.Config.Load.{
  Config, CallConfig, Voice, OpenAiTts, CommandTts, Tts, TtsProvider, named, resolve_provider,
  resolve_tts, resolve_secrets-Loads, load, load_steps,
}
use tgpager.Config.Schema.{
  admits, between, webhook_admits, call_admits, tts_admits, voice_admits, provider_admits,
  open_ai_admits, non_empty, cache_admits, at_least, one_second,
}
use tgpager.Tts.Speaker.{Speaker}
use tgpager.Tgcall.Client.{Client, given, at_least_one, new_client, apply, apply_all}
use tgpager.Server.{Server, Request, new, authorized, bearer}
use tgpager.Server.Handler.{authorized_iff}
use tgpager.Tts.Build.Settings.{Speaks, build-Speaks}
use tgpager.Server.Metrics.{MakesAll-new_server}
use tgpager.Tts.Build.{Site, Built, build}
use tgpager.Tts.Build.Succeeds.{is_ok, is_some, template_text, built_is_ok}
use tgpager.Telemetry.{MakesAll}
use tgpager.Main.Startup.{Running, Tools, client_options, run_up}

tts_holds : (Bytes → Bool) → Option Tts → Bool
tts_holds in_range o = elim o [ none ↦ true | some t ↦ tts_admits in_range t ]

-- A resolved credential does not change what is admitted.
module _ (os : Os) (base_dir : Bytes) (in_range : Bytes → Bool) where
  with_key :
      (o : Option OpenAiTts) (c : Option CommandTts) (q : TtsProvider)
      → resolve_provider os base_dir (record { open_ai = o; command = c }) ≡ ok q
      → provider_admits in_range q ≡ provider_admits in_range (record { open_ai = o; command = c })
  unfolding resolve_provider provider_admits open_ai_admits
  with_key none c q h =
      ap (provider_admits in_range)
        (ok_unique (resolve_provider os base_dir (record { open_ai = none; command = c })) h refl)
  with_key (some o) c q h =
      let (key, k, f) = bind_ok (named _ (resolve os base_dir o.api_key)) _ q h in
      ap (provider_admits in_range) (ok_unique (ok q) refl (sym f))

  tts_with_key :
      (o u : Option Tts)
      → resolve_tts os base_dir o ≡ ok u
      → tts_holds in_range u ≡ tts_holds in_range o
  unfolding resolve_tts tts_admits tts_holds
  tts_with_key none u h = ap (tts_holds in_range) (ok_unique (resolve_tts os base_dir none) h refl)
  tts_with_key (some t) u h =
      let (p, k, f) = bind_ok (resolve_provider os base_dir t.provider) _ u h in
      ap (tts_holds in_range) (ok_unique (ok u) refl (sym f))
      ∙ ap
          (λ b.
            b && (cache_admits t.cache && (between 1 10 t.repeat && at_least one_second t.timeout)))
          (with_key t.provider.open_ai t.provider.command p k)

-- What the client is with the settings of `c`: its credentials, its tries and delays, its peer, and whether
-- it places calls.
abbrev pub Calls : Config → Client → Type 0
Calls c client =
    (client.app_id ≡ c.telegram.app_id)
    × (client.app_hash ≡ c.telegram.app_hash.value)
    × (client.session ≡ c.telegram.session)
    × (client.bot_token ≡ c.telegram.bot_token.value)
    × ((client.bot_token ≡ []) ⊎ (client.calls_enabled ≡ false))
    × (client.calls_enabled ≡ calls c.voice.mode)
    × (client.peer ≡ c.peer)
    × (client.attempts ≡ c.call.attempts)
    × (client.retry_delay ≡ c.call.retry_delay)
    × (client.ring_timeout ≡ c.call.ring_timeout)
    × (client.connect_timeout ≡ c.call.connect_timeout)
    × (client.voice_attempts ≡ c.voice.attempts)
    × (client.voice_retry_delay ≡ c.voice.retry_delay)

-- What the server is: who may send webhooks, and how many pages may wait.
abbrev pub Listens : Config → Server → Type 0
Listens c server =
    ((r : Request)
      → (authorized server r ≡ true)
        ↔ ((c.webhook.token.value ≡ []) ⊎ (r.authorization ≡ bearer ++ c.webhook.token.value)))
    × (1 ≤ server.capacity)
    × (pos server.capacity ≡ c.webhook.queue_size)
    × (server.queue ≡ [])
    × (server.inflight ≡ [])

-- What the client logs and reports to, and where it keeps its peers.
abbrev pub Reports : Tools → Running → Type 0
Reports tools r =
    (r.client.logger ≡ given tools.logger)
    × (r.client.tracer_provider ≡ given tools.tracer_provider)
    × (r.client.meter_provider ≡ given tools.meter_provider)
    × (r.client.peer_storage ≡ given tools.peer_storage)

abbrev pub Configured : Site → Tools → Config → Running → Type 0
Configured site tools c r =
    Calls c r.client × Listens c r.server × Speaks site c.tts c.audio r.speaker × Reports tools r

between-pos :
    (lo hi : ℕ) (v : ℤ)
    → between lo hi v ≡ true
    → pos 1 ≤ℤ pos lo
    → (pos 1 ≤ℤ v) × (1 ≤ pos_part v) × (pos (pos_part v) ≡ v)
between-pos lo hi (pos n) h l = (ground arith, ground arith, refl)
between-pos lo hi (negsuc n) h l = absurd (ground arith)

at_least_one_same : (v : ℤ) → pos 1 ≤ℤ v → at_least_one v ≡ v
at_least_one_same v h = ground arith

-- The three numbers that are bounded.
abbrev InBounds : CallConfig → Voice → ℤ → Type 0
InBounds call voice queue_size =
    (between 1 100 call.attempts ≡ true)
    × (between 1 100 voice.attempts ≡ true)
    × (between 1 10000 queue_size ≡ true)

admits-InBounds :
    (in_range : Bytes → Bool) (c : Config)
    → admits in_range c ≡ true
    → InBounds c.call c.voice c.webhook.queue_size
unfolding admits call_admits voice_admits webhook_admits
admits-InBounds in_range c h = (ground arith, ground arith, ground arith)

admits-rest :
    (in_range : Bytes → Bool) (c : Config)
    → admits in_range c ≡ true
    → (tts_holds in_range c.tts ≡ true) × (non_empty c.audio ≡ true)
unfolding admits tts_holds
admits-rest in_range c h = (ground arith, ground arith)

abbrev made_client : Tools → Config → Client
made_client tools c =
    new_client c.telegram.app_id c.telegram.app_hash.value c.telegram.session
      (client_options tools c)

abbrev made_server : Config → Server
made_server c = new (pos_part c.webhook.queue_size) c.webhook.token.value

abbrev made_with : Tools → Config → Speaker → Running
made_with tools c s = record { client = made_client tools c; server = made_server c; speaker = s }

-- What the options make of a configuration in bounds.
made_client-Calls :
    (tools : Tools) (c : Config)
    → between 1 100 c.call.attempts ≡ true
    → between 1 100 c.voice.attempts ≡ true
    → (c.telegram.bot_token.value ≡ []) ⊎ (calls c.voice.mode ≡ false)
    → Calls c (made_client tools c)
unfolding new_client apply apply_all
made_client-Calls tools c a v silent = (
  refl,
  refl,
  refl,
  refl,
  silent,
  refl,
  refl,
  at_least_one_same c.call.attempts (between-pos 1 100 c.call.attempts a (omega arith)).0,
  refl,
  refl,
  refl,
  at_least_one_same c.voice.attempts (between-pos 1 100 c.voice.attempts v (omega arith)).0,
  refl,
)

made_server-Listens :
    (c : Config) → between 1 10000 c.webhook.queue_size ≡ true → Listens c (made_server c)
unfolding new
made_server-Listens c q =
    let (least, some_room, whole) = between-pos 1 10000 c.webhook.queue_size q (omega arith) in
    (λ r. authorized_iff (made_server c) r, some_room, whole, refl, refl)

made_with-Reports : (tools : Tools) (c : Config) (s : Speaker) → Reports tools (made_with tools c s)
unfolding new_client apply apply_all
made_with-Reports tools c s = (refl, refl, refl, refl)

built_up :
    (site : Site) (tools : Tools) (open_cache : Bytes → Option Bytes) (d : Config) (b : Built)
    → open_cache d.peer_cache ≡ none
    → build site d.tts d.audio ≡ ok b
    → MakesAll site.meter
    → run_up site tools open_cache d ≡ ok (made_with tools d b.speaker)
unfolding run_up
built_up site tools open_cache d b e h makes =
    simp
      (
        e,
        MakesAll-new_server site.meter (pos_part d.webhook.queue_size) d.webhook.token.value makes,
        h,
        run_up,
      )
      refl

is_ok_made : {E A : Type 0} (r : Result E A) → is_ok r ≡ true → (a : A) × (r ≡ ok a)
is_ok_made (ok a) h = (a, refl)
is_ok_made (err e) h = absurd (ground arith)

-- A configuration that loads starts the program, if the cache of peers opens, the directory of speech
-- can be made, the meters make every instrument and the template, or the default one in its place, can be
-- parsed; what the figureout library resolves is taken to be admitted by the descriptors. The client then
-- has the app id, the hash, the session and the bot token of the configuration, its numbers of tries of
-- calls and messages, its delays and timeouts and its peer, and places calls exactly
-- in the modes that ring, never with a bot token. The server lets a webhook through exactly when no
-- token is configured or the webhook bears it; its page queue is empty and holds as many pages as
-- configured, which is at least one. The speaker plays the configured audio as its tone; with a section for
-- speech it has the provider of that section, with its model, voice, instructions, speed and key or with its
-- command and arguments, and the repetitions and the cache of the section, and else it has no provider and
-- plays the tone once. And the client logs, traces and counts where the program does, and keeps its
-- peers in the cache that was opened.
pub load-Configured :
    (decode : Bytes → Result Bytes Config) (dir : Bytes → Bytes) (os : Os) (path : Bytes)
    (site : Site) (tools : Tools) (open_cache : Bytes → Option Bytes) (d : Config)
    → ((c : Config) → decode path ≡ ok c → admits site.in_range c ≡ true)
    → load decode dir os path ≡ ok d
    → site.makes_dir ≡ true
    → is_some (site.parse (template_text d.tts)) ≡ true
    → MakesAll site.meter
    → open_cache d.peer_cache ≡ none
    → (r : Running) × (run_up site tools open_cache d ≡ ok r) × Configured site tools d r
unfolding tts_holds
load-Configured decode dir os path site tools open_cache d admitted loads made_dir parsed makes
      opens =
    let (c, decoded, resolved) = load_steps decode dir os path d loads in
    let h = admitted c decoded in
    let (hash, silent, x, y, z, tts, voice, call, peer, audio, queue, session, cache) =
      resolve_secrets-Loads os (dir path) c d resolved in
    let same = tts_with_key os (dir path) site.in_range c.tts d.tts tts in
    let (speech, filled) = admits-rest site.in_range c h in
    let (b, made) = is_ok_made (build site d.tts d.audio) (
      built_is_ok site d.tts d.audio (same ∙ speech) (ap non_empty audio ∙ filled) made_dir parsed
        makes) in
    let bounds : InBounds d.call d.voice d.webhook.queue_size =
      subst (λ k. InBounds k d.voice d.webhook.queue_size) (sym call)
        (subst (λ v. InBounds c.call v d.webhook.queue_size) (sym voice)
          (subst (InBounds c.call c.voice) (sym queue) (admits-InBounds site.in_range c h))) in
    (
      made_with tools d b.speaker,
      built_up site tools open_cache d b opens made makes,
      (
        made_client-Calls tools d bounds.0 bounds.1 silent,
        made_server-Listens d bounds.2,
        build-Speaks site d.tts d.audio b (same ∙ speech) made,
        made_with-Reports tools d b.speaker,
      ),
    )
