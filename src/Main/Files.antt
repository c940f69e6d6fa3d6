-- ===== src/Main/Files.antt =====
-- The temporary file of a voice message: `sendVoice`.
use tgpager.Base.{
  ◌≡◌, sym, refl, ◌∙◌, Bool, true, false, List, [], ◌∷◌, ◌++◌, Option, none, some, Bytes, str_eq,
  str_eq_refl, ok, if◌then◌else◌, arith, Bool-cases, inl, inr, Option-cases, Result-cases,
}
use tgpager.Audio.Spec.{Spec}
use tgpager.Config.Modes.{VoiceMode, TextMode, voice_sends}
use tgpager.Server.{CallRequest}
use tgpager.Tgcall.Call.{is_failure}
use tgpager.Tgcall.Errors.{ErrorLib}
use tgpager.Main.{
  Deed, made_file, removed_file, file_not_removed, rendered, sent_voice, failed_to_page, Parts,
  deliver_voice, send_voice, send_text, voice_report, leave_message, place_call, process_page,
}

-- The file that a page has in use, if there is one, through its deeds: making one needs that there is
-- none, and writing, sending, removing and failing to remove need that it is this one. A page that breaks this gives none.
abbrev pub Holding : Type 0
Holding = Option Bytes

abbrev pub uses : Bytes → Holding → Bool
uses path none = false
uses path (some file) = str_eq path file

abbrev pub step : Deed → Holding → Option Holding
step (made_file path) none = some (some path)
step (made_file path) (some file) = none
step (removed_file path) h = if uses path h then some none else none
step (file_not_removed path) h = if uses path h then some h else none
step (rendered spec path) h = if uses path h then some h else none
step (sent_voice path dur) h = if uses path h then some h else none
step _ h = some h

abbrev pub replay : List Deed → Holding → Option Holding
replay [] h = some h
replay (d ∷ ds) h = elim (step d h) [ none ↦ none | some h' ↦ replay ds h' ]

replay-append :
    (ds es : List Deed) (h h' : Holding)
    → replay ds h ≡ some h'
    → replay (ds ++ es) h ≡ replay es h'
replay-append [] es h h' e = ground arith
replay-append (d ∷ ds) es h h' e = elim (Option-cases (step d h)) [
  | inl n ↦ ground arith
  | inr (k, s) ↦ rw (s, replay) (replay-append ds es k h' (sym (rw (s, replay) refl) ∙ e))
]

module _ (lib : ErrorLib) (parts : Parts lib) where
  deliver_voice-replay :
      (spec : Spec) (path : Bytes)
      → parts.remove path ≡ none
      → replay (deliver_voice lib parts spec path).1 (some path) ≡ some none
  unfolding deliver_voice
  deliver_voice-replay spec path removed = ground (arith, str_eq_refl path)

  pub send_voice-replay :
      (spec : Spec)
      → parts.close_temp ≡ none
      → ((path : Bytes) → parts.remove path ≡ none)
      → replay (send_voice lib parts spec).1 none ≡ some none
  unfolding send_voice
  send_voice-replay spec closed removed = elim (Result-cases parts.create_temp) [
    | inr (e, failed) ↦ ground arith
    | inl (path, made) ↦
        rw (made, send_voice) (rw (closed) (deliver_voice-replay spec path (removed path)))
  ]

  send_text-replay :
      (mode : TextMode) (req : CallRequest) (failed : Bool)
      → replay (send_text lib parts mode req.payload failed).1 none ≡ some none
  unfolding send_text
  send_text-replay mode req failed = ground arith

  place_call-replay :
      (mode : VoiceMode) (spec : Spec) → replay (place_call lib parts mode spec).1 none ≡ some none
  unfolding place_call
  place_call-replay mode spec = ground arith

  voice_report-replay :
      (e : Option (lib.Error)) (h : Holding) → step (voice_report lib parts e) h ≡ some h
  unfolding voice_report
  voice_report-replay e h = ground arith

  if_silent : (b : Bool) → replay (if b then failed_to_page ∷ [] else []) none ≡ some none
  if_silent true = refl
  if_silent false = refl

  leave_message-replay :
      (mode : VoiceMode) (text_mode : TextMode) (req : CallRequest)
      → parts.close_temp ≡ none
      → ((path : Bytes) → parts.remove path ≡ none)
      → replay (leave_message lib parts mode text_mode (parts.speak req.payload) req.payload) none
        ≡ some none
  unfolding leave_message
  leave_message-replay mode text_mode req closed removed =
      let spec = parts.speak req.payload in
      let (e, ds) = send_voice lib parts spec in
      let es = (send_text lib parts text_mode req.payload (is_failure e)).1 in
      replay-append ds _ none none (send_voice-replay spec closed removed)
      ∙ rw (voice_report-replay e none, replay)
          (replay-append es _ none none (send_text-replay text_mode req (is_failure e))
            ∙ if_silent _)

  -- A page makes at most one temporary file, renders to, sends and removes no other, each while the
  -- file exists, and leaves no file behind on any path, provided the new file can be closed and `os.Remove`
  -- does not fail.
  pub process_page_leaves_no_file :
      (mode : VoiceMode) (text_mode : TextMode) (req : CallRequest)
      → parts.close_temp ≡ none
      → ((path : Bytes) → parts.remove path ≡ none)
      → replay (process_page lib parts mode text_mode req) none ≡ some none
  unfolding process_page
  process_page_leaves_no_file mode text_mode req closed removed =
      let spec = parts.speak req.payload in
      let (e, ds) = place_call lib parts mode spec in
      let es =
        if voice_sends mode (is_failure e)
        then leave_message lib parts mode text_mode spec req.payload
        else [] in
      replay-append ds es none none (place_call-replay mode spec)
      ∙ elim (Bool-cases (voice_sends mode (is_failure (place_call lib parts mode spec).0))) [
        | inl sends ↦ rw (sends) (leave_message-replay mode text_mode req closed removed)
        | inr silent ↦ rw (silent) refl
      ]

  -- When the new file cannot be closed, it is not removed: `sendVoice` leaves it behind.
  pub send_voice_leaves_file :
      (spec : Spec) (path : Bytes)
      → parts.create_temp ≡ ok path
      → is_failure parts.close_temp ≡ true
      → replay (send_voice lib parts spec).1 none ≡ some (some path)
  unfolding send_voice
  send_voice_leaves_file spec path made broken = ground arith
