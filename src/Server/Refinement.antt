-- ===== src/Server/Refinement.antt =====
-- server.go and the page loop of main.go, seen from one alert group: the stages on its way, and the moves
-- between them.
use tgpager.Base.{
  ℕ, zero, suc, ◌+◌, ◌≡◌, ◌≢◌, ◌↔◌, refl, ap, sym, ◌∙◌, ◌⊎◌, inl, inr, true, false, List, [], ◌∷◌,
  ◌++◌, none, some, Bytes, str_eq, str_eq_refl, str_eq-false, length, arith, ltb, if◌then◌else◌,
  Bool-cases,
}
use mathlib.Core.Path.{subst}
use tgpager.Server.{CallRequest, contains}
use tgpager.Server.Keys.{count, count-contains-false, contains-count_zero}
use tgpager.Server.Interleaving.{
  World, keys, begin, resume, receive, finish, Step, begins, resumes, receives, finishes, here,
  next,
}
use tgpager.Server.Invariant.{
  IsExclusive, Reach-IsExclusive, current_keys, keys-append, count-pending,
}

pub data Stage : Type 0 where
  idle waiting enqueued paged : Stage

-- The abstract machine of a group.
pub data Move : Stage → Stage → Type 0 where
  enters : Move idle waiting
  is_sent : Move waiting enqueued
  is_dropped : Move waiting idle
  is_taken : Move enqueued paged
  is_done : Move paged idle

-- How often a group occurs among the pending, the queued and the current pages.
abbrev pub places : Bytes → World → ℕ × ℕ × ℕ
places k w =
    (count k (keys w.pending), count k (keys w.server.queue), count k (current_keys w.current))

abbrev pub stage_at : ℕ × ℕ × ℕ → Stage
stage_at (suc p, q, c) = waiting
stage_at (zero, suc q, c) = enqueued
stage_at (zero, zero, suc c) = paged
stage_at (zero, zero, zero) = idle

abbrev pub stage : Bytes → World → Stage
stage k w = stage_at (places k w)

-- One group at most makes a move, all others stay where they are.
pub record Refines (w u : World) : Type 0 where
  pub group : Bytes
  pub moves : (stage group u ≡ stage group w) ⊎ Move (stage group w) (stage group u)
  pub others : (k : Bytes) → k ≢ group → stage k u ≡ stage k w

three : {a b c x y z : ℕ} → a ≡ x → b ≡ y → c ≡ z → ◌≡◌ {A = ℕ × ℕ × ℕ} (a, b, c) (x, y, z)
three e f g = cc

moving :
    {w u : World} (g : Bytes) (s t : ℕ × ℕ × ℕ)
    → places g w ≡ s
    → places g u ≡ t
    → Move (stage_at s) (stage_at t)
    → ((k : Bytes) → k ≢ g → places k u ≡ places k w)
    → Refines w u
moving {w} {u} g s t e f m o = record {
  group = g;
  moves = inr (
      subst (λ a. Move (stage_at a) (stage_at (places g u))) (sym e)
        (subst (λ b. Move (stage_at s) (stage_at b)) (sym f) m));
  others = λ k d. ap stage_at (o k d);
}

staying : (w : World) → Refines w w
staying w = record { group = []; moves = inl refl; others = λ k d. refl }

begin-Refines : (w : World) (req : CallRequest) → IsExclusive w → Refines w (begin req w)
unfolding begin
begin-Refines w req v = elim (Bool-cases (contains req.group_key w.server.inflight)) [
  | inl e ↦ rw (e, begin) (staying w)
  | inr e ↦
      let g = req.group_key in
      let none_there : count g w.server.inflight ≡ 0 = count-contains-false g w.server.inflight e in
      let same : str_eq g g ≡ true = str_eq_refl g in
      rw (e, begin)
        (moving g (0, 0, 0) (1, 0, 0)
          (three (omega (arith, none_there, v.tracked g)) (omega (arith, none_there, v.tracked g))
            (omega (arith, none_there, v.tracked g)))
          (three (ground (arith, none_there, v.tracked g)) (omega (arith, none_there, v.tracked g))
            (omega (arith, none_there, v.tracked g)))
          enters (λ k d. three (ground (arith, str_eq-false g k (λ x. d (sym x)))) refl refl))
]

resume-Refines :
    (w : World) (xs ys : List CallRequest) (req : CallRequest)
    → w.pending ≡ xs ++ req ∷ ys
    → IsExclusive w
    → Refines w (resume req (xs ++ ys) w)
unfolding resume
resume-Refines w xs ys req e v = elim (Bool-cases (ltb (length w.server.queue) w.server.capacity)) [
  | inl room ↦
      rw (room, resume)
        (moving g (1, 0, 0) (0, 1, 0) before
          (three (omega (arith, v.once g, counted)) (omega (arith, v.once g, counted, sent))
            (omega (arith, v.once g, counted)))
          is_sent (λ k d. three (left k d) (sent_other k d) refl))
  | inr full ↦
      rw (full, resume)
        (moving g (1, 0, 0) (0, 0, 0) before
          (three (omega (arith, v.once g, counted)) (omega (arith, v.once g, counted))
            (omega (arith, v.once g, counted)))
          is_dropped (λ k d. three (left k d) refl refl))
]
  where
    g : Bytes
    g = req.group_key

    counted : count g (keys w.pending) ≡ count g (keys (xs ++ ys)) + 1
    counted =
        count-pending w g xs ys req e
        ∙ ap (λ b. count g (keys (xs ++ ys)) + (if b then 1 else 0)) (str_eq_refl g)

    left : (k : Bytes) → k ≢ g → count k (keys (xs ++ ys)) ≡ count k (keys w.pending)
    left k d =
        let other : str_eq req.group_key k ≡ false = str_eq-false g k (λ x. d (sym x)) in
        ground (arith, count-pending w k xs ys req e)

    sent : count g (keys (w.server.queue ++ req ∷ [])) ≡ count g (keys w.server.queue) + 1
    sent =
        let same : str_eq req.group_key g ≡ true = str_eq_refl g in
        ground (arith, keys-append g w.server.queue (req ∷ []))

    sent_other :
        (k : Bytes)
        → k ≢ g
        → count k (keys (w.server.queue ++ req ∷ [])) ≡ count k (keys w.server.queue)
    sent_other k d =
        let other : str_eq req.group_key k ≡ false = str_eq-false g k (λ x. d (sym x)) in
        ground (arith, keys-append k w.server.queue (req ∷ []))

    before : places g w ≡ (1, 0, 0)
    before =
        three (omega (arith, v.once g, counted)) (omega (arith, v.once g, counted))
          (omega (arith, v.once g, counted))

receive-Refines :
    (w : World) (req : CallRequest) (rest : List CallRequest)
    → w.server.queue ≡ req ∷ rest
    → w.current ≡ none
    → IsExclusive w
    → Refines w (receive req rest w)
unfolding receive
receive-Refines w req rest e c v =
    let g = req.group_key in
    let same : str_eq g g ≡ true = str_eq_refl g in
    moving g (0, 1, 0) (0, 0, 1)
      (three (ground (arith, v.once g)) (ground (arith, v.once g)) (ground arith))
      (three (ground (arith, v.once g)) (ground (arith, v.once g)) (ground arith)) is_taken
      (λ k d.
        let other : str_eq g k ≡ false = str_eq-false g k (λ x. d (sym x)) in
        three refl (ground arith) (ground arith))

finish-Refines :
    (w : World) (req : CallRequest)
    → w.current ≡ some req
    → IsExclusive w
    → Refines w (finish req w)
unfolding finish
finish-Refines w req c v =
    let g = req.group_key in
    let same : str_eq g g ≡ true = str_eq_refl g in
    moving g (0, 0, 1) (0, 0, 0)
      (three (ground (arith, v.once g)) (ground (arith, v.once g)) (ground arith))
      (three (ground (arith, v.once g)) (ground (arith, v.once g)) refl) is_done
      (λ k d.
        let other : str_eq g k ≡ false = str_eq-false g k (λ x. d (sym x)) in
        three refl refl (ground arith))

stage_at_idle : (p q c : ℕ) → (p + q + c ≡ 0) ↔ (stage_at (p, q, c) ≡ idle)
stage_at_idle (suc p) q c = (λ e. absurd (omega (arith, e)), λ e. absurd (ground arith))
stage_at_idle zero (suc q) c = (λ e. absurd (omega (arith, e)), λ e. absurd (ground arith))
stage_at_idle zero zero (suc c) = (λ e. absurd (omega (arith, e)), λ e. absurd (ground arith))
stage_at_idle zero zero zero = (λ e. refl, λ e. refl)

-- What the pipeline shows of a group: the in-flight map holds it exactly while it is not idle.
inflight-stage :
    (w : World) (k : Bytes)
    → IsExclusive w
    → (contains k w.server.inflight ≡ true) ↔ (stage k w ≢ idle)
inflight-stage w k v = elim (Bool-cases (contains k w.server.inflight)) [
  | inl held ↦ (
    λ h i.
        let gone =
          (stage_at_idle (count k (keys w.pending)) (count k (keys w.server.queue))
              (count k (current_keys w.current))).1
            i in
        let absent = contains-count_zero k w.server.inflight (v.tracked k ∙ gone) in
        ground (arith, held, absent),
    λ d. held,
  )
  | inr free ↦ (
    λ h. absurd (ground (arith, h, free)),
    λ d. absurd (
        d (
          (stage_at_idle (count k (keys w.pending)) (count k (keys w.server.queue))
              (count k (current_keys w.current))).0
            (sym (v.tracked k) ∙ count-contains-false k w.server.inflight free))),
  )
]

-- From a state that satisfies `IsExclusive`, every step is one of the abstract machine or no move at
-- all: at most one group moves, from idle to waiting, from waiting to queued or back to idle, from
-- queued to being paged, or from being paged to idle, and every other group stays in its stage. After
-- the step a group is in the in-flight map exactly when it is not idle.
pub Step-Refines :
    {w u : World}
    → IsExclusive w
    → Step w u
    → Refines w u × ((k : Bytes) → (contains k u.server.inflight ≡ true) ↔ (stage k u ≢ idle))
Step-Refines {w} {u} v st =
    (by_step st v, λ k. inflight-stage u k (Reach-IsExclusive v (next here st)))
  where
    by_step : {w u : World} → Step w u → IsExclusive w → Refines w u
    by_step (begins w req) v = begin-Refines w req v
    by_step (resumes w xs ys req e) v = resume-Refines w xs ys req e v
    by_step (receives w req rest q c) v = receive-Refines w req rest q c v
    by_step (finishes w req c) v = finish-Refines w req c v
