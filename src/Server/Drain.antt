-- ===== src/Server/Drain.antt =====
-- Runs of the server and the page loop that empty the pipeline, server.go and main.go.
use tgpager.Base.{◌≡◌, refl, List, [], ◌∷◌, Option, none, some, Bytes, arith}
use tgpager.Server.{CallRequest, done}
use tgpager.Server.Keys.{count}
use tgpager.Server.Interleaving.{
  World, resume, receive, finish, resumes, receives, finishes, Reach, here, next, Reach-trans,
}
use tgpager.Server.Invariant.{IsExclusive, Reach-IsExclusive}

resume_pending :
    (w : World) (req : CallRequest) (ps : List CallRequest) → (resume req ps w).pending ≡ ps
unfolding resume
resume_pending w req ps = refl

-- All waiting handlers run their `select`.
flush :
    (ps : List CallRequest) (w : World)
    → w.pending ≡ ps
    → (v : World) × Reach w v × (v.pending ≡ [])
flush [] w e = (w, here, e)
flush (p ∷ ps) w e =
    let (v, r, z) = flush ps (resume p ps w) (resume_pending w p ps) in
    (v, Reach-trans (next here (resumes w [] ps p e)) r, z)

record IsIdle (w : World) : Type 0 where
  no_pending : w.pending ≡ []
  no_current : w.current ≡ none

settle :
    (w : World) (c : Option CallRequest)
    → w.current ≡ c
    → w.pending ≡ []
    → (v : World) × Reach w v × IsIdle v
unfolding finish
settle w none c p = (w, here, record { no_pending = p; no_current = c })
settle w (some req) c p =
    (finish req w, next here (finishes w req c), record { no_pending = p; no_current = refl })

serve_queue :
    (q : List CallRequest) (w : World)
    → w.server.queue ≡ q
    → IsIdle w
    → (v : World) × Reach w v × IsIdle v × (v.server.queue ≡ [])
unfolding finish receive done
serve_queue [] w e i = (w, here, i, e)
serve_queue (p ∷ ps) w e i =
    let t = receive p ps w in
    let u = finish p t in
    let (v, r, z, f) =
      serve_queue ps u refl (record { no_pending = i.no_pending; no_current = refl }) in
    (v, Reach-trans (next (next here (receives w p ps e i.no_current)) (finishes t p refl)) r, z, f)

-- From every state that satisfies `IsExclusive`, some run empties the pipeline: no handler waits, the
-- queue is empty, nothing is being paged, and no group is left in the in-flight map.
pub drains :
    (w : World)
    → IsExclusive w
    → (v : World) × Reach w v
      × (v.pending ≡ [])
      × (v.server.queue ≡ [])
      × (v.current ≡ none)
      × ((k : Bytes) → count k v.server.inflight ≡ 0)
drains w inv =
    let (a, ra, pa) = flush w.pending w refl in
    let (b, rb, ib) = settle a a.current refl pa in
    let (v, rv, iv, qv) = serve_queue b.server.queue b refl ib in
    let r : Reach w v = Reach-trans (Reach-trans ra rb) rv in
    (v, r, iv.no_pending, qv, iv.no_current, λ k. emptied v k iv qv (Reach-IsExclusive inv r))
  where
    emptied :
        (v : World) (k : Bytes)
        → IsIdle v
        → v.server.queue ≡ []
        → IsExclusive v
        → count k v.server.inflight ≡ 0
    emptied v k i q x = ground (arith, x.tracked k, i.no_pending, i.no_current)
