-- ===== src/Server/Interleaving.antt =====
-- The server under concurrent webhooks. A handler that has entered its group in the in-flight set
-- waits at the `select` of `enqueue` (`pending`); the loop of `run` in cmd/tgpager/main.go takes one
-- page at a time off the queue (`current`) and calls `Done` when it is processed. Each step is one
-- piece of the code that runs without interruption.
use tgpager.Base.{ℕ, ◌≡◌, List, [], ◌∷◌, ◌++◌, Option, none, some, Bytes, map, if◌then◌else◌}
use tgpager.Server.{Server, CallRequest, new, claim, offer, done}

pub record World : Type 0 where
  pub server : Server
  pub pending : List CallRequest
  pub current : Option CallRequest

abbrev pub keys : List CallRequest → List Bytes
keys = map λ r. r.group_key

abbrev pub start : ℕ → Bytes → World
start queue_size token = record { server = new queue_size token; pending = []; current = none }

-- A firing webhook reaches `enqueue` and runs its locked part.
unfoldable pub begin : CallRequest → World → World
unfolding claim
begin req w =
    let (s, fresh) = claim req w.server in
    if fresh then record w { server = s; pending = req ∷ w.pending } else record w { server = s }

-- A pending handler runs its `select`.
unfoldable pub resume : CallRequest → List CallRequest → World → World
unfolding offer
resume req others w = record w { server = (offer req w.server).0; pending = others }

-- The page loop receives the oldest page.
unfoldable pub receive : CallRequest → List CallRequest → World → World
receive req rest w = record w { server = record (w.server) { queue = rest }; current = some req }

-- The page is processed, and `Done` is called.
unfoldable pub finish : CallRequest → World → World
unfolding done
finish req w = record w { server = done req.group_key w.server; current = none }

pub data Step : World → World → Type 0 where
  begins : (w : World) (req : CallRequest) → Step w (begin req w)
  resumes :
      (w : World) (xs ys : List CallRequest) (req : CallRequest)
      → w.pending ≡ xs ++ req ∷ ys
      → Step w (resume req (xs ++ ys) w)
  receives :
      (w : World) (req : CallRequest) (rest : List CallRequest)
      → w.server.queue ≡ req ∷ rest
      → w.current ≡ none
      → Step w (receive req rest w)
  finishes : (w : World) (req : CallRequest) → w.current ≡ some req → Step w (finish req w)

pub data Reach (s : World) : World → Type 0 where
  here : Reach s s
  next : {t u : World} → Reach s t → Step t u → Reach s u

pub Reach-trans : {s t u : World} → Reach s t → Reach t u → Reach s u
Reach-trans r here = r
Reach-trans r (next q st) = next (Reach-trans r q) st
