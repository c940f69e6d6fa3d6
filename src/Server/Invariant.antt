-- ===== src/Server/Invariant.antt =====
-- The invariant of server.go and of the page loop of main.go under every order of their steps.
use tgpager.Base.{
  ℕ, ◌+◌, ◌≤◌, ◌≡◌, refl, List, [], ◌∷◌, ◌++◌, Option, none, some, Bytes, str_eq, length,
  length-append, arith, ltb, if◌then◌else◌, Bool-cases, inl, inr, str_eq_iff, ltb→lt,
}
use tgpager.Server.{CallRequest, new, contains}
use tgpager.Server.Keys.{count, count-contains-false, count-delete}
use tgpager.Server.Interleaving.{
  World, keys, start, begin, resume, receive, finish, Step, begins, resumes, receives, finishes,
  Reach, here, next,
}

abbrev pub current_keys : Option CallRequest → List Bytes
current_keys none = []
current_keys (some r) = r.group_key ∷ []

-- The groups on their way: waiting for the channel, in it, or being paged.
abbrev pub underway : Bytes → World → ℕ
underway k w =
    count k (keys w.pending) + count k (keys w.server.queue) + count k (current_keys w.current)

pub record IsExclusive (w : World) : Type 0 where
  pub tracked : (k : Bytes) → count k w.server.inflight ≡ underway k w
  pub once : (k : Bytes) → underway k w ≤ 1
  pub bounded : length w.server.queue ≤ w.server.capacity

pub keys-append :
    (k : Bytes) (xs ys : List CallRequest)
    → count k (keys (xs ++ ys)) ≡ count k (keys xs) + count k (keys ys)
keys-append k [] ys = omega arith
keys-append k (x ∷ xs) ys = ground (arith, keys-append k xs ys)

start-IsExclusive : (n : ℕ) (token : Bytes) → IsExclusive (start n token)
unfolding new
start-IsExclusive n token = record {
  tracked = λ k. refl;
  once = λ k. omega arith;
  bounded = omega arith;
}

begin-IsExclusive : (w : World) (req : CallRequest) → IsExclusive w → IsExclusive (begin req w)
unfolding begin
begin-IsExclusive w req v = elim (Bool-cases (contains req.group_key w.server.inflight)) [
  | inl e ↦ rw (e, begin) v
  | inr e ↦
      rw (e, begin)
        (record {
          tracked = λ k. ground (arith, v.tracked k);
          once = λ k. ground (
            arith,
            v.tracked k,
            v.once k,
            count-contains-false req.group_key w.server.inflight e,
            str_eq_iff req.group_key k,
          );
          bounded = v.bounded;
        })
]

-- Taking one page out of the pending ones takes its group off the count once.
count-middle :
    (k : Bytes) (xs ys : List CallRequest) (req : CallRequest)
    → count k (keys (xs ++ req ∷ ys))
      ≡ count k (keys (xs ++ ys)) + (if str_eq req.group_key k then 1 else 0)
count-middle k xs ys req = ground (arith, keys-append k xs (req ∷ ys), keys-append k xs ys)

pub count-pending :
    (w : World) (k : Bytes) (xs ys : List CallRequest) (req : CallRequest)
    → w.pending ≡ xs ++ req ∷ ys
    → count k (keys w.pending)
      ≡ count k (keys (xs ++ ys)) + (if str_eq req.group_key k then 1 else 0)
count-pending w k xs ys req e = rw e (count-middle k xs ys req)

resume-IsExclusive :
    (w : World) (xs ys : List CallRequest) (req : CallRequest)
    → w.pending ≡ xs ++ req ∷ ys
    → IsExclusive w
    → IsExclusive (resume req (xs ++ ys) w)
unfolding resume
resume-IsExclusive w xs ys req e v =
    elim (Bool-cases (ltb (length w.server.queue) w.server.capacity)) [
      | inl room ↦
          rw (room, resume)
            (record {
              tracked = λ k. omega (arith, v.tracked k, moved k);
              once = λ k. omega (arith, v.once k, moved k);
              bounded = omega (arith, ltb→lt _ _ room, length-append w.server.queue (req ∷ []));
            })
      | inr full ↦
          rw (full, resume)
            (record {
              tracked = λ k. ground (
                arith,
                v.tracked k,
                v.once k,
                count-pending w k xs ys req e,
                count-delete k req.group_key w.server.inflight,
              );
              once = λ k. ground (arith, v.once k, count-pending w k xs ys req e);
              bounded = v.bounded;
            })
    ]
  where
    moved :
        (k : Bytes)
        → count k (keys (xs ++ ys)) + count k (keys (w.server.queue ++ req ∷ []))
          ≡ count k (keys w.pending) + count k (keys w.server.queue)
    moved k = ground (arith, count-pending w k xs ys req e, keys-append k w.server.queue (req ∷ []))

receive-IsExclusive :
    (w : World) (req : CallRequest) (rest : List CallRequest)
    → w.server.queue ≡ req ∷ rest
    → w.current ≡ none
    → IsExclusive w
    → IsExclusive (receive req rest w)
unfolding receive
receive-IsExclusive w req rest q c v = record {
  tracked = λ k. ground (arith, v.tracked k);
  once = λ k. ground (arith, v.once k);
  bounded = ground (arith, v.bounded);
}

finish-IsExclusive :
    (w : World) (req : CallRequest)
    → w.current ≡ some req
    → IsExclusive w
    → IsExclusive (finish req w)
unfolding finish
finish-IsExclusive w req c v = record {
  tracked =
      λ k. ground (arith, v.tracked k, v.once k, count-delete k req.group_key w.server.inflight);
  once = λ k. ground (arith, v.once k);
  bounded = v.bounded;
}

-- Every step keeps the invariant.
Step-IsExclusive : {w u : World} → Step w u → IsExclusive w → IsExclusive u
Step-IsExclusive (begins w req) v = begin-IsExclusive w req v
Step-IsExclusive (resumes w xs ys req e) v = resume-IsExclusive w xs ys req e v
Step-IsExclusive (receives w req rest q c) v = receive-IsExclusive w req rest q c v
Step-IsExclusive (finishes w req c) v = finish-IsExclusive w req c v

pub Reach-IsExclusive : {s w : World} → IsExclusive s → Reach s w → IsExclusive w
Reach-IsExclusive v here = v
Reach-IsExclusive v (next r st) = Step-IsExclusive st (Reach-IsExclusive v r)

-- After any interleaving of webhooks and the page loop, started on an empty server: every group is
-- waiting, queued or being paged at most once in all, it is in the in-flight map exactly as often as
-- that, and the queue is within its capacity.
pub reachable-IsExclusive :
    (queue_size : ℕ) (token : Bytes) {w : World} → Reach (start queue_size token) w → IsExclusive w
reachable-IsExclusive n token r = Reach-IsExclusive (start-IsExclusive n token) r
