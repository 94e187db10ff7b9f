-- ===== src/Elevation/Traced.antt =====
-- Where the messages between a client and its worker come from (internal/elevation).
use crobe.Common.{
  ℕ, suc, ◌≤◌, ◌⊎◌, inl, inr, Bool, Option, some, [], ◌∷◌, ◌++◌, String, ◌≡◌, arith, All,
  All-append, All-map_with, eqb, if◌then◌else◌, if-elim,
}
use crobe.Executor.{ExecutionRequest, ExecutionResult}
use crobe.Elevation.{
  ping_type, pong_type, shutdown_type, WireMessage, Link, request_id, ping_id, exec_message,
  plain_message,
}
use crobe.Elevation.Worker.{result_message, LocalRunner}

-- What was asked for, by number, up to a number.
abbrev pub Asked : Type 0
Asked = ℕ × (ℕ → Option ExecutionRequest)

-- The request with the number `k` was sent.
abbrev pub IsCall : Asked → ℕ → ExecutionRequest → Type 0
IsCall a k req = (k ≤ a.0) × (a.1 k ≡ some req)

abbrev pub JobTraced : Asked → String × ExecutionRequest → Type 0
JobTraced a job = (k : ℕ) × (job.0 ≡ request_id k) × IsCall a k job.1

-- A message to the worker is a request, or has no payload and asks for nothing to be run.
abbrev pub SentTraced : Asked → WireMessage → Type 0
SentTraced a msg =
    ((k : ℕ) × (req : ExecutionRequest) × (msg ≡ exec_message (request_id k) req) × IsCall a k req)
    ⊎ ((k : ℕ) × (msg ≡ plain_message ping_type (ping_id k) ""))
    ⊎ (msg ≡ plain_message shutdown_type "" "")

-- A message to the client is what a job for a request returned, or answers a ping.
abbrev pub ReplyTraced : LocalRunner → Asked → WireMessage → Type 0
ReplyTraced Ran a msg =
    ((k : ℕ) × (req : ExecutionRequest) × (res : ExecutionResult) × (e : Option String) × (msg
        ≡ result_message (request_id k) res e)
      × Ran req res e
      × IsCall a k req)
    ⊎ ((k : ℕ) × (msg ≡ plain_message pong_type (ping_id k) ""))

abbrev pub asked_by : Link → Asked
asked_by l = (l.seq, l.asked)

pub record IsTraced (Ran : LocalRunner) (l : Link) : Type 0 where
  pub jobs : All (JobTraced (asked_by l)) l.jobs
  pub sent : All (SentTraced (asked_by l)) l.to_worker
  pub replies : All (ReplyTraced Ran (asked_by l)) l.to_client

-- Every request that was sent is still known.
abbrev Extends : Asked → Asked → Type 0
Extends a b = (k : ℕ) (req : ExecutionRequest) → IsCall a k req → IsCall b k req

JobTraced-extended :
    (a b : Asked)
    → Extends a b
    → (job : String × ExecutionRequest) → JobTraced a job
    → JobTraced b job
JobTraced-extended a b f job (k, e, c) = (k, e, f k job.1 c)

SentTraced-extended :
    (a b : Asked) → Extends a b → (msg : WireMessage) → SentTraced a msg → SentTraced b msg
SentTraced-extended a b f msg (inl (k, req, e, c)) = inl (k, req, e, f k req c)
SentTraced-extended a b f msg (inr h) = inr h

ReplyTraced-extended :
    (Ran : LocalRunner) (a b : Asked)
    → Extends a b
    → (msg : WireMessage) → ReplyTraced Ran a msg
    → ReplyTraced Ran b msg
ReplyTraced-extended Ran a b f msg (inl (k, req, res, e, q, r, c)) =
    inl (k, req, res, e, q, r, f k req c)
ReplyTraced-extended Ran a b f msg (inr h) = inr h

-- One more number, with or without a request.
pub Extends-asks :
    (n : ℕ) (asked : ℕ → Option ExecutionRequest) (req : ExecutionRequest)
    → Extends (n, asked) (suc n, λ k. if eqb k (suc n) then some req else asked k)
Extends-asks n asked req k req' (h, e) = (
  omega arith,
  if-elim (λ x. x ≡ some req') (eqb k (suc n)) (some req) (asked k) (λ q. absurd (ground arith))
      (λ q. e),
)

Extends-counts : (n : ℕ) (asked : ℕ → Option ExecutionRequest) → Extends (n, asked) (suc n, asked)
Extends-counts n asked k req (h, e) = (omega arith, e)

module _ (Ran : LocalRunner) where
  -- A link with other numbers.
  abbrev pub numbered : Asked → Link → Link
  numbered a l = record l { seq = a.0; asked = a.1 }

  pub IsTraced-extended :
      (l : Link) (b : Asked) → Extends (asked_by l) b → IsTraced Ran l → IsTraced Ran (numbered b l)
  IsTraced-extended l b f t = record {
    jobs =
        All-map_with (JobTraced (asked_by l)) (JobTraced b) (JobTraced-extended (asked_by l) b f)
          l.jobs t.jobs;
    sent =
        All-map_with (SentTraced (asked_by l)) (SentTraced b) (SentTraced-extended (asked_by l) b f)
          l.to_worker t.sent;
    replies =
        All-map_with (ReplyTraced Ran (asked_by l)) (ReplyTraced Ran b)
          (ReplyTraced-extended Ran (asked_by l) b f) l.to_client t.replies;
  }

  pub IsTraced-sends :
      (l : Link) (msg : WireMessage)
      → SentTraced (asked_by l) msg
      → IsTraced Ran l
      → IsTraced Ran (record l { to_worker = l.to_worker ++ msg ∷ [] })
  IsTraced-sends l msg h t = record {
    jobs = t.jobs;
    sent = All-append (SentTraced (asked_by l)) l.to_worker (msg ∷ []) t.sent (h, tt);
    replies = t.replies;
  }

  pub IsTraced-replies :
      (l : Link) (msg : WireMessage)
      → ReplyTraced Ran (asked_by l) msg
      → IsTraced Ran l
      → IsTraced Ran (record l { to_client = l.to_client ++ msg ∷ [] })
  IsTraced-replies l msg h t = record {
    jobs = t.jobs;
    sent = t.sent;
    replies = All-append (ReplyTraced Ran (asked_by l)) l.to_client (msg ∷ []) t.replies (h, tt);
  }

  -- The flags of a link do not matter.
  pub IsTraced-flags :
      (closed stopped : Bool) (l : Link)
      → IsTraced Ran l
      → IsTraced Ran (record l { closed = closed; stopped = stopped })
  IsTraced-flags closed stopped l t = record { jobs = t.jobs; sent = t.sent; replies = t.replies }

  pub counted : (l : Link) → IsTraced Ran l → IsTraced Ran (record l { seq = suc l.seq })
  counted l = IsTraced-extended l (suc l.seq, l.asked) (Extends-counts l.seq l.asked)
