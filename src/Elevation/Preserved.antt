-- ===== src/Elevation/Preserved.antt =====
-- Every step of a client and its worker keeps the messages traced (internal/elevation).
use crobe.Common.{
  ℕ, zero, suc, inl, inr, true, Option, none, some, List, [], ◌∷◌, String, ◌≡◌, refl, sym, ap,
  arith, All, All-append, eqb, if◌then◌else◌, if-elim,
}
use mathlib.Core.Path.{subst}
use crobe.Executor.{ExecutionRequest, ExecutionResult}
use crobe.Elevation.{
  ping_type, pong_type, shutdown_type, WireMessage, Link, request_id, ping_id, exec_message,
  plain_message, send_request, send_ping, close_client, decode_next,
}
use crobe.Elevation.Worker.{
  result_message, send_reply, handle_message, worker_step, job_at, drop_job, end_job, LinkStep,
  asks, pings, closes, decodes, turns, fails, ends, LinkReach, start, later, LocalRunner,
}
use crobe.Elevation.Traced.{
  JobTraced, SentTraced, ReplyTraced, asked_by, IsTraced, numbered, IsTraced-extended,
  IsTraced-sends, IsTraced-replies, IsTraced-flags, counted, Extends-asks,
}

All-job_at :
    (P : String × ExecutionRequest → Type 0) (i : ℕ) (jobs : List (String × ExecutionRequest))
    (job : String × ExecutionRequest)
    → job_at i jobs ≡ some job
    → All P jobs
    → P job
All-job_at P i [] job e h = absurd (cc)
All-job_at P zero (x ∷ xs) job e (p, h) = let same : x ≡ job = cc e in subst P same p
All-job_at P (suc i) (x ∷ xs) job e (p, h) = All-job_at P i xs job e h

All-drop_job :
    (P : String × ExecutionRequest → Type 0) (i : ℕ) (jobs : List (String × ExecutionRequest))
    → All P jobs
    → All P (drop_job i jobs)
All-drop_job P i [] h = tt
All-drop_job P zero (x ∷ xs) (p, h) = h
All-drop_job P (suc i) (x ∷ xs) (p, h) = (p, All-drop_job P i xs h)

module _ (Ran : LocalRunner) where
  abbrev Kept {ℓ} : {A : Type ℓ} → A × Link → Type 0
  Kept r = IsTraced Ran r.1

  send_request-IsTraced :
      (ctx_err written : Option String) (req : ExecutionRequest) (l : Link)
      → IsTraced Ran l
      → IsTraced Ran (send_request ctx_err written req l).1
  unfolding send_request
  send_request-IsTraced (some e) written req l t = if-elim (Kept) l.closed _ _ (λ q. t) (λ q. t)
  send_request-IsTraced none (some e) req l t =
      if-elim (Kept) l.closed _ _ (λ q. t) (λ q. counted Ran l t)
  send_request-IsTraced none none req l t =
      let asked = λ (k : ℕ). if eqb k (suc l.seq) then some req else l.asked k in
      let known : asked (suc l.seq) ≡ some req =
        if-elim (λ x. x ≡ some req) (eqb (suc l.seq) (suc l.seq)) (some req) (l.asked (suc l.seq))
          (λ q. refl) (λ q. absurd (ground arith)) in
      if-elim (Kept) l.closed _ _ (λ q. t)
        (λ q.
          IsTraced-sends Ran (numbered Ran (suc l.seq, asked) l)
            (exec_message (request_id (suc l.seq)) req)
            (inl (suc l.seq, req, refl, (omega arith, known)))
            (IsTraced-extended Ran l (suc l.seq, asked) (Extends-asks l.seq l.asked req) t))

  send_ping-IsTraced :
      (written : Option String) (l : Link) → IsTraced Ran l → IsTraced Ran (send_ping written l).1
  unfolding send_ping
  send_ping-IsTraced (some e) l t = if-elim (Kept) l.closed _ _ (λ q. t) (λ q. counted Ran l t)
  send_ping-IsTraced none l t =
      if-elim (Kept) l.closed _ _ (λ q. t)
        (λ q.
          IsTraced-sends Ran (record l { seq = suc l.seq })
            (plain_message ping_type (ping_id (suc l.seq)) "") (inr (inl (suc l.seq, refl)))
            (counted Ran l t))

  close_client-IsTraced :
      (written : Option String) (l : Link) → IsTraced Ran l → IsTraced Ran (close_client written l)
  unfolding close_client
  close_client-IsTraced (some e) l t =
      if-elim (IsTraced Ran) l.closed _ _ (λ q. t) (λ q. IsTraced-flags Ran true l.stopped l t)
  close_client-IsTraced none l t =
      if-elim (IsTraced Ran) l.closed _ _ (λ q. t)
        (λ q.
          IsTraced-sends Ran (record l { closed = true }) (plain_message shutdown_type "" "")
            (inr (inr refl)) (IsTraced-flags Ran true l.stopped l t))

  send_reply-IsTraced :
      (sent : Option String) (msg : WireMessage) (l : Link)
      → ReplyTraced Ran (asked_by l) msg
      → IsTraced Ran l
      → IsTraced Ran (send_reply sent msg l)
  send_reply-IsTraced (some e) msg l h t = IsTraced-flags Ran l.closed true l t
  send_reply-IsTraced none msg l h t = IsTraced-replies Ran l msg h t

  handle_message-IsTraced :
      (sent : Option String) (msg : WireMessage) (l : Link)
      → SentTraced (asked_by l) msg
      → IsTraced Ran l
      → IsTraced Ran (handle_message sent msg l)
  unfolding handle_message
  handle_message-IsTraced sent msg l (inl (k, req, e, c)) t =
      subst (λ m. IsTraced Ran (handle_message sent m l)) (sym e)
        (record {
          jobs =
              All-append (JobTraced (asked_by l)) l.jobs ((request_id k, req) ∷ []) t.jobs
                ((k, refl, c), tt);
          sent = t.sent;
          replies = t.replies;
        })
  handle_message-IsTraced sent msg l (inr (inl (k, e))) t =
      subst (λ m. IsTraced Ran (handle_message sent m l)) (sym e)
        (send_reply-IsTraced sent (plain_message pong_type (ping_id k) "") l (inr (k, refl)) t)
  handle_message-IsTraced sent msg l (inr (inr e)) t =
      subst (λ m. IsTraced Ran (handle_message sent m l)) (sym e)
        (IsTraced-flags Ran l.closed true l t)

  -- Taking the oldest message to the worker.
  turned :
      (sent : Option String) (l : Link) (queue : List WireMessage)
      → l.to_worker ≡ queue
      → IsTraced Ran l
      → IsTraced Ran (elim queue [
        | [] ↦ l
        | msg ∷ rest ↦ handle_message sent msg (record l { to_worker = rest })
      ])
  turned sent l [] e t = t
  turned sent l (msg ∷ rest) e t =
      let (first, later_ones) = subst (All (SentTraced (asked_by l))) e t.sent in
      handle_message-IsTraced sent msg (record l { to_worker = rest }) first
        (record { jobs = t.jobs; sent = later_ones; replies = t.replies })

  worker_step-IsTraced :
      (sent : Option String) (l : Link) → IsTraced Ran l → IsTraced Ran (worker_step sent l)
  unfolding worker_step
  worker_step-IsTraced sent l t =
      if-elim (IsTraced Ran) l.stopped _ _ (λ q. t) (λ q. turned sent l l.to_worker refl t)

  decoded :
      (l : Link) (queue : List WireMessage)
      → l.to_client ≡ queue
      → IsTraced Ran l
      → Kept {A = Option WireMessage}
          (elim queue [ [] ↦ (none, l) | msg ∷ rest ↦ (some msg, record l { to_client = rest }) ])
  decoded l [] e t = t
  decoded l (msg ∷ rest) e t =
      let (first, later_ones) = subst (All (ReplyTraced Ran (asked_by l))) e t.replies in
      record { jobs = t.jobs; sent = t.sent; replies = later_ones }

  decode_next-IsTraced : (l : Link) → IsTraced Ran l → IsTraced Ran (decode_next l).1
  unfolding decode_next
  decode_next-IsTraced l t = decoded l l.to_client refl t

  end_job-IsTraced :
      (i : ℕ) (id : String) (req : ExecutionRequest) (res : ExecutionResult)
      (e sent : Option String) (l : Link)
      → job_at i l.jobs ≡ some (id, req)
      → Ran req res e
      → IsTraced Ran l
      → IsTraced Ran (end_job i id res e sent l)
  unfolding end_job
  end_job-IsTraced i id req res e (some e') l there r t = record {
    jobs = All-drop_job (JobTraced (asked_by l)) i l.jobs t.jobs;
    sent = t.sent;
    replies = t.replies;
  }
  end_job-IsTraced i id req res e none l there r t =
      let (k, same, c) = All-job_at (JobTraced (asked_by l)) i l.jobs (id, req) there t.jobs in
      IsTraced-replies Ran (record l { jobs = drop_job i l.jobs }) (result_message id res e)
        (inl (k, req, res, e, ap (λ x. result_message x res e) same, r, c))
        (record {
          jobs = All-drop_job (JobTraced (asked_by l)) i l.jobs t.jobs;
          sent = t.sent;
          replies = t.replies;
        })

  LinkStep-IsTraced : {l l' : Link} → LinkStep Ran l l' → IsTraced Ran l → IsTraced Ran l'
  LinkStep-IsTraced (asks l ctx_err written req) t = send_request-IsTraced ctx_err written req l t
  LinkStep-IsTraced (pings l written) t = send_ping-IsTraced written l t
  LinkStep-IsTraced (closes l written) t = close_client-IsTraced written l t
  LinkStep-IsTraced (decodes l) t = decode_next-IsTraced l t
  LinkStep-IsTraced (turns l sent) t = worker_step-IsTraced sent l t
  LinkStep-IsTraced (fails l) t = IsTraced-flags Ran l.closed true l t
  LinkStep-IsTraced (ends l i id req res e sent there r) t =
      end_job-IsTraced i id req res e sent l there r t

  pub LinkReach-IsTraced : {l : Link} → LinkReach Ran l → IsTraced Ran l
  LinkReach-IsTraced start = record { jobs = tt; sent = tt; replies = tt }
  LinkReach-IsTraced (later r s) = LinkStep-IsTraced s (LinkReach-IsTraced r)
