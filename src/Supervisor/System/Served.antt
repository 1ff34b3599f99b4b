-- ===== src/Supervisor/System/Served.antt =====
-- The control plane beside the loop: cmd/gobackup-docker/main.go gives internal/webapi/server.go the
-- Status of internal/pipeline/reconcile.go, and the handlers answer between the steps of the system.
use gobackup_docker.Base.{
  subst, ℕ, true, none, inl, inr, ◌⊎◌, ◌≡◌, ◌∙◌, ap, In, List, [], ◌∷◌, Bytes, codes,
}
use gobackup_docker.Container.{Config}
use gobackup_docker.Pipeline.Discover.{Settings}
use gobackup_docker.Pipeline.Reconcile.{Status, Reconciler, World, Pass, prepared}
use gobackup_docker.Pipeline.Reconcile.Pass.{Wrote, Wrote-error, AfterPass, reconcile_lem}
use gobackup_docker.Supervisor.Loop.{Event}
use gobackup_docker.Supervisor.System.{System, SystemRun, begin, looped, passed, changed, pass}
use gobackup_docker.Webapi.{
  HttpClient, Request, Reply, Server, Answer, perform, client_used, endpoint,
}
use gobackup_docker.Webapi.Perform.{Refusal, passed as answer_code, AfterPerform, perform_lem}

-- the copy of the status that a handler gets
unfoldable pub reported : {W : Type 0} → System W → Status
reported s = s.reconciler.status

-- http.Client's PostForm, on the host
abbrev pub PostForm : Type 0 → Type 0
PostForm W = HttpClient → Bytes → List (Bytes × Bytes) → W → W × Reply

-- it leaves the loop and the reconciler alone
abbrev pub on_host : {W : Type 0} → PostForm W → PostForm (System W)
on_host post c url form s =
    let (w, reply) = post c url form s.outside in (record s { outside = w }, reply)

-- the server that main makes
unfoldable pub control_plane :
    {W : Type 0} → Bytes → PostForm W → (Status → Bytes) → (Bytes → Bytes) → Server (System W)
unfolding reported
control_plane url post encode quoted = record {
  client = none;
  status = reported;
  gobackup_url = url;
  post_form = on_host post;
  encode_status = encode;
  quoted = quoted;
}

module _ {W : Type 0} (world : World W) (cfg : Settings) (spec : Config) (debounce : ℕ)
    (Change : W → W → Type 0) where
  -- the models are those of the document that was written last, or there are none yet
  abbrev Reports : Reconciler → Type 0
  Reports r = (r.status.models ≡ []) ⊎ ((q : Reconciler) × Wrote world cfg spec q r)

  AfterPass-Reports :
      (r : Reconciler) (p : Pass world cfg spec)
      → Reports r
      → AfterPass world cfg spec r p
      → Reports p.1
  AfterPass-Reports r p h (e, inr wrote) = inr (r, wrote)
  AfterPass-Reports r p (inl none_) (e, inl (same, f)) =
      inl (ap (λ t. t.status.models) same ∙ none_)
  AfterPass-Reports r p (inr (q, wrote)) (e, inl (same, f)) =
      inr (q, rw same (Wrote-error world cfg spec q true r wrote))

  system-Reports :
      (w : W) (r : Reconciler) (es : List Event) (s : System W)
      → r.status.models ≡ []
      → SystemRun world cfg spec debounce Change w r es s
      → Reports s.reconciler
  system-Reports w r es s m begin = inl m
  system-Reports w r es s m (looped e run n k) = system-Reports w r _ _ m run
  system-Reports w r es s m (passed {s = t} run k) =
      AfterPass-Reports t.reconciler (pass world cfg spec t) (system-Reports w r _ _ m run)
        (reconcile_lem world cfg spec t.outside t.reconciler)
  system-Reports w r es s m (changed w' run h) = system-Reports w r _ _ m run

  module _ (url : Bytes) (post : PostForm W) (encode : Status → Bytes) (quoted : Bytes → Bytes)
      (q : Request) where
    abbrev Plane : Server (System W)
    Plane = control_plane url post encode quoted

    abbrev reply_at : System W → W × Reply
    reply_at s =
        post (record { timeout = 10 }) (endpoint Plane) ((codes "model", q.model) ∷ []) s.outside

    -- one request for the model was sent, which is one of the document that the text written last is
    pub record Forwarded (s : System W) (answer : System W × ℕ) : Type 0 where
      pub before : Reconciler
      pub wrote : Wrote world cfg spec before s.reconciler
      pub is_post : q.verb ≡ codes "POST"
      pub rendered : In q.model (prepared world cfg spec wrote.at wrote.ids wrote.doc).1.names
      pub sent : answer.0 ≡ record s { outside = (reply_at s).0 }
      pub answers : answer.1 ≡ answer_code Plane q s (reply_at s).1

    abbrev pub Served : System W → Answer Plane → Type 0
    Served s (s', a) =
        ((s' ≡ s) × Refusal Plane q s a.status_code) ⊎ Forwarded s (s', a.status_code)

    Served-Reports :
        (s : System W) (a : Answer Plane)
        → Reports s.reconciler
        → AfterPerform Plane q s a
        → Served s a
    unfolding control_plane client_used
    Served-Reports s a h (inl refused) = inl refused
    Served-Reports s a (inl none_) (inr (p, i, sent, code)) =
        absurd (subst (λ ms. In q.model ms) none_ i)
    Served-Reports s a (inr (before, wrote)) (inr (p, i, sent, code)) = inr (record {
      before = before;
      wrote = wrote;
      is_post = p;
      rendered = subst (λ ms. In q.model ms) wrote.models i;
      sent = sent;
      answers = code;
    })

    -- In a run of the system, with any changes of the host, from a reconciler without models: a
    -- request to the control plane's perform either is refused, with the status of the first reason
    -- that holds, and the system is as it was, or it is a POST for a model of the document whose text
    -- was written last, all that happens is the one request for that model that is sent to gobackup,
    -- and the answer has the status of gobackup's, 502 where there is none.
    pub perform-Served :
        (w : W) (r : Reconciler) (es : List Event) (s : System W)
        → r.status.models ≡ []
        → SystemRun world cfg spec debounce Change w r es s
        → Served s (perform Plane q s)
    perform-Served w r es s m run =
        Served-Reports s (perform Plane q s) (system-Reports w r es s m run) (perform_lem Plane q s)
