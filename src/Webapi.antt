-- ===== src/Webapi.antt =====
-- internal/webapi/server.go: the control plane. What a handler writes is a response; the HTTP client,
-- encoding/json and the quoting of %q are parameters.
pub mod Perform
use gobackup_docker.Base.{
  ℕ, Bool, true, false, Option, none, some, not, ◌&&◌, ◌==◌, List, [], ◌∷◌, ◌++◌, Bytes, codes,
  str_eq, is_empty, trim_slashes, if◌then◌else◌,
}
use gobackup_docker.Pipeline.Reconcile.{Status}

-- what a handler reads of a request: `model` is r.FormValue("model")
pub record Request : Type 0 where
  pub verb : Bytes
  pub model : Bytes

pub record Response : Type 0 where
  pub status_code : ℕ
  pub content_type : Bytes
  pub body : Bytes

-- what http.Client.PostForm gave
pub data Reply : Type 0 where
  unreachable : Bytes → Reply
  replied : ℕ → Bytes → Reply

-- the limit in seconds is what the code sets of an http.Client
pub record HttpClient : Type 0 where
  pub timeout : ℕ

-- `post_form` is http.Client's, `quoted` is %q
pub record Server (W : Type 0) : Type 0 where
  pub client : Option HttpClient
  pub status : W → Status
  pub gobackup_url : Bytes
  pub post_form : HttpClient → Bytes → List (Bytes × Bytes) → W → W × Reply
  pub encode_status : Status → Bytes
  pub quoted : Bytes → Bytes

unfoldable pub contains : List Bytes → Bytes → Bool
contains [] x = false
contains (v ∷ ss) x = if str_eq v x then true else contains ss x

-- http.Error
abbrev pub http_error : Bytes → ℕ → Response
http_error text code = record {
  status_code = code;
  content_type = codes "text/plain; charset=utf-8";
  body = text ++ (10 ∷ []);
}

-- the request's handlers
module _ {W : Type 0} (s : Server W) where
  abbrev pub Answer : Type 0
  Answer = W × Response

  unfoldable pub healthz : Request → W → Answer
  healthz r w =
      (w, record { status_code = 200; content_type = codes "text/plain"; body = codes "ok\n" })

  unfoldable pub status_handler : Request → W → Answer
  status_handler r w = (
    w,
    record {
      status_code = 200;
      content_type = codes "application/json";
      body = s.encode_status (s.status w);
    },
  )

  -- `client` of the source: the one given, or one that waits ten seconds
  unfoldable pub client_used : HttpClient
  client_used = elim s.client [ none ↦ record { timeout = 10 } | some c ↦ c ]

  abbrev pub endpoint : Bytes
  endpoint = trim_slashes s.gobackup_url ++ codes "/api/perform"

  -- the header of the answer has no content type of its own
  unfoldable pub proxied : W × Reply → Answer
  proxied (w, unreachable e) = (w, http_error (codes "gobackup unreachable: " ++ e) 502)
  proxied (w, replied code body) =
      (w, record { status_code = code; content_type = []; body = body })

  unfoldable pub perform : Request → W → Answer
  unfolding contains proxied trim_slashes client_used
  perform r w =
      if not (str_eq r.verb (codes "POST"))
      then (w, http_error (codes "method not allowed") 405)
      else if is_empty r.model
      then (w, http_error (codes "missing 'model' parameter") 400)
      else if is_empty s.gobackup_url
      then (
        w,
        http_error (codes "backup proxy not configured (set GOBACKUP_DOCKER_GOBACKUP_URL)") 501,
      )
      else if not (contains (s.status w).models r.model)
      then (w, http_error (codes "unknown model " ++ s.quoted r.model) 404)
      else proxied (s.post_form client_used endpoint ((codes "model", r.model) ∷ []) w)

  -- the routes of the mux
  unfoldable pub handler : List (Bytes × (Request → W → Answer))
  unfolding healthz status_handler perform
  handler =
      (codes "/healthz", healthz)
      ∷ (codes "/status", status_handler)
      ∷ (codes "/api/perform", perform)
      ∷ []

-- What Serve sees: the end of the context, and of ListenAndServe.
pub data ListenEnd : Type 0 where
  no_error : ListenEnd
  server_closed : ListenEnd
  listen_error : Bytes → ListenEnd

pub data ServeEvent : Type 0 where
  cancelled : ServeEvent
  listen_ended : ListenEnd → ServeEvent

-- What it does: it listens at an address, with a limit in seconds for reading a header, shuts the
-- server down, with a limit in seconds, and returns, with or without an error.
pub data ServeAction : Type 0 where
  listened : Bytes → ℕ → ServeAction
  shut_down : ℕ → ServeAction
  returned : Option Bytes → ServeAction

abbrev pub serve_error : ListenEnd → Option Bytes
serve_error no_error = none
serve_error server_closed = none
serve_error (listen_error e) = some e

-- the goroutine that waits for the context and the one that listens, until both are done
unfoldable pub serving : Bool → Bool → List ServeEvent → List ServeAction
serving waits listens [] = []
serving true listens (cancelled ∷ es) = shut_down 5 ∷ serving false listens es
serving false listens (cancelled ∷ es) = serving false listens es
serving waits true (listen_ended e ∷ es) = returned (serve_error e) ∷ serving waits false es
serving waits false (listen_ended e ∷ es) = serving waits false es

unfoldable pub serve : Bytes → List ServeEvent → List ServeAction
unfolding serving
serve addr es = listened addr 5 ∷ serving true true es
