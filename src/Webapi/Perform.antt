-- ===== src/Webapi/Perform.antt =====
-- Which backups the control plane passes on.
use gobackup_docker.Base.{
  Bool-cases, inl, inr, ◌⊎◌, ◌≡◌, refl, sym, In, ℕ, true, false, List, [], ◌∷◌, Bytes, codes,
  str_eq, str_eq_iff, is_empty, arith,
}
use gobackup_docker.Webapi.{
  client_used, Request, Reply, unreachable, replied, Server, contains, Answer, endpoint, proxied,
  perform,
}

contains-In : (ss : List Bytes) (x : Bytes) → contains ss x ≡ true → In x ss
unfolding contains
contains-In [] x h = cc
contains-In (v ∷ ss) x h = elim (Bool-cases (str_eq v x)) [
  | inl y ↦ inl (sym ((str_eq_iff v x).0 y))
  | inr n ↦ inr (contains-In ss x (ground (arith, h, n)))
]

is_empty_iff : (s : Bytes) → is_empty s ≡ true → s ≡ []
is_empty_iff [] h = refl
is_empty_iff (c ∷ s) h = cc

module _ {W : Type 0} (s : Server W) (r : Request) (w : W) where
  -- the status of an answer without a request to gobackup, and the reason for it
  pub data Refusal : ℕ → Type 0 where
    bad_verb : (str_eq r.verb (codes "POST") ≡ false) → Refusal 405
    no_model : (r.verb ≡ codes "POST") → (r.model ≡ []) → Refusal 400
    no_proxy :
        (r.verb ≡ codes "POST") → (is_empty r.model ≡ false) → (s.gobackup_url ≡ []) → Refusal 501
    unknown :
        (r.verb ≡ codes "POST")
        → (is_empty r.model ≡ false)
        → (is_empty s.gobackup_url ≡ false)
        → (contains (s.status w).models r.model ≡ false)
        → Refusal 404

  -- the status that gobackup's answer is passed on with
  abbrev pub passed : Reply → ℕ
  passed (unreachable e) = 502
  passed (replied code body) = code

  abbrev pub reply : W × Reply
  reply = s.post_form (client_used s) (endpoint s) ((codes "model", r.model) ∷ []) w

  abbrev pub AfterPerform : Answer s → Type 0
  AfterPerform (w', a) =
      ((w' ≡ w) × Refusal a.status_code)
      ⊎ ((r.verb ≡ codes "POST")
          × In r.model (s.status w).models
          × (w' ≡ reply.0)
          × (a.status_code ≡ passed reply.1))

  proxied-AfterPerform :
      (wr : W × Reply) → ((proxied s wr).0 ≡ wr.0) × ((proxied s wr).1.status_code ≡ passed wr.1)
  unfolding proxied
  proxied-AfterPerform (w, unreachable e) = (refl, refl)
  proxied-AfterPerform (w, replied code body) = (refl, refl)

  -- A request to the control plane's perform either is refused, with the status of the first
  -- reason that holds, and nothing is sent, or it is a POST for a model that the supervisor rendered, just
  -- the one request for that model is sent to gobackup, and the answer has the status of gobackup's,
  -- 502 where there is none.
  pub perform_lem : AfterPerform (perform s r w)
  unfolding perform
  perform_lem = elim (Bool-cases (str_eq r.verb (codes "POST"))) [
    | inr n ↦ rw n (inl (refl, bad_verb n))
    | inl p ↦
        let post = (str_eq_iff r.verb (codes "POST")).0 p in
        rw p (elim (Bool-cases (is_empty r.model)) [
          | inl y ↦ rw y (inl (refl, no_model post (is_empty_iff r.model y)))
          | inr k ↦ rw k (elim (Bool-cases (is_empty s.gobackup_url)) [
            | inl y ↦ rw y (inl (refl, no_proxy post k (is_empty_iff s.gobackup_url y)))
            | inr u ↦ rw u (elim (Bool-cases (contains (s.status w).models r.model)) [
              | inr n ↦ rw n (inl (refl, unknown post k u n))
              | inl y ↦ rw y (
                  inr (
                    post,
                    contains-In (s.status w).models r.model y,
                    (proxied-AfterPerform reply).0,
                    (proxied-AfterPerform reply).1,
                  ))
            ])
          ])
        ])
  ]
