-- ===== src/GitServers/Ready.antt =====
-- controllers/gitserver: what a reconciliation that ends without an error says of the git server.
use edp_codebase_operator.Prelude.{
  ℕ, String, true, Option, some, List, [], ◌∷◌, ◌++◌, ◌≡◌, refl, ap, ◌∙◌, ◌⊎◌, inl, inr, arith,
  Bool-cases,
}
use edp_codebase_operator.Effects.{
  Result, ok, err, Result-cases, continue, branch, or_wrap, error_text,
}
use edp_codebase_operator.Api.Codebase.{GitServer, GitServerStatus, set_failed, set_success}
use edp_codebase_operator.GitServers.{
  ServerCluster, State, Write, update_git_server, when_found, EventListener,
}
use edp_codebase_operator.GitServers.Listener.{
  reconcile_event_listener_label_selector, create_missing_event_listener, put_event_listener,
  generate_event_listener_name, create_missing_ingress, put_ingress, create_missing_http_route,
  put_http_route, create_missing_route, put_route, serve_event_listener,
}
use edp_codebase_operator.GitServers.Reconcile.{
  git_status_eq, ensure_secret_ownership, check_connection_to_git_server, update_git_server_status,
  finish_with, after_event_listener, after_connection, after_ownership, reconcile_git_server,
  default_requeue_time, success_requeue_time, disconnected, with_git_status,
}

-- The status is the old one, or the last request has stored it.
abbrev pub IsStored : ServerCluster → (old : GitServerStatus) → State → Type 0
IsStored c old s =
    (git_status_eq s.git_server.status old ≡ true)
    ⊎ ((before : List Write) × (s.sent ≡ before ++ update_git_server s.git_server ∷ [])
        × (c.answer before (update_git_server s.git_server) ≡ ok tt))

-- The delay until the next attempt, and the status that goes with it.
abbrev pub Agrees : Option ℕ → GitServerStatus → Type 0
Agrees delay st =
    ((delay ≡ some success_requeue_time)
      × (st ≡ record { error = ""; connected = true; status = "ok" }))
    ⊎ ((delay ≡ some default_requeue_time) × (st.status ≡ "failed"))

or_wrap-ok : {A : Type 0} (text : String) (r : Result A) {a : A} → or_wrap text r ≡ ok a → r ≡ ok a
or_wrap-ok text (ok a) h = h
or_wrap-ok text (err e) h = cc

module _ (c : ServerCluster) where
  update-IsStored :
      (old : GitServerStatus) (s : State)
      → (update_git_server_status c old s).0 ≡ ok tt
      → IsStored c old (update_git_server_status c old s).1
  unfolding update_git_server_status
  update-IsStored old s h = elim (Bool-cases (git_status_eq s.git_server.status old)) [
    | inl e ↦ rw (e, branch) (inl e)
    | inr e ↦
        let kept : (c.answer s.sent (update_git_server s.git_server) ≡ ok tt) = grind arith in
        rw (e, branch) (inr (s.sent, refl, kept))
  ]

  update-server :
      (old : GitServerStatus) (s : State)
      → (update_git_server_status c old s).1.git_server ≡ s.git_server
  unfolding update_git_server_status
  update-server old s = grind arith

  selector-server :
      (g : GitServer) (el : EventListener) (s : State)
      → (reconcile_event_listener_label_selector c g el s).1.git_server ≡ s.git_server
  unfolding reconcile_event_listener_label_selector
  selector-server g el s = grind arith

  missing_listener-server :
      (g : GitServer) (s : State)
      → (create_missing_event_listener c g s).1.git_server ≡ s.git_server
  unfolding create_missing_event_listener
  missing_listener-server g s = grind arith

  listener-server :
      (g : GitServer) (s : State) → (put_event_listener c g s).1.git_server ≡ s.git_server
  unfolding put_event_listener
  listener-server g s =
      let found = c.get_event_listener g.namespace (generate_event_listener_name g.name) in
      elim (Result-cases found) [
        | inl (el, e) ↦ rw (e, when_found) (selector-server g el s)
        | inr (e, q) ↦ rw (q, when_found) (grind (arith, missing_listener-server))
      ]

  ingress-server : (g : GitServer) (s : State) → (put_ingress c g s).1.git_server ≡ s.git_server
  unfolding put_ingress create_missing_ingress
  ingress-server g s = grind arith

  http_route-server :
      (g : GitServer) (s : State) → (put_http_route c g s).1.git_server ≡ s.git_server
  unfolding put_http_route create_missing_http_route
  http_route-server g s = grind arith

  route-server : (g : GitServer) (s : State) → (put_route c g s).1.git_server ≡ s.git_server
  unfolding put_route create_missing_route
  route-server g s = grind arith

  serve-server : (s : State) → (serve_event_listener c s).1.git_server ≡ s.git_server
  unfolding serve_event_listener
  serve-server s = grind (arith, listener-server, ingress-server, http_route-server, route-server)

  finish-server :
      (old : GitServerStatus) (f : GitServerStatus → GitServerStatus) (delay : ℕ) (s : State)
      → (finish_with c old f delay s).1.git_server.status ≡ f s.git_server.status
  unfolding finish_with
  finish-server old f delay s = grind (arith, update-server)

  finish-Agrees :
      (old : GitServerStatus) (f : GitServerStatus → GitServerStatus) (d : ℕ) (s : State)
      {delay : Option ℕ}
      → (finish_with c old f d s).0 ≡ ok delay
      → (delay ≡ some d) × IsStored c old (finish_with c old f d s).1
  unfolding finish_with
  finish-Agrees old f d s {delay} h =
      elim (Result-cases (update_git_server_status c old (with_git_status f s)).0) [
        | inl (tt, e) ↦
            let same : (delay ≡ some d) = grind arith in
            (same, rw (e, continue) (update-IsStored old (with_git_status f s) e))
        | inr (e, q) ↦ absurd (grind arith)
      ]

  failed-Agrees :
      (old : GitServerStatus) (f : GitServerStatus → GitServerStatus) (s : State) {delay : Option ℕ}
      → (f s.git_server.status).status ≡ "failed"
      → (finish_with c old f default_requeue_time s).0 ≡ ok delay
      → IsStored c old (finish_with c old f default_requeue_time s).1
        × Agrees delay (finish_with c old f default_requeue_time s).1.git_server.status
  failed-Agrees old f s q h =
      let (d, stored) = finish-Agrees old f default_requeue_time s h in
      (stored, inr (d, ap (λ st. st.status) (finish-server old f default_requeue_time s) ∙ q))

  listener-Agrees :
      (old : GitServerStatus) (answer : Result Unit) (s : State) {delay : Option ℕ}
      → s.git_server.status.connected ≡ true
      → (after_event_listener c old answer s).0 ≡ ok delay
      → IsStored c old (after_event_listener c old answer s).1
        × Agrees delay (after_event_listener c old answer s).1.git_server.status
  unfolding after_event_listener set_failed set_success
  listener-Agrees old (err e) s live h = failed-Agrees old (set_failed (error_text e)) s refl h
  listener-Agrees old (ok tt) s live h =
      let (d, stored) = finish-Agrees old set_success success_requeue_time s h in
      let st : (set_success s.git_server.status
          ≡ record { error = ""; connected = true; status = "ok" }) =
        rw live in
      (stored, inl (d, finish-server old set_success success_requeue_time s ∙ st))

  connection-Agrees :
      (old : GitServerStatus) (answer : Result Unit) (s : State) {delay : Option ℕ}
      → (after_connection c old answer s).0 ≡ ok delay
      → IsStored c old (after_connection c old answer s).1
        × Agrees delay (after_connection c old answer s).1.git_server.status
  unfolding after_connection set_failed
  connection-Agrees old (err e) s h = failed-Agrees old (disconnected e) s refl h
  connection-Agrees old (ok tt) s h =
      let live = with_git_status (λ st. record st { connected = true }) s in
      listener-Agrees old (serve_event_listener c live).0 (serve_event_listener c live).1
        (ap (λ g. g.status.connected) (serve-server live)) h

  ownership-Agrees :
      (old : GitServerStatus) (answer : Result Unit) (s : State) {delay : Option ℕ}
      → (after_ownership c old answer s).0 ≡ ok delay
      → IsStored c old (after_ownership c old answer s).1
        × Agrees delay (after_ownership c old answer s).1.git_server.status
  unfolding after_ownership set_failed
  ownership-Agrees old (err e) s h = failed-Agrees old (disconnected e) s refl h
  ownership-Agrees old (ok tt) s h =
      connection-Agrees old (check_connection_to_git_server c s).0
        (check_connection_to_git_server c s).1 h

  -- Where a reconciliation of a git server ends without an error, the status of the git server is stored
  -- or is the old one, and goes with the answer: after half an hour, the git server is connected, without
  -- an error, and its status is ok; after half a minute, its status is failed.
  pub reconciled_server-Agrees :
      (s : State) {delay : Option ℕ}
      → (reconcile_git_server c s).0 ≡ ok delay
      → IsStored c s.git_server.status (reconcile_git_server c s).1
        × Agrees delay (reconcile_git_server c s).1.git_server.status
  unfolding reconcile_git_server
  reconciled_server-Agrees s h =
      ownership-Agrees s.git_server.status (ensure_secret_ownership c s).0
        (ensure_secret_ownership c s).1 h
