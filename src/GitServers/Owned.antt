-- ===== src/GitServers/Owned.antt =====
-- controllers/gitserver: the secrets that a git server takes, so that they are deleted with it.
use mathlib.Core.List.{append-nil}
use edp_codebase_operator.Prelude.{
  ℕ, String, false, any, List, [], ◌∷◌, ◌++◌, ◌≡◌, refl, ap, sym, subst, ◌∙◌, ◌⊎◌, inl, inr, arith,
  Bool-cases,
}
use edp_codebase_operator.Effects.{
  Result, ok, err, Result-cases, branch, is_not_found, pure, fail, wrap, Error,
}
use edp_codebase_operator.Api.{ObjectMeta}
use edp_codebase_operator.Api.Codebase.{GitServer, GitServerStatus}
use edp_codebase_operator.GitServers.{
  ServerCluster, State, Write, OwnedSecret, update_owned_secret, create_event_listener,
  patch_event_listener, create_ingress, create_http_route, create_route, update_git_server,
  when_found, EventListener,
}
use edp_codebase_operator.GitServers.Listener.{
  reconcile_event_listener_label_selector, create_missing_event_listener, put_event_listener,
  create_missing_ingress, put_ingress, create_missing_http_route, put_http_route,
  create_missing_route, put_route, serve_event_listener, generate_event_listener_name,
}
use edp_codebase_operator.GitServers.Reconcile.{
  has_owner, shares_secret, take_secret, take_unshared_secret, ensure_secret_ownership,
  check_connection_to_git_server, update_git_server_status, finish_with, after_event_listener,
  after_connection, after_ownership, reconcile_git_server,
}

-- The secrets among the requests.
unfoldable pub taken : List Write → List OwnedSecret
taken [] = []
taken (update_owned_secret secret ∷ ws) = secret ∷ taken ws
taken (w ∷ ws) = taken ws

taken-append : (ws : List Write) (w : Write) → taken (ws ++ w ∷ []) ≡ taken ws ++ taken (w ∷ [])
unfolding taken
taken-append [] w = refl
taken-append (update_owned_secret secret ∷ ws) w = rw (taken-append ws w)
taken-append (create_event_listener el ∷ ws) w = taken-append ws w
taken-append (patch_event_listener el ∷ ws) w = taken-append ws w
taken-append (create_ingress i ∷ ws) w = taken-append ws w
taken-append (create_http_route r ∷ ws) w = taken-append ws w
taken-append (create_route r ∷ ws) w = taken-append ws w
taken-append (update_git_server g ∷ ws) w = taken-append ws w

taken-other : (ws : List Write) (w : Write) → taken (w ∷ []) ≡ [] → taken (ws ++ w ∷ []) ≡ taken ws
taken-other ws w h = rw (taken-append ws w, h) (append-nil (taken ws))

-- A secret that may be taken: it is the one that the git server names, it has no controller, and no git
-- server of the namespace names it too.
abbrev pub IsFree : ServerCluster → State → OwnedSecret → Type 0
IsFree c s secret =
    (c.get_owned_secret s.sent s.git_server.namespace s.git_server.spec.name_ssh_key_secret
      ≡ ok secret)
    × (has_owner secret.controller ≡ false)
    × (servers : List GitServer) × (c.list_git_servers s.git_server.namespace ≡ ok servers)
    × (any servers (shares_secret s.git_server) ≡ false)

-- The secret with the owner that is set for the git server.
abbrev pub IsTaken : ServerCluster → State → OwnedSecret → List OwnedSecret → Type 0
IsTaken c s secret after =
    (m : ObjectMeta) × (c.set_controller_reference s.git_server secret.meta ≡ ok m)
    × (after ≡ taken s.sent ++ (record secret { meta = m }) ∷ [])

module _ (c : ServerCluster) where
  selector-taken :
      (g : GitServer) (el : EventListener) (s : State)
      → taken (reconcile_event_listener_label_selector c g el s).1.sent ≡ taken s.sent
  unfolding reconcile_event_listener_label_selector taken
  selector-taken g el s = grind (arith, taken-other)

  missing_listener-taken :
      (g : GitServer) (s : State)
      → taken (create_missing_event_listener c g s).1.sent ≡ taken s.sent
  unfolding create_missing_event_listener taken
  missing_listener-taken g s = grind (arith, taken-other)

  listener-taken :
      (g : GitServer) (s : State) → taken (put_event_listener c g s).1.sent ≡ taken s.sent
  unfolding put_event_listener
  listener-taken g s =
      let found = c.get_event_listener g.namespace (generate_event_listener_name g.name) in
      elim (Result-cases found) [
        | inl (el, e) ↦ rw (e, when_found) (selector-taken g el s)
        | inr (e, q) ↦ rw (q, when_found) (grind (arith, missing_listener-taken))
      ]

  ingress-taken : (g : GitServer) (s : State) → taken (put_ingress c g s).1.sent ≡ taken s.sent
  unfolding put_ingress create_missing_ingress taken
  ingress-taken g s = grind (arith, taken-other)

  http_route-taken :
      (g : GitServer) (s : State) → taken (put_http_route c g s).1.sent ≡ taken s.sent
  unfolding put_http_route create_missing_http_route taken
  http_route-taken g s = grind (arith, taken-other)

  route-taken : (g : GitServer) (s : State) → taken (put_route c g s).1.sent ≡ taken s.sent
  unfolding put_route create_missing_route taken
  route-taken g s = grind (arith, taken-other)

  serve-taken : (s : State) → taken (serve_event_listener c s).1.sent ≡ taken s.sent
  unfolding serve_event_listener
  serve-taken s = grind (arith, listener-taken, ingress-taken, http_route-taken, route-taken)

  connection-taken : (s : State) → taken (check_connection_to_git_server c s).1.sent ≡ taken s.sent
  unfolding check_connection_to_git_server
  connection-taken s = grind arith

  finish-taken :
      (old : GitServerStatus) (f : GitServerStatus → GitServerStatus) (delay : ℕ) (s : State)
      → taken (finish_with c old f delay s).1.sent ≡ taken s.sent
  unfolding finish_with update_git_server_status taken
  finish-taken old f delay s = grind (arith, taken-other)

  after_listener-taken :
      (old : GitServerStatus) (answer : Result Unit) (s : State)
      → taken (after_event_listener c old answer s).1.sent ≡ taken s.sent
  unfolding after_event_listener
  after_listener-taken old (ok tt) s = finish-taken _ _ _ s
  after_listener-taken old (err e) s = finish-taken _ _ _ s

  after_connection-taken :
      (old : GitServerStatus) (answer : Result Unit) (s : State)
      → taken (after_connection c old answer s).1.sent ≡ taken s.sent
  unfolding after_connection
  after_connection-taken old (ok tt) s = after_listener-taken _ _ _ ∙ serve-taken _
  after_connection-taken old (err e) s = finish-taken _ _ _ s

  after_ownership-taken :
      (old : GitServerStatus) (answer : Result Unit) (s : State)
      → taken (after_ownership c old answer s).1.sent ≡ taken s.sent
  unfolding after_ownership
  after_ownership-taken old (ok tt) s = after_connection-taken _ _ _ ∙ connection-taken _
  after_ownership-taken old (err e) s = finish-taken _ _ _ s

  take-taken :
      (secret : OwnedSecret) (s : State)
      → (taken (take_secret c s.git_server secret s).1.sent ≡ taken s.sent)
        ⊎ IsTaken c s secret (taken (take_secret c s.git_server secret s).1.sent)
  unfolding take_secret taken
  take-taken secret s = elim (Result-cases (c.set_controller_reference s.git_server secret.meta)) [
    | inl (m, e) ↦ rw e (inr (m, refl, taken-append s.sent _))
    | inr (e, q) ↦ rw q (inl refl)
  ]

  ignored-taken :
      (message : String) (e : Error) (s : State)
      → taken (branch (is_not_found e) (pure tt) (fail (wrap message e)) s).1.sent ≡ taken s.sent
  ignored-taken message e s = ground arith

  -- A secret is taken, as it is described above, or none is.
  abbrev pub MayTake : State → List OwnedSecret → Type 0
  MayTake s after =
      (after ≡ taken s.sent)
      ⊎ ((secret : OwnedSecret) × IsFree c s secret × IsTaken c s secret after)

  unshared-MayTake :
      (secret : OwnedSecret) (s : State)
      → (c.get_owned_secret s.sent s.git_server.namespace s.git_server.spec.name_ssh_key_secret
          ≡ ok secret)
      → MayTake s (taken (take_unshared_secret c s.git_server secret s).1.sent)
  unfolding take_unshared_secret
  unshared-MayTake secret s got = elim (Bool-cases (has_owner secret.controller)) [
    | inl e ↦ rw (e, branch) (inl refl)
    | inr free ↦ elim (Result-cases (c.list_git_servers s.git_server.namespace)) [
      | inr (e, q) ↦ rw (free, branch, q) (inl refl)
      | inl (servers, q) ↦ elim (Bool-cases (any servers (shares_secret s.git_server))) [
        | inl e ↦ rw (free, branch, q, e) (inl refl)
        | inr alone ↦
            let same : (take_unshared_secret c s.git_server secret s
                ≡ take_secret c s.git_server secret s) =
              rw (free, branch, q, alone) in
            let sent = ap (λ r. taken r.1.sent) same in
            elim (take-taken secret s) [
              | inl t ↦ inl (sent ∙ t)
              | inr (m, set, t) ↦ inr (secret, (got, free, servers, q, alone), (m, set, sent ∙ t))
            ]
      ]
    ]
  ]

  ownership-MayTake : (s : State) → MayTake s (taken (ensure_secret_ownership c s).1.sent)
  unfolding ensure_secret_ownership
  ownership-MayTake s =
      let found =
        c.get_owned_secret s.sent s.git_server.namespace s.git_server.spec.name_ssh_key_secret in
      elim (Result-cases found) [
        | inl (secret, e) ↦
            let same : (ensure_secret_ownership c s
                ≡ take_unshared_secret c s.git_server secret s) =
              rw (e, when_found) in
            subst (λ r. MayTake s (taken r.1.sent)) (sym same) (unshared-MayTake secret s e)
        | inr (e, q) ↦
            let same : (taken (ensure_secret_ownership c s).1.sent ≡ taken s.sent) =
              rw (q, when_found) (ignored-taken _ e s) in
            inl same
      ]

  -- Whatever the cluster answers, a reconciliation of a git server takes no secret, or one: the secret
  -- that the git server names, where it has no controller yet and no other git server of the namespace
  -- names it, and all that is changed of the secret is its metadata, as `SetControllerReference` sets it.
  pub only_unshared_secret_taken : (s : State) → MayTake s (taken (reconcile_git_server c s).1.sent)
  unfolding reconcile_git_server
  only_unshared_secret_taken s =
      subst (MayTake s)
        (sym (
          after_ownership-taken s.git_server.status (ensure_secret_ownership c s).0
            (ensure_secret_ownership c s).1))
        (ownership-MayTake s)
