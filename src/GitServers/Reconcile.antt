-- ===== src/GitServers/Reconcile.antt =====
-- controllers/gitserver/gitserver_controller.go and ssh.go: one reconciliation of a git server.
use Prim.Native.String.{◌++◌}
use edp_codebase_operator.Prelude.{
  ℕ, String, Bool, true, false, not, ◌&&◌, any, Option, none, some, List, [], get_or_empty, ◌==◌,
  if◌then◌else◌,
}
use edp_codebase_operator.Effects.{
  Error, error_text, Result, ok, err, wrap, is_not_found, and_then, or_wrap, Exec, attempt, pure,
  lift, gets, modify, wrapping, branch, ◌>>=◌, ◌>>◌,
}
use edp_codebase_operator.Api.Codebase.{GitServer, GitServerStatus, set_failed, set_success}
use edp_codebase_operator.GitServers.{
  ServerCluster, State, Handler, Write, send_write, when_found, OwnedSecret, GitSshData,
  update_owned_secret, update_git_server,
}
use edp_codebase_operator.GitServers.Listener.{serve_event_listener}

-- In seconds.
abbrev pub default_requeue_time : ℕ
default_requeue_time = 30

abbrev pub success_requeue_time : ℕ
success_requeue_time = 1800

unfoldable pub extract_ssh_data : GitServer → OwnedSecret → GitSshData
extract_ssh_data g secret = record {
  host = g.spec.git_host;
  user = g.spec.git_user;
  key = get_or_empty "id_rsa" secret.contents;
  port = g.spec.ssh_port;
}

-- `metaV1.GetControllerOf(secret) != nil`
abbrev pub has_owner : Option String → Bool
has_owner none = false
has_owner (some owner) = true

-- Another git server that names the secret of this one.
unfoldable pub shares_secret : GitServer → GitServer → Bool
shares_secret g other =
    not (other.name == g.name) && other.spec.name_ssh_key_secret == g.spec.name_ssh_key_secret

abbrev same_flag : Bool → Bool → Bool
same_flag true b = b
same_flag false b = not b

-- `gitServer.Status == oldStatus`
unfoldable pub git_status_eq : GitServerStatus → GitServerStatus → Bool
git_status_eq st old =
    st.error == old.error && same_flag st.connected old.connected && st.status == old.status

abbrev pub with_git_status : (GitServerStatus → GitServerStatus) → State → State
with_git_status f s = record s {
  git_server = record (s.git_server) { status = f s.git_server.status };
}

abbrev pub disconnected : Error → GitServerStatus → GitServerStatus
disconnected e st = record (set_failed (error_text e) st) { connected = false }

module _ (c : ServerCluster) where
  unfoldable pub take_secret : GitServer → OwnedSecret → Handler
  take_secret g secret = do
    m ←
        wrapping ("failed to set owner reference on secret " ++ secret.name)
          (lift (c.set_controller_reference g secret.meta))
    wrapping ("failed to update secret " ++ secret.name ++ " with owner reference")
        (send_write c (update_owned_secret (record secret { meta = m })))

  unfoldable pub take_unshared_secret : GitServer → OwnedSecret → Handler
  take_unshared_secret g secret = branch (has_owner secret.controller) (pure tt) do
    servers ←
        wrapping ("failed to list GitServers in namespace " ++ g.namespace)
          (lift (c.list_git_servers g.namespace))
    branch (any servers (shares_secret g)) (pure tt) (take_secret g secret)

  -- `ensureSecretOwnership`
  unfoldable pub ensure_secret_ownership : Handler
  ensure_secret_ownership = do
    g ← gets (λ s. s.git_server)
    before ← gets (λ s. s.sent)
    when_found ("failed to get secret " ++ g.spec.name_ssh_key_secret)
        (c.get_owned_secret before g.namespace g.spec.name_ssh_key_secret) (take_unshared_secret g)
        (pure tt)

  -- The SSH client is its data, with a key and host keys that have been read.
  unfoldable pub ssh_init_from_secret : GitSshData → Result GitSshData
  ssh_init_from_secret d =
      and_then (or_wrap "failed to parse private key" (c.parse_private_key d.key))
        (λ signer. and_then (c.host_key_config d.host d.port) (λ callback. ok d))

  unfoldable pub check_git_server_connection : GitSshData → Result Unit
  check_git_server_connection d =
      and_then (or_wrap "failed to initialize ssh client" (ssh_init_from_secret d))
        (λ client. or_wrap "failed to create ssh session" (c.new_session client))

  -- `checkConnectionToGitServer`
  unfoldable pub check_connection_to_git_server : Handler
  check_connection_to_git_server = do
    g ← gets (λ s. s.git_server)
    before ← gets (λ s. s.sent)
    secret ←
        wrapping ("failed to get secret " ++ g.spec.name_ssh_key_secret)
          (lift (c.get_owned_secret before g.namespace g.spec.name_ssh_key_secret))
    branch ((extract_ssh_data g secret).key == "") (pure tt) (
        wrapping ("failed to establish connection to Git Server " ++ g.spec.git_host)
          (lift (check_git_server_connection (extract_ssh_data g secret))))

  -- `updateGitServerStatus`
  unfoldable pub update_git_server_status : (old_status : GitServerStatus) → Handler
  update_git_server_status old = do
    g ← gets (λ s. s.git_server)
    branch (git_status_eq g.status old) (pure tt)
        (wrapping "failed to update GitServer status" (send_write c (update_git_server g)))

  -- The status is changed, and stored where it differs; the answer is the delay until the next attempt.
  unfoldable pub finish_with :
      (old_status : GitServerStatus)
      → (GitServerStatus → GitServerStatus)
      → (delay : ℕ) → Exec State (Option ℕ)
  finish_with old f delay = do
    modify (with_git_status f)
    update_git_server_status old
    pure (some delay)

  unfoldable pub after_event_listener :
      (old_status : GitServerStatus) → Result Unit → Exec State (Option ℕ)
  after_event_listener old (err e) =
      finish_with old (set_failed (error_text e)) default_requeue_time
  after_event_listener old (ok tt) = finish_with old set_success success_requeue_time

  unfoldable pub after_connection :
      (old_status : GitServerStatus) → Result Unit → Exec State (Option ℕ)
  after_connection old (err e) = finish_with old (disconnected e) default_requeue_time
  after_connection old (ok tt) = do
    modify (with_git_status (λ st. record st { connected = true }))
    answer ← attempt (serve_event_listener c)
    after_event_listener old answer

  unfoldable pub after_ownership :
      (old_status : GitServerStatus) → Result Unit → Exec State (Option ℕ)
  after_ownership old (err e) = finish_with old (disconnected e) default_requeue_time
  after_ownership old (ok tt) = do
    answer ← attempt check_connection_to_git_server
    after_connection old answer

  -- `Reconcile` after the fetch
  unfoldable pub reconcile_git_server : Exec State (Option ℕ)
  reconcile_git_server = do
    g ← gets (λ s. s.git_server)
    answer ← attempt ensure_secret_ownership
    after_ownership g.status answer

  unfoldable pub reconcile_fetched_server :
      (name : String) → Result GitServer → Result (Option ℕ) × List Write
  reconcile_fetched_server name (ok g) =
      let (answer, s) = reconcile_git_server (record { git_server = g; sent = [] }) in
      (answer, s.sent)
  reconcile_fetched_server name (err e) =
      (if is_not_found e then ok none else err (wrap ("failed to fetch resource " ++ name) e), [])

  -- `ReconcileGitServer.Reconcile`
  unfoldable pub reconcile_server : (namespace name : String) → Result (Option ℕ) × List Write
  reconcile_server namespace name =
      reconcile_fetched_server (namespace ++ "/" ++ name) (c.get_git_server namespace name)
