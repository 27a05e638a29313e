-- ===== src/CodebaseChain/WebHooks.antt =====
-- chain/put_webhook.go, delete_webhook.go and put_gitwebrepourl.go: what the git server is told of the
-- operator, and what the codebase shows of the git server.
use Prim.Native.String.{◌++◌}
use text.Mathlib.Text.{starts_with}
use edp_codebase_operator.Prelude.{
  String, Bool, true, false, not, ◌||◌, Option, none, some, is_nil, lookup, insert, get_or_empty,
  List, contains, [], ◌∷◌, ◌==◌, if◌then◌else◌,
}
use edp_codebase_operator.Effects.{
  Result, ok, err, new, is, web_hook_not_found, and_then, or_wrap, Exec, attempt, pure, fail, lift,
  gets, modify, wrapping, branch, ◌>>=◌, ◌>>◌,
}
use edp_codebase_operator.Api.Codebase.{Codebase, GitServer, Secret}
use edp_codebase_operator.Url.{get_project_id}
use edp_codebase_operator.Webhook.Validation.{cut_suffix}
use edp_codebase_operator.CodebaseChain.{
  World, State, Handler, act, set_codebase, update_secret, get_web_hook, delete_web_hook,
}
use edp_codebase_operator.CodebaseChain.Status.{
  set_codebase_status, get_web_hook_ref, set_codebase_success_fields, failing_codebase,
}

abbrev pub put_web_hook_action : String
put_web_hook_action = "put_web_hook"

abbrev pub put_url_action : String
put_url_action = "put_git_web_repo_url"

-- `GetHostWithProtocol`
unfoldable pub get_host_with_protocol : String → String
get_host_with_protocol host =
    if starts_with host "https://" || starts_with host "http://" then host else "https://" ++ host

-- `strings.TrimSuffix(url, "/")`
abbrev or_whole : String → Option String → String
or_whole url none = url
or_whole url (some r) = r

unfoldable pub trim_slash : String → String
trim_slash url = or_whole url (cut_suffix "/" url)

-- The providers that have webhooks and a web page for a project.
unfoldable pub is_web_provider : String → Bool
is_web_provider p = contains ("gitlab" ∷ "github" ∷ "bitbucket" ∷ []) p

abbrev pub has_token : Secret → Bool
has_token secret = not (is_nil (lookup "token" secret.contents))

abbrev pub set_web_hook_ref : String → Codebase → Codebase
set_web_hook_ref reference = set_codebase_status (λ st. record st { web_hook_ref = reference })

abbrev pub set_git_web_url : String → Codebase → Codebase
set_git_web_url url = set_codebase_status (λ st. record st { git_web_url = url })

-- Whether a webhook is there, by the answer to the question for it.
abbrev pub web_hook_found : Result Unit → Exec State Bool
web_hook_found (ok hook) = pure true
web_hook_found (err e) =
    branch (is web_hook_not_found e) (pure false) (wrapping "failed to get webhook" (fail e))

-- The URL of the first host.
unfoldable pub first_host : (message : String) → List String → Result String
first_host message [] = err (new message)
first_host message (host ∷ hosts) = ok (get_host_with_protocol host)

module _ (w : World) where
  -- `PutGitWebRepoUrl.getGitWebURL`
  unfoldable pub get_git_web_url : GitServer → Codebase → Result String
  get_git_web_url g c =
      if is_web_provider g.spec.git_provider
      then ok (trim_slash (get_host_with_protocol g.spec.git_host) ++ "/" ++ get_project_id c.spec)
      else if g.spec.git_provider == "gerrit"
      then and_then
          (or_wrap "failed to get QuickLink gerrit" (w.get_quick_link g.namespace "gerrit"))
          (λ url. ok (trim_slash url ++ "/gitweb?p=" ++ get_project_id c.spec ++ ".git"))
      else err (new ("unsupported Git provider " ++ g.spec.git_provider))

  -- `PutGitWebRepoUrl.ServeRequest`
  unfoldable pub put_git_web_repo_url : Handler
  put_git_web_repo_url = do
    c ← gets (λ s. s.codebase)
    g ← failing_codebase w put_url_action (
        wrapping ("failed to get git server " ++ c.spec.git_server)
          (lift (w.get_git_server c.namespace c.spec.git_server)))
    url ← failing_codebase w put_url_action (lift (get_git_web_url g c))
    modify (set_codebase (set_git_web_url url))
    wrapping ("failed to update codebase " ++ c.name ++ " status")
        (set_codebase_success_fields w put_url_action)

  -- The secret of `getGitServerSecret` of the deletion, which has to hold a token.
  unfoldable pub get_token_secret :
      (missing : String) → (namespace name : String) → Exec State Secret
  get_token_secret missing namespace name = do
    secret ← wrapping ("failed to get " ++ name ++ " secret") (lift (w.get_secret namespace name))
    branch (has_token secret) (pure secret) (fail (new missing))

  unfoldable pub store_secret_string : (namespace name : String) → Secret → Exec State Secret
  store_secret_string namespace name secret = do
    token ← wrapping "failed to generate webhook secret" (lift w.random_string)
    wrapping ("failed to update " ++ name ++ " secret") (
        act w (
          update_secret namespace name
            (record { contents = insert "secretString" token secret.contents })))
    pure (record { contents = insert "secretString" token secret.contents })

  -- `PutWebHook.getGitServerSecret`
  unfoldable pub get_web_hook_secret : (namespace name : String) → Exec State Secret
  get_web_hook_secret namespace name = do
    secret ←
        get_token_secret ("failed to get token field from " ++ name ++ " secret") namespace name
    branch (get_or_empty "secretString" secret.contents == "")
        (store_secret_string namespace name secret) (pure secret)

  -- `getWebhookIngressUrl`, `getWebhookHTTPRouteUrl` and `getWebhookRouteUrl`
  unfoldable pub get_ingress_url : (name namespace : String) → Result String
  get_ingress_url name namespace =
      and_then
        (or_wrap "failed to get webhook ingress"
          (w.get_ingress namespace ("event-listener-" ++ name)))
        (first_host ("ingress event-listener-" ++ name ++ " doesn't have rules"))

  unfoldable pub get_http_route_url : (name namespace : String) → Result String
  get_http_route_url name namespace =
      and_then
        (or_wrap "failed to get webhook HTTPRoute"
          (w.get_http_route namespace ("event-listener-" ++ name)))
        (first_host ("HTTPRoute event-listener-" ++ name ++ " doesn't have hostnames"))

  -- The source takes the first host of the route without a test; the panic is taken as an error.
  unfoldable pub get_route_url : (name namespace : String) → Result String
  get_route_url name namespace =
      and_then
        (or_wrap "failed to get webhook route" (w.get_route namespace ("event-listener-" ++ name)))
        (first_host "index out of range [0] with length 0")

  -- `getWebHookUrl`
  unfoldable pub get_web_hook_url : GitServer → Result String
  get_web_hook_url g =
      if not (g.spec.webhook_url == "")
      then ok g.spec.webhook_url
      else if not w.is_k8s
      then get_route_url g.name g.namespace
      else if w.is_envoy
      then get_http_route_url g.name g.namespace
      else get_ingress_url g.name g.namespace

  unfoldable pub create_missing_web_hook : GitServer → Secret → Codebase → Handler
  create_missing_web_hook g secret c = do
    url ← failing_codebase w put_web_hook_action (lift (get_web_hook_url g))
    before ← gets (λ s. s.done)
    reference ← failing_codebase w put_web_hook_action (
        wrapping "failed to create web hook" (
          lift (
            w.create_web_hook before (get_or_empty "token" secret.contents) (get_project_id c.spec)
              (get_or_empty "secretString" secret.contents) url
              g.spec.skip_webhook_ssl_verification)))
    modify (set_codebase (set_web_hook_ref reference))
    wrapping ("failed to update codebase " ++ c.name ++ " status")
        (set_codebase_success_fields w put_web_hook_action)

  -- Whether the codebase has a webhook, and the git server has it too.
  unfoldable pub has_web_hook : Secret → Codebase → Exec State Bool
  has_web_hook secret c = branch (get_web_hook_ref w c.status == "") (pure false) do
    answer ← attempt (
        act w (
          get_web_hook (get_or_empty "token" secret.contents) (get_project_id c.spec)
            (get_web_hook_ref w c.status)))
    web_hook_found answer

  unfoldable pub put_web_hook_at : GitServer → Codebase → Handler
  put_web_hook_at g c = do
    secret ←
        failing_codebase w put_web_hook_action
          (get_web_hook_secret g.namespace g.spec.name_ssh_key_secret)
    failing_codebase w put_web_hook_action (
        wrapping "failed to create git provider"
          (lift (w.new_git_provider g (get_or_empty "token" secret.contents))))
    exists ← failing_codebase w put_web_hook_action (has_web_hook secret c)
    branch exists (pure tt) (create_missing_web_hook g secret c)

  unfoldable pub put_tekton_web_hook : Handler
  put_tekton_web_hook = do
    c ← gets (λ s. s.codebase)
    g ← failing_codebase w put_web_hook_action (
        wrapping ("failed to get git server " ++ c.spec.git_server)
          (lift (w.get_git_server c.namespace c.spec.git_server)))
    branch (not (is_web_provider g.spec.git_provider)) (pure tt) (put_web_hook_at g c)

  -- `PutWebHook.ServeRequest`
  unfoldable pub put_web_hook : Handler
  put_web_hook = do
    c ← gets (λ s. s.codebase)
    branch (not (c.spec.ci_tool == "tekton")) (pure tt) put_tekton_web_hook

  unfoldable pub delete_existing_web_hook : Codebase → Handler
  delete_existing_web_hook c = do
    g ← lift (w.get_git_server c.namespace c.spec.git_server)
    secret ←
        get_token_secret
          ("failed to get field token from " ++ g.spec.name_ssh_key_secret ++ " secret") c.namespace
          g.spec.name_ssh_key_secret
    lift (w.new_git_provider g (get_or_empty "token" secret.contents))
    act w (
        delete_web_hook (get_or_empty "token" secret.contents) (get_project_id c.spec)
          (get_web_hook_ref w c.status))

  -- `DeleteWebHook.ServeRequest`: every error is logged.
  unfoldable pub delete_codebase_web_hook : Handler
  delete_codebase_web_hook = do
    c ← gets (λ s. s.codebase)
    branch (not (c.spec.ci_tool == "tekton") || get_web_hook_ref w c.status == "") (pure tt)
        do answer ← attempt (delete_existing_web_hook c); pure tt
