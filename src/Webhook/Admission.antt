-- ===== src/Webhook/Admission.antt =====
-- pkg/webhook: what an admitted create or delete of a codebase or a branch has been checked for.
use Prim.Native.String.{count}
use edp_codebase_operator.Prelude.{
  suc, String, List, [], ◌∷◌, Memᴰ, mem-cons_cases, Bool, true, false, Option, none, some, contains,
  any, contains_of_mem, get_or_empty, Bool-cases, Option-cases, ◌≡◌, ◌≢◌, refl, ◌⊎◌, inl, inr, ◌==◌,
  ◌<◌, eq_iff, if◌then◌else◌, arith, ne_of_eq_false,
}
use edp_codebase_operator.Effects.{Error, Result, ok, err, is_not_found}
use edp_codebase_operator.Api.Codebase.{Codebase, CodebaseBranch}
use edp_codebase_operator.PipelineApi.{CdPipeline}
use edp_codebase_operator.DeploymentUsage.{
  AutotestGate, Reference, list_active_cd_pipelines, find_autotest_gates,
}
use edp_codebase_operator.DeploymentUsage.Branches.{find_branch_usage}
use edp_codebase_operator.DeploymentUsage.Codebases.{list_branch_names}
use edp_codebase_operator.DeploymentUsage.Codebases.Exact.{Uses, unused-codebase}
use edp_codebase_operator.Webhook.{
  Object, codebase, codebase_branch, labels_of, protected_label, AdmissionRequest, Denial, or_next,
  deny_if, split_dashes, has_protected_label, check_on_delete, deny_if_used, WebhookClient,
}
use edp_codebase_operator.Webhook.Validation.{
  cut_suffix, validate_codebase_name, is_codebase_valid, contains_pair,
}
use edp_codebase_operator.Webhook.Validation.Urls.{trim_git_ends}
use edp_codebase_operator.Webhook.Codebases.{
  trim_git_from_url, create_codebase, deny_duplicate, validate_codebase_create, delete_codebase,
  validate_codebase_delete, list_limit, invalid, deny_listed,
}
use edp_codebase_operator.Webhook.Branches.{delete_branch, validate_branch_delete, delete_of_owner}

or_next-none : (a b : Option Denial) → or_next a b ≡ none → (a ≡ none) × (b ≡ none)
or_next-none none b h = (refl, h)
or_next-none (some d) b h = cc

deny_if-none : (t : Bool) (text : String) → deny_if t text ≡ none → t ≡ false
deny_if-none true text h = cc
deny_if-none false text h = refl

-- The words of the protection label, as the user wrote them.
abbrev pub protections : Object → List String
protections obj = split_dashes (get_or_empty protected_label (labels_of obj))

has_protected_label_lem :
    (obj : Object) (operation : String)
    → operation ≢ ""
    → has_protected_label obj operation ≡ contains (protections obj) operation
unfolding has_protected_label split_dashes contains any
has_protected_label_lem obj operation h =
    elim (Bool-cases (get_or_empty protected_label (labels_of obj) == "")) [
      | inl e ↦
          rw ((eq_iff (get_or_empty protected_label (labels_of obj)) "").0 e)
            (ground (arith, eq_iff "" operation))
      | inr e ↦ rw e refl
    ]

check_on_delete-none :
    (obj : Object) → check_on_delete obj ≡ none → ¬ Memᴰ "delete" (protections obj)
unfolding check_on_delete
check_on_delete-none obj h m =
    let word : ◌≢◌ {A = String} "delete" "" = ground (arith, eq_iff "delete" "") in
    cc (
      deny_if-none (has_protected_label obj "delete") _ h,
      has_protected_label_lem obj "delete" word,
      contains_of_mem (protections obj) "delete" m,
    )

deny_if_used-none :
    (resource kind name : String) (refs : Result (List Reference))
    → deny_if_used resource kind name refs ≡ none
    → refs ≡ ok []
deny_if_used-none resource kind name (ok []) h = refl
deny_if_used-none resource kind name (ok (r ∷ rs)) h = cc
deny_if_used-none resource kind name (err e) h = cc

-- A codebase whose deletion is admitted has no "delete" in its protection label, no active CDPipeline
-- uses it, and no autotest gate of an active Stage runs it.
pub admitted_codebase_delete_is_unused :
    (client : WebhookClient) (request : AdmissionRequest) (c : Codebase)
    → validate_codebase_delete client (ok request) (codebase c) ≡ none
    → ¬ Memᴰ "delete" (protections (codebase c))
      × (pipelines : List CdPipeline) × (branch_names : List String) × (gates : List AutotestGate)
      × (list_active_cd_pipelines client.usage c.namespace ≡ ok pipelines)
      × (list_branch_names client.usage c ≡ ok branch_names)
      × (find_autotest_gates client.usage c.namespace ≡ ok gates)
      × ((p : CdPipeline) → Memᴰ p pipelines → ¬ Uses c.name branch_names p)
      × ((g : AutotestGate) → Memᴰ g gates → g.autotest_name ≢ c.name)
unfolding validate_codebase_delete delete_codebase
admitted_codebase_delete_is_unused client request c h =
    let (free, unused) = or_next-none (check_on_delete (codebase c)) _ h in
    let (ps, ns, gs, e, e₁, e₂, no_pipeline, no_gate) =
      unused-codebase client.usage c (deny_if_used-none "codebases" "Codebase" c.name _ unused) in
    (check_on_delete-none (codebase c) free, ps, ns, gs, e, e₁, e₂, no_pipeline, no_gate)

deny_duplicate-none :
    (url : String) (cs : List Codebase) (c : Codebase)
    → deny_duplicate url cs ≡ none
    → Memᴰ c cs
    → c.spec.git_url_path ≢ url
unfolding deny_duplicate
deny_duplicate-none url [] c h m = elim m [ ]
deny_duplicate-none url (x ∷ cs) c h m = elim (Bool-cases (x.spec.git_url_path == url)) [
  | inl e ↦ cc (rw (e, if◌then◌else◌) at h)
  | inr e ↦ elim (mem-cons_cases m) [
    | inl q ↦ rw q (ne_of_eq_false x.spec.git_url_path url e)
    | inr n ↦ deny_duplicate-none url cs c (rw (e, if◌then◌else◌) at h) n
  ]
]

delete_of_owner-none :
    (client : WebhookClient) (b : CodebaseBranch) (owner : Result Codebase)
    → delete_of_owner client b owner ≡ none
    → ((e : Error) × (owner ≡ err e) × (is_not_found e ≡ true))
      ⊎ ((c : Codebase) × (owner ≡ ok c) × (c.deletion_timestamp ≢ none))
      ⊎ (find_branch_usage client.usage b ≡ ok [])
delete_of_owner-none client b (ok c) h = elim (Option-cases c.deletion_timestamp) [
  | inl n ↦ inr (inr (deny_if_used-none "codebasebranches" "CodebaseBranch" b.name _ (rw n at h)))
  | inr (t, n) ↦ inr (inl (c, refl, ground arith))
]
delete_of_owner-none client b (err e) h = elim (Bool-cases (is_not_found e)) [
  | inl q ↦ inl (e, refl, q)
  | inr q ↦ cc (rw (q, if◌then◌else◌) at h)
]

-- A branch whose deletion is admitted has no "delete" in its protection label, and its codebase is
-- missing, or is terminating, or no active deployment resource uses the branch.
pub admitted_branch_delete_is_unused :
    (client : WebhookClient) (b : CodebaseBranch)
    → validate_branch_delete client (codebase_branch b) ≡ none
    → ¬ Memᴰ "delete" (protections (codebase_branch b))
      × (((e : Error) × (client.get_codebase b.namespace b.spec.codebase_name ≡ err e)
            × (is_not_found e ≡ true))
          ⊎ ((c : Codebase) × (client.get_codebase b.namespace b.spec.codebase_name ≡ ok c)
              × (c.deletion_timestamp ≢ none))
          ⊎ (find_branch_usage client.usage b ≡ ok []))
unfolding validate_branch_delete delete_branch
admitted_branch_delete_is_unused client b h =
    let (free, rest) = or_next-none (check_on_delete (codebase_branch b)) _ h in
    (check_on_delete-none (codebase_branch b) free, delete_of_owner-none client b _ rest)

deny_listed-none :
    (url : String) (listing : Result (List Codebase))
    → deny_listed url listing ≡ none
    → (cs : List Codebase) × (listing ≡ ok cs)
      × ((c : Codebase) → Memᴰ c cs → c.spec.git_url_path ≢ url)
deny_listed-none url (ok cs) h = (cs, refl, λ c m. deny_duplicate-none url cs c h m)
deny_listed-none url (err e) h = cc

pub trim_git_from_url_lem : (url : String) → cut_suffix ".git" (trim_git_from_url url) ≡ none
unfolding trim_git_from_url
trim_git_from_url_lem url =
    let less : count url < suc (count url) = omega arith in
    let (r, e, done) = trim_git_ends (suc (count url)) url less in rw e done

-- A codebase whose creation is admitted has a name without "--", and its git path, without the
-- suffixes ".git", is not empty, has no such suffix left, and is the path of no listed codebase.
pub admitted_codebase_is_new :
    (client : WebhookClient) (request : AdmissionRequest) (c : Codebase)
    → validate_codebase_create client (ok request) (codebase c) ≡ none
    → let url = trim_git_from_url c.spec.git_url_path in
      (contains_pair c.name "--" ≡ false)
      × (url ≢ "")
      × (cut_suffix ".git" url ≡ none)
      × (cs : List Codebase) × (client.list_codebases request.namespace list_limit ≡ ok cs)
      × ((d : Codebase) → Memᴰ d cs → d.spec.git_url_path ≢ url)
unfolding validate_codebase_create create_codebase validate_codebase_name
admitted_codebase_is_new client request c h =
    let url = trim_git_from_url c.spec.git_url_path in
    let (name, h₁) = or_next-none (validate_codebase_name c.name) _ h in
    let (valid, h₂) = or_next-none (invalid c.name (is_codebase_valid c)) _ h₁ in
    let (path, h₃) = or_next-none (deny_if (url == "") _) _ h₂ in
    let (cs, listed, fresh) = deny_listed-none url _ h₃ in
    (
      deny_if-none (contains_pair c.name "--") _ name,
      ne_of_eq_false url "" (deny_if-none (url == "") _ path),
      trim_git_from_url_lem c.spec.git_url_path,
      cs,
      listed,
      fresh,
    )
