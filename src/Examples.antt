-- ===== src/Examples.antt =====
-- Small resources, on which the theorems are applied.
mod Deploys
mod Streams
mod Servers
mod Stale
mod Admission
mod Requests
mod Chains
mod Pauses
mod Reconciles
mod Codebases
use edp_codebase_operator.Prelude.{ℕ, String, Bool, true, false, List, [], ◌∷◌, none, some, Dict}
use edp_codebase_operator.Api.{
  ObjectMeta, CdStageDeploy, DeployStatus, CodebaseTag, Tag, CodebaseImageStream,
}
use edp_codebase_operator.Api.Codebase.{Codebase, CodebaseBranch, branch_created}
use edp_codebase_operator.PipelineApi.{CdPipeline, Stage, PipelineRun}

abbrev pub meta_of :
    (name : String) → (labels annotations : Dict String) → (created : ℕ) → ObjectMeta
meta_of name labels annotations created = record {
  name = name;
  generate_name = "";
  namespace = "ns";
  labels = labels;
  annotations = annotations;
  creation_timestamp = created;
  deletion_timestamp = none;
  finalizers = [];
  generation = 1;
  controller = none;
}

abbrev pub tag_of_app : CodebaseTag
tag_of_app = record { codebase = "app"; tag = "0.2"; digest = "sha256:2" }

abbrev pub deploy_of : (name : String) → ℕ → DeployStatus → CdStageDeploy
deploy_of name created st = record {
  meta = meta_of name [] [] created;
  spec = record {
    pipeline = "pipe";
    stage = "dev";
    tag = tag_of_app;
    tags = [];
    trigger_type = "Auto-stable";
  };
  status = record { status = st; message = "" };
}

abbrev pub finished_run : PipelineRun
finished_run = record { meta = meta_of "run" [] [] 1; completion_time = some 9 }

abbrev pub pipeline_of : List String → List String → CdPipeline
pipeline_of applications streams = record {
  meta = meta_of "pipe" [] [] 1;
  spec = record {
    name = "pipe";
    applications = applications;
    applications_to_promote = [];
    input_docker_streams = streams;
  };
}

abbrev pub dev_stage : Stage
dev_stage = record {
  meta = meta_of "pipe-dev" [] (("app.edp.epam.com/lib", "0.7") ∷ []) 1;
  spec = record {
    name = "dev";
    cd_pipeline = "pipe";
    trigger_template = "template";
    trigger_type = "Auto-stable";
    cluster_name = "in-cluster";
    quality_gates = record { autotest_name = some "autotest"; branch_name = some "main" } ∷ [];
  };
}

abbrev pub app_stream : CodebaseImageStream
app_stream = record {
  meta = meta_of "app-main" [] [] 1;
  spec = record {
    codebase = "app";
    image_name = "registry/app";
    tags =
        record { name = "0.1"; created = "1"; digest = "sha256:1" }
        ∷ record { name = "0.2"; created = "2"; digest = "sha256:2" }
        ∷ [];
  };
}

abbrev pub codebase_of : (name url : String) → (labels annotations : Dict String) → Codebase
codebase_of name url labels annotations = record {
  meta = meta_of name labels annotations 1;
  spec = record {
    lang = "Go";
    framework = "";
    build_tool = "go";
    strategy = "import";
    repository = none;
    type_ = "application";
    git_server = "gerrit";
    git_url_path = url;
    versioning = record { type_ = "default"; start_from = none };
    ci_tool = "tekton";
    default_branch = "main";
    empty_project = false;
    branch_to_copy_in_default_branch = "";
    disable_put_deploy_templates = false;
    is_private = true;
    clone_repository_credentials = none;
  };
  status = record {
    available = true;
    last_time_updated = 0;
    status = "created";
    username = "system";
    action = "";
    result = "";
    detailed_message = "";
    value = "active";
    failure_count = 0;
    git = "";
    web_hook_id = 0;
    web_hook_ref = "";
    git_web_url = "";
  };
}

abbrev pub branch_of : (codebase branch : String) → CodebaseBranch
branch_of codebase branch = record {
  meta = meta_of "app-branch" [] [] 1;
  spec = record {
    codebase_name = codebase;
    branch_name = branch;
    from_commit = "";
    version = none;
    release = false;
    pipelines = [];
  };
  status = record {
    last_time_updated = 0;
    version_history = [];
    last_successful_build = none;
    build = none;
    status = "created";
    username = "system";
    action = "";
    result = "";
    detailed_message = "";
    value = "";
    failure_count = 0;
    git = branch_created;
    conditions = [];
  };
}
