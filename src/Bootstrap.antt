-- ===== src/Bootstrap.antt =====
-- internal/bootstrap/task.go: `submitTask` and `showTask`, which choose the adapters that the
-- configuration names. The SQLite store and the GitHub connector are arguments.
pub mod Roundtrip
pub mod Checks
pub mod Report
use delegatd.Prelude.{
  ◌≡◌, refl, Bool, true, false, ◌&&◌, not, List, [], ◌∷◌, GoString, codes, ◌==◌, is_empty, lookup,
  Option, none, some, Result, ok, err, GoError, ErrorType, failure, store, repository, validation,
  diagnostic, plain, sentinel, typed, wrapped, ◌>>=◌, ◌>>◌, if◌then◌else◌,
}
use delegatd.Domain.Time.{Time}
use delegatd.Domain.Input.{TaskInput}
use delegatd.Domain.Json.{Codec}
use delegatd.Domain.Task.{RepositoryMaterial, Task, kind_repository}
use delegatd.Control.Failure.{new_failure, provided_reason}
use delegatd.Control.Store.{TaskStore}
use delegatd.Control.Submit.{Context, attempt, new_task_service, submit_manual_repository}
use delegatd.Control.Show.{show}
use delegatd.Config.Yaml.{Node, Read, decode, yaml_invalid}
use delegatd.Config.Checks.{Instance, Resource}
use delegatd.Config.Load.{YamlPackage, File, Document, StoreDocument, load, load_store}

-- What the packages of the store and of the connector do: reading their configurations from YAML,
-- opening the store at a directory, and the answer of a connector that was made.
pub record Adapters (task_store : TaskStore) : Type 1 where
  pub StoreConfig : Type 0
  pub AppConfig : Type 0
  pub ResourceConfig : Type 0
  pub read_store : GoString → Read StoreConfig
  pub read_app : GoString → Read AppConfig
  pub read_resource : GoString → Read ResourceConfig
  pub open_store : StoreConfig → GoString → Result task_store.State
  pub open_store_read_only : StoreConfig → GoString → Result task_store.State
  pub new_repository_source :
      AppConfig → ResourceConfig → GoString → Result (Result RepositoryMaterial)

or_fallback : GoString → Option GoString → GoString
or_fallback fallback none = fallback
or_fallback fallback (some []) = fallback
or_fallback fallback (some (b ∷ reason)) = b ∷ reason

-- `controlFromError` of an error that is not nil
unfoldable pub control_from_error : GoError → GoString → GoError
unfolding or_fallback
control_from_error e fallback = new_failure (or_fallback fallback (provided_reason e)) e

of_validation : ErrorType → GoString → GoString → GoString
of_validation failure reason below = below
of_validation store reason below = below
of_validation repository reason below = below
of_validation validation reason below = reason
of_validation diagnostic reason below = below

-- `SafeReason` of package config, of an error that is not nil
unfoldable pub config_safe_reason : GoError → GoString
unfolding of_validation
config_safe_reason (plain text) = yaml_invalid
config_safe_reason (sentinel s) = yaml_invalid
config_safe_reason (typed t reason) = of_validation t reason yaml_invalid
config_safe_reason (wrapped t reason cause) = of_validation t reason (config_safe_reason cause)

abbrev pub loaded {ℓ} : {A : Type ℓ} → Result A → Result A
loaded (ok a) = ok a
loaded (err e) = err (new_failure (config_safe_reason e) e)

abbrev pub unsupported : GoString → GoError
unsupported detail = new_failure (codes "resource is unsupported") (plain detail)

-- the resource that has the name, if its kind is supported
unfoldable pub select_resource : Option Resource → Result Resource
select_resource none =
    err
      (new_failure (codes "resource is not configured") (plain (codes "resource alias is absent")))
select_resource (some r) =
    if r.kind == kind_repository && not (is_empty r.connector)
    then ok r
    else err (unsupported (codes "resource kind or connector is unsupported"))

-- its connector, if that is a GitHub connector
unfoldable pub select_connector : Option Instance → Result Instance
select_connector none = err (unsupported (codes "resource connector is unsupported"))
select_connector (some c) =
    if c.kind == codes "github"
    then ok c
    else err (unsupported (codes "resource connector is unsupported"))

abbrev pub state_unavailable : GoString
state_unavailable = codes "state store is unavailable"

-- What the random texts and the clock give, and the function that makes identifiers, if it is set.
pub record Environment : Type 0 where
  pub random : GoString
  pub clock : Time
  pub ids : Option (GoString → GoString)

module _ (codec : Codec) (task_store : TaskStore) (adapters : Adapters task_store)
    (yaml : YamlPackage) (ctx : Context) where
  -- What is chosen before the store is opened.
  pub record Selected : Type 0 where
    pub document : Document
    pub connector_name : GoString
    pub app : adapters.AppConfig
    pub resource : adapters.ResourceConfig
    pub store_config : adapters.StoreConfig

  unfoldable pub select : File → GoString → Result Selected
  select file resource_name = do
    document ← loaded (load yaml file)
    resource ← select_resource (lookup resource_name document.config.resources)
    connector ← select_connector (lookup resource.connector document.config.connectors)
    app ←
        attempt (codes "connector configuration is invalid")
          (decode yaml.marshal adapters.read_app connector.config)
    resource_config ←
        attempt (codes "resource configuration is invalid")
          (decode yaml.marshal adapters.read_resource resource.config)
    store_config ←
        attempt state_unavailable
          (decode yaml.marshal adapters.read_store document.config.store.config)
    ok (record {
      document = document;
      connector_name = resource.connector;
      app = app;
      resource = resource_config;
      store_config = store_config;
    })

  unfoldable pub submit_sourced :
      Environment
      → GoString
      → TaskInput
      → Selected
      → Result (Result RepositoryMaterial)
      → task_store.State
      → Result Task × Option task_store.State
  submit_sourced env resource_name input selected (err e) s =
      (err (new_failure (codes "resource configuration is invalid") e), some s)
  submit_sourced env resource_name input selected (ok source) s =
      let (result, s') =
        submit_manual_repository codec task_store ctx
          (some (new_task_service env.random env.clock true env.ids none)) resource_name
          selected.connector_name input selected.document.config.policy (some source) s in
      (result, some s')

  unfoldable pub submit_opened :
      Environment
      → GoString
      → TaskInput
      → Selected
      → Result task_store.State
      → Result Task × Option task_store.State
  submit_opened env resource_name input selected (err e) =
      (err (control_from_error e state_unavailable), none)
  submit_opened env resource_name input selected (ok s) =
      submit_sourced env resource_name input selected
        (adapters.new_repository_source selected.app selected.resource selected.document.dir) s

  unfoldable pub submit_selected :
      Environment → GoString → TaskInput → Result Selected → Result Task × Option task_store.State
  submit_selected env resource_name input (err e) = (err e, none)
  submit_selected env resource_name input (ok selected) =
      submit_opened env resource_name input selected
        (adapters.open_store selected.store_config selected.document.dir)

  -- `submitTask`; the state is `none` where no store was opened.
  unfoldable pub submit_task :
      Environment → File → GoString → TaskInput → Result Task × Option task_store.State
  submit_task env file resource_name input =
      submit_selected env resource_name input (select file resource_name)

  abbrev opened : Result task_store.State → Result task_store.State
  opened (ok s) = ok s
  opened (err e) = err (control_from_error e state_unavailable)

  unfoldable pub select_store : StoreDocument → Result adapters.StoreConfig
  select_store document =
      if document.store.kind == codes "sqlite"
      then attempt state_unavailable (decode yaml.marshal adapters.read_store document.store.config)
      else err (new_failure state_unavailable (plain (codes "store adapter is unsupported")))

  -- `showTask`
  unfoldable pub show_task : Environment → File → GoString → Result Task
  show_task env file id = do
    document ← loaded (load_store yaml file)
    store_config ← select_store document
    s ← opened (adapters.open_store_read_only store_config document.dir)
    show task_store ctx (some (new_task_service env.random env.clock true none none)) id s
