-- ===== src/Domain/Task.antt =====
-- internal/domain/task.go: the records of tasks, resources, policies and configurations, and how
-- `encoding/json` sees those that become snapshots.
use delegatd.Prelude.{List, [], ◌∷◌, GoString, codes, GoMap, ℤ}
use delegatd.Domain.Time.{Time}
use delegatd.Domain.Input.{TaskInput}
use delegatd.Domain.Json.{
  Json, int, text, array, object, Items, nil, cons, end, field, texts, text_fields,
}
use delegatd.Domain.Snapshot.{Snapshot}

abbrev pub pending : GoString
pending = codes "pending"

abbrev pub kind_repository : GoString
kind_repository = codes "repository"

abbrev pub allow : GoString
allow = codes "allow"

abbrev pub deny : GoString
deny = codes "deny"

abbrev pub manual_submission : GoString
manual_submission = codes "manual_submission"

-- `map[string]PolicyDecision` and the protected paths
pub record PolicyRequest : Type 0 where
  pub actions : GoMap GoString
  pub protected_paths : List GoString

pub record ValidationCommand : Type 0 where
  pub name : GoString
  pub run : GoString
  pub timeout : GoString

-- `AgentConfiguration` and `ValidationConfiguration` have one field each, named here for itself.
pub record RepositoryConfiguration : Type 0 where
  pub version : ℤ
  pub instructions : List GoString
  pub policy : PolicyRequest
  pub required : List ValidationCommand

pub record EffectivePolicy : Type 0 where
  pub version : ℤ
  pub default_action : GoString
  pub actions : GoMap GoString
  pub protected_paths : List GoString

pub record RepositoryMaterial : Type 0 where
  pub external_ref : GoString
  pub external_identity : GoString
  pub revision : GoString
  pub configuration : RepositoryConfiguration

pub record ResourceSnapshot : Type 0 where
  pub id : GoString
  pub name : GoString
  pub kind : GoString
  pub connector : GoString
  pub revision : GoString

pub record ResourceDraft : Type 0 where
  pub candidate_id : GoString
  pub name : GoString
  pub kind : GoString
  pub connector : GoString
  pub external_ref : GoString
  pub external_identity : GoString
  pub revision : GoString
  pub configuration : Snapshot
  pub requested_policy : Snapshot

pub record TaskHistoryEntry : Type 0 where
  pub sequence : ℤ
  pub status : GoString
  pub occurred_at : Time
  pub reason : GoString

pub record TaskDraft : Type 0 where
  pub id : GoString
  pub status : GoString
  pub resource : ResourceDraft
  pub input : Snapshot
  pub configuration : Snapshot
  pub policy : Snapshot
  pub created_at : Time
  pub initial_history : TaskHistoryEntry

pub record Task : Type 0 where
  pub id : GoString
  pub status : GoString
  pub created_at : Time
  pub resource : ResourceSnapshot
  pub input : Snapshot
  pub configuration : Snapshot
  pub policy : Snapshot

-- The values that `json.Marshal` sees, field by field.
unfoldable pub request_json : PolicyRequest → Json
request_json p = object (
    field (codes "actions") (object (text_fields p.actions))
      (field (codes "protected_paths") (array (texts p.protected_paths)) end))

abbrev pub commands_json : List ValidationCommand → Items
commands_json [] = nil
commands_json (c ∷ cs) =
    cons
      (object (
        field (codes "name") (text c.name)
          (field (codes "run") (text c.run) (field (codes "timeout") (text c.timeout) end))))
      (commands_json cs)

unfoldable pub configuration_json : RepositoryConfiguration → Json
unfolding request_json
configuration_json c = object (
    field (codes "version") (int c.version) (
      field (codes "agent")
        (object (field (codes "instructions") (array (texts c.instructions)) end))
        (field (codes "policy") (request_json c.policy) (
          field (codes "validation")
            (object (field (codes "required") (array (commands_json c.required)) end)) end))))

unfoldable pub input_json : TaskInput → Json
input_json i = object (
    field (codes "version") (int i.version) (
      field (codes "source") (text i.source)
        (field (codes "instructions") (text i.instructions) end)))

unfoldable pub policy_json : EffectivePolicy → Json
policy_json p = object (
    field (codes "version") (int p.version) (
      field (codes "default_action") (text p.default_action) (
        field (codes "actions") (object (text_fields p.actions))
          (field (codes "protected_paths") (array (texts p.protected_paths)) end))))
