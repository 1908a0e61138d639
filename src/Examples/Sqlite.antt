-- ===== src/Examples/Sqlite.antt =====
-- A task in a database.
use delegatd.Prelude.{
  ◌≡◌, refl, ap, ◌∙◌, [], ◌∷◌, ◌++◌, GoString, ℕ, zero, suc, length, ok, err, none, GoError, ◌==◌,
}
use delegatd.Domain.Id.{is_id_body, parse_task_id, parse_resource_id}
use delegatd.Domain.Utf8.{utf8_valid}
use delegatd.Domain.Json.{Json, number, text, object, Fields, end, field, Codec}
use delegatd.Domain.Snapshot.{parse_snapshot, canonical_json, new_snapshot, parse_snapshot-bytes}
use delegatd.Domain.Task.{Task, ResourceSnapshot}
use delegatd.Config.Yaml.{Read, at_end}
use delegatd.Config.Yaml as Yaml
use delegatd.Memory.{check_snapshots}
use delegatd.Sqlite.Engine.{IsEngine}
use delegatd.Sqlite.Draft.{validate_task_draft, TimeText, resource_json}
use delegatd.Sqlite.Create.{
  writable, read_only, onboard, refresh, bind_resource, write_task, returned_task, committed,
  finish, transacted, validated, create_task,
}
use delegatd.Sqlite.Read.{ResourceReader, task}
use delegatd.Sqlite.Outcome.{create_task-rolled_back}
use delegatd.Sqlite.Laws.{ReadsBack, Storable, Recorded, create_task-effect, task-create_task}
use delegatd.Sqlite.Boundary.{sqlite_store, sqlite_store-IsTaskStore}
use delegatd.Control.Store.{IsTaskStore}
use delegatd.Examples.Verbatim.{verbatim, decode_verbatim, encode_verbatim}
use delegatd.Examples.Memory.{draft}
use delegatd.Examples.Tables.{
  Rows, no_rows, named, owner, tables_engine, update_all, tables-IsEngine,
}

unfoldable sized_fields : Fields → GoString
sized_fields end = []
sized_fields (field k (text s) fs) = length s ∷ s ++ sized_fields fs
sized_fields (field k v fs) = sized_fields fs

unfoldable sized : Json → GoString
sized (object fs) = sized_fields fs
sized v = []

-- A codec that writes an object as its texts, each behind its length.
abbrev sizes : Codec
sizes = record verbatim { marshal = λ v. ok (sized v) }

abbrev clock : TimeText
clock = record { format = λ t. []; parse = λ s. ok draft.created_at }

unfoldable split_at : ℕ → GoString → GoString × GoString
split_at n [] = ([], [])
split_at zero (b ∷ s) = ([], b ∷ s)
split_at (suc n) (b ∷ s) = let (front, back) = split_at n s in (b ∷ front, back)

unfoldable first_text : GoString → GoString × GoString
first_text [] = ([], [])
first_text (n ∷ s) = split_at n s

split_at-append : (s rest : GoString) → split_at (length s) (s ++ rest) ≡ (s, rest)
unfolding split_at
split_at-append [] [] = refl
split_at-append [] (b ∷ rest) = refl
split_at-append (b ∷ s) rest = rw (split_at-append s rest)

first_text-append : (s rest : GoString) → first_text (length s ∷ s ++ rest) ≡ (s, rest)
unfolding first_text
first_text-append s rest = split_at-append s rest

abbrev reader : ResourceReader
reader s =
    let (id, s1) = first_text s in
    let (name, s2) = first_text s1 in
    let (kind, s3) = first_text s2 in
    let (connector, s4) = first_text s3 in
    let (revision, s5) = first_text s4 in
    Yaml.value
      (record { id = id; name = name; kind = kind; connector = connector; revision = revision })
      at_end

reader-sized : (r : ResourceSnapshot) → reader (sized (resource_json r)) ≡ Yaml.value r at_end
unfolding sized sized_fields resource_json
reader-sized r = simp (first_text-append)

sizes-ReadsBack : ReadsBack sizes reader
unfolding new_snapshot decode_verbatim encode_verbatim resource_json sized sized_fields
sizes-ReadsBack r s texts whole h =
    ap reader (
      parse_snapshot-bytes sizes (sized (resource_json r)) (number (sized (resource_json r))) s refl
        refl refl h)
    ∙ reader-sized r

made :
    (t : Task) × (d' : Rows) × (create_task sizes clock tables_engine none draft writable no_rows
      ≡ (ok t, d'))
unfolding create_task validated transacted finish committed returned_task write_task bind_resource
    onboard refresh named owner ◌==◌ parse_task_id parse_resource_id is_id_body parse_snapshot
    canonical_json decode_verbatim encode_verbatim validate_task_draft check_snapshots new_snapshot
    sized sized_fields resource_json
made = (_, _, refl)

made-Storable : Storable clock made.0
unfolding utf8_valid made
made-Storable = record {
  time = refl;
  strings = record { name = refl; kind = refl; connector = refl; revision = refl };
}

abbrev laws : IsEngine tables_engine
laws = tables-IsEngine

create_task-effect_example :
    Recorded sizes clock tables_engine tables-IsEngine none draft
      (laws.content no_rows)
      (laws.content made.1)
      made.0
create_task-effect_example =
    create_task-effect sizes clock tables_engine tables-IsEngine none draft writable no_rows made.1
      made.0 made.2

-- the same draft again: its id is not new
duplicate :
    (e : GoError) × (d' : Rows) × (create_task sizes clock tables_engine none draft writable made.1
      ≡ (err e, d'))
unfolding create_task validated transacted finish committed returned_task write_task bind_resource
    onboard refresh named owner update_all ◌==◌ parse_task_id parse_resource_id is_id_body
    parse_snapshot canonical_json decode_verbatim encode_verbatim validate_task_draft
    check_snapshots new_snapshot sized sized_fields resource_json made
duplicate = (_, _, refl)

create_task-rolled_back_example : duplicate.1 ≡ made.1
create_task-rolled_back_example =
    create_task-rolled_back sizes clock tables_engine tables-IsEngine none draft writable made.1
      duplicate.1 duplicate.0 duplicate.2

sqlite_store-IsTaskStore_example :
    IsTaskStore (sqlite_store sizes clock reader tables_engine) (Storable clock)
sqlite_store-IsTaskStore_example =
    sqlite_store-IsTaskStore sizes clock reader tables_engine tables-IsEngine sizes-ReadsBack

task-create_task_sqlite :
    task sizes clock reader tables_engine none read_only draft.id made.1 ≡ ok made.0
task-create_task_sqlite =
    task-create_task sizes clock tables_engine tables-IsEngine none draft reader writable read_only
      no_rows made.1 made.0 sizes-ReadsBack made.2 made-Storable refl
