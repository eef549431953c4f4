-- ===== src/Database/Tasks.antt =====
-- plugin/database/task.go: tasks, which their workers lock by the version of the row. Versions and
-- ids are natural numbers, far below the bounds of the columns.
pub mod Locking
use baetyl_cloud.Common.{
  ℕ, zero, suc, ◌+◌, String, Bool, true, false, not, ◌&&◌, Option, none, some, List, [], ◌∷◌, ◌++◌,
  map, ◌==◌, if◌then◌else◌, nat_eq, ltb, length, keep, take,
}
use baetyl_cloud.Common.Action.{Error, Result, ok, err, panicked, Action, pure, lift, ◌>>=◌}
use baetyl_cloud.Common.Dict.{Dict}
use baetyl_cloud.Database.{Conn, statement}

-- models.Task
pub record Task : Type 0 where
  pub id : ℕ
  pub name : String
  pub registration_name : String
  pub namespace : String
  pub resource_name : String
  pub resource_type : String
  pub version : ℕ
  pub expire_time : ℕ
  pub status : ℕ
  pub processors_status : Dict ℕ

-- entities.Task; its content is the text of the processors' status.
pub record TaskRow : Type 0 where
  pub id : ℕ
  pub name : String
  pub registration_name : String
  pub namespace : String
  pub resource_name : String
  pub resource_type : String
  pub version : ℕ
  pub expire_time : ℕ
  pub status : ℕ
  pub content : String
  pub update_time : ℕ

-- The table, with the next id and the time that the database stamps rows with.
pub record TaskTable : Type 0 where
  pub rows : List TaskRow
  pub next_id : ℕ
  pub clock : ℕ

-- json.Marshal and json.Unmarshal of the processors' status.
pub record TaskFormat : Type 0 where
  pub encode : Dict ℕ → Result String
  pub decode : String → Result (Dict ℕ)

-- The statements UPDATE ... WHERE: the rows that pass a test are changed and counted.
unfoldable pub update_where :
    (TaskRow → Bool) → (TaskRow → TaskRow) → List TaskRow → ℕ × List TaskRow
update_where p f [] = (0, [])
update_where p f (r ∷ rs) =
    let rest = update_where p f rs in
    if p r then (suc rest.0, f r ∷ rest.1) else (rest.0, r ∷ rest.1)

abbrev pub update_rows : (TaskRow → Bool) → (TaskRow → TaskRow) → TaskTable → ℕ × TaskTable
update_rows p f t = let r = update_where p f t.rows in (r.0, record t { rows = r.1 })

-- isOperatedSuccess
unfoldable pub is_operated_success : ℕ → Bool
is_operated_success affected = ltb 0 affected

module _ (format : TaskFormat) where
  -- FromTaskModel; the columns that the database sets are left at zero.
  unfoldable pub from_task_model : Task → Result TaskRow
  from_task_model t = elim (format.encode t.processors_status) [
    | ok c ↦ ok (record {
      id = t.id;
      name = t.name;
      registration_name = t.registration_name;
      namespace = t.namespace;
      resource_name = t.resource_name;
      resource_type = t.resource_type;
      version = t.version;
      expire_time = t.expire_time;
      status = t.status;
      content = c;
      update_time = 0;
    })
    | err e ↦ err e
    | panicked ↦ panicked
  ]

  abbrev with_status : TaskRow → Dict ℕ → Task
  with_status r d = record {
    id = r.id;
    name = r.name;
    registration_name = r.registration_name;
    namespace = r.namespace;
    resource_name = r.resource_name;
    resource_type = r.resource_type;
    version = r.version;
    expire_time = r.expire_time;
    status = r.status;
    processors_status = d;
  }

  abbrev status_of : String → Result (Dict ℕ)
  status_of text = if text == "" then ok [] else format.decode text

  -- ToTaskModel
  unfoldable pub to_task_model : TaskRow → Result Task
  to_task_model r = elim (status_of r.content) [
    | ok d ↦ ok (with_status r d)
    | err e ↦ err e
    | panicked ↦ panicked
  ]

  -- CreateTaskTx: the version and the status begin at zero, the id is the next one.
  abbrev insert_task : TaskRow → TaskTable → ℕ × TaskTable
  insert_task r t = (
    1,
    record t {
      rows =
          t.rows
          ++ record r { id = t.next_id; version = 0; status = 0; update_time = t.clock } ∷ [];
      next_id = suc t.next_id;
    },
  )

  -- CreateTask
  unfoldable pub create_task : Task → Action (Conn TaskTable) Bool
  create_task task = do
    r ← lift (from_task_model task)
    n ← statement (insert_task r)
    pure (is_operated_success n)

  -- The row and the change of AcquireTaskLockTx.
  abbrev pub is_at : ℕ → ℕ → TaskRow → Bool
  is_at id version r = nat_eq r.id id && nat_eq r.version version

  abbrev pub locked : ℕ → TaskRow → TaskRow
  locked expire r = record r { version = r.version + 1; expire_time = expire }

  -- AcquireTaskLock
  unfoldable pub acquire_task_lock : Task → Action (Conn TaskTable) Bool
  acquire_task_lock task = do
    r ← lift (from_task_model task)
    n ← statement (update_rows (is_at r.id r.version) (locked r.expire_time))
    pure (is_operated_success n)

  -- UpdateTask
  unfoldable pub update_task : Task → Action (Conn TaskTable) Bool
  update_task task = do
    r ← lift (from_task_model task)
    n ← statement (
        update_rows (λ row. row.name == r.name && nat_eq row.version r.version)
          (λ row. record row { status = r.status; content = r.content; version = row.version + 1 }))
    pure (is_operated_success n)

  -- DELETE FROM baetyl_task WHERE name = ?
  abbrev delete_named : String → TaskTable → ℕ × TaskTable
  delete_named name t = (
    length (keep (λ r. r.name == name) t.rows),
    record t { rows = keep (λ r. not (r.name == name)) t.rows },
  )

  -- DeleteTask
  unfoldable pub delete_task : String → Action (Conn TaskTable) Bool
  delete_task name = do n ← statement (delete_named name); pure (is_operated_success n)

  abbrev first_model : List TaskRow → Result (Option Task)
  first_model [] = ok none
  first_model (r ∷ rs) = elim (to_task_model r) [
    | ok t ↦ ok (some t)
    | err e ↦ err e
    | panicked ↦ panicked
  ]

  -- GetTask
  unfoldable pub get_task : String → Action (Conn TaskTable) (Option Task)
  get_task name = do
    found ← statement (λ t. (keep (λ r. r.name == name) t.rows, t))
    lift (first_model found)
