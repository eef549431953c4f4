-- ===== src/Database/Tasks/Locking.antt =====
-- plugin/database/task.go: of the workers that read one version of a task, one gets its lock.
use baetyl_cloud.Common.{ℕ, String, ◌≡◌, refl, sym, ap, ◌∙◌, Bool, false, List, [], ◌∷◌, arith}
use baetyl_cloud.Common.Action.{
  Result, ok, err, panicked, lift, Ensures, Ensures-pure, Ensures-bind, ok-injective,
}
use baetyl_cloud.Database.{Conn, statement, statement-ok}
use baetyl_cloud.Database.Tasks.{
  Task, TaskRow, TaskTable, TaskFormat, update_where, update_rows, is_operated_success,
  from_task_model, is_at, locked, acquire_task_lock,
}

module _ (format : TaskFormat) where
  -- After an update, no row with that id and version is left to update.
  none_left :
      (id version expire expire' : ℕ) (rs : List TaskRow)
      → (update_where
          (is_at format id version)
          (locked format expire')
          (update_where (is_at format id version) (locked format expire) rs).1).0
        ≡ 0
  unfolding update_where
  none_left id version expire expire' [] = refl
  none_left id version expire expire' (r ∷ rs) =
      ground (arith, none_left id version expire expire' rs)

  -- A conversion keeps what the lock is taken by.
  abbrev SameKey : Task → TaskRow → Type 0
  SameKey t r = (r.id ≡ t.id) × (r.version ≡ t.version) × (r.expire_time ≡ t.expire_time)

  from_task_model-SameKey : (t : Task) (r : TaskRow) → from_task_model format t ≡ ok r → SameKey t r
  unfolding from_task_model
  from_task_model-SameKey t r e = by_text (format.encode t.processors_status) refl
    where
      by_text : (c : Result String) → format.encode t.processors_status ≡ c → SameKey t r
      by_text (ok c) h =
          let same = ok-injective (sym (rw (h, from_task_model) at e)) in
          (ap (λ x. x.id) same, ap (λ x. x.version) same, ap (λ x. x.expire_time) same)
      by_text (err x) h = cc (rw (h, from_task_model) at e)
      by_text panicked h = cc (rw (h, from_task_model) at e)

  -- What an acquisition that answered did to the rows.
  abbrev Acquired : Task → Conn TaskTable → Bool → Conn TaskTable → Type 0
  Acquired task s b t =
      (b
        ≡ is_operated_success
            (update_where (is_at format task.id task.version) (locked format task.expire_time)
              s.tables.rows).0)
      × (t.tables.rows
          ≡ (update_where (is_at format task.id task.version) (locked format task.expire_time)
              s.tables.rows).1)

  acquire_task_lock-Ensures :
      (task : Task) (s : Conn TaskTable)
      → Ensures (Acquired task s) (acquire_task_lock format task s)
  unfolding acquire_task_lock
  acquire_task_lock-Ensures task s =
      Ensures-bind (λ r u. SameKey task r × (u ≡ s)) (Acquired task s)
        (lift (from_task_model format task)) _ s
        (λ r u e. (from_task_model-SameKey task r (ap (λ p. p.0) e), sym (ap (λ p. p.1) e)))
        λ r u ((is_id, is_version, is_expire), same).
          Ensures-bind
            (λ n t.
              update_rows (is_at format task.id task.version) (locked format task.expire_time)
                s.tables
              ≡ (n, t.tables))
            (Acquired task s)
            (statement (update_rows (is_at format r.id r.version) (locked format r.expire_time))) _
            u
            (λ n t e.
              let done =
                statement-ok
                  (update_rows (is_at format r.id r.version) (locked format r.expire_time)) u e in
              rw (same, is_id, is_version, is_expire) at done)
            λ n t e.
              Ensures-pure (Acquired task s) (is_operated_success n) t
                (ap (λ p. is_operated_success p.0) (sym e), ap (λ p. p.1.rows) (sym e))

  nothing_done : is_operated_success 0 ≡ false
  unfolding is_operated_success
  nothing_done = refl

  -- Of two workers that hold one id and one version of a task, the second to ask for the lock is
  -- told that it has not got it, where both acquisitions answer.
  pub acquire-acquire :
      (a b : Task) (s t u : Conn TaskTable) (x y : Bool)
      → a.id ≡ b.id
      → a.version ≡ b.version
      → acquire_task_lock format a s ≡ (ok x, t)
      → acquire_task_lock format b t ≡ (ok y, u)
      → y ≡ false
  acquire-acquire a b s t u x y same_id same_version e e' =
      let (_, rows) = acquire_task_lock-Ensures a s x t e in
      let (is_y, _) = acquire_task_lock-Ensures b t y u e' in
      let none : (update_where (is_at format b.id b.version) (locked format b.expire_time)
            t.tables.rows).0
          ≡ 0 =
        rw (rows, same_id, same_version)
          (none_left b.id b.version a.expire_time b.expire_time s.tables.rows) in
      is_y ∙ ap is_operated_success none ∙ nothing_done
