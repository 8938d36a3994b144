-- ===== src/Store/Queue/Enqueue.antt =====
-- `enqueue_task_execution`, and the claim that follows it.
use vermay_agent.Prelude.{
  ℕ, String, eq_iff, eq_refl, ◌≡◌, ◌∙◌, ap, refl, true, false, Option, none, some, is_some, arith,
  Option-cases, inl, inr,
}
use vermay_agent.Prelude.Table.{lookup-insert}
use vermay_agent.Exec.{ok, Result-cases}
use vermay_agent.Json.{Fields}
use vermay_agent.Lifecycle.{queued, running, status_eq}
use vermay_agent.Command.{
  CommandKind, Payload, payload_to_dict, payload_from_dict, local_execution_command_version,
}
use vermay_agent.Command.Roundtrip.{is_built, payload_from_dict-payload_to_dict}
use vermay_agent.Store.{Store, TaskRecord, QueuedRow, queued_key}
use vermay_agent.Store.Tasks.{find_task, get_task, no_failure}
use vermay_agent.Store.Tasks.Transition.{changed}
use vermay_agent.Store.Queue.{
  find_queued, queued_from_row, decode_queued, get_queued_task_execution, insert_queued,
  normalized_payload, put_queued, enqueue_task_execution, claim_queued_task_execution,
  QueuedTaskExecutionRecord,
}
use vermay_agent.Store.Queue.Claim.{claimed_store, claim_queued_task_execution_lem}

find_task-insert_queued :
    (j : String) (row : QueuedRow) (s : Store) → find_task j (insert_queued row s) ≡ find_task j s
unfolding find_task insert_queued
find_task-insert_queued j row s = refl

find_queued-insert_queued :
    (row : QueuedRow) (s : Store)
    → find_queued row.task_id s ≡ none
    → find_queued row.task_id (insert_queued row s) ≡ some row
unfolding find_queued insert_queued
find_queued-insert_queued row s h =
    ground (arith, h, lookup-insert queued_key row.task_id row s.queued, eq_refl row.task_id)

nothing_decoded : (o : Option QueuedRow) → decode_queued o ≡ ok none → o ≡ none
unfolding decode_queued
nothing_decoded none h = refl
nothing_decoded (some row) h = ground (arith, h)

decoded_thread :
    (row : QueuedRow) (q : QueuedTaskExecutionRecord)
    → decode_queued (some row) ≡ ok (some q)
    → q.runtime_thread_id ≡ row.runtime_thread_id
unfolding decode_queued queued_from_row
decoded_thread row q h = ground (arith, h)

-- What `put_queued` returns is what the table then holds, on the thread that was asked for.
put_queued_effect :
    (r q : QueuedTaskExecutionRecord) (written : Fields)
    (existing : Option QueuedTaskExecutionRecord) (s after : Store)
    → decode_queued (find_queued r.task_id s) ≡ ok existing
    → put_queued r written existing s ≡ (ok q, after)
    → (decode_queued (find_queued r.task_id after) ≡ ok (some q))
      × (q.runtime_thread_id ≡ r.runtime_thread_id)
      × (find_task r.task_id after ≡ find_task r.task_id s)
unfolding put_queued get_queued_task_execution
put_queued_effect r q written (some old) s after h k =
    ground (arith, h, k, eq_iff old.runtime_thread_id r.runtime_thread_id)
put_queued_effect r q written none s after h k =
    let row : QueuedRow = record {
      task_id = r.task_id;
      kind = r.kind;
      runtime_thread_id = r.runtime_thread_id;
      command_version = r.command_version;
      payload = written;
    } in
    let there = find_queued-insert_queued row s (nothing_decoded (find_queued r.task_id s) h) in
    ground (arith, h, k, there, decoded_thread row q, find_task-insert_queued r.task_id row s)

abbrev pub command_record : String → CommandKind → String → ℕ → Payload → QueuedTaskExecutionRecord
command_record task_id kind thread version payload = record {
  task_id = task_id;
  kind = kind;
  runtime_thread_id = thread;
  command_version = version;
  payload = payload;
}

-- What a call has passed before it reaches `put_queued`.
enqueue_checked :
    (task_id : String) (kind : CommandKind) (thread : String) (payload : Option Payload)
    (version : ℕ) (q : QueuedTaskExecutionRecord) (s after : Store)
    → enqueue_task_execution task_id kind thread payload version s ≡ (ok q, after)
    → (t : TaskRecord) × (p : Payload) × (written : Fields) × (old : Option
        QueuedTaskExecutionRecord)
      × (find_task task_id s ≡ some t)
      × (is_some t.assigned_agent_id ≡ false)
      × (status_eq t.status queued ≡ true)
      × (t.runtime_thread_id ≡ thread)
      × (decode_queued (find_queued task_id s) ≡ ok old)
      × (put_queued (command_record task_id kind thread version p) written old s ≡ (ok q, after))
unfolding enqueue_task_execution get_task get_queued_task_execution
enqueue_checked task_id kind thread payload version q s after h =
    elim (Option-cases (find_task task_id s)) [
      | inl missing ↦ ground (arith, h, missing)
      | inr (t, found) ↦ elim (Result-cases (normalized_payload task_id kind payload)) [
        | inl (e, bad) ↦ ground (arith, h, found, bad)
        | inr (p, normal) ↦ elim (Result-cases (payload_to_dict kind p)) [
          | inl (e, bad) ↦ ground (arith, h, found, normal, bad)
          | inr (written, wrote) ↦ elim (Result-cases (decode_queued (find_queued task_id s))) [
            | inl (e, bad) ↦ ground (arith, h, found, normal, wrote, bad)
            | inr (old, read) ↦ (
              t,
              p,
              written,
              old,
              found,
              ground (arith, h, found, normal, wrote, read),
              ground (arith, h, found, normal, wrote, read),
              ground (arith, h, found, normal, wrote, read, eq_iff t.runtime_thread_id thread),
              read,
              ground (arith, h, found, normal, wrote, read),
            )
          ]
        ]
      ]
    ]

-- A command that was enqueued is the one that the next claim of its Task returns, with the Task set
-- running.
pub enqueue-claim :
    (task_id : String) (kind : CommandKind) (thread : String) (payload : Option Payload)
    (version : ℕ) (q : QueuedTaskExecutionRecord) (s after : Store)
    → enqueue_task_execution task_id kind thread payload version s ≡ (ok q, after)
    → (t : TaskRecord) × (find_task task_id s ≡ some t)
      × (claim_queued_task_execution task_id after
          ≡ (ok (some (changed running no_failure t, q)), claimed_store t after))
enqueue-claim task_id kind thread payload version q s after h =
    let (t, p, written, old, found, local, waits, on_thread, read, put) =
      enqueue_checked task_id kind thread payload version q s after h in
    let (there, q_thread, kept) =
      put_queued_effect (command_record task_id kind thread version p) q written old s after read
        put in
    (
      t,
      found,
      ground (
        arith,
        found,
        local,
        waits,
        on_thread,
        there,
        q_thread,
        kept,
        eq_iff q.runtime_thread_id t.runtime_thread_id,
        claim_queued_task_execution_lem task_id after,
      ),
    )

abbrev pub command_row : String → CommandKind → String → Fields → QueuedRow
command_row task_id kind thread written = record {
  task_id = task_id;
  kind = kind;
  runtime_thread_id = thread;
  command_version = local_execution_command_version;
  payload = written;
}

read_back :
    (task_id : String) (kind : CommandKind) (thread : String) (p : Payload) (written : Fields)
    → is_built p ≡ true
    → payload_to_dict kind p ≡ ok written
    → decode_queued (some (command_row task_id kind thread written))
      ≡ ok (some (command_record task_id kind thread local_execution_command_version p))
unfolding decode_queued queued_from_row payload_from_dict
read_back task_id kind thread p written built wrote =
    rw (payload_from_dict-payload_to_dict kind p written built wrote) refl

enqueue_reaches :
    (t : TaskRecord) (kind : CommandKind) (p : Payload) (written : Fields) (s : Store)
    → find_task t.task_id s ≡ some t
    → is_some t.assigned_agent_id ≡ false
    → status_eq t.status queued ≡ true
    → decode_queued (find_queued t.task_id s) ≡ ok none
    → payload_to_dict kind p ≡ ok written
    → enqueue_task_execution t.task_id kind t.runtime_thread_id
        (some p)
        local_execution_command_version
        s
      ≡ put_queued
          (command_record t.task_id kind t.runtime_thread_id local_execution_command_version p)
          written
          none
          s
unfolding enqueue_task_execution get_task get_queued_task_execution normalized_payload
enqueue_reaches t kind p written s h local waits fresh wrote =
    ground (arith, h, local, waits, eq_refl t.runtime_thread_id, wrote, fresh)

put_fresh :
    (task_id : String) (kind : CommandKind) (thread : String) (p : Payload) (written : Fields)
    (s : Store)
    → find_queued task_id s ≡ none
    → is_built p ≡ true
    → payload_to_dict kind p ≡ ok written
    → put_queued
        (command_record task_id kind thread local_execution_command_version p)
        written
        none
        s
      ≡ (
        ok (command_record task_id kind thread local_execution_command_version p),
        insert_queued (command_row task_id kind thread written) s,
      )
unfolding put_queued get_queued_task_execution
put_fresh task_id kind thread p written s fresh built wrote = ground (
  arith,
  ap decode_queued (find_queued-insert_queued (command_row task_id kind thread written) s fresh),
  read_back task_id kind thread p written built wrote,
)

decode_none : (o : Option QueuedRow) → o ≡ none → decode_queued o ≡ ok none
unfolding decode_queued
decode_none o h = rw h refl

-- For a queued local Task without a command, a complete command is enqueued.
pub enqueue_fresh :
    (t : TaskRecord) (kind : CommandKind) (p : Payload) (written : Fields) (s : Store)
    → find_task t.task_id s ≡ some t
    → is_some t.assigned_agent_id ≡ false
    → t.status ≡ queued
    → find_queued t.task_id s ≡ none
    → is_built p ≡ true
    → payload_to_dict kind p ≡ ok written
    → enqueue_task_execution t.task_id kind t.runtime_thread_id
        (some p)
        local_execution_command_version
        s
      ≡ (
        ok (command_record t.task_id kind t.runtime_thread_id local_execution_command_version p),
        insert_queued (command_row t.task_id kind t.runtime_thread_id written) s,
      )
enqueue_fresh t kind p written s h local waits fresh built wrote =
    enqueue_reaches t kind p written s h local (ground (arith, waits))
      (decode_none (find_queued t.task_id s) fresh) wrote
    ∙ put_fresh t.task_id kind t.runtime_thread_id p written s fresh built wrote
