-- ===== src/Tasks/Handler.antt =====
-- LA5/server.c: `handle_client`, one round of its loop at a time. Each critical section between
-- `lock_queue` and `unlock_queue` is one function.
use cnlab_cs.Common.{
  ℕ, ◌-◌, Bool, true, false, Option, none, some, List, [], ◌++◌, ltb, if◌then◌else◌, get_elem?, set,
}
use cnlab_cs.Common.Bytes.{codes, has_prefix}
use cnlab_cs.Tasks.Queue.{
  Task, check_all_completed, check_task_timeouts, release_tasks, get_next_task_index, pending_index,
}

abbrev pub client_idle_timeout : ℕ
client_idle_timeout = 60

-- The shared memory: the queue and the flag of the control block (`active_clients` is changed by
-- the main process only, and stands with it).
pub record Shared : Type 0 where
  pub task_queue : List Task
  pub all_tasks_completed : Bool

-- The locals of a child process; `task_index` is -1 as `none`.
pub record Client : Type 0 where
  pub pid : ℕ
  pub task_index : Option ℕ
  pub last_activity : ℕ

pub data Reply : Type 0 where
  task_reply : (task : List ℕ) → Reply
  no_tasks : Reply

-- What is sent: "Task: %s", or the fixed text.
abbrev pub reply_bytes : Reply → List ℕ
reply_bytes (task_reply task) = codes "Task: " ++ task
reply_bytes no_tasks = codes "No tasks available"

-- What a request does: the shared memory and the local index after it, the reply that was handed to
-- `send`, if any, and whether the loop goes on.
pub record Effect : Type 0 where
  pub shared : Shared
  pub task_index : Option ℕ
  pub reply : Option Reply
  pub goes_on : Bool

abbrev pub assign : ℕ → ℕ → Task → Task
assign pid now t = record t { assigned = true; assigned_to = pid; assignment_time = now }

abbrev pub task_text : List Task → ℕ → List ℕ
task_text q i = elim (get_elem? q i) [ none ↦ [] | some t ↦ t.task ]

abbrev pub change_task : (Task → Task) → List Task → ℕ → List Task
change_task f q i = elim (get_elem? q i) [ none ↦ q | some t ↦ set q i (f t) ]

-- "GET_TASK". When `send` fails the loop ends and the assignment stays.
unfoldable pub on_get_task : Shared → ℕ → (now : ℕ) → (send_ok : Bool) → Effect
unfolding pending_index get_next_task_index
on_get_task m pid now send_ok = elim (pending_index pid m.task_queue) [
  | some i ↦ record {
    shared = m;
    task_index = some i;
    reply = some (task_reply (task_text m.task_queue i));
    goes_on = send_ok;
  }
  | none ↦ elim (get_next_task_index m.task_queue) [
    | some j ↦ record {
      shared = record m { task_queue = change_task (assign pid now) m.task_queue j };
      task_index = some j;
      reply = some (task_reply (task_text m.task_queue j));
      goes_on = send_ok;
    }
    | none ↦ record { shared = m; task_index = none; reply = some no_tasks; goes_on = send_ok }
  ]
]

abbrev pub complete : Task → Task
complete t = record t { completed = true }

-- The flag is set, and never cleared, once every task is completed.
abbrev pub complete_at : Shared → ℕ → Shared
complete_at m i =
    let q = change_task complete m.task_queue i in
    record {
      task_queue = q;
      all_tasks_completed = if check_all_completed q then true else m.all_tasks_completed;
    }

-- "RESULT ": the index found by the search, or the one that was there before.
abbrev pub result_index : Shared → ℕ → Option ℕ → Option ℕ
result_index m pid task_index = elim (pending_index pid m.task_queue) [
  | some i ↦ some i
  | none ↦ task_index
]

abbrev pub result_shared : Shared → Option ℕ → Shared
result_shared m none = m
result_shared m (some i) = complete_at m i

unfoldable pub on_result : Shared → ℕ → Option ℕ → Effect
unfolding pending_index check_all_completed
on_result m pid task_index =
    let found = result_index m pid task_index in
    record { shared = result_shared m found; task_index = found; reply = none; goes_on = true }

abbrev pub release : Shared → ℕ → Shared
release m pid = record m { task_queue = release_tasks pid m.task_queue }

pub data Request : Type 0 where
  get_task result exits other : Request

-- The `if` ladder over the message.
unfoldable pub request_of : (buffer : List ℕ) → Request
request_of buffer =
    if has_prefix (codes "GET_TASK") buffer
    then get_task
    else (if has_prefix (codes "RESULT ") buffer
        then result
        else (if has_prefix (codes "exit") buffer then exits else other))

-- Its branches; any other message changes nothing.
unfoldable pub respond : Request → Shared → Client → (now : ℕ) → (send_ok : Bool) → Effect
unfolding on_get_task on_result release_tasks
respond get_task m c now send_ok = on_get_task m c.pid now send_ok
respond result m c now send_ok = on_result m c.pid c.task_index
respond exits m c now send_ok = record {
  shared = release m c.pid;
  task_index = c.task_index;
  reply = none;
  goes_on = false;
}
respond other m c now send_ok = record {
  shared = m;
  task_index = c.task_index;
  reply = none;
  goes_on = true;
}

-- What `recv` returns: EAGAIN, another error, the end of the connection, or bytes.
pub data Incoming : Type 0 where
  would_block recv_error disconnected : Incoming
  message : (buffer : List ℕ) → Incoming

-- The clock at the idle check, after a read, at an assignment and at the check for timeouts.
pub record Event : Type 0 where
  pub idle_now : ℕ
  pub read_now : ℕ
  pub assign_now : ℕ
  pub check_now : ℕ
  pub incoming : Incoming
  pub send_ok : Bool

pub record Round : Type 0 where
  pub shared : Shared
  pub client : Client
  pub reply : Option Reply
  pub goes_on : Bool

abbrev pub expire_all : ℕ → Shared → Shared
expire_all now m = record m { task_queue = check_task_timeouts now m.task_queue }

unfoldable pub after_message : Client → Event → Effect → Round
unfolding check_task_timeouts
after_message c e f = record {
  shared = if f.goes_on then expire_all e.check_now f.shared else f.shared;
  client = record c { task_index = f.task_index; last_activity = e.read_now };
  reply = f.reply;
  goes_on = f.goes_on;
}

unfoldable pub on_incoming : Shared → Client → Event → Incoming → Round
unfolding request_of respond after_message
on_incoming m c e would_block = record { shared = m; client = c; reply = none; goes_on = true }
on_incoming m c e recv_error = record { shared = m; client = c; reply = none; goes_on = false }
on_incoming m c e disconnected = record {
  shared = release m c.pid;
  client = c;
  reply = none;
  goes_on = false;
}
on_incoming m c e (message buffer) =
    after_message c e (respond (request_of buffer) m c e.assign_now e.send_ok)

-- One round of `while (1)`; when it does not go on the process closes the connection and exits.
unfoldable pub handle_round : Shared → Client → Event → Round
unfolding on_incoming
handle_round m c e =
    if ltb client_idle_timeout (e.idle_now - c.last_activity)
    then record { shared = m; client = c; reply = none; goes_on = false }
    else on_incoming m c e e.incoming
