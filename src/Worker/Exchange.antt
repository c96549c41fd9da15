-- ===== src/Worker/Exchange.antt =====
-- LA5: the client and the child process of the server that serves it, one task from GET_TASK to RESULT.
use cnlab_cs.Common.{
  ℕ, ◌≤◌, ◌≡◌, ◌≢◌, refl, sym, ◌∙◌, true, false, Option, none, some, List, [], ◌∷◌, arith, length,
  All, get_elem?, set, take_all,
}
use mathlib.Core.Path.{subst}
use mathlib.Core.Option.{some-injective}
use cnlab_cs.Common.Arrays.{index_of-some}
use cnlab_cs.Common.Bytes.{codes, c_str}
use cnlab_cs.Common.Int.{ℤ}
use cnlab_cs.Common.Keys.{index_of-set_new, get_elem?-set_self, set-set}
use cnlab_cs.Tasks.Queue.{Task, is_pending_of, is_free, pending_index, get_next_task_index}
use cnlab_cs.Tasks.Handler.{
  Shared, Client, Effect, Reply, task_reply, reply_bytes, assign, complete, change_task, task_text,
  on_get_task, on_result, result_index, result, request_of, respond,
}
use cnlab_cs.Worker.Expression.{evaluate_expression, result_text}
use cnlab_cs.Worker.Loop.{Received, Outcome, Turn, client_turn, on_received, on_response, on_task}

-- What the client does with a reply, once it was sent.
abbrev pub turn_after : Option Reply → Turn
turn_after none = client_turn true true Received.not_yet true
turn_after (some reply) = client_turn true true (Received.response (reply_bytes reply)) true

c_str-nonzero : (s : List ℕ) → All (λ c. c ≢ 0) s → c_str s ≡ s
c_str-nonzero [] a = refl
c_str-nonzero (c ∷ s) a = ground (arith, a.0, c_str-nonzero s a.1)

client_turn-task :
    (t : List ℕ) (z : ℤ)
    → All (λ c. c ≢ 0) t
    → length t ≤ 249
    → evaluate_expression t ≡ some z
    → client_turn true true (Received.response (reply_bytes (task_reply t))) true
      ≡ record { sent = result_text z ∷ []; outcome = Outcome.continues false }
unfolding client_turn
client_turn-task t z text short value =
    rw
      (
        take_all 249 t short,
        client_turn,
        on_received,
        on_response,
        on_task,
        c_str-nonzero t text,
        on_task,
        value,
      )
      refl

-- A client without a task, and the first free task.
abbrev pub MayTake : Shared → (pid i : ℕ) → Task → Type 0
MayTake m pid i t =
    (pending_index pid m.task_queue ≡ none)
    × (get_next_task_index m.task_queue ≡ some i)
    × (get_elem? m.task_queue i ≡ some t)

on_get_task-hands :
    (m : Shared) (pid now i : ℕ) (t : Task)
    → MayTake m pid i t
    → on_get_task m pid now true ≡ record {
      shared = record m { task_queue = set m.task_queue i (assign pid now t) };
      task_index = some i;
      reply = some (task_reply t.task);
      goes_on = true;
    }
unfolding on_get_task
on_get_task-hands m pid now i t (idle, free, get) =
    rw (idle, on_get_task, free, on_get_task, get, change_task, task_text) refl

-- A RESULT of the client that holds the task at an index.
on_result-held :
    (m : Shared) (pid i : ℕ) (old : Option ℕ) (t : Task)
    → pending_index pid m.task_queue ≡ some i
    → get_elem? m.task_queue i ≡ some t
    → (on_result m pid old).shared.task_queue ≡ set m.task_queue i (complete t)
unfolding on_result
on_result-held m pid i old t held get = rw (held, result_index, get, change_task) refl

request_of-result_text : (z : ℤ) → request_of (result_text z) ≡ result
unfolding request_of
request_of-result_text z = refl

pending_index-assign :
    (m : Shared) (pid now i : ℕ) (t : Task)
    → MayTake m pid i t
    → pending_index pid (set m.task_queue i (assign pid now t)) ≡ some i
unfolding pending_index get_next_task_index
pending_index-assign m pid now i t (idle, free, get) =
    let (u, get', is_free_u, found, lt) = index_of-some is_free m.task_queue i free in
    index_of-set_new (is_pending_of pid) m.task_queue i t (assign pid now t) idle get (
      let same : u ≡ t = some-injective u t (sym get' ∙ get) in
      ground (arith, subst (λ x. is_free x ≡ true) same is_free_u))

-- The reply goes to the child process, whose index was set when it gave out the task.
abbrev pub after_result : Client → Effect → (later : ℕ) → ℤ → Effect
after_result c given later z =
    respond (request_of (result_text z)) given.shared (record c { task_index = given.task_index })
      later true

-- When a client holds no task and there is a free one, its GET_TASK is answered with that task; when the task
-- is a text of at most 249 characters that evaluates to a number, the client sends RESULT with that number and
-- is ready to ask again, and this message completes exactly that task of the queue.
pub task-completed :
    (m : Shared) (c : Client) (now later i : ℕ) (t : Task) (z : ℤ)
    → MayTake m c.pid i t
    → All (λ x. x ≢ 0) t.task
    → length t.task ≤ 249
    → evaluate_expression t.task ≡ some z
    → let given = respond (request_of (codes "GET_TASK")) m c now true in
      (turn_after given.reply
        ≡ record { sent = result_text z ∷ []; outcome = Outcome.continues false })
      × ((after_result c given later z).shared.task_queue
          ≡ set m.task_queue i (complete (assign c.pid now t)))
unfolding respond request_of
task-completed m c now later i t z h text short value =
    let given = on_get_task-hands m c.pid now i t h in
    let held = pending_index-assign m c.pid now i t h in
    rw given (
      client_turn-task t.task z text short value,
      on_result-held (record m { task_queue = set m.task_queue i (assign c.pid now t) }) c.pid i
            (some i) (assign c.pid now t) held
            (get_elem?-set_self m.task_queue i t (assign c.pid now t) h.2)
          ∙ set-set m.task_queue i (assign c.pid now t) (complete (assign c.pid now t)),
    )
