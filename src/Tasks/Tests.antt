-- ===== src/Tasks/Tests.antt =====
-- LA5/server.c: one client that takes a task, answers it and leaves, up to the shutdown.
use cnlab_cs.Common.{
  zero, suc, if◌then◌else◌, ◌≢◌, ◌&&◌, not, ℕ, ◌≡◌, ◌⊎◌, refl, true, false, none, some, List, [],
  ◌∷◌, arith, get_elem?, All,
}
use cnlab_cs.Common.Arrays.{find?, index_of}
use cnlab_cs.Common.Bytes.{codes}
use cnlab_cs.Common.Pointwise.{Pointwise}
use cnlab_cs.Tasks.Queue.{
  Task, is_pending, is_pending_of, is_free, check_task_timeouts, release_tasks, load_tasks,
  get_next_task_index, new_task,
}
use cnlab_cs.Tasks.Handler.{Shared, Event, message, assign, on_get_task, on_result, handle_round}
use cnlab_cs.Tasks.Changes.{Stable}
use cnlab_cs.Tasks.Server.{
  Child, Server, setup_server, no_connection, forked, main_round, child_round, reap, new_child,
  has_child, main_loop, client, sigchld, Reach, here, next,
}
use cnlab_cs.Tasks.Guarantees.{one_task_each, task_not_lost, shutdown_complete, Reach-Stable}
use cnlab_cs.Tasks.Requests.{
  Answer, on_get_task-Answer, on_result-stale, is_late, release_tasks_holds, Expires,
  check_task_timeouts-Expires,
}
use cnlab_cs.Tasks.Loading.{load_tasks-unlines}

abbrev sum_task : Task
sum_task = new_task (codes "1 + 1")

abbrev tasks : List Task
tasks = sum_task ∷ []

abbrev says : List ℕ → Event
says buffer = record {
  idle_now = 5;
  read_now = 5;
  assign_now = 5;
  check_now = 5;
  incoming = message buffer;
  send_ok = true;
}

abbrev s1 : Server
s1 = main_round (setup_server tasks) 0 (forked 100 0)

abbrev s2 : Server
s2 = child_round s1 0 (new_child 100 0) (says (codes "GET_TASK"))

abbrev working : Child
working = record {
  client = record { pid = 100; task_index = some 0; last_activity = 5 };
  alive = true;
}

abbrev s3 : Server
s3 = child_round s2 0 working (says (codes "RESULT 2"))

abbrev s4 : Server
s4 = child_round s3 0 working (says (codes "exit"))

abbrev s5 : Server
s5 = reap s4 0 (record working { alive = false })

s2-Reach : Reach (setup_server tasks) s2
unfolding setup_server main_round
s2-Reach =
    next (next here (main_loop 0 (forked 100 0) refl refl refl))
      (client 0 (new_child 100 0) (says (codes "GET_TASK")) refl refl refl)

s4-Reach : Reach (setup_server tasks) s4
unfolding setup_server main_round child_round handle_round
s4-Reach =
    next (next s2-Reach (client 0 working (says (codes "RESULT 2")) refl refl refl))
      (client 0 working (says (codes "exit")) refl refl refl)

s5-Reach : Reach (setup_server tasks) s5
unfolding setup_server main_round child_round handle_round
s5-Reach = next s4-Reach (sigchld 0 (record working { alive = false }) refl refl refl)

abbrev held : Task
held = assign 100 5 sum_task

s2-task : get_elem? s2.shared.task_queue 0 ≡ some held
unfolding setup_server main_round child_round handle_round
s2-task = refl

tasks-new : All (λ t. is_pending t ≡ false) tasks
tasks-new = (refl, tt)

one_task_each_example : ◌≡◌ {A = ℕ} 0 0
one_task_each_example =
    one_task_each tasks s2 tasks-new s2-Reach 100 0 0 held held s2-task s2-task refl refl

task_not_lost_example :
    (held.completed ≡ true) ⊎ ((is_free held ≡ true) ⊎ (has_child 100 s2.children ≡ true))
task_not_lost_example = task_not_lost tasks s2 tasks-new s2-Reach 0 held s2-task

s5-running : s5.running ≡ true
unfolding setup_server main_round child_round handle_round reap
s5-running = refl

s5-ends : (main_round s5 9 no_connection).running ≡ false
unfolding setup_server main_round child_round handle_round reap
s5-ends = refl

shutdown_complete_example :
    All (λ t. t.completed ≡ true) (main_round s5 9 no_connection).shared.task_queue
    × (s5.children ≡ [])
shutdown_complete_example =
    shutdown_complete tasks s5 9 no_connection tasks-new s5-Reach s5-running s5-ends

Reach-Stable_example : Pointwise Stable (setup_server tasks).shared.task_queue s5.shared.task_queue
Reach-Stable_example = Reach-Stable s5-Reach

abbrev start_shared : Shared
start_shared = record { task_queue = tasks; all_tasks_completed = false }

on_get_task-Answer_example : Answer start_shared 100 5 (on_get_task start_shared 100 5 true)
on_get_task-Answer_example = on_get_task-Answer start_shared 100 5 true

-- Client 7 took the task; it timed out and client 100 has it now.
abbrev taken_over : Shared
taken_over = record { task_queue = held ∷ []; all_tasks_completed = false }

only_held :
    (j : ℕ) (u : Task)
    → get_elem? taken_over.task_queue j ≡ some u
    → is_pending_of 100 u ≡ true
    → j ≡ 0
only_held zero u e h = refl
only_held (suc j) u e h = cc

on_result-stale_example :
    (find? (is_pending_of 100) (on_result taken_over 7 (some 0)).shared.task_queue ≡ none)
    × (get_elem? (on_result taken_over 7 (some 0)).shared.task_queue 0
        ≡ some (record {
          task = held.task;
          assigned = true;
          completed = true;
          assigned_to = 100;
          assignment_time = held.assignment_time;
        }))
    × ((j : ℕ)
        → j ≢ 0
        → get_elem? (on_result taken_over 7 (some 0)).shared.task_queue j
          ≡ get_elem? taken_over.task_queue j)
on_result-stale_example = on_result-stale taken_over 7 100 0 held refl refl refl only_held

released : find? (is_pending_of 100) (release_tasks 100 (held ∷ [])) ≡ none
released = release_tasks_holds 100 100 (held ∷ [])

check_task_timeouts-Expires_example :
    Pointwise (Expires 36) (held ∷ []) (check_task_timeouts 36 (held ∷ []))
    × ((p : ℕ)
        → find? (is_pending_of p) (check_task_timeouts 36 (held ∷ []))
          ≡ find? (λ t. is_pending_of p t && not (is_late 36 t)) (held ∷ []))
    × (get_next_task_index (check_task_timeouts 36 (held ∷ []))
        ≡ index_of (λ t. if is_late 36 t then true else is_free t) (held ∷ []))
check_task_timeouts-Expires_example = check_task_timeouts-Expires 36 (held ∷ [])

load_tasks-unlines_example : load_tasks (some (49 ∷ 10 ∷ [])) ≡ some (new_task (49 ∷ []) ∷ [])
load_tasks-unlines_example =
    load_tasks-unlines ((49 ∷ []) ∷ []) (omega arith)
      ((omega arith, ((λ e. absurd (omega arith), λ e. absurd (omega arith)), tt)), tt)
