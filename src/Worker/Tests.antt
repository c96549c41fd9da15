-- ===== src/Worker/Tests.antt =====
-- LA5: runs of the client at concrete inputs.
use cnlab_cs.Common.{◌≡◌, ◌≢◌, refl, true, false, none, some, [], ◌∷◌, arith}
use cnlab_cs.Common.Bytes.{codes}
use cnlab_cs.Common.Int.{pos, negsuc}
use cnlab_cs.Common.Arrays.{index_of}
use cnlab_cs.Tasks.Queue.{Task, pending_index, get_next_task_index}
use cnlab_cs.Tasks.Handler.{Shared, Client, respond, request_of, assign, complete}
use cnlab_cs.Worker.Expression.{evaluate_expression, result_text}
use cnlab_cs.Worker.Loop.{Received, Outcome, client_turn, on_received, on_response}
use cnlab_cs.Worker.Evaluation.{
  expression_text, evaluate_expression-text, evaluate_expression-errors,
}
use cnlab_cs.Worker.Exchange.{turn_after, after_result, task-completed}

evaluate_expression-text_example :
    (evaluate_expression (expression_text (pos 20) 43 (negsuc 66)) ≡ some (negsuc 46))
    × (evaluate_expression (expression_text (pos 20) 45 (negsuc 66)) ≡ some (pos 87))
    × (evaluate_expression (expression_text (pos 20) 42 (negsuc 66)) ≡ some (negsuc 1339))
    × (negsuc 66 ≢ pos 0
        → evaluate_expression (expression_text (pos 20) 47 (negsuc 66)) ≡ some (pos 0))
evaluate_expression-text_example = evaluate_expression-text (pos 20) (negsuc 66) refl refl

evaluate_expression-errors_example :
    (evaluate_expression (expression_text (pos 7) 94 (pos 2)) ≡ some (pos 0))
    × (evaluate_expression (expression_text (pos 7) 47 (pos 0)) ≡ some (pos 0))
evaluate_expression-errors_example =
    evaluate_expression-errors (pos 7) (pos 2) 94 refl refl refl
      (ground arith, ground arith, ground arith, ground arith)

product : evaluate_expression (codes "24 * 16") ≡ some (pos 384)
unfolding evaluate_expression
product = refl

-- Neither a sum behind the range of int nor an empty task has a value.
too_large : evaluate_expression (codes "2147483647 + 1") ≡ none
unfolding evaluate_expression
too_large = refl

empty_task : evaluate_expression [] ≡ none
unfolding evaluate_expression
empty_task = refl

abbrev one_task : Task
one_task = record {
  task = codes "24 * 16";
  assigned = false;
  completed = false;
  assigned_to = 0;
  assignment_time = 0;
}

abbrev one_queue : Shared
one_queue = record { task_queue = one_task ∷ []; all_tasks_completed = false }

abbrev fresh_client : Client
fresh_client = record { pid = 5; task_index = none; last_activity = 0 }

one_queue-idle : pending_index 5 one_queue.task_queue ≡ none
unfolding pending_index index_of
one_queue-idle = refl

one_queue-free : get_next_task_index one_queue.task_queue ≡ some 0
unfolding get_next_task_index index_of
one_queue-free = refl

task-completed_example :
    let given = respond (request_of (codes "GET_TASK")) one_queue fresh_client 9 true in
    (turn_after given.reply
      ≡ record { sent = result_text (pos 384) ∷ []; outcome = Outcome.continues false })
    × ((after_result fresh_client given 10 (pos 384)).shared.task_queue
        ≡ complete (assign 5 9 one_task) ∷ [])
task-completed_example =
    task-completed one_queue fresh_client 9 10 0 one_task (pos 384)
      (one_queue-idle, one_queue-free, refl) (ground arith) (omega arith) product

-- When there is no task left the client says so and ends.
no_task_left :
    client_turn true true (Received.response (codes "No tasks available")) true
    ≡ record { sent = codes "exit" ∷ []; outcome = Outcome.stops }
unfolding client_turn on_received on_response
no_task_left = refl
