-- ===== src/Tasks/Guarantees.antt =====
-- LA5/server.c: what the server promises over its whole life, from the loaded tasks to the end.
use mathlib.Core.Option.{some-injective}
use cnlab_cs.Common.{
  ℕ, zero, suc, ◌≡◌, ◌⊎◌, refl, ap, ◌∙◌, inl, inr, Bool, true, false, ◌&&◌, none, some, List, [],
  ◌∷◌, arith, Bool-cases, length, get_elem?, All, All-get_elem?,
}
use cnlab_cs.Common.Arrays.{find?, All-of-find?}
use cnlab_cs.Common.Int.{pos, is_zero}
use cnlab_cs.Common.Pointwise.{Pointwise, Pointwise-refl, Pointwise-trans}
use cnlab_cs.Tasks.Queue.{Task, is_pending, is_pending_of, is_free, check_all_completed}
use cnlab_cs.Tasks.Handler.{expire_all}
use cnlab_cs.Tasks.Changes.{
  Stable, Stable-refl, check_task_timeouts-Weakens, release_tasks-Weakens, handle_round-keeps,
}
use cnlab_cs.Tasks.Ownership.{AtMostOne, Change-Stable}
use cnlab_cs.Tasks.Server.{
  Server, setup_server, Accepted, no_connection, accept_error, fork_failed, forked, on_accept,
  main_round, child_round, reap, has_child, Step, main_loop, client, death, sigchld, Reach, here,
  next,
}
use cnlab_cs.Tasks.Fleet.{setup_server-Inv, main_round-Inv, Reach-Inv}

first_is_only :
    (x t u : Task) (p : ℕ) (q : List Task) (j : ℕ)
    → some x ≡ some t
    → get_elem? q j ≡ some u
    → is_pending_of p t ≡ true
    → is_pending_of p u ≡ true
    → (is_pending x ≡ true → find? (is_pending_of x.assigned_to) q ≡ none)
    → ⊥
first_is_only x t u p q j e gj tp up alone =
    let same : x ≡ t = some-injective x t e in
    let holder : is_pending_of p x ≡ true = rw same tp in
    let free : is_pending_of x.assigned_to u ≡ false =
      All-get_elem? (λ y. is_pending_of x.assigned_to y ≡ false) q j
        (All-of-find? (is_pending_of x.assigned_to) q (alone (ground arith))) gj in
    ground arith

AtMostOne-index :
    (q : List Task) (p i j : ℕ) (t u : Task)
    → AtMostOne q
    → get_elem? q i ≡ some t
    → get_elem? q j ≡ some u
    → is_pending_of p t ≡ true
    → is_pending_of p u ≡ true
    → i ≡ j
AtMostOne-index [] p i j t u a gi gj ti uj = cc
AtMostOne-index (x ∷ q) p zero zero t u a gi gj ti uj = refl
AtMostOne-index (x ∷ q) p zero (suc j) t u a gi gj ti uj =
    absurd (first_is_only x t u p q j gi gj ti uj a.0)
AtMostOne-index (x ∷ q) p (suc i) zero t u a gi gj ti uj =
    absurd (first_is_only x u t p q i gj gi uj ti a.0)
AtMostOne-index (x ∷ q) p (suc i) (suc j) t u a gi gj ti uj =
    ap suc (AtMostOne-index q p i j t u a.1 gi gj ti uj)

-- At any moment a client holds at most one task that is not completed.
pub one_task_each :
    (tasks : List Task) (s : Server)
    → All (λ t. is_pending t ≡ false) tasks
    → Reach (setup_server tasks) s
    → (p i j : ℕ) (t u : Task) → get_elem? s.shared.task_queue i ≡ some t
    → get_elem? s.shared.task_queue j ≡ some u
    → is_pending_of p t ≡ true
    → is_pending_of p u ≡ true
    → i ≡ j
one_task_each tasks s idle r p i j t u =
    AtMostOne-index s.shared.task_queue p i j t u
      (Reach-Inv r (setup_server-Inv tasks idle)).one_each

-- A task that is not completed is free, or its holder is a process that the server has not yet
-- waited for: so no task is lost with a client.
pub task_not_lost :
    (tasks : List Task) (s : Server)
    → All (λ t. is_pending t ≡ false) tasks
    → Reach (setup_server tasks) s
    → (i : ℕ) (t : Task) → get_elem? s.shared.task_queue i ≡ some t
    → (t.completed ≡ true) ⊎ ((is_free t ≡ true) ⊎ (has_child t.assigned_to s.children ≡ true))
task_not_lost tasks s idle r i t get = ground (
  arith,
  All-get_elem? _ s.shared.task_queue i (Reach-Inv r (setup_server-Inv tasks idle)).owned get,
)

length-zero : {A : Type 0} (xs : List A) → is_zero (pos (length xs)) ≡ true → xs ≡ []
length-zero [] h = refl
length-zero (x ∷ xs) h = cc

on_accept-running : (s : Server) (a : Accepted) → (on_accept s a).running ≡ s.running
unfolding on_accept
on_accept-running s no_connection = refl
on_accept-running s accept_error = refl
on_accept-running s fork_failed = refl
on_accept-running s (forked pid now) = refl

on_accept-shared : (s : Server) (a : Accepted) → (on_accept s a).shared ≡ s.shared
unfolding on_accept
on_accept-shared s no_connection = refl
on_accept-shared s accept_error = refl
on_accept-shared s fork_failed = refl
on_accept-shared s (forked pid now) = refl

abbrev ends : Server → Bool
ends s = s.shared.all_tasks_completed && is_zero s.active_clients

main_round-shared :
    (s : Server) (now : ℕ) (a : Accepted) → (main_round s now a).shared ≡ expire_all now s.shared
unfolding main_round
main_round-shared s now a = elim (Bool-cases (ends s)) [
  | inl over ↦ rw (over, main_round)
  | inr on ↦
      rw (on, main_round) (on_accept-shared (record s { shared = expire_all now s.shared }) a)
]

main_round-ends :
    (s : Server) (now : ℕ) (a : Accepted)
    → s.running ≡ true
    → (main_round s now a).running ≡ false
    → ends s ≡ true
unfolding main_round
main_round-ends s now a on off = elim (Bool-cases (ends s)) [
  | inl over ↦ over
  | inr more ↦
      let t : Server = record s { shared = expire_all now s.shared } in
      let goes_on : main_round s now a ≡ on_accept t a = rw (more, main_round) in
      absurd (ground (arith, on_accept-running t a, ap (λ (x : Server). x.running) goes_on))
]

All-check_all_completed :
    (q : List Task) → check_all_completed q ≡ true → All (λ t. t.completed ≡ true) q
unfolding check_all_completed
All-check_all_completed [] h = tt
All-check_all_completed (t ∷ q) h = elim (Bool-cases t.completed) [
  | inl done ↦ (done, All-check_all_completed q (ground arith))
  | inr missing ↦ absurd (ground arith)
]

-- When the main loop ends, every task is completed and every child has been waited for.
pub shutdown_complete :
    (tasks : List Task) (s : Server) (now : ℕ) (a : Accepted)
    → All (λ t. is_pending t ≡ false) tasks
    → Reach (setup_server tasks) s
    → s.running ≡ true
    → (main_round s now a).running ≡ false
    → All (λ t. t.completed ≡ true) (main_round s now a).shared.task_queue × (s.children ≡ [])
shutdown_complete tasks s now a idle r on off =
    let v = Reach-Inv r (setup_server-Inv tasks idle) in
    let over = main_round-ends s now a on off in
    let flag : s.shared.all_tasks_completed ≡ true = ground arith in
    let zero : is_zero s.active_clients ≡ true = ground arith in
    (
      All-check_all_completed _
          ((main_round-Inv s now a v).flag (rw (main_round-shared s now a) flag)),
      length-zero s.children (rw v.counted at zero),
    )

Stable-trans : (x y z : Task) → Stable x y → Stable y z → Stable x z
Stable-trans x y z p q = (q.0 ∙ p.0, λ h. q.1 (p.1 h))

-- No step changes the text or the number of the tasks, or takes back a completion.
pub Step-Stable :
    {s t : Server} → Step s t → Pointwise Stable s.shared.task_queue t.shared.task_queue
Step-Stable {s} (main_loop now a on fresh e) =
    rw (e, main_round-shared s now a) (check_task_timeouts-Weakens now s.shared.task_queue).1
Step-Stable {s} (client i ch ev get live e) = rw e (
    unfold child_round in
    handle_round-keeps (λ m. Pointwise Stable s.shared.task_queue m.task_queue) ch.client
      (λ m n change flag h.
        Pointwise-trans Stable Stable-trans s.shared.task_queue m.task_queue n.task_queue h
          (Change-Stable ch.client.pid m.task_queue n.task_queue change))
      s.shared ev (Pointwise-refl Stable Stable-refl s.shared.task_queue))
Step-Stable {s} (death i ch get e) = rw e (Pointwise-refl Stable Stable-refl s.shared.task_queue)
Step-Stable {s} (sigchld i ch get dead e) =
    rw e (unfold reap in (release_tasks-Weakens ch.client.pid s.shared.task_queue).1)

pub Reach-Stable :
    {s t : Server} → Reach s t → Pointwise Stable s.shared.task_queue t.shared.task_queue
Reach-Stable {s} here = Pointwise-refl Stable Stable-refl s.shared.task_queue
Reach-Stable {s} (next {t} {u} r st) =
    Pointwise-trans Stable Stable-trans s.shared.task_queue t.shared.task_queue u.shared.task_queue
      (Reach-Stable r) (Step-Stable st)
