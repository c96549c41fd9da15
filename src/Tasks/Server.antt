-- ===== src/Tasks/Server.antt =====
-- LA5/server.c: the main process with its child processes, as steps of one system. The semaphore
-- makes each critical section one step; a child may also die between two rounds.
use cnlab_cs.Common.{
  ℕ, ◌≡◌, Bool, true, false, ◌&&◌, none, some, List, [], ◌∷◌, ◌==◌, if◌then◌else◌, get_elem?, set,
}
use cnlab_cs.Common.Arrays.{erase_idx}
use cnlab_cs.Common.Int.{ℤ, pos, incr, decr, is_zero}
use cnlab_cs.Tasks.Queue.{Task}
use cnlab_cs.Tasks.Handler.{Shared, Client, Event, release, expire_all, handle_round}

-- A child process: running, or dead and not yet waited for.
pub record Child : Type 0 where
  pub client : Client
  pub alive : Bool

pub record Server : Type 0 where
  pub shared : Shared
  pub active_clients : ℤ
  pub children : List Child
  pub running : Bool

-- After `setup_server` with the tasks that were loaded.
unfoldable pub setup_server : List Task → Server
setup_server tasks = record {
  shared = record { task_queue = tasks; all_tasks_completed = false };
  active_clients = pos 0;
  children = [];
  running = true;
}

-- What `accept` and `fork` give: no connection, an error, a failed fork, or a child of that pid,
-- which reads the clock as it starts.
pub data Accepted : Type 0 where
  no_connection accept_error fork_failed : Accepted
  forked : (pid now : ℕ) → Accepted

abbrev pub new_child : ℕ → ℕ → Child
new_child pid now = record {
  client = record { pid = pid; task_index = none; last_activity = now };
  alive = true;
}

unfoldable pub on_accept : Server → Accepted → Server
on_accept s no_connection = s
on_accept s accept_error = s
on_accept s fork_failed = record s { active_clients = decr (incr s.active_clients) }
on_accept s (forked pid now) = record s {
  active_clients = incr s.active_clients;
  children = new_child pid now ∷ s.children;
}

-- One round of the loop of `main`.
unfoldable pub main_round : Server → (now : ℕ) → Accepted → Server
unfolding on_accept
main_round s now a =
    let t = record s { shared = expire_all now s.shared } in
    if t.shared.all_tasks_completed && is_zero t.active_clients
    then record t { running = false }
    else on_accept t a

-- The child at `i` makes one round of `handle_client`, and exits if that does not go on.
unfoldable pub child_round : Server → ℕ → Child → Event → Server
child_round s i ch e =
    let r = handle_round s.shared ch.client e in
    record s {
      shared = r.shared;
      children = set s.children i (record { client = r.client; alive = r.goes_on });
    }

abbrev pub child_dies : Server → ℕ → Child → Server
child_dies s i ch = record s { children = set s.children i (record ch { alive = false }) }

-- The body of the loop of `sigchld_handler` for the dead child at `i`.
unfoldable pub reap : Server → ℕ → Child → Server
reap s i ch = record s {
  shared = release s.shared ch.client.pid;
  active_clients = decr s.active_clients;
  children = erase_idx s.children i;
}

abbrev pub has_child : ℕ → List Child → Bool
has_child pid [] = false
has_child pid (ch ∷ cs) = if ch.client.pid == pid then true else has_child pid cs

-- A new process has a pid that no child has, dead ones that are not waited for included.
abbrev pub IsFreshPid : Server → Accepted → Type 0
IsFreshPid s (forked pid now) = has_child pid s.children ≡ false
IsFreshPid s _ = Unit {0}

pub data Step (s t : Server) : Type 0 where
  main_loop :
      (now : ℕ) (a : Accepted)
      → s.running ≡ true
      → IsFreshPid s a
      → t ≡ main_round s now a
      → Step s t
  client :
      (i : ℕ) (ch : Child) (e : Event)
      → get_elem? s.children i ≡ some ch
      → ch.alive ≡ true
      → t ≡ child_round s i ch e
      → Step s t
  death : (i : ℕ) (ch : Child) → get_elem? s.children i ≡ some ch → t ≡ child_dies s i ch → Step s t
  sigchld :
      (i : ℕ) (ch : Child)
      → get_elem? s.children i ≡ some ch
      → ch.alive ≡ false
      → t ≡ reap s i ch
      → Step s t

pub data Reach (s : Server) : Server → Type 0 where
  here : Reach s s
  next : {t u : Server} → Reach s t → Step t u → Reach s u
