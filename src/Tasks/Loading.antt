-- ===== src/Tasks/Loading.antt =====
-- LA5/server.c, `load_tasks`: what is in the queue when the server starts.
use mathlib.Core.Option.{some-injective}
use mathlib.Core.Path.{subst}
use cnlab_cs.Common.{
  ℕ, zero, suc, ◌≤◌, ◌≡◌, ◌≢◌, refl, ap, false, some, List, [], ◌∷◌, ◌++◌, arith, length, All, map,
}
use cnlab_cs.Common.Bytes.{
  unlines, read_line-newline, c_str-newline, fgets-cons, newline, fgets, read_line,
}
use cnlab_cs.Tasks.Queue.{
  Task, is_pending, strip_newline, new_task, load_loop, load_tasks, max_tasks,
}

-- A line that fits the array with its newline and its final zero, and has neither inside.
abbrev pub IsLine : List ℕ → Type 0
IsLine l = (length l ≤ 48) × All (λ c. (c ≢ 0) × (c ≢ newline)) l

strip_newline-newline : (l : List ℕ) → strip_newline (l ++ newline ∷ []) ≡ l
unfolding strip_newline
strip_newline-newline [] = refl
strip_newline-newline (c ∷ []) = refl
strip_newline-newline (c ∷ d ∷ l) = ap (◌∷◌ c) (strip_newline-newline (d ∷ l))

load_loop-unlines :
    (left : ℕ) (ls : List (List ℕ))
    → length ls ≤ left
    → All IsLine ls
    → load_loop left (unlines ls) ≡ map new_task ls
unfolding load_loop
load_loop-unlines zero [] h a = refl
load_loop-unlines zero (l ∷ ls) h a = absurd (omega arith)
load_loop-unlines (suc left) [] h a = refl
load_loop-unlines (suc left) (l ∷ ls) h a =
    rw
      (
        fgets-cons 50 l (unlines ls),
        read_line-newline 49 l (unlines ls) (omega arith) a.0.1,
        load_loop,
      )
      (rw (c_str-newline l a.0.1, strip_newline-newline l)
        (ap (◌∷◌ (new_task l)) (load_loop-unlines left ls (omega arith) a.1)))

-- A file of at most 100 lines of at most 48 characters gives one new task for each line, in order.
pub load_tasks-unlines :
    (ls : List (List ℕ))
    → length ls ≤ max_tasks
    → All IsLine ls
    → load_tasks (some (unlines ls)) ≡ some (map new_task ls)
unfolding load_tasks
load_tasks-unlines ls h a = ap some (load_loop-unlines max_tasks ls h a)

load_loop_new :
    (left : ℕ) (file : List ℕ)
    → (length (load_loop left file) ≤ left) × All (λ t. is_pending t ≡ false) (load_loop left file)
unfolding load_loop fgets
load_loop_new zero file = (omega arith, tt)
load_loop_new (suc left) [] = (omega arith, tt)
load_loop_new (suc left) (c ∷ file) =
    let (line, rest) = read_line 49 (c ∷ file) in
    let later = load_loop_new left (read_line 49 (c ∷ file)).1 in
    (omega (arith, later.0), (refl, later.1))

-- Whatever the file holds, at most 100 tasks are loaded, and nobody holds any of them.
pub load_tasks_new :
    (file : List ℕ) (tasks : List Task)
    → load_tasks (some file) ≡ some tasks
    → (length tasks ≤ max_tasks) × All (λ t. is_pending t ≡ false) tasks
unfolding load_tasks
load_tasks_new file tasks e =
    subst (λ q. (length q ≤ max_tasks) × All (λ t. is_pending t ≡ false) q) (some-injective _ _ e)
      (load_loop_new max_tasks file)
