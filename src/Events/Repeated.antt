-- ===== src/Events/Repeated.antt =====
-- Events are asked again and again.
use coin_data.Prelude.{ℕ, ◌≡◌, refl, Bool, true, List, [], ◌∷◌, ◌++◌, arith}
use coin_data.Events.{EventPool, push_event, due_tasks, spin_once}

due_tasks-append :
    (says : ℕ → Bool) (xs ys : List (ℕ × ℕ))
    → due_tasks says (xs ++ ys) ≡ due_tasks says xs ++ due_tasks says ys
unfolding due_tasks
due_tasks-append says [] ys = refl
due_tasks-append says ((event, task) ∷ xs) ys = ground (arith, due_tasks-append says xs ys)

-- An event whose condition stays true has its task made ready in every turn, behind the tasks of the
-- events that were pushed before it.
pub spin_once-push_event :
    (says : ℕ → Bool) (event task : ℕ) (e : EventPool)
    → says event ≡ true
    → (spin_once says (spin_once says (push_event event task e))).ready_task_deque ≡ (
        (e.ready_task_deque ++ (due_tasks says e.event_deque ++ task ∷ []))
        ++ (due_tasks says e.event_deque ++ task ∷ []))
unfolding spin_once push_event due_tasks
spin_once-push_event says event task e h =
    ground (arith, h, due_tasks-append says e.event_deque ((event, task) ∷ []))
