-- ===== src/Tests/Readers.antt =====
-- Witness for the queue with several readers: two tasks find it empty and sleep, three values come.
use rex_sm.Base.{ℕ, zero, suc, ◌≡◌, refl, inr, false, List, [], ◌∷◌, get_elem?}
use rex_sm.Queue.Deque.{stream}
use rex_sm.Queue.Order.{front, back}
use rex_sm.Queue.Readers.{Readers, Event, pushes, polls, awake, times, sleeping, run, IsServed}
use rex_sm.Queue.Served.{run_all-IsServed}

abbrev two_tasks : Readers ℕ
two_tasks = record {
  queue = record {
    front_values = [];
    back_values = [];
    rx_notifiers = [];
    runtime = record { flags = []; woken = [] };
  };
  receivers = λ k. stream;
  asleep = false ∷ false ∷ [];
}

none_sleeps : (k : ℕ) → 0 ≡ sleeping (get_elem? two_tasks.asleep k)
unfolding sleeping
none_sleeps zero = refl
none_sleeps (suc zero) = refl
none_sleeps (suc (suc k)) = refl

two_tasks-IsServed : IsServed two_tasks
unfolding awake times
two_tasks-IsServed = record { registered = none_sleeps; enough = inr refl }

abbrev busy : List (Event ℕ)
busy =
    polls 0
    ∷ polls 1
    ∷ pushes back 7
    ∷ pushes front 8
    ∷ polls 1
    ∷ pushes back 9
    ∷ polls 1
    ∷ polls 0
    ∷ []

run_all-IsServed_example : IsServed (run two_tasks busy)
run_all-IsServed_example = run_all-IsServed two_tasks busy two_tasks-IsServed
