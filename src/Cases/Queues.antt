-- ===== src/Cases/Queues.antt =====
-- src/queue.rs, `mod tests`. An i32 of the test is a natural number or the opposite of one; the
-- schedule says which of the two tasks pushes next.
use rex_sm.Base.{ℕ, zero, suc, Bool, true, false, ◌&&◌, List, [], ◌∷◌, ◌++◌, natb}
use rex_sm.Queue.Deque.{
  StreamableDeque, StreamReceiver, stream, poll_next, Poll, ready, pending, push_front, push_back,
}
use rex_sm.Queue.Deque

pub data Int32 : Type 0 where
  nonneg neg : ℕ → Int32

unfoldable pub same_int : Int32 → Int32 → Bool
same_int (nonneg m) (nonneg n) = natb m n
same_int (neg m) (neg n) = natb m n
same_int (nonneg m) (neg n) = false
same_int (neg m) (nonneg n) = false

-- `0..=n` and `-n..=-1` from `i` on
unfoldable pub count_up : ℕ → ℕ → List Int32
count_up i zero = []
count_up i (suc k) = nonneg i ∷ count_up (suc i) k

unfoldable pub count_to_minus_one : ℕ → List Int32
count_to_minus_one zero = []
count_to_minus_one (suc k) = neg (suc k) ∷ count_to_minus_one k

-- The two tasks by a schedule, in which `true` is a turn of the first; then both to their ends.
unfoldable pub push_all_back : List Int32 → StreamableDeque Int32 → StreamableDeque Int32
push_all_back [] q = q
push_all_back (i ∷ is) q = push_all_back is (push_back q i)

unfoldable pub push_all_front : List Int32 → StreamableDeque Int32 → StreamableDeque Int32
push_all_front [] q = q
push_all_front (i ∷ is) q = push_all_front is (push_front q i)

unfoldable pub pushed :
    List Bool → List Int32 → List Int32 → StreamableDeque Int32 → StreamableDeque Int32
unfolding push_all_back push_all_front
pushed [] pos negs q = push_all_front negs (push_all_back pos q)
pushed (turn ∷ turns) [] negs q = push_all_front negs q
pushed (turn ∷ turns) pos [] q = push_all_back pos q
pushed (true ∷ turns) (i ∷ pos) (j ∷ negs) q = pushed turns pos (j ∷ negs) (push_back q i)
pushed (false ∷ turns) (i ∷ pos) (j ∷ negs) q = pushed turns (i ∷ pos) negs (push_front q j)

-- the reads of the stream, by the task 0, up to the first in which it waits
unfoldable pub reads : ℕ → StreamableDeque Int32 → StreamReceiver → List Int32
reads zero q r = []
reads (suc k) q r =
    let (q', r', poll) = poll_next q r 0 in
    let rest = reads k q' r' in elim poll [ ready v ↦ v ∷ rest | pending ↦ [] ]

unfoldable pub same_ints : List Int32 → List Int32 → Bool
unfolding same_int
same_ints [] [] = true
same_ints [] (j ∷ js) = false
same_ints (i ∷ is) [] = false
same_ints (i ∷ is) (j ∷ js) = same_int i j && same_ints is js

unfoldable pub streamable_deque : List Bool → Bool
unfolding count_up count_to_minus_one pushed reads same_ints
streamable_deque schedule =
    let queue =
      pushed schedule (count_up 0 11) (count_to_minus_one 10)
        (Deque.new (record { flags = []; woken = [] })) in
    same_ints (count_to_minus_one 10 ++ count_up 0 11) (reads 21 queue stream)
