-- ===== src/Deque/Calls.antt =====
-- src/deque.ts: sequences of calls, on the queue and on a list.
use yasd.Prelude.{ℕ, suc, Option, none, some, List, [], ◌∷◌, ◌++◌, length}
use yasd.Deque.{Deque, push, shift, pop, drain, clear}

-- The methods of a queue, and what they answer.
pub data Op (T : Type 0) : Type 0 where
  push_op : T → Op T
  shift_op : Op T
  pop_op : Op T
  drain_op : Op T
  clear_op : Op T

pub data Reply (T : Type 0) : Type 0 where
  count : ℕ → Reply T
  item : Option T → Reply T
  drained : List T → Reply T
  done : Reply T

module _ {T : Type 0} where
  -- The queue as a list: what each method answers and what is left.
  abbrev pub last_of : T → List T → T
  last_of x [] = x
  last_of x (y ∷ ys) = last_of y ys

  abbrev pub init_of : T → List T → List T
  init_of x [] = []
  init_of x (y ∷ ys) = x ∷ init_of y ys

  -- Each method on the queue of src/deque.ts, and on a list.
  unfoldable pub run_op : Op T → Deque T → Reply T × Deque T
  run_op (push_op x) d = let (n, d') = push x d in (count n, d')
  run_op shift_op d = let (x, d') = shift d in (item x, d')
  run_op pop_op d = let (x, d') = pop d in (item x, d')
  run_op drain_op d = let (xs, d') = drain d in (drained xs, d')
  run_op clear_op d = (done, clear d)

  unfoldable pub list_op : Op T → List T → Reply T × List T
  list_op (push_op x) xs = (count (suc (length xs)), xs ++ x ∷ [])
  list_op shift_op [] = (item none, [])
  list_op shift_op (x ∷ xs) = (item (some x), xs)
  list_op pop_op [] = (item none, [])
  list_op pop_op (x ∷ xs) = (item (some (last_of x xs)), init_of x xs)
  list_op drain_op xs = (drained xs, [])
  list_op clear_op xs = (done, [])

  -- The replies to a sequence of calls.
  unfoldable pub run_all : List (Op T) → Deque T → List (Reply T)
  unfolding run_op
  run_all [] d = []
  run_all (op ∷ ops) d = let (r, d') = run_op op d in r ∷ run_all ops d'

  unfoldable pub list_all : List (Op T) → List T → List (Reply T)
  unfolding list_op
  list_all [] xs = []
  list_all (op ∷ ops) xs = let (r, ys) = list_op op xs in r ∷ list_all ops ys
