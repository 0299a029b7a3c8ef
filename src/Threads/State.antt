-- ===== src/Threads/State.antt =====
-- The state of the modules of studios/studio8: where `mod_init`, `mod_exit` and the threads are, and
-- the variables that they share.
use cse422_archive.Base.{ℕ, Bool, true, false}

-- `mod_init`, and from `loaded` on `mod_exit`
pub data Main : Type 0 where
  clear : Main  -- i = 0
  test : Main  -- i < 4
  create : Main  -- arr_taskptr[i] = kthread_create(...)
  check : Main  -- IS_ERR(arr_taskptr[i])
  wake : Main  -- wake_up_process(arr_taskptr[i])
  bind : Main  -- kthread_bind(arr_taskptr[i], i)
  next : Main  -- the load of ++i
  put : (read : ℕ) → Main  -- the store of ++i
  finish : Main  -- atomic_set(&shared_data, 0)
  loaded : Main  -- i = 0
  exit_test : Main  -- i < 4
  exit_check : Main  -- IS_ERR(arr_taskptr[i])
  stop : Main  -- kthread_stop(arr_taskptr[i]): sets the flag and wakes the thread
  join : (t : ℕ) → Main  -- kthread_stop(arr_taskptr[i]): waits for the thread's end
  exit_next : Main  -- the load of ++i
  exit_put : (read : ℕ) → Main  -- the store of ++i
  removed : Main
  crashed : Main

-- `boring_func`
pub data Thread : Type 0 where
  unborn : Thread
  begin : Thread  -- i = 0
  compare_i : Thread  -- i < iters
  add : Thread  -- atomic_add, or the load of shared_data++
  store_sum : (read : ℕ) → Thread  -- the store of shared_data++
  load_i : Thread  -- the load of i++
  store_i : (read : ℕ) → Thread  -- the store of i++
  idle : Thread  -- while (!kthread_should_stop())
  ended : Thread

-- An entry of `arr_taskptr`
pub data Task : Type 0 where
  null_task error_task : Task
  task : ℕ → Task

-- `overflowed` says that an entry past the end of `arr_taskptr` has been accessed; `increments` counts
-- the increments of `shared_data` that have been done, since `atomic_set` where it has run. A task that
-- has been stopped is gone: stopping it again uses freed memory.
pub record Module : Type 0 where
  pub i : ℕ
  pub shared_data : ℕ
  pub increments : ℕ
  pub tasks : ℕ → Task
  pub created : ℕ
  pub overflowed : Bool
  pub main : Main
  pub threads : ℕ → Thread
  pub should_stop : ℕ → Bool

abbrev pub woken : Thread → Thread
woken unborn = begin
woken other = other

-- A thread that is stopped before it is woken ends without running `boring_func`.
abbrev pub halted : Thread → Thread
halted unborn = ended
halted other = other

-- The lines that access `arr_taskptr[i]`.
abbrev pub uses_entry : Main → Bool
uses_entry create = true
uses_entry check = true
uses_entry wake = true
uses_entry bind = true
uses_entry exit_check = true
uses_entry stop = true
uses_entry _ = false
