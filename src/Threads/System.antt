-- ===== src/Threads/System.antt =====
-- The loading and the removal of studios/studio8/core_thread.c and core_thread_atomic.c, with the
-- threads: each step is one access to what they share. `atomic` tells the two programs apart: with it
-- `shared_data` is raised by `atomic_add`, without it by a load and a store, and the removal looks for
-- error pointers. `iters` is a parameter. `kthread_bind` and `printk` change nothing here, nor does a
-- thread that finds no request to stop and goes on waiting.
use cse422_archive.Base.{
  ℕ, ◌+◌, ◌%◌, ◌^◌, ◌≤◌, ◌<◌, ◌≡◌, ◌≢◌, Bool, true, false, if◌then◌else◌, update,
}
use cse422_archive.Threads.State.{
  woken, halted, uses_entry, clear, test, create, check, wake, bind, next, put, finish, loaded,
  exit_test, exit_check, stop, join, exit_next, exit_put, removed, crashed, unborn, begin,
  compare_i, add, store_sum, load_i, store_i, idle, ended, null_task, error_task, task, Module,
}

module _ (atomic : Bool) (iters : ℕ) where
  pub data Step (y : Module) : Module → Type 0 where
    init_clear : y.main ≡ clear → Step y (record y { i = 0; main = test })
    init_enter : y.main ≡ test → y.i < 4 → Step y (record y { main = create })
    init_leave : y.main ≡ test → 4 ≤ y.i → Step y (record y { main = finish })
    create_done :
        y.main ≡ create
        → y.i < 4
        → Step y (record y {
          tasks = update y.tasks y.i (task y.created);
          created = y.created + 1;
          main = check;
        })
    create_failed :
        y.main ≡ create
        → y.i < 4
        → Step y (record y { tasks = update y.tasks y.i error_task; main = check })
    check_task :
        y.main ≡ check → y.i < 4 → y.tasks y.i ≢ error_task → Step y (record y { main = wake })
    check_error :
        y.main ≡ check → y.i < 4 → y.tasks y.i ≡ error_task → Step y (record y { main = next })
    wake_task :
        {t : ℕ}
        → y.main ≡ wake
        → y.i < 4
        → y.tasks y.i ≡ task t
        → Step y (record y { threads = update y.threads t (woken (y.threads t)); main = bind })
    wake_other :
        y.main ≡ wake
        → y.i < 4
        → ((t : ℕ) → y.tasks y.i ≢ task t)
        → Step y (record y { main = crashed })
    bind_task :
        {t : ℕ} → y.main ≡ bind → y.i < 4 → y.tasks y.i ≡ task t → Step y (record y { main = next })
    bind_other :
        y.main ≡ bind
        → y.i < 4
        → ((t : ℕ) → y.tasks y.i ≢ task t)
        → Step y (record y { main = crashed })
    past_entries :
        uses_entry y.main ≡ true → 4 ≤ y.i → Step y (record y { overflowed = true; main = crashed })
    init_next : y.main ≡ next → Step y (record y { main = put y.i })
    init_put : {r : ℕ} → y.main ≡ put r → Step y (record y { i = r + 1; main = test })
    init_finish :
        y.main ≡ finish
        → Step y (record y {
          shared_data = (if atomic then 0 else y.shared_data);
          increments = (if atomic then 0 else y.increments);
          main = loaded;
        })
    exit_clear : y.main ≡ loaded → Step y (record y { i = 0; main = exit_test })
    exit_enter :
        y.main ≡ exit_test
        → y.i < 4
        → Step y (record y { main = (if atomic then exit_check else stop) })
    exit_leave : y.main ≡ exit_test → 4 ≤ y.i → Step y (record y { main = removed })
    exit_check_task :
        y.main ≡ exit_check → y.i < 4 → y.tasks y.i ≢ error_task → Step y (record y { main = stop })
    exit_check_error :
        y.main ≡ exit_check
        → y.i < 4
        → y.tasks y.i ≡ error_task
        → Step y (record y { main = exit_next })
    stop_task :
        {t : ℕ}
        → y.main ≡ stop
        → y.i < 4
        → y.tasks y.i ≡ task t
        → y.should_stop t ≡ false
        → Step y (record y {
          threads = update y.threads t (halted (y.threads t));
          should_stop = update y.should_stop t true;
          main = join t;
        })
    stop_again :
        {t : ℕ}
        → y.main ≡ stop
        → y.i < 4
        → y.tasks y.i ≡ task t
        → y.should_stop t ≡ true
        → Step y (record y { main = crashed })
    stop_other :
        y.main ≡ stop
        → y.i < 4
        → ((t : ℕ) → y.tasks y.i ≢ task t)
        → Step y (record y { main = crashed })
    joined :
        {t : ℕ} → y.main ≡ join t → y.threads t ≡ ended → Step y (record y { main = exit_next })
    exit_load : y.main ≡ exit_next → Step y (record y { main = exit_put y.i })
    exit_store : {r : ℕ} → y.main ≡ exit_put r → Step y (record y { i = r + 1; main = exit_test })
    thread_begin :
        (t : ℕ)
        → y.threads t ≡ begin
        → Step y (record y { i = 0; threads = update y.threads t compare_i })
    thread_skip :
        (t : ℕ)
        → y.threads t ≡ begin
        → y.should_stop t ≡ true
        → Step y (record y { threads = update y.threads t ended })
    thread_enter :
        (t : ℕ)
        → y.threads t ≡ compare_i
        → y.i < iters
        → Step y (record y { threads = update y.threads t add })
    thread_leave :
        (t : ℕ)
        → y.threads t ≡ compare_i
        → iters ≤ y.i
        → Step y (record y { threads = update y.threads t idle })
    add_at_once :
        (t : ℕ)
        → atomic ≡ true
        → y.threads t ≡ add
        → Step y (record y {
          shared_data = (y.shared_data + 1) % 2 ^ 32;
          increments = y.increments + 1;
          threads = update y.threads t load_i;
        })
    add_load :
        (t : ℕ)
        → atomic ≡ false
        → y.threads t ≡ add
        → Step y (record y { threads = update y.threads t (store_sum y.shared_data) })
    add_store :
        (t : ℕ) {r : ℕ}
        → y.threads t ≡ store_sum r
        → Step y (record y {
          shared_data = (r + 1) % 2 ^ 32;
          increments = y.increments + 1;
          threads = update y.threads t load_i;
        })
    thread_load :
        (t : ℕ)
        → y.threads t ≡ load_i
        → Step y (record y { threads = update y.threads t (store_i y.i) })
    thread_store :
        (t : ℕ) {r : ℕ}
        → y.threads t ≡ store_i r
        → Step y (record y { i = r + 1; threads = update y.threads t compare_i })
    thread_end :
        (t : ℕ)
        → y.threads t ≡ idle
        → y.should_stop t ≡ true
        → Step y (record y { threads = update y.threads t ended })

  pub data Reach : Module → Type 0 where
    start : Reach (record {
      i = 0;
      shared_data = 0;
      increments = 0;
      tasks = λ _. null_task;
      created = 0;
      overflowed = false;
      main = clear;
      threads = λ _. unborn;
      should_stop = λ _. false;
    })
    later : {y z : Module} → Reach y → Step y z → Reach z
