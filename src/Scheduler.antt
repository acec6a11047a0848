-- ===== src/Scheduler.antt =====
-- src/_scheduler.cpp, src/_context.cpp and the constructor and destructor of src/_thread.cpp.
-- `none` stands for the use of a null pointer.
pub mod Dispatch
use oskernel_riscv.Base.{
  ℕ, ◌+◌, ◌-◌, ◌*◌, ◌%◌, ◌^◌, Bool, true, false, not, ◌&&◌, ◌||◌, Option, none, some, List, [], ◌∷◌,
  ◌++◌, ◌==◌, if◌then◌else◌, ◌>>=◌,
}
use oskernel_riscv.Base.Int.{ℤ, pos, negsuc}
use oskernel_riscv.Queue.{add_last, remove_first, remove_spec, foreach_while}
use oskernel_riscv.State.{
  ThreadState, Resume, Thread, Kernel, running, ready, suspended, finished, started, non_waiting,
  thread_magic_number, thread_dump_magic_number, default_time_slice, default_stack_size, inc64,
  dec64, put_thread, is_thread_valid, is_finished, ready_to_run, set_finished, update,
}

-- `Scheduler::put`, when there is a free block for the element
unfoldable pub put : ℕ → Kernel → Kernel
put p k = record k { queue_threads = add_last k.queue_threads p }

-- `Scheduler::get`
unfoldable pub get : Kernel → ℕ × Kernel
get k = let (p, rest) = remove_first k.queue_threads in (p, record k { queue_threads = rest })

-- `_memoryAllocator::_kmfree` of an object or a stack.
abbrev pub free : ℕ → Kernel → Kernel
free p k = record k { freed = k.freed ++ p ∷ [] }

-- `disableThread`, the destructor's work, and `delete thr`
unfoldable pub disable_thread : ℕ → Kernel → Kernel
disable_thread p k =
    if is_thread_valid k p
    then free (k.threads p).stack
        (put_thread k p (record (k.threads p) { my_magic_number = thread_dump_magic_number }))
    else k

unfoldable pub delete_thread : ℕ → Kernel → Kernel
delete_thread p k = free p (disable_thread p k)

-- `threadDEAD` and `deleteThread_inDispatch`
unfoldable pub thread_dead : Kernel → ℕ → Bool
thread_dead k p = (p == 0) || not (is_thread_valid k p) || is_finished k p

unfoldable pub delete_thread_in_dispatch : Kernel → ℕ → Kernel
delete_thread_in_dispatch k p =
    if p == 0
    then k
    else (let (found, rest) = remove_spec p k.queue_threads in
        let k' = record k { queue_threads = rest } in
        if found && is_thread_valid k' p && is_finished k' p then delete_thread p k' else k')

-- The thread that gives the processor up: back to the queue if it can run, deleted if it is finished.
unfoldable pub retire : ℕ → Kernel → Kernel
retire old k₀ =
    let k = record k₀ { cpu_time = 0 } in
    let k₁ =
      if ready_to_run k old
      then put old (put_thread k old (record (k.threads old) { thread_state = ready }))
      else k in
    if is_finished k₁ old then delete_thread old k₁ else k₁

-- `foreachWhile(deleteThread_inDispatch, nullptr, threadDEAD, nullptr)` on the ready queue
unfoldable pub bury : Kernel → Kernel
bury k = foreach_while thread_dead delete_thread_in_dispatch k.queue_threads k

-- `running = get(); running->threadState = RUNNING`, and the switch of contexts: the old thread goes
-- on later at `c`. Its memory may be freed already; nothing else uses it before the switch.
unfoldable pub elect : Resume → ℕ → Kernel → Option Kernel
elect c old k =
    let (p, k₁) = get k in
    let k₂ = put_thread k₁ p (record (k₁.threads p) { thread_state = running }) in
    if p == 0
    then none
    else some (record k₂ {
      current = p;
      threads = update k₂.threads old (record (k₂.threads old) { context = c });
    })

-- `_context::dispatch`, up to where the new thread goes on.
unfoldable pub dispatch : Resume → Kernel → Option Kernel
dispatch c k = elect c k.current (bury (retire k.current k))

-- `_context::exit`, up to the switch.
unfoldable pub exit : Resume → Kernel → Option Kernel
exit c k =
    let parent = (k.threads k.current).parent_thread in
    let k₁ =
      if parent == 0
      then k
      else put_thread k parent (record (k.threads parent) {
        num_of_children = dec64 (k.threads parent).num_of_children;
      }) in
    dispatch c (set_finished k₁.current k₁)

-- `_context::subtleKill`
unfoldable pub subtle_kill : ℕ → Kernel → ℤ × Kernel
subtle_kill p k =
    if (p == 0) || not (is_thread_valid k p)
    then (negsuc 9, k)
    else if k.current == 0
    then (negsuc 0, k)
    else if not (k.current == (k.threads p).parent_thread)
    then (negsuc 1, k)
    else if k.current == p
    then (negsuc 2, k)
    else (pos 0, set_finished p k)

-- The initialisers of `_thread::_thread`; `0` stands for the fields that the constructor sets later.
abbrev pub new_thread : ℕ → ℕ → ℕ → ℕ → Thread
new_thread body arg stack_space parent = record {
  body = body;
  arg = arg;
  stack = if stack_space == 0 then 0 else (stack_space + 2 ^ 64 - default_stack_size) % 2 ^ 64;
  context = started;
  time_slice = default_time_slice;
  thread_state = ready;
  my_id = 0;
  my_magic_number = 0;
  parent_thread = parent;
  num_of_children = 0;
  sem_status = non_waiting;
  my_sem = 0;
  time_for_waking_up = 0;
}

-- The steps of the constructor's body: into the ready queue, but for main; one more child for the parent;
-- the first thread takes the processor; the number and the magic number; the count of system threads.
unfoldable pub enlist : ℕ → ℕ → Kernel → Kernel
enlist p body k = if body == 0 then k else put p k

unfoldable pub adopt : ℕ → Kernel → Kernel
adopt parent k =
    if parent == 0
    then k
    else put_thread k parent
        (record (k.threads parent) { num_of_children = inc64 (k.threads parent).num_of_children })

unfoldable pub take_seat : ℕ → ℕ → Kernel → Kernel
take_seat p body k =
    if (k.current == 0) && (body == 0)
    then record (put_thread k p (record (k.threads p) { thread_state = running })) { current = p }
    else k

unfoldable pub number : ℕ → Kernel → Kernel
number p k =
    record (put_thread k p
      (record (k.threads p) { my_id = inc64 k.last_id; my_magic_number = thread_magic_number })) {
        last_id = inc64 k.last_id;
      }

unfoldable pub count_system : ℕ → ℕ → Kernel → Kernel
count_system parent body k =
    if (body == 0) || (not (parent == 0) && ((k.threads parent).body == 0))
    then record k { num_of_system_threads = inc64 k.num_of_system_threads }
    else k

-- `_thread::_thread` at the address `p` that `operator new` gave.
unfoldable pub construct_thread : ℕ → ℕ → ℕ → ℕ → Kernel → Kernel
construct_thread p body arg stack_space k =
    let k₁ = put_thread k p (new_thread body arg stack_space k.current) in
    count_system k.current body (number p (take_seat p body (adopt k.current (enlist p body k₁))))
