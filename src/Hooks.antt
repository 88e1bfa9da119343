-- ===== src/Hooks.antt =====
-- src/testing_hooks.c: the allocators of the test build, with the failures that a test asks for and the
-- counters of what was taken and given back, and the counters that a debugger reads. What the
-- allocator of the C library gives is an argument. The build without tests has the same allocators with
-- no failures and no counters.
pub mod Balance
use microthread.Base.{
  ℕ, ◌+◌, ◌%◌, ◌==◌, Bool, true, false, Option, none, some, if◌then◌else◌, length,
}
use microthread.State.{Ptr, word_mod, Runtime}

-- What can be made to fail: `fails` has the flags g_fail_next_*.
pub data Fault : Type 0 where
  fail_task fail_stack fail_context fail_timer fail_clock fail_channel fail_buffer : Fault
  fail_handle fail_select fail_fd_waiter fail_init fail_register fail_unregister : Fault

-- what is counted: `allocs` and `frees` have the counters g_*_allocs and g_*_frees
pub data Resource : Type 0 where
  task timer channel channel_buffer handle select_waiter fd_waiter : Resource

abbrev pub fault_number : Fault → ℕ
fault_number fail_task = 0
fault_number fail_stack = 1
fault_number fail_context = 2
fault_number fail_timer = 3
fault_number fail_clock = 4
fault_number fail_channel = 5
fault_number fail_buffer = 6
fault_number fail_handle = 7
fault_number fail_select = 8
fault_number fail_fd_waiter = 9
fault_number fail_init = 10
fault_number fail_register = 11
fault_number fail_unregister = 12

abbrev pub resource_number : Resource → ℕ
resource_number task = 0
resource_number timer = 1
resource_number channel = 2
resource_number channel_buffer = 3
resource_number handle = 4
resource_number select_waiter = 5
resource_number fd_waiter = 6

-- the failure that stops the allocation of a resource
abbrev pub fault_of : Resource → Fault
fault_of task = fail_task
fault_of timer = fail_timer
fault_of channel = fail_channel
fault_of channel_buffer = fail_buffer
fault_of handle = fail_handle
fault_of select_waiter = fail_select
fault_of fd_waiter = fail_fd_waiter

pub record Hooks : Type 0 where
  pub fails : Fault → Bool
  pub allocs : Resource → ℕ
  pub frees : Resource → ℕ

-- `flag = v`
unfoldable pub set_fault : Hooks → Fault → Bool → Hooks
set_fault h f v = record h {
  fails = λ g. if fault_number f == fault_number g then v else h.fails g;
}

-- MT_TEST_COUNTER_INC
abbrev pub counter_inc : (Resource → ℕ) → Resource → Resource → ℕ
counter_inc counter r s =
    if resource_number r == resource_number s then (counter s + 1) % word_mod else counter s

-- the shape of the allocators: `memory` is what the allocator of the C library gives
unfoldable pub hooked_alloc : Resource → Hooks → Ptr → Ptr × Hooks
unfolding set_fault
hooked_alloc r h memory =
    let counted = record h { allocs = counter_inc h.allocs r } in
    let taken : Ptr × Hooks = elim memory [ none ↦ (none, h) | some p ↦ (some p, counted) ] in
    if h.fails (fault_of r) then (none, set_fault h (fault_of r) false) else taken

-- the shape of the releases
unfoldable pub hooked_free : Resource → Hooks → Ptr → Hooks
hooked_free r h none = h
hooked_free r h (some p) = record h { frees = counter_inc h.frees r }

abbrev pub alloc_task_memory : Hooks → Ptr → Ptr × Hooks
alloc_task_memory h memory = hooked_alloc task h memory

abbrev pub free_task_memory : Hooks → Ptr → Hooks
free_task_memory h p = hooked_free task h p

abbrev pub alloc_timer_memory : Hooks → Ptr → Ptr × Hooks
alloc_timer_memory h memory = hooked_alloc timer h memory

-- mt_realloc_timer_memory counts an allocation only where there was no array
unfoldable pub realloc_timer_memory : Hooks → Ptr → Ptr → Ptr × Hooks
unfolding hooked_alloc set_fault
realloc_timer_memory h none memory = hooked_alloc timer h memory
realloc_timer_memory h (some p) memory =
    if h.fails fail_timer then (none, set_fault h fail_timer false) else (memory, h)

abbrev pub free_timer_memory : Hooks → Ptr → Hooks
free_timer_memory h p = hooked_free timer h p

abbrev pub alloc_channel_memory : Hooks → Ptr → Ptr × Hooks
alloc_channel_memory h memory = hooked_alloc channel h memory

abbrev pub free_channel_memory : Hooks → Ptr → Hooks
free_channel_memory h p = hooked_free channel h p

abbrev pub alloc_channel_buffer : Hooks → Ptr → Ptr × Hooks
alloc_channel_buffer h memory = hooked_alloc channel_buffer h memory

abbrev pub free_channel_buffer : Hooks → Ptr → Hooks
free_channel_buffer h p = hooked_free channel_buffer h p

abbrev pub alloc_handle_memory : Hooks → Ptr → Ptr × Hooks
alloc_handle_memory h memory = hooked_alloc handle h memory

abbrev pub free_handle_memory : Hooks → Ptr → Hooks
free_handle_memory h p = hooked_free handle h p

abbrev pub alloc_select_waiter : Hooks → Ptr → Ptr × Hooks
alloc_select_waiter h memory = hooked_alloc select_waiter h memory

abbrev pub free_select_waiter : Hooks → Ptr → Hooks
free_select_waiter h p = hooked_free select_waiter h p

abbrev pub alloc_fd_waiter : Hooks → Ptr → Ptr × Hooks
alloc_fd_waiter h memory = hooked_alloc fd_waiter h memory

abbrev pub free_fd_waiter : Hooks → Ptr → Hooks
free_fd_waiter h p = hooked_free fd_waiter h p

-- mt_make_context: whether it works; `made` is what mt_ctx_make gives
unfoldable pub make_context : Hooks → Bool → Bool × Hooks
unfolding set_fault
make_context h made =
    if h.fails fail_context then (false, set_fault h fail_context false) else (made, h)

-- mt_test_fail_next_task_alloc and the others
abbrev pub fail_next : Fault → Hooks → Hooks
fail_next f h = set_fault h f true

unfoldable pub reset_faults : Hooks → Hooks
reset_faults h = record h { fails = λ f. false }

-- what a call for the counters stores through its pointers, where they are not NULL
unfoldable pub stored_counter : Bool → ℕ → Option ℕ
stored_counter wanted n = if wanted then some n else none

abbrev pub handle_memory_counters : Hooks → Bool → Bool → Option ℕ × Option ℕ
handle_memory_counters h allocs frees =
    (stored_counter allocs (h.allocs handle), stored_counter frees (h.frees handle))

abbrev pub select_memory_counters : Hooks → Bool → Bool → Option ℕ × Option ℕ
select_memory_counters h allocs frees =
    (stored_counter allocs (h.allocs select_waiter), stored_counter frees (h.frees select_waiter))

abbrev pub channel_memory_counters :
    Hooks → Bool → Bool → Bool → Bool → Option ℕ × Option ℕ × Option ℕ × Option ℕ
channel_memory_counters h allocs frees buffer_allocs buffer_frees = (
  stored_counter allocs (h.allocs channel),
  stored_counter frees (h.frees channel),
  stored_counter buffer_allocs (h.allocs channel_buffer),
  stored_counter buffer_frees (h.frees channel_buffer),
)

abbrev pub debug_runnable_count : Runtime → ℕ
debug_runnable_count rt = length rt.runq

abbrev pub debug_live_task_count : Runtime → ℕ
debug_live_task_count rt = rt.live_count

abbrev pub debug_completed_task_count : Runtime → ℕ
debug_completed_task_count rt = rt.completed_count

abbrev pub debug_sleeping_task_count : Runtime → ℕ
debug_sleeping_task_count rt = length rt.timers.items

abbrev pub debug_channel_waiting_task_count : Runtime → ℕ
debug_channel_waiting_task_count rt = rt.channel_waiting_count

abbrev pub debug_join_waiting_task_count : Runtime → ℕ
debug_join_waiting_task_count rt = rt.join_waiting_count

abbrev pub debug_fd_waiting_task_count : Runtime → ℕ
debug_fd_waiting_task_count rt = rt.fd_waiting_count

unfoldable pub debug_current_task_id : Runtime → ℕ
debug_current_task_id rt = elim rt.current [ none ↦ 0 | some t ↦ (rt.task t).id ]
