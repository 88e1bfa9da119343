-- ===== src/Create/Failure.antt =====
-- What a creation that fails leaves behind, and what one that succeeds adds.
use microthread.Base.{
  ℕ, ◌+◌, ◌≤◌, ◌<◌, ◌≡◌, refl, ap, ◌∙◌, inl, inr, Bool, true, false, none, some, List, [], ◌∷◌,
  ◌++◌, arith, ◌==◌, if◌then◌else◌, erase, eq→==, Option-cases,
}
use microthread.State.{Ptr, word_mod, Code, is_ok, Task, Handle, Runtime}
use microthread.Transitions.{set_task}
use microthread.Stack.{default_size, Mapping, Stack, stack_free}
use microthread.Stack.Bounds.{Allocated, given, refused, stack_alloc-Allocated}
use microthread.Create.{
  Held, Supply, World, Created, created, failed, zero_task, make_handle, link_handle, fill_task,
  create_on, create_stacked, create_with, handed_out, create_task,
}
use microthread.Create.Undone.{
  IsUndone, IsLaunched, HasHandle, drop-IsUndone, fill_task_frame, unlink_frame, unlink_handle,
  fill_task_task, fill_task_handle, launch_lem,
}

-- What a creation does, by its result.
pub data Outcome (before : World) (handle : Ptr) : Created × World → Type 0 where
  undone :
      {rc : Code} {after : World} → IsUndone before after → Outcome before handle (failed rc, after)
  launched :
      {id t : ℕ} {after : World}
      → IsLaunched before after id t handle
      → Outcome before handle (created id, after)

module _ (before : World) (rt : Runtime) (held : Held) (handle : Ptr)
    (k : HasHandle before (rt, held) handle) (t : ℕ) where
  module _ (stack : Stack) (mappings : List Mapping)
      (freed : (stack_free mappings stack).1 ≡ before.1.mappings) where
    abbrev owned : Held
    owned = record held { task_memory = t ∷ held.task_memory; mappings = mappings }

    -- the context cannot be made
    unmade-IsUndone :
        IsUndone before (create_on false (set_task rt t zero_task, owned) handle t stack).1
    unfolding create_on
    unmade-IsUndone =
        let written = set_task rt t zero_task in
        let f = unlink_frame written t handle in
        let cut = link_handle (fill_task written t handle) handle none in
        let given_back = record owned {
          mappings = (stack_free mappings stack).1;
          task_memory = erase t owned.task_memory;
        } in
        drop-IsUndone before (cut, given_back) handle
          (record {
            runq = f.runq ∙ k.runq;
            all_tasks = f.all_tasks ∙ k.all_tasks;
            live_count = f.live_count ∙ k.live_count;
            signals = f.signals ∙ k.signals;
            handles = f.handles ∙ k.handles;
            task_memory = rw (eq→== t t refl) k.task_memory;
            mappings = freed;
            handle_memory = k.handle_memory;
            no_task = λ h e. (unlink_handle written t h handle e).0;
            no_joiners = λ h e. (unlink_handle written t h handle e).1 ∙ k.no_joiners h e;
          })

    made-IsLaunched :
        IsLaunched before
          (create_on true (set_task rt t zero_task, owned) handle t stack).1
          rt.next_id
          t
          handle
    unfolding create_on
    made-IsLaunched =
        let written = set_task rt t zero_task in
        let made = fill_task written t handle in
        let f = fill_task_frame written t handle in
        let (queued, listed, counted, tasks, handles) = launch_lem made t in
        record {
          runq = queued ∙ ap (λ (xs : List ℕ). xs ++ t ∷ []) (f.runq ∙ k.runq);
          all_tasks = listed ∙ ap (λ (xs : List ℕ). t ∷ xs) (f.all_tasks ∙ k.all_tasks);
          live_count = counted ∙ ap (λ n. n + 1) (f.live_count ∙ k.live_count);
          task = ap (λ (g : ℕ → Task). g t) tasks ∙ fill_task_task written t handle;
          linked = λ h e.
              ap (λ (g : ℕ → Handle). (g h).task) handles ∙ fill_task_handle written t h handle e;
          owned = ap (λ (xs : List ℕ). t ∷ xs) k.task_memory;
        }

    on-Outcome :
        (context : Bool)
        → Outcome before handle (create_on context (set_task rt t zero_task, owned) handle t stack)
    unfolding create_on
    on-Outcome true = launched made-IsLaunched
    on-Outcome false = undone unmade-IsUndone

  stacked-Outcome :
      (context : Bool) {page size : ℕ} {result : (Code × Stack) × List Mapping}
      → Allocated page size held.mappings result
      → Outcome before handle (create_stacked context (rt, held) handle t result)
  unfolding create_stacked is_ok
  stacked-Outcome context (given {s = s} {after = after} fine freed) =
      on-Outcome s after (freed ∙ k.mappings) context
  stacked-Outcome context (refused {rc = rc} {s = s} bad) =
      simp (create_stacked, bad) (undone (drop-IsUndone before (rt, held) handle k))

module _ (os : Supply) (stack_size : ℕ) (before : World) where
  abbrev wanted : ℕ
  wanted =
      let size = if stack_size == 0 then before.0.default_stack_size else stack_size in
      if size == 0 then default_size else size

  module _ (pos : 0 < os.page) (fits : wanted + (os.page + os.page) ≤ word_mod) where
    with-Outcome :
        (w : World) (handle : Ptr)
        → w.0.default_stack_size ≡ before.0.default_stack_size
        → HasHandle before w handle
        → Outcome before handle (create_with os w handle stack_size)
    unfolding create_with
    with-Outcome (rt, held) handle same k = elim (Option-cases os.new_task) [
      | inl e ↦ simp (create_with, e) (undone (drop-IsUndone before (rt, held) handle k))
      | inr (t, e) ↦
          let size = if stack_size == 0 then rt.default_stack_size else stack_size in
          simp (create_with, e)
            (stacked-Outcome before rt held handle k t os.context (
              stack_alloc-Allocated os.page os.mmap os.protects held.mappings size pos
                (rw same fits)))
    ]

    kept : HasHandle before before none
    kept = record {
      runq = refl;
      all_tasks = refl;
      live_count = refl;
      signals = refl;
      handles = refl;
      task_memory = refl;
      mappings = refl;
      handle_memory = refl;
      no_task = λ h e. cc;
      no_joiners = λ h e. cc;
    }

    made : (h : ℕ) → HasHandle before (make_handle before h) (some h)
    unfolding make_handle
    made h = record {
      runq = refl;
      all_tasks = refl;
      live_count = refl;
      signals = refl;
      handles = refl;
      task_memory = refl;
      mappings = refl;
      handle_memory = refl;
      no_task = λ g e. ground (arith, e);
      no_joiners = λ g e. ground (arith, e);
    }

    -- the caller has the handle of a success only
    handed-Outcome :
        (handle : Ptr) {result : Created} {after : World}
        → Outcome before handle (result, after)
        → Outcome before (handed_out result handle) (result, after)
    handed-Outcome handle (undone u) = undone u
    handed-Outcome handle (launched l) = launched l

    -- Where the page size is positive and the size of the stack leaves room for two pages in a
    -- `size_t`, a creation that returns an error, for want of a function, of memory, of a mapping, of
    -- the guard page or of the context, has given back all that it took, and left the run queue, the
    -- registries, the count of live tasks and the signals as they were; one that returns an
    -- identifier has put the new task last in the run queue and in the registry, with that identifier
    -- and linked with its handle.
    pub create_task-Outcome :
        (fn : Ptr) (want_handle : Bool)
        → let ((result, handle), after) = create_task os before fn stack_size want_handle in
          Outcome before handle (result, after)
    unfolding create_task
    create_task-Outcome none want_handle = undone (drop-IsUndone before before none kept)
    create_task-Outcome (some fn) false = with-Outcome before none refl kept
    create_task-Outcome (some fn) true = elim (Option-cases os.new_handle) [
      | inl e ↦ simp (create_task, e) (undone (drop-IsUndone before before none kept))
      | inr (h, e) ↦
          simp (create_task, e)
            (handed-Outcome (some h) (with-Outcome (make_handle before h) (some h) refl (made h)))
    ]
