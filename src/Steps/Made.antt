-- ===== src/Steps/Made.antt =====
-- The creation of a task touches no channel, and a new channel is stable.
use microthread.Base.{
  ℕ, ◌-◌, ◌/◌, ◌&&◌, ◌||◌, ltb, Bool-cases, ◌≡◌, refl, ◌∙◌, inl, inr, true, false, Bool, Option,
  none, some, List, [], ◌∷◌, arith, ◌==◌, Option-cases, if_both, if◌then◌else◌, erase,
}
use microthread.State.{Ptr, Elem, Code, is_ok, word_mod, Runtime}
use microthread.Transitions.{set_chan, set_task, runq_push, notify}
use microthread.Join.{handle_free_if_possible}
use microthread.Stack.{Mapping, Stack, stack_alloc, stack_free}
use microthread.Chan.Ops.{zeroed, chan_create}
use microthread.Chan.Stable.{AllStable, set_chan-Stable}
use microthread.Create.{
  Supply, World, Created, failed, zero_task, make_handle, drop_handle, link_handle, fill_task,
  launch, create_on, create_stacked, create_with, create_task,
}

chan-drop_handle : (w : World) (handle : Ptr) → (drop_handle w handle).0.chan ≡ w.0.chan
unfolding drop_handle handle_free_if_possible
chan-drop_handle w none = refl
chan-drop_handle w (some h) = ground arith

chan-link_handle :
    (rt : Runtime) (handle target : Ptr) → (link_handle rt handle target).chan ≡ rt.chan
unfolding link_handle
chan-link_handle rt none target = refl
chan-link_handle rt (some h) target = refl

chan-fill_task : (rt : Runtime) (t : ℕ) (handle : Ptr) → (fill_task rt t handle).chan ≡ rt.chan
unfolding fill_task link_handle
chan-fill_task rt t none = refl
chan-fill_task rt t (some h) = refl

chan-launch : (rt : Runtime) (t : ℕ) → (launch rt t).chan ≡ rt.chan
unfolding launch runq_push notify
chan-launch rt t = ground arith

chan-create_on :
    (context : Bool) (w : World) (handle : Ptr) (t : ℕ) (stack : Stack)
    → (create_on context w handle t stack).1.0.chan ≡ w.0.chan
unfolding create_on
chan-create_on true (rt, held) handle t stack =
    chan-launch (fill_task rt t handle) t ∙ chan-fill_task rt t handle
chan-create_on false (rt, held) handle t stack =
    let made = fill_task rt t handle in
    let given_back = record held {
      mappings = (stack_free held.mappings stack).1;
      task_memory = erase t held.task_memory;
    } in
    chan-drop_handle (link_handle made handle none, given_back) handle
    ∙ chan-link_handle made handle none
    ∙ chan-fill_task rt t handle

chan-create_stacked :
    (context : Bool) (w : World) (handle : Ptr) (t : ℕ) (result : (Code × Stack) × List Mapping)
    → (create_stacked context w handle t result).1.0.chan ≡ w.0.chan
unfolding create_stacked
chan-create_stacked context (rt, held) handle t ((rc, stack), mappings) =
    let owned = record held { task_memory = t ∷ held.task_memory; mappings = mappings } in
    let freed = record held { mappings = mappings } in
    if_both (λ (r : Created × World). r.1.0.chan ≡ rt.chan) (is_ok rc)
      {x = create_on context (set_task rt t zero_task, owned) handle t stack}
      {y = (failed rc, drop_handle (rt, freed) handle)}
      (chan-create_on context (set_task rt t zero_task, owned) handle t stack)
      (chan-drop_handle (rt, freed) handle)

chan-create_with :
    (os : Supply) (w : World) (handle : Ptr) (stack_size : ℕ)
    → (create_with os w handle stack_size).1.0.chan ≡ w.0.chan
unfolding create_with
chan-create_with os (rt, held) handle stack_size = elim (Option-cases os.new_task) [
  | inl e ↦ simp (create_with, e) (chan-drop_handle (rt, held) handle)
  | inr (t, e) ↦
      let size = if stack_size == 0 then rt.default_stack_size else stack_size in
      simp (create_with, e)
        (chan-create_stacked os.context (rt, held) handle t
          (stack_alloc os.page os.mmap os.protects held.mappings size))
]

pub chan-create_task :
    (os : Supply) (w : World) (fn : Ptr) (stack_size : ℕ) (want_handle : Bool)
    → (create_task os w fn stack_size want_handle).1.0.chan ≡ w.0.chan
unfolding create_task
chan-create_task os w none stack_size want_handle = refl
chan-create_task os w (some fn) stack_size false = chan-create_with os w none stack_size
chan-create_task os w (some fn) stack_size true = elim (Option-cases os.new_handle) [
  | inl e ↦ simp (create_task, e)
  | inr (h, e) ↦
      simp (create_task, e)
        (unfold make_handle in chan-create_with os (make_handle w h) (some h) stack_size)
]

-- a channel at an address, with whatever its memory holds
made-Stable :
    (rt : Runtime) (c elem_size capacity : ℕ) (buffer : List Elem)
    → AllStable rt
    → AllStable (
        set_chan rt c
          (record zeroed { elem_size = elem_size; capacity = capacity; buffer = buffer }))
made-Stable rt c elem_size capacity buffer s =
    set_chan-Stable rt c
      (record zeroed { elem_size = elem_size; capacity = capacity; buffer = buffer }) (ground arith)
      s

pub create_channel-Stable :
    (address : Ptr) (memory : ℕ → Option (List Elem)) (rt : Runtime) (elem_size capacity : ℕ)
    → AllStable rt
    → AllStable (chan_create address memory rt elem_size capacity).1
unfolding chan_create
create_channel-Stable address memory rt elem_size capacity s =
    elim (Bool-cases
      (elem_size == 0 || ltb 0 capacity && ltb ((word_mod - 1) / capacity) elem_size)) [
        | inl bad ↦ simp (chan_create, bad) s
        | inr fine ↦ elim (Option-cases address) [
          | inl e ↦ simp (chan_create, fine, e) s
          | inr (c, e) ↦ elim (Option-cases (if ltb 0 capacity then memory capacity else some [])) [
            | inl m ↦ simp (chan_create, fine, e, m) s
            | inr (buffer, m) ↦
                simp (chan_create, fine, e, m) (made-Stable rt c elem_size capacity buffer s)
          ]
        ]
      ]
