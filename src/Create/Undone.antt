-- ===== src/Create/Undone.antt =====
-- What the parts of a creation change, and how a handle is given back.
use microthread.Base.{ℕ, ◌+◌, ◌≡◌, refl, none, some, List, [], ◌∷◌, ◌++◌, arith, eq→==}
use microthread.State.{Ptr, Runtime}
use microthread.Transitions.{runq_push, notify}
use microthread.Join.{handle_free_if_possible}
use microthread.Create.{Held, World, zero_task, drop_handle, link_handle, fill_task, launch}

-- A creation that failed: the process holds what it held, and the run queue, the registries, the
-- counts and the signals are as they were.
pub record IsUndone (before after : World) : Type 0 where
  pub held : after.1 ≡ before.1
  pub runq : after.0.runq ≡ before.0.runq
  pub all_tasks : after.0.all_tasks ≡ before.0.all_tasks
  pub handles : after.0.handles ≡ before.0.handles
  pub live_count : after.0.live_count ≡ before.0.live_count
  pub signals : after.0.signals ≡ before.0.signals

-- A creation that succeeded: the task is last in the run queue, ready, and first in the registry; it
-- has the identifier of the result, and its handle, if there is one, leads back to it.
pub record IsLaunched (before after : World) (id t : ℕ) (handle : Ptr) : Type 0 where
  pub runq : after.0.runq ≡ before.0.runq ++ t ∷ []
  pub all_tasks : after.0.all_tasks ≡ t ∷ before.0.all_tasks
  pub live_count : after.0.live_count ≡ before.0.live_count + 1
  pub task : after.0.task t ≡ record zero_task { id = id; handle = handle }
  pub linked : (h : ℕ) → handle ≡ some h → (after.0.handle h).task ≡ some t
  pub owned : after.1.task_memory ≡ t ∷ before.1.task_memory

abbrev pub with_handle : Ptr → List ℕ → List ℕ
with_handle none xs = xs
with_handle (some h) xs = h ∷ xs

-- The world `before` with a handle, if one is wanted, that leads to no task and has no joiners.
pub record HasHandle (before w : World) (handle : Ptr) : Type 0 where
  pub runq : w.0.runq ≡ before.0.runq
  pub all_tasks : w.0.all_tasks ≡ before.0.all_tasks
  pub live_count : w.0.live_count ≡ before.0.live_count
  pub signals : w.0.signals ≡ before.0.signals
  pub handles : w.0.handles ≡ with_handle handle before.0.handles
  pub task_memory : w.1.task_memory ≡ before.1.task_memory
  pub mappings : w.1.mappings ≡ before.1.mappings
  pub handle_memory : w.1.handle_memory ≡ with_handle handle before.1.handle_memory
  pub no_task : (h : ℕ) → handle ≡ some h → (w.0.handle h).task ≡ none
  pub no_joiners : (h : ℕ) → handle ≡ some h → (w.0.handle h).joiners ≡ []

Held-eq :
    (a b : Held)
    → a.task_memory ≡ b.task_memory
    → a.handle_memory ≡ b.handle_memory
    → a.mappings ≡ b.mappings
    → a ≡ b
Held-eq a b p q r = ground arith

-- a handle that no task uses is given back
pub drop-IsUndone :
    (before w : World) (handle : Ptr)
    → HasHandle before w handle
    → IsUndone before (drop_handle w handle)
unfolding drop_handle handle_free_if_possible
drop-IsUndone before w none k = record {
  held = Held-eq w.1 before.1 k.task_memory k.handle_memory k.mappings;
  runq = k.runq;
  all_tasks = k.all_tasks;
  handles = k.handles;
  live_count = k.live_count;
  signals = k.signals;
}
drop-IsUndone before w (some h) k =
    let e = k.no_task h refl in
    let j = k.no_joiners h refl in
    let same = eq→== h h refl in
    record {
      held =
          Held-eq (drop_handle w (some h)).1 before.1 (ground (arith, e, j, k.task_memory))
            (ground (arith, same, e, j, k.handle_memory)) (ground (arith, e, j, k.mappings));
      runq = ground (arith, k.runq);
      all_tasks = ground (arith, k.all_tasks);
      handles = ground (arith, same, e, j, k.handles);
      live_count = ground (arith, k.live_count);
      signals = ground (arith, k.signals);
    }

-- The fields of the runtime that the creation of a task and its handle does not touch before the end.
pub record SameQueues (a b : Runtime) : Type 0 where
  pub runq : b.runq ≡ a.runq
  pub all_tasks : b.all_tasks ≡ a.all_tasks
  pub live_count : b.live_count ≡ a.live_count
  pub signals : b.signals ≡ a.signals
  pub handles : b.handles ≡ a.handles

pub fill_task_frame : (rt : Runtime) (t : ℕ) (handle : Ptr) → SameQueues rt (fill_task rt t handle)
unfolding fill_task link_handle
fill_task_frame rt t none = record {
  runq = refl;
  all_tasks = refl;
  live_count = refl;
  signals = refl;
  handles = refl;
}
fill_task_frame rt t (some h) = record {
  runq = refl;
  all_tasks = refl;
  live_count = refl;
  signals = refl;
  handles = refl;
}

pub unlink_frame :
    (rt : Runtime) (t : ℕ) (handle : Ptr)
    → SameQueues rt (link_handle (fill_task rt t handle) handle none)
unfolding fill_task link_handle
unlink_frame rt t none = record {
  runq = refl;
  all_tasks = refl;
  live_count = refl;
  signals = refl;
  handles = refl;
}
unlink_frame rt t (some h) = record {
  runq = refl;
  all_tasks = refl;
  live_count = refl;
  signals = refl;
  handles = refl;
}

pub unlink_handle :
    (rt : Runtime) (t h : ℕ) (handle : Ptr)
    → handle ≡ some h
    → let x = (link_handle (fill_task rt t handle) handle none).handle h in
      (x.task ≡ none) × (x.joiners ≡ (rt.handle h).joiners)
unfolding fill_task link_handle
unlink_handle rt t h none e = cc
unlink_handle rt t h (some g) e = ground (arith, e)

pub fill_task_task :
    (rt : Runtime) (t : ℕ) (handle : Ptr)
    → (fill_task rt t handle).task t ≡ record zero_task { id = rt.next_id; handle = handle }
unfolding fill_task link_handle
fill_task_task rt t none = rw (eq→== t t refl) refl
fill_task_task rt t (some h) = rw (eq→== t t refl) refl

pub fill_task_handle :
    (rt : Runtime) (t h : ℕ) (handle : Ptr)
    → handle ≡ some h
    → ((fill_task rt t handle).handle h).task ≡ some t
unfolding fill_task link_handle
fill_task_handle rt t h none e = cc
fill_task_handle rt t h (some g) e = ground (arith, e)

pub launch_lem :
    (rt : Runtime) (t : ℕ)
    → ((launch rt t).runq ≡ rt.runq ++ t ∷ [])
      × ((launch rt t).all_tasks ≡ t ∷ rt.all_tasks)
      × ((launch rt t).live_count ≡ rt.live_count + 1)
      × ((launch rt t).task ≡ rt.task)
      × ((launch rt t).handle ≡ rt.handle)
unfolding launch runq_push notify
launch_lem rt t = ground arith
