-- ===== src/Fd/Counted.antt =====
-- The count of the fd waiters that wait.
use microthread.Base.{
  has-erase-other, ℕ, ◌+◌, ◌≡◌, inl, inr, refl, sym, ◌∙◌, erase-IsDistinct, true, false, Bool, List,
  [], ◌∷◌, ◌||◌, if◌then◌else◌, arith, has, erase, update, IsDistinct, Bool-cases, if_both, eq→==,
  ne→==,
}
use native.Mathlib.Decide.{ℕ_discrete}
use microthread.State.{Code, is_ok, removed, active, ready_reserved, FdWaiter, Runtime}
use microthread.Transitions.{guarded_dec, notify}
use microthread.Fd.{is_active, deactivated, fd_waiter_deactivate, fd_waiter_add}

abbrev pub active_in : (ℕ → FdWaiter) → List ℕ → ℕ
active_in waiter [] = 0
active_in waiter (w ∷ ws) =
    let more = active_in waiter ws in if is_active (waiter w).state then more + 1 else more

-- The runtime counts its active fd waiters; each stands in the list once, and an active one does
-- stand there.
pub record IsCounted (rt : Runtime) : Type 0 where
  pub distinct : IsDistinct rt.fd_waiters
  pub counted : rt.fd_waiting_count ≡ active_in rt.fd_waiter rt.fd_waiters
  pub listed : (w : ℕ) → is_active (rt.fd_waiter w).state ≡ true → has w rt.fd_waiters ≡ true

-- a waiter that is not in the list does not count
active_in-other :
    (waiter : ℕ → FdWaiter) (ws : List ℕ) (w : ℕ) (x : FdWaiter)
    → has w ws ≡ false
    → active_in (update waiter w x) ws ≡ active_in waiter ws
active_in-other waiter [] w x h = refl
active_in-other waiter (v ∷ ws) w x h = ground (arith, active_in-other waiter ws w x)

-- a waiter of the list counts once
active_in-update :
    (waiter : ℕ → FdWaiter) (ws : List ℕ) (w : ℕ) (x : FdWaiter)
    → IsDistinct ws
    → has w ws ≡ true
    → is_active x.state ≡ false
    → active_in (update waiter w x) ws + (if is_active (waiter w).state then 1 else 0)
      ≡ active_in waiter ws
active_in-update waiter [] w x d h off = ground arith
active_in-update waiter (v ∷ ws) w x d h off =
    ground (arith, active_in-other waiter ws w x, active_in-update waiter ws w x)

active_in-erase :
    (waiter : ℕ → FdWaiter) (ws : List ℕ) (w : ℕ)
    → is_active (waiter w).state ≡ false
    → active_in waiter (erase w ws) ≡ active_in waiter ws
active_in-erase waiter [] w off = refl
active_in-erase waiter (v ∷ ws) w off = ground (arith, active_in-erase waiter ws w)

-- a waiter that is not listed is not active
unlisted :
    (rt : Runtime) (w : ℕ)
    → IsCounted rt
    → has w rt.fd_waiters ≡ false
    → is_active (rt.fd_waiter w).state ≡ false
unlisted rt w c h = ground (arith, c.listed w)

-- the counter after the waiter is marked, whatever becomes of the list
dec-counted :
    (rt : Runtime) (w : ℕ) (x : FdWaiter)
    → IsCounted rt
    → is_active x.state ≡ false
    → (if is_active (rt.fd_waiter w).state
        then guarded_dec rt.fd_waiting_count
        else rt.fd_waiting_count)
      ≡ active_in (update rt.fd_waiter w x) rt.fd_waiters
dec-counted rt w x c off = elim (Bool-cases (has w rt.fd_waiters)) [
  | inl h ↦
      ground (arith, c.counted, active_in-update rt.fd_waiter rt.fd_waiters w x c.distinct h off)
  | inr h ↦
      ground (arith, c.counted, unlisted rt w c h, active_in-other rt.fd_waiter rt.fd_waiters w x h)
]

-- signals do not touch the waiters
notify-IsCounted : (rt : Runtime) → IsCounted rt → IsCounted (notify rt)
unfolding notify
notify-IsCounted rt c =
    if_both IsCounted rt.initialized
      (record { distinct = c.distinct; counted = c.counted; listed = c.listed }) c

listed-update :
    (rt : Runtime) (w : ℕ) (x : FdWaiter) (ws : List ℕ)
    → IsCounted rt
    → is_active x.state ≡ false
    → ((v : ℕ) → ¬ (w ≡ v) → has v rt.fd_waiters ≡ true → has v ws ≡ true)
    → (v : ℕ) → is_active (update rt.fd_waiter w x v).state ≡ true
    → has v ws ≡ true
listed-update rt w x ws c off keeps v on = elim (ℕ_discrete w v) [
  | yes e ↦ ground (arith, eq→== w v e)
  | no ne ↦ keeps v ne (c.listed v (rw (ne→== w v ne) at on))
]

notified : (b : Bool) (rt : Runtime) → IsCounted rt → IsCounted (if b then notify rt else rt)
notified true rt c = notify-IsCounted rt c
notified false rt c = c

deactivated-IsCounted :
    (rt : Runtime) (w : ℕ) (keep : Bool) → IsCounted rt → IsCounted (deactivated rt w keep)
unfolding deactivated
deactivated-IsCounted rt w true c =
    let x = record (rt.fd_waiter w) { state = ready_reserved } in
    record {
      distinct = c.distinct;
      counted = dec-counted rt w x c refl;
      listed = listed-update rt w x rt.fd_waiters c refl (λ v ne h. h);
    }
deactivated-IsCounted rt w false c =
    let x = record (rt.fd_waiter w) { state = removed } in
    record {
      distinct = erase-IsDistinct w rt.fd_waiters c.distinct;
      counted =
          dec-counted rt w x c refl
          ∙ sym (
              active_in-erase (update rt.fd_waiter w x) rt.fd_waiters w (rw (eq→== w w refl) refl));
      listed =
          listed-update rt w x (erase w rt.fd_waiters) c refl
            (λ v ne h. has-erase-other v w rt.fd_waiters ne h);
    }

-- Where the runtime counts its active fd waiters, the deactivation of a waiter, active or not,
-- keeps the count exact, whether the waiter stays reserved or leaves the list.
pub deactivate-IsCounted :
    (rt : Runtime) (w : ℕ) (keep : Bool)
    → IsCounted rt
    → IsCounted (fd_waiter_deactivate rt w keep).1
unfolding fd_waiter_deactivate
deactivate-IsCounted rt w keep c =
    notified (is_active (rt.fd_waiter w).state || keep) (deactivated rt w keep)
      (deactivated-IsCounted rt w keep c)

-- Where the runtime counts its active fd waiters and the waiter is not listed yet, it counts them
-- after the waiter is added, and also where its registration fails.
pub add-IsCounted :
    (registered : Code) (rt : Runtime) (w : ℕ)
    → has w rt.fd_waiters ≡ false
    → IsCounted rt
    → IsCounted (fd_waiter_add registered rt w).1
unfolding fd_waiter_add
add-IsCounted registered rt w new c =
    if_both (λ (r : Code × Runtime). IsCounted r.1) (is_ok registered)
      (notify-IsCounted _ (record {
        distinct = (new, c.distinct);
        counted = rw (eq→== w w refl) (
            ground (
              arith,
              c.counted,
              active_in-other rt.fd_waiter rt.fd_waiters w
                  (record (rt.fd_waiter w) { state = active }) new,
            ));
        listed = λ v on. elim (ℕ_discrete w v) [
          | yes e ↦ rw (eq→== w v e) refl
          | no ne ↦ rw (ne→== w v ne) (c.listed v (rw (ne→== w v ne) at on))
        ];
      }))
      c
