-- ===== src/Focus/Reach.antt =====
-- The managers that a new one becomes under the operations; which widgets can have the focus may
-- change between two calls.
use tuicord_v.Base.{Bool, List}
use tuicord_v.Focus.State.{FocusChangeReason, FocusManager, new_focus_manager, set_on_change}
use tuicord_v.Focus.Operations.{register, replace, set, step, back, forward, clear, remove}
use tuicord_v.Focus.Invariant.{IsValid}
use tuicord_v.Focus.Invariant.Operations.{
  new_focus_manager-IsValid, register-IsValid, replace-IsValid, set-IsValid, step-IsValid,
  back-IsValid, forward-IsValid, clear-IsValid,
}
use tuicord_v.Focus.Invariant.Remove.{remove-IsValid}

module _ {W : Type 0} (dec : Discrete W) where
  pub data Reach : FocusManager W → Type 0 where
    created : Reach new_focus_manager
    observed : {f : FocusManager W} → Reach f → (fn : Bool) → Reach (set_on_change f fn)
    registered :
        {f : FocusManager W} → Reach f → (can : W → Bool) (w : W) → Reach (register dec can f w)
    replaced :
        {f : FocusManager W}
        → Reach f
        → (can preferred : W → Bool) (ws : List W) → Reach (replace dec can preferred f ws)
    assigned :
        {f : FocusManager W}
        → Reach f
        → (can : W → Bool) (w : W) (reason : FocusChangeReason) → Reach (set dec can f w reason).0
    stepped :
        {f : FocusManager W}
        → Reach f
        → (can : W → Bool) (ahead : Bool) (reason : FocusChangeReason)
        → Reach (step dec can f ahead reason).0
    returned : {f : FocusManager W} → Reach f → (can : W → Bool) → Reach (back dec can f).0
    advanced : {f : FocusManager W} → Reach f → (can : W → Bool) → Reach (forward dec can f).0
    cleared : {f : FocusManager W} → Reach f → Reach (clear dec f)
    removed : {f : FocusManager W} → Reach f → (w : W) → Reach (remove dec f w).0

  pub Reach-IsValid : {f : FocusManager W} → Reach f → IsValid dec f
  unfolding set_on_change
  Reach-IsValid created = new_focus_manager-IsValid dec (λ w. Bool.true)
  Reach-IsValid (observed r fn) =
      let v = Reach-IsValid r in record { sound = v.sound; current_in = v.current_in }
  Reach-IsValid (registered {f} r can w) = register-IsValid dec can f w (Reach-IsValid r)
  Reach-IsValid (replaced {f} r can preferred ws) =
      replace-IsValid dec can preferred f ws (Reach-IsValid r)
  Reach-IsValid (assigned {f} r can w reason) = set-IsValid dec can f w reason (Reach-IsValid r)
  Reach-IsValid (stepped {f} r can ahead reason) =
      step-IsValid dec can f ahead reason (Reach-IsValid r)
  Reach-IsValid (returned {f} r can) = back-IsValid dec can f (Reach-IsValid r)
  Reach-IsValid (advanced {f} r can) = forward-IsValid dec can f (Reach-IsValid r)
  Reach-IsValid (cleared {f} r) = clear-IsValid dec (λ w. Bool.true) f (Reach-IsValid r)
  Reach-IsValid (removed {f} r w) = remove-IsValid dec f w (Reach-IsValid r)
