-- ===== src/Coordinator/Stopping.antt =====
-- Stop of internal/coordinator/coordinator.go does not return before the runners have ended.
use mathlib.Core.Path.{subst}
use swarm_sentinel.Base.{Text, List, [], ◌∷◌, ◌++◌, Bool, true, false, ◌≡◌, ◌∙◌, sym, refl, arith}
use swarm_sentinel.Coordinator.Lifecycle.{
  Stage, idle, spawning, waiting, clearing, finished, Stop, unasked, has_read, awaits, returned,
  Life, has_fields, LifeStep, starts, spawns, waits, exits, clears, closes, cancels_outside, reads,
  cancels, skips, returns, Lives, born, goes,
}

-- What Run has come to, for its goroutines and the channel.
abbrev pub FitsStage : Stage → List Text → Bool → Type 0
FitsStage idle active closed = (active ≡ []) × (closed ≡ false)
FitsStage (spawning ns) active closed = closed ≡ false
FitsStage waiting active closed = closed ≡ false
FitsStage clearing active closed = (active ≡ []) × (closed ≡ false)
FitsStage finished active closed = (active ≡ []) × (closed ≡ true)

-- Run has been called.
abbrev pub HasBegun : Stage → Type 0
HasBegun idle = ⊥
HasBegun _ = Unit

-- What Stop has seen and done.
abbrev pub FitsStop : Stop → Stage → Bool → Bool → Type 0
FitsStop unasked stage canceled closed = Unit
FitsStop (has_read true) stage canceled closed = HasBegun stage
FitsStop (has_read false) stage canceled closed = Unit
FitsStop awaits stage canceled closed = HasBegun stage × (canceled ≡ true)
FitsStop (returned true) stage canceled closed = (canceled ≡ true) × (closed ≡ true)
FitsStop (returned false) stage canceled closed = Unit

abbrev pub IsSound : Life → Type 0
IsSound s = FitsStage s.stage s.active s.closed × FitsStop s.stop s.stage s.canceled s.closed

FitsStop-later :
    (stop : Stop) (stage stage' : Stage) (canceled canceled' closed closed' : Bool)
    → (HasBegun stage → HasBegun stage')
    → (canceled ≡ true → canceled' ≡ true)
    → (closed ≡ true → closed' ≡ true)
    → FitsStop stop stage canceled closed
    → FitsStop stop stage' canceled' closed'
FitsStop-later unasked stage stage' canceled canceled' closed closed' f g h fits = tt
FitsStop-later (has_read true) stage stage' canceled canceled' closed closed' f g h fits = f fits
FitsStop-later (has_read false) stage stage' canceled canceled' closed closed' f g h fits = tt
FitsStop-later awaits stage stage' canceled canceled' closed closed' f g h fits =
    (f fits.0, g fits.1)
FitsStop-later (returned true) stage stage' canceled canceled' closed closed' f g h fits =
    (g fits.0, h fits.1)
FitsStop-later (returned false) stage stage' canceled canceled' closed closed' f g h fits = tt

none-found : (n : Text) (xs ys : List Text) → [] ≡ xs ++ (n ∷ ys) → ⊥
none-found n [] ys h = cc
none-found n (x ∷ xs) ys h = cc

FitsStage-exits :
    (stage : Stage) (active : List Text) (closed : Bool) (n : Text) (xs ys : List Text)
    → active ≡ xs ++ (n ∷ ys)
    → FitsStage stage active closed
    → FitsStage stage (xs ++ ys) closed
FitsStage-exits idle active closed n xs ys here fits =
    absurd (none-found n xs ys (sym fits.0 ∙ here))
FitsStage-exits (spawning ns) active closed n xs ys here fits = fits
FitsStage-exits waiting active closed n xs ys here fits = fits
FitsStage-exits clearing active closed n xs ys here fits =
    absurd (none-found n xs ys (sym fits.0 ∙ here))
FitsStage-exits finished active closed n xs ys here fits =
    absurd (none-found n xs ys (sym fits.0 ∙ here))

has_read-FitsStop :
    (stage : Stage) (canceled closed : Bool)
    → FitsStop (has_read (has_fields stage)) stage canceled closed
unfolding has_fields
has_read-FitsStop idle canceled closed = tt
has_read-FitsStop (spawning ns) canceled closed = tt
has_read-FitsStop waiting canceled closed = tt
has_read-FitsStop clearing canceled closed = tt
has_read-FitsStop finished canceled closed = tt

-- Run goes on to this stage.
IsSound-stage :
    (s : Life) (stage : Stage) (active : List Text) (closed : Bool)
    → FitsStop s.stop s.stage s.canceled s.closed
    → HasBegun stage
    → FitsStage stage active closed
    → (s.closed ≡ true → closed ≡ true)
    → IsSound (record s { stage = stage; active = active; closed = closed })
IsSound-stage s stage active closed stop begun fits stays = (
  fits,
  FitsStop-later s.stop s.stage stage s.canceled s.canceled s.closed closed (λ b. begun) (λ c. c)
      stays stop,
)

module _ (mappings : List Text) (fails : Text → Bool) where
  LifeStep-IsSound : (s t : Life) → IsSound s → LifeStep mappings fails s t → IsSound t
  LifeStep-IsSound s _ (stage, stop) (starts at) =
      let fits = subst (λ p. FitsStage p s.active s.closed) at stage in
      IsSound-stage s (spawning mappings) s.active s.closed stop tt fits.1 (λ c. c)
  LifeStep-IsSound s _ (stage, stop) (spawns n ns at) =
      let fits = subst (λ p. FitsStage p s.active s.closed) at stage in
      IsSound-stage s (spawning ns) (n ∷ s.active) s.closed stop tt fits (λ c. c)
  LifeStep-IsSound s _ (stage, stop) (waits at) =
      let fits = subst (λ p. FitsStage p s.active s.closed) at stage in
      IsSound-stage s waiting s.active s.closed stop tt fits (λ c. c)
  LifeStep-IsSound s _ (stage, stop) (exits n xs ys here may) =
      (FitsStage-exits s.stage s.active s.closed n xs ys here stage, stop)
  LifeStep-IsSound s _ (stage, stop) (clears at none_left) =
      let fits = subst (λ p. FitsStage p s.active s.closed) at stage in
      IsSound-stage s clearing s.active s.closed stop tt (none_left, fits) (λ c. c)
  LifeStep-IsSound s _ (stage, stop) (closes at) =
      let fits = subst (λ p. FitsStage p s.active s.closed) at stage in
      IsSound-stage s finished s.active true stop tt (fits.0, refl) (λ c. refl)
  LifeStep-IsSound s _ (stage, stop) (cancels_outside not_yet) = (
    stage,
    FitsStop-later s.stop s.stage s.stage s.canceled true s.closed s.closed (λ b. b) (λ c. refl)
        (λ c. c) stop,
  )
  LifeStep-IsSound s _ (stage, stop) (reads at) =
      (stage, has_read-FitsStop s.stage s.canceled s.closed)
  LifeStep-IsSound s _ (stage, stop) (cancels at) =
      (stage, (subst (λ p. FitsStop p s.stage s.canceled s.closed) at stop, refl))
  LifeStep-IsSound s _ (stage, stop) (skips at) = (stage, tt)
  LifeStep-IsSound s _ (stage, stop) (returns at closed) =
      let fits = subst (λ p. FitsStop p s.stage s.canceled s.closed) at stop in
      (stage, (fits.1, closed))

  pub Lives-IsSound : {s : Life} → Lives mappings fails s → IsSound s
  Lives-IsSound born = ((refl, refl), tt)
  Lives-IsSound (goes {s} {t} lives step) = LifeStep-IsSound s t (Lives-IsSound lives) step

  closed-finished :
      (stage : Stage) (active : List Text) (closed : Bool)
      → closed ≡ true
      → FitsStage stage active closed
      → (stage ≡ finished) × (active ≡ [])
  closed-finished idle active closed is fits = absurd (ground (arith, is, fits.1))
  closed-finished (spawning ns) active closed is fits = absurd (ground (arith, is, fits))
  closed-finished waiting active closed is fits = absurd (ground (arith, is, fits))
  closed-finished clearing active closed is fits = absurd (ground (arith, is, fits.1))
  closed-finished finished active closed is fits = (refl, fits.0)

-- When Stop has returned having found a coordinator that runs, Run is past its last action, no goroutine
-- of a runner is left, and their context is done.
pub Stop-returned :
    (mappings : List Text) (fails : Text → Bool) (s : Life)
    → Lives mappings fails s
    → s.stop ≡ returned true
    → (s.stage ≡ finished) × (s.active ≡ []) × (s.canceled ≡ true)
Stop-returned mappings fails s lives at =
    let (stage, stop) = Lives-IsSound mappings fails lives in
    let fits = subst (λ p. FitsStop p s.stage s.canceled s.closed) at stop in
    let (done, none_left) = closed-finished mappings fails s.stage s.active s.closed fits.1 stage in
    (done, none_left, fits.0)
