-- ===== src/Prelude/Steps.antt =====
-- Runs of a program as sequences of steps.
pub data Steps {W : Type 0} (Step : W → W → Type 0) : W → W → Type 0 where
  here : {w : W} → Steps Step w w
  then : {w v u : W} → Step w v → Steps Step v u → Steps Step w u
