-- ===== src/Exec/Guard.antt =====
-- include/boost/capy/ex/work_guard.hpp: the guards of one executor, in a list, with the numbers of
-- calls of `on_work_started` and `on_work_finished`. A guard that is destroyed leaves the list.
pub mod Balance
use capy.Base.{ℕ, zero, suc, ◌+◌, Bool, true, false, List, [], ◌∷◌, ◌++◌, if◌then◌else◌}

pub record Guards : Type 0 where
  pub owns_ : List Bool
  pub started : ℕ
  pub finished : ℕ

-- `owns_work`; the `i`th guard of the list.
abbrev pub owns_work : ℕ → List Bool → Bool
owns_work i [] = false
owns_work zero (b ∷ bs) = b
owns_work (suc i) (b ∷ bs) = owns_work i bs

abbrev pub disown : ℕ → List Bool → List Bool
disown i [] = []
disown zero (b ∷ bs) = false ∷ bs
disown (suc i) (b ∷ bs) = b ∷ disown i bs

abbrev pub leave : ℕ → List Bool → List Bool
leave i [] = []
leave zero (b ∷ bs) = bs
leave (suc i) (b ∷ bs) = b ∷ leave i bs

unfoldable pub work_guard : Guards → Guards
work_guard g = record g { owns_ = g.owns_ ++ true ∷ []; started = g.started + 1 }

unfoldable pub copy : Guards → ℕ → Guards
copy g i =
    let b = owns_work i g.owns_ in
    record g { owns_ = g.owns_ ++ b ∷ []; started = if b then g.started + 1 else g.started }

unfoldable pub move : Guards → ℕ → Guards
move g i = record g { owns_ = disown i g.owns_ ++ owns_work i g.owns_ ∷ [] }

unfoldable pub destroy_guard : Guards → ℕ → Guards
destroy_guard g i = record g {
  owns_ = leave i g.owns_;
  finished = if owns_work i g.owns_ then g.finished + 1 else g.finished;
}

unfoldable pub reset : Guards → ℕ → Guards
reset g i =
    if owns_work i g.owns_
    then record g { owns_ = disown i g.owns_; finished = g.finished + 1 }
    else g
