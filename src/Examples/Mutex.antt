-- ===== src/Examples/Mutex.antt =====
-- A locked mutex with three waiters: the first was canceled, and the second is destroyed when the
-- lock is handed to it.
use capy.Base.{ℕ, ◌≢◌, ◌==◌, if◌then◌else◌, if-elim, true, none, [], ◌∷◌, refl}
use capy.Sync.Mutex.{
  Mutex, new_awaiter, Fate, kept, destroyed, mutex_gone, update, unlock, destroy_mutex,
}
use capy.Sync.Mutex.Destroy.{Canceled, destroy_mutex-Canceled}
use capy.Sync.Mutex.Unlock.{Handed, next_owner, unlock-Handed}

contended : Mutex
unfolding update
contended = record {
  locked = true;
  waiters = 1 ∷ 2 ∷ 3 ∷ [];
  granted_to = none;
  awaiter = update (λ _. new_awaiter) 1 (record new_awaiter { claimed = true; canceled = true });
  posted = 1 ∷ [];
}

fates : ℕ → Fate
fates w = if w == 2 then destroyed else kept

fates-tame : (w : ℕ) → fates w ≢ mutex_gone
unfolding fates
fates-tame w = if-elim (λ f. f ≢ mutex_gone) (w == 2) destroyed kept (λ _ h. cc) (λ _ h. cc)

unlock-Handed_example :
    Handed contended
      (next_owner (λ w. (contended.awaiter w).claimed) fates contended.waiters)
      (unlock fates contended)
unfolding contended
unlock-Handed_example = unlock-Handed fates contended fates-tame (refl, (refl, (refl, tt))) refl

destroy_mutex-Canceled_example : Canceled contended (destroy_mutex contended)
unfolding contended
destroy_mutex-Canceled_example = destroy_mutex-Canceled contended (refl, (refl, (refl, tt)))
