-- ===== src/Sync/Event/Once.antt =====
-- The other turns of the event, and the states that a schedule reaches.
use capy.Base.{
  ℕ, ◌+◌, ◌≡◌, refl, sym, ap, subst, ◌∙◌, arith, Bool, List, [], ◌∷◌, ◌++◌, ◌==◌, if◌then◌else◌,
  if-elim,
}
use capy.Sync.Event.{
  Event, async_event, claim_loop, claim_all, begin_set, unlinked, post_first, post_next, clear,
  end_claim, cancel_first, cancel_next,
}
use capy.Sync.Event.Claims.{modify-cases, claim_loop-Claimed}
use capy.Sync.Counts.{flag, times, times-append, times-if, times-snoc, plus_zero, zero_plus, is_it}
use capy.Sync.Event.Turns.{Good, taken-Good, posted-Good, skipped-Good, ended-Good}
use capy.Sync.Event.System.{
  System, Step, suspends, stops, resumes, leaves, sets, posts, clears, cancels, start, Reach, begin,
  then_,
}
use capy.Sync.Event.Changes.{Sound, cancel-Sound, suspend-Sound, leave-Sound, resume-Sound}

set-Sound : (e : Event) (seen : ℕ → Bool) → Sound e seen → Sound (begin_set e) seen
unfolding begin_set claim_all
set-Sound e seen v = record {
  good = λ u.
      let c = claim_loop-Claimed e.waiter e.waiters u in
      rw (times-append u (claim_loop e.waiter e.waiters).1 e.taken) (taken-Good (v.good u) _ _ c);
  idle = λ _. refl;
}

post-Sound :
    (e : Event) (seen : ℕ → Bool) (ws : List ℕ)
    → e.taken ≡ ws
    → Sound e seen
    → Sound (post_first e ws) seen
unfolding post_first
post-Sound e seen [] h v = v
post-Sound e seen (w ∷ ws) h v = record {
  good = λ u.
      let before : Good (e.waiter u) (seen u) (times u e.posted) (flag (u == w) + times u ws)
          (times u e.waiters) =
        subst (λ l. Good (e.waiter u) (seen u) (times u e.posted) (times u l) (times u e.waiters)) h
          (v.good u) in
      rw (times-snoc u w e.posted) (
        modify-cases e.waiter w unlinked u
          (λ a n. Good a (seen u) (times u e.posted + n) (times u ws) (times u e.waiters))
          (λ eq. posted-Good _ _ _ (
            subst
              (λ c.
                Good (e.waiter u) (seen u) (times u e.posted) (flag c + times u ws)
                  (times u e.waiters))
              (is_it u w eq) before))
          (λ other.
            subst (λ k. Good (e.waiter u) (seen u) k (times u ws) (times u e.waiters))
              (sym (plus_zero (times u e.posted)))
              (subst (λ k. Good (e.waiter u) (seen u) (times u e.posted) k (times u e.waiters))
                (zero_plus _ _ other) before)));
  idle = v.idle;
}

end-Sound :
    (e : Event) (seen : ℕ → Bool) (ws : List ℕ)
    → e.waiters ≡ ws
    → Sound e seen
    → Sound (cancel_first e ws) seen
unfolding cancel_first
end-Sound e seen [] h v = v
end-Sound e seen (w ∷ ws) h v = record {
  good = λ u.
      let now = (e.waiter w).claimed in
      let before : Good (e.waiter u) (seen u) (times u e.posted) (times u e.taken)
          (flag (u == w) + times u ws) =
        subst (λ l. Good (e.waiter u) (seen u) (times u e.posted) (times u e.taken) (times u l)) h
          (v.good u) in
      rw (times-if u now e.posted (e.posted ++ w ∷ []), times-snoc u w e.posted)
        (modify-cases e.waiter w end_claim u
          (λ a n.
            Good a (seen u) (if now then times u e.posted else times u e.posted + n)
              (times u e.taken) (times u ws))
          (λ eq.
            let mine =
              subst
                (λ c.
                  Good (e.waiter u) (seen u) (times u e.posted) (times u e.taken)
                    (flag c + times u ws))
                (is_it u w eq) before in
            let same : (e.waiter u).claimed ≡ now = ap (λ x. (e.waiter x).claimed) eq in
            if-elim (λ k. Good (end_claim (e.waiter u)) (seen u) k (times u e.taken) (times u ws))
              now (times u e.posted) (times u e.posted + 1)
              (λ yes_. skipped-Good _ _ _ _ _ mine (same ∙ yes_))
              (λ not_. ended-Good _ _ _ _ _ mine (same ∙ not_)))
          (λ other.
            let theirs =
              subst (λ k. Good (e.waiter u) (seen u) (times u e.posted) (times u e.taken) k)
                (zero_plus _ _ other) before in
            if-elim (λ k. Good (e.waiter u) (seen u) k (times u e.taken) (times u ws)) now
              (times u e.posted) (times u e.posted + 0) (λ _. theirs)
              (λ _.
                subst (λ k. Good (e.waiter u) (seen u) k (times u e.taken) (times u ws))
                  (sym (plus_zero (times u e.posted))) theirs)));
  idle = λ set_. absurd (cc (v.idle set_, h));
}

Step-Sound : {s t : System} → Step s t → Sound s.event s.seen → Sound t.event t.seen
unfolding clear post_next cancel_next
Step-Sound {s} (suspends w stop ready new) v = suspend-Sound s.event s.seen w v stop ready new
Step-Sound {s} (stops w armed) v = cancel-Sound s.event s.seen w v armed
Step-Sound {s} (resumes w) v = resume-Sound s.event s.seen w v
Step-Sound {s} (leaves w) v = leave-Sound s.event s.seen w v
Step-Sound {s} sets v = set-Sound s.event s.seen v
Step-Sound {s} posts v = post-Sound s.event s.seen s.event.taken refl v
Step-Sound {s} clears v = record { good = v.good; idle = λ h. absurd (cc h) }
Step-Sound {s} cancels v = end-Sound s.event s.seen s.event.waiters refl v

-- Whatever coroutines that wait once each, stop tokens, calls of set, also nested ones, and the
-- destructor do, turn by turn and in any order: an awaiter is posted, or taken by set, once at most
-- and only when claimed; one that is linked and not claimed stands among the waiters, in which
-- nobody stands twice; nobody that set has taken is canceled; and nobody waits while the event is
-- set.
pub Reach-Sound : {s : System} → Reach s → Sound s.event s.seen
unfolding start async_event
Reach-Sound begin = record {
  good = λ u. record {
    once = omega arith;
    found = omega arith;
    alone = omega arith;
    kept = omega arith;
    quiet = omega arith;
    known = omega arith;
  };
  idle = λ _. refl;
}
Reach-Sound (then_ reach step) = Step-Sound step (Reach-Sound reach)
