-- ===== src/Sync/Mutex/Destroy.antt =====
-- What `~async_mutex` tells those who wait.
use capy.Base.{
  ℕ, ◌≡◌, refl, sym, ap, subst, ◌∙◌, inl, inr, arith, true, false, List, [], ◌∷◌, ◌++◌, Option,
  none, some, ◌==◌, if◌then◌else◌, if-elim, Bool-cases, has, Distinct, append-nil, append_assoc,
}
use capy.Sync.Mutex.{Awaiter, Mutex, update, close, cancel_all, tell_granted, destroy_mutex}

-- The waiters that neither an unlock nor a stop callback has claimed.
abbrev pub unclaimed : (ℕ → Awaiter) → List ℕ → List ℕ
unclaimed f [] = []
unclaimed f (w ∷ ws) = if (f w).claimed then unclaimed f ws else w ∷ unclaimed f ws

unclaimed-agree :
    (f g : ℕ → Awaiter) (ws : List ℕ)
    → ((v : ℕ) → has v ws ≡ true → (f v).claimed ≡ (g v).claimed)
    → unclaimed f ws ≡ unclaimed g ws
unclaimed-agree f g [] h = refl
unclaimed-agree f g (w ∷ ws) h =
    rw (h w (ground arith), unclaimed-agree f g ws (λ v k. h v (ground (arith, k)))) refl

update-away :
    (f : ℕ → Awaiter) (w v : ℕ) (a : Awaiter) (ws : List ℕ)
    → has w ws ≡ false
    → has v ws ≡ true
    → update f w a v ≡ f v
unfolding update
update-away f w v a ws new here = elim (Bool-cases (v == w)) [
  | inl same ↦ ground (arith, here, new, same)
  | inr other ↦ rw other refl
]

cancel_all-posted :
    (f : ℕ → Awaiter) (ws posted : List ℕ)
    → Distinct ws
    → (cancel_all f ws posted).1 ≡ posted ++ unclaimed f ws
unfolding cancel_all
cancel_all-posted f [] posted d = sym (append-nil posted)
cancel_all-posted f (w ∷ ws) posted (new, d) =
    let g = update f w (close (f w)) in
    let same =
      unclaimed-agree g f ws
        (λ v k. ap (λ a. a.claimed) (update-away f w v (close (f w)) ws new k)) in
    cancel_all-posted g ws (if (f w).claimed then posted else posted ++ w ∷ []) d
    ∙ ap (λ l. (if (f w).claimed then posted else posted ++ w ∷ []) ++ l) same
    ∙ elim (Bool-cases (f w).claimed) [
      | inl c ↦ rw c refl
      | inr c ↦ rw c (append_assoc posted (w ∷ []) (unclaimed f ws))
    ]

cancel_all-outside :
    (f : ℕ → Awaiter) (ws posted : List ℕ) (v : ℕ)
    → has v ws ≡ false
    → (cancel_all f ws posted).0 v ≡ f v
unfolding cancel_all update
cancel_all-outside f [] posted v h = refl
cancel_all-outside f (w ∷ ws) posted v h =
    let other : (v == w) ≡ false = ground (arith, h) in
    cancel_all-outside (update f w (close (f w))) ws
      (if (f w).claimed then posted else posted ++ w ∷ []) v (ground (arith, h))
    ∙ rw other refl

cancel_all-close :
    (f : ℕ → Awaiter) (ws posted : List ℕ) (v : ℕ)
    → Distinct ws
    → has v ws ≡ true
    → (cancel_all f ws posted).0 v ≡ close (f v)
unfolding cancel_all update
cancel_all-close f [] posted v d h = absurd cc
cancel_all-close f (w ∷ ws) posted v (new, d) h =
    let g = update f w (close (f w)) in
    let p = if (f w).claimed then posted else posted ++ w ∷ [] in
    elim (Bool-cases (has v ws)) [
      | inl here ↦
          cancel_all-close g ws p v d here ∙ ap close (update-away f w v (close (f w)) ws new here)
      | inr away ↦
          let same : (v == w) ≡ true = ground (arith, h, away) in
          let e : v ≡ w = ground (arith, same) in
          cancel_all-outside g ws p v away ∙ rw same (ap (λ u. close (f u)) (sym e))
    ]

tell_granted-claimed :
    (f : ℕ → Awaiter) (o : Option ℕ) (v : ℕ) → (tell_granted f o v).claimed ≡ (f v).claimed
unfolding tell_granted update
tell_granted-claimed f none v = refl
tell_granted-claimed f (some w) v =
    if-elim (λ a. a.claimed ≡ (f v).claimed) (v == w)
      (record (f w) { granted = false; canceled = true }) (f v)
      (λ same. let e : v ≡ w = ground (arith, same) in ap (λ u. (f u).claimed) (sym e)) (λ _. refl)

tell_granted_self :
    (f : ℕ → Awaiter) (w : ℕ)
    → tell_granted f (some w) w ≡ record (f w) { granted = false; canceled = true }
unfolding tell_granted update
tell_granted_self f w =
    let same : (w == w) ≡ true = ground arith in
    ap (λ b. if b then record (f w) { granted = false; canceled = true } else f w) same

-- A waiter of a mutex that is gone: no list holds it, nobody can claim it any more, and it was told
-- that it is canceled unless somebody had claimed it before.
pub record Closed (before after : Awaiter) : Type 0 where
  pub in_list : after.in_list ≡ false
  pub claimed : after.claimed ≡ true
  pub canceled : before.claimed ≡ false → after.canceled ≡ true

close-Closed : (a b : Awaiter) → b.claimed ≡ a.claimed → Closed a (close b)
close-Closed a b e =
    if-elim (Closed a) b.claimed (record b { in_list = false })
      (record b { in_list = false; claimed = true; canceled = true })
      (λ c. record { in_list = refl; claimed = c; canceled = λ h. absurd (cc (c, e, h)) })
      (λ _. record { in_list = refl; claimed = refl; canceled = λ _. refl })

pub record Canceled (m r : Mutex) : Type 0 where
  pub waiters : r.waiters ≡ []
  pub posted : r.posted ≡ m.posted ++ unclaimed m.awaiter m.waiters
  pub closed : (v : ℕ) → has v m.waiters ≡ true → Closed (m.awaiter v) (r.awaiter v)
  pub told :
      (w : ℕ)
      → m.granted_to ≡ some w
      → has w m.waiters ≡ false
      → ((r.awaiter w).granted ≡ false) × ((r.awaiter w).canceled ≡ true)

-- The destructor of a mutex in whose queue no awaiter stands twice posts the unclaimed waiters in
-- order, each once, and no others; every waiter is out of the queue, claimed, and canceled unless
-- claimed before, and an awaiter that was handed the lock is told that it holds nothing.
pub destroy_mutex-Canceled : (m : Mutex) → Distinct m.waiters → Canceled m (destroy_mutex m)
unfolding destroy_mutex
destroy_mutex-Canceled m d =
    let f = tell_granted m.awaiter m.granted_to in
    record {
      waiters = refl;
      posted =
          cancel_all-posted f m.waiters m.posted d
          ∙ ap (λ l. m.posted ++ l)
              (unclaimed-agree f m.awaiter m.waiters
                (λ v _. tell_granted-claimed m.awaiter m.granted_to v));
      closed = λ v h.
          subst (Closed (m.awaiter v)) (sym (cancel_all-close f m.waiters m.posted v d h))
            (close-Closed (m.awaiter v) (f v) (tell_granted-claimed m.awaiter m.granted_to v));
      told = λ w h away.
          let e =
            cancel_all-outside f m.waiters m.posted w away
            ∙ ap (λ o. tell_granted m.awaiter o w) h
            ∙ tell_granted_self m.awaiter w in
          (ap (λ a. a.granted) e, ap (λ a. a.canceled) e);
    }
