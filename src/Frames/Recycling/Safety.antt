-- ===== src/Frames/Recycling/Safety.antt =====
-- The states that the threads reach.
use capy.Base.{
  ℕ, suc, ◌<◌, ◌≤◌, ◌^◌, ◌≡◌, refl, sym, ap, subst, ◌∙◌, inl, inr, arith, true, false, not, ◌&&◌,
  ◌==◌, if◌then◌else◌, if-elim, Bool-cases, Option, none, some, leb, has, Distinct,
}
use capy.Frames.Recycling.{
  Bucket, Resource, num_classes, bucket_capacity, allocate_fast, deallocate_fast, deallocate_class,
  drain,
}
use capy.Frames.Recycling.Buckets.{contents}
use capy.Frames.Recycling.Classes.{class_of}
use capy.Frames.Recycling.Caches.{In, Away, caches, Sound, users-Sound}
use capy.Frames.Recycling.Moves.{no_blocks}
use capy.Frames.Recycling.Calls.{deallocate_class-Sound, and_false, self_lem}
use capy.Frames.Recycling.Grants.{Roomy, Safe, allocated, apart, update_same, update_other}
use capy.Frames.Recycling.System.{
  System, update, new_size, allocate, deallocate, exit, Step, allocates, deallocates, exits, start,
  Reach, begin, then_,
}

some-not_none : {q : Option ℕ} (n : ℕ) → q ≡ none → q ≡ some n → ⊥
some-not_none n h k = cc (h, k)

same_number : (x q : ℕ) → (x == q) ≡ true → x ≡ q
same_number x q h = ground (arith, h)

allocate-Safe :
    (s : System) (t bytes p : ℕ)
    → Safe s
    → bytes ≤ 2 ^ 63
    → Away p s.resource
    → s.live p ≡ none
    → Safe (allocate s t bytes p).0
unfolding allocate
allocate-Safe s t bytes p safe h away idle =
    let (v, got) = allocated s t bytes p safe h away idle in
    let q = (allocate_fast s.resource t bytes p).1 in
    let room = update s.room p (new_size bytes) in
    record {
      sound = users-Sound (update s.live q (some bytes)) room v (λ i j x k. (
        update_other s.live q x (some bytes)
            (apart x q (allocate_fast s.resource t bytes p).0 i j k got.away),
        refl,
      ));
      roomy = λ x n e. elim (Bool-cases (x == q)) [
        | inl it ↦
            let eq = same_number x q it in
            let eb : some bytes ≡ some n =
              sym (update_same s.live q (some bytes))
              ∙ ap (update s.live q (some bytes)) (sym eq)
              ∙ e in
            let en : bytes ≡ n = cc eb in
            subst (λ y. Roomy n (room y)) (sym eq) (subst (λ m. Roomy m (room q)) en got.roomy)
        | inr other ↦
            let old : s.live x ≡ some n = sym (update_other s.live q x (some bytes) other) ∙ e in
            elim (Bool-cases (x == p)) [
              | inl it ↦ absurd (some-not_none n (ap s.live (same_number x p it) ∙ idle) old)
              | inr else_ ↦
                  subst (Roomy n) (sym (update_other s.room p x (new_size bytes) else_))
                    (safe.roomy x n old)
            ]
      ];
    }

-- A block in use is in no pool.
used-Away : (s : System) (q n : ℕ) → Safe s → s.live q ≡ some n → Away q s.resource
used-Away s q n safe h p i = elim (Bool-cases (has q (contents (s.resource.bucket p i)))) [
  | inl k ↦ absurd (some-not_none n (safe.sound.idle p i q k) h)
  | inr k ↦ k
]

deallocate-Safe :
    (s : System) (t bytes p : ℕ) → Safe s → s.live p ≡ some bytes → Safe (deallocate s t bytes p)
unfolding deallocate deallocate_fast
deallocate-Safe s t bytes p safe h =
    let away = used-Away s p bytes safe h in
    let live = update s.live p none in
    let v : Sound s.resource live s.room =
      users-Sound live s.room safe.sound
        (λ i j x k. (update_other s.live p x none (apart x p s.resource i j k away), refl)) in
    record {
      sound =
          if-elim (λ r. Sound r live s.room) (leb num_classes (class_of bytes)) s.resource
            (deallocate_class s.resource t (class_of bytes) p) (λ _. v)
            (λ low.
              let pooled : class_of bytes < num_classes = ground (arith, low) in
              deallocate_class-Sound s.resource live s.room t (class_of bytes) p v pooled record {
                away = away;
                idle = update_same s.live p none;
                fits = (safe.roomy p bytes h).class pooled;
              });
      roomy = λ x n e. elim (Bool-cases (x == p)) [
        | inl it ↦
            absurd (some-not_none n (ap live (same_number x p it) ∙ update_same s.live p none) e)
        | inr other ↦ safe.roomy x n (sym (update_other s.live p x none other) ∙ e)
      ];
    }

drain-In : (r : Resource) (t p i q : ℕ) → In q ((drain r t).bucket p i) → In q (r.bucket p i)
unfolding drain
drain-In r t p i q =
    if-elim (λ b. In q b → In q (r.bucket p i)) (p == suc t) (no_blocks (r.bucket p i))
      (r.bucket p i) (λ _ h. absurd (cc h)) (λ _ h. h)

drain_all {ℓ} :
    (r : Resource) (t p i : ℕ) (P : Bucket → Type ℓ)
    → P (no_blocks (r.bucket p i))
    → P (r.bucket p i)
    → P ((drain r t).bucket p i)
unfolding drain
drain_all r t p i P h k =
    if-elim P (p == suc t) (no_blocks (r.bucket p i)) (r.bucket p i) (λ _. h) (λ _. k)

drained-caches : (r : Resource) (t : ℕ) → caches (drain r t) t ≡ false
unfolding drain
drained-caches r t =
    ap (λ c. r.janitor t && not (if c then true else r.pool_drained t)) (self_lem t)
    ∙ and_false (r.janitor t)

drain-caches : (r : Resource) (t u : ℕ) → (u == t) ≡ false → caches (drain r t) u ≡ caches r u
unfolding drain
drain-caches r t u h = ap (λ c. r.janitor u && not (if c then true else r.pool_drained u)) h

drain-gone :
    (r : Resource) (t u i : ℕ)
    → (caches r u ≡ false → (r.bucket (suc u) i).count ≡ 0)
    → caches (drain r t) u ≡ false
    → ((drain r t).bucket (suc u) i).count ≡ 0
unfolding drain
drain-gone r t u i old h =
    if-elim (λ b. b.count ≡ 0) (suc u == suc t) (no_blocks (r.bucket (suc u) i))
      (r.bucket (suc u) i) (λ _. refl)
      (λ other.
        let apart_ : (u == t) ≡ false = ground (arith, other) in
        old (sym (drain-caches r t u apart_) ∙ h))

drain-armed :
    (r : Resource) (t u : ℕ)
    → (r.thread_armed u ≡ true → caches r u ≡ true)
    → (drain r t).thread_armed u ≡ true
    → caches (drain r t) u ≡ true
unfolding drain
drain-armed r t u old h = elim (Bool-cases (u == t)) [
  | inl y ↦ absurd (cc (h, ap (λ c. if c then false else r.thread_armed u) y))
  | inr n ↦ drain-caches r t u n ∙ old (sym (ap (λ c. if c then false else r.thread_armed u) n) ∙ h)
]

exit-Safe : (s : System) (t : ℕ) → Safe s → Safe (exit s t)
unfolding exit
exit-Safe s t safe =
    let r = s.resource in
    let v = safe.sound in
    let out = drain-In r t in
    record {
      sound = record {
        unique = λ p i p' i' q h k. v.unique p i p' i' q (out p i q h) (out p' i' q k);
        distinct = λ p i. drain_all r t p i (λ b. Distinct (contents b)) tt (v.distinct p i);
        idle = λ p i q h. v.idle p i q (out p i q h);
        sized = λ p i q h. v.sized p i q (out p i q h);
        bounded =
            λ p i. drain_all r t p i (λ b. b.count ≤ bucket_capacity) (omega arith) (v.bounded p i);
        classes = λ p i high. drain_all r t p i (λ b. b.count ≡ 0) refl (v.classes p i high);
        gone = λ u i. drain-gone r t u i (v.gone u i);
        armed = λ u. drain-armed r t u (v.armed u);
      };
      roomy = safe.roomy;
    }

start-Safe : Safe start
unfolding start
start-Safe = record {
  sound = record {
    unique = λ p i p' i' q h k. absurd (cc h);
    distinct = λ p i. tt;
    idle = λ p i q h. refl;
    sized = λ p i q h. absurd (cc h);
    bounded = λ p i. omega arith;
    classes = λ p i h. refl;
    gone = λ t i h. refl;
    armed = λ t h. cc h;
  };
  roomy = λ q n e. absurd (cc e);
}

Step-Safe : {s s' : System} → Step s s' → Safe s → Safe s'
Step-Safe (allocates t bytes p h away idle) safe = allocate-Safe _ t bytes p safe h away idle
Step-Safe (deallocates t bytes p h) safe = deallocate-Safe _ t bytes p safe h
Step-Safe (exits t here) safe = exit-Safe _ t safe

-- In every state that threads reach by allocating at most 2^63 bytes, by giving back what they have
-- got, with the size asked for, and by running their cleanup at exit, after which they may go on,
-- in any order: a block stands in one bucket at most, once, and has no user then; a bucket holds at
-- most 16 blocks, each of its class's size, and only the six classes hold any; a thread caches
-- blocks, or is armed, only if it has a cleanup registered that has not run; and each user's block
-- holds what was asked for.
pub Reach-Safe : {s : System} → Reach s → Safe s
Reach-Safe begin = start-Safe
Reach-Safe (then_ reach step) = Step-Safe step (Reach-Safe reach)

-- What a user of the resource gets: a block that nobody has, and that holds the request.
pub record Granted (s : System) (bytes : ℕ) (s' : System) (q : ℕ) : Type 0 where
  pub idle : s.live q ≡ none
  pub own : s'.live q ≡ some bytes
  pub enough : bytes ≤ s'.room q
  pub away : Away q s'.resource

-- In a reachable state an allocation of at most 2^63 bytes on any thread, for which operator new
-- would return a block that is neither cached nor in use, returns a block that nobody has and that
-- no bucket holds afterwards, with room for the request.
pub allocate-Granted :
    {s : System} (t bytes p : ℕ)
    → Reach s
    → bytes ≤ 2 ^ 63
    → Away p s.resource
    → s.live p ≡ none
    → Granted s bytes (allocate s t bytes p).0 (allocate s t bytes p).1
unfolding allocate
allocate-Granted {s} t bytes p reach h away idle =
    let (v, got) = allocated s t bytes p (Reach-Safe reach) h away idle in
    record {
      idle = got.idle;
      own = update_same s.live (allocate_fast s.resource t bytes p).1 (some bytes);
      enough = got.roomy.enough;
      away = got.away;
    }
