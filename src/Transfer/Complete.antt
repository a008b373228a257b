-- ===== src/Transfer/Complete.antt =====
-- The loops always return over a conforming stream, and what they then have moved.
use capy.Base.{
  Distinct, ℕ, zero, suc, ◌+◌, ◌-◌, ◌%◌, ◌≤◌, ◌<◌, ◌≡◌, refl, sym, ap, subst, ◌∙◌, ◌⊎◌, inl, inr,
  false, ◌&&◌, List, Option, none, some, arith, ltb, Bool-cases, size_mod, length, take, drop,
  take_add, drop-drop, length-drop,
}
use capy.Error.{Ec, is_set, generic, invalid_argument}
use capy.Buffers.{Buffer}
use capy.Buffers.Bytes.{bytes_of, buffer_size-bytes, Fits}
use capy.Buffers.Copy.Disjoint.{Distinct-take}
use capy.Buffers.Slice.{Consuming, consuming_buffers, remaining, buffers, consume}
use capy.Buffers.Slice.Consume.{IsCursor, unread, consume-drop, consuming_buffers-bytes}
use capy.Transfer.{transfer_loop, read, read_at_least, write, write_at_least}
use capy.Transfer.Transport.{Transport, Conforms}

Conforms-le : (ec : Ec) (n size : ℕ) → 0 < size → Conforms ec n size → n ≤ size
Conforms-le none n size h c = c.1
Conforms-le (some e) n size h c = omega arith

Conforms-pos : (ec : Ec) (n size : ℕ) → Conforms ec n size → is_set ec ≡ false → 1 ≤ n
Conforms-pos none n size c e = c.0
Conforms-pos (some x) n size c e = cc

module _ {S : Type 0} (T : Transport S) (B : List ℕ) (s₀ : S) where
  -- The loop has returned with `count` of the bytes `B` moved since `s₀`, and with an error just if
  -- that is fewer than `n`.
  pub record Finished (n : ℕ) (r : Option (S × Ec × ℕ)) : Type 0 where
    pub state : S
    pub ec : Ec
    pub count : ℕ
    pub returns : r ≡ some (state, ec, count)
    pub within : count ≤ length B
    pub status : is_set ec ≡ ltb count n
    pub moved : T.Moved (take count B) s₀ state

  -- What holds whenever the test of the loop is made.
  record Running (s : S) (c : Consuming) (total : ℕ) : Type 0 where
    cursor : IsCursor c
    left : unread c ≡ drop total B
    within : total ≤ length B
    ready : T.Ready s (drop total B)
    moved : T.Moved (take total B) s₀ s

  record Round (s : S) (c : Consuming) (total : ℕ) (r : S × Ec × ℕ) : Type 0 where
    sum : (total + r.2) % size_mod ≡ total + r.2
    progress : is_set r.1 ≡ false → 1 ≤ r.2
    running : Running r.0 (consume c r.2) (total + r.2)

  round_lem :
      (s : S) (c : Consuming) (total : ℕ)
      → length B < size_mod
      → Distinct B
      → total < length B
      → Running s c total
      → Round s c total (T.some_ s (buffers (remaining c)))
  unfolding unread
  round_lem s c total fits apart more v =
      let bs = buffers (remaining c) in
      let r = T.some_ s bs in
      let size : length (bytes_of bs) ≡ length B - total = ap length v.left ∙ length-drop total B in
      let (conform, ready, moved) =
        T.conforms s bs (subst (T.Ready s) (sym v.left) v.ready) (omega arith) in
      let le = Conforms-le r.1 r.2 (length (bytes_of bs)) (omega arith) conform in
      let (cursor, left) = consume-drop c r.2 v.cursor in
      record {
        sum = omega arith;
        progress = Conforms-pos r.1 r.2 (length (bytes_of bs)) conform;
        running = record {
          cursor = cursor;
          left = left ∙ ap (drop r.2) v.left ∙ drop-drop r.2 total B;
          within = omega arith;
          ready =
              subst (T.Ready r.0) (ap (drop r.2) v.left ∙ drop-drop r.2 total B)
                (T.ready_drop r.2 r.0 (bytes_of bs) ready);
          moved =
              subst (λ l. T.Moved l s₀ r.0) (sym (take_add total r.2 B))
                (T.moved_append (take total B) (take r.2 (drop total B)) s₀ s r.0
                  (subst Distinct (take_add total r.2 B) (Distinct-take (total + r.2) B apart))
                  v.moved (subst (λ l. T.Moved (take r.2 l) s r.0) v.left moved));
        };
      }

  transfer_loop-Finished :
      (fuel n : ℕ) (s : S) (c : Consuming) (total : ℕ)
      → length B < size_mod
      → Distinct B
      → n ≤ length B
      → n - total < fuel
      → Running s c total
      → Finished n (transfer_loop T.some_ fuel s c n total)
  unfolding transfer_loop
  transfer_loop-Finished zero n s c total fits apart le enough v = absurd (omega arith)
  transfer_loop-Finished (suc fuel) n s c total fits apart le enough v =
      let r = T.some_ s (buffers (remaining c)) in
      elim (Bool-cases (ltb total n)) [
        | inr done ↦ rw done (record {
          state = s;
          ec = none;
          count = total;
          returns = refl;
          within = v.within;
          status = sym done;
          moved = v.moved;
        })
        | inl more ↦
            let w = round_lem s c total fits apart (ground arith) v in
            rw (more, w.sum)
              (elim (Bool-cases (is_set r.1 && ltb (total + r.2) n)) [
                | inl stop ↦ rw stop (record {
                  state = r.0;
                  ec = r.1;
                  count = total + r.2;
                  returns = refl;
                  within = w.running.within;
                  status = ground arith;
                  moved = w.running.moved;
                })
                | inr on ↦ rw on (
                    transfer_loop-Finished fuel n r.0 (consume c r.2) (total + r.2) fits apart le
                      (ground (arith, w.progress)) w.running)
              ])
      ]

module _ {S : Type 0} (T : Transport S) (s : S) (bs : List Buffer) (fits : Fits bs)
    (apart : Distinct (bytes_of bs)) (ready : T.Ready s (bytes_of bs)) where
  start-Running : Running T (bytes_of bs) s s (consuming_buffers bs) 0
  start-Running =
      let (cursor, left) = consuming_buffers-bytes bs fits in
      record {
        cursor = cursor;
        left = left;
        within = omega arith;
        ready = ready;
        moved = T.moved_none s;
      }

  run-Finished :
      (n : ℕ)
      → n ≤ length (bytes_of bs)
      → Finished T
          (bytes_of bs)
          s
          n
          (transfer_loop T.some_ (suc (length (bytes_of bs))) s (consuming_buffers bs) n 0)
  run-Finished n le =
      transfer_loop-Finished T (bytes_of bs) s (suc (length (bytes_of bs))) n s
        (consuming_buffers bs) 0 fits apart le (omega arith) start-Running

  -- Over a conforming stream, and distinct bytes that fit a size_t, read returns; it has moved the
  -- first count bytes of the buffers in order and once, and reports an error exactly when count is
  -- less than their total size.
  pub read-Finished : Finished T (bytes_of bs) s (length (bytes_of bs)) (read T.some_ s bs)
  unfolding read
  read-Finished = rw (buffer_size-bytes bs fits) (run-Finished (length (bytes_of bs)) (omega arith))

  -- Over a conforming stream, and distinct bytes that fit a size_t, write returns; it has moved the
  -- first count bytes of the buffers in order and once, and reports an error exactly when count is
  -- less than their total size.
  pub write-Finished : Finished T (bytes_of bs) s (length (bytes_of bs)) (write T.some_ s bs)
  unfolding write
  write-Finished =
      rw (buffer_size-bytes bs fits) (run-Finished (length (bytes_of bs)) (omega arith))

  -- Over a conforming stream, and distinct bytes that fit a size_t, read_at_least either is asked
  -- for more than the buffers hold, and returns invalid_argument with the stream untouched, or
  -- returns; it has then moved the first count bytes of the buffers in order and once, and reports
  -- an error exactly when count is less than n.
  pub read_at_least-Finished :
      (n : ℕ)
      → ((length (bytes_of bs) < n)
          × (read_at_least T.some_ s bs n ≡ some (s, some (generic invalid_argument), 0)))
        ⊎ ((n ≤ length (bytes_of bs)) × Finished T (bytes_of bs) s n (read_at_least T.some_ s bs n))
  unfolding read_at_least
  read_at_least-Finished n =
      rw (buffer_size-bytes bs fits) (elim (Bool-cases (ltb (length (bytes_of bs)) n)) [
        | inl over ↦ inl (ground arith, rw over refl)
        | inr fit ↦ inr (ground arith, rw fit (run-Finished n (ground arith)))
      ])

  -- Over a conforming stream, and distinct bytes that fit a size_t, write_at_least either is asked
  -- for more than the buffers hold, and returns invalid_argument with the stream untouched, or
  -- returns; it has then moved the first count bytes of the buffers in order and once, and reports
  -- an error exactly when count is less than n.
  pub write_at_least-Finished :
      (n : ℕ)
      → ((length (bytes_of bs) < n)
          × (write_at_least T.some_ s bs n ≡ some (s, some (generic invalid_argument), 0)))
        ⊎ ((n ≤ length (bytes_of bs))
            × Finished T (bytes_of bs) s n (write_at_least T.some_ s bs n))
  unfolding write_at_least
  write_at_least-Finished n =
      rw (buffer_size-bytes bs fits) (elim (Bool-cases (ltb (length (bytes_of bs)) n)) [
        | inl over ↦ inl (ground arith, rw over refl)
        | inr fit ↦ inr (ground arith, rw fit (run-Finished n (ground arith)))
      ])
