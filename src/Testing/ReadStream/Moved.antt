-- ===== src/Testing/ReadStream/Moved.antt =====
-- What reads from a `test::read_stream` do to its state, and when it may be read.
use capy.Base.{
  Distinct, ℕ, ◌+◌, ◌-◌, ◌≤◌, ◌<◌, ◌≡◌, refl, sym, ap, ap₂, ◌∙◌, false, List, [], ◌++◌, map, arith,
  size_max, length, take, drop, has, has-append_right, has-append_left, map_append, length-append,
  take_add, drop-drop, length-drop,
}
use capy.Error.{Ec}
use capy.Buffers.Bytes.{range}
use capy.Buffers.Copy.Contents.{Apart-of_Distinct, map_outside}
use capy.Buffers.Copy.Disjoint.{Apart, Distinct-drop, Apart-drop}
use capy.Testing.ReadStream.{ReadStream}
use capy.Transfer.Transport.{Conforms}

-- The bytes that `provide` has supplied and no read has taken.
abbrev pub incoming : ReadStream → List ℕ
incoming s = map s.memory (range (s.storage + s.pos) (s.size - s.pos))

-- The reads since `s` have put the next bytes of the data at the addresses `xs`, and nowhere else.
pub record Moved (xs : List ℕ) (s t : ReadStream) : Type 0 where
  pub filled : map t.memory xs ≡ take (length xs) (incoming s)
  pub rest : incoming t ≡ drop (length xs) (incoming s)
  pub outside : (a : ℕ) → has a xs ≡ false → t.memory a ≡ s.memory a

-- The stream delivers something, the fuse does not throw, and the addresses are apart from the data.
pub record Ready (s : ReadStream) (xs : List ℕ) : Type 0 where
  pub chunk : 0 < s.max_read_size
  pub calm : s.f.throws ≡ false
  pub inside : s.pos ≤ s.size
  pub distinct : Distinct xs
  pub fits : length xs ≤ size_max
  pub apart : Apart xs (range s.storage s.size)

pub Ready-drop : (n : ℕ) (s : ReadStream) (xs : List ℕ) → Ready s xs → Ready s (drop n xs)
Ready-drop n s xs v = record {
  chunk = v.chunk;
  calm = v.calm;
  inside = v.inside;
  distinct = Distinct-drop n xs v.distinct;
  fits = omega (arith, v.fits, length-drop n xs);
  apart = Apart-drop n xs (range s.storage s.size) v.apart;
}

pub Moved-none : (s : ReadStream) → Moved [] s s
Moved-none s = record { filled = refl; rest = refl; outside = λ a h. refl }

pub Moved-append :
    (xs ys : List ℕ) (s t u : ReadStream)
    → Distinct (xs ++ ys)
    → Moved xs s t
    → Moved ys t u
    → Moved (xs ++ ys) s u
Moved-append xs ys s t u distinct v w = record {
  filled =
      map_append u.memory xs ys
      ∙ ap₂ ◌++◌
          (map_outside t.memory u.memory ys xs w.outside (Apart-of_Distinct xs ys distinct)
            ∙ v.filled)
          (w.filled ∙ ap (take (length ys)) v.rest)
      ∙ sym (take_add (length xs) (length ys) (incoming s))
      ∙ ap (λ k. take k (incoming s)) (sym (length-append xs ys));
  rest =
      w.rest
      ∙ ap (drop (length ys)) v.rest
      ∙ drop-drop (length ys) (length xs) (incoming s)
      ∙ ap (λ k. drop k (incoming s)) (sym (length-append xs ys));
  outside =
      λ a h. w.outside a (has-append_right a xs ys h) ∙ v.outside a (has-append_left a xs ys h);
}

pub record Delivered (s : ReadStream) (B : List ℕ) (r : ReadStream × Ec × ℕ) : Type 0 where
  pub conform : Conforms r.1 r.2 (length B)
  pub ready : Ready r.0 B
  pub moved : Moved (take r.2 B) s r.0
