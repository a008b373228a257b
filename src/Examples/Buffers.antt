-- ===== src/Examples/Buffers.antt =====
-- Buffer sequences: two buffers of 3 and 2 bytes, with an empty one between them.
use capy.Base.{ℕ, false, ◌*◌, ◌≡◌, refl, List, [], ◌∷◌, map, some, arith, has, drop, size_max}
use capy.Buffers.{Buffer, make_buffer, buffer_size, front}
use capy.Buffers.Bytes.{bytes_of, buffer_size-bytes}
use capy.Buffers.Copy.{Memory, buffer_copy}
use capy.Buffers.Copy.Refine.{byte_copy, buffer_copy-byte_copy}
use capy.Buffers.Copy.Contents.{buffer_copy-contents}
use capy.Buffers.Slice.{Consuming, slice_of, buffers, adjust, consume}
use capy.Buffers.Slice.View.{slice_of-take-drop}
use capy.Buffers.Slice.Consume.{IsCursor, unread, consume-drop}

abbrev source : List Buffer
source = make_buffer 100 3 ∷ make_buffer 500 0 ∷ make_buffer 200 2 ∷ []

abbrev target : List Buffer
target = make_buffer 10 1 ∷ make_buffer 20 3 ∷ []

abbrev memory : Memory
memory a = a * 2

abbrev cursor : Consuming
cursor = record { items = source; front_skip = 1 }

slice_test : bytes_of (buffers (slice_of source 1 3)) ≡ 101 ∷ 102 ∷ 200 ∷ []
unfolding slice_of buffers adjust
slice_test = refl

front_test : front source ≡ make_buffer 100 3
unfolding front
front_test = refl

buffer_size-bytes_example : buffer_size source ≡ 5
buffer_size-bytes_example = buffer_size-bytes source (omega arith)

slice_of-take-drop_example : bytes_of (buffers (slice_of source 2 2)) ≡ 102 ∷ 200 ∷ []
slice_of-take-drop_example = slice_of-take-drop source 2 2 (omega arith)

consume-drop_example :
    IsCursor (consume cursor 3) × (unread (consume cursor 3) ≡ drop 3 (unread cursor))
consume-drop_example = consume-drop cursor 3 (record { fits = omega arith; inside = omega arith })

buffer_copy-contents_example :
    (m' : Memory) × (buffer_copy memory target source size_max ≡ some (m', 4))
    × (map m' (10 ∷ 20 ∷ 21 ∷ 22 ∷ []) ≡ 200 ∷ 202 ∷ 204 ∷ 400 ∷ [])
    × ((a : ℕ) → has a (10 ∷ 20 ∷ 21 ∷ 22 ∷ []) ≡ false → m' a ≡ a * 2)
buffer_copy-contents_example =
    buffer_copy-contents memory target source size_max (refl, (refl, (refl, (refl, tt))))
      (refl, (refl, (refl, (refl, (refl, tt)))))

buffer_copy-byte_copy_example :
    buffer_copy memory target source 2
    ≡ some (byte_copy memory (10 ∷ 20 ∷ []) (100 ∷ 101 ∷ 102 ∷ 200 ∷ 201 ∷ []), 2)
buffer_copy-byte_copy_example =
    buffer_copy-byte_copy memory target source 2 (refl, (refl, (refl, (refl, (refl, tt)))))
