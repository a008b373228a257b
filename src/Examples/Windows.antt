-- ===== src/Examples/Windows.antt =====
-- A sequence of two buffers with an empty one between them, in arrays of different capacity.
use capy.Base.{◌≡◌, ◌≤◌, ◌<◌, ◌⊎◌, refl, List, [], ◌∷◌, none, some, take, length}
use capy.Buffers.{Buffer, make_buffer}
use capy.Buffers.Bytes.{bytes_of}
use capy.Buffers.Array.{
  BufferArray, of_buffer, of_sequence, fill, of_sequence_checked, fill_checked, add, copy_array,
  to_span, byte_size,
}
use capy.Buffers.Array.Fill.{kept, Shows, of_sequence-Shows, of_sequence_checked_lem}

abbrev gather : List Buffer
gather = make_buffer 100 3 ∷ make_buffer 500 0 ∷ make_buffer 200 2 ∷ []

size_test : byte_size (of_sequence 2 gather) ≡ 5
unfolding byte_size of_sequence fill add
size_test = refl

overflow_test : of_sequence_checked 1 gather ≡ none
unfolding of_sequence_checked fill_checked add
overflow_test = refl

single_test : to_span (of_buffer (make_buffer 100 3)) ≡ make_buffer 100 3 ∷ []
unfolding to_span of_buffer
single_test = refl

of_sequence-Shows_example :
    Shows (of_sequence 2 gather) (take 2 (kept gather))
    × Shows (copy_array (of_sequence 2 gather)) (take 2 (kept gather))
of_sequence-Shows_example = of_sequence-Shows 2 gather

of_sequence_checked_lem_example :
    ((a : BufferArray) × (of_sequence_checked 2 gather ≡ some a)
      × (length (kept gather) ≤ 2)
      × Shows a (kept gather)
      × (bytes_of (to_span a) ≡ bytes_of gather))
    ⊎ ((of_sequence_checked 2 gather ≡ none) × (2 < length (kept gather)))
of_sequence_checked_lem_example = of_sequence_checked_lem 2 gather
