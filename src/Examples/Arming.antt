-- ===== src/Examples/Arming.antt =====
-- A test that calls the fuse twice, and stops at an error.
use capy.Base.{◌≡◌, refl, true, false, none, some, arith}
use capy.Error.{Ec, capy_error, Error}
use capy.Testing.Fuse.{Fuse, fuse, returned}
use capy.Testing.Fuse.Armed.{Program, finish, call, run, clean, first_phase, armed}
use capy.Testing.Fuse.Armed.Runs.{Polite}
use capy.Testing.Fuse.Armed.Rounds.{Succeeds, armed-Succeeds, first_phase_again}

then_second : Ec → Program
then_second none = call 2 (λ _. finish)
then_second (some e) = finish

abbrev twice : Program
unfolding then_second
twice = call 1 then_second

twice-Polite : Polite twice
unfolding then_second
twice-Polite none = λ _. tt
twice-Polite (some e) = tt

abbrev fresh : Fuse
unfolding fuse
fresh = fuse (capy_error Error.test_failure)

armed-Succeeds_example : Succeeds fresh (armed 5 twice fresh)
unfolding fuse then_second
armed-Succeeds_example = armed-Succeeds 5 twice fresh twice-Polite refl (omega arith) (omega arith)

round_two : Fuse
unfolding fuse
round_two = record fresh { n = 2; inert = false }

-- The fuse as `armed` leaves it.
used : Fuse
unfolding fuse
used = record fresh { n = 3; i = 2; throws = true; loc = 2 }

used_lem : (armed 5 twice fresh).0 ≡ used
unfolding armed used fuse then_second
used_lem = refl

first_phase_again_example :
    let t = record used { throws = false; inert = false; n = 0 } in
    (first_phase 2 twice used ≡ (t, clean)) × (run twice t ≡ (t, returned tt))
unfolding used fuse
first_phase_again_example = first_phase_again 0 twice used twice-Polite refl refl (omega arith)
