-- ===== src/Wss/Usage/Tests.antt =====
-- A table that lets a source hold one session and two streams.
use openrung.Base.{◌≡◌, refl, true, false, List, [], ◌∷◌}
use openrung.Base.Bytes.{Bytes}
use openrung.Wss.Usage.{
  SourceUsage, entry, acquire_session, release_session, acquire_stream, release_stream,
}
use openrung.Wss.Usage.Counts.{
  Call, takes_session, gives_session, takes_stream, gives_stream, run, spec_run, run-refines,
}

abbrev viewer : Bytes
viewer = 49 ∷ 50 ∷ []

abbrev small : SourceUsage
small = record { entries = []; max_sessions = 1; max_streams = 2 }

abbrev busy_day : List Call
busy_day =
    takes_session viewer
    ∷ takes_session viewer
    ∷ takes_stream viewer
    ∷ gives_session viewer
    ∷ gives_stream viewer
    ∷ []

busy_day_verdicts : (run small busy_day).1 ≡ true ∷ false ∷ true ∷ true ∷ true ∷ []
unfolding run acquire_session release_session acquire_stream release_stream
busy_day_verdicts = refl

busy_day_table : (run small busy_day).0.entries ≡ []
unfolding run acquire_session release_session acquire_stream release_stream
busy_day_table = refl

run-refines_example :
    let s = spec_run 1 2 (entry small) busy_day in
    (entry (run small busy_day).0 ≡ s.0) × ((run small busy_day).1 ≡ s.1)
run-refines_example = run-refines small busy_day
