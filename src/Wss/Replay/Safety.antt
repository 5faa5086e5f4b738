-- ===== src/Wss/Replay/Safety.antt =====
-- internal/wssbridge/replay.go: the store through consumptions, crashes and reopenings, with every
-- failure of an append or a compaction.
use mathlib.Core.Path.{subst}
use openrung.Base.{ℕ, ◌<◌, ◌^◌, ◌≡◌, ◌≢◌, refl, inl, inr, List, [], ◌∷◌, Option, none, some, All}
use openrung.Base.Bytes.{Bytes}
use openrung.Wss.Replay.Journal.{Text, IsLawful}
use openrung.Wss.Replay.Memory.{Watch, Before}
use openrung.Wss.Replay.{
  ReplayStore, System, consumed, Compaction, Append, consume, read_journal, open_store,
}
use openrung.Wss.Replay.Disk.{Journal, SafeStore, IsSafe}
use openrung.Wss.Replay.Once.{consume-Granted, consume-watched}
use openrung.Wss.Replay.Reopen.{open_store-IsSafe, read_journal-Loaded, Loaded}

-- What happens to the store.
pub data Event : Type 0 where
  opens : ℕ → ℕ → Compaction → Event
  consumes : Bytes → ℕ → ℕ → Compaction → Append → Event
  crash : Event

-- An event before the watched expiry, with an expiry that an int64 holds.
abbrev pub Timely : Watch → Event → Type 0
Timely v (opens max_entries now c) = Before v now
Timely v (consumes jti e now c a) = (e < 2 ^ 63) × Before v now
Timely v crash = Unit

-- No journal yet.
abbrev pub no_journal : System
no_journal = record { file = []; store = none }

module _ (t : Text) where
  unfoldable pub step : System → Event → System
  step s (opens max_entries now c) = open_store t s max_entries now c
  step s (consumes jti e now c a) = (consume t s jti e now c a).0
  step s crash = record s { store = none }

  unfoldable pub run : System → List Event → System
  run s [] = s
  run s (e ∷ es) = run (step s e) es

  crash-IsSafe :
      (v : Watch) (file : Bytes) (store : Option ReplayStore)
      → SafeStore t v file store
      → SafeStore t v file none
  crash-IsSafe v file none h = h
  crash-IsSafe v file (some s) (inl (j, k)) = inr ([], tt, j)
  crash-IsSafe v file (some s) (inr (bad, j)) = inr j

  module _ (w : IsLawful t) where
    step-IsSafe :
        (v : Watch) (file : Bytes) (store : Option ReplayStore) (e : Event)
        → Timely v e
        → SafeStore t v file store
        → IsSafe t v (step (record { file = file; store = store }) e)
    unfolding step
    step-IsSafe v file store (opens max_entries now c) b h =
        open_store-IsSafe t w v file store max_entries now c b h
    step-IsSafe v file store (consumes jti e now c a) (f, b) h =
        (consume-Granted t w v file store jti e now c a f b h).0
    step-IsSafe v file store crash b h = crash-IsSafe v file store h

    run-IsSafe :
        (v : Watch) (s : System) (es : List Event)
        → All (Timely v) es
        → IsSafe t v s
        → IsSafe t v (run s es)
    unfolding run
    run-IsSafe v s [] b h = h
    run-IsSafe v s (e ∷ es) b h =
        run-IsSafe v (step s e) es b.1 (step-IsSafe v s.file s.store e b.0 h)

    -- Where hashes and numbers are written in the journal as `IsLawful` says: from no journal, let
    -- consumptions, crashes and openings come in any order, with any failures of appends and
    -- compactions, the expiries below 2^63. Once a consumption of an identifier
    -- succeeds with an expiry, then after any further events at times before that expiry, no
    -- consumption of the identifier at a time before that expiry succeeds, whatever it asks for.
    pub consume-run :
        (es later : List Event) (jti : Bytes) (e now : ℕ) (c : Compaction) (a : Append)
        (e1 now1 : ℕ) (c1 : Compaction) (a1 : Append)
        → All (Timely none) es
        → e < 2 ^ 63
        → (consume t (run no_journal es) jti e now c a).1 ≡ consumed
        → All (Timely (some (t.hash jti, e))) later
        → now1 < e
        → (consume t
            (run (consume t (run no_journal es) jti e now c a).0 later)
            jti
            e1
            now1
            c1
            a1).1
          ≢ consumed
    consume-run es later jti e now c a e1 now1 c1 a1 h small ok k le =
        let s = run no_journal es in
        let g =
          consume-Granted t w none s.file s.store jti e now c a small tt
            (run-IsSafe none no_journal es h (inl (refl, tt))) in
        let u = run (consume t s jti e now c a).0 later in
        consume-watched t w u.file u.store jti e e1 now1 c1 a1 le
          (run-IsSafe (some (t.hash jti, e)) (consume t s jti e now c a).0 later k (g.1 ok))

    -- Where hashes and numbers are written in the journal as `IsLawful` says: from no journal, let
    -- consumptions, crashes and openings come in any order, with any failures of appends and
    -- compactions, the expiries below 2^63. Then the journal on the disk is one that
    -- the loop of the load reads without an error.
    pub read_journal-run :
        (es : List Event) (now : ℕ)
        → All (Timely none) es
        → read_journal t (run no_journal es).file now ≢ none
    read_journal-run es now h n =
        let s = run no_journal es in
        let i = run-IsSafe none no_journal es h (inl (refl, tt)) in
        subst (Loaded (Journal t none s.file []) none) n
          (read_journal-Loaded t w none s.file now tt (crash-IsSafe none s.file s.store i))
