-- ===== src/Wss/Usage/Counts.antt =====
-- The counts of a source, the limits on them, and the table that holds no empty entry.
use mathlib.Core.Path.{fun_ext}
use openrung.Base.{
  ℕ, ◌+◌, ◌-◌, ◌<◌, ◌≡◌, refl, ◌∙◌, Bool, true, false, List, [], ◌∷◌, some, arith, leb, ltb, ◌==◌,
  if◌then◌else◌, if_elim, ite,
}
use openrung.Base.Bytes.{Bytes, bytes_eq}
use openrung.Base.Map.{lookup, insert, lookup-insert, lookup-remove}
use openrung.Wss.Usage.{
  Entry, SourceUsage, new_source_usage, entry, store, delete_empty, acquire_session,
  release_session, acquire_stream, release_stream,
}

abbrev zero_entry : Entry
zero_entry = record { sessions = 0; streams = 0 }

entry-store :
    (u : SourceUsage) (k j : Bytes) (e : Entry)
    → entry (store u k e) j ≡ ite (bytes_eq j k) e (entry u j)
unfolding entry store
entry-store u k j e = ground (arith, lookup-insert bytes_eq k j e u.entries)

entry-delete_empty :
    (u : SourceUsage) (k j : Bytes) (e : Entry)
    → entry (delete_empty (store u k e) k e) j ≡ ite (bytes_eq j k) e (entry u j)
unfolding entry store delete_empty
entry-delete_empty u k j e = ground (
  arith,
  lookup-insert bytes_eq k j e u.entries,
  lookup-remove bytes_eq k j (insert bytes_eq k e u.entries),
)

pub data Call : Type 0 where
  takes_session gives_session takes_stream gives_stream : Bytes → Call

-- A call and its verdict; a release has none, and counts as granted.
unfoldable pub step : SourceUsage → Call → SourceUsage × Bool
step u (takes_session k) = acquire_session u k
step u (gives_session k) = (release_session u k, true)
step u (takes_stream k) = acquire_stream u k
step u (gives_stream k) = (release_stream u k, true)

unfoldable pub run : SourceUsage → List Call → SourceUsage × List Bool
unfolding step
run u [] = (u, [])
run u (c ∷ cs) = let (u', granted) = step u c in let (v, rest) = run u' cs in (v, granted ∷ rest)

-- The specification: a pair of counters for each source, with no table behind them.
abbrev pub Counters : Type 0
Counters = Bytes → Entry

abbrev pub update : Counters → Bytes → Entry → Counters
update c k e j = ite (bytes_eq j k) e (c j)

unfoldable pub spec_step : ℕ → ℕ → Counters → Call → Counters × Bool
spec_step sessions streams c (takes_session k) =
    if ltb (c k).sessions sessions
    then (update c k (record (c k) { sessions = (c k).sessions + 1 }), true)
    else (c, false)
spec_step sessions streams c (gives_session k) =
    (update c k (record (c k) { sessions = (c k).sessions - 1 }), true)
spec_step sessions streams c (takes_stream k) =
    if ltb (c k).streams streams
    then (update c k (record (c k) { streams = (c k).streams + 1 }), true)
    else (c, false)
spec_step sessions streams c (gives_stream k) =
    (update c k (record (c k) { streams = (c k).streams - 1 }), true)

unfoldable pub spec_run : ℕ → ℕ → Counters → List Call → Counters × List Bool
unfolding spec_step
spec_run sessions streams c [] = (c, [])
spec_run sessions streams c (x ∷ xs) =
    let (c', granted) = spec_step sessions streams c x in
    let (d, rest) = spec_run sessions streams c' xs in (d, granted ∷ rest)

update_self : (c : Counters) (k j : Bytes) → update c k (c k) j ≡ c j
update_self c k j = ground arith

step-counts :
    (u : SourceUsage) (c : Call) (j : Bytes)
    → entry (step u c).0 j ≡ (spec_step u.max_sessions u.max_streams (entry u) c).0 j
unfolding step spec_step acquire_session release_session acquire_stream release_stream
step-counts u (takes_session k) j = ground (
  arith,
  entry-store u k j (record (entry u k) { sessions = (entry u k).sessions + 1 }),
  entry-delete_empty u k j (entry u k),
)
step-counts u (gives_session k) j =
    ground
      (arith, entry-delete_empty u k j (record (entry u k) { sessions = (entry u k).sessions - 1 }))
step-counts u (takes_stream k) j = ground (
  arith,
  entry-store u k j (record (entry u k) { streams = (entry u k).streams + 1 }),
  entry-delete_empty u k j (entry u k),
)
step-counts u (gives_stream k) j =
    ground
      (arith, entry-delete_empty u k j (record (entry u k) { streams = (entry u k).streams - 1 }))

step-verdict :
    (u : SourceUsage) (c : Call)
    → (step u c).1 ≡ (spec_step u.max_sessions u.max_streams (entry u) c).1
unfolding step spec_step acquire_session acquire_stream
step-verdict u (takes_session k) = ground arith
step-verdict u (gives_session k) = refl
step-verdict u (takes_stream k) = ground arith
step-verdict u (gives_stream k) = refl

step-limits :
    (u : SourceUsage) (c : Call)
    → ((step u c).0.max_sessions ≡ u.max_sessions) × ((step u c).0.max_streams ≡ u.max_streams)
unfolding step acquire_session release_session acquire_stream release_stream
step-limits u (takes_session k) = ground arith
step-limits u (gives_session k) = ground arith
step-limits u (takes_stream k) = ground arith
step-limits u (gives_stream k) = ground arith

run-refines-from :
    (u : SourceUsage) (cs : List Call) (m n : ℕ) (c : Counters)
    → u.max_sessions ≡ m
    → u.max_streams ≡ n
    → entry u ≡ c
    → (entry (run u cs).0 ≡ (spec_run m n c cs).0) × ((run u cs).1 ≡ (spec_run m n c cs).1)
unfolding run spec_run
run-refines-from u [] m n c p q e = (e, refl)
run-refines-from u (x ∷ xs) m n c p q e =
    let counts : entry (step u x).0 ≡ (spec_step m n c x).0 =
      rw (← p, ← q, ← e) (fun_ext (step-counts u x)) in
    let verdict : (step u x).1 ≡ (spec_step m n c x).1 = rw (← p, ← q, ← e) (step-verdict u x) in
    let l = step-limits u x in
    let ih =
      run-refines-from (step u x).0 xs m n (spec_step m n c x).0 (l.0 ∙ p) (l.1 ∙ q) counts in
    (ih.0, cc (ih.1, verdict))

-- Over any sequence of calls, the table answers each call and counts for each source as the
-- specification does, which grants a session or a stream exactly while the source's count is below
-- its limit.
pub run-refines :
    (u : SourceUsage) (cs : List Call)
    → let s = spec_run u.max_sessions u.max_streams (entry u) cs in
      (entry (run u cs).0 ≡ s.0) × ((run u cs).1 ≡ s.1)
run-refines u cs = run-refines-from u cs u.max_sessions u.max_streams (entry u) refl refl refl

-- No source keeps an entry that counts nothing.
abbrev pub NoEmpty : SourceUsage → Type 0
NoEmpty u =
    (k : Bytes) (e : Entry) → lookup bytes_eq k u.entries ≡ some e → 0 < e.sessions + e.streams

store-NoEmpty :
    (u : SourceUsage) (k : Bytes) (e : Entry)
    → 0 < e.sessions + e.streams
    → NoEmpty u
    → NoEmpty (store u k e)
unfolding store
store-NoEmpty u k e pos h j f g = ground (arith, lookup-insert bytes_eq k j e u.entries, h j f)

delete_empty-NoEmpty :
    (u : SourceUsage) (k : Bytes) (e : Entry) → NoEmpty u → NoEmpty (delete_empty (store u k e) k e)
unfolding store delete_empty
delete_empty-NoEmpty u k e h j f g = ground (
  arith,
  lookup-insert bytes_eq k j e u.entries,
  lookup-remove bytes_eq k j (insert bytes_eq k e u.entries),
  h j f,
)

step-NoEmpty : (u : SourceUsage) (c : Call) → NoEmpty u → NoEmpty (step u c).0
unfolding step acquire_session release_session acquire_stream release_stream
step-NoEmpty u (takes_session k) h =
    if_elim (λ (r : SourceUsage × Bool). NoEmpty r.0) (leb u.max_sessions (entry u k).sessions)
      (λ _. delete_empty-NoEmpty u k (entry u k) h)
      (λ _.
        store-NoEmpty u k (record (entry u k) { sessions = (entry u k).sessions + 1 }) (omega arith)
          h)
step-NoEmpty u (gives_session k) h =
    if_elim NoEmpty ((entry u k).sessions == 0) (λ _. h)
      (λ _. delete_empty-NoEmpty u k (record (entry u k) { sessions = (entry u k).sessions - 1 }) h)
step-NoEmpty u (takes_stream k) h =
    if_elim (λ (r : SourceUsage × Bool). NoEmpty r.0) (leb u.max_streams (entry u k).streams)
      (λ _. delete_empty-NoEmpty u k (entry u k) h)
      (λ _.
        store-NoEmpty u k (record (entry u k) { streams = (entry u k).streams + 1 }) (omega arith)
          h)
step-NoEmpty u (gives_stream k) h =
    if_elim NoEmpty ((entry u k).streams == 0) (λ _. h)
      (λ _. delete_empty-NoEmpty u k (record (entry u k) { streams = (entry u k).streams - 1 }) h)

run-NoEmpty-from : (u : SourceUsage) (cs : List Call) → NoEmpty u → NoEmpty (run u cs).0
unfolding run
run-NoEmpty-from u [] h = h
run-NoEmpty-from u (c ∷ cs) h = run-NoEmpty-from (step u c).0 cs (step-NoEmpty u c h)

-- After any sequence of calls on a new table, every source that has an entry holds a session or
-- a stream: a source that has given back all it took leaves nothing behind.
pub run-NoEmpty :
    (sessions streams : ℕ) (cs : List Call) → NoEmpty (run (new_source_usage sessions streams) cs).0
run-NoEmpty sessions streams cs =
    run-NoEmpty-from (new_source_usage sessions streams) cs
      (unfold new_source_usage lookup in λ k e h. cc)
