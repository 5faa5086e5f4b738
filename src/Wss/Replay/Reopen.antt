-- ===== src/Wss/Replay/Reopen.antt =====
-- internal/wssbridge/replay.go: a journal is read back when the store is opened.
use mathlib.Core.Path.{subst}
use openrung.Base.{
  ℕ, ◌+◌, ◌≡◌, refl, sym, ap, ◌∙◌, ◌⊎◌, inl, inr, Bool, true, false, not, ◌||◌, [], ◌∷◌, ◌++◌,
  Option, none, some, arith, ltb, leb, ◌==◌, if◌then◌else◌, length, All, Bool-cases, Option-cases,
  if_elim,
}
use openrung.Base.Bytes.{Bytes, bytes_eq}
use openrung.Base.Map.{lookup}
use openrung.Wss.Replay.Journal.{
  Text, IsLawful, Entries, header, has_prefix, complete_lines, terminated, encode_all, line,
  record_max_bytes,
}
use openrung.Wss.Replay.RoundTrip.{
  IsLine, Fits, lines_of, length-line, parse_record-line, complete_lines-encode_all,
}
use openrung.Wss.Replay.Memory.{
  Watch, Before, Holds, HasRecord, load_record-Fits, load_record-Holds,
}
use openrung.Wss.Replay.{
  ReplayIndex, new_replay_index, ReplayStore, System, Compaction, done, before_rename, after_rename,
  should_compact, max_replay_journal_bytes, compact, load_record, load_lines, read_journal,
  finish_load, load, open_store, default_replay_entries, max_replay_entries,
}
use openrung.Wss.Replay.Disk.{Journal, Kept, SafeStore, IsSafe, compacted-Journal}

terminated-tail :
    (s : Bytes) (c : ℕ) (cs : Bytes) → All IsLine (c ∷ cs) → terminated (s ++ (c ∷ cs)) ≡ false
unfolding terminated
terminated-tail [] c [] h = ground (arith, h.0.0)
terminated-tail [] c (d ∷ ds) h = terminated-tail [] d ds h.1
terminated-tail (x ∷ []) c cs h = terminated-tail [] c cs h
terminated-tail (x ∷ y ∷ s) c cs h = terminated-tail (y ∷ s) c cs h

load_record-needs :
    (now : ℕ) (r : Bytes × ℕ) (i : ReplayIndex) → (load_record now r i true).1 ≡ true
unfolding load_record
load_record-needs now (key, e) i = elim (Bool-cases (leb e now)) [
  | inl y ↦ rw (y, load_record) refl
  | inr n ↦ elim (Option-cases (lookup bytes_eq key i.entries)) [
    | inl z ↦ rw (n, z, load_record) refl
    | inr (x, z) ↦ elim (Bool-cases (leb e x)) [
      | inl q ↦ rw (n, z, q, load_record) refl
      | inr q ↦ rw (n, z, q, load_record) refl
    ]
  ]
]

load_record-whole :
    (whole : Type 0) (now : ℕ) (r : Bytes × ℕ) (i : ReplayIndex) (needs : Bool)
    → (needs ≡ true) ⊎ whole
    → ((load_record now r i needs).1 ≡ true) ⊎ whole
load_record-whole whole now r i needs (inr h) = inr h
load_record-whole whole now r i true (inl h) = inl (load_record-needs now r i)
load_record-whole whole now r i false (inl h) = absurd (ground arith)

-- The next record is kept, or a later one is the watched one.
load_one :
    (v : Watch) (now : ℕ) (key : Bytes) (e : ℕ) (m : Entries) (i : ReplayIndex) (needs : Bool)
    → Before v now
    → Holds v i.entries ⊎ HasRecord v ((key, e) ∷ m)
    → Holds v (load_record now (key, e) i needs).0.entries ⊎ HasRecord v m
load_one none now key e m i needs b h = inl tt
load_one (some v) now key e m i needs b (inl h) =
    inl (load_record-Holds (some v) now (key, e) i needs b (inl h))
load_one (some v) now key e m i needs b (inr (inl h)) =
    inl (load_record-Holds (some v) now (key, e) i needs b (inr h))
load_one (some v) now key e m i needs b (inr (inr h)) = inr h

-- What the loop of `load` returns: the index keeps the watched identifier, and a journal that is
-- not compacted satisfies `whole`.
abbrev pub Loaded : Type 0 → Watch → Option (ReplayIndex × ℕ × Bool) → Type 0
Loaded whole v none = ⊥
Loaded whole v (some (j, n, needs)) =
    All Fits j.entries × Holds v j.entries × ((needs ≡ true) ⊎ whole)

module _ (t : Text) (w : IsLawful t) where
  over_length :
      (key : Bytes) (e : ℕ) → Fits (key, e) → leb record_max_bytes (length (line t key e)) ≡ false
  over_length key e f = ground (arith, length-line t w key e f)

  load_lines-lines_of :
      (whole : Type 0) (v : Watch) (now : ℕ) (m : Entries) (i : ReplayIndex) (n : ℕ) (needs : Bool)
      → Before v now
      → All Fits m
      → All Fits i.entries
      → Holds v i.entries ⊎ HasRecord v m
      → (needs ≡ true) ⊎ whole
      → Loaded whole v (load_lines t now (lines_of t w m) i n needs)
  unfolding load_lines
  load_lines-lines_of whole v now [] i n needs b f g (inl h) p = (g, h, p)
  load_lines-lines_of whole none now [] i n needs b f g (inr h) p = (g, h, p)
  load_lines-lines_of whole (some v) now [] i n needs b f g (inr h) p = absurd h
  load_lines-lines_of whole v now ((key, e) ∷ m) i n needs b f g h p =
      let (j, more) = load_record now (key, e) i needs in
      rw (over_length key e f.0, parse_record-line t w key e f.0, load_lines)
        (load_lines-lines_of whole v now m j (n + 1) more b f.1
          (load_record-Fits now (key, e) i needs f.0 g) (load_one v now key e m i needs b h)
          (load_record-whole whole now (key, e) i needs p))

  read_journal-header :
      (x : Bytes) (now : ℕ)
      → read_journal t (header ++ x) now
        ≡ load_lines t now (complete_lines [] x) new_replay_index 0 (not (terminated x))
  unfolding read_journal load_lines has_prefix
  read_journal-header x now = refl

  -- A journal whose tail is not empty is not terminated.
  torn_tail :
      (v : Watch) (file tail : Bytes) (s : Bytes)
      → All IsLine tail
      → Journal t v file tail
      → (not (terminated (s ++ tail)) ≡ true) ⊎ Journal t v file []
  torn_tail v file [] s h j = inr j
  torn_tail v file (c ∷ cs) s h j = inl (ap not (terminated-tail s c cs h))

  -- A journal, with a torn tail or not, is read.
  pub read_journal-Loaded :
      (v : Watch) (file : Bytes) (now : ℕ)
      → Before v now
      → SafeStore t v file none
      → Loaded (Journal t v file []) v (read_journal t file now)
  unfolding read_journal new_replay_index
  read_journal-Loaded none file now b (inl (p, u)) = rw (p) (tt, tt, inl refl)
  read_journal-Loaded (some v) file now b (inl (p, u)) = absurd u
  read_journal-Loaded v file now b (inr (tail, l, j)) =
      subst (Loaded (Journal t v file []) v)
        (sym (
          ap (λ x. read_journal t x now) j.shape
          ∙ read_journal-header (encode_all t j.records ++ tail) now
          ∙ ap
              (λ ls.
                load_lines t now ls new_replay_index 0
                  (not (terminated (encode_all t j.records ++ tail))))
              (complete_lines-encode_all t w j.records tail l)))
        (load_lines-lines_of (Journal t v file []) v now j.records new_replay_index 0
          (not (terminated (encode_all t j.records ++ tail))) b j.fits tt (inr j.has)
          (torn_tail v file tail (encode_all t j.records) l j))

  -- What a compaction at the end of `load` leaves.
  compacted-IsSafe :
      (v : Watch) (file : Bytes) (s : ReplayStore) (c : Compaction)
      → SafeStore t v file none
      → Kept t v s
      → IsSafe t v (
          let (f, u, ok) = compact t file s c in
          record { file = f; store = if ok then some u else none })
  unfolding compact
  compacted-IsSafe v file s done h k =
      inl (compacted-Journal t v s k, record { fits = k.fits; holds = k.holds })
  compacted-IsSafe v file s before_rename h k = h
  compacted-IsSafe v file s after_rename h k = inr ([], tt, compacted-Journal t v s k)

  pub finish_load-IsSafe :
      (v : Watch) (file : Bytes) (max_entries : ℕ) (c : Compaction) (i : ReplayIndex) (n : ℕ)
      (needs : Bool)
      → SafeStore t v file none
      → Loaded (Journal t v file []) v (some (i, n, needs))
      → IsSafe t v (finish_load t file max_entries c (i, n, needs))
  unfolding finish_load
  finish_load-IsSafe v file max_entries c i n needs h (g, k, p) =
      let s : ReplayStore = record {
        index = i;
        max_entries = max_entries;
        journal_records = n;
        broken = false;
      } in
      let q : Kept t v s = record { fits = g; holds = k } in
      if_elim (IsSafe t v) (ltb max_entries (length i.entries)) (λ _. h)
        (λ _. elim (Bool-cases (needs || should_compact s)) [
          | inl y ↦ rw (y) (compacted-IsSafe v file s c h q)
          | inr n ↦ rw (n) (elim p [ inl y ↦ absurd (ground arith) | inr j ↦ inl (j, q) ])
        ])

  load-IsSafe :
      (v : Watch) (file : Bytes) (max_entries now : ℕ) (c : Compaction)
      → Before v now
      → SafeStore t v file none
      → IsSafe t v (load t file max_entries now c)
  unfolding load
  load-IsSafe v file max_entries now c b h =
      let l = read_journal-Loaded v file now b h in
      if_elim (IsSafe t v) (ltb (max_replay_journal_bytes max_entries) (length file)) (λ _. h)
        (λ _. elim (Option-cases (read_journal t file now)) [
          | inl n ↦ absurd (subst (Loaded (Journal t v file []) v) n l)
          | inr ((i, n, needs), f) ↦ rw (f) (
              finish_load-IsSafe v file max_entries c i n needs h
                (subst (Loaded (Journal t v file []) v) f l))
        ])

  pub open_store-IsSafe :
      (v : Watch) (file : Bytes) (store : Option ReplayStore) (requested now : ℕ) (c : Compaction)
      → Before v now
      → SafeStore t v file store
      → IsSafe t v (open_store t (record { file = file; store = store }) requested now c)
  unfolding open_store
  open_store-IsSafe v file store requested now c b h =
      let max_entries = if requested == 0 then default_replay_entries else requested in
      if_elim (IsSafe t v) (ltb max_replay_entries max_entries) (λ _. h)
        (λ _.
          elim store
              as (λ store.
                SafeStore t v file store
                → IsSafe t v (elim store as (λ _. System) [
                  | none ↦ load t file max_entries now c
                  | some p ↦ record { file = file; store = store }
                ])) [ none ↦ load-IsSafe v file max_entries now c b | some p ↦ λ h. h ]
            h)
