-- ===== src/Wss/Replay/Once.antt =====
-- internal/wssbridge/replay.go: what `Consume` does to what the disk and the process hold.
use openrung.Base.{
  ℕ, ◌≤◌, ◌<◌, ◌^◌, ◌≡◌, ◌≢◌, refl, inl, inr, true, false, [], ◌∷◌, ◌++◌, Option, none, some, arith,
  leb, length, Bool-cases, if_elim,
}
use openrung.Base.Bytes.{Bytes, bytes_eq}
use openrung.Base.Map.{lookup, insert, lookup-insert, insert-All}
use openrung.Wss.Replay.Journal.{Text, IsLawful, Entries, header, encode_all}
use openrung.Wss.Replay.RoundTrip.{Fits}
use openrung.Wss.Replay.Memory.{
  Watch, Before, Holds, HasRecord-append, insert-Holds, prune-Holds, contains-Holds, prune-Fits,
}
use openrung.Wss.Replay.{
  ReplayIndex, contains, insert_key, prune, ReplayStore, System, Verdict, consumed, refused, Error,
  closed, expired, full, invalid_jti, io, Compaction, done, before_rename, after_rename, Append,
  synced, torn, should_compact, compact, append_record, compact_and_append, consume_key, valid_id,
  consume_valid, consume,
}
use openrung.Wss.Replay.Disk.{
  Journal, Kept, SafeStore, IsSafe, append-Journal, compacted-Journal, torn-Journal,
}

module _ (t : Text) (w : IsLawful t) where
  -- The system keeps what was watched; and a granted identifier is watched from then on.
  abbrev pub Granted : Watch → Bytes × ℕ → System × Verdict → Type 0
  Granted v r (s, verdict) = IsSafe t v s × (verdict ≡ consumed → IsSafe t (some r) s)

  refused-Granted :
      (v : Watch) (r : Bytes × ℕ) (s : System) (e : Error)
      → IsSafe t v s
      → Granted v r (s, refused e)
  refused-Granted v r s e h = (h, λ p. cc)

  -- An identifier that is not contained, with an expiry to come, may be written.
  insert_key-Kept :
      (v u : Watch) (s : ReplayStore) (key : Bytes) (e records : ℕ)
      → Fits (key, e)
      → Kept t v s
      → (Holds v s.index.entries → Holds u (insert bytes_eq key e s.index.entries))
      → Kept t u (record s { index = insert_key s.index key e; journal_records = records })
  unfolding insert_key
  insert_key-Kept v u s key e records f k g = record {
    fits = insert-All bytes_eq Fits key e s.index.entries f k.fits;
    holds = g k.holds;
  }

  contains_bound :
      (i : ReplayIndex) (key : Bytes) (now e y : ℕ)
      → contains i key now ≡ false
      → now < e
      → lookup bytes_eq key i.entries ≡ some y
      → y ≤ e
  unfolding contains
  contains_bound i key now e y c le f = let g = rw (f, contains) at c in ground arith

  watched : (m : Entries) (key : Bytes) (e : ℕ) → Holds (some (key, e)) (insert bytes_eq key e m)
  unfolding bytes_eq
  watched m key e = ground (arith, lookup-insert bytes_eq key key e m)

  append_record-Granted :
      (v : Watch) (file : Bytes) (s : ReplayStore) (key : Bytes) (e now : ℕ) (a : Append)
      → Fits (key, e)
      → now < e
      → contains s.index key now ≡ false
      → Journal t v file []
      → Kept t v s
      → Granted v (key, e) (append_record t file s key e a)
  unfolding append_record
  append_record-Granted v file s key e now synced f le c j k = (
    inl (
      append-Journal t v v file key e j f (λ m h. HasRecord-append v m ((key, e) ∷ []) (inl h)),
      insert_key-Kept v v s key e _ f k (λ h.
          insert-Holds v s.index.entries key e h
            (λ y p. contains_bound s.index key now e y c le p)),
    ),
    λ _. inl (
      append-Journal t v (some (key, e)) file key e j f (λ m h.
          HasRecord-append (some (key, e)) m ((key, e) ∷ []) (inr (inl (refl, omega arith)))),
      insert_key-Kept v (some (key, e)) s key e _ f k (λ h. watched s.index.entries key e),
    ),
  )
  append_record-Granted v file s key e now (torn n) f le c j k =
      refused-Granted v (key, e) ((append_record t file s key e (torn n)).0) io
        (inr (refl, torn-Journal t w v file key e n j f))

  compact_and_append-Granted :
      (v : Watch) (file : Bytes) (s : ReplayStore) (key : Bytes) (e now : ℕ) (c : Compaction)
      (a : Append)
      → Fits (key, e)
      → now < e
      → contains s.index key now ≡ false
      → Journal t v file []
      → Kept t v s
      → Granted v (key, e) (compact_and_append t file s key e c a)
  unfolding compact_and_append compact
  compact_and_append-Granted v file s key e now c a f le g j k =
      elim (Bool-cases (should_compact s)) [
        | inr n ↦ rw (n, compact_and_append) (append_record-Granted v file s key e now a f le g j k)
        | inl y ↦ elim c as (λ c. Granted v (key, e) (compact_and_append t file s key e c a)) [
          | done ↦
              rw (y, compact_and_append)
                (append_record-Granted v (header ++ encode_all t s.index.entries)
                  (record s { journal_records = length s.index.entries }) key e now a f le g
                  (compacted-Journal t v s k) (record { fits = k.fits; holds = k.holds }))
          | before_rename ↦
              rw (y, compact_and_append)
                (refused-Granted v (key, e) (record { file = file; store = some s }) io
                  (inl (j, k)))
          | after_rename ↦
              rw (y, compact_and_append)
                (refused-Granted v (key, e)
                  (record {
                    file = header ++ encode_all t s.index.entries;
                    store = some (record s { broken = true });
                  })
                  io (inr (refl, ([], tt, compacted-Journal t v s k))))
        ]
      ]

  consume_key-Granted :
      (v : Watch) (file : Bytes) (s : ReplayStore) (key : Bytes) (e now : ℕ) (c : Compaction)
      (a : Append)
      → length key ≡ 32
      → e < 2 ^ 63
      → Before v now
      → SafeStore t v file (some s)
      → Granted v (key, e) (consume_key t file s key e now c a)
  unfolding consume_key
  consume_key-Granted v file s key e now c a size small b h =
      let u : ReplayStore = record s { index = prune s.index now } in
      if_elim (λ (r : System × Verdict). Granted v (key, e) r) s.broken
        (λ _. refused-Granted v (key, e) (record { file = file; store = some s }) closed h)
        (λ alive. elim h [
          | inr (bad, j) ↦ absurd (ground arith)
          | inl (j, k) ↦
              let q : Kept t v u = record {
                fits = prune-Fits s.index now k.fits;
                holds = prune-Holds v s.index now k.holds b;
              } in
              if_elim (λ (r : System × Verdict). Granted v (key, e) r) (leb e now)
                (λ _.
                  refused-Granted v (key, e) (record { file = file; store = some s }) expired
                    (inl (j, k)))
                (λ le.
                  if_elim (λ (r : System × Verdict). Granted v (key, e) r)
                    (contains u.index key now) (λ _. (inl (j, q), λ p. cc))
                    (λ g.
                      if_elim (λ (r : System × Verdict). Granted v (key, e) r)
                        (leb u.max_entries (length u.index.entries))
                        (λ _.
                          refused-Granted v (key, e) (record { file = file; store = some u }) full
                            (inl (j, q)))
                        (λ _.
                          compact_and_append-Granted v file u key e now c a
                            (size, ground arith, small) (ground arith) g j q)))
        ])

  consume_valid-Granted :
      (v : Watch) (file : Bytes) (store : Option ReplayStore) (key : Bytes) (e now : ℕ)
      (c : Compaction) (a : Append)
      → length key ≡ 32
      → e < 2 ^ 63
      → Before v now
      → SafeStore t v file store
      → Granted v (key, e) (consume_valid t (record { file = file; store = store }) key e now c a)
  unfolding consume_valid
  consume_valid-Granted v file none key e now c a size small b h =
      refused-Granted v (key, e) (record { file = file; store = none }) closed h
  consume_valid-Granted v file (some s) key e now c a size small b h =
      consume_key-Granted v file s key e now c a size small b h

  pub consume-Granted :
      (v : Watch) (file : Bytes) (store : Option ReplayStore) (jti : Bytes) (e now : ℕ)
      (c : Compaction) (a : Append)
      → e < 2 ^ 63
      → Before v now
      → SafeStore t v file store
      → Granted v (t.hash jti, e) (consume t (record { file = file; store = store }) jti e now c a)
  unfolding consume
  consume-Granted v file store jti e now c a small b h =
      if_elim (λ (r : System × Verdict). Granted v (t.hash jti, e) r) (valid_id jti 16 128)
        (λ _.
          consume_valid-Granted v file store (t.hash jti) e now c a (w.length-hash jti) small b h)
        (λ _.
          refused-Granted v (t.hash jti, e) (record { file = file; store = store }) invalid_jti h)

  consume_key-watched :
      (file : Bytes) (s : ReplayStore) (key : Bytes) (x e now : ℕ) (c : Compaction) (a : Append)
      → now < x
      → SafeStore t (some (key, x)) file (some s)
      → (consume_key t file s key e now c a).1 ≢ consumed
  unfolding consume_key
  consume_key-watched file s key x e now c a b h =
      if_elim (λ (r : System × Verdict). r.1 ≢ consumed) s.broken (λ _ p. cc)
        (λ alive. elim h [
          | inr (bad, j) ↦ absurd (ground arith)
          | inl (j, k) ↦
              if_elim (λ (r : System × Verdict). r.1 ≢ consumed) (leb e now) (λ _ p. cc)
                (λ _.
                  rw
                    (contains-Holds key x now (prune s.index now)
                      (prune-Holds (some (key, x)) s.index now k.holds b) b)
                    (λ p. cc))
        ])

  consume_valid-watched :
      (file : Bytes) (store : Option ReplayStore) (key : Bytes) (x e now : ℕ) (c : Compaction)
      (a : Append)
      → now < x
      → SafeStore t (some (key, x)) file store
      → (consume_valid t (record { file = file; store = store }) key e now c a).1 ≢ consumed
  unfolding consume_valid
  consume_valid-watched file none key x e now c a b h = λ p. cc
  consume_valid-watched file (some s) key x e now c a b h =
      consume_key-watched file s key x e now c a b h

  -- What is watched is not consumed before its expiry.
  pub consume-watched :
      (file : Bytes) (store : Option ReplayStore) (jti : Bytes) (x e now : ℕ) (c : Compaction)
      (a : Append)
      → now < x
      → SafeStore t (some (t.hash jti, x)) file store
      → (consume t (record { file = file; store = store }) jti e now c a).1 ≢ consumed
  unfolding consume
  consume-watched file store jti x e now c a b h =
      if_elim (λ (r : System × Verdict). r.1 ≢ consumed) (valid_id jti 16 128)
        (λ _. consume_valid-watched file store (t.hash jti) x e now c a b h) (λ _ p. cc)
