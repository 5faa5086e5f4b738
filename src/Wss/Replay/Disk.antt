-- ===== src/Wss/Replay/Disk.antt =====
-- internal/wssbridge/replay.go: what the disk and the process hold of a watched identifier.
use mathlib.Core.List.{append_assoc, append-nil}
use mathlib.Core.Path.{subst}
use openrung.Base.{
  ℕ, zero, suc, ◌≡◌, refl, sym, ap, ◌∙◌, ◌⊎◌, inl, inr, true, [], ◌∷◌, ◌++◌, Option, none, some,
  take, All,
}
use openrung.Base.Bytes.{Bytes}
use openrung.Wss.Replay.Journal.{Text, IsLawful, Entries, header, encode_record, encode_all, line}
use openrung.Wss.Replay.RoundTrip.{IsLine, Fits, line-IsLine}
use openrung.Wss.Replay.Memory.{Watch, Holds, HasRecord, HasRecord-append, HasRecord-Holds}
use openrung.Wss.Replay.{ReplayStore, System}

module _ (t : Text) where
  -- A journal of records with a tail, which has a record of the watched identifier.
  pub record Journal (v : Watch) (file tail : Bytes) : Type 0 where
    pub records : Entries
    pub shape : file ≡ header ++ (encode_all t records ++ tail)
    pub fits : All Fits records
    pub has : HasRecord v records

  -- A store whose index keeps the watched identifier.
  pub record Kept (v : Watch) (s : ReplayStore) : Type 0 where
    pub fits : All Fits s.index.entries
    pub holds : Holds v s.index.entries

  abbrev pub Unwatched : Watch → Type 0
  Unwatched none = Unit
  Unwatched (some w) = ⊥

  abbrev pub TornJournal : Watch → Bytes → Type 0
  TornJournal v file = (tail : Bytes) × All IsLine tail × Journal v file tail

  abbrev pub SafeStore : Watch → Bytes → Option ReplayStore → Type 0
  SafeStore v file none = ((file ≡ []) × Unwatched v) ⊎ TornJournal v file
  SafeStore v file (some s) =
      (Journal v file [] × Kept v s) ⊎ ((s.broken ≡ true) × TornJournal v file)

  -- The disk and the process keep the watched identifier; a store that appends has a whole journal.
  abbrev pub IsSafe : Watch → System → Type 0
  IsSafe v s = SafeStore v s.file s.store

  encode_all-append : (m n : Entries) → encode_all t (m ++ n) ≡ encode_all t m ++ encode_all t n
  unfolding encode_all
  encode_all-append [] n = refl
  encode_all-append ((k, e) ∷ m) n =
      ap (λ r. encode_record t k e ++ r) (encode_all-append m n)
      ∙ sym (append_assoc (encode_record t k e) (encode_all t m) (encode_all t n))

  All-append_one : (m : Entries) (r : Bytes × ℕ) → All Fits m → Fits r → All Fits (m ++ r ∷ [])
  All-append_one [] r h f = (f, tt)
  All-append_one (x ∷ m) r h f = (h.0, All-append_one m r h.1 f)

  encode_one : (key : Bytes) (e : ℕ) → encode_all t ((key, e) ∷ []) ≡ encode_record t key e
  unfolding encode_all
  encode_one key e = append-nil (encode_record t key e)

  -- A whole journal followed by some bytes.
  extend :
      (m : Entries) (b : Bytes)
      → (header ++ (encode_all t m ++ [])) ++ b ≡ header ++ (encode_all t m ++ b)
  extend m b =
      append_assoc header (encode_all t m ++ []) b
      ∙ ap (λ r. header ++ r) (append_assoc (encode_all t m) [] b)

  -- One more record at the end of a whole journal, for a watch that the records then have.
  pub append-Journal :
      (v w : Watch) (file key : Bytes) (e : ℕ)
      → Journal v file []
      → Fits (key, e)
      → ((m : Entries) → HasRecord v m → HasRecord w (m ++ (key, e) ∷ []))
      → Journal w (file ++ encode_record t key e) []
  append-Journal v w file key e j f g = record {
    records = j.records ++ (key, e) ∷ [];
    shape =
        ap (λ r. r ++ encode_record t key e) j.shape
        ∙ extend j.records (encode_record t key e)
        ∙ ap (λ r. header ++ r)
            (ap (λ r. encode_all t j.records ++ r) (sym (encode_one key e))
              ∙ sym (encode_all-append j.records ((key, e) ∷ []))
              ∙ sym (append-nil (encode_all t (j.records ++ (key, e) ∷ []))));
    fits = All-append_one j.records (key, e) j.fits f;
    has = g j.records j.has;
  }

  -- The journal that a compaction writes.
  pub compacted-Journal :
      (v : Watch) (s : ReplayStore)
      → Kept v s
      → Journal v (header ++ encode_all t s.index.entries) []
  compacted-Journal v s k = record {
    records = s.index.entries;
    shape = ap (λ r. header ++ r) (sym (append-nil (encode_all t s.index.entries)));
    fits = k.fits;
    has = HasRecord-Holds v s.index.entries k.holds;
  }

  -- A part of a line has no line end.
  take-IsLine : (n : ℕ) (s : Bytes) → All IsLine s → All IsLine (take n s)
  take-IsLine zero s h = tt
  take-IsLine (suc n) [] h = tt
  take-IsLine (suc n) (c ∷ cs) h = (h.0, take-IsLine n cs h.1)

  take-nil : (n : ℕ) → take {A = ℕ} n [] ≡ []
  take-nil zero = refl
  take-nil (suc n) = refl

  -- A part of a line with its end is a part of the line, or the whole of both.
  take_line :
      (n : ℕ) (s : Bytes)
      → (take n (s ++ 10 ∷ []) ≡ take n s) ⊎ (take n (s ++ 10 ∷ []) ≡ s ++ 10 ∷ [])
  take_line zero s = inl refl
  take_line (suc n) [] = inr (ap (λ (r : Bytes). 10 ∷ r) (take-nil n))
  take_line (suc n) (c ∷ cs) = elim (take_line n cs) [
    | inl e ↦ inl (ap (λ r. c ∷ r) e)
    | inr e ↦ inr (ap (λ r. c ∷ r) e)
  ]

  module _ (w : IsLawful t) where
    -- A journal after an append that failed.
    pub torn-Journal :
        (v : Watch) (file key : Bytes) (e n : ℕ)
        → Journal v file []
        → Fits (key, e)
        → TornJournal v (file ++ take n (encode_record t key e))
    unfolding encode_record
    torn-Journal v file key e n j f = elim (take_line n (line t key e)) [
      | inl p ↦ (
        take n (line t key e),
        take-IsLine n (line t key e) (line-IsLine t w key e),
        record {
          records = j.records;
          shape =
              ap (λ r. file ++ r) p
              ∙ ap (λ r. r ++ take n (line t key e)) j.shape
              ∙ extend j.records (take n (line t key e));
          fits = j.fits;
          has = j.has;
        },
      )
      | inr p ↦ (
        [],
        tt,
        subst (λ r. Journal v (file ++ r) []) (sym p)
            (append-Journal v v file key e j f
              (λ m h. HasRecord-append v m ((key, e) ∷ []) (inl h))),
      )
    ]
