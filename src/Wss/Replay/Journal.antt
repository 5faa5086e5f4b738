-- ===== src/Wss/Replay/Journal.antt =====
-- internal/wssbridge/replay.go: the text of the journal. SHA-256, base64 and the decimal numbers of
-- strconv are the interface `Text`.
use openrung.Base.{
  ℕ, ◌≤◌, ◌<◌, ◌^◌, ◌≡◌, ◌≢◌, Bool, true, false, List, [], ◌∷◌, ◌++◌, Option, none, some, ltb, ◌==◌,
  if◌then◌else◌, length, All, ite,
}
use openrung.Base.Bytes.{Bytes, bytes_eq}

-- The map of keys and expiries, which is also what the records of a journal say.
abbrev pub Entries : Type 0
Entries = List (Bytes × ℕ)

pub record Text : Type 0 where
  pub hash : Bytes → Bytes
  pub encode64 : Bytes → Bytes
  pub decode64 : Bytes → Option Bytes
  pub format_int : ℕ → Bytes
  pub parse_int : Bytes → Option ℕ

-- A byte that is neither a space nor the end of a line.
abbrev pub IsWord : ℕ → Type 0
IsWord c = (c ≢ 32) × (c ≢ 10) × (c ≢ 13)

-- What the journal relies on: a hash has 32 bytes, an int64 is written and read back, and so is a
-- hash, in bounded text without blanks.
pub record IsLawful (t : Text) : Type 0 where
  pub length-hash : (s : Bytes) → length (t.hash s) ≡ 32
  pub decode-encode : (k : Bytes) → length k ≡ 32 → t.decode64 (t.encode64 k) ≡ some k
  pub encode_word : (k : Bytes) → All IsWord (t.encode64 k)
  pub length-encode : (k : Bytes) → length k ≡ 32 → length (t.encode64 k) ≡ 43
  pub parse-format : (n : ℕ) → n < 2 ^ 63 → t.parse_int (t.format_int n) ≡ some n
  pub format_word : (n : ℕ) → All IsWord (t.format_int n)
  pub length-format : (n : ℕ) → n < 2 ^ 63 → length (t.format_int n) ≤ 19

-- "openrung-wss-replay-v1\n"
abbrev pub header : Bytes
header =
    111 ∷ 112 ∷ 101 ∷ 110 ∷ 114 ∷ 117 ∷ 110 ∷ 103 ∷ 45 ∷ 119 ∷ 115 ∷ 115 ∷ 45 ∷ 114 ∷ 101 ∷ 112
    ∷ 108 ∷ 97 ∷ 121 ∷ 45 ∷ 118 ∷ 49 ∷ 10 ∷ []

abbrev pub record_max_bytes : ℕ
record_max_bytes = 96

-- bytes.HasPrefix
unfoldable pub has_prefix : Bytes → Bytes → Bool
has_prefix [] s = true
has_prefix (x ∷ p) [] = false
has_prefix (x ∷ p) (y ∷ s) = let rest = has_prefix p s in if x == y then rest else false

-- The lines of a journal that end; an unterminated tail is cut off.
unfoldable pub complete_lines : Bytes → Bytes → List Bytes
complete_lines line [] = []
complete_lines line (c ∷ cs) = elim (c == 10) [
  | true ↦ line ∷ complete_lines [] cs
  | false ↦ complete_lines (line ++ c ∷ []) cs
]

-- Whether there is no unterminated tail.
unfoldable pub terminated : Bytes → Bool
terminated [] = true
terminated (c ∷ []) = c == 10
terminated (c ∷ d ∷ cs) = terminated (d ∷ cs)

-- A carriage return that bufio.ScanLines drops.
unfoldable pub drop_cr : Bytes → Bytes
drop_cr [] = []
drop_cr (c ∷ []) = if c == 13 then [] else c ∷ []
drop_cr (c ∷ d ∷ cs) = c ∷ drop_cr (d ∷ cs)

-- strings.Split(line, " ")
unfoldable pub split_space : Bytes → Bytes → List Bytes
split_space part [] = part ∷ []
split_space part (c ∷ cs) = elim (c == 32) [
  | true ↦ part ∷ split_space [] cs
  | false ↦ split_space (part ++ c ∷ []) cs
]

module _ (t : Text) where
  -- A record without its newline.
  unfoldable pub line : Bytes → ℕ → Bytes
  line key e = t.encode64 key ++ (32 ∷ t.format_int e)

  -- `encodeReplayRecord`
  unfoldable pub encode_record : Bytes → ℕ → Bytes
  encode_record key e = line key e ++ 10 ∷ []

  -- The records that a compaction writes.
  unfoldable pub encode_all : Entries → Bytes
  encode_all [] = []
  encode_all ((key, e) ∷ m) = encode_record key e ++ encode_all m

  -- The identifier of a record, if it is a hash in the one spelling that is written.
  unfoldable pub parse_key : Bytes → Option Bytes
  parse_key s = elim (t.decode64 s) [
    | none ↦ none
    | some raw ↦
        if length raw == 32 then ite (bytes_eq (t.encode64 raw) s) (some raw) none else none
  ]

  -- The expiry of a record.
  unfoldable pub parse_expiry : Bytes → Option ℕ
  parse_expiry s = elim (t.parse_int s) [
    | none ↦ none
    | some e ↦ if ltb 0 e then ite (bytes_eq (t.format_int e) s) (some e) none else none
  ]

  unfoldable pub parse_parts : List Bytes → Option (Bytes × ℕ)
  parse_parts (a ∷ b ∷ []) = elim (parse_key a) [
    | none ↦ none
    | some key ↦ elim (parse_expiry b) [ none ↦ none | some e ↦ some (key, e) ]
  ]
  parse_parts _ = none

  -- `parseReplayRecord`, on a line as the scanner gives it.
  unfoldable pub parse_record : Bytes → Option (Bytes × ℕ)
  parse_record s = parse_parts (split_space [] (drop_cr s))
