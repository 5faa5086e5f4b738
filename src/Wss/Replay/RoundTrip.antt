-- ===== src/Wss/Replay/RoundTrip.antt =====
-- A record of the journal is read back, and so are the lines of a journal with a torn tail.
use mathlib.Core.List.{append_assoc, append-nil}
use openrung.Base.{
  ℕ, ◌<◌, ◌^◌, ◌≡◌, ◌≢◌, refl, sym, ap, ◌∙◌, false, List, [], ◌∷◌, ◌++◌, some, arith, ◌==◌, length,
  length-append, All, All-append,
}
use openrung.Base.Bytes.{Bytes}
use openrung.Wss.Replay.Journal.{
  Text, IsLawful, IsWord, Entries, complete_lines, drop_cr, split_space, line, encode_record,
  encode_all, parse_key, parse_expiry, parse_parts, parse_record,
}

not_byte : (c b : ℕ) → c ≢ b → (c == b) ≡ false
not_byte c b h = ground arith

-- A text without spaces is one part, and ends at the next space.
split_space-word : (part w : Bytes) → All IsWord w → split_space part w ≡ (part ++ w) ∷ []
unfolding split_space
split_space-word part [] h = ap (λ p. p ∷ []) (sym (append-nil part))
split_space-word part (c ∷ cs) h =
    rw (not_byte c 32 h.0.0, split_space)
      (split_space-word (part ++ c ∷ []) cs h.1 ∙ ap (λ p. p ∷ []) (append_assoc part (c ∷ []) cs))

split_space-words :
    (part v w : Bytes)
    → All IsWord v
    → All IsWord w
    → split_space part (v ++ (32 ∷ w)) ≡ (part ++ v) ∷ w ∷ []
unfolding split_space
split_space-words part [] w h k =
    ap (λ p. p ∷ split_space [] w) (sym (append-nil part))
    ∙ ap (λ r. (part ++ []) ∷ r) (split_space-word [] w k)
split_space-words part (c ∷ cs) w h k =
    rw (not_byte c 32 h.0.0, split_space)
      (split_space-words (part ++ c ∷ []) cs w h.1 k
        ∙ ap (λ p. p ∷ w ∷ []) (append_assoc part (c ∷ []) cs))

-- A text that ends in no carriage return stays whole.
drop_cr-word : (w : Bytes) → All (λ c. c ≢ 13) w → drop_cr w ≡ w
unfolding drop_cr
drop_cr-word [] h = refl
drop_cr-word (c ∷ []) h = rw (not_byte c 13 h.0) refl
drop_cr-word (c ∷ d ∷ cs) h = ap (λ r. c ∷ r) (drop_cr-word (d ∷ cs) h.1)

-- No newline and no carriage return stands in a text.
abbrev pub IsLine : ℕ → Type 0
IsLine c = (c ≢ 10) × (c ≢ 13)

IsLine-IsWord : (w : Bytes) → All IsWord w → All IsLine w
IsLine-IsWord [] h = tt
IsLine-IsWord (c ∷ cs) h = ((h.0.1, h.0.2), IsLine-IsWord cs h.1)

plain_of_line : (w : Bytes) → All IsLine w → All (λ c. c ≢ 13) w
plain_of_line [] h = tt
plain_of_line (c ∷ cs) h = (h.0.1, plain_of_line cs h.1)

-- The text of a line ends at the next newline.
complete_lines-line :
    (l w rest : Bytes)
    → All IsLine w
    → complete_lines l (w ++ (10 ∷ rest)) ≡ (l ++ w) ∷ complete_lines [] rest
unfolding complete_lines
complete_lines-line l [] rest h = ap (λ p. p ∷ complete_lines [] rest) (sym (append-nil l))
complete_lines-line l (c ∷ cs) rest h =
    rw (not_byte c 10 h.0.0, complete_lines)
      (complete_lines-line (l ++ c ∷ []) cs rest h.1
        ∙ ap (λ p. p ∷ complete_lines [] rest) (append_assoc l (c ∷ []) cs))

complete_lines-tail : (l w : Bytes) → All IsLine w → complete_lines l w ≡ []
unfolding complete_lines
complete_lines-tail l [] h = refl
complete_lines-tail l (c ∷ cs) h =
    rw (not_byte c 10 h.0.0, complete_lines) (complete_lines-tail (l ++ c ∷ []) cs h.1)

-- A hash with an expiry that an int64 holds.
abbrev pub Fits : Bytes × ℕ → Type 0
Fits (key, e) = (length key ≡ 32) × (0 < e) × (e < 2 ^ 63)

module _ (t : Text) (w : IsLawful t) where
  pub line-IsLine : (key : Bytes) (e : ℕ) → All IsLine (line t key e)
  unfolding line
  line-IsLine key e =
      All-append IsLine (t.encode64 key) (32 ∷ t.format_int e)
        (IsLine-IsWord (t.encode64 key) (w.encode_word key))
        (
          (λ h. omega (arith, h), λ h. omega (arith, h)),
          IsLine-IsWord (t.format_int e) (w.format_word e),
        )

  parse_key-encode : (key : Bytes) → length key ≡ 32 → parse_key t (t.encode64 key) ≡ some key
  unfolding parse_key
  parse_key-encode key h = rw (w.decode-encode key h, parse_key, h) (ground arith)

  parse_expiry-format : (e : ℕ) → 0 < e → e < 2 ^ 63 → parse_expiry t (t.format_int e) ≡ some e
  unfolding parse_expiry
  parse_expiry-format e h k = rw (w.parse-format e k, parse_expiry) (ground arith)

  -- The line written for a hash of 32 bytes and a positive expiry below 2^63 is read back as the
  -- same hash and expiry.
  pub parse_record-line :
      (key : Bytes) (e : ℕ) → Fits (key, e) → parse_record t (line t key e) ≡ some (key, e)
  unfolding parse_record line parse_parts
  parse_record-line key e h =
      rw
        (
          drop_cr-word (line t key e) (plain_of_line (line t key e) (line-IsLine key e)),
          split_space-words [] (t.encode64 key) (t.format_int e) (w.encode_word key)
              (w.format_word e),
        )
        (rw (parse_key-encode key h.0, parse_expiry-format e h.1 h.2, parse_parts) refl)

  encode_record-append :
      (key : Bytes) (e : ℕ) (rest : Bytes)
      → encode_record t key e ++ rest ≡ line t key e ++ (10 ∷ rest)
  unfolding encode_record
  encode_record-append key e rest = append_assoc (line t key e) (10 ∷ []) rest

  -- The lines of the records.
  abbrev pub lines_of : Entries → List Bytes
  lines_of [] = []
  lines_of ((key, e) ∷ m) = line t key e ∷ lines_of m

  -- A journal of records with a torn tail has the lines of its records.
  pub complete_lines-encode_all :
      (m : Entries) (tail : Bytes)
      → All IsLine tail
      → complete_lines [] (encode_all t m ++ tail) ≡ lines_of m
  unfolding encode_all
  complete_lines-encode_all [] tail h = complete_lines-tail [] tail h
  complete_lines-encode_all ((key, e) ∷ m) tail h =
      ap (complete_lines []) (
        append_assoc (encode_record t key e) (encode_all t m) tail
        ∙ encode_record-append key e (encode_all t m ++ tail))
      ∙ complete_lines-line [] (line t key e) (encode_all t m ++ tail) (line-IsLine key e)
      ∙ ap (λ ls. line t key e ∷ ls) (complete_lines-encode_all m tail h)

  pub length-line : (key : Bytes) (e : ℕ) → Fits (key, e) → length (line t key e) < 96
  unfolding line
  length-line key e h = omega (
    arith,
    length-append (t.encode64 key) (32 ∷ t.format_int e),
    w.length-encode key h.0,
    w.length-format e h.2,
  )
