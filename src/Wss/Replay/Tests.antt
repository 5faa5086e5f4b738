-- ===== src/Wss/Replay/Tests.antt =====
-- internal/wssbridge/replay.go: the journal at concrete inputs, with a concrete text for hashes and
-- numbers.
use openrung.Base.{
  ℕ, zero, suc, ◌+◌, ◌-◌, ◌≡◌, ◌≢◌, refl, ◌∙◌, ap, List, [], ◌∷◌, ◌++◌, Option, none, some, arith,
  length, take, All, length-append, length-take,
}
use openrung.Base.Bytes.{Bytes, bytes_eq}
use openrung.Base.Map.{lookup, insert, remove}
use openrung.Base.Sort.{place}
use openrung.Wss.Replay.Journal.{
  Text, IsLawful, IsWord, has_prefix, complete_lines, terminated, drop_cr, split_space, line,
  encode_record, encode_all, parse_key, parse_expiry, parse_parts, parse_record,
}
use openrung.Wss.Replay.{
  consumed, done, before_rename, after_rename, synced, torn, consume, consume_valid, consume_key,
  compact_and_append, append_record, compact, should_compact, threshold, contains, insert_key,
  expire, prune, prune_from, valid_id, valid_byte, all_valid, new_replay_index,
  max_replay_journal_bytes, load_record, load_lines, read_journal, finish_load, load, open_store,
}
use openrung.Wss.Replay.Safety.{
  Event, opens, consumes, crash, step, run, no_journal, consume-run, read_journal-run,
}

abbrev shift : Bytes → Bytes
shift [] = []
shift (c ∷ cs) = (c + 33) ∷ shift cs

abbrev unshift : Bytes → Bytes
unshift [] = []
unshift (c ∷ cs) = (c - 33) ∷ unshift cs

abbrev pad : Bytes → Bytes
pad s = 33 ∷ 33 ∷ 33 ∷ 33 ∷ 33 ∷ 33 ∷ 33 ∷ 33 ∷ 33 ∷ 33 ∷ 33 ∷ s

abbrev unpad : Bytes → Option Bytes
unpad (a ∷ b ∷ c ∷ d ∷ e ∷ f ∷ g ∷ h ∷ i ∷ j ∷ k ∷ s) = some (unshift s)
unpad _ = none

abbrev zeros : ℕ → Bytes
zeros zero = []
zeros (suc n) = 0 ∷ zeros n

abbrev digit : Bytes → Option ℕ
digit (c ∷ []) = some (c - 48)
digit _ = none

abbrev plain : Text
plain = record {
  hash = λ s. take 32 (s ++ zeros 32);
  encode64 = λ k. pad (shift k);
  decode64 = unpad;
  format_int = λ n. (n + 48) ∷ [];
  parse_int = digit;
}

unshift-shift : (s : Bytes) → unshift (shift s) ≡ s
unshift-shift [] = refl
unshift-shift (c ∷ cs) =
    ap (λ r. (c + 33 - 33) ∷ r) (unshift-shift cs) ∙ ap (λ n. n ∷ cs) (omega arith)

shift-IsWord : (s : Bytes) → All IsWord (shift s)
shift-IsWord [] = tt
shift-IsWord (c ∷ cs) =
    ((λ h. omega (arith, h), λ h. omega (arith, h), λ h. omega (arith, h)), shift-IsWord cs)

length-shift : (s : Bytes) → length (shift s) ≡ length s
length-shift [] = refl
length-shift (c ∷ cs) = omega (arith, length-shift cs)

pad-IsWord : IsWord 33
pad-IsWord = (λ h. omega (arith, h), λ h. omega (arith, h), λ h. omega (arith, h))

plain-IsLawful : IsLawful plain
plain-IsLawful = record {
  length-hash = λ s. omega (arith, length-take 32 (s ++ zeros 32), length-append s (zeros 32));
  decode-encode = λ k _. ap some (unshift-shift k);
  encode_word = λ k. (
    pad-IsWord,
    (
      pad-IsWord,
      (
        pad-IsWord,
        (
          pad-IsWord,
          (
            pad-IsWord,
            (
              pad-IsWord,
              (pad-IsWord, (pad-IsWord, (pad-IsWord, (pad-IsWord, (pad-IsWord, shift-IsWord k))))),
            ),
          ),
        ),
      ),
    ),
  );
  length-encode = λ k h. omega (arith, length-shift k, h);
  parse-format = λ n _. ap some (omega arith);
  format_word = λ n. ((λ h. omega (arith, h), λ h. omega (arith, h), λ h. omega (arith, h)), tt);
  length-format = λ n _. omega arith;
}

abbrev letters : ℕ → Bytes
letters zero = []
letters (suc n) = 97 ∷ letters n

abbrev first_id : Bytes
first_id = letters 16

abbrev second_id : Bytes
second_id = letters 17

abbrev opening : List Event
opening = opens 2 0 done ∷ []

abbrev troubles : List Event
troubles =
    crash
    ∷ opens 2 20 after_rename
    ∷ opens 2 21 done
    ∷ consumes second_id 90 22 done (torn 7)
    ∷ crash
    ∷ opens 2 30 before_rename
    ∷ opens 2 31 done
    ∷ []

-- The first consumption succeeds.
first_consume :
    (consume plain (run plain no_journal opening) first_id 100 5 done synced).1 ≡ consumed
unfolding run step consume consume_valid consume_key compact_and_append append_record compact
    should_compact threshold contains insert_key expire prune prune_from valid_id valid_byte
    all_valid new_replay_index max_replay_journal_bytes load_record load_lines read_journal
    finish_load load open_store lookup insert remove place bytes_eq has_prefix complete_lines
    terminated drop_cr split_space line encode_record encode_all parse_key parse_expiry parse_parts
    parse_record
first_consume = refl

-- After a torn record and failed compactions another identifier can still be consumed.
later_consume :
    (consume plain
      (run plain
        (consume plain (run plain no_journal opening) first_id 100 5 done synced).0
        troubles)
      second_id
      90
      40
      done
      synced).1
    ≡ consumed
unfolding run step consume consume_valid consume_key compact_and_append append_record compact
    should_compact threshold contains insert_key expire prune prune_from valid_id valid_byte
    all_valid new_replay_index max_replay_journal_bytes load_record load_lines read_journal
    finish_load load open_store lookup insert remove place bytes_eq has_prefix complete_lines
    terminated drop_cr split_space line encode_record encode_all parse_key parse_expiry parse_parts
    parse_record
later_consume = refl

consume-run_example :
    (consume plain
      (run plain
        (consume plain (run plain no_journal opening) first_id 100 5 done synced).0
        troubles)
      first_id
      200
      50
      done
      synced).1
    ≢ consumed
consume-run_example =
    consume-run plain plain-IsLawful opening troubles first_id 100 5 done synced 200 50 done synced
      (tt, tt) (omega arith) first_consume
      (
        tt,
        (
          omega arith,
          (omega arith, ((omega arith, omega arith), (tt, (omega arith, (omega arith, tt))))),
        ),
      )
      (omega arith)

read_journal-run_example : read_journal plain (run plain no_journal troubles).file 60 ≢ none
read_journal-run_example =
    read_journal-run plain plain-IsLawful troubles 60
      (tt, (tt, (tt, ((omega arith, tt), (tt, (tt, (tt, tt)))))))
