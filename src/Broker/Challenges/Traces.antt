-- ===== src/Broker/Challenges/Traces.antt =====
-- Sequences of calls on the challenge table: its bound, and how often a challenge is accepted.
use openrung.Base.{
  ℕ, ◌+◌, ◌≤◌, Bool, true, false, List, [], ◌∷◌, Option, none, some, arith, ltb, if◌then◌else◌, ite,
}
use openrung.Base.Bytes.{Bytes, bytes_eq}
use openrung.Base.Map.{lookup, is_some, lookup-insert, lookup-remove, lookup-keep}
use openrung.Broker.Challenges.{ChallengeTable, new_challenge_table, make_room, issue, consume}
use openrung.Broker.Challenges.SingleUse.{IsValid, issue-IsValid, consume-IsValid}

-- The calls on the table.
pub data Call : Type 0 where
  issues : Option Bytes → ℕ → Call
  consumes : Bytes → ℕ → Call

unfoldable pub step : ChallengeTable → Call → ChallengeTable
step t (issues r now) = (issue t r now).0
step t (consumes c now) = (consume t c now).0

unfoldable pub run : ChallengeTable → List Call → ChallengeTable
unfolding step
run t [] = t
run t (x ∷ xs) = run (step t x) xs

step-IsValid : (t : ChallengeTable) (x : Call) → IsValid t → IsValid (step t x)
unfolding step
step-IsValid t (issues r now) v = issue-IsValid t r now v
step-IsValid t (consumes c now) v = consume-IsValid t c now v

-- After any sequence of calls the table has no challenge twice and is within its bound.
pub run-IsValid : (t : ChallengeTable) (cs : List Call) → IsValid t → IsValid (run t cs)
unfolding run
run-IsValid t [] v = v
run-IsValid t (x ∷ xs) v = run-IsValid (step t x) xs (step-IsValid t x v)

unfoldable pub bit : Bool → ℕ
bit true = 1
bit false = 0

-- How often a challenge was handed out, and how often it was accepted.
unfoldable pub handed_out : Bytes → ChallengeTable → Call → ℕ
unfolding bit
handed_out c t (issues none now) = 0
handed_out c t (issues (some d) now) =
    if is_some (issue t (some d) now).1 then ite (bytes_eq c d) 1 0 else 0
handed_out c t (consumes d now) = 0

unfoldable pub accepted : Bytes → ChallengeTable → Call → ℕ
unfolding bit
accepted c t (issues r now) = 0
accepted c t (consumes d now) = ite (bytes_eq c d) (bit (consume t d now).1) 0

unfoldable pub sum_over : (ChallengeTable → Call → ℕ) → ChallengeTable → List Call → ℕ
sum_over f t [] = 0
sum_over f t (x ∷ xs) = f t x + sum_over f (step t x) xs

present : Bytes → ChallengeTable → ℕ
unfolding bit
present c t = bit (is_some (lookup bytes_eq c t.entries))

make_room-present :
    (c : Bytes) (t : ChallengeTable) (now : ℕ)
    → IsValid t
    → present c (make_room t now) ≤ present c t
unfolding present make_room
make_room-present c t now v =
    ground (arith, lookup-keep bytes_eq (λ e. ltb now e) c t.entries v.unique)

step-accepted :
    (c : Bytes) (t : ChallengeTable) (x : Call)
    → IsValid t
    → accepted c t x + present c (step t x) ≤ present c t + handed_out c t x
unfolding accepted handed_out step present issue consume
step-accepted c t (issues none now) v = omega arith
step-accepted c t (issues (some d) now) v = ground (
  arith,
  make_room-present c t now v,
  lookup-insert bytes_eq d c (now + t.ttl) (make_room t now).entries,
)
step-accepted c t (consumes d now) v = ground (arith, lookup-remove bytes_eq d c t.entries)

run-accepted :
    (c : Bytes) (t : ChallengeTable) (xs : List Call)
    → IsValid t
    → sum_over (accepted c) t xs ≤ present c t + sum_over (handed_out c) t xs
unfolding sum_over
run-accepted c t [] v = omega arith
run-accepted c t (x ∷ xs) v =
    omega (arith, step-accepted c t x v, run-accepted c (step t x) xs (step-IsValid t x v))

new_challenge_table-IsValid : (ttl n : ℕ) → IsValid (new_challenge_table ttl n)
unfolding new_challenge_table
new_challenge_table-IsValid ttl n = record { unique = tt; bounded = omega arith }

-- On a new table, whatever the calls and their order, a challenge is accepted at most as often as
-- it was handed out.
pub accepted-le-handed_out :
    (ttl n : ℕ) (c : Bytes) (xs : List Call)
    → let t = new_challenge_table ttl n in sum_over (accepted c) t xs ≤ sum_over (handed_out c) t xs
unfolding present lookup new_challenge_table
accepted-le-handed_out ttl n c xs =
    omega (arith, run-accepted c (new_challenge_table ttl n) xs (new_challenge_table-IsValid ttl n))
