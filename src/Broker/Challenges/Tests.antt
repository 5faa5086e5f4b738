-- ===== src/Broker/Challenges/Tests.antt =====
-- A table of two challenges that live for 60 ticks.
use openrung.Base.{◌+◌, ◌≤◌, ◌≡◌, refl, false, List, [], ◌∷◌, some, arith, ltb, ite, if◌then◌else◌}
use openrung.Base.Bytes.{Bytes, bytes_eq}
use openrung.Base.Map.{is_some, lookup}
use openrung.Broker.Challenges.{ChallengeTable, new_challenge_table, issue, consume}
use openrung.Broker.Challenges.SingleUse.{IsValid, outstanding, outstanding-issue}
use openrung.Broker.Challenges.Traces.{
  Call, issues, consumes, sum_over, accepted, handed_out, accepted-le-handed_out,
}

abbrev alpha : Bytes
alpha = 97 ∷ []

abbrev beta : Bytes
beta = 98 ∷ []

abbrev one_out : ChallengeTable
one_out = record { ttl = 60; max_entries = 2; entries = (alpha, 100) ∷ [] }

one_out-IsValid : IsValid one_out
unfolding lookup
one_out-IsValid = record { unique = (refl, tt); bounded = omega arith }

outstanding-issue_example : outstanding (issue one_out (some beta) 50).0 beta 109 ≡ (
    if is_some (issue one_out (some beta) 50).1
    then ite (bytes_eq beta beta) (ltb 109 (50 + 60)) (outstanding one_out beta 109)
    else outstanding one_out beta 109)
outstanding-issue_example = outstanding-issue one_out beta beta 50 109 one_out-IsValid (omega arith)

abbrev two_tries : List Call
two_tries = issues (some alpha) 10 ∷ consumes alpha 20 ∷ consumes alpha 21 ∷ consumes beta 22 ∷ []

second_try_fails : (consume (consume (issue one_out (some beta) 50).0 beta 60).0 beta 61).1 ≡ false
unfolding issue consume
second_try_fails = refl

accepted-le-handed_out_example :
    sum_over (accepted alpha) (new_challenge_table 60 2) two_tries
    ≤ sum_over (handed_out alpha) (new_challenge_table 60 2) two_tries
accepted-le-handed_out_example = accepted-le-handed_out 60 2 alpha two_tries
