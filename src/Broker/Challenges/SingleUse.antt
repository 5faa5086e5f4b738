-- ===== src/Broker/Challenges/SingleUse.antt =====
-- A challenge buys one attempt, within its lifetime, and the table is bounded.
use openrung.Base.{
  ℕ, ◌+◌, ◌≤◌, ◌≡◌, inl, inr, Bool, Option, none, some, arith, leb, ltb, if◌then◌else◌, if_elim,
  ite, length, Option-cases,
}
use openrung.Base.Bytes.{Bytes, bytes_eq}
use openrung.Base.Map.{
  lookup, is_some, lookup-insert, lookup-keep, Unique, insert-Unique, remove-Unique, keep-Unique,
  length-insert, length-remove-le, length-keep-le,
}
use openrung.Broker.Challenges.{ChallengeTable, make_room, issue, consume}

pub record IsValid (t : ChallengeTable) : Type 0 where
  pub unique : Unique bytes_eq t.entries
  pub bounded : length t.entries ≤ t.max_entries

-- Whether a challenge would be accepted at a time.
abbrev pub outstanding : ChallengeTable → Bytes → ℕ → Bool
outstanding t challenge now = (consume t challenge now).1

pub make_room-IsValid : (t : ChallengeTable) (now : ℕ) → IsValid t → IsValid (make_room t now)
unfolding make_room
make_room-IsValid t now v =
    if_elim IsValid (leb t.max_entries (length t.entries))
      (λ _. record {
        unique = keep-Unique bytes_eq (λ e. ltb now e) t.entries v.unique;
        bounded = omega (arith, length-keep-le (λ e. ltb now e) t.entries, v.bounded);
      })
      (λ _. v)

pub issue-IsValid :
    (t : ChallengeTable) (r : Option Bytes) (now : ℕ) → IsValid t → IsValid (issue t r now).0
unfolding issue
issue-IsValid t none now v = v
issue-IsValid t (some c) now v =
    let w = make_room-IsValid t now v in
    if_elim (λ (r : ChallengeTable × Option (Bytes × ℕ)). IsValid r.0)
      (leb (make_room t now).max_entries (length (make_room t now).entries)) (λ _. w)
      (λ room. record {
        unique = insert-Unique bytes_eq c (now + t.ttl) (make_room t now).entries w.unique;
        bounded =
            ground
              (arith, length-insert bytes_eq c (now + t.ttl) (make_room t now).entries, room, w);
      })

pub consume-IsValid :
    (t : ChallengeTable) (c : Bytes) (now : ℕ) → IsValid t → IsValid (consume t c now).0
unfolding consume
consume-IsValid t c now v = elim (Option-cases (lookup bytes_eq c t.entries)) [
  | inl e ↦ rw (e, consume) v
  | inr (x, e) ↦
      rw (e, consume)
        (record {
          unique = remove-Unique bytes_eq c t.entries v.unique;
          bounded = omega (arith, length-remove-le bytes_eq c t.entries, v.bounded);
        })
]

outstanding-make_room :
    (t : ChallengeTable) (j : Bytes) (now later : ℕ)
    → Unique bytes_eq t.entries
    → now ≤ later
    → outstanding (make_room t now) j later ≡ outstanding t j later
unfolding make_room consume
outstanding-make_room t j now later u le =
    ground (arith, lookup-keep bytes_eq (λ e. ltb now e) j t.entries u)

-- A challenge that `issue` hands out is accepted at every later time before its expiry and at
-- none after it, and the verdict on every other challenge stays as it was; where `issue` fails
-- no verdict changes.
pub outstanding-issue :
    (t : ChallengeTable) (c j : Bytes) (now later : ℕ)
    → IsValid t
    → now ≤ later
    → outstanding (issue t (some c) now).0 j later ≡ (
        if is_some (issue t (some c) now).1
        then ite (bytes_eq j c) (ltb later (now + t.ttl)) (outstanding t j later)
        else outstanding t j later)
unfolding issue consume
outstanding-issue t c j now later v le = ground (
  arith,
  outstanding-make_room t j now later v.unique le,
  lookup-insert bytes_eq c j (now + t.ttl) (make_room t now).entries,
)
