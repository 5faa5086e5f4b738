-- ===== src/Broker/Challenges.antt =====
-- internal/broker/users.go, `challengeTable`: the sign-in challenges that are outstanding.
-- The random bytes of a challenge, or their failure, are an argument of `issue`.
pub mod SingleUse
pub mod Traces
mod Tests
use openrung.Base.{
  ℕ, ◌+◌, Bool, true, false, List, [], ◌∷◌, Option, none, some, ltb, leb, if◌then◌else◌, length,
}
use openrung.Base.Bytes.{Bytes, bytes_eq}
use openrung.Base.Map.{lookup, insert, remove, keep}

pub record ChallengeTable : Type 0 where
  pub ttl : ℕ
  pub max_entries : ℕ
  pub entries : List (Bytes × ℕ)

unfoldable pub new_challenge_table : ℕ → ℕ → ChallengeTable
new_challenge_table ttl max_entries = record { ttl = ttl; max_entries = max_entries; entries = [] }

-- The sweep of a full table.
unfoldable pub make_room : ChallengeTable → ℕ → ChallengeTable
unfolding keep
make_room t now =
    if leb t.max_entries (length t.entries)
    then record t { entries = keep (λ expiry. ltb now expiry) t.entries }
    else t

-- `issue`; the result is the challenge and its expiry.
unfoldable pub issue : ChallengeTable → Option Bytes → ℕ → ChallengeTable × Option (Bytes × ℕ)
unfolding make_room insert bytes_eq
issue t none now = (t, none)
issue t (some challenge) now =
    let u = make_room t now in
    if leb u.max_entries (length u.entries) then (u, none) else (
      record u { entries = insert bytes_eq challenge (now + t.ttl) u.entries },
      some (challenge, now + t.ttl),
    )

-- `consume`
unfoldable pub consume : ChallengeTable → Bytes → ℕ → ChallengeTable × Bool
unfolding lookup remove bytes_eq
consume t challenge now = elim (lookup bytes_eq challenge t.entries) [
  | none ↦ (t, false)
  | some expiry ↦ (record t { entries = remove bytes_eq challenge t.entries }, ltb now expiry)
]
