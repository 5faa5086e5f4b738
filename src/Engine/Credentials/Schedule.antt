-- ===== src/Engine/Credentials/Schedule.antt =====
-- internal/relayruntime/credential.go: the schedule of credentials and their derivation. HMAC-SHA256 and
-- the formats of numbers and times are the interface `Derivation`. Times are nanoseconds since Go's
-- zero time, to which Truncate rounds.
use openrung.Base.{
  ℕ, zero, suc, ◌+◌, ◌-◌, ◌*◌, ◌/◌, ◌%◌, ◌||◌, [], ◌∷◌, ◌++◌, Option, none, some, ltb, ◌==◌,
  if◌then◌else◌, length, take, drop,
}
use openrung.Base.Bytes.{Bytes}
use openrung.Base.Hex.{hex_encode}

pub record Derivation : Type 0 where
  pub hmac : Bytes → Bytes → Bytes
  -- strconv.FormatInt, and the UTC time of a second as "20060102T150405Z".
  pub format_int : ℕ → Bytes
  pub format_time : ℕ → Bytes

-- Credential
pub record Credential : Type 0 where
  pub id : Bytes
  pub email : Bytes
  pub bucket : ℕ

-- CredentialSchedule
pub record CredentialSchedule : Type 0 where
  pub key : Bytes
  pub period : ℕ

abbrev pub credential_rotation_period : ℕ
credential_rotation_period = 3_600_000_000_000

-- `NewCredentialSchedule`, none where it fails; the period is not negative.
unfoldable pub new_credential_schedule : Bytes → ℕ → Option CredentialSchedule
new_credential_schedule key asked =
    let period = if asked == 0 then credential_rotation_period else asked in
    if ltb (length key) 16 || ltb period 1_000_000_000
    then none
    else some (record { key = key; period = period })

-- `Bucket`
unfoldable pub bucket_of : CredentialSchedule → ℕ → ℕ
bucket_of s now = now / s.period * s.period

-- `NextRotation`
unfoldable pub next_rotation : CredentialSchedule → ℕ → ℕ
next_rotation s now = bucket_of s now + s.period

-- Unix(), of a time since 1970.
unfoldable pub unix : ℕ → ℕ
unix t = t / 1_000_000_000 - 62_135_596_800

-- b[i] = f(b[i])
unfoldable pub change_at : ℕ → (ℕ → ℕ) → Bytes → Bytes
change_at i f [] = []
change_at zero f (b ∷ bs) = f b ∷ bs
change_at (suc i) f (b ∷ bs) = b ∷ change_at i f bs

-- The version and the variant of a random UUID.
unfoldable pub uuid_bytes : Bytes → Bytes
uuid_bytes sum = change_at 8 (λ b. b % 64 + 128) (change_at 6 (λ b. b % 16 + 64) (take 16 sum))

-- The five groups of a UUID's digits.
unfoldable pub format_uuid : Bytes → Bytes
format_uuid b =
    hex_encode (take 4 b)
    ++ (45
        ∷ (hex_encode (take 2 (drop 4 b))
            ++ (45
                ∷ (hex_encode (take 2 (drop 6 b))
                    ++ (45 ∷ (hex_encode (take 2 (drop 8 b)) ++ (45 ∷ hex_encode (drop 10 b))))))))

-- "openrung-cred-v1"
abbrev pub credential_key_label : Bytes
credential_key_label =
    111 ∷ 112 ∷ 101 ∷ 110 ∷ 114 ∷ 117 ∷ 110 ∷ 103 ∷ 45 ∷ 99 ∷ 114 ∷ 101 ∷ 100 ∷ 45 ∷ 118 ∷ 49 ∷ []

-- "cred-"
abbrev pub email_prefix : Bytes
email_prefix = 99 ∷ 114 ∷ 101 ∷ 100 ∷ 45 ∷ []

module _ (d : Derivation) where
  -- `CredentialEmail`
  unfoldable pub credential_email : ℕ → Bytes
  credential_email bucket = email_prefix ++ d.format_time (bucket / 1_000_000_000)

  -- `Credential`
  unfoldable pub credential : CredentialSchedule → ℕ → Credential
  credential s bucket = record {
    id =
        format_uuid
          (uuid_bytes (d.hmac s.key (credential_key_label ++ (124 ∷ d.format_int (unix bucket)))));
    email = credential_email bucket;
    bucket = bucket;
  }

  -- `Current`
  unfoldable pub current_credential : CredentialSchedule → ℕ → Credential
  current_credential s now = credential s (bucket_of s now)

  -- `Previous`
  unfoldable pub previous_credential : CredentialSchedule → ℕ → Credential
  previous_credential s now = credential s (bucket_of s now - s.period)
