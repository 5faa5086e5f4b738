-- ===== src/Engine/Credentials.antt =====
-- internal/relayruntime/engine/credentials.go, with the heartbeat of engine.go: the rotation of a
-- relay's credentials. Whether Xray adds or removes a user, and what the broker answers, are arguments.
pub mod Schedule
pub mod Announced
pub mod Retired
mod Tests
use openrung.Base.{
  ℕ, zero, suc, ◌+◌, ◌-◌, ◌*◌, ◌/◌, ◌%◌, Bool, true, false, not, ◌&&◌, ◌||◌, List, [], ◌∷◌, ◌++◌,
  Option, none, some, ltb, leb, ◌==◌, if◌then◌else◌, ite, length, take, drop,
}
use openrung.Base.Bytes.{Bytes, bytes_eq}
use openrung.Base.Hex.{hex_encode}
use openrung.Base.Map.{lookup, insert, is_some}
use openrung.Engine.Credentials.Schedule.{
  Derivation, Credential, CredentialSchedule, credential_rotation_period, new_credential_schedule,
  bucket_of, next_rotation, unix, change_at, uuid_bytes, format_uuid, credential_key_label,
  email_prefix, credential_email, credential, current_credential, previous_credential,
}

-- credentialRotation; the last contact is 0 until there is one.
pub record CredentialRotation : Type 0 where
  pub schedule : CredentialSchedule
  pub registered : List (Bytes × Credential)
  pub confirmed : Bytes
  pub last_contact : ℕ

-- The rotation that `newCredentialRotation` makes of a schedule.
unfoldable pub new_credential_rotation : CredentialSchedule → CredentialRotation
new_credential_rotation s = record {
  schedule = s;
  registered = [];
  confirmed = [];
  last_contact = 0;
}

-- `ensure`: the rotation, and whether the credential is accepted; `added` is what Xray says.
unfoldable pub ensure : CredentialRotation → Credential → Bool → CredentialRotation × Bool
ensure c x added = elim (lookup bytes_eq x.email c.registered) [
  | some _ ↦ (c, true)
  | none ↦
      if added
      then (record c { registered = insert bytes_eq x.email x c.registered }, true)
      else (c, false)
]

abbrev pub broker_silence_grace : ℕ
broker_silence_grace = 3_600_000_000_000

-- `confirm`
unfoldable pub confirm : CredentialRotation → ℕ → Bytes → CredentialRotation
confirm c now [] = record c { last_contact = now }
confirm c now (b ∷ bs) = record c { last_contact = now; confirmed = b ∷ bs }

-- Equality of byte strings as a test.
abbrev pub same : Bytes → Bytes → Bool
same a b = ite (bytes_eq a b) true false

-- `keepConfirmed`
unfoldable pub keep_confirmed : CredentialRotation → ℕ → Bool
keep_confirmed c now = not (c.last_contact == 0) && leb now (c.last_contact + broker_silence_grace)

-- One attempt of `install`: whether Xray adds the two users, whether the session has ended, and
-- whether the time for Xray's start is over.
pub record Attempt : Type 0 where
  pub previous_added : Bool
  pub current_added : Bool
  pub cancelled : Bool
  pub late : Bool

pub data InstallResult : Type 0 where
  installed not_installed session_ended still_installing : InstallResult

module _ (d : Derivation) where
  -- The two additions of an attempt.
  unfoldable pub try_install : CredentialRotation → ℕ → Attempt → CredentialRotation × Bool
  try_install c now a =
      let (e, first) = ensure c (previous_credential d c.schedule now) a.previous_added in
      if first then ensure e (current_credential d c.schedule now) a.current_added else (e, false)

  -- `install`, which is left where the attempts run out.
  unfoldable pub install_credentials :
      CredentialRotation → ℕ → List Attempt → CredentialRotation × InstallResult
  install_credentials c now [] = (c, still_installing)
  install_credentials c now (a ∷ rest) =
      let (e, good) = try_install c now a in
      let again = install_credentials e now rest in
      if good
      then (e, installed)
      else (if a.cancelled
          then (e, session_ended)
          else (if a.late then (e, not_installed) else again))

  -- What `announce` returns of the registered credentials.
  unfoldable pub announced : CredentialRotation → ℕ → Bytes
  announced c now =
      elim (lookup bytes_eq (current_credential d c.schedule now).email c.registered) [
        | some x ↦ x.id
        | none ↦ elim (lookup bytes_eq (previous_credential d c.schedule now).email c.registered) [
          | some x ↦ x.id
          | none ↦ []
        ]
      ]

  -- `announce`
  unfoldable pub announce : CredentialRotation → ℕ → Bool → CredentialRotation × Bytes
  announce c now added =
      let (e, _) = ensure c (current_credential d c.schedule now) added in (e, announced e now)

  -- The credential is not retired.
  unfoldable pub is_kept : CredentialRotation → ℕ → Bytes → Credential → Bool
  is_kept c now email x =
      same email (current_credential d c.schedule now).email
      || (same email (previous_credential d c.schedule now).email
          || (keep_confirmed c now && same x.id c.confirmed))

  -- The loop of `retire`; `removed` is what Xray says.
  unfoldable pub retire_each :
      CredentialRotation
      → ℕ
      → (Bytes → Bool)
      → List (Bytes × Credential)
      → List (Bytes × Credential)
  retire_each c now removed [] = []
  retire_each c now removed ((email, x) ∷ m) =
      let rest = retire_each c now removed m in
      if is_kept c now email x || not (removed email) then (email, x) ∷ rest else rest

  -- `retire`
  unfoldable pub retire : CredentialRotation → ℕ → (Bytes → Bool) → CredentialRotation
  retire c now removed = record c { registered = retire_each c now removed c.registered }

-- What the broker answers to a heartbeat: the credential that it serves, that it does not know the
-- relay, with the credential of a registration that succeeds, or a failure.
pub data Reply : Type 0 where
  serving : Bytes → Reply
  unknown_relay : Option Bytes → Reply
  no_contact : Reply

-- A heartbeat.
pub record Beat : Type 0 where
  pub now : ℕ
  pub added : Bool
  pub reply : Reply
  pub removed : Bytes → Bool

-- What follows the broker's answer.
unfoldable pub settle_reply : CredentialRotation → ℕ → Reply → CredentialRotation
settle_reply c now (serving id) = confirm c now id
settle_reply c now (unknown_relay none) = c
settle_reply c now (unknown_relay (some id)) = confirm c now id
settle_reply c now no_contact = c

-- `sendHeartbeat`, with what it announces. The check of the access host is one whose answer is
-- that of a registration.
unfoldable pub exchange : Derivation → CredentialRotation → Beat → CredentialRotation × Bytes
exchange d c b =
    let (e, id) = announce d c b.now b.added in
    (retire d (settle_reply e b.now b.reply) b.now b.removed, id)
