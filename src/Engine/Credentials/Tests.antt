-- ===== src/Engine/Credentials/Tests.antt =====
-- internal/relayruntime: a rotation at concrete times, where every code is the identity of its input.
use openrung.Base.{ℕ, ◌≡◌, ◌*◌, ◌⊎◌, refl, true, List, [], ◌∷◌, ◌++◌, arith, All}
use openrung.Base.Bytes.{Bytes, bytes_eq}
use openrung.Base.Map.{lookup, insert}
use openrung.Engine.Credentials.Schedule.{
  Derivation, Credential, CredentialSchedule, bucket_of, credential_email, credential,
  current_credential, previous_credential,
}
use openrung.Engine.Credentials.{
  CredentialRotation, ensure, announced, announce, is_kept, retire_each, retire, serving,
  no_contact, Beat, settle_reply, exchange, keep_confirmed,
}
use openrung.Engine.Credentials.Announced.{IsAccepted, exchange-IsAccepted}
use openrung.Engine.Credentials.Retired.{Recent, exchange_all, exchange_all-Recent}

abbrev plain : Derivation
plain = record { hmac = λ key s. s ++ s; format_int = λ n. n ∷ []; format_time = λ t. t ∷ [] }

abbrev hour : ℕ
hour = 3_600_000_000_000

abbrev schedule : CredentialSchedule
schedule = record { key = []; period = hour }

-- A rotation that has the credentials of the first two hours of a day.
abbrev rotation : CredentialRotation
rotation = record {
  schedule = schedule;
  registered =
      ((99 ∷ 114 ∷ 101 ∷ 100 ∷ 45 ∷ 3600 ∷ []), record { id = 1 ∷ []; email = []; bucket = hour })
      ∷ (
        (99 ∷ 114 ∷ 101 ∷ 100 ∷ 45 ∷ 7200 ∷ []),
        record { id = 2 ∷ []; email = []; bucket = 2 * hour },
      )
      ∷ [];
  confirmed = 1 ∷ [];
  last_contact = 2 * hour;
}

-- A heartbeat in the third hour that the broker does not answer.
abbrev beat : Beat
beat = record { now = 4 * hour; added = true; reply = no_contact; removed = λ email. true }

exchange-IsAccepted_example :
    ((exchange plain rotation beat).1 ≡ [])
    ⊎ IsAccepted plain (exchange plain rotation beat).0 (4 * hour) (exchange plain rotation beat).1
exchange-IsAccepted_example = exchange-IsAccepted plain rotation beat

exchange_all-Recent_example :
    All
      (Recent plain (exchange plain (exchange_all plain rotation (beat ∷ [])) beat).0 (4 * hour))
      (exchange plain (exchange_all plain rotation (beat ∷ [])) beat).0.registered
exchange_all-Recent_example =
    exchange_all-Recent plain rotation (beat ∷ []) beat (refl, tt) refl (λ email. refl)
      (omega arith)

abbrev emails : List (Bytes × Credential) → List Bytes
emails [] = []
emails ((email, x) ∷ m) = email ∷ emails m

-- Of the past periods nothing is left.
retires :
    emails (exchange plain rotation beat).0.registered
    ≡ (99 ∷ 114 ∷ 101 ∷ 100 ∷ 45 ∷ 14400 ∷ []) ∷ []
unfolding exchange announce ensure announced retire retire_each is_kept keep_confirmed settle_reply
    current_credential previous_credential credential credential_email bucket_of lookup insert
    bytes_eq
retires = refl

-- A broker that was heard serves the credential on.
abbrev answered : Beat
answered = record beat { now = 3 * hour; reply = serving (1 ∷ []) }
