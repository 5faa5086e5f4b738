-- ===== src/Broker/Store/Users.antt =====
-- internal/broker/store_access.go and users.go: client users, and the budget on new ones.
use openrung.Base.{
  ℕ, zero, suc, ◌+◌, Bool, true, false, ◌||◌, List, [], ◌∷◌, Option, none, some, ltb, ◌==◌,
  if◌then◌else◌,
}
use openrung.Base.Int.{ℤ, pos, negsuc, sub_ℕ, less, is_zero, positive_or}
use openrung.Base.Bytes.{Bytes, bytes_eq}
use openrung.Base.Map.{lookup, insert, keep}
use openrung.Broker.Store.{
  Store, User, UserStatus, enabled, disabled, EnrollmentCounter, Error, Result, ok, err,
  user_not_found, invalid_user_status, mint_failed, enrollment_limited,
}
use openrung.Broker.Store.Leases.{revoke_user_leases}

-- EnrollmentWindow; the limit is positive, since `windows` drops the others.
pub record EnrollmentWindow : Type 0 where
  pub name : Bytes
  pub limit : ℕ
  pub window : ℕ

-- EnrollmentBudget, as configured.
pub record EnrollmentBudget : Type 0 where
  pub burst_limit : ℤ
  pub burst_window : ℤ
  pub daily_limit : ℤ
  pub daily_window : ℤ

abbrev pub burst_name : Bytes
burst_name = 98 ∷ 117 ∷ 114 ∷ 115 ∷ 116 ∷ []

abbrev pub day_name : Bytes
day_name = 100 ∷ 97 ∷ 121 ∷ []

-- A window of `windows`: a limit of 0 is the default one, and a negative limit drops the window.
unfoldable pub window_of : Bytes → ℤ → ℕ → ℤ → ℕ → List EnrollmentWindow → List EnrollmentWindow
window_of name (pos n) d w e rest =
    record { name = name; limit = if n == 0 then d else n; window = positive_or w e } ∷ rest
window_of name (negsuc n) d w e rest = rest

-- `windows`
unfoldable pub windows : EnrollmentBudget → List EnrollmentWindow
unfolding window_of
windows b =
    window_of burst_name b.burst_limit 3 b.burst_window 3_600_000_000_000
      (window_of day_name b.daily_limit 10 b.daily_window 86_400_000_000_000 [])

abbrev pub Counters : Type 0
Counters = List (Bytes × EnrollmentCounter)

-- The counter of a window with one more enrollment, begun anew where its time is over.
unfoldable pub charge : Counters → ℕ → EnrollmentWindow → EnrollmentCounter
unfolding lookup bytes_eq
charge counters now w = elim (lookup bytes_eq w.name counters) [
  | none ↦ record { window_start = now; window = w.window; count = 1 }
  | some c ↦
      if ltb now (c.window_start + c.window)
      then record { window_start = c.window_start; window = w.window; count = c.count + 1 }
      else record { window_start = now; window = w.window; count = 1 }
]

-- The loop over the windows: the earliest wait of an exceeded window (0 if there is none) and the
-- new counters.
unfoldable pub charge_all : Counters → ℕ → List EnrollmentWindow → ℤ → Counters → ℤ × Counters
charge_all counters now [] retry next = (retry, next)
charge_all counters now (w ∷ ws) retry next =
    let c = charge counters now w in
    let wait = sub_ℕ (c.window_start + c.window) now in
    charge_all counters now ws
      (if ltb w.limit c.count
        then (if is_zero retry || less wait retry then wait else retry)
        else retry)
      (insert bytes_eq w.name c next)

-- counters[name] = counter over the new counters.
unfoldable pub merge : Counters → Counters → Counters
merge counters [] = counters
merge counters ((name, c) ∷ next) = merge (insert bytes_eq name c counters) next

abbrev pub zero_user : User
zero_user = record {
  id = [];
  public_key = [];
  status = disabled;
  created_at = 0;
  last_auth_at = 0;
  disabled_at = 0;
  disabled_reason = [];
}

unfoldable pub user_or_zero : Store → Bytes → User
user_or_zero s id = elim (lookup bytes_eq id s.users) [ none ↦ zero_user | some u ↦ u ]

unfoldable pub counters_of : Store → Bytes → Counters
counters_of s source = elim (lookup bytes_eq source s.enrollment) [ none ↦ [] | some c ↦ c ]

-- The enrollment of a new identity, after its charge.
unfoldable pub enroll : Store → Bytes → Option Bytes → ℕ → Store × Result (User × Bool)
enroll s key none now = (s, err mint_failed)
enroll s key (some id) now =
    let u : User = record {
      id = id;
      public_key = key;
      status = enabled;
      created_at = now;
      last_auth_at = now;
      disabled_at = 0;
      disabled_reason = [];
    } in
    (
      record s {
        users = insert bytes_eq id u s.users;
        user_ids_by_key = insert bytes_eq key id s.user_ids_by_key;
      },
      ok (u, true),
    )

-- s.enrollment[source] = counters, if there are any.
unfoldable pub put_counters : Store → Bytes → Counters → Store
put_counters s source [] = s
put_counters s source (c ∷ cs) = record s {
  enrollment = insert bytes_eq source (c ∷ cs) s.enrollment;
}

-- What follows the evaluation of the windows.
unfoldable pub settle :
    Store → Bytes → Bytes → Option Bytes → ℕ → ℤ × Counters → Store × Result (User × Bool)
settle s key source minted now (pos (suc n), next) = (s, err (enrollment_limited (suc n)))
settle s key source minted now (pos zero, next) =
    enroll (put_counters s source (merge (counters_of s source) next)) key minted now
settle s key source minted now (negsuc n, next) =
    enroll (put_counters s source (merge (counters_of s source) next)) key minted now

-- `AuthenticateUser`; `minted` is the result of newUserID.
unfoldable pub authenticate_user :
    Store
    → Bytes
    → Bytes
    → List EnrollmentWindow
    → Option Error
    → Option Bytes
    → ℕ
    → Store × Result (User × Bool)
authenticate_user s key source ws refuse_new minted now =
    elim (lookup bytes_eq key s.user_ids_by_key) [
      | some id ↦
          let u : User = record (user_or_zero s id) { last_auth_at = now } in
          (record s { users = insert bytes_eq id u s.users }, ok (u, false))
      | none ↦ elim refuse_new [
        | some e ↦ (s, err e)
        | none ↦
            settle s key source minted now (charge_all (counters_of s source) now ws (pos 0) [])
      ]
    ]

-- `UserByID`
unfoldable pub user_by_id : Store → Bytes → Result User
user_by_id s id = elim (lookup bytes_eq id s.users) [ none ↦ err user_not_found | some u ↦ ok u ]

-- `SetUserStatus`; a status that is neither of the two is `none`. The result has the relays to
-- wake.
unfoldable pub set_user_status :
    Store → Bytes → Option UserStatus → Bytes → ℕ → Store × Result (User × List Bytes)
set_user_status s id none reason now = (s, err invalid_user_status)
set_user_status s id (some status) reason now = elim (lookup bytes_eq id s.users) [
  | none ↦ (s, err user_not_found)
  | some u ↦ elim status [
    | disabled ↦
        let (t, changed) = revoke_user_leases s id now in
        let v : User = record u {
          status = disabled;
          disabled_at = now;
          disabled_reason = reason;
        } in
        (record t { users = insert bytes_eq id v t.users }, ok (v, changed))
    | enabled ↦
        let v : User = record u { status = enabled; disabled_at = 0; disabled_reason = [] } in
        (record s { users = insert bytes_eq id v s.users }, ok (v, []))
  ]
]

-- `pruneEnrollmentLocked`
unfoldable pub prune_counters : ℕ → List (Bytes × Counters) → List (Bytes × Counters)
prune_counters now [] = []
prune_counters now ((source, counters) ∷ rest) =
    let left = keep (λ (c : EnrollmentCounter). ltb now (c.window_start + c.window)) counters in
    elim left [ [] ↦ prune_counters now rest | c ∷ cs ↦ (source, c ∷ cs) ∷ prune_counters now rest ]

unfoldable pub prune_enrollment : Store → ℕ → Store
unfolding prune_counters
prune_enrollment s now = record s { enrollment = prune_counters now s.enrollment }
