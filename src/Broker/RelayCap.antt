-- ===== src/Broker/RelayCap.antt =====
-- internal/broker/registration_cap.go: how many new relay identities one source may register in a
-- trailing window. Times are in milliseconds. net/netip and strings.TrimSpace are the interface
-- `NetIp`.
pub mod Window
pub mod Trailing
mod Tests
use openrung.Base.{
  ℕ, zero, suc, ◌+◌, Bool, true, false, not, ◌&&◌, List, [], ◌∷◌, ◌++◌, Option, none, some, ltb,
  leb, ◌==◌, if◌then◌else◌, length, filter, any,
}
use openrung.Base.Int.{ℤ, pos, negsuc}
use openrung.Base.Bytes.{Bytes, bytes_eq}
use openrung.Base.Map.{lookup, insert, keep, is_some}

-- What the code calls of net/netip (and strings.TrimSpace).
pub record NetIp : Type 1 where
  pub Addr : Type 0
  pub Prefix : Type 0
  pub trim_space : Bytes → Bytes
  pub parse_addr : Bytes → Option Addr
  pub unmap : Addr → Addr
  pub is6 : Addr → Bool
  pub prefix64 : Addr → Option Bytes
  pub to_string : Addr → Bytes
  pub contains : Prefix → Addr → Bool

-- `sourceBucketKey`; `prefix64` is addr.Prefix(64) as text.
unfoldable pub source_bucket_key : (n : NetIp) → Bytes → Bytes
source_bucket_key n source = elim (n.parse_addr (n.trim_space source)) [
  | none ↦ source
  | some a ↦
      let addr = n.unmap a in
      if n.is6 addr
      then (elim (n.prefix64 addr) [ some grouped ↦ grouped | none ↦ n.to_string addr ])
      else n.to_string addr
]

-- The method `key`: `none` is an exempt source.
unfoldable pub key : (n : NetIp) → List n.Prefix → Bytes → Option Bytes
unfolding any
key n exempt source = elim (n.parse_addr (n.trim_space source)) [
  | none ↦ some source
  | some a ↦
      if any (λ p. n.contains p (n.unmap a)) exempt then none else some (source_bucket_key n source)
]

pub record RelayCap : Type 0 where
  pub limit : ℤ
  pub window : ℕ
  pub max_keys : ℕ
  pub sources : List (Bytes × List ℕ)

abbrev pub default_max_new_relay_ids_per_day : ℤ
default_max_new_relay_ids_per_day = pos 64

-- `newNewRelayCap`, less the parsing of the exempt networks.
unfoldable pub new_new_relay_cap : ℤ → ℕ → ℕ → RelayCap
new_new_relay_cap limit window max_keys = record {
  limit = elim limit [
    | pos n ↦ if n == 0 then default_max_new_relay_ids_per_day else pos n
    | negsuc n ↦ negsuc n
  ];
  window = window;
  max_keys = max_keys;
  sources = [];
}

-- at > now - window
unfoldable pub is_live : ℕ → ℕ → ℕ → Bool
is_live window now at = ltb now (at + window)

-- `sweepLocked`
unfoldable pub sweep : ℕ → ℕ → List (Bytes × List ℕ) → List (Bytes × List ℕ)
unfolding any keep is_live
sweep window now = keep (any (is_live window now))

-- The unit that a reservation holds; `none` is the release that does nothing.
pub record Reservation : Type 0 where
  pub key : Bytes
  pub stamp : ℕ
  pub released : Bool

unfoldable pub stamps : RelayCap → Bytes → List ℕ
unfolding lookup bytes_eq
stamps c k = elim (lookup bytes_eq k c.sources) [ none ↦ [] | some xs ↦ xs ]

unfoldable pub tracked : RelayCap → Bytes → Bool
unfolding lookup bytes_eq
tracked c k = is_some (lookup bytes_eq k c.sources)

unfoldable pub put : RelayCap → Bytes → List ℕ → RelayCap
unfolding insert bytes_eq
put c k xs = record c { sources = insert bytes_eq k xs c.sources }

unfoldable pub grant : RelayCap → Bytes → List ℕ → ℕ → RelayCap × Option Reservation × Bool
grant c k kept now =
    (put c k (kept ++ now ∷ []), some (record { key = k; stamp = now; released = false }), true)

-- `reserve` below the lock, on the accounting key, for a limit that is not negative.
unfoldable pub reserve_key : RelayCap → ℕ → Bytes → ℕ → RelayCap × Option Reservation × Bool
unfolding grant
reserve_key c limit k now =
    let kept = filter (is_live c.window now) (stamps c k) in
    if leb limit (length kept)
    then (put c k kept, none, false)
    else if not (tracked c k) && leb c.max_keys (length c.sources)
    then (let d : RelayCap = record c { sources = sweep c.window now c.sources } in
        if leb d.max_keys (length d.sources) then (d, none, true) else grant d k kept now)
    else grant c k kept now

-- `reserve`: the release to call if the registration fails, and whether it is admitted.
unfoldable pub reserve :
    (n : NetIp) → List n.Prefix → RelayCap → Bytes → ℕ → RelayCap × Option Reservation × Bool
unfolding key reserve_key
reserve n exempt c source now = elim c.limit [
  | negsuc _ ↦ (c, none, true)
  | pos limit ↦ elim (key n exempt source) [
    | none ↦ (c, none, true)
    | some k ↦ reserve_key c limit k now
  ]
]

-- The loop of the release: the last stamp that equals the reservation's is taken out.
unfoldable pub remove_last : ℕ → List ℕ → List ℕ
unfolding any
remove_last at [] = []
remove_last at (x ∷ xs) =
    let rest = remove_last at xs in
    if any (λ y. y == at) xs then x ∷ rest else if x == at then xs else x ∷ xs

-- The function that `reserve` returns, called on the reservation.
unfoldable pub release : RelayCap → Reservation → RelayCap × Reservation
release c r = if r.released then (c, r) else (
  if any (λ y. y == r.stamp) (stamps c r.key)
      then put c r.key (remove_last r.stamp (stamps c r.key))
      else c,
  record r { released = true },
)
