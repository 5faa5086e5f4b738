-- ===== src/Broker/Ledger.antt =====
-- internal/broker/relayledger.go: the relay IDs that the broker has leased within the retention
-- time. A test now - seenAt <= ttl is written now <= seenAt + ttl.
pub mod Coverage
mod Tests
use openrung.Base.{
  ℕ, ◌+◌, ◌-◌, Bool, true, false, not, ◌&&◌, List, [], ◌∷◌, Option, none, some, ltb, leb,
  if◌then◌else◌, length,
}
use openrung.Base.Bytes.{Bytes, bytes_eq}
use openrung.Base.Map.{lookup, insert, remove, keep, is_some}

pub record Entry : Type 0 where
  pub seen_at : ℕ
  pub node_class : Bytes

pub record RelayIdLedger : Type 0 where
  pub ttl : ℕ
  pub max_entries : ℕ
  pub seen : List (Bytes × Entry)

unfoldable pub new_relay_id_ledger : ℕ → ℕ → RelayIdLedger
new_relay_id_ledger ttl max_entries = record { ttl = ttl; max_entries = max_entries; seen = [] }

-- now.Sub(entry.seenAt) <= l.ttl
unfoldable pub is_fresh : ℕ → ℕ → Entry → Bool
is_fresh ttl now e = leb now (e.seen_at + ttl)

-- `sweepLocked`
unfoldable pub sweep : RelayIdLedger → ℕ → RelayIdLedger
unfolding keep is_fresh
sweep l now = record l { seen = keep (is_fresh l.ttl now) l.seen }

unfoldable pub record_sighting : RelayIdLedger → Bytes → Bytes → ℕ → RelayIdLedger
unfolding insert bytes_eq
record_sighting l id node_class now = record l {
  seen = insert bytes_eq id (record { seen_at = now; node_class = node_class }) l.seen;
}

unfoldable pub covered : RelayIdLedger → Bytes → ℕ → Bool
unfolding lookup bytes_eq is_fresh
covered l id now = elim (lookup bytes_eq id l.seen) [ none ↦ false | some e ↦ is_fresh l.ttl now e ]

-- `rememberIfNew`
unfoldable pub remember_if_new : RelayIdLedger → Bytes → Bytes → ℕ → RelayIdLedger × Bool
unfolding sweep record_sighting covered
remember_if_new l [] node_class now = (l, false)
remember_if_new l (c ∷ cs) node_class now =
    let id = c ∷ cs in
    if not (is_some (lookup bytes_eq id l.seen)) && leb l.max_entries (length l.seen)
    then (let swept = sweep l now in
        if leb swept.max_entries (length swept.seen)
        then (swept, true)
        else (record_sighting swept id node_class now, not (covered l id now)))
    else (record_sighting l id node_class now, not (covered l id now))

-- `lookup`: the class last attested, `none` where the ID is not known.
unfoldable pub lookup_class : RelayIdLedger → Bytes → ℕ → RelayIdLedger × Option Bytes
unfolding is_fresh
lookup_class l id now = elim (lookup bytes_eq id l.seen) [
  | none ↦ (l, none)
  | some e ↦
      if is_fresh l.ttl now e
      then (l, some e.node_class)
      else (record l { seen = remove bytes_eq id l.seen }, none)
]
