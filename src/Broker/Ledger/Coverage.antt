-- ===== src/Broker/Ledger/Coverage.antt =====
-- Which relay IDs the ledger covers, and that it stays within its bound.
use openrung.Base.{
  ℕ, ◌+◌, ◌≤◌, ◌<◌, ◌≡◌, ◌≢◌, ◌⊎◌, refl, Bool, true, not, ◌&&◌, [], ◌∷◌, arith, leb, if_elim, ite,
  length,
}
use openrung.Base.Bytes.{Bytes, bytes_eq}
use openrung.Base.Map.{
  lookup, is_some, lookup-insert, lookup-remove, lookup-keep, Unique, insert-Unique, keep-Unique,
  length-insert, length-keep-le,
}
use openrung.Broker.Ledger.{
  RelayIdLedger, is_fresh, sweep, record_sighting, covered, remember_if_new, lookup_class,
}

pub record IsValid (l : RelayIdLedger) : Type 0 where
  pub unique : Unique bytes_eq l.seen
  pub bounded : length l.seen ≤ l.max_entries

sweep-IsValid : (l : RelayIdLedger) (now : ℕ) → IsValid l → IsValid (sweep l now)
unfolding sweep
sweep-IsValid l now v = record {
  unique = keep-Unique bytes_eq (is_fresh l.ttl now) l.seen v.unique;
  bounded = omega (arith, length-keep-le (is_fresh l.ttl now) l.seen, v.bounded);
}

record_sighting-IsValid :
    (l : RelayIdLedger) (id cls : Bytes) (now : ℕ)
    → IsValid l
    → (is_some (lookup bytes_eq id l.seen) ≡ true) ⊎ (length l.seen < l.max_entries)
    → IsValid (record_sighting l id cls now)
unfolding record_sighting
record_sighting-IsValid l id cls now v h = record {
  unique = insert-Unique bytes_eq id _ l.seen v.unique;
  bounded =
      ground
        (arith, length-insert bytes_eq id (record { seen_at = now; node_class = cls }) l.seen, v);
}

-- A sighting keeps the ledger valid: no ID twice, and no more entries than its bound.
pub remember_if_new-IsValid :
    (l : RelayIdLedger) (id cls : Bytes) (now : ℕ)
    → IsValid l
    → IsValid (remember_if_new l id cls now).0
unfolding remember_if_new
remember_if_new-IsValid l [] cls now v = v
remember_if_new-IsValid l (c ∷ cs) cls now v =
    let w = sweep-IsValid l now v in
    if_elim (λ (r : RelayIdLedger × Bool). IsValid r.0)
      (not (is_some (lookup bytes_eq (c ∷ cs) l.seen)) && leb l.max_entries (length l.seen))
      (λ full.
        if_elim (λ (r : RelayIdLedger × Bool). IsValid r.0)
          (leb l.max_entries (length (sweep l now).seen)) (λ _. w)
          (λ room. record_sighting-IsValid (sweep l now) (c ∷ cs) cls now w (ground arith)))
      (λ room. record_sighting-IsValid l (c ∷ cs) cls now v (ground arith))

covered-sweep :
    (l : RelayIdLedger) (j : Bytes) (now later : ℕ)
    → Unique bytes_eq l.seen
    → now ≤ later
    → covered (sweep l now) j later ≡ covered l j later
unfolding covered sweep
covered-sweep l j now later u le =
    ground (arith, lookup-keep bytes_eq (is_fresh l.ttl now) j l.seen u)

covered-record_sighting :
    (l : RelayIdLedger) (id cls j : Bytes) (now later : ℕ)
    → covered (record_sighting l id cls now) j later
      ≡ ite (bytes_eq j id) (leb later (now + l.ttl)) (covered l j later)
unfolding covered record_sighting
covered-record_sighting l id cls j now later =
    ground (arith, lookup-insert bytes_eq id j (record { seen_at = now; node_class = cls }) l.seen)

-- A registration is reported as new exactly when its ID was not covered; then, and only for an ID
-- that is not empty, the registration keeps the unit that it has charged to its source.
pub remember_if_new-verdict :
    (l : RelayIdLedger) (id cls : Bytes) (now : ℕ)
    → id ≢ []
    → (remember_if_new l id cls now).1 ≡ not (covered l id now)
unfolding remember_if_new
remember_if_new-verdict l [] cls now h = absurd (h refl)
remember_if_new-verdict l (c ∷ cs) cls now h = ground arith

-- A sighting of one ID takes coverage from no other ID at any later time, even when the ledger
-- is full and is swept.
pub covered-remember_if_new_ne :
    (l : RelayIdLedger) (id cls j : Bytes) (now later : ℕ)
    → IsValid l
    → now ≤ later
    → j ≢ id
    → covered (remember_if_new l id cls now).0 j later ≡ covered l j later
unfolding remember_if_new
covered-remember_if_new_ne l [] cls j now later v le ne = refl
covered-remember_if_new_ne l (c ∷ cs) cls j now later v le ne = ground (
  arith,
  covered-sweep l j now later v.unique le,
  covered-record_sighting (sweep l now) (c ∷ cs) cls j now later,
  covered-record_sighting l (c ∷ cs) cls j now later,
)

-- A sighting of an ID that is known already, or for which there is room, covers it until the
-- retention time has passed and no longer.
pub covered-remember_if_new_self :
    (l : RelayIdLedger) (id cls : Bytes) (now later : ℕ)
    → id ≢ []
    → (covered l id now ≡ true) ⊎ (length l.seen < l.max_entries)
    → covered (remember_if_new l id cls now).0 id later ≡ leb later (now + l.ttl)
unfolding remember_if_new
covered-remember_if_new_self l [] cls now later h room = absurd (h refl)
covered-remember_if_new_self l (c ∷ cs) cls now later h room = ground (
  arith,
  covered-record_sighting (sweep l now) (c ∷ cs) cls (c ∷ cs) now later,
  covered-record_sighting l (c ∷ cs) cls (c ∷ cs) now later,
)

-- A lookup knows an ID exactly when the ledger covers it, and then answers the class stored for
-- it; whether it drops an expired entry shows in no coverage at that time or later.
pub lookup_class-covered :
    (l : RelayIdLedger) (id : Bytes) (now : ℕ)
    → (is_some (lookup_class l id now).1 ≡ covered l id now)
      × ((j : Bytes) (later : ℕ)
          → now ≤ later
          → covered (lookup_class l id now).0 j later ≡ covered l j later)
unfolding lookup_class covered
lookup_class-covered l id now =
    (ground arith, λ j later le. ground (arith, lookup-remove bytes_eq id j l.seen))
