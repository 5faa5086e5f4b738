-- ===== src/Wss/Replay/Memory.antt =====
-- What the index keeps of an identifier, through its pruning and the load of a journal.
use openrung.Base.{
  ℕ, ◌≤◌, ◌<◌, ◌≡◌, sym, ◌⊎◌, inl, inr, Bool, true, false, List, [], ◌∷◌, ◌++◌, Option, none, some,
  arith, leb, ◌==◌, All, Bool-cases, Option-cases,
}
use openrung.Base.Bytes.{Bytes, bytes_eq}
use openrung.Base.Map.{lookup, insert, remove, lookup-insert, lookup-remove, insert-All, remove-All}
use openrung.Wss.Replay.Journal.{Entries}
use openrung.Wss.Replay.RoundTrip.{Fits}
use openrung.Wss.Replay.{ReplayIndex, contains, insert_key, expire, prune_from, prune, load_record}

-- The entry's expiry is at or after a time.
abbrev pub reaches : ℕ → Option ℕ → Bool
reaches e none = false
reaches e (some x) = leb e x

-- The identifier that is watched, with the expiry up to which it has to be kept, if there is one.
abbrev pub Watch : Type 0
Watch = Option (Bytes × ℕ)

-- The map keeps the watched identifier.
abbrev pub Holds : Watch → Entries → Type 0
Holds none m = Unit
Holds (some (k, e)) m = reaches e (lookup bytes_eq k m) ≡ true

-- A time before the watched expiry.
abbrev pub Before : Watch → ℕ → Type 0
Before none now = Unit
Before (some (k, e)) now = now < e

pub insert-Holds :
    (v : Watch) (m : Entries) (key : Bytes) (x : ℕ)
    → Holds v m
    → ((y : ℕ) → lookup bytes_eq key m ≡ some y → y ≤ x)
    → Holds v (insert bytes_eq key x m)
unfolding bytes_eq
insert-Holds none m key x h g = tt
insert-Holds (some (k, e)) m key x h g = elim (Option-cases (lookup bytes_eq key m)) [
  | inl n ↦ ground (arith, lookup-insert bytes_eq key k x m)
  | inr (y, f) ↦ ground (arith, lookup-insert bytes_eq key k x m, g y f)
]

remove-Holds :
    (v : Watch) (m : Entries) (key : Bytes) (x now : ℕ)
    → Holds v m
    → Before v now
    → lookup bytes_eq key m ≡ some x
    → x ≤ now
    → Holds v (remove bytes_eq key m)
remove-Holds none m key x now h b f le = tt
remove-Holds (some (k, e)) m key x now h b f le = ground (arith, lookup-remove bytes_eq key k m)

expire-Holds :
    (v : Watch) (m : Entries) (c : Bytes × ℕ) (now : ℕ)
    → Holds v m
    → Before v now
    → c.1 ≤ now
    → Holds v (expire m c)
unfolding expire
expire-Holds v m (key, x) now h b le = elim (Option-cases (lookup bytes_eq key m)) [
  | inl n ↦ rw (n, expire) h
  | inr (y, f) ↦ elim (Bool-cases (y == x)) [
    | inl p ↦ rw (f, p, expire) (remove-Holds v m key y now h b f (ground arith))
    | inr p ↦ rw (f, p, expire) h
  ]
]

prune_from-Holds :
    (v : Watch) (now : ℕ) (m : Entries) (cs : List (Bytes × ℕ))
    → Holds v m
    → Before v now
    → Holds v (prune_from now m cs).entries
unfolding prune_from
prune_from-Holds v now m [] h b = h
prune_from-Holds v now m (c ∷ cs) h b = elim (Bool-cases (leb c.1 now)) [
  | inl y ↦
      rw (y, prune_from)
        (prune_from-Holds v now (expire m c) cs (expire-Holds v m c now h b (ground arith)) b)
  | inr n ↦ rw (n, prune_from) h
]

-- Pruning before the watched expiry keeps the watched identifier.
pub prune-Holds :
    (v : Watch) (i : ReplayIndex) (now : ℕ)
    → Holds v i.entries
    → Before v now
    → Holds v (prune i now).entries
unfolding prune
prune-Holds v i now h b = prune_from-Holds v now i.entries i.expiry h b

-- An index that keeps the watched identifier contains it.
pub contains-Holds :
    (k : Bytes) (e now : ℕ) (i : ReplayIndex)
    → Holds (some (k, e)) i.entries
    → now < e
    → contains i k now ≡ true
unfolding contains
contains-Holds k e now i h b = elim (Option-cases (lookup bytes_eq k i.entries)) [
  | inl n ↦ absurd (ground arith)
  | inr (x, f) ↦ rw (f, contains) (ground arith)
]

expire-Fits : (m : Entries) (c : Bytes × ℕ) → All Fits m → All Fits (expire m c)
unfolding expire
expire-Fits m (key, x) h = elim (Option-cases (lookup bytes_eq key m)) [
  | inl n ↦ rw (n, expire) h
  | inr (y, f) ↦ elim (Bool-cases (y == x)) [
    | inl p ↦ rw (f, p, expire) (remove-All bytes_eq Fits key m h)
    | inr p ↦ rw (f, p, expire) h
  ]
]

prune_from-Fits :
    (now : ℕ) (m : Entries) (cs : List (Bytes × ℕ))
    → All Fits m
    → All Fits (prune_from now m cs).entries
unfolding prune_from
prune_from-Fits now m [] h = h
prune_from-Fits now m (c ∷ cs) h = elim (Bool-cases (leb c.1 now)) [
  | inl y ↦ rw (y, prune_from) (prune_from-Fits now (expire m c) cs (expire-Fits m c h))
  | inr n ↦ rw (n, prune_from) h
]

pub prune-Fits : (i : ReplayIndex) (now : ℕ) → All Fits i.entries → All Fits (prune i now).entries
unfolding prune
prune-Fits i now h = prune_from-Fits now i.entries i.expiry h

-- A record of the watched identifier that is kept long enough.
abbrev pub Covers : Watch → Bytes × ℕ → Type 0
Covers none r = Unit
Covers (some (k, e)) (j, x) = (j ≡ k) × (e ≤ x)

-- Some record of a journal is one.
abbrev pub HasRecord : Watch → Entries → Type 0
HasRecord none m = Unit
HasRecord (some w) [] = ⊥
HasRecord (some w) (r ∷ m) = Covers (some w) r ⊎ HasRecord (some w) m

pub HasRecord-append :
    (v : Watch) (m n : Entries) → HasRecord v m ⊎ HasRecord v n → HasRecord v (m ++ n)
HasRecord-append none m n h = tt
HasRecord-append (some w) [] n (inl h) = absurd h
HasRecord-append (some w) [] n (inr h) = h
HasRecord-append (some w) (r ∷ m) n (inl (inl h)) = inl h
HasRecord-append (some w) (r ∷ m) n (inl (inr h)) = inr (HasRecord-append (some w) m n (inl h))
HasRecord-append (some w) (r ∷ m) n (inr h) = inr (HasRecord-append (some w) m n (inr h))

-- A map that keeps the watched identifier has a record of it.
pub HasRecord-Holds : (v : Watch) (m : Entries) → Holds v m → HasRecord v m
unfolding lookup
HasRecord-Holds none m h = tt
HasRecord-Holds (some (k, e)) [] h = absurd (ground arith)
HasRecord-Holds (some (k, e)) ((j, x) ∷ m) h = elim (bytes_eq k j) [
  | yes p ↦ inl (sym p, ground arith)
  | no p ↦ inr (HasRecord-Holds (some (k, e)) m (ground arith))
]

pub load_record-Fits :
    (now : ℕ) (r : Bytes × ℕ) (i : ReplayIndex) (needs : Bool)
    → Fits r
    → All Fits i.entries
    → All Fits (load_record now r i needs).0.entries
unfolding load_record insert_key
load_record-Fits now (key, e) i needs f h = elim (Bool-cases (leb e now)) [
  | inl y ↦ rw (y, load_record) h
  | inr n ↦ elim (Option-cases (lookup bytes_eq key i.entries)) [
    | inl z ↦ rw (n, z, load_record) (insert-All bytes_eq Fits key e i.entries f h)
    | inr (x, z) ↦ elim (Bool-cases (leb e x)) [
      | inl q ↦ rw (n, z, q, load_record) h
      | inr q ↦ rw (n, z, q, load_record) (insert-All bytes_eq Fits key e i.entries f h)
    ]
  ]
]

pub load_record-Holds :
    (v : Watch) (now : ℕ) (r : Bytes × ℕ) (i : ReplayIndex) (needs : Bool)
    → Before v now
    → Holds v i.entries ⊎ Covers v r
    → Holds v (load_record now r i needs).0.entries
unfolding load_record insert_key
load_record-Holds none now r i needs b h = tt
load_record-Holds (some (k, e)) now (key, x) i needs b h = elim (Bool-cases (leb x now)) [
  | inl y ↦ rw (y, load_record) (ground arith)
  | inr n ↦ elim (Option-cases (lookup bytes_eq key i.entries)) [
    | inl z ↦ rw (n, z, load_record) (ground (arith, lookup-insert bytes_eq key k x i.entries))
    | inr (w, z) ↦ elim (Bool-cases (leb x w)) [
      | inl q ↦ rw (n, z, q, load_record) (ground arith)
      | inr q ↦ rw (n, z, q, load_record) (ground (arith, lookup-insert bytes_eq key k x i.entries))
    ]
  ]
]
