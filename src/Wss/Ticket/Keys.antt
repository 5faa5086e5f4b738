-- ===== src/Wss/Ticket/Keys.antt =====
-- internal/wssbridge/ticket.go, `ParseTicketPublicKeys`: the keys that a sidecar is configured with.
use mathlib.Core.Path.{subst}
use openrung.Base.{
  ◌≡◌, ◌<◌, refl, inl, inr, Bool, true, false, not, ◌&&◌, ◌||◌, List, [], ◌∷◌, ◌++◌, Option, none,
  some, arith, leb, ◌==◌, if◌then◌else◌, ite, length, drop, Option-cases, Bool-cases, if_elim,
}
use openrung.Base.Bytes.{Bytes, bytes_eq}
use openrung.Base.Map.{lookup, insert, is_some}
use openrung.Base.Space.{trim_space}
use openrung.Wss.Replay.{valid_id}
use openrung.Wss.Ticket.Policy.{TicketOptions, same, normalized_options}
use openrung.Wss.Ticket.{Codecs, ticket_key_id, valid_keys, new_ticket_verifier}

-- strings.Split(value, ",")
unfoldable pub split_commas : Bytes → Bytes → List Bytes
split_commas part [] = part ∷ []
split_commas part (c ∷ cs) = elim (c == 44) [
  | true ↦ part ∷ split_commas [] cs
  | false ↦ split_commas (part ++ c ∷ []) cs
]

-- The bytes before the first '=', none if there is none.
unfoldable pub before_equals : Bytes → Option Bytes
before_equals [] = none
before_equals (c ∷ cs) =
    let rest = before_equals cs in
    if c == 61 then some [] else (elim rest [ none ↦ none | some s ↦ some (c ∷ s) ])

unfoldable pub all_hex : Bytes → Bool
all_hex [] = true
all_hex (c ∷ cs) =
    let rest = all_hex cs in
    if (leb 48 c && leb c 57) || (leb 97 c && leb c 102) then rest else false

-- `isLowerHex`
unfoldable pub is_lower_hex : Bytes → Bool
is_lower_hex s = not (length s == 0) && all_hex s

-- The ID of an entry, empty if it has none, and its encoded key.
unfoldable pub entry_parts : Bytes → Bytes × Bytes
entry_parts entry = elim (before_equals entry) [
  | none ↦ ([], entry)
  | some id ↦ if length id == 16 && is_lower_hex id then (id, drop 17 entry) else ([], entry)
]

module _ (k : Codecs) where
  -- The key of an entry is added under its ID.
  unfoldable pub add_key : List (Bytes × Bytes) → Bytes → Bytes → Option (List (Bytes × Bytes))
  add_key keys id key =
      let derived = ticket_key_id k key in
      if not (length key == 32)
        || ((not (length id == 0) && not (same id derived))
            || is_some (lookup bytes_eq derived keys))
      then none
      else some (insert bytes_eq derived key keys)

  -- One entry that is not empty.
  unfoldable pub parse_entry : List (Bytes × Bytes) → Bytes → Option (List (Bytes × Bytes))
  parse_entry keys entry =
      let (id, encoded) = entry_parts entry in
      elim (k.decode_std encoded) [ none ↦ none | some raw ↦ add_key keys id raw ]

  -- The loop over the entries.
  unfoldable pub parse_entries : List (Bytes × Bytes) → List Bytes → Option (List (Bytes × Bytes))
  parse_entries keys [] = some keys
  parse_entries keys (raw ∷ es) =
      let entry = trim_space raw in
      elim (length entry == 0) [
        | true ↦ parse_entries keys es
        | false ↦ elim (parse_entry keys entry) [ none ↦ none | some more ↦ parse_entries more es ]
      ]

  -- `ParseTicketPublicKeys`, none where it fails.
  unfoldable pub parse_ticket_public_keys : Bytes → Option (List (Bytes × Bytes))
  parse_ticket_public_keys value = elim (parse_entries [] (split_commas [] value)) [
    | none ↦ none
    | some keys ↦ if length keys == 0 then none else some keys
  ]

  -- Keys that are each under their own ID.
  abbrev Sound : Option (List (Bytes × Bytes)) → Type 0
  Sound none = Unit
  Sound (some keys) = valid_keys k keys ≡ true

  insert-valid_keys :
      (key : Bytes) (m : List (Bytes × Bytes))
      → length key ≡ 32
      → valid_keys k m ≡ true
      → valid_keys k (insert bytes_eq (ticket_key_id k key) key m) ≡ true
  unfolding valid_keys insert
  insert-valid_keys key [] n h = ground (arith, n)
  insert-valid_keys key ((id, x) ∷ m) n h =
      let derived = ticket_key_id k key in
      elim (bytes_eq derived id)
        as (λ d.
          valid_keys k (ite d ((derived, key) ∷ m) ((id, x) ∷ insert bytes_eq derived key m))
          ≡ true) [
            | yes p ↦ ground (arith, n, h)
            | no f ↦ ground (arith, insert-valid_keys key m n, h)
          ]

  add_key-Sound :
      (keys : List (Bytes × Bytes)) (id key : Bytes)
      → valid_keys k keys ≡ true
      → Sound (add_key keys id key)
  unfolding add_key
  add_key-Sound keys id key h =
      if_elim Sound
        (not (length key == 32)
          || ((not (length id == 0) && not (same id (ticket_key_id k key)))
              || is_some (lookup bytes_eq (ticket_key_id k key) keys)))
        (λ _. tt) (λ f. insert-valid_keys key keys (ground arith) h)

  parse_entry-Sound :
      (keys : List (Bytes × Bytes)) (entry : Bytes)
      → valid_keys k keys ≡ true
      → Sound (parse_entry keys entry)
  unfolding parse_entry
  parse_entry-Sound keys entry h = elim (Option-cases (k.decode_std (entry_parts entry).1)) [
    | inl n ↦ rw (n, parse_entry) tt
    | inr (raw, e) ↦ rw (e, parse_entry) (add_key-Sound keys (entry_parts entry).0 raw h)
  ]

  parse_entries-Sound :
      (keys : List (Bytes × Bytes)) (es : List Bytes)
      → valid_keys k keys ≡ true
      → Sound (parse_entries keys es)
  unfolding parse_entries
  parse_entries-Sound keys [] h = h
  parse_entries-Sound keys (raw ∷ es) h =
      let entry = trim_space raw in
      elim (Bool-cases (length entry == 0)) [
        | inl y ↦ rw (y, parse_entries) (parse_entries-Sound keys es h)
        | inr n ↦ elim (Option-cases (parse_entry keys entry)) [
          | inl m ↦ rw (n, m, parse_entries) tt
          | inr (more, e) ↦
              rw (n, e, parse_entries)
                (parse_entries-Sound more es (subst Sound e (parse_entry-Sound keys entry h)))
        ]
      ]

  -- Keys that a verifier can be made with.
  abbrev Usable : Option (List (Bytes × Bytes)) → Type 0
  Usable none = Unit
  Usable (some keys) = (valid_keys k keys ≡ true) × (0 < length keys)

  parse_ticket_public_keys-Usable : (value : Bytes) → Usable (parse_ticket_public_keys value)
  unfolding parse_ticket_public_keys valid_keys
  parse_ticket_public_keys-Usable value =
      let entries = split_commas [] value in
      elim (Option-cases (parse_entries [] entries)) [
        | inl n ↦ rw (n, parse_ticket_public_keys) tt
        | inr (keys, e) ↦
            rw (e, parse_ticket_public_keys)
              (if_elim Usable (length keys == 0) (λ _. tt)
                (λ n. (subst Sound e (parse_entries-Sound [] entries refl), ground (arith, n))))
      ]

  -- The configured keys are some, and each is one that a verifier takes, under its own ID.
  pub parse_ticket_public_keys-valid :
      (value : Bytes) (keys : List (Bytes × Bytes))
      → parse_ticket_public_keys value ≡ some keys
      → (valid_keys k keys ≡ true) × (0 < length keys)
  parse_ticket_public_keys-valid value keys h =
      subst Usable h (parse_ticket_public_keys-Usable value)

  -- A sidecar with a well-formed relay ID and admissible options always starts with configured keys
  -- that parse: the verifier takes them all.
  pub new_ticket_verifier-parse :
      (value local : Bytes) (keys : List (Bytes × Bytes)) (o p : TicketOptions)
      → parse_ticket_public_keys value ≡ some keys
      → valid_id local 1 128 ≡ true
      → normalized_options o ≡ some p
      → new_ticket_verifier k keys local o
        ≡ some (record { keys = keys; local_relay_id = local; opts = p })
  unfolding new_ticket_verifier
  new_ticket_verifier-parse value local keys o p h i e =
      let (sound, many) = parse_ticket_public_keys-valid value keys h in
      let some_keys : (not (valid_id local 1 128) || length keys == 0) ≡ false =
        ground (arith, many, i) in
      rw (some_keys, e, sound, new_ticket_verifier) refl
