-- ===== src/Broker/Access/Granted.antt =====
-- internal/broker/client_access.go: what an answer with relays grants, from the request's token to
-- the relays' acknowledgements.
use openrung.Base.{
  ℕ, ◌≤◌, ◌≡◌, refl, inl, inr, true, ◌||◌, List, [], ◌∷◌, arith, ltb, ◌==◌, if◌then◌else◌, length,
  map, All, Option-cases, if_elim,
}
use openrung.Base.Bytes.{Bytes, bytes_eq}
use openrung.Base.Map.{lookup, insert, insert-All, lookup-All}
use openrung.Base.Member.{Member, All-Member}
use openrung.Broker.Store.{Descriptor, Lease}
use openrung.Broker.Store.Leases.{contains, same}
use openrung.Broker.Store.Ownership.{Belongs}
use openrung.Broker.Access.{World}
use openrung.Broker.Access.Await.{
  Waited, acknowledged, unreadable, abandoned, unfinished, revision_of, wanted, await_issued,
}
use openrung.Broker.Access.Reply.{
  installed, uses_access_host, hand_out, compose, normalize_relay, response_of, write_access,
}
use openrung.Broker.Access.Selection.{MayServe}
use openrung.Broker.Access.Acknowledged.{acked, Acked, Reports, wanted-covers}
use openrung.Broker.Access.Handler.{
  Settings, Circumstances, Answer, relays, answer_relays, reach_of, answer_applied, after_await,
}

-- A relay of an answer stands for a relay of the page that may serve the request and one of the
-- issued leases, which is the user's and on that relay; the relay is among those that acknowledged
-- and has acknowledged the lease's revision. It is the relay's descriptor with the lease's
-- credential, and with the access host in place of the public one where that may be used.
abbrev pub Grant :
    Settings
    → Circumstances
    → World
    → List Descriptor
    → List Lease
    → List Bytes
    → Bytes
    → Bytes
    → Bytes
    → ℕ
    → Descriptor
    → Type 0
Grant h c v page leases applied relay_id country user_id expiry o =
    (d : Descriptor) × (l : Lease) × Member d page
    × Member l leases
    × MayServe h.withhold_unreachable relay_id country d
    × Belongs user_id expiry l
    × (l.relay_id ≡ d.id)
    × (contains d.id applied ≡ true)
    × (l.revision ≤ acked v d.id)
    × (o
        ≡ normalize_relay (record d {
          client_id = l.credential;
          public_host =
              if uses_access_host h.addresses (reach_of h c) d
              then d.access_host
              else d.public_host;
        }))

-- An entry of byRelay.
abbrev Entry : World → List Bytes → (Lease → Type 0) → Bytes × Lease → Type 0
Entry v applied P e =
    P e.1 × (e.1.relay_id ≡ e.0) × (contains e.0 applied ≡ true) × (e.1.revision ≤ acked v e.0)

contains-All {κ} :
    (P : Bytes → Type κ) (id : Bytes) (ids : List Bytes) → contains id ids ≡ true → All P ids → P id
unfolding contains same
contains-All P id [] e a = cc
contains-All P id (x ∷ ids) e a = elim (bytes_eq id x) [
  | yes p ↦ rw p a.0
  | no n ↦ contains-All P id ids (ground arith) a.1
]

installed-Entry :
    (v : World) (P : Lease → Type 0) (want : List (Bytes × ℕ)) (applied : List Bytes)
    (ls : List Lease) (m : List (Bytes × Lease))
    → All (Acked want v) applied
    → All P ls
    → All (λ (l : Lease). l.revision ≤ revision_of want l.relay_id) ls
    → All (Entry v applied P) m
    → All (Entry v applied P) (installed applied ls m)
unfolding installed
installed-Entry v P want applied [] m a p c h = h
installed-Entry v P want applied (l ∷ ls) m a p c h =
    installed-Entry v P want applied ls
      (if contains l.relay_id applied then insert bytes_eq l.relay_id l m else m) a p.1 c.1
      (if_elim (All (Entry v applied P)) (contains l.relay_id applied)
        (λ y.
          let k = contains-All (Acked want v) l.relay_id applied y a in
          insert-All bytes_eq (Entry v applied P) l.relay_id l m
            (p.0, refl, y, omega (arith, k, c.0)) h)
        (λ _. h))

module _ (h : Settings) (c : Circumstances) (relay_id country user_id : Bytes) (expiry : ℕ) where
  -- The relays of the answer, of the page and the leases that the entries are of.
  compose-Grant :
      (v : World) (page : List Descriptor) (leases : List Lease) (applied : List Bytes)
      (m : List (Bytes × Lease)) (ds : List Descriptor) (at : ℕ)
      → All (Entry v applied (λ (l : Lease). Member l leases × Belongs user_id expiry l)) m
      → All
          (λ (d : Descriptor). Member d page × MayServe h.withhold_unreachable relay_id country d)
          ds
      → All
          (Grant h c v page leases applied relay_id country user_id expiry)
          (map normalize_relay (compose h.addresses (reach_of h c) m ds at).0)
  unfolding compose hand_out
  compose-Grant v page leases applied m [] at e p = tt
  compose-Grant v page leases applied m (d ∷ ds) at e p =
      elim (Option-cases (lookup bytes_eq d.id m)) [
        | inl n ↦ rw (n, compose) (compose-Grant v page leases applied m ds at e p.1)
        | inr (l, f) ↦
            let (b, rel, ack, rev) =
              lookup-All bytes_eq
                (Entry v applied (λ (x : Lease). Member x leases × Belongs user_id expiry x)) d.id l
                m f e in
            rw (f, compose)
              (
                (d, l, p.0.0, b.0, p.0.1, b.1, rel, ack, rev, refl),
                compose-Grant v page leases applied m ds
                    (if at == 0 || ltb l.expires_at at then l.expires_at else at) e p.1,
              )
      ]

  -- What an answer to a wait with relays says, of the world and the leases after the issue: which
  -- relays acknowledged, and that each relay of the answer is a grant.
  abbrev pub Confirmed : World → List Descriptor → List Lease → World × Answer → Type 0
  Confirmed w page leases (v, relays body) =
      (w2 : World) × (applied : List Bytes) × (await_issued w leases c.delays
        ≡ (w2, acknowledged applied))
      × All (Grant h c w2 page leases applied relay_id country user_id expiry) body.relays
  Confirmed w page leases (v, _) = Unit

  module _ (page : List Descriptor) (leases : List Lease) (w1 : World) where
    answer_applied-Confirmed :
        (w : World) (applied : List Bytes)
        → await_issued w1 leases c.delays ≡ (w, acknowledged applied)
        → All (Acked (wanted leases []) w) applied
        → All (Belongs user_id expiry) leases
        → All (MayServe h.withhold_unreachable relay_id country) page
        → Confirmed w1 page leases (answer_applied h w c page leases applied)
    unfolding answer_applied answer_relays write_access response_of
    answer_applied-Confirmed w applied e a b p =
        let m = installed applied leases [] in
        if_elim (Confirmed w1 page leases) (length m == 0) (λ _. tt)
          (λ _.
            let entries =
              installed-Entry w (λ (l : Lease). Member l leases × Belongs user_id expiry l)
                (wanted leases []) applied leases [] a
                (All-Member (Belongs user_id expiry) leases b) (wanted-covers leases []) tt in
            (
              w,
              applied,
              e,
              compose-Grant w page leases applied m page 0 entries
                  (All-Member (MayServe h.withhold_unreachable relay_id country) page p),
            ))

    pub after_await-Confirmed :
        (w : World) (r : Waited)
        → await_issued w1 leases c.delays ≡ (w, r)
        → Reports (wanted leases []) (w, r)
        → All (Belongs user_id expiry) leases
        → All (MayServe h.withhold_unreachable relay_id country) page
        → Confirmed w1 page leases (after_await h c page leases (w, r))
    unfolding after_await
    after_await-Confirmed w (acknowledged applied) e a b p =
        answer_applied-Confirmed w applied e a b p
    after_await-Confirmed w unreadable e a b p =
        if_elim (λ (x : Answer). Confirmed w1 page leases (w, x)) c.gone_after_wait (λ _. tt)
          (λ _. tt)
    after_await-Confirmed w abandoned e a b p = tt
    after_await-Confirmed w unfinished e a b p = tt
