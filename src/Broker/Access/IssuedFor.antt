-- ===== src/Broker/Access/IssuedFor.antt =====
-- internal/broker/client_access.go: the rest of an access request from the issue of its leases on.
use openrung.Base.{
  ℕ, ◌+◌, ◌≡◌, refl, ◌⊎◌, inl, inr, not, ◌&&◌, ◌||◌, List, [], Option, ◌==◌, length, map, All,
  if_elim,
}
use openrung.Base.Bytes.{Bytes}
use openrung.Base.Int.{pos, positive_or}
use openrung.Broker.Store.{
  Store, Descriptor, Lease, Error, Result, ok, err, user_disabled, user_not_found,
}
use openrung.Broker.Store.Telemetry.{is_empty}
use openrung.Broker.Store.Issue.{LeaseIssueResult, issue_leases, normalized}
use openrung.Broker.Store.Ownership.{Belongs}
use openrung.Broker.Store.Issued.{IsKeyed, Leases, issue_leases-Belongs}
use openrung.Broker.Access.{AccessService, World, issue, issue_request, wake_changed}
use openrung.Broker.Access.Await.{await_issued}
use openrung.Broker.Access.Reply.{write_access, response_of}
use openrung.Broker.Access.Candidates.{well_formed_relay_id}
use openrung.Broker.Access.Selection.{MayServe}
use openrung.Broker.Access.Acknowledged.{Steady, await_issued-Reports}
use openrung.Broker.Access.Granted.{Confirmed, after_await-Confirmed}
use openrung.Broker.Access.Handler.{
  Settings, Circumstances, Answer, relays, answer_relays, after_issue, issue_refusal, after_await,
  with_page,
}

-- The lifetime of the leases.
abbrev pub lifetime : Settings → ℕ
lifetime h = positive_or (pos h.access.lease_ttl) 3_600_000_000_000

-- What the waits of a request meet keeps the acknowledgements.
abbrev pub IsSteady : Circumstances → Type 0
IsSteady c = All Steady c.delays.first × All Steady c.delays.second

-- What issuing gives.
abbrev Issues : (Lease → Type 0) → World × Result (List Lease) → Type 0
Issues P (w, err e) = Unit
Issues P (w, ok leases) = All P leases

wake_changed-Issues :
    (P : Lease → Type 0) (w : World) (s : Store) (r : Result LeaseIssueResult)
    → Leases P r
    → Issues P (wake_changed w (s, r))
unfolding wake_changed
wake_changed-Issues P w s (err e) a = tt
wake_changed-Issues P w s (ok r) a = a

issue-Issues :
    (a : AccessService) (w : World) (user_id : Bytes) (ids : List Bytes) (now : ℕ)
    (random : List (Option (Bytes × Bytes)))
    → IsKeyed w.store
    → Issues
        (Belongs user_id (now + positive_or (pos a.lease_ttl) 3_600_000_000_000))
        (issue a w user_id ids now random)
unfolding issue issue_request normalized
issue-Issues a w user_id ids now random k =
    let r = issue_leases w.store (issue_request a user_id ids) now random in
    wake_changed-Issues (Belongs user_id (now + positive_or (pos a.lease_ttl) 3_600_000_000_000)) w
      r.0 r.1 (issue_leases-Belongs w.store (issue_request a user_id ids) now random k)

module _ (h : Settings) (c : Circumstances) (relay_id country user_id : Bytes)
    (page : List Descriptor) where
  -- What an answer with relays says from the issue on: the leases that the issue returned for the
  -- page, and what `Confirmed` says of them.
  abbrev pub IssuedFor : World → World × Answer → Type 0
  IssuedFor w (v, relays body) =
      (w1 : World) × (leases : List Lease) × (issue h.access w user_id
          (map (λ (d : Descriptor). d.id) page) c.issued_at c.random
        ≡ (w1, ok leases))
      × Confirmed h c relay_id country user_id (c.issued_at + lifetime h) w1 page leases
          (v, relays body)
  IssuedFor w (v, _) = Unit

  -- The same of an answer that may have no relay.
  abbrev pub Sound : World → World × Answer → Type 0
  Sound w (v, relays body) = (body.relays ≡ []) ⊎ IssuedFor w (v, relays body)
  Sound w (v, _) = Unit

  module _ (w : World) where
    issue_refusal-Sound : (v : World) (e : Error) → Sound w (v, issue_refusal h c e)
    unfolding issue_refusal
    issue_refusal-Sound v user_disabled = tt
    issue_refusal-Sound v user_not_found = tt
    issue_refusal-Sound v e =
        if_elim (λ (x : Answer). Sound w (v, x)) c.gone_after_issue (λ _. tt) (λ _. tt)

    confirmed :
        (w1 : World) (leases : List Lease) (r : World × Answer)
        → issue h.access w user_id (map (λ (d : Descriptor). d.id) page) c.issued_at c.random
          ≡ (w1, ok leases)
        → Confirmed h c relay_id country user_id (c.issued_at + lifetime h) w1 page leases r
        → Sound w r
    confirmed w1 leases (v, relays body) e a = inr (w1, leases, e, a)
    confirmed w1 leases (v, _) e a = tt

    after_issue-Sound :
        (w1 : World) (r : Result (List Lease))
        → issue h.access w user_id (map (λ (d : Descriptor). d.id) page) c.issued_at c.random
          ≡ (w1, r)
        → IsSteady c
        → Issues (Belongs user_id (c.issued_at + lifetime h)) (w1, r)
        → All (MayServe h.withhold_unreachable relay_id country) page
        → Sound w (after_issue h c page (w1, r))
    unfolding after_issue answer_relays write_access response_of
    after_issue-Sound w1 (err x) e s a p = issue_refusal-Sound w1 x
    after_issue-Sound w1 (ok leases) e s a p =
        let waited = await_issued w1 leases c.delays in
        if_elim (Sound w) c.gone_after_issue (λ _. tt)
          (λ _.
            if_elim (Sound w) (length leases == 0) (λ _. inl refl)
              (λ _. confirmed w1 leases (after_await h c page leases waited) e (
                after_await-Confirmed h c relay_id country user_id (c.issued_at + lifetime h) page
                  leases w1 waited.0 waited.1 refl (await_issued-Reports w1 leases c.delays s.0 s.1)
                  a p)))

    pub with_page-Sound :
        IsKeyed w.store
        → IsSteady c
        → All (MayServe h.withhold_unreachable relay_id country) page
        → Sound w (with_page h w c user_id relay_id page)
    unfolding with_page answer_relays write_access response_of
    with_page-Sound k s p =
        let ids = map (λ (d : Descriptor). d.id) page in
        let issued = issue h.access w user_id ids c.issued_at c.random in
        if_elim (Sound w)
          (length page == 0 || (not (is_empty relay_id) && not (well_formed_relay_id relay_id)))
          (λ _. inl refl)
          (λ _.
            after_issue-Sound issued.0 issued.1 refl s
              (issue-Issues h.access w user_id ids c.issued_at c.random k) p)
