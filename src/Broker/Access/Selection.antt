-- ===== src/Broker/Access/Selection.antt =====
-- internal/broker/client_access.go: the relays that an access request is given leases on: which
-- they are, and how many.
use openrung.Base.{
  ℕ, ◌≡◌, ◌≤◌, ◌<◌, ◌∙◌, refl, Bool, true, false, not, ◌&&◌, ◌||◌, List, [], ◌∷◌, Option, none,
  some, arith, leb, ◌==◌, length, length-take, take, drop, any, filter, min, All, All-take,
  All-drop, if_elim,
}
use openrung.Base.Bytes.{Bytes}
use openrung.Broker.Store.{Descriptor}
use openrung.Broker.Access.Candidates.{
  relay_unreachable, without_unreachable, carries_leases, matches, access_candidates,
  wss_relay_eligible, promoted, set_last, reserve_wss_candidate,
}
use openrung.Broker.Access.Handler.{Settings, page_of}

-- A relay that may be given: it carries leases, is what the request asks for, and, where failed
-- probes count, its last probe did not fail.
abbrev pub MayServe : Bool → Bytes → Bytes → Descriptor → Type 0
MayServe withhold relay_id country d =
    (carries_leases d ≡ true)
    × (matches relay_id country d ≡ true)
    × ((withhold && relay_unreachable d) ≡ false)

-- The probe of a relay did not fail where failed probes count.
abbrev Reached : Bool → Descriptor → Type 0
Reached withhold d = (withhold && relay_unreachable d) ≡ false

without_unreachable-Reached :
    (withhold : Bool) (ds : List Descriptor)
    → All (Reached withhold) (without_unreachable withhold ds)
unfolding without_unreachable filter
without_unreachable-Reached false [] = tt
without_unreachable-Reached false (d ∷ ds) = (refl, without_unreachable-Reached false ds)
without_unreachable-Reached true [] = tt
without_unreachable-Reached true (d ∷ ds) =
    if_elim (All (Reached true)) (not (relay_unreachable d))
      (λ y. (ground arith, without_unreachable-Reached true ds))
      (λ _. without_unreachable-Reached true ds)

access_candidates-MayServe :
    (withhold : Bool) (ds : List Descriptor) (relay_id country : Bytes)
    → All (Reached withhold) ds
    → All (MayServe withhold relay_id country) (access_candidates ds relay_id country)
unfolding access_candidates
access_candidates-MayServe withhold [] relay_id country a = tt
access_candidates-MayServe withhold (d ∷ ds) relay_id country a =
    if_elim (All (MayServe withhold relay_id country))
      (carries_leases d && matches relay_id country d)
      (λ y. (
        (ground arith, ground arith, a.0),
        access_candidates-MayServe withhold ds relay_id country a.1,
      ))
      (λ _. access_candidates-MayServe withhold ds relay_id country a.1)

module _ {κ} (P : Descriptor → Type κ) where
  set_last-All : (ds : List Descriptor) (d : Descriptor) → All P ds → P d → All P (set_last ds d)
  unfolding set_last
  set_last-All [] d a p = tt
  set_last-All (x ∷ []) d a p = (p, tt)
  set_last-All (x ∷ y ∷ ds) d a p = (a.0, set_last-All (y ∷ ds) d a.1 p)

-- A relay that is promoted carries tickets, and is what all of its list are.
abbrev pub Promotes {κ} : (Descriptor → Type κ) → Option Descriptor → Type κ
Promotes P none = Unit
Promotes P (some d) = P d × (wss_relay_eligible d ≡ true)

pub promoted-Promotes {κ} :
    (P : Descriptor → Type κ) (drained : Bytes → Bool) (ds : List Descriptor)
    → All P ds
    → Promotes P (promoted drained ds)
unfolding promoted
promoted-Promotes P drained [] a = tt
promoted-Promotes P drained (x ∷ ds) a =
    if_elim (Promotes P) (wss_relay_eligible x && not (drained x.id)) (λ y. (a.0, ground arith))
      (λ _. promoted-Promotes P drained ds a.1)

length-set_last : (ds : List Descriptor) (d : Descriptor) → length (set_last ds d) ≡ length ds
unfolding set_last
length-set_last [] d = refl
length-set_last (x ∷ []) d = refl
length-set_last (x ∷ y ∷ ds) d = omega (arith, length-set_last (y ∷ ds) d)

-- The end of the reservation, with the relay that is promoted.
reserve_last-All {κ} :
    (P : Descriptor → Type κ) (page : List Descriptor) (o : Option Descriptor)
    → All P page
    → Promotes P o
    → All P (elim o [ none ↦ page | some d ↦ set_last page d ])
reserve_last-All P page none a p = a
reserve_last-All P page (some d) a p = set_last-All P page d a p.0

-- The reservation takes from the ranked relays.
reserve_wss_candidate-All {κ} :
    (P : Descriptor → Type κ) (drained : Bytes → Bool) (ds : List Descriptor) (limit : ℕ)
    → All P ds
    → All P (reserve_wss_candidate drained ds limit)
unfolding reserve_wss_candidate
reserve_wss_candidate-All P drained ds limit a =
    let page = All-take P limit ds a in
    if_elim (All P) (limit == 0 || leb (length ds) limit) (λ _. a)
      (λ _.
        if_elim (All P) (any wss_relay_eligible (take limit ds)) (λ _. page)
          (λ _.
            reserve_last-All P (take limit ds) (promoted drained (drop limit ds)) page
              (promoted-Promotes P drained (drop limit ds) (All-drop P limit ds a))))

length-reserve_last :
    (page : List Descriptor) (o : Option Descriptor)
    → length (elim o as (λ _. List Descriptor) [ none ↦ page | some d ↦ set_last page d ])
      ≡ length page
length-reserve_last page none = refl
length-reserve_last page (some d) = length-set_last page d

length-reserve_wss_candidate :
    (drained : Bytes → Bool) (ds : List Descriptor) (limit : ℕ)
    → 0 < limit
    → length (reserve_wss_candidate drained ds limit) ≡ min limit (length ds)
unfolding reserve_wss_candidate
length-reserve_wss_candidate drained ds limit h =
    let P : List Descriptor → Type 0 = λ out. length out ≡ min limit (length ds) in
    if_elim P (limit == 0 || leb (length ds) limit) (λ y. ground arith)
      (λ _.
        if_elim P (any wss_relay_eligible (take limit ds)) (λ _. length-take limit ds)
          (λ _.
            length-reserve_last (take limit ds) (promoted drained (drop limit ds))
            ∙ length-take limit ds))

pub page_of-All :
    (h : Settings) (ranked : List Descriptor) (relay_id country : Bytes) (limit : ℕ)
    → All
        (MayServe h.withhold_unreachable relay_id country)
        (page_of h ranked relay_id country limit)
unfolding page_of
page_of-All h ranked relay_id country limit =
    let withhold = h.withhold_unreachable in
    let reached = without_unreachable withhold ranked in
    let candidates = access_candidates reached relay_id country in
    reserve_wss_candidate-All (MayServe withhold relay_id country) h.drained candidates
      (min limit h.access.max_leases_per_user)
      (access_candidates-MayServe withhold reached relay_id country
        (without_unreachable-Reached withhold ranked))

-- Every relay of a page carries leases, is what the request names, and, where failed probes count,
-- did not fail its last probe; and the page has no more relays than the request's limit and than a
-- user's cap, both of which are positive.
pub page_of-MayServe :
    (h : Settings) (ranked : List Descriptor) (relay_id country : Bytes) (limit : ℕ)
    → 0 < limit
    → 0 < h.access.max_leases_per_user
    → All
        (MayServe h.withhold_unreachable relay_id country)
        (page_of h ranked relay_id country limit)
      × (length (page_of h ranked relay_id country limit) ≤ limit)
      × (length (page_of h ranked relay_id country limit) ≤ h.access.max_leases_per_user)
unfolding page_of
page_of-MayServe h ranked relay_id country limit a b =
    let reached = without_unreachable h.withhold_unreachable ranked in
    let candidates = access_candidates reached relay_id country in
    let cap = min limit h.access.max_leases_per_user in
    let n = length-reserve_wss_candidate h.drained candidates cap (ground arith) in
    (page_of-All h ranked relay_id country limit, ground (arith, n), ground (arith, n))
