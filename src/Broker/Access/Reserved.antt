-- ===== src/Broker/Access/Reserved.antt =====
-- internal/broker/wss_ticket.go: the place on a page that is kept for a relay that carries tickets.
use mathlib.Core.Path.{subst}
use openrung.Base.{
  ℕ, suc, zero, ◌≡◌, ◌<◌, refl, inl, inr, Bool, true, false, not, ◌&&◌, ◌||◌, List, [], ◌∷◌, some,
  arith, leb, ◌==◌, length, length-take, take, drop, any, All, Bool-cases, if_elim,
}
use openrung.Base.Bytes.{Bytes}
use openrung.Broker.Store.{Descriptor}
use openrung.Broker.Access.Candidates.{
  wss_relay_eligible, promoted, set_last, reserve_wss_candidate,
}
use openrung.Broker.Access.Selection.{Promotes, promoted-Promotes}

each_itself : (ds : List Descriptor) → All (λ (d : Descriptor). d ≡ d) ds
each_itself [] = tt
each_itself (d ∷ ds) = (refl, each_itself ds)

-- Some relay of a list carries tickets and is not drained.
abbrev pub reservable : (Bytes → Bool) → List Descriptor → Bool
reservable drained ds = any (λ d. wss_relay_eligible d && not (drained d.id)) ds

any-reservable :
    (drained : Bytes → Bool) (ds : List Descriptor)
    → reservable drained ds ≡ true
    → any wss_relay_eligible ds ≡ true
unfolding any
any-reservable drained [] e = cc
any-reservable drained (d ∷ ds) e = ground (arith, any-reservable drained ds)

-- A reservable relay that is not on the page is below it.
reservable-drop :
    (drained : Bytes → Bool) (n : ℕ) (ds : List Descriptor)
    → reservable drained ds ≡ true
    → any wss_relay_eligible (take n ds) ≡ false
    → reservable drained (drop n ds) ≡ true
unfolding any
reservable-drop drained zero ds e f = e
reservable-drop drained (suc n) [] e f = e
reservable-drop drained (suc n) (d ∷ ds) e f = ground (arith, reservable-drop drained n ds)

promoted-reservable :
    (drained : Bytes → Bool) (ds : List Descriptor)
    → reservable drained ds ≡ true
    → ((d : Descriptor) × (promoted drained ds ≡ some d)) × (0 < length ds)
unfolding any promoted
promoted-reservable drained [] e = cc
promoted-reservable drained (x ∷ ds) e =
    elim (Bool-cases (wss_relay_eligible x && not (drained x.id))) [
      | inl y ↦ ((x, rw (y, promoted) refl), omega arith)
      | inr n ↦
          let ((d, f), h) = promoted-reservable drained ds (ground arith) in
          ((d, rw (n, promoted) f), omega arith)
    ]

-- A promoted relay carries tickets.
promoted-eligible :
    (drained : Bytes → Bool) (ds : List Descriptor) (d : Descriptor)
    → promoted drained ds ≡ some d
    → wss_relay_eligible d ≡ true
promoted-eligible drained ds d e =
    (subst (Promotes (λ (x : Descriptor). x ≡ x)) e
      (promoted-Promotes (λ (x : Descriptor). x ≡ x) drained ds (each_itself ds))).1

any-set_last :
    (ds : List Descriptor) (d : Descriptor)
    → wss_relay_eligible d ≡ true
    → 0 < length ds
    → any wss_relay_eligible (set_last ds d) ≡ true
unfolding any set_last
any-set_last [] d e h = ground (arith, h)
any-set_last (x ∷ []) d e h = ground (arith, e)
any-set_last (x ∷ y ∷ ds) d e h = ground (arith, any-set_last (y ∷ ds) d e)

-- Where some ranked relay carries tickets and is not drained, some relay of the page carries tickets,
-- whatever the limit, if it is positive.
pub reserve_wss_candidate-keeps_eligible :
    (drained : Bytes → Bool) (ds : List Descriptor) (limit : ℕ)
    → 0 < limit
    → reservable drained ds ≡ true
    → any wss_relay_eligible (reserve_wss_candidate drained ds limit) ≡ true
unfolding reserve_wss_candidate
reserve_wss_candidate-keeps_eligible drained ds limit h e =
    let P : List Descriptor → Type 0 = λ out. any wss_relay_eligible out ≡ true in
    if_elim P (limit == 0 || leb (length ds) limit) (λ _. any-reservable drained ds e)
      (λ n.
        if_elim P (any wss_relay_eligible (take limit ds)) (λ y. y)
          (λ f.
            let ((d, p), _) =
              promoted-reservable drained (drop limit ds) (reservable-drop drained limit ds e f) in
            rw p (
              any-set_last (take limit ds) d (promoted-eligible drained (drop limit ds) d p)
                (ground (arith, n, length-take limit ds)))))
