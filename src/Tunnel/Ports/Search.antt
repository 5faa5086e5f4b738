-- ===== src/Tunnel/Ports/Search.antt =====
-- What `Allocate` finds: a free port whenever there is one, and only such a port.
use openrung.Base.{
  ℕ, zero, suc, ◌+◌, ◌-◌, ◌≤◌, ◌<◌, ◌≡◌, ◌≢◌, refl, ◌⊎◌, inl, inr, Bool, true, false, Option, none,
  some, arith, ℕ_discrete, ite, Option-cases, Bool-cases,
}
use openrung.Tunnel.Ports.{PortAllocator, used, advance, search_from, allocate, release}
use openrung.Tunnel.Ports.Range.{IsValid, used-claim, used-release}

-- The ports that `n` rounds look at: from the cursor on, and round the end of the range.
abbrev Visited : PortAllocator → ℕ → ℕ → Type 0
Visited a n p = ((a.next ≤ p) × (p < a.next + n)) ⊎ (p + (a.end + 1 - a.start) < a.next + n)

abbrev pub InRange : PortAllocator → ℕ → Type 0
InRange a p = (a.start ≤ p) × (p ≤ a.end)

advance-IsValid : (a : PortAllocator) → IsValid a → IsValid (advance a)
unfolding advance
advance-IsValid a v = ground arith

used-advance : (a : PortAllocator) (p : ℕ) → used (advance a) p ≡ used a p
unfolding used advance
used-advance a p = refl

advance-range : (a : PortAllocator) → ((advance a).start ≡ a.start) × ((advance a).end ≡ a.end)
unfolding advance
advance-range a = (refl, refl)

Visited-advance :
    (a : PortAllocator) (n p : ℕ)
    → IsValid a
    → InRange a p
    → p ≢ a.next
    → Visited a (suc n) p
    → Visited (advance a) n p
unfolding advance
Visited-advance a n p v r e w = ground arith

search_none :
    (b : ℕ → Bool) (n : ℕ) (a : PortAllocator) (p : ℕ)
    → IsValid a
    → (search_from b n a).1 ≡ none
    → InRange a p
    → Visited a n p
    → (used a p ≡ true) ⊎ (b p ≡ false)
unfolding search_from
search_none b zero a p v h r w = absurd (omega arith)
search_none b (suc n) a p v h r w = elim (ℕ_discrete p a.next) [
  | yes e ↦ rw e (ground arith)
  | no e ↦
      ground (
        arith,
        search_none b n (advance a) p (advance-IsValid a v),
        Visited-advance a n p v r e w,
        r,
      )
]

abbrev pub Found : (ℕ → Bool) → PortAllocator → PortAllocator → ℕ → Type 0
Found b a a' q =
    InRange a q
    × (used a q ≡ false)
    × (b q ≡ true)
    × ((p : ℕ) → used a' p ≡ ite (ℕ_discrete p q) true (used a p))

search_some :
    (b : ℕ → Bool) (n : ℕ) (a : PortAllocator) (q : ℕ)
    → IsValid a
    → (search_from b n a).1 ≡ some q
    → Found b a (search_from b n a).0 q
unfolding search_from
search_some b zero a q v h = cc
search_some b (suc n) a q v h = elim (Bool-cases (used a a.next)) [
  | inl e ↦ rw e (search_some b n (advance a) q (advance-IsValid a v) (rw e at h))
  | inr e ↦ elim (Bool-cases (b a.next)) [
    | inl f ↦
        let h' : Option.some a.next ≡ some q = rw (e, f) at h in
        let g : a.next ≡ q = cc in
        rw (e, f, ← g) ((v.cursor_low, v.cursor_high), e, f, λ p. used-claim (advance a) a.next p)
    | inr f ↦ rw (e, f) (search_some b n (advance a) q (advance-IsValid a v) (rw (e, f) at h))
  ]
]

-- A call of `allocate` on a valid allocator that reports the ports as exhausted has found every
-- port of the range in use or not bindable.
pub allocate_exhausted :
    (b : ℕ → Bool) (a : PortAllocator)
    → IsValid a
    → (allocate b a).1 ≡ none
    → (p : ℕ) → InRange a p
    → (used a p ≡ true) ⊎ (b p ≡ false)
unfolding allocate
allocate_exhausted b a v h p r = search_none b (a.end - a.start + 1) a p v h r (ground arith)

-- On a valid allocator with a port of the range that is free and bindable, `allocate` returns a
-- port: one of the range, that was free and is bindable. Afterwards that port is in use, and each
-- other port is in use as it was before.
pub allocate_finds :
    (b : ℕ → Bool) (a : PortAllocator) (p : ℕ)
    → IsValid a
    → InRange a p
    → used a p ≡ false
    → b p ≡ true
    → (q : ℕ) × ((allocate b a).1 ≡ some q) × Found b a (allocate b a).0 q
unfolding allocate
allocate_finds b a p v r free ok = elim (Option-cases (allocate b a).1) [
  | inl e ↦ ground (arith, allocate_exhausted b a v e p r)
  | inr (q, e) ↦ (q, e, search_some b (a.end - a.start + 1) a q v e)
]

-- Releasing the port that `allocate` has returned gives back exactly the ports that were free
-- before, and every port that `allocate` returned for a valid allocator was free.
pub release-allocate :
    (b : ℕ → Bool) (a : PortAllocator) (q : ℕ)
    → IsValid a
    → (allocate b a).1 ≡ some q
    → (p : ℕ) → used (release (allocate b a).0 q) p ≡ used a p
unfolding allocate
release-allocate b a q v h p = ground (
  arith,
  used-release (allocate b a).0 q p,
  search_some b (a.end - a.start + 1) a q v h,
  (search_some b (a.end - a.start + 1) a q v h).3 p,
)
