-- ===== src/Tunnel/Ports/Tests.antt =====
-- The port allocator on concrete ranges.
use openrung.Base.{ℕ, ◌≡◌, refl, Bool, true, [], ◌∷◌, none, some, arith, ◌==◌, not}
use openrung.Tunnel.Ports.{PortAllocator, new_port_allocator, used, allocate}
use openrung.Tunnel.Ports.Range.{IsValid}
use openrung.Tunnel.Ports.Search.{Found, allocate_finds}

-- Ports 9000 to 9002, of which 9000 is lent; the cursor stands at the end.
abbrev half_lent : PortAllocator
half_lent = record { start = 9000; end = 9002; next = 9002; in_use = (9000, true) ∷ [] }

-- 9002 is taken by another program.
abbrev busy_port : ℕ → Bool
busy_port p = not (p == 9002)

half_lent-IsValid : IsValid half_lent
half_lent-IsValid = omega arith

allocate_wraps : (allocate busy_port half_lent).1 ≡ some 9001
unfolding allocate
allocate_wraps = refl

new_port_allocator_bad : new_port_allocator 10 9 ≡ none
unfolding new_port_allocator
new_port_allocator_bad = refl

allocate_finds_example :
    (q : ℕ) × ((allocate busy_port half_lent).1 ≡ some q)
    × Found busy_port half_lent (allocate busy_port half_lent).0 q
unfolding used
allocate_finds_example =
    allocate_finds busy_port half_lent 9001 half_lent-IsValid (omega arith) refl refl
