-- ===== src/Tunnel/Ports/Range.antt =====
-- The allocator's cursor and its ports stay in the configured range.
use openrung.Base.{ℕ, zero, suc, ◌≤◌, ◌≡◌, Bool, true, false, some, arith, ℕ_discrete, ite}
use openrung.Base.Map.{lookup-insert, lookup-remove}
use openrung.Tunnel.Ports.{
  PortAllocator, new_port_allocator, used, advance, claim, search_from, release,
}

-- What the constructor establishes and every method keeps.
pub record IsValid (a : PortAllocator) : Type 0 where
  pub positive : 1 ≤ a.start
  pub port_number : a.end ≤ 65535
  pub cursor_low : a.start ≤ a.next
  pub cursor_high : a.next ≤ a.end

pub record SameRange (a b : PortAllocator) : Type 0 where
  pub same_start : b.start ≡ a.start
  pub same_end : b.end ≡ a.end

pub used-claim :
    (a : PortAllocator) (p q : ℕ) → used (claim a p) q ≡ ite (ℕ_discrete q p) true (used a q)
unfolding used claim
used-claim a p q = ground (arith, lookup-insert ℕ_discrete p q true a.in_use)

pub used-release :
    (a : PortAllocator) (p q : ℕ) → used (release a p) q ≡ ite (ℕ_discrete q p) false (used a q)
unfolding used release
used-release a p q = ground (arith, lookup-remove ℕ_discrete p q a.in_use)

pub new_port_allocator-IsValid :
    (start end : ℕ) {a : PortAllocator} → new_port_allocator start end ≡ some a → IsValid a
unfolding new_port_allocator
new_port_allocator-IsValid start end h = ground arith

pub search_from-IsValid :
    (bindable : ℕ → Bool) (n : ℕ) (a : PortAllocator)
    → IsValid a
    → IsValid (search_from bindable n a).0
unfolding search_from
search_from-IsValid bindable zero a v = v
search_from-IsValid bindable (suc n) a v =
    ground (arith, search_from-IsValid bindable n (advance a))
