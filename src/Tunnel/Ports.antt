-- ===== src/Tunnel/Ports.antt =====
-- internal/tunnel/allocator.go: the public ports that the hub lends to tunnels. A method that
-- changes the allocator returns it; `portBindable`, a listen on the host, is an argument.
pub mod Range
pub mod Search
mod Tests
use openrung.Base.{
  ℕ, zero, suc, ◌+◌, ◌-◌, Bool, true, false, not, ◌||◌, List, [], Option, none, some, ltb,
  if◌then◌else◌, ℕ_discrete,
}
use openrung.Base.Map.{lookup, insert, remove}

pub record PortAllocator : Type 0 where
  pub start : ℕ
  pub end : ℕ
  pub next : ℕ
  pub in_use : List (ℕ × Bool)

-- `NewPortAllocator`; `none` is the error. A start below 0 is refused as 0 is.
unfoldable pub new_port_allocator : ℕ → ℕ → Option PortAllocator
new_port_allocator start end =
    if ltb start 1 || (ltb 65535 end || ltb end start)
    then none
    else some (record { start = start; end = end; next = start; in_use = [] })

-- a.inUse[port]: a missing key reads as false.
unfoldable pub used : PortAllocator → ℕ → Bool
unfolding lookup ℕ_discrete
used a port = elim (lookup ℕ_discrete port a.in_use) [ none ↦ false | some b ↦ b ]

-- The cursor after one round of the loop.
unfoldable pub advance : PortAllocator → PortAllocator
advance a = record a { next = if ltb a.end (a.next + 1) then a.start else a.next + 1 }

unfoldable pub claim : PortAllocator → ℕ → PortAllocator
unfolding insert ℕ_discrete
claim a port = record a { in_use = insert ℕ_discrete port true a.in_use }

-- The loop of `Allocate`, with the rounds left.
unfoldable pub search_from : (ℕ → Bool) → ℕ → PortAllocator → PortAllocator × Option ℕ
unfolding advance claim used
search_from bindable zero a = (a, none)
search_from bindable (suc rounds) a =
    let rest = search_from bindable rounds (advance a) in
    if used a a.next
    then rest
    else if not (bindable a.next)
    then rest
    else (claim (advance a) a.next, some a.next)

-- `Allocate`; `none` is errPortsExhausted.
unfoldable pub allocate : (ℕ → Bool) → PortAllocator → PortAllocator × Option ℕ
unfolding search_from
allocate bindable a = search_from bindable (a.end - a.start + 1) a

-- `Release`
unfoldable pub release : PortAllocator → ℕ → PortAllocator
unfolding remove ℕ_discrete
release a port = record a { in_use = remove ℕ_discrete port a.in_use }
