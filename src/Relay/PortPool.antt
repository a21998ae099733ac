-- ===== src/Relay/PortPool.antt =====
-- app/servers/port_pool.py. The lock of the pool makes each method one step.
pub mod Laws
use kirov_server_emulator.Prelude.{
  ℕ, zero, suc, ◌+◌, ◌-◌, ◌/◌, Bool, not, ◌&&◌, Option, none, some, List, [], ◌∷◌, ltb,
  if◌then◌else◌, length, contains, add, discard, list_eq, nat_eq, pair_eq,
}

pub record PortPool : Type 0 where
  pub port_start : ℕ
  pub port_end : ℕ
  pub allocated : List ℕ

pub data Error : Type 0 where
  start_not_below_end start_too_small end_too_large : Error

pub data Result {ℓ} (A : Type ℓ) : Type ℓ where
  ok : A → Result A
  err : Error → Result A

-- PortPool(port_start, port_end), with `__post_init__`
unfoldable pub new_pool : ℕ → ℕ → Result PortPool
new_pool start end =
    if not (ltb start end)
    then err start_not_below_end
    else if ltb start 1024
    then err start_too_small
    else if ltb 65535 end
    then err end_too_large
    else ok (record { port_start = start; port_end = end; allocated = [] })

-- len(range(port_start, port_end, 2))
unfoldable pub rounds : ℕ → ℕ → ℕ
rounds start end = (end - start + 1) / 2

-- The loop over `range(port, port_end, 2)`, with the number of its rounds.
unfoldable pub scan : List ℕ → ℕ → ℕ → Option (ℕ × ℕ)
scan used zero port = none
scan used (suc n) port =
    let rest = scan used n (port + 2) in
    if not (contains used port) && not (contains used (port + 1))
    then some (port, port + 1)
    else rest

abbrev take_pair : PortPool → Option (ℕ × ℕ) → PortPool × Option (ℕ × ℕ)
take_pair p none = (p, none)
take_pair p (some (a, b)) = (record p { allocated = add (add p.allocated a) b }, some (a, b))

unfoldable pub allocate_pair : PortPool → PortPool × Option (ℕ × ℕ)
unfolding scan rounds
allocate_pair p = take_pair p (scan p.allocated (rounds p.port_start p.port_end) p.port_start)

unfoldable pub release_pair : PortPool → ℕ × ℕ → PortPool
release_pair p (a, b) = record p { allocated = discard (discard p.allocated a) b }

unfoldable pub release : PortPool → ℕ → PortPool
release p port = record p { allocated = discard p.allocated port }

unfoldable pub is_allocated : PortPool → ℕ → Bool
is_allocated p port = contains p.allocated port

unfoldable pub allocated_count : PortPool → ℕ
allocated_count p = length p.allocated

unfoldable pub available_pairs : PortPool → ℕ
available_pairs p = (p.port_end - p.port_start + 1 - length p.allocated) / 2
