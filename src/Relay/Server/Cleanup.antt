-- ===== src/Relay/Server/Cleanup.antt =====
-- `_cleanup_stale_routes`: which routes go and which stay.

use kirov_server_emulator.Relay.Server.Routes.{Keyed, find_route_found}
use kirov_server_emulator.Relay.Types.{RelayRoute, is_stale}
use kirov_server_emulator.Prelude.Dict.{Dict, Distinct, get, get-remove, remove}
use kirov_server_emulator.Relay.Server.{
  RelayServer, cleanup_stale_routes, release_all, release_route, route_key, stale_routes,
  find_route, get_route_by_port, second,
}
use kirov_server_emulator.Relay.Server.Invariant.{IsConsistent, KeyedRoute}
use kirov_server_emulator.Prelude.{
  All, Bool, List, Option, [], ap, arith, false, if◌then◌else◌, list_eq, nat_eq, none, pair_beq_iff,
  pair_eq, refl, some, ℕ, ◌==◌, ◌||◌, ◌∙◌, ◌∷◌, ◌≡◌, option_eq, subst,
}

remove_all : Dict (ℕ × ℕ) RelayRoute → List RelayRoute → Dict (ℕ × ℕ) RelayRoute
remove_all d [] = d
remove_all d (r ∷ rs) = remove_all (remove d (route_key r.port_a r.port_b)) rs

routes-release_all :
    (s : RelayServer) (rs : List RelayRoute) → (release_all s rs).0.routes ≡ remove_all s.routes rs
unfolding release_all remove_all
routes-release_all s [] = refl
routes-release_all s (r ∷ rs) =
    routes-release_all (release_route s r).0 rs ∙ (unfold release_route in refl)

names_key : List RelayRoute → ℕ × ℕ → Bool
names_key [] k = false
names_key (r ∷ rs) k = (route_key r.port_a r.port_b == k) || names_key rs k

get-remove_all :
    (d : Dict (ℕ × ℕ) RelayRoute) (rs : List RelayRoute) (k : ℕ × ℕ)
    → get (remove_all d rs) k ≡ (if names_key rs k then none else get d k)
unfolding remove_all names_key
get-remove_all d [] k = refl
get-remove_all d (r ∷ rs) k = ground (
  arith,
  get-remove_all (remove d (route_key r.port_a r.port_b)) rs k,
  get-remove d (route_key r.port_a r.port_b) k,
)

-- What the cleanup leaves of an entry.
abbrev pub live : ℕ → ℕ → Option RelayRoute → Option RelayRoute
live timeout now none = none
live timeout now (some r) = if is_stale r timeout now then none else some r

abbrev stale_entry : ℕ → ℕ → Option RelayRoute → Bool
stale_entry timeout now none = false
stale_entry timeout now (some r) = is_stale r timeout now

names_key-stale_routes :
    (start end timeout now : ℕ) (d : Dict (ℕ × ℕ) RelayRoute) (k : ℕ × ℕ)
    → All (Keyed start end) d
    → Distinct d
    → names_key (stale_routes d timeout now) k ≡ stale_entry timeout now (get d k)
unfolding names_key stale_routes get
names_key-stale_routes start end timeout now [] k h dd = refl
names_key-stale_routes start end timeout now ((j, w) ∷ d) k h dd =
    let (i, a, b, le, e) = h.0 in
    let own : route_key w.port_a w.port_b ≡ j =
      ground (arith, ap (λ (q : ℕ × ℕ). q.0) e, ap (λ (q : ℕ × ℕ). q.1) e) in
    ground (
      arith,
      names_key-stale_routes start end timeout now d k h.1 dd.1,
      pair_beq_iff j k,
      ap (λ q. q == k) own,
    )

-- On a consistent server the cleanup at time `now` takes out exactly the routes that are stale
-- then, and every other entry of the dictionary stays as it is.
pub get-cleanup_stale_routes :
    (s : RelayServer) (now : ℕ) (k : ℕ × ℕ)
    → IsConsistent s
    → get (cleanup_stale_routes s now).0.routes k ≡ live s.session_timeout now (get s.routes k)
unfolding cleanup_stale_routes
get-cleanup_stale_routes s now k c =
    rw
      (
        routes-release_all s (stale_routes s.routes s.session_timeout now),
        get-remove_all s.routes (stale_routes s.routes s.session_timeout now) k,
        names_key-stale_routes s.port_pool.port_start s.port_pool.port_end s.session_timeout now
            s.routes k c.keyed c.distinct,
      )
      (ground arith)

-- The timeout and the range of the pool stay, so the next cleanup judges alike.
pub release_all-timeout :
    (s : RelayServer) (rs : List RelayRoute)
    → (release_all s rs).0.session_timeout ≡ s.session_timeout
unfolding release_all
release_all-timeout s [] = refl
release_all-timeout s (r ∷ rs) =
    release_all-timeout (release_route s r).0 rs ∙ (unfold release_route in refl)

find_route-KeyedRoute :
    (relay : RelayServer) (port : ℕ) (o : Option ((ℕ × ℕ) × RelayRoute)) (r : RelayRoute)
    → IsConsistent relay
    → find_route relay.routes port ≡ o
    → second o ≡ some r
    → KeyedRoute relay r
find_route-KeyedRoute relay port none r c e h = cc
find_route-KeyedRoute relay port (some (k, w)) r c e h =
    let start = relay.port_pool.port_start in
    let end = relay.port_pool.port_end in
    let (i, a, b, le, key) = (find_route_found start end relay.routes port k w c.keyed e).0 in
    let same : ◌≡◌ {A = Option RelayRoute} (some w) (some r) = h in
    let route : w ≡ r = cc in
    let aligned : KeyedRoute relay w = (i, a, b, le, ground arith) in
    subst (KeyedRoute relay) route aligned

-- The route that a port finds on a consistent server stands in the dictionary under its key.
pub get_route_by_port-Keyed :
    (relay : RelayServer) (port : ℕ) (r : RelayRoute)
    → IsConsistent relay
    → get_route_by_port relay port ≡ some r
    → KeyedRoute relay r
unfolding get_route_by_port
get_route_by_port-Keyed relay port r c e =
    find_route-KeyedRoute relay port (find_route relay.routes port) r c refl e
