-- ===== src/Relay/Types.antt =====
-- app/models/relay_types.py. Times are numbers of milliseconds; `time.time()` is an argument `now`.
use kirov_server_emulator.Prelude.{
  ℕ, ◌+◌, Bool, ◌&&◌, Option, none, ltb, is_some, ◌==◌, list_eq, nat_eq, pair_eq,
}
use kirov_server_emulator.Prelude.Text.{Text}

pub record RelayEndpoint : Type 0 where
  pub ip : Text
  pub port : ℕ

-- RelayEndpoint.__eq__
unfoldable pub endpoint_eq : RelayEndpoint → RelayEndpoint → Bool
endpoint_eq a b = (a.ip == b.ip) && (a.port == b.port)

unfoldable pub as_tuple : RelayEndpoint → Text × ℕ
as_tuple e = (e.ip, e.port)

pub record RelayRoute : Type 0 where
  pub port_a : ℕ
  pub port_b : ℕ
  pub client_a : Option RelayEndpoint
  pub client_b : Option RelayEndpoint
  pub created_at : ℕ
  pub last_activity : ℕ
  pub packets_forwarded : ℕ
  pub bytes_forwarded : ℕ

-- RelayRoute(port_a=…, port_b=…), with the defaults of the other fields
unfoldable pub new_route : ℕ → ℕ → ℕ → RelayRoute
new_route a b now = record {
  port_a = a;
  port_b = b;
  client_a = none;
  client_b = none;
  created_at = now;
  last_activity = now;
  packets_forwarded = 0;
  bytes_forwarded = 0;
}

unfoldable pub update_activity : RelayRoute → ℕ → RelayRoute
update_activity r now = record r { last_activity = now }

-- now - last_activity > timeout, without the subtraction
unfoldable pub is_stale : RelayRoute → ℕ → ℕ → Bool
is_stale r timeout now = ltb (r.last_activity + timeout) now

unfoldable pub is_ready : RelayRoute → Bool
is_ready r = is_some r.client_a && is_some r.client_b

pub record PairAttemptInfo : Type 0 where
  pub attempt_count : ℕ
  pub last_activity : ℕ
  pub relay_ports : Option (ℕ × ℕ)

-- PairAttemptInfo()
unfoldable pub new_pair : ℕ → PairAttemptInfo
new_pair now = record { attempt_count = 0; last_activity = now; relay_ports = none }

unfoldable pub increment : PairAttemptInfo → ℕ → PairAttemptInfo × ℕ
increment i now =
    (record i { attempt_count = i.attempt_count + 1; last_activity = now }, i.attempt_count + 1)

unfoldable pub touch_pair : PairAttemptInfo → ℕ → PairAttemptInfo
touch_pair i now = record i { last_activity = now }

unfoldable pub is_stale_pair : PairAttemptInfo → ℕ → ℕ → Bool
is_stale_pair i ttl now = ltb (i.last_activity + ttl) now
