-- ===== src/Master/Registry.antt =====
-- GameSessionRegistry of app/servers/sessions.py. The one instance is the state, a dictionary from
-- client ids to games. `inet_ntoa` is socket.inet_ntoa on four bytes, and the values of a heartbeat
-- are texts. `none` is the ValueError of a port that is not a number.
use kirov_server_emulator.NatNeg.Client.{public_ip, public_port}
use kirov_server_emulator.Master.Response.{GameEntry, new_game}
use kirov_server_emulator.Prelude.Dict.{Dict, get, has, put, remove}
use kirov_server_emulator.Prelude.{
  Bool, List, Option, [], false, if◌then◌else◌, list_eq, ltb, map, nat_eq, none, not, option_eq,
  pair_eq, some, ℕ, ◌%◌, ◌&&◌, ◌-◌, ◌/◌, ◌==◌, ◌∷◌,
}
use kirov_server_emulator.Prelude.Text.{Text, codes, int_of}
use kirov_server_emulator.Prelude.Words.{Bytes, ◌>>=◌}
pub mod Address
pub mod Heartbeats

pub record GameSessionRegistry : Type 0 where
  pub sessions : Dict ℕ GameEntry

-- struct.pack("<I", n)
abbrev pub pack_u32_le : ℕ → Option Bytes
pack_u32_le n =
    if ltb n 4294967296
    then some (n % 256 ∷ n / 256 % 256 ∷ n / 65536 % 256 ∷ n / 16777216 ∷ [])
    else none

-- The integer, with `& 0xFFFFFFFF` where it is negative.
abbrev pub unsigned : Bool × ℕ → ℕ
unsigned (minus, n) =
    if minus && not (n == 0) then (4294967296 - n % 4294967296) % 4294967296 else n

-- int(info.get(key, default))
abbrev pub int_or : Option Text → Bool × ℕ → Option (Bool × ℕ)
int_or none d = some d
int_or (some s) d = int_of s

abbrev pub entry_with :
    GameEntry → Text → Bool × ℕ → Text → Bool × ℕ → Text → ℕ → Dict Text Text → GameEntry
entry_with existing public_ip public_port private_ip private_port source port info = record {
  public_ip = public_ip;
  public_port = public_port;
  private_ip = private_ip;
  private_port = private_port;
  traced_ip = source;
  traced_port = (false, port);
  fields = info;
}

abbrev pub text_at : Option Text → Text → Text
text_at none d = d
text_at (some s) d = s

module _ (inet_ntoa : Bytes → Text) where
  abbrev pub address_of : Option Bytes → Text → Text
  address_of none source = source
  address_of (some bs) source = inet_ntoa bs

  abbrev pub packed_address : Option (Bool × ℕ) → Text → Text
  packed_address none source = source
  packed_address (some n) source = address_of (pack_u32_le (unsigned n)) source

  -- The address of the heartbeat, or of the connection where there is none or it is no address.
  unfoldable pub public_address : Option Text → Text → Text
  public_address none source = source
  public_address (some s) source =
      if s == codes "0" then source else packed_address (int_of s) source

  abbrev pub store_game :
      Option GameEntry → Text → Bool × ℕ → Text → Bool × ℕ → Text → ℕ → Dict Text Text → GameEntry
  store_game none public_ip public_port private_ip private_port source port info =
      new_game public_ip public_port private_ip private_port (some source) (some (false, port)) info
  store_game (some existing) public_ip public_port private_ip private_port source port info =
      entry_with existing public_ip public_port private_ip private_port source port info

  unfoldable pub register_game :
      GameSessionRegistry → ℕ → Text → ℕ → Dict Text Text → Option GameSessionRegistry
  unfolding public_address get put
  register_game r client_id source port info = do
    let public_ip : Text = public_address (get info (codes "publicip")) source
    public_port ← int_or (get info (codes "hostport")) (false, port)
    let private_ip : Text = text_at (get info (codes "localip0")) source
    private_port ← int_or (get info (codes "localport")) public_port
    let game : GameEntry =
        store_game (get r.sessions client_id) public_ip public_port private_ip private_port source
          port info
    some (record { sessions = put r.sessions client_id game })

unfoldable pub unregister_game : GameSessionRegistry → ℕ → GameSessionRegistry
unfolding get remove
unregister_game r client_id =
    if has r.sessions client_id then record { sessions = remove r.sessions client_id } else r

unfoldable pub get_games : GameSessionRegistry → List GameEntry
get_games r = map (λ entry. entry.1) r.sessions

unfoldable pub get_game : GameSessionRegistry → ℕ → Option GameEntry
unfolding get
get_game r client_id = get r.sessions client_id

abbrev pub clear : GameSessionRegistry → GameSessionRegistry
clear r = record { sessions = [] }
