-- ===== src/State.antt =====
-- `AppState` and `ClientInfo` of src/state.rs: clients by address and by session, and games. An address
-- and a session's UUID are numbers, and so are times and durations. Locks, spans and metrics are left out.
pub mod Lookup
pub mod Clients
pub mod Linked
pub mod Tests
use direlera_rs.Prelude.{
  ℕ, ◌+◌, ◌%◌, ◌^◌, Bool, true, false, Option, none, some, List, [], ◌∷◌, Bytes, map, ◌==◌,
  if◌then◌else◌, nat_eq, bytes_eq,
}
use direlera_rs.Dict.{Dict, lookup, insert, remove}
use direlera_rs.Protocol.{UdpPacketGenerator}
use direlera_rs.Room.{GameInfo}

pub record ClientInfo : Type 0 where
  pub session_id : ℕ
  pub username : Bytes
  pub emulator_name : Bytes
  pub conn_type : ℕ
  pub user_id : ℕ
  pub ping : ℕ
  pub player_status : ℕ
  pub game_id : Option ℕ
  pub last_ping_time : Option ℕ
  pub ack_count : ℕ
  pub ping_total : ℕ
  pub last_activity_secs : ℕ
  pub packet_generator : UdpPacketGenerator

pub record AppState : Type 0 where
  pub clients_by_addr : Dict ℕ ℕ
  pub clients_by_id : Dict ℕ ClientInfo
  pub games : Dict ℕ GameInfo
  pub next_game : ℕ
  pub next_user : ℕ

unfoldable pub new : AppState
new = record { clients_by_addr = []; clients_by_id = []; games = []; next_game = 1; next_user = 1 }

-- `fetch_add`, which wraps.
unfoldable pub next_game_id : AppState → ℕ × AppState
next_game_id s = (s.next_game, record s { next_game = (s.next_game + 1) % 2 ^ 32 })

unfoldable pub next_user_id : AppState → ℕ × AppState
next_user_id s = (s.next_user, record s { next_user = (s.next_user + 1) % 2 ^ 16 })

abbrev pub client_of : AppState → Option ℕ → Option ClientInfo
client_of s none = none
client_of s (some session_id) = lookup session_id s.clients_by_id

unfoldable pub get_client : AppState → ℕ → Option ClientInfo
get_client s addr = client_of s (lookup addr s.clients_by_addr)

unfoldable pub add_client : AppState → ℕ → ClientInfo → AppState
add_client s addr client = record s {
  clients_by_addr = insert addr client.session_id s.clients_by_addr;
  clients_by_id = insert client.session_id client s.clients_by_id;
}

-- The two maps without a session and its address.
abbrev pub without : AppState → ℕ → ℕ → AppState
without s addr session_id = record s {
  clients_by_addr = remove addr s.clients_by_addr;
  clients_by_id = remove session_id s.clients_by_id;
}

abbrev pub remove_session : AppState → ℕ → Option ℕ → Option ClientInfo × AppState
remove_session s addr none = (none, s)
remove_session s addr (some session_id) =
    (lookup session_id s.clients_by_id, without s addr session_id)

unfoldable pub remove_client : AppState → ℕ → Option ClientInfo × AppState
remove_client s addr = remove_session s addr (lookup addr s.clients_by_addr)

-- The first entry with the name; the order of a hash map is not specified.
abbrev pub find_by_username : Bytes → Dict ℕ ClientInfo → Option (ℕ × ClientInfo)
find_by_username username [] = none
find_by_username username ((id, c) ∷ m) =
    if bytes_eq c.username username then some (id, c) else find_by_username username m

abbrev pub find_addr : ℕ → Dict ℕ ℕ → Option ℕ
find_addr session_id [] = none
find_addr session_id ((addr, id) ∷ m) =
    if id == session_id then some addr else find_addr session_id m

abbrev with_addr : Option ℕ → ClientInfo → Option (ℕ × ClientInfo)
with_addr none c = none
with_addr (some addr) c = some (addr, c)

abbrev locate : AppState → Option (ℕ × ClientInfo) → Option (ℕ × ClientInfo)
locate s none = none
locate s (some (id, c)) = with_addr (find_addr id s.clients_by_addr) c

unfoldable pub find_client_by_username : AppState → Bytes → Option (ℕ × ClientInfo)
find_client_by_username s username = locate s (find_by_username username s.clients_by_id)

abbrev pub evict_at : AppState → ℕ → Option ℕ → Option (ℕ × ClientInfo) × AppState
evict_at s id none = (none, s)
evict_at s id (some addr) =
    (elim (lookup id s.clients_by_id) [ none ↦ none | some c ↦ some (addr, c) ], without s addr id)

abbrev pub evict : AppState → Option (ℕ × ClientInfo) → Option (ℕ × ClientInfo) × AppState
evict s none = (none, s)
evict s (some (id, c)) = evict_at s id (find_addr id s.clients_by_addr)

unfoldable pub remove_client_by_username : AppState → Bytes → Option (ℕ × ClientInfo) × AppState
remove_client_by_username s username = evict s (find_by_username username s.clients_by_id)

unfoldable pub get_all_client_addrs : AppState → List ℕ
get_all_client_addrs s = map (λ (e : ℕ × ℕ). e.0) s.clients_by_addr

abbrev pub changed : AppState → (ClientInfo → ClientInfo) → ℕ → Option ClientInfo → Option AppState
changed s f id none = none
changed s f id (some c) = some (record s { clients_by_id = insert id (f c) s.clients_by_id })

abbrev pub update_in : AppState → (ClientInfo → ClientInfo) → Option ℕ → Option AppState
update_in s f none = none
update_in s f (some id) = changed s f id (lookup id s.clients_by_id)

-- A change that does not fail; `none` is one of the two errors of a client that is not found.
unfoldable pub update_client : AppState → ℕ → (ClientInfo → ClientInfo) → Option AppState
update_client s addr f = update_in s f (lookup addr s.clients_by_addr)

abbrev pub or_same : AppState → Option AppState → AppState
or_same s none = s
or_same s (some s') = s'

-- The time of a packet from the address; without a client nothing is done.
unfoldable pub update_client_activity : ℕ → AppState → ℕ → AppState
update_client_activity now_secs s addr =
    or_same s (update_client s addr (λ c. record c { last_activity_secs = now_secs }))

unfoldable pub add_game : AppState → ℕ → GameInfo → AppState
add_game s game_id game = record s { games = insert game_id game s.games }

unfoldable pub get_game : AppState → ℕ → Option GameInfo
get_game s game_id = lookup game_id s.games

abbrev pub taken_game : AppState → ℕ → Option GameInfo → Option GameInfo × AppState
taken_game s game_id none = (none, s)
taken_game s game_id (some g) = (some g, record s { games = remove game_id s.games })

unfoldable pub remove_game : AppState → ℕ → Option GameInfo × AppState
remove_game s game_id = taken_game s game_id (lookup game_id s.games)

abbrev changed_game {ℓ} :
    {R : Type ℓ}
    → AppState
    → ℕ
    → (GameInfo → R × GameInfo)
    → Option GameInfo
    → Option (R × AppState)
changed_game s game_id f none = none
changed_game s game_id f (some g) =
    let (r, g') = f g in some (r, record s { games = insert game_id g' s.games })

-- `none` is the panic of a game that is not found; the change may give a result.
unfoldable pub update_game {ℓ} :
    {R : Type ℓ} → AppState → ℕ → (GameInfo → R × GameInfo) → Option (R × AppState)
update_game s game_id f = changed_game s game_id f (lookup game_id s.games)
