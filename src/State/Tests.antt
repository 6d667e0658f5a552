-- ===== src/State/Tests.antt =====
-- Clients of src/state.rs on concrete inputs.
use direlera_rs.Prelude.{◌≡◌, refl, none, some, [], ◌∷◌, nat_eq}
use direlera_rs.Dict.{lookup, insert}
use direlera_rs.Protocol
use direlera_rs.State.{
  ClientInfo, AppState, new, add_client, find_client_by_username, remove_client_by_username,
}
use direlera_rs.State.Linked.{IsLinked, new-IsLinked}
use direlera_rs.State.Clients.{get_client-add}

abbrev pub ann : ClientInfo
ann = record {
  session_id = 100;
  username = 65 ∷ [];
  emulator_name = [];
  conn_type = 1;
  user_id = 1;
  ping = 0;
  player_status = 1;
  game_id = none;
  last_ping_time = none;
  ack_count = 0;
  ping_total = 0;
  last_activity_secs = 0;
  packet_generator = Protocol.new;
}

abbrev ben : ClientInfo
ben = record ann { session_id = 200; username = 66 ∷ []; user_id = 2 }

no_client : lookup 5 new.clients_by_addr ≡ none
unfolding new lookup
no_client = refl

no_session : lookup 100 new.clients_by_id ≡ none
unfolding new lookup
no_session = refl

abbrev pub with_ann : AppState
with_ann = add_client new 5 ann

pub with_ann-IsLinked : IsLinked with_ann
with_ann-IsLinked = (get_client-add new 5 ann new-IsLinked no_client no_session).2

found_by_name : find_client_by_username with_ann (65 ∷ []) ≡ some (5, ann)
unfolding find_client_by_username add_client new insert
found_by_name = refl

evicted : (remove_client_by_username with_ann (65 ∷ [])).0 ≡ some (5, ann)
unfolding remove_client_by_username add_client new insert lookup
evicted = refl

pub at_five : lookup 5 with_ann.clients_by_addr ≡ some 100
unfolding add_client new insert lookup
at_five = refl

pub of_session : lookup 100 with_ann.clients_by_id ≡ some ann
unfolding add_client new insert lookup
of_session = refl
