-- ===== src/Server/MessageType.antt =====
-- The message types of src/kaillera/message_types.rs.
use direlera_rs.Prelude.{ℕ}

abbrev pub user_quit : ℕ
user_quit = 1

abbrev pub user_joined : ℕ
user_joined = 2

abbrev pub user_login : ℕ
user_login = 3

abbrev pub server_status : ℕ
server_status = 4

abbrev pub server_to_client_ack : ℕ
server_to_client_ack = 5

abbrev pub client_to_server_ack : ℕ
client_to_server_ack = 6

abbrev pub global_chat : ℕ
global_chat = 7

abbrev pub game_chat : ℕ
game_chat = 8

abbrev pub client_keep_alive : ℕ
client_keep_alive = 9

abbrev pub create_game : ℕ
create_game = 10

abbrev pub quit_game : ℕ
quit_game = 11

abbrev pub join_game : ℕ
join_game = 12

abbrev pub player_information : ℕ
player_information = 13

abbrev pub update_game_status : ℕ
update_game_status = 14

abbrev pub kick_user : ℕ
kick_user = 15

abbrev pub close_game : ℕ
close_game = 16

abbrev pub start_game : ℕ
start_game = 17

abbrev pub game_data : ℕ
game_data = 18

abbrev pub game_cache : ℕ
game_cache = 19

abbrev pub drop_game : ℕ
drop_game = 20

abbrev pub ready_to_play : ℕ
ready_to_play = 21

abbrev pub connection_rejected : ℕ
connection_rejected = 22

abbrev pub server_information : ℕ
server_information = 23
