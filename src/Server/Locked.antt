-- ===== src/Server/Locked.antt =====
-- A change of one room under its lock, where the other rooms stay as they are.
use direlera_rs.Prelude.{
  ℕ, ◌==◌, ◌≡◌, ◌≢◌, refl, sym, ◌∙◌, subst, Option, none, some, arith, nat_eq, Bool-cases, ==_iff,
  inl, inr,
}
use direlera_rs.Dict.{lookup, insert}
use direlera_rs.Room.{GameInfo}
use direlera_rs.State.{
  ClientInfo, AppState, get_client, get_game, update_game, remove_game, taken_game,
}
use direlera_rs.State.Lookup.{lookup-insert_cases, lookup-insert_self, lookup-remove_cases}
use direlera_rs.Server.{Exec, ◌>>=◌, with_room}
use direlera_rs.Server.Triple.{Cond, Triple}
use direlera_rs.Server.Rooms.{RoomCond, Good, Rooms, IsServer, Held}

-- Where the condition of the one room may differ from that of all others.
abbrev pub At : ℕ → (GameInfo → Type 0) → RoomCond
At game_id Q id g = ((id ≢ game_id) → Good id g) × (id ≡ game_id → Q g)

pub IsServer-At : (game_id : ℕ) (s : AppState) → IsServer s → Rooms (At game_id (Good game_id)) s
IsServer-At game_id s v = record {
  each = λ id g e. ((λ _. v.each id g e), (λ z. rw z at (v.each id g e)));
  lan = v.lan;
}

pub At-IsServer : (game_id : ℕ) (s : AppState) → Rooms (At game_id (Good game_id)) s → IsServer s
At-IsServer game_id s v = record {
  each = λ id g e.
      let (other, here) = v.each id g e in
      elim (Bool-cases (id == game_id)) [
        | inl same ↦ let z = (==_iff id game_id).0 same in rw z (here z)
        | inr differ ↦ other (ground arith)
      ];
  lan = v.lan;
}

-- A new state of the one room.
pub put-At :
    (game_id : ℕ) (Q Q' : GameInfo → Type 0) (s : AppState) (g' : GameInfo)
    → Rooms (At game_id Q) s
    → Q' g'
    → Rooms (At game_id Q') (record s { games = insert game_id g' s.games })
put-At game_id Q Q' s g' v q = record {
  each = λ id g e. elim (lookup-insert_cases game_id id g' g s.games e) [
    | inl (same, z) ↦ ((λ n. absurd (n (sym same))), (λ _. rw (← z) q))
    | inr (other, z) ↦ ((v.each id g z).0, (λ n. absurd (other (sym n))))
  ];
  lan = v.lan;
}

-- A change of the one room, whose new state is known to what follows.
pub with_room_then :
    {A B : Type 0} {S E : Cond} (game_id addr : ℕ) (Q : GameInfo → Type 0)
    (f : GameInfo → A × GameInfo) (k : A → Exec B)
    → ((g : GameInfo)
        → Q g
        → Triple (Held (At game_id (λ x. x ≡ (f g).1)) game_id addr) (k (f g).0) S E)
    → Triple (Held (At game_id Q) game_id addr) (with_room game_id f >>= k) S E
unfolding ◌>>=◌ with_room update_game get_client
with_room_then game_id addr Q f k h = record {
  at = λ w p.
      let (g, e) = p.there in
      rw e (
        (h g ((p.rooms.each game_id g e).1 refl)).at
          (record w { app = record w.app { games = insert game_id (f g).1 w.app.games } })
          record {
            rooms = put-At game_id Q (λ x. x ≡ (f g).1) w.app (f g).1 p.rooms refl;
            there = ((f g).1, lookup-insert_self game_id (f g).1 w.app.games);
            known = p.known;
          });
}

pub Triple-with_room :
    {A : Type 0} {E : Cond} (game_id addr : ℕ) (Q Q' : GameInfo → Type 0)
    (f : GameInfo → A × GameInfo)
    → ((g : GameInfo) → Q g → Q' (f g).1)
    → Triple
        (Held (At game_id Q) game_id addr)
        (with_room game_id f)
        (Held (At game_id Q') game_id addr)
        E
unfolding with_room update_game get_client
Triple-with_room game_id addr Q Q' f h = record {
  at = λ w p.
      let (g, e) = p.there in
      rw e record {
        rooms = put-At game_id Q Q' w.app (f g).1 p.rooms (h g ((p.rooms.each game_id g e).1 refl));
        there = ((f g).1, lookup-insert_self game_id (f g).1 w.app.games);
        known = p.known;
      };
}

-- A fact about the one room that was read.
pub Held-exact :
    (game_id addr : ℕ) (Q : GameInfo → Type 0) (s : AppState) (g : GameInfo) (c : ClientInfo)
    → IsServer s
    → get_game s game_id ≡ some g
    → get_client s addr ≡ some c
    → (Good game_id g → Q g)
    → Held (At game_id Q) game_id addr s
unfolding get_game
Held-exact game_id addr Q s g c v e k q = record {
  rooms = record {
    each = λ id x l. (
      (λ _. v.each id x l),
      (λ z.
          let y : some g ≡ some x = sym e ∙ rw z at l in
          subst Q (let same : g ≡ x = cc in same) (q (v.each game_id g e))),
    );
    lan = v.lan;
  };
  there = (g, e);
  known = (c, k);
}

pub Held-widen :
    (game_id addr : ℕ) (Q Q' : GameInfo → Type 0)
    → ((g : GameInfo) → Q g → Q' g)
    → (s : AppState) → Held (At game_id Q) game_id addr s
    → Held (At game_id Q') game_id addr s
Held-widen game_id addr Q Q' f s v = record {
  rooms = record {
    each = λ id g e. let (other, here) = v.rooms.each id g e in (other, (λ z. f g (here z)));
    lan = v.rooms.lan;
  };
  there = v.there;
  known = v.known;
}

pub Held-IsServer :
    (game_id addr : ℕ) (s : AppState) → Held (At game_id (Good game_id)) game_id addr s → IsServer s
Held-IsServer game_id addr s v = At-IsServer game_id s v.rooms

pub IsServer-Held :
    (game_id addr : ℕ) (s : AppState) (g : GameInfo) (c : ClientInfo)
    → IsServer s
    → get_game s game_id ≡ some g
    → get_client s addr ≡ some c
    → Held (At game_id (Good game_id)) game_id addr s
unfolding get_game
IsServer-Held game_id addr s g c v e k = record {
  rooms = IsServer-At game_id s v;
  there = (g, e);
  known = (c, k);
}

-- The other rooms are good after the one is gone.
pub remove_game-IsServer :
    (game_id : ℕ) (Q : GameInfo → Type 0) (s : AppState)
    → Rooms (At game_id Q) s
    → IsServer (remove_game s game_id).1
unfolding remove_game
remove_game-IsServer game_id Q s v = at (lookup game_id s.games) refl
  where
    at : (o : Option GameInfo) → lookup game_id s.games ≡ o → IsServer (taken_game s game_id o).1
    at none q = record {
      each = λ id g e. (v.each id g e).0 (λ z. let y = rw z at e in cc);
      lan = v.lan;
    }
    at (some x) q = record {
      each = λ id g e.
          let (n, z) = lookup-remove_cases game_id id g s.games e in
          (v.each id g z).0 (λ y. n (sym y));
      lan = v.lan;
    }
