-- ===== src/Server/Gone.antt =====
-- A player that left the server during a game is still listed in its room, without a client: what
-- `execute_drop_game` and `handle_ready_to_play_signal` do then.
use direlera_rs.Prelude.{
  ℕ, ◌≡◌, refl, sym, ◌∙◌, ap, true, false, Option, none, some, List, [], ◌∷◌, arith, nat_eq, ◌==◌,
  ==_iff, Bool-cases, Option-cases, inl, inr,
}
use direlera_rs.Dict.{Dict, lookup, insert}
use direlera_rs.Sync.Outcome.{Outcome}
use direlera_rs.Sync.Cached.{CachedPlayerOutput}
use direlera_rs.Room.{GamePlayerInfo, GameInfo, is_member, position}
use direlera_rs.Room.Live.{dropped}
use direlera_rs.Room.Live
use direlera_rs.State.{
  ClientInfo, AppState, get_client, get_game, update_client, update_game, client_of, update_in,
  changed,
}
use direlera_rs.State.Lookup.{lookup-insert_self, lookup-insert_other}
use direlera_rs.Server.{
  World, Env, Result, err, Exec, continue, ◌>>=◌, updated, client_not_found, for_each,
  with_client_mut, with_room,
}
use direlera_rs.Server.Leave.{
  set_status, player_status_idle, announce_drop, after_drop, slot_or_0, execute_drop_game,
}
use direlera_rs.Server.Triple.{Cond}
use direlera_rs.Server.Quiet.{IsStable}
use direlera_rs.Server.Rooms.{update_client-cases}

abbrev pub Gone : ℕ → Cond
Gone addr s = get_client s addr ≡ none

-- No change of a client brings another one back.
pub gone-update :
    (s s' : AppState) (a addr : ℕ) (f : ClientInfo → ClientInfo)
    → update_client s a f ≡ some s'
    → Gone addr s
    → Gone addr s'
unfolding get_client
gone-update s s' a addr f e h =
    let (id, c, q, k, m) = update_client-cases s s' a f e in
    elim (Option-cases (lookup addr s.clients_by_addr)) [
      | inl no_one ↦ rw (m, no_one) refl
      | inr (j, there) ↦
          let h' : lookup j s.clients_by_id ≡ none = rw there at h in
          rw (m, there)
            (lookup-insert_other id j (f c) s.clients_by_id
                (λ z. let y = rw z at k in let w = sym h' ∙ y in cc)
              ∙ h')
    ]

pub Gone-IsStable : (addr : ℕ) → IsStable (Gone addr)
Gone-IsStable addr = record { keeps = λ s s' a f h e v. gone-update s s' a addr f e v }

update_gone :
    (s : AppState) (addr : ℕ) (f : ClientInfo → ClientInfo)
    → Gone addr s
    → update_client s addr f ≡ none
unfolding get_client update_client
update_gone s addr f = at (lookup addr s.clients_by_addr)
  where
    found : (id : ℕ) (o : Option ClientInfo) → o ≡ none → changed s f id o ≡ none
    found id none h = refl
    found id (some c) h = cc

    at : (o : Option ℕ) → client_of s o ≡ none → update_in s f o ≡ none
    at none h = refl
    at (some id) h = found id (lookup id s.clients_by_id) h

-- The outcome of the status changes: they fail, and nothing is sent.
abbrev Fails : World → Result (Unit {0}) × World → Type 0
Fails w r = (r.0 ≡ err client_not_found) × (r.1.sent ≡ w.sent) × (r.1.app.games ≡ w.app.games)

pub member_rest :
    (addr : ℕ) (p : GamePlayerInfo) (ps : List GamePlayerInfo)
    → (p.addr == addr) ≡ false
    → is_member addr (p ∷ ps) ≡ true
    → is_member addr ps ≡ true
member_rest addr p ps other m = elim (Option-cases (position addr ps)) [
  | inl no_one ↦ ground (arith, other, no_one)
  | inr (i, there) ↦ rw (there, is_member) refl
]

module _ (status addr : ℕ) (p : GamePlayerInfo) (ps : List GamePlayerInfo) (w : World)
    (later : (w' : World)
      → is_member addr ps ≡ true
      → Gone addr w'.app
      → Fails w' (for_each (set_status status) ps w')) where
  abbrev to_status : ClientInfo → ClientInfo
  to_status c = record c { player_status = status }

  statuses_step :
      is_member addr (p ∷ ps) ≡ true
      → Gone addr w.app
      → (o : Option AppState) → update_client w.app p.addr to_status ≡ o
      → Fails w (let (r, w') = updated w o in continue r (λ _. for_each (set_status status) ps) w')
  statuses_step m h none e = (refl, refl, refl)
  statuses_step m h (some s) e = elim (Bool-cases (p.addr == addr)) [
    | inl same ↦
        let z : p.addr ≡ addr = (==_iff p.addr addr).0 same in
        let y : update_client w.app p.addr to_status ≡ none =
          update_gone w.app p.addr to_status (rw z h) in
        cc
    | inr other ↦
        let (r, sent, games) =
          later (record w { app = s }) (member_rest addr p ps other m)
            (gone-update w.app s p.addr addr to_status e h) in
        let (id, c, q, k, l) = update_client-cases w.app s p.addr to_status e in
        (r, sent, games ∙ ap (λ (x : AppState). x.games) l)
  ]

statuses_fail :
    (status addr : ℕ) (ps : List GamePlayerInfo) (w : World)
    → is_member addr ps ≡ true
    → Gone addr w.app
    → Fails w (for_each (set_status status) ps w)
unfolding ◌>>=◌ with_client_mut
statuses_fail status addr [] w m h = cc
statuses_fail status addr (p ∷ ps) w m h =
    statuses_step status addr p ps w (statuses_fail status addr ps) m h
      (update_client w.app p.addr (λ c. record c { player_status = status })) refl

stopped :
    {B : Type 0} (w : World) (r : Result (Unit {0}) × World) (k : Unit {0} → Exec B)
    → Fails w r
    → ((continue r.0 k r.1).0 ≡ err client_not_found)
      × ((continue r.0 k r.1).1.sent ≡ w.sent)
      × ((continue r.0 k r.1).1.app.games ≡ w.app.games)
stopped w r k (e, sent, games) = rw e (refl, sent, games)

announce_fails :
    (env : Env) (game_id gone : ℕ) (c : ClientInfo) (slot : ℕ) (ps : List GamePlayerInfo)
    (outputs : List CachedPlayerOutput) (w : World)
    → is_member gone ps ≡ true
    → Gone gone w.app
    → let r = announce_drop env game_id c slot ps outputs w in
      (r.0 ≡ err client_not_found) × (r.1.sent ≡ w.sent) × (r.1.app.games ≡ w.app.games)
unfolding ◌>>=◌ announce_drop
announce_fails env game_id gone c slot ps outputs w m h =
    stopped w (for_each (set_status player_status_idle) ps w) _
      (statuses_fail player_status_idle gone ps w m h)

elsewhere :
    (w : World) (addr : ℕ) (games : Dict ℕ GameInfo)
    → Gone addr w.app
    → Gone addr (record w.app { games = games })
unfolding get_client
elsewhere w addr games h = h

-- Where a listed player of a game has no client any more, the drop of another player, after which the
-- game goes on, fails: the engine's outputs that the drop lets go are taken from the engine, and not
-- one of them is sent, nor is the notice of the drop.
pub drop_loses_outputs :
    (env : Env) (game_id src gone : ℕ) (w : World) (c : ClientInfo) (g g' : GameInfo)
    (outputs : List CachedPlayerOutput)
    → get_client w.app src ≡ some c
    → get_game w.app game_id ≡ some g
    → Live.execute_drop_game g src ≡ Outcome.ok (dropped outputs false, g')
    → is_member gone g.players ≡ true
    → get_client w.app gone ≡ none
    → ((execute_drop_game env game_id src w).0 ≡ err client_not_found)
      × ((execute_drop_game env game_id src w).1.sent ≡ w.sent)
      × (get_game (execute_drop_game env game_id src w).1.app game_id ≡ some g')
unfolding ◌>>=◌ execute_drop_game after_drop with_room update_game get_game
drop_loses_outputs env game_id src gone w c g g' outputs k l e m h =
    let w' : World = record w { app = record w.app { games = insert game_id g' w.app.games } } in
    let (r, sent, games) =
      announce_fails env game_id gone c (slot_or_0 (position src g.players)) g.players outputs w' m
        (elsewhere w gone (insert game_id g' w.app.games) h) in
    rw (k, l, e, l)
      (
        r,
        sent,
        ap (λ (x : Dict ℕ GameInfo). lookup game_id x) games
            ∙ lookup-insert_self game_id g' w.app.games,
      )
