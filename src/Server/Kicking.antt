-- ===== src/Server/Kicking.antt =====
-- `handle_kick_user` of src/handlers/game.rs keeps the rooms well formed, unless it is the sender that is
-- kicked.
use direlera_rs.Prelude.{
  ℕ, ◌≡◌, ◌≢◌, sym, ◌∙◌, true, false, not, Option, none, some, Bytes, nat_eq, length, ltb, ◌==◌,
  Bool-cases, inl, inr, if◌then◌else◌,
}
use direlera_rs.Protocol.Parse.{get_u16_le}
use direlera_rs.Packet.{read_string_bytes}
use direlera_rs.Room.{GameInfo, is_member}
use direlera_rs.State.{ClientInfo, AppState, get_client, get_game}
use direlera_rs.Server.{Env, ◌>>=◌, pure, gets}
use direlera_rs.Server.Kick.{
  kick_target, kick_there, kick_from, current_game, kick_found, kick_checked, handle_kick_user,
}
use direlera_rs.Server.Triple.{Triple-pure, Cond, Triple, Triple-bind, gets_then, weaken}
use direlera_rs.Server.Known.{assume, client_then, game_then, or_fail_then}
use direlera_rs.Server.Rooms.{IsServer, Held}
use direlera_rs.Server.Locked.{At}
use direlera_rs.Server.Kicked.{Asked, kick_out-IsServer}

-- The client with the id is not at the address.
abbrev pub IsOther : AppState → ℕ → ℕ → Type 0
IsOther s user_id src =
    (addr : ℕ) (c : ClientInfo) → kick_target s user_id ≡ some (addr, c) → src ≢ addr

module _ (env : Env) (src user_id game_id : ℕ) (g : GameInfo)
    (member : is_member src g.players ≡ true) where
  abbrev Ask : Cond
  Ask s = IsServer s × (get_game s game_id ≡ some g)

  ask-Held :
      (addr : ℕ) (s : AppState) (c : ClientInfo)
      → Ask s
      → get_client s addr ≡ some c
      → Held (At game_id (Asked game_id src)) game_id addr s
  unfolding get_game
  ask-Held addr s c (v, e) k = record {
    rooms = record {
      each = λ id x l. (
        (λ _. v.each id x l),
        (λ z.
            let q : some g ≡ some x = sym e ∙ rw z at l in
            let y : g ≡ x = cc in (rw z at (v.each id x l), rw y at member)),
      );
      lan = v.lan;
    };
    there = (g, e);
    known = (c, k);
  }

  kick_there-IsServer :
      (addr : ℕ) (target c : ClientInfo)
      → src ≢ addr
      → (o : Option GameInfo)
      → Triple
          (λ s. Ask s × (get_client s addr ≡ some c))
          (kick_there env game_id addr target o)
          IsServer
          IsServer
  kick_there-IsServer addr target c n none = Triple-pure tt (λ s p. p.0.0)
  kick_there-IsServer addr target c n (some h) =
      weaken _ (λ s p. ask-Held addr s c p.0 p.1) (λ s p. p) (λ s p. p)
        (kick_out-IsServer env src game_id addr n target)

  kick_from-IsServer :
      (addr : ℕ) (target c : ClientInfo)
      → src ≢ addr
      → (o : Option ℕ)
      → Triple
          (λ s. Ask s × (get_client s addr ≡ some c))
          (kick_from env game_id addr target o)
          IsServer
          IsServer
  kick_from-IsServer addr target c n none = Triple-pure tt (λ s p. p.0.0)
  kick_from-IsServer addr target c n (some other) =
      elim (other == game_id)
        as (λ b.
          Triple (λ s. Ask s × (get_client s addr ≡ some c))
            (if b
              then (gets (λ s. get_game s game_id) >>= kick_there env game_id addr target)
              else pure tt)
            IsServer IsServer) [
              | true ↦
                  Triple-bind _ _ (record { at = λ w p. p }) (kick_there-IsServer addr target c n)
              | false ↦ Triple-pure tt (λ s p. p.0.0)
            ]

  kick_current-IsServer :
      (addr : ℕ) (target : ClientInfo)
      → src ≢ addr
      → (o : Option ClientInfo)
      → Triple
          (λ s. Ask s × (get_client s addr ≡ o))
          (kick_from env game_id addr target (current_game o))
          IsServer
          IsServer
  kick_current-IsServer addr target n none = Triple-pure tt (λ s p. p.0.0)
  kick_current-IsServer addr target n (some c) = kick_from-IsServer addr target c n c.game_id

  kick_found-IsServer :
      (o : Option (ℕ × ClientInfo))
      → Triple
          (λ s. (Ask s × IsOther s user_id src) × (kick_target s user_id ≡ o))
          (kick_found env game_id o)
          IsServer
          IsServer
  kick_found-IsServer none = Triple-pure tt (λ s p. p.0.0.0)
  kick_found-IsServer (some (addr, target)) =
      assume (src ≢ addr) _ (λ s p. p.0.1 addr target p.1)
        λ n.
          weaken _ (λ s p. p.0.0) (λ s p. p) (λ s p. p)
            (gets_then (λ s. get_client s addr) _ (kick_current-IsServer addr target n))

kick_checked-IsServer :
    (env : Env) (src user_id : ℕ)
    → Triple
        (λ s. IsServer s × IsOther s user_id src)
        (kick_checked env src user_id)
        IsServer
        IsServer
unfolding kick_checked
kick_checked-IsServer env src user_id =
    client_then src _ (λ s p. p.0)
      λ c.
        or_fail_then _ c.game_id _ (λ s p. p.0.0)
          λ game_id _.
            game_then game_id _ (λ s p. p.0.0)
              λ g. elim (Bool-cases (is_member src g.players)) [
                | inr stranger ↦ rw stranger (Triple-pure tt (λ s p. p.0.0.0))
                | inl member ↦
                    rw member
                      (elim (g.owner_user_id == c.user_id)
                        as (λ b.
                          Triple
                            (λ s.
                              ((IsServer s × IsOther s user_id src) × (get_client s src ≡ some c))
                              × (get_game s game_id ≡ some g))
                            (if not b
                              then pure tt
                              else (gets (λ s. kick_target s user_id) >>= kick_found env game_id))
                            IsServer IsServer) [
                              | false ↦ Triple-pure tt (λ s p. p.0.0.0)
                              | true ↦
                                  weaken _ (λ s p. ((p.0.0.0, p.1), p.0.0.1)) (λ s p. p) (λ s p. p)
                                    (gets_then (λ s. kick_target s user_id) _
                                      (kick_found-IsServer env src user_id game_id g member))
                            ])
              ]

-- A kick of another client leaves every room well formed.
pub handle_kick_user-IsServer :
    (env : Env) (payload : Bytes) (src : ℕ)
    → Triple
        (λ s. IsServer s × IsOther s (get_u16_le (read_string_bytes payload).1) src)
        (handle_kick_user env payload src)
        IsServer
        IsServer
unfolding handle_kick_user
handle_kick_user-IsServer env payload src =
    elim (Bool-cases (ltb (length (read_string_bytes payload).1) 2)) [
      | inl short ↦ rw short (Triple-pure tt (λ s p. p.0))
      | inr long ↦ rw long (kick_checked-IsServer env src _)
    ]
