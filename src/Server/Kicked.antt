-- ===== src/Server/Kicked.antt =====
-- The part of `handle_kick_user` of src/handlers/game.rs after its checks keeps the rooms well formed.
use direlera_rs.Prelude.{
  ℕ, ◌≡◌, ◌≢◌, refl, sym, ◌∙◌, subst, true, false, List, [], ◌∷◌, arith, nat_eq, ◌==◌, Bool-cases,
  Option-cases, inl, inr,
}
use direlera_rs.Room.{
  GamePlayerInfo, GameInfo, position, is_live, is_member, take_out, remove_at, kick_room,
  migrate_owner_if_needed,
}
use direlera_rs.Room.Owner.{migrate_owner-HasOwner}
use direlera_rs.State.{ClientInfo}
use direlera_rs.Server.{Env}
use direlera_rs.Server.Leave.{to_lobby}
use direlera_rs.Server.Kick.{drop_if, kick_out}
use direlera_rs.Server.Triple.{
  Triple, Triple-bind, Keeps-bind, Keeps-pure, Keeps-gets, weaken, Triple-attempt,
}
use direlera_rs.Server.Quiet.{Keeps-with_client_mut, Keeps-send_packet}
use direlera_rs.Server.Rooms.{Good, IsServer, Held, Held-IsStable}
use direlera_rs.Server.Locked.{At, with_room_then, Held-widen, Held-IsServer}
use direlera_rs.Server.Leaving.{IsServer-IsStable}
use direlera_rs.Server.Dropping.{Leaves}
use direlera_rs.Server.Quitting.{
  tombstone-Leaves, take_out-Good, dropping-IsServer, quit_and_status-Keeps,
}

alone :
    (src : ℕ) (p : GamePlayerInfo) (ps : List GamePlayerInfo)
    → (p.addr == src) ≡ false
    → is_member src (p ∷ ps) ≡ true
    → ps ≢ []
alone src p [] q m e = ground (arith, q)
alone src p (x ∷ ps) q m e = cc

-- Another member stays when one is taken out.
member_stays :
    (src addr : ℕ) (ps : List GamePlayerInfo)
    → src ≢ addr
    → is_member src ps ≡ true
    → remove_at ps (position addr ps) ≢ []
member_stays src addr [] n m e = cc
member_stays src addr (p ∷ ps) n m e = elim (Bool-cases (p.addr == addr)) [
  | inl here ↦ let q : (p.addr == src) ≡ false = ground arith in alone src p ps q m (simp here at e)
  | inr other ↦ elim (Option-cases (position addr ps)) [
    | inl no_one ↦ let z = simp (other, no_one) at e in cc
    | inr (i, there) ↦ let z = simp (other, there) at e in cc
  ]
]

-- The member of the room that asks is still there.
abbrev pub Asked : ℕ → ℕ → GameInfo → Type 0
Asked game_id src g = Good game_id g × (is_member src g.players ≡ true)

module _ (env : Env) (src game_id addr : ℕ) (other : src ≢ addr) where
  drop_if-IsServer :
      (g : GameInfo)
      → Asked game_id src g
      → Triple
          (Held (At game_id (λ x. x ≡ (kick_room g addr).1)) game_id addr)
          (drop_if env game_id addr (kick_room g addr).0)
          IsServer
          IsServer
  unfolding kick_room
  drop_if-IsServer g v = elim (Bool-cases (is_live g)) [
    | inl on ↦ rw on (
        weaken _
          (Held-widen game_id addr _ (Leaves game_id addr)
            (λ x z. subst (Leaves game_id addr) (sym z) (tombstone-Leaves game_id addr g on v.0)))
          (λ s p. p) (λ s p. p) (Triple-attempt _ (dropping-IsServer env game_id addr)))
    | inr off ↦ rw off (
        weaken _
          (λ s p. Held-IsServer game_id addr s (
            Held-widen game_id addr _ (Good game_id)
              (λ x z. subst (Good game_id) (sym z) (rest g off v)) s p))
          (λ s p. p) (λ s p. p) (Keeps-pure tt))
  ]
    where
      rest :
          (g : GameInfo)
          → is_live g ≡ false
          → Asked game_id src g
          → Good game_id (migrate_owner_if_needed (take_out g addr)).1
      rest g off v = take_out-Good game_id addr g off v.0 λ z.
          member_stays src addr g.players other v.1
            (sym (migrate_owner-HasOwner (take_out g addr)).players ∙ z)

  pub kick_out-IsServer :
      (target : ClientInfo)
      → Triple
          (Held (At game_id (Asked game_id src)) game_id addr)
          (kick_out env game_id addr target)
          IsServer
          IsServer
  unfolding kick_out
  kick_out-IsServer target =
      Triple-bind _ _
        (Triple-attempt _ (
          Keeps-with_client_mut (Held-IsStable (At game_id (Asked game_id src)) game_id addr) addr
            to_lobby (λ d. refl)))
        λ _.
          with_room_then game_id addr (Asked game_id src) (λ g. kick_room g addr) _
            λ g v. Triple-bind _ _ (drop_if-IsServer g v) λ _.
              Keeps-bind _ _ (Keeps-send_packet IsServer-IsStable env addr _ _) λ _.
                Keeps-bind _ _ (Keeps-gets _) (quit_and_status-Keeps IsServer-IsStable game_id _)
