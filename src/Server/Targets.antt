-- ===== src/Server/Targets.antt =====
-- Whom `broadcast_packet` and `broadcast_packet_to_game` of src/handlers/util.rs reach.
use direlera_rs.Prelude.{
  ℕ, ◌≡◌, refl, sym, subst, ◌∙◌, Bool, true, false, Option, none, some, List, [], ◌∷◌, ◌++◌, map,
  Bytes, if◌then◌else◌,
}
use direlera_rs.Protocol.{UdpPacketGenerator}
use direlera_rs.Protocol
use direlera_rs.Room.{GamePlayerInfo, GameInfo}
use direlera_rs.State.{ClientInfo, AppState, get_client, get_game, get_all_client_addrs}
use direlera_rs.Server.{World, Result, err, game_not_found, continue, ◌>>=◌, pure, for_each}
use direlera_rs.Server.Status.{is_logged_in}
use direlera_rs.Server.Send.{
  deliver, offer, offer_to, broadcast_packet, is_in_game, broadcast_packet_to_game,
}
use direlera_rs.Server.Mail.{
  Mail, mail, bare_of, Alike, Sends, nothing-Sends, then-Sends, deliver-Sends,
}

abbrev passes : (ClientInfo → Bool) → Option ClientInfo → Bool
passes test none = false
passes test (some c) = test c

-- The addresses whose client passes the test.
abbrev pub targets : (ClientInfo → Bool) → AppState → List ℕ → List ℕ
targets test s [] = []
targets test s (a ∷ addrs) =
    if passes test (get_client s a) then a ∷ targets test s addrs else targets test s addrs

-- The same message for each of the addresses.
abbrev pub to_each : ℕ → Bytes → List ℕ → List Mail
to_each packet_type payload addrs = map (λ a. mail a packet_type payload) addrs

-- A test that does not look at the generator.
abbrev pub Blind : (ClientInfo → Bool) → Type 0
Blind test =
    (c : ClientInfo) (g : UdpPacketGenerator) → test (record c { packet_generator = g }) ≡ test c

module _ (test : ClientInfo → Bool) (blind : Blind test) where
  passes-bare_of : (o : Option ClientInfo) → passes test (bare_of o) ≡ passes test o
  passes-bare_of none = refl
  passes-bare_of (some c) = blind c Protocol.new

  pub targets-Alike :
      (s s' : AppState) (addrs : List ℕ) → Alike s s' → targets test s' addrs ≡ targets test s addrs
  targets-Alike s s' [] h = refl
  targets-Alike s s' (a ∷ addrs) h =
      let p : passes test (get_client s' a) ≡ passes test (get_client s a) =
        sym (passes-bare_of (get_client s' a)) ∙ (rw (h.0 a) (passes-bare_of (get_client s a))) in
      rw (p, targets-Alike s s' addrs h) refl

  module _ (packet_type : ℕ) (payload : Bytes) where
    offered :
        (w : World) (a : ℕ)
        → Sends w
            (offer test packet_type payload a w)
            (to_each packet_type payload (if passes test (get_client w.app a) then a ∷ [] else []))
    unfolding ◌>>=◌ offer
    offered w a = at (get_client w.app a) refl
      where
        tested :
            (c : ClientInfo) (b : Bool)
            → get_client w.app a ≡ some c
            → Sends w
                ((if b then deliver a packet_type payload (λ c. c) else pure tt) w)
                (to_each packet_type payload (if b then a ∷ [] else []))
        tested c true k = deliver-Sends w a packet_type payload (λ c. c) c k (λ c. refl)
        tested c false k = nothing-Sends w

        at :
            (o : Option ClientInfo)
            → get_client w.app a ≡ o
            → Sends w
                (offer_to test packet_type a payload o w)
                (to_each packet_type payload (if passes test o then a ∷ [] else []))
        at none k = nothing-Sends w
        at (some c) k = tested c (test c) k

    one-targets :
        (s : AppState) (a : ℕ) (addrs : List ℕ)
        → to_each packet_type payload (if passes test (get_client s a) then a ∷ [] else [])
            ++ to_each packet_type payload (targets test s addrs)
          ≡ to_each packet_type payload (targets test s (a ∷ addrs))
    one-targets s a addrs = at (passes test (get_client s a))
      where
        at :
            (b : Bool)
            → to_each packet_type payload (if b then a ∷ [] else [])
                ++ to_each packet_type payload (targets test s addrs)
              ≡ to_each packet_type payload
                  (if b then a ∷ targets test s addrs else targets test s addrs)
        at true = refl
        at false = refl

    pub offers-Sends :
        (addrs : List ℕ) (w : World)
        → Sends w
            (for_each (offer test packet_type payload) addrs w)
            (to_each packet_type payload (targets test w.app addrs))
    unfolding ◌>>=◌
    offers-Sends [] w = nothing-Sends w
    offers-Sends (a ∷ addrs) w =
        let r = offer test packet_type payload a w in
        let first = offered w a in
        let rest =
          subst
            (λ x.
              Sends r.1 (for_each (offer test packet_type payload) addrs r.1)
                (to_each packet_type payload x))
            (targets-Alike w.app r.1.app addrs first.2) (offers-Sends addrs r.1) in
        let k = for_each (offer test packet_type payload) addrs in
        subst (Sends w (continue r.0 (λ _. k) r.1)) (one-targets w.app a addrs)
          (then-Sends w r k _ _ first rest)

-- The messages of a broadcast to the lobby.
abbrev pub lobby_mail : ℕ → Bytes → AppState → List Mail
lobby_mail packet_type payload s =
    to_each packet_type payload (targets is_logged_in s (get_all_client_addrs s))

pub broadcast_packet-Sends :
    (packet_type : ℕ) (payload : Bytes) (w : World)
    → Sends w (broadcast_packet packet_type payload w) (lobby_mail packet_type payload w.app)
unfolding ◌>>=◌ broadcast_packet
broadcast_packet-Sends packet_type payload w =
    offers-Sends is_logged_in (λ c g. refl) packet_type payload (get_all_client_addrs w.app) w

-- The outcome of a broadcast to a game that may exist.
abbrev pub ToGame : ℕ → ℕ → Bytes → World → Option GameInfo → Result (Unit {0}) × World → Type 0
ToGame game_id packet_type payload w none r = r ≡ (err game_not_found, w)
ToGame game_id packet_type payload w (some g) r = Sends w r (
    to_each packet_type payload
      (targets (is_in_game game_id) w.app (map (λ (p : GamePlayerInfo). p.addr) g.players)))

-- A broadcast to the lobby returns: after what was queued it sends one datagram with a packet of the
-- message to each address whose client has done the handshake, and to none else. A broadcast to a game
-- that does not exist is an error and sends nothing; to one that exists, it returns and sends one such
-- datagram to each listed player whose client is in that game now, in the order of the slots, and to none
-- else. Nothing of any client changes but its generator.
pub broadcast_targets :
    (packet_type : ℕ) (payload : Bytes) (game_id : ℕ) (w : World)
    → Sends w (broadcast_packet packet_type payload w) (lobby_mail packet_type payload w.app)
      × ToGame game_id packet_type payload w
          (get_game w.app game_id)
          (broadcast_packet_to_game game_id packet_type payload w)
unfolding ◌>>=◌ broadcast_packet_to_game
broadcast_targets packet_type payload game_id w =
    (broadcast_packet-Sends packet_type payload w, at (get_game w.app game_id) refl)
  where
    at :
        (o : Option GameInfo)
        → get_game w.app game_id ≡ o
        → ToGame game_id packet_type payload w o
            (broadcast_packet_to_game game_id packet_type payload w)
    at none e = rw e refl
    at (some g) e = rw e (
        offers-Sends (is_in_game game_id) (λ c g. refl) packet_type payload
          (map (λ (p : GamePlayerInfo). p.addr) g.players) w)
