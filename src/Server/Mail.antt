-- ===== src/Server/Mail.antt =====
-- What the actions of src/handlers/util.rs send: one packet after the other, each from a generator, with
-- nothing else changed than the generators.
use direlera_rs.Prelude.{
  ℕ, ◌≡◌, refl, sym, ◌∙◌, ap, Option, none, some, Option-cases, List, [], ◌∷◌, ◌++◌, append_assoc,
  append-nil, Bytes, Bool-cases, inl, inr, ◌==◌, ==_iff, nat_eq, arith,
}
use direlera_rs.Dict.{lookup}
use direlera_rs.Protocol.{UdpPacketGenerator, make_send_packet}
use direlera_rs.Protocol
use direlera_rs.State.{ClientInfo, AppState, get_client, get_all_client_addrs, update_client}
use direlera_rs.State.Lookup.{lookup-insert_self, lookup-insert_other}
use direlera_rs.Server.{
  Datagram, World, Result, ok, Exec, continue, ◌>>=◌, updated, with_client_mut,
}
use direlera_rs.Server.Send.{deliver}
use direlera_rs.Server.Quiet.{update_client-ne-none}
use direlera_rs.Server.Rooms.{update_client-cases}

-- A message for an address.
pub record Mail : Type 0 where
  pub addr : ℕ
  pub packet_type : ℕ
  pub payload : Bytes

abbrev pub mail : ℕ → ℕ → Bytes → Mail
mail addr packet_type payload = record { addr = addr; packet_type = packet_type; payload = payload }

-- One datagram for each message, in order: to its address, with its packet from a generator.
abbrev pub Carry : List Datagram → List Mail → Type 0
Carry [] [] = Unit
Carry [] (m ∷ ms) = ⊥
Carry (d ∷ ds) [] = ⊥
Carry (d ∷ ds) (m ∷ ms) =
    (d.addr ≡ m.addr)
    × ((g : UdpPacketGenerator) × (d.bytes ≡ (make_send_packet g m.packet_type m.payload).0))
    × Carry ds ms

Carry-append :
    (ds es : List Datagram) (ms ns : List Mail)
    → Carry ds ms
    → Carry es ns
    → Carry (ds ++ es) (ms ++ ns)
Carry-append [] es [] ns h k = k
Carry-append [] es (m ∷ ms) ns h k = absurd h
Carry-append (d ∷ ds) es [] ns h k = absurd h
Carry-append (d ∷ ds) es (m ∷ ms) ns h k = (h.0, h.1, Carry-append ds es ms ns h.2 k)

-- A client without its generator.
abbrev pub bare : ClientInfo → ClientInfo
bare c = record c { packet_generator = Protocol.new }

abbrev pub bare_of : Option ClientInfo → Option ClientInfo
bare_of none = none
bare_of (some c) = some (bare c)

-- The same clients at the same addresses, but for their generators.
abbrev pub Alike : AppState → AppState → Type 0
Alike s s' =
    ((a : ℕ) → bare_of (get_client s' a) ≡ bare_of (get_client s a))
    × (get_all_client_addrs s' ≡ get_all_client_addrs s)

update_client-Alike :
    (s s' : AppState) (addr : ℕ) (f : ClientInfo → ClientInfo)
    → ((c : ClientInfo) → bare (f c) ≡ bare c)
    → update_client s addr f ≡ some s'
    → Alike s s'
unfolding get_client get_all_client_addrs
update_client-Alike s s' addr f h e =
    let (id, d, q, l, m) = update_client-cases s s' addr f e in
    (
      λ a. elim (Option-cases (lookup a s.clients_by_addr)) [
        | inl no_one ↦ rw (m, no_one) refl
        | inr (j, there) ↦ elim (Bool-cases (id == j)) [
          | inl same ↦
              let z : id ≡ j = (==_iff id j).0 same in
              rw (m, there, ← z, lookup-insert_self id (f d) s.clients_by_id, l) (ap some (h d))
          | inr other ↦
              rw (m, there, lookup-insert_other id j (f d) s.clients_by_id (ground arith)) refl
        ]
      ],
      rw m refl,
    )

pub Alike-known :
    (s s' : AppState) (a : ℕ) (c : ClientInfo)
    → Alike s s'
    → get_client s a ≡ some c
    → (d : ClientInfo) × (get_client s' a ≡ some d) × (bare d ≡ bare c)
Alike-known s s' a c h k = at (get_client s' a) refl
  where
    at :
        (o : Option ClientInfo)
        → get_client s' a ≡ o
        → (d : ClientInfo) × (get_client s' a ≡ some d) × (bare d ≡ bare c)
    at none e = let z = h.0 a in let y : none ≡ some (bare c) = rw (e, k) at z in cc
    at (some d) e =
        let z = h.0 a in let y : some (bare d) ≡ some (bare c) = rw (e, k) at z in (d, e, (cc))

-- A return that sent the messages, in order, after what was queued, and changed nothing else of clients.
abbrev pub Sends : World → Result (Unit {0}) × World → List Mail → Type 0
Sends w r ms =
    (r.0 ≡ ok tt)
    × ((ds : List Datagram) × (r.1.sent ≡ w.sent ++ ds) × Carry ds ms)
    × Alike w.app r.1.app

pub nothing-Sends : (w : World) → Sends w (ok tt, w) []
nothing-Sends w = (refl, ([], sym (append-nil w.sent), tt), ((λ a. refl), refl))

pub then-Sends :
    (w : World) (r : Result (Unit {0}) × World) (k : Exec (Unit {0})) (ms ns : List Mail)
    → Sends w r ms
    → Sends r.1 (k r.1) ns
    → Sends w (continue r.0 (λ _. k) r.1) (ms ++ ns)
then-Sends w r k ms ns (e, (ds, sent, carried), alike) (e', (es, sent', carried'), alike') = rw e (
  e',
  (
    ds ++ es,
    sent' ∙ (ap (λ (x : List Datagram). x ++ es) sent ∙ append_assoc w.sent ds es),
    Carry-append ds es ms ns carried carried',
  ),
  ((λ a. alike'.0 a ∙ alike.0 a), alike'.1 ∙ alike.1),
)

pub deliver-Sends :
    (w : World) (a packet_type : ℕ) (payload : Bytes) (f : ClientInfo → ClientInfo) (c : ClientInfo)
    → get_client w.app a ≡ some c
    → ((c : ClientInfo) → bare (f c) ≡ bare c)
    → Sends w (deliver a packet_type payload f w) (mail a packet_type payload ∷ [])
unfolding ◌>>=◌ deliver with_client_mut
deliver-Sends w a packet_type payload f c k h =
    rw k (
      at (make_send_packet c.packet_generator packet_type payload).1 (update_client w.app a _) refl)
  where
    bytes : Bytes
    bytes = (make_send_packet c.packet_generator packet_type payload).0

    at :
        (g : UdpPacketGenerator) (o : Option AppState)
        → update_client w.app a (λ c. record (f c) { packet_generator = g }) ≡ o
        → Sends w
            (continue
              (updated w o).0
              (λ _ w'.
                (ok tt, record w' { sent = w'.sent ++ record { addr = a; bytes = bytes } ∷ [] }))
              (updated w o).1)
            (mail a packet_type payload ∷ [])
    at g none e = absurd (update_client-ne-none w.app a _ c k e)
    at g (some s) e = (
      refl,
      (record { addr = a; bytes = bytes } ∷ [], refl, (refl, (c.packet_generator, refl), tt)),
      update_client-Alike w.app s a _ h e,
    )
