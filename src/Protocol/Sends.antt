-- ===== src/Protocol/Sends.antt =====
-- Any number of sends through one `UDPPacketGenerator` of src/kaillera/protocol.rs.
use mathlib.Core.List.{reverse}
use direlera_rs.Prelude.{
  ℕ, suc, ◌+◌, ◌-◌, ◌%◌, ◌≤◌, ◌<◌, ◌≡◌, refl, List, [], ◌∷◌, ◌++◌, Bytes, arith, length, drop, All,
  append_assoc, append-nil, ap, sym, ◌∙◌, subst, length-append,
}
use direlera_rs.Protocol.{ParsedMessage, UdpPacketGenerator, new, make_send_packet}
use direlera_rs.Protocol.Parse.{ok, parse_packet}
use direlera_rs.Protocol.Redundancy.{message, remember_message, Tracks, make_send_packet-parses}

-- The last three of a list.
abbrev pub last3 : List ParsedMessage → List ParsedMessage
last3 ms = drop (length ms - 3) ms

last3-cons :
    (a : ParsedMessage) (ms : List ParsedMessage) → 3 ≤ length ms → last3 (a ∷ ms) ≡ last3 ms
last3-cons a ms h = let e : suc (length ms) - 3 ≡ suc (length ms - 3) = omega arith in rw e refl

remember-last3 :
    (ms : List ParsedMessage) (m : ParsedMessage)
    → remember_message (last3 ms) m ≡ last3 (ms ++ m ∷ [])
remember-last3 [] m = refl
remember-last3 (a ∷ []) m = refl
remember-last3 (a ∷ b ∷ []) m = refl
remember-last3 (a ∷ b ∷ c ∷ []) m = refl
remember-last3 (a ∷ b ∷ c ∷ d ∷ ms) m =
    ap (λ x. remember_message x m) (last3-cons a (b ∷ c ∷ d ∷ ms) (omega arith))
    ∙ remember-last3 (b ∷ c ∷ d ∷ ms) m
    ∙ sym (last3-cons a (b ∷ c ∷ d ∷ ms ++ m ∷ []) (omega (arith, length-append ms (m ∷ []))))

-- A type and a payload to send.
abbrev pub Item : Type 0
Item = ℕ × Bytes

abbrev pub Fits : Item → Type 0
Fits x = length x.1 < 65535

-- The messages that items become, numbered from `k` on.
abbrev pub numbered : ℕ → List Item → List ParsedMessage
numbered k [] = []
numbered k (x ∷ xs) = message k x.0 x.1 ∷ numbered ((k + 1) % 65536) xs

pub send_all : UdpPacketGenerator → List Item → UdpPacketGenerator
unfolding make_send_packet
send_all g [] = g
send_all g (x ∷ xs) = send_all (make_send_packet g x.0 x.1).1 xs

send_all-Tracks :
    (g : UdpPacketGenerator) (sent : List ParsedMessage) (xs : List Item)
    → Tracks g (last3 sent)
    → All Fits xs
    → Tracks (send_all g xs) (last3 (sent ++ numbered g.send_count xs))
      × ((send_all g xs).send_count ≡ (g.send_count + length xs) % 65536)
unfolding send_all
send_all-Tracks g sent [] v h = (rw (append-nil sent) v, let c = v.count in omega arith)
send_all-Tracks g sent (x ∷ xs) v h =
    let (p, t, n, s) = make_send_packet-parses g (last3 sent) x.0 x.1 v h.0 in
    let m = message g.send_count x.0 x.1 in
    let t' = subst (Tracks (make_send_packet g x.0 x.1).1) (remember-last3 sent m) t in
    let (u, k) = send_all-Tracks (make_send_packet g x.0 x.1).1 (sent ++ m ∷ []) xs t' h.1 in
    (
      rw (append_assoc sent (m ∷ []) (numbered (make_send_packet g x.0 x.1).1.send_count xs), n) at
          u,
      omega (arith, n, k),
    )

pub new-Tracks : Tracks new (last3 [])
unfolding new
new-Tracks = record { packets = refl; messages = tt; few = omega arith; count = omega arith }

-- After any sends of payloads that fit, a packet parses to the last three messages of the whole
-- history, the new one first; messages are numbered from 0 on in the order of the sends, modulo
-- 65536. So each message is in its own packet and in the two packets after it.
pub send_all-parses :
    (xs : List Item) (x : Item)
    → All Fits xs
    → Fits x
    → parse_packet (make_send_packet (send_all new xs) x.0 x.1).0
      ≡ ok (reverse (last3 (numbered 0 xs ++ message (length xs % 65536) x.0 x.1 ∷ [])))
unfolding new
send_all-parses xs x h k =
    let (t, n) = send_all-Tracks new [] xs new-Tracks h in
    let (p, u, m, s) =
      make_send_packet-parses (send_all new xs) (last3 (numbered 0 xs)) x.0 x.1 t k in
    p
    ∙ ap (λ z. ok (reverse z))
        (remember-last3 (numbered 0 xs) _
          ∙ ap (λ c. last3 (numbered 0 xs ++ message c x.0 x.1 ∷ [])) (n ∙ omega arith))
