-- ===== src/Gossip/Transport/Delivery.antt =====
-- What reaches the handler of a transport of project/gossip/pkg/gossip/transport.go.
use cs.Prelude.{ℕ, ◌≤◌, ◌≡◌, refl, List, [], ◌∷◌, none, some, Text, length, take, take-all, arith}
use cs.Prelude.Every.{Every}
use cs.Gossip.Defs.{Msg}
use cs.Gossip.Transport.{
  Udp, UdpTransport, Datagram, Read, arrived, buffer_size, read_loop, send_to,
}

-- A message, the transport that it was sent with, and the address that it comes from.
pub record Sending : Type 0 where
  pub tx : UdpTransport
  pub to : Text
  pub msg : Msg
  pub from : ℕ

module _ (udp : Udp) where
  -- Packets, each of which is one that Send wrote, or no message: the messages are those of the sends.
  pub data Traffic : List Sending → List Read → Type 0 where
    done : Traffic [] []
    sent :
        {sends : List Sending} {reads : List Read} (s : Sending) (d : Datagram)
        → send_to udp s.to s.msg s.tx ≡ some d
        → Traffic sends reads
        → Traffic (s ∷ sends) (arrived (record d { addr = s.from }) ∷ reads)
    noise :
        {sends : List Sending} {reads : List Read} (d : Datagram)
        → udp.unmarshal (take buffer_size d.bytes) ≡ none
        → Traffic sends reads
        → Traffic sends (arrived d ∷ reads)

  -- JSON keeps the message, and its text fits into the buffer.
  pub record IsCarried (m : Msg) : Type 0 where
    pub bytes : List ℕ
    pub marshals : udp.marshal m ≡ some bytes
    pub unmarshals : udp.unmarshal bytes ≡ some m
    pub fits : length bytes ≤ buffer_size

  -- The handler on the messages of the sends.
  unfoldable pub fold_handler : {S : Type 0} → (S → Msg → Text → S) → List Sending → S → S
  fold_handler handler [] s = s
  fold_handler handler (x ∷ sends) s =
      fold_handler handler sends (handler s x.msg (udp.addr_string x.from))

  send-bytes :
      (s : Sending) (d : Datagram)
      → send_to udp s.to s.msg s.tx ≡ some d
      → (carried : IsCarried s.msg) → d.bytes ≡ carried.bytes
  unfolding send_to
  send-bytes s d e carried = ground (arith, carried.marshals)

  send-arrives :
      (s : Sending) (d : Datagram)
      → send_to udp s.to s.msg s.tx ≡ some d
      → IsCarried s.msg
      → udp.unmarshal (take buffer_size d.bytes) ≡ some s.msg
  send-arrives s d e carried =
      rw (send-bytes s d e carried, take-all buffer_size carried.bytes carried.fits)
        carried.unmarshals

  -- A packet that Send wrote reaches the handler as the message that was sent, with the address that
  -- the packet comes from; what is no message is passed over. So the handler runs on the messages of
  -- the packets in the order in which these arrive, if JSON keeps each of them in at most as
  -- many bytes as the buffer has.
  pub read_loop-Traffic :
      {S : Type 0} (handler : S → Msg → Text → S) {sends : List Sending} {reads : List Read}
      → Traffic sends reads
      → Every (λ (x : Sending). IsCarried x.msg) sends
      → (s : S) → read_loop udp handler reads s ≡ fold_handler handler sends s
  unfolding read_loop fold_handler
  read_loop-Traffic handler done c s = refl
  read_loop-Traffic handler (sent x d e traffic) c s =
      rw (send-arrives x d e c.0) (read_loop-Traffic handler traffic c.1 _)
  read_loop-Traffic handler (noise d e traffic) c s = rw e (read_loop-Traffic handler traffic c s)
