-- ===== src/Gossip/Transport.antt =====
-- The UDP transport of project/gossip/pkg/gossip/transport.go. The packages net and encoding/json are
-- parameters: an address that is resolved and a socket are numbers.
pub mod Delivery
use cs.Prelude.{ℕ, ◌*◌, Bool, true, false, List, [], ◌∷◌, Option, none, some, Text, take}
use cs.Gossip.Defs.{Msg}

-- What the transport calls. `none` is an error; ListenUDP then returns no socket, and Marshal no bytes.
pub record Udp : Type 0 where
  pub resolve_udp_addr : Text → Option ℕ
  pub listen_udp : ℕ → Option ℕ
  pub addr_string : ℕ → Text
  pub can_write : (conn addr : ℕ) → List ℕ → Bool
  pub can_close : ℕ → Bool
  pub marshal : Msg → Option (List ℕ)
  pub unmarshal : List ℕ → Option Msg

pub record UdpTransport : Type 0 where
  pub conn : Option ℕ

-- `started` says that the goroutine which reads the socket runs, which is where there is no error.
pub record Listening : Type 0 where
  pub tx : UdpTransport
  pub started : Bool

pub record Datagram : Type 0 where
  pub addr : ℕ
  pub bytes : List ℕ

-- What ReadFromUDP returns: a datagram with the address that it came from, or an error.
pub data Read : Type 0 where
  arrived : Datagram → Read
  failed : Read

unfoldable pub new_udp_transport : UdpTransport
new_udp_transport = record { conn = none }

-- The size of the buffer, 64<<10. ReadFromUDP cuts what does not fit.
abbrev pub buffer_size : ℕ
buffer_size = 65536

module _ (udp : Udp) where
  opened : Option ℕ → Listening
  opened none = record { tx = record { conn = none }; started = false }
  opened (some conn) = record { tx = record { conn = some conn }; started = true }

  unfoldable pub listen : Text → UdpTransport → Listening
  unfolding opened
  listen bind tx = elim (udp.resolve_udp_addr bind) [
    | none ↦ record { tx = tx; started = false }
    | some addr ↦ opened (udp.listen_udp addr)
  ]

  -- A packet that is no message is passed over.
  handle_packet : {S : Type 0} → (S → Msg → Text → S) → S → ℕ → Option Msg → S
  handle_packet handler s addr none = s
  handle_packet handler s addr (some m) = handler s m (udp.addr_string addr)

  -- The goroutine of Listen on the results of its reads, with the state that the handler changes.
  unfoldable pub read_loop : {S : Type 0} → (S → Msg → Text → S) → List Read → S → S
  unfolding handle_packet
  read_loop handler [] s = s
  read_loop handler (failed ∷ reads) s = s
  read_loop handler (arrived d ∷ reads) s =
      read_loop handler reads
        (handle_packet handler s d.addr (udp.unmarshal (take buffer_size d.bytes)))

  bytes_of : Option (List ℕ) → List ℕ
  bytes_of none = []
  bytes_of (some bytes) = bytes

  -- WriteToUDP on the socket; it returns an error where there is none.
  write_to : Option ℕ → Datagram → Option Datagram
  write_to none d = none
  write_to (some conn) d = elim (udp.can_write conn d.addr d.bytes) [ true ↦ some d | false ↦ none ]

  -- The datagram that goes out; `none` is an error.
  unfoldable pub send_to : Text → Msg → UdpTransport → Option Datagram
  unfolding bytes_of write_to
  send_to addr m tx = elim (udp.resolve_udp_addr addr) [
    | none ↦ none
    | some to ↦ write_to tx.conn (record { addr = to; bytes = bytes_of (udp.marshal m) })
  ]

  -- Whether Close returns no error.
  unfoldable pub close : UdpTransport → Bool
  close tx = elim tx.conn [ none ↦ true | some conn ↦ udp.can_close conn ]
