-- ===== src/Gossip/Samples/Links.antt =====
-- The theorems about the transport and the command of project/gossip at concrete packets.
use cs.Prelude.{
  ℕ, ◌≡◌, refl, List, [], ◌∷◌, some, none, true, Option, Text, arith, ◌==◌, if◌then◌else◌, length,
}
use cs.Gossip.Defs.{Msg, msg_push}
use cs.Gossip.Transport.{Udp, Read, arrived, read_loop, send_to}
use cs.Gossip.Transport.Delivery.{done, sent, noise, Sending, fold_handler, read_loop-Traffic}
use cs.Gossip.Daemon.{split_csv}
use cs.Gossip.Daemon.Seeds.{comma_separated, split_csv-comma_separated}

abbrev hello : Msg
hello = record { type_tag = some msg_push; sender = 65 ∷ []; rumors = []; ids = [] }

-- The byte 1 is the text of one message.
abbrev decoded : List ℕ → Option Msg
decoded [] = none
decoded (b ∷ bytes) = if b == 1 then some hello else none

abbrev sample_udp : Udp
sample_udp = record {
  resolve_udp_addr = λ addr. some (length addr);
  listen_udp = λ addr. some addr;
  addr_string = λ addr. addr ∷ [];
  can_write = λ conn addr bytes. true;
  can_close = λ conn. true;
  marshal = λ m. some (1 ∷ []);
  unmarshal = decoded;
}

abbrev sending : Sending
sending = record { tx = record { conn = some 3 }; to = 66 ∷ []; msg = hello; from = 7 }

abbrev reads : List Read
reads =
    arrived (record { addr = 4; bytes = 0 ∷ [] })
    ∷ arrived (record { addr = 7; bytes = 1 ∷ [] })
    ∷ []

read_loop-Traffic_example :
    read_loop sample_udp (λ (s : List Text) m remote. m.sender ∷ remote ∷ s) reads []
    ≡ (65 ∷ []) ∷ (7 ∷ []) ∷ []
unfolding send_to fold_handler
read_loop-Traffic_example =
    read_loop-Traffic sample_udp (λ (s : List Text) m remote. m.sender ∷ remote ∷ s)
      (noise (record { addr = 4; bytes = 0 ∷ [] }) refl
        (sent sending (record { addr = 1; bytes = 1 ∷ [] }) refl done))
      (record { bytes = 1 ∷ []; marshals = refl; unmarshals = refl; fits = omega arith }, tt) []

-- A byte 32 before a text is white space.
abbrev trim : Text → Text
trim [] = []
trim (b ∷ s) = if b == 32 then s else b ∷ s

split_csv-comma_separated_example :
    split_csv trim (65 ∷ 44 ∷ 66 ∷ 67 ∷ []) ≡ (65 ∷ []) ∷ (66 ∷ 67 ∷ []) ∷ []
unfolding comma_separated
split_csv-comma_separated_example =
    split_csv-comma_separated trim ((65 ∷ []) ∷ (66 ∷ 67 ∷ []) ∷ []) (
      record { nonempty = λ e. cc; no_comma = (refl, tt); trim = refl },
      (record { nonempty = λ e. cc; no_comma = (refl, (refl, tt)); trim = refl }, tt),
    )
