-- ===== src/Gossip/Node/Tick.antt =====
-- tickOnce and pickPeers in project/gossip/pkg/gossip/node.go.
use cs.Prelude.Every.{Every}
use cs.Prelude.{
  count, length-map, subst, sym, some-eq, get_elem?, ℕ, ◌≤◌, min, pos, ◌≡◌, refl, ap, ◌∙◌, List, [],
  ◌∷◌, map, some, arith, Text, length,
}
use cs.Gossip.Node.Picks.{
  IsInRange, length-pick_peers, pick_peers-all, IsPermutation, count-pick_peers, drawn,
  pick_peers-drawn,
}
use cs.Gossip.Defs.{msg_push, sent, Rumor, Msg, Store, Node, Envelope}
use cs.Gossip.Store.{digest, write_log, ready_to_push, zero_rumor}
use cs.Gossip.Node.{Handled, send_all, tick_with, tick_once, send_digest, digest_to}

pub send_digest-ends :
    (order : List Text → List Text) (perm : ℕ → List ℕ) (n : Node)
    → IsInRange perm
    → (es : List Envelope) × (send_digest order perm n ≡ some es)
unfolding send_digest
send_digest-ends order perm n d =
    let (ps, q, _) = length-pick_peers 1 perm n.peers d in
    (digest_to n.cfg.id ps (digest order n.store), rw (q) refl)

pub send_all-store :
    (now : ℕ) (tag : Rumor) (msg : Msg) (ps : List Text) (s : Store)
    → ((send_all now tag msg ps s).seen ≡ s.seen)
      × ((send_all now tag msg ps s).new_ids ≡ s.new_ids)
unfolding send_all write_log
send_all-store now tag msg [] s = (refl, refl)
send_all-store now tag msg (p ∷ ps) s = send_all-store now tag msg ps (write_log now sent tag s)

-- The message that carries a batch.
abbrev pub push_msg : Text → List Rumor → Msg
push_msg id rs = record { type_tag = some msg_push; sender = id; rumors = rs; ids = [] }

-- The messages of a round: none without a rumor.
unfoldable pub fan : ℕ → ℕ → List Rumor → ℕ
fan k peers [] = 0
fan k peers (r ∷ rs) = min k peers

abbrev pub envelopes : Msg → List Text → List Envelope
envelopes msg = map (λ p. record { addr = p; msg = msg })

abbrev pub addresses : List Envelope → List Text
addresses = map (λ e. e.addr)

addresses-envelopes : (msg : Msg) (ps : List Text) → addresses (envelopes msg ps) ≡ ps
addresses-envelopes msg [] = refl
addresses-envelopes msg (p ∷ ps) = ap (◌∷◌ p) (addresses-envelopes msg ps)

Every-envelopes : (msg : Msg) (ps : List Text) → Every (λ e. e.msg ≡ msg) (envelopes msg ps)
Every-envelopes msg [] = tt
Every-envelopes msg (p ∷ ps) = (refl, Every-envelopes msg ps)

-- The messages of a round with a batch, as many as there shall be, at peers that the permutation draws.
pub record IsFanOut (k : ℕ) (perm : ℕ → List ℕ) (batch : List Rumor) (n : Node)
    (sends : List Envelope) : Type 0 where
  pub number : length sends ≡ fan k (length n.peers) batch
  pub messages : Every (λ e. e.msg ≡ push_msg n.cfg.id batch) sends
  pub no_more : (p : Text) → count p (addresses sends) ≤ count p n.peers
  pub drawn_peers :
      (j : ℕ) (p : Text)
      → get_elem? (addresses sends) j ≡ some p
      → (i : ℕ) × (drawn k perm (length n.peers) j ≡ some i) × (get_elem? n.peers i ≡ some p)

-- With a fanout that is not negative, the round ends, and keeps the rumors and the new IDs.
tick_with-ends :
    (now k : ℕ) (perm : ℕ → List ℕ) (batch : List Rumor) (n : Node)
    → n.cfg.fanout ≡ pos k
    → IsInRange perm
    → (h : Handled) × (tick_with now perm batch n ≡ some h)
      × (h.node.store.seen ≡ n.store.seen)
      × (h.node.store.new_ids ≡ n.store.new_ids)
unfolding tick_with
tick_with-ends now k perm [] n e h = (record { node = n; sends = [] }, refl, refl, refl)
tick_with-ends now k perm (r ∷ rs) n e h =
    let (out, q, _) = length-pick_peers k perm n.peers h in
    let msg = push_msg n.cfg.id (r ∷ rs) in
    let (seen, ids) = send_all-store now (record zero_rumor { id = r.id }) msg out n.store in
    (
      record {
        node = record n { store = send_all now (record zero_rumor { id = r.id }) msg out n.store };
        sends = envelopes msg out;
      },
      rw (e, q) refl,
      seen,
      ids,
    )

tick_with-IsFanOut :
    (now k : ℕ) (perm : ℕ → List ℕ) (batch : List Rumor) (n : Node) (h : Handled)
    → n.cfg.fanout ≡ pos k
    → IsPermutation perm
    → tick_with now perm batch n ≡ some h
    → IsFanOut k perm batch n h.sends
unfolding tick_with fan count
tick_with-IsFanOut now k perm [] n h e d q =
    subst (λ (h : Handled). IsFanOut k perm [] n h.sends) (some-eq q)
      (record {
        number = refl;
        messages = tt;
        no_more = λ p. omega arith;
        drawn_peers = λ j p f. absurd (ground arith);
      })
tick_with-IsFanOut now k perm (r ∷ rs) n h e d q =
    let msg = push_msg n.cfg.id (r ∷ rs) in
    let (out, picks, l) = length-pick_peers k perm n.peers d.0 in
    let sent_all : h.sends ≡ envelopes msg out = ground (arith, e, picks, q) in
    let same = addresses-envelopes msg out in
    subst (IsFanOut k perm (r ∷ rs) n) (sym sent_all) (record {
      number = length-map out (λ p. record { addr = p; msg = msg }) ∙ l;
      messages = Every-envelopes msg out;
      no_more = λ p. rw same (count-pick_peers k perm n.peers p d picks);
      drawn_peers = λ j p f.
          pick_peers-drawn k perm n.peers j out p picks
            (subst (λ ps. get_elem? ps j ≡ some p) same f);
    })

pub tick_once-ends :
    (now k : ℕ) (perm : ℕ → List ℕ) (n : Node)
    → n.cfg.fanout ≡ pos k
    → IsInRange perm
    → (h : Handled) × (tick_once now perm n ≡ some h)
      × (h.node.store.seen ≡ n.store.seen)
      × (h.node.store.new_ids ≡ [])
unfolding tick_once ready_to_push
tick_once-ends now k perm n e h =
    tick_with-ends now k perm (ready_to_push n.store).rumors
      (record n { store = (ready_to_push n.store).store }) e h

-- With a fanout that is not negative, where rand.Perm gives the indices of the peers in some order, each
-- once, a round of a node never panics. It keeps the rumors that the node knows and leaves no
-- new ID, whether or not there was a peer to send to. It sends as many messages as the fanout
-- says, or as there are peers if these are fewer, and none if there was no rumor to push. Each
-- message is a push of all the rumors in the node's name. No address gets more messages than it
-- stands among the peers; the j-th message goes to the j-th peer if all of them are sent one, and
-- else to the peer at the j-th index that rand.Perm gave.
pub tick_once-IsFanOut :
    (now k : ℕ) (perm : ℕ → List ℕ) (n : Node)
    → n.cfg.fanout ≡ pos k
    → IsPermutation perm
    → (h : Handled) × (tick_once now perm n ≡ some h)
      × (h.node.store.seen ≡ n.store.seen)
      × (h.node.store.new_ids ≡ [])
      × IsFanOut k perm (ready_to_push n.store).rumors n h.sends
unfolding tick_once ready_to_push
tick_once-IsFanOut now k perm n e d =
    let ready = ready_to_push n.store in
    let (h, q, seen, ids) = tick_once-ends now k perm n e d.0 in
    let fans =
      tick_with-IsFanOut now k perm ready.rumors (record n { store = ready.store }) h e d q in
    (
      h,
      q,
      seen,
      ids,
      record {
        number = fans.number;
        messages = fans.messages;
        no_more = fans.no_more;
        drawn_peers = fans.drawn_peers;
      },
    )

-- The batch is pushed to all peers where the fanout is large enough.
pub tick_once-to_all :
    (now k : ℕ) (perm : ℕ → List ℕ) (n : Node)
    → n.cfg.fanout ≡ pos k
    → length n.peers ≤ k
    → (r : Rumor) (rs : List Rumor) → (ready_to_push n.store).rumors ≡ r ∷ rs
    → (h : Handled) × (tick_once now perm n ≡ some h)
      × (h.sends ≡ map (λ p. record { addr = p; msg = push_msg n.cfg.id (r ∷ rs) }) n.peers)
unfolding tick_once tick_with
tick_once-to_all now k perm n fanout room r rs batch =
    let all = pick_peers-all k perm n.peers room in
    (
      record {
        node = record n {
          store =
              send_all now (record zero_rumor { id = r.id }) (push_msg n.cfg.id (r ∷ rs)) n.peers
                (ready_to_push n.store).store;
        };
        sends = map (λ p. record { addr = p; msg = push_msg n.cfg.id (r ∷ rs) }) n.peers;
      },
      ground (arith, fanout, all, batch),
      refl,
    )
