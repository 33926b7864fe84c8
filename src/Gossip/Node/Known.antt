-- ===== src/Gossip/Node/Known.antt =====
-- What holds of every rumor that a node of project/gossip/pkg/gossip/node.go is given holds of those
-- that it knows and sends, if a hop less does not break it.
use cs.Prelude.{
  decrement, ℕ, ◌≡◌, refl, true, List, [], ◌∷◌, Option, none, some, Text, >>=-eq-some, some-eq,
  subst, sym, ap, ◌∙◌, map, pos,
}
use cs.Prelude.Dicts.{lookup}
use cs.Prelude.Every.{Every}
use cs.Gossip.Defs.{
  MsgType, msg_push, msg_digest, msg_missing, msg_fetch_rep, Rumor, Msg, Store, Node, Envelope,
  positive,
}
use cs.Gossip.Store.{write_log, ready_to_push, zero_rumor, digest}
use cs.Gossip.Store.Known.{
  AllKnown, AllLive, if-AllKnown, add-AllKnown, ready_to_push-AllLive, lookup_many-AllLive,
}
use cs.Gossip.Node.{
  Handled, pick_peers, tick_with, tick_once, receive_push, receive_fetch, handle_digest,
  ask_missing, handle_missing, reply_rumors, dispatch, handle, send_digest, digest_to,
}
use cs.Gossip.Node.Tick.{send_all-store}

-- P holds of every rumor with a hop left that the messages carry.
abbrev pub AllSent : (Rumor → Type 0) → List Envelope → Type 0
AllSent P = Every (λ e. AllLive P e.msg.rumors)

abbrev pub IsHandled : (Rumor → Type 0) → Handled → Type 0
IsHandled P h = AllKnown P h.node.store × AllSent P h.sends

module _ (P : Rumor → Type 0) where
  pub receive_fetch-AllKnown :
      (now : ℕ) (rs : List Rumor) (s : Store)
      → AllLive P rs
      → AllKnown P s
      → AllKnown P (receive_fetch now rs s)
  unfolding receive_fetch
  receive_fetch-AllKnown now [] s l h = h
  receive_fetch-AllKnown now (r ∷ rs) s l h =
      receive_fetch-AllKnown now rs _ l.1
        (if-AllKnown P (positive r.ttl) _ _ (λ live. add-AllKnown P now r s (l.0 live) h) h)

  ask_missing-AllSent : (id addr : Text) (ids : List Text) → AllSent P (ask_missing id addr ids)
  unfolding ask_missing
  ask_missing-AllSent id addr [] = tt
  ask_missing-AllSent id addr (x ∷ xs) = (tt, tt)

  digest_to-AllSent : (id : Text) (ps ids : List Text) → AllSent P (digest_to id ps ids)
  unfolding digest_to
  digest_to-AllSent id [] ids = tt
  digest_to-AllSent id (p ∷ ps) [] = tt
  digest_to-AllSent id (p ∷ ps) (x ∷ xs) = (tt, tt)

  reply_rumors-AllSent :
      (id addr : Text) (rs : List Rumor) → AllLive P rs → AllSent P (reply_rumors id addr rs)
  unfolding reply_rumors
  reply_rumors-AllSent id addr [] l = tt
  reply_rumors-AllSent id addr (r ∷ rs) l = (l, tt)

  to_each-AllSent :
      (msg : Msg) (ps : List Text)
      → AllLive P msg.rumors
      → AllSent P (map (λ p. record { addr = p; msg = msg }) ps)
  to_each-AllSent msg [] l = tt
  to_each-AllSent msg (p ∷ ps) l = (l, to_each-AllSent msg ps l)

  tick_with-IsHandled :
      (now : ℕ) (perm : ℕ → List ℕ) (rs : List Rumor) (n : Node) {h : Handled}
      → tick_with now perm rs n ≡ some h
      → AllLive P rs
      → AllKnown P n.store
      → IsHandled P h
  unfolding tick_with
  tick_with-IsHandled now perm [] n e l k = subst (IsHandled P) (some-eq e) (k, tt)
  tick_with-IsHandled now perm (r ∷ rs) n e l k =
      let msg : Msg = record {
        type_tag = some msg_push;
        sender = n.cfg.id;
        rumors = r ∷ rs;
        ids = [];
      } in
      let (ps, _, q) = >>=-eq-some (pick_peers n.cfg.fanout perm n.peers) _ e in
      subst (IsHandled P) (some-eq q) (
        (λ j r' f. k j r' (
            sym (
              ap (lookup j) (send_all-store now (record zero_rumor { id = r.id }) msg ps n.store).0)
            ∙ f)),
        to_each-AllSent msg ps l,
      )

  pub tick_once-IsHandled :
      (now : ℕ) (perm : ℕ → List ℕ) (n : Node) {h : Handled}
      → tick_once now perm n ≡ some h
      → AllKnown P n.store
      → IsHandled P h
  unfolding tick_once ready_to_push
  tick_once-IsHandled now perm n e k =
      tick_with-IsHandled now perm _ _ e (ready_to_push-AllLive P n.store k) k

  pub send_digest-AllSent :
      (order : List Text → List Text) (perm : ℕ → List ℕ) (n : Node) {es : List Envelope}
      → send_digest order perm n ≡ some es
      → AllSent P es
  unfolding send_digest
  send_digest-AllSent order perm n e =
      let (ps, _, q) = >>=-eq-some (pick_peers (pos 1) perm n.peers) _ e in
      subst (AllSent P) (some-eq q) (digest_to-AllSent n.cfg.id ps (digest order n.store))

-- A rumor that a node passes on has a hop less.
abbrev pub IsKeptByHop : (Rumor → Type 0) → Type 0
IsKeptByHop P = (r : Rumor) → positive r.ttl ≡ true → P r → P (record r { ttl = decrement r.ttl })

module _ (P : Rumor → Type 0) (hop : IsKeptByHop P) where
  receive_push-AllKnown :
      (now : ℕ) (rs : List Rumor) (s : Store)
      → AllLive P rs
      → AllKnown P s
      → AllKnown P (receive_push now rs s)
  unfolding receive_push
  receive_push-AllKnown now [] s l h = h
  receive_push-AllKnown now (r ∷ rs) s l h = receive_push-AllKnown now rs _ l.1 (
      if-AllKnown P (positive r.ttl) _ _ (λ live. add-AllKnown P now _ s (hop r live (l.0 live)) h)
        h)

  dispatch-IsHandled :
      (t : Option MsgType) (now : ℕ) (order : List Text → List Text) (m : Msg) (remote : Text)
      (n : Node)
      → AllLive P m.rumors
      → AllKnown P n.store
      → IsHandled P (dispatch t now order m remote n)
  unfolding dispatch handle_digest handle_missing
  dispatch-IsHandled none now order m remote n l k = (k, tt)
  dispatch-IsHandled (some msg_push) now order m remote n l k =
      (receive_push-AllKnown now m.rumors n.store l k, tt)
  dispatch-IsHandled (some msg_digest) now order m remote n l k =
      (k, ask_missing-AllSent P n.cfg.id remote _)
  dispatch-IsHandled (some msg_missing) now order m remote n l k =
      (k, reply_rumors-AllSent P n.cfg.id remote _ (lookup_many-AllLive P n.store m.ids k))
  dispatch-IsHandled (some msg_fetch_rep) now order m remote n l k =
      (receive_fetch-AllKnown P now m.rumors n.store l k, tt)

  pub handle-IsHandled :
      (now : ℕ) (order : List Text → List Text) (m : Msg) (remote : Text) (n : Node)
      → AllLive P m.rumors
      → AllKnown P n.store
      → IsHandled P (handle now order m remote n)
  unfolding handle write_log
  handle-IsHandled now order m remote n l k = dispatch-IsHandled m.type_tag now order m remote _ l k

-- No handler changes the configuration.
tick_with-cfg :
    (now : ℕ) (perm : ℕ → List ℕ) (rs : List Rumor) (n : Node) {h : Handled}
    → tick_with now perm rs n ≡ some h
    → h.node.cfg ≡ n.cfg
unfolding tick_with
tick_with-cfg now perm [] n e = ap (λ h. h.node.cfg) (sym (some-eq e))
tick_with-cfg now perm (r ∷ rs) n e =
    let (ps, _, q) = >>=-eq-some (pick_peers n.cfg.fanout perm n.peers) _ e in
    ap (λ h. h.node.cfg) (sym (some-eq q))

pub tick_once-cfg :
    (now : ℕ) (perm : ℕ → List ℕ) (n : Node) {h : Handled}
    → tick_once now perm n ≡ some h
    → h.node.cfg ≡ n.cfg
unfolding tick_once
tick_once-cfg now perm n e = tick_with-cfg now perm _ _ e

dispatch-cfg :
    (t : Option MsgType) (now : ℕ) (order : List Text → List Text) (m : Msg) (remote : Text)
    (n : Node)
    → (dispatch t now order m remote n).node.cfg ≡ n.cfg
unfolding dispatch
dispatch-cfg none now order m remote n = refl
dispatch-cfg (some msg_push) now order m remote n = refl
dispatch-cfg (some msg_digest) now order m remote n = refl
dispatch-cfg (some msg_missing) now order m remote n = refl
dispatch-cfg (some msg_fetch_rep) now order m remote n = refl

pub handle-cfg :
    (now : ℕ) (order : List Text → List Text) (m : Msg) (remote : Text) (n : Node)
    → (handle now order m remote n).node.cfg ≡ n.cfg
unfolding handle
handle-cfg now order m remote n = dispatch-cfg m.type_tag now order m remote _
