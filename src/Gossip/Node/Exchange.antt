-- ===== src/Gossip/Node/Exchange.antt =====
-- Anti-entropy in project/gossip/pkg/gossip/node.go: a digest, the request it leads to, the answer.
use cs.Prelude.{
  ℕ, ◌≡◌, refl, sym, ap, ◌∙◌, true, List, [], ◌∷◌, ◌++◌, some, arith, Text, count, contains, =ᵗ_iff,
  if◌then◌else◌, inl, inr, Option-cases,
}
use cs.Prelude.Dicts.{lookup, keys, has, contains-keys}
use cs.Gossip.Defs.{msg_digest, received, Rumor, Msg, Store, Node, Envelope}
use cs.Gossip.Store.{digest, write_log, add, lookup_many}
use cs.Gossip.Node.{
  Handled, handle, handle_digest, handle_missing, receive_fetch, diff, dispatch, head_or_zero,
  ask_missing, reply_rumors,
}
use mathlib.Core.List.{append-nil}

-- A node that handles the messages of a list, one after the other, all from one address.
unfoldable pub handle_all : ℕ → (List Text → List Text) → List Envelope → Text → Node → Handled
handle_all now order [] remote n = record { node = n; sends = [] }
handle_all now order (e ∷ es) remote n =
    let first = handle now order e.msg remote n in
    let rest = handle_all now order es remote first.node in
    record { node = rest.node; sends = first.sends ++ rest.sends }

-- Each rumor of the store stands under its own ID.
abbrev pub IsKeyed : Store → Type 0
IsKeyed s = (k : Text) (r : Rumor) → lookup k s.seen ≡ some r → r.id ≡ k

-- The difference of two lists of IDs holds each ID of the first one as often as that one does if
-- the second one lacks it, and no other ID.
count-diff :
    (x : Text) (a b : List Text) → count x (diff a b) ≡ (if contains b x then 0 else count x a)
unfolding count diff
count-diff x [] b = ground arith
count-diff x (y ∷ a) b = ground (arith, =ᵗ_iff y x, count-diff x a b)

contains-diff : (x : Text) (a b : List Text) → contains (diff a b) x ≡ true → contains a x ≡ true
unfolding contains diff
contains-diff x [] b h = ground arith
contains-diff x (y ∷ a) b h = ground (arith, contains-diff x a b)

add_known : (now : ℕ) (r : Rumor) (s : Store) → has r.id s.seen ≡ true → (add now r s).store ≡ s
unfolding add has
add_known now r s h = elim (Option-cases (lookup r.id s.seen)) [
  | inl e ↦ ground arith
  | inr (old, e) ↦ ground (arith, e)
]

-- What a peer finds for IDs that a store knows changes nothing in that store.
fetch_known :
    (now : ℕ) (ids : List Text) (p s : Store)
    → IsKeyed p
    → ((k : Text) → contains ids k ≡ true → has k s.seen ≡ true)
    → receive_fetch now (lookup_many p ids) s ≡ s
unfolding receive_fetch lookup_many contains
fetch_known now [] p s keyed known = refl
fetch_known now (k ∷ ks) p s keyed known =
    let rest = fetch_known now ks p s keyed (λ j c. known j (ground arith)) in
    elim (Option-cases (lookup k p.seen)) [
      | inl e ↦ rw (e) rest
      | inr (r, e) ↦
          let q = add_known now r s (rw (keyed k r e) (known k (ground (arith, =ᵗ_iff k k)))) in
          ground (arith, e, q, rest)
    ]

-- The requested IDs are the node's own.
own_ids :
    (order : List Text → List Text) (n : Node) (m : Msg)
    → ((ks : List Text) (k : Text) → contains (order ks) k ≡ contains ks k)
    → (k : Text) → contains (diff (digest order n.store) m.ids) k ≡ true
    → has k n.store.seen ≡ true
unfolding digest
own_ids order n m perm k h =
    sym (contains-keys k n.store.seen)
    ∙ sym (perm (keys n.store.seen) k)
    ∙ contains-diff k (order (keys n.store.seen)) m.ids h

-- The map of rumors and the list of new IDs of two nodes agree.
abbrev pub SameRumors : Node → Node → Type 0
SameRumors a b = (a.store.seen ≡ b.store.seen) × (a.store.new_ids ≡ b.store.new_ids)

-- A reply with no news to a store changes neither its rumors nor its new IDs.
take_reply :
    (now : ℕ) (order : List Text → List Text) (id addr peer : Text) (rs : List Rumor) (n : Node)
    → ((s : Store) → s.seen ≡ n.store.seen → receive_fetch now rs s ≡ s)
    → SameRumors (handle_all now order (reply_rumors id addr rs) peer n).node n
unfolding handle_all handle dispatch reply_rumors write_log
take_reply now order id addr peer [] n h = (refl, refl)
take_reply now order id addr peer (r ∷ rs) n h =
    let e = h (write_log now received r n.store) refl in (ap (λ s. s.seen) e, ap (λ s. s.new_ids) e)

-- A peer that is asked for IDs which the node knows answers with no news.
ask_known :
    (now : ℕ) (order : List Text → List Text) (id addr self peer : Text) (ids : List Text)
    (n p : Node)
    → IsKeyed p.store
    → ((k : Text) → contains ids k ≡ true → has k n.store.seen ≡ true)
    → let answer = handle_all now order (ask_missing id addr ids) self p in
      SameRumors (handle_all now order answer.sends peer n).node n
unfolding handle_all handle dispatch ask_missing handle_missing write_log lookup_many
ask_known now order id addr self peer [] n p keyed known = (refl, refl)
ask_known now order id addr self peer (x ∷ xs) n p keyed known = rw (append-nil) (
    take_reply now order p.cfg.id self peer (lookup_many p.store (x ∷ xs)) n
      (λ s e. fetch_known now (x ∷ xs) p.store s keyed (λ k c. rw (e) (known k c))))

-- A node handles any digest, a peer handles what the node sent, and the node handles what the peer
-- sent back. If the order of a map's keys keeps their set, and each rumor of the peer stands under its
-- own ID, then the node knows no rumor that it did not know before, and has none to push: its map of
-- rumors and its list of new IDs are the same as before.
pub anti_entropy-no_news :
    (now : ℕ) (order : List Text → List Text) (n p : Node) (m : Msg) (peer self : Text)
    → ((ks : List Text) (k : Text) → contains (order ks) k ≡ contains ks k)
    → IsKeyed p.store
    → m.type_tag ≡ some msg_digest
    → let asked = handle now order m peer n in
      let answer = handle_all now order asked.sends self p in
      let done = handle_all now order answer.sends peer asked.node in
      (done.node.store.seen ≡ n.store.seen) × (done.node.store.new_ids ≡ n.store.new_ids)
unfolding handle dispatch handle_digest write_log digest
anti_entropy-no_news now order n p m peer self perm keyed is_digest =
    let logged : Node = record n {
      store = write_log now received (head_or_zero m.rumors) n.store;
    } in
    rw (is_digest) (
      ask_known now order n.cfg.id peer self peer (diff (order (keys n.store.seen)) m.ids) logged p
        keyed (own_ids order n m perm))
