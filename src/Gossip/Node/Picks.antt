-- ===== src/Gossip/Node/Picks.antt =====
-- pickPeers in project/gossip/pkg/gossip/node.go: how many peers, and which.
use cs.Prelude.Every.{Every, Every-take}
use cs.Prelude.{
  count, ◌+◌, ◌=ᵗ◌, =ᵗ_iff, false, get_elem?, get_elem?-set_ne, get_elem?-take, lt_of_get_elem?,
  subst, sym, set, ◌==◌, >>=-eq-some, some-eq, if◌then◌else◌, ℕ, zero, suc, ◌≤◌, ◌<◌, min, pos, ◌≡◌,
  refl, ap, ◌∙◌, List, [], ◌∷◌, some, arith, Text, length, take, leb, Option, get_elem?-lt,
  length-take, inl, inr, Bool-cases,
}
use cs.Gossip.Node.{picked, pick_some, pick_peers}

-- Every number of the list is below n.
unfoldable pub AllBelow : ℕ → List ℕ → Type 0
AllBelow n [] = Unit
AllBelow n (i ∷ is) = (i < n) × AllBelow n is

AllBelow-take : (n k : ℕ) (is : List ℕ) → AllBelow n is → AllBelow n (take k is)
unfolding AllBelow
AllBelow-take n zero is h = tt
AllBelow-take n (suc k) [] h = tt
AllBelow-take n (suc k) (i ∷ is) (lt, h) = (lt, AllBelow-take n k is h)

length-picked :
    (peers : List Text) (is : List ℕ)
    → AllBelow (length peers) is
    → (out : List Text) × (picked peers is ≡ some out) × (length out ≡ length is)
unfolding picked AllBelow
length-picked peers [] h = ([], refl, refl)
length-picked peers (i ∷ is) (lt, h) =
    let (p, e) = get_elem?-lt peers i lt in
    let (out, q, l) = length-picked peers is h in (p ∷ out, rw (e, q) refl, ap suc l)

-- What pickPeers needs of rand.Perm: as many indices as there are peers, each in range.
abbrev pub IsInRange : (ℕ → List ℕ) → Type 0
IsInRange perm = (n : ℕ) → (length (perm n) ≡ n) × AllBelow n (perm n)

-- With a fanout that is not negative, pickPeers does not panic, and picks as many peers as the fanout
-- says, or all of them if there are fewer.
pub length-pick_peers :
    (k : ℕ) (perm : ℕ → List ℕ) (peers : List Text)
    → IsInRange perm
    → (out : List Text) × (pick_peers (pos k) perm peers ≡ some out)
      × (length out ≡ min k (length peers))
unfolding pick_peers pick_some
length-pick_peers k perm [] h = ([], refl, omega arith)
length-pick_peers k perm (p ∷ ps) h =
    let n = length (p ∷ ps) in
    elim (Bool-cases (leb n k)) [
      | inl all ↦ (p ∷ ps, rw (all) refl, ground arith)
      | inr some_of ↦
          let (out, q, l) =
            length-picked (p ∷ ps) (take k (perm n)) (AllBelow-take n k (perm n) (h n).1) in
          (out, rw (some_of) q, ground (arith, length-take k (perm n), (h n).0))
    ]

pub pick_peers-all :
    (k : ℕ) (perm : ℕ → List ℕ) (peers : List Text)
    → length peers ≤ k
    → pick_peers (pos k) perm peers ≡ some peers
unfolding pick_peers pick_some
pick_peers-all k perm [] h = refl
pick_peers-all k perm (p ∷ ps) h = ground arith

-- No two numbers of the list are the same.
abbrev pub IsDistinct : List ℕ → Type 0
IsDistinct [] = Unit
IsDistinct (i ∷ is) = Every (λ j. (i == j) ≡ false) is × IsDistinct is

-- What rand.Perm gives: the indices of the peers in some order, each once.
abbrev pub IsPermutation : (ℕ → List ℕ) → Type 0
IsPermutation perm = IsInRange perm × ((n : ℕ) → IsDistinct (perm n))

IsDistinct-take : (k : ℕ) (is : List ℕ) → IsDistinct is → IsDistinct (take k is)
IsDistinct-take zero is h = tt
IsDistinct-take (suc k) [] h = tt
IsDistinct-take (suc k) (i ∷ is) (new, h) =
    (Every-take (λ j. (i == j) ≡ false) k is new, IsDistinct-take k is h)

-- A text that is not p.
other_than : (p : Text) → ((0 ∷ p) =ᵗ p) ≡ false
other_than p = elim (Bool-cases ((0 ∷ p) =ᵗ p)) [
  | inl same ↦ absurd (omega (arith, ap length ((=ᵗ_iff (0 ∷ p) p).0 same)))
  | inr other ↦ other
]

-- The peer at an index is taken out of the count.
count-struck :
    (p : Text) (peers : List Text) (i : ℕ) {x : Text}
    → get_elem? peers i ≡ some x
    → count p (set peers i (0 ∷ p)) + (if x =ᵗ p then 1 else 0) ≡ count p peers
unfolding count
count-struck p [] i e = ground arith
count-struck p (y ∷ peers) zero e =
    let same = ap (λ t. t =ᵗ p) (some-eq e) in ground (arith, same, other_than p)
count-struck p (y ∷ peers) (suc i) e = ground (arith, count-struck p peers i e)

picked-struck :
    (peers : List Text) (i : ℕ) (x : Text) (is : List ℕ)
    → Every (λ j. (i == j) ≡ false) is
    → picked (set peers i x) is ≡ picked peers is
unfolding picked
picked-struck peers i x [] h = refl
picked-struck peers i x (j ∷ is) (ne, h) =
    let there = get_elem?-set_ne peers i j x (λ q. ground (arith, ne, q)) in
    rw (there, picked-struck peers i x is h) refl

count-picked :
    (p : Text) (is : List ℕ) (peers : List Text) {out : List Text}
    → IsDistinct is
    → picked peers is ≡ some out
    → count p out ≤ count p peers
unfolding picked count
count-picked p [] peers d e = subst (λ o. count p o ≤ count p peers) (some-eq e) (omega arith)
count-picked p (i ∷ is) peers {out = out} (new, d) e =
    let (x, at_i, q) = >>=-eq-some (get_elem? peers i) _ e in
    let (rest, q', same) = >>=-eq-some (picked peers is) _ q in
    let le =
      count-picked p is (set peers i (0 ∷ p)) d (picked-struck peers i (0 ∷ p) is new ∙ q') in
    let struck = count-struck p peers i at_i in
    subst (λ o. count p o ≤ count p peers) (some-eq same) (ground (arith, le, struck))

-- No address is picked more often than it stands among the peers.
pub count-pick_peers :
    (k : ℕ) (perm : ℕ → List ℕ) (peers : List Text) (p : Text) {out : List Text}
    → IsPermutation perm
    → pick_peers (pos k) perm peers ≡ some out
    → count p out ≤ count p peers
unfolding pick_peers pick_some
count-pick_peers k perm [] p h e = subst (λ o. count p o ≤ count p []) (some-eq e) (omega arith)
count-pick_peers k perm (x ∷ xs) p {out = out} h e = elim (Bool-cases (leb (length (x ∷ xs)) k)) [
  | inl all ↦
      let e' : some (x ∷ xs) ≡ some out = ground (arith, e, all) in
      subst (λ o. count p o ≤ count p (x ∷ xs)) (some-eq e') (omega arith)
  | inr some_of ↦
      let n = length (x ∷ xs) in
      count-picked p (take k (perm n)) (x ∷ xs) (IsDistinct-take k (perm n) (h.1 n))
        (ground (arith, e, some_of))
]

picked-at :
    (peers : List Text) (is : List ℕ) (j : ℕ) (out : List Text) (p : Text)
    → picked peers is ≡ some out
    → get_elem? out j ≡ some p
    → (i : ℕ) × (get_elem? is j ≡ some i) × (get_elem? peers i ≡ some p)
unfolding picked
picked-at peers [] j out p e f =
    absurd (let none_at = subst (λ o. get_elem? o j ≡ some p) (sym (some-eq e)) f in ground arith)
picked-at peers (i ∷ is) zero out p e f =
    let (x, at_i, q) = >>=-eq-some (get_elem? peers i) _ e in
    let (rest, q', same) = >>=-eq-some (picked peers is) _ q in
    (i, refl, at_i ∙ subst (λ o. get_elem? o 0 ≡ some p) (sym (some-eq same)) f)
picked-at peers (i ∷ is) (suc j) out p e f =
    let (x, at_i, q) = >>=-eq-some (get_elem? peers i) _ e in
    let (rest, q', same) = >>=-eq-some (picked peers is) _ q in
    picked-at peers is j rest p q'
      (subst (λ o. get_elem? o (suc j) ≡ some p) (sym (some-eq same)) f)

-- The index of the j-th peer that is picked: all peers, if there are not more than the fanout, and else
-- those that the permutation draws.
unfoldable pub drawn : ℕ → (ℕ → List ℕ) → (peers j : ℕ) → Option ℕ
drawn k perm peers j = if leb peers k then some j else get_elem? (perm peers) j

pub pick_peers-drawn :
    (k : ℕ) (perm : ℕ → List ℕ) (peers : List Text) (j : ℕ) (out : List Text) (p : Text)
    → pick_peers (pos k) perm peers ≡ some out
    → get_elem? out j ≡ some p
    → (i : ℕ) × (drawn k perm (length peers) j ≡ some i) × (get_elem? peers i ≡ some p)
unfolding pick_peers pick_some drawn
pick_peers-drawn k perm [] j out p e f =
    absurd (let at_j = subst (λ o. get_elem? o j ≡ some p) (sym (some-eq e)) f in ground arith)
pick_peers-drawn k perm (x ∷ xs) j out p e f = elim (Bool-cases (leb (length (x ∷ xs)) k)) [
  | inl all ↦
      let same : some (x ∷ xs) ≡ some out = ground (arith, e, all) in
      (j, rw all refl, subst (λ o. get_elem? o j ≡ some p) (sym (some-eq same)) f)
  | inr some_of ↦
      let n = length (x ∷ xs) in
      let q : picked (x ∷ xs) (take k (perm n)) ≡ some out = ground (arith, e, some_of) in
      let (i, at_j, at_i) = picked-at (x ∷ xs) (take k (perm n)) j out p q f in
      let short = lt_of_get_elem? (take k (perm n)) j at_j in
      let below : j < k = omega (arith, length-take k (perm n)) in
      (i, rw some_of (sym (get_elem?-take k (perm n) j below) ∙ at_j), at_i)
]
