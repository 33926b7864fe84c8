-- ===== src/Gossip/Store/Known.antt =====
-- What holds of every rumor that the store of project/gossip/pkg/gossip/store.go knows holds of those
-- that it gives out, unless no hop is left to them.
use cs.Prelude.{
  ℕ, ◌≡◌, refl, sym, subst, Bool, true, false, List, [], ◌∷◌, arith, Text, if◌then◌else◌, inl, inr,
  Option-cases,
}
use cs.Prelude.Dicts.{lookup, insert, AllEntries, AllEntries-insert}
use cs.Prelude.Every.{Every}
use cs.Gossip.Defs.{Rumor, Store, positive}
use cs.Gossip.Store.{write_log, add, ready_to_push, collect, lookup_many, or_zero, found}

-- P holds of every rumor of the store.
abbrev pub AllKnown : (Rumor → Type 0) → Store → Type 0
AllKnown P s = AllEntries (λ k. P) s.seen

-- P holds of every rumor of the list that has a hop left.
abbrev pub AllLive : (Rumor → Type 0) → List Rumor → Type 0
AllLive P = Every (λ r. positive r.ttl ≡ true → P r)

module _ (P : Rumor → Type 0) where
  pub if-AllKnown :
      (b : Bool) (s t : Store)
      → (b ≡ true → AllKnown P s)
      → AllKnown P t
      → AllKnown P (if b then s else t)
  if-AllKnown true s t h k = h refl
  if-AllKnown false s t h k = k

  pub add-AllKnown :
      (now : ℕ) (r : Rumor) (s : Store) → P r → AllKnown P s → AllKnown P (add now r s).store
  unfolding add write_log
  add-AllKnown now r s p h = elim (Option-cases (lookup r.id s.seen)) [
    | inl e ↦
        let seen : (add now r s).store.seen ≡ insert r.id r s.seen = ground (arith, e) in
        subst (AllEntries (λ k. P)) (sym seen) (AllEntries-insert (λ k. P) r.id r s.seen p h)
    | inr (old, e) ↦
        let seen : (add now r s).store.seen ≡ s.seen = ground (arith, e) in
        subst (AllEntries (λ k. P)) (sym seen) h
  ]

  collect-AllLive : (s : Store) (ids : List Text) → AllKnown P s → AllLive P (collect s ids)
  unfolding collect or_zero
  collect-AllLive s [] h = tt
  collect-AllLive s (k ∷ ks) h = (
    elim (Option-cases (lookup k s.seen)) [
      | inl e ↦ rw (e) (λ live. ground arith)
      | inr (r, e) ↦ rw (e) (λ live. h k r e)
    ],
    collect-AllLive s ks h,
  )

  pub lookup_many-AllLive :
      (s : Store) (ids : List Text) → AllKnown P s → AllLive P (lookup_many s ids)
  unfolding lookup_many found
  lookup_many-AllLive s [] h = tt
  lookup_many-AllLive s (k ∷ ks) h = elim (Option-cases (lookup k s.seen)) [
    | inl e ↦ rw (e) (lookup_many-AllLive s ks h)
    | inr (r, e) ↦ rw (e) ((λ live. h k r e), lookup_many-AllLive s ks h)
  ]

  pub ready_to_push-AllLive : (s : Store) → AllKnown P s → AllLive P (ready_to_push s).rumors
  unfolding ready_to_push
  ready_to_push-AllLive s h = collect-AllLive s s.new_ids h
