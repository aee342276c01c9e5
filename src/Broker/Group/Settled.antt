-- ===== src/Broker/Group/Settled.antt =====
-- pkg/broker/coordinator.go, Ack, Nack and slideWindow, against the set of the offsets that a
-- consumer group has acknowledged.
use tumbleweed.Base.{
  ℕ, ◌+◌, ◌^◌, ◌≤◌, ◌<◌, ◌≡◌, refl, sym, ap, subst, ◌∙◌, ◌⊎◌, inl, inr, Option, none, some, List,
  [], ◌∷◌, length, Bool, true, false, ◌||◌, Bool-cases, Option-cases, if_cases, ltb, lt→ltb, ◌==◌,
  ok, err, lease_not_found, Result, arith,
}
use tumbleweed.Broker.Leases.{Lease, Leases, lookup, insert, lookup-insert, length-insert}
use tumbleweed.Broker.Group.{Group, PendingFetch, is_acked, ack_group, nack_lease, nack_group}
use tumbleweed.Broker.Group.Window.{Slid, slide_window-Slid}

-- The abstract view of a group: the offsets that no consumer needs to see again.
abbrev pub settled : Group → ℕ → Bool
settled g o = ltb o g.committed_offset || is_acked (lookup o g.leases)

pub Slid-settled : (g g' : Group) → Slid g g' → (o : ℕ) → settled g' o ≡ settled g o
Slid-settled g g' s o = elim (Bool-cases (ltb o g.committed_offset)) [
  | inl low ↦ rw (low, lt→ltb o g'.committed_offset (ground (arith, low, s.forward))) refl
  | inr high ↦ elim (Bool-cases (ltb o g'.committed_offset)) [
    | inl passed ↦
        rw (passed, high) (sym ((s.passed o (ground (arith, high)) (ground (arith, passed))).0))
    | inr above ↦ rw (above, high) (ap is_acked (s.kept o (ground (arith, above))))
  ]
]

-- An acknowledged lease adds its offset to the set.
pub insert-settled :
    (g : Group) (offset : ℕ) (l : Lease) (o : ℕ)
    → settled (record g { leases = insert offset (record l { acked = true }) g.leases }) o
      ≡ (offset == o || settled g o)
insert-settled g offset l o =
    ground (arith, lookup-insert offset o (record l { acked = true }) g.leases)

-- What Ack did with an offset: the set has it now, or there is no lease for it.
abbrev pub Acks : Group → ℕ → Group × Result (Unit {0}) → Type 0
Acks g offset (g', r) =
    ((r ≡ ok tt) × ((o : ℕ) → settled g' o ≡ (offset == o || settled g o)))
    ⊎ ((r ≡ err lease_not_found)
        × (g' ≡ g)
        × (g.committed_offset ≤ offset)
        × (lookup offset g.leases ≡ none))

already :
    (g : Group) (offset o : ℕ)
    → ltb offset g.committed_offset ≡ true
    → settled g o ≡ (offset == o || settled g o)
already g offset o low = ground (arith, low)

-- With fewer than 2 ^ 64 offsets up to the last one that can be leased: an Ack that returns no error
-- adds its offset to the set of acknowledged offsets and changes no other. An Ack fails only where
-- the offset is not committed and has no lease, and then changes nothing.
pub ack_group-Acks :
    (save_ok : Bool) (g : Group) (offset : ℕ)
    → g.committed_offset + length g.leases < 2 ^ 64
    → Acks g offset (ack_group save_ok g offset)
unfolding ack_group
ack_group-Acks save_ok g offset small =
    if_cases (Acks g offset) (ltb offset g.committed_offset) _ _
      (λ low. inl (refl, λ o. already g offset o low))
      (λ high. elim (Option-cases (lookup offset g.leases)) [
        | inl none_there ↦ rw none_there (inr (refl, refl, ground (arith, high), refl))
        | inr (l, there) ↦
            let marked = record g { leases = insert offset (record l { acked = true }) g.leases } in
            let s =
              slide_window-Slid save_ok marked (
                omega (arith, length-insert offset (record l { acked = true }) g.leases l there)) in
            rw there (inl (refl, λ o. Slid-settled marked _ s o ∙ insert-settled g offset l o))
      ])

-- The lease after a Nack: it passes to the first waiting consumer with one redelivery more, or it is
-- due now.
abbrev pub nacked : ℕ → Lease → List PendingFetch → Lease
nacked now l [] = record l { expiry = now }
nacked now l (pf ∷ fetches) = record l {
  consumer_id = pf.consumer_id;
  expiry = now + pf.ack_timeout;
  redeliveries = l.redeliveries + 1;
}

-- Who is served, and who waits on.
abbrev pub served_of : List PendingFetch → Option PendingFetch × List PendingFetch
served_of [] = (none, [])
served_of (pf ∷ fetches) = (some pf, fetches)

abbrev pub Nacks :
    ℕ
    → Group
    → List PendingFetch
    → ℕ
    → Group × List PendingFetch × Result (Option PendingFetch)
    → Type 0
Nacks now g fetches offset (g', rest, r) =
    ((r ≡ ok (served_of fetches).0)
      × (rest ≡ (served_of fetches).1)
      × ((o : ℕ) → settled g' o ≡ settled g o)
      × ((l : Lease) × (lookup offset g.leases ≡ some l)
          × (l.acked ≡ false)
          × (lookup offset g'.leases ≡ some (nacked now l fetches))))
    ⊎ ((r ≡ err lease_not_found)
        × (g' ≡ g)
        × (rest ≡ fetches)
        × ((l : Lease) → lookup offset g.leases ≡ some l → l.acked ≡ true))

-- A lease that is replaced by one with the same mark leaves the set as it was.
pub replace-settled :
    (g : Group) (offset : ℕ) (l x : Lease) (o : ℕ)
    → lookup offset g.leases ≡ some l
    → x.acked ≡ l.acked
    → settled (record g { leases = insert offset x g.leases }) o ≡ settled g o
replace-settled g offset l x o there same = elim (Bool-cases (offset == o)) [
  | inl e ↦
      let z : offset ≡ o = ground (arith, e) in
      rw (lookup-insert offset o x g.leases, e, ← z, there)
        (ap (λ b. ltb offset g.committed_offset || b) same)
  | inr e ↦ rw (lookup-insert offset o x g.leases, e) refl
]

pub lookup-inserted : (k : ℕ) (l : Lease) (m : Leases) → lookup k (insert k l m) ≡ some l
lookup-inserted k l m = ground (arith, lookup-insert k k l m)

nack_lease-eq :
    (now offset : ℕ) (g : Group) (l : Lease) (fetches : List PendingFetch)
    → nack_lease now offset g l fetches ≡ (
      record g { leases = insert offset (nacked now l fetches) g.leases },
      (served_of fetches).1,
      (served_of fetches).0,
    )
nack_lease-eq now offset g l [] = refl
nack_lease-eq now offset g l (pf ∷ fetches) = refl

nacked-acked :
    (now : ℕ) (l : Lease) (fetches : List PendingFetch) → (nacked now l fetches).acked ≡ l.acked
nacked-acked now l [] = refl
nacked-acked now l (pf ∷ fetches) = refl

-- A Nack fails where the offset has no lease or an acknowledged one, and then changes nothing. Else
-- it leaves the set of acknowledged offsets as it was and keeps the offset's lease: the first waiting
-- fetch, and no other, is taken from the queue and gets the lease, or the lease is due now.
pub nack_group-Nacks :
    (now : ℕ) (g : Group) (fetches : List PendingFetch) (offset : ℕ)
    → Nacks now g fetches offset (nack_group now g fetches offset)
unfolding nack_group
nack_group-Nacks now g fetches offset = elim (Option-cases (lookup offset g.leases)) [
  | inl none_there ↦
      let same : nack_group now g fetches offset ≡ (g, fetches, err lease_not_found) =
        rw (none_there, nack_group) refl in
      subst (Nacks now g fetches offset) (sym same) (inr (refl, refl, refl, λ l e. absurd (cc)))
  | inr (l, there) ↦ elim (Bool-cases l.acked) [
    | inl a ↦
        let same : nack_group now g fetches offset ≡ (g, fetches, err lease_not_found) =
          rw (there, a, nack_group) refl in
        subst (Nacks now g fetches offset) (sym same) (inr (refl, refl, refl, λ k e. cc))
    | inr a ↦
        let x = nacked now l fetches in
        let same : nack_group now g fetches offset ≡ (
          record g { leases = insert offset x g.leases },
          (served_of fetches).1,
          ok (served_of fetches).0,
        ) =
          rw (there, nack_group)
            (if_cases
              (λ r. r ≡ (
                record g { leases = insert offset x g.leases },
                (served_of fetches).1,
                ok (served_of fetches).0,
              ))
              l.acked _ _ (λ t. absurd (cc))
              (λ t. ap (λ k. (k.0, k.1, ok k.2)) (nack_lease-eq now offset g l fetches))) in
        subst (Nacks now g fetches offset) (sym same) (
          inl (
            refl,
            refl,
            λ o. replace-settled g offset l x o there (nacked-acked now l fetches),
            (l, there, a, lookup-inserted offset x g.leases),
          ))
  ]
]
