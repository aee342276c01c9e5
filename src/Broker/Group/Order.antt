-- ===== src/Broker/Group/Order.antt =====
-- pkg/broker/coordinator.go: a group hands out the offsets of its topic without a gap.
use tumbleweed.Base.{
  ℕ, ◌+◌, ◌^◌, ◌≤◌, ◌<◌, ◌≡◌, refl, ◌∙◌, inl, inr, Option, none, some, List, [], ◌∷◌, length, Bool,
  true, Bool-cases, Option-cases, if_cases, ltb, ◌==◌, Result, arith,
}
use tumbleweed.Broker.Leases.{
  Lease, lookup, insert, lookup-insert, length-insert, length-insert_new, Unique, insert-Unique,
}
use tumbleweed.Broker.Group.{Group, PendingFetch, slide_window, ack_group, nack_group, nack_lease}
use tumbleweed.Broker.Group.Window.{slide_window-Slid, slide_window-Unique}

-- The offsets below `next` are handed out: committed, or under a lease. There are no other leases.
pub record InOrder (g : Group) (next : ℕ) : Type 0 where
  pub behind : g.committed_offset ≤ next
  pub unique : Unique g.leases
  pub leased :
      (o : ℕ) → g.committed_offset ≤ o → o < next → (l : Lease) × (lookup o g.leases ≡ some l)
  pub free : (o : ℕ) → next ≤ o → lookup o g.leases ≡ none
  pub done : (o : ℕ) → o < g.committed_offset → lookup o g.leases ≡ none
  pub counted : g.committed_offset + length g.leases ≤ next

pub slide_window-InOrder :
    (save_ok : Bool) (g : Group) (next : ℕ)
    → InOrder g next
    → next < 2 ^ 64
    → InOrder (slide_window save_ok g) next
slide_window-InOrder save_ok g next h small =
    let g' = slide_window save_ok g in
    let s = slide_window-Slid save_ok g (omega (arith, h.counted)) in
    record {
      behind = omega (arith, s.room, h.counted);
      unique = slide_window-Unique save_ok g h.unique;
      leased = λ o low high.
          let (l, at) = h.leased o (omega (arith, s.forward)) high in (l, s.kept o low ∙ at);
      free = λ o high. s.kept o (omega (arith, s.room, h.counted)) ∙ h.free o high;
      done = λ o low. elim (Bool-cases (ltb o g.committed_offset)) [
        | inl e ↦ let b : o < g.committed_offset = ground (arith, e) in s.below o b ∙ h.done o b
        | inr e ↦ (s.passed o (ground (arith, e)) low).1
      ];
      counted = omega (arith, s.room, h.counted);
    }

-- A lease that is there is replaced.
pub replace-InOrder :
    (g : Group) (next o : ℕ) (l x : Lease)
    → InOrder g next
    → lookup o g.leases ≡ some l
    → InOrder (record g { leases = insert o x g.leases }) next
replace-InOrder g next o l x h at = record {
  behind = h.behind;
  unique = insert-Unique o x g.leases h.unique;
  leased = λ k low high. elim (Bool-cases (o == k)) [
    | inl e ↦ (x, lookup-insert o k x g.leases ∙ rw e refl)
    | inr e ↦ let (y, there) = h.leased k low high in (y, lookup-insert o k x g.leases ∙ rw e there)
  ];
  free = λ k high. ground (arith, lookup-insert o k x g.leases, h.free k high);
  done = λ k low. ground (arith, lookup-insert o k x g.leases, h.done k low);
  counted = omega (arith, length-insert o x g.leases l at, h.counted);
}

-- A lease for the next offset.
pub extend-InOrder :
    (g : Group) (next : ℕ) (x : Lease)
    → InOrder g next
    → InOrder (record g { leases = insert next x g.leases }) (next + 1)
extend-InOrder g next x h = record {
  behind = omega (arith, h.behind);
  unique = insert-Unique next x g.leases h.unique;
  leased = λ k low high. elim (Bool-cases (next == k)) [
    | inl e ↦ (x, lookup-insert next k x g.leases ∙ rw e refl)
    | inr e ↦
        let (y, there) = h.leased k low (ground (arith, e, high)) in
        (y, lookup-insert next k x g.leases ∙ rw e there)
  ];
  free = λ k high. ground (arith, lookup-insert next k x g.leases, h.free k (omega arith));
  done = λ k low. ground (arith, lookup-insert next k x g.leases, h.done k low, h.behind);
  counted = omega (arith, length-insert_new next x g.leases (h.free next (omega arith)), h.counted);
}

-- Ack hands out nothing and takes nothing back.
pub ack_group-InOrder :
    (save_ok : Bool) (g : Group) (offset next : ℕ)
    → InOrder g next
    → next < 2 ^ 64
    → InOrder (ack_group save_ok g offset).0 next
unfolding ack_group
ack_group-InOrder save_ok g offset next h small =
    let P = λ (p : Group × Result (Unit {0})). InOrder p.0 next in
    if_cases P (ltb offset g.committed_offset) _ _ (λ _. h)
      (λ _. elim (Option-cases (lookup offset g.leases)) [
        | inl absent ↦ rw absent h
        | inr (l, at) ↦ rw at (
            slide_window-InOrder save_ok _ next
              (replace-InOrder g next offset l (record l { acked = true }) h at) small)
      ])

nack_lease-InOrder :
    (now : ℕ) (g : Group) (fetches : List PendingFetch) (offset next : ℕ) (l : Lease)
    → InOrder g next
    → lookup offset g.leases ≡ some l
    → InOrder (nack_lease now offset g l fetches).0 next
nack_lease-InOrder now g [] offset next l h at = replace-InOrder g next offset l _ h at
nack_lease-InOrder now g (pf ∷ fetches) offset next l h at = replace-InOrder g next offset l _ h at

-- So does Nack.
pub nack_group-InOrder :
    (now : ℕ) (g : Group) (fetches : List PendingFetch) (offset next : ℕ)
    → InOrder g next
    → InOrder (nack_group now g fetches offset).0 next
unfolding nack_group
nack_group-InOrder now g fetches offset next h = elim (Option-cases (lookup offset g.leases)) [
  | inl absent ↦ rw (absent, nack_group) h
  | inr (l, at) ↦
      rw (at, nack_group)
        (if_cases
          (λ (p : Group × List PendingFetch × Result (Option PendingFetch)). InOrder p.0 next)
          l.acked _ _ (λ _. h) (λ _. nack_lease-InOrder now g fetches offset next l h at))
]
