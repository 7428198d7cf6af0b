-- ===== src/Heartbeat/Items.antt =====
-- The nodes of the list of workers: each handle knows the node it stands in.
use blue_thread.Prelude.{
  ℕ, ◌≡◌, inl, inr, List, [], ◌∷◌, Option, none, some, Bool-cases, ==_iff, ◌==◌, update, erase, In,
  Distinct, arith,
}
use blue_thread.Heartbeat.{Handle, erase_at}

abbrev pub item_of : Option Handle → Option ℕ
item_of none = none
item_of (some h) = h.list_item

-- The node at each place is the list_item of the handle at that place.
abbrev pub Paired : (ℕ → Option Handle) → List ℕ → List ℕ → Type 0
Paired handles [] [] = Unit
Paired handles (n ∷ ns) (a ∷ bs) = (item_of (handles a) ≡ some n) × Paired handles ns bs
Paired handles _ _ = ⊥

node-In :
    (handles : ℕ → Option Handle) (ns bs : List ℕ) (a n : ℕ)
    → Paired handles ns bs
    → In a bs
    → item_of (handles a) ≡ some n
    → In n ns
node-In handles [] [] a n p h e = absurd h
node-In handles [] (b ∷ bs) a n p h e = absurd p
node-In handles (m ∷ ns) [] a n p h e = absurd p
node-In handles (m ∷ ns) (b ∷ bs) a n p (inl same) e = inl (cc (same, e, p.0))
node-In handles (m ∷ ns) (b ∷ bs) a n p (inr h) e = inr (node-In handles ns bs a n p.1 h e)

pub item_at :
    (handles : ℕ → Option Handle) (ns bs : List ℕ) (a : ℕ)
    → Paired handles ns bs
    → In a bs
    → (n : ℕ) × (item_of (handles a) ≡ some n)
item_at handles [] [] a p h = absurd h
item_at handles [] (b ∷ bs) a p h = absurd p
item_at handles (m ∷ ns) [] a p h = absurd p
item_at handles (m ∷ ns) (b ∷ bs) a p (inl same) = (m, cc (same, p.0))
item_at handles (m ∷ ns) (b ∷ bs) a p (inr h) = item_at handles ns bs a p.1 h

-- To erase the node of a handle is to erase the handle.
pub erase_at-erase :
    (handles : ℕ → Option Handle) (ns bs : List ℕ) (a n : ℕ)
    → Paired handles ns bs
    → Distinct ns
    → In a bs
    → item_of (handles a) ≡ some n
    → (erase_at n ns bs).1 ≡ erase a bs
unfolding erase_at
erase_at-erase handles [] [] a n p d h e = absurd h
erase_at-erase handles [] (b ∷ bs) a n p d h e = absurd p
erase_at-erase handles (m ∷ ns) [] a n p d h e = absurd p
erase_at-erase handles (m ∷ ns) (b ∷ bs) a n p d h e = elim (Bool-cases (a == b)) [
  | inl same ↦ let item : some m ≡ some n = cc ((==_iff a b).0 same, e, p.0) in ground (arith)
  | inr differ ↦
      let later : In a bs = ground (arith) in
      let there = node-In handles ns bs a n p.1 later e in
      ground (arith, there, d.0, erase_at-erase handles ns bs a n p.1 d.1 later e)
]

pub erase_at-Paired :
    (handles : ℕ → Option Handle) (ns bs : List ℕ) (n : ℕ)
    → Paired handles ns bs
    → Paired handles (erase_at n ns bs).0 (erase_at n ns bs).1
unfolding erase_at
erase_at-Paired handles [] [] n p = p
erase_at-Paired handles [] (b ∷ bs) n p = absurd p
erase_at-Paired handles (m ∷ ns) [] n p = absurd p
erase_at-Paired handles (m ∷ ns) (b ∷ bs) n p = elim (Bool-cases (m == n)) [
  | inl e ↦ rw e p.1
  | inr e ↦ rw e (p.0, erase_at-Paired handles ns bs n p.1)
]

pub In-erase_at : (ns bs : List ℕ) (n x : ℕ) → In x (erase_at n ns bs).0 → In x ns
unfolding erase_at
In-erase_at [] bs n x h = h
In-erase_at (m ∷ ns) [] n x h = h
In-erase_at (m ∷ ns) (b ∷ bs) n x h = ground (arith, In-erase_at ns bs n x)

pub erase_at-Distinct : (ns bs : List ℕ) (n : ℕ) → Distinct ns → Distinct (erase_at n ns bs).0
unfolding erase_at
erase_at-Distinct [] bs n d = d
erase_at-Distinct (m ∷ ns) [] n d = d
erase_at-Distinct (m ∷ ns) (b ∷ bs) n d =
    ground (arith, erase_at-Distinct ns bs n d.1, In-erase_at ns bs n m, d.0)

-- A handle that is not on the list may change.
pub update-Paired :
    (handles : ℕ → Option Handle) (ns bs : List ℕ) (a : ℕ) (h : Option Handle)
    → Paired handles ns bs
    → (¬ In a bs)
    → Paired (update handles a h) ns bs
update-Paired handles [] [] a h p out = p
update-Paired handles [] (b ∷ bs) a h p out = absurd p
update-Paired handles (m ∷ ns) [] a h p out = absurd p
update-Paired handles (m ∷ ns) (b ∷ bs) a h p out = (
  elim (Bool-cases (a == b)) [ inl e ↦ absurd (out (inl ((==_iff a b).0 e))) | inr e ↦ rw e p.0 ],
  update-Paired handles ns bs a h p.1 (λ i. out (inr i)),
)
