-- ===== src/Ui/Peers/Sorting.antt =====
-- The order of the rows that peerRows of ui.go returns.
use mathlib.Core.List.{Perm}
use mathlib.Core.List.Perm
use tswipoexp.Prelude.{
  ◌≡◌, refl, ◌⊎◌, All, true, false, Bool, Bool-cases, List, [], ◌∷◌, map, nat_eq, list_eq, list_eqb,
  arith, inl, inr,
}
use tswipoexp.Profiles.Store.{bytes_le}
use tswipoexp.Profiles.Store.Sorting.{bytes_le_total}
use tswipoexp.Status.{Status, Peer}
use tswipoexp.Ui.Peers.{PeerRow, peer_row, row_le, insert_row, sort_rows, peer_rows, yes_no}

insert_row-Perm : (r : PeerRow) (rows : List PeerRow) → Perm (insert_row r rows) (r ∷ rows)
unfolding insert_row
insert_row-Perm r [] = Perm.refl (r ∷ [])
insert_row-Perm r (s ∷ rows) = elim (Bool-cases (row_le r s)) [
  | inl h ↦ rw h (Perm.refl (r ∷ s ∷ rows))
  | inr h ↦ rw h (Perm.trans (Perm.cons s (insert_row-Perm r rows)) (Perm.swap r s rows))
]

sort_rows-Perm : (rows : List PeerRow) → Perm (sort_rows rows) rows
unfolding sort_rows
sort_rows-Perm [] = Perm.nil
sort_rows-Perm (r ∷ rows) =
    Perm.trans (insert_row-Perm r (sort_rows rows)) (Perm.cons r (sort_rows-Perm rows))

-- A row before the next: online before offline, then by name.
pub Precedes : PeerRow → PeerRow → Type 0
Precedes r s =
    ((r.online ≡ yes_no true) × (s.online ≡ yes_no false))
    ⊎ ((r.online ≡ s.online) × (bytes_le r.name s.name ≡ true))

abbrev BeforeHead : PeerRow → List PeerRow → Type 0
BeforeHead r [] = Unit
BeforeHead r (s ∷ rows) = Precedes r s

abbrev pub InOrder : List PeerRow → Type 0
InOrder [] = Unit
InOrder (r ∷ rows) = BeforeHead r rows × InOrder rows

abbrev Answers : PeerRow → Type 0
Answers r = (r.online ≡ yes_no true) ⊎ (r.online ≡ yes_no false)

row_le-Precedes : (r s : PeerRow) → Answers r → Answers s → row_le r s ≡ true → Precedes r s
unfolding row_le Precedes list_eqb
row_le-Precedes r s (inl a) (inl b) = rw (a, b) (λ h. inr (refl, h))
row_le-Precedes r s (inl a) (inr b) = rw (a, b) (λ h. inl (refl, refl))
row_le-Precedes r s (inr a) (inl b) = rw (a, b) (λ h. absurd (ground (arith, h)))
row_le-Precedes r s (inr a) (inr b) = rw (a, b) (λ h. inr (refl, h))

row_le_total : (r s : PeerRow) → Answers r → Answers s → row_le r s ≡ false → row_le s r ≡ true
unfolding row_le list_eqb
row_le_total r s (inl a) (inl b) = rw (a, b) (bytes_le_total r.name s.name)
row_le_total r s (inl a) (inr b) = rw (a, b) (λ h. absurd (ground (arith, h)))
row_le_total r s (inr a) (inl b) = rw (a, b) (λ h. refl)
row_le_total r s (inr a) (inr b) = rw (a, b) (bytes_le_total r.name s.name)

insert_row-Answers :
    (r : PeerRow) (rows : List PeerRow)
    → Answers r
    → All Answers rows
    → All Answers (insert_row r rows)
unfolding insert_row
insert_row-Answers r [] a ans = (a, tt)
insert_row-Answers r (s ∷ rows) a ans = elim (Bool-cases (row_le r s)) [
  | inl h ↦ rw h (a, ans)
  | inr h ↦ rw h (ans.0, insert_row-Answers r rows a ans.1)
]

BeforeHead-insert_row :
    (s r : PeerRow) (rows : List PeerRow)
    → Precedes s r
    → BeforeHead s rows
    → BeforeHead s (insert_row r rows)
unfolding insert_row
BeforeHead-insert_row s r [] p b = p
BeforeHead-insert_row s r (t ∷ rows) p b = elim (Bool-cases (row_le r t)) [
  | inl h ↦ rw h p
  | inr h ↦ rw h b
]

insert_row-InOrder :
    (r : PeerRow) (rows : List PeerRow)
    → Answers r
    → All Answers rows
    → InOrder rows
    → InOrder (insert_row r rows)
unfolding insert_row
insert_row-InOrder r [] a ans o = (tt, tt)
insert_row-InOrder r (s ∷ rows) a ans o = elim (Bool-cases (row_le r s)) [
  | inl h ↦ rw h (row_le-Precedes r s a ans.0 h, o)
  | inr h ↦
      let before = row_le-Precedes s r ans.0 a (row_le_total r s a ans.0 h) in
      rw h (BeforeHead-insert_row s r rows before o.0, insert_row-InOrder r rows a ans.1 o.1)
]

yes_no-Answers : (b : Bool) → (yes_no b ≡ yes_no true) ⊎ (yes_no b ≡ yes_no false)
yes_no-Answers true = inl refl
yes_no-Answers false = inr refl

sorted :
    (ps : List Peer)
    → All Answers (sort_rows (map peer_row ps)) × InOrder (sort_rows (map peer_row ps))
unfolding sort_rows peer_row
sorted [] = (tt, tt)
sorted (p ∷ ps) =
    let (ans, o) = sorted ps in
    let a = yes_no-Answers p.online in
    (
      insert_row-Answers (peer_row p) (sort_rows (map peer_row ps)) a ans,
      insert_row-InOrder (peer_row p) (sort_rows (map peer_row ps)) a ans o,
    )

-- The table has one row for each peer, those online before the others, and each of these groups in the
-- order of the names.
pub peer_rows-InOrder :
    (st : Status) → InOrder (peer_rows st) × Perm (peer_rows st) (map peer_row st.peers)
unfolding peer_rows
peer_rows-InOrder st = ((sorted st.peers).1, sort_rows-Perm (map peer_row st.peers))
