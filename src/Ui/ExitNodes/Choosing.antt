-- ===== src/Ui/ExitNodes/Choosing.antt =====
-- What the handler of the exit node dropdown does when a refresh sets the dropdown.
use tswipoexp.Prelude.{
  ◌≡◌, ◌≢◌, refl, sym, ap, ◌∙◌, ◌⊎◌, inl, inr, Bool, true, false, Bool-cases, not, ◌&&◌, Option,
  none, some, List, [], ◌∷◌, ◌++◌, All, Bytes, ◌==◌, nat_eq, list_eq, list_eqb, eq_iff, eq_refl,
  if◌then◌else◌, arith,
}
use mathlib.Core.Path.{subst}
use tswipoexp.Status.{Peer}
use tswipoexp.Ui.ExitNodes.{
  Prefs, Dropdown, exit_node_none, id_of, exit_label, offer, offer_all, none_chosen, is_current,
  refresh_exit_nodes, choose_exit_node, sorted_options, with_unseen,
}

abbrev Offers : Peer → Type 0
Offers p = p.exit_node_option ≡ true

-- The peers that come later do not take the label for another exit node.
abbrev Leaves : Bytes → Bytes → List Peer → Type 0
Leaves id label ps = All (λ q. Offers q → exit_label q ≡ label → q.id ≡ id) ps

-- Among the peers that offer to be an exit node a label stands for one node, and none is "None".
abbrev pub IsClear : List Peer → Type 0
IsClear [] = Unit
IsClear (p ∷ ps) =
    (Offers p → exit_label p ≢ exit_node_none)
    × (Offers p → All (λ q. Offers q → exit_label q ≡ exit_label p → q.id ≡ p.id) ps)
    × IsClear ps

-- The label that is selected stands for this exit node, or it is "None" and stands for none.
StandsFor : Bytes → Dropdown → Type 0
StandsFor id d =
    ((d.selected ≡ exit_node_none) × (id_of exit_node_none d.ids ≡ []))
    ⊎ (id_of d.selected d.ids ≡ id)

IsClear-none : (id : Bytes) (ps : List Peer) → IsClear ps → Leaves id exit_node_none ps
IsClear-none id [] c = tt
IsClear-none id (p ∷ ps) (other, alone, c) = (λ o e. absurd (other o e), IsClear-none id ps c)

-- At a peer with another id
skip-StandsFor :
    (prefs : Prefs) (p : Peer) (d : Dropdown)
    → exit_label p ≢ exit_node_none
    → (exit_label p ≡ d.selected → p.id ≡ prefs.exit_node_id)
    → StandsFor prefs.exit_node_id d
    → StandsFor prefs.exit_node_id (record d { ids = (exit_label p, p.id) ∷ d.ids })
unfolding StandsFor id_of
skip-StandsFor prefs p d other keeps (inl (at_none, unset)) =
    let differs : (exit_label p == exit_node_none) ≡ false =
      ground (arith, eq_iff (exit_label p) exit_node_none, other) in
    inl (at_none, rw differs unset)
skip-StandsFor prefs p d other keeps (inr stands) = elim (Bool-cases (exit_label p == d.selected)) [
  | inl taken ↦ inr (rw taken (keeps ((eq_iff (exit_label p) d.selected).0 taken)))
  | inr free ↦ inr (rw free stands)
]

-- The step of the loop, by the outcomes of its two tests
abbrev after : Bool → Bool → Peer → Dropdown → Dropdown
after false same p d = d
after true same p d = record {
  options = d.options ++ (exit_label p ∷ []);
  selected = if same then exit_label p else d.selected;
  ids = (exit_label p, p.id) ∷ d.ids;
}

-- What holds of the dropdown while these peers are still to come.
abbrev Holds : Bytes → List Peer → Dropdown → Type 0
Holds id ps d = StandsFor id d × Leaves id d.selected ps

module _ (prefs : Prefs) (p : Peer) (ps : List Peer) where
  after-Holds :
      (offers same : Bool) (d : Dropdown)
      → p.exit_node_option ≡ offers
      → (prefs.exit_node_id == p.id) ≡ same
      → IsClear (p ∷ ps)
      → Holds prefs.exit_node_id (p ∷ ps) d
      → Holds prefs.exit_node_id ps (after offers same p d)
  unfolding StandsFor id_of
  after-Holds false same d o e c (s, l) = (s, l.1)
  after-Holds true false d o e (other, alone, c) (s, l) =
      (skip-StandsFor prefs p d (other o) (l.0 o) s, l.1)
  after-Holds true true d o e (other, alone, c) (s, l) =
      let same = (eq_iff prefs.exit_node_id p.id).0 e in
      (
        inr (rw (eq_refl (exit_label p)) (sym same)),
        subst (λ id. Leaves id (exit_label p) ps) (sym same) (alone o),
      )

  offer-after :
      (d : Dropdown)
      → (if p.exit_node_option then offer (some prefs) p d else d)
        ≡ after p.exit_node_option (prefs.exit_node_id == p.id) p d
  offer-after d = go p.exit_node_option
    where
      go :
          (b : Bool)
          → (if b then offer (some prefs) p d else d) ≡ after b (prefs.exit_node_id == p.id) p d
      go true = refl
      go false = refl

offer_all-StandsFor :
    (prefs : Prefs) (ps : List Peer) (d : Dropdown)
    → IsClear ps
    → Holds prefs.exit_node_id ps d
    → StandsFor prefs.exit_node_id (offer_all (some prefs) ps d)
unfolding offer_all
offer_all-StandsFor prefs [] d c h = h.0
offer_all-StandsFor prefs (p ∷ ps) d c h = rw (offer-after prefs p ps d) (
    offer_all-StandsFor prefs ps (after p.exit_node_option (prefs.exit_node_id == p.id) p d) (c.2)
      (after-Holds prefs p ps p.exit_node_option (prefs.exit_node_id == p.id) d refl refl c h))

module _ (prefs : Prefs) (d : Dropdown) where
  -- Without an exit node that is not seen, the selected label stands for the one in use.
  seen-id :
      (a b : Bool)
      → (d.selected == exit_node_none) ≡ a
      → (prefs.exit_node_id == []) ≡ b
      → (a && not b) ≡ false
      → StandsFor prefs.exit_node_id d
      → id_of d.selected d.ids ≡ prefs.exit_node_id
  unfolding StandsFor
  seen-id a b e f h (inr stands) = stands
  seen-id true true e f h (inl (at_none, unset)) =
      ap (λ l. id_of l d.ids) at_none ∙ unset ∙ sym ((eq_iff prefs.exit_node_id []).0 f)
  seen-id true false e f h (inl (at_none, unset)) = absurd (ground (arith, h))
  seen-id false b e f h (inl (at_none, unset)) =
      absurd (ground (arith, e, (eq_iff d.selected exit_node_none).1 at_none))

  with_unseen-id :
      StandsFor prefs.exit_node_id d
      → id_of (with_unseen (some prefs) d).selected (with_unseen (some prefs) d).ids
        ≡ prefs.exit_node_id
  unfolding id_of
  with_unseen-id s =
      go (d.selected == exit_node_none && not (prefs.exit_node_id == []))
        (λ h. seen-id (d.selected == exit_node_none) (prefs.exit_node_id == []) refl refl h s)
    where
      unseen : Dropdown
      unseen = record {
        options = d.options ++ (prefs.exit_node_id ∷ []);
        selected = prefs.exit_node_id;
        ids = (prefs.exit_node_id, prefs.exit_node_id) ∷ d.ids;
      }

      go :
          (t : Bool)
          → (t ≡ false → id_of d.selected d.ids ≡ prefs.exit_node_id)
          → id_of (if t then unseen else d).selected (if t then unseen else d).ids
            ≡ prefs.exit_node_id
      go true h = rw (eq_refl prefs.exit_node_id) refl
      go false h = h refl

-- If the labels are clear, the label that is shown stands for the exit node in use.
pub refresh_exit_nodes-id :
    (ps : List Peer) (prefs : Prefs)
    → IsClear ps
    → id_of (refresh_exit_nodes ps (some prefs)).selected (refresh_exit_nodes ps (some prefs)).ids
      ≡ prefs.exit_node_id
unfolding refresh_exit_nodes StandsFor id_of
refresh_exit_nodes-id ps prefs c =
    let start : Holds prefs.exit_node_id ps none_chosen =
      (inl (refl, refl), IsClear-none prefs.exit_node_id ps c) in
    with_unseen-id prefs (sorted_options (offer_all (some prefs) ps none_chosen))
      (offer_all-StandsFor prefs ps none_chosen c start)

-- If among the peers that offer to be an exit node a label stands for one node and none is "None", then
-- after a refresh with the preferences read, the label that the dropdown shows makes its handler ask
-- for nothing as long as the preferences stay.
pub refresh_exit_nodes-quiet :
    (ps : List Peer) (prefs : Prefs)
    → IsClear ps
    → choose_exit_node
        (some prefs)
        (refresh_exit_nodes ps (some prefs))
        (refresh_exit_nodes ps (some prefs)).selected
      ≡ none
unfolding choose_exit_node
refresh_exit_nodes-quiet ps prefs c =
    rw (refresh_exit_nodes-id ps prefs c, eq_refl prefs.exit_node_id) (ground arith)

-- "None" is selected, and stands for no exit node.
IsUnread : Dropdown → Type 0
IsUnread d = (d.selected ≡ exit_node_none) × (id_of exit_node_none d.ids ≡ [])

offer-IsUnread :
    (p : Peer) (d : Dropdown) (b : Bool)
    → p.exit_node_option ≡ b
    → (Offers p → exit_label p ≢ exit_node_none)
    → IsUnread d
    → IsUnread (if b then offer none p d else d)
unfolding IsUnread id_of
offer-IsUnread p d false o other u = u
offer-IsUnread p d true o other (e, f) =
    let differs : (exit_label p == exit_node_none) ≡ false =
      ground (arith, eq_iff (exit_label p) exit_node_none, other o) in
    (e, rw differs f)

offer_all-IsUnread :
    (ps : List Peer) (d : Dropdown) → IsClear ps → IsUnread d → IsUnread (offer_all none ps d)
unfolding offer_all
offer_all-IsUnread [] d c u = u
offer_all-IsUnread (p ∷ ps) d (other, alone, c) u =
    offer_all-IsUnread ps (if p.exit_node_option then offer none p d else d) c
      (offer-IsUnread p d p.exit_node_option refl other u)

abbrev clearing : Bool → Option Bytes
clearing current = if current then none else some []

-- If in a refresh the preferences cannot be read, and the dropdown is as clear as above, then the handler
-- that the dropdown calls asks the node for no exit node, whether it can read the preferences again and
-- there is an exit node in use, or cannot.
pub refresh_exit_nodes-unread :
    (ps : List Peer) (cur : Option Prefs)
    → IsClear ps
    → ((prefs : Prefs) → cur ≡ some prefs → prefs.exit_node_id ≢ [])
    → choose_exit_node cur (refresh_exit_nodes ps none) (refresh_exit_nodes ps none).selected
      ≡ some []
unfolding choose_exit_node refresh_exit_nodes IsUnread id_of list_eqb
refresh_exit_nodes-unread ps cur c used =
    let (e, f) = offer_all-IsUnread ps none_chosen c (refl, refl) in rw (e, f) (go cur used)
  where
    go :
        (cur : Option Prefs)
        → ((prefs : Prefs) → cur ≡ some prefs → prefs.exit_node_id ≢ [])
        → clearing (is_current cur []) ≡ some []
    go none used = refl
    go (some prefs) used =
        let in_use : (prefs.exit_node_id == []) ≡ false =
          ground (arith, eq_iff prefs.exit_node_id [], used prefs refl) in
        rw in_use refl
