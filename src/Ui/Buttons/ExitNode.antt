-- ===== src/Ui/Buttons/ExitNode.antt =====
-- The exit node that is chosen in the dropdown, and the dropdown after the next refresh.
use mathlib.Core.Path.{subst}
use tswipoexp.Prelude.{
  ◌≡◌, ◌≢◌, refl, sym, ap, ◌∙◌, ◌⊎◌, inl, inr, Bool, true, false, Option, none, some, List, [],
  Bytes, ◌==◌, nat_eq, list_eq, eq_iff, if◌then◌else◌, arith,
}
use tswipoexp.Program.{Error, io_error, Result, ok, err, Machine}
use tswipoexp.Program.Sealed.{pure}
use tswipoexp.Program.Triple.{
  Anything, All-Anything, Ensures-run, Ensures, trying-Ensures, >>=-Ensures, syscall-Ensures,
  give-Ensures, setting-Ensures, assuming,
}
use tswipoexp.Program.Within.{within-Ensures}
use tswipoexp.Status.{Peer}
use tswipoexp.Backend.{Backend}
use tswipoexp.Backend.Node.{
  NodePrefs, MaskedPrefs, no_prefs, no_edits, LocalClient, get_prefs, edit_prefs, set_exit_node,
}
use tswipoexp.Ui.ExitNodes.{
  Prefs, Dropdown, id_of, is_current, refresh_exit_nodes, choose_exit_node,
}
use tswipoexp.Ui.ExitNodes.Choosing.{IsClear, refresh_exit_nodes-id}
use tswipoexp.Ui.Buttons.{
  Screen, with_node, node_of, seen, seen_if_ok, show_err, shown, ask, fetch_prefs, read_prefs,
  ask_exit_node, select_exit_node,
}

-- EditPrefs sets the fields whose flag is on and leaves the others.
pub record Edits {S : Type 0} (lc : LocalClient S) : Type 0 where
  pub want_running :
      (m : MaskedPrefs) (s : S)
      → (lc.prefs (lc.edit_prefs m s)).want_running
        ≡ (if m.want_running_set then m.prefs.want_running else (lc.prefs s).want_running)
  pub shields_up :
      (m : MaskedPrefs) (s : S)
      → (lc.prefs (lc.edit_prefs m s)).shields_up
        ≡ (if m.shields_up_set then m.prefs.shields_up else (lc.prefs s).shields_up)
  pub exit_node_id :
      (m : MaskedPrefs) (s : S)
      → (lc.prefs (lc.edit_prefs m s)).exit_node_id
        ≡ (if m.exit_node_id_set then m.prefs.exit_node_id else (lc.prefs s).exit_node_id)
  pub hostname :
      (m : MaskedPrefs) (s : S)
      → (lc.prefs (lc.edit_prefs m s)).hostname
        ≡ (if m.hostname_set then m.prefs.hostname else (lc.prefs s).hostname)

abbrev with_exit_node : Bytes → MaskedPrefs
with_exit_node id = record no_edits {
  prefs = record no_prefs { exit_node_id = id };
  exit_node_id_set = true;
}

module _ {S : Type 0} (lc : LocalClient S) where
  -- The node's preferences are those of before with this exit node.
  abbrev pub IsUsing : Bytes → S → S → Type 0
  IsUsing id s t = lc.prefs t ≡ record (lc.prefs s) { exit_node_id = id }

  edit-IsUsing :
      Edits lc → (id : Bytes) (s : S) → IsUsing id s (lc.edit_prefs (with_exit_node id) s)
  edit-IsUsing edits id s =
      let m = with_exit_node id in
      λ i. record {
        want_running = edits.want_running m s i;
        shields_up = edits.shields_up m s i;
        exit_node_id = edits.exit_node_id m s i;
        hostname = edits.hostname m s i;
      }

module _ {S : Type 0} (lc : LocalClient S) (error_text : Error → Bytes) where
  -- The preferences are those of before with this exit node and nothing else has changed, or only the error
  -- line has: it shows the error.
  abbrev pub Outcome : Bytes → Screen S → Screen S → Type 0
  Outcome id x y =
      ((y ≡ record x { node = y.node }) × IsUsing lc id x.node y.node)
      ⊎ (y ≡ record x { error = error_text io_error })

  abbrev At : Screen S → Screen S → Type 0
  At x y = y ≡ x

  abbrev Asked : Bytes → S → Result (Unit {0}) → S → Type 0
  Asked id s (ok u) t = IsUsing lc id s t
  Asked id s (err e) t = (e ≡ io_error) × (t ≡ s)

  abbrev Tried : Bytes → Screen S → Result (Unit {0}) → Screen S → Type 0
  Tried id x (ok u) y = (y ≡ record x { node = y.node }) × IsUsing lc id x.node y.node
  Tried id x (err e) y = (e ≡ io_error) × (y ≡ x)

  set_exit_node-Ensures :
      Edits lc
      → (id : Bytes) (s : S)
      → Ensures Anything Anything (λ t. t ≡ s) (set_exit_node lc id) (Asked id s)
  unfolding set_exit_node edit_prefs
  set_exit_node-Ensures edits id s =
      syscall-Ensures _
        (λ t e. (
          tt,
          subst (λ u. IsUsing lc id u (lc.edit_prefs (with_exit_node id) t)) e
              (edit-IsUsing lc edits id t),
        ))
        (λ t junk e w. (refl, e))

  shown-Ensures :
      (id : Bytes) (x : Screen S) (r : Result (Unit {0}))
      → Ensures Anything Anything (Tried id x r) (shown lc error_text r) (λ _. Outcome id x)
  unfolding show_err
  shown-Ensures id x (ok u) = give-Ensures (ok tt) (λ t h. inl h)
  shown-Ensures id x (err e) =
      setting-Ensures _ (λ t (f, h). inr (λ i. record (h i) { error = error_text (f i) }))

  ask-Ensures :
      Edits lc
      → (id : Bytes) (x : Screen S)
      → Ensures Anything Anything
          (At x)
          (ask lc error_text (set_exit_node lc id))
          (λ _. Outcome id x)
  unfolding ask
  ask-Ensures edits id x =
      trying-Ensures {Q = Tried id x}
        (within-Ensures node_of with_node (λ t e. ap node_of e) (λ t p s r. tt) after
          (set_exit_node-Ensures edits id x.node))
        (shown-Ensures id x)
    where
      after :
          (t : Screen S)
          → At x t
          → (r : Result (Unit {0})) (s : S) → Asked id x.node r s
          → Tried id x r (with_node s t)
      after t e (ok u) s h = (λ i. record (e i) { node = s }, h)
      after t e (err f) s (g, h) = (g, λ i. record (e i) { node = h i })

  -- The preferences that a handler has read, if it could
  abbrev Fetched : S → Option Prefs → Type 0
  Fetched s none = Unit
  Fetched s (some p) = p ≡ seen (lc.prefs s)

  is_current-Fetched :
      (id : Bytes) (s : S) (prefs : Option Prefs)
      → Fetched s prefs
      → is_current prefs id ≡ true
      → (lc.prefs s).exit_node_id ≡ id
  is_current-Fetched id s none f e = absurd (ground (arith, e))
  is_current-Fetched id s (some p) f e =
      sym (ap (λ q. q.exit_node_id) f) ∙ (eq_iff p.exit_node_id id).0 e

  choice-Ensures :
      Edits lc
      → (d : Dropdown) (label : Bytes) (x : Screen S) → (label == []) ≡ false
      → (prefs : Option Prefs) → Fetched x.node prefs
      → Ensures Anything Anything
          (At x)
          (ask_exit_node lc error_text (choose_exit_node prefs d label))
          (λ _. Outcome (id_of label d.ids) x)
  unfolding choose_exit_node
  choice-Ensures edits d label x filled prefs f = rw filled (
      go (is_current prefs (id_of label d.ids))
        (is_current-Fetched (id_of label d.ids) x.node prefs f))
    where
      id : Bytes
      id = id_of label d.ids

      go :
          (b : Bool)
          → (b ≡ true → (lc.prefs x.node).exit_node_id ≡ id)
          → Ensures Anything Anything
              (At x)
              (ask_exit_node lc error_text (if b then none else some id))
              (λ _. Outcome id x)
      go false used = ask-Ensures edits id x
      go true used = give-Ensures (ok tt) (λ y e. inl (
        λ i. record (e i) { node = y.node },
        ap (λ z. lc.prefs z.node) e
            ∙ (λ i. record (lc.prefs x.node) { exit_node_id = used refl i }),
      ))

  -- Of a call that reads the preferences, which changes nothing
  abbrev Got : S → Result NodePrefs → S → Type 0
  Got s (ok p) t = (t ≡ s) × (p ≡ lc.prefs s)
  Got s (err e) t = t ≡ s

  abbrev GotBy : Screen S → Result NodePrefs → Screen S → Type 0
  GotBy x (ok p) y = (y ≡ x) × (p ≡ lc.prefs x.node)
  GotBy x (err e) y = y ≡ x

  abbrev Read : Screen S → Result (Option Prefs) → Screen S → Type 0
  Read x (ok prefs) y = (y ≡ x) × Fetched x.node prefs
  Read x (err e) y = true ≡ false

  fetch_prefs-Ensures :
      (x : Screen S) → Ensures Anything Anything (At x) (fetch_prefs lc error_text) (Read x)
  unfolding fetch_prefs get_prefs
  fetch_prefs-Ensures x =
      trying-Ensures {Q = GotBy x}
        (within-Ensures node_of with_node (λ t e. ap node_of e) (λ t p s r. tt) after
          (syscall-Ensures {Q = Got x.node} _ (λ t e. (tt, (e, ap lc.prefs e))) (λ t junk e w. e)))
        given
    where
      after :
          (t : Screen S)
          → At x t
          → (r : Result NodePrefs) (s : S) → Got x.node r s
          → GotBy x r (with_node s t)
      after t e (ok p) s (h, f) = (λ i. record (e i) { node = h i }, f)
      after t e (err f) s h = λ i. record (e i) { node = h i }

      given :
          (r : Result NodePrefs)
          → Ensures Anything Anything (GotBy x r) (pure (seen_if_ok r)) (Read x)
      given (ok p) = give-Ensures (ok (some (seen p))) (λ t (e, f). (e, ap seen f))
      given (err e) = give-Ensures (ok none) (λ t e. (e, tt))

  select_exit_node-Ensures :
      Edits lc
      → (b : Backend) → b.lc ≡ true
      → (d : Dropdown) (label : Bytes) → (label == []) ≡ false
      → (x : Screen S)
      → Ensures Anything Anything
          (At x)
          (select_exit_node lc error_text d label (some b))
          (λ _. Outcome (id_of label d.ids) x)
  unfolding select_exit_node read_prefs
  select_exit_node-Ensures edits b client d label filled x =
      rw (filled, client)
        (>>=-Ensures {Q = Read x} (fetch_prefs-Ensures x)
          (λ prefs. assuming _ (choice-Ensures edits d label x filled prefs))
          (λ e t never. absurd (ground (arith, never))))

  abbrev after_refresh : List Peer → Screen S → Dropdown
  after_refresh ps y = refresh_exit_nodes ps (some (seen (lc.prefs y.node)))

  -- From `x` to `y` the node has taken this exit node and nothing else, and the next refresh shows a label
  -- that stands for it, or the error line shows an error and nothing else is different.
  abbrev pub Shows : List Peer → Bytes → Screen S → Screen S → Type 0
  Shows ps id x y =
      ((y ≡ record x { node = y.node })
        × (lc.prefs y.node ≡ record (lc.prefs x.node) { exit_node_id = id })
        × (id_of (after_refresh ps y).selected (after_refresh ps y).ids ≡ id))
      ⊎ (y ≡ record x { error = error_text io_error })

  Outcome-Shows :
      (ps : List Peer)
      → IsClear ps
      → (id : Bytes) (x y : Screen S) → Outcome id x y
      → Shows ps id x y
  Outcome-Shows ps clear id x y (inl (e, h)) =
      inl
        (e, h, refresh_exit_nodes-id ps (seen (lc.prefs y.node)) clear ∙ ap (λ p. p.exit_node_id) h)
  Outcome-Shows ps clear id x y (inr e) = inr e

  -- If EditPrefs sets what its mask names and the labels of the exit nodes are clear, then whichever calls
  -- fail, choosing a label of the dropdown either changes nothing but the error line, which shows the
  -- error, or leaves the node's other preferences and the window as they were, and in the next refresh that
  -- reads the preferences the label that is shown stands for the exit node that was chosen.
  pub select_exit_node-refresh_exit_nodes :
      Edits lc
      → (ps : List Peer) → IsClear ps
      → (b : Backend) → b.lc ≡ true
      → (d : Dropdown) (label : Bytes) → label ≢ []
      → (m : Machine (Screen S))
      → Shows ps
          (id_of label d.ids)
          m.state
          (select_exit_node lc error_text d label (some b) m).1.state
  select_exit_node-refresh_exit_nodes edits ps clear b client d label filled m =
      let differs : (label == []) ≡ false = ground (arith, eq_iff label [], filled) in
      let ended : Screen S = (select_exit_node lc error_text d label (some b) m).1.state in
      Outcome-Shows ps clear (id_of label d.ids) m.state ended
        (Ensures-run (select_exit_node-Ensures edits b client d label differs m.state) m refl
          (All-Anything m.fates) (All-Anything m.past)).0
