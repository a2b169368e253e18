-- ===== src/RecoveryLog/Replay/Bare.antt =====
-- A step of the machine (v2/pkg/recoverylog/fsm.go) does not look at segments of live nodes or at
-- offsets.
use gazette.Prelude.{
  ℕ, ◌≡◌, refl, ap, ◌∙◌, Bool, true, false, Option, none, some, List, [], ◌∷◌, Bytes, if◌then◌else◌,
  ◌==◌, Bool-cases, Option-cases, inl, inr,
}
use gazette.Go.Map.{Map, bytes_key, nat_key, lookup, insert, delete}
use gazette.RecoveryLog.Fsm.{
  FnodeState, Fsm, RecordedOp, Error, fnode_not_tracked, link_exists, property_exists, no_such_link,
  is_set, no_links, add_node, differs, create_hinted, apply_create, apply_link, apply_unlink,
  apply_write, apply_property,
}
use gazette.RecoveryLog.Replay.{bare_node, bare_nodes, bare, bared, plain}

abbrev bare_found : Option FnodeState → Option FnodeState
bare_found none = none
bare_found (some node) = some (bare_node node)

lookup-bare_nodes :
    (f : ℕ) (ns : Map ℕ FnodeState) → lookup f (bare_nodes ns) ≡ bare_found (lookup f ns)
unfolding lookup
lookup-bare_nodes f [] = refl
lookup-bare_nodes f ((g, n) ∷ ns) = elim (Bool-cases (g == f)) [
  | inl q ↦ rw (lookup, q) refl
  | inr q ↦ rw (lookup, q) (lookup-bare_nodes f ns)
]

bare-delete :
    (f : ℕ) (ns : Map ℕ FnodeState)
    → bare_nodes (delete f ns) ≡ bare_nodes (delete f (bare_nodes ns))
unfolding delete
bare-delete f [] = refl
bare-delete f ((g, n) ∷ ns) = elim (Bool-cases (g == f)) [
  | inl q ↦ rw (delete, q) (bare-delete f ns)
  | inr q ↦ rw (delete, q) (ap (λ t. (g, bare_node n) ∷ t) (bare-delete f ns))
]

-- Nodes with the same links are the same to it.
bare-insert :
    (f : ℕ) (a b : FnodeState) (ns : Map ℕ FnodeState)
    → a.links ≡ b.links
    → bare_nodes (insert f a ns) ≡ bare_nodes (insert f b (bare_nodes ns))
unfolding insert
bare-insert f a b ns e =
    ap (λ l. (f, record { links = l; segments = [] }) ∷ bare_nodes (delete f ns)) e
    ∙ ap (λ t. (f, bare_node b) ∷ t) (bare-delete f ns)

bare_nodes-bare_nodes : (ns : Map ℕ FnodeState) → bare_nodes ns ≡ bare_nodes (bare_nodes ns)
bare_nodes-bare_nodes [] = refl
bare_nodes-bare_nodes ((f, n) ∷ ns) = ap (λ t. (f, bare_node n) ∷ t) (bare_nodes-bare_nodes ns)

-- The same machine but for its live nodes.
with_nodes :
    (m : Fsm) (a b : Map ℕ FnodeState)
    → bare_nodes a ≡ bare_nodes b
    → bare (record m { live_nodes = a }) ≡ bare (record m { live_nodes = b })
with_nodes m a b e = ap (λ t. record m { live_nodes = t }) e

module _ (m : Fsm) where
  pub untouched : bare m ≡ bare (bare m)
  untouched =
      with_nodes m m.live_nodes (bare_nodes m.live_nodes) (bare_nodes-bare_nodes m.live_nodes)

  pub refused : (e : Error) → bared (m, some e) ≡ bared (bare m, some e)
  refused e = ap (λ x. (x, some e)) untouched

  missing : (f : ℕ) → lookup f m.live_nodes ≡ none → lookup f (bare_nodes m.live_nodes) ≡ none
  missing f h = lookup-bare_nodes f m.live_nodes ∙ ap bare_found h

  found :
      (f : ℕ) (node : FnodeState)
      → lookup f m.live_nodes ≡ some node
      → lookup f (bare_nodes m.live_nodes) ≡ some (bare_node node)
  found f node h = lookup-bare_nodes f m.live_nodes ∙ ap bare_found h

  pub apply_write-bare :
      (f : ℕ) (op : RecordedOp)
      → bared (apply_write m f op) ≡ bared (apply_write (bare m) f (plain op))
  unfolding apply_write
  apply_write-bare f op = elim (Option-cases (lookup f m.live_nodes)) [
    | inl h ↦ rw (apply_write, h, missing f h) (refused fnode_not_tracked)
    | inr (node, h) ↦
        rw (apply_write, h, found f node h)
          (ap (λ t. (record m { live_nodes = t }, none)) (bare-insert f _ _ m.live_nodes refl))
  ]

  pub apply_link-bare :
      (f : ℕ) (path : Bytes) (op : RecordedOp)
      → bared (apply_link m f path op) ≡ bared (apply_link (bare m) f path (plain op))
  unfolding apply_link
  apply_link-bare f path op = elim (Bool-cases (is_set (lookup path m.links))) [
    | inl q ↦ rw (apply_link, q) (refused link_exists)
    | inr q ↦ elim (Bool-cases (is_set (lookup path m.properties))) [
      | inl r ↦ rw (apply_link, q, r) (refused property_exists)
      | inr r ↦ elim (Option-cases (lookup f m.live_nodes)) [
        | inl h ↦ rw (apply_link, q, r, h, missing f h) (refused fnode_not_tracked)
        | inr (node, h) ↦
            rw (apply_link, q, r, h, found f node h)
              (ap (λ t. (record m { live_nodes = t; links = insert path f m.links }, none))
                (bare-insert f _ _ m.live_nodes refl))
      ]
    ]
  ]

  unlinked_nodes :
      (f : ℕ) (a b : FnodeState) (last : Bool)
      → a.links ≡ b.links
      → bare_nodes (if last then delete f m.live_nodes else insert f a m.live_nodes)
        ≡ bare_nodes (
            if last
            then delete f (bare_nodes m.live_nodes)
            else insert f b (bare_nodes m.live_nodes))
  unlinked_nodes f a b true e = bare-delete f m.live_nodes
  unlinked_nodes f a b false e = bare-insert f a b m.live_nodes e

  pub apply_unlink-bare :
      (f : ℕ) (path : Bytes) (op : RecordedOp)
      → bared (apply_unlink m f path op) ≡ bared (apply_unlink (bare m) f path (plain op))
  unfolding apply_unlink
  apply_unlink-bare f path op = elim (Option-cases (lookup f m.live_nodes)) [
    | inl h ↦ rw (apply_unlink, h, missing f h) (refused fnode_not_tracked)
    | inr (node, h) ↦ elim (Bool-cases (is_set (lookup path node.links))) [
      | inr q ↦ rw (apply_unlink, h, found f node h, q) (refused no_such_link)
      | inl q ↦
          rw (apply_unlink, h, found f node h, q)
            (ap (λ t. (record m { live_nodes = t; links = delete path m.links }, none))
              (unlinked_nodes f _ _ (no_links (delete path node.links)) refl))
    ]
  ]

  pub apply_property-bare :
      (path content : Bytes)
      → bared (apply_property m path content) ≡ bared (apply_property (bare m) path content)
  unfolding apply_property
  apply_property-bare path content = elim (Bool-cases (is_set (lookup path m.links))) [
    | inl q ↦ rw (apply_property, q) (refused link_exists)
    | inr q ↦ elim (Bool-cases (differs (lookup path m.properties) content)) [
      | inl r ↦ rw (apply_property, q, r) (refused property_exists)
      | inr r ↦
          rw (apply_property, q, r)
            (ap (λ x. (record x { properties = insert path content m.properties }, none)) untouched)
    ]
  ]

  add_node-bare :
      (hinted : List ℕ) (path : Bytes) (op : RecordedOp)
      → bared (add_node (record m { hinted_fnodes = hinted }) path op, none)
        ≡ bared (add_node (record (bare m) { hinted_fnodes = hinted }) path (plain op), none)
  add_node-bare hinted path op =
      ap
        (λ t. (
          record m {
            live_nodes = t;
            links = insert path op.seq_no m.links;
            hinted_fnodes = hinted;
          },
          none,
        ))
        (bare-insert op.seq_no _ _ m.live_nodes refl)

  create_hinted-bare :
      (fs : List ℕ) (path : Bytes) (op : RecordedOp)
      → bared (create_hinted m fs path op) ≡ bared (create_hinted (bare m) fs path (plain op))
  create_hinted-bare [] path op = add_node-bare m.hinted_fnodes path op
  create_hinted-bare (f ∷ fs) path op = elim (Bool-cases (f == op.seq_no)) [
    | inl q ↦ rw q (add_node-bare fs path op)
    | inr q ↦ rw q (refused fnode_not_tracked)
  ]

  pub apply_create-bare :
      (path : Bytes) (op : RecordedOp)
      → bared (apply_create m path op) ≡ bared (apply_create (bare m) path (plain op))
  unfolding apply_create
  apply_create-bare path op = elim (Bool-cases (is_set (lookup path m.links))) [
    | inl q ↦ rw (apply_create, q) (refused link_exists)
    | inr q ↦ elim (Bool-cases (is_set (lookup path m.properties))) [
      | inl r ↦ rw (apply_create, q, r) (refused property_exists)
      | inr r ↦ rw (apply_create, q, r) (create_hinted-bare m.hinted_fnodes path op)
    ]
  ]
