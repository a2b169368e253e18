-- ===== src/RecoveryLog/Recorder/Turning.antt =====
-- When the machine (v2/pkg/recoverylog/fsm.go) applies an operation as a recorder writes it, and which
-- links and properties that leaves.
use mathlib.Core.Path.{subst}
use gazette.Prelude.{ℕ, ◌≡◌, refl, sym, false, none, some, List, [], ◌∷◌, Bytes}
use gazette.Go.Map.{Map, bytes_key, nat_key, lookup, insert, delete}
use gazette.RecoveryLog.Fsm.{
  Fsm, Outcome, FnodeState, RecordedOp, apply_op, apply_link_op, apply_unlink_op, apply_write_op,
  apply_property_op, apply_unlink, apply_create, apply_link, apply_write, apply_property, differs,
  create_hinted, add_node,
}
use gazette.RecoveryLog.Recorder.Stepping.{expects-none}

-- An operation is applied, and leaves these links and properties.
pub record Turns (m : Fsm) (links : Map Bytes ℕ) (properties : Map Bytes Bytes) (r : Outcome)
    : Type 0 where
  pub passes : r.1 ≡ none
  pub links_are : r.0.links ≡ links
  pub properties_are : r.0.properties ≡ properties
  pub same_fnodes : r.0.hinted_fnodes ≡ m.hinted_fnodes

turned : (m n : Fsm) → n.hinted_fnodes ≡ m.hinted_fnodes → Turns m n.links n.properties (n, none)
turned m n h = record { passes = refl; links_are = refl; properties_are = refl; same_fnodes = h }

-- With no hints, an operation goes to the case of its kind.
module _ (m : Fsm) (o : RecordedOp) (no_fnodes : m.hinted_fnodes ≡ []) where
  pub unlink-case :
      (f : ℕ) (path : Bytes)
      → let op = record o { create = none; link = none; unlink = some (f, path) } in
        apply_op m op ≡ apply_unlink m f path op
  unfolding apply_op apply_link_op apply_unlink_op
  unlink-case f path = rw (apply_op, expects-none m.hinted_fnodes o.seq_no no_fnodes) refl

  pub link-case :
      (f : ℕ) (path : Bytes)
      → let op = record o { create = none; link = some (f, path) } in
        apply_op m op ≡ apply_link m f path op
  unfolding apply_op apply_link_op
  link-case f path = rw (apply_op, expects-none m.hinted_fnodes o.seq_no no_fnodes) refl

  pub write-case :
      (f offset size : ℕ)
      → let op = record o {
        create = none;
        link = none;
        unlink = none;
        write = some (f, offset, size);
      } in
        apply_op m op ≡ apply_write m f op
  unfolding apply_op apply_link_op apply_unlink_op apply_write_op
  write-case f offset size = rw (apply_op, expects-none m.hinted_fnodes o.seq_no no_fnodes) refl

  pub property-case :
      (path content : Bytes)
      → let op = record o {
        create = none;
        link = none;
        unlink = none;
        write = none;
        property = some (path, content);
      } in
        apply_op m op ≡ apply_property m path content
  unfolding apply_op apply_link_op apply_unlink_op apply_write_op apply_property_op
  property-case path content = rw (apply_op, expects-none m.hinted_fnodes o.seq_no no_fnodes) refl

  create_hinted-none :
      (fs : List ℕ) (path : Bytes) → fs ≡ [] → create_hinted m fs path o ≡ (add_node m path o, none)
  create_hinted-none [] path h = refl
  create_hinted-none (f ∷ fs) path h = cc

pub apply_unlink-Turns :
    (m : Fsm) (f : ℕ) (path : Bytes) (op : RecordedOp) (node : FnodeState)
    → lookup f m.live_nodes ≡ some node
    → lookup path node.links ≡ some tt
    → Turns m (delete path m.links) m.properties (apply_unlink m f path op)
unfolding apply_unlink
apply_unlink-Turns m f path op node live at = rw (apply_unlink, live, at) (turned m _ refl)

pub apply_link-Turns :
    (m : Fsm) (f : ℕ) (path : Bytes) (op : RecordedOp) (node : FnodeState)
    → lookup path m.links ≡ none
    → lookup path m.properties ≡ none
    → lookup f m.live_nodes ≡ some node
    → Turns m (insert path f m.links) m.properties (apply_link m f path op)
unfolding apply_link
apply_link-Turns m f path op node a b live = rw (apply_link, a, b, live) (turned m _ refl)

pub apply_create-Turns :
    (m : Fsm) (path : Bytes) (op : RecordedOp)
    → m.hinted_fnodes ≡ []
    → lookup path m.links ≡ none
    → lookup path m.properties ≡ none
    → Turns m (insert path op.seq_no m.links) m.properties (apply_create m path op)
unfolding apply_create
apply_create-Turns m path op no_fnodes a b =
    rw (apply_create, a, b, create_hinted-none m op no_fnodes m.hinted_fnodes path no_fnodes)
      (turned m _ refl)

pub apply_write-Turns :
    (m : Fsm) (f : ℕ) (op : RecordedOp) (node : FnodeState)
    → lookup f m.live_nodes ≡ some node
    → Turns m m.links m.properties (apply_write m f op)
unfolding apply_write
apply_write-Turns m f op node live = rw (apply_write, live) (turned m _ refl)

pub apply_property-Turns :
    (m : Fsm) (path content : Bytes)
    → lookup path m.links ≡ none
    → differs (lookup path m.properties) content ≡ false
    → Turns m m.links (insert path content m.properties) (apply_property m path content)
unfolding apply_property
apply_property-Turns m path content a b = rw (apply_property, a, b) (turned m _ refl)

pub turned-same :
    {m : Fsm} {links : Map Bytes ℕ} {properties : Map Bytes Bytes} (a b : Outcome)
    → a ≡ b
    → Turns m links properties b
    → Turns m links properties a
turned-same {m = m} {links = l} {properties = q} a b e t = subst (λ x. Turns m l q x) (sym e) t
