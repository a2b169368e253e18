-- ===== src/RecoveryLog/Fsm/Invariant.antt =====
-- The maps of the machine (v2/pkg/recoverylog/fsm.go) agree with one another.
use gazette.Prelude.{
  ℕ, ◌≤◌, ◌<◌, ◌≡◌, refl, sym, ap, ◌∙◌, ◌≢◌, false, Option, none, some, List, arith, if◌then◌else◌,
  Bytes, bytes_eq, bytes_eq_iff, ◌==◌, Bool-cases, inl, inr, ◌⊎◌,
}
use gazette.Go.Map.{Map, nat_key, bytes_key, lookup, insert, delete, lookup-insert, lookup-delete}
use gazette.RecoveryLog.Segment.{Segment}
use gazette.RecoveryLog.Fsm.{FnodeState, Fsm, is_set, no_links}

-- Links and live nodes index each other, linked paths are no properties, a live node has a link, and
-- its Fnode is below `bound`.
pub record IsConsistent (bound : ℕ) (m : Fsm) : Type 0 where
  pub linked :
      (p : Bytes) (f : ℕ)
      → lookup p m.links ≡ some f
      → (node : FnodeState) × (lookup f m.live_nodes ≡ some node) × (lookup p node.links ≡ some tt)
  pub indexed :
      (f : ℕ) (node : FnodeState) (p : Bytes)
      → lookup f m.live_nodes ≡ some node
      → lookup p node.links ≡ some tt
      → lookup p m.links ≡ some f
  pub apart : (p : Bytes) (f : ℕ) → lookup p m.links ≡ some f → lookup p m.properties ≡ none
  pub held :
      (f : ℕ) (node : FnodeState) → lookup f m.live_nodes ≡ some node → no_links node.links ≡ false
  pub below : (f : ℕ) (node : FnodeState) → lookup f m.live_nodes ≡ some node → f < bound

pub insert-no_links : (p : Bytes) (m : Map Bytes (Unit {0})) → no_links (insert p tt m) ≡ false
unfolding insert
insert-no_links p m = refl

pub is_set-none {ℓ} : {A : Type ℓ} (o : Option A) → is_set o ≡ false → o ≡ none
is_set-none none h = refl
is_set-none (some a) h = cc

-- Reads of the three maps after a write.
pub path_of :
    (a p : Bytes) (m : Map Bytes (Unit {0}))
    → lookup p (insert a tt m) ≡ (if bytes_eq a p then some tt else lookup p m)
path_of a p m = lookup-insert a p tt m

pub path_of-delete :
    (a p : Bytes) (m : Map Bytes (Unit {0}))
    → lookup p (delete a m) ≡ (if bytes_eq a p then none else lookup p m)
path_of-delete a p m = lookup-delete a p m

pub link_of :
    (a p : Bytes) (f : ℕ) (m : Map Bytes ℕ)
    → lookup p (insert a f m) ≡ (if bytes_eq a p then some f else lookup p m)
link_of a p f m = lookup-insert a p f m

pub link_of-delete :
    (a p : Bytes) (m : Map Bytes ℕ)
    → lookup p (delete a m) ≡ (if bytes_eq a p then none else lookup p m)
link_of-delete a p m = lookup-delete a p m

pub node_at :
    (f g : ℕ) (n : FnodeState) (m : Map ℕ FnodeState)
    → lookup g (insert f n m) ≡ (if f == g then some n else lookup g m)
node_at f g n m = lookup-insert f g n m

pub node_at-delete :
    (f g : ℕ) (m : Map ℕ FnodeState) → lookup g (delete f m) ≡ (if f == g then none else lookup g m)
node_at-delete f g m = lookup-delete f g m

-- A read of the nodes after a write sees the node written or an older one.
pub node_at-cases :
    (f g : ℕ) (n k : FnodeState) (m : Map ℕ FnodeState)
    → lookup g (insert f n m) ≡ some k
    → ((f ≡ g) × (n ≡ k)) ⊎ ((f ≢ g) × (lookup g m ≡ some k))
node_at-cases f g n k m h = ground (arith, node_at f g n m)

-- `f` holds `old` of the paths, and gets a fresh one.
pub attach-IsConsistent :
    (bound top : ℕ) (m : Fsm) (path : Bytes) (f : ℕ) (old : Map Bytes (Unit {0}))
    (segments : List Segment)
    → lookup path m.links ≡ none
    → lookup path m.properties ≡ none
    → bound ≤ top
    → f < top
    → ((p : Bytes) → lookup p old ≡ some tt → lookup p m.links ≡ some f)
    → ((p : Bytes) → lookup p m.links ≡ some f → lookup p old ≡ some tt)
    → IsConsistent bound m
    → IsConsistent top (record m {
      live_nodes =
          insert f (record { links = insert path tt old; segments = segments }) m.live_nodes;
      links = insert path f m.links;
    })
attach-IsConsistent bound top m path f old segments fl fp b ft sound complete c = record {
  linked = λ p g h. elim (Bool-cases (f == g)) [
    | inl q ↦ (
      node,
      ground (arith, node_at f g node m.live_nodes),
      ground (arith, path_of path p old, link_of path p f m.links, complete p),
    )
    | inr q ↦
        let was = c.linked p g (ground (arith, link_of path p f m.links)) in
        (was.0, ground (arith, was.1, node_at f g node m.live_nodes), was.2)
  ];
  indexed = λ g k p h i. elim (node_at-cases f g node k m.live_nodes h) [
    | inl (fg, nk) ↦ ground (
      arith,
      fg,
      sound p,
      path_of path p old,
      link_of path p f m.links,
      ap (λ n. lookup p n.links) nk ∙ i,
    )
    | inr (fg, was) ↦
        let o = c.indexed g k p was i in
        ground (arith, o, fl, bytes_eq_iff path p, link_of path p f m.links)
  ];
  apart = λ p g h. ground (arith, c.apart p g, bytes_eq_iff path p, link_of path p f m.links);
  held = λ g k h. elim (node_at-cases f g node k m.live_nodes h) [
    | inl (fg, nk) ↦ ap (λ n. no_links n.links) (sym nk) ∙ insert-no_links path old
    | inr (fg, was) ↦ c.held g k was
  ];
  below = λ g k h. elim (node_at-cases f g node k m.live_nodes h) [
    | inl (fg, nk) ↦ ground (arith, fg)
    | inr (fg, was) ↦ ground (arith, c.below g k was)
  ];
}
  where
    node : FnodeState
    node = record { links = insert path tt old; segments = segments }
