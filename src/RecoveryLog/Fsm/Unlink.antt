-- ===== src/RecoveryLog/Fsm/Unlink.antt =====
-- Unlinking (v2/pkg/recoverylog/fsm.go, applyUnlink) keeps the maps of the machine in agreement.
use gazette.Prelude.{
  ℕ, ◌≡◌, refl, sym, ap, ◌∙◌, ◌≢◌, true, false, Option, none, some, List, [], ◌∷◌, arith, Bytes,
  bytes_eq, bytes_eq_iff, ◌==◌, Bool-cases, Option-cases, inl, inr,
}
use gazette.Go.Map.{Map, nat_key, bytes_key, lookup, insert, delete}
use gazette.RecoveryLog.Segment.{Segment}
use gazette.RecoveryLog.Fsm.{
  FnodeState, Fsm, RecordedOp, extend_segments, is_set, apply_unlink, no_links,
}
use gazette.RecoveryLog.Fsm.Invariant.{
  IsConsistent, node_at-cases, node_at, path_of-delete, link_of-delete, node_at-delete,
}

lookup-no_links : (p : Bytes) (m : Map Bytes (Unit {0})) → lookup p m ≡ some tt → no_links m ≡ false
unfolding lookup
lookup-no_links p [] h = cc
lookup-no_links p (l ∷ m) h = refl

link_of-delete_inv :
    (a p : Bytes) (f : ℕ) (m : Map Bytes ℕ)
    → lookup p (delete a m) ≡ some f
    → (bytes_eq a p ≡ false) × (lookup p m ≡ some f)
link_of-delete_inv a p f m h = ground (arith, link_of-delete a p m)

node_at-delete_inv :
    (f g : ℕ) (k : FnodeState) (m : Map ℕ FnodeState)
    → lookup g (delete f m) ≡ some k
    → (f ≢ g) × (lookup g m ≡ some k)
node_at-delete_inv f g k m h = ground (arith, node_at-delete f g m)

-- A live path of another node is not `path`.
other_path :
    (bound : ℕ) (m : Fsm) (path : Bytes) (f g : ℕ) (node k : FnodeState) (p : Bytes)
    → IsConsistent bound m
    → lookup f m.live_nodes ≡ some node
    → lookup path node.links ≡ some tt
    → f ≢ g
    → lookup g m.live_nodes ≡ some k
    → lookup p k.links ≡ some tt
    → lookup p (delete path m.links) ≡ some g
other_path bound m path f g node k p c h hp fg i j = ground (
  arith,
  c.indexed g k p i j,
  c.indexed f node path h hp,
  bytes_eq_iff path p,
  link_of-delete path p m.links,
)

detach-IsConsistent :
    (bound : ℕ) (m : Fsm) (path : Bytes) (f : ℕ) (node : FnodeState) (segments : List Segment)
    → lookup f m.live_nodes ≡ some node
    → lookup path node.links ≡ some tt
    → no_links (delete path node.links) ≡ false
    → IsConsistent bound m
    → IsConsistent bound (record m {
      live_nodes =
          insert f (record { links = delete path node.links; segments = segments }) m.live_nodes;
      links = delete path m.links;
    })
detach-IsConsistent bound m path f node segments h hp more c = record {
  linked = λ p g i.
      let (ne, j) = link_of-delete_inv path p g m.links i in
      let was = c.linked p g j in
      elim (Bool-cases (f == g)) [
        | inl q ↦ (
          rest,
          ground (arith, q, node_at f g rest m.live_nodes),
          ground (arith, q, h, was.1, was.2, ne, path_of-delete path p node.links),
        )
        | inr q ↦ (was.0, ground (arith, q, was.1, node_at f g rest m.live_nodes), was.2)
      ];
  indexed = λ g k p i j. elim (node_at-cases f g rest k m.live_nodes i) [
    | inl (e, n) ↦ ground (
      arith,
      e,
      ap (λ x. lookup p x.links) n ∙ j,
      path_of-delete path p node.links,
      c.indexed f node p h,
      link_of-delete path p m.links,
    )
    | inr (e, was) ↦ other_path bound m path f g node k p c h hp e was j
  ];
  apart = λ p g i. let (ne, j) = link_of-delete_inv path p g m.links i in c.apart p g j;
  held = λ g k i. elim (node_at-cases f g rest k m.live_nodes i) [
    | inl (e, n) ↦ sym (ap (λ x. no_links x.links) n) ∙ more
    | inr (e, was) ↦ c.held g k was
  ];
  below = λ g k i. elim (node_at-cases f g rest k m.live_nodes i) [
    | inl (e, n) ↦ ground (arith, e, c.below f node h)
    | inr (e, was) ↦ c.below g k was
  ];
}
  where
    rest : FnodeState
    rest = record { links = delete path node.links; segments = segments }

remove-IsConsistent :
    (bound : ℕ) (m : Fsm) (path : Bytes) (f : ℕ) (node : FnodeState)
    → lookup f m.live_nodes ≡ some node
    → lookup path node.links ≡ some tt
    → no_links (delete path node.links) ≡ true
    → IsConsistent bound m
    → IsConsistent bound
        (record m { live_nodes = delete f m.live_nodes; links = delete path m.links })
remove-IsConsistent bound m path f node h hp last c = record {
  linked = λ p g i.
      let (ne, j) = link_of-delete_inv path p g m.links i in
      let was = c.linked p g j in
      (
        was.0,
        ground (
          arith,
          h,
          last,
          ne,
          was.1,
          was.2,
          path_of-delete path p node.links,
          lookup-no_links p (delete path node.links),
          node_at-delete f g m.live_nodes,
        ),
        was.2,
      );
  indexed = λ g k p i j.
      let (e, was) = node_at-delete_inv f g k m.live_nodes i in
      other_path bound m path f g node k p c h hp e was j;
  apart = λ p g i. let (ne, j) = link_of-delete_inv path p g m.links i in c.apart p g j;
  held = λ g k i. let (e, was) = node_at-delete_inv f g k m.live_nodes i in c.held g k was;
  below = λ g k i. let (e, was) = node_at-delete_inv f g k m.live_nodes i in c.below g k was;
}

set-tt : (o : Option (Unit {0})) → is_set o ≡ true → o ≡ some tt
set-tt none h = cc
set-tt (some u) h = refl

pub apply_unlink-IsConsistent :
    (bound : ℕ) (m : Fsm) (fnode : ℕ) (path : Bytes) (op : RecordedOp)
    → IsConsistent bound m
    → IsConsistent bound (apply_unlink m fnode path op).0
unfolding apply_unlink
apply_unlink-IsConsistent bound m fnode path op c =
    elim (Option-cases (lookup fnode m.live_nodes)) [
      | inl h ↦ rw (apply_unlink, h) c
      | inr (node, h) ↦ elim (Bool-cases (is_set (lookup path node.links))) [
        | inr q ↦ rw (apply_unlink, h, q) c
        | inl q ↦ elim (Bool-cases (no_links (delete path node.links))) [
          | inl r ↦
              rw (apply_unlink, h, q, r)
                (remove-IsConsistent bound m path fnode node h (set-tt _ q) r c)
          | inr r ↦
              rw (apply_unlink, h, q, r)
                (detach-IsConsistent bound m path fnode node (extend_segments node.segments op) h
                  (set-tt _ q) r c)
        ]
      ]
    ]
