-- ===== src/RecoveryLog/Fsm/Steps.antt =====
-- Each operation of the machine (v2/pkg/recoverylog/fsm.go) keeps its maps in agreement.
use gazette.Prelude.{
  ℕ, suc, ◌≤◌, ◌≡◌, sym, ap, ◌∙◌, none, some, List, [], ◌∷◌, arith, Bytes, bytes_eq_iff, ◌==◌,
  Bool-cases, Option-cases, inl, inr,
}
use gazette.Go.Map.{nat_key, bytes_key, lookup, insert, lookup-insert}
use gazette.RecoveryLog.Segment.{Segment}
use gazette.RecoveryLog.Fsm.{
  FnodeState, Fsm, RecordedOp, extend_segments, is_set, add_node, create_hinted, apply_create,
  apply_link, no_links, apply_write, differs, apply_property,
}
use gazette.RecoveryLog.Fsm.Invariant.{
  IsConsistent, attach-IsConsistent, is_set-none, node_at-cases, node_at,
}

-- A later bound, with other hints.
pub raise-IsConsistent :
    (bound top : ℕ) (m : Fsm) (fs : List ℕ)
    → bound ≤ top
    → IsConsistent bound m
    → IsConsistent top (record m { hinted_fnodes = fs })
raise-IsConsistent bound top m fs b c = record {
  linked = c.linked;
  indexed = c.indexed;
  apart = c.apart;
  held = c.held;
  below = λ f node h. ground (arith, c.below f node h);
}

add_node-IsConsistent :
    (m : Fsm) (path : Bytes) (op : RecordedOp)
    → lookup path m.links ≡ none
    → lookup path m.properties ≡ none
    → IsConsistent op.seq_no m
    → IsConsistent (suc op.seq_no) (add_node m path op)
unfolding lookup
add_node-IsConsistent m path op fl fp c =
    attach-IsConsistent op.seq_no (suc op.seq_no) m path op.seq_no [] (extend_segments [] op) fl fp
      (omega arith) (omega arith) (λ p h. cc)
      (λ p h. let n = c.linked p op.seq_no h in ground (arith, c.below op.seq_no n.0 n.1)) c

create_hinted-IsConsistent :
    (m : Fsm) (fs : List ℕ) (path : Bytes) (op : RecordedOp)
    → lookup path m.links ≡ none
    → lookup path m.properties ≡ none
    → IsConsistent op.seq_no m
    → IsConsistent (suc op.seq_no) (create_hinted m fs path op).0
create_hinted-IsConsistent m [] path op fl fp c = add_node-IsConsistent m path op fl fp c
create_hinted-IsConsistent m (f ∷ fs) path op fl fp c = elim (Bool-cases (f == op.seq_no)) [
  | inl q ↦ rw q (
      add_node-IsConsistent (record m { hinted_fnodes = fs }) path op fl fp
        (raise-IsConsistent op.seq_no op.seq_no m fs (omega arith) c))
  | inr q ↦ rw q (raise-IsConsistent op.seq_no (suc op.seq_no) m m.hinted_fnodes (omega arith) c)
]

pub apply_create-IsConsistent :
    (m : Fsm) (path : Bytes) (op : RecordedOp)
    → IsConsistent op.seq_no m
    → IsConsistent (suc op.seq_no) (apply_create m path op).0
unfolding apply_create
apply_create-IsConsistent m path op c = elim (Bool-cases (is_set (lookup path m.links))) [
  | inl q ↦ rw q kept
  | inr q ↦ elim (Bool-cases (is_set (lookup path m.properties))) [
    | inl r ↦ rw (q, r) kept
    | inr r ↦
        rw (q, r)
          (create_hinted-IsConsistent m m.hinted_fnodes path op (is_set-none _ q) (is_set-none _ r)
            c)
  ]
]
  where
    kept : IsConsistent (suc op.seq_no) m
    kept = raise-IsConsistent op.seq_no (suc op.seq_no) m m.hinted_fnodes (omega arith) c

pub apply_link-IsConsistent :
    (bound : ℕ) (m : Fsm) (fnode : ℕ) (path : Bytes) (op : RecordedOp)
    → IsConsistent bound m
    → IsConsistent bound (apply_link m fnode path op).0
unfolding apply_link
apply_link-IsConsistent bound m fnode path op c = elim (Bool-cases (is_set (lookup path m.links))) [
  | inl q ↦ rw q c
  | inr q ↦ elim (Bool-cases (is_set (lookup path m.properties))) [
    | inl r ↦ rw (q, r) c
    | inr r ↦ elim (Option-cases (lookup fnode m.live_nodes)) [
      | inl h ↦ rw (q, r, h) c
      | inr (node, h) ↦
          rw (q, r, h)
            (attach-IsConsistent bound bound m path fnode node.links
              (extend_segments node.segments op) (is_set-none _ q) (is_set-none _ r) (omega arith)
              (c.below fnode node h) (λ p k. c.indexed fnode node p h k)
              (λ p k. let n = c.linked p fnode k in ground (arith, n.1, n.2, h)) c)
    ]
  ]
]

-- A node rewritten with the links it has.
rewrite-IsConsistent :
    (bound : ℕ) (m : Fsm) (fnode : ℕ) (node : FnodeState) (segments : List Segment)
    → lookup fnode m.live_nodes ≡ some node
    → IsConsistent bound m
    → IsConsistent bound
        (record m { live_nodes = insert fnode (record node { segments = segments }) m.live_nodes })
rewrite-IsConsistent bound m fnode node segments h c = record {
  linked = λ p f k.
      let was = c.linked p f k in
      elim (Bool-cases (fnode == f)) [
        | inl q ↦ (
          record node { segments = segments },
          ground (arith, q, node_at fnode f (record node { segments = segments }) m.live_nodes),
          ground (arith, q, h, was.1, was.2),
        )
        | inr q ↦ (
          was.0,
          ground
              (arith, q, was.1, node_at fnode f (record node { segments = segments }) m.live_nodes),
          was.2,
        )
      ];
  indexed = λ f k p i j.
      elim (node_at-cases fnode f (record node { segments = segments }) k m.live_nodes i) [
        | inl (e, n) ↦
            ground (arith, e, c.indexed fnode node p h (ap (λ x. lookup p x.links) n ∙ j))
        | inr (e, was) ↦ c.indexed f k p was j
      ];
  apart = c.apart;
  held = λ f k i.
      elim (node_at-cases fnode f (record node { segments = segments }) k m.live_nodes i) [
        | inl (e, n) ↦ sym (ap (λ x. no_links x.links) n) ∙ c.held fnode node h
        | inr (e, was) ↦ c.held f k was
      ];
  below = λ f k i.
      elim (node_at-cases fnode f (record node { segments = segments }) k m.live_nodes i) [
        | inl (e, n) ↦ ground (arith, e, c.below fnode node h)
        | inr (e, was) ↦ c.below f k was
      ];
}

pub apply_write-IsConsistent :
    (bound : ℕ) (m : Fsm) (fnode : ℕ) (op : RecordedOp)
    → IsConsistent bound m
    → IsConsistent bound (apply_write m fnode op).0
unfolding apply_write
apply_write-IsConsistent bound m fnode op c = elim (Option-cases (lookup fnode m.live_nodes)) [
  | inl h ↦ rw (apply_write, h) c
  | inr (node, h) ↦
      rw (apply_write, h)
        (rewrite-IsConsistent bound m fnode node (extend_segments node.segments op) h c)
]

pub apply_property-IsConsistent :
    (bound : ℕ) (m : Fsm) (path content : Bytes)
    → IsConsistent bound m
    → IsConsistent bound (apply_property m path content).0
unfolding apply_property
apply_property-IsConsistent bound m path content c =
    elim (Bool-cases (is_set (lookup path m.links))) [
      | inl q ↦ rw q c
      | inr q ↦ elim (Bool-cases (differs (lookup path m.properties) content)) [
        | inl r ↦ rw (q, r) c
        | inr r ↦
            rw (q, r)
              (record {
                linked = c.linked;
                indexed = c.indexed;
                held = c.held;
                below = c.below;
                apart = λ p f h. ground (
                  arith,
                  h,
                  is_set-none _ q,
                  c.apart p f h,
                  bytes_eq_iff path p,
                  lookup-insert path p content m.properties,
                );
              })
      ]
    ]
