-- ===== src/RecoveryLog/Player/Nodes.antt =====
-- Which Fnodes are live after an operation of the machine (v2/pkg/recoverylog/fsm.go) that succeeds.
use gazette.Prelude.{
  ℕ, ◌≡◌, refl, sym, ap, ◌∙◌, Bool, true, false, none, some, List, [], ◌∷◌, arith, Bytes,
  if◌then◌else◌, ◌==◌, ltb, Bool-cases, Option-cases, inl, inr,
}
use gazette.Go.Map.{bytes_key, nat_key, lookup, insert, delete}
use gazette.RecoveryLog.Segment.{Segment}
use gazette.RecoveryLog.Fsm.{
  FnodeState, Fsm, RecordedOp, Outcome, is_set, no_links, differs, create_hinted, apply_create,
  apply_link, apply_unlink, apply_write, apply_property, pop_segment, step_next,
}
use gazette.RecoveryLog.Fsm.Invariant.{node_at, node_at-delete}

abbrev pub is_live : Fsm → ℕ → Bool
is_live m f = is_set (lookup f m.live_nodes)

-- `f` is live, and other Fnodes as before.
abbrev pub Adds : ℕ → Fsm → Outcome → Type 0
Adds f m (n, none) = (g : ℕ) → is_live n g ≡ (if f == g then true else is_live m g)
Adds f m (n, some e) = Unit

-- `f` was live before, and other Fnodes are as before.
abbrev pub Touches : ℕ → Fsm → Outcome → Type 0
Touches f m (n, none) =
    (is_live m f ≡ true) × ((g : ℕ) → (f == g) ≡ false → is_live n g ≡ is_live m g)
Touches f m (n, some e) = Unit

-- The live Fnodes are as before, `f` among them.
abbrev pub Keeps : ℕ → Fsm → Outcome → Type 0
Keeps f m (n, none) = (is_live m f ≡ true) × ((g : ℕ) → is_live n g ≡ is_live m g)
Keeps f m (n, some e) = Unit

abbrev pub KeepsAll : Fsm → Outcome → Type 0
KeepsAll m (n, none) = (g : ℕ) → is_live n g ≡ is_live m g
KeepsAll m (n, some e) = Unit

is_live-insert :
    (f g : ℕ) (node : FnodeState) (m : Fsm)
    → is_set (lookup g (insert f node m.live_nodes)) ≡ (if f == g then true else is_live m g)
is_live-insert f g node m = ground (arith, node_at f g node m.live_nodes)

is_live-rewrite :
    (f g : ℕ) (node : FnodeState) (m : Fsm)
    → is_live m f ≡ true
    → is_set (lookup g (insert f node m.live_nodes)) ≡ is_live m g
is_live-rewrite f g node m h = elim (Bool-cases (f == g)) [
  | inr q ↦ is_live-insert f g node m ∙ (rw q refl)
  | inl q ↦ is_live-insert f g node m ∙ (rw q (sym h ∙ ap (λ k. is_live m k) (ground (arith, q))))
]

create_hinted-Adds :
    (m : Fsm) (fs : List ℕ) (path : Bytes) (op : RecordedOp)
    → Adds op.seq_no m (create_hinted m fs path op)
create_hinted-Adds m [] path op = λ g. is_live-insert op.seq_no g _ m
create_hinted-Adds m (f ∷ fs) path op = elim (Bool-cases (f == op.seq_no)) [
  | inl q ↦ rw q (λ g. is_live-insert op.seq_no g _ m)
  | inr q ↦ rw q tt
]

pub apply_create-Adds :
    (m : Fsm) (path : Bytes) (op : RecordedOp) → Adds op.seq_no m (apply_create m path op)
unfolding apply_create
apply_create-Adds m path op = elim (Bool-cases (is_set (lookup path m.links))) [
  | inl q ↦ rw (apply_create, q) tt
  | inr q ↦ elim (Bool-cases (is_set (lookup path m.properties))) [
    | inl r ↦ rw (apply_create, q, r) tt
    | inr r ↦ rw (apply_create, q, r) (create_hinted-Adds m m.hinted_fnodes path op)
  ]
]

pub apply_link-Keeps :
    (m : Fsm) (f : ℕ) (path : Bytes) (op : RecordedOp) → Keeps f m (apply_link m f path op)
unfolding apply_link
apply_link-Keeps m f path op = elim (Bool-cases (is_set (lookup path m.links))) [
  | inl q ↦ rw (apply_link, q) tt
  | inr q ↦ elim (Bool-cases (is_set (lookup path m.properties))) [
    | inl r ↦ rw (apply_link, q, r) tt
    | inr r ↦ elim (Option-cases (lookup f m.live_nodes)) [
      | inl h ↦ rw (apply_link, q, r, h) tt
      | inr (node, h) ↦
          let live : is_live m f ≡ true = ap is_set h in
          rw (apply_link, q, r, h) (live, λ g. is_live-rewrite f g _ m live)
    ]
  ]
]

pub apply_write-Keeps : (m : Fsm) (f : ℕ) (op : RecordedOp) → Keeps f m (apply_write m f op)
unfolding apply_write
apply_write-Keeps m f op = elim (Option-cases (lookup f m.live_nodes)) [
  | inl h ↦ rw (apply_write, h) tt
  | inr (node, h) ↦
      let live : is_live m f ≡ true = ap is_set h in
      rw (apply_write, h) (live, λ g. is_live-rewrite f g _ m live)
]

unlinked-same :
    (m : Fsm) (f g : ℕ) (node : FnodeState) (last : Bool)
    → (f == g) ≡ false
    → is_set (lookup g (if last then delete f m.live_nodes else insert f node m.live_nodes))
      ≡ is_live m g
unlinked-same m f g node true q = ap is_set (node_at-delete f g m.live_nodes) ∙ (rw q refl)
unlinked-same m f g node false q = is_live-insert f g node m ∙ (rw q refl)

pub apply_unlink-Touches :
    (m : Fsm) (f : ℕ) (path : Bytes) (op : RecordedOp) → Touches f m (apply_unlink m f path op)
unfolding apply_unlink
apply_unlink-Touches m f path op = elim (Option-cases (lookup f m.live_nodes)) [
  | inl h ↦ rw (apply_unlink, h) tt
  | inr (node, h) ↦ elim (Bool-cases (is_set (lookup path node.links))) [
    | inr q ↦ rw (apply_unlink, h, q) tt
    | inl q ↦
        rw (apply_unlink, h, q)
          (ap is_set h, λ g e. unlinked-same m f g _ (no_links (delete path node.links)) e)
  ]
]

pub apply_property-KeepsAll :
    (m : Fsm) (path content : Bytes) → KeepsAll m (apply_property m path content)
unfolding apply_property
apply_property-KeepsAll m path content = elim (Bool-cases (is_set (lookup path m.links))) [
  | inl q ↦ rw (apply_property, q) tt
  | inr q ↦ elim (Bool-cases (differs (lookup path m.properties) content)) [
    | inl r ↦ rw (apply_property, q, r) tt
    | inr r ↦ rw (apply_property, q, r) (λ g. refl)
  ]
]

pop_segment-live : (m : Fsm) (ss : List Segment) → (pop_segment m ss).live_nodes ≡ m.live_nodes
unfolding pop_segment
pop_segment-live m [] = refl
pop_segment-live m (s ∷ []) = elim (Bool-cases (ltb s.last_seq_no m.next_seq_no)) [
  | inl q ↦ rw q refl
  | inr q ↦ rw q refl
]
pop_segment-live m (s ∷ t ∷ ts) = elim (Bool-cases (ltb s.last_seq_no m.next_seq_no)) [
  | inl q ↦ rw q refl
  | inr q ↦ rw q refl
]

pub step_next-live :
    (crc_update : ℕ → Bytes → ℕ) (m : Fsm) (frame : Bytes)
    → (step_next crc_update m frame).live_nodes ≡ m.live_nodes
unfolding step_next
step_next-live crc_update m frame = pop_segment-live _ m.hinted_segments
