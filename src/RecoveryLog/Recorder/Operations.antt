-- ===== src/RecoveryLog/Recorder/Operations.antt =====
-- Each kind of operation that the recorder processes (v2/pkg/recoverylog/recorder.go): when it is
-- applied, and what the machine shows of the file system then.
use mathlib.Core.Path.{subst}
use gazette.Prelude.{
  ℕ, suc, ◌≡◌, refl, sym, ap, ◌∙◌, true, false, Option, none, some, arith, Bytes, bytes_eq,
  bytes_eq_iff, if◌then◌else◌, Bool-cases, Option-cases, inl, inr,
}
use gazette.Go.Map.{Map, bytes_key, nat_key, lookup, insert, delete, lookup-insert}
use gazette.Message.FixedFraming.{Marshaler}
use gazette.RecoveryLog.Fsm.{Fsm, RecordedOp, apply_op, differs}
use gazette.RecoveryLog.Fsm.Invariant.{link_of, link_of-delete}
use gazette.RecoveryLog.Fsm.Kept.{apply_op-IsKept}
use gazette.RecoveryLog.Recorder.{
  is_property_path, Session, new_create_op, new_link_op, new_unlink_op, new_write_op,
  new_property_op, process,
}
use gazette.RecoveryLog.Recorder.Stepping.{
  Returns, IsRecording, Marshals, given, process-Returns, after-IsRecording,
}
use gazette.RecoveryLog.Recorder.Turning.{
  Turns, unlink-case, link-case, write-case, property-case, apply_unlink-Turns, apply_link-Turns,
  apply_create-Turns, apply_write-Turns, apply_property-Turns, turned-same,
}

-- The file system that a machine shows: the Fnode linked at each path, and the content of properties.
pub record Shows (n : ℕ) (dir : Bytes → Option ℕ) (held : Bytes → Option Bytes) (m : Fsm)
    : Type 0 where
  pub recording : IsRecording m
  pub linked : (p : Bytes) → lookup p m.links ≡ dir p
  pub holds : (p : Bytes) → lookup p m.properties ≡ held p
  pub counted : m.next_seq_no ≡ n

abbrev pub unlinked : Bytes → (Bytes → Option ℕ) → Bytes → Option ℕ
unlinked path dir p = if bytes_eq path p then none else dir p

abbrev pub linked_at : Bytes → ℕ → (Bytes → Option ℕ) → Bytes → Option ℕ
linked_at path f dir p = if bytes_eq path p then some f else dir p

-- A new property is one of a property path.
properties_kept :
    (m : Map Bytes Bytes) (path content : Bytes)
    → is_property_path path ≡ true
    → ((p c : Bytes) → lookup p m ≡ some c → is_property_path p ≡ true)
    → (p c : Bytes) → lookup p (insert path content m) ≡ some c
    → is_property_path p ≡ true
properties_kept m path content h all p c e = elim (Bool-cases (bytes_eq path p)) [
  | inl q ↦ subst (λ x. is_property_path x ≡ true) ((bytes_eq_iff path p).0 q) h
  | inr q ↦ all p c (ground (arith, lookup-insert path p content m))
]

module _ (crc_update : ℕ → Bytes → ℕ) (marshaler : RecordedOp → Option Marshaler)
    (marshals : Marshals marshaler) (s : Session) (rec : IsRecording s.recorder.fsm) where
  abbrev held : Bytes → Option Bytes
  held p = lookup p s.recorder.fsm.properties

  abbrev dir : Bytes → Option ℕ
  dir p = lookup p s.recorder.fsm.links

  abbrev ReturnsShown : (Bytes → Option ℕ) → (Bytes → Option Bytes) → RecordedOp → Type 0
  ReturnsShown d h op =
      Returns (λ t. Shows (suc s.recorder.fsm.next_seq_no) d h t.recorder.fsm)
        (process crc_update marshaler s op)

  process-Shows :
      (links : Map Bytes ℕ) (properties : Map Bytes Bytes) (op : RecordedOp) (d : Bytes → Option ℕ)
      (h : Bytes → Option Bytes)
      → Turns s.recorder.fsm links properties
          (apply_op s.recorder.fsm (given crc_update marshaler s op))
      → ((p : Bytes) → lookup p links ≡ d p)
      → ((p : Bytes) → lookup p properties ≡ h p)
      → ((p : Bytes) (f : ℕ) → lookup p links ≡ some f → is_property_path p ≡ false)
      → ((p c : Bytes) → lookup p properties ≡ some c → is_property_path p ≡ true)
      → ReturnsShown d h op
  process-Shows links properties op d h t e g files props =
      let r = apply_op s.recorder.fsm (given crc_update marshaler s op) in
      let eq : r ≡ (r.0, none) = ap (λ x. (r.0, x)) t.passes in
      process-Returns crc_update marshaler s op r.0 marshals rec.no_segments eq λ frame. record {
        recording =
            after-IsRecording crc_update marshaler s op r.0 frame rec eq t.same_fnodes
              (λ p f q. files p f (sym (ap (λ l. lookup p l) t.links_are) ∙ q))
              (λ p c q. props p c (sym (ap (λ l. lookup p l) t.properties_are) ∙ q));
        linked = λ p. ap (λ l. lookup p l) t.links_are ∙ e p;
        holds = λ p. ap (λ l. lookup p l) t.properties_are ∙ g p;
        counted =
            ap suc (apply_op-IsKept s.recorder.fsm (given crc_update marshaler s op)).same_seq_no;
      }

  pub unlink-Shows :
      (f : ℕ) (path : Bytes)
      → lookup path s.recorder.fsm.links ≡ some f
      → ReturnsShown (unlinked path dir) held (new_unlink_op f path)
  unlink-Shows f path h =
      let m = s.recorder.fsm in
      let op = given crc_update marshaler s (new_unlink_op f path) in
      let (node, live, at) = rec.playable.consistent.linked path f h in
      process-Shows (delete path m.links) m.properties (new_unlink_op f path) (unlinked path dir)
        held
        (turned-same _ _ (unlink-case m op rec.no_fnodes f path)
          (apply_unlink-Turns m f path op node live at))
        (λ p. link_of-delete path p m.links) (λ p. refl)
        (λ p g q. rec.files p g (ground (arith, link_of-delete path p m.links))) rec.properties_held

  -- A path without a property file has no property.
  no_property :
      (path : Bytes) → is_property_path path ≡ false → lookup path s.recorder.fsm.properties ≡ none
  no_property path h = elim (Option-cases (lookup path s.recorder.fsm.properties)) [
    | inl q ↦ q
    | inr (c, q) ↦ absurd (ground (arith, h, rec.properties_held path c q))
  ]

  -- A new link off the property files.
  files_kept :
      (path : Bytes) (f : ℕ)
      → is_property_path path ≡ false
      → (p : Bytes) (g : ℕ) → lookup p (insert path f s.recorder.fsm.links) ≡ some g
      → is_property_path p ≡ false
  files_kept path f h p g e = elim (Bool-cases (bytes_eq path p)) [
    | inl q ↦ subst (λ x. is_property_path x ≡ false) ((bytes_eq_iff path p).0 q) h
    | inr q ↦ rec.files p g (ground (arith, link_of path p f s.recorder.fsm.links))
  ]

  pub link-Shows :
      (f : ℕ) (path src : Bytes)
      → is_property_path path ≡ false
      → lookup path s.recorder.fsm.links ≡ none
      → lookup src s.recorder.fsm.links ≡ some f
      → ReturnsShown (linked_at path f dir) held (new_link_op f path)
  link-Shows f path src file fresh h =
      let m = s.recorder.fsm in
      let op = given crc_update marshaler s (new_link_op f path) in
      let (node, live, at) = rec.playable.consistent.linked src f h in
      process-Shows (insert path f m.links) m.properties (new_link_op f path) (linked_at path f dir)
        held
        (turned-same _ _ (link-case m op rec.no_fnodes f path)
          (apply_link-Turns m f path op node fresh (no_property path file) live))
        (λ p. link_of path p f m.links) (λ p. refl) (files_kept path f file) rec.properties_held

  pub create-Shows :
      (path : Bytes)
      → is_property_path path ≡ false
      → lookup path s.recorder.fsm.links ≡ none
      → ReturnsShown (linked_at path s.recorder.fsm.next_seq_no dir) held (new_create_op path)
  unfolding apply_op
  create-Shows path file fresh =
      let m = s.recorder.fsm in
      let op = given crc_update marshaler s (new_create_op path) in
      process-Shows (insert path m.next_seq_no m.links) m.properties (new_create_op path)
        (linked_at path m.next_seq_no dir) held
        (apply_create-Turns m path op rec.no_fnodes fresh (no_property path file))
        (λ p. link_of path p m.next_seq_no m.links) (λ p. refl) (files_kept path m.next_seq_no file)
        rec.properties_held

  pub write-Shows :
      (f offset size : ℕ) (path : Bytes)
      → lookup path s.recorder.fsm.links ≡ some f
      → ReturnsShown dir held (new_write_op f offset size)
  write-Shows f offset size path h =
      let m = s.recorder.fsm in
      let op = given crc_update marshaler s (new_write_op f offset size) in
      let (node, live, at) = rec.playable.consistent.linked path f h in
      process-Shows m.links m.properties (new_write_op f offset size) dir held
        (turned-same _ _ (write-case m op rec.no_fnodes f offset size)
          (apply_write-Turns m f op node live))
        (λ p. refl) (λ p. refl) rec.files rec.properties_held

  abbrev pub held_at : Bytes → Bytes → Bytes → Option Bytes
  held_at path content p = if bytes_eq path p then some content else held p

  pub property-Shows :
      (path content : Bytes)
      → is_property_path path ≡ true
      → differs (lookup path s.recorder.fsm.properties) content ≡ false
      → ReturnsShown dir (held_at path content) (new_property_op path content)
  property-Shows path content at same =
      let m = s.recorder.fsm in
      let op = given crc_update marshaler s (new_property_op path content) in
      process-Shows m.links (insert path content m.properties) (new_property_op path content) dir
        (held_at path content)
        (turned-same _ _ (property-case m op rec.no_fnodes path content)
          (apply_property-Turns m path content no_file same))
        (λ p. refl) (λ p. lookup-insert path p content m.properties) rec.files
        (properties_kept m.properties path content at rec.properties_held)
    where
      no_file : lookup path s.recorder.fsm.links ≡ none
      no_file = elim (Option-cases (lookup path s.recorder.fsm.links)) [
        | inl q ↦ q
        | inr (f, q) ↦ absurd (ground (arith, at, rec.files path f q))
      ]
