-- ===== src/RecoveryLog/Recorder/Calls.antt =====
-- The calls of a recorder (v2/pkg/recoverylog/recorder.go) against the file system they record.
use gazette.Prelude.{
  ℕ, suc, ◌+◌, ◌≤◌, ◌<◌, ◌≡◌, refl, sym, ap, ◌∙◌, true, false, Option, none, some, ◌++◌, arith,
  Bytes, bytes_eq, bytes_eq_iff, Bool-cases, Option-cases, inl, inr, length,
}
use gazette.Go.Map.{bytes_key, nat_key, lookup}
use gazette.Message.FixedFraming.{Marshaler}
use gazette.RecoveryLog.Fsm.{RecordedOp, differs}
use gazette.RecoveryLog.Recorder.{
  is_property_path, Recorder, returned, Session, Append, normalize_path, FileRecorder, frame_append,
  zero_or, record_create, record_remove, record_link, record_rename, record_write,
}
use gazette.RecoveryLog.Recorder.Stepping.{Returns, returns, Returns-bind, Marshals}
use gazette.RecoveryLog.Recorder.Operations.{Shows, unlinked, linked_at}
use gazette.RecoveryLog.Recorder.Moves.{
  IsReady, SessionShows, after_unlink, renamed, with_content, Shows-as, finds, begin-Shows,
  release-Shows, unlink-moves, clear-moves, link-moves, create-moves, write-moves, property-moves,
}

module _ (n : ℕ) (d : Bytes → Option ℕ) (h : Bytes → Option Bytes) where
  -- What RecordCreate returns for a path.
  abbrev pub Created : Bytes → Session × FileRecorder → Type 0
  Created path (t, file) =
      SessionShows (suc (after_unlink n (d path))) (linked_at path file.fnode d) h t
      × (file.offset ≡ 0)
      × ((p : Bytes) (f : ℕ) → d p ≡ some f → f < file.fnode)

  -- The data follows the operation, and the next write goes after it.
  abbrev pub Written : FileRecorder → Bytes → Session × FileRecorder → Type 0
  Written file content (t, next) =
      SessionShows (suc n) d h t
      × (next ≡ record file { offset = file.offset + length content })
      × ((frame : Bytes) × (t.written ≡ frame ++ content))

module _ (crc_update : ℕ → Bytes → ℕ) (marshaler : RecordedOp → Option Marshaler)
    (clean : Bytes → Bytes) (marshals : Marshals marshaler) {n : ℕ} {d : Bytes → Option ℕ}
    {h : Bytes → Option Bytes} (r : Recorder) (a : Append) (shows : Shows n d h r.fsm)
    (ready : IsReady r a) where
  after_unlink-le : (k : ℕ) (o : Option ℕ) → k ≤ after_unlink k o
  after_unlink-le k none = omega arith
  after_unlink-le k (some f) = omega arith

  below : (p : Bytes) (f : ℕ) → d p ≡ some f → f < n
  below p f e =
      let c = shows.recording.playable.consistent in
      let (node, live, at) = c.linked p f (shows.linked p ∙ e) in
      omega (arith, c.below f node live, shows.counted)

  no_file : (p : Bytes) → is_property_path p ≡ true → d p ≡ none
  no_file p e = elim (Option-cases (d p)) [
    | inl q ↦ q
    | inr (f, q) ↦ absurd (ground (arith, e, shows.recording.files p f (shows.linked p ∙ q)))
  ]

  pub record_remove-Shows :
      (fpath path : Bytes) (f : ℕ)
      → normalize_path clean r fpath ≡ returned path
      → is_property_path path ≡ false
      → d path ≡ some f
      → Returns
          (SessionShows (suc n) (unlinked path d) h)
          (record_remove crc_update marshaler clean r a fpath)
  unfolding record_remove
  record_remove-Shows fpath path f e file at =
      rw (e, file)
        (Returns-bind (begin-Shows r a shows ready) λ s p. rw (finds s p path f at) (
          Returns-bind (unlink-moves crc_update marshaler marshals s p f path at)
            λ t q. release-Shows a t ready.released q))

  pub record_link-Shows :
      (src_path target_path src target : Bytes) (f : ℕ)
      → normalize_path clean r src_path ≡ returned src
      → normalize_path clean r target_path ≡ returned target
      → is_property_path target ≡ false
      → d src ≡ some f
      → d target ≡ none
      → Returns
          (SessionShows (suc n) (linked_at target f d) h)
          (record_link crc_update marshaler clean r a src_path target_path)
  unfolding record_link
  record_link-Shows src_path target_path src target f e g file at free =
      rw (e, g, file)
        (Returns-bind (begin-Shows r a shows ready) λ s p. rw (finds s p src f at) (
          Returns-bind (link-moves crc_update marshaler marshals s p f target src file free at)
            λ t q. release-Shows a t ready.released q))

  -- The recorder's machine is playable and plays no hints of segments or Fnodes, no property file is
  -- linked, and only property files have a property; `d` is the Fnode it links at each path and `h`
  -- the content of each property. Every operation can be marshaled, the client's
  -- recent transaction, if it has committed, does not end before the write head, and the one of the
  -- call is released. Then, if the path is no property
  -- file, RecordCreate returns: it unlinks what was at the path, links a new Fnode greater than all
  -- those linked before, leaves all other links and the properties as they were, opens the file at
  -- offset 0, and keeps these conditions of the machine.
  pub record_create-Created :
      (fpath path : Bytes)
      → normalize_path clean r fpath ≡ returned path
      → is_property_path path ≡ false
      → Returns (Created n d h path) (record_create crc_update marshaler clean r a fpath)
  unfolding record_create
  record_create-Created fpath path e file =
      let k = after_unlink n (d path) in
      let self : linked_at path k (unlinked path d) path ≡ some k =
        ground (arith, bytes_eq_iff path path) in
      rw (e, file)
        (Returns-bind (begin-Shows r a shows ready) λ s p.
          Returns-bind (clear-moves crc_update marshaler marshals s p path) λ t q.
            Returns-bind
              (create-moves crc_update marshaler marshals t q path file
                (ground (arith, bytes_eq_iff path path)))
              λ u v. Returns-bind (release-Shows a u ready.released v) λ done w.
                let opened : zero_or (lookup path u.recorder.fsm.links) ≡ k =
                  ap zero_or (v.linked path ∙ self) in
                returns (
                  Shows-as w refl
                      (λ p.
                        ground (arith, bytes_eq_iff path p)
                        ∙ ap (λ f. linked_at path f d p) (sym opened))
                      (λ p. refl),
                  refl,
                  λ p f g. omega (arith, below p f g, after_unlink-le n (d path), opened),
                ))

  -- The recorder's machine is playable and plays no hints of segments or Fnodes, no property file is
  -- linked, and only property files have a property; `d` is the Fnode it links at each path and `h`
  -- the content of each property. Every operation can be marshaled, the client's
  -- recent transaction, if it has committed, does not end before the write head, and the one of the
  -- call is released. Then, if `src` is linked and
  -- differs from `target`, and `target` is no property file, RecordRename returns, keeps these
  -- conditions of the machine, and the machine shows the file system after the rename: the Fnode of
  -- `src` is linked at `target` in place of what was there, `src` is not linked, and all other links
  -- and the properties are as before.
  pub record_rename-Shows :
      (src_path target_path src target : Bytes) (f : ℕ) (content : Option Bytes)
      → normalize_path clean r src_path ≡ returned src
      → normalize_path clean r target_path ≡ returned target
      → is_property_path target ≡ false
      → bytes_eq src target ≡ false
      → d src ≡ some f
      → Returns
          (SessionShows (suc (suc (after_unlink n (d target)))) (renamed src target f d) h)
          (record_rename crc_update marshaler clean r a src_path target_path content)
  unfolding record_rename
  record_rename-Shows src_path target_path src target f content e g file apart at =
      let kept : unlinked target d src ≡ some f =
        ground (arith, bytes_eq_iff src target, bytes_eq_iff target src) in
      let linked : linked_at target f (unlinked target d) src ≡ some f = ground arith in
      rw (e, g)
        (Returns-bind (begin-Shows r a shows ready) λ s p. rw (finds s p src f at) (
          Returns-bind (clear-moves crc_update marshaler marshals s p target) λ t q. rw file (
            Returns-bind
              (link-moves crc_update marshaler marshals t q f target src file
                (ground (arith, bytes_eq_iff target target)) kept)
              λ u v.
                Returns-bind (unlink-moves crc_update marshaler marshals u v f src linked) λ w x.
                  release-Shows a w ready.released (
                    Shows-as x refl (λ p. ground (arith, bytes_eq_iff src p, bytes_eq_iff target p))
                      (λ p. refl)))))

  -- Under the conditions of a rename, one to a property file returns if the property has no content
  -- yet or the content read: the property gets that content, the file is unlinked from `src`, and
  -- all other links and properties are as before.
  pub record_rename-property :
      (src_path target_path src target content : Bytes) (f : ℕ)
      → normalize_path clean r src_path ≡ returned src
      → normalize_path clean r target_path ≡ returned target
      → is_property_path target ≡ true
      → differs (h target) content ≡ false
      → d src ≡ some f
      → Returns
          (SessionShows (suc (suc n)) (unlinked src d) (with_content target content h))
          (record_rename crc_update marshaler clean r a src_path target_path (some content))
  unfolding record_rename
  record_rename-property src_path target_path src target content f e g prop same at =
      rw (e, g)
        (Returns-bind (begin-Shows r a shows ready) λ s p. rw (finds s p src f at) (
          Returns-bind (clear-moves crc_update marshaler marshals s p target) λ t q. rw prop (
            Returns-bind (property-moves crc_update marshaler marshals t q target content prop same)
              λ u v. Returns-bind (unlink-moves crc_update marshaler marshals u v f src kept) λ w x.
                release-Shows a w ready.released (
                  Shows-as x (ap (λ o. suc (suc (after_unlink n o))) free)
                    (λ p. ground (arith, free, bytes_eq_iff target p)) (λ p. refl)))))
    where
      free : d target ≡ none
      free = no_file target prop

      kept : unlinked target d src ≡ some f
      kept = elim (Bool-cases (bytes_eq target src)) [
        | inr q ↦ rw q at
        | inl q ↦ absurd (ground (arith, free, at, ap d ((bytes_eq_iff target src).0 q)))
      ]

  pub record_write-Written :
      (file : FileRecorder) (path content : Bytes)
      → d path ≡ some file.fnode
      → Returns (Written n d h file content) (record_write crc_update marshaler r a file content)
  unfolding record_write
  record_write-Written file path content at =
      Returns-bind (begin-Shows r a shows ready)
        λ s p. Returns-bind (appended s p) λ x y. rw ready.released (returns y)
    where
      appended :
          (s : Session)
          → SessionShows n d h s
          → Returns (Written n d h file content) (frame_append crc_update marshaler s file content)
      appended s p =
          Returns-bind
            (write-moves crc_update marshaler marshals s p file.fnode file.offset (length content)
              path at)
            λ u v. returns (v, refl, (u.written, refl))
