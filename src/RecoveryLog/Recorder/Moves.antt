-- ===== src/RecoveryLog/Recorder/Moves.antt =====
-- The steps of a recorder's calls (v2/pkg/recoverylog/recorder.go) against the file system shown.
use gazette.Prelude.{
  ℕ, suc, ◌≤◌, ◌≡◌, refl, ap, ◌∙◌, true, false, Option, none, some, arith, ltb, Bytes, bytes_eq,
  bytes_eq_iff, if◌then◌else◌, Option-cases, inl, inr,
}
use gazette.Go.Map.{bytes_key, nat_key, lookup}
use gazette.Message.FixedFraming.{Marshaler}
use gazette.RecoveryLog.Fsm.{Fsm, RecordedOp, differs}
use gazette.RecoveryLog.Recorder.{
  is_property_path, Recorder, Run, returned, Session, Append, TxnStatus, pending, aborted,
  committed, observe_recent, lock_and_begin_txn, unlock_and_release_txn, recent_of, fnode_of,
  unlink_previous, process, new_create_op, new_link_op, new_unlink_op, new_property_op,
  new_write_op,
}
use gazette.RecoveryLog.Recorder.Stepping.{Returns, returns, Marshals}
use gazette.RecoveryLog.Recorder.Operations.{
  Shows, unlinked, linked_at, unlink-Shows, link-Shows, create-Shows, write-Shows, property-Shows,
}

-- A committed transaction does not end below what has been seen before.
abbrev pub NotBelow : ℕ → TxnStatus → Type 0
NotBelow head pending = Unit
NotBelow head aborted = Unit
NotBelow head (committed end) = head ≤ end

-- The client does its part in a call.
pub record IsReady (r : Recorder) (a : Append) : Type 0 where
  pub in_order : NotBelow r.write_head (a.status (recent_of r.recent_txn a.txn))
  pub released : a.releases ≡ true

abbrev pub SessionShows : ℕ → (Bytes → Option ℕ) → (Bytes → Option Bytes) → Session → Type 0
SessionShows n d h s = Shows n d h s.recorder.fsm

-- The sequence number after unlinking what may be there.
abbrev pub after_unlink : ℕ → Option ℕ → ℕ
after_unlink n none = n
after_unlink n (some f) = suc n

-- `src` moved to `target`.
abbrev pub renamed : Bytes → Bytes → ℕ → (Bytes → Option ℕ) → Bytes → Option ℕ
renamed src target f d p = unlinked src (linked_at target f d) p

abbrev pub with_content : Bytes → Bytes → (Bytes → Option Bytes) → Bytes → Option Bytes
with_content path content h p = if bytes_eq path p then some content else h p

Returns-map {a p q} :
    {A : Type a} {P : A → Type p} {Q : A → Type q} {run : Run A}
    → Returns P run
    → ((result : A) → P result → Q result)
    → Returns Q run
Returns-map (returns holds) weaker = returns (weaker _ holds)

module _ {n : ℕ} {d : Bytes → Option ℕ} {h : Bytes → Option Bytes} where
  pub Shows-as :
      {k : ℕ} {e : Bytes → Option ℕ} {g : Bytes → Option Bytes} {m : Fsm}
      → Shows n d h m
      → n ≡ k
      → ((p : Bytes) → d p ≡ e p)
      → ((p : Bytes) → h p ≡ g p)
      → Shows k e g m
  Shows-as s a b c = record {
    recording = s.recording;
    linked = λ p. s.linked p ∙ b p;
    holds = λ p. s.holds p ∙ c p;
    counted = s.counted ∙ a;
  }

  observe_recent-Shows :
      (r : Recorder) (recent txn : ℕ) (st : TxnStatus)
      → Shows n d h r.fsm
      → NotBelow r.write_head st
      → Returns (SessionShows n d h) (observe_recent r recent txn st)
  unfolding observe_recent
  observe_recent-Shows r recent txn pending s b = returns s
  observe_recent-Shows r recent txn aborted s b = returns s
  observe_recent-Shows r recent txn (committed end) s b =
      let q : ltb end r.write_head ≡ false = ground (arith, b) in rw q (returns s)

  pub finds :
      (s : Session)
      → Shows n d h s.recorder.fsm
      → (path : Bytes) (f : ℕ) → d path ≡ some f
      → fnode_of s path ≡ returned f
  finds s shows path f e = rw (fnode_of, shows.linked path ∙ e) refl

  pub begin-Shows :
      (r : Recorder) (a : Append)
      → Shows n d h r.fsm
      → IsReady r a
      → Returns (SessionShows n d h) (lock_and_begin_txn r a)
  begin-Shows r a s ready =
      let recent = recent_of r.recent_txn a.txn in
      observe_recent-Shows r recent a.txn (a.status recent) s ready.in_order

  pub release-Shows :
      (a : Append) (s : Session)
      → a.releases ≡ true
      → Shows n d h s.recorder.fsm
      → Returns (SessionShows n d h) (unlock_and_release_txn a s)
  release-Shows a s e shows = rw e (returns shows)

module _ (crc_update : ℕ → Bytes → ℕ) (marshaler : RecordedOp → Option Marshaler)
    (marshals : Marshals marshaler) where
  -- The moves of one operation, in terms of the file system shown.
  module _ {n : ℕ} {d : Bytes → Option ℕ} {h : Bytes → Option Bytes} (s : Session)
      (shows : Shows n d h s.recorder.fsm) where
    pub unlink-moves :
        (f : ℕ) (path : Bytes)
        → d path ≡ some f
        → Returns
            (SessionShows (suc n) (unlinked path d) h)
            (process crc_update marshaler s (new_unlink_op f path))
    unlink-moves f path e =
        Returns-map
          (unlink-Shows crc_update marshaler marshals s shows.recording f path
            (shows.linked path ∙ e))
          λ t u.
            Shows-as u (ap suc shows.counted)
              (λ p. ap (λ x. if bytes_eq path p then none else x) (shows.linked p)) shows.holds

    pub clear-moves :
        (path : Bytes)
        → Returns
            (SessionShows (after_unlink n (d path)) (unlinked path d) h)
            (unlink_previous crc_update marshaler s path)
    clear-moves path = elim (Option-cases (d path)) [
      | inl e ↦
          rw (unlink_previous, shows.linked path ∙ e, e)
            (returns
              (Shows-as shows refl (λ p. ground (arith, e, bytes_eq_iff path p)) (λ p. refl)))
      | inr (f, e) ↦ rw (unlink_previous, shows.linked path ∙ e, e) (unlink-moves f path e)
    ]

    pub link-moves :
        (f : ℕ) (path src : Bytes)
        → is_property_path path ≡ false
        → d path ≡ none
        → d src ≡ some f
        → Returns
            (SessionShows (suc n) (linked_at path f d) h)
            (process crc_update marshaler s (new_link_op f path))
    link-moves f path src file e g =
        Returns-map
          (link-Shows crc_update marshaler marshals s shows.recording f path src file
            (shows.linked path ∙ e) (shows.linked src ∙ g))
          λ t u.
            Shows-as u (ap suc shows.counted)
              (λ p. ap (λ x. if bytes_eq path p then some f else x) (shows.linked p)) shows.holds

    pub create-moves :
        (path : Bytes)
        → is_property_path path ≡ false
        → d path ≡ none
        → Returns
            (SessionShows (suc n) (linked_at path n d) h)
            (process crc_update marshaler s (new_create_op path))
    create-moves path file e =
        Returns-map
          (create-Shows crc_update marshaler marshals s shows.recording path file
            (shows.linked path ∙ e))
          λ t u.
            Shows-as u (ap suc shows.counted)
              (λ p.
                ap (λ x. if bytes_eq path p then some x else lookup p s.recorder.fsm.links)
                  shows.counted
                ∙ ap (λ x. if bytes_eq path p then some n else x) (shows.linked p))
              shows.holds

    pub write-moves :
        (f offset size : ℕ) (path : Bytes)
        → d path ≡ some f
        → Returns
            (SessionShows (suc n) d h)
            (process crc_update marshaler s (new_write_op f offset size))
    write-moves f offset size path e =
        Returns-map
          (write-Shows crc_update marshaler marshals s shows.recording f offset size path
            (shows.linked path ∙ e))
          λ t u. Shows-as u (ap suc shows.counted) shows.linked shows.holds

    pub property-moves :
        (path content : Bytes)
        → is_property_path path ≡ true
        → differs (h path) content ≡ false
        → Returns
            (SessionShows (suc n) d (with_content path content h))
            (process crc_update marshaler s (new_property_op path content))
    property-moves path content at same =
        Returns-map
          (property-Shows crc_update marshaler marshals s shows.recording path content at
            (ap (λ x. differs x content) (shows.holds path) ∙ same))
          λ t u.
            Shows-as u (ap suc shows.counted) shows.linked
              (λ p. ap (λ x. if bytes_eq path p then some content else x) (shows.holds p))
