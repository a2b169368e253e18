-- ===== src/Broker/Pipeline/Agreement.antt =====
-- What a round of synchronize (v2/pkg/broker/pipeline.go) makes of the pipeline.
use mathlib.Core.Path.{subst}
use gazette.Prelude.{
  ℕ, ◌≤◌, ◌<◌, ◌≡◌, ◌≢◌, ◌⊎◌, inl, inr, refl, sym, ap, ◌∙◌, arith, true, false, Option, none, some,
  List, ◌==◌, Bool-cases, Option-cases, All, Bytes,
}
use gazette.Protocol.Fragment.{Fragment, Sha1Sum}
use gazette.Fragment.Spool.{Spool, Notice, Reply, apply, apply_commit}
use gazette.Fragment.Spool.State.{IsConsistent}
use gazette.Fragment.Spool.Replication.{met_by, Replies, apply_commit-Replies}
use gazette.Broker.Pipeline.{
  PeerError, Gathered, first_recv_err, first_send_err, first_of, send_all, gather, gather_sync,
  Pipeline, Round, Synced, returned, again, sync_panics, proposes, rolled_to, to_primary,
  primary_applied, scatter, shutdown, after_shutdown, sync_decided, sync_gathered, sync_received,
  sync_scattered, sync_round,
}
use gazette.Broker.Pipeline.Gathering.{Agrees, sync_peers-AllAnswered}

module _ (sum_of : Bytes → Sha1Sum) (encode : ℕ → Bytes → Bytes) where
  -- The primary's spool is at the proposal, with nothing uncommitted.
  abbrev pub IsAt : Fragment → Spool → Type 0
  IsAt p s = (s.fragment ≡ p) × (s.delta ≡ 0)

  -- After a round: it goes on with the empty proposal of an offset that is not before the end of the
  -- proposal; or it returns an error; or without one, a revision to read through or the agreement of all.
  abbrev pub RoundEnds : Fragment → Synced → Type 0
  RoundEnds p (again pln q) =
      ((offset : ℕ) × (p.end ≤ offset) × (q ≡ rolled_to sum_of encode p offset)) × IsAt p pln.spool
  RoundEnds p (returned pln (some e)) = Unit
  RoundEnds p (returned pln none) =
      (pln.read_through_rev ≢ 0) ⊎ (IsAt p pln.spool × All Agrees pln.peers)
  RoundEnds p sync_panics = Unit

  -- After the proposal is sent: a panic, or the primary failed, or its spool is at the proposal.
  applied-IsAt :
      (pln : Pipeline) (p : Fragment) (u s : Spool) (reply : Reply) (told : List Notice)
      → Replies sum_of encode u p s reply
      → (primary_applied sum_of encode pln (some (s, reply, told)) ≡ none)
        ⊎ ((pln' : Pipeline) × (primary_applied sum_of encode pln (some (s, reply, told))
              ≡ some pln')
            × IsAt p pln'.spool)
  applied-IsAt pln p u s reply told (inl (r, f, d, k, l)) = inr (
    record pln { spool = s },
    ap (λ t. primary_applied sum_of encode pln (some (s, t, told))) r,
    (f, d),
  )
  applied-IsAt pln p u s reply told (inr (r, f, n, k)) =
      inl (ap (λ t. primary_applied sum_of encode pln (some (s, t, told))) r)

  scatter-IsAt :
      (pln : Pipeline) (p : Fragment) (round : Round)
      → IsConsistent sum_of pln.spool
      → (scatter sum_of encode pln (proposes p) round ≡ none)
        ⊎ ((pln' : Pipeline) × (scatter sum_of encode pln (proposes p) round ≡ some pln')
            × ((pln'.primary_err ≢ none) ⊎ IsAt p pln'.spool))
  unfolding scatter apply
  scatter-IsAt pln p round c =
      let sent : Pipeline = record pln { peers = send_all pln.peers round.sends } in
      let applied = apply_commit sum_of encode pln.spool p true round.now in
      elim (Option-cases pln.primary_err) [
        | inr (e, h) ↦ inr (
          sent,
          ap (λ t. to_primary sum_of encode sent t applied) h,
          inl (λ k. absurd (ground (arith, h, k))),
        )
        | inl h ↦
            let (s, reply, told, q, r) =
              apply_commit-Replies sum_of encode pln.spool p true round.now c in
            let step : scatter sum_of encode pln (proposes p) round
                ≡ primary_applied sum_of encode sent (some (s, reply, told)) =
              ap (λ t. to_primary sum_of encode sent t applied) h
              ∙ ap (primary_applied sum_of encode sent) q in
            elim (applied-IsAt sent p (met_by sum_of encode pln.spool p) s reply told r) [
              | inl e ↦ inl (step ∙ e)
              | inr (pln', e, a) ↦ inr (pln', step ∙ e, inr a)
            ]
      ]

  first_of-none : (a b : Option PeerError) → first_of a b ≡ none → (a ≡ none) × (b ≡ none)
  first_of-none none b h = (refl, h)
  first_of-none (some e) b h = absurd (ground arith)

  after_shutdown-RoundEnds :
      (p : Fragment) (o : Option Pipeline) (rev : ℕ) (err : Option PeerError)
      → (err ≢ none) ⊎ (rev ≢ 0)
      → RoundEnds p (after_shutdown sum_of encode o rev err)
  after_shutdown-RoundEnds p none rev err h = tt
  after_shutdown-RoundEnds p (some pln) rev (some e) h = tt
  after_shutdown-RoundEnds p (some pln) rev none (inl h) = absurd (h refl)
  after_shutdown-RoundEnds p (some pln) rev none (inr h) = inl h

  decided-RoundEnds :
      (pln : Pipeline) (p : Fragment) (round : Round) (g : Gathered)
      → IsAt p pln.spool
      → (g.roll_to_offset ≡ 0) ⊎ (p.end ≤ g.roll_to_offset)
      → (g.roll_to_offset ≡ 0 → g.read_through_rev ≡ 0 → All Agrees pln.peers)
      → RoundEnds p (sync_decided sum_of encode pln p round g none)
  unfolding sync_decided
  decided-RoundEnds pln p round g a o f = elim (Bool-cases (g.roll_to_offset == 0)) [
    | inr q ↦
        subst (RoundEnds p) (sym (decide_roll q))
          ((g.roll_to_offset, ground (arith, q, o), refl), a)
    | inl q ↦ elim (Bool-cases (g.read_through_rev == 0)) [
      | inr r ↦ subst (RoundEnds p) (sym (decide_read q r)) (
          after_shutdown-RoundEnds p (shutdown sum_of encode pln round) g.read_through_rev none
            (inr (λ e. absurd (ground arith))))
      | inl r ↦
          subst (RoundEnds p) (sym (decide_done q r)) (inr (a, f (ground arith) (ground arith)))
    ]
  ]
    where
      decide_roll :
          (g.roll_to_offset == 0) ≡ false
          → sync_decided sum_of encode pln p round g none
            ≡ again pln (rolled_to sum_of encode p g.roll_to_offset)
      decide_roll q = ground (arith, q)

      decide_read :
          (g.roll_to_offset == 0) ≡ true
          → (g.read_through_rev == 0) ≡ false
          → sync_decided sum_of encode pln p round g none
            ≡ after_shutdown sum_of encode
                (shutdown sum_of encode pln round)
                g.read_through_rev
                none
      decide_read q r = ground (arith, q, r)

      decide_done :
          (g.roll_to_offset == 0) ≡ true
          → (g.read_through_rev == 0) ≡ true
          → sync_decided sum_of encode pln p round g none ≡ returned pln none
      decide_done q r = ground (arith, q, r)

  gathered-RoundEnds :
      (pln : Pipeline) (p : Fragment) (round : Round) (g : Gathered)
      → 0 < p.end
      → gather_sync pln.header p pln.peers round.receipts ≡ some g
      → (pln.primary_err ≢ none) ⊎ IsAt p pln.spool
      → RoundEnds p (sync_gathered sum_of encode pln p round g)
  unfolding sync_gathered sync_decided gather_sync
  gathered-RoundEnds pln p round g n h a =
      let pln' : Pipeline = record pln { peers = g.peers } in
      let errs =
        first_of (first_recv_err g.peers) (first_of (first_send_err g.peers) pln.primary_err) in
      elim (Option-cases errs) [
        | inr (e, q) ↦
            subst (RoundEnds p) (sym (ap (sync_decided sum_of encode pln' p round g) q)) (
              after_shutdown-RoundEnds p (shutdown sum_of encode pln' round) pln'.read_through_rev
                (some e) (inl (λ k. absurd (ground arith))))
        | inl q ↦
            let r =
              first_of-none (first_recv_err g.peers)
                (first_of (first_send_err g.peers) pln.primary_err) q in
            let s = first_of-none (first_send_err g.peers) pln.primary_err r.1 in
            let all =
              sync_peers-AllAnswered pln.header p (gather pln.peers round.receipts) 0 0 g h in
            subst (RoundEnds p) (sym (ap (sync_decided sum_of encode pln' p round g) q)) (elim a [
              | inl b ↦ absurd (b s.1)
              | inr b ↦ decided-RoundEnds pln' p round g b all.rolls_on (λ x y. all.agree x y n r.0)
            ])
      ]

  -- A round, from a primary spool in which file, sums and fragment agree and for a proposal that does
  -- not end at offset zero: where it goes on, it is with the empty proposal of an offset at or after the
  -- end of the proposal, and the primary's spool is at the proposal it made, with nothing uncommitted. Where it returns without an error, there is a
  -- revision to read through, or the primary's spool is at the proposal with nothing uncommitted and
  -- each peer with a stream has answered that it accepts it. An error or a panic says nothing.
  pub sync_round-RoundEnds :
      (pln : Pipeline) (p : Fragment) (round : Round)
      → IsConsistent sum_of pln.spool
      → 0 < p.end
      → RoundEnds p (sync_round sum_of encode pln p round)
  unfolding sync_round sync_scattered sync_received
  sync_round-RoundEnds pln p round c n = elim (scatter-IsAt pln p round c) [
    | inl e ↦ subst (RoundEnds p) (sym (ap (sync_scattered sum_of encode p round) e)) tt
    | inr (pln', e, a) ↦
        subst (RoundEnds p) (sym (ap (sync_scattered sum_of encode p round) e))
          (elim (Option-cases (gather_sync pln'.header p pln'.peers round.receipts)) [
            | inl h ↦ subst (RoundEnds p) (sym (ap (sync_received sum_of encode pln' p round) h)) tt
            | inr (g, h) ↦
                subst (RoundEnds p) (sym (ap (sync_received sum_of encode pln' p round) h))
                  (gathered-RoundEnds pln' p round g n h a)
          ])
  ]
