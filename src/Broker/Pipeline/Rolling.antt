-- ===== src/Broker/Pipeline/Rolling.antt =====
-- A spool (v2/pkg/fragment/spool.go) that is behind the offset to which synchronize of
-- v2/pkg/broker/pipeline.go moves its proposal.
use gazette.Prelude.{
  ℕ, ◌≤◌, ◌≡◌, refl, ap, ◌∙◌, arith, Bool, true, some, List, [], if◌then◌else◌, Bytes,
}
use gazette.Protocol.Fragment.{Fragment, Sha1Sum, is_empty}
use gazette.Fragment.Spool.{Spool, Notice, Reply, ok, apply_commit, rolls, rolled}
use gazette.Fragment.Spool.State.{IsConsistent}
use gazette.Fragment.Spool.Commit.{Settled, undoes, commits, refuses, apply_commit-Settled}
use gazette.Broker.Pipeline.{rolled_to}

module _ (sum_of : Bytes → Sha1Sum) (encode : ℕ → Bytes → Bytes) where
  -- A spool of the proposal's journal, with nothing uncommitted, that ends by the offset.
  pub record Behind (p : Fragment) (offset : ℕ) (s : Spool) : Type 0 where
    pub consistent : IsConsistent sum_of s
    pub committed : s.delta ≡ 0
    pub journal : s.fragment.journal ≡ p.journal
    pub ends : s.fragment.end ≤ offset

  -- The proposal has no store and no time, as those of a spool have none.
  abbrev pub IsProposal : Fragment → Type 0
  IsProposal p = (p.backing_store ≡ []) × (p.mod_time ≡ 0)

  Behind-rolls :
      (p : Fragment) (offset : ℕ) (s : Spool)
      → Behind p offset s
      → rolls sum_of encode s (rolled_to sum_of encode p offset) ≡ true
  unfolding is_empty
  Behind-rolls p offset s b = ground (arith, b.committed, b.ends)

  rolled-fragment :
      (p : Fragment) (offset : ℕ) (s : Spool)
      → IsProposal p
      → Behind p offset s
      → (rolled sum_of encode s (rolled_to sum_of encode p offset)).fragment
        ≡ rolled_to sum_of encode p offset
  rolled-fragment p offset s i b = ground (arith, i.0, i.1, b.journal)

  Settled-at :
      {s s' : Spool} {q : Fragment} {now : ℕ} {reply : Reply} {told : List Notice}
      → Settled sum_of encode s q now s' reply told
      → s.fragment ≡ q
      → (reply ≡ ok) × (s'.fragment ≡ q) × (s'.delta ≡ 0)
  Settled-at (undoes e) h = (refl, e, refl)
  Settled-at (commits k b n e c) h = absurd (n h)
  Settled-at (refuses m n) h = absurd (m h)

  -- Such a spool rolls to the offset and accepts.
  pub rolled-accepted :
      (p : Fragment) (offset now : ℕ) (primary : Bool) (s : Spool)
      → IsProposal p
      → Behind p offset s
      → (s' : Spool) × (told : List Notice) × (apply_commit sum_of encode s
            (rolled_to sum_of encode p offset)
            primary
            now
          ≡ some (s', ok, told))
        × (s'.fragment ≡ rolled_to sum_of encode p offset)
        × (s'.delta ≡ 0)
  rolled-accepted p offset now primary s i b =
      let q = rolled_to sum_of encode p offset in
      let t = apply_commit-Settled sum_of encode s q primary now b.consistent in
      let start : t.0 ≡ rolled sum_of encode s q =
        t.5 ∙ ap (λ f. if f then rolled sum_of encode s q else s) (Behind-rolls p offset s b) in
      let (r, f, d) =
        Settled-at t.7.1 (ap (λ u. u.fragment) start ∙ rolled-fragment p offset s i b) in
      (t.1, t.3, t.4 ∙ ap (λ r. some (t.1, r, t.3)) r, f, d)
