-- ===== src/Fragment/Spool/Compression.antt =====
-- The compressor of a Spool (v2/pkg/fragment/spool.go): what it is fed by commits of the primary, and
-- what it misses when the broker commits as a replica in between.
use native.Mathlib.Nat.{add-suc, add-zero, zero-add, suc-add}
use mathlib.Core.Path.{subst}
use gazette.Prelude.{
  ℕ, zero, suc, ◌+◌, ◌-◌, ◌<◌, ◌≡◌, refl, sym, ap, ◌∙◌, ◌≢◌, true, false, none, some, List, [], ◌∷◌,
  ◌++◌, arith, ◌==◌, Bytes, length, take, drop, Bool-cases, Option-cases, inl, inr, take-take-of_le,
}
use gazette.Protocol.Fragment.{
  Fragment, Sha1Sum, codec_none, is_empty, fragment_eq, fragment_eq_iff,
}
use gazette.Fragment.Spool.{
  Spool, Notice, spool_commit, Reply, ok, file_bytes, section, content_length, compress_through,
  close_compressor, finish_compression, next, commit, committed, rolls, rolled, settle,
  roll_forward, apply_commit,
}
use gazette.Fragment.Spool.State.{IsConsistent, empty-IsConsistent}
use gazette.Fragment.Spool.Commit.{roll_forward-stays, roll_forward-rolled, compressed, has_codec}

-- An open compressor was fed exactly the committed content.
abbrev pub IsFed : Spool → Type 0
IsFed s = (fed : Bytes) → s.compressor ≡ some fed → fed ≡ s.sum_state

take-section : (n m : ℕ) (b : Bytes) → take n b ++ take m (drop n b) ≡ take (n + m) b
take-section zero m b = rw zero-add
take-section (suc n) zero [] = rw add-zero
take-section (suc n) (suc m) [] = rw add-suc
take-section (suc n) m (x ∷ b) = rw suc-add (ap (λ t. x ∷ t) (take-section n m b))

module _ (sum_of : Bytes → Sha1Sum) (encode : ℕ → Bytes → Bytes) where
  -- The file read as the compressor is fed: whole, or from the committed content on.
  whole :
      (s : Spool)
      → IsConsistent sum_of s
      → take (s.fragment.end + s.delta - s.fragment.begin) (file_bytes s.file) ≡ s.summer
  whole s c =
      let len : s.fragment.end + s.delta - s.fragment.begin ≡ length s.summer = omega (arith, c) in
      rw len c.stored

  part :
      (s : Spool)
      → IsConsistent sum_of s
      → s.sum_state
          ++ section
              (file_bytes s.file)
              (content_length s.fragment)
              (s.fragment.end + s.delta - s.fragment.end)
        ≡ s.summer
  part s c =
      let b = file_bytes s.file in
      let n : content_length s.fragment ≡ length s.sum_state = omega (arith, c) in
      let m : s.fragment.end + s.delta - s.fragment.end ≡ s.delta = omega arith in
      let held : take (length s.sum_state) b ≡ s.sum_state =
        sym (take-take-of_le (length s.sum_state) (length s.summer) b (omega (arith, c)))
        ∙ ap (take (length s.sum_state)) c.stored
        ∙ c.extends in
      rw (n, m)
        (ap (λ t. t ++ take s.delta (drop (length s.sum_state) b)) (sym held)
          ∙ take-section (length s.sum_state) s.delta b
          ∙ ap (λ k. take k b) (sym c.spooled)
          ∙ c.stored)

  -- Compressing through the end of the spooled content feeds all of it.
  compress_through-summer :
      (s : Spool)
      → IsConsistent sum_of s
      → IsFed s
      → s.fragment.compression_codec ≢ codec_none
      → compress_through s (s.fragment.end + s.delta) ≡ some (compressed sum_of encode s s.summer)
  unfolding compress_through
  compress_through-summer s c f n = elim (Option-cases s.compressor) [
    | inl e ↦ ground (arith, whole s c)
    | inr (fed, e) ↦ ground (arith, f fed e, part s c)
  ]

  no_compressor :
      (s : Spool)
      → IsConsistent sum_of s
      → s.fragment.compression_codec ≡ codec_none
      → s.compressor ≡ none
  no_compressor s c e = elim (Option-cases s.compressor) [
    | inl n ↦ n
    | inr (fed, n) ↦ absurd (has_codec sum_of encode s fed c n e)
  ]

  settle-IsFed :
      (s : Spool) (p : Fragment) (now : ℕ) {s' : Spool} {reply : Reply} {told : List Notice}
      → IsConsistent sum_of s
      → IsFed s
      → settle sum_of encode s p true now ≡ some (s', reply, told)
      → IsFed s'
  unfolding settle next
  settle-IsFed s p now c f e fed h = elim (Bool-cases (fragment_eq s.fragment p)) [
    | inl a ↦ ground (arith, f fed)
    | inr a ↦ elim (Bool-cases (fragment_eq (next sum_of encode s) p)) [
      | inr b ↦ ground (arith, f fed)
      | inl b ↦ elim (Bool-cases (s.fragment.compression_codec == codec_none)) [
        | inl k ↦ ground (arith, no_compressor s c (ground arith))
        | inr k ↦ ground (arith, compress_through-summer s c f (λ q. ground arith))
      ]
    ]
  ]

  settled-IsFed :
      (s s0 : Spool) (told0 : List Notice) (p : Fragment) (now : ℕ) {s' : Spool} {reply : Reply}
      {told : List Notice}
      → IsConsistent sum_of s0
      → IsFed s0
      → roll_forward sum_of encode s p true ≡ some (s0, told0)
      → apply_commit sum_of encode s p true now ≡ some (s', reply, told)
      → IsFed s'
  unfolding apply_commit
  settled-IsFed s s0 told0 p now {s'} c f r e =
      elim (Option-cases (settle sum_of encode s0 p true now)) [
        | inl n ↦ absurd (ground (arith, r, n, e))
        | inr (t, n) ↦
            subst IsFed {x = t.0} {y = s'} (ground (arith, r, n, e))
              (settle-IsFed s0 p now {s' = t.0} c f n)
      ]

  -- Where file, sums and fragment agree, a commit by the primary keeps an open compressor fed with exactly the committed content.
  pub apply_commit-IsFed :
      (s : Spool) (p : Fragment) (now : ℕ) {s' : Spool} {reply : Reply} {told : List Notice}
      → IsConsistent sum_of s
      → IsFed s
      → apply_commit sum_of encode s p true now ≡ some (s', reply, told)
      → IsFed s'
  apply_commit-IsFed s p now c f e = elim (Bool-cases (rolls sum_of encode s p)) [
    | inr r ↦ settled-IsFed s s [] p now c f (roll_forward-stays sum_of encode s p true r) e
    | inl r ↦
        let w = roll_forward-rolled sum_of encode s p true c r in
        settled-IsFed s (rolled sum_of encode s p) w.0 p now
          (empty-IsConsistent sum_of encode s.fragment.journal p.end p.compression_codec)
          (λ fed h. cc) w.1 e
  ]

  committed_bytes :
      (s : Spool)
      → IsConsistent sum_of s
      → take (s.fragment.end - s.fragment.begin) (file_bytes s.file) ≡ s.sum_state
  committed_bytes s c =
      let n : s.fragment.end - s.fragment.begin ≡ length s.sum_state = omega (arith, c) in
      rw n (
        sym (
          take-take-of_le (length s.sum_state) (length s.summer) (file_bytes s.file)
            (omega (arith, c)))
        ∙ ap (take (length s.sum_state)) c.stored
        ∙ c.extends)

  compress_through-sum_state :
      (s : Spool)
      → IsConsistent sum_of s
      → s.compressor ≡ none
      → s.fragment.compression_codec ≢ codec_none
      → compress_through s s.fragment.end ≡ some (compressed sum_of encode s s.sum_state)
  unfolding compress_through
  compress_through-sum_state s c e n = ground (arith, committed_bytes s c)

  -- Where file, sums and fragment agree, the codec compresses and no compressed length is set, closing
  -- a compressor that is fed the committed content leaves its encoding as the file to store.
  pub finish_compression-encodes :
      (s : Spool)
      → IsConsistent sum_of s
      → IsFed s
      → s.fragment.compression_codec ≢ codec_none
      → s.compressed_length ≡ 0
      → (s' : Spool) × (finish_compression sum_of encode s ≡ some s')
        × (s'.compressed_file ≡ some (encode s.fragment.compression_codec s.sum_state))
  unfolding finish_compression
  finish_compression-encodes s c f n l = elim (Option-cases s.compressor) [
    | inl e ↦
        let t = compress_through-sum_state s c e n in
        (
          close_compressor sum_of encode (compressed sum_of encode s s.sum_state),
          ground (arith, t),
          refl,
        )
    | inr (fed, e) ↦ (close_compressor sum_of encode s, ground arith, ground (arith, f fed e))
  ]

  next_differs : (s : Spool) → 0 < s.delta → s.fragment ≢ next sum_of encode s
  unfolding next
  next_differs s d q = omega (arith, ap (λ f. f.end) q)

  next_stays : (s : Spool) → 0 < s.delta → rolls sum_of encode s (next sum_of encode s) ≡ false
  unfolding next is_empty
  next_stays s d = ground arith

  settle-next :
      (s : Spool) (now : ℕ)
      → 0 < s.delta
      → settle sum_of encode s (next sum_of encode s) false now
        ≡ some (committed sum_of encode s now)
  unfolding settle
  settle-next s now d = ground (
    arith,
    next_differs s d,
    fragment_eq_iff s.fragment (next sum_of encode s),
    fragment_eq_iff (next sum_of encode s) (next sum_of encode s),
  )

  commits_next :
      (s : Spool) (now : ℕ)
      → 0 < s.delta
      → apply_commit sum_of encode s (next sum_of encode s) false now
        ≡ some (commit sum_of encode s now, ok, spool_commit (next sum_of encode s) s.file ∷ [])
  unfolding apply_commit
  commits_next s now d = rw (
    roll_forward-stays sum_of encode s (next sum_of encode s) false (next_stays s d),
    settle-next s now d,
    apply_commit,
  )

  closes :
      (s : Spool) (fed : Bytes) (now : ℕ)
      → IsConsistent sum_of s
      → s.compressor ≡ some fed
      → s.compressed_length ≡ 0
      → finish_compression sum_of encode (commit sum_of encode s now)
        ≡ some (close_compressor sum_of encode (commit sum_of encode s now))
  unfolding finish_compression next
  closes s fed now c e l = ground (arith, has_codec sum_of encode s fed c e)

  closes_file :
      (s : Spool) (fed : Bytes) (now : ℕ)
      → s.compressor ≡ some fed
      → (close_compressor sum_of encode (commit sum_of encode s now)).compressed_file
        ≡ some (encode s.fragment.compression_codec fed)
  unfolding next
  closes_file s fed now e = ground (arith, e)

  -- Where file, sums and fragment agree, and a broker that holds an open compressor and has set no
  -- compressed length commits content as a replica, the compressor misses
  -- that content: closing it leaves the encoding of the bytes that it was fed before.
  pub replica_commit_skips :
      (s : Spool) (fed : Bytes) (now : ℕ)
      → IsConsistent sum_of s
      → s.compressor ≡ some fed
      → s.compressed_length ≡ 0
      → 0 < s.delta
      → (s' : Spool) × (s'' : Spool) × (told : List Notice) × (apply_commit sum_of encode s
            (next sum_of encode s)
            false
            now
          ≡ some (s', ok, told))
        × (length s'.sum_state ≡ length s.sum_state + s.delta)
        × (finish_compression sum_of encode s' ≡ some s'')
        × (s''.compressed_file ≡ some (encode s.fragment.compression_codec fed))
  replica_commit_skips s fed now c e l d =
      let s' = commit sum_of encode s now in
      (
        s',
        close_compressor sum_of encode s',
        spool_commit (next sum_of encode s) s.file ∷ [],
        commits_next s now d,
        c.spooled,
        closes s fed now c e l,
        closes_file s fed now e,
      )
