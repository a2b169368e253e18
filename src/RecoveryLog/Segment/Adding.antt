-- ===== src/RecoveryLog/Segment/Adding.antt =====
-- SegmentSet.Add of v2/pkg/recoverylog/segment.go keeps the documented order.
use gazette.Prelude.{
  ℕ, zero, suc, ◌+◌, ◌≡◌, refl, sym, ap, ◌∙◌, [], ◌∷◌, ◌++◌, arith, All, take, drop,
}
use gazette.RecoveryLog.Segment.{
  Segment, SegmentSet, Result, ok, err, panics, splice_from, insert_at,
}
use gazette.RecoveryLog.Segment.Order.{Follows, IsRange}
use gazette.RecoveryLog.Segment.Loop.{IsOrdered, FromSeqNo, IsReached, reduce_following-IsReached}

-- All of the first come before all of the second.
abbrev Crosses : SegmentSet → SegmentSet → Type 0
Crosses xs ys = All (λ x. All (Follows x) ys) xs

All-drop {κ} : (P : Segment → Type κ) (n : ℕ) (xs : SegmentSet) → All P xs → All P (drop n xs)
All-drop P zero xs a = a
All-drop P (suc n) [] a = a
All-drop P (suc n) (x ∷ xs) a = All-drop P n xs a.1

All-take {κ} : (P : Segment → Type κ) (n : ℕ) (xs : SegmentSet) → All P xs → All P (take n xs)
All-take P zero xs a = tt
All-take P (suc n) [] a = tt
All-take P (suc n) (x ∷ xs) a = (a.0, All-take P n xs a.1)

take-IsOrdered : (n : ℕ) (xs : SegmentSet) → IsOrdered xs → IsOrdered (take n xs)
take-IsOrdered zero xs o = tt
take-IsOrdered (suc n) [] o = tt
take-IsOrdered (suc n) (x ∷ xs) o = (o.0, All-take (Follows x) n xs o.1, take-IsOrdered n xs o.2)

drop-IsOrdered : (n : ℕ) (xs : SegmentSet) → IsOrdered xs → IsOrdered (drop n xs)
drop-IsOrdered zero xs o = o
drop-IsOrdered (suc n) [] o = tt
drop-IsOrdered (suc n) (x ∷ xs) o = drop-IsOrdered n xs o.2

take-Crosses : (n : ℕ) (xs : SegmentSet) → IsOrdered xs → Crosses (take n xs) (drop n xs)
take-Crosses zero xs o = tt
take-Crosses (suc n) [] o = tt
take-Crosses (suc n) (x ∷ xs) o = (All-drop (Follows x) n xs o.1, take-Crosses n xs o.2)

pub All-append {κ} :
    (P : Segment → Type κ) (xs ys : SegmentSet) → All P xs → All P ys → All P (xs ++ ys)
All-append P [] ys a b = b
All-append P (x ∷ xs) ys a b = (a.0, All-append P xs ys a.1 b)

append-IsOrdered :
    (xs ys : SegmentSet) → IsOrdered xs → IsOrdered ys → Crosses xs ys → IsOrdered (xs ++ ys)
append-IsOrdered [] ys o p c = p
append-IsOrdered (x ∷ xs) ys o p c =
    (o.0, All-append (Follows x) xs ys o.1 c.0, append-IsOrdered xs ys o.2 p c.1)

drop-nil : (n : ℕ) → drop {A = Segment} n [] ≡ []
drop-nil zero = refl
drop-nil (suc n) = refl

drop-drop : (k n : ℕ) (xs : SegmentSet) → drop (k + n) xs ≡ drop k (drop n xs)
drop-drop k zero xs = ap (λ i. drop i xs) (omega arith)
drop-drop k (suc n) [] = drop-nil (k + suc n) ∙ sym (drop-nil k)
drop-drop k (suc n) (x ∷ xs) =
    let e : k + suc n ≡ suc (k + n) = omega arith in ap (λ i. drop i (x ∷ xs)) e ∙ drop-drop k n xs

-- All before the segment come before the one that it grows to, which all that is left follows.
All-before :
    (k : ℕ) (pre xs : SegmentSet) (cur c : Segment)
    → ((p : Segment) → Follows p cur → All (Follows p) xs → Follows p c)
    → All (λ p. Follows p cur) pre
    → Crosses pre xs
    → Crosses pre (c ∷ drop k xs)
All-before k [] xs cur c f a b = tt
All-before k (p ∷ pre) xs cur c f a b =
    ((f p a.0 b.0, All-drop (Follows p) k xs b.0), All-before k pre xs cur c f a.1 b.1)

-- A result in order; no panic.
abbrev pub IsSound : Result SegmentSet → Type 0
IsSound (ok set) = IsOrdered set
IsSound (err e) = Unit
IsSound panics = ⊥

splice_from-IsSound :
    (set : SegmentSet) (begin : ℕ) (cur : Segment) (r : Result (Segment × ℕ))
    → IsOrdered set
    → All (λ p. Follows p cur) (take begin set)
    → IsReached cur (drop begin set) begin r
    → IsSound (splice_from set begin r)
splice_from-IsSound set begin cur (err e) o a h = tt
splice_from-IsSound set begin cur panics o a h = h
splice_from-IsSound set begin cur (ok (c, stop)) o a h =
    rw (h.stops, drop-drop h.passed begin set)
      (append-IsOrdered (take begin set) (c ∷ drop h.passed (drop begin set))
        (take-IsOrdered begin set o)
        (
          h.range,
          h.following,
          drop-IsOrdered h.passed (drop begin set) (drop-IsOrdered begin set o),
        )
        (All-before h.passed (take begin set) (drop begin set) cur c h.preceding a
          (take-Crosses begin set o)))

pub insert_at-IsSound :
    (set : SegmentSet) (begin : ℕ) (cur : Segment)
    → IsOrdered set
    → IsRange cur
    → All (λ p. Follows p cur) (take begin set)
    → FromSeqNo cur.first_seq_no (drop begin set)
    → IsSound (insert_at set begin cur)
unfolding insert_at
insert_at-IsSound set begin cur o r a f =
    splice_from-IsSound set begin cur _ o a
      (reduce_following-IsReached cur (drop begin set) begin r (drop-IsOrdered begin set o) f)
