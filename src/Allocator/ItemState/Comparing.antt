-- ===== src/Allocator/ItemState/Comparing.antt =====
-- compareAssignment (v2/pkg/allocator/allocator_key_space.go) orders assignments up to their slots.
use gazette.Prelude.{
  ◌≡◌, sym, ap, ◌∙◌, true, false, arith, bytes_lt, bytes_lt_irrefl, bytes_lt_trans, bytes_lt_total,
  Bytes,
}
use gazette.Allocator.ItemState.{
  Assignment, Comparison, less, same, greater, compare_parts, compare_assignment,
}

bytes_lt_asym : (a b : Bytes) → bytes_lt a b ≡ true → bytes_lt b a ≡ false
bytes_lt_asym a b h = ground (arith, h, bytes_lt_trans a b a, bytes_lt_irrefl a)

pub greater_flip :
    (a b : Assignment) → compare_assignment a b ≡ greater → compare_assignment b a ≡ less
unfolding compare_assignment
greater_flip a b h = ground (arith, h)

pub less_flip :
    (a b : Assignment) → compare_assignment a b ≡ less → compare_assignment b a ≡ greater
unfolding compare_assignment
less_flip a b h = ground (
  arith,
  h,
  bytes_lt_asym a.item_id b.item_id,
  bytes_lt_asym a.member_zone b.member_zone,
  bytes_lt_asym a.member_suffix b.member_suffix,
)

pub same_flip : (a b : Assignment) → compare_assignment a b ≡ same → compare_assignment b a ≡ same
unfolding compare_assignment
same_flip a b h = ground (arith, h)

parts_trans :
    (x y z : Bytes) (p q r : Comparison)
    → compare_parts x y p ≡ less
    → compare_parts y z q ≡ less
    → (p ≡ less → q ≡ less → r ≡ less)
    → compare_parts x z r ≡ less
parts_trans x y z p q r a b rest = ground (
  arith,
  a,
  b,
  rest,
  bytes_lt_trans x y z,
  bytes_lt_total x y,
  bytes_lt_total y z,
  bytes_lt_irrefl x,
  bytes_lt_asym x y,
  bytes_lt_asym y z,
  bytes_lt_asym x z,
)

pub less_trans :
    (a b c : Assignment)
    → compare_assignment a b ≡ less
    → compare_assignment b c ≡ less
    → compare_assignment a c ≡ less
unfolding compare_assignment
less_trans a b c h k = parts_trans a.item_id b.item_id c.item_id _ _ _ h k λ h k.
    parts_trans a.member_zone b.member_zone c.member_zone _ _ _ h k
      λ h k. parts_trans a.member_suffix b.member_suffix c.member_suffix same same same h k λ h k. h

abbrev by_parts : Bytes → Bytes → Bytes → Assignment → Comparison
by_parts item zone suffix x =
    compare_parts item x.item_id
      (compare_parts zone x.member_zone (compare_parts suffix x.member_suffix same))

pub same_left :
    (a b x : Assignment)
    → compare_assignment a b ≡ same
    → compare_assignment a x ≡ compare_assignment b x
unfolding compare_assignment
same_left a b x h =
    let item = bytes_lt_total a.item_id b.item_id (ground (arith, h)) (ground (arith, h)) in
    let zone = bytes_lt_total a.member_zone b.member_zone (ground (arith, h)) (ground (arith, h)) in
    let suffix =
      bytes_lt_total a.member_suffix b.member_suffix (ground (arith, h)) (ground (arith, h)) in
    ap (λ t. by_parts t a.member_zone a.member_suffix x) item
    ∙ ap (λ t. by_parts b.item_id t a.member_suffix x) zone
    ∙ ap (λ t. by_parts b.item_id b.member_zone t x) suffix

pub same_right :
    (a b x : Assignment)
    → compare_assignment a b ≡ same
    → compare_assignment x a ≡ less
    → compare_assignment x b ≡ less
same_right a b x h k = flip (same_left a b x h)
  where
    flip : compare_assignment a x ≡ compare_assignment b x → compare_assignment x b ≡ less
    flip e = greater_flip b x (sym e ∙ less_flip x a k)
