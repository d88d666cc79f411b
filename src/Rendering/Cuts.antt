-- ===== src/Rendering/Cuts.antt =====
-- Excerpts fit their limit, keep a head and a tail word for word, and count what they leave out.
use ai_daily_report.Prelude.{
  ℕ, zero, suc, ◌+◌, ◌-◌, ◌≤◌, ◌<◌, ◌≡◌, refl, ap, sym, false, Option, none, some, [], ◌∷◌, ◌++◌,
  Text, codes, length, take, drop, ltb, show, length-show, length-append, length-take, length-drop,
  arith, dec_lt, Option-cases, lt→ltb, inl, inr,
}
use ai_daily_report.Rendering.Excerpt.{
  omitted_marker, last_newline, first_newline, unwrap_or, newline_boundary_at_or_after, available,
  head_budget, tail_budget, head_end, tail_start, take_head_and_tail, take_log_tail,
}

leb→ltb_false : (limit : ℕ) → 64 ≤ limit → ltb limit 64 ≡ false
leb→ltb_false limit h = ground arith

length-omitted_marker :
    (prefix : Text) (n : ℕ) → length (omitted_marker prefix n) ≤ 32 + length prefix
unfolding omitted_marker
length-omitted_marker prefix n = ground (
  arith,
  length-show n,
  length-append (show n) (codes " 字符）…"),
  length-append prefix (codes "约 " ++ (show n ++ codes " 字符）…")),
)

last_newline_le :
    (index : ℕ) (t : Text) (found : Option ℕ) (d bound : ℕ)
    → unwrap_or found d ≤ bound
    → index + length t ≤ bound
    → unwrap_or (last_newline index t found) d ≤ bound
unfolding last_newline
last_newline_le index [] found d bound h k = h
last_newline_le index (c ∷ t) found d bound h k =
    last_newline_le (suc index) t _ d bound (ground arith) (omega arith)

head_end-le : (content : Text) (limit : ℕ) → head_end content limit ≤ head_budget limit
unfolding head_end
head_end-le content limit =
    last_newline_le 0 (take (head_budget limit) content) none (head_budget limit)
      (head_budget limit) (omega arith) (omega (arith, length-take (head_budget limit) content))

first_newline_bounds :
    (index : ℕ) (t : Text) (k : ℕ)
    → first_newline index t ≡ some k
    → (index < k) × (k ≤ index + length t)
unfolding first_newline
first_newline_bounds index [] k e = cc
first_newline_bounds index (c ∷ t) k e = ground (arith, first_newline_bounds (suc index) t k)

-- From a position inside the text, the boundary lies between the position and the end.
newline_boundary_at_or_after_bounds :
    (content : Text) (position : ℕ)
    → position ≤ length content
    → (position ≤ newline_boundary_at_or_after content position)
      × (newline_boundary_at_or_after content position ≤ length content)
unfolding newline_boundary_at_or_after
newline_boundary_at_or_after_bounds content position h =
    elim (Option-cases (first_newline position (drop position content))) [
      | inl e ↦ rw e (omega arith)
      | inr (k, e) ↦ rw e (
          omega (
            arith,
            first_newline_bounds position (drop position content) k e,
            length-drop position content,
          ))
    ]

take_append : (k : ℕ) (xs : Text) → take k xs ++ drop k xs ≡ xs
take_append zero xs = refl
take_append (suc k) [] = refl
take_append (suc k) (x ∷ xs) = ap (◌∷◌ x) (take_append k xs)

drop-drop : (h k t : ℕ) (xs : Text) → t ≡ h + k → drop k (drop h xs) ≡ drop t xs
drop-drop zero k t xs e = let e' : k ≡ t = omega arith in rw e'
drop-drop (suc h) zero zero [] e = refl
drop-drop (suc h) (suc k) zero [] e = absurd (omega arith)
drop-drop (suc h) zero (suc t) [] e = refl
drop-drop (suc h) (suc k) (suc t) [] e = refl
drop-drop (suc h) k zero (x ∷ xs) e = absurd (omega arith)
drop-drop (suc h) k (suc t) (x ∷ xs) e = drop-drop h k t xs (omega arith)

-- A text is what stands before one cut, between two cuts and behind the other.
split_at_two :
    (h t : ℕ) (xs : Text) → h ≤ t → take h xs ++ (take (t - h) (drop h xs) ++ drop t xs) ≡ xs
split_at_two h t xs le =
    rw (← drop-drop h (t - h) t xs (omega arith), take_append (t - h) (drop h xs))
      (take_append h xs)

cuts_in_order :
    (content : Text) (limit : ℕ)
    → limit < length content
    → 64 ≤ limit
    → (head_end content limit ≤ tail_start content limit)
      × (tail_start content limit ≤ length content)
      × (length content - tail_budget limit ≤ tail_start content limit)
unfolding tail_start
cuts_in_order content limit over room = omega (
  arith,
  head_end-le content limit,
  newline_boundary_at_or_after_bounds content (length content - tail_budget limit) (omega arith),
)

gap_of : Text → ℕ → Text
gap_of content limit =
    take (tail_start content limit - head_end content limit) (drop (head_end content limit) content)

length-gap_of :
    (content : Text) (limit : ℕ)
    → limit < length content
    → 64 ≤ limit
    → length (gap_of content limit)
      ≡ length content
        - length (take (head_end content limit) content)
        - length (drop (tail_start content limit) content)
unfolding gap_of
length-gap_of content limit over room =
    let h = head_end content limit in
    let t = tail_start content limit in
    omega (
      arith,
      cuts_in_order content limit over room,
      length-take (t - h) (drop h content),
      length-drop h content,
      length-take h content,
      length-drop t content,
    )

-- Above the room that the marker needs, the excerpt is a head, the marker and a tail of the text,
-- word for word, and the marker counts exactly the characters between them; the head and the tail
-- keep to 40 and 60 percent of what the marker leaves.
pub take_head_and_tail_lem :
    (content : Text) (limit : ℕ)
    → limit < length content
    → 64 ≤ limit
    → (head : Text) × (gap : Text) × (tail : Text) × (content ≡ head ++ (gap ++ tail))
      × (take_head_and_tail content limit
          ≡ head ++ (omitted_marker (codes "中部") (length gap) ++ tail))
      × (length head ≤ head_budget limit)
      × (length tail ≤ tail_budget limit)
unfolding take_head_and_tail
take_head_and_tail_lem content limit over room =
    let h = head_end content limit in
    let t = tail_start content limit in
    let order = cuts_in_order content limit over room in
    (
      take h content,
      gap_of content limit,
      drop t content,
      unfold gap_of in sym (split_at_two h t content order.0),
      rw (length-gap_of content limit over room, leb→ltb_false limit room),
      omega (arith, length-take h content, head_end-le content limit),
      omega (arith, length-drop t content, order),
    )

-- The excerpt of a text that is longer than the limit has at most `limit` characters.
pub length-take_head_and_tail :
    (content : Text) (limit : ℕ)
    → limit < length content
    → length (take_head_and_tail content limit) ≤ limit
length-take_head_and_tail content limit over = elim (dec_lt limit 64) [
  | yes small ↦
      unfold take_head_and_tail in
      rw (lt→ltb limit 64 small) (omega (arith, length-take limit content))
  | no big ↦
      let (head, gap, tail, _, e, h, t) = take_head_and_tail_lem content limit over (omega arith) in
      rw e (
        omega (
          arith,
          length-append head (omitted_marker (codes "中部") (length gap) ++ tail),
          length-append (omitted_marker (codes "中部") (length gap)) tail,
          length-omitted_marker (codes "中部") (length gap),
        ))
]

pub take_log_tail_lem :
    (content : Text) (limit : ℕ)
    → limit < length content
    → 64 ≤ limit
    → (gap : Text) × (tail : Text) × (content ≡ gap ++ tail)
      × (take_log_tail content limit ≡ omitted_marker (codes "头部") (length gap) ++ tail)
      × (length tail ≡ available limit)
      × (length (take_log_tail content limit) ≤ limit)
take_log_tail_lem content limit over room =
    let start = length content - available limit in
    let gap = take start content in
    let tail = drop start content in
    let count : length gap ≡ length content - length tail =
      omega (arith, length-take start content, length-drop start content) in
    let e : take_log_tail content limit ≡ omitted_marker (codes "头部") (length gap) ++ tail =
      unfold take_log_tail in rw (count, leb→ltb_false limit room) in
    (
      gap,
      tail,
      sym (take_append start content),
      e,
      omega (arith, length-drop start content),
      rw e (
          omega (
            arith,
            length-append (omitted_marker (codes "头部") (length gap)) tail,
            length-omitted_marker (codes "头部") (length gap),
            length-drop start content,
          )),
    )
