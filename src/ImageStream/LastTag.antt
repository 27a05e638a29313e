-- ===== src/ImageStream/LastTag.antt =====
-- `GetLastTag` finds the newest tag.
use edp_codebase_operator.Prelude.{
  ℕ, ◌≤◌, ◌<◌, String, List, [], ◌∷◌, ◌++◌, Option, Memᴰ, mem-cons_cases, Bool-cases, ltb, ◌≡◌,
  refl, sym, ap, subst, ◌≢◌, ◌⊎◌, inl, inr, eq_iff, arith, if◌then◌else◌,
}
use edp_codebase_operator.Effects.{ok}
use edp_codebase_operator.Api.{Tag}
use edp_codebase_operator.ImageStream.{created_at, last_tag_loop, get_last_tag, zero_tag}

-- `t` stands in the list, later than every tag before it and no earlier than any after it.
pub record IsNewest (parse_time : String → Option ℕ) (t : Tag) (tags : List Tag) : Type 0 where
  pub before : List Tag
  pub after : List Tag
  pub split : tags ≡ before ++ t ∷ after
  pub later : (u : Tag) → Memᴰ u before → created_at parse_time u < created_at parse_time t
  pub no_earlier : (u : Tag) → Memᴰ u after → created_at parse_time u ≤ created_at parse_time t

mem_middle : {t : Tag} (xs ys : List Tag) → Memᴰ t (xs ++ t ∷ ys)
mem_middle [] ys = Memᴰ.head refl
mem_middle (x ∷ xs) ys = Memᴰ.tail (mem_middle xs ys)

module _ (parse_time : String → Option ℕ) where
  abbrev at : Tag → ℕ
  at = created_at parse_time

  -- The loop keeps the tag that it has, or finds the newest of the list.
  abbrev Found : Tag → ℕ → List Tag → Tag → Type 0
  Found latest time tags t =
      ((t ≡ latest) × ((u : Tag) → Memᴰ u tags → at u ≤ time))
      ⊎ ((time < at t) × IsNewest parse_time t tags)

  Found-newer :
      (latest t r : Tag) (time : ℕ) (ts : List Tag)
      → time < at t
      → Found t (at t) ts r
      → Found latest time (t ∷ ts) r
  Found-newer latest t r time ts h (inl (same, rest)) = inr (
    rw same h,
    record {
      before = [];
      after = ts;
      split = rw same;
      later = λ u m. elim m [ ];
      no_earlier = λ u m. rw same (rest u m);
    },
  )
  Found-newer latest t r time ts h (inr (less, n)) = inr (
    omega arith,
    record {
      before = t ∷ n.before;
      after = n.after;
      split = ap (λ (xs : List Tag). t ∷ xs) n.split;
      later = λ u m. elim (mem-cons_cases m) [ inl q ↦ rw q less | inr k ↦ n.later u k ];
      no_earlier = n.no_earlier;
    },
  )

  Found-older :
      (latest t r : Tag) (time : ℕ) (ts : List Tag)
      → at t ≤ time
      → Found latest time ts r
      → Found latest time (t ∷ ts) r
  Found-older latest t r time ts h (inl (same, rest)) =
      inl (same, λ u m. elim (mem-cons_cases m) [ inl q ↦ rw q h | inr k ↦ rest u k ])
  Found-older latest t r time ts h (inr (less, n)) = inr (
    less,
    record {
      before = t ∷ n.before;
      after = n.after;
      split = ap (λ (xs : List Tag). t ∷ xs) n.split;
      later = λ u m. elim (mem-cons_cases m) [ inl q ↦ rw q (omega arith) | inr k ↦ n.later u k ];
      no_earlier = n.no_earlier;
    },
  )

  last_tag_loop-Found :
      (latest : Tag) (time : ℕ) (tags : List Tag)
      → Found latest time tags (last_tag_loop parse_time latest time tags)
  unfolding last_tag_loop
  last_tag_loop-Found latest time [] = inl (refl, λ u m. elim m [ ])
  last_tag_loop-Found latest time (t ∷ ts) = elim (Bool-cases (ltb time (at t))) [
    | inl e ↦
        rw (e, if◌then◌else◌)
          (Found-newer latest t _ time ts (ground arith) (last_tag_loop-Found t (at t) ts))
    | inr e ↦
        rw (e, if◌then◌else◌)
          (Found-older latest t _ time ts (ground arith) (last_tag_loop-Found latest time ts))
  ]

  returned :
      (tags : List Tag) (t : Tag)
      → get_last_tag parse_time tags ≡ ok t
      → (t.name ≢ "") × (last_tag_loop parse_time zero_tag 0 tags ≡ t)
  unfolding get_last_tag
  returned tags t h = ground (arith, eq_iff (last_tag_loop parse_time zero_tag 0 tags).name "")

  -- A tag that is returned has a name and a time, and is the first of the newest tags of the list.
  pub get_last_tag-IsNewest :
      (tags : List Tag) (t : Tag)
      → get_last_tag parse_time tags ≡ ok t
      → (t.name ≢ "") × (0 < created_at parse_time t) × IsNewest parse_time t tags
  get_last_tag-IsNewest tags t h =
      let (named, same) = returned tags t h in
      elim (subst (Found zero_tag 0 tags) same (last_tag_loop-Found zero_tag 0 tags)) [
        | inl (zero_, _) ↦ absurd (named (ap (λ (v : Tag). v.name) zero_))
        | inr (timed, newest) ↦ (named, timed, newest)
      ]

  -- Where every tag has a name and some tag has a time, a tag is returned.
  pub get_last_tag_total :
      (tags : List Tag) (u : Tag)
      → ((v : Tag) → Memᴰ v tags → v.name ≢ "")
      → Memᴰ u tags
      → 0 < created_at parse_time u
      → (t : Tag) × (get_last_tag parse_time tags ≡ ok t)
  unfolding get_last_tag
  get_last_tag_total tags u named m timed =
      let r = last_tag_loop parse_time zero_tag 0 tags in
      elim (last_tag_loop-Found zero_tag 0 tags) [
        | inl (_, rest) ↦ absurd (omega (arith, rest u m))
        | inr (_, n) ↦
            let has_name = named r (subst (Memᴰ r) (sym n.split) (mem_middle n.before n.after)) in
            (r, ground (arith, has_name, eq_iff r.name ""))
      ]
