-- ===== src/Transaction/Card/Mask.antt =====
-- What a masked card number shows, and what a card keeps of its number.
use native.Mathlib.Nat.{zero-add, suc-add}
use adquirente.Base.{
  ℕ, zero, suc, ◌+◌, ◌-◌, ◌≤◌, ◌<◌, ◌≡◌, refl, ◌∙◌, ap, inl, inr, true, false, Bool-cases, some, [],
  ◌∷◌, ◌++◌, length, length-append, length-replicate, get_elem?, replicate, arith, ltb,
  ltb_false→le, String, str_eq,
}
use adquirente.Base.Texts.{Text, codes}
use adquirente.Shared.Error.{ok}
use adquirente.Transaction.Card.Luhn.{luhn-length}
use adquirente.Transaction.Card.{CardInfo, luhn, brand_of, card_info_from_pan, mask_pan, take, drop}

length-take : (n : ℕ) (s : Text) → n ≤ length s → length (take n s) ≡ n
length-take zero s h = refl
length-take (suc n) [] h = absurd (omega arith)
length-take (suc n) (c ∷ s) h = omega (arith, length-take n s)

length-drop : (n : ℕ) (s : Text) → length (drop n s) ≡ length s - n
length-drop zero s = omega arith
length-drop (suc n) [] = omega arith
length-drop (suc n) (c ∷ s) = omega (arith, length-drop n s)

get_elem?-replicate : (n i : ℕ) (c : ℕ) → i < n → get_elem? (replicate n c) i ≡ some c
get_elem?-replicate zero i c h = absurd (omega arith)
get_elem?-replicate (suc n) zero c h = refl
get_elem?-replicate (suc n) (suc i) c h = get_elem?-replicate n i c (omega arith)

get_elem?-append_left :
    (xs ys : Text) (i : ℕ) → i < length xs → get_elem? (xs ++ ys) i ≡ get_elem? xs i
get_elem?-append_left [] ys i h = absurd (omega arith)
get_elem?-append_left (x ∷ xs) ys zero h = refl
get_elem?-append_left (x ∷ xs) ys (suc i) h = get_elem?-append_left xs ys i (omega arith)

get_elem?-append_right :
    (xs ys : Text) (i : ℕ) → get_elem? (xs ++ ys) (length xs + i) ≡ get_elem? ys i
get_elem?-append_right [] ys i = rw zero-add
get_elem?-append_right (x ∷ xs) ys i = rw suc-add (get_elem?-append_right xs ys i)

stars_between :
    (pan : Text) (i : ℕ)
    → 10 ≤ length pan
    → i < length pan - 10
    → get_elem?
        (take 6 pan ++ (replicate (length pan - 10) b'*' ++ drop (length pan - 4) pan))
        (6 + i)
      ≡ some b'*'
stars_between pan i long h =
    let stars : Text = replicate (length pan - 10) b'*' in
    let last : Text = drop (length pan - 4) pan in
    let six : length (take 6 pan) ≡ 6 = length-take 6 pan (omega arith) in
    rw (ap (λ n. n + i) six) at (get_elem?-append_right (take 6 pan) (stars ++ last) i)
    ∙ get_elem?-append_left stars last i (rw length-replicate h)
    ∙ get_elem?-replicate (length pan - 10) i b'*' h

-- The mask has as many characters as the number, and shows a star at every place from the seventh
-- to the fifth from the end.
pub mask_pan_hides :
    (pan : Text)
    → (length (mask_pan pan) ≡ length pan)
      × ((i : ℕ) → 6 ≤ i → i + 4 < length pan → get_elem? (mask_pan pan) i ≡ some b'*')
unfolding mask_pan
mask_pan_hides pan = elim (Bool-cases (ltb (length pan) 10)) [
  | inl short ↦ (
    rw short (length-replicate (length pan) b'*'),
    λ i low high. rw short (get_elem?-replicate (length pan) i b'*' (omega arith)),
  )
  | inr long ↦ (
    rw (long, length-append, length-append, length-replicate, length-drop)
        (omega (arith, length-take 6 pan, ltb_false→le _ _ long)),
    λ i low high.
        rw long
          (rw (from_six i low) (stars_between pan (i - 6) (ltb_false→le _ _ long) (omega arith))),
  )
]
  where
    from_six : (i : ℕ) → 6 ≤ i → i ≡ 6 + (i - 6)
    from_six i h = omega arith

-- A stored card: the token is the given one and not empty, the number passes the check, and what is
-- kept of it are its first six and its last four digits, four of them and six.
pub card_info_from_pan-ok :
    (token : String) (pan : Text) {info : CardInfo}
    → card_info_from_pan token pan ≡ ok info
    → (luhn pan ≡ true)
      × (str_eq token "" ≡ false)
      × (info ≡ record {
        token = token;
        brand = brand_of pan;
        bin = take 6 pan;
        last4 = drop (length pan - 4) pan;
      })
      × (length info.bin ≡ 6)
      × (length info.last4 ≡ 4)
unfolding card_info_from_pan
card_info_from_pan-ok token pan {info} h = elim (Bool-cases (str_eq token "")) [
  | inl empty ↦ absurd (cc (rw empty at h))
  | inr named ↦ elim (Bool-cases (luhn pan)) [
    | inr fails ↦ absurd (cc (rw (named, fails) at h))
    | inl passes ↦
        let made : info ≡ record {
          token = token;
          brand = brand_of pan;
          bin = take 6 pan;
          last4 = drop (length pan - 4) pan;
        } =
          cc (rw (named, passes) at h) in
        let (long, short) = luhn-length pan passes in
        (
          passes,
          named,
          made,
          rw made (length-take 6 pan (omega arith)),
          rw (made, length-drop) (omega arith),
        )
  ]
]

-- Every number that starts with 4 is taken for a Visa, also one with the Elo prefix 4576, which the
-- third case of the switch lists and can never see.
pub brand_of-elo_4576 : (rest : Text) → brand_of (codes "4576" ++ rest) ≡ "VISA"
unfolding brand_of
brand_of-elo_4576 rest = refl
