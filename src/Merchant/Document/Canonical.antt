-- ===== src/Merchant/Document/Canonical.antt =====
-- The stored form of a document is a fixed point of its reading.
use adquirente.Base.{
  ℕ, suc, ◌≡◌, refl, sym, ap, ◌∙◌, Bool, true, false, not, [], ◌∷◌, length, ◌==◌, arith,
  if◌then◌else◌,
}
use adquirente.Base.Texts.{Text}
use adquirente.Shared.Error.{Error, Result, ok, err, invalid_document}
use adquirente.Store.Tables.{ok_injective}
use adquirente.Merchant.Document.{
  is_separator, without_separators, is_allowed, is_uniform, is_checked, judged, new_document,
}

-- `strings.ToUpper` leaves digits and capitals as they are.
abbrev pub KeepsCapitals : (Text → Text) → Type 0
KeepsCapitals upper = (t : Text) → is_allowed 0 t ≡ true → upper t ≡ t

if_ok :
    {A : Type 0} (b : Bool) (e : Error) (r : Result A) {a : A}
    → (if b then err e else r) ≡ ok a
    → (b ≡ false) × (r ≡ ok a)
if_ok true e r h = absurd cc
if_ok false e r h = (refl, h)

allowed_head :
    (i c : ℕ) (t : Text)
    → is_allowed i (c ∷ t) ≡ true
    → (is_separator c ≡ false) × (is_allowed (suc i) t ≡ true)
allowed_head i c t h = ground arith

without_separators-is_allowed :
    (i : ℕ) (t : Text) → is_allowed i t ≡ true → without_separators t ≡ t
without_separators-is_allowed i [] h = refl
without_separators-is_allowed i (c ∷ t) h =
    let (plain, rest) = allowed_head i c t h in
    rw plain (ap (λ s. c ∷ s) (without_separators-is_allowed (suc i) t rest))

not-false : (b : Bool) → not b ≡ false → b ≡ true
not-false true h = refl
not-false false h = absurd cc

judged_ok :
    (clean : Text) {d : Text}
    → judged clean ≡ ok d
    → (d ≡ clean) × (is_allowed 0 clean ≡ true) × (judged clean ≡ ok clean)
unfolding judged
judged_ok clean h =
    let (long, h1) = if_ok (not (length clean == 14)) invalid_document _ h in
    let (allowed, h2) = if_ok (not (is_allowed 0 clean)) invalid_document _ h1 in
    let (mixed, h3) = if_ok (is_uniform clean) invalid_document _ h2 in
    let (checked, last) = if_ok (not (is_checked clean)) invalid_document _ h3 in
    let same = sym (ok_injective last) in
    (same, not-false (is_allowed 0 clean) allowed, h ∙ ap ok same)

-- A document that was read is read as itself: what is stored, printed and read again is the same
-- document. `ToUpper` leaves digits and capital letters as they are.
pub new_document_again :
    (upper : Text → Text) (raw d : Text)
    → KeepsCapitals upper
    → new_document upper raw ≡ ok d
    → new_document upper d ≡ ok d
unfolding new_document
new_document_again upper raw d keeps h =
    let (same, allowed, again) = judged_ok (upper (without_separators raw)) h in
    ap (λ t. judged (upper t))
      (ap without_separators same ∙ without_separators-is_allowed 0 _ allowed)
    ∙ ap judged (keeps _ allowed)
    ∙ again
    ∙ ap ok (sym same)
