-- ===== src/Text/Equal.antt =====
-- The comparison of texts decides their equality.
use mm_mem.Base.{[], ◌∷◌, ◌≡◌, refl, ap, ◌∙◌, true, arith}
use mm_mem.Text.{Text, text_eq}

pub text_eq_refl : (s : Text) → text_eq s s ≡ true
unfolding text_eq
text_eq_refl [] = refl
text_eq_refl (c ∷ s) = ground (arith, text_eq_refl s)

pub text_eq-≡ : (s t : Text) → text_eq s t ≡ true → s ≡ t
unfolding text_eq
text_eq-≡ [] [] h = refl
text_eq-≡ [] (b ∷ t) h = cc h
text_eq-≡ (a ∷ s) [] h = cc h
text_eq-≡ (a ∷ s) (b ∷ t) h =
    let same : a ≡ b = ground (arith) in
    let rest : s ≡ t = text_eq-≡ s t (ground (arith)) in ap (λ c. c ∷ s) same ∙ ap (λ u. b ∷ u) rest
