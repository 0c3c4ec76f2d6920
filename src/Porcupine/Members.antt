-- ===== src/Porcupine/Members.antt =====
-- What is in a list, for the lists of kvraft/porcupine.cpp.
use chon_kv.Base.{◌≡◌, refl, sym, ap, subst, ◌⊎◌, inl, inr, List, [], ◌∷◌, ◌++◌}
use chon_kv.Codec.RoundTrip.{All}

abbrev pub Member : {A : Type 0} → A → List A → Type 0
Member x [] = ⊥
Member x (y ∷ ys) = (x ≡ y) ⊎ Member x ys

module _ {A : Type 0} where
  pub Member-split :
      (x : A) (ys : List A)
      → Member x ys
      → (before : List A) × ((after : List A) × (ys ≡ before ++ x ∷ after))
  Member-split x [] h = absurd h
  Member-split x (y ∷ ys) (inl e) = ([], (ys, ap (λ z. z ∷ ys) (sym e)))
  Member-split x (y ∷ ys) (inr h) =
      let (before, (after, e)) = Member-split x ys h in (y ∷ before, (after, ap (λ t. y ∷ t) e))

  pub Member-more :
      (p x : A) (before after : List A)
      → Member p (before ++ after)
      → Member p (before ++ x ∷ after)
  Member-more p x [] after h = inr h
  Member-more p x (y ∷ before) after (inl e) = inl e
  Member-more p x (y ∷ before) after (inr h) = inr (Member-more p x before after h)

  pub Member-less :
      (p x : A) (before after : List A)
      → Member p (before ++ x ∷ after)
      → (p ≡ x) ⊎ Member p (before ++ after)
  Member-less p x [] after h = h
  Member-less p x (y ∷ before) after (inl e) = inr (inl e)
  Member-less p x (y ∷ before) after (inr h) = elim (Member-less p x before after h) [
    | inl e ↦ inl e
    | inr g ↦ inr (inr g)
  ]

  pub All_at : (P : A → Type 0) (x : A) (ys : List A) → All P ys → Member x ys → P x
  All_at P x [] h g = absurd g
  All_at P x (y ∷ ys) h (inl e) = subst P (sym e) h.0
  All_at P x (y ∷ ys) h (inr g) = All_at P x ys h.1 g

  pub All-of : (P : A → Type 0) (ys : List A) → ((x : A) → Member x ys → P x) → All P ys
  All-of P [] f = tt
  All-of P (y ∷ ys) f = (f y (inl refl), All-of P ys (λ x h. f x (inr h)))

  pub All-middle :
      (P : A → Type 0) (x : A) (before after : List A)
      → All P (before ++ x ∷ after)
      → P x × All P (before ++ after)
  All-middle P x [] after h = h
  All-middle P x (y ∷ before) after h = let r = All-middle P x before after h.1 in (r.0, (h.0, r.1))
