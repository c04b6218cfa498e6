-- ===== src/Expr/Prefix.antt =====
-- Lists that begin another one, and what is read at their ends.
use crustydb_labs_cs378_spri.Prelude.{
  ◌≡◌, refl, sym, ap, ◌∙◌, subst, List, [], ◌∷◌, ◌++◌, some, length, get_elem?, get_elem?-append,
}

abbrev pub Prefix {ℓ} : {A : Type ℓ} → List A → List A → Type ℓ
Prefix {A = A} xs zs = (ys : List A) × (xs ++ ys ≡ zs)

module _ {ℓ} {A : Type ℓ} where
  append_assoc : (xs ys zs : List A) → (xs ++ ys) ++ zs ≡ xs ++ (ys ++ zs)
  append_assoc [] ys zs = refl
  append_assoc (x ∷ xs) ys zs = ap (λ t. x ∷ t) (append_assoc xs ys zs)

  append_nil : (xs : List A) → xs ++ [] ≡ xs
  append_nil [] = refl
  append_nil (x ∷ xs) = ap (λ t. x ∷ t) (append_nil xs)

  pub Prefix_refl : (xs : List A) → Prefix xs xs
  Prefix_refl xs = ([], append_nil xs)

  pub Prefix_append : (xs ys : List A) → Prefix xs (xs ++ ys)
  Prefix_append xs ys = (ys, refl)

  pub Prefix_trans : (xs ys zs : List A) → Prefix xs ys → Prefix ys zs → Prefix xs zs
  Prefix_trans xs ys zs (as', p) (bs, q) =
      (as' ++ bs, sym (append_assoc xs as' bs) ∙ ap (λ t. t ++ bs) p ∙ q)

  -- The last element of a prefix is found in the whole list.
  pub get_elem?-Prefix :
      (xs : List A) (y : A) {zs : List A}
      → Prefix (xs ++ y ∷ []) zs
      → get_elem? zs (length xs) ≡ some y
  get_elem?-Prefix xs y (ys, p) =
      subst (λ t. get_elem? t (length xs) ≡ some y) (sym (append_assoc xs (y ∷ []) ys) ∙ p)
        (get_elem?-append xs y ys)
