-- ===== src/Plan/Rows/Keep.antt =====
-- Lists of rows under tests: what is kept, and the pairs of nested loops.
use crustydb_labs_cs378_spri.Prelude.{
  Bool, true, false, ◌&&◌, List, [], ◌∷◌, ◌++◌, map, ◌≡◌, refl, sym, ap, ◌∙◌, if◌then◌else◌, inl,
  inr, Bool-cases,
}

module _ {A : Type 0} where
  abbrev pub keep : (A → Bool) → List A → List A
  keep test [] = []
  keep test (x ∷ xs) = if test x then x ∷ keep test xs else keep test xs

  abbrev pub All : (A → Type 0) → List A → Type 0
  All P [] = Unit {0}
  All P (x ∷ xs) = P x × All P xs

  pub All-append : (P : A → Type 0) (xs ys : List A) → All P xs → All P ys → All P (xs ++ ys)
  All-append P [] ys a b = b
  All-append P (x ∷ xs) ys (p, a) b = (p, All-append P xs ys a b)

  pub All-keep : (P : A → Type 0) (test : A → Bool) (xs : List A) → All P xs → All P (keep test xs)
  All-keep P test [] a = a
  All-keep P test (x ∷ xs) (p, a) = elim (Bool-cases (test x)) [
    | inl yes_ ↦ rw (yes_) (p, All-keep P test xs a)
    | inr no_ ↦ rw (no_) (All-keep P test xs a)
  ]

  -- A second test after a first one.
  pub keep-keep : (p q : A → Bool) (xs : List A) → keep p (keep q xs) ≡ keep (λ x. q x && p x) xs
  keep-keep p q [] = refl
  keep-keep p q (x ∷ xs) = elim (Bool-cases (q x)) [
    | inl yes_ ↦ rw (yes_, keep-keep p q xs) refl
    | inr no_ ↦ rw (no_) (keep-keep p q xs)
  ]

  -- Tests that agree on the elements keep the same ones.
  pub keep_agree :
      (P : A → Type 0) (p q : A → Bool) (xs : List A)
      → All P xs
      → ((x : A) → P x → p x ≡ q x)
      → keep p xs ≡ keep q xs
  keep_agree P p q [] a same = refl
  keep_agree P p q (x ∷ xs) (px, a) same = rw (same x px, keep_agree P p q xs a same) refl

  pub keep_all : (xs : List A) → keep (λ _. true) xs ≡ xs
  keep_all [] = refl
  keep_all (x ∷ xs) = ap (λ t. x ∷ t) (keep_all xs)

module _ {A B : Type 0} where
  pub keep-map :
      (test : B → Bool) (f : A → B) (xs : List A)
      → keep test (map f xs) ≡ map f (keep (λ x. test (f x)) xs)
  keep-map test f [] = refl
  keep-map test f (x ∷ xs) = elim (Bool-cases (test (f x))) [
    | inl yes_ ↦ rw (yes_, keep-map test f xs) refl
    | inr no_ ↦ rw (no_) (keep-map test f xs)
  ]

  pub All-map :
      (P : A → Type 0) (Q : B → Type 0) (f : A → B) (xs : List A)
      → All P xs
      → ((x : A) → P x → Q (f x))
      → All Q (map f xs)
  All-map P Q f [] a h = tt
  All-map P Q f (x ∷ xs) (px, a) h = (h x px, All-map P Q f xs a h)

module _ {F : Type 0} where
  -- The inner loop, for one element of the outer one.
  abbrev pub beside : (List F → List F → Bool) → List F → List (List F) → List (List F)
  beside test x [] = []
  beside test x (y ∷ ys) = if test x y then (x ++ y) ∷ beside test x ys else beside test x ys

  abbrev pub nested : (List F → List F → Bool) → List (List F) → List (List F) → List (List F)
  nested test [] ys = []
  nested test (x ∷ xs) ys = beside test x ys ++ nested test xs ys

  keep-append :
      (test : List F → Bool) (xs ys : List (List F))
      → keep test (xs ++ ys) ≡ keep test xs ++ keep test ys
  keep-append test [] ys = refl
  keep-append test (x ∷ xs) ys = elim (Bool-cases (test x)) [
    | inl yes_ ↦ rw (yes_, keep-append test xs ys) refl
    | inr no_ ↦ rw (no_) (keep-append test xs ys)
  ]

  keep-beside :
      (p : List F → Bool) (test : List F → List F → Bool) (x : List F) (ys : List (List F))
      → keep p (beside test x ys) ≡ beside (λ a b. test a b && p (a ++ b)) x ys
  keep-beside p test x [] = refl
  keep-beside p test x (y ∷ ys) = elim (Bool-cases (test x y)) [
    | inl yes_ ↦ rw (yes_, keep-beside p test x ys) refl
    | inr no_ ↦ rw (no_) (keep-beside p test x ys)
  ]

  -- A test of the joined rows is one more test in the loops.
  pub keep-nested :
      (p : List F → Bool) (test : List F → List F → Bool) (xs ys : List (List F))
      → keep p (nested test xs ys) ≡ nested (λ a b. test a b && p (a ++ b)) xs ys
  keep-nested p test [] ys = refl
  keep-nested p test (x ∷ xs) ys =
      keep-append p (beside test x ys) (nested test xs ys)
      ∙ rw (keep-beside p test x ys, keep-nested p test xs ys) refl

  beside_agree :
      (P : List F → Type 0) (f g : List F → List F → Bool) (x : List F) (ys : List (List F))
      → All P ys
      → ((y : List F) → P y → f x y ≡ g x y)
      → beside f x ys ≡ beside g x ys
  beside_agree P f g x [] a same = refl
  beside_agree P f g x (y ∷ ys) (py, a) same = rw (same y py, beside_agree P f g x ys a same) refl

  pub nested_agree :
      (P Q : List F → Type 0) (f g : List F → List F → Bool) (xs ys : List (List F))
      → All P xs
      → All Q ys
      → ((x y : List F) → P x → Q y → f x y ≡ g x y)
      → nested f xs ys ≡ nested g xs ys
  nested_agree P Q f g [] ys a b same = refl
  nested_agree P Q f g (x ∷ xs) ys (px, a) b same =
      rw (beside_agree Q f g x ys b (λ y qy. same x y px qy), nested_agree P Q f g xs ys a b same)
        refl

  beside-keep :
      (q : List F → Bool) (test : List F → List F → Bool) (x : List F) (ys : List (List F))
      → beside test x (keep q ys) ≡ beside (λ a b. q b && test a b) x ys
  beside-keep q test x [] = refl
  beside-keep q test x (y ∷ ys) = elim (Bool-cases (q y)) [
    | inl yes_ ↦ rw (yes_, beside-keep q test x ys) refl
    | inr no_ ↦ rw (no_) (beside-keep q test x ys)
  ]

  beside_none :
      (test : List F → List F → Bool) (x : List F) (ys : List (List F))
      → ((y : List F) → test x y ≡ false)
      → beside test x ys ≡ []
  beside_none test x [] never = refl
  beside_none test x (y ∷ ys) never = rw (never y) (beside_none test x ys never)

  -- Loops over what two tests kept are loops with both tests.
  pub nested-keep :
      (p q : List F → Bool) (test : List F → List F → Bool) (xs ys : List (List F))
      → nested test (keep p xs) (keep q ys) ≡ nested (λ a b. p a && (q b && test a b)) xs ys
  nested-keep p q test [] ys = refl
  nested-keep p q test (x ∷ xs) ys = elim (Bool-cases (p x)) [
    | inl yes_ ↦ rw (yes_) (
        ap (λ t. t ++ nested test (keep p xs) (keep q ys))
          (beside-keep q test x ys
            ∙ beside_agree (λ _. Unit {0}) (λ a b. q b && test a b)
                (λ a b. p a && (q b && test a b)) x ys (units ys) (λ y u. rw (yes_) refl))
        ∙ ap (λ t. beside (λ a b. p a && (q b && test a b)) x ys ++ t) (nested-keep p q test xs ys))
    | inr no_ ↦ rw (no_) (
        nested-keep p q test xs ys
        ∙ ap (λ t. t ++ nested (λ a b. p a && (q b && test a b)) xs ys)
            (sym (beside_none (λ a b. p a && (q b && test a b)) x ys (λ y. rw (no_) refl))))
  ]
    where
      units : (zs : List (List F)) → All (λ _. Unit {0}) zs
      units [] = tt
      units (z ∷ zs) = (tt, units zs)

  All-beside :
      (P Q R : List F → Type 0) (test : List F → List F → Bool) (x : List F) (ys : List (List F))
      → P x
      → All Q ys
      → ((a b : List F) → P a → Q b → R (a ++ b))
      → All R (beside test x ys)
  All-beside P Q R test x [] px b h = tt
  All-beside P Q R test x (y ∷ ys) px (qy, b) h = elim (Bool-cases (test x y)) [
    | inl yes_ ↦ rw (yes_) (h x y px qy, All-beside P Q R test x ys px b h)
    | inr no_ ↦ rw (no_) (All-beside P Q R test x ys px b h)
  ]

  pub All-nested :
      (P Q R : List F → Type 0) (test : List F → List F → Bool) (xs ys : List (List F))
      → All P xs
      → All Q ys
      → ((a b : List F) → P a → Q b → R (a ++ b))
      → All R (nested test xs ys)
  All-nested P Q R test [] ys a b h = tt
  All-nested P Q R test (x ∷ xs) ys (px, a) b h =
      All-append R (beside test x ys) (nested test xs ys) (All-beside P Q R test x ys px b h)
        (All-nested P Q R test xs ys a b h)
