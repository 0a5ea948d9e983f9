-- ===== src/Common/Apart.antt =====
-- Rows that are apart in pairs: lists in which a relation holds between each row and the later ones
-- (`@@unique` of backend/prisma/schema.prisma, on any columns).
use oculus_business.Common.{
  ◌≡◌, refl, sym, ◌∙◌, ◌⊎◌, inl, inr, Bool, true, false, none, List, [], ◌∷◌, ◌++◌, arith,
  if◌then◌else◌, Bool-cases, find, filter, All, Has, map, ℕ, leb,
}
use mathlib.Core.Path.{subst}
use oculus_business.Common.Sort.{insert_by, sort_by, All-insert_by, All-sort_by}
use oculus_business.Common.Rows.{All_both, update_many, All-Has, All-update_many_imp}

abbrev pub Apart : {A : Type 0} → (A → A → Type 0) → List A → Type 0
Apart R [] = Unit
Apart R (x ∷ xs) = All (R x) xs × Apart R xs

pub All-filter :
    {A : Type 0} (P : A → Type 0) (keep : A → Bool) (xs : List A)
    → All P xs
    → All P (filter keep xs)
All-filter P keep [] h = tt
All-filter P keep (x ∷ xs) (h, hs) = ground (arith, All-filter P keep xs hs)

-- What the kept rows satisfy besides.
pub All-kept :
    {A : Type 0} (keep : A → Bool) (xs : List A) → All (λ x. keep x ≡ true) (filter keep xs)
All-kept keep [] = tt
All-kept keep (x ∷ xs) = ground (arith, All-kept keep xs)

pub All-none :
    {A : Type 0} (p : A → Bool) (xs : List A) → find p xs ≡ none → All (λ x. p x ≡ false) xs
All-none p [] e = tt
All-none p (x ∷ xs) e = ground (arith, All-none p xs)

pub Apart-filter :
    {A : Type 0} (R : A → A → Type 0) (keep : A → Bool) (xs : List A)
    → Apart R xs
    → Apart R (filter keep xs)
Apart-filter R keep [] h = tt
Apart-filter R keep (x ∷ xs) (h, hs) =
    let rest = Apart-filter R keep xs hs in
    let own = All-filter (R x) keep xs h in
    elim (Bool-cases (keep x)) [ inl e ↦ rw e (own, rest) | inr e ↦ rw e rest ]

-- The rows that are left without one row are apart from it.
pub Apart-others :
    {A : Type 0} (R : A → A → Type 0) (keep : A → Bool) (x : A) (xs : List A)
    → ((y z : A) → R y z → R z y)
    → Apart R xs
    → Has x xs
    → keep x ≡ false
    → All (R x) (filter keep xs)
Apart-others R keep x [] sym_R h m e = elim m [ ]
Apart-others R keep x (y ∷ ys) sym_R (h, hs) (inl q) e =
    let off = subst (λ z. keep z ≡ false) (sym q) e in
    rw off (All-filter (R x) keep ys (subst (λ z. All (R z) ys) q h))
Apart-others R keep x (y ∷ ys) sym_R (h, hs) (inr m) e =
    let rest = Apart-others R keep x ys sym_R hs m e in
    let own = sym_R y x (All-Has (R y) x ys h m) in
    elim (Bool-cases (keep y)) [ inl k ↦ rw k (own, rest) | inr k ↦ rw k rest ]

-- A change of rows keeps them apart where it keeps each pair apart.
pub Apart-update_many :
    {A : Type 0} (R : A → A → Type 0) (Q : A → Type 0) (p : A → Bool) (f : A → A) (xs : List A)
    → ((x y : A) → Q x → Q y → R x y → p x ≡ true → p y ≡ true → R (f x) (f y))
    → ((x y : A) → Q x → Q y → R x y → p x ≡ true → p y ≡ false → R (f x) y)
    → ((x y : A) → Q x → Q y → R x y → p x ≡ false → p y ≡ true → R x (f y))
    → All Q xs
    → Apart R xs
    → Apart R (update_many p f xs).0
unfolding update_many
Apart-update_many R Q p f [] both left right q h = tt
Apart-update_many R Q p f (x ∷ xs) both left right (q, qs) (h, hs) =
    let rest = Apart-update_many R Q p f xs both left right qs hs in
    let pairs = All_both Q (R x) xs qs h in
    elim (Bool-cases (p x)) [
      | inl e ↦ rw e (
        All-update_many_imp p f (λ y. Q y × R x y) (R (f x)) xs (λ y k e'. both x y q k.0 k.1 e e')
            (λ y k e'. left x y q k.0 k.1 e e') pairs,
        rest,
      )
      | inr e ↦ rw e (
        All-update_many_imp p f (λ y. Q y × R x y) (R x) xs (λ y k e'. right x y q k.0 k.1 e e')
            (λ y k e'. k.1) pairs,
        rest,
      )
    ]

-- Two rows of the list are one row, or apart.
pub Apart-Has :
    {A : Type 0} (R : A → A → Type 0) (x y : A) (xs : List A)
    → ((y z : A) → R y z → R z y)
    → Apart R xs
    → Has x xs
    → Has y xs
    → (x ≡ y) ⊎ R x y
Apart-Has R x y [] sym_R h m n = elim m [ ]
Apart-Has R x y (z ∷ zs) sym_R (h, hs) (inl q) (inl r) = inl (sym q ∙ r)
Apart-Has R x y (z ∷ zs) sym_R (h, hs) (inl q) (inr n) =
    inr (subst (λ w. R w y) q (All-Has (R z) y zs h n))
Apart-Has R x y (z ∷ zs) sym_R (h, hs) (inr m) (inl r) =
    inr (sym_R y x (subst (λ w. R w x) r (All-Has (R z) x zs h m)))
Apart-Has R x y (z ∷ zs) sym_R (h, hs) (inr m) (inr n) = Apart-Has R x y zs sym_R hs m n

pub All-of : {A : Type 0} (P : A → Type 0) (xs : List A) → ((x : A) → Has x xs → P x) → All P xs
All-of P [] h = tt
All-of P (x ∷ xs) h = (h x (inl refl), All-of P xs (λ y m. h y (inr m)))

Has-hit :
    {A : Type 0} (keep : A → Bool) (x y : A) (ys rest : List A)
    → (Has x rest → Has x ys × (keep x ≡ true))
    → keep y ≡ true
    → Has x (y ∷ rest)
    → Has x (y ∷ ys) × (keep x ≡ true)
Has-hit keep x y ys rest ih e (inl q) = (inl q, subst (λ z. keep z ≡ true) q e)
Has-hit keep x y ys rest ih e (inr n) = let (m, k) = ih n in (inr m, k)

pub Has-filter :
    {A : Type 0} (keep : A → Bool) (x : A) (xs : List A)
    → Has x (filter keep xs)
    → Has x xs × (keep x ≡ true)
Has-filter keep x [] m = elim m [ ]
Has-filter keep x (y ∷ ys) m =
    let rest = filter keep ys in
    let met = λ (b : Bool). Has x (if b then y ∷ rest else rest) in
    let ih = Has-filter keep x ys in
    elim (Bool-cases (keep y)) [
      | inl e ↦ Has-hit keep x y ys rest ih e (subst met e m)
      | inr e ↦ let (n, k) = ih (subst met e m) in (inr n, k)
    ]

pub All-append :
    {A : Type 0} (P : A → Type 0) (xs ys : List A) → All P xs → All P ys → All P (xs ++ ys)
All-append P [] ys h k = k
All-append P (x ∷ xs) ys (h, hs) k = (h, All-append P xs ys hs k)

pub All-map :
    {A B : Type 0} (P : B → Type 0) (f : A → B) (xs : List A)
    → All (λ x. P (f x)) xs
    → All P (map f xs)
All-map P f [] h = tt
All-map P f (x ∷ xs) (h, hs) = (h, All-map P f xs hs)

pub Apart-insert_by :
    {A : Type 0} (key : A → ℕ) (R : A → A → Type 0) (x : A) (xs : List A)
    → ((y z : A) → R y z → R z y)
    → All (R x) xs
    → Apart R xs
    → Apart R (insert_by key x xs)
unfolding insert_by
Apart-insert_by key R x [] sym_R h k = (tt, tt)
Apart-insert_by key R x (y ∷ ys) sym_R (h, hs) (k, ks) =
    let rest = Apart-insert_by key R x ys sym_R hs ks in
    let own = All-insert_by key (R y) x ys (sym_R x y h) k in
    elim (Bool-cases (leb (key x) (key y))) [
      | inl e ↦ rw e ((h, hs), (k, ks))
      | inr e ↦ rw e (own, rest)
    ]

-- Sorting keeps rows apart.
pub Apart-sort_by :
    {A : Type 0} (key : A → ℕ) (R : A → A → Type 0) (xs : List A)
    → ((y z : A) → R y z → R z y)
    → Apart R xs
    → Apart R (sort_by key xs)
unfolding sort_by
Apart-sort_by key R [] sym_R h = tt
Apart-sort_by key R (x ∷ xs) sym_R (h, hs) =
    Apart-insert_by key R x (sort_by key xs) sym_R (All-sort_by key (R x) xs h)
      (Apart-sort_by key R xs sym_R hs)
