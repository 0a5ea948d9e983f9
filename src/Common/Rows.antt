-- ===== src/Common/Rows.antt =====
-- A table is the list of its rows: `updateMany` on rows of any type, and its lemmas.
use oculus_business.Common.{
  ℕ, suc, ◌≡◌, refl, sym, ap, ◌∙◌, ◌≢◌, inl, inr, Bool, true, false, Option, none, some, List, [],
  ◌∷◌, arith, if◌then◌else◌, Bool-cases, find, All, Has,
}
use mathlib.Core.Path.{◌≡◌, subst, refl, sym, ap, ◌∙◌}
use mathlib.Core.Bool.{Bool, true, false}
use mathlib.Core.Logic.{◌≢◌, inl, inr}
use mathlib.Core.Option.{Option, none, some, some_inj}
use mathlib.Core.List.{List, [], ◌∷◌}
use Prim.Native.Nat.{ℕ, suc}
use native.Mathlib.Omega.{arith}
use oculus_business.Common.Tests.{if◌then◌else◌, Bool-cases}
use oculus_business.Common.Lists.{All, Has, find}

-- `updateMany`: the rows after it and how many matched.
unfoldable pub update_many : {A : Type 0} → (A → Bool) → (A → A) → List A → List A × ℕ
update_many p f [] = ([], 0)
update_many p f (x ∷ xs) =
    let rest = update_many p f xs in
    if p x then (f x ∷ rest.0, suc rest.1) else (x ∷ rest.0, rest.1)

-- No two rows share an identifier.
abbrev pub UniqueBy : {A : Type 0} → (A → ℕ) → List A → Type 0
UniqueBy id [] = Unit
UniqueBy id (x ∷ xs) = All (λ y. id y ≢ id x) xs × UniqueBy id xs

module _ {A : Type 0} where
  abbrev map_found : (A → A) → Option A → Option A
  map_found f none = none
  map_found f (some x) = some (f x)

  find_hit : (p : A → Bool) (x : A) (xs : List A) → p x ≡ true → find p (x ∷ xs) ≡ some x
  find_hit p x xs h = rw h refl

  find_miss : (p : A → Bool) (x : A) (xs : List A) → p x ≡ false → find p (x ∷ xs) ≡ find p xs
  find_miss p x xs h = rw h refl

  pub All-Has : (P : A → Type 0) (x : A) (xs : List A) → All P xs → Has x xs → P x
  All-Has P x [] h m = elim m [ ]
  All-Has P x (y ∷ ys) (h, hs) (inl e) = subst P e h
  All-Has P x (y ∷ ys) (h, hs) (inr m) = All-Has P x ys hs m

  pub find-Has : (p : A → Bool) (x : A) (xs : List A) → find p xs ≡ some x → Has x xs × (p x ≡ true)
  find-Has p x [] h = cc
  find-Has p x (y ∷ ys) h = ground (arith, find-Has p x ys)

pub All-imp :
    {A : Type 0} (P Q : A → Type 0) (xs : List A) → ((x : A) → P x → Q x) → All P xs → All Q xs
All-imp P Q [] imp h = tt
All-imp P Q (x ∷ xs) imp (h, hs) = (imp x h, All-imp P Q xs imp hs)

pub All_both :
    {A : Type 0} (P Q : A → Type 0) (xs : List A) → All P xs → All Q xs → All (λ x. P x × Q x) xs
All_both P Q [] h k = tt
All_both P Q (x ∷ xs) (h, hs) (k, ks) = ((h, k), All_both P Q xs hs ks)

module _ {A : Type 0} (p : A → Bool) (f : A → A) where
  -- What holds of the changed rows, and held of the others, holds of all rows.
  pub All-update_many :
      (P : A → Type 0) (xs : List A)
      → ((x : A) → p x ≡ true → P (f x))
      → ((x : A) → p x ≡ false → P x)
      → All P (update_many p f xs).0
  unfolding update_many
  All-update_many P [] hit miss = tt
  All-update_many P (x ∷ xs) hit miss = ground (arith, All-update_many P xs hit miss, hit x, miss x)

  -- What follows for the changed rows and for the others holds of all rows.
  pub All-update_many_imp :
      (P Q : A → Type 0) (xs : List A)
      → ((x : A) → P x → p x ≡ true → Q (f x))
      → ((x : A) → P x → p x ≡ false → Q x)
      → All P xs
      → All Q (update_many p f xs).0
  unfolding update_many
  All-update_many_imp P Q [] hit miss h = tt
  All-update_many_imp P Q (x ∷ xs) hit miss (h, hs) =
      ground (arith, All-update_many_imp P Q xs hit miss hs, hit x h, miss x h)

  -- A condition that no row meets changes nothing.
  pub update_many_none : (xs : List A) → All (λ x. p x ≡ false) xs → update_many p f xs ≡ (xs, 0)
  unfolding update_many
  update_many_none [] h = refl
  update_many_none (x ∷ xs) h = ground (arith, update_many_none xs h.1)

  -- A search by the condition of the change finds the first match in its new form.
  pub find-update_many_same :
      (x : A) (xs : List A)
      → ((y : A) → p y ≡ true → p (f y) ≡ true)
      → find p xs ≡ some x
      → find p (update_many p f xs).0 ≡ some (f x)
  unfolding update_many
  find-update_many_same x [] same e = cc
  find-update_many_same x (y ∷ ys) same e = elim (Bool-cases (p y)) [
    | inl h ↦ rw h (rw (same y h) (ap (map_found f) (sym (find_hit p y ys h) ∙ e)))
    | inr h ↦ rw h (rw h (find-update_many_same x ys same (sym (find_miss p y ys h) ∙ e)))
  ]

  -- A row that does not match stays.
  pub Has-update_many :
      (x : A) (xs : List A) → Has x xs → p x ≡ false → Has x (update_many p f xs).0
  unfolding update_many
  Has-update_many x [] h e = h
  Has-update_many x (y ∷ ys) h e = ground (arith, Has-update_many x ys)

  -- A row that matches is there in its new form.
  pub Has-update_many_changed :
      (x : A) (xs : List A) → Has x xs → p x ≡ true → Has (f x) (update_many p f xs).0
  unfolding update_many
  Has-update_many_changed x [] h e = h
  Has-update_many_changed x (y ∷ ys) (inl m) e =
      subst (λ z. p z ≡ true → Has (f z) (update_many p f (y ∷ ys)).0) m (λ q. ground arith) e
  Has-update_many_changed x (y ∷ ys) (inr m) e = ground (arith, Has-update_many_changed x ys m e)

module _ {A : Type 0} (id : A → ℕ) (p : A → Bool) (f : A → A) where
  pub apart : (x y : A) (ys : List A) → All (λ z. id z ≢ id y) ys → Has x ys → id y ≢ id x
  apart x y ys h m e = All-Has (λ z. id z ≢ id y) x ys h m (sym e)

  -- No row is counted where none has the identifier that the condition asks for.
  none_counted :
      (x : A) (xs : List A)
      → ((y : A) → p y ≡ true → id y ≡ id x)
      → All (λ y. id y ≢ id x) xs
      → (update_many p f xs).1 ≡ 0
  unfolding update_many
  none_counted x [] only h = refl
  none_counted x (y ∷ ys) only h = ground (arith, none_counted x ys only, only y)

  -- A condition on an identifier matches one row.
  pub update_many_one :
      (x : A) (xs : List A)
      → UniqueBy id xs
      → Has x xs
      → p x ≡ true
      → ((y : A) → p y ≡ true → id y ≡ id x)
      → (update_many p f xs).1 ≡ 1
  unfolding update_many
  update_many_one x [] u m e only = elim m [ ]
  update_many_one x (y ∷ ys) (h, u) (inl q) e only =
      let e' = subst (λ z. p z ≡ true) (sym q) e in
      let h' = subst (λ z. All (λ w. id w ≢ id z) ys) q h in
      ground (arith, none_counted x ys only h')
  update_many_one x (y ∷ ys) (h, u) (inr m) e only =
      ground (arith, apart x y ys h m, only y, update_many_one x ys u m e only)

  -- A search that the changed row answers, and no other row, finds the changed row.
  pub find-update_many :
      (p' : A → Bool) (x : A) (xs : List A)
      → UniqueBy id xs
      → Has x xs
      → p x ≡ true
      → ((y : A) → p y ≡ true → id y ≡ id x)
      → p' (f x) ≡ true
      → All (λ y. id y ≢ id x → p' y ≡ false) xs
      → find p' (update_many p f xs).0 ≡ some (f x)
  unfolding update_many
  find-update_many p' x [] u m e only hit others = elim m [ ]
  find-update_many p' x (y ∷ ys) (h, u) (inl q) e only hit others =
      let e' = subst (λ z. p z ≡ true) (sym q) e in
      let hit' = subst (λ z. p' (f z) ≡ true) (sym q) hit in
      subst (λ z. find p' (update_many p f (y ∷ ys)).0 ≡ some (f z)) q (ground (arith))
  find-update_many p' x (y ∷ ys) (h, u) (inr m) e only hit (o, os) =
      let d = apart x y ys h m in
      let rest = find-update_many p' x ys u m e only hit os in ground (arith, only y, o d)

  -- The row that a search by identifier finds is the only one that it matches.
  found_is_only :
      (x : A) (xs : List A)
      → UniqueBy id xs
      → find p xs ≡ some x
      → ((y z : A) → p y ≡ true → p z ≡ true → id z ≡ id y)
      → All (λ y. p y ≡ true → y ≡ x) xs
  found_is_only x [] u e only = cc
  found_is_only x (y ∷ ys) (h, u) e only = elim (Bool-cases (p y)) [
    | inl k ↦
        let is_x = some_inj.0 (sym (find_hit p y ys k) ∙ e) in
        (
          λ q. is_x,
          All-imp (λ z. id z ≢ id y) (λ z. p z ≡ true → z ≡ x) ys
              (λ z d q. elim (d (only y z k q)) [ ]) h,
        )
    | inr k ↦ (λ q. cc, found_is_only x ys u (sym (find_miss p y ys k) ∙ e) only)
  ]

  -- A change of the row that a search by identifier finds.
  pub All-update_found :
      (P : A → Type 0) (x : A) (xs : List A)
      → UniqueBy id xs
      → find p xs ≡ some x
      → ((y z : A) → p y ≡ true → p z ≡ true → id z ≡ id y)
      → (P x → P (f x))
      → All P xs
      → All P (update_many p f xs).0
  All-update_found P x xs u e only step all =
      All-update_many_imp p f (λ y. P y × (p y ≡ true → y ≡ x)) P xs
        (λ y h q. subst (λ z. P z → P (f z)) (sym (h.1 q)) step h.0) (λ y h q. h.0)
        (All_both P (λ y. p y ≡ true → y ≡ x) xs all (found_is_only x xs u e only))

  -- Changes that keep the identifiers keep them unique.
  pub UniqueBy-update_many :
      (xs : List A)
      → ((x : A) → id (f x) ≡ id x)
      → UniqueBy id xs
      → UniqueBy id (update_many p f xs).0
  unfolding update_many
  UniqueBy-update_many [] same u = tt
  UniqueBy-update_many (x ∷ xs) same (h, u) =
      let rest = UniqueBy-update_many xs same u in
      let others =
        All-update_many_imp p f (λ y. id y ≢ id x) (λ y. id y ≢ id x) xs (λ y d q. rw (same y) d)
          (λ y d q. d) h in
      elim (Bool-cases (p x)) [
        | inl k ↦ rw k (rw (same x) (others, rest))
        | inr k ↦ rw k (others, rest)
      ]
