-- ===== src/Database/ListDatabase/RemoveLaws.antt =====
-- Which elements list_remove of vanity/db/db/list_database.cpp erases, and where it is defined.
use vanity.Base.{
  ℕ, zero, suc, ◌+◌, ◌-◌, ◌≤◌, ltb, ℤ, pos, negsuc, ◌≡◌, refl, ap, ◌⊎◌, inl, inr, Bool, true, false,
  ◌&&◌, Option, none, some, List, [], ◌∷◌, ◌++◌, ◌∙◌, sym, length-reverse, arith, length, reverse,
  ok, if◌then◌else◌,
}
use Prim.Native.Nat.{min}
use mathlib.Core.Path.{subst}
use mathlib.Core.List.{reverse-append, reverse-reverse, append-nil}
use vanity.Std.Text.{Text, text_eq}
use vanity.Std.Map.{find}
use vanity.Operations.{list_t}
use vanity.Database.{Database}
use vanity.Database.Expiry.{refresh}
use vanity.Database.ListDatabase.{store_list}
use vanity.Database.ListDatabase.Ranges.{
  remove_front, remove_back, remove_every, remove_list, remove_found, list_remove, answer,
}

-- How often a list has an element, and whether it ends with it.
unfoldable pub count : Text → List Text → ℕ
count x [] = 0
count x (y ∷ l) = let rest = count x l in if text_eq y x then rest + 1 else rest

unfoldable pub ends_with : Text → List Text → Bool
ends_with x [] = false
ends_with x (y ∷ []) = text_eq y x
ends_with x (y ∷ z ∷ l) = ends_with x (z ∷ l)

-- The loop from the back does what the loop from the front does on the reversed list, unless it erases
-- the last element that it looks at and may still erase another.
unfoldable erased_back : Text → ℕ → List Text → Option (List Text)
erased_back x n r = if ends_with x r && ltb (count x r) n then none else some (remove_front x n r)

remove_back-one :
    (x : Text) (n : ℕ) (y : Text) → remove_back x (suc n) (y ∷ []) ≡ erased_back x (suc n) (y ∷ [])
unfolding remove_back erased_back ends_with count remove_front
remove_back-one x n y = ground arith

remove_back-step :
    (x : Text) (n : ℕ) (y z : Text) (r : List Text)
    → remove_back x n (z ∷ r) ≡ erased_back x n (z ∷ r)
    → remove_back x (suc n) (z ∷ r) ≡ erased_back x (suc n) (z ∷ r)
    → remove_back x (suc n) (y ∷ z ∷ r) ≡ erased_back x (suc n) (y ∷ z ∷ r)
unfolding remove_back erased_back ends_with count remove_front
remove_back-step x n y z r h k = ground arith

remove_back-zero : (x : Text) (r : List Text) → remove_back x zero r ≡ erased_back x zero r
unfolding remove_back erased_back remove_front
remove_back-zero x r = ground arith

remove_back-nil : (x : Text) (n : ℕ) → remove_back x (suc n) [] ≡ erased_back x (suc n) []
unfolding remove_back erased_back remove_front ends_with
remove_back-nil x n = refl

remove_back_lem : (x : Text) (n : ℕ) (r : List Text) → remove_back x n r ≡ erased_back x n r
remove_back_lem x zero r = remove_back-zero x r
remove_back_lem x (suc n) [] = remove_back-nil x n
remove_back_lem x (suc n) (y ∷ []) = remove_back-one x n y
remove_back_lem x (suc n) (y ∷ z ∷ r) =
    remove_back-step x n y z r (remove_back_lem x n (z ∷ r)) (remove_back_lem x (suc n) (z ∷ r))

remove_front-every :
    (x : Text) (n : ℕ) (l : List Text) → count x l ≤ n → remove_front x n l ≡ remove_every x l
unfolding remove_front remove_every count
remove_front-every x zero [] h = refl
remove_front-every x zero (y ∷ l) h = ground (arith, remove_front-every x zero l)
remove_front-every x (suc n) [] h = refl
remove_front-every x (suc n) (y ∷ l) h =
    ground (arith, remove_front-every x n l, remove_front-every x (suc n) l)

length-remove_front :
    (x : Text) (n : ℕ) (l : List Text) → length (remove_front x n l) + min n (count x l) ≡ length l
unfolding remove_front count
length-remove_front x zero l = omega arith
length-remove_front x (suc n) [] = omega arith
length-remove_front x (suc n) (y ∷ l) =
    ground (arith, length-remove_front x n l, length-remove_front x (suc n) l)

length-remove_every : (x : Text) (l : List Text) → length (remove_every x l) + count x l ≡ length l
unfolding remove_every count
length-remove_every x [] = refl
length-remove_every x (y ∷ l) = ground (arith, length-remove_every x l)

count-append : (x : Text) (l m : List Text) → count x (l ++ m) ≡ count x l + count x m
unfolding count
count-append x [] m = omega arith
count-append x (y ∷ l) m = ground (arith, count-append x l m)

count-reverse : (x : Text) (l : List Text) → count x (reverse l) ≡ count x l
unfolding count
count-reverse x [] = refl
count-reverse x (y ∷ l) =
    rw (reverse-append (y ∷ []) l)
      (ground (arith, count-append x (reverse l) (y ∷ []), count-reverse x l))

ends_with-append : (x y : Text) (l : List Text) → ends_with x (l ++ y ∷ []) ≡ text_eq y x
unfolding ends_with
ends_with-append x y [] = refl
ends_with-append x y (z ∷ []) = refl
ends_with-append x y (z ∷ w ∷ l) = ends_with-append x y (w ∷ l)

unfoldable pub starts_with : Text → List Text → Bool
starts_with x [] = false
starts_with x (y ∷ l) = text_eq y x

ends_with-reverse : (x : Text) (l : List Text) → ends_with x (reverse l) ≡ starts_with x l
unfolding ends_with starts_with
ends_with-reverse x [] = refl
ends_with-reverse x (y ∷ l) = rw (reverse-append (y ∷ []) l) (ends_with-append x y (reverse l))

-- What a count asks for: the first elements, the last ones, or all.
abbrev pub removed_from : Text → ℤ → List Text → Option (List Text)
removed_from x (pos zero) l = some (remove_every x l)
removed_from x (pos (suc n)) l = some (remove_front x (suc n) l)
removed_from x (negsuc n) l =
    if starts_with x l && ltb (count x l) (suc n)
    then none
    else some (reverse (remove_front x (suc n) (reverse l)))

remove_list_lem : (x : Text) (c : ℤ) (l : List Text) → remove_list x c l ≡ removed_from x c l
unfolding remove_list erased_back
remove_list_lem x (pos zero) l = refl
remove_list_lem x (pos (suc n)) l = ground arith
remove_list_lem x (negsuc n) l =
    ground (arith, remove_back_lem x (suc n) (reverse l), ends_with-reverse x l, count-reverse x l)

-- How many elements a count asks for, of n that there are.
abbrev pub asked : ℤ → ℕ → ℕ
asked (pos zero) n = n
asked (pos (suc m)) n = min (suc m) n
asked (negsuc m) n = min (suc m) n

length-removed_from :
    (x : Text) (c : ℤ) (l kept : List Text)
    → removed_from x c l ≡ some kept
    → length l - length kept ≡ asked c (count x l)
length-removed_from x (pos zero) l kept h = ground (arith, length-remove_every x l)
length-removed_from x (pos (suc n)) l kept h = ground (arith, length-remove_front x (suc n) l)
length-removed_from x (negsuc n) l kept h = ground (
  arith,
  length-remove_front x (suc n) (reverse l),
  count-reverse x l,
  length-reverse l,
  length-reverse (remove_front x (suc n) (reverse l)),
)

-- The elements that differ from x, in their order.
unfoldable pub others : Text → List Text → List Text
others x [] = []
others x (y ∷ l) = if text_eq y x then others x l else y ∷ others x l

-- The list falls in two parts, and the elements equal to x are erased from the first, n of them.
abbrev pub ErasesFront : Text → ℕ → List Text → List Text → Type 0
ErasesFront x n l kept =
    (front back : List Text) × ((l ≡ front ++ back)
      × (kept ≡ others x front ++ back)
      × (count x front ≡ n))

-- The same for the second part.
abbrev pub ErasesBack : Text → ℕ → List Text → List Text → Type 0
ErasesBack x n l kept =
    (front back : List Text) × ((l ≡ front ++ back)
      × (kept ≡ front ++ others x back)
      × (count x back ≡ n))

remove_front-ErasesFront :
    (x : Text) (n : ℕ) (l : List Text) → ErasesFront x (min n (count x l)) l (remove_front x n l)
unfolding remove_front others count
remove_front-ErasesFront x zero l = ([], l, (refl, refl, omega arith))
remove_front-ErasesFront x (suc n) [] = ([], [], (refl, refl, omega arith))
remove_front-ErasesFront x (suc n) (y ∷ l) =
    step (text_eq y x) refl (remove_front-ErasesFront x n l) (remove_front-ErasesFront x (suc n) l)
  where
    step :
        (b : Bool)
        → text_eq y x ≡ b
        → ErasesFront x (min n (count x l)) l (remove_front x n l)
        → ErasesFront x (min (suc n) (count x l)) l (remove_front x (suc n) l)
        → ErasesFront x (min (suc n) (count x (y ∷ l))) (y ∷ l) (remove_front x (suc n) (y ∷ l))
    step true e (front, back, (p, q, r)) _ =
        (y ∷ front, back, (ap (λ m. y ∷ m) p, ground (arith, e, q), ground (arith, e, r)))
    step false e _ (front, back, (p, q, r)) =
        (y ∷ front, back, (ap (λ m. y ∷ m) p, ground (arith, e, q), ground (arith, e, r)))

others-append : (x : Text) (l m : List Text) → others x (l ++ m) ≡ others x l ++ others x m
unfolding others
others-append x [] m = refl
others-append x (y ∷ l) m = ground (arith, others-append x l m)

others-reverse : (x : Text) (l : List Text) → reverse (others x l) ≡ others x (reverse l)
unfolding others
others-reverse x [] = refl
others-reverse x (y ∷ l) =
    rw (reverse-append (y ∷ []) l, others-append x (reverse l) (y ∷ []), sym (others-reverse x l))
      (step (text_eq y x) refl)
  where
    step :
        (b : Bool)
        → text_eq y x ≡ b
        → reverse (others x (y ∷ l)) ≡ reverse (others x l) ++ others x (y ∷ [])
    step true e = rw e (sym (append-nil (reverse (others x l))))
    step false e = rw e (reverse-append (y ∷ []) (others x l))

-- What is erased from the front of the reversed list is erased from the back of the list.
ErasesFront-reverse :
    (x : Text) (n : ℕ) (l kept : List Text)
    → ErasesFront x n (reverse l) kept
    → ErasesBack x n l (reverse kept)
ErasesFront-reverse x n l kept (front, back, (p, q, r)) = (
  reverse back,
  reverse front,
  (
    sym (reverse-reverse l) ∙ ap reverse p ∙ reverse-append front back,
    ap reverse q
        ∙ reverse-append (others x front) back
        ∙ ap (λ m. reverse back ++ m) (others-reverse x front),
    count-reverse x front ∙ r,
  ),
)

remove_every-others : (x : Text) (l : List Text) → remove_every x l ≡ others x l
unfolding remove_every others
remove_every-others x [] = refl
remove_every-others x (y ∷ l) = ground (arith, remove_every-others x l)

remove_every-Erases : (x : Text) (l : List Text) → ErasesFront x (count x l) l (remove_every x l)
remove_every-Erases x l =
    (l, [], (sym (append-nil l), remove_every-others x l ∙ sym (append-nil (others x l)), refl))

remove_back-Erases :
    (x : Text) (n : ℕ) (l : List Text)
    → ErasesBack x (min n (count x l)) l (reverse (remove_front x n (reverse l)))
remove_back-Erases x n l =
    subst (λ k. ErasesBack x (min n k) l (reverse (remove_front x n (reverse l))))
      (count-reverse x l) (ErasesFront-reverse x _ l _ (remove_front-ErasesFront x n (reverse l)))

-- What LIST_REMOVE erases: as many of the elements equal to x as the count asks for, from the front for
-- a count that is not negative and from the back for a negative one.
abbrev pub Erases : Text → ℤ → List Text → List Text → Type 0
Erases x (pos n) l kept = ErasesFront x (asked (pos n) (count x l)) l kept
Erases x (negsuc n) l kept = ErasesBack x (asked (negsuc n) (count x l)) l kept

-- The count is negative, there are fewer elements to erase than it asks for, and the first element of
-- the list is one of them.
abbrev pub overruns : Text → ℤ → List Text → Bool
overruns x (pos n) l = false
overruns x (negsuc n) l = starts_with x l && ltb (count x l) (suc n)

-- A result is undefined exactly where the count overruns the list, and is else what is made of the list
-- without the erased elements.
abbrev pub Removed : {A : Type 0} → Text → ℤ → List Text → Option A → (List Text → A) → Type 0
Removed x c l result make =
    ((overruns x c l ≡ true) × (result ≡ none))
    ⊎ ((overruns x c l ≡ false)
        × ((kept : List Text) × (Erases x c l kept × (result ≡ some (make kept)))))

removed_from-Removed :
    (x : Text) (c : ℤ) (l : List Text) → Removed x c l (removed_from x c l) (λ kept. kept)
removed_from-Removed x (pos zero) l =
    inr (refl, (remove_every x l, (remove_every-Erases x l, refl)))
removed_from-Removed x (pos (suc n)) l =
    inr (refl, (remove_front x (suc n) l, (remove_front-ErasesFront x (suc n) l, refl)))
removed_from-Removed x (negsuc n) l = step (overruns x (negsuc n) l) refl
  where
    step :
        (b : Bool)
        → overruns x (negsuc n) l ≡ b
        → Removed x (negsuc n) l (removed_from x (negsuc n) l) (λ kept. kept)
    step true e = inl (e, rw e refl)
    step false e = inr (
      e,
      (reverse (remove_front x (suc n) (reverse l)), (remove_back-Erases x (suc n) l, rw e refl)),
    )

module _ (now : ℤ) (key x : Text) (c : ℤ) (l : List Text) (db : Database) where
  list_remove-removed_from :
      find key (refresh now key db).m_data ≡ some (list_t l)
      → list_remove now key x c db
        ≡ answer
            (λ kept. (ok (length l - length kept), store_list key kept (refresh now key db)))
            (removed_from x c l)
  unfolding list_remove remove_found
  list_remove-removed_from h = rw (h, remove_list_lem x c l) refl

  -- LIST_REMOVE of a list erases elements equal to the given one: all of them for a count of 0, else as
  -- many as the absolute value of the count or as there are, those at the front for a positive count
  -- and those at the back for a negative one. It keeps the other elements in their order, stores them
  -- and answers with the number of those it erased. Only for a negative count that asks for more than
  -- there are, where the list also starts with the element, is the call undefined.
  pub list_remove_lem :
      find key (refresh now key db).m_data ≡ some (list_t l)
      → Removed x c l
          (list_remove now key x c db)
          (λ kept. (ok (asked c (count x l)), store_list key kept (refresh now key db)))
  list_remove_lem h = step (removed_from-Removed x c l)
    where
      step :
          Removed x c l (removed_from x c l) (λ kept. kept)
          → Removed x c l
              (list_remove now key x c db)
              (λ kept. (ok (asked c (count x l)), store_list key kept (refresh now key db)))
      step (inl (o, r)) = inl (o, list_remove-removed_from h ∙ rw r refl)
      step (inr (o, (kept, (e, r)))) = inr (
        o,
        (kept, (e, list_remove-removed_from h ∙ rw r (rw (length-removed_from x c l kept r) refl))),
      )
